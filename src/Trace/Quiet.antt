-- ===== src/Trace/Quiet.antt =====
-- arm_simulator-1.4/trace.c: printing where the accesses of registers are not traced. One rule for each way
-- to build a command that prints.
use arm_processor_simulator.Base.{
  ℕ, Bool, true, false, ◌&&◌, ◌||◌, List, [], ◌∷◌, ◌++◌, ◌≡◌, refl, sym, ◌∙◌, ap, Outcome, done,
  fault, exited, aborted, ◌==◌, if◌then◌else◌, ◌>>=◌ as and_then, if_true, if_false, append_assoc,
}
use arm_processor_simulator.Constants.{usr, fiq, irq, svc, abt, und}
use arm_processor_simulator.Core
use arm_processor_simulator.Core.{Core, Command}
use arm_processor_simulator.Core.Print
use arm_processor_simulator.Core.Print.{
  Printed, mode_name, next_line, register, status, end_of_line, blanks,
}
use arm_processor_simulator.Trace.{
  Trace, state_text, has_flag, registers_flag, is_set, trace_register,
}
use arm_processor_simulator.Trace.Accesses.{Machine, Traced, pure, ◌>>=◌, ◌>>◌, on_core, on_trace}
use arm_processor_simulator.Trace.Print.{lift, show, show_if, print_end}
use arm_processor_simulator.Trace.Erasure.{machine}

-- The trace with texts printed, the first of them first.
abbrev pub shown : List Printed → Trace → Trace
shown [] t = t
shown (x ∷ xs) t = shown xs (record t { output = state_text x ∷ t.output })

-- A file is set, and the accesses of registers are not traced.
pub record IsQuiet (t : Trace) : Type 0 where
  pub ready : is_set t.file ≡ true
  pub silent : (t.enabled && has_flag registers_flag t) ≡ false

pub IsQuiet-shown : (xs : List Printed) (t : Trace) → IsQuiet t → IsQuiet (shown xs t)
IsQuiet-shown [] t h = h
IsQuiet-shown (x ∷ xs) t h =
    IsQuiet-shown xs (record t { output = state_text x ∷ t.output })
      (record { ready = h.ready; silent = h.silent })

pub shown-append : (xs ys : List Printed) (t : Trace) → shown (xs ++ ys) t ≡ shown ys (shown xs t)
shown-append [] ys t = refl
shown-append (x ∷ xs) ys t = shown-append xs ys (record t { output = state_text x ∷ t.output })

abbrev pub after : Trace → Outcome (List Printed × Core) → Outcome (Unit {0} × Machine)
after t o = and_then o (λ (xs, p). done (tt, machine p (shown xs t)))

-- `m` prints what `c` gives.
pub record Prints (m : Traced (Unit {0})) (c : Command (List Printed)) : Type 0 where
  pub at : (p : Core) (t : Trace) → IsQuiet t → m (machine p t) ≡ after t (c p)

-- `m` gives what `c` gives, and prints nothing.
pub record Gives {A : Type 0} (m : Traced A) (c : Command A) : Type 0 where
  pub at :
      (p : Core) (t : Trace)
      → IsQuiet t
      → m (machine p t) ≡ and_then (c p) (λ (a, p'). done (a, machine p' t))

pub Prints-none : Prints (pure tt) (Core.pure [])
Prints-none = record { at = λ p t h. refl }

pub Prints-show : (x : Printed) → Prints (show x) (Core.pure (x ∷ []))
Prints-show x = record {
  at = λ p t h.
      ap (λ o. and_then o (λ t'. done (tt, machine p t'))) (if_true (is_set t.file) _ _ h.ready);
}

pub Prints-show_if :
    (b : Bool) (x : Printed) → Prints (show_if b x) (Core.pure (if b then x ∷ [] else []))
Prints-show_if true x = Prints-show x
Prints-show_if false x = Prints-none

pub after-append :
    (xs : List Printed) (t : Trace) (o : Outcome (List Printed × Core))
    → after (shown xs t) o ≡ after t (and_then o (λ (ys, p). done (xs ++ ys, p)))
after-append xs t (done (ys, p)) = ap (λ t'. done (tt, machine p t')) (sym (shown-append xs ys t))
after-append xs t fault = refl
after-append xs t exited = refl
after-append xs t aborted = refl

pub then_print :
    (n : Traced (Unit {0})) (d : Command (List Printed))
    → Prints n d
    → (o : Outcome (List Printed × Core)) (t : Trace) → IsQuiet t
    → and_then (after t o) (λ (_, m). n m)
      ≡ after t (and_then o (λ (xs, p). and_then (d p) (λ (ys, p'). done (xs ++ ys, p'))))
then_print n d hn (done (xs, p)) t h =
    hn.at p (shown xs t) (IsQuiet-shown xs t h) ∙ after-append xs t (d p)
then_print n d hn fault t h = refl
then_print n d hn exited t h = refl
then_print n d hn aborted t h = refl

-- What one command gives, and then another.
abbrev pub both : Command (List Printed) → Command (List Printed) → Command (List Printed)
both c d = Core.◌>>=◌ c (λ xs. Core.◌>>=◌ d (λ ys. Core.pure (xs ++ ys)))

pub Prints->> :
    (m n : Traced (Unit {0})) (c d : Command (List Printed))
    → Prints m c
    → Prints n d
    → Prints (m >> n) (both c d)
Prints->> m n c d hm hn = record {
  at = λ p t h. ap (λ o. and_then o (λ (_, m'). n m')) (hm.at p t h) ∙ then_print n d hn (c p) t h;
}

pub then_give :
    {A : Type 0} (k : A → Traced (Unit {0})) (d : A → Command (List Printed))
    → ((a : A) → Prints (k a) (d a))
    → (o : Outcome (A × Core)) (t : Trace) → IsQuiet t
    → and_then (and_then o (λ (a, p). done (a, machine p t))) (λ (a, m). k a m)
      ≡ after t (and_then o (λ (a, p). d a p))
then_give k d hk (done (a, p)) t h = (hk a).at p t h
then_give k d hk fault t h = refl
then_give k d hk exited t h = refl
then_give k d hk aborted t h = refl

pub Prints-Gives :
    {A : Type 0} (m : Traced A) (c : Command A) (k : A → Traced (Unit {0}))
    (d : A → Command (List Printed))
    → Gives m c
    → ((a : A) → Prints (k a) (d a))
    → Prints (m >>= k) (Core.◌>>=◌ c d)
Prints-Gives m c k d hm hk = record {
  at = λ p t h. ap (λ o. and_then o (λ (a, m'). k a m')) (hm.at p t h) ∙ then_give k d hk (c p) t h;
}

pub Prints-eq :
    (m : Traced (Unit {0})) (c d : Command (List Printed))
    → ((p : Core) → c p ≡ d p)
    → Prints m c
    → Prints m d
Prints-eq m c d e h = record { at = λ p t quiet. h.at p t quiet ∙ ap (after t) (e p) }

pub Prints-if :
    (b : Bool) (m n : Traced (Unit {0})) (c d : Command (List Printed))
    → Prints m c
    → Prints n d
    → Prints (if b then m else n) (if b then c else d)
Prints-if true m n c d hm hn = hm
Prints-if false m n c d hm hn = hn

pub bind_assoc :
    {A B C : Type 0} (o : Outcome A) (f : A → Outcome B) (g : B → Outcome C)
    → and_then (and_then o f) g ≡ and_then o (λ a. and_then (f a) g)
bind_assoc (done a) f g = refl
bind_assoc fault f g = refl
bind_assoc exited f g = refl
bind_assoc aborted f g = refl

pub regroup :
    (lead : List Printed) (name : Outcome (List ℕ)) (value : Command ℕ)
    (rest : Command (List Printed)) (p : Core)
    → both
        (both (Core.pure lead) (
          Core.◌>>=◌
            (Core.Print.lift name)
            (λ text. Core.◌>>=◌ value (λ v. Core.pure (register text v ∷ [])))))
        rest
        p
      ≡ Core.◌>>=◌
          (Core.Print.lift name)
          (λ text.
            Core.◌>>=◌ value
              (λ v. Core.◌>>=◌ rest (λ xs. Core.pure (lead ++ register text v ∷ xs))))
          p
regroup lead name value rest p = simp (bind_assoc, append_assoc)

pub give_quietly :
    {A : Type 0} (f : A → Core → Trace → Outcome Trace)
    → ((a : A) (p : Core) (t : Trace) → IsQuiet t → f a p t ≡ done t)
    → (o : Outcome (A × Core)) (t : Trace) → IsQuiet t
    → and_then
        (and_then o (λ (a, p). done (a, machine p t)))
        (λ (a, m). (on_trace (f a) >> pure a) m)
      ≡ and_then o (λ (a, p). done (a, machine p t))
give_quietly f silent (done (a, p)) t h =
    ap (λ o. and_then (and_then o (λ t'. done (tt, machine p t'))) (λ (_, m). done (a, m)))
      (silent a p t h)
give_quietly f silent fault t h = refl
give_quietly f silent exited t h = refl
give_quietly f silent aborted t h = refl

pub Gives-access :
    {A : Type 0} (c : Command A) (f : A → Core → Trace → Outcome Trace)
    → ((a : A) (p : Core) (t : Trace) → IsQuiet t → f a p t ≡ done t)
    → Gives (on_core c >>= λ a. on_trace (f a) >> pure a) c
Gives-access c f silent = record { at = λ p t h. give_quietly f silent (c p) t h }

pub register_quiet :
    (format : Bool) (cycle type reg mode value : ℕ) (t : Trace)
    → IsQuiet t
    → trace_register format cycle type reg mode value t ≡ done t
unfolding trace_register
register_quiet format cycle type reg mode value t h =
    if_false (t.enabled && has_flag registers_flag t) _ _ h.silent

pub Gives-lift : {A : Type 0} (o : Outcome A) → Gives (lift o) (Core.Print.lift o)
Gives-lift (done a) = record { at = λ p t h. refl }
Gives-lift fault = record { at = λ p t h. refl }
Gives-lift exited = record { at = λ p t h. refl }
Gives-lift aborted = record { at = λ p t h. refl }

pub Prints-choice :
    (b : Bool) (m n : Traced (Unit {0})) (xs ys : List Printed)
    → Prints m (Core.pure xs)
    → Prints n (Core.pure ys)
    → Prints (if b then m else n) (Core.pure (if b then xs else ys))
Prints-choice true m n xs ys hm hn = hm
Prints-choice false m n xs ys hm hn = hn

pub Prints-end : (mode : ℕ) → Prints (print_end mode) (Core.pure (Core.Print.mode_end mode))
Prints-end mode =
    Prints-choice (mode == usr || mode == fiq || mode == svc || mode == und) _ _ _ _
      (Prints-show end_of_line)
      (Prints-choice (mode == irq || mode == abt) _ _ _ _ (Prints-show blanks) Prints-none)
