-- ===== src/Trace/Erasure.antt =====
-- arm_simulator-1.4/arm_core.c: tracing changes nothing of the processor. One rule for each way to
-- build a traced command.
use arm_processor_simulator.Base.{
  ℕ, suc, ◌≤◌, arith, ◌≡◌, refl, sym, ◌∙◌, ap, Outcome, done, fault, exited, aborted,
  ◌>>=◌ as and_then, >>=-eq-done, subst, List,
}
use arm_processor_simulator.Core
use arm_processor_simulator.Core.{Core, Command}
use arm_processor_simulator.Trace.{Trace, trace_start_location, trace_end_location}
use arm_processor_simulator.Trace.Accesses.{
  Machine, Traced, pure, ◌>>=◌, ◌>>◌, on_core, on_trace, located,
}
use arm_processor_simulator.Trace.Follows.{
  Follows, Follows-refl, Follows-trans, HasRoom, HasRoom-Follows, Adds,
  trace_start_location-Entered,
}

abbrev pub machine : Core → Trace → Machine
machine p t = record { core = p; trace = t }

-- The outcome for the processor alone.
abbrev pub erase : {A : Type 0} → Outcome (A × Machine) → Outcome (A × Core)
erase m = and_then m (λ (a, m'). done (a, m'.core))

-- With room for the locations, `m` does to the processor what `c` does, and adds lines to the trace.
pub record Erases {A : Type 0} (room : ℕ) (m : Traced A) (c : Command A) : Type 0 where
  pub same : (p : Core) (t : Trace) → HasRoom room t → erase (m (machine p t)) ≡ c p
  pub follows :
      (p : Core) (t : Trace) (a : A) (m' : Machine)
      → HasRoom room t
      → m (machine p t) ≡ done (a, m')
      → Follows t m'.trace

erase-on_core :
    {A : Type 0} (o : Outcome (A × Core)) (t : Trace)
    → erase (and_then o (λ (a, p). done (a, machine p t))) ≡ o
erase-on_core (done x) t = refl
erase-on_core fault t = refl
erase-on_core exited t = refl
erase-on_core aborted t = refl

module _ {A : Type 0} (room : ℕ) where
  pub Erases-pure : (a : A) → Erases room (pure a) (Core.pure a)
  Erases-pure a = record {
    same = λ p t h. refl;
    follows = λ p t b m' h e. let at : t ≡ m'.trace = cc in subst (Follows t) at (Follows-refl t);
  }

  pub Erases-on_core : (c : Command A) → Erases room (on_core c) c
  Erases-on_core c = record {
    same = λ p t h. erase-on_core (c p) t;
    follows = λ p t b m' h e.
        let ((a, p'), first, last) = >>=-eq-done (c p) (λ (a, p'). done (a, machine p' t)) e in
        let at : t ≡ m'.trace = cc in subst (Follows t) at (Follows-refl t);
  }

module _ (room : ℕ) where
  pub Erases-on_trace :
      (f : Core → Trace → Outcome Trace)
      → ((p : Core) (t : Trace) → HasRoom room t → Adds t (f p t))
      → Erases room (on_trace f) (Core.pure tt)
  Erases-on_trace f h = record {
    same = λ p t room_for.
        let (t', at, _) = h p t room_for in
        ap (λ o. erase (and_then o (λ t''. done (tt, machine p t'')))) at;
    follows = λ p t b m' room_for e.
        let (t', at, added) = h p t room_for in
        let there : t' ≡ m'.trace = cc in subst (Follows t) there added;
  }

module _ {A B : Type 0} (room : ℕ) where
  then-same :
      (m : Traced A) (c : Command A) (k : A → Traced B) (d : A → Command B)
      → Erases room m c
      → ((a : A) → Erases room (k a) (d a))
      → (p : Core) (t : Trace) → HasRoom room t
      → (o : Outcome (A × Machine)) → m (machine p t) ≡ o
      → erase (and_then o (λ (a, m'). k a m')) ≡ and_then (erase o) (λ (a, p'). d a p')
  then-same m c k d hm hk p t h (done (a, m')) e =
      (hk a).same m'.core m'.trace (HasRoom-Follows room t m'.trace (hm.follows p t a m' h e) h)
  then-same m c k d hm hk p t h fault e = refl
  then-same m c k d hm hk p t h exited e = refl
  then-same m c k d hm hk p t h aborted e = refl

  pub Erases->>= :
      (m : Traced A) (c : Command A) (k : A → Traced B) (d : A → Command B)
      → Erases room m c
      → ((a : A) → Erases room (k a) (d a))
      → Erases room (m >>= k) (Core.◌>>=◌ c d)
  Erases->>= m c k d hm hk = record {
    same = λ p t h.
        then-same m c k d hm hk p t h (m (machine p t)) refl
        ∙ ap (λ o. and_then o (λ (a, p'). d a p')) (hm.same p t h);
    follows = λ p t b m' h e.
        let ((a, mid), first, last) = >>=-eq-done (m (machine p t)) (λ (a, m''). k a m'') e in
        let begun = hm.follows p t a mid h first in
        Follows-trans t mid.trace m'.trace begun
          ((hk a).follows mid.core mid.trace b m' (HasRoom-Follows room t mid.trace begun h) last);
  }

module _ {A : Type 0} (room : ℕ) where
  pub Erases-eq :
      (m : Traced A) (c d : Command A)
      → ((p : Core) → c p ≡ d p)
      → Erases room m c
      → Erases room m d
  Erases-eq m c d e h = record {
    same = λ p t room_for. h.same p t room_for ∙ e p;
    follows = h.follows;
  }

  pub pure_last : (o : Outcome (A × Core)) → and_then o (λ (a, p). done (a, p)) ≡ o
  pure_last (done x) = refl
  pure_last fault = refl
  pure_last exited = refl
  pure_last aborted = refl

  -- An access whose result is traced.
  pub Erases-access :
      (c : Command A) (f : A → Core → Trace → Outcome Trace)
      → ((a : A) (p : Core) (t : Trace) → HasRoom room t → Adds t (f a p t))
      → Erases room (on_core c >>= λ a. on_trace (f a) >> pure a) c
  Erases-access c f h =
      Erases-eq (on_core c >>= λ a. on_trace (f a) >> pure a)
        (Core.◌>>=◌ c (λ a. Core.◌>>◌ (Core.pure tt) (Core.pure a))) c (λ p. pure_last (c p))
        (Erases->>= room (on_core c) c _ _ (Erases-on_core room c) (λ a.
          Erases->>= room (on_trace (f a)) (Core.pure tt) _ _ (Erases-on_trace room (f a) (h a))
            (λ _. Erases-pure room a)))

abbrev ending : {A : Type 0} → A × Machine → Outcome (A × Machine)
ending (a, m) = done (a, record m { trace = trace_end_location m.trace })

erase-ending : {A : Type 0} (o : Outcome (A × Machine)) → erase (and_then o ending) ≡ erase o
erase-ending (done x) = refl
erase-ending fault = refl
erase-ending exited = refl
erase-ending aborted = refl

module _ {A : Type 0} (file : List ℕ) (line : ℕ) (m : Traced A) where
  located-entered :
      (p : Core) (t t' : Trace)
      → trace_start_location file line t ≡ done t'
      → located file line m (machine p t) ≡ and_then (m (machine p t')) ending
  unfolding located
  located-entered p t t' at =
      ap
        (λ o.
          and_then (and_then o (λ t''. done (tt, machine p t'')))
            (λ (_, m1). and_then (m m1) ending))
        at

  -- A call within its location.
  pub Erases-located :
      (free : ℕ) (c : Command A)
      → free ≤ 127
      → Erases (suc free) m c
      → Erases free (located file line m) c
  Erases-located free c le h = record {
    same = λ p t room.
        let (t', at, entered) = trace_start_location-Entered file line free t le room in
        ap erase (located-entered p t t' at)
        ∙ erase-ending (m (machine p t'))
        ∙ h.same p t' entered.room;
    follows = λ p t a m' room e.
        let (t', at, entered) = trace_start_location-Entered file line free t le room in
        let there : and_then (m (machine p t')) ending ≡ done (a, m') =
          sym (located-entered p t t' at) ∙ e in
        let ((b, mid), first, last) = >>=-eq-done (m (machine p t')) ending there in
        let left : trace_end_location mid.trace ≡ m'.trace = cc in
        subst (Follows t) left (entered.leaves mid.trace (h.follows p t' b mid entered.room first));
  }

HasRoom-more : (room more : ℕ) (t : Trace) → room ≤ more → HasRoom room t → HasRoom more t
HasRoom-more room more t le h = record {
  ready = h.ready;
  depth = omega (arith, h.depth);
  word = h.word;
}

-- What needs less room.
pub Erases-less :
    {A : Type 0} (room more : ℕ) (m : Traced A) (c : Command A)
    → room ≤ more
    → Erases more m c
    → Erases room m c
Erases-less room more m c le h = record {
  same = λ p t r. h.same p t (HasRoom-more room more t le r);
  follows = λ p t a m' r e. h.follows p t a m' (HasRoom-more room more t le r) e;
}
