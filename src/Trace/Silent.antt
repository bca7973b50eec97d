-- ===== src/Trace/Silent.antt =====
-- arm_simulator-1.4/trace.c with the tracing disabled: nothing is printed, and the trace stays. One rule
-- for each way to build a traced command.
use arm_processor_simulator.Base.{
  ℕ, Bool, false, List, ◌≡◌, refl, ◌∙◌, ap, Outcome, done, fault, exited, aborted, if_false,
  ◌>>=◌ as and_then,
}
use arm_processor_simulator.Util.{sub32}
use arm_processor_simulator.Core
use arm_processor_simulator.Core.{Core, Command}
use arm_processor_simulator.Core.Print.{lift as lift_plain}
use arm_processor_simulator.Trace.{
  Trace, trace_start_location, trace_end_location, trace_memory, trace_register,
}
use arm_processor_simulator.Trace.Accesses.{
  Machine, Traced, pure, ◌>>=◌, ◌>>◌, on_core, on_trace, located, arm_read_register,
  arm_write_register, arm_read_cpsr, arm_write_cpsr, arm_read_word,
}
use arm_processor_simulator.Trace.Print.{lift}
use arm_processor_simulator.Trace.Erasure.{machine}

-- The outcome of a command on the processor, beside a trace that stays.
abbrev pub beside : {A : Type 0} → Trace → Outcome (A × Core) → Outcome (A × Machine)
beside t o = and_then o (λ (a, p). done (a, machine p t))

-- With the tracing disabled, `m` does what `c` does, and the trace stays.
pub record Silent {A : Type 0} (m : Traced A) (c : Command A) : Type 0 where
  pub at : (p : Core) (t : Trace) → t.enabled ≡ false → m (machine p t) ≡ beside t (c p)

module _ {A : Type 0} where
  pub Silent-pure : (a : A) → Silent (pure a) (Core.pure a)
  Silent-pure a = record { at = λ p t h. refl }

  pub Silent-lift : (o : Outcome A) → Silent (lift o) (lift_plain o)
  Silent-lift (done a) = record { at = λ p t h. refl }
  Silent-lift fault = record { at = λ p t h. refl }
  Silent-lift exited = record { at = λ p t h. refl }
  Silent-lift aborted = record { at = λ p t h. refl }

  pub Silent-on_core : (c : Command A) → Silent (on_core c) c
  Silent-on_core c = record { at = λ p t h. refl }

pub Silent-on_trace :
    (f : Core → Trace → Outcome Trace)
    → ((p : Core) (t : Trace) → t.enabled ≡ false → f p t ≡ done t)
    → Silent (on_trace f) (Core.pure tt)
Silent-on_trace f silent = record {
  at = λ p t h. ap (λ o. and_then o (λ t'. done (tt, machine p t'))) (silent p t h);
}

module _ {A B : Type 0} where
  Silent-then :
      (k : A → Traced B) (d : A → Command B)
      → ((a : A) → Silent (k a) (d a))
      → (t : Trace) → t.enabled ≡ false
      → (o : Outcome (A × Core))
      → and_then (beside t o) (λ (a, m). k a m) ≡ beside t (and_then o (λ (a, p). d a p))
  Silent-then k d hk t h (done (a, p)) = (hk a).at p t h
  Silent-then k d hk t h fault = refl
  Silent-then k d hk t h exited = refl
  Silent-then k d hk t h aborted = refl

  pub Silent->>= :
      (m : Traced A) (c : Command A) (k : A → Traced B) (d : A → Command B)
      → Silent m c
      → ((a : A) → Silent (k a) (d a))
      → Silent (m >>= k) (Core.◌>>=◌ c d)
  Silent->>= m c k d hm hk = record {
    at = λ p t h.
        ap (λ o. and_then o (λ (a, m'). k a m')) (hm.at p t h) ∙ Silent-then k d hk t h (c p);
  }

-- Without the last location.
abbrev ended : Trace → Trace
ended t = record t { location_stack_top = sub32 t.location_stack_top 1 }

module _ {A : Type 0} where
  pub Silent-eq :
      (m : Traced A) (c d : Command A) → ((p : Core) → c p ≡ d p) → Silent m c → Silent m d
  Silent-eq m c d e h = record { at = λ p t off. h.at p t off ∙ ap (beside t) (e p) }

  last_pure : (o : Outcome (A × Core)) → and_then o (λ (a, p). done (a, p)) ≡ o
  last_pure (done x) = refl
  last_pure fault = refl
  last_pure exited = refl
  last_pure aborted = refl

  -- An access whose result is traced.
  pub Silent-access :
      (c : Command A) (f : A → Core → Trace → Outcome Trace)
      → ((a : A) (p : Core) (t : Trace) → t.enabled ≡ false → f a p t ≡ done t)
      → Silent (on_core c >>= λ a. on_trace (f a) >> pure a) c
  Silent-access c f silent =
      Silent-eq _ (Core.◌>>=◌ c (λ a. Core.◌>>◌ (Core.pure tt) (Core.pure a))) c
        (λ p. last_pure (c p))
        (Silent->>= (on_core c) c _ _ (Silent-on_core c) (λ a.
          Silent->>= (on_trace (f a)) (Core.pure tt) _ _ (Silent-on_trace (f a) (silent a))
            (λ _. Silent-pure a)))

  pub Silent-located :
      (file : List ℕ) (line : ℕ) (m : Traced A) (c : Command A)
      → Silent m c
      → Silent (located file line m) c
  unfolding located trace_start_location trace_end_location
  Silent-located file line m c h =
      Silent-eq _
        (Core.◌>>◌ (Core.pure tt) (Core.◌>>=◌ c (λ a. Core.◌>>◌ (Core.pure tt) (Core.pure a)))) c
        (λ p. last_pure (c p))
        (Silent->>= (on_trace (λ _. trace_start_location file line)) (Core.pure tt) _ _
          (Silent-on_trace _ (λ p t off. if_false t.enabled _ _ off))
          (λ _. Silent->>= m c _ _ h (λ a.
            Silent->>= _ (Core.pure tt) _ _
              (Silent-on_trace (λ _ t. done (trace_end_location t))
                (λ p t off. ap done (if_false t.enabled (ended t) t off)))
              (λ _. Silent-pure a))))

module _ (format : Bool) where
  register_silent :
      (cycle type reg mode value : ℕ) (t : Trace)
      → t.enabled ≡ false
      → trace_register format cycle type reg mode value t ≡ done t
  unfolding trace_register
  register_silent cycle type reg mode value t h = rw h refl

  memory_silent :
      (cycle type size cause address value : ℕ) (t : Trace)
      → t.enabled ≡ false
      → trace_memory format cycle type size cause address value t ≡ done t
  unfolding trace_memory
  memory_silent cycle type size cause address value t h = rw h refl

  Silent-write :
      (c : Command (Unit {0})) (f : Core → Trace → Outcome Trace)
      → ((p : Core) (t : Trace) → t.enabled ≡ false → f p t ≡ done t)
      → Silent (on_core c >>= λ _. on_trace f) c
  Silent-write c f silent =
      Silent-eq _ (Core.◌>>=◌ c (λ _. Core.pure tt)) c (λ p. last_pure (c p))
        (Silent->>= (on_core c) c _ _ (Silent-on_core c) (λ _. Silent-on_trace f silent))

  pub Silent-read_register :
      (reg : ℕ) → Silent (arm_read_register format reg) (Core.arm_read_register reg)
  unfolding arm_read_register
  Silent-read_register reg =
      Silent-access (Core.arm_read_register reg) _ (λ a p t h. register_silent _ _ _ _ _ t h)

  pub Silent-write_register :
      (reg value : ℕ)
      → Silent (arm_write_register format reg value) (Core.arm_write_register reg value)
  unfolding arm_write_register
  Silent-write_register reg value =
      Silent-write (Core.arm_write_register reg value) _ (λ p t h. register_silent _ _ _ _ _ t h)

  pub Silent-read_cpsr : Silent (arm_read_cpsr format) Core.arm_read_cpsr
  unfolding arm_read_cpsr
  Silent-read_cpsr = Silent-access Core.arm_read_cpsr _ (λ a p t h. register_silent _ _ _ _ _ t h)

  pub Silent-write_cpsr :
      (value : ℕ) → Silent (arm_write_cpsr format value) (Core.arm_write_cpsr value)
  unfolding arm_write_cpsr
  Silent-write_cpsr value =
      Silent-write (Core.arm_write_cpsr value) _ (λ p t h. register_silent _ _ _ _ _ t h)

  pub Silent-read_word :
      (address old : ℕ) → Silent (arm_read_word format address old) (Core.arm_read_word address)
  unfolding arm_read_word
  Silent-read_word address old =
      Silent-access (Core.arm_read_word address) _ (λ a p t h. memory_silent _ _ _ _ _ _ t h)
