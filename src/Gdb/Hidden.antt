-- ===== src/Gdb/Hidden.antt =====
-- arm_simulator-1.4/gdb_protocol.c with its trace calls: what the debugger does to the processor is not
-- traced.
use arm_processor_simulator.Base.{
  Outcome, done, fault, exited, aborted, ◌≡◌, refl, ◌∙◌, ap, ◌>>=◌ as and_then,
}
use arm_processor_simulator.Core.{Core, Command}
use arm_processor_simulator.Trace.{Trace, trace_disable, trace_enable}
use arm_processor_simulator.Trace.Accesses.{Machine, Traced}
use arm_processor_simulator.Trace.Silent.{beside, Silent}
use arm_processor_simulator.Gdb.State as State
use arm_processor_simulator.Gdb.State.{
  Gdb, Action, lift, on_arm, assert, gdb_send_data, gdb_send_buffer,
}
use arm_processor_simulator.Gdb.Traced.{Session, Handler, on_gdb, hidden, ◌>>=◌}

abbrev pub session : Gdb → Trace → Session
session g t = record { gdb = g; trace = t }

-- Whatever the trace is, `h` does to the connection what `a` does without it, and makes of the
-- trace what `f` makes of it.
pub record Does {A : Type 0} (f : Trace → Trace) (h : Handler A) (a : Action A) : Type 0 where
  pub at :
      (g : Gdb) (t : Trace)
      → h (session g t) ≡ and_then (a g) (λ (x, g'). done (x, session g' (f t)))

-- Nothing is traced, and the trace is enabled at the end.
abbrev pub Hides : {A : Type 0} → Handler A → Action A → Type 0
Hides h a = Does trace_enable h a

module _ {A : Type 0} where
  pub Does-on_gdb : (a : Action A) → Does (λ t. t) (on_gdb a) a
  Does-on_gdb a = record { at = λ g t. refl }

  -- The machine back in the connection, and the trace enabled.
  abbrev returned : Gdb → A × Machine → Outcome (A × Session)
  returned g (x, m) = done (x, session (record g { arm = m.core }) m.trace)

  abbrev enabled : A × Session → Outcome (A × Session)
  enabled (x, s) = done (x, session s.gdb (trace_enable s.trace))

  abbrev replaced : Gdb → A × Core → Outcome (A × Gdb)
  replaced g (x, p) = done (x, record g { arm = p })

  abbrev with_trace : Trace → A × Gdb → Outcome (A × Session)
  with_trace t (x, g) = done (x, session g t)

  hidden_outcome :
      (g : Gdb) (t : Trace) (o : Outcome (A × Core))
      → and_then (and_then (beside (trace_disable t) o) (returned g)) enabled
        ≡ and_then (and_then o (replaced g)) (with_trace (trace_enable t))
  unfolding trace_disable trace_enable
  hidden_outcome g t (done x) = refl
  hidden_outcome g t fault = refl
  hidden_outcome g t exited = refl
  hidden_outcome g t aborted = refl

  pub Hides-hidden : (m : Traced A) (c : Command A) → Silent m c → Hides (hidden m) (on_arm c)
  Hides-hidden m c h = record {
    at = λ g t.
        ap (λ o. and_then (and_then o (returned g)) enabled)
          (h.at g.arm (trace_disable t) (unfold trace_disable in refl))
        ∙ hidden_outcome g t (c g.arm);
  }

module _ {A B : Type 0} (f e : Trace → Trace) where
  Does-then :
      (k : A → Handler B) (b : A → Action B)
      → ((x : A) → Does e (k x) (b x))
      → (t : Trace) (o : Outcome (A × Gdb))
      → and_then (and_then o (λ (x, g). done (x, session g (f t)))) (λ (x, s). k x s)
        ≡ and_then (and_then o (λ (x, g). b x g)) (λ (x, g). done (x, session g (e (f t))))
  Does-then k b hk t (done (x, g)) = (hk x).at g (f t)
  Does-then k b hk t fault = refl
  Does-then k b hk t exited = refl
  Does-then k b hk t aborted = refl

  Does->>= :
      (h : Handler A) (a : Action A) (k : A → Handler B) (b : A → Action B)
      → Does f h a
      → ((x : A) → Does e (k x) (b x))
      → Does (λ t. e (f t)) (h >>= k) (State.◌>>=◌ a b)
  Does->>= h a k b ha hk = record {
    at = λ g t. ap (λ o. and_then o (λ (x, s). k x s)) (ha.at g t) ∙ Does-then k b hk t (a g);
  }

module _ {A B : Type 0} where
  -- What is done before, and after, without a trace call.
  pub Hides-before :
      (a : Action A) (k : A → Handler B) (b : A → Action B)
      → ((x : A) → Hides (k x) (b x))
      → Hides (on_gdb a >>= k) (State.◌>>=◌ a b)
  Hides-before a k b hk = Does->>= (λ t. t) trace_enable (on_gdb a) a k b (Does-on_gdb a) hk

  pub Hides-after :
      (m : Traced A) (c : Command A) (b : A → Action B)
      → Silent m c
      → Hides (hidden m >>= λ x. on_gdb (b x)) (State.◌>>=◌ (on_arm c) b)
  Hides-after m c b h =
      Does->>= trace_enable (λ t. t) (hidden m) (on_arm c) _ b (Hides-hidden m c h)
        (λ x. Does-on_gdb (b x))

module _ {A : Type 0} where
  pub Hides-eq : (h : Handler A) (a b : Action A) → ((g : Gdb) → a g ≡ b g) → Hides h a → Hides h b
  Hides-eq h a b e k = record {
    at = λ g t.
        k.at g t ∙ ap (λ o. and_then o (λ (x, g'). done (x, session g' (trace_enable t)))) (e g);
  }
