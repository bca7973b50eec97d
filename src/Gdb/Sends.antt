-- ===== src/Gdb/Sends.antt =====
-- arm_simulator-1.4/gdb_protocol.c: what an action sends. One rule for each way to build an action.
use arm_processor_simulator.Base.{
  ℕ, ◌+◌, Bool, true, false, List, ◌∷◌, ◌≡◌, ap, sym, ◌∙◌, Outcome, done, >>=-eq-done, leb,
  if◌then◌else◌, Bool-cases, inl, inr, length,
}
use arm_processor_simulator.Memory.{Memory}
use arm_processor_simulator.Core.{Command}
use arm_processor_simulator.Instruction.{arm_step}
use arm_processor_simulator.Gdb.State.{
  Gdb, Action, pure, ◌>>=◌, lift, on_arm, assert, frame, gdb_transmit_packet, gdb_send_buffer,
  gdb_send_data, gdb_send_stop_reason,
}
use arm_processor_simulator.Gdb.Handlers.{from_memory, on_memory}
use arm_processor_simulator.Gdb.Run.{step_target}

-- `m` sends nothing, or one frame, wherever it returns.
pub record Silent {A : Type 0} (m : Action A) : Type 0 where
  pub at : (g : Gdb) (a : A) (g' : Gdb) → m g ≡ done (a, g') → g'.sent ≡ g.sent

pub record Answers {A : Type 0} (m : Action A) : Type 0 where
  pub at :
      (g : Gdb) (a : A) (g' : Gdb)
      → m g ≡ done (a, g')
      → (text : List ℕ) × (g'.sent ≡ frame text ∷ g.sent)

module _ {A : Type 0} where
  pub Silent-pure : (a : A) → Silent (pure a)
  Silent-pure a = record { at = λ g b g' h. let e : g ≡ g' = cc in sym (ap (λ t. t.sent) e) }

  pub Silent-lift : (m : Outcome A) → Silent (lift m)
  Silent-lift m = record {
    at = λ g b g' h.
        let (a, first, last) = >>=-eq-done m (λ a. done (a, g)) h in
        let e : g ≡ g' = cc in sym (ap (λ t. t.sent) e);
  }

  pub Silent-on_arm : (m : Command A) → Silent (on_arm m)
  Silent-on_arm m = record {
    at = λ g b g' h.
        let ((a, p), first, last) =
          >>=-eq-done (m g.arm) (λ (a, arm). done (a, record g { arm = arm })) h in
        let e : record g { arm = p } ≡ g' = cc in sym (ap (λ t. t.sent) e);
  }

  pub Silent-from_memory : (m : Memory → Outcome A) → Silent (from_memory m)
  Silent-from_memory m = record {
    at = λ g b g' h.
        let (a, first, last) = >>=-eq-done (m g.arm.mem) (λ a. done (a, g)) h in
        let e : g ≡ g' = cc in sym (ap (λ t. t.sent) e);
  }

  pub Silent-on_memory : (m : Memory → Outcome (A × Memory)) → Silent (on_memory m)
  Silent-on_memory m = record {
    at = λ g b g' h.
        let ((a, mem), first, last) =
          >>=-eq-done (m g.arm.mem)
            (λ (a, mem). done (a, record g { arm = record g.arm { mem = mem } })) h in
        let e : record g { arm = record g.arm { mem = mem } } ≡ g' = cc in sym (ap (λ t. t.sent) e);
  }

  pub Answers-if :
      (b : Bool) (m n : Action A) → Answers m → Answers n → Answers (if b then m else n)
  Answers-if true m n hm hn = hm
  Answers-if false m n hm hn = hn

pub Silent-assert : (test : Bool) → Silent (assert test)
Silent-assert true = Silent-pure tt
Silent-assert false = record { at = λ g a g' h. absurd cc }

module _ {A B : Type 0} where
  pub Answers-after :
      (m : Action A) (k : A → Action B) → Silent m → ((a : A) → Answers (k a)) → Answers (m >>= k)
  Answers-after m k hm hk = record {
    at = λ g b g' h.
        let ((a, mid), first, last) = >>=-eq-done (m g) (λ (a, g''). k a g'') h in
        let (text, e) = (hk a).at mid b g' last in
        (text, e ∙ ap (λ t. frame text ∷ t) (hm.at g a mid first));
  }

  pub Answers-before :
      (m : Action A) (k : A → Action B) → Answers m → ((a : A) → Silent (k a)) → Answers (m >>= k)
  Answers-before m k hm hk = record {
    at = λ g b g' h.
        let ((a, mid), first, last) = >>=-eq-done (m g) (λ (a, g''). k a g'') h in
        let (text, e) = hm.at g a mid first in (text, (hk a).at mid b g' last ∙ e);
  }

pub Answers-gdb_send_buffer : (text : List ℕ) → Answers (gdb_send_buffer text)
unfolding gdb_send_buffer gdb_transmit_packet
Answers-gdb_send_buffer text = record {
  at = λ g a g' h. elim (Bool-cases (leb (length text + 5) 1024)) [
    | inl fits ↦ elim (Bool-cases g.is_shut) [
      | inl shut ↦ absurd cc
      | inr live ↦
          let e : record g { packet = frame text; sent = frame text ∷ g.sent } ≡ g' = cc in
          (text, sym (ap (λ t. t.sent) e))
    ]
    | inr long ↦ absurd cc
  ];
}

pub Answers-gdb_send_data : (text : List ℕ) → Answers (gdb_send_data text)
unfolding gdb_send_data
Answers-gdb_send_data text = Answers-gdb_send_buffer text

pub Answers-gdb_send_stop_reason : Answers gdb_send_stop_reason
unfolding gdb_send_stop_reason
Answers-gdb_send_stop_reason = record { at = λ g a g' h. (Answers-gdb_send_data _).at g a g' h }

pub Silent-step_target : Silent step_target
unfolding step_target
Silent-step_target = record {
  at = λ g a g' h.
      let ((result, arm), first, last) =
        >>=-eq-done (arm_step g.arm)
          (λ (result, arm). done (tt, record g { arm = arm; target_exception = result })) h in
      let e : record g { arm = arm; target_exception = result } ≡ g' = cc in
      sym (ap (λ t. t.sent) e);
}

pub ruleset answer_rules = (
  Answers-if, Answers-after, Answers-gdb_send_buffer, Answers-gdb_send_data,
  Answers-gdb_send_stop_reason, Silent-pure, Silent-lift, Silent-on_arm, Silent-from_memory,
  Silent-on_memory, Silent-assert, Silent-step_target,
)
