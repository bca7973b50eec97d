-- ===== src/Gdb/Loop.antt =====
-- `cont` of arm_simulator-1.4/gdb_protocol.c at an instruction that jumps to itself, `B .`.
use arm_processor_simulator.Base.{
  ℕ, zero, suc, ◌+◌, ◌^◌, ◌<◌, ◌≡◌, refl, ◌∙◌, ap, subst, arith, false, Option, none, some, done,
}
use arm_processor_simulator.Util.{u32, get_bits}
use arm_processor_simulator.Memory.Access.{word_at}
use arm_processor_simulator.Core.{Core}
use arm_processor_simulator.LoadStore.Addressing.{condition_holds}
use arm_processor_simulator.Instruction.{arm_step}
use arm_processor_simulator.Instruction.Step.{IsReady}
use arm_processor_simulator.Instruction.Branch.{IsBranch, target_of, arm_step-branch}
use arm_processor_simulator.Gdb.State.{Gdb}
use arm_processor_simulator.Gdb.Run.{cont_loop, cont}
use arm_processor_simulator.Gdb.Continue.{IsAt, is_undefined, cont_loop-round}

-- `B .`: the condition is always, and the offset -8.
abbrev pub branch_to_itself : ℕ
branch_to_itself = 0xEAFFFFFE

-- The processor is about to fetch `B .` from `a`.
pub record Spins (p : Core) (a : ℕ) : Type 0 where
  pub ready : IsReady p a
  pub inside : a + 3 < p.mem.size
  pub word : word_at p.mem a ≡ branch_to_itself

Spins-IsBranch : (p : Core) (a : ℕ) → Spins p a → IsBranch p a
unfolding get_bits condition_holds
Spins-IsBranch p a s = record {
  inside = s.inside;
  class = rw s.word refl;
  sometimes = rw s.word (omega arith);
  met = rw s.word refl;
}

-- One step is back where it was, a cycle later.
arm_step-Spins :
    (p : Core) (a : ℕ)
    → Spins p a
    → (out : Core) × (arm_step p ≡ done (0, out))
      × Spins out a
      × (out.mem ≡ p.mem)
      × (out.cycle_count ≡ u32 (p.cycle_count + 1))
arm_step-Spins p a s =
    let (out, runs, ready, _, _, _, mem, cycles) =
      arm_step-branch p a s.ready (Spins-IsBranch p a s) in
    let back : target_of p a ≡ a = rw s.word (omega (arith, s.ready.small)) in
    (
      out,
      runs,
      record {
        ready = subst (IsReady out) back ready;
        inside = rw mem s.inside;
        word = rw mem s.word;
      },
      mem,
      cycles,
    )

cont_loop-Spins :
    (rounds : ℕ) (old : Option ℕ) (g : Gdb) (a : ℕ)
    → Spins g.arm a
    → g.arm.cycle_count < 2 ^ 32
    → (p : Core) × (exception : ℕ) × (cont_loop rounds old g
        ≡ done (false, record g { arm = p; target_exception = exception }))
      × Spins p a
      × (p.mem ≡ g.arm.mem)
      × (p.cycle_count ≡ u32 (g.arm.cycle_count + rounds))
unfolding cont_loop
cont_loop-Spins zero old g a s small = (g.arm, g.target_exception, refl, s, refl, omega arith)
cont_loop-Spins (suc rounds) old g a s small =
    let (out, runs, s', mem, cycles) = arm_step-Spins g.arm a s in
    let g' : Gdb = record g { arm = out; target_exception = 0 } in
    let at : IsAt g.arm a = record { ready = s.ready; inside = s.inside } in
    let other : is_undefined (word_at g.arm.mem a) ≡ false =
      ap is_undefined s.word ∙ unfold get_bits in refl in
    let round = cont_loop-round rounds old g out a 0 at other runs in
    let (p, exception, rest, s'', mem', cycles') =
      cont_loop-Spins rounds (some (word_at g.arm.mem a)) g' a s' (omega arith) in
    (p, exception, round ∙ rest, s'', mem' ∙ mem, omega arith)

-- At an instruction that jumps to itself, with its word in the memory, the command to continue does not
-- end, however many rounds it is given: nothing is sent, and the processor is at the same instruction
-- with the same memory, as many cycles later.
pub cont-Spins :
    (rounds : ℕ) (g : Gdb) (a : ℕ)
    → Spins g.arm a
    → g.arm.cycle_count < 2 ^ 32
    → (p : Core) × (exception : ℕ) × (cont rounds g
        ≡ done (false, record g { arm = p; target_exception = exception }))
      × Spins p a
      × (p.mem ≡ g.arm.mem)
      × (p.cycle_count ≡ u32 (g.arm.cycle_count + rounds))
unfolding cont
cont-Spins rounds g a s small =
    let (p, exception, runs, s', mem, cycles) = cont_loop-Spins rounds none g a s small in
    (p, exception, rw runs refl, s', mem, cycles)
