-- ===== src/Instruction/Branch.antt =====
-- A step of the processor on a branch: arm_instruction.c with arm_branch_other.c and the fetch.
use arm_processor_simulator.Base.{
  ℕ, ◌+◌, ◌*◌, ◌%◌, ◌^◌, ◌<◌, ◌≡◌, ◌≢◌, refl, ◌∙◌, arith, true, false, done, ltb, ◌==◌, ◌&&◌, subst,
  sym, if◌then◌else◌, ◌>>=◌ as and_then,
}
use arm_processor_simulator.Util.{u32, get_bit, get_bits}
use arm_processor_simulator.Constants.{pc, lr, cpsr}
use arm_processor_simulator.Memory.{Memory}
use arm_processor_simulator.Memory.Cells.{IsBytes}
use arm_processor_simulator.Memory.Access.{word_at}
use arm_processor_simulator.Core.{Core}
use arm_processor_simulator.Core.Access.{HasMode, mode_of, mode_of-put, stored, fetched}
use arm_processor_simulator.Registers.Bank.{bank}
use arm_processor_simulator.BranchOther.{arm_branch}
use arm_processor_simulator.BranchOther.Target.{signed_24, link_apart, arm_branch-target}
use arm_processor_simulator.Instruction.{dispatch, arm_step}
use arm_processor_simulator.Instruction.Step.{
  IsReady, holds_of, raise, arm_step_lem, fetched-HasMode,
}

pub word_at-small : (mem : Memory) (a : ℕ) → IsBytes mem → word_at mem a < 2 ^ 32
word_at-small mem a bytes = ground (arith, bytes a, bytes (a + 1), bytes (a + 2), bytes (a + 3))

-- The word at `a` lies in the memory, and is a branch whose condition holds.
pub record IsBranch (p : Core) (a : ℕ) : Type 0 where
  pub inside : a + 3 < p.mem.size
  pub class : get_bits (word_at p.mem a) 27 25 ≡ 5
  pub sometimes : get_bits (word_at p.mem a) 31 28 ≢ 15
  pub met : holds_of (get_bits (word_at p.mem a) 31 28) (p.reg.registers cpsr) ≡ true

-- Where the branch at `a` goes.
abbrev pub target_of : Core → ℕ → ℕ
target_of p a = u32 (a + 8 + 4 * signed_24 (word_at p.mem a))

stepped :
    (p : Core) (a : ℕ)
    → IsReady p a
    → IsBranch p a
    → arm_step p
      ≡ and_then (arm_branch (word_at p.mem a) (fetched p a)) (λ (result, q). raise result q)
unfolding dispatch
stepped p a ready branch =
    let ins = word_at p.mem a in
    let inside : ltb (a + 3) p.mem.size ≡ true = ground (arith, branch.inside) in
    let condition : (get_bits ins 31 28 == 15) ≡ false = ground (arith, branch.sometimes) in
    arm_step_lem p a ready ∙ rw (inside, condition, branch.met, branch.class) refl

-- A processor of the same mode and memory, with its program counter elsewhere.
IsReady-at :
    (p out : Core) (a b : ℕ)
    → IsReady p a
    → mode_of out ≡ mode_of p
    → out.mem ≡ p.mem
    → out.reg.registers pc ≡ b
    → b < 2 ^ 32
    → b % 4 ≡ 0
    → IsReady out b
IsReady-at p out a b ready mode mem at small aligned = record {
  mode = rw mode ready.mode;
  bytes = rw mem ready.bytes;
  words = rw mem ready.words;
  room = rw mem ready.room;
  at = at;
  small = small;
  aligned = aligned;
}

stored-fetched : (p : Core) (a : ℕ) → HasMode p → stored (fetched p a) lr ≡ stored p lr
stored-fetched p a mode =
    let same : mode_of (fetched p a) ≡ mode_of p = mode_of-put p pc (u32 (a + 4)) (omega arith) in
    let apart : bank (mode_of p) lr ≢ pc = (link_apart (mode_of p) mode).1 in rw same (ground arith)

-- A step on a branch whose condition holds gives 0: the program counter is at the address of the
-- branch plus 8 plus four times the signed offset, from where the processor is ready to fetch again.
-- BL leaves the address of the word behind the branch in the link register, and B leaves that register
-- as it was. Every other register of every mode, the status registers among them, and the memory stay,
-- and one cycle is counted.
pub arm_step-branch :
    (p : Core) (a : ℕ)
    → IsReady p a
    → IsBranch p a
    → (out : Core) × (arm_step p ≡ done (0, out))
      × IsReady out (target_of p a)
      × (stored out lr ≡ (if get_bit (word_at p.mem a) 24 == 1 then u32 (a + 4) else stored p lr))
      × ((i : ℕ)
          → i ≢ pc
          → (get_bit (word_at p.mem a) 24 == 1 && i == bank (mode_of p) lr) ≡ false
          → out.reg.registers i ≡ p.reg.registers i)
      × (mode_of out ≡ mode_of p)
      × (out.mem ≡ p.mem)
      × (out.cycle_count ≡ u32 (p.cycle_count + 1))
arm_step-branch p a ready branch =
    let ins = word_at p.mem a in
    let q = fetched p a in
    let mode : HasMode q = fetched-HasMode p a ready.mode in
    let same : mode_of q ≡ mode_of p = mode_of-put p pc (u32 (a + 4)) (omega arith) in
    let (out, runs, at, link, _, others, mode', mem', cycles) =
      arm_branch-target ins (u32 (a + 4)) q mode (word_at-small p.mem a ready.bytes) (ground arith)
        (omega arith) (omega (arith, ready.aligned)) in
    (
      out,
      stepped p a ready branch ∙ rw runs refl,
      IsReady-at p out a (target_of p a) ready (mode' ∙ same) mem' (at ∙ omega arith) (omega arith)
          (omega (arith, ready.aligned)),
      link ∙ rw (stored-fetched p a ready.mode) refl,
      λ i other free.
          others i other
            (subst (λ m. (get_bit ins 24 == 1 && i == bank m lr) ≡ false) (sym same) free)
          ∙ ground arith,
      mode' ∙ same,
      mem',
      cycles,
    )
