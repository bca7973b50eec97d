-- ===== src/Exception/Manual.antt =====
-- arm_simulator-1.4/arm_exception.c against section A2.6 of the ARM architecture reference manual.
use arm_processor_simulator.Base.{
  ℕ, zero, suc, ◌+◌, ◌-◌, ◌%◌, ◌^◌, ◌<◌, ◌≤◌, ◌≡◌, ◌∙◌, ap, arith, Bool, true, false, done,
  if◌then◌else◌,
}
use arm_processor_simulator.Util.{u32, clr_bit}
use arm_processor_simulator.Util.Fields.{clr_bit_lem}
use arm_processor_simulator.Constants.{pc, cpsr, sp, lr, svc, und, abt, irq, fiq}
use arm_processor_simulator.Core.{Core, pc_seen}
use arm_processor_simulator.Core.Access.{mode_of, stored, HasMode, pc_seen_aligned}
use arm_processor_simulator.Exception.{arm_exception, ReturnState, current, next}
use arm_processor_simulator.Exception.Status.{IsEntryStatus}
use arm_processor_simulator.Exception.Entry.{IsEntered, link_value}
use arm_processor_simulator.Exception.Vectors.{row_of, arm_exception-IsEntered}

-- What the manual has for an exception: whether SPSR gets the CPSR, the mode, whether fast interrupts are
-- masked, how far the link register is beyond the word after the instruction, and the vector. That word
-- is the next instruction, where an interrupt is taken; the manual's link is then 4 beyond it, for an
-- undefined instruction, a software interrupt and a prefetch abort it is that word, and for a data abort
-- 8 beyond the instruction.
pub record Entry : Type 0 where
  pub saves : Bool
  pub mode : ℕ
  pub fast : Bool
  pub link : ℕ
  pub vector : ℕ

abbrev entry : Bool → ℕ → Bool → ℕ → ℕ → Entry
entry s m f l v = record { saves = s; mode = m; fast = f; link = l; vector = v }

-- The exceptions by their number less 1. The manual leaves the link and the SPSR of a reset open; 4 is
-- what the source has.
abbrev pub manual : ℕ → Entry
manual zero = entry false svc true 4 0x0
manual (suc zero) = entry true und false 0 0x4
manual (suc (suc zero)) = entry true svc false 0 0x8
manual (suc (suc (suc zero))) = entry true abt false 0 0xC
manual (suc (suc (suc (suc zero)))) = entry true abt false 4 0x10
manual (suc (suc (suc (suc (suc zero))))) = entry true irq false 4 0x18
manual (suc (suc (suc (suc (suc (suc n)))))) = entry true fiq true 4 0x1C

-- How far the link of the source is beyond the manual's, on 32 bits: 4 too far for an undefined
-- instruction and a software interrupt, 4 too near for a data abort.
abbrev pub link_error : ℕ → ℕ
link_error zero = 0
link_error (suc zero) = 4
link_error (suc (suc zero)) = 4
link_error (suc (suc (suc zero))) = 0
link_error (suc (suc (suc (suc zero)))) = 2 ^ 32 - 4
link_error (suc (suc (suc (suc (suc n))))) = 0

-- `out` is the processor `p`, with `a` the word after its instruction, in the handler of an exception: as
-- the manual has it, but for the error of the link, the SPSR, for which r0 is written, and the stack pointer,
-- which is copied from the old mode to the new one.
pub record FollowsManual (p : Core) (a : ℕ) (m : Entry) (error : ℕ) (out : Core) : Type 0 where
  pub in_mode : mode_of out ≡ m.mode
  pub status : IsEntryStatus (p.reg.registers cpsr) m.mode m.fast (out.reg.registers cpsr)
  pub link : stored out lr ≡ u32 (a + m.link + error)
  pub target : out.reg.registers pc ≡ m.vector
  pub saved : out.reg.registers 0 ≡ (if m.saves then p.reg.registers cpsr else p.reg.registers 0)
  pub stack : stored out sp ≡ stored p sp
  pub general : (i : ℕ) → 1 ≤ i → i ≤ 12 → out.reg.registers i ≡ p.reg.registers i
  pub memory : out.mem ≡ p.mem
  pub cycles : out.cycle_count ≡ p.cycle_count

seen_aligned : (a : ℕ) → a < 2 ^ 32 → a % 4 ≡ 0 → pc_seen pc a ≡ u32 (a + 4)
unfolding clr_bit
seen_aligned a h aligned = clr_bit_lem (u32 (a + 4)) 1 30 (omega arith) (omega arith) ∙ omega arith

module _ (p out : Core) (a : ℕ) (at : p.reg.registers pc ≡ a) (small : a < 2 ^ 32)
    (aligned : a % 4 ≡ 0) where
  link_next : link_value p next ≡ u32 (a + 4)
  link_next = ap (λ v. pc_seen pc v) at ∙ seen_aligned a small aligned

  link_current : link_value p current ≡ u32 (a + 0)
  link_current = rw at (pc_seen_aligned a small aligned ∙ omega arith)

  linked :
      {saves fast : Bool} {mode vector : ℕ} {state : ReturnState} (link error : ℕ)
      → IsEntered p saves mode fast state vector out
      → link_value p state ≡ u32 (a + link + error)
      → FollowsManual p a (entry saves mode fast link vector) error out
  linked link error e value = record {
    in_mode = e.in_mode;
    status = e.status;
    link = e.link ∙ value;
    target = e.target;
    saved = e.saved;
    stack = e.stack;
    general = e.general;
    memory = e.memory;
    cycles = e.cycles;
  }

  -- An exception by its row, which has what the manual has but for the link.
  follows :
      (n : ℕ)
      → n < 7
      → IsEntered p
          (row_of n).need_spsr
          (row_of n).mode
          (row_of n).fast
          (row_of n).state
          (row_of n).vector
          out
      → FollowsManual p a (manual n) (link_error n) out
  follows zero k e = linked 4 0 e (link_next ∙ omega arith)
  follows (suc zero) k e = linked 0 4 e (link_next ∙ omega arith)
  follows (suc (suc zero)) k e = linked 0 4 e (link_next ∙ omega arith)
  follows (suc (suc (suc zero))) k e = linked 0 0 e (link_current ∙ omega arith)
  follows (suc (suc (suc (suc zero)))) k e = linked 4 (2 ^ 32 - 4) e (link_current ∙ omega arith)
  follows (suc (suc (suc (suc (suc zero))))) k e = linked 4 0 e (link_next ∙ omega arith)
  follows (suc (suc (suc (suc (suc (suc zero)))))) k e = linked 4 0 e (link_next ∙ omega arith)
  follows (suc (suc (suc (suc (suc (suc (suc n))))))) k e = absurd (omega arith)

-- In one of the seven modes, with a word address in the program counter, each of the seven exceptions
-- takes the processor where the manual has it: the mode, the bits of the CPSR, the vector, and r1 to r12,
-- the memory and the cycle counter as they were. The source leaves the manual in three points: the old
-- CPSR is saved in r0, the old stack pointer is copied to the new mode, and the link register is 4 too far
-- for an undefined instruction and a software interrupt, and 4 too near for a data abort.
pub arm_exception-FollowsManual :
    (p : Core) (a n : ℕ)
    → HasMode p
    → p.reg.registers cpsr < 2 ^ 32
    → p.reg.registers pc ≡ a
    → a < 2 ^ 32
    → a % 4 ≡ 0
    → n < 7
    → (out : Core) × (arm_exception (suc n) p ≡ done (tt, out))
      × FollowsManual p a (manual n) (link_error n) out
arm_exception-FollowsManual p a n mode status at small aligned k =
    let (out, runs, e) = arm_exception-IsEntered p n mode status k in
    (out, runs, follows p out a at small aligned n k e)
