-- ===== src/Registers/Spsr.antt =====
-- Saved status registers, banks across modes, and the registers that `registers_create` gives.
use arm_processor_simulator.Base.{
  ℕ, ◌^◌, ◌≤◌, ◌<◌, ◌≡◌, ◌≢◌, refl, ◌∙◌, arith, ◌||◌, Bool, true, done, ◌==◌,
}
use arm_processor_simulator.Util.Fields.{get_bits_lem, set_bits_lem}
use arm_processor_simulator.Util.{set_bits}
use arm_processor_simulator.Constants.{usr, fiq, irq, svc, abt, und, cpsr, is_mode}
use arm_processor_simulator.Registers.{
  Registers, slot, register_cell, set_register_cell, get_mode, has_spsr, read_register,
  write_register, registers_create, read_spsr, write_spsr,
}
use arm_processor_simulator.Registers.Table.{slot_lem}
use arm_processor_simulator.Registers.Bank.{
  bank, slot-bank, get_mode-lt, read_register-done, write_register-done,
}

-- The table has no entry for a saved status register, and the zero that stands there is r0.
slot_spsr : (mode : ℕ) → 16 ≤ mode → mode < 31 → slot mode 17 ≡ done 0
slot_spsr mode lo hi = slot_lem mode 17 lo (omega arith) (omega arith) (omega arith)

spsr_mode : (r : Registers) → has_spsr r ≡ true → get_mode r < 31
unfolding has_spsr
spsr_mode r h = ground (arith, get_mode-lt r)

pub bank-zero : (mode : ℕ) → bank mode 0 ≡ 0
unfolding bank
bank-zero mode = ground arith

-- In every mode from 16 on that has a saved status register, to read it is to read r0.
pub read_spsr-r0 :
    (r : Registers) → has_spsr r ≡ true → 16 ≤ get_mode r → read_spsr r ≡ read_register r 0
unfolding read_spsr
read_spsr-r0 r h lo =
    let place = slot_spsr (get_mode r) lo (spsr_mode r h) in
    let zero_place = bank-zero (get_mode r) in
    rw (read_register-done r 0 (omega arith) lo, place, h, zero_place)
      (unfold register_cell in refl)

-- In every mode from 16 on that has a saved status register, to write it is to write r0.
pub write_spsr-r0 :
    (r : Registers) (value : ℕ)
    → has_spsr r ≡ true
    → 16 ≤ get_mode r
    → write_spsr r value ≡ write_register r 0 value
unfolding write_spsr
write_spsr-r0 r value h lo =
    let place = slot_spsr (get_mode r) lo (spsr_mode r h) in
    let zero_place = bank-zero (get_mode r) in
    rw (write_register-done r 0 value (omega arith) lo, place, h, zero_place)
      (unfold set_register_cell in refl)

-- The modes that the table gives the stack pointer and link register of IRQ.
abbrev pub shares_irq : ℕ → Bool
shares_irq m = m == svc || m == abt || m == und || m == irq

-- SVC, ABT, UND and IRQ find every register at the same place: none has a stack pointer or a link
-- register of its own.
pub slot-irq : (mode reg : ℕ) → shares_irq mode ≡ true → reg < 16 → slot mode reg ≡ slot irq reg
slot-irq mode reg m h =
    let range : (16 ≤ mode) × (mode < 32) = (ground arith, ground arith) in
    slot-bank mode reg range.0 range.1 h
    ∙ unfold bank in ground (arith, slot-bank irq reg (omega arith) (omega arith) h)

-- A write of r8 to r14 in FIQ mode is seen by no other of the seven modes.
pub fiq_private :
    (r out : Registers) (reg other mode value : ℕ)
    → get_mode r ≡ fiq
    → 8 ≤ reg
    → reg ≤ 14
    → other < 16
    → is_mode mode ≡ true
    → mode ≢ fiq
    → write_register r reg value ≡ done out
    → out.registers (bank mode other) ≡ r.registers (bank mode other)
fiq_private r out reg other mode value f lo hi h m ne w =
    let done_eq = write_register-done r reg value (omega arith) (omega arith) in
    unfold bank in ground (arith, done_eq)

-- Whatever `malloc` gave, fresh registers are in user mode.
pub registers_create-usr :
    (contents : ℕ → ℕ) → contents cpsr < 2 ^ 32 → get_mode (registers_create contents) ≡ usr
unfolding registers_create get_mode
registers_create-usr contents h =
    let status = set_bits (contents cpsr) 4 0 usr in
    omega (
      arith,
      get_bits_lem status 4 0,
      set_bits_lem (contents cpsr) 0 4 27 usr (omega arith) h (omega arith),
    )

pub registers_create-lt :
    (contents : ℕ → ℕ)
    → contents cpsr < 2 ^ 32
    → (registers_create contents).registers cpsr < 2 ^ 32
unfolding registers_create
registers_create-lt contents h =
    omega (arith, set_bits_lem (contents cpsr) 0 4 27 usr (omega arith) h (omega arith))
