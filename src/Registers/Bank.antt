-- ===== src/Registers/Bank.antt =====
-- Where the sixteen registers of a mode live, and what reads and writes of them do.
use arm_processor_simulator.Base.{
  update, ℕ, ◌+◌, ◌-◌, ◌≤◌, ◌<◌, ◌≡◌, ◌≢◌, ◌∙◌, arith, ◌&&◌, ◌||◌, true, done, fault, ltb, leb,
  ◌==◌, if◌then◌else◌,
}
use native.Mathlib.Decide.{dec_lt}
use arm_processor_simulator.Util.Fields.{get_bits_lem}
use arm_processor_simulator.Constants.{fiq, irq, svc, abt, und, cpsr, is_mode}
use arm_processor_simulator.Registers.{
  Registers, init_value, slot, register_cell, set_register_cell, is_valid, read_cpsr, get_mode,
  read_register, write_register,
}
use arm_processor_simulator.Registers.Table.{slot_lem}

-- FIQ has its own r8 to r14. SVC, ABT, UND and IRQ have one r13 and one r14 between them. A mode
-- number that names no mode has register 0 for every register.
unfoldable pub bank : ℕ → ℕ → ℕ
bank mode reg =
    if is_mode mode
    then (if mode == fiq && (leb 8 reg && leb reg 14)
        then reg + 21
        else if (mode == svc || mode == abt || mode == und || mode == irq)
            && (leb 13 reg && leb reg 14)
        then reg + 13
        else reg)
    else 0

init_value-bank :
    (mode reg : ℕ) → 16 ≤ mode → mode < 32 → reg < 16 → init_value (mode - 16) reg ≡ bank mode reg
unfolding init_value bank
init_value-bank mode reg lo hi hr =
    let m : mode - 16 + 16 ≡ mode = omega arith in rw m (ground arith)

pub slot-bank :
    (mode reg : ℕ) → 16 ≤ mode → mode < 32 → reg < 16 → slot mode reg ≡ done (bank mode reg)
slot-bank mode reg lo hi hr =
    slot_lem mode reg lo hi (omega arith) (omega arith)
    ∙ ground (arith, init_value-bank mode reg lo hi hr)

-- No register number reaches the CPSR or leaves the array.
pub bank_range : (mode reg : ℕ) → reg < 16 → (bank mode reg < 37) × (bank mode reg ≢ cpsr)
unfolding bank
bank_range mode reg h = ground arith

pub bank_ne :
    (mode reg other : ℕ)
    → is_mode mode ≡ true
    → reg < 16
    → other < 16
    → reg ≢ other
    → bank mode reg ≢ bank mode other
unfolding bank
bank_ne mode reg other m h k ne = ground arith

pub get_mode-lt : (r : Registers) → get_mode r < 32
unfolding get_mode
get_mode-lt r = omega (arith, get_bits_lem (read_cpsr r) 4 0)

-- A read of a register below 16 gives the register of the current bank; any other number reads as
-- 0. It is undefined exactly where the mode number is below 16, which takes the table index below
-- 0.
pub read_register-bank :
    (r : Registers) (reg : ℕ)
    → read_register r reg ≡ (
        if ltb 15 reg
        then done 0
        else if ltb (get_mode r) 16
        then fault
        else done (r.registers (bank (get_mode r) reg)))
unfolding read_register is_valid register_cell
read_register-bank r reg = elim (dec_lt 15 reg) [
  | yes high ↦ ground arith
  | no low ↦ elim (dec_lt (get_mode r) 16) [
    | yes bad ↦ unfold slot in ground arith
    | no good ↦
        let place = slot-bank (get_mode r) reg (omega arith) (get_mode-lt r) (omega arith) in
        let range = bank_range (get_mode r) reg (omega arith) in rw place (ground arith)
  ]
]

-- A write of a register below 16 changes the register of the current bank; of any other number,
-- nothing. It is undefined where a read is.
pub write_register-bank :
    (r : Registers) (reg value : ℕ)
    → write_register r reg value ≡ (
        if ltb 15 reg
        then done r
        else if ltb (get_mode r) 16
        then fault
        else done (record { registers = update r.registers (bank (get_mode r) reg) value }))
unfolding write_register is_valid set_register_cell
write_register-bank r reg value = elim (dec_lt 15 reg) [
  | yes high ↦ ground arith
  | no low ↦ elim (dec_lt (get_mode r) 16) [
    | yes bad ↦ unfold slot in ground arith
    | no good ↦
        let place = slot-bank (get_mode r) reg (omega arith) (get_mode-lt r) (omega arith) in
        let range = bank_range (get_mode r) reg (omega arith) in rw place (ground arith)
  ]
]

pub read_register-done :
    (r : Registers) (reg : ℕ)
    → reg < 16
    → 16 ≤ get_mode r
    → read_register r reg ≡ done (r.registers (bank (get_mode r) reg))
read_register-done r reg h m = read_register-bank r reg ∙ ground arith

pub write_register-done :
    (r : Registers) (reg value : ℕ)
    → reg < 16
    → 16 ≤ get_mode r
    → write_register r reg value
      ≡ done (record { registers = update r.registers (bank (get_mode r) reg) value })
write_register-done r reg value h m = write_register-bank r reg value ∙ ground arith

-- What is written to the CPSR's bank-free place keeps the mode, and so does any other write.
pub get_mode-update :
    (r : Registers) (i value : ℕ)
    → i ≢ cpsr
    → get_mode (record { registers = update r.registers i value }) ≡ get_mode r
unfolding get_mode read_cpsr
get_mode-update r i value ne = ground arith

is_mode-le : (m : ℕ) → is_mode m ≡ true → 16 ≤ m
is_mode-le m h = ground arith

-- In one of the seven modes, a register that is written is read back, every other register
-- of the mode and the CPSR stay, and so does the mode.
pub read_register-write_register :
    (r : Registers) (reg other value : ℕ)
    → is_mode (get_mode r) ≡ true
    → reg < 16
    → other < 16
    → (out : Registers) × (write_register r reg value ≡ done out)
      × (get_mode out ≡ get_mode r)
      × (read_cpsr out ≡ read_cpsr r)
      × (read_register out other ≡ (if other == reg then done value else read_register r other))
read_register-write_register r reg other value m h k =
    let lo = is_mode-le (get_mode r) m in
    let range = bank_range (get_mode r) reg h in
    let out : Registers = record { registers = update r.registers (bank (get_mode r) reg) value } in
    let mode : get_mode out ≡ get_mode r =
      get_mode-update r (bank (get_mode r) reg) value range.1 in
    (
      out,
      write_register-done r reg value h lo,
      mode,
      unfold read_cpsr in ground arith,
      rw (read_register-done out other k (rw mode lo), mode, read_register-done r other k lo)
          (ground (arith, bank_ne (get_mode r) reg other m h k)),
    )
