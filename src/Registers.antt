-- ===== src/Registers.antt =====
-- arm_simulator-1.4/registers.c: 37 registers, and the table that finds the one that a register
-- number stands for in a mode. `fault` is an index outside one of the two arrays.
pub mod Table
pub mod Bank
pub mod Spsr
use arm_processor_simulator.Base.{
  ℕ, zero, suc, ◌+◌, ◌-◌, ◌*◌, ◌^◌, bit_or, Bool, true, false, not, ◌&&◌, ◌||◌, Outcome, done,
  fault, ◌>>=◌, ltb, leb, ◌==◌, update, if◌then◌else◌,
}
use arm_processor_simulator.Util.{get_bits, set_bits}
use arm_processor_simulator.Constants.{
  usr, fiq, irq, svc, abt, und, sys, cpsr, r13_svc, r13_abt, r13_und, r13_irq, r8_fiq,
}

abbrev pub nb_register : ℕ
nb_register = 37

-- The value that `init` stores for a mode, counted from 0, and a register. The comparisons of
-- `mode` with the constants are the source's: there `mode` has not been raised by 16.
unfoldable pub init_value : ℕ → ℕ → ℕ
init_value mode reg =
    let m = mode + 16 in
    if m == usr || m == sys
    then reg
    else if m == svc || m == abt || m == und || m == irq
    then (if leb reg 12 || reg == 15 || reg == 16
        then reg
        else (if mode == svc
            then r13_svc
            else if mode == abt
            then r13_abt
            else if mode == und
            then r13_und
            else r13_irq)
          + (if leb reg 14 then reg - 13 else 2))
    else if m == fiq
    then (if leb reg 7 || reg == 15 || reg == 16
        then reg
        else r8_fiq + (if leb reg 14 then reg - 8 else 7))
    else 0

-- The inner loop of `init`, with the rounds that are left.
unfoldable pub init_registers : ℕ → ℕ → ℕ → (ℕ → ℕ) → ℕ → ℕ
init_registers zero mode reg table = table
init_registers (suc left) mode reg table =
    init_registers left mode (reg + 1)
      (update table (bit_or (mode * 2 ^ 5) reg) (init_value mode reg))

unfoldable pub init_modes : ℕ → ℕ → (ℕ → ℕ) → ℕ → ℕ
init_modes zero mode table = table
init_modes (suc left) mode table = init_modes left (mode + 1) (init_registers 17 mode 0 table)

-- `arm_mode_register` once `init` has run, which it has before every read. A global array starts
-- with zeros.
unfoldable pub arm_mode_register : ℕ → ℕ
arm_mode_register = init_modes 16 0 (λ _. 0)

pub record Registers : Type 0 where
  pub registers : ℕ → ℕ

-- `r->registers[i]`
unfoldable pub register_cell : Registers → ℕ → Outcome ℕ
register_cell r i = if ltb i nb_register then done (r.registers i) else fault

unfoldable pub set_register_cell : Registers → ℕ → ℕ → Outcome Registers
set_register_cell r i value =
    if ltb i nb_register then done (record { registers = update r.registers i value }) else fault

unfoldable pub is_valid : ℕ → Bool
is_valid reg = leb 0 reg && leb reg 15

unfoldable pub read_cpsr : Registers → ℕ
read_cpsr r = r.registers cpsr

unfoldable pub write_cpsr : Registers → ℕ → Registers
write_cpsr r value = record { registers = update r.registers cpsr value }

unfoldable pub get_mode : Registers → ℕ
unfolding read_cpsr
get_mode r = get_bits (read_cpsr r) 4 0

-- `contents` is what the block from `malloc` happens to hold.
unfoldable pub registers_create : (contents : ℕ → ℕ) → Registers
unfolding read_cpsr write_cpsr
registers_create contents =
    let r : Registers = record { registers = contents } in
    write_cpsr r (set_bits (read_cpsr r) 4 0 usr)

unfoldable pub has_spsr : Registers → Bool
has_spsr r = not (get_mode r == usr) && not (get_mode r == sys)

unfoldable pub current_mode_has_spsr : Registers → Bool
current_mode_has_spsr r =
    get_mode r == svc
    || get_mode r == abt
    || get_mode r == und
    || get_mode r == irq
    || get_mode r == fiq

unfoldable pub in_a_privileged_mode : Registers → Bool
in_a_privileged_mode r =
    get_mode r == sys
    || get_mode r == svc
    || get_mode r == abt
    || get_mode r == und
    || get_mode r == irq
    || get_mode r == fiq

-- `arm_mode_register[((mode - 16) << 5) | reg]` in the array of 497 entries. A mode below 16 gives
-- a negative index.
unfoldable pub slot : ℕ → ℕ → Outcome ℕ
slot mode reg =
    if ltb mode 16
    then fault
    else let i = bit_or ((mode - 16) * 2 ^ 5) reg in
      if ltb i 497 then done (arm_mode_register i) else fault

unfoldable pub read_register : Registers → ℕ → Outcome ℕ
read_register r reg =
    if not (is_valid reg) then done 0 else do i ← slot (get_mode r) reg; register_cell r i

unfoldable pub read_usr_register : Registers → ℕ → Outcome ℕ
read_usr_register r reg = register_cell r reg

unfoldable pub read_spsr : Registers → Outcome ℕ
read_spsr r = if not (has_spsr r) then done 0 else do i ← slot (get_mode r) 17; register_cell r i

unfoldable pub write_register : Registers → ℕ → ℕ → Outcome Registers
write_register r reg value =
    if not (is_valid reg) then done r else do i ← slot (get_mode r) reg; set_register_cell r i value

unfoldable pub write_usr_register : Registers → ℕ → ℕ → Outcome Registers
write_usr_register r reg value = set_register_cell r reg value

unfoldable pub write_spsr : Registers → ℕ → Outcome Registers
write_spsr r value =
    if not (has_spsr r) then done r else do i ← slot (get_mode r) 17; set_register_cell r i value
