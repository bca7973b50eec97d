-- ===== src/Registers/Table.antt =====
-- What the table of registers.c holds: for each mode a row of 17 entries, and no entry for the
-- SPSR.
use arm_processor_simulator.Base.{
  update, ℕ, zero, suc, ◌+◌, ◌-◌, ◌*◌, ◌/◌, ◌%◌, ◌^◌, ◌≤◌, ◌<◌, ◌≡◌, ◌∙◌, arith, bit_or, ◌&&◌, done,
  ltb, leb, ◌==◌, if◌then◌else◌,
}
use arm_processor_simulator.Base.Bits.{bit_or_join}
use arm_processor_simulator.Registers.{
  init_value, init_registers, init_modes, arm_mode_register, slot,
}

init_registers_lem :
    (left mode reg i : ℕ) (table : ℕ → ℕ)
    → reg + left ≤ 32
    → init_registers left mode reg table i ≡ (
        if i / 32 == mode && leb reg (i % 32) && ltb (i % 32) (reg + left)
        then init_value mode (i % 32)
        else table i)
unfolding init_registers
init_registers_lem zero mode reg i table h = ground arith
init_registers_lem (suc left) mode reg i table h =
    let place : bit_or (mode * 2 ^ 5) reg ≡ mode * 32 + reg =
      bit_or_join 5 mode reg (omega arith) in
    let ih =
      init_registers_lem left mode (reg + 1) i
        (update table (bit_or (mode * 2 ^ 5) reg) (init_value mode reg)) (omega arith) in
    ground (arith, ih, place)

init_modes_lem :
    (left mode i : ℕ) (table : ℕ → ℕ)
    → init_modes left mode table i ≡ (
        if leb mode (i / 32) && ltb (i / 32) (mode + left) && ltb (i % 32) 17
        then init_value (i / 32) (i % 32)
        else table i)
unfolding init_modes
init_modes_lem zero mode i table = ground arith
init_modes_lem (suc left) mode i table =
    let ih = init_modes_lem left (mode + 1) i (init_registers 17 mode 0 table) in
    let row = init_registers_lem 17 mode 0 i table (omega arith) in ground (arith, ih, row)

pub arm_mode_register_lem :
    (mode reg : ℕ)
    → mode < 16
    → reg < 32
    → arm_mode_register (mode * 32 + reg) ≡ (if ltb reg 17 then init_value mode reg else 0)
unfolding arm_mode_register
arm_mode_register_lem mode reg hm hr =
    let row : (mode * 32 + reg) / 32 ≡ mode = omega arith in
    let column : (mode * 32 + reg) % 32 ≡ reg = omega arith in
    init_modes_lem 16 0 (mode * 32 + reg) (λ _. 0) ∙ rw (row, column) (ground arith)

-- A mode from 16 on and a register below 18 stay inside the table.
pub slot_lem :
    (mode reg : ℕ)
    → 16 ≤ mode
    → mode < 32
    → reg < 18
    → (mode - 16) * 32 + reg < 497
    → slot mode reg ≡ done (if ltb reg 17 then init_value (mode - 16) reg else 0)
unfolding slot
slot_lem mode reg lo hi hr room =
    let place : bit_or ((mode - 16) * 2 ^ 5) reg ≡ (mode - 16) * 32 + reg =
      bit_or_join 5 (mode - 16) reg (omega arith) in
    rw (place, arm_mode_register_lem (mode - 16) reg (omega arith) (omega arith)) (ground arith)
