-- ===== src/BranchOther.antt =====
-- arm_simulator-1.4/arm_branch_other.c: branches, the software interrupt, and the moves to and from
-- the status registers. An `int` is its two's complement.
pub mod Target
pub mod Status
use arm_processor_simulator.Base.{
  ℕ, ◌+◌, ◌-◌, ◌*◌, ◌/◌, ◌%◌, ◌^◌, bit_and, Bool, true, false, not, Outcome, exited, ◌==◌,
  if◌then◌else◌,
}
use arm_processor_simulator.Util.{
  u8, u32, sub32, shl32, complement, get_bit, get_bits, set_bit, clr_bit, set_bits, ror,
}
use arm_processor_simulator.Constants.{software_interrupt, undefined_instruction, lr, pc}
use arm_processor_simulator.Core.{
  Core, Command, pure, ◌>>=◌, ◌>>◌, arm_read_register, arm_write_register, arm_read_cpsr,
  arm_read_spsr, arm_write_cpsr, arm_write_spsr,
}
use arm_processor_simulator.DataProcessing.{truth}
use arm_processor_simulator.DataProcessing.Operand.{sar32}

-- `adress`: the 24 bits of the instruction, and where bit 23 is set
-- `-(((~(adress << 8)) >> 8) + 1)`.
unfoldable pub branch_adress : ℕ → ℕ
branch_adress ins =
    let adress = get_bits ins 23 0 in
    if truth (get_bit ins 23)
    then sub32 0 (u32 (sar32 (complement (shl32 adress 8)) 8 + 1))
    else adress

-- Bit 24 tells BL from B.
unfoldable pub write_link : ℕ → Command (Unit {0})
write_link ins =
    if truth (get_bit ins 24)
    then (do seen ← arm_read_register pc; arm_write_register lr (sub32 seen 4))
    else pure tt

unfoldable pub arm_branch : ℕ → Command ℕ
arm_branch ins = do
  write_link ins
  seen ← arm_read_register pc
  arm_write_register pc (u32 (seen + shl32 (branch_adress ins) 2))
  pure 0

-- `exit(0)`
abbrev pub exit : Command ℕ
exit p = exited

unfoldable pub arm_coprocessor_others_swi : ℕ → Command ℕ
arm_coprocessor_others_swi ins =
    if truth (get_bit ins 24)
    then (if bit_and ins 0xFFFFFF == 0x123456 then exit else pure software_interrupt)
    else pure undefined_instruction

-- The assignments of `write_psr`, each under its bit of the instruction.
unfoldable pub psr_value : ℕ → ℕ → ℕ → ℕ
psr_value ins value psr =
    let p1 = if truth (get_bit ins 16) then set_bits psr 7 0 value else psr in
    let p2 = if truth (get_bit ins 17) then set_bits p1 15 8 value else p1 in
    let p3 = if truth (get_bit ins 18) then set_bits p2 23 16 value else p2 in
    if truth (get_bit ins 19)
    then (let p4 = set_bits p3 30 24 value in
        if truth (get_bit value 7) then set_bit p4 31 else clr_bit p4 31)
    else p3

unfoldable pub write_psr : ℕ → ℕ → ℕ → Command (Unit {0})
write_psr ins value r = do
  psr ← if truth r then arm_read_spsr else arm_read_cpsr
  let new = psr_value ins value psr
  if truth r then arm_write_spsr new else arm_write_cpsr new

-- The value of MSR: a rotated byte or a register, each cut to the `uint8_t` that takes it.
unfoldable pub msr_operand : ℕ → Command ℕ
msr_operand ins =
    if truth (get_bit ins 25)
    then pure (u8 (ror (get_bits ins 7 0) (2 * get_bits ins 11 8)))
    else do value ← arm_read_register (get_bits ins 3 0); pure (u8 value)

unfoldable pub msr : ℕ → Command (Unit {0})
msr ins = do value ← msr_operand ins; write_psr ins value (get_bit ins 22)

unfoldable pub mrs : ℕ → Command (Unit {0})
mrs ins = do
  psr ← if truth (get_bit ins 22) then arm_read_spsr else arm_read_cpsr
  arm_write_register (get_bits ins 15 12) psr

unfoldable pub arm_miscellaneous : ℕ → Command ℕ
arm_miscellaneous ins = do if get_bits ins 21 20 == 0b10 then msr ins else mrs ins; pure 0
