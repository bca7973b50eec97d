-- ===== src/Exception.antt =====
-- arm_simulator-1.4/arm_exception.c: what the processor does on an exception, and `arm_create` of
-- arm_core.c, which starts it with a reset. `CP15_reg1_EEbit` and `HIGH_VECTOR_ADDRESS` are 0, so
-- the branches that they would choose are left out.
pub mod Status
pub mod Entry
pub mod Vectors
pub mod Manual
use arm_processor_simulator.Base.{ℕ, ◌-◌, ◌%◌, ◌^◌, bit_and, Bool, true, false, ◌==◌, if◌then◌else◌}
use arm_processor_simulator.Util.{sub32, set_bit, clr_bit, set_bits}
use arm_processor_simulator.Constants.{
  reset, undefined_instruction, software_interrupt, prefetch_abort, data_abort, interrupt,
  fast_interrupt, sp, lr, pc,
}
use arm_processor_simulator.Memory.{Memory}
use arm_processor_simulator.Registers.{registers_create}
use arm_processor_simulator.Core.{
  Core, Command, pure, ◌>>=◌, ◌>>◌, arm_read_register, arm_write_register, arm_read_cpsr,
  arm_write_cpsr, arm_write_spsr,
}
use arm_processor_simulator.Base.{Outcome, done, ◌>>=◌ as and_then}

-- The address that goes to the link register, `state` in the source.
pub data ReturnState : Type 0 where
  current next : ReturnState

unfoldable pub branch_exception_vector : ℕ → Command (Unit {0})
branch_exception_vector address = arm_write_register pc (bit_and address 0xFFFF)

abbrev pub return_address : ReturnState → Command ℕ
return_address current = do seen ← arm_read_register pc; pure (sub32 seen 4)
return_address next = arm_read_register pc

-- The CPSR that an exception sets up.
unfoldable pub exception_cpsr : ℕ → ℕ → ℕ → ℕ
exception_cpsr cpsr cpsr_bits_value cpsr_values_count =
    let mode = set_bits cpsr 4 0 cpsr_bits_value in
    let arm = clr_bit mode 5 in
    let fast = if cpsr_values_count == 3 then set_bit arm 6 else arm in
    let masked = set_bit fast 7 in clr_bit masked 9

-- `if (needSpsr) arm_write_spsr(p, spsr);`
abbrev pub save_spsr : Bool → ℕ → Command (Unit {0})
save_spsr true spsr = arm_write_spsr spsr
save_spsr false spsr = pure tt

unfoldable pub execute_ : Bool → ℕ → ℕ → ReturnState → ℕ → Command (Unit {0})
execute_ need_spsr cpsr_bits_value cpsr_values_count state exception_vector = do
  spsr ← arm_read_cpsr
  stack ← arm_read_register sp
  address ← return_address state
  arm_write_cpsr (exception_cpsr spsr cpsr_bits_value cpsr_values_count)
  arm_write_register sp stack
  arm_write_register lr address
  save_spsr need_spsr spsr
  branch_exception_vector exception_vector

abbrev pub execute_reset : Command (Unit {0})
execute_reset = execute_ false 0b10011 3 next 0

abbrev pub execute_undefined_instruction : Command (Unit {0})
execute_undefined_instruction = execute_ true 0b11011 2 next 0x4

abbrev pub execute_software_interrupt : Command (Unit {0})
execute_software_interrupt = execute_ true 0b10011 2 next 0x8

abbrev pub execute_prefetch_abort : Command (Unit {0})
execute_prefetch_abort = execute_ true 0b10111 2 current 0xC

abbrev pub execute_data_abort : Command (Unit {0})
execute_data_abort = execute_ true 0b10111 2 current 0x10

abbrev pub execute_irq : Command (Unit {0})
execute_irq = execute_ true 0b10010 2 next 0x18

abbrev pub execute_fast_irq : Command (Unit {0})
execute_fast_irq = execute_ true 0b10001 3 next 0x1C

unfoldable pub arm_exception : ℕ → Command (Unit {0})
arm_exception exception =
    if exception == reset
    then execute_reset
    else if exception == undefined_instruction
    then execute_undefined_instruction
    else if exception == software_interrupt
    then execute_software_interrupt
    else if exception == prefetch_abort
    then execute_prefetch_abort
    else if exception == data_abort
    then execute_data_abort
    else if exception == interrupt
    then execute_irq
    else if exception == fast_interrupt
    then execute_fast_irq
    else pure tt

-- `arm_create` with what its two blocks from `malloc` happen to hold.
unfoldable pub arm_create : (contents : ℕ → ℕ) (cycles : ℕ) → Memory → Outcome Core
arm_create contents cycles mem =
    let p : Core = record { cycle_count = cycles; reg = registers_create contents; mem = mem } in
    and_then (arm_exception reset p) (λ (_, p'). done (record p' { cycle_count = 0 }))
