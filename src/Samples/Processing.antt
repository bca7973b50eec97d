-- ===== src/Samples/Processing.antt =====
-- The theorems on the data processing instructions and the status registers at sample values.
use arm_processor_simulator.Base.{
  ◌%◌, ◌/◌, ◌^◌, ◌≡◌, refl, arith, true, false, some, done, ◌==◌, to_int,
}
use arm_processor_simulator.Util.{get_bit}
use arm_processor_simulator.Constants.{cpsr, n_bit, z_bit, c_bit, v_bit}
use arm_processor_simulator.Registers.{read_cpsr}
use arm_processor_simulator.Registers.Bank.{bank}
use arm_processor_simulator.Core.Access.{mode_of, put}
use arm_processor_simulator.DataProcessing.{Computed, compute, execute_inst}
use arm_processor_simulator.DataProcessing.Flags.{get_carry_flag_add}
use arm_processor_simulator.DataProcessing.Operand.{lsr, get_shifter_operand}
use arm_processor_simulator.DataProcessing.Carry.{get_carry_flag_add_lem}
use arm_processor_simulator.DataProcessing.Effect.{execute_inst-add, flagged}
use arm_processor_simulator.DataProcessing.Shifter.{get_shifter_operand_lem}
use arm_processor_simulator.BranchOther.{psr_value}
use arm_processor_simulator.BranchOther.Status.{psr_value_lem}
use arm_processor_simulator.DataProcessing.Test.{execute_inst-test}
use arm_processor_simulator.Samples.{core_at, core_at-HasMode, svc_status}

carry_example : get_carry_flag_add 0x7FFFFFFF 1 ≡ 1
carry_example = get_carry_flag_add_lem 0x7FFFFFFF 1

shifter_example : get_shifter_operand 0x80000000 4 lsr ≡ 0xF8000000
shifter_example = get_shifter_operand_lem 0x80000000 3 27 lsr refl (omega arith)

add_example :
    execute_inst 0b0100 1 0xFFFFFFFF 1 true (core_at 0)
    ≡ done (0, put (put (core_at 0) (bank (mode_of (core_at 0)) 1) 0) cpsr 0x60000013)
unfolding read_cpsr
add_example =
    execute_inst-add (core_at 0) 1 0xFFFFFFFF 1 (core_at-HasMode 0) (omega arith) (omega arith)
      (omega arith) (omega arith)

cmp_example :
    (out : Computed) × (compute 0b1010 5 5 (get_bit svc_status c_bit) (get_bit svc_status v_bit)
      ≡ some out)
    × (execute_inst 0b1010 15 5 5 false (core_at 0)
        ≡ done (0, put (core_at 0) cpsr (flagged svc_status out)))
    × (flagged svc_status out % 2 ^ 28 ≡ 0x13)
    × (get_bit (flagged svc_status out) z_bit ≡ to_int (out.res == 0))
    × (get_bit (flagged svc_status out) n_bit ≡ out.res / 2 ^ 31 % 2)
unfolding read_cpsr
cmp_example = execute_inst-test 0b1010 15 5 5 false (core_at 0) refl (omega arith)

psr_example : psr_value 0x00090000 0x9F 0x20000013 ≡ 0x9F00009F
unfolding get_bit
psr_example = psr_value_lem 0x00090000 0x9F 0x20000013 (omega arith) (omega arith)
