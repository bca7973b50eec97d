-- ===== src/Invariant/Processing.antt =====
-- What the instructions of arm_simulator-1.4/arm_data_processing.c and arm_branch_other.c keep.
use arm_processor_simulator.Base.{Option, none, some, ℕ, Bool}
use arm_processor_simulator.DataProcessing.Operand.{get_shifter_operand_register}
use arm_processor_simulator.DataProcessing.{
  restore_cpsr, update_status, finish, execute_inst, shift_operand, arm_data_processing_shift,
  arm_data_processing_immediate_msr,
}
use arm_processor_simulator.Constants.{undefined_instruction}
use arm_processor_simulator.Core.{pure, arm_read_cpsr}
use arm_processor_simulator.BranchOther.{
  exit, write_link, arm_branch, arm_coprocessor_others_swi, write_psr, msr_operand, msr, mrs,
  arm_miscellaneous,
}
use arm_processor_simulator.DataProcessing.{Computed}
use arm_processor_simulator.DataProcessing.Operand.{ShiftName}
use arm_processor_simulator.Invariant.Keeps.{Keeps, Keeps->>=}
use arm_processor_simulator.Invariant.Accesses.{keeps_rules, Keeps-arm_read_cpsr}

pub Keeps-get_shifter_operand_register :
    (ins so : ℕ) (operand : ShiftName) → Keeps (get_shifter_operand_register ins so operand)
unfolding get_shifter_operand_register
Keeps-get_shifter_operand_register ins so operand = search keeps_rules depth 14

pub Keeps-restore_cpsr : Keeps restore_cpsr
unfolding restore_cpsr
Keeps-restore_cpsr = search keeps_rules depth 14

pub Keeps-update_status :
    (value rd : ℕ) (update_cpsr : Bool) (out : Computed)
    → Keeps (update_status value rd update_cpsr out)
unfolding update_status
Keeps-update_status value rd update_cpsr out = search (keeps_rules, Keeps-restore_cpsr) depth 14

pub Keeps-finish :
    (value rd : ℕ) (update_cpsr : Bool) (out : Computed) → Keeps (finish value rd update_cpsr out)
unfolding finish
Keeps-finish value rd update_cpsr out = search (keeps_rules, Keeps-update_status) depth 14

Keeps-computed :
    (value rd : ℕ) (update_cpsr : Bool) (o : Option Computed)
    → Keeps
        (elim o [ none ↦ pure undefined_instruction | some out ↦ finish value rd update_cpsr out ])
Keeps-computed value rd update_cpsr none = search keeps_rules
Keeps-computed value rd update_cpsr (some out) = Keeps-finish value rd update_cpsr out

pub Keeps-execute_inst :
    (opcode rd rn so : ℕ) (update_cpsr : Bool) → Keeps (execute_inst opcode rd rn so update_cpsr)
unfolding execute_inst
Keeps-execute_inst opcode rd rn so update_cpsr =
    Keeps->>= arm_read_cpsr _ Keeps-arm_read_cpsr (λ value. Keeps-computed value rd update_cpsr _)

pub Keeps-shift_operand : (ins so : ℕ) → Keeps (shift_operand ins so)
unfolding shift_operand
Keeps-shift_operand ins so = search (keeps_rules, Keeps-get_shifter_operand_register) depth 14

pub Keeps-arm_data_processing_shift : (ins : ℕ) → Keeps (arm_data_processing_shift ins)
unfolding arm_data_processing_shift
Keeps-arm_data_processing_shift ins =
    search (keeps_rules, Keeps-execute_inst, Keeps-shift_operand) depth 14

pub Keeps-arm_data_processing_immediate_msr :
    (ins : ℕ) → Keeps (arm_data_processing_immediate_msr ins)
unfolding arm_data_processing_immediate_msr
Keeps-arm_data_processing_immediate_msr ins = search (keeps_rules, Keeps-execute_inst) depth 14

pub Keeps-write_link : (ins : ℕ) → Keeps (write_link ins)
unfolding write_link
Keeps-write_link ins = search keeps_rules depth 14

pub Keeps-arm_branch : (ins : ℕ) → Keeps (arm_branch ins)
unfolding arm_branch
Keeps-arm_branch ins = search (keeps_rules, Keeps-write_link) depth 14

Keeps-exit : Keeps exit
Keeps-exit = record { at = λ p a p' h. absurd cc }

pub Keeps-arm_coprocessor_others_swi : (ins : ℕ) → Keeps (arm_coprocessor_others_swi ins)
unfolding arm_coprocessor_others_swi
Keeps-arm_coprocessor_others_swi ins = search (keeps_rules, Keeps-exit)

pub Keeps-write_psr : (ins value r : ℕ) → Keeps (write_psr ins value r)
unfolding write_psr
Keeps-write_psr ins value r = search keeps_rules depth 14

pub Keeps-msr_operand : (ins : ℕ) → Keeps (msr_operand ins)
unfolding msr_operand
Keeps-msr_operand ins = search keeps_rules depth 14

pub Keeps-msr : (ins : ℕ) → Keeps (msr ins)
unfolding msr
Keeps-msr ins = search (keeps_rules, Keeps-write_psr, Keeps-msr_operand) depth 14

pub Keeps-mrs : (ins : ℕ) → Keeps (mrs ins)
unfolding mrs
Keeps-mrs ins = search keeps_rules depth 14

pub Keeps-arm_miscellaneous : (ins : ℕ) → Keeps (arm_miscellaneous ins)
unfolding arm_miscellaneous
Keeps-arm_miscellaneous ins = search (keeps_rules, Keeps-msr, Keeps-mrs) depth 14
