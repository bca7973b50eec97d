-- ===== src/Invariant/Step.antt =====
-- What a step of arm_simulator-1.4/arm_instruction.c keeps.
use arm_processor_simulator.Base.{ℕ}
use arm_processor_simulator.LoadStore.{
  transfer_word_byte, load_store_miscellaneous, load_store_register, load_store_class,
  arm_load_store, arm_load_store_multiple, arm_coprocessor_load_store,
}
use arm_processor_simulator.Instruction.{
  dispatch, condition_met, execute_fetched, arm_execute_instruction, arm_step,
}
use arm_processor_simulator.Invariant.Keeps.{Keeps}
use arm_processor_simulator.Invariant.Accesses.{keeps_rules, Keeps-arm_fetch}
use arm_processor_simulator.Invariant.Transfers.{
  Keeps-addrmode_load_store, Keeps-addrmode_load_store_miscellaneous,
  Keeps-addrmode_load_store_multiple, Keeps-set_index, Keeps-execute_instr_word_byte,
  Keeps-execute_instr_miscellaneous, Keeps-execute_instr_multiple,
}
use arm_processor_simulator.Invariant.Processing.{
  Keeps-arm_miscellaneous, Keeps-arm_data_processing_shift, Keeps-arm_data_processing_immediate_msr,
  Keeps-arm_branch, Keeps-arm_coprocessor_others_swi,
}
use arm_processor_simulator.Invariant.Exceptions.{Keeps-arm_exception}

pub Keeps-transfer_word_byte : (ins rn add_word : ℕ) → Keeps (transfer_word_byte ins rn add_word)
unfolding transfer_word_byte
Keeps-transfer_word_byte ins rn add_word =
    search (keeps_rules, Keeps-addrmode_load_store, Keeps-execute_instr_word_byte) depth 14

pub Keeps-load_store_miscellaneous : (ins rn rm : ℕ) → Keeps (load_store_miscellaneous ins rn rm)
unfolding load_store_miscellaneous
Keeps-load_store_miscellaneous ins rn rm =
    search (keeps_rules, Keeps-addrmode_load_store_miscellaneous, Keeps-execute_instr_miscellaneous)
      depth 14

pub Keeps-load_store_register : (ins rn rm : ℕ) → Keeps (load_store_register ins rn rm)
unfolding load_store_register
Keeps-load_store_register ins rn rm =
    search (keeps_rules, Keeps-set_index, Keeps-transfer_word_byte) depth 14

pub Keeps-load_store_class : (id ins rn rm : ℕ) → Keeps (load_store_class id ins rn rm)
unfolding load_store_class
Keeps-load_store_class id ins rn rm =
    search
      (
        keeps_rules, Keeps-transfer_word_byte, Keeps-load_store_miscellaneous,
        Keeps-load_store_register,
      )
      depth 14

pub Keeps-arm_load_store : (ins : ℕ) → Keeps (arm_load_store ins)
unfolding arm_load_store
Keeps-arm_load_store ins = search (keeps_rules, Keeps-load_store_class) depth 14

pub Keeps-arm_load_store_multiple : (ins : ℕ) → Keeps (arm_load_store_multiple ins)
unfolding arm_load_store_multiple
Keeps-arm_load_store_multiple ins =
    search (keeps_rules, Keeps-addrmode_load_store_multiple, Keeps-execute_instr_multiple) depth 14

pub Keeps-arm_coprocessor_load_store : (ins : ℕ) → Keeps (arm_coprocessor_load_store ins)
unfolding arm_coprocessor_load_store
Keeps-arm_coprocessor_load_store ins = search keeps_rules depth 14

pub Keeps-dispatch : (ins : ℕ) → Keeps (dispatch ins)
unfolding dispatch
Keeps-dispatch ins =
    search
      (
        keeps_rules, Keeps-arm_miscellaneous, Keeps-arm_data_processing_shift,
        Keeps-arm_data_processing_immediate_msr, Keeps-arm_branch, Keeps-arm_coprocessor_others_swi,
        Keeps-arm_load_store, Keeps-arm_load_store_multiple, Keeps-arm_coprocessor_load_store,
      )
      depth 14

pub Keeps-condition_met : (cond : ℕ) → Keeps (condition_met cond)
unfolding condition_met
Keeps-condition_met cond = search keeps_rules depth 14

pub Keeps-execute_fetched : (ins : ℕ) → Keeps (execute_fetched ins)
unfolding execute_fetched
Keeps-execute_fetched ins = search (keeps_rules, Keeps-dispatch, Keeps-condition_met) depth 14

pub Keeps-arm_execute_instruction : Keeps arm_execute_instruction
unfolding arm_execute_instruction
Keeps-arm_execute_instruction =
    search (keeps_rules, Keeps-arm_fetch, Keeps-execute_fetched) depth 14

pub Keeps-arm_step : Keeps arm_step
unfolding arm_step
Keeps-arm_step = search (keeps_rules, Keeps-arm_exception, Keeps-arm_execute_instruction) depth 14
