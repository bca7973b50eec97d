-- ===== src/Instruction.antt =====
-- arm_simulator-1.4/arm_instruction.c: the fetch, the condition, the choice of a decoder, and
-- `arm_step`, which raises the exception that an instruction returns.
pub mod Decode
pub mod Step
pub mod Branch
use arm_processor_simulator.Base.{
  update, ℕ, zero, suc, ◌+◌, ◌*◌, ◌/◌, ◌^◌, bit_and, bit_or, Bool, true, false, not, ◌&&◌, ◌||◌,
  Option, none, some, ltb, ◌==◌, if◌then◌else◌, to_int,
}
use arm_processor_simulator.Util.{get_bit, get_bits}
use arm_processor_simulator.Constants.{undefined_instruction, prefetch_abort}
use arm_processor_simulator.Core.{Command, pure, ◌>>=◌, ◌>>◌, value_of, arm_fetch, arm_read_cpsr}
use arm_processor_simulator.Exception.{arm_exception}
use arm_processor_simulator.DataProcessing.{
  truth, arm_data_processing_shift, arm_data_processing_immediate_msr,
}
use arm_processor_simulator.BranchOther.{arm_branch, arm_coprocessor_others_swi, arm_miscellaneous}
use arm_processor_simulator.LoadStore.{
  arm_load_store, arm_load_store_multiple, arm_coprocessor_load_store,
}

-- The `switch` of `init_decode_condition`, over the flags N, Z, C and V as the bits 3 to 0.
unfoldable pub decode_value : ℕ → ℕ → ℕ
decode_value cond flags =
    let z = bit_and flags 0b0100 in
    let c = bit_and flags 0b0010 in
    let n = bit_and flags 0b1000 in
    let v = bit_and flags 0b0001 in
    to_int (
      if cond == 0b0000
      then not (z == 0)
      else if cond == 0b0001
      then z == 0
      else if cond == 0b0010
      then not (c == 0)
      else if cond == 0b0011
      then c == 0
      else if cond == 0b0100
      then not (n == 0)
      else if cond == 0b0101
      then n == 0
      else if cond == 0b0110
      then not (v == 0)
      else if cond == 0b0111
      then v == 0
      else if cond == 0b1000
      then bit_and flags 0b0110 == 0b0010
      else if cond == 0b1001
      then not (z == 0) || c == 0
      else if cond == 0b1010
      then n / 2 ^ 3 == v
      else if cond == 0b1011
      then not (n / 2 ^ 3 == v)
      else if cond == 0b1100
      then n / 2 ^ 3 == v && z == 0
      else if cond == 0b1101
      then not (n / 2 ^ 3 == v) || not (z == 0)
      else false)

-- The inner loop of `init_decode_condition`, with the rounds that are left.
unfoldable pub decode_flags : ℕ → ℕ → ℕ → (ℕ → ℕ) → ℕ → ℕ
decode_flags zero cond flags table = table
decode_flags (suc left) cond flags table =
    decode_flags left cond (flags + 1)
      (update table (bit_or (cond * 2 ^ 4) flags) (decode_value cond flags))

unfoldable pub decode_conditions : ℕ → ℕ → (ℕ → ℕ) → ℕ → ℕ
decode_conditions zero cond table = table
decode_conditions (suc left) cond table =
    decode_conditions left (cond + 1) (decode_flags 16 cond 0 table)

-- `arm_decode_condition` once it has been filled, which it is before every read.
unfoldable pub arm_decode_condition : ℕ → ℕ
arm_decode_condition = decode_conditions 14 0 (λ _. 0)

-- `MRS` and `MSR` with a register, among the instructions of class 0.
unfoldable pub is_status_move : ℕ → Bool
is_status_move ins =
    get_bits ins 24 23 == 0b10 && (get_bits ins 21 20 == 0b00 || get_bits ins 21 20 == 0b10)

-- The `switch` over the instruction's class.
unfoldable pub dispatch : ℕ → Command ℕ
dispatch ins =
    let class = get_bits ins 27 25 in
    if class == 0
    then (if is_status_move ins
        then arm_miscellaneous ins
        else if get_bit ins 4 == 1 && get_bit ins 7 == 1
        then arm_load_store ins
        else arm_data_processing_shift ins)
    else if class == 1
    then (if get_bits ins 24 23 == 0b10 && get_bits ins 21 20 == 0b10
        then arm_miscellaneous ins
        else arm_data_processing_immediate_msr ins)
    else if class == 2
    then arm_load_store ins
    else if class == 3
    then arm_load_store ins
    else if class == 4
    then arm_load_store_multiple ins
    else if class == 6
    then arm_coprocessor_load_store ins
    else if class == 5
    then arm_branch ins
    else if class == 7
    then arm_coprocessor_others_swi ins
    else pure 0

-- Whether the instruction is executed, for a condition other than 15.
unfoldable pub condition_met : ℕ → Command Bool
condition_met cond = if cond == 0b1110 then pure true else do
  status ← arm_read_cpsr
  pure (truth (arm_decode_condition (bit_or (cond * 2 ^ 4) (get_bits status 31 28))))

-- An instruction that has been fetched.
unfoldable pub execute_fetched : ℕ → Command ℕ
execute_fetched ins =
    if get_bits ins 31 28 == 0b1111
    then pure undefined_instruction
    else do met ← condition_met (get_bits ins 31 28); if met then dispatch ins else pure 0

unfoldable pub arm_execute_instruction : Command ℕ
arm_execute_instruction = do
  fetched ← arm_fetch
  elim fetched [ none ↦ pure prefetch_abort | some ins ↦ execute_fetched ins ]

unfoldable pub arm_step : Command ℕ
arm_step = do
  result ← arm_execute_instruction
  if truth result then arm_exception result else pure tt
  pure result
