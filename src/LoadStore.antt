-- ===== src/LoadStore.antt =====
-- arm_simulator-1.4/arm_load_store.c: loads and stores. A result is a `uint8_t`: 0, 2 for an
-- undefined instruction, and 255 for the -1 of a memory access. A variable that the source may
-- read before it is set is an option, and the read of it without a value is undefined.
pub mod Addressing
pub mod Transfer
pub mod Condition
pub mod Bytes
pub mod Multiple
pub mod Words
pub mod Store
use arm_processor_simulator.Base.{
  ℕ, ◌+◌, ◌-◌, ◌*◌, ◌/◌, ◌%◌, ◌^◌, bit_and, bit_or, Bool, true, false, not, ◌&&◌, ◌||◌, Option,
  none, some, ◌==◌, if◌then◌else◌,
}
use arm_processor_simulator.Util.{get_bit, get_bits}
use arm_processor_simulator.Constants.{undefined_instruction}
use arm_processor_simulator.Core.{Command, pure, ◌>>=◌, ◌>>◌, value_of, arm_read_register}
use arm_processor_simulator.DataProcessing.{truth}
use arm_processor_simulator.LoadStore.Addressing.{
  p_bit, w_bit, set_index, Address, addrmode_load_store, addrmode_load_store_multiple,
  addrmode_load_store_miscellaneous,
}
use arm_processor_simulator.LoadStore.Transfer.{
  execute_instr_miscellaneous, execute_instr_word_byte, execute_instr_multiple,
}

-- The transfer of a word or byte from the address that the addressing mode has set.
unfoldable pub transfer_word_byte : ℕ → ℕ → ℕ → Command ℕ
transfer_word_byte ins rn add_word = do
  mode ← addrmode_load_store ins rn add_word
  address ← value_of mode.address
  execute_instr_word_byte ins address

unfoldable pub load_store_miscellaneous : ℕ → ℕ → ℕ → Command ℕ
load_store_miscellaneous ins rn rm = do
  mode ← addrmode_load_store_miscellaneous ins rn rm
  address ← value_of mode.address
  execute_instr_miscellaneous ins address

-- The register forms. The source passes `rm`, the register's value, to a `uint8_t` parameter.
unfoldable pub load_store_register : ℕ → ℕ → ℕ → Command ℕ
load_store_register ins rn rm =
    let a = get_bits ins 11 4 == 0 in
    if a
    then transfer_word_byte ins rn rm
    else if not (truth (get_bit ins 4)) && (truth (p_bit ins) || not (truth (w_bit ins)))
    then (do index ← set_index ins (rm % 2 ^ 8); transfer_word_byte ins rn index)
    else pure 0

-- The `switch` of `arm_load_store`.
unfoldable pub load_store_class : ℕ → ℕ → ℕ → ℕ → Command ℕ
load_store_class id ins rn rm =
    if id == 0
    then load_store_miscellaneous ins rn rm
    else if id == 2
    then transfer_word_byte ins rn (get_bits ins 11 0)
    else if id == 3
    then load_store_register ins rn rm
    else pure undefined_instruction

unfoldable pub arm_load_store : ℕ → Command ℕ
arm_load_store ins = do
  rn ← arm_read_register (get_bits ins 19 16)
  rm ← arm_read_register (get_bits ins 3 0)
  load_store_class (get_bits ins 27 25) ins rn rm

unfoldable pub arm_load_store_multiple : ℕ → Command ℕ
arm_load_store_multiple ins = do
  rn ← arm_read_register (get_bits ins 19 16)
  range ← addrmode_load_store_multiple ins rn
  execute_instr_multiple ins range.start_address range.end_address

unfoldable pub arm_coprocessor_load_store : ℕ → Command ℕ
arm_coprocessor_load_store ins = pure undefined_instruction
