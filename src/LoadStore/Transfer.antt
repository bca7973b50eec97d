-- ===== src/LoadStore/Transfer.antt =====
-- The transfers of arm_simulator-1.4/arm_load_store.c between registers and memory.
use arm_processor_simulator.Base.{
  ℕ, zero, suc, ◌+◌, ◌-◌, ◌*◌, ◌%◌, ◌^◌, bit_and, not, ◌&&◌, ◌||◌, Option, none, some, aborted,
  ◌==◌, if◌then◌else◌,
}
use arm_processor_simulator.Util.{u8, u32, sub32, get_bit, get_bits, set_bit, clr_bit}
use arm_processor_simulator.Constants.{lr, pc, undefined_instruction}
use arm_processor_simulator.Core.{
  Command, pure, ◌>>=◌, ◌>>◌, value_of, arm_read_register, arm_write_register, arm_read_cpsr,
  arm_write_cpsr, arm_read_byte, arm_read_half, arm_read_word, arm_write_byte, arm_write_half,
  arm_write_word,
}
use arm_processor_simulator.DataProcessing.{truth}
use arm_processor_simulator.LoadStore.Addressing.{condition_passed}

-- -1 as a `uint8_t`.
abbrev pub failed : ℕ
failed = 255

-- What a read leaves: its result, and on success the value.
abbrev pub read_result : Option ℕ → ℕ
read_result none = failed
read_result (some value) = 0

-- A read into `word` that leaves `word` as it was where it fails.
abbrev pub assigned : Option ℕ → Option ℕ → Option ℕ
assigned none old = old
assigned (some value) old = some value

unfoldable pub strh : ℕ → ℕ → ℕ → Command ℕ
strh ins address rd = do
  passed ← condition_passed ins
  if passed
      then (do
        value ← arm_read_register rd
        res ← arm_write_half address (bit_and value 0xFFFF)
        pure (u8 res))
      else pure 0

unfoldable pub ldrd : ℕ → ℕ → Command ℕ
ldrd address rd =
    if not (truth (rd % 2)) || rd == lr || not (truth (get_bits address 1 0)) then pure 0 else do
      first ← arm_read_word address
      elim first [
        | none ↦ pure 0
        | some word ↦ do
          arm_write_register rd word
          second ← arm_read_word (u32 (address + 4))
          elim second [ none ↦ pure 0 | some next ↦ do arm_write_register (rd + 1) next; pure 0 ]
      ]

unfoldable pub strd : ℕ → ℕ → Command ℕ
strd address rd =
    if not (truth (rd % 2))
      || rd == lr
      || not (truth (get_bits address 1 0))
      || not (truth (get_bit address 2))
    then pure 0
    else do
      word ← arm_read_register rd
      res ← arm_write_word address word
      if truth (u8 res) then pure (u8 res) else do
        next ← arm_read_register (rd + 1)
        last ← arm_write_word (u32 (address + 4)) next
        pure (u8 last)

unfoldable pub ldrh : ℕ → ℕ → Command ℕ
ldrh address rd = do
  half ← arm_read_half address
  elim half [ none ↦ pure failed | some value ↦ do arm_write_register rd value; pure 0 ]

unfoldable pub execute_instr_miscellaneous : ℕ → ℕ → Command ℕ
execute_instr_miscellaneous ins address =
    let rd = get_bits ins 15 12 in
    let code = get_bit ins 20 * 4 + get_bit ins 6 * 2 + get_bit ins 5 in
    if code == 1
    then strh ins address rd
    else if code == 2
    then ldrd address rd
    else if code == 3
    then strd address rd
    else if code == 5
    then ldrh address rd
    else pure undefined_instruction

-- The source compares the `uint8_t` result with -1 before it writes the register, which never
-- holds.
unfoldable pub ldrb : ℕ → ℕ → Command ℕ
ldrb address rd = do
  byte ← arm_read_byte address
  let res = read_result byte
  if res == 2 ^ 32 - 1
      then (do value ← value_of byte; arm_write_register rd value; pure res)
      else pure res

-- `cpsr = (temp == 1) ? set_bit(cpsr, 5) : clr_bit(cpsr, 5)`, for the lowest bit of a word that is
-- loaded into the program counter. The test `temp != -1` always holds of a `uint8_t`.
unfoldable pub write_thumb : ℕ → Command (Unit {0})
write_thumb word = do
  cpsr ← arm_read_cpsr
  arm_write_cpsr (if get_bit word 0 == 1 then set_bit cpsr 5 else clr_bit cpsr 5)

unfoldable pub ldr_pc : ℕ → Command ℕ
ldr_pc word = do write_thumb word; pure (bit_and word 0xFFFFFFFE)

-- Where the read fails `word` was never set, and the source writes it to the register.
unfoldable pub ldr : ℕ → ℕ → Command ℕ
ldr address rd = do
  result ← arm_read_word address
  word ← value_of result
  loaded ← if rd == 15 then ldr_pc word else pure word
  arm_write_register rd loaded
  pure 0

unfoldable pub strb : ℕ → ℕ → ℕ → Command ℕ
strb ins address rd = do
  passed ← condition_passed ins
  if passed
      then (do
        value ← arm_read_register rd
        res ← arm_write_byte address (bit_and value 0x00FF)
        pure 0)
      else pure 0

unfoldable pub str : ℕ → ℕ → ℕ → Command ℕ
str ins address rd = do
  passed ← condition_passed ins
  if passed
      then (do value ← arm_read_register rd; res ← arm_write_word address value; pure (u8 res))
      else pure 0

unfoldable pub execute_instr_word_byte : ℕ → ℕ → Command ℕ
execute_instr_word_byte ins address =
    let rd = get_bits ins 15 12 in
    let b = truth (get_bit ins 22) in
    if truth (get_bit ins 20)
    then (if b then ldrb address rd else ldr address rd)
    else if b
    then strb ins address rd
    else str ins address rd

-- The variables of the loops of `executeInstr_multiple`.
pub record Progress : Type 0 where
  pub address : ℕ
  pub res : ℕ
  pub word : Option ℕ

-- One register of LDM.
unfoldable pub ldm_one : ℕ → Progress → Command Progress
ldm_one i s = do
  result ← arm_read_word s.address
  (elim result [ none ↦ pure tt | some value ↦ arm_write_register i value ])
  pure (record {
    address = u32 (s.address + 4);
    res = read_result result;
    word = assigned result s.word;
  })

-- The loop of LDM over `i`, with the rounds that are left.
unfoldable pub ldm_loop : ℕ → ℕ → ℕ → Progress → Command Progress
ldm_loop registers zero i s = pure s
ldm_loop registers (suc rounds) i s = do
  s' ← if not (truth s.res) && truth (get_bit registers i) then ldm_one i s else pure s
  ldm_loop registers rounds (i + 1) s'

-- The load of the program counter. `word` keeps its value where the read fails.
unfoldable pub ldm_pc : Progress → Command Progress
ldm_pc s = do
  result ← arm_read_word s.address
  word ← value_of (assigned result s.word)
  write_thumb word
  arm_write_register pc (bit_and word 0xFFFFFFFE)
  pure (record { address = u32 (s.address + 4); res = read_result result; word = some word })

unfoldable pub stm_one : ℕ → Progress → Command Progress
stm_one i s = do
  value ← arm_read_register i
  res ← arm_write_word s.address value
  pure (record s { address = u32 (s.address + 4); res = u8 res })

unfoldable pub stm_loop : ℕ → ℕ → ℕ → Progress → Command Progress
stm_loop registers zero i s = pure s
stm_loop registers (suc rounds) i s = do
  s' ← if not (truth s.res) && truth (get_bit registers i) then stm_one i s else pure s
  stm_loop registers rounds (i + 1) s'

-- `assert(end_address == (address - 4))`, and the result.
unfoldable pub assert_end : ℕ → Progress → Command ℕ
assert_end end_address s p = if end_address == sub32 s.address 4 then pure s.res p else aborted

abbrev pub at_start : ℕ → Progress
at_start start_address = record { address = start_address; res = 0; word = none }

unfoldable pub execute_instr_multiple : ℕ → ℕ → ℕ → Command ℕ
execute_instr_multiple ins start_address end_address =
    let registers = get_bits ins 15 0 in
    if truth (get_bit ins 20)
    then (do
      s ← ldm_loop registers 15 0 (at_start start_address)
      s' ← if truth (get_bit registers 15) && not (truth s.res) then ldm_pc s else pure s
      assert_end end_address s')
    else do s ← stm_loop registers 16 0 (at_start start_address); assert_end end_address s
