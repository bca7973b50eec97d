-- ===== src/LoadStore/Addressing.antt =====
-- The addressing modes of arm_simulator-1.4/arm_load_store.c, and the condition that they test.
use arm_processor_simulator.Base.{
  ℕ, zero, suc, ◌+◌, ◌-◌, ◌*◌, ◌/◌, ◌%◌, ◌^◌, bit_or, Bool, true, false, not, ◌&&◌, ◌||◌, Option,
  none, some, ◌==◌, if◌then◌else◌,
}
use arm_processor_simulator.Util.{u8, u32, sub32, shl32, shr32, get_bit, get_bits, asr, ror}
use arm_processor_simulator.Constants.{z_bit, n_bit, c_bit, v_bit}
use arm_processor_simulator.Core.{Command, pure, ◌>>=◌, value_of, arm_read_register, arm_read_cpsr}
use arm_processor_simulator.DataProcessing.{truth}

-- `p(ins)` and `w(ins)` of arm_load_store.h.
abbrev pub p_bit : ℕ → ℕ
p_bit ins = get_bit ins 24

abbrev pub w_bit : ℕ → ℕ
w_bit ins = get_bit ins 21

-- The `switch` of `condition_passed`.
unfoldable pub condition_holds : ℕ → Bool → Bool → Bool → Bool → Bool
condition_holds cond z n c v =
    let same = (n && v) || (not n && not v) in
    if cond == 0
    then z
    else if cond == 1
    then not z
    else if cond == 2
    then c
    else if cond == 3
    then not c
    else if cond == 4
    then n
    else if cond == 5
    then not n
    else if cond == 6
    then v
    else if cond == 7
    then not v
    else if cond == 8
    then c && not z
    else if cond == 9
    then not c || z
    else if cond == 10
    then same
    else if cond == 11
    then not same
    else if cond == 12
    then not z && same
    else if cond == 13
    then z || not same
    else if cond == 14
    then true
    else if cond == 15
    then false
    else true

-- The source keeps the CPSR in a `uint8_t`, and takes the flags from that.
unfoldable pub condition_passed : ℕ → Command Bool
condition_passed ins = do
  status ← arm_read_cpsr
  let cpsr = u8 status
  pure (
      condition_holds (get_bits ins 31 28) (truth (get_bit cpsr z_bit)) (truth (get_bit cpsr n_bit))
        (truth (get_bit cpsr c_bit)) (truth (get_bit cpsr v_bit)))

-- `left_op + right_op * (u ? 1 : -1)`
unfoldable pub op : ℕ → ℕ → ℕ → ℕ
op ins left_op right_op =
    u32 (left_op + u32 (right_op * (if truth (get_bit ins 23) then 1 else 2 ^ 32 - 1)))

-- The loop of `nb_set_bits`. A `uint16_t` is 0 after 16 rounds.
unfoldable pub nb_set_bits_loop : ℕ → ℕ → ℕ → Option ℕ
nb_set_bits_loop zero nb count = none
nb_set_bits_loop (suc fuel) nb count =
    let rest = nb_set_bits_loop fuel (nb / 2) (u8 (count + nb % 2)) in
    if nb == 0 then some count else rest

unfoldable pub set_offset : ℕ → ℕ
set_offset ins = bit_or (get_bits ins 11 8 * 2 ^ 4) (get_bits ins 3 0)

-- `rm` is a `uint8_t`.
unfoldable pub set_index : ℕ → ℕ → Command ℕ
set_index ins rm = do
  status ← arm_read_cpsr
  let shift = get_bits ins 6 5
  let shift_imm = get_bits ins 11 7
  pure (
      if shift == 0b00
      then shl32 rm shift_imm
      else if shift == 0b01
      then (if truth shift_imm then shr32 rm shift_imm else 0)
      else if shift == 0b10
      then (if truth shift_imm
          then asr rm shift_imm
          else if truth (get_bit rm 31)
          then 0xFFFFFFFF
          else 0)
      else if truth shift_imm
      then ror rm shift_imm
      else bit_or (u32 (get_bit status c_bit * 2 ^ 31)) (rm / 2))

-- What an addressing mode stores through its pointers: the address, where it sets one, and the
-- base register's value, which the callers keep in a variable of their own.
pub record Address : Type 0 where
  pub address : Option ℕ
  pub rn : ℕ

unfoldable pub addrmode_load_store : ℕ → ℕ → ℕ → Command Address
addrmode_load_store ins rn add_word =
    let p = truth (p_bit ins) in
    let offset = op ins rn add_word in
    if p_bit ins == w_bit ins
    then (do
      passed ← condition_passed (get_bits ins 31 28)
      pure (record {
        address = some (if p then offset else rn);
        rn = if passed then offset else rn;
      }))
    else pure (record { address = if p then some offset else none; rn = rn })

pub record Range : Type 0 where
  pub start_address : ℕ
  pub end_address : ℕ
  pub rn : ℕ

abbrev minus_four : ℕ
minus_four = 2 ^ 32 - 4

unfoldable pub multiple_range : ℕ → ℕ → ℕ → Bool → Range
multiple_range ins nb rn passed =
    let p = truth (p_bit ins) in
    let u = truth (get_bit ins 23) in
    record {
      start_address =
          sub32 rn (if p then (if u then minus_four else nb) else if u then 0 else sub32 nb 4);
      end_address =
          u32 (rn + (if p then (if u then nb else minus_four) else if u then sub32 nb 4 else 0));
      rn = if passed && truth (w_bit ins) then (if u then u32 (rn + nb) else sub32 rn nb) else rn;
    }

-- `nb_set_bits` of the register list. The loop is given a round for each of the 16 bits and one to
-- see that none is left.
unfoldable pub nb_set_bits : ℕ → Option ℕ
nb_set_bits nb = nb_set_bits_loop 17 nb 0

unfoldable pub addrmode_load_store_multiple : ℕ → ℕ → Command Range
addrmode_load_store_multiple ins rn = do
  count ← value_of (nb_set_bits (get_bits ins 15 0))
  passed ← condition_passed (get_bits ins 31 28)
  pure (multiple_range ins (u8 (count * 4)) rn passed)

unfoldable pub addrmode_load_store_miscellaneous : ℕ → ℕ → ℕ → Command Address
addrmode_load_store_miscellaneous ins rn offset = do
  rm ← arm_read_register (get_bits ins 3 0)
  let moved = op ins rn (if truth (get_bit ins 22) then offset else rm)
  passed ← condition_passed ins
  pure (
      if truth (p_bit ins)
      then record { address = some moved; rn = if truth (w_bit ins) && passed then moved else rn }
      else record { address = some rn; rn = if passed then moved else rn })
