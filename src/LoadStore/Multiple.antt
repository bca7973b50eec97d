-- ===== src/LoadStore/Multiple.antt =====
-- The address ranges of LDM and STM in arm_load_store.c.
use arm_processor_simulator.Base.{
  ℕ, zero, suc, not, ◌+◌, ◌*◌, ◌/◌, ◌^◌, ◌≤◌, ◌<◌, ◌≡◌, refl, ◌∙◌, arith, Bool, false, done,
  if◌then◌else◌,
}
use arm_processor_simulator.Util.{u8, u32, sub32, get_bit, get_bits}
use arm_processor_simulator.Util.Fields.{get_bits_lem}
use arm_processor_simulator.Core.{Core, value_of}
use arm_processor_simulator.DataProcessing.{truth}
use arm_processor_simulator.LoadStore.Addressing.{
  p_bit, condition_holds, condition_passed, Range, multiple_range, addrmode_load_store_multiple,
}
use arm_processor_simulator.LoadStore.Condition.{
  ones, nb_set_bits_lem, condition_passed-condition_holds,
}

multiple_range-span :
    (ins nb rn : ℕ) (passed : Bool)
    → nb < 2 ^ 32
    → rn < 2 ^ 32
    → u32 ((multiple_range ins nb rn passed).end_address + 4)
      ≡ u32 ((multiple_range ins nb rn passed).start_address + nb)
unfolding multiple_range
multiple_range-span ins nb rn passed hn hr = ground arith

ones-le : (n x : ℕ) → ones n x ≤ n
ones-le zero x = omega arith
ones-le (suc n) x = omega (arith, ones-le n (x / 2))

-- In each of the four modes of LDM and STM, and whatever the base register holds, the range is as
-- long as four bytes for each register of the list: the word after its end is that many bytes beyond
-- its start, modulo 2 ^ 32. The base register's value comes back as it was also where the mode asks
-- for a write back, the range has the base at the end that the mode says, and the processor stays.
pub addrmode_load_store_multiple_lem :
    (ins rn : ℕ) (p : Core)
    → rn < 2 ^ 32
    → (range : Range) × (addrmode_load_store_multiple ins rn p ≡ done (range, p))
      × (u32 (range.end_address + 4) ≡ u32 (range.start_address + 4 * ones 16 (get_bits ins 15 0)))
      × (range.rn ≡ rn)
      × ((if truth (get_bit ins 23) then range.start_address else range.end_address) ≡ (
          if not (truth (p_bit ins))
          then rn
          else if truth (get_bit ins 23)
          then u32 (rn + 4)
          else sub32 rn 4))
unfolding addrmode_load_store_multiple value_of
addrmode_load_store_multiple_lem ins rn p h =
    let list = get_bits ins 15 0 in
    let count = nb_set_bits_lem list (omega (arith, get_bits_lem ins 15 0)) in
    let cond = get_bits ins 31 28 in
    let none_left : get_bits cond 31 28 ≡ 0 =
      omega (arith, get_bits_lem cond 31 28, get_bits_lem ins 31 28) in
    let passed : condition_passed cond p ≡ done (false, p) =
      condition_passed-condition_holds cond p ∙ rw none_left (unfold condition_holds in refl) in
    let bytes : u8 (ones 16 list * 4) ≡ 4 * ones 16 list = omega (arith, ones-le 16 list) in
    let range = multiple_range ins (4 * ones 16 list) rn false in
    (
      range,
      rw (count, passed, bytes) refl,
      multiple_range-span ins (4 * ones 16 list) rn false (omega (arith, ones-le 16 list)) h,
      unfold multiple_range in refl,
      unfold multiple_range in ground arith,
    )
