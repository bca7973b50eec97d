-- ===== src/LoadStore/Condition.antt =====
-- What the addressing modes of arm_load_store.c make of the condition, the base register and the
-- register list.
use arm_processor_simulator.Base.{
  ℕ, zero, suc, ◌+◌, ◌/◌, ◌%◌, ◌^◌, ◌<◌, ◌≡◌, refl, ◌∙◌, ap, arith, false, some, none, done,
  if◌then◌else◌,
}
use native.Mathlib.Nat.{zero-add}
use native.Mathlib.Decide.{dec_lt}
use arm_processor_simulator.Util.{get_bit, get_bits, u8}
use arm_processor_simulator.Util.Fields.{get_bit_lem, get_bits_lem}
use arm_processor_simulator.DataProcessing.{truth}
use arm_processor_simulator.Core.{Core, arm_read_cpsr}
use arm_processor_simulator.Registers.{read_cpsr}
use arm_processor_simulator.LoadStore.Addressing.{
  p_bit, w_bit, op, condition_holds, condition_passed, addrmode_load_store, nb_set_bits,
  nb_set_bits_loop,
}

-- The condition of a load or store is tested as if all four flags were clear, whatever the CPSR
-- holds.
pub condition_passed-condition_holds :
    (ins : ℕ) (p : Core)
    → condition_passed ins p
      ≡ done (condition_holds (get_bits ins 31 28) false false false false, p)
unfolding condition_passed arm_read_cpsr
condition_passed-condition_holds ins p =
    let s = read_cpsr p.reg in
    let clear_28 : get_bit (u8 s) 28 ≡ 0 = omega (arith, get_bit_lem (u8 s) 28) in
    let clear_29 : get_bit (u8 s) 29 ≡ 0 = omega (arith, get_bit_lem (u8 s) 29) in
    let clear_30 : get_bit (u8 s) 30 ≡ 0 = omega (arith, get_bit_lem (u8 s) 30) in
    let clear_31 : get_bit (u8 s) 31 ≡ 0 = omega (arith, get_bit_lem (u8 s) 31) in
    rw (clear_28, clear_29, clear_30, clear_31) refl

-- The address of a word or byte transfer: the moved base where it is pre-indexed, the base where
-- it is post-indexed, and none where the two bits ask for the unprivileged form. The base
-- register's value comes back as it was in every case, also where the mode asks for a write back.
pub addrmode_load_store_lem :
    (ins rn add_word : ℕ) (p : Core)
    → addrmode_load_store ins rn add_word p
      ≡ done (
        record {
          address =
              if truth (p_bit ins)
              then some (op ins rn add_word)
              else if truth (w_bit ins)
              then none
              else some rn;
          rn = rn;
        },
        p,
      )
unfolding addrmode_load_store
addrmode_load_store_lem ins rn add_word p =
    let cond = get_bits ins 31 28 in
    let e1 : get_bits cond 31 28 ≡ 0 =
      omega (arith, get_bits_lem cond 31 28, get_bits_lem ins 31 28) in
    let passed : condition_passed cond p ≡ done (false, p) =
      condition_passed-condition_holds cond p ∙ rw e1 (unfold condition_holds in refl) in
    ground (arith, passed, get_bit_lem ins 24, get_bit_lem ins 21)

-- The number of ones among the lowest `n` bits.
abbrev pub ones : ℕ → ℕ → ℕ
ones zero x = 0
ones (suc n) x = x % 2 + ones n (x / 2)

ones-zero : (n : ℕ) → ones n 0 ≡ 0
ones-zero zero = refl
ones-zero (suc n) = omega (arith, ones-zero n)

nb_set_bits_loop_lem :
    (n x count : ℕ)
    → x < 2 ^ n
    → count + n < 2 ^ 8
    → nb_set_bits_loop (suc n) x count ≡ some (count + ones n x)
unfolding nb_set_bits_loop
nb_set_bits_loop_lem zero x count h k = ground arith
nb_set_bits_loop_lem (suc n) x count h k =
    let bit : u8 (count + x % 2) ≡ count + x % 2 = omega arith in
    let ih = nb_set_bits_loop_lem n (x / 2) (count + x % 2) (omega arith) (omega arith) in
    elim (dec_lt x 1) [
      | yes e ↦ let none_left : x ≡ 0 = omega arith in rw none_left (ground (arith, ones-zero n))
      | no ne ↦ ground (arith, bit, ih)
    ]

-- The loop ends for every register list, with the number of its registers.
pub nb_set_bits_lem : (x : ℕ) → x < 2 ^ 16 → nb_set_bits x ≡ some (ones 16 x)
unfolding nb_set_bits
nb_set_bits_lem x h = nb_set_bits_loop_lem 16 x 0 h (omega arith) ∙ ap some (zero-add (ones 16 x))
