-- ===== src/Util/Fields.antt =====
-- The bit field macros of util.h in arithmetic form.
use arm_processor_simulator.Base.{
  ℕ, suc, ◌+◌, ◌-◌, ◌*◌, ◌/◌, ◌%◌, ◌^◌, ◌≤◌, ◌<◌, bit_and, bit_or, ◌≡◌, ◌∙◌, sym, ap, ap₂, ◌≡⟨◌⟩◌,
  ◌∎, arith,
}
use arm_processor_simulator.Base.Bits.{
  bit_and_mask, bit_and_field, bit_or_comm, bit_or_join, bit_or_above, pow-add, bit_or-one,
  bit_and_split,
}
use native.Mathlib.Nat.{
  mod-eq_of_lt, mod-lt, mul-sub, mul_comm, div-lt_iff_lt-mul, one-le-pow, mul-lt-mul_of_pos_right,
  mul-le-mul_left, div-add-mod', mod-mod, pow-suc,
}
use arm_processor_simulator.Util.{
  get_bit, get_bits, set_bit, clr_bit, set_bits, high_mask, u32, complement,
}

pub get_bit_lem : (x i : ℕ) → get_bit x i ≡ x / 2 ^ i % 2
unfolding get_bit
get_bit_lem x i = bit_and_mask 1 (x / 2 ^ i)

pub get_bits_lem : (x h l : ℕ) → get_bits x h l ≡ x / 2 ^ l % 2 ^ (h - l + 1)
unfolding get_bits
get_bits_lem x h l = bit_and_mask (h - l + 1) (x / 2 ^ l)

-- The part of a word from bit `k` up, as the mask of `set_bits` leaves it.
high_part : (x k m : ℕ) → k + m ≡ 32 → x < 2 ^ 32 → bit_and x (high_mask k) ≡ x / 2 ^ k * 2 ^ k
high_part x k m e hx =
    let split : 2 ^ 32 ≡ 2 ^ k * 2 ^ m = ap (λ t. 2 ^ t) (sym e) ∙ pow-add k m in
    let mask : high_mask k ≡ (2 ^ m - 1) * 2 ^ k =
      omega (arith, split, mul-sub (2 ^ k) (2 ^ m) 1, mul_comm (2 ^ k) (2 ^ m - 1)) in
    let fits : x / 2 ^ k < 2 ^ m =
      (div-lt_iff_lt-mul (one-le-pow k 2 (omega arith))).1 (omega (arith, split)) in
    rw (mask, bit_and_field k m x, mod-eq_of_lt fits)

-- `set_bits` on a field of `w` bits above `l` others and below `m` others. The new bits may be
-- too wide for the field: the excess is joined with what stands above it.
pub set_bits_join :
    (x l w m bits : ℕ)
    → l + (suc w + m) ≡ 32
    → x < 2 ^ 32
    → bits < 2 ^ (suc w + m)
    → set_bits x (l + w) l bits ≡ bit_or (x / 2 ^ (l + suc w) * 2 ^ suc w) bits * 2 ^ l + x % 2 ^ l
unfolding set_bits
set_bits_join x l w m bits e hx hb =
    let width : l + w + 1 ≡ l + suc w = omega arith in
    let word : 2 ^ 32 ≡ 2 ^ l * 2 ^ (suc w + m) = ap (λ t. 2 ^ t) (sym e) ∙ pow-add l (suc w + m) in
    let shifted : u32 (bits * 2 ^ l) ≡ bits * 2 ^ l = mod-eq_of_lt (
      grind (
        arith,
        word,
        mul-lt-mul_of_pos_right {m = bits} {n = 2 ^ (suc w + m)} {k = 2 ^ l} hb
            (one-le-pow l 2 (omega arith)),
      )) in
    let low : x % 2 ^ l < 2 ^ l = mod-lt x (one-le-pow l 2 (omega arith)) in
    let high = x / 2 ^ (l + suc w) * 2 ^ suc w in
    let regroup : x / 2 ^ (l + suc w) * 2 ^ (l + suc w) ≡ high * 2 ^ l =
      omega (arith, ap (λ t. x / 2 ^ (l + suc w) * t) (pow-add l (suc w))) in
    let joined : bit_or (x % 2 ^ l) (high * 2 ^ l) ≡ high * 2 ^ l + x % 2 ^ l =
      bit_or_comm (x % 2 ^ l) (high * 2 ^ l) ∙ bit_or_join l high (x % 2 ^ l) low in
    rw (width, bit_and_mask l x, high_part x (l + suc w) m (omega arith) hx, shifted)
      (rw (regroup, joined) (bit_or_above l high (x % 2 ^ l) bits low))

-- A value that fits into its field replaces the field, and the rest of the word stays.
pub set_bits_lem :
    (x l w m bits : ℕ)
    → l + (suc w + m) ≡ 32
    → x < 2 ^ 32
    → bits < 2 ^ suc w
    → set_bits x (l + w) l bits ≡ (x / 2 ^ (l + suc w) * 2 ^ suc w + bits) * 2 ^ l + x % 2 ^ l
set_bits_lem x l w m bits e hx hb =
    let high = x / 2 ^ (l + suc w) in
    set_bits_join x l w m bits e hx (
      grind (
        arith,
        pow-add (suc w) m,
        mul-le-mul_left {m = 1} {n = 2 ^ m} (2 ^ suc w) (one-le-pow m 2 (omega arith)),
      ))
    ∙ ap (λ t. t * 2 ^ l + x % 2 ^ l) (bit_or_join (suc w) high bits hb)

pub set_bit_lem : (x i : ℕ) → set_bit x i ≡ (x / 2 ^ i / 2 * 2 + 1) * 2 ^ i + x % 2 ^ i
unfolding set_bit
set_bit_lem x i =
    let split : x / 2 ^ i * 2 ^ i + x % 2 ^ i ≡ x = div-add-mod' x (2 ^ i) in
    let one : 1 * 2 ^ i ≡ 2 ^ i = omega arith in
    ground (
      arith,
      split,
      one,
      bit_or_above i (x / 2 ^ i) (x % 2 ^ i) 1 (mod-lt x (one-le-pow i 2 (omega arith))),
      bit_or-one (x / 2 ^ i),
    )

pub clr_bit_lem :
    (x i m : ℕ) → i + suc m ≡ 32 → x < 2 ^ 32 → clr_bit x i ≡ x / 2 ^ i / 2 * 2 * 2 ^ i + x % 2 ^ i
unfolding clr_bit
clr_bit_lem x i m e hx =
    let y = x / 2 ^ i in
    let pos : 1 ≤ 2 ^ i = one-le-pow i 2 (omega arith) in
    let word : 2 ^ 32 ≡ 2 ^ i * 2 ^ suc m = ap (λ t. 2 ^ t) (sym e) ∙ pow-add i (suc m) in
    let room : 2 ^ i * 1 ≤ 2 ^ i * 2 ^ m = mul-le-mul_left (2 ^ i) (one-le-pow m 2 (omega arith)) in
    let twice : 2 ^ 32 ≡ 2 * (2 ^ i * 2 ^ m) =
      omega (arith, word, ap (λ t. 2 ^ i * t) (pow-suc 2 m)) in
    let mask : complement (2 ^ i) ≡ (2 ^ m - 1) * 2 ^ 1 * 2 ^ i + (2 ^ i - 1) =
      omega (arith, mul-sub (2 ^ i) (2 ^ m) 1, mul_comm (2 ^ i) (2 ^ m - 1)) in
    let split : x ≡ y * 2 ^ i + x % 2 ^ i = sym (div-add-mod' x (2 ^ i)) in
    let two_pos : 0 < 2 ^ 1 = omega arith in
    let ones : 2 ^ i - 1 < 2 ^ i = omega arith in
    let bound : x < 2 ^ m * 2 * 2 ^ i = omega (arith, twice) in
    let half : y / 2 ^ 1 < 2 ^ m =
      (div-lt_iff_lt-mul two_pos).1 ((div-lt_iff_lt-mul pos).1 bound) in
    bit_and x (complement (2 ^ i))
    ≡⟨ ap₂ bit_and split mask ⟩
      bit_and (y * 2 ^ i + x % 2 ^ i) ((2 ^ m - 1) * 2 ^ 1 * 2 ^ i + (2 ^ i - 1))
    ≡⟨ bit_and_split i y (x % 2 ^ i) ((2 ^ m - 1) * 2 ^ 1) (2 ^ i - 1) (mod-lt x pos) ones ⟩
      bit_and y ((2 ^ m - 1) * 2 ^ 1) * 2 ^ i + bit_and (x % 2 ^ i) (2 ^ i - 1)
    ≡⟨ (rw
        (bit_and_field 1 m y, bit_and_mask i (x % 2 ^ i), mod-eq_of_lt half, mod-mod x (2 ^ i))) ⟩
      y / 2 * 2 * 2 ^ i + x % 2 ^ i ∎
