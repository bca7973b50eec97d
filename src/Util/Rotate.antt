-- ===== src/Util/Rotate.antt =====
-- The shifts of util.c: `ror` is a rotation, `asr` a shift that repeats the sign.
use arm_processor_simulator.Base.{
  ℕ, suc, ◌+◌, ◌-◌, ◌*◌, ◌/◌, ◌%◌, ◌^◌, ◌≤◌, ◌<◌, bit_or, ◌≡◌, ◌∙◌, sym, ap, ap₂, ◌≡⟨◌⟩◌, ◌∎, arith,
}
use arm_processor_simulator.Base.Bits.{bit_or_comm, bit_or_join, bit_or_self, bit_or-zero, pow-add}
use native.Mathlib.Nat.{
  mod-eq_of_lt, mod-lt, one-le-pow, div-lt_iff_lt-mul, div-add-mod', mul-lt-mul_of_pos_right,
  add-mul-mod_self_right, mul-le-mul_left, mul-sub, mul_comm,
}
use native.Mathlib.Decide.{dec_lt}
use arm_processor_simulator.Util.{get_bit, asr, ror}
use arm_processor_simulator.Util.Fields.{get_bit_lem}

-- `value << m` in 32 bits keeps the lowest `32 - m` bits of `value`.
wrapped : (k m value : ℕ) → k + m ≡ 32 → value * 2 ^ m % 2 ^ 32 ≡ value % 2 ^ k * 2 ^ m
wrapped k m value e =
    let big = 2 ^ k * 2 ^ m in
    let word : 2 ^ 32 ≡ big = ap (λ t. 2 ^ t) (sym e) ∙ pow-add k m in
    let low = value % 2 ^ k in
    let high = value / 2 ^ k in
    let split : value * 2 ^ m ≡ low * 2 ^ m + high * big =
      omega (arith, ap (λ t. t * 2 ^ m) (div-add-mod' value (2 ^ k))) in
    let fits : low * 2 ^ m < big =
      mul-lt-mul_of_pos_right (mod-lt value (one-le-pow k 2 (omega arith)))
        (one-le-pow m 2 (omega arith)) in
    value * 2 ^ m % 2 ^ 32
    ≡⟨ ap₂ ◌%◌ split word ⟩ (low * 2 ^ m + high * big) % big
    ≡⟨ add-mul-mod_self_right (low * 2 ^ m) high big ⟩ low * 2 ^ m % big
    ≡⟨ mod-eq_of_lt fits ⟩ low * 2 ^ m ∎

-- What `value >> k` leaves fits below the `k` bits that a rotation brings in.
shifted_fits : (k m value : ℕ) → k + m ≡ 32 → value < 2 ^ 32 → value / 2 ^ k < 2 ^ m
shifted_fits k m value e h =
    let word : 2 ^ 32 ≡ 2 ^ k * 2 ^ m = ap (λ t. 2 ^ t) (sym e) ∙ pow-add k m in
    (div-lt_iff_lt-mul (one-le-pow k 2 (omega arith))).1 (omega (arith, word))

join_top : (m top bottom : ℕ) → bottom < 2 ^ m → bit_or bottom (top * 2 ^ m) ≡ top * 2 ^ m + bottom
join_top m top bottom fits = bit_or_comm bottom (top * 2 ^ m) ∙ bit_or_join m top bottom fits

-- A rotation by 1 to 31: the bits that leave at the bottom come back at the top.
pub ror_lem :
    (k m value : ℕ)
    → suc k + suc m ≡ 32
    → value < 2 ^ 32
    → ror value (suc k) ≡ value % 2 ^ suc k * 2 ^ suc m + value / 2 ^ suc k
unfolding ror
ror_lem k m value e h =
    let down : suc k % 32 ≡ suc k = omega arith in
    let up : (288 - suc k) % 32 ≡ suc m = omega arith in
    rw (down, up, wrapped (suc k) (suc m) value e)
      (join_top (suc m) (value % 2 ^ suc k) (value / 2 ^ suc k)
        (shifted_fits (suc k) (suc m) value e h))

-- By a count of 0 the shift left by 32 is one by 0 on x86, and the word stays.
pub ror-zero : (value : ℕ) → value < 2 ^ 32 → ror value 0 ≡ value
unfolding ror
ror-zero value h = ground (arith, bit_or_self 32 value)

all_ones : (k m : ℕ) → k + m ≡ 32 → (2 ^ 32 - 1) % 2 ^ k ≡ 2 ^ k - 1
all_ones k m e =
    let word : 2 ^ 32 ≡ 2 ^ k * 2 ^ m = ap (λ t. 2 ^ t) (sym e) ∙ pow-add k m in
    let pos : 1 ≤ 2 ^ k = one-le-pow k 2 (omega arith) in
    let room : 2 ^ k * 1 ≤ 2 ^ k * 2 ^ m = mul-le-mul_left (2 ^ k) (one-le-pow m 2 (omega arith)) in
    let split : 2 ^ 32 - 1 ≡ 2 ^ k - 1 + (2 ^ m - 1) * 2 ^ k =
      omega (arith, mul-sub (2 ^ k) (2 ^ m) 1, mul_comm (2 ^ k) (2 ^ m - 1)) in
    ap (λ t. t % 2 ^ k) split
    ∙ add-mul-mod_self_right (2 ^ k - 1) (2 ^ m - 1) (2 ^ k)
    ∙ mod-eq_of_lt (omega arith)

-- A shift by 1 to 31 repeats the sign of the word in the bits that it brings in at the top.
pub asr_lem :
    (k m value : ℕ)
    → suc k + suc m ≡ 32
    → value < 2 ^ 32
    → asr value (suc k) ≡ value / 2 ^ 31 * (2 ^ suc k - 1) * 2 ^ suc m + value / 2 ^ suc k
unfolding asr
asr_lem k m value e h =
    let down : suc k % 32 ≡ suc k = omega arith in
    let up : (288 - suc k) % 32 ≡ suc m = omega arith in
    let fits = shifted_fits (suc k) (suc m) value e h in
    let sign = get_bit_lem value 31 in
    rw (down, up, wrapped (suc k) (suc m) (2 ^ 32 - 1) e, all_ones (suc k) (suc m) e)
      (elim (dec_lt value (2 ^ 31)) [
        | yes small ↦
            let zero_sign : get_bit value 31 ≡ 0 = omega (arith, sign) in
            let top : value / 2 ^ 31 ≡ 0 = omega arith in
            rw (zero_sign, top) (ground (arith, bit_or-zero (value / 2 ^ suc k)))
        | no large ↦
            let one_sign : get_bit value 31 ≡ 1 = omega (arith, sign) in
            let top : value / 2 ^ 31 ≡ 1 = omega arith in
            rw (one_sign, top)
              (ground (arith, join_top (suc m) (2 ^ suc k - 1) (value / 2 ^ suc k)))
      ])
