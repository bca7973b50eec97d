-- ===== src/DataProcessing/Carry.antt =====
-- What `getCarryFlag` computes. It goes through the bits 0 to 30, so the flag is what passes
-- into bit 31.
use arm_processor_simulator.Base.{
  ℕ, zero, suc, ◌+◌, ◌-◌, ◌*◌, ◌/◌, ◌%◌, ◌^◌, ◌≤◌, ◌<◌, ◌≡◌, ◌∙◌, ap, sym, arith,
}
use native.Mathlib.Nat.{div-div-eq-div-mul, pow-suc, div-add-mod', one-le-pow, add-mul-div_right}
use arm_processor_simulator.Base.Bits.{pow-add}
use arm_processor_simulator.Util.{get_bit}
use arm_processor_simulator.Util.Fields.{get_bit_lem}
use arm_processor_simulator.DataProcessing.Flags.{
  plus, minus, carry_round, carry_loop, get_carry_flag, get_carry_flag_add, get_carry_flag_sub,
}

-- The low part of a word one bit further up.
low_suc : (x i : ℕ) → x % 2 ^ suc i ≡ x / 2 ^ i % 2 * 2 ^ i + x % 2 ^ i
low_suc x i =
    let cut = div-add-mod' x (2 ^ suc i) in
    let cut' = div-add-mod' x (2 ^ i) in
    let deeper : x / 2 ^ i / 2 ≡ x / 2 ^ suc i =
      div-div-eq-div-mul x (2 ^ i) 2 ∙ ap (λ t. x / t) (sym (pow-suc 2 i)) in
    let half = div-add-mod' (x / 2 ^ i) 2 in
    omega (
      arith,
      pow-suc 2 i,
      ap (λ t. t * 2 ^ i) half,
      ap (λ t. x / 2 ^ suc i * t) (pow-suc 2 i),
      ap (λ t. t * 2 * 2 ^ i) deeper,
    )

-- `c` is what the sum of the parts below bit `i` passes on.
abbrev Carries : ℕ → ℕ → ℕ → ℕ → Type 0
Carries left right i c =
    (c < 2)
    × (c * 2 ^ i ≤ left % 2 ^ i + right % 2 ^ i)
    × (left % 2 ^ i + right % 2 ^ i < c * 2 ^ i + 2 ^ i)

carry_round-Carries :
    (left right i c : ℕ)
    → Carries left right i c
    → Carries left right (suc i) (carry_round plus (get_bit left i) (get_bit right i) c)
unfolding carry_round
carry_round-Carries left right i c (small, lo, hi) =
    let l = get_bit left i in
    let r = get_bit right i in
    let pl : left % 2 ^ suc i ≡ l * 2 ^ i + left % 2 ^ i =
      low_suc left i ∙ ap (λ t. t * 2 ^ i + left % 2 ^ i) (sym (get_bit_lem left i)) in
    let pr : right % 2 ^ suc i ≡ r * 2 ^ i + right % 2 ^ i =
      low_suc right i ∙ ap (λ t. t * 2 ^ i + right % 2 ^ i) (sym (get_bit_lem right i)) in
    let bl : l < 2 = omega (arith, get_bit_lem left i) in
    let br : r < 2 = omega (arith, get_bit_lem right i) in step l r bl br (pl, pr)
  where
    step :
        (l r : ℕ)
        → l < 2
        → r < 2
        → (left % 2 ^ suc i ≡ l * 2 ^ i + left % 2 ^ i)
          × (right % 2 ^ suc i ≡ r * 2 ^ i + right % 2 ^ i)
        → Carries left right (suc i) (carry_round plus l r c)
    step zero zero bl br e = ground (arith, pow-suc 2 i)
    step zero (suc zero) bl br e = ground (arith, pow-suc 2 i)
    step (suc zero) zero bl br e = ground (arith, pow-suc 2 i)
    step (suc zero) (suc zero) bl br e = ground (arith, pow-suc 2 i)
    step (suc (suc l)) r bl br e = absurd (omega arith)
    step zero (suc (suc r)) bl br e = absurd (omega arith)
    step (suc zero) (suc (suc r)) bl br e = absurd (omega arith)

carry_loop-Carries :
    (left right rounds i c : ℕ)
    → Carries left right i c
    → Carries left right (i + rounds) (carry_loop plus left right rounds i c)
unfolding carry_loop
carry_loop-Carries left right zero i c h = let e : i + 0 ≡ i = omega arith in rw e h
carry_loop-Carries left right (suc rounds) i c h =
    let here : Carries left right (i + 1) (carry_round plus (get_bit left i) (get_bit right i) c) =
      let e : i + 1 ≡ suc i = omega arith in rw e (carry_round-Carries left right i c h) in
    let e : i + suc rounds ≡ i + 1 + rounds = omega arith in
    rw e (
      carry_loop-Carries left right rounds (i + 1)
        (carry_round plus (get_bit left i) (get_bit right i) c) here)

-- For an addition the flag is the carry from bit 30 into bit 31, of the words without their top
-- bits.
pub get_carry_flag_add_lem :
    (left right : ℕ) → get_carry_flag_add left right ≡ (left % 2 ^ 31 + right % 2 ^ 31) / 2 ^ 31
unfolding get_carry_flag_add get_carry_flag
get_carry_flag_add_lem left right =
    let carries = carry_loop-Carries left right 31 0 0 (omega arith) in omega arith

carry_round-same :
    (left right i : ℕ)
    → get_bit left i ≡ get_bit right i
    → carry_round minus (get_bit left i) (get_bit right i) 0 ≡ 0
unfolding carry_round
carry_round-same left right i e = rw e (ground (arith, get_bit_lem right i))

-- Rounds in which the two words have the same bit leave a clear borrow clear.
carry_loop-same_bits :
    (left right rounds rest total i : ℕ)
    → total ≡ rounds + rest
    → ((j : ℕ) → i ≤ j → j < i + rounds → get_bit left j ≡ get_bit right j)
    → carry_loop minus left right total i 0 ≡ carry_loop minus left right rest (i + rounds) 0
unfolding carry_loop
carry_loop-same_bits left right zero rest total i e same =
    let e' : total ≡ rest = omega arith in let z : i + 0 ≡ i = omega arith in rw (e', z)
carry_loop-same_bits left right (suc rounds) rest zero i e same = absurd (omega arith)
carry_loop-same_bits left right (suc rounds) rest (suc total) i e same =
    let round = carry_round-same left right i (same i (omega arith) (omega arith)) in
    let shift : i + suc rounds ≡ i + 1 + rounds = omega arith in
    rw (round, shift)
      (carry_loop-same_bits left right rounds rest total (i + 1) (omega arith)
        (λ j lo hi. same j (omega arith) (omega arith)))

-- Adding a multiple of 2 ^ 29 leaves the bits below.
low_bits_stay : (x k j : ℕ) → j < 29 → (x + k * 2 ^ 29) / 2 ^ j % 2 ≡ x / 2 ^ j % 2
low_bits_stay x k j h =
    let m = k * 2 ^ (28 - j) in
    let whole : 29 ≡ j + suc (28 - j) = omega arith in
    let power : 2 ^ 29 ≡ 2 ^ j * 2 ^ suc (28 - j) =
      ap (λ t. 2 ^ t) whole ∙ pow-add j (suc (28 - j)) in
    let even : k * 2 ^ 29 ≡ 2 * m * 2 ^ j =
      omega (arith, ap (λ t. k * t) power, ap (λ t. k * (2 ^ j * t)) (pow-suc 2 (28 - j))) in
    let moved : (x + k * 2 ^ 29) / 2 ^ j ≡ x / 2 ^ j + 2 * m =
      ap (λ t. (x + t) / 2 ^ j) even ∙ add-mul-div_right x (2 * m) (one-le-pow j 2 (omega arith)) in
    rw moved (omega arith)

-- For a subtraction a borrow is lost where a bit that is 0 meets a 1 with a borrow already on its
-- way: the flag says that there is none, though the second word is the larger by 3 * 2 ^ 29.
pub get_carry_flag_sub_lost : (x : ℕ) → x < 2 ^ 29 → get_carry_flag_sub x (x + 3 * 2 ^ 29) ≡ 0
unfolding get_carry_flag_sub get_carry_flag carry_loop carry_round
get_carry_flag_sub_lost x h =
    let y = x + 3 * 2 ^ 29 in
    let skip =
      carry_loop-same_bits x y 29 2 31 0 (omega arith)
        (λ j lo hi. get_bit_lem x j ∙ sym (low_bits_stay x 3 j hi) ∙ sym (get_bit_lem y j)) in
    let x29 : get_bit x 29 ≡ 0 = omega (arith, get_bit_lem x 29) in
    let x30 : get_bit x 30 ≡ 0 = omega (arith, get_bit_lem x 30) in
    let y29 : get_bit y 29 ≡ 1 = omega (arith, get_bit_lem y 29) in
    let y30 : get_bit y 30 ≡ 1 = omega (arith, get_bit_lem y 30) in skip ∙ rw (x29, x30, y29, y30)
