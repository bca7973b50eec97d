-- ===== src/Base/Bits.antt =====
-- Binary digits at variables: one equation for the lowest digit of `bit_and` and `bit_or`, and
-- from it every digit, the masks, and the fields of a word.
use Prim.Native.Nat.{
  ℕ, zero, suc, ◌+◌, ◌-◌, ◌*◌, ◌/◌, ◌%◌, ◌^◌, ◌≤◌, ◌<◌, min, max, bit_and, bit_or, digits,
  bit_and-bitwise, bit_or-bitwise,
}
use mathlib.Core.Path.{◌≡◌, refl, sym, ◌∙◌, ap}
use native.Mathlib.Nat.{le_refl, pow-suc, div-div-eq-div-mul, mul_comm, one-le-pow}
use native.Mathlib.Omega.{arith}

-- The operation on one digit of each side, and what is left when the left side has run out.
module _ (rest : ℕ → ℕ) (op : ℕ → ℕ → ℕ) where
  none_left : (fuel y : ℕ) → digits rest op fuel zero y ≡ rest y
  none_left zero y = refl
  none_left (suc fuel) y = refl

  -- Fuel beyond the left number changes nothing.
  spare_fuel :
      (fuel more x y : ℕ) → x ≤ fuel → x ≤ more → digits rest op more x y ≡ digits rest op fuel x y
  spare_fuel fuel more zero y enough too = none_left more y ∙ sym (none_left fuel y)
  spare_fuel zero more (suc x) y enough too = elim enough [ ]
  spare_fuel (suc fuel) zero (suc x) y enough too = elim too [ ]
  spare_fuel (suc fuel) (suc more) (suc x) y enough too =
      ap (λ d. d * 2 + op (suc x % 2) (y % 2))
        (spare_fuel fuel more (suc x / 2) (y / 2) (omega arith) (omega arith))

pub bit_or_step : (x y : ℕ) → bit_or x y ≡ bit_or (x / 2) (y / 2) * 2 + max (x % 2) (y % 2)
bit_or_step zero y = omega (arith, bit_or-bitwise 0 y, bit_or-bitwise 0 (y / 2))
bit_or_step (suc x) y =
    let shorter =
      spare_fuel (λ b. b) max x (suc x / 2) (suc x / 2) (y / 2) (omega arith) (omega arith) in
    omega (arith, shorter, bit_or-bitwise (suc x) y, bit_or-bitwise (suc x / 2) (y / 2))

pub bit_and_step : (x y : ℕ) → bit_and x y ≡ bit_and (x / 2) (y / 2) * 2 + min (x % 2) (y % 2)
bit_and_step zero y = omega (arith, bit_and-bitwise 0 y, bit_and-bitwise 0 (y / 2))
bit_and_step (suc x) y =
    let shorter =
      spare_fuel (λ b. 0) min x (suc x / 2) (suc x / 2) (y / 2) (omega arith) (omega arith) in
    omega (arith, shorter, bit_and-bitwise (suc x) y, bit_and-bitwise (suc x / 2) (y / 2))

-- Digit `i` of `x`.
abbrev pub digit : ℕ → ℕ → ℕ
digit x zero = x % 2
digit x (suc i) = digit (x / 2) i

pub digit-lt : (x i : ℕ) → digit x i < 2
digit-lt x zero = omega arith
digit-lt x (suc i) = digit-lt (x / 2) i

pub digit-bit_and : (i x y : ℕ) → digit (bit_and x y) i ≡ min (digit x i) (digit y i)
digit-bit_and zero x y = omega (arith, bit_and_step x y)
digit-bit_and (suc i) x y =
    let halved : bit_and x y / 2 ≡ bit_and (x / 2) (y / 2) = omega (arith, bit_and_step x y) in
    rw halved (digit-bit_and i (x / 2) (y / 2))

pub digit-bit_or : (i x y : ℕ) → digit (bit_or x y) i ≡ max (digit x i) (digit y i)
digit-bit_or zero x y = omega (arith, bit_or_step x y)
digit-bit_or (suc i) x y =
    let halved : bit_or x y / 2 ≡ bit_or (x / 2) (y / 2) = omega (arith, bit_or_step x y) in
    rw halved (digit-bit_or i (x / 2) (y / 2))

pub digit_div : (i x : ℕ) → digit x i ≡ x / 2 ^ i % 2
digit_div zero x = omega arith
digit_div (suc i) x =
    ground
      (arith, digit_div i (x / 2), div-div-eq-div-mul x 2 (2 ^ i), pow-suc 2 i, mul_comm 2 (2 ^ i))

-- Numbers below `2 ^ n` with the same digits are equal.
pub digit_ext :
    (n x y : ℕ) → x < 2 ^ n → y < 2 ^ n → ((i : ℕ) → i < n → digit x i ≡ digit y i) → x ≡ y
digit_ext zero x y hx hy same = omega arith
digit_ext (suc n) x y hx hy same = omega (
  arith,
  same 0 (omega arith),
  digit_ext n (x / 2) (y / 2) (omega (arith, pow-suc 2 n)) (omega (arith, pow-suc 2 n))
      (λ i h. same (suc i) (omega arith)),
)

bit_or-zero_fuel : (fuel x : ℕ) → x ≤ fuel → bit_or x 0 ≡ x
bit_or-zero_fuel fuel zero h = refl
bit_or-zero_fuel zero (suc x) h = elim h [ ]
bit_or-zero_fuel (suc fuel) (suc x) h =
    omega (arith, bit_or_step (suc x) 0, bit_or-zero_fuel fuel (suc x / 2) (omega arith))

pub bit_or-zero : (x : ℕ) → bit_or x 0 ≡ x
bit_or-zero x = bit_or-zero_fuel x x (le_refl x)

bit_and-zero_fuel : (fuel x : ℕ) → x ≤ fuel → bit_and x 0 ≡ 0
bit_and-zero_fuel fuel zero h = refl
bit_and-zero_fuel zero (suc x) h = elim h [ ]
bit_and-zero_fuel (suc fuel) (suc x) h =
    omega (arith, bit_and_step (suc x) 0, bit_and-zero_fuel fuel (suc x / 2) (omega arith))

pub bit_and-zero : (x : ℕ) → bit_and x 0 ≡ 0
bit_and-zero x = bit_and-zero_fuel x x (le_refl x)

-- A word cut at digit `w`: high part and low part.
shift_suc : (high w : ℕ) → high * 2 ^ suc w ≡ 2 * (high * 2 ^ w)
shift_suc high w = omega (arith, ap (λ (t : ℕ). high * t) (pow-suc 2 w))

-- `(high << w) | low` is a sum where `low` fits `w` digits.
pub bit_or_join : (w high low : ℕ) → low < 2 ^ w → bit_or (high * 2 ^ w) low ≡ high * 2 ^ w + low
bit_or_join zero high low fits = ground (arith, bit_or-zero high)
bit_or_join (suc w) high low fits =
    let ih = bit_or_join w high (low / 2) (omega (arith, pow-suc 2 w)) in
    ground (arith, ih, shift_suc high w, bit_or_step (high * 2 ^ suc w) low)

-- A mask of the lowest `w` digits keeps the low part.
pub bit_and_low : (w high low : ℕ) → low < 2 ^ w → bit_and (high * 2 ^ w + low) (2 ^ w - 1) ≡ low
bit_and_low zero high low fits = rw bit_and-zero (omega arith)
bit_and_low (suc w) high low fits =
    let ih = bit_and_low w high (low / 2) (omega (arith, pow-suc 2 w)) in
    let step = bit_and_step (high * 2 ^ suc w + low) (2 ^ suc w - 1) in
    ground (arith, ih, step, shift_suc high w, pow-suc 2 w)

pub bit_and_mask : (w x : ℕ) → bit_and x (2 ^ w - 1) ≡ x % 2 ^ w
bit_and_mask w x = ground (arith, bit_and_low w (x / 2 ^ w) (x % 2 ^ w), one-le-pow w 2)

bit_or_comm_fuel : (fuel x y : ℕ) → x ≤ fuel → y ≤ fuel → bit_or x y ≡ bit_or y x
bit_or_comm_fuel zero x y hx hy =
    let ex : x ≡ 0 = omega arith in let ey : y ≡ 0 = omega arith in rw (ex, ey)
bit_or_comm_fuel (suc fuel) x y hx hy =
    let ih = bit_or_comm_fuel fuel (x / 2) (y / 2) (omega arith) (omega arith) in
    omega (arith, ih, bit_or_step x y, bit_or_step y x)

pub bit_or_comm : (x y : ℕ) → bit_or x y ≡ bit_or y x
bit_or_comm x y = bit_or_comm_fuel (x + y) x y (omega arith) (omega arith)

pub bit_or_self : (n x : ℕ) → x < 2 ^ n → bit_or x x ≡ x
bit_or_self zero x h = let e : x ≡ 0 = omega arith in rw e
bit_or_self (suc n) x h =
    let ih = bit_or_self n (x / 2) (omega (arith, pow-suc 2 n)) in
    omega (arith, ih, bit_or_step x x)

-- Digits at and above `w` are joined with a shifted word; those below stay.
pub bit_or_above :
    (w high low b : ℕ)
    → low < 2 ^ w
    → bit_or (high * 2 ^ w + low) (b * 2 ^ w) ≡ bit_or high b * 2 ^ w + low
bit_or_above zero high low b fits =
    ground
      (arith, ap (λ (t : ℕ). bit_or t b) (let e : high * 2 ^ 0 + low ≡ high = omega arith in e))
bit_or_above (suc w) high low b fits =
    let ih = bit_or_above w high (low / 2) b (omega (arith, pow-suc 2 w)) in
    let step = bit_or_step (high * 2 ^ suc w + low) (b * 2 ^ suc w) in
    ground (arith, ih, step, shift_suc high w, shift_suc b w, shift_suc (bit_or high b) w)

-- A mask of `n` digits from digit `w` on.
pub bit_and_field : (w n x : ℕ) → bit_and x ((2 ^ n - 1) * 2 ^ w) ≡ x / 2 ^ w % 2 ^ n * 2 ^ w
bit_and_field zero n x = ground (arith, bit_and_mask n x)
bit_and_field (suc w) n x =
    let ih = bit_and_field w n (x / 2) in
    let step = bit_and_step x ((2 ^ n - 1) * 2 ^ suc w) in
    ground (
      arith,
      ih,
      step,
      shift_suc (2 ^ n - 1) w,
      shift_suc (x / 2 / 2 ^ w % 2 ^ n) w,
      div-div-eq-div-mul x 2 (2 ^ w),
      pow-suc 2 w,
      mul_comm 2 (2 ^ w),
    )

-- `2 ^ (m + n)`, which the library has for no native power.
pub pow-add : (m n : ℕ) → 2 ^ (m + n) ≡ 2 ^ m * 2 ^ n
pow-add m zero = ground arith
pow-add m (suc n) =
    let e : m + suc n ≡ suc (m + n) = omega arith in
    rw (e, pow-suc 2 (m + n), pow-suc 2 n) (omega (arith, pow-add m n))

-- `&` acts on the parts above and below digit `w` apart.
pub bit_and_split :
    (w high low a b : ℕ)
    → low < 2 ^ w
    → b < 2 ^ w
    → bit_and (high * 2 ^ w + low) (a * 2 ^ w + b) ≡ bit_and high a * 2 ^ w + bit_and low b
bit_and_split zero high low a b fits too =
    let e : low ≡ 0 = omega arith in
    let e' : b ≡ 0 = omega arith in
    let cut : (x : ℕ) → x * 2 ^ 0 + 0 ≡ x = λ x. omega arith in
    rw (e, e', cut high, cut a) (omega (arith, bit_and-zero 0))
bit_and_split (suc w) high low a b fits too =
    let p : low / 2 < 2 ^ w = omega (arith, pow-suc 2 w) in
    let q : b / 2 < 2 ^ w = omega (arith, pow-suc 2 w) in
    ground (
      arith,
      bit_and_split w high (low / 2) a (b / 2) p q,
      bit_and_step (high * 2 ^ suc w + low) (a * 2 ^ suc w + b),
      bit_and_step low b,
      shift_suc high w,
      shift_suc a w,
      shift_suc (bit_and high a) w,
    )

pub bit_or-one : (x : ℕ) → bit_or x 1 ≡ x / 2 * 2 + 1
bit_or-one x = omega (arith, bit_or_step x 1, bit_or-zero (x / 2))
