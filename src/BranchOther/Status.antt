-- ===== src/BranchOther/Status.antt =====
-- The status register that MSR writes in arm_branch_other.c.
use arm_processor_simulator.Base.{
  ℕ, zero, suc, ◌+◌, ◌*◌, ◌/◌, ◌%◌, ◌^◌, ◌<◌, ◌≡◌, ◌∙◌, sym, ap, arith, bit_or, Bool-cases, inl,
  inr, if◌then◌else◌,
}
use arm_processor_simulator.Base.Bits.{bit_or_above, bit_or_comm}
use arm_processor_simulator.Util.{get_bit, set_bit, clr_bit, set_bits}
use arm_processor_simulator.Util.Fields.{
  get_bit_lem, set_bit_lem, clr_bit_lem, set_bits_lem, set_bits_join,
}
use arm_processor_simulator.DataProcessing.{truth}
use arm_processor_simulator.BranchOther.{psr_value}

-- The byte of the new status register: the operand where the field bit says so, else the old byte.
abbrev pub field_byte : ℕ → ℕ → ℕ → ℕ
field_byte bit value old = if truth bit then value else old

-- A byte written with the 7-bit mask of the flags field: its top bit is joined with the old one.
top_field :
    (x value : ℕ)
    → x < 2 ^ 32
    → value < 2 ^ 8
    → (bit : ℕ) × (bit < 2)
      × (set_bits x 30 24 value ≡ (bit * 2 ^ 7 + value % 2 ^ 7) * 2 ^ 24 + x % 2 ^ 24)
top_field x value hx hv =
    let old = x / 2 ^ 31 in
    let top = value / 2 ^ 7 in
    let split : top * 2 ^ 7 + value % 2 ^ 7 ≡ value = omega arith in
    let small : (old < 2) × (top < 2) = omega arith in
    (
      bit_or top old,
      bit_lt top old small.1 small.0,
      set_bits_join x 24 6 1 value (omega arith) hx hv
          ∙ ap (λ t. t * 2 ^ 24 + x % 2 ^ 24)
              (bit_or_comm (old * 2 ^ 7) value
                ∙ ap (λ t. bit_or t (old * 2 ^ 7)) (sym split)
                ∙ bit_or_above 7 top (value % 2 ^ 7) old (omega arith)),
    )
  where
    bit_lt : (a b : ℕ) → a < 2 → b < 2 → bit_or a b < 2
    bit_lt zero zero ha hb = omega arith
    bit_lt zero (suc zero) ha hb = omega arith
    bit_lt (suc zero) zero ha hb = omega arith
    bit_lt (suc zero) (suc zero) ha hb = omega arith
    bit_lt (suc (suc a)) b ha hb = absurd (omega arith)
    bit_lt zero (suc (suc b)) ha hb = absurd (omega arith)
    bit_lt (suc zero) (suc (suc b)) ha hb = absurd (omega arith)

-- The flags byte, with its top bit set after the rest.
flags_byte :
    (x value : ℕ)
    → x < 2 ^ 32
    → value < 2 ^ 8
    → (if truth (get_bit value 7)
        then set_bit (set_bits x 30 24 value) 31
        else clr_bit (set_bits x 30 24 value) 31)
      ≡ value * 2 ^ 24 + x % 2 ^ 24
flags_byte x value hx hv =
    let (bit, lt, e) = top_field x value hx hv in
    let y = set_bits x 30 24 value in
    ground (
      arith,
      get_bit_lem value 7,
      set_bit_lem y 31,
      clr_bit_lem y 31 0 (omega arith) (omega (arith, e)),
    )

field_byte-lt : (bit value old : ℕ) → value < 2 ^ 8 → old < 2 ^ 8 → field_byte bit value old < 2 ^ 8
field_byte-lt bit value old hv ho = ground arith

low_field :
    (bit x value : ℕ)
    → x < 2 ^ 32
    → value < 2 ^ 8
    → (if truth bit then set_bits x 7 0 value else x)
      ≡ x / 2 ^ 8 * 2 ^ 8 + field_byte bit value (x % 2 ^ 8)
low_field bit x value hx hv = ground (arith, set_bits_lem x 0 7 24 value (omega arith) hx hv)

middle_field :
    (bit x value : ℕ)
    → x < 2 ^ 32
    → value < 2 ^ 8
    → (if truth bit then set_bits x 15 8 value else x)
      ≡ x / 2 ^ 16 * 2 ^ 16 + field_byte bit value (x / 2 ^ 8 % 2 ^ 8) * 2 ^ 8 + x % 2 ^ 8
middle_field bit x value hx hv = ground (arith, set_bits_lem x 8 7 16 value (omega arith) hx hv)

high_field :
    (bit x value : ℕ)
    → x < 2 ^ 32
    → value < 2 ^ 8
    → (if truth bit then set_bits x 23 16 value else x)
      ≡ x / 2 ^ 24 * 2 ^ 24 + field_byte bit value (x / 2 ^ 16 % 2 ^ 8) * 2 ^ 16 + x % 2 ^ 16
high_field bit x value hx hv = ground (arith, set_bits_lem x 16 7 8 value (omega arith) hx hv)

top_byte :
    (bit x value : ℕ)
    → x < 2 ^ 32
    → value < 2 ^ 8
    → (if truth bit
        then (if truth (get_bit value 7)
            then set_bit (set_bits x 30 24 value) 31
            else clr_bit (set_bits x 30 24 value) 31)
        else x)
      ≡ field_byte bit value (x / 2 ^ 24) * 2 ^ 24 + x % 2 ^ 24
top_byte bit x value hx hv = elim (Bool-cases (truth bit)) [
  | inl set ↦ rw set (flags_byte x value hx hv)
  | inr clear ↦ rw clear (omega arith)
]

-- The four fields, one after the other, with the byte that each leaves.
module _ (psr p1 p2 p3 f16 f17 f18 : ℕ) (l16 : f16 < 2 ^ 8) (l17 : f17 < 2 ^ 8)
    (l18 : f18 < 2 ^ 8) where
  two_fields :
      p1 ≡ psr / 2 ^ 8 * 2 ^ 8 + f16
      → p2 ≡ p1 / 2 ^ 16 * 2 ^ 16 + f17 * 2 ^ 8 + p1 % 2 ^ 8
      → p2 ≡ psr / 2 ^ 16 * 2 ^ 16 + f17 * 2 ^ 8 + f16
  two_fields e1 e2 = omega arith

  three_fields :
      p2 ≡ psr / 2 ^ 16 * 2 ^ 16 + f17 * 2 ^ 8 + f16
      → p3 ≡ p2 / 2 ^ 24 * 2 ^ 24 + f18 * 2 ^ 16 + p2 % 2 ^ 16
      → p3 ≡ psr / 2 ^ 24 * 2 ^ 24 + f18 * 2 ^ 16 + f17 * 2 ^ 8 + f16
  three_fields s2 e3 = omega arith

-- The four field bits of MSR each put the same byte of the operand into their byte of the status
-- register, the flags byte included, and the other bytes stay.
pub psr_value_lem :
    (ins value psr : ℕ)
    → value < 2 ^ 8
    → psr < 2 ^ 32
    → psr_value ins value psr
      ≡ field_byte (get_bit ins 19) value (psr / 2 ^ 24) * 2 ^ 24
        + field_byte (get_bit ins 18) value (psr / 2 ^ 16 % 2 ^ 8) * 2 ^ 16
        + field_byte (get_bit ins 17) value (psr / 2 ^ 8 % 2 ^ 8) * 2 ^ 8
        + field_byte (get_bit ins 16) value (psr % 2 ^ 8)
unfolding psr_value
psr_value_lem ins value psr hv hp =
    let b16 = get_bit ins 16 in
    let b17 = get_bit ins 17 in
    let b18 = get_bit ins 18 in
    let f16 = field_byte b16 value (psr % 2 ^ 8) in
    let f17 = field_byte b17 value (psr / 2 ^ 8 % 2 ^ 8) in
    let f18 = field_byte b18 value (psr / 2 ^ 16 % 2 ^ 8) in
    let p1 = if truth b16 then set_bits psr 7 0 value else psr in
    let e1 = low_field b16 psr value hp hv in
    let l16 : f16 < 2 ^ 8 = field_byte-lt b16 value (psr % 2 ^ 8) hv (omega arith) in
    let l17 : f17 < 2 ^ 8 = field_byte-lt b17 value (psr / 2 ^ 8 % 2 ^ 8) hv (omega arith) in
    let l18 : f18 < 2 ^ 8 = field_byte-lt b18 value (psr / 2 ^ 16 % 2 ^ 8) hv (omega arith) in
    let h1 : p1 < 2 ^ 32 = omega (arith, e1) in
    let byte1 : p1 / 2 ^ 8 % 2 ^ 8 ≡ psr / 2 ^ 8 % 2 ^ 8 = omega (arith, e1) in
    let p2 = if truth b17 then set_bits p1 15 8 value else p1 in
    let e2 = middle_field b17 p1 value h1 hv in
    let s2 =
      two_fields psr p1 p2 0 f16 f17 0 l16 l17 (omega arith) e1
        (e2 ∙ ap (λ t. p1 / 2 ^ 16 * 2 ^ 16 + field_byte b17 value t * 2 ^ 8 + p1 % 2 ^ 8) byte1) in
    let h2 : p2 < 2 ^ 32 = omega (arith, s2) in
    let byte2 : p2 / 2 ^ 16 % 2 ^ 8 ≡ psr / 2 ^ 16 % 2 ^ 8 = omega (arith, s2) in
    let p3 = if truth b18 then set_bits p2 23 16 value else p2 in
    let e3 = high_field b18 p2 value h2 hv in
    let s3 =
      three_fields psr p1 p2 p3 f16 f17 f18 l16 l17 l18 s2 (
        e3
        ∙ ap (λ t. p2 / 2 ^ 24 * 2 ^ 24 + field_byte b18 value t * 2 ^ 16 + p2 % 2 ^ 16) byte2) in
    let h3 : p3 < 2 ^ 32 = omega (arith, s3) in
    let byte3 : p3 / 2 ^ 24 ≡ psr / 2 ^ 24 = omega (arith, s3) in
    let rest : p3 % 2 ^ 24 ≡ f18 * 2 ^ 16 + f17 * 2 ^ 8 + f16 = omega (arith, s3) in
    let last = top_byte (get_bit ins 19) p3 value h3 hv in last ∙ rw (byte3, rest) (omega arith)
