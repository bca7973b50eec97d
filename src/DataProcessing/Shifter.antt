-- ===== src/DataProcessing/Shifter.antt =====
-- The shifter operand of arm_data_processing.c against the shifts that the manual names.
use arm_processor_simulator.Base.{
  ℕ, suc, ◌+◌, ◌-◌, ◌*◌, ◌/◌, ◌%◌, ◌^◌, ◌≤◌, ◌<◌, ◌≡◌, ◌∙◌, ap, sym, true, false, arith, done, ltb,
  if◌then◌else◌,
}
use native.Mathlib.Decide.{dec_lt}
use native.Mathlib.Nat.{
  mul-sub, mul_comm, div-lt_iff_lt-mul, one-le-pow, add-mul-div_right, div-le_self, mul-le-mul_left,
}
use arm_processor_simulator.Base.Bits.{pow-add}
use arm_processor_simulator.Util.{u8, u32, get_bits}
use arm_processor_simulator.Util.Rotate.{ror_lem, asr_lem}
use arm_processor_simulator.Core.{Core}
use arm_processor_simulator.DataProcessing.{shift_operand}
use arm_processor_simulator.DataProcessing.Operand.{
  ShiftName, lsl, lsr, asr_name, ror_name, sar32, get_shifter_operand,
}

-- What a shift of `so` by `k + 1` should be, with `m` one less than what is left of the 32 bits.
abbrev pub shifted : ℕ → ℕ → ℕ → ShiftName → ℕ
shifted so k m lsl = u32 (so * 2 ^ suc k)
shifted so k m lsr = so / 2 ^ suc k
shifted so k m asr_name = so / 2 ^ 31 * (2 ^ suc k - 1) * 2 ^ suc m + so / 2 ^ suc k
shifted so k m ror_name = so % 2 ^ suc k * 2 ^ suc m + so / 2 ^ suc k

-- The shift that is done in place of `name`.
abbrev pub taken : ℕ → ShiftName → ShiftName
taken so lsl = lsl
taken so lsr = if ltb so (2 ^ 31) then lsr else asr_name
taken so asr_name = asr_name
taken so ror_name = ror_name

module _ (k m : ℕ) (e : suc k + suc m ≡ 32) where
  word : 2 ^ 32 ≡ 2 ^ suc k * 2 ^ suc m
  word = ap (λ t. 2 ^ t) (sym e) ∙ pow-add (suc k) (suc m)

  ones_above : (2 ^ suc k - 1) * 2 ^ suc m ≡ 2 ^ 32 - 2 ^ suc m
  ones_above = omega (
    arith,
    word,
    mul-sub (2 ^ suc m) (2 ^ suc k) 1,
    mul_comm (2 ^ suc m) (2 ^ suc k - 1),
    mul_comm (2 ^ suc m) (2 ^ suc k),
  )

  sar32_small : (so : ℕ) → so < 2 ^ 31 → sar32 so (suc k) ≡ so / 2 ^ suc k
  sar32_small so h =
      let count : suc k % 32 ≡ suc k = omega arith in
      let sign : so / 2 ^ 31 ≡ 0 = omega arith in
      let plain : so + 0 * (2 ^ 64 - 2 ^ 32) ≡ so = omega arith in
      rw (count, sign, plain) (omega (arith, div-le_self so (2 ^ suc k)))

  sar32_large :
      (so : ℕ) → 2 ^ 31 ≤ so → so < 2 ^ 32 → sar32 so (suc k) ≡ 2 ^ 32 - 2 ^ suc m + so / 2 ^ suc k
  sar32_large so lo hi =
      let count : suc k % 32 ≡ suc k = omega arith in
      let sign : so / 2 ^ 31 ≡ 1 = omega arith in
      let pos : 1 ≤ 2 ^ suc k = one-le-pow (suc k) 2 (omega arith) in
      let extended : so + 1 * (2 ^ 64 - 2 ^ 32) ≡ so + (2 ^ 32 - 1) * 2 ^ suc m * 2 ^ suc k =
        omega (
          arith,
          word,
          ap (λ t. (2 ^ 32 - 1) * t) word,
          mul_comm (2 ^ suc m) (2 ^ suc k),
          ap (λ t. (2 ^ 32 - 1) * t) (mul_comm (2 ^ suc m) (2 ^ suc k)),
        ) in
      let moved = add-mul-div_right so ((2 ^ 32 - 1) * 2 ^ suc m) pos in
      let fits : so / 2 ^ suc k < 2 ^ suc m =
        (div-lt_iff_lt-mul pos).1 (omega (arith, word, mul_comm (2 ^ suc m) (2 ^ suc k))) in
      let few : 2 ^ suc m ≤ 2 ^ 32 =
        omega (arith, word, mul-le-mul_left (2 ^ suc m) pos, mul_comm (2 ^ suc m) (2 ^ suc k)) in
      let some_left : 1 ≤ 2 ^ suc m = one-le-pow (suc m) 2 (omega arith) in
      rw (count, sign, extended, moved) (omega arith)

-- A shift by a count from 1 to 31 is the one that its name says, except that LSR of a word from
-- 2 ^ 31 on is done as ASR is: its top bits are filled with ones.
pub get_shifter_operand_lem :
    (so k m : ℕ) (name : ShiftName)
    → suc k + suc m ≡ 32
    → so < 2 ^ 32
    → get_shifter_operand so (suc k) name ≡ shifted so k m (taken so name)
unfolding get_shifter_operand
get_shifter_operand_lem so k m lsl e h =
    let count : suc k % 32 ≡ suc k = omega arith in rw count (ground arith)
get_shifter_operand_lem so k m lsr e h = elim (dec_lt so (2 ^ 31)) [
  | yes small ↦
      let below : ltb so (2 ^ 31) ≡ true = ground arith in
      rw below (ground (arith, sar32_small k m e so small))
  | no large ↦
      let above : ltb so (2 ^ 31) ≡ false = ground arith in
      let sign : so / 2 ^ 31 ≡ 1 = omega arith in
      let one : 1 * (2 ^ suc k - 1) ≡ 2 ^ suc k - 1 = omega arith in
      rw (above, sign, one, ones_above k m e) (ground (arith, sar32_large k m e so (omega arith) h))
]
get_shifter_operand_lem so k m asr_name e h =
    let byte : u8 (suc k) ≡ suc k = omega arith in rw byte (ground (arith, asr_lem k m so e h))
get_shifter_operand_lem so k m ror_name e h =
    let byte : u8 (suc k) ≡ suc k = omega arith in rw byte (ground (arith, ror_lem k m so e h))

-- A rotation by a register, bits 6 to 4 of the instruction being 7, is not done: the operand stays
-- and the register is not read.
pub shift_operand-ror_register :
    (ins so : ℕ) (p : Core) → get_bits ins 6 4 ≡ 7 → shift_operand ins so p ≡ done (so, p)
unfolding shift_operand
shift_operand-ror_register ins so p h = ground arith
