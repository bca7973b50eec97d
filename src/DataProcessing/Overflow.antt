-- ===== src/DataProcessing/Overflow.antt =====
-- The overflow flag against the signed values of the words.
use arm_processor_simulator.Base.{
  ℕ, ◌+◌, ◌-◌, ◌/◌, ◌^◌, ◌<◌, ◌≡◌, arith, Bool, not, ◌&&◌, ltb, leb, ◌==◌, if◌then◌else◌, to_int,
}
use arm_processor_simulator.Util.{u32, sub32}
use arm_processor_simulator.Util.Fields.{get_bit_lem}
use arm_processor_simulator.DataProcessing.Flags.{
  get_overflow_flag, get_overflow_flag_add, get_overflow_flag_sub,
}

-- The signed value of a word, plus 2 ^ 31.
abbrev pub biased : ℕ → ℕ
biased x = if ltb x (2 ^ 31) then x + 2 ^ 31 else x - 2 ^ 31

-- Whether a sum, or a difference, of the signed values of two words is that of no word.
abbrev pub sum_overflows : ℕ → ℕ → Bool
sum_overflows a b =
    not (leb (2 ^ 31) (biased a + biased b) && ltb (biased a + biased b) (2 ^ 31 + 2 ^ 32))

abbrev pub difference_overflows : ℕ → ℕ → Bool
difference_overflows a b =
    not (leb (biased b) (biased a + 2 ^ 31) && ltb (biased a + 2 ^ 31) (biased b + 2 ^ 32))

-- For an addition the overflow flag is set exactly where the signed sum does not fit.
pub get_overflow_flag_add_lem :
    (a b : ℕ)
    → a < 2 ^ 32
    → b < 2 ^ 32
    → get_overflow_flag_add (u32 (a + b)) a b ≡ to_int (sum_overflows a b)
unfolding get_overflow_flag_add get_overflow_flag
get_overflow_flag_add_lem a b ha hb =
    ground (arith, get_bit_lem a 31, get_bit_lem b 31, get_bit_lem (u32 (a + b)) 31)

-- For a subtraction of words with different signs it is set exactly where the signed difference
-- does fit, the opposite of what it stands for. With the same sign it is clear, and nothing
-- overflows.
pub get_overflow_flag_sub_inverted :
    (a b : ℕ)
    → a < 2 ^ 32
    → b < 2 ^ 32
    → get_overflow_flag_sub (sub32 a b) a b
      ≡ (if a / 2 ^ 31 == b / 2 ^ 31 then 0 else to_int (not (difference_overflows a b)))
unfolding get_overflow_flag_sub get_overflow_flag
get_overflow_flag_sub_inverted a b ha hb =
    ground (arith, get_bit_lem a 31, get_bit_lem b 31, get_bit_lem (sub32 a b) 31)
