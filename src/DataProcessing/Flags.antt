-- ===== src/DataProcessing/Flags.antt =====
-- The flags of arm_simulator-1.4/arm_data_processing.c. An `int` is its two's complement.
use arm_processor_simulator.Base.{
  ℕ, zero, suc, ◌+◌, ◌-◌, ◌^◌, not, ◌&&◌, ◌||◌, ltb, ◌==◌, if◌then◌else◌, to_int,
}
use arm_processor_simulator.Util.{u32, sub32, get_bit}

-- `char operand`
pub data Operand : Type 0 where
  plus minus : Operand

-- One round of the loop of `getCarryFlag`: the new `cFlag`.
unfoldable pub carry_round : Operand → ℕ → ℕ → ℕ → ℕ
carry_round plus left_bit right_bit c_flag =
    let res = left_bit + (right_bit + c_flag) in if ltb 1 res then 1 else 0
carry_round minus left_bit right_bit c_flag =
    let res = u32 (left_bit + sub32 (sub32 0 right_bit) c_flag) in
    if res == 2 || res == 2 ^ 32 - 1 then 1 else 0

-- The loop from `i` on, with the rounds that are left.
unfoldable pub carry_loop : Operand → ℕ → ℕ → ℕ → ℕ → ℕ → ℕ
carry_loop operand left right zero i c_flag = c_flag
carry_loop operand left right (suc rounds) i c_flag =
    carry_loop operand left right rounds (i + 1)
      (carry_round operand (get_bit left i) (get_bit right i) c_flag)

unfoldable pub get_carry_flag : ℕ → ℕ → Operand → ℕ
get_carry_flag left right operand = carry_loop operand left right 31 0 0

unfoldable pub get_carry_flag_add : ℕ → ℕ → ℕ
get_carry_flag_add left right = get_carry_flag left right plus

unfoldable pub get_carry_flag_sub : ℕ → ℕ → ℕ
get_carry_flag_sub left right = get_carry_flag left right minus

unfoldable pub get_overflow_flag : ℕ → ℕ → ℕ → Operand → ℕ
get_overflow_flag res a b operand =
    let left_bit = get_bit a 31 in
    let right_bit = get_bit b 31 in
    let differs = not (right_bit == get_bit res 31) in
    elim operand [
      | plus ↦ to_int (right_bit == left_bit && differs)
      | minus ↦ to_int (not (right_bit == left_bit) && differs)
    ]

unfoldable pub get_overflow_flag_add : ℕ → ℕ → ℕ → ℕ
get_overflow_flag_add res a b = get_overflow_flag res a b plus

unfoldable pub get_overflow_flag_sub : ℕ → ℕ → ℕ → ℕ
get_overflow_flag_sub res a b = get_overflow_flag res a b minus
