-- ===== src/DataProcessing/Operand.antt =====
-- The shifter operand of arm_simulator-1.4/arm_data_processing.c.
use arm_processor_simulator.Base.{ℕ, ◌+◌, ◌-◌, ◌*◌, ◌/◌, ◌%◌, ◌^◌, ◌&&◌, ltb, if◌then◌else◌}
use arm_processor_simulator.Util.{u8, u32, shl32, get_bits, asr, ror}
use arm_processor_simulator.Core.{Command, pure, ◌>>=◌, arm_read_register}

-- The names "lsl", "lsr", "asr" and "ror".
pub data ShiftName : Type 0 where
  lsl lsr asr_name ror_name : ShiftName

-- `so >> si` on `int`, which copies the sign downwards; the count as in `shr32`.
abbrev pub sar32 : ℕ → ℕ → ℕ
sar32 so si = u32 ((so + so / 2 ^ 31 * (2 ^ 64 - 2 ^ 32)) / 2 ^ (si % 32))

unfoldable pub get_shifter_operand : ℕ → ℕ → ShiftName → ℕ
get_shifter_operand so si operand =
    if ltb 0 si && ltb si (2 ^ 31)
    then elim operand [
      | lsl ↦ shl32 so si
      | lsr ↦ sar32 so si
      | asr_name ↦ asr so (u8 si)
      | ror_name ↦ ror so (u8 si)
    ]
    else so

unfoldable pub get_shifter_operand_immediate : ℕ → ℕ → ShiftName → ℕ
get_shifter_operand_immediate ins so operand = get_shifter_operand so (get_bits ins 11 7) operand

unfoldable pub get_shifter_operand_register : ℕ → ℕ → ShiftName → Command ℕ
get_shifter_operand_register ins so operand = do
  si ← arm_read_register (get_bits ins 11 8)
  pure (get_shifter_operand so si operand)
