-- ===== src/DataProcessing.antt =====
-- arm_simulator-1.4/arm_data_processing.c: the sixteen data processing instructions and their two
-- decoders. `&&`, `||` and `!` are the source's, which it applies to whole words.
pub mod Flags
pub mod Operand
pub mod Carry
pub mod Overflow
pub mod Shifter
pub mod Effect
pub mod Test
use arm_processor_simulator.Base.{
  ℕ, ◌+◌, ◌-◌, ◌*◌, ◌%◌, ◌^◌, Bool, true, false, not, ◌&&◌, ◌||◌, Option, none, some, ltb, ◌==◌,
  if◌then◌else◌, to_int,
}
use arm_processor_simulator.Util.{u32, sub32, complement, get_bit, get_bits, set_bit, clr_bit, ror}
use arm_processor_simulator.Constants.{n_bit, z_bit, c_bit, v_bit, undefined_instruction}
use arm_processor_simulator.Core.{
  Command, pure, ◌>>=◌, ◌>>◌, arm_read_register, arm_write_register, arm_read_cpsr, arm_write_cpsr,
  arm_read_spsr, arm_current_mode_has_spsr,
}
use arm_processor_simulator.DataProcessing.Flags.{
  get_carry_flag_add, get_carry_flag_sub, get_overflow_flag_add, get_overflow_flag_sub,
}
use arm_processor_simulator.DataProcessing.Operand.{
  ShiftName, lsl, lsr, asr_name, ror_name, get_shifter_operand_immediate,
  get_shifter_operand_register,
}

-- The variables that the `switch` of `executeInst` sets.
pub record Computed : Type 0 where
  pub res : ℕ
  pub c_flag : ℕ
  pub v_flag : ℕ
  -- false for the instructions that only set the flags, by `updateForTest`
  pub write_register : Bool

-- A word as a truth value.
abbrev pub truth : ℕ → Bool
truth x = not (x == 0)

abbrev pub xor_truth : ℕ → ℕ → ℕ
xor_truth a b = to_int ((truth a || truth b) && not (truth a && truth b))

-- ADC: `oldcFlag` is the carry flag before.
unfoldable pub add_with_carry : ℕ → ℕ → ℕ → Computed
add_with_carry rn so old_c =
    let sum = u32 (so + rn) in
    let res = u32 (sum + old_c) in
    let c = get_carry_flag_add so rn in
    let v = get_overflow_flag_add sum so rn in
    record {
      res = res;
      c_flag = if not (truth c) && truth old_c then get_carry_flag_add sum 1 else c;
      v_flag = if not (truth v) && truth old_c then get_overflow_flag_add res sum 1 else v;
      write_register = true;
    }

-- SBC as `a - b`, RSC with the operands exchanged.
unfoldable pub sub_with_carry : ℕ → ℕ → ℕ → Computed
sub_with_carry a b old_c =
    let difference = sub32 a b in
    let res = sub32 difference (complement old_c) in
    let c = get_carry_flag_sub a b in
    let v = get_overflow_flag_sub difference a b in
    record {
      res = res;
      c_flag = if not (truth c) && not (truth old_c) then get_carry_flag_sub difference 1 else c;
      v_flag =
          if not (truth v) && not (truth old_c) then get_overflow_flag_sub res difference 1 else v;
      write_register = true;
    }

-- A result that leaves the carry and the overflow flag.
abbrev pub logical : ℕ → ℕ → ℕ → Bool → Option Computed
logical c v res write = some (record { res = res; c_flag = c; v_flag = v; write_register = write })

-- SUB and CMP, and RSB with the operands exchanged.
abbrev pub subtract : ℕ → ℕ → Bool → Option Computed
subtract a b write = some (record {
  res = sub32 a b;
  c_flag = get_carry_flag_sub a b;
  v_flag = get_overflow_flag_sub (sub32 a b) a b;
  write_register = write;
})

-- The `switch` of `executeInst`, `none` for its default.
unfoldable pub compute : ℕ → ℕ → ℕ → ℕ → ℕ → Option Computed
compute opcode rn so c v =
    if opcode == 0b0000
    then logical c v (to_int (truth rn && truth so)) true
    else if opcode == 0b0001
    then logical c v (xor_truth rn so) true
    else if opcode == 0b0010
    then subtract rn so true
    else if opcode == 0b0011
    then subtract so rn true
    else if opcode == 0b0100
    then some (record {
      res = u32 (so + rn);
      c_flag = get_carry_flag_add so rn;
      v_flag = get_overflow_flag_add (u32 (so + rn)) so rn;
      write_register = true;
    })
    else if opcode == 0b0101
    then some (add_with_carry rn so c)
    else if opcode == 0b0110
    then some (sub_with_carry rn so c)
    else if opcode == 0b0111
    then some (sub_with_carry so rn c)
    else if opcode == 0b1000
    then logical c v (to_int (truth rn && truth so)) false
    else if opcode == 0b1001
    then logical c v (xor_truth rn so) false
    else if opcode == 0b1010
    then subtract rn so false
    else if opcode == 0b1011
    then some (record {
      res = u32 (rn + so);
      c_flag = get_carry_flag_add so rn;
      v_flag = get_overflow_flag_add (u32 (rn + so)) rn so;
      write_register = false;
    })
    else if opcode == 0b1100
    then logical c v (to_int (truth rn || truth so)) true
    else if opcode == 0b1101
    then logical c v so true
    else if opcode == 0b1110
    then logical c v (to_int (truth rn && truth (complement so))) true
    else if opcode == 0b1111
    then logical c v (complement so) true
    else none

-- `flag ? set_bit(value, i) : clr_bit(value, i)`
unfoldable pub put_bit : ℕ → ℕ → ℕ → ℕ
put_bit value flag i = if truth flag then set_bit value i else clr_bit value i

-- The loop over the table `t` of flags and places.
unfoldable pub put_flags : ℕ → ℕ → ℕ → ℕ → ℕ → ℕ
put_flags value z n c v =
    put_bit (put_bit (put_bit (put_bit value z z_bit) n n_bit) c c_bit) v v_bit

-- `arm_write_cpsr(p, arm_read_spsr(p))`, in a mode that has a saved status register.
unfoldable pub restore_cpsr : Command (Unit {0})
restore_cpsr = do
  saved ← arm_current_mode_has_spsr
  if saved then (do spsr ← arm_read_spsr; arm_write_cpsr spsr) else pure tt

-- The last statement of `executeInst`.
unfoldable pub update_status : ℕ → ℕ → Bool → Computed → Command (Unit {0})
update_status value_cpsr rd update_cpsr out =
    if not update_cpsr
    then pure tt
    else if out.write_register && rd == 15
    then restore_cpsr
    else arm_write_cpsr
        (put_flags value_cpsr (to_int (out.res == 0)) (get_bit out.res 31) out.c_flag out.v_flag)

-- What `executeInst` does after its `switch`. The instructions that write no register update the
-- flags in any case.
unfoldable pub finish : ℕ → ℕ → Bool → Computed → Command ℕ
finish value_cpsr rd update_cpsr out = do
  if out.write_register then arm_write_register rd out.res else pure tt
  update_status value_cpsr rd (update_cpsr || not out.write_register) out
  pure 0

unfoldable pub execute_inst : ℕ → ℕ → ℕ → ℕ → Bool → Command ℕ
execute_inst opcode rd value_rn shifter_operand update_cpsr = do
  value_cpsr ← arm_read_cpsr
  let computed =
      compute opcode value_rn shifter_operand (get_bit value_cpsr c_bit) (get_bit value_cpsr v_bit)
  elim computed [
    | none ↦ pure undefined_instruction
    | some out ↦ finish value_cpsr rd update_cpsr out
  ]

-- The name that the decoder's loop picks for the bits 6 to 4.
abbrev pub shift_name : ℕ → ShiftName
shift_name i =
    if ltb i 2 then lsl else if ltb i 4 then lsr else if ltb i 6 then asr_name else ror_name

-- The decoder's loop over `i` from 0 to 6, of which the round where `i` is the bits 6 to 4 of the
-- instruction does something. No round does where they are 7.
unfoldable pub shift_operand : ℕ → ℕ → Command ℕ
shift_operand ins so =
    let i = get_bits ins 6 4 in
    if not (ltb i 7)
    then pure so
    else if i % 2 == 0
    then pure (get_shifter_operand_immediate ins so (shift_name i))
    else get_shifter_operand_register ins so (shift_name i)

unfoldable pub arm_data_processing_shift : ℕ → Command ℕ
arm_data_processing_shift ins = do
  let rn = get_bits ins 19 16
  let rm = get_bits ins 3 0
  read ← arm_read_register rm
  value_rn ← arm_read_register rn
  let operand = if rm == 15 then u32 (read + 8) else if rn == 15 then u32 (value_rn + 8) else read
  shifter_operand ← shift_operand ins operand
  execute_inst (get_bits ins 24 21) (get_bits ins 15 12) value_rn shifter_operand
      (truth (get_bit ins 20))

unfoldable pub arm_data_processing_immediate_msr : ℕ → Command ℕ
arm_data_processing_immediate_msr ins = do
  let shifter_operand = ror (get_bits ins 7 0) (2 * get_bits ins 11 8)
  value_rn ← arm_read_register (get_bits ins 19 16)
  execute_inst (get_bits ins 24 21) (get_bits ins 15 12) value_rn shifter_operand
      (truth (get_bit ins 20))
