-- ===== src/DataProcessing/Effect.antt =====
-- What a data processing instruction does to the processor.
use arm_processor_simulator.Base.{
  ℕ, zero, suc, ◌+◌, ◌-◌, ◌*◌, ◌/◌, ◌%◌, ◌^◌, ◌≤◌, ◌<◌, ◌≡◌, refl, ◌∙◌, arith, Bool, true, not,
  ◌&&◌, ◌||◌, ◌==◌, if◌then◌else◌, to_int, some, done,
}
use arm_processor_simulator.Util.{get_bit, u32, sub32, complement}
use arm_processor_simulator.Util.Fields.{get_bit_lem, set_bit_lem, clr_bit_lem}
use arm_processor_simulator.Constants.{cpsr}
use arm_processor_simulator.Registers.{Registers, read_cpsr, get_mode}
use arm_processor_simulator.Registers
use arm_processor_simulator.Registers.Bank.{bank}
use arm_processor_simulator.Core.{Core, arm_read_cpsr, arm_write_cpsr}
use arm_processor_simulator.Core.Access.{mode_of, put, HasMode, HasMode-le, arm_write_register-done}
use arm_processor_simulator.DataProcessing.{
  Computed, compute, execute_inst, finish, update_status, put_flags, put_bit, truth, xor_truth,
  sub_with_carry,
}
use arm_processor_simulator.DataProcessing.Flags.{get_carry_flag_add, get_overflow_flag_add}
use arm_processor_simulator.DataProcessing.Carry.{get_carry_flag_add_lem}
use arm_processor_simulator.DataProcessing.Overflow.{get_overflow_flag_add_lem, sum_overflows}

put_bit_lem :
    (x flag i m : ℕ)
    → i + suc m ≡ 32
    → x < 2 ^ 32
    → flag < 2
    → put_bit x flag i ≡ (x / 2 ^ i / 2 * 2 + flag) * 2 ^ i + x % 2 ^ i
unfolding put_bit
put_bit_lem x zero i m e hx hf = clr_bit_lem x i m e hx ∙ omega arith
put_bit_lem x (suc zero) i m e hx hf = set_bit_lem x i
put_bit_lem x (suc (suc flag)) i m e hx hf = absurd (omega arith)

-- The four flags replace the top bits, and the rest of the CPSR stays.
pub put_flags_lem :
    (x z n c v : ℕ)
    → x < 2 ^ 32
    → z < 2
    → n < 2
    → c < 2
    → v < 2
    → put_flags x z n c v ≡ n * 2 ^ 31 + z * 2 ^ 30 + c * 2 ^ 29 + v * 2 ^ 28 + x % 2 ^ 28
unfolding put_flags
put_flags_lem x z n c v hx hz hn hc hv =
    let e1 = put_bit_lem x z 30 1 (omega arith) hx hz in
    let x1 = put_bit x z 30 in
    let e2 = put_bit_lem x1 n 31 0 (omega arith) (omega (arith, e1)) hn in
    let x2 = put_bit x1 n 31 in
    let s2 : x2 ≡ n * 2 ^ 31 + z * 2 ^ 30 + x % 2 ^ 30 = omega (arith, e1, e2) in
    let e3 = put_bit_lem x2 c 29 2 (omega arith) (omega (arith, s2)) hc in
    let x3 = put_bit x2 c 29 in
    let s3 : x3 ≡ n * 2 ^ 31 + z * 2 ^ 30 + c * 2 ^ 29 + x % 2 ^ 29 = omega (arith, s2, e3) in
    let e4 = put_bit_lem x3 v 28 3 (omega arith) (omega (arith, s3)) hv in omega (arith, s3, e4)

to_int-lt : (b : Bool) → to_int b < 2
to_int-lt b = ground arith

-- The processor after the register of an instruction is written.
abbrev pub result_written : Core → ℕ → Computed → Core
result_written p rd out = if out.write_register then put p (bank (mode_of p) rd) out.res else p

-- The CPSR that the flags of an instruction make of `x`.
abbrev pub flagged : ℕ → Computed → ℕ
flagged x out = put_flags x (to_int (out.res == 0)) (get_bit out.res 31) out.c_flag out.v_flag

-- An instruction whose register is not the program counter.
pub finish-done :
    (p : Core) (rd : ℕ) (update_cpsr : Bool) (out : Computed)
    → HasMode p
    → rd < 15
    → finish (read_cpsr p.reg) rd update_cpsr out p
      ≡ done (
        0,
        (if update_cpsr || not out.write_register
            then put (result_written p rd out) cpsr (flagged (read_cpsr p.reg) out)
            else result_written p rd out),
      )
unfolding finish update_status arm_write_cpsr Registers.write_cpsr
finish-done p rd update_cpsr out h k =
    let write = arm_write_register-done p rd out.res (omega arith) (HasMode-le p h) in
    ground (arith, write)

-- ADD with the S bit in one of the seven modes, into a register other than the program
-- counter: the register gets the sum modulo 2 ^ 32, and of the CPSR only the four flags change. N,
-- Z and V are those of the sum, and C is the carry from bit 30 into bit 31. Nothing else changes.
pub execute_inst-add :
    (p : Core) (rd rn so : ℕ)
    → HasMode p
    → rd < 15
    → rn < 2 ^ 32
    → so < 2 ^ 32
    → read_cpsr p.reg < 2 ^ 32
    → execute_inst 0b0100 rd rn so true p ≡ (
        let sum = u32 (so + rn) in
        done (
          0,
          put (put p (bank (mode_of p) rd) sum) cpsr (
              sum / 2 ^ 31 * 2 ^ 31
              + to_int (sum == 0) * 2 ^ 30
              + (so % 2 ^ 31 + rn % 2 ^ 31) / 2 ^ 31 * 2 ^ 29
              + to_int (sum_overflows so rn) * 2 ^ 28
              + read_cpsr p.reg % 2 ^ 28),
        ))
unfolding execute_inst compute arm_read_cpsr
execute_inst-add p rd rn so h k hn hs hc =
    let sum = u32 (so + rn) in
    let out : Computed = record {
      res = sum;
      c_flag = get_carry_flag_add so rn;
      v_flag = get_overflow_flag_add sum so rn;
      write_register = true;
    } in
    let carry = get_carry_flag_add_lem so rn in
    let overflow = get_overflow_flag_add_lem so rn hs hn in
    let sign : get_bit sum 31 ≡ sum / 2 ^ 31 = omega (arith, get_bit_lem sum 31) in
    let flags =
      put_flags_lem (read_cpsr p.reg) (to_int (sum == 0)) (sum / 2 ^ 31)
        ((so % 2 ^ 31 + rn % 2 ^ 31) / 2 ^ 31) (to_int (sum_overflows so rn)) hc
        (to_int-lt (sum == 0)) (omega arith) (omega arith) (to_int-lt (sum_overflows so rn)) in
    finish-done p rd true out h k ∙ rw (carry, overflow, sign, flags) refl

-- SBC, and RSC with its operands exchanged, leave 2 more than the difference with borrow that the
-- manual asks for, the borrow being 1 less the carry flag.
pub sub_with_carry_lem :
    (a b c : ℕ)
    → a < 2 ^ 32
    → b < 2 ^ 32
    → c < 2
    → (sub_with_carry a b c).res ≡ u32 (sub32 (sub32 a b) (1 - c) + 2)
unfolding sub_with_carry
sub_with_carry_lem a b c ha hb hc = omega arith

-- The four logical instructions AND, EOR, ORR and BIC, and the tests TST and TEQ.
abbrev pub is_logical : ℕ → Bool
is_logical opcode =
    opcode == 0 || opcode == 1 || opcode == 8 || opcode == 9 || opcode == 12 || opcode == 14

-- Their result is never more than 1, whatever the operands: it is a truth value, not the bits of
-- the two words. The carry and the overflow flag stay.
pub compute-logical :
    (opcode rn so c v : ℕ)
    → is_logical opcode ≡ true
    → (out : Computed) × (compute opcode rn so c v ≡ some out)
      × (out.res ≤ 1)
      × (out.c_flag ≡ c)
      × (out.v_flag ≡ v)
unfolding compute
compute-logical opcode rn so c v h =
    let res =
      if opcode == 0 || opcode == 8
      then to_int (truth rn && truth so)
      else if opcode == 1 || opcode == 9
      then xor_truth rn so
      else if opcode == 12
      then to_int (truth rn || truth so)
      else to_int (truth rn && truth (complement so)) in
    (
      record {
        res = res;
        c_flag = c;
        v_flag = v;
        write_register = not (opcode == 8 || opcode == 9);
      },
      ground arith,
      ground arith,
      refl,
      refl,
    )
