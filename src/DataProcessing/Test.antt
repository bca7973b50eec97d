-- ===== src/DataProcessing/Test.antt =====
-- The four instructions TST, TEQ, CMP and CMN, which only set the flags.
use arm_processor_simulator.Base.{
  ℕ, ◌+◌, ◌*◌, ◌/◌, ◌%◌, ◌^◌, ◌<◌, ◌≡◌, refl, ◌∙◌, sym, arith, Bool, true, false, ◌&&◌, some, done,
  leb, ◌==◌, if◌then◌else◌, Bool-cases, inl, inr, to_int,
}
use arm_processor_simulator.Util.{u32, sub32, get_bit}
use arm_processor_simulator.Util.Fields.{get_bit_lem}
use arm_processor_simulator.Constants.{cpsr, c_bit, v_bit, n_bit, z_bit}
use arm_processor_simulator.Registers
use arm_processor_simulator.Registers.{read_cpsr}
use arm_processor_simulator.Core.{Core, arm_read_cpsr, arm_write_cpsr}
use arm_processor_simulator.Core.Access.{put}
use arm_processor_simulator.DataProcessing.{
  Computed, xor_truth, compute, execute_inst, finish, update_status, put_flags, put_bit, truth,
}
use arm_processor_simulator.DataProcessing.Flags.{
  get_carry_flag_add, get_carry_flag_sub, get_overflow_flag_add, get_overflow_flag_sub,
}
use arm_processor_simulator.DataProcessing.Effect.{put_flags_lem, flagged}

-- Only whether a flag is 0 counts.
put_bit-truth : (x flag i : ℕ) → put_bit x flag i ≡ put_bit x (to_int (truth flag)) i
unfolding put_bit
put_bit-truth x flag i = elim (Bool-cases (truth flag)) [
  | inl set ↦ rw set refl
  | inr clear ↦ rw clear refl
]

put_flags-truth :
    (x z n c v : ℕ)
    → put_flags x z n c v
      ≡ put_flags x (to_int (truth z)) (to_int (truth n)) (to_int (truth c)) (to_int (truth v))
unfolding put_flags
put_flags-truth x z n c v =
    rw
      (
        sym (put_bit-truth x z z_bit),
        sym (put_bit-truth (put_bit x z z_bit) n n_bit),
        sym (put_bit-truth (put_bit (put_bit x z z_bit) n n_bit) c c_bit),
        sym (put_bit-truth (put_bit (put_bit (put_bit x z z_bit) n n_bit) c c_bit) v v_bit),
      )
      refl

truth-lt : (x : ℕ) → to_int (truth x) < 2
truth-lt x = ground arith

abbrev pub is_test : ℕ → Bool
is_test opcode = leb 8 opcode && leb opcode 11

-- What the four compute.
abbrev tested : ℕ → ℕ → ℕ → ℕ → ℕ → Computed
tested opcode rn so c v =
    let sum = u32 (rn + so) in
    let difference = sub32 rn so in
    record {
      res =
          if opcode == 8
          then to_int (truth rn && truth so)
          else if opcode == 9
          then xor_truth rn so
          else if opcode == 10
          then difference
          else sum;
      c_flag =
          if opcode == 10
          then get_carry_flag_sub rn so
          else if opcode == 11
          then get_carry_flag_add so rn
          else c;
      v_flag =
          if opcode == 10
          then get_overflow_flag_sub difference rn so
          else if opcode == 11
          then get_overflow_flag_add sum rn so
          else v;
      write_register = false;
    }

-- The cases of a test.
tests : (opcode : ℕ) → is_test opcode ≡ true → (P : ℕ → Type 0) → P 8 → P 9 → P 10 → P 11 → P opcode
tests opcode h P p8 p9 p10 p11 = elim (Bool-cases (opcode == 8)) [
  | inl e ↦ let e' : opcode ≡ 8 = ground arith in rw e' p8
  | inr n8 ↦ elim (Bool-cases (opcode == 9)) [
    | inl e ↦ let e' : opcode ≡ 9 = ground arith in rw e' p9
    | inr n9 ↦ elim (Bool-cases (opcode == 10)) [
      | inl e ↦ let e' : opcode ≡ 10 = ground arith in rw e' p10
      | inr n10 ↦ let e' : opcode ≡ 11 = ground arith in rw e' p11
    ]
  ]
]

compute-test :
    (opcode rn so c v : ℕ)
    → is_test opcode ≡ true
    → compute opcode rn so c v ≡ some (tested opcode rn so c v)
unfolding compute
compute-test opcode rn so c v h =
    tests opcode h (λ o. compute o rn so c v ≡ some (tested o rn so c v)) refl refl refl refl

execute_inst-tested :
    (opcode rd rn so : ℕ) (update_cpsr : Bool) (p : Core)
    → is_test opcode ≡ true
    → execute_inst opcode rd rn so update_cpsr p
      ≡ finish
          (read_cpsr p.reg)
          rd
          update_cpsr
          (tested opcode rn so (get_bit (read_cpsr p.reg) c_bit) (get_bit (read_cpsr p.reg) v_bit))
          p
unfolding execute_inst compute arm_read_cpsr
execute_inst-tested opcode rd rn so update_cpsr p h =
    tests opcode h
      (λ o.
        execute_inst o rd rn so update_cpsr p
        ≡ finish (read_cpsr p.reg) rd update_cpsr
            (tested o rn so (get_bit (read_cpsr p.reg) c_bit) (get_bit (read_cpsr p.reg) v_bit)) p)
      refl refl refl refl

finish-test :
    (rd : ℕ) (update_cpsr : Bool) (out : Computed) (p : Core)
    → out.write_register ≡ false
    → finish (read_cpsr p.reg) rd update_cpsr out p
      ≡ done (0, put p cpsr (flagged (read_cpsr p.reg) out))
unfolding finish update_status arm_write_cpsr Registers.write_cpsr
finish-test rd true out p no_write = rw no_write refl
finish-test rd false out p no_write = rw no_write refl

get_bit-truth : (x i : ℕ) → to_int (truth (get_bit x i)) ≡ x / 2 ^ i % 2
get_bit-truth x i = ground (arith, get_bit_lem x i)

-- TST, TEQ, CMP and CMN change nothing of the processor but the CPSR, whatever the S bit and the
-- register field of the instruction are, 15 included. Of the CPSR the bits below the four flags stay,
-- Z tells whether the result is 0 and N is its sign.
pub execute_inst-test :
    (opcode rd rn so : ℕ) (update_cpsr : Bool) (p : Core)
    → is_test opcode ≡ true
    → read_cpsr p.reg < 2 ^ 32
    → (out : Computed) × (compute opcode rn so
          (get_bit (read_cpsr p.reg) c_bit)
          (get_bit (read_cpsr p.reg) v_bit)
        ≡ some out)
      × (execute_inst opcode rd rn so update_cpsr p
          ≡ done (0, put p cpsr (flagged (read_cpsr p.reg) out)))
      × (flagged (read_cpsr p.reg) out % 2 ^ 28 ≡ read_cpsr p.reg % 2 ^ 28)
      × (get_bit (flagged (read_cpsr p.reg) out) z_bit ≡ to_int (out.res == 0))
      × (get_bit (flagged (read_cpsr p.reg) out) n_bit ≡ out.res / 2 ^ 31 % 2)
execute_inst-test opcode rd rn so update_cpsr p h small =
    let x = read_cpsr p.reg in
    let out = tested opcode rn so (get_bit x c_bit) (get_bit x v_bit) in
    let runs = compute-test opcode rn so (get_bit x c_bit) (get_bit x v_bit) h in
    let z = to_int (out.res == 0) in
    let n = get_bit out.res 31 in
    let flags : flagged x out
        ≡ to_int (truth n) * 2 ^ 31
          + to_int (truth z) * 2 ^ 30
          + to_int (truth out.c_flag) * 2 ^ 29
          + to_int (truth out.v_flag) * 2 ^ 28
          + x % 2 ^ 28 =
      put_flags-truth x z n out.c_flag out.v_flag
      ∙ put_flags_lem x (to_int (truth z)) (to_int (truth n)) (to_int (truth out.c_flag))
          (to_int (truth out.v_flag)) small (truth-lt z) (truth-lt n) (truth-lt out.c_flag)
          (truth-lt out.v_flag) in
    let hz = truth-lt z in
    let hn = truth-lt n in
    let hc = truth-lt out.c_flag in
    let hv = truth-lt out.v_flag in
    let now = flagged x out in
    let top_z : get_bit now z_bit ≡ z = ground (arith, get_bit_lem now 30, flags) in
    let top_n : get_bit now n_bit ≡ out.res / 2 ^ 31 % 2 =
      omega (arith, get_bit_lem now 31, flags, get_bit-truth out.res 31, hz, hn, hc, hv) in
    (
      out,
      runs,
      execute_inst-tested opcode rd rn so update_cpsr p h ∙ finish-test rd update_cpsr out p refl,
      omega (arith, flags, hz, hn, hc, hv),
      top_z,
      top_n,
    )
