-- ===== src/Instruction/Step.antt =====
-- `arm_step` from an aligned program counter: what it does with the word there, and the exceptions
-- that it raises itself.
use arm_processor_simulator.Base.{
  ℕ, zero, suc, ◌+◌, ◌%◌, ◌^◌, ◌≤◌, ◌<◌, ◌≡◌, ◌≢◌, refl, ◌∙◌, ap, arith, Bool, true, false, done,
  ltb, ◌==◌, if◌then◌else◌, Bool-cases, inl, inr, to_int,
}
use native.Mathlib.Decide.{dec_lt}
use arm_processor_simulator.Util.{u32, get_bit, get_bits}
use arm_processor_simulator.Util.Fields.{get_bit_lem, get_bits_lem}
use arm_processor_simulator.Constants.{
  pc, cpsr, und, abt, undefined_instruction, prefetch_abort, n_bit, z_bit, c_bit, v_bit,
}
use arm_processor_simulator.Memory.Cells.{IsBytes}
use arm_processor_simulator.Memory.Access.{word_at}
use arm_processor_simulator.Registers.{read_cpsr}
use arm_processor_simulator.Core.{Core, Command, pure, ◌>>=◌, ◌>>◌, arm_read_cpsr}
use arm_processor_simulator.Core.Access.{HasMode, fetched, arm_fetch-aligned, mode_of-put}
use arm_processor_simulator.DataProcessing.{truth}
use arm_processor_simulator.LoadStore.Addressing.{condition_holds}
use arm_processor_simulator.Exception.{arm_exception, current, next}
use arm_processor_simulator.Exception.Entry.{IsEntered}
use arm_processor_simulator.Exception.Vectors.{arm_exception-IsEntered}
use arm_processor_simulator.Instruction.{
  dispatch, condition_met, execute_fetched, arm_execute_instruction, arm_step,
}
use arm_processor_simulator.Instruction.Decode.{arm_decode_condition-condition_holds}

-- Whether a condition other than 15 holds of the flags of a status register.
abbrev pub holds_of : ℕ → ℕ → Bool
holds_of cond status =
    condition_holds cond (truth (get_bit status z_bit)) (truth (get_bit status n_bit))
      (truth (get_bit status c_bit)) (truth (get_bit status v_bit))

-- The flags' bits as the decoder takes them.
flag_of : (status i : ℕ) → i < 4 → get_bit (get_bits status 31 28) i ≡ get_bit status (28 + i)
flag_of status i h = ground (arith, cases i h)
  where
    cases : (i : ℕ) → i < 4 → get_bit (get_bits status 31 28) i ≡ get_bit status (28 + i)
    cases zero k = omega (
      arith,
      get_bits_lem status 31 28,
      get_bit_lem (get_bits status 31 28) 0,
      get_bit_lem status 28,
    )
    cases (suc zero) k = omega (
      arith,
      get_bits_lem status 31 28,
      get_bit_lem (get_bits status 31 28) 1,
      get_bit_lem status 29,
    )
    cases (suc (suc zero)) k = omega (
      arith,
      get_bits_lem status 31 28,
      get_bit_lem (get_bits status 31 28) 2,
      get_bit_lem status 30,
    )
    cases (suc (suc (suc zero))) k = omega (
      arith,
      get_bits_lem status 31 28,
      get_bit_lem (get_bits status 31 28) 3,
      get_bit_lem status 31,
    )
    cases (suc (suc (suc (suc i)))) k = absurd (omega arith)

truth-to_int : (b : Bool) → truth (to_int b) ≡ b
truth-to_int true = refl
truth-to_int false = refl

condition_met_lem :
    (cond : ℕ) (p : Core)
    → cond < 15
    → condition_met cond p ≡ done (holds_of cond (read_cpsr p.reg), p)
unfolding condition_met arm_read_cpsr
condition_met_lem cond p h =
    let status = read_cpsr p.reg in
    let flags = get_bits status 31 28 in
    let small : flags < 16 = omega (arith, get_bits_lem status 31 28) in
    elim (dec_lt cond 14) [
      | yes below ↦
          let not_always : (cond == 14) ≡ false = ground arith in
          let row = arm_decode_condition-condition_holds cond flags below small in
          rw
            (
              not_always,
              row,
              flag_of status 0 (omega arith),
              flag_of status 1 (omega arith),
              flag_of status 2 (omega arith),
              flag_of status 3 (omega arith),
            )
            (ap (λ b. done (b, p)) (truth-to_int (holds_of cond status)))
      | no above ↦
          let always : cond ≡ 14 = omega arith in rw always (unfold condition_holds in refl)
    ]

-- A processor that is ready to fetch from `a`: its mode is one of the seven, its memory
-- holds bytes and lies well inside the address space, and `a` is the program counter's word.
pub record IsReady (p : Core) (a : ℕ) : Type 0 where
  pub mode : HasMode p
  pub bytes : IsBytes p.mem
  pub words : 2 < p.mem.size
  pub room : p.mem.size + 3 ≤ 2 ^ 32
  pub at : p.reg.registers pc ≡ a
  pub small : a < 2 ^ 32
  pub aligned : a % 4 ≡ 0

-- What `arm_step` makes of the result of an instruction.
abbrev pub raise : ℕ → Command ℕ
raise result = do if truth result then arm_exception result else pure tt; pure result

-- One step from an aligned program counter, by the word that is there: a prefetch abort where
-- there is none, an undefined instruction where its condition is 15, nothing but the fetch where
-- its condition does not hold of the CPSR's flags, and else the instruction of its class, whose
-- result is raised as an exception unless it is 0.
pub arm_step_lem :
    (p : Core) (a : ℕ)
    → IsReady p a
    → arm_step p ≡ (
        let ins = word_at p.mem a in
        let q = fetched p a in
        if ltb (a + 3) p.mem.size
        then (if get_bits ins 31 28 == 15
            then raise undefined_instruction q
            else if holds_of (get_bits ins 31 28) (p.reg.registers cpsr)
            then (dispatch ins >>= raise) q
            else done (0, q))
        else raise prefetch_abort q)
unfolding arm_step arm_execute_instruction execute_fetched read_cpsr
arm_step_lem p a ready =
    let ins = word_at p.mem a in
    let q = fetched p a in
    let fetch =
      arm_fetch-aligned p a ready.mode ready.bytes ready.words ready.room ready.at ready.small
        ready.aligned in
    let status : read_cpsr q.reg ≡ p.reg.registers cpsr = ground arith in
    let condition : get_bits ins 31 28 ≢ 15
        → condition_met (get_bits ins 31 28) q
          ≡ done (holds_of (get_bits ins 31 28) (p.reg.registers cpsr), q) =
      λ ne.
        condition_met_lem (get_bits ins 31 28) q (omega (arith, get_bits_lem ins 31 28))
        ∙ rw status refl in
    elim (dec_lt (a + 3) p.mem.size) [
      | no outside ↦
          let test : ltb (a + 3) p.mem.size ≡ false = ground arith in rw (fetch, test) refl
      | yes inside ↦
          let test : ltb (a + 3) p.mem.size ≡ true = ground arith in
          elim (Bool-cases (get_bits ins 31 28 == 15)) [
            | inl never ↦ rw (fetch, test, never) refl
            | inr sometimes ↦
                let met = condition (ground arith) in
                elim (Bool-cases (holds_of (get_bits ins 31 28) (p.reg.registers cpsr))) [
                  | inl yes_met ↦ rw (fetch, test, sometimes, met, yes_met) refl
                  | inr not_met ↦ rw (fetch, test, sometimes, met, not_met) refl
                ]
          ]
    ]

pub fetched-HasMode : (p : Core) (a : ℕ) → HasMode p → HasMode (fetched p a)
fetched-HasMode p a h = rw (mode_of-put p pc (u32 (a + 4)) (omega arith)) h

-- An exception that a step raises.
raised :
    (result : ℕ) (p : Core) {out : Core}
    → result ≢ 0
    → arm_exception result p ≡ done (tt, out)
    → raise result p ≡ done (result, out)
raised result p ne h = let test : truth result ≡ true = ground arith in rw (test, h) refl

undefined_raised :
    (p : Core)
    → HasMode p
    → p.reg.registers cpsr < 2 ^ 32
    → (out : Core) × (raise undefined_instruction p ≡ done (undefined_instruction, out))
      × IsEntered p true und false next 0x4 out
undefined_raised p mode small =
    let (out, runs, e) = arm_exception-IsEntered p 1 mode small (omega arith) in
    (out, raised undefined_instruction p (omega arith) runs, e)

-- Outside the memory a step raises a prefetch abort: the processor is at vector 0xC in abort mode,
-- with the link register 4 beyond the address that could not be fetched.
pub arm_step-prefetch_abort :
    (p : Core) (a : ℕ)
    → IsReady p a
    → p.reg.registers cpsr < 2 ^ 32
    → p.mem.size ≤ a + 3
    → (out : Core) × (arm_step p ≡ done (prefetch_abort, out))
      × IsEntered (fetched p a) true abt false current 0xC out
arm_step-prefetch_abort p a ready small outside =
    let q = fetched p a in
    let mode' = fetched-HasMode p a ready.mode in
    let (out, runs, e) = arm_exception-IsEntered q 3 mode' small (omega arith) in
    let test : ltb (a + 3) p.mem.size ≡ false = ground arith in
    (out, arm_step_lem p a ready ∙ rw test (raised prefetch_abort q (omega arith) runs), e)

-- An instruction whose condition field is 15 raises an undefined instruction exception.
pub arm_step-undefined :
    (p : Core) (a : ℕ)
    → IsReady p a
    → p.reg.registers cpsr < 2 ^ 32
    → a + 3 < p.mem.size
    → get_bits (word_at p.mem a) 31 28 ≡ 15
    → (out : Core) × (arm_step p ≡ done (undefined_instruction, out))
      × IsEntered (fetched p a) true und false next 0x4 out
arm_step-undefined p a ready small inside never =
    let (out, runs, e) = undefined_raised (fetched p a) (fetched-HasMode p a ready.mode) small in
    let test : ltb (a + 3) p.mem.size ≡ true = ground arith in
    (out, arm_step_lem p a ready ∙ rw (test, never) runs, e)
