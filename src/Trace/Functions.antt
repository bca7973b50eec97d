-- ===== src/Trace/Functions.antt =====
-- arm_simulator-1.4/arm_branch_other.c with the macros of trace_location.h: its functions as clients of
-- the processor, with the line of each call.
use arm_processor_simulator.Base.{
  ℕ, suc, ap, ◌∙◌, ◌<◌, arith, length, Outcome, done, ◌>>=◌ as and_then, ◌+◌, ◌*◌, Bool, true,
  false, List, codes, ◌≡◌, ◌==◌, if◌then◌else◌, Bool-cases, inl, inr,
}
use arm_processor_simulator.Util.{u8, u32, sub32, shl32, get_bit, get_bits, ror}
use arm_processor_simulator.Constants.{pc, lr}
use arm_processor_simulator.Core
use arm_processor_simulator.Core.{Core}
use arm_processor_simulator.Trace.Quiet.{bind_assoc}
use arm_processor_simulator.DataProcessing.{truth}
use arm_processor_simulator.BranchOther as Plain
use arm_processor_simulator.BranchOther.{branch_adress, write_link, psr_value}
use arm_processor_simulator.Util.Fields.{get_bits_lem}
use arm_processor_simulator.Trace.{Trace, Line}
use arm_processor_simulator.Trace.Erasure.{machine}
use arm_processor_simulator.Trace.Follows.{HasRoom}
use arm_processor_simulator.Trace.Unchanged.{observe, run_traced-run}
use arm_processor_simulator.Trace.Client.{
  run_traced, read_register, read_cpsr, read_spsr, write_register, write_cpsr, write_spsr, Client,
  result, call, Nests, run, plain,
}

abbrev file : List ℕ
file = codes "arm_branch_other.c"

-- A read, the value of which is the result, and one whose value is used.
abbrev reading : ℕ → ℕ → Client
reading line reg = call file line (result 0) (λ _. read_register reg) (λ _ value. result value)

-- Reads of the status registers.
abbrev read_status : ℕ → Bool → (ℕ → Client) → Client
read_status line true next = call file line (result 0) (λ _. read_spsr) (λ _ value. next value)
read_status line false next = call file line (result 0) (λ _. read_cpsr) (λ _ value. next value)

abbrev write_status : ℕ → ℕ → Bool → ℕ → Client
write_status spsr_line cpsr_line true value =
    call file spsr_line (result 0) (λ _. write_spsr value) (λ _ _. result 0)
write_status spsr_line cpsr_line false value =
    call file cpsr_line (result 0) (λ _. write_cpsr value) (λ _ _. result 0)

-- The last statement of `arm_branch`.
unfoldable pub jump : ℕ → Client
jump ins =
    call file 40 (reading 40 pc)
      (λ seen. write_register pc (u32 (seen + shl32 (branch_adress ins) 2))) (λ _ _. result 0)

unfoldable pub arm_branch : ℕ → Client
arm_branch ins =
    if truth (get_bit ins 24)
    then call file 33 (reading 33 pc) (λ seen. write_register lr (sub32 seen 4)) (λ _ _. jump ins)
    else jump ins

unfoldable pub write_psr : ℕ → ℕ → ℕ → Client
write_psr ins value r =
    read_status 56 (truth r) (λ psr. write_status 74 76 (truth r) (psr_value ins value psr))

unfoldable pub msr : ℕ → Client
msr ins =
    if truth (get_bit ins 25)
    then write_psr ins (u8 (ror (get_bits ins 7 0) (2 * get_bits ins 11 8))) (get_bit ins 22)
    else call file 90 (result 0) (λ _. read_register (get_bits ins 3 0))
        (λ _ value. write_psr ins (u8 value) (get_bit ins 22))

unfoldable pub mrs : ℕ → Client
mrs ins =
    if truth (get_bit ins 22)
    then call file 99 (read_status 99 true result) (λ psr. write_register (get_bits ins 15 12) psr)
        (λ _ _. result 0)
    else call file 102 (read_status 102 false result)
        (λ psr. write_register (get_bits ins 15 12) psr) (λ _ _. result 0)

unfoldable pub arm_miscellaneous : ℕ → Client
arm_miscellaneous ins = if get_bits ins 21 20 == 0b10 then msr ins else mrs ins

-- Without their traces these are the functions.
run-arm_branch : (ins : ℕ) (p : Core) → run (arm_branch ins) p ≡ Plain.arm_branch ins p
unfolding run plain arm_branch jump Plain.arm_branch Plain.write_link
run-arm_branch ins p = elim (Bool-cases (truth (get_bit ins 24))) [
  | inl link ↦ rw link (simp bind_assoc)
  | inr no_link ↦ rw no_link (simp bind_assoc)
]

run-write_psr :
    (ins value r : ℕ) (p : Core)
    → run (write_psr ins value r) p ≡ Core.◌>>◌ (Plain.write_psr ins value r) (Core.pure 0) p
unfolding run plain write_psr Plain.write_psr
run-write_psr ins value r p = elim (Bool-cases (truth r)) [
  | inl saved ↦ rw saved (simp bind_assoc)
  | inr now ↦ rw now (simp bind_assoc)
]

run-msr : (ins : ℕ) (p : Core) → run (msr ins) p ≡ Core.◌>>◌ (Plain.msr ins) (Core.pure 0) p
unfolding msr Plain.msr Plain.msr_operand run plain
run-msr ins p = elim (Bool-cases (truth (get_bit ins 25))) [
  | inl immediate ↦
      rw immediate
        (run-write_psr ins (u8 (ror (get_bits ins 7 0) (2 * get_bits ins 11 8))) (get_bit ins 22) p)
  | inr register ↦
      let written : (value : ℕ) (q : Core)
          → run (write_psr ins value (get_bit ins 22)) q
            ≡ Core.◌>>◌ (Plain.write_psr ins value (get_bit ins 22)) (Core.pure 0) q =
        λ value q. run-write_psr ins value (get_bit ins 22) q in
      rw register (simp (bind_assoc, written))
]

run-mrs : (ins : ℕ) (p : Core) → run (mrs ins) p ≡ Core.◌>>◌ (Plain.mrs ins) (Core.pure 0) p
unfolding mrs Plain.mrs run plain
run-mrs ins p = elim (Bool-cases (truth (get_bit ins 22))) [
  | inl saved ↦ rw saved (simp bind_assoc)
  | inr now ↦ rw now (simp bind_assoc)
]

run-arm_miscellaneous :
    (ins : ℕ) (p : Core) → run (arm_miscellaneous ins) p ≡ Plain.arm_miscellaneous ins p
unfolding arm_miscellaneous Plain.arm_miscellaneous
run-arm_miscellaneous ins p = elim (Bool-cases (get_bits ins 21 20 == 0b10)) [
  | inl write ↦ rw write (run-msr ins p)
  | inr read ↦ rw read (run-mrs ins p)
]

Nests-read_status :
    (n line : ℕ) (b : Bool) (next : ℕ → Client)
    → ((value : ℕ) → Nests (suc n) (next value))
    → Nests (suc n) (read_status line b next)
Nests-read_status n line true next h = (tt, λ _. (tt, λ value. h value))
Nests-read_status n line false next h = (tt, λ _. (tt, λ value. h value))

Nests-write_status :
    (n spsr_line cpsr_line : ℕ) (b : Bool) (value : ℕ)
    → Nests (suc n) (write_status spsr_line cpsr_line b value)
Nests-write_status n spsr_line cpsr_line true value = (tt, λ _. (tt, λ _. tt))
Nests-write_status n spsr_line cpsr_line false value = (tt, λ _. (tt, λ _. tt))

Nests-jump : (ins : ℕ) → Nests 2 (jump ins)
unfolding jump
Nests-jump ins = ((tt, λ _. (omega arith, λ _. tt)), λ _. (omega arith, λ _. tt))

Nests-arm_branch : (ins : ℕ) → Nests 2 (arm_branch ins)
unfolding arm_branch
Nests-arm_branch ins = elim (Bool-cases (truth (get_bit ins 24))) [
  | inl link ↦ rw link ((tt, λ _. (omega arith, λ _. tt)), λ _. (omega arith, λ _. Nests-jump ins))
  | inr no_link ↦ rw no_link (Nests-jump ins)
]

Nests-write_psr : (ins value r : ℕ) → Nests 2 (write_psr ins value r)
unfolding write_psr
Nests-write_psr ins value r =
    Nests-read_status 1 56 (truth r) _
      (λ psr. Nests-write_status 1 74 76 (truth r) (psr_value ins value psr))

Nests-msr : (ins : ℕ) → Nests 2 (msr ins)
unfolding msr
Nests-msr ins = elim (Bool-cases (truth (get_bit ins 25))) [
  | inl immediate ↦ rw immediate (Nests-write_psr ins _ (get_bit ins 22))
  | inr register ↦ rw register (
    tt,
    λ _. (
      omega (arith, get_bits_lem ins 3 0),
      λ value. Nests-write_psr ins (u8 value) (get_bit ins 22),
    ),
  )
]

Nests-mrs : (ins : ℕ) → Nests 2 (mrs ins)
unfolding mrs
Nests-mrs ins =
    let named : get_bits ins 15 12 < 18 = omega (arith, get_bits_lem ins 15 12) in
    elim (Bool-cases (truth (get_bit ins 22))) [
      | inl saved ↦ rw saved ((tt, λ _. (tt, λ _. tt)), λ _. (named, λ _. tt))
      | inr now ↦ rw now ((tt, λ _. (tt, λ _. tt)), λ _. (named, λ _. tt))
    ]

Nests-arm_miscellaneous : (ins : ℕ) → Nests 2 (arm_miscellaneous ins)
unfolding arm_miscellaneous
Nests-arm_miscellaneous ins = elim (Bool-cases (get_bits ins 21 20 == 0b10)) [
  | inl write ↦ rw write (Nests-msr ins)
  | inr read ↦ rw read (Nests-mrs ins)
]

abbrev beside_trace : Trace → Outcome (ℕ × Core) → Outcome (ℕ × Core × ℕ × List Line)
beside_trace t o = and_then o (λ (a, p). done (a, p, t.location_stack_top, t.output))

-- With their trace calls, in either format, and the location of each call, those in the arguments of
-- others included: B, BL, MRS and MSR do to the processor what they do without, with the same result,
-- and undefined in the same cases. What was printed before stays, and all locations are left again. A
-- file is set for the trace, and at most 126 of its 128 places for locations are taken.
pub run_traced-plain :
    (format : Bool) (ins : ℕ) (p : Core) (t : Trace)
    → HasRoom 126 t
    → (observe (length t.output) (run_traced format (arm_branch ins) (machine p t))
        ≡ and_then
            (Plain.arm_branch ins p)
            (λ (a, p'). done (a, p', t.location_stack_top, t.output)))
      × (observe (length t.output) (run_traced format (arm_miscellaneous ins) (machine p t))
          ≡ and_then
              (Plain.arm_miscellaneous ins p)
              (λ (a, p'). done (a, p', t.location_stack_top, t.output)))
run_traced-plain format ins p t room = (
  run_traced-run format 2 (arm_branch ins) p t (Nests-arm_branch ins) (omega arith) room
      ∙ ap (beside_trace t) (run-arm_branch ins p),
  run_traced-run format 2 (arm_miscellaneous ins) p t (Nests-arm_miscellaneous ins) (omega arith)
        room
      ∙ ap (beside_trace t) (run-arm_miscellaneous ins p),
)
