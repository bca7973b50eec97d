-- ===== src/Trace/Unchanged.antt =====
-- arm_simulator-1.4/arm_core.c with trace_location.h: tracing changes nothing of what the files that use
-- the processor do to it.
use arm_processor_simulator.Base.{
  ℕ, zero, suc, ◌≤◌, subst, ◌-◌, Bool, List, ◌++◌, ◌≡◌, refl, ap, ◌∙◌, Outcome, done, fault, exited,
  aborted, ◌>>=◌ as and_then, length, drop, length-append, drop-append, arith,
}
use arm_processor_simulator.Core.{Core, Command}
use arm_processor_simulator.Trace.{Trace, Line}
use arm_processor_simulator.Core
use arm_processor_simulator.Trace.Accesses
use arm_processor_simulator.Trace.Accesses.{Machine, located}
use arm_processor_simulator.Trace.Quiet.{bind_assoc}
use arm_processor_simulator.Trace.Follows.{Follows, HasRoom}
use arm_processor_simulator.Trace.Erasure.{
  machine, erase, Erases, Erases-pure, Erases->>=, Erases-located, Erases-less, Erases-eq,
}
use arm_processor_simulator.Trace.EachAccess.{
  read_register-Erases, read_usr_register-Erases, read_cpsr-Erases, read_spsr-Erases,
  write_register-Erases, write_usr_register-Erases, write_cpsr-Erases, write_spsr-Erases,
  fetch-Erases, read_byte-Erases, read_half-Erases, read_word-Erases, write_byte-Erases,
  write_half-Erases, write_word-Erases,
}
use arm_processor_simulator.Trace.Client.{
  Access, Answer, fetch, read_register, read_usr_register, read_cpsr, read_spsr, write_register,
  write_usr_register, write_cpsr, write_spsr, read_byte, read_half, read_word, write_byte,
  write_half, write_word, plain, traced, IsNamed, Client, result, call, Nests, run, run_traced,
}

traced-Erases : (format : Bool) (a : Access) → IsNamed a → Erases 128 (traced format a) (plain a)
unfolding traced plain
traced-Erases format (fetch old) named = fetch-Erases format old
traced-Erases format (read_register reg) named = read_register-Erases format reg named
traced-Erases format (read_usr_register reg) named = read_usr_register-Erases format reg named
traced-Erases format read_cpsr named = read_cpsr-Erases format
traced-Erases format read_spsr named = read_spsr-Erases format
traced-Erases format (write_register reg value) named = write_register-Erases format reg value named
traced-Erases format (write_usr_register reg value) named =
    write_usr_register-Erases format reg value named
traced-Erases format (write_cpsr value) named = write_cpsr-Erases format value
traced-Erases format (write_spsr value) named = write_spsr-Erases format value
traced-Erases format (read_byte address old) named = read_byte-Erases format address old
traced-Erases format (read_half address old) named = read_half-Erases format address old
traced-Erases format (read_word address old) named = read_word-Erases format address old
traced-Erases format (write_byte address value) named = write_byte-Erases format address value
traced-Erases format (write_half address value) named = write_half-Erases format address value
traced-Erases format (write_word address value) named = write_word-Erases format address value

-- An access, and the value of its argument beside its answer.
answer-Erases :
    (format : Bool) (free value : ℕ) (access : ℕ → Access)
    → IsNamed (access value)
    → free ≤ 128
    → Erases {A = (v : ℕ) × Answer (access v)} free
        (Accesses.◌>>=◌ (traced format (access value)) (λ answer. Accesses.pure (value, answer)))
        (Core.◌>>=◌ (plain (access value)) (λ answer. Core.pure (value, answer)))
answer-Erases format free value access named le =
    let a = access value in
    Erases->>= free (traced format a) (plain a) _ _
      (Erases-less free 128 (traced format a) (plain a) le (traced-Erases format a named))
      (λ answer. Erases-pure free (value, answer))

run_traced-Erases :
    (format : Bool) (n : ℕ) (c : Client)
    → Nests n c
    → n ≤ 128
    → Erases (128 - n) (run_traced format c) (run c)
unfolding run run_traced
run_traced-Erases format n (result x) nests le = Erases-pure (128 - n) x
run_traced-Erases format zero (call file line argument access next) nests le = absurd nests
run_traced-Erases format (suc n) (call file line argument access next) (inner, rest) le =
    let free = 128 - suc n in
    let more : 128 - n ≡ suc free = omega (arith, le) in
    let within : ℕ → Command ((v : ℕ) × Answer (access v)) =
      λ value. Core.◌>>=◌ (plain (access value)) (λ answer. Core.pure (value, answer)) in
    Erases-eq free _
      (Core.◌>>=◌ (Core.◌>>=◌ (run argument) within) (λ (value, answer). run (next value answer))) _
      (λ p. simp bind_assoc)
      (Erases->>= free _ (Core.◌>>=◌ (run argument) within) _ _
        (Erases-located file line _ free (Core.◌>>=◌ (run argument) within) (omega arith) (
          Erases->>= (suc free) (run_traced format argument) (run argument) _ _
            (subst (λ r. Erases r (run_traced format argument) (run argument)) more
              (run_traced-Erases format n argument inner (omega (arith, le))))
            (λ value.
              answer-Erases format (suc free) value access (rest value).0 (omega (arith, le)))))
        (λ (value, answer).
          run_traced-Erases format (suc n) (next value answer) ((rest value).1 answer) le))

-- What is seen of an outcome: the result, the processor, the top of the locations, and the first `n`
-- lines that were printed.
abbrev pub observe : {A : Type 0} → ℕ → Outcome (A × Machine) → Outcome (A × Core × ℕ × List Line)
observe n o = and_then o (λ (a, m).
    done (a, m.core, m.trace.location_stack_top, drop (length m.trace.output - n) m.trace.output))

first_lines :
    (t : Trace) (new : List Line) (o : List Line)
    → o ≡ new ++ t.output
    → drop (length o - length t.output) o ≡ t.output
first_lines t new o e =
    let n : length o - length t.output ≡ length new =
      omega (arith, ap (λ l. length l) e, length-append {0} new t.output) in
    ap (λ k. drop k o) n ∙ ap (λ l. drop (length new) l) e ∙ drop-append new t.output

module _ {A : Type 0} (t : Trace) where
  abbrev beside : A × Core → Outcome (A × Core × ℕ × List Line)
  beside (a, p) = done (a, p, t.location_stack_top, t.output)

  observe-erase :
      (o : Outcome (A × Machine))
      → ((a : A) (m : Machine) → o ≡ done (a, m) → Follows t m.trace)
      → observe (length t.output) o ≡ and_then (erase o) beside
  observe-erase (done (a, m)) h =
      let follows = h a m refl in
      let (new, at) = follows.added in
      ap
        (λ top.
          done (a, m.core, top, drop (length m.trace.output - length t.output) m.trace.output))
        follows.top
      ∙ ap (λ lines. done (a, m.core, t.location_stack_top, lines))
          (first_lines t new m.trace.output at)
  observe-erase fault h = refl
  observe-erase exited h = refl
  observe-erase aborted h = refl

-- Any sequence of accesses to the processor, each in its location, with accesses in the arguments of
-- others to a depth of `n`; where a register is named, its number is below 18; a file is set for the
-- trace, and at most 128 - `n` locations are on the stack. In either format the processor ends as it
-- does without the trace calls, with the same result, and undefined in the same cases; what was printed
-- before stays, and all locations are left again.
pub run_traced-run :
    (format : Bool) (n : ℕ) (c : Client) (p : Core) (t : Trace)
    → Nests n c
    → n ≤ 128
    → HasRoom (128 - n) t
    → observe (length t.output) (run_traced format c (machine p t))
      ≡ and_then (run c p) (λ (a, p'). done (a, p', t.location_stack_top, t.output))
run_traced-run format n c p t nests le room =
    let erases = run_traced-Erases format n c nests le in
    observe-erase t (run_traced format c (machine p t)) (λ a m e. erases.follows p t a m room e)
    ∙ ap (λ o. and_then o (beside t)) (erases.same p t room)
