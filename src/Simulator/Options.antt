-- ===== src/Simulator/Options.antt =====
-- arm_simulator-1.4/arm_simulator.c: the trace that the options lead to.
use arm_processor_simulator.Base.{
  ℕ, bit_or, Bool, true, false, ◌||◌, List, [], ◌∷◌, ◌≡◌, refl, ap, ◌∙◌, Outcome, done, >>=-eq-done,
  ◌==◌, arith, Option, none, some,
}
use arm_processor_simulator.Util.{u16}
use arm_processor_simulator.Memory.{Memory, memory_create}
use arm_processor_simulator.Core.{Core}
use arm_processor_simulator.Exception.{arm_create}
use arm_processor_simulator.Trace.{
  Trace, initial, is_set, trace_add, set_trace_file, memory_flag, registers_flag, state_flag,
  position_flag,
}
use arm_processor_simulator.Trace.Follows.{HasRoom}
use arm_processor_simulator.Debug.{add_debug_to}
use arm_processor_simulator.Gdb.Text.{atoi}
use arm_processor_simulator.Simulator.{
  Settings, defaults, Progress, going, ended, take_option, take_options, create, main, with_file,
  file_of, traced, follow,
}
use arm_processor_simulator.Simulator.Flags.{
  is_asked, flags_for, or_memory, or_registers, or_state, or_position, Leaves, Leaves-going,
  Leaves-ended, Leaves->>=, Leaves-if, Leaves-eq,
}

-- The trace before its file is set, with the flags of these kinds.
abbrev asked_trace : Bool → Bool → Bool → Bool → Trace
asked_trace m r s p = record initial { trace_flags = flags_for m r s p }

module _ (opt : ℕ) (s : Settings) (m r st p : Bool) (at : s.trace ≡ asked_trace m r st p) where
  -- The trace that the option leads to.
  abbrev next_trace : Trace
  next_trace =
      asked_trace (opt == b'm' || m) (opt == b'r' || r) (opt == b's' || st) (opt == b'p' || p)

  -- An option that is no trace option leaves the trace.
  unchanged :
      (opt == b'm') ≡ false
      → (opt == b'r') ≡ false
      → (opt == b's') ≡ false
      → (opt == b'p') ≡ false
      → s.trace ≡ next_trace
  unchanged hm hr hs hp = at ∙ cc

  same_flags :
      (m' r' st' p' : Bool)
      → m' ≡ (opt == b'm' || m)
      → r' ≡ (opt == b'r' || r)
      → st' ≡ (opt == b's' || st)
      → p' ≡ (opt == b'p' || p)
      → asked_trace m' r' st' p' ≡ next_trace
  same_flags m' r' st' p' hm hr hs hp = cc

  flagged :
      (flag : ℕ) (m' r' st' p' : Bool)
      → bit_or (flags_for m r st p) flag ≡ flags_for m' r' st' p'
      → asked_trace m' r' st' p' ≡ next_trace
      → Leaves next_trace (traced flag s)
  unfolding trace_add
  flagged flag m' r' st' p' e same =
      let step : trace_add flag s.trace ≡ next_trace =
        ap (trace_add flag) at ∙ ap (λ v. record initial { trace_flags = v }) e ∙ same in
      Leaves-eq (trace_add flag s.trace) next_trace (traced flag s) step
        (Leaves-going (record s { trace = trace_add flag s.trace }))

  take_option-Leaves :
      (opens : List ℕ → Bool) (optarg : List ℕ)
      → Leaves next_trace (take_option opens (opt, optarg) s)
  unfolding take_option
  take_option-Leaves opens optarg =
      Leaves-if next_trace (opt == b'g') _ _
        (λ h. Leaves->>= next_trace (atoi optarg) _ (λ port.
          Leaves-eq s.trace next_trace _
            (unchanged (ground arith) (ground arith) (ground arith) (ground arith))
            (Leaves-going (record s { gdb_port = u16 port }))))
        (λ _.
          Leaves-if next_trace (opt == b'i') _ _
            (λ h. Leaves->>= next_trace (atoi optarg) _ (λ port.
              Leaves-eq s.trace next_trace _
                (unchanged (ground arith) (ground arith) (ground arith) (ground arith))
                (Leaves-going (record s { irq_port = u16 port }))))
            (λ _.
              Leaves-if next_trace (opt == b'h') _ _ (λ _. Leaves-ended next_trace 0)
                (λ _.
                  Leaves-if next_trace (opt == b't') _ _
                    (λ h.
                      Leaves-if next_trace (opens optarg) _ _
                        (λ _.
                          Leaves-eq s.trace next_trace _
                            (unchanged (ground arith) (ground arith) (ground arith) (ground arith))
                            (Leaves-going (record s { trace_file = some optarg })))
                        (λ _. Leaves-ended next_trace 1))
                    (λ _.
                      Leaves-if next_trace (opt == b'r') _ _
                        (λ h. flagged registers_flag m true st p (or_registers m r st p) (
                          same_flags m true st p (ground arith) (ground arith) (ground arith)
                            (ground arith)))
                        (λ _.
                          Leaves-if next_trace (opt == b'm') _ _
                            (λ h. flagged memory_flag true r st p (or_memory m r st p) (
                              same_flags true r st p (ground arith) (ground arith) (ground arith)
                                (ground arith)))
                            (λ _.
                              Leaves-if next_trace (opt == b's') _ _
                                (λ h. flagged state_flag m r true p (or_state m r st p) (
                                  same_flags m r true p (ground arith) (ground arith) (ground arith)
                                    (ground arith)))
                                (λ _.
                                  Leaves-if next_trace (opt == b'p') _ _
                                    (λ h. flagged position_flag m r st true (or_position m r st p) (
                                      same_flags m r st true (ground arith) (ground arith)
                                        (ground arith) (ground arith)))
                                    (λ _.
                                      Leaves-if next_trace (opt == b'd') _ _
                                        (λ h.
                                          Leaves->>= next_trace (add_debug_to s.files optarg) _
                                            (λ files.
                                              Leaves-eq s.trace next_trace _
                                                (unchanged (ground arith) (ground arith)
                                                  (ground arith) (ground arith))
                                                (Leaves-going (record s { files = files }))))
                                        (λ _. Leaves-ended next_trace 1)))))))))

or_swap : (a b c : Bool) → (a || (b || c)) ≡ ((b || a) || c)
or_swap true true c = refl
or_swap true false c = refl
or_swap false true c = refl
or_swap false false c = refl

Leaves-follow :
    (t : Trace) (m : Outcome (Progress Settings)) (k : Settings → Outcome (Progress Settings))
    → ((s : Settings) → m ≡ done (going s) → Leaves t (k s))
    → (progress : Progress Settings) → m ≡ done progress
    → Leaves t (follow k progress)
Leaves-follow t m k h (going s) at = h s at
Leaves-follow t m k h (ended status) at = Leaves-ended t status

later :
    {m m' r r' s s' p p' : Bool}
    → m ≡ m'
    → r ≡ r'
    → s ≡ s'
    → p ≡ p'
    → asked_trace m r s p ≡ asked_trace m' r' s' p'
later hm hr hs hp = cc

-- The loop over the options, from a trace that some were asked for.
take_options-trace :
    (opens : List ℕ → Bool) (options : List (ℕ × List ℕ)) (s : Settings) (m r st p : Bool)
    → s.trace ≡ asked_trace m r st p
    → Leaves
        (asked_trace
          (is_asked b'm' options || m)
          (is_asked b'r' options || r)
          (is_asked b's' options || st)
          (is_asked b'p' options || p))
        (take_options opens options s)
unfolding take_options Leaves
take_options-trace opens [] s m r st p at s' e =
    Leaves-eq s.trace _ (done (going s)) at (Leaves-going s) s' e
take_options-trace opens ((opt, optarg) ∷ options) s m r st p at s' e =
    let (progress, first, last) =
      >>=-eq-done (take_option opens (opt, optarg) s) (follow (take_options opens options)) e in
    Leaves-follow _ (take_option opens (opt, optarg) s) (take_options opens options)
      (λ s1 one.
        take_options-trace opens options s1 _ _ _ _
          (take_option-Leaves opt s m r st p at opens optarg s1 one))
      progress first s' last
    ∙ later (or_swap (is_asked b'm' options) (opt == b'm') m)
        (or_swap (is_asked b'r' options) (opt == b'r') r)
        (or_swap (is_asked b's' options) (opt == b's') st)
        (or_swap (is_asked b'p' options) (opt == b'p') p)

create-going :
    (arm : Outcome Core) (progress : Progress Settings) (s : Settings) (p : Core)
    → create arm progress ≡ done (going (s, p))
    → (s' : Settings) × (progress ≡ going s') × (s ≡ with_file s')
create-going arm (going s') s p h =
    let (p', first, last) = >>=-eq-done arm (λ p. done (going (with_file s', p))) h in
    (s', refl, cc)
create-going arm (ended status) s p h = absurd cc

is_set-file_of : (name : Option (List ℕ)) → is_set (file_of name) ≡ true
is_set-file_of none = refl
is_set-file_of (some name) = refl

or_none : (b : Bool) → (b || false) ≡ b
or_none true = refl
or_none false = refl

abbrev asked_for : List (ℕ × List ℕ) → Trace
asked_for options =
    asked_trace (is_asked b'm' options) (is_asked b'r' options) (is_asked b's' options)
      (is_asked b'p' options)

-- The trace with which the simulator starts, wherever the options let it: a file is set, it is enabled,
-- no location is entered, and exactly the kinds of trace that an option asks for are on.
pub main-trace :
    (opens : List ℕ → Bool) (big : Bool) (cells registers : ℕ → ℕ) (cycles : ℕ)
    (options : List (ℕ × List ℕ)) (s : Settings) (p : Core)
    → main opens big cells registers cycles options ≡ done (going (s, p))
    → HasRoom 0 s.trace
      × (s.trace.enabled ≡ true)
      × (s.trace.trace_flags
          ≡ flags_for
              (is_asked b'm' options)
              (is_asked b'r' options)
              (is_asked b's' options)
              (is_asked b'p' options))
unfolding main set_trace_file Leaves
main-trace opens big cells registers cycles options s p h =
    let mem : Memory = memory_create cells 0x20000 big in
    let (progress, first, last) =
      >>=-eq-done (take_options opens options defaults) (create (arm_create registers cycles mem))
        h in
    let (s', go, at) = create-going (arm_create registers cycles mem) progress s p last in
    let there : s'.trace ≡ asked_for options =
      take_options-trace opens options defaults false false false false refl s'
        (first ∙ ap (λ x. done x) go)
      ∙ later (or_none (is_asked b'm' options)) (or_none (is_asked b'r' options))
          (or_none (is_asked b's' options)) (or_none (is_asked b'p' options)) in
    let final : s.trace ≡ set_trace_file (file_of s'.trace_file) (asked_for options) =
      ap (λ x. x.trace) at ∙ ap (set_trace_file (file_of s'.trace_file)) there in
    (
      record {
        ready = ap (λ t. is_set t.file) final ∙ is_set-file_of s'.trace_file;
        depth = omega (arith, ap (λ t. t.location_stack_top) final);
        word = omega (arith, ap (λ t. t.location_stack_top) final);
      },
      ap (λ t. t.enabled) final,
      ap (λ t. t.trace_flags) final,
    )
