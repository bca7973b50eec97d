-- ===== src/Trace/Follows.antt =====
-- arm_simulator-1.4/trace.c: the calls of the trace return wherever a file is set and the stack of
-- locations is not overrun, and they only add lines.
use arm_processor_simulator.Base.{
  ℕ, zero, suc, ◌+◌, ◌^◌, ◌≤◌, ◌<◌, Bool, true, false, ◌&&◌, List, [], ◌∷◌, ◌++◌, ◌≡◌, refl, sym,
  ◌∙◌, ap, Outcome, done, ◌>>=◌, ltb, ◌==◌, if◌then◌else◌, length, Bool-cases, inl, inr, update,
  arith, if_true, if_false, subst, lt→ltb, to_int, append_assoc,
}
use arm_processor_simulator.Util.{u32, sub32}
use arm_processor_simulator.Constants.Names.{
  entry, arm_get_mode_name, arm_get_register_name, arm_register_names, arm_mode_names,
}
use arm_processor_simulator.Trace.{
  Trace, Line, print, is_set, has_flag, memory_flag, registers_flag, position_flag, position,
  memory_code, memory_text, register_code, register_text, mode_text, trace_start_location,
  trace_end_location, trace_print_location, trace_memory, trace_register, trace_memory_seq,
  trace_memory_cause, trace_memory_type, trace_register_type,
}

-- `t'` is `t` with lines added.
pub record Follows (t t' : Trace) : Type 0 where
  pub enabled : t'.enabled ≡ t.enabled
  pub flags : t'.trace_flags ≡ t.trace_flags
  pub file : t'.file ≡ t.file
  pub top : t'.location_stack_top ≡ t.location_stack_top
  pub added : (new : List Line) × (t'.output ≡ new ++ t.output)

pub Follows-refl : (t : Trace) → Follows t t
Follows-refl t = record {
  enabled = refl;
  flags = refl;
  file = refl;
  top = refl;
  added = ([], refl);
}

pub Follows-trans : (a b c : Trace) → Follows a b → Follows b c → Follows a c
Follows-trans a b c h k = record {
  enabled = k.enabled ∙ h.enabled;
  flags = k.flags ∙ h.flags;
  file = k.file ∙ h.file;
  top = k.top ∙ h.top;
  added = (
    k.added.0 ++ h.added.0,
    k.added.1
        ∙ ap (λ o. k.added.0 ++ o) h.added.1
        ∙ sym (append_assoc k.added.0 h.added.0 a.output),
  );
}

-- A file is set, and at most `room` locations are on the stack.
pub record HasRoom (room : ℕ) (t : Trace) : Type 0 where
  pub ready : is_set t.file ≡ true
  pub depth : u32 (t.location_stack_top + 1) ≤ room
  pub word : t.location_stack_top < 2 ^ 32

pub HasRoom-Follows : (room : ℕ) (t t' : Trace) → Follows t t' → HasRoom room t → HasRoom room t'
HasRoom-Follows room t t' f h = record {
  ready = ap is_set f.file ∙ h.ready;
  depth = omega (arith, f.top, h.depth);
  word = omega (arith, f.top, h.word);
}

-- The call returns, and only adds lines.
abbrev pub Adds : Trace → Outcome Trace → Type 0
Adds t m = (t' : Trace) × (m ≡ done t') × Follows t t'

pub Adds-done : (t : Trace) → Adds t (done t)
Adds-done t = (t, refl, Follows-refl t)

pub Adds-print :
    (t t' : Trace) (line : Line) → is_set t'.file ≡ true → Follows t t' → Adds t (print line t')
Adds-print t t' line ready f =
    let next : Trace = record t' { output = line ∷ t'.output } in
    (
      next,
      if_true (is_set t'.file) _ _ ready,
      Follows-trans t t' next f (record {
        enabled = refl;
        flags = refl;
        file = refl;
        top = refl;
        added = (line ∷ [], refl);
      }),
    )

pub Adds-if :
    (t : Trace) (b : Bool) (m n : Outcome Trace) → Adds t m → Adds t n → Adds t (if b then m else n)
Adds-if t true m n hm hn = hm
Adds-if t false m n hm hn = hn

entry-lt : {A : Type 0} (xs : List A) (i : ℕ) → i < length xs → (x : A) × (entry xs i ≡ done x)
entry-lt [] i lt = absurd (omega arith)
entry-lt (x ∷ xs) zero lt = (x, refl)
entry-lt (x ∷ xs) (suc i) lt = entry-lt xs i (omega arith)

Adds-eq : (t : Trace) (m n : Outcome Trace) → m ≡ n → Adds t n → Adds t m
Adds-eq t m n e (t', at, follows) = (t', e ∙ at, follows)

Adds-entry :
    {A : Type 0} (t : Trace) (xs : List A) (i : ℕ) (k : A → Outcome Trace)
    → i < length xs
    → ((x : A) → Adds t (k x))
    → Adds t (entry xs i >>= k)
Adds-entry t xs i k lt h =
    let (x, at) = entry-lt xs i lt in
    Adds-eq t (entry xs i >>= k) (k x) (ap (λ m. m >>= k) at) (h x)

Adds->>= :
    (t : Trace) (m : Outcome Trace) (k : Trace → Outcome Trace)
    → Adds t m
    → ((t' : Trace) → Follows t t' → Adds t (k t'))
    → Adds t (m >>= k)
Adds->>= t m k (t', at, follows) h =
    Adds-eq t (m >>= k) (k t') (ap (λ m. m >>= k) at) (h t' follows)

trace_print_location-Adds : (t : Trace) → HasRoom 128 t → Adds t (trace_print_location t)
unfolding trace_print_location
trace_print_location-Adds t h =
    let top = t.location_stack_top in
    let line = position (t.location_file_stack top) (t.location_line_stack top) in
    elim (Bool-cases (t.enabled && has_flag position_flag t && ltb top (2 ^ 31))) [
      | inl on ↦
          let inside : ltb top 128 ≡ true = ground arith in
          Adds-eq t (trace_print_location t) (print line t)
            (if_true _ _ _ on ∙ if_true (ltb top 128) _ _ inside)
            (Adds-print t t line h.ready (Follows-refl t))
      | inr off ↦ Adds-eq t (trace_print_location t) (done t) (if_false _ _ _ off) (Adds-done t)
    ]

-- The line of an access in one format, or its location and its line in the other.
Adds-formats :
    (format : Bool) (t t' : Trace) (code text : Line)
    → HasRoom 128 t'
    → Follows t t'
    → Adds t (if format then print code t' else (trace_print_location t' >>= λ t''. print text t''))
Adds-formats format t t' code text h f =
    Adds-if t format (print code t') (trace_print_location t' >>= print text)
      (Adds-print t t' code h.ready f)
      (let (t'', at, more) = trace_print_location-Adds t' h in
        Adds-eq t (trace_print_location t' >>= print text) (print text t'')
          (ap (λ m. m >>= print text) at)
          (Adds-print t t'' text (HasRoom-Follows 128 t' t'' more h).ready
            (Follows-trans t t' t'' f more)))

-- The tables of names have two entries in either format.
in_table :
    (format : Bool) (i : ℕ) (a b c d : List ℕ)
    → i < 2
    → i < length (if format then a ∷ b ∷ [] else c ∷ d ∷ [])
in_table true i a b c d lt = lt
in_table false i a b c d lt = lt

to_int_lt : (b : Bool) → to_int b < 2
to_int_lt true = omega arith
to_int_lt false = omega arith

-- A trace of the memory: its kind and its cause are 0 or 1.
pub trace_memory-Adds :
    (format : Bool) (cycle type size cause address value : ℕ) (t : Trace)
    → type < 2
    → cause < 2
    → HasRoom 128 t
    → Adds t (trace_memory format cycle type size cause address value t)
unfolding trace_memory
trace_memory-Adds format cycle type size cause address value t kind why h =
    let seq = to_int (address == u32 (t.last_address + 4)) in
    let t' : Trace = record t { last_address = address } in
    let same : Follows t t' = record {
      enabled = refl;
      flags = refl;
      file = refl;
      top = refl;
      added = ([], refl);
    } in
    Adds-if t (t.enabled && has_flag memory_flag t) _ _
      (Adds-entry t (trace_memory_seq format) seq _
        (in_table format seq _ _ _ _ (to_int_lt (address == u32 (t.last_address + 4))))
        (λ seq_name.
          Adds-entry t (trace_memory_type format) type _ (in_table format type _ _ _ _ kind)
            (λ type_name.
              Adds-entry t (trace_memory_cause format) cause _ (in_table format cause _ _ _ _ why)
                (λ cause_name.
                  Adds-formats format t t'
                    (memory_code seq_name type_name size cause_name address value)
                    (memory_text cycle seq_name type_name size cause_name address value)
                    (HasRoom-Follows 128 t t' same h) same))))
      (Adds-done t)

-- A trace of a register that has a name.
pub trace_register-Adds :
    (format : Bool) (cycle type reg mode value : ℕ) (t : Trace)
    → type < 2
    → reg < 18
    → mode < 32
    → HasRoom 128 t
    → Adds t (trace_register format cycle type reg mode value t)
unfolding trace_register arm_get_mode_name arm_get_register_name
trace_register-Adds format cycle type reg mode value t kind named known h =
    Adds-if t (t.enabled && has_flag registers_flag t) _ _
      (Adds-entry t arm_mode_names mode _ known (λ name.
        Adds-entry t (trace_register_type format) type _ (in_table format type _ _ _ _ kind)
          (λ type_name. Adds-entry t arm_register_names reg _ named (λ register_name.
            Adds-formats format t t (register_code type_name register_name (mode_text name) value)
              (register_text cycle type_name register_name (mode_text name) value) h
              (Follows-refl t)))))
      (Adds-done t)

-- What a location that is entered leaves: at most one more on the stack, and as before once it is left.
pub record Entered (free : ℕ) (t t' : Trace) : Type 0 where
  pub room : HasRoom (suc free) t'
  pub leaves : (t'' : Trace) → Follows t' t'' → Follows t (trace_end_location t'')

start-off :
    (file : List ℕ) (line free : ℕ) (t : Trace)
    → t.enabled ≡ false
    → free ≤ 127
    → HasRoom free t
    → (t' : Trace) × (trace_start_location file line t ≡ done t') × Entered free t t'
unfolding trace_start_location trace_end_location
start-off file line free t off le h = (
  t,
  if_false t.enabled _ _ off,
  record {
    room = record { ready = h.ready; depth = omega (arith, h.depth); word = h.word };
    leaves = λ t'' f.
        subst (Follows t)
          (sym (
            if_false t''.enabled
              (record t'' { location_stack_top = sub32 t''.location_stack_top 1 }) t''
              (f.enabled ∙ off)))
          f;
  },
)

start-on :
    (file : List ℕ) (line free : ℕ) (t : Trace)
    → t.enabled ≡ true
    → free ≤ 127
    → HasRoom free t
    → (t' : Trace) × (trace_start_location file line t ≡ done t') × Entered free t t'
unfolding trace_start_location trace_end_location
start-on file line free t on le h =
    let top = u32 (t.location_stack_top + 1) in
    let t' : Trace = record t {
      location_stack_top = top;
      location_file_stack = update t.location_file_stack top file;
      location_line_stack = update t.location_line_stack top line;
    } in
    (
      t',
      if_true t.enabled _ _ on
          ∙ if_true (ltb top 128) _ _ (lt→ltb top 128 (omega (arith, h.depth))),
      record {
        room = record { ready = h.ready; depth = omega (arith, h.depth); word = omega arith };
        leaves = λ t'' f.
            let left : Trace = record t'' { location_stack_top = sub32 t''.location_stack_top 1 } in
            subst (Follows t) (sym (if_true t''.enabled left t'' (f.enabled ∙ on))) (record {
              enabled = f.enabled;
              flags = f.flags;
              file = f.file;
              top = omega (arith, f.top, h.word);
              added = f.added;
            });
      },
    )

-- A location where at most `free` are on the stack, and fewer than 128.
pub trace_start_location-Entered :
    (file : List ℕ) (line free : ℕ) (t : Trace)
    → free ≤ 127
    → HasRoom free t
    → (t' : Trace) × (trace_start_location file line t ≡ done t') × Entered free t t'
trace_start_location-Entered file line free t le h = elim (Bool-cases t.enabled) [
  | inl on ↦ start-on file line free t on le h
  | inr off ↦ start-off file line free t off le h
]
