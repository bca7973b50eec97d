-- ===== src/Trace.antt =====
-- arm_simulator-1.4/trace.c: what is printed of the accesses of the processor. A line that is printed
-- is its format with the values that it shows.
pub mod Locations
pub mod Accesses
pub mod Print
pub mod Follows
pub mod Erasure
pub mod EachAccess
pub mod Client
pub mod Unchanged
pub mod Functions
pub mod Quiet
pub mod Silent
pub mod State
use arm_processor_simulator.Base.{
  ℕ, zero, suc, ◌+◌, ◌-◌, ◌^◌, bit_and, bit_or, Bool, true, false, not, ◌&&◌, Option, none, some,
  List, [], ◌∷◌, ◌++◌, Outcome, done, fault, ◌>>=◌, ltb, ◌==◌, if◌then◌else◌, update, codes, to_int,
}
use arm_processor_simulator.Util.{u32, sub32}
use arm_processor_simulator.Core.Print.{Printed}
use arm_processor_simulator.Constants.Names.{Name, arm_get_mode_name, arm_get_register_name, entry}

abbrev pub memory_flag : ℕ
memory_flag = 1

abbrev pub registers_flag : ℕ
registers_flag = 2

abbrev pub state_flag : ℕ
state_flag = 4

abbrev pub position_flag : ℕ
position_flag = 8

-- A call of `fprintf` and its values.
pub data Line : Type 0 where
  position : List ℕ → ℕ → Line
  memory_code : List ℕ → List ℕ → ℕ → List ℕ → ℕ → ℕ → Line
  memory_text : ℕ → List ℕ → List ℕ → ℕ → List ℕ → ℕ → ℕ → Line
  register_code : List ℕ → List ℕ → List ℕ → ℕ → Line
  register_text : ℕ → List ℕ → List ℕ → List ℕ → ℕ → Line
  state_text : Printed → Line

-- The file that is printed to: none yet, `stdout`, or one that `main` has opened.
pub data File : Type 0 where
  unset : File
  stdout : File
  opened : List ℕ → File

abbrev pub is_set : File → Bool
is_set unset = false
is_set stdout = true
is_set (opened name) = true

-- `location_stack_top` is an `int`: -1 is 2 ^ 32 - 1. `file` is the variable `output`, and `output`
-- is what was printed, the last first.
pub record Trace : Type 0 where
  pub last_address : ℕ
  pub enabled : Bool
  pub location_file_stack : ℕ → List ℕ
  pub location_line_stack : ℕ → ℕ
  pub location_stack_top : ℕ
  pub trace_flags : ℕ
  pub file : File
  pub output : List Line

-- The state before the first call.
abbrev pub initial : Trace
initial = record {
  last_address = 0x12345678;
  enabled = true;
  location_file_stack = λ _. [];
  location_line_stack = λ _. 0;
  location_stack_top = 2 ^ 32 - 1;
  trace_flags = 0;
  file = unset;
  output = [];
}

-- The names of the accesses, by `ARM_TRACE_FORMAT`.
abbrev pub trace_memory_seq : Bool → List (List ℕ)
trace_memory_seq format = if format then codes "N" ∷ codes "S" ∷ [] else [] ∷ [] ∷ []

abbrev pub trace_memory_cause : Bool → List (List ℕ)
trace_memory_cause format = if format then codes "_" ∷ codes "O" ∷ [] else [] ∷ codes ", fetch" ∷ []

abbrev pub trace_memory_type : Bool → List (List ℕ)
trace_memory_type format =
    if format then codes "W" ∷ codes "R" ∷ [] else codes "write" ∷ codes "read" ∷ []

abbrev pub trace_register_type : Bool → List (List ℕ)
trace_register_type format =
    if format then codes "W" ∷ codes "R" ∷ [] else codes "write" ∷ codes "read" ∷ []

-- `fprintf` to a file that was never set is undefined.
abbrev pub print : Line → Trace → Outcome Trace
print line t = if is_set t.file then done (record t { output = line ∷ t.output }) else fault

unfoldable pub set_trace_file : File → Trace → Trace
set_trace_file f t = record t { file = f }

unfoldable pub trace_start_location : List ℕ → ℕ → Trace → Outcome Trace
trace_start_location file line t =
    let top = u32 (t.location_stack_top + 1) in
    if t.enabled
    then (if ltb top 128
        then done (record t {
          location_stack_top = top;
          location_file_stack = update t.location_file_stack top file;
          location_line_stack = update t.location_line_stack top line;
        })
        else fault)
    else done t

unfoldable pub trace_end_location : Trace → Trace
trace_end_location t =
    if t.enabled then record t { location_stack_top = sub32 t.location_stack_top 1 } else t

-- `trace_flags & flag`
abbrev pub has_flag : ℕ → Trace → Bool
has_flag flag t = not (bit_and t.trace_flags flag == 0)

unfoldable pub trace_print_location : Trace → Outcome Trace
trace_print_location t =
    let top = t.location_stack_top in
    if t.enabled && has_flag position_flag t && ltb top (2 ^ 31)
    then (if ltb top 128
        then print (position (t.location_file_stack top) (t.location_line_stack top)) t
        else fault)
    else done t

unfoldable pub trace_memory : Bool → ℕ → ℕ → ℕ → ℕ → ℕ → ℕ → Trace → Outcome Trace
trace_memory format cycle type size cause address value t =
    if t.enabled && has_flag memory_flag t
    then (do
      let seq = to_int (address == u32 (t.last_address + 4))
      seq_name ← entry (trace_memory_seq format) seq
      type_name ← entry (trace_memory_type format) type
      cause_name ← entry (trace_memory_cause format) cause
      let t' : Trace = record t { last_address = address }
      if format
          then print (memory_code seq_name type_name size cause_name address value) t'
          else (trace_print_location t' >>= λ t''.
              print (memory_text cycle seq_name type_name size cause_name address value) t''))
    else done t

-- `mode_name`: the name of the mode behind `_`, if it has one.
abbrev pub mode_text : Name → List ℕ
mode_text none = []
mode_text (some name) = b'_' ∷ name

unfoldable pub trace_register : Bool → ℕ → ℕ → ℕ → ℕ → ℕ → Trace → Outcome Trace
trace_register format cycle type reg mode value t =
    if t.enabled && has_flag registers_flag t
    then (do
      name ← arm_get_mode_name mode
      type_name ← entry (trace_register_type format) type
      register_name ← arm_get_register_name reg
      if format
          then print (register_code type_name register_name (mode_text name) value) t
          else (trace_print_location t >>= λ t'.
              print (register_text cycle type_name register_name (mode_text name) value) t'))
    else done t

unfoldable pub trace_disable : Trace → Trace
trace_disable t = record t { enabled = false }

unfoldable pub trace_enable : Trace → Trace
trace_enable t = record t { enabled = true }

unfoldable pub trace_add : ℕ → Trace → Trace
trace_add flags t = record t { trace_flags = bit_or t.trace_flags flags }
