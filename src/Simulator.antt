-- ===== src/Simulator.antt =====
-- arm_simulator-1.4/arm_simulator.c: the options, the start of the simulator, and what its threads do
-- to the processor. Sockets and threads are left out: the threads take turns by the lock, so that what
-- they do is a sequence of events.
pub mod Streams
pub mod Flags
pub mod Options
use arm_processor_simulator.Base.{
  ℕ, zero, suc, ◌+◌, ◌%◌, ◌^◌, Bool, true, false, Option, none, some, List, [], ◌∷◌, Outcome, done,
  fault, ◌>>=◌, ◌==◌, if◌then◌else◌,
}
use arm_processor_simulator.Util.{u8, u16}
use arm_processor_simulator.Memory.{memory_create}
use arm_processor_simulator.Core.{Core}
use arm_processor_simulator.Exception.{arm_create, arm_exception}
use arm_processor_simulator.Trace.{
  Trace, File, stdout, opened, initial, set_trace_file, trace_add, memory_flag, registers_flag,
  position_flag, state_flag,
}
use arm_processor_simulator.Debug.{Files, add_debug_to}
use arm_processor_simulator.Gdb.Text.{atoi}
use arm_processor_simulator.Gdb.State as State
use arm_processor_simulator.Gdb.State.{
  Gdb, Action, on_arm, gdb_transmit_packet, gdb_require_retransmission, gdb_init_data,
}
use arm_processor_simulator.Gdb.Words.{Orders}
use arm_processor_simulator.Gdb.Packet.{gdb_packet_analysis}

-- The variables of `main` and the globals that the options change. `trace_file` is none for stdout.
pub record Settings : Type 0 where
  pub gdb_port : ℕ
  pub irq_port : ℕ
  pub trace_file : Option (List ℕ)
  pub trace : Trace
  pub files : Files

-- The settings before the first option.
abbrev pub defaults : Settings
defaults = record {
  gdb_port = 0;
  irq_port = 0;
  trace_file = none;
  trace = initial;
  files = record { debugged_files = λ _. []; nb_debugged_files = 0 };
}

-- The program goes on, or ends with a status.
pub data Progress (A : Type 0) : Type 0 where
  going : A → Progress A
  ended : ℕ → Progress A

abbrev pub traced : ℕ → Settings → Outcome (Progress Settings)
traced flags s = done (going (record s { trace = trace_add flags s.trace }))

-- One result of `getopt_long` with its argument. `opens` is whether `fopen` succeeds.
unfoldable pub take_option :
    (opens : List ℕ → Bool) → ℕ × List ℕ → Settings → Outcome (Progress Settings)
take_option opens (opt, optarg) s =
    if opt == b'g'
    then atoi optarg >>= (λ port. done (going (record s { gdb_port = u16 port })))
    else if opt == b'i'
    then atoi optarg >>= (λ port. done (going (record s { irq_port = u16 port })))
    else if opt == b'h'
    then done (ended 0)
    else if opt == b't'
    then (if opens optarg
        then done (going (record s { trace_file = some optarg }))
        else done (ended 1))
    else if opt == b'r'
    then traced registers_flag s
    else if opt == b'm'
    then traced memory_flag s
    else if opt == b's'
    then traced state_flag s
    else if opt == b'p'
    then traced position_flag s
    else if opt == b'd'
    then add_debug_to s.files optarg >>= (λ files. done (going (record s { files = files })))
    else done (ended 1)

-- What is done next, where the program goes on.
abbrev pub follow : {A B : Type 0} → (A → Outcome (Progress B)) → Progress A → Outcome (Progress B)
follow k (going s) = k s
follow k (ended status) = done (ended status)

-- The loop over the options.
unfoldable pub take_options :
    (opens : List ℕ → Bool) → List (ℕ × List ℕ) → Settings → Outcome (Progress Settings)
take_options opens [] s = done (going s)
take_options opens (option ∷ options) s =
    take_option opens option s >>= follow (take_options opens options)

-- The file for the trace: `stdout`, or the one that was opened.
abbrev pub file_of : Option (List ℕ) → File
file_of none = stdout
file_of (some name) = opened name

abbrev pub with_file : Settings → Settings
with_file s = record s { trace = set_trace_file (file_of s.trace_file) s.trace }

-- The processor for the settings, where the program goes on.
abbrev pub create : Outcome Core → Progress Settings → Outcome (Progress (Settings × Core))
create arm (going s) = arm >>= λ p. done (going (with_file s, p))
create arm (ended status) = done (ended status)

-- `main` up to the start of the threads: the settings and the processor. `big` is whether
-- `BIG_ENDIAN_SIMULATOR` is defined; what the blocks of `malloc` hold comes with it.
unfoldable pub main :
    (opens : List ℕ → Bool) (big : Bool) (cells registers : ℕ → ℕ) (cycles : ℕ)
    → List (ℕ × List ℕ)
    → Outcome (Progress (Settings × Core))
main opens big cells registers cycles options =
    take_options opens options defaults
    >>= create (arm_create registers cycles (memory_create cells 0x20000 big))

-- What arrives: a byte of a sender of interrupts, a packet of the debugger with its length, its
-- request to send again, or characters that belong to no packet.
pub data Event : Type 0 where
  raised : ℕ → Event
  received : List ℕ → ℕ → Event
  again : Event
  dropped : Event

-- The body of the inner loop of `irq_listener`.
unfoldable pub take_irq : ℕ → Action (Unit {0})
take_irq byte = on_arm (arm_exception (u8 byte))

-- An event is handled before the next; true if no `cont` ran out of its rounds.
unfoldable pub serve : ℕ → Orders → Event → Action Bool
serve rounds o (raised byte) = State.◌>>◌ (take_irq byte) (State.pure true)
serve rounds o (received bytes size) = gdb_packet_analysis rounds o bytes size
serve rounds o again = State.◌>>◌ gdb_transmit_packet (State.pure true)
serve rounds o dropped = State.◌>>◌ gdb_require_retransmission (State.pure true)
