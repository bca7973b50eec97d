-- ===== src/Gdb/State.antt =====
-- The state of arm_simulator-1.4/gdb_protocol.c and what it sends. `gdb->mem` and the memory of
-- `gdb->arm` are the same object, as arm_simulator.c creates them, and so are they here.
use arm_processor_simulator.Base.{
  ℕ, ◌+◌, Bool, false, List, [], ◌∷◌, ◌++◌, Outcome, done, fault, exited, aborted, leb, ◌==◌,
  if◌then◌else◌, length, codes, ◌>>=◌ as and_then, ◌||◌,
}
use arm_processor_simulator.Util.{u8}
use arm_processor_simulator.Constants.{undefined_instruction, prefetch_abort, data_abort}
use arm_processor_simulator.Core.{Core, Command}
use arm_processor_simulator.Gdb.Text.{hex_byte}

abbrev pub max_packet_size : ℕ
max_packet_size = 1024

-- `sent` is what was written to the socket, one entry for each write, the last first; `is_shut` is
-- whether the socket was shut down; `packet` is the first `len` bytes of the buffer.
pub record Gdb : Type 0 where
  pub arm : Core
  pub target_exception : ℕ
  pub packet : List ℕ
  pub sent : List (List ℕ)
  pub is_shut : Bool

-- The packet buffer holds nothing yet.
unfoldable pub gdb_init_data : Core → Gdb
gdb_init_data arm = record {
  arm = arm;
  target_exception = 0;
  packet = [];
  sent = [];
  is_shut = false;
}

abbrev pub Action : Type 0 → Type 0
Action A = Gdb → Outcome (A × Gdb)

abbrev pub pure : {A : Type 0} → A → Action A
pure a g = done (a, g)

infixl 5 ◌>>=◌ ◌>>◌
abbrev pub ◌>>=◌ : {A B : Type 0} → Action A → (A → Action B) → Action B
◌>>=◌ m k g = and_then (m g) (λ (a, g'). k a g')

abbrev pub ◌>>◌ : {B : Type 0} → Action (Unit {0}) → Action B → Action B
m >> k = m >>= λ _. k

-- A value that may be undefined.
abbrev pub lift : {A : Type 0} → Outcome A → Action A
lift m g = and_then m (λ a. done (a, g))

-- A call on `gdb->arm`.
abbrev pub on_arm : {A : Type 0} → Command A → Action A
on_arm m g = and_then (m g.arm) (λ (a, arm). done (a, record g { arm = arm }))

-- `assert(test)`
abbrev pub assert : Bool → Action (Unit {0})
assert test g = if test then done (tt, g) else aborted

-- `Rio_writen`. A write to a socket that was shut down fails, and csapp.c ends the process; another one
-- is taken to succeed.
abbrev pub write_out : List ℕ → Action (Unit {0})
write_out bytes g = if g.is_shut then exited else done (tt, record g { sent = bytes ∷ g.sent })

unfoldable pub gdb_send_ack : Action (Unit {0})
gdb_send_ack = write_out (b'+' ∷ [])

unfoldable pub gdb_require_retransmission : Action (Unit {0})
gdb_require_retransmission = write_out (b'-' ∷ [])

unfoldable pub gdb_transmit_packet : Action (Unit {0})
gdb_transmit_packet g = write_out g.packet g

-- The loop over the text: `check` on `unsigned char`.
abbrev pub checksum_from : ℕ → List ℕ → ℕ
checksum_from check [] = check
checksum_from check (c ∷ cs) = checksum_from (u8 (check + c)) cs

abbrev pub checksum : List ℕ → ℕ
checksum text = checksum_from 0 text

-- The packet around a text: `$`, the text, `#`, and the checksum.
abbrev pub frame : List ℕ → List ℕ
frame text = b'$' ∷ (text ++ b'#' ∷ hex_byte (checksum text))

-- The text stands in the buffer. The frame and its terminator must fit into the array.
unfoldable pub gdb_send_buffer : List ℕ → Action (Unit {0})
gdb_send_buffer text g =
    if leb (length text + 5) max_packet_size
    then gdb_transmit_packet (record g { packet = frame text })
    else fault

unfoldable pub gdb_send_data : List ℕ → Action (Unit {0})
gdb_send_data text = gdb_send_buffer text

-- The text for the exception.
unfoldable pub stop_text : ℕ → List ℕ
stop_text exception =
    if exception == undefined_instruction
    then codes "S04"
    else if exception == prefetch_abort || exception == data_abort
    then codes "S10"
    else codes "S05"

unfoldable pub gdb_send_stop_reason : Action (Unit {0})
gdb_send_stop_reason g = gdb_send_data (stop_text g.target_exception) g
