-- ===== src/Gdb/Packet.antt =====
-- The table of handlers of arm_simulator-1.4/gdb_protocol.c, and what it does with a packet that the
-- scanner has recognised.
use arm_processor_simulator.Base.{
  ℕ, zero, suc, ◌+◌, ◌-◌, Bool, true, Option, none, some, List, [], ◌∷◌, Outcome, done, fault, ltb,
  ◌==◌, if◌then◌else◌, update, drop, set,
}
use arm_processor_simulator.Util.{u8}
use arm_processor_simulator.Gdb.Text.{text_of, first, scan_hex, stored_value}
use arm_processor_simulator.Gdb.Words.{Orders}
use arm_processor_simulator.Gdb.State.{
  Action, pure, ◌>>=◌, ◌>>◌, lift, gdb_send_ack, gdb_send_data, gdb_require_retransmission,
}
use arm_processor_simulator.Gdb.Handlers.{
  value_of, kill_request, query, read_general_registers, read_memory, read_register, reason,
  set_thread, write_general_registers, write_memory_binary, write_register,
}
use arm_processor_simulator.Gdb.Run.{cont, step}

pub data Handler : Type 0 where
  on_cont on_kill_request on_query on_read_general_registers on_read_memory on_read_register :
      Handler
  on_reason on_set_thread on_step on_write_general_registers on_write_memory_binary : Handler
  on_write_register : Handler

-- The assignments of `gdb_init`, after the loop that sets every entry to NULL.
unfoldable pub handler : ℕ → Option Handler
handler =
    update
      (update
        (update
          (update
            (update
              (update
                (update
                  (update
                    (update
                      (update
                        (update (update (λ _. none) b'c' (some on_cont)) b'k'
                          (some on_kill_request))
                        b'q' (some on_query))
                      b'g' (some on_read_general_registers))
                    b'm' (some on_read_memory))
                  b'p' (some on_read_register))
                b'?' (some on_reason))
              b'H' (some on_set_thread))
            b's' (some on_step))
          b'G' (some on_write_general_registers))
        b'X' (some on_write_memory_binary))
      b'P' (some on_write_register)

abbrev and_return : Action (Unit {0}) → Action Bool
and_return m = m >> pure true

-- A call of a handler, true if it has returned.
unfoldable pub handle : ℕ → Orders → Handler → List ℕ → Action Bool
handle rounds o on_cont s = cont rounds
handle rounds o on_kill_request s = and_return kill_request
handle rounds o on_query s = and_return (query s)
handle rounds o on_read_general_registers s = and_return (read_general_registers o)
handle rounds o on_read_memory s = and_return (read_memory s)
handle rounds o on_read_register s = and_return (read_register o s)
handle rounds o on_reason s = and_return reason
handle rounds o on_set_thread s = and_return (set_thread s)
handle rounds o on_step s = and_return step
handle rounds o on_write_general_registers s = and_return (write_general_registers o s)
handle rounds o on_write_memory_binary s = and_return (write_memory_binary s)
handle rounds o on_write_register s = and_return (write_register o s)

-- The loop of the checksum over the packet: `rounds` bytes from the pointer on.
unfoldable pub check_loop : ℕ → ℕ → List ℕ → Outcome ℕ
check_loop zero check s = done check
check_loop (suc rounds) check [] = fault
check_loop (suc rounds) check (c ∷ cs) = check_loop rounds (u8 (check + c)) cs

-- A packet whose checksum is right, without its terminator and what follows.
unfoldable pub handle_packet : ℕ → Orders → List ℕ → Action Bool
handle_packet rounds o packet = do
  index ← lift (first (drop 1 packet))
  elim (handler index) [
    | none ↦ gdb_send_data [] >> pure true
    | some h ↦ handle rounds o h (drop 2 packet)
  ]

-- The packet with `i` at its place, after the loop.
unfoldable pub analyse : ℕ → Orders → List ℕ → ℕ → Action Bool
analyse rounds o packet i = do
  check ← lift (check_loop (i - 1) 0 (drop 1 packet))
  text ← lift (text_of (drop (i + 1) packet))
  number ← lift (stored_value (scan_hex text) none)
  given ← lift (value_of number)
  if check == given
      then (gdb_send_ack >> handle_packet rounds o (set packet i 0))
      else (gdb_require_retransmission >> pure true)

-- The array is the packet of `size` bytes with the terminator that the scanner puts behind it. The
-- loop leaves `i` at the place of `#`, or at 1 in a packet that is too short for one.
unfoldable pub gdb_packet_analysis : ℕ → Orders → List ℕ → ℕ → Action Bool
gdb_packet_analysis rounds o packet size =
    analyse rounds o packet (if ltb 4 size then size - 3 else 1)
