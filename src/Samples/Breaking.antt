-- ===== src/Samples/Breaking.antt =====
-- An instance with a breakpoint: a word whose condition does not hold, and the breakpoint behind it.
use arm_processor_simulator.Base.{
  ℕ, ◌<◌, ◌≤◌, ◌≡◌, ◌⊎◌, refl, done, arith, List, [], ◌∷◌, ◌++◌, codes, false, true,
}
use arm_processor_simulator.Util.{get_bits, get_bit}
use arm_processor_simulator.Memory.{Memory, memory_write_byte, memory_get_size, set_cell}
use arm_processor_simulator.Memory.Access.{word_at}
use arm_processor_simulator.Registers.{get_mode, read_cpsr}
use arm_processor_simulator.Core.{Core}
use arm_processor_simulator.Core.Access.{fetched}
use arm_processor_simulator.LoadStore.Addressing.{condition_holds}
use arm_processor_simulator.Instruction.{arm_step}
use arm_processor_simulator.Instruction.Step.{IsReady, arm_step_lem}
use arm_processor_simulator.Gdb.Text.{scan_hex, scan_digits, scan_pair}
use arm_processor_simulator.Gdb.State.{
  Gdb, gdb_init_data, pure, ◌>>◌, frame, gdb_send_data, gdb_send_buffer, gdb_transmit_packet,
  gdb_send_stop_reason,
}
use arm_processor_simulator.Gdb.Handlers.{write_memory_binary, write_at, write_cells, next_byte}
use arm_processor_simulator.Gdb.Run.{cont}
use arm_processor_simulator.Gdb.Transfer.{stored}
use arm_processor_simulator.Gdb.Continue.{Runs, stay, round}
use arm_processor_simulator.Gdb.Breakpoint.{breakpoint, breakpoint_bytes, breakpoint-Runs}
use arm_processor_simulator.Samples.{core_at, core_at-HasMode}

abbrev zero_memory : Memory
zero_memory = record { values = λ _. 0; size = 32; is_big_endian = false }

abbrev before : Gdb
before = gdb_init_data (record (core_at 0) { mem = zero_memory })

abbrev request : List ℕ
request = codes "4,4:" ++ 0xF0 ∷ 0x00 ∷ 0xF0 ∷ 0xE7 ∷ 0 ∷ []

abbrev armed_core : Core
armed_core = record (core_at 0) { mem = stored zero_memory 4 (breakpoint_bytes false) }

abbrev armed : Gdb
armed = record before {
  arm = armed_core;
  packet = frame (codes "OK");
  sent = frame (codes "OK") ∷ [];
}

abbrev reached : Gdb
reached = record armed { arm = fetched armed_core 0; target_exception = 0 }

request-written : write_memory_binary request before ≡ done (tt, armed)
unfolding scan_pair scan_hex scan_digits write_memory_binary write_at write_cells next_byte
    memory_write_byte memory_get_size set_cell gdb_send_data gdb_send_buffer gdb_transmit_packet
    gdb_init_data
request-written = refl

armed-IsReady : IsReady armed_core 0
armed-IsReady = record {
  mode = core_at-HasMode 0;
  bytes = λ a. ground arith;
  words = omega arith;
  room = omega arith;
  at = refl;
  small = omega arith;
  aligned = refl;
}

reached-IsReady : IsReady reached.arm 4
unfolding get_mode read_cpsr get_bits
reached-IsReady = record {
  mode = refl;
  bytes = λ a. ground arith;
  words = omega arith;
  room = omega arith;
  at = refl;
  small = omega arith;
  aligned = refl;
}

armed-skipped : arm_step armed_core ≡ done (0, fetched armed_core 0)
unfolding get_bits get_bit condition_holds
armed-skipped = arm_step_lem armed_core 0 armed-IsReady

armed-Runs : Runs 1 armed reached
unfolding get_bits
armed-Runs =
    round (fetched armed_core 0) 0 0 (record { ready = armed-IsReady; inside = omega arith }) refl
      armed-skipped stay

breakpoint_example :
    (armed ≡ record before {
      arm = record before.arm { mem = armed.arm.mem };
      packet = frame (codes "OK");
      sent = frame (codes "OK") ∷ before.sent;
    })
    × (word_at armed.arm.mem 4 ≡ breakpoint)
    × ((i : ℕ) → (i < 4) ⊎ (8 ≤ i) → armed.arm.mem.values i ≡ before.arm.mem.values i)
    × (armed.arm.mem.size ≡ before.arm.mem.size)
    × (armed.arm.mem.is_big_endian ≡ before.arm.mem.is_big_endian)
    × (cont 2 armed ≡ (gdb_send_stop_reason >> pure true) reached)
unfolding scan_pair scan_hex scan_digits gdb_init_data
breakpoint_example =
    breakpoint-Runs 2 1 4 request (codes "4,4:" ++ 0xF0 ∷ []) (0 ∷ []) before armed reached refl
      refl refl (omega arith) (omega arith) request-written armed-Runs reached-IsReady refl
      (omega arith)
