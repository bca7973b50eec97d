-- ===== src/Samples/Debugger.antt =====
-- The theorems on the packets of the debugger at the sample program.
use arm_processor_simulator.Base.{
  ℕ, ◌+◌, ◌<◌, ◌≤◌, ◌≡◌, ◌⊎◌, refl, arith, true, false, List, [], ◌∷◌, ◌++◌, done, ◌||◌, codes,
  ◌==◌, if◌then◌else◌,
}
use arm_processor_simulator.Core.Access.{fetched}
use arm_processor_simulator.Instruction.{arm_step}
use arm_processor_simulator.Instruction.Step.{IsReady, arm_step_lem}
use arm_processor_simulator.LoadStore.Addressing.{condition_holds}
use arm_processor_simulator.Util.{get_bits, get_bit}
use arm_processor_simulator.Memory.{Memory}
use arm_processor_simulator.Registers.{get_mode, read_cpsr}
use arm_processor_simulator.Core.{Core}
use arm_processor_simulator.Gdb.Text.{scan_hex, scan_digits, scan_pair}
use arm_processor_simulator.Gdb.Words.{Orders, read_uint32, write_uint32}
use arm_processor_simulator.Gdb.Run.{cont}
use arm_processor_simulator.Gdb.State.{
  stop_text, gdb_send_ack, gdb_send_buffer, gdb_transmit_packet, Gdb, gdb_init_data, frame, ◌>>◌,
  pure, gdb_send_data, gdb_send_stop_reason,
}
use arm_processor_simulator.Gdb.Handlers.{
  read_register, write_cells, read_cells, read_memory, reason,
}
use arm_processor_simulator.Gdb.Packet.{
  gdb_packet_analysis, analyse, check_loop, handle_packet, handle, handler,
}
use arm_processor_simulator.Gdb.Codec.{read_uint32-write_uint32}
use arm_processor_simulator.Gdb.Checksum.{gdb_packet_analysis_lem}
use arm_processor_simulator.Gdb.Register.{answer_register, read_register_lem}
use arm_processor_simulator.Gdb.Transfer.{encode, read_cells-write_cells, read_memory_lem}
use arm_processor_simulator.Gdb.Replies.{gdb_packet_analysis-Answers}
use arm_processor_simulator.Gdb.Continue.{Runs, stay, round, cont-Runs}
use arm_processor_simulator.Core.Access.{stored}
use arm_processor_simulator.Gdb.Handlers.{write_general_registers, read_general_registers}
use arm_processor_simulator.Gdb.General.{
  packet, answer, read_general_registers-write_general_registers,
}
use arm_processor_simulator.Samples.{core_at, core_at-HasMode, program_memory}

-- A little endian host that simulates a big endian target.
abbrev orders : Orders
orders = record { host_big = false; target_big = true }

abbrev session : Gdb
session = gdb_init_data (core_at 0)

packet_word_example :
    read_uint32 orders (write_uint32 orders 0x12345678 ++ 0 ∷ []) ≡ done 0x12345678
packet_word_example = read_uint32-write_uint32 orders 0x12345678 (0 ∷ []) (omega arith) refl

-- `?` with a checksum of 00 in place of 3f.
rejected_example :
    gdb_packet_analysis 8 orders (codes "$?#00" ++ 0 ∷ []) 5 session
    ≡ done (true, record session { sent = (b'-' ∷ []) ∷ session.sent })
unfolding scan_hex scan_digits gdb_init_data
rejected_example =
    gdb_packet_analysis_lem 8 orders session (codes "?") b'0' b'0' 0 [] [] refl refl refl

register_10_example :
    read_register orders (codes "a" ++ 0 ∷ []) session ≡ answer_register orders 0 session
register_10_example = read_register_lem orders 10 [] session (omega arith)

abbrev some_bytes : List ℕ
some_bytes = 0x23 ∷ 0x7D ∷ 0x01 ∷ []

cells_example :
    (mem' : Memory) × (write_cells 3 4 (encode some_bytes ++ b'#' ∷ []) program_memory
      ≡ done (true, mem'))
    × (read_cells 3 4 mem' ≡ done (codes "237d01"))
    × ((i : ℕ) → (i < 4) ⊎ (4 + 3 ≤ i) → mem'.values i ≡ program_memory.values i)
cells_example =
    read_cells-write_cells program_memory 4 some_bytes (b'#' ∷ []) (omega arith) (omega arith) refl

read_memory_example :
    read_memory (codes "0,4" ++ 0 ∷ []) session
    ≡ done (
      tt,
      record session {
        packet = frame (codes "010080e2");
        sent = frame (codes "010080e2") ∷ session.sent;
      },
    )
unfolding scan_pair scan_hex scan_digits gdb_init_data
read_memory_example =
    read_memory_lem (codes "0,4" ++ 0 ∷ []) (codes "0,4") 0 4 session refl refl (omega arith)
      (omega arith)

abbrev after_reason : Gdb
after_reason = record session {
  packet = frame (codes "S05");
  sent = frame (codes "S05") ∷ (b'+' ∷ []) ∷ [];
}

reply_example : (text : List ℕ) × (after_reason.sent ≡ frame text ∷ (b'+' ∷ []) ∷ session.sent)
unfolding handler scan_hex scan_digits gdb_packet_analysis analyse check_loop handle_packet handle
    reason gdb_send_stop_reason gdb_send_data gdb_send_buffer gdb_transmit_packet gdb_send_ack
    stop_text gdb_init_data
reply_example =
    gdb_packet_analysis-Answers 8 orders session after_reason b'?' [] [] true (omega arith)
      (omega arith) refl

-- A word at address 0 whose condition does not hold, and a breakpoint at 4.
abbrev broken_memory : Memory
broken_memory = record {
  values = λ a. if a == 4 || a == 6 then 0xF0 else if a == 7 then 0xE7 else 0;
  size = 32;
  is_big_endian = false;
}

abbrev broken_core : Core
broken_core = record (core_at 0) { mem = broken_memory }

broken_core-IsReady : IsReady broken_core 0
broken_core-IsReady = record {
  mode = core_at-HasMode 0;
  bytes = λ a. ground arith;
  words = omega arith;
  room = omega arith;
  at = refl;
  small = omega arith;
  aligned = refl;
}

abbrev broken : Gdb
broken = gdb_init_data broken_core

abbrev stepped : Gdb
stepped = gdb_init_data (fetched broken_core 0)

broken-skipped : arm_step broken_core ≡ done (0, fetched broken_core 0)
unfolding get_bits get_bit condition_holds
broken-skipped = arm_step_lem broken_core 0 broken_core-IsReady

stepped-IsReady : IsReady stepped.arm 4
unfolding get_mode read_cpsr get_bits gdb_init_data
stepped-IsReady = record {
  mode = refl;
  bytes = λ a. ground arith;
  words = omega arith;
  room = omega arith;
  at = refl;
  small = omega arith;
  aligned = refl;
}

broken-Runs : Runs 1 broken stepped
unfolding get_bits gdb_init_data
broken-Runs =
    round (fetched broken_core 0) 0 0 (record { ready = broken_core-IsReady; inside = omega arith })
      refl broken-skipped stay

continue_example : cont 2 broken ≡ (gdb_send_stop_reason >> pure true) stepped
unfolding get_bits gdb_init_data
continue_example =
    cont-Runs 2 1 broken stepped 4 broken-Runs
      (record { ready = stepped-IsReady; inside = omega arith }) refl (omega arith)

-- All registers are written with 8 and the status of the supervisor mode, and asked for.
registers_example :
    (p : Core) × ((write_general_registers orders (packet orders (λ _. 8) (λ _. 0) 0x13 [])
          >> read_general_registers orders)
        session
      ≡ (gdb_send_data (codes "OK") >> gdb_send_buffer (answer orders (λ _. 8) 0x13))
          (record session { arm = p }))
    × ((j : ℕ) → j < 16 → stored p j ≡ 8)
    × (read_cpsr p.reg ≡ 0x13)
    × (p.mem ≡ session.arm.mem)
unfolding get_mode read_cpsr get_bits gdb_init_data
registers_example =
    read_general_registers-write_general_registers orders (λ _. 8) (λ _. 0) 0x13 [] session
      (core_at-HasMode 0) refl (λ j. omega arith) (λ j. omega arith) (omega arith) refl
