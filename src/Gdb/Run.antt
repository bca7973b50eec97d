-- ===== src/Gdb/Run.antt =====
-- The handlers of arm_simulator-1.4/gdb_protocol.c that run the processor. `cont` waits for a
-- breakpoint, which may never come: it is given a number of rounds, and tells whether they were enough.
-- They stand over Core, without trace calls: trace_disable, trace_enable and the trace_arm_state after
-- each instruction are left out.
use arm_processor_simulator.Base.{
  ℕ, zero, suc, bit_and, Bool, true, false, Option, none, some, done, ◌>>=◌ as and_then, ◌==◌,
  if◌then◌else◌,
}
use arm_processor_simulator.Util.{sub32}
use arm_processor_simulator.Core.{Command, arm_read_register, arm_read_word}
use arm_processor_simulator.Instruction.{arm_step}
use arm_processor_simulator.LoadStore.Transfer.{assigned}
use arm_processor_simulator.Gdb.State.{
  Action, pure, ◌>>=◌, ◌>>◌, lift, on_arm, gdb_send_stop_reason,
}
use arm_processor_simulator.Gdb.Handlers.{value_of}

-- `gdb->target_exception = arm_step(gdb->arm)`
unfoldable pub step_target : Action (Unit {0})
step_target g =
    and_then (arm_step g.arm)
      (λ (result, arm). done (tt, record g { arm = arm; target_exception = result }))

unfoldable pub step : Action (Unit {0})
step = do step_target; gdb_send_stop_reason

-- `case 0xE7F000F0` of the masked instruction.
abbrev pub is_breakpoint : ℕ → Bool
is_breakpoint instruction = bit_and instruction 0xFFF000F0 == 0xE7F000F0

-- The instruction that comes next; a read that fails leaves the variable as it was.
unfoldable pub next_instruction : Option ℕ → Command (Option ℕ)
next_instruction old p = and_then (arm_read_register 15 p) (λ (seen, p').
    and_then (arm_read_word (sub32 seen 4) p') (λ (read, p''). done (assigned read old, p'')))

-- The loop of `cont`, true if it has ended.
unfoldable pub cont_loop : ℕ → Option ℕ → Action Bool
cont_loop zero old g = done (false, g)
cont_loop (suc rounds) old g =
    (do
      read ← on_arm (next_instruction old)
      instruction ← lift (value_of read)
      elim (is_breakpoint instruction) [
        | true ↦ pure true
        | false ↦ step_target >> cont_loop rounds (some instruction)
      ])
      g

unfoldable pub cont : ℕ → Action Bool
cont rounds = do
  ended ← cont_loop rounds none
  if ended then (do gdb_send_stop_reason; pure true) else pure false
