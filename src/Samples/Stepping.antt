-- ===== src/Samples/Stepping.antt =====
-- The theorems on exceptions and steps of the processor at the sample program.
use arm_processor_simulator.Base.{◌*◌, ◌^◌, ◌≡◌, refl, arith, bit_or, true, false, done}
use arm_processor_simulator.Util.{get_bit, get_bits}
use arm_processor_simulator.Constants.{abt, prefetch_abort}
use arm_processor_simulator.Core.{Core, ◌>>=◌}
use arm_processor_simulator.Core.Access.{fetched}
use arm_processor_simulator.Exception.{arm_exception, current}
use arm_processor_simulator.Exception.Entry.{IsEntered}
use arm_processor_simulator.Exception.Manual.{
  FollowsManual, manual, link_error, arm_exception-FollowsManual,
}
use arm_processor_simulator.Instruction.{dispatch, arm_decode_condition, arm_step}
use arm_processor_simulator.LoadStore.Addressing.{condition_holds}
use arm_processor_simulator.Instruction.Decode.{arm_decode_condition-condition_holds}
use arm_processor_simulator.Instruction.Step.{raise, arm_step_lem, arm_step-prefetch_abort}
use arm_processor_simulator.Samples.{core_at, core_at-HasMode, core_at-IsReady}

step_example : arm_step (core_at 0) ≡ (dispatch 0xE2800001 >>= raise) (fetched (core_at 0) 0)
unfolding get_bits condition_holds
step_example = arm_step_lem (core_at 0) 0 (core_at-IsReady 0 (omega arith) refl)

abort_example :
    (out : Core) × (arm_step (core_at 64) ≡ done (prefetch_abort, out))
    × IsEntered (fetched (core_at 64) 64) true abt false current 0xC out
abort_example =
    arm_step-prefetch_abort (core_at 64) 64 (core_at-IsReady 64 (omega arith) refl) (omega arith)
      (omega arith)

call_example :
    (out : Core) × (arm_exception 3 (core_at 8) ≡ done (tt, out))
    × FollowsManual (core_at 8) 8 (manual 2) (link_error 2) out
call_example =
    arm_exception-FollowsManual (core_at 8) 8 2 (core_at-HasMode 8) (omega arith) refl (omega arith)
      refl (omega arith)

decode_example : arm_decode_condition (bit_or (8 * 2 ^ 4) 0b0010) ≡ 1
unfolding get_bit condition_holds
decode_example = arm_decode_condition-condition_holds 8 0b0010 (omega arith) (omega arith)
