-- ===== src/Samples/Traced.antt =====
-- Instances for the trace of the accesses and of the state.
use arm_processor_simulator.Base.{◌≡◌, refl, done, length, arith, ◌>>=◌ as and_then, true}
use arm_processor_simulator.Core.{Core}
use arm_processor_simulator.Core.Print.{arm_print_state}
use arm_processor_simulator.Trace.{Trace, initial, set_trace_file, trace_add, stdout}
use arm_processor_simulator.Trace.Erasure.{machine}
use arm_processor_simulator.Trace.Follows.{HasRoom}
use arm_processor_simulator.Trace.Client.{run_traced}
use arm_processor_simulator.BranchOther as Plain
use arm_processor_simulator.Trace.Functions.{arm_branch, arm_miscellaneous, run_traced-plain}
use arm_processor_simulator.Trace.Unchanged.{observe}
use arm_processor_simulator.Trace.Print.{trace_arm_state}
use arm_processor_simulator.Trace.Quiet.{IsQuiet, after}
use arm_processor_simulator.Trace.State.{trace_arm_state_lem}
use arm_processor_simulator.Samples.{core_at}

abbrev core : Core
core = core_at 0

abbrev registers_traced : Trace
registers_traced = trace_add 3 (set_trace_file stdout initial)

room : HasRoom 126 registers_traced
unfolding trace_add set_trace_file
room = record { ready = refl; depth = omega arith; word = omega arith }

-- `BL` to the next word but one, and an MRS by its other bits.
functions_example :
    (observe
        (length registers_traced.output)
        (run_traced true (arm_branch 0xEB000000) (machine core registers_traced))
      ≡ and_then
          (Plain.arm_branch 0xEB000000 core)
          (λ (a, p'). done (a, p', registers_traced.location_stack_top, registers_traced.output)))
    × (observe
          (length registers_traced.output)
          (run_traced true (arm_miscellaneous 0xEB000000) (machine core registers_traced))
        ≡ and_then
            (Plain.arm_miscellaneous 0xEB000000 core)
            (λ (a, p'). done (a, p', registers_traced.location_stack_top, registers_traced.output)))
functions_example = run_traced-plain true 0xEB000000 core registers_traced room

abbrev state_traced : Trace
state_traced = trace_add 4 (set_trace_file stdout initial)

quiet : IsQuiet state_traced
unfolding trace_add set_trace_file
quiet = record { ready = refl; silent = refl }

state_example :
    trace_arm_state true (machine core state_traced) ≡ after state_traced (arm_print_state core)
unfolding trace_add set_trace_file
state_example = trace_arm_state_lem true core state_traced quiet
