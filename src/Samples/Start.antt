-- ===== src/Samples/Start.antt =====
-- The theorems on the simulator's start, its debugging output, and the sender of interrupts.
use arm_processor_simulator.Base.{
  ℕ, zero, suc, ◌≡◌, ◌≢◌, ◌↔◌, ◌⊎◌, refl, arith, true, false, some, List, [], ◌∷◌, done, codes,
  ◌==◌, if◌then◌else◌,
}
use arm_processor_simulator.Debug.{Files, is_debugged, add_debug_to}
use arm_processor_simulator.Debug.Order.{IsSorted, IsListed}
use arm_processor_simulator.Debug.Insert.{add_debug_to_lem}
use arm_processor_simulator.Debug.Search.{is_debugged_lem}
use arm_processor_simulator.Constants.Names.{arm_get_exception_name}
use arm_processor_simulator.Sender.{start, send, unknown_irq}
use arm_processor_simulator.Sender.Names.{start_lem}
use arm_processor_simulator.Simulator.Flags.{flags_for}
use arm_processor_simulator.Simulator.Options.{main-trace}
use arm_processor_simulator.Trace.Follows.{HasRoom}
use arm_processor_simulator.Trace.{initial, stdout, set_trace_file, trace_add}
use arm_processor_simulator.Memory.{Memory, memory_create}
use arm_processor_simulator.Core.{Core}
use arm_processor_simulator.Exception.{arm_create}
use arm_processor_simulator.Exception.Vectors.{arm_create-reset}
use arm_processor_simulator.Simulator.{main, take_options, take_option, Settings, defaults, going}

abbrev two_files : Files
two_files = record {
  debugged_files = λ i. if i == 0 then codes "arm_core.c" else codes "memory.c";
  nb_debugged_files = 2;
}

two_files-IsSorted : IsSorted two_files
unfolding IsSorted
two_files-IsSorted zero zero lt lt' = absurd (omega arith)
two_files-IsSorted (suc i) zero lt lt' = absurd (omega arith)
two_files-IsSorted (suc i) (suc zero) lt lt' = absurd (omega arith)
two_files-IsSorted zero (suc zero) lt lt' = refl
two_files-IsSorted i (suc (suc j)) lt lt' = absurd (omega arith)

debugged_example :
    (is_debugged two_files (codes "memory.c") ≡ true) ↔ IsListed two_files (codes "memory.c")
debugged_example = is_debugged_lem two_files (codes "memory.c") two_files-IsSorted

added_example :
    (f' : Files) × (add_debug_to two_files (codes "debug.c") ≡ done f')
    × IsSorted f'
    × (f'.nb_debugged_files ≡ 3)
    × ((x : List ℕ) → IsListed f' x ↔ (IsListed two_files x ⊎ (x ≡ codes "debug.c")))
added_example = add_debug_to_lem two_files (codes "debug.c") two_files-IsSorted (omega arith)

abbrev all_files : Files
all_files = record { debugged_files = λ i. codes "memory.c"; nb_debugged_files = 64 }

sender_example :
    ((k : ℕ)
      → (start (codes "host" ∷ codes "4000" ∷ codes "interrupt" ∷ []) ≡ done (send k))
        ↔ (arm_get_exception_name k ≡ done (some (codes "interrupt"))))
    × ((start (codes "host" ∷ codes "4000" ∷ codes "interrupt" ∷ []) ≡ done unknown_irq)
        ↔ ((k : ℕ) → arm_get_exception_name k ≢ done (some (codes "interrupt"))))
sender_example = start_lem (codes "host") (codes "4000") (codes "interrupt") []

-- The options of a simulator that traces the registers.
abbrev options : List (ℕ × List ℕ)
options = (b'r', []) ∷ []

abbrev settings : Settings
settings = record defaults { trace = set_trace_file stdout (trace_add 2 initial) }

abbrev memory : Memory
memory = memory_create (λ _. 0) 0x20000 false

created : (p : Core) × (arm_create (λ _. 0) 0 memory ≡ done p)
created = let reset = arm_create-reset (λ _. 0) 0 memory (omega arith) in (reset.0, reset.1)

begun : main (λ _. true) false (λ _. 0) (λ _. 0) 0 options ≡ done (going (settings, created.0))
unfolding main take_options take_option
begun = let e = created.1 in cc

settings_example :
    HasRoom 0 settings.trace
    × (settings.trace.enabled ≡ true)
    × (settings.trace.trace_flags ≡ flags_for false true false false)
settings_example = main-trace (λ _. true) false (λ _. 0) (λ _. 0) 0 options settings created.0 begun
