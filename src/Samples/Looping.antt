-- ===== src/Samples/Looping.antt =====
-- Instances on branches, and on what the debugger does beside the trace.
use arm_processor_simulator.Base.{
  ℕ, ◌<◌, ◌≡◌, ◌≢◌, ◌&&◌, ◌==◌, ◌%◌, refl, done, arith, if◌then◌else◌, none, codes, false, true,
}
use arm_processor_simulator.Util.{get_bits, get_bit}
use arm_processor_simulator.Constants.{pc, lr}
use arm_processor_simulator.Registers.Bank.{bank}
use arm_processor_simulator.Memory.{Memory}
use arm_processor_simulator.Core.{Core}
use arm_processor_simulator.Core.Access.{mode_of, stored}
use arm_processor_simulator.LoadStore.Addressing.{condition_holds}
use arm_processor_simulator.Instruction.{arm_step}
use arm_processor_simulator.Instruction.Step.{IsReady}
use arm_processor_simulator.Instruction.Branch.{IsBranch, arm_step-branch}
use arm_processor_simulator.Gdb.Words.{Orders}
use arm_processor_simulator.Gdb.State.{Gdb, gdb_init_data, on_arm}
use arm_processor_simulator.Gdb.Run as Run
use arm_processor_simulator.Gdb.Run.{cont}
use arm_processor_simulator.Gdb.Loop.{Spins, cont-Spins}
use arm_processor_simulator.Gdb.Handlers as H
use arm_processor_simulator.Gdb.Traced as T
use arm_processor_simulator.Gdb.Hidden.{Hides}
use arm_processor_simulator.Gdb.Untraced.{handlers-Hides}
use arm_processor_simulator.Samples.{core_at, core_at-HasMode}

-- `B .` at address 0, and `BL` to 16 at address 4.
abbrev busy_memory : Memory
busy_memory = record {
  values = λ a.
      if a == 0
      then 0xFE
      else if a == 1
      then 0xFF
      else if a == 2
      then 0xFF
      else if a == 3
      then 0xEA
      else if a == 4
      then 0x01
      else if a == 7
      then 0xEB
      else 0;
  size = 32;
  is_big_endian = false;
}

abbrev busy_at : ℕ → Core
busy_at a = record (core_at a) { mem = busy_memory }

busy_at-IsReady : (a : ℕ) → a < 9 → a % 4 ≡ 0 → IsReady (busy_at a) a
busy_at-IsReady a small aligned = record {
  mode = core_at-HasMode a;
  bytes = λ i. ground arith;
  words = omega arith;
  room = omega arith;
  at = refl;
  small = omega arith;
  aligned = aligned;
}

busy-IsBranch : IsBranch (busy_at 4) 4
unfolding get_bits condition_holds
busy-IsBranch = record { inside = omega arith; class = refl; sometimes = omega arith; met = refl }

branch_step_example :
    (out : Core) × (arm_step (busy_at 4) ≡ done (0, out))
    × IsReady out 16
    × (stored out lr ≡ 8)
    × ((i : ℕ)
        → i ≢ pc
        → (true && i == bank (mode_of (busy_at 4)) lr) ≡ false
        → out.reg.registers i ≡ (busy_at 4).reg.registers i)
    × (mode_of out ≡ mode_of (busy_at 4))
    × (out.mem ≡ busy_memory)
    × (out.cycle_count ≡ 8)
unfolding get_bit
branch_step_example =
    arm_step-branch (busy_at 4) 4 (busy_at-IsReady 4 (omega arith) refl) busy-IsBranch

abbrev busy : Gdb
busy = gdb_init_data (busy_at 0)

busy-Spins : Spins busy.arm 0
unfolding gdb_init_data
busy-Spins = record {
  ready = busy_at-IsReady 0 (omega arith) refl;
  inside = omega arith;
  word = refl;
}

spin_example :
    (p : Core) × (exception : ℕ) × (cont 1000 busy
      ≡ done (false, record busy { arm = p; target_exception = exception }))
    × Spins p 0
    × (p.mem ≡ busy.arm.mem)
    × (p.cycle_count ≡ 1007)
unfolding gdb_init_data
spin_example = cont-Spins 1000 busy 0 busy-Spins (omega arith)

abbrev orders : Orders
orders = record { host_big = false; target_big = true }

hidden_example :
    Hides (T.read_general_registers true orders) (H.read_general_registers orders)
    × Hides
        (T.write_general_registers true orders (codes "a"))
        (H.write_general_registers orders (codes "a"))
    × Hides (T.read_register true orders (codes "a")) (H.read_register orders (codes "a"))
    × Hides (T.write_register true orders (codes "a")) (H.write_register orders (codes "a"))
    × Hides (T.next_instruction true 0 none) (on_arm (Run.next_instruction none))
hidden_example = handlers-Hides true orders (codes "a") 0 none
