-- ===== src/Samples/Transfers.antt =====
-- The theorems on branches, loads and stores at sample values.
use arm_processor_simulator.Base.{
  ◌≢◌, ◌&&◌, ◌==◌, true, false, ◌+◌, ◌*◌, ℕ, ◌^◌, ◌<◌, ◌≡◌, refl, arith, some, done,
}
use arm_processor_simulator.Util.{u32, get_bit, get_bits}
use arm_processor_simulator.Constants.{pc, lr}
use arm_processor_simulator.Memory.{Memory}
use arm_processor_simulator.Memory.RoundTrip.{IsWritten}
use arm_processor_simulator.Registers.{get_mode, read_cpsr}
use arm_processor_simulator.Registers.Bank.{bank}
use arm_processor_simulator.Core.{Core}
use arm_processor_simulator.Core.Access.{mode_of, put, stored}
use arm_processor_simulator.BranchOther.{arm_branch}
use arm_processor_simulator.BranchOther.Target.{arm_branch-target}
use arm_processor_simulator.LoadStore.Addressing.{
  Range, addrmode_load_store_multiple, addrmode_load_store, op,
}
use arm_processor_simulator.LoadStore.Transfer.{ldr, str, execute_instr_multiple}
use arm_processor_simulator.LoadStore.Condition.{addrmode_load_store_lem}
use arm_processor_simulator.LoadStore.Bytes.{ldr-str}
use arm_processor_simulator.LoadStore.Multiple.{addrmode_load_store_multiple_lem}
use arm_processor_simulator.LoadStore.Words.{IsStored}
use arm_processor_simulator.Memory.Access.{word_at}
use arm_processor_simulator.LoadStore.Condition.{ones}
use arm_processor_simulator.Core.{pc_seen}
use arm_processor_simulator.LoadStore.Store.{IsStoring, execute_instr_multiple-stm}
use arm_processor_simulator.Samples.{
  core_at, core_at-HasMode, program_memory, program_memory-IsBytes,
}

branch_example :
    (out : Core) × (arm_branch 0xEBFFFFFE (core_at 8) ≡ done (0, out))
    × (out.reg.registers pc ≡ 4)
    × (stored out lr ≡ 8)
    × ((i : ℕ) → i < 13 → out.reg.registers i ≡ (core_at 8).reg.registers i)
    × ((i : ℕ)
        → i ≢ pc
        → (true && i == bank (mode_of (core_at 8)) lr) ≡ false
        → out.reg.registers i ≡ (core_at 8).reg.registers i)
    × (mode_of out ≡ mode_of (core_at 8))
    × (out.mem ≡ program_memory)
    × (out.cycle_count ≡ 7)
unfolding get_bit
branch_example =
    arm_branch-target 0xEBFFFFFE 8 (core_at 8) (core_at-HasMode 8) (omega arith) refl (omega arith)
      refl

address_example :
    addrmode_load_store 0xE5B00004 16 4 (core_at 0)
    ≡ done (record { address = some 20; rn = 16 }, core_at 0)
unfolding get_bit op
address_example = addrmode_load_store_lem 0xE5B00004 16 4 (core_at 0)

stored-lt : stored (core_at 0) 1 < 2 ^ 32
unfolding get_mode read_cpsr get_bits bank
stored-lt = omega arith

str_example :
    (mem : Memory) × (str 0xE5801000 8 1 (core_at 0) ≡ done (0, record (core_at 0) { mem = mem }))
    × IsWritten program_memory 8 4 mem
    × (ldr 8 2 (record (core_at 0) { mem = mem })
        ≡ done (
          0,
          put
              (record (core_at 0) { mem = mem })
              (bank (mode_of (core_at 0)) 2)
              (stored (core_at 0) 1),
        ))
unfolding get_bits
str_example =
    ldr-str 0xE5801000 8 1 2 (core_at 0) refl (core_at-HasMode 0) program_memory-IsBytes
      (omega arith) (omega arith) stored-lt (omega arith) (omega arith)

span_example :
    (range : Range) × (addrmode_load_store_multiple 0xE8A80007 8 (core_at 0)
      ≡ done (range, core_at 0))
    × (u32 (range.end_address + 4) ≡ u32 (range.start_address + 12))
    × (range.rn ≡ 8)
    × (range.start_address ≡ 8)
unfolding get_bit get_bits
span_example = addrmode_load_store_multiple_lem 0xE8A80007 8 (core_at 0) (omega arith)

core_at-IsStoring : IsStoring (core_at 0)
core_at-IsStoring = record {
  mode = core_at-HasMode 0;
  bytes = program_memory-IsBytes;
  words = omega arith;
  room = omega arith;
}

stm_example :
    (mem : Memory) × (execute_instr_multiple 0xE8880007 8 16 (core_at 0)
      ≡ done (0, record (core_at 0) { mem = mem }))
    × IsStored program_memory 8 12 mem
    × ((k : ℕ)
        → k < 16
        → get_bit 7 k ≡ 1
        → word_at mem (8 + 4 * ones k 7) ≡ u32 (pc_seen k (stored (core_at 0) k)))
unfolding get_bit get_bits
stm_example =
    execute_instr_multiple-stm 0xE8880007 8 16 (core_at 0) core_at-IsStoring refl (omega arith) refl
