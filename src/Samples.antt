-- ===== src/Samples.antt =====
-- A processor and a memory of a few words for the instances of the theorems, one file of instances
-- for each part of the program.
mod Storage
mod Processing
mod Transfers
mod Stepping
mod Debugger
mod Start
mod Traced
mod Scanning
mod Looping
mod Breaking
use arm_processor_simulator.Base.{
  ℕ, zero, suc, ◌+◌, ◌-◌, ◌*◌, ◌%◌, ◌^◌, ◌<◌, ◌≡◌, refl, arith, Bool, true, false, ◌==◌,
  if◌then◌else◌,
}
use arm_processor_simulator.Util.{get_bits}
use arm_processor_simulator.Constants.{is_mode, svc, fiq}
use arm_processor_simulator.Memory.{Memory}
use arm_processor_simulator.Memory.Cells.{IsBytes}
use arm_processor_simulator.Registers.{Registers, get_mode, read_cpsr}
use arm_processor_simulator.Core.{Core}
use arm_processor_simulator.Core.Access.{HasMode}
use arm_processor_simulator.Instruction.Step.{IsReady}

-- `ADD r0, r0, #1` at address 0, a word with condition 15 at 4, and 0 elsewhere.
abbrev pub program : ℕ → ℕ
program a =
    if a == 0
    then 0x01
    else if a == 2
    then 0x80
    else if a == 3
    then 0xE2
    else if a == 7
    then 0xF0
    else 0

abbrev pub program_memory : Memory
program_memory = record { values = program; size = 32; is_big_endian = false }

pub program_memory-IsBytes : IsBytes program_memory
program_memory-IsBytes a = ground arith

-- Registers with the status register `status`, the program counter `at`, and a value of its own for
-- each of the others.
abbrev pub registers_at : ℕ → ℕ → Registers
registers_at status at = record {
  registers = λ i. if i == 16 then status else if i == 15 then at else i * 3;
}

-- Supervisor mode with the carry flag set, and fast interrupt mode.
abbrev pub svc_status : ℕ
svc_status = 0x20000013

abbrev pub fiq_status : ℕ
fiq_status = 0x00000011

abbrev pub core_at : ℕ → Core
core_at at = record { cycle_count = 7; reg = registers_at svc_status at; mem = program_memory }

pub core_at-HasMode : (at : ℕ) → HasMode (core_at at)
unfolding get_mode read_cpsr get_bits
core_at-HasMode at = refl

pub core_at-IsReady : (at : ℕ) → at < 2 ^ 32 → at % 4 ≡ 0 → IsReady (core_at at) at
core_at-IsReady at small aligned = record {
  mode = core_at-HasMode at;
  bytes = program_memory-IsBytes;
  words = omega arith;
  room = omega arith;
  at = refl;
  small = small;
  aligned = aligned;
}
