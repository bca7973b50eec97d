-- ===== src/Samples/Storage.antt =====
-- The theorems on the bit fields, the memory and the registers at the sample values.
use arm_processor_simulator.Base.{◌≡◌, refl, arith, some, none, done, update}
use arm_processor_simulator.Util.{get_bits}
use arm_processor_simulator.Constants.{fiq}
use arm_processor_simulator.Memory.{
  Memory, memory_read_word, memory_write_byte, memory_write_half, memory_write_word,
}
use arm_processor_simulator.Memory.Bounds.{memory_write-checked}
use arm_processor_simulator.Memory.Access.{word_at, half_at, memory_read_word-checked}
use arm_processor_simulator.Memory.RoundTrip.{IsWritten, memory_read_word-memory_write_word}
use arm_processor_simulator.Registers.{
  Registers, get_mode, read_cpsr, read_register, write_register,
}
use arm_processor_simulator.Registers.Bank.{bank, read_register-write_register, write_register-done}
use arm_processor_simulator.Samples.{
  program_memory, program_memory-IsBytes, registers_at, svc_status, fiq_status,
}

word_example :
    (out : Memory) × (memory_write_word program_memory 8 0x01020304 ≡ done (some out))
    × IsWritten program_memory 8 4 out
    × (memory_read_word out 8 ≡ done (some 0x01020304))
word_example =
    memory_read_word-memory_write_word program_memory 8 0x01020304 program_memory-IsBytes
      (omega arith) (omega arith) (omega arith)

word_read_example : memory_read_word program_memory 0 ≡ done (some 0xE2800001)
word_read_example =
    memory_read_word-checked program_memory 0 program_memory-IsBytes (omega arith) (omega arith)
      (omega arith)

writes_example :
    (byte half word : Memory) × (memory_write_byte program_memory 29 0x04 ≡ done (some byte))
    × (memory_write_half program_memory 29 0x01020304 ≡ done (some half))
    × (memory_write_word program_memory 29 0x01020304 ≡ done none)
    × IsWritten program_memory 29 1 byte
    × IsWritten program_memory 29 2 half
    × IsWritten program_memory 29 4 word
    × (byte.values 29 ≡ 0x04)
    × (half_at half 29 ≡ 0x0304)
    × (word_at word 29 ≡ 0x01020304)
writes_example =
    memory_write-checked program_memory 29 0x01020304 program_memory-IsBytes (omega arith)
      (omega arith) (omega arith)

register_example :
    (out : Registers) × (write_register (registers_at svc_status 0) 13 0x1000 ≡ done out)
    × (get_mode out ≡ get_mode (registers_at svc_status 0))
    × (read_cpsr out ≡ read_cpsr (registers_at svc_status 0))
    × (read_register out 13 ≡ done 0x1000)
unfolding get_mode read_cpsr get_bits
register_example =
    read_register-write_register (registers_at svc_status 0) 13 13 0x1000 refl (omega arith)
      (omega arith)

fiq_mode : get_mode (registers_at fiq_status 0) ≡ fiq
unfolding get_mode read_cpsr get_bits
fiq_mode = refl

-- The fast interrupt mode's registers with 5 in r8.
abbrev fiq_written : Registers
fiq_written = record { registers = update (registers_at fiq_status 0).registers (bank fiq 8) 5 }

fiq_write : write_register (registers_at fiq_status 0) 8 5 ≡ done fiq_written
unfolding get_mode read_cpsr get_bits
fiq_write = write_register-done (registers_at fiq_status 0) 8 5 (omega arith) (omega arith)
