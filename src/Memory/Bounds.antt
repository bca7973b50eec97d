-- ===== src/Memory/Bounds.antt =====
-- arm_simulator-1.4/memory.c: which writes are refused, and which leave the block.
use arm_processor_simulator.Base.{
  ℕ, ◌+◌, ◌^◌, ◌≤◌, ◌<◌, ◌≡◌, arith, some, none, done, ltb, if◌then◌else◌,
}
use native.Mathlib.Decide.{dec_lt}
use arm_processor_simulator.Util.{u8, u16, u32}
use arm_processor_simulator.Memory.{Memory, memory_write_byte, memory_write_half, memory_write_word}
use arm_processor_simulator.Memory.Cells.{IsBytes}
use arm_processor_simulator.Memory.Access.{word_at, half_at, checked}
use arm_processor_simulator.Memory.RoundTrip.{
  IsWritten, byte_written, half_written, word_written, byte_written-IsWritten,
  half_written-IsWritten, word_written-IsWritten, memory_write_half-some, memory_write_word-some,
}

module _ (mem : Memory) (a value : ℕ) (fits : a < 2 ^ 32) (words : 2 < mem.size)
    (room : mem.size + 3 ≤ 2 ^ 32) where
  half-checked : memory_write_half mem a value ≡ checked mem a 1 (half_written mem a value)
  half-checked = elim (dec_lt (a + 1) (2 ^ 32)) [
    | no wraps ↦ unfold memory_write_half in ground arith
    | yes small ↦ elim (dec_lt (a + 1) mem.size) [
      | yes inside ↦ rw (memory_write_half-some mem a value inside small) (ground arith)
      | no outside ↦ unfold memory_write_half in ground arith
    ]
  ]

  word-checked : memory_write_word mem a value ≡ checked mem a 3 (word_written mem a value)
  word-checked = elim (dec_lt (a + 3) (2 ^ 32)) [
    | no wraps ↦ unfold memory_write_word in ground arith
    | yes small ↦ elim (dec_lt (a + 3) mem.size) [
      | yes inside ↦ rw (memory_write_word-some mem a value inside small) (ground arith)
      | no outside ↦ unfold memory_write_word in ground arith
    ]
  ]

  byte-checked :
      memory_write_byte mem a (u8 value)
      ≡ done (if ltb a mem.size then some (byte_written mem a value) else none)
  unfolding memory_write_byte
  byte-checked = ground arith

-- In a memory of more than 2 bytes, and less than 4 GiB by 3 or more: a write of a byte, a half word or a
-- word puts the value where all its bytes lie in the block, in the memory's order, and changes no other
-- cell, and it reports -1 where the last lies outside; but where the address of the last byte of a half
-- word or a word wraps, the bounds test passes and the write leaves the block.
pub memory_write-checked :
    (mem : Memory) (a value : ℕ)
    → IsBytes mem
    → a < 2 ^ 32
    → 2 < mem.size
    → mem.size + 3 ≤ 2 ^ 32
    → (byte half word : Memory) × (memory_write_byte mem a (u8 value)
        ≡ done (if ltb a mem.size then some byte else none))
      × (memory_write_half mem a value ≡ checked mem a 1 half)
      × (memory_write_word mem a value ≡ checked mem a 3 word)
      × IsWritten mem a 1 byte
      × IsWritten mem a 2 half
      × IsWritten mem a 4 word
      × (byte.values a ≡ u8 value)
      × (half_at half a ≡ u16 value)
      × (word_at word a ≡ u32 value)
memory_write-checked mem a value bytes fits words room = (
  byte_written mem a value,
  half_written mem a value,
  word_written mem a value,
  byte-checked mem a value fits words room,
  half-checked mem a value fits words room,
  word-checked mem a value fits words room,
  byte_written-IsWritten mem a value bytes,
  half_written-IsWritten mem a value bytes,
  word_written-IsWritten mem a value bytes,
  ground arith,
  ground arith,
  ground arith,
)
