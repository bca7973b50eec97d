-- ===== src/Memory/Access.antt =====
-- When the accesses of memory.c succeed, when they report an error, and when they leave the
-- block: the bounds test adds to the address in 32 bits, and lets addresses pass that wrap.
use arm_processor_simulator.Base.{
  ℕ, ◌+◌, ◌*◌, ◌^◌, ◌≤◌, ◌<◌, ◌≡◌, arith, Option, none, some, Outcome, done, fault, if◌then◌else◌,
  ltb, ◌≤◌, Outcome, Option,
}
use native.Mathlib.Decide.{dec_lt}
use arm_processor_simulator.Util.{u32}
use arm_processor_simulator.Memory.{Memory, memory_read_half, memory_read_word}
use arm_processor_simulator.Memory.Cells.{IsBytes, join_bytes_sum, join_half_sum}

-- The word that the four bytes from `a` stand for, in the byte order of the memory.
abbrev pub word_at : Memory → ℕ → ℕ
word_at mem a =
    if mem.is_big_endian
    then mem.values a * 2 ^ 24
      + mem.values (a + 1) * 2 ^ 16
      + mem.values (a + 2) * 2 ^ 8
      + mem.values (a + 3)
    else mem.values (a + 3) * 2 ^ 24
      + mem.values (a + 2) * 2 ^ 16
      + mem.values (a + 1) * 2 ^ 8
      + mem.values a

pub memory_read_word-some :
    (mem : Memory) (a : ℕ)
    → IsBytes mem
    → a + 3 < mem.size
    → a + 3 < 2 ^ 32
    → memory_read_word mem a ≡ done (some (word_at mem a))
unfolding memory_read_word
memory_read_word-some mem a bytes inside small =
    let e1 : u32 (a + 1) ≡ a + 1 = omega arith in
    let e2 : u32 (a + 2) ≡ a + 2 = omega arith in
    let e3 : u32 (a + 3) ≡ a + 3 = omega arith in
    let h1 = bytes (a + 1) in
    let h2 = bytes (a + 2) in
    let big =
      join_bytes_sum (mem.values a) (mem.values (a + 1)) (mem.values (a + 2)) (mem.values (a + 3))
        h1 h2 (bytes (a + 3)) in
    let little =
      join_bytes_sum (mem.values (a + 3)) (mem.values (a + 2)) (mem.values (a + 1)) (mem.values a)
        h2 h1 (bytes a) in
    rw (e1, e2, e3) (ground (arith, big, little))

abbrev pub half_at : Memory → ℕ → ℕ
half_at mem a =
    if mem.is_big_endian
    then mem.values a * 2 ^ 8 + mem.values (a + 1)
    else mem.values (a + 1) * 2 ^ 8 + mem.values a

pub memory_read_half-some :
    (mem : Memory) (a : ℕ)
    → IsBytes mem
    → a + 1 < mem.size
    → a + 1 < 2 ^ 32
    → memory_read_half mem a ≡ done (some (half_at mem a))
unfolding memory_read_half
memory_read_half-some mem a bytes inside small =
    let e1 : u32 (a + 1) ≡ a + 1 = omega arith in
    let big = join_half_sum (mem.values a) (mem.values (a + 1)) (bytes a) (bytes (a + 1)) in
    let little = join_half_sum (mem.values (a + 1)) (mem.values a) (bytes (a + 1)) (bytes a) in
    rw e1 (ground (arith, big, little))

-- What an access to the cells `a` to `a + last` comes to, by its address: `inside` is what it
-- gives inside the block.
abbrev pub checked {ℓ} : {A : Type ℓ} → Memory → ℕ → ℕ → A → Outcome (Option A)
checked mem a last inside =
    if ltb (a + last) (2 ^ 32)
    then (if ltb (a + last) mem.size then done (some inside) else done none)
    else fault

-- In a memory of more than 2 bytes, and less than 4 GiB by 3 or more, a word read gives the four
-- bytes in the memory's order where they lie in the block, and -1 where the last lies outside; but
-- where the address of the last byte wraps, the bounds test passes and the read leaves the block.
pub memory_read_word-checked :
    (mem : Memory) (a : ℕ)
    → IsBytes mem
    → a < 2 ^ 32
    → 2 < mem.size
    → mem.size + 3 ≤ 2 ^ 32
    → memory_read_word mem a ≡ checked mem a 3 (word_at mem a)
memory_read_word-checked mem a bytes fits words room = elim (dec_lt (a + 3) (2 ^ 32)) [
  | no wraps ↦ unfold memory_read_word in ground arith
  | yes small ↦ elim (dec_lt (a + 3) mem.size) [
    | yes inside ↦ rw (memory_read_word-some mem a bytes inside small) (ground arith)
    | no outside ↦ unfold memory_read_word in ground arith
  ]
]

-- In a memory that is not empty, and less than 4 GiB by 1 or more, a half word read gives the two
-- bytes in the memory's order where they lie in the block, and -1 where the second lies outside;
-- but where the address of the second byte wraps, the bounds test passes and the read leaves the
-- block.
pub memory_read_half-checked :
    (mem : Memory) (a : ℕ)
    → IsBytes mem
    → a < 2 ^ 32
    → 0 < mem.size
    → mem.size + 1 ≤ 2 ^ 32
    → memory_read_half mem a ≡ checked mem a 1 (half_at mem a)
memory_read_half-checked mem a bytes fits words room = elim (dec_lt (a + 1) (2 ^ 32)) [
  | no wraps ↦ unfold memory_read_half in ground arith
  | yes small ↦ elim (dec_lt (a + 1) mem.size) [
    | yes inside ↦ rw (memory_read_half-some mem a bytes inside small) (ground arith)
    | no outside ↦ unfold memory_read_half in ground arith
  ]
]
