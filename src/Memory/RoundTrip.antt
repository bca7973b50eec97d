-- ===== src/Memory/RoundTrip.antt =====
-- What a write leaves in memory: the value at its address, in the memory's byte order, and every
-- other cell as it was.
use arm_processor_simulator.Base.{
  update, ℕ, ◌+◌, ◌/◌, ◌%◌, ◌^◌, ◌≤◌, ◌<◌, ◌≡◌, ◌⊎◌, refl, ◌∙◌, ap, arith, some, done,
  if◌then◌else◌,
}
use arm_processor_simulator.Util.{u8, u32}
use arm_processor_simulator.Memory.{
  Memory, memory_read_byte, memory_read_half, memory_read_word, memory_write_byte,
  memory_write_half, memory_write_word,
}
use arm_processor_simulator.Memory.Cells.{IsBytes}
use arm_processor_simulator.Memory.Access.{
  word_at, memory_read_word-some, half_at, memory_read_half-some,
}

-- `out` is `mem` with `length` cells from `a` on written anew.
pub record IsWritten (mem : Memory) (a length : ℕ) (out : Memory) : Type 0 where
  pub same_size : out.size ≡ mem.size
  pub same_order : out.is_big_endian ≡ mem.is_big_endian
  pub bytes : IsBytes out
  pub outside : (b : ℕ) → (b < a) ⊎ (a + length ≤ b) → out.values b ≡ mem.values b

-- The memory after `memory_write_word`, in the order of the stores.
abbrev pub word_written : Memory → ℕ → ℕ → Memory
word_written mem a value =
    if mem.is_big_endian
    then record mem {
      values =
          update
            (update
              (update (update mem.values a (u8 (value / 2 ^ 24))) (a + 1) (u8 (value / 2 ^ 16)))
              (a + 2) (u8 (value / 2 ^ 8)))
            (a + 3) (u8 value);
    }
    else record mem {
      values =
          update
            (update
              (update (update mem.values (a + 3) (u8 (value / 2 ^ 24))) (a + 2)
                (u8 (value / 2 ^ 16)))
              (a + 1) (u8 (value / 2 ^ 8)))
            a (u8 value);
    }

pub memory_write_word-some :
    (mem : Memory) (a value : ℕ)
    → a + 3 < mem.size
    → a + 3 < 2 ^ 32
    → memory_write_word mem a value ≡ done (some (word_written mem a value))
unfolding memory_write_word
memory_write_word-some mem a value inside small =
    let e1 : u32 (a + 1) ≡ a + 1 = omega arith in
    let e2 : u32 (a + 2) ≡ a + 2 = omega arith in
    let e3 : u32 (a + 3) ≡ a + 3 = omega arith in rw (e1, e2, e3) (ground arith)

pub word_written-IsWritten :
    (mem : Memory) (a value : ℕ) → IsBytes mem → IsWritten mem a 4 (word_written mem a value)
word_written-IsWritten mem a value bytes = record {
  same_size = ground arith;
  same_order = ground arith;
  bytes = λ b. ground (arith, bytes b);
  outside = λ b apart. ground arith;
}

word_at-word_written :
    (mem : Memory) (a value : ℕ) → value < 2 ^ 32 → word_at (word_written mem a value) a ≡ value
word_at-word_written mem a value h = ground arith

pub memory_write_word-word :
    (mem : Memory) (a value : ℕ)
    → IsBytes mem
    → a + 3 < mem.size
    → a + 3 < 2 ^ 32
    → (out : Memory) × (memory_write_word mem a value ≡ done (some out))
      × IsWritten mem a 4 out
      × (word_at out a ≡ u32 value)
memory_write_word-word mem a value bytes inside small = (
  word_written mem a value,
  memory_write_word-some mem a value inside small,
  word_written-IsWritten mem a value bytes,
  ground arith,
)

-- Inside the block a word that is written is read back, the memory keeps its size, its byte order
-- and all cells outside the word, and its cells are still bytes.
pub memory_read_word-memory_write_word :
    (mem : Memory) (a value : ℕ)
    → IsBytes mem
    → value < 2 ^ 32
    → a + 3 < mem.size
    → a + 3 < 2 ^ 32
    → (out : Memory) × (memory_write_word mem a value ≡ done (some out))
      × IsWritten mem a 4 out
      × (memory_read_word out a ≡ done (some value))
memory_read_word-memory_write_word mem a value bytes h inside small =
    let out = word_written mem a value in
    let written = word_written-IsWritten mem a value bytes in
    (
      out,
      memory_write_word-some mem a value inside small,
      written,
      memory_read_word-some out a written.bytes (rw written.same_size inside) small
          ∙ ap (λ v. done (some v)) (word_at-word_written mem a value h),
    )

abbrev pub half_written : Memory → ℕ → ℕ → Memory
half_written mem a value =
    if mem.is_big_endian
    then record mem {
      values = update (update mem.values a (u8 (value / 2 ^ 8))) (a + 1) (u8 value);
    }
    else record mem {
      values = update (update mem.values a (u8 value)) (a + 1) (u8 (value / 2 ^ 8));
    }

pub memory_write_half-some :
    (mem : Memory) (a value : ℕ)
    → a + 1 < mem.size
    → a + 1 < 2 ^ 32
    → memory_write_half mem a value ≡ done (some (half_written mem a value))
unfolding memory_write_half
memory_write_half-some mem a value inside small =
    let e1 : u32 (a + 1) ≡ a + 1 = omega arith in rw e1 (ground arith)

pub half_written-IsWritten :
    (mem : Memory) (a value : ℕ) → IsBytes mem → IsWritten mem a 2 (half_written mem a value)
half_written-IsWritten mem a value bytes = record {
  same_size = ground arith;
  same_order = ground arith;
  bytes = λ b. ground (arith, bytes b);
  outside = λ b apart. ground arith;
}

half_at-half_written :
    (mem : Memory) (a value : ℕ) → value < 2 ^ 16 → half_at (half_written mem a value) a ≡ value
half_at-half_written mem a value h = ground arith

-- Inside the block a half word that is written is read back, the memory keeps its size, its byte
-- order and all cells outside the half word, and its cells are still bytes.
pub memory_read_half-memory_write_half :
    (mem : Memory) (a value : ℕ)
    → IsBytes mem
    → value < 2 ^ 16
    → a + 1 < mem.size
    → a + 1 < 2 ^ 32
    → (out : Memory) × (memory_write_half mem a value ≡ done (some out))
      × IsWritten mem a 2 out
      × (memory_read_half out a ≡ done (some value))
memory_read_half-memory_write_half mem a value bytes h inside small =
    let out = half_written mem a value in
    let written = half_written-IsWritten mem a value bytes in
    (
      out,
      memory_write_half-some mem a value inside small,
      written,
      memory_read_half-some out a written.bytes (rw written.same_size inside) small
          ∙ ap (λ v. done (some v)) (half_at-half_written mem a value h),
    )

abbrev pub byte_written : Memory → ℕ → ℕ → Memory
byte_written mem a value = record mem { values = update mem.values a (u8 value) }

pub byte_written-IsWritten :
    (mem : Memory) (a value : ℕ) → IsBytes mem → IsWritten mem a 1 (byte_written mem a value)
byte_written-IsWritten mem a value bytes = record {
  same_size = refl;
  same_order = refl;
  bytes = λ b. ground (arith, bytes b);
  outside = λ b apart. ground arith;
}

-- Inside the block a byte that is written is read back, the memory keeps its size, its byte order
-- and all other cells, and its cells are still bytes.
pub memory_read_byte-memory_write_byte :
    (mem : Memory) (a value : ℕ)
    → IsBytes mem
    → value < 2 ^ 8
    → a < mem.size
    → (out : Memory) × (memory_write_byte mem a value ≡ done (some out))
      × IsWritten mem a 1 out
      × (memory_read_byte out a ≡ done (some value))
unfolding memory_write_byte memory_read_byte
memory_read_byte-memory_write_byte mem a value bytes h inside = (
  record mem { values = update mem.values a value },
  ground arith,
  record {
    same_size = refl;
    same_order = refl;
    bytes = λ b. ground (arith, bytes b);
    outside = λ b apart. ground arith;
  },
  ground arith,
)

-- A word that is written inside the block is read back as its two half words: the byte order of
-- the memory decides which half comes first.
pub memory_read_half-memory_write_word :
    (mem : Memory) (a value : ℕ)
    → IsBytes mem
    → value < 2 ^ 32
    → a + 3 < mem.size
    → a + 3 < 2 ^ 32
    → (out : Memory) × (memory_write_word mem a value ≡ done (some out))
      × (memory_read_half out a
          ≡ done (some (if mem.is_big_endian then value / 2 ^ 16 else value % 2 ^ 16)))
      × (memory_read_half out (a + 2)
          ≡ done (some (if mem.is_big_endian then value % 2 ^ 16 else value / 2 ^ 16)))
memory_read_half-memory_write_word mem a value bytes h inside small =
    let out = word_written mem a value in
    let written = word_written-IsWritten mem a value bytes in
    (
      out,
      memory_write_word-some mem a value inside small,
      memory_read_half-some out a written.bytes (omega (arith, written.same_size)) (omega arith)
          ∙ ap (λ v. done (some v)) (ground arith),
      memory_read_half-some out (a + 2) written.bytes (omega (arith, written.same_size))
            (omega arith)
          ∙ ap (λ v. done (some v)) (ground arith),
    )
