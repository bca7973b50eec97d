-- ===== src/MemoryTest.antt =====
-- arm_simulator-1.4/memory_test.c: the test program of the memory. An object of the host is the
-- function from the offset to its bytes.
use arm_processor_simulator.Base.{
  ℕ, zero, suc, ◌+◌, ◌-◌, ◌*◌, ◌/◌, ◌^◌, Bool, true, false, Option, none, some, List, [], ◌∷◌, ◌++◌,
  ◌≡◌, refl, Outcome, done, fault, ◌>>=◌, ◌==◌, if◌then◌else◌,
}
use arm_processor_simulator.Util.{u8, u32}
use arm_processor_simulator.LoadStore.Transfer.{assigned}
use arm_processor_simulator.Memory.{
  Memory, memory_create, memory_read_byte, memory_read_half, memory_read_word, memory_write_byte,
  memory_write_half, memory_write_word,
}

-- The bytes of a number of `size` bytes on a host of this byte order.
abbrev pub bytes_of : Bool → ℕ → ℕ → ℕ → ℕ
bytes_of host_big size value i = u8 (value / 2 ^ (8 * (if host_big then size - 1 - i else i)))

-- `j` and `j_step` as `unsigned`: -1 is 2 ^ 32 - 1.
abbrev pub first_index : Bool → ℕ → ℕ
first_index reverse size = if reverse then size - 1 else 0

abbrev pub step_index : Bool → ℕ
step_index reverse = if reverse then 2 ^ 32 - 1 else 1

unfoldable pub compare_loop : ℕ → (ℕ → ℕ) → (ℕ → ℕ) → ℕ → ℕ → ℕ → Bool
compare_loop zero a b i j j_step = true
compare_loop (suc rounds) a b i j j_step =
    let rest = compare_loop rounds a b (i + 1) (u32 (j + j_step)) j_step in
    if a i == b j then rest else false

unfoldable pub compare : (ℕ → ℕ) → (ℕ → ℕ) → ℕ → Bool → Bool
compare a b size reverse = compare_loop size a b 0 (first_index reverse size) (step_index reverse)

-- `value` keeps what it held where the read fails; it is not set before the first.
-- A variable that may not be set, read.
abbrev value_of : Option ℕ → Outcome ℕ
value_of none = fault
value_of (some value) = done value

-- `value` keeps what it held where the read fails; it is not set before the first.
unfoldable pub compare_with_sim_loop : ℕ → (ℕ → ℕ) → Memory → Option ℕ → ℕ → ℕ → ℕ → Outcome Bool
compare_with_sim_loop zero a m old i j j_step = done true
compare_with_sim_loop (suc rounds) a m old i j j_step = do
  read ← memory_read_byte m j
  value ← value_of (assigned read old)
  let rest = compare_with_sim_loop rounds a m (some value) (i + 1) (u32 (j + j_step)) j_step
  if a i == value then rest else done false

unfoldable pub compare_with_sim : (ℕ → ℕ) → Memory → ℕ → Bool → Outcome Bool
compare_with_sim a m size reverse =
    compare_with_sim_loop size a m none 0 (first_index reverse size) (step_index reverse)

-- The memory after a write whose result is dropped.
abbrev after_write : Memory → Option Memory → Memory
after_write m none = m
after_write m (some m') = m'

-- The loop that writes the bytes at `position`, from `i` on.
unfoldable pub write_bytes : ℕ → (ℕ → ℕ) → ℕ → Memory → Outcome Memory
write_bytes zero position i m = done m
write_bytes (suc rounds) position i m = do
  written ← memory_write_byte m i (position i)
  write_bytes rounds position (i + 1) (after_write m written)

abbrev pub word_value : ℕ
word_value = 0x11223344

abbrev pub half_value : ℕ
half_value = 0x5566

-- The reads of a word and a half word that were written as bytes: what the two tests print, and the
-- variables after them.
unfoldable pub test_reads :
    Bool → Memory → Bool → Option ℕ → Option ℕ → Outcome (List Bool × (Option ℕ × Option ℕ))
test_reads host_big m reverse old_word old_half = do
  let word_bytes = bytes_of host_big 4 word_value
  word ← memory_read_word m 0
  word_read ← value_of (assigned word old_word)
  half ← memory_read_half m 0
  half_read ← value_of (assigned half old_half)
  done (
    compare word_bytes (bytes_of host_big 4 word_read) 4 reverse
        ∷ compare word_bytes (bytes_of host_big 2 half_read) 2 reverse
        ∷ [],
    (some word_read, some half_read),
  )

-- The writes of a word and a half word whose bytes are read.
unfoldable pub test_writes : Bool → Memory → Bool → Outcome (List Bool)
test_writes host_big m reverse = do
  word ← memory_write_word m 0 word_value
  let m' = after_write m word
  word_result ← compare_with_sim (bytes_of host_big 4 word_value) m' 4 reverse
  half ← memory_write_half m' 0 half_value
  half_result ← compare_with_sim (bytes_of host_big 2 half_value) (after_write m' half) 2 reverse
  done (word_result ∷ half_result ∷ [])

-- The results that the program prints, on a host of this byte order, with what the two blocks of
-- `malloc` happen to hold.
unfoldable pub main : Bool → (ℕ → ℕ) → (ℕ → ℕ) → Outcome (List Bool)
main host_big contents_0 contents_1 = do
  let position = bytes_of host_big 4 word_value
  m0 ← write_bytes 4 position 0 (memory_create contents_0 4 false)
  m1 ← write_bytes 4 position 0 (memory_create contents_1 4 true)
  let same = if host_big then m1 else m0
  let other = if host_big then m0 else m1
  same_reads ← test_reads host_big same false none none
  other_reads ← test_reads host_big other true same_reads.1.0 same_reads.1.1
  same_writes ← test_writes host_big same false
  other_writes ← test_writes host_big other true
  done (same_reads.0 ++ other_reads.0 ++ same_writes ++ other_writes)

-- The results of the test program: its eight tests succeed on hosts of either byte order, whatever the
-- two blocks held.
main_lem :
    (host_big : Bool) (contents_0 contents_1 : ℕ → ℕ)
    → main host_big contents_0 contents_1
      ≡ done (true ∷ true ∷ true ∷ true ∷ true ∷ true ∷ true ∷ true ∷ [])
unfolding main test_reads test_writes write_bytes compare_with_sim compare_with_sim_loop compare
    compare_loop memory_create memory_read_byte memory_read_half memory_read_word memory_write_byte
    memory_write_half memory_write_word
main_lem true contents_0 contents_1 = refl
main_lem false contents_0 contents_1 = refl
