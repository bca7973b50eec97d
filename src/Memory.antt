-- ===== src/Memory.antt =====
-- arm_simulator-1.4/memory.c: the simulated memory, an array of bytes with bounds checks and a
-- choice of byte order. A read gives `some` value, or `none` for the return value -1. A write gives
-- `some` new memory, or `none` for -1, which changes nothing. Addresses are `uint32_t`, and sums
-- of them wrap. The tests `address < 0` never hold of an unsigned number, and are left out.
pub mod Cells
pub mod Access
pub mod RoundTrip
pub mod Bounds
use arm_processor_simulator.Base.{
  ℕ, ◌+◌, ◌*◌, ◌/◌, ◌%◌, ◌^◌, bit_or, Bool, true, false, Option, none, some, Outcome, done, fault,
  ◌>>=◌, ltb, leb, update, if◌then◌else◌,
}
use arm_processor_simulator.Util.{u8, u16, u32}

pub record Memory : Type 0 where
  pub values : ℕ → ℕ
  pub size : ℕ
  pub is_big_endian : Bool

-- `contents` is what the block from `malloc` happens to hold.
unfoldable pub memory_create : (contents : ℕ → ℕ) → ℕ → Bool → Memory
memory_create contents size is_big_endian = record {
  values = contents;
  size = size;
  is_big_endian = is_big_endian;
}

unfoldable pub memory_get_size : Memory → ℕ
memory_get_size mem = mem.size

-- `mem->values[address]`, undefined outside the block.
unfoldable pub cell : Memory → ℕ → Outcome ℕ
cell mem address = if ltb address mem.size then done (mem.values address) else fault

-- `mem->values[address] = value`
unfoldable pub set_cell : Memory → ℕ → ℕ → Outcome Memory
set_cell mem address value =
    if ltb address mem.size
    then done (record mem { values = update mem.values address value })
    else fault

unfoldable pub memory_read_byte : Memory → ℕ → Outcome (Option ℕ)
unfolding cell
memory_read_byte mem address =
    if leb mem.size address then done none else do value ← cell mem address; done (some value)

unfoldable pub memory_read_half : Memory → ℕ → Outcome (Option ℕ)
unfolding cell
memory_read_half mem address =
    if leb mem.size (u32 (address + 1))
    then done none
    else if mem.is_big_endian
    then (do
      high ← cell mem address
      low ← cell mem (u32 (address + 1))
      done (some (bit_or (u16 (high * 2 ^ 8)) low)))
    else do
      high ← cell mem (u32 (address + 1))
      low ← cell mem address
      done (some (bit_or (u16 (high * 2 ^ 8)) low))

-- `b3 << 24 | b2 << 16 | b1 << 8 | b0`
abbrev pub join_bytes : ℕ → ℕ → ℕ → ℕ → ℕ
join_bytes b3 b2 b1 b0 = bit_or (bit_or (bit_or (b3 * 2 ^ 24) (b2 * 2 ^ 16)) (b1 * 2 ^ 8)) b0

unfoldable pub memory_read_word : Memory → ℕ → Outcome (Option ℕ)
unfolding cell
memory_read_word mem address =
    if leb mem.size (u32 (address + 3))
    then done none
    else if mem.is_big_endian
    then (do
      b3 ← cell mem address
      b2 ← cell mem (u32 (address + 1))
      b1 ← cell mem (u32 (address + 2))
      b0 ← cell mem (u32 (address + 3))
      done (some (join_bytes b3 b2 b1 b0)))
    else do
      b3 ← cell mem (u32 (address + 3))
      b2 ← cell mem (u32 (address + 2))
      b1 ← cell mem (u32 (address + 1))
      b0 ← cell mem address
      done (some (join_bytes b3 b2 b1 b0))

unfoldable pub memory_write_byte : Memory → ℕ → ℕ → Outcome (Option Memory)
unfolding set_cell
memory_write_byte mem address value =
    if leb mem.size address then done none else do mem ← set_cell mem address value; done (some mem)

unfoldable pub memory_write_half : Memory → ℕ → ℕ → Outcome (Option Memory)
unfolding set_cell
memory_write_half mem address value =
    if leb mem.size (u32 (address + 1))
    then done none
    else if mem.is_big_endian
    then (do
      mem ← set_cell mem address (u8 (value / 2 ^ 8))
      mem ← set_cell mem (u32 (address + 1)) (u8 value)
      done (some mem))
    else do
      mem ← set_cell mem address (u8 value)
      mem ← set_cell mem (u32 (address + 1)) (u8 (value / 2 ^ 8))
      done (some mem)

unfoldable pub memory_write_word : Memory → ℕ → ℕ → Outcome (Option Memory)
unfolding set_cell
memory_write_word mem address value =
    if leb mem.size (u32 (address + 3))
    then done none
    else if mem.is_big_endian
    then (do
      mem ← set_cell mem address (u8 (value / 2 ^ 24))
      mem ← set_cell mem (u32 (address + 1)) (u8 (value / 2 ^ 16))
      mem ← set_cell mem (u32 (address + 2)) (u8 (value / 2 ^ 8))
      mem ← set_cell mem (u32 (address + 3)) (u8 value)
      done (some mem))
    else do
      mem ← set_cell mem (u32 (address + 3)) (u8 (value / 2 ^ 24))
      mem ← set_cell mem (u32 (address + 2)) (u8 (value / 2 ^ 16))
      mem ← set_cell mem (u32 (address + 1)) (u8 (value / 2 ^ 8))
      mem ← set_cell mem address (u8 value)
      done (some mem)
