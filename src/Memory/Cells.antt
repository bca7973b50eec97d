-- ===== src/Memory/Cells.antt =====
-- The array accesses of memory.c, and the invariant that cells hold bytes.
use arm_processor_simulator.Base.{
  update, ℕ, ◌+◌, ◌*◌, ◌^◌, ◌≤◌, ◌<◌, bit_or, ◌≡◌, arith, done, fault, lt→ltb,
}
use arm_processor_simulator.Base.Bits.{bit_or_join}
use arm_processor_simulator.Memory.{Memory, cell, set_cell, join_bytes}
use arm_processor_simulator.Util.{u16}

-- The cells hold `uint8_t`.
abbrev pub IsBytes : Memory → Type 0
IsBytes mem = (a : ℕ) → mem.values a < 2 ^ 8

pub cell-done : (mem : Memory) (a : ℕ) → a < mem.size → cell mem a ≡ done (mem.values a)
unfolding cell
cell-done mem a h = rw (lt→ltb a mem.size h)

pub set_cell-done :
    (mem : Memory) (a v : ℕ)
    → a < mem.size
    → set_cell mem a v ≡ done (record mem { values = update mem.values a v })
unfolding set_cell
set_cell-done mem a v h = rw (lt→ltb a mem.size h)

pub cell_fault : (mem : Memory) (a : ℕ) → mem.size ≤ a → cell mem a ≡ fault
unfolding cell
cell_fault mem a h = ground arith

pub set_cell_fault : (mem : Memory) (a v : ℕ) → mem.size ≤ a → set_cell mem a v ≡ fault
unfolding set_cell
set_cell_fault mem a v h = ground arith

pub join_bytes_sum :
    (b3 b2 b1 b0 : ℕ)
    → b2 < 2 ^ 8
    → b1 < 2 ^ 8
    → b0 < 2 ^ 8
    → join_bytes b3 b2 b1 b0 ≡ b3 * 2 ^ 24 + b2 * 2 ^ 16 + b1 * 2 ^ 8 + b0
join_bytes_sum b3 b2 b1 b0 h2 h1 h0 =
    let top : b3 * 2 ^ 24 + b2 * 2 ^ 16 ≡ (b3 * 2 ^ 8 + b2) * 2 ^ 16 = omega arith in
    let middle : (b3 * 2 ^ 8 + b2) * 2 ^ 16 + b1 * 2 ^ 8
        ≡ ((b3 * 2 ^ 8 + b2) * 2 ^ 8 + b1) * 2 ^ 8 =
      omega arith in
    rw
      (
        bit_or_join 24 b3 (b2 * 2 ^ 16) (omega arith),
        top,
        bit_or_join 16 (b3 * 2 ^ 8 + b2) (b1 * 2 ^ 8) (omega arith),
        middle,
        bit_or_join 8 ((b3 * 2 ^ 8 + b2) * 2 ^ 8 + b1) b0 h0,
      )
      (omega arith)

pub join_half_sum :
    (high low : ℕ)
    → high < 2 ^ 8
    → low < 2 ^ 8
    → bit_or (u16 (high * 2 ^ 8)) low ≡ high * 2 ^ 8 + low
join_half_sum high low h l =
    let same : u16 (high * 2 ^ 8) ≡ high * 2 ^ 8 = omega arith in rw same (bit_or_join 8 high low l)
