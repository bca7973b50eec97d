-- ===== src/Gdb/Transfer.antt =====
-- arm_simulator-1.4/gdb_protocol.c: the memory that the debugger writes and reads.
use arm_processor_simulator.Base.{
  ℕ, zero, suc, ◌+◌, ◌*◌, ◌^◌, ◌<◌, ◌≤◌, bit_xor, Bool, true, false, ◌&&◌, ◌||◌, some, List, [],
  ◌∷◌, ◌++◌, ◌≡◌, ◌⊎◌, inl, inr, refl, ap, ◌∙◌, done, fault, ltb, leb, ◌==◌, if◌then◌else◌, update,
  exited, length, all_below, all_below-apply, arith, ==_iff, lt→ltb, Bool-cases,
}
use arm_processor_simulator.Util.{u8, u32}
use arm_processor_simulator.Memory.{Memory, memory_read_byte, memory_write_byte, cell, set_cell}
use arm_processor_simulator.Gdb.Text.{hex_byte, text_of, scan_pair}
use arm_processor_simulator.Gdb.State.{Gdb, gdb_send_buffer, gdb_transmit_packet, frame}
use arm_processor_simulator.Gdb.Handlers.{read_cells, write_cells, next_byte, read_memory}

-- The bytes of a packet for bytes of memory, as the debugger writes them: `#`, `$` and `}` are escaped.
abbrev pub encode : List ℕ → List ℕ
encode [] = []
encode (b ∷ bs) =
    if b == b'#' || b == b'$' || b == 0x7d then 0x7d ∷ bit_xor b 0x20 ∷ encode bs else b ∷ encode bs

-- The digits of bytes.
abbrev pub hex_text : List ℕ → List ℕ
hex_text [] = []
hex_text (b ∷ bs) = hex_byte b ++ hex_text bs

abbrev pub are_bytes : List ℕ → Bool
are_bytes [] = true
are_bytes (b ∷ bs) = ltb b 256 && are_bytes bs

unescapes : all_below 256 (λ b. u8 (bit_xor (bit_xor b 0x20) 0x20) == b) ≡ true
unfolding all_below
unescapes = refl

next_byte-encode :
    (b : ℕ) (bs rest : List ℕ)
    → b < 256
    → next_byte (encode (b ∷ bs) ++ rest) ≡ done (b, encode bs ++ rest)
unfolding next_byte
next_byte-encode b bs rest lt =
    let back =
      (==_iff (u8 (bit_xor (bit_xor b 0x20) 0x20)) b).0
        (all_below-apply 256 (λ b. u8 (bit_xor (bit_xor b 0x20) 0x20) == b) b unescapes lt) in
    elim (Bool-cases (b == b'#' || b == b'$' || b == 0x7d)) [
      | inl special ↦ cc
      | inr plain ↦ let same : (b == 0x7d) ≡ false = ground arith in cc
    ]

-- The memory with bytes from an address on.
abbrev pub stored : Memory → ℕ → List ℕ → Memory
stored mem address [] = mem
stored mem address (b ∷ bs) =
    stored (record mem { values = update mem.values address b }) (address + 1) bs

-- The digits of the cells from an address on.
abbrev pub cells_text : Memory → ℕ → ℕ → List ℕ
cells_text mem address zero = []
cells_text mem address (suc size) =
    hex_byte (mem.values address) ++ cells_text mem (address + 1) size

written :
    (mem : Memory) (address b : ℕ)
    → address < mem.size
    → memory_write_byte mem address b
      ≡ done (some (record mem { values = update mem.values address b }))
unfolding memory_write_byte set_cell
written mem address b lt =
    let inside : leb mem.size address ≡ false = ground arith in
    let inside' : ltb address mem.size ≡ true = lt→ltb address mem.size lt in cc

cell_read :
    (mem : Memory) (address : ℕ)
    → address < mem.size
    → memory_read_byte mem address ≡ done (some (mem.values address))
unfolding memory_read_byte cell
cell_read mem address lt =
    let inside : leb mem.size address ≡ false = ground arith in
    let inside' : ltb address mem.size ≡ true = lt→ltb address mem.size lt in cc

pub write_cells-encode :
    (mem : Memory) (address : ℕ) (bs rest : List ℕ)
    → address + length bs ≤ mem.size
    → mem.size < 2 ^ 32
    → are_bytes bs ≡ true
    → write_cells (length bs) address (encode bs ++ rest) mem ≡ done (true, stored mem address bs)
unfolding write_cells
write_cells-encode mem address [] rest le small bytes = refl
write_cells-encode mem address (b ∷ bs) rest le small bytes =
    let next = next_byte-encode b bs rest (ground arith) in
    let byte = written mem address b (omega arith) in
    let moved : u32 (address + 1) ≡ address + 1 = omega arith in
    let more =
      write_cells-encode (record mem { values = update mem.values address b }) (address + 1) bs rest
        (omega arith) small (ground arith) in
    cc

read_cells-text :
    (mem : Memory) (size address : ℕ)
    → address + size ≤ mem.size
    → mem.size < 2 ^ 32
    → read_cells size address mem ≡ done (cells_text mem address size)
unfolding read_cells
read_cells-text mem zero address le small = refl
read_cells-text mem (suc size) address le small =
    let byte = cell_read mem address (omega arith) in
    let moved : u32 (address + 1) ≡ address + 1 = omega arith in
    let more = read_cells-text mem size (address + 1) (omega arith) small in cc

pub stored-outside :
    (mem : Memory) (address : ℕ) (bs : List ℕ) (i : ℕ)
    → (i < address) ⊎ (address + length bs ≤ i)
    → (stored mem address bs).values i ≡ mem.values i
stored-outside mem address [] i h = refl
stored-outside mem address (b ∷ bs) i h =
    stored-outside (record mem { values = update mem.values address b }) (address + 1) bs i
      (ground arith)
    ∙ ground arith

cells_text-stored :
    (mem : Memory) (address : ℕ) (bs : List ℕ)
    → cells_text (stored mem address bs) address (length bs) ≡ hex_text bs
cells_text-stored mem address [] = refl
cells_text-stored mem address (b ∷ bs) =
    let mem' : Memory = record mem { values = update mem.values address b } in
    let here = stored-outside mem' (address + 1) bs address (inl (omega arith)) in
    let same : update mem.values address b address ≡ b = ground arith in
    ap (λ t. hex_byte t ++ cells_text (stored mem' (address + 1) bs) (address + 1) (length bs))
      (here ∙ same)
    ∙ ap (λ t. hex_byte b ++ t) (cells_text-stored mem' (address + 1) bs)

stored-size : (mem : Memory) (address : ℕ) (bs : List ℕ) → (stored mem address bs).size ≡ mem.size
stored-size mem address [] = refl
stored-size mem address (b ∷ bs) =
    stored-size (record mem { values = update mem.values address b }) (address + 1) bs

-- Bytes that the debugger writes inside the memory: the write succeeds, a read of the same range gives
-- their digits, and no other cell has changed.
pub read_cells-write_cells :
    (mem : Memory) (address : ℕ) (bs rest : List ℕ)
    → address + length bs ≤ mem.size
    → mem.size < 2 ^ 32
    → are_bytes bs ≡ true
    → (mem' : Memory) × (write_cells (length bs) address (encode bs ++ rest) mem
        ≡ done (true, mem'))
      × (read_cells (length bs) address mem' ≡ done (hex_text bs))
      × ((i : ℕ) → (i < address) ⊎ (address + length bs ≤ i) → mem'.values i ≡ mem.values i)
read_cells-write_cells mem address bs rest le small bytes =
    let mem' = stored mem address bs in
    let size = stored-size mem address bs in
    (
      mem',
      write_cells-encode mem address bs rest le small bytes,
      read_cells-text mem' (length bs) address (omega (arith, size)) (omega (arith, size))
          ∙ ap done (cells_text-stored mem address bs),
      stored-outside mem address bs,
    )

length-cells_text :
    (mem : Memory) (size address : ℕ) → length (cells_text mem address size) ≡ 2 * size
length-cells_text mem zero address = refl
length-cells_text mem (suc size) address = omega (arith, length-cells_text mem size (address + 1))

-- A range of the memory that the debugger reads: up to 509 bytes are answered by their digits, or the
-- program exits if the socket is shut down, and for more the answer does not fit into the buffer, behind
-- whose end the source writes.
pub read_memory_lem :
    (s text : List ℕ) (address size : ℕ) (g : Gdb)
    → text_of s ≡ done text
    → scan_pair text ≡ done (some address, some size)
    → address + size ≤ g.arm.mem.size
    → g.arm.mem.size < 2 ^ 32
    → read_memory s g ≡ (
        if leb size 509
        then if g.is_shut
          then exited
          else done (
            tt,
            record g {
              packet = frame (cells_text g.arm.mem address size);
              sent = frame (cells_text g.arm.mem address size) ∷ g.sent;
            },
          )
        else fault)
unfolding read_memory gdb_send_buffer gdb_transmit_packet
read_memory_lem s text address size g texts numbers le small =
    let cells = read_cells-text g.arm.mem size address le small in
    let width = length-cells_text g.arm.mem size address in
    elim (Bool-cases (leb size 509)) [
      | inl fits ↦
          let room : leb (length (cells_text g.arm.mem address size) + 5) 1024 ≡ true =
            ground arith in
          cc
      | inr long ↦
          let full : leb (length (cells_text g.arm.mem address size) + 5) 1024 ≡ false =
            ground arith in
          cc
    ]
