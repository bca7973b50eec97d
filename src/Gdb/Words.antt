-- ===== src/Gdb/Words.antt =====
-- Words in the packets of arm_simulator-1.4/gdb_protocol.c: eight hexadecimal digits in the byte order
-- of the target, whatever the order of the host.
use arm_processor_simulator.Base.{
  ℕ, zero, suc, ◌+◌, ◌-◌, ◌*◌, ◌/◌, ◌^◌, Bool, true, false, Option, none, some, List, [], ◌++◌,
  Outcome, done, fault, ◌>>=◌, ltb, if◌then◌else◌, update, drop,
}
use arm_processor_simulator.Util.{u8, u32}
use arm_processor_simulator.Gdb.Text.{text_of, scan_hex_2, stored_value, hex_byte}

-- `is_big_endian()`, and whether the simulator is built with `BIG_ENDIAN_SIMULATOR`.
pub record Orders : Type 0 where
  pub host_big : Bool
  pub target_big : Bool

-- `is_big_endian() == target_big_endian`
abbrev pub same_order : Orders → Bool
same_order o = if o.host_big then o.target_big else if o.target_big then false else true

-- The start and the step of the index into the union; -1 is the step on `unsigned int`.
abbrev pub start_index : Orders → ℕ
start_index o = if same_order o then 0 else 3

abbrev pub index_step : Orders → ℕ
index_step o = if same_order o then 1 else 2 ^ 32 - 1

-- `mem.bytes[i]` of `mem.integer = value`, and the other way round.
abbrev pub union_byte : Bool → ℕ → ℕ → ℕ
union_byte big value i = u8 (value / 2 ^ (8 * (if big then 3 - i else i)))

abbrev pub union_integer : Bool → (ℕ → ℕ) → ℕ
union_integer big bytes =
    if big
    then bytes 0 * 2 ^ 24 + bytes 1 * 2 ^ 16 + bytes 2 * 2 ^ 8 + bytes 3
    else bytes 3 * 2 ^ 24 + bytes 2 * 2 ^ 16 + bytes 1 * 2 ^ 8 + bytes 0

-- The loop of `write_uint32` from `i` on: it leaves after the fourth round, as the index then is no
-- longer below 4 in either direction. The test is made at most five times.
unfoldable pub write_loop : ℕ → Orders → ℕ → ℕ → List ℕ
write_loop zero o value i = []
write_loop (suc rounds) o value i =
    let rest = write_loop rounds o value (u32 (i + index_step o)) in
    if ltb i 4 then hex_byte (union_byte o.host_big value i) ++ rest else []

unfoldable pub write_uint32 : Orders → ℕ → List ℕ
write_uint32 o value = write_loop 5 o value (start_index o)

-- `sscanf(data, "%02x", &value)`, at a pointer whose text may end too early.
unfoldable pub scan_value : List ℕ → Option ℕ → Outcome (Option ℕ)
scan_value s old = text_of s >>= λ text. stored_value (scan_hex_2 text) old

-- `mem.bytes[i] = value`, of a variable that may not be set.
abbrev pub byte_of : Option ℕ → Outcome ℕ
byte_of none = fault
byte_of (some v) = done (u8 v)

-- The loop of `read_uint32`.
unfoldable pub read_loop : ℕ → Orders → List ℕ → Option ℕ → (ℕ → ℕ) → ℕ → Outcome (ℕ → ℕ)
read_loop zero o s value bytes i = done bytes
read_loop (suc rounds) o s value bytes i =
    let rest = scan_value s value >>= λ value'. byte_of value' >>= λ b.
    read_loop rounds o (drop 2 s) value' (update bytes i b) (u32 (i + index_step o)) in
    if ltb i 4 then rest else done bytes

unfoldable pub read_uint32 : Orders → List ℕ → Outcome ℕ
read_uint32 o s =
    read_loop 5 o s none (λ _. 0) (start_index o) >>= λ bytes. done (union_integer o.host_big bytes)
