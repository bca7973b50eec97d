-- ===== src/Gdb/Handlers.antt =====
-- The handlers of arm_simulator-1.4/gdb_protocol.c, but those that run the processor. A handler is
-- given the pointer behind the letter of its packet.
use arm_processor_simulator.Base.{
  ℕ, zero, suc, ◌+◌, ◌-◌, ◌^◌, bit_xor, Bool, true, false, ◌&&◌, ◌||◌, Option, none, some, List, [],
  ◌++◌, Outcome, done, fault, ◌>>=◌ as and_then, ltb, ◌==◌, if◌then◌else◌, drop, take, codes,
  same_text,
}
use arm_processor_simulator.Util.{u8, u32, sub32}
use arm_processor_simulator.Memory.{Memory, memory_get_size, memory_read_byte, memory_write_byte}
use arm_processor_simulator.Core.{
  Core, Command, arm_read_register, arm_write_register, arm_read_cpsr, arm_write_cpsr,
}
use arm_processor_simulator.Gdb.Text.{
  text_of, first, find, hex_byte, scan_hex, scan_pair, stored_value, atoi,
}
use arm_processor_simulator.Gdb.Words.{Orders, read_uint32, write_uint32}
use arm_processor_simulator.Gdb.State.{
  Action, ◌>>=◌, ◌>>◌, lift, on_arm, assert, gdb_send_data, gdb_send_buffer, gdb_send_stop_reason,
}

-- A variable that is read.
abbrev pub value_of : Option ℕ → Outcome ℕ
value_of none = fault
value_of (some v) = done v

unfoldable pub kill_request : Action (Unit {0})
kill_request g = done (tt, record g { is_shut = true })

unfoldable pub query_answer : List ℕ → List ℕ
query_answer text =
    if same_text text (codes "Offsets")
    then codes "Text=0;Data=0;Bss=0"
    else if same_text (take 9 text) (codes "Supported")
    then codes "PacketSize=400"
    else if same_text text (codes "TStatus")
    then codes "T0;tnotrun:0"
    else if same_text text (codes "Symbol::")
    then []
    else []

unfoldable pub query : List ℕ → Action (Unit {0})
query s = do text ← lift (text_of s); gdb_send_data (query_answer text)

-- The registers from `i` on, with the rounds that are left.
unfoldable pub registers_text : Orders → ℕ → ℕ → Core → Outcome (List ℕ × Core)
registers_text o zero i p = done ([], p)
registers_text o (suc rounds) i p = and_then (arm_read_register i p) (λ (value, p').
    and_then (registers_text o rounds (i + 1) p')
      (λ (rest, p''). done (write_uint32 o value ++ rest, p'')))

-- `n` registers that are not implemented.
abbrev pub unknown : ℕ → List ℕ
unknown zero = []
unknown (suc n) = codes "xxxxxxxx" ++ unknown n

unfoldable pub read_general_registers : Orders → Action (Unit {0})
read_general_registers o = do
  general ← on_arm (registers_text o 15 0)
  seen ← on_arm (arm_read_register 15)
  status ← on_arm arm_read_cpsr
  gdb_send_buffer
      (general ++ (write_uint32 o (sub32 seen 4) ++ (unknown 25 ++ write_uint32 o status)))

-- The loop of `read_memory`.
unfoldable pub read_cells : ℕ → ℕ → Memory → Outcome (List ℕ)
read_cells zero address mem = done []
read_cells (suc size) address mem = and_then (memory_read_byte mem address) (elim [
  | none ↦ done []
  | some value ↦
      and_then (read_cells size (u32 (address + 1)) mem) (λ rest. done (hex_byte value ++ rest))
])

-- A read of `gdb->mem`.
abbrev pub from_memory : {A : Type 0} → (Memory → Outcome A) → Action A
from_memory m g = and_then (m g.arm.mem) (λ a. done (a, g))

unfoldable pub read_memory : List ℕ → Action (Unit {0})
read_memory s = do
  text ← lift (text_of s)
  numbers ← lift (scan_pair text)
  address ← lift (value_of numbers.0)
  size ← lift (value_of numbers.1)
  cells ← from_memory (read_cells size address)
  gdb_send_buffer cells

-- The number of the register is read in base 10.
unfoldable pub read_register : Orders → List ℕ → Action (Unit {0})
read_register o s = do
  text ← lift (text_of s)
  reg ← lift (atoi text)
  assert (ltb reg 16)
  value ← on_arm (arm_read_register reg)
  gdb_send_buffer (write_uint32 o (sub32 value (if reg == 15 then 4 else 0)))

unfoldable pub reason : Action (Unit {0})
reason = gdb_send_stop_reason

-- `(value < 1) && (value > -2)` on `int`
unfoldable pub set_thread : List ℕ → Action (Unit {0})
set_thread s = do
  type ← lift (first s)
  text ← lift (text_of (drop 1 s))
  value ← lift (atoi text)
  if (type == b'c' || type == b'g') && (value == 0 || value == 2 ^ 32 - 1)
      then gdb_send_data (codes "OK")
      else gdb_send_data (codes "E01")

-- The registers from `i` on are read from the packet.
unfoldable pub write_registers : Orders → ℕ → ℕ → List ℕ → Command (Unit {0})
write_registers o zero i s p = done (tt, p)
write_registers o (suc rounds) i s p = and_then (read_uint32 o s) (λ value.
    and_then (arm_write_register i value p)
      (λ (_, p'). write_registers o rounds (i + 1) (drop 8 s) p'))

-- The words that are read and dropped: where they cannot be read the source is undefined.
unfoldable pub skip_words : Orders → ℕ → List ℕ → Outcome (Unit {0})
skip_words o zero s = done tt
skip_words o (suc n) s = and_then (read_uint32 o s) (λ value. skip_words o n (drop 8 s))

unfoldable pub write_general_registers : Orders → List ℕ → Action (Unit {0})
write_general_registers o s = do
  on_arm (write_registers o 16 0 s)
  lift (skip_words o 25 (drop 128 s))
  status ← lift (read_uint32 o (drop 328 s))
  on_arm (arm_write_cpsr status)
  gdb_send_data (codes "OK")

-- The byte that the packet has next, and what follows it: `}` escapes.
unfoldable pub next_byte : List ℕ → Outcome (ℕ × List ℕ)
next_byte content = and_then (first content) (λ c.
    if c == 0x7d
    then and_then (first (drop 1 content)) (λ d. done (u8 (bit_xor d 0x20), drop 2 content))
    else done (c, drop 1 content))

-- What follows the write of a cell.
abbrev pub more_cells :
    Memory → (Memory → Outcome (Bool × Memory)) → Option Memory → Outcome (Bool × Memory)
more_cells mem more none = done (false, mem)
more_cells mem more (some mem') = more mem'

-- The loop of `write_memory_binary`, while `write_ok` holds.
unfoldable pub write_cells : ℕ → ℕ → List ℕ → Memory → Outcome (Bool × Memory)
write_cells zero address content mem = done (true, mem)
write_cells (suc size) address content mem = and_then (next_byte content) (λ (value, rest).
    and_then (memory_write_byte mem address value)
      (more_cells mem (write_cells size (u32 (address + 1)) rest)))

abbrev pub on_memory : {A : Type 0} → (Memory → Outcome (A × Memory)) → Action A
on_memory m g =
    and_then (m g.arm.mem) (λ (a, mem). done (a, record g { arm = record g.arm { mem = mem } }))

-- `index(data, c) + 1`: from NULL every use of it is undefined.
abbrev pub after : ℕ → List ℕ → Outcome (List ℕ)
after c s = elim (find c s) [ none ↦ fault | some rest ↦ done (drop 1 rest) ]

-- No byte is read where the address lies outside the memory.
unfoldable pub write_at : ℕ → ℕ → List ℕ → Memory → Outcome (Bool × Memory)
write_at size address content mem =
    if ltb address (memory_get_size mem)
    then write_cells size address content mem
    else done (false, mem)

unfoldable pub write_memory_binary : List ℕ → Action (Unit {0})
write_memory_binary s = do
  text ← lift (text_of s)
  numbers ← lift (scan_pair text)
  content ← lift (after b':' s)
  address ← lift (value_of numbers.0)
  size ← lift (value_of numbers.1)
  write_ok ← on_memory (write_at size address content)
  if write_ok then gdb_send_data (codes "OK") else gdb_send_data (codes "E02")

-- The number of the register is read in base 16.
unfoldable pub write_register : Orders → List ℕ → Action (Unit {0})
write_register o s = do
  text ← lift (text_of s)
  number ← lift (stored_value (scan_hex text) none)
  content ← lift (after b'=' s)
  value ← lift (read_uint32 o content)
  reg ← lift (value_of number)
  assert (ltb reg 16)
  on_arm (arm_write_register reg value)
  gdb_send_data (codes "OK")
