-- ===== src/Gdb/Register.antt =====
-- arm_simulator-1.4/gdb_protocol.c: the packets for one register.
use arm_processor_simulator.Base.{
  ℕ, ◌^◌, ◌<◌, Bool, true, false, not, ◌&&◌, Option, none, some, List, [], ◌∷◌, ◌++◌, ◌≡◌, refl, ap,
  Outcome, done, fault, exited, aborted, ltb, ◌==◌, if◌then◌else◌, all_below, all_below-apply,
  arith, ==_iff, codes, lt→ltb,
}
use arm_processor_simulator.Util.{sub32}
use arm_processor_simulator.Core.{arm_read_register, arm_write_register}
use arm_processor_simulator.Gdb.Text.{
  Scanned, no_match, too_large, matched, atoi, scan_hex, scan_digits, hex_digit, has_end, c_string,
  text_of, stored_value,
}
use arm_processor_simulator.Gdb.Words.{Orders, write_uint32}
use arm_processor_simulator.Gdb.State.{
  Gdb, Action, ◌>>=◌, ◌>>◌, on_arm, gdb_send_buffer, gdb_send_data,
}
use arm_processor_simulator.Gdb.Handlers.{read_register, write_register, after}
use arm_processor_simulator.Gdb.Codec.{read_uint32-write_uint32, ended-word}

abbrev reads_as : ℕ → Outcome ℕ → Bool
reads_as n (done v) = v == n
reads_as n fault = false
reads_as n exited = false
reads_as n aborted = false

abbrev scans_as : ℕ → Scanned → Bool
scans_as n (matched v rest) = v == n
scans_as n no_match = false
scans_as n too_large = false

-- The register that is read for the digit of a register.
abbrev pub seen_as : ℕ → ℕ
seen_as reg = if ltb reg 10 then reg else 0

-- What one digit reads as in base 10, and scans as in base 16 before `=`.
abbrev is_digit_of : List ℕ → ℕ → Bool
is_digit_of cs reg =
    reads_as (seen_as reg) (atoi (hex_digit reg ∷ []))
    && scans_as reg (scan_hex (hex_digit reg ∷ b'=' ∷ cs))
    && not (hex_digit reg == 0)
    && not (hex_digit reg == b'=')

all_digits : (cs : List ℕ) → all_below 16 (is_digit_of cs) ≡ true
unfolding all_below atoi scan_hex scan_digits
all_digits cs = refl

reads : (n : ℕ) (m : Outcome ℕ) → reads_as n m ≡ true → m ≡ done n
reads n (done v) h = ap done ((==_iff v n).0 h)
reads n fault h = absurd cc
reads n exited h = absurd cc
reads n aborted h = absurd cc

scans :
    (n : ℕ) (s : Scanned)
    → scans_as n s ≡ true
    → (old : Option ℕ) → stored_value s old ≡ done (some n)
scans n (matched v rest) h old = ap (λ t. done (some t)) ((==_iff v n).0 h)
scans n no_match h old = absurd cc
scans n too_large h old = absurd cc

four :
    (a b c d : Bool)
    → (a && b && not c && not d) ≡ true
    → (a ≡ true) × (b ≡ true) × (c ≡ false) × (d ≡ false)
four a b c d h = ground arith

digit_of :
    (cs : List ℕ) (reg : ℕ)
    → reg < 16
    → (atoi (hex_digit reg ∷ []) ≡ done (seen_as reg))
      × ((old : Option ℕ)
          → stored_value (scan_hex (hex_digit reg ∷ b'=' ∷ cs)) old ≡ done (some reg))
      × ((hex_digit reg == 0) ≡ false)
      × ((hex_digit reg == b'=') ≡ false)
digit_of cs reg lt =
    let (read, scan, set, other) =
      four (reads_as (seen_as reg) (atoi (hex_digit reg ∷ [])))
        (scans_as reg (scan_hex (hex_digit reg ∷ b'=' ∷ cs))) (hex_digit reg == 0)
        (hex_digit reg == b'=') (all_below-apply 16 (is_digit_of cs) reg (all_digits cs) lt) in
    (
      reads (seen_as reg) (atoi (hex_digit reg ∷ [])) read,
      scans reg (scan_hex (hex_digit reg ∷ b'=' ∷ cs)) scan,
      set,
      other,
    )

-- The answer with the value of a register.
abbrev pub answer_register : Orders → ℕ → Action (Unit {0})
answer_register o reg = do
  value ← on_arm (arm_read_register reg)
  gdb_send_buffer (write_uint32 o (sub32 value (if reg == 15 then 4 else 0)))

-- What is answered for the number of a register, of one digit in base 16 as the debugger sends it: the
-- value of the register up to 9, and that of r0 for the registers from 10 to 15.
pub read_register_lem :
    (o : Orders) (reg : ℕ) (rest : List ℕ) (g : Gdb)
    → reg < 16
    → read_register o (hex_digit reg ∷ 0 ∷ rest) g ≡ answer_register o (seen_as reg) g
unfolding read_register
read_register_lem o reg rest g lt =
    let (read, _, set, _) = digit_of [] reg lt in
    let inside : ltb (seen_as reg) 16 ≡ true = ground arith in cc

text_of-digit :
    (c : ℕ) (word : List ℕ)
    → (c == 0) ≡ false
    → has_end word ≡ true
    → text_of (c ∷ b'=' ∷ word) ≡ done (c ∷ b'=' ∷ c_string word)
text_of-digit c word set ended = cc

after-digit :
    (c : ℕ) (word : List ℕ)
    → (c == 0) ≡ false
    → (c == b'=') ≡ false
    → after b'=' (c ∷ b'=' ∷ word) ≡ done word
after-digit c word set other = cc

-- A register that the debugger writes, by its digit in base 16 and its word in the byte order of the
-- target: this register gets this word, and OK is answered.
pub write_register_lem :
    (o : Orders) (reg value : ℕ) (rest : List ℕ) (g : Gdb)
    → reg < 16
    → value < 2 ^ 32
    → write_register o (hex_digit reg ∷ b'=' ∷ (write_uint32 o value ++ 0 ∷ rest)) g
      ≡ (on_arm (arm_write_register reg value) >> gdb_send_data (codes "OK")) g
unfolding write_register
write_register_lem o reg value rest g lt lt' =
    let word = write_uint32 o value ++ 0 ∷ rest in
    let (_, scan, set, other) = digit_of (c_string word) reg lt in
    let ended = ended-word o value (0 ∷ rest) refl in
    let text = text_of-digit (hex_digit reg) word set ended in
    let content = after-digit (hex_digit reg) word set other in
    let read = read_uint32-write_uint32 o value (0 ∷ rest) lt' refl in
    let number = scan none in let inside : ltb reg 16 ≡ true = lt→ltb reg 16 lt in cc
