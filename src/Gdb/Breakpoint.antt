-- ===== src/Gdb/Breakpoint.antt =====
-- arm_simulator-1.4/gdb_protocol.c: a breakpoint, from the packet that writes it to the stop of `cont`.
use arm_processor_simulator.Base.{
  ℕ, zero, suc, ◌+◌, ◌^◌, ◌<◌, ◌≤◌, ◌≡◌, ◌⊎◌, inl, inr, refl, sym, ◌∙◌, ap, arith, Bool, true,
  false, some, List, [], ◌∷◌, ◌++◌, Outcome, done, codes, ltb, if◌then◌else◌, Bool-cases,
}
use arm_processor_simulator.Memory.{Memory, memory_get_size}
use arm_processor_simulator.Memory.Access.{word_at}
use arm_processor_simulator.Instruction.Step.{IsReady}
use arm_processor_simulator.Gdb.Text.{text_of, scan_pair}
use arm_processor_simulator.Gdb.State.{
  Gdb, pure, ◌>>◌, frame, gdb_send_data, gdb_send_buffer, gdb_transmit_packet, gdb_send_stop_reason,
}
use arm_processor_simulator.Gdb.Handlers.{after, write_at, write_memory_binary}
use arm_processor_simulator.Gdb.Transfer.{encode, stored, stored-outside, write_cells-encode}
use arm_processor_simulator.Gdb.Run.{cont}
use arm_processor_simulator.Gdb.Continue.{IsAt, Runs, stay, round, is_undefined, cont-Runs}
use arm_processor_simulator.Invariant.Keeps.{Kept, Kept-refl, Kept-trans}
use arm_processor_simulator.Invariant.Step.{Keeps-arm_step}
use arm_processor_simulator.Util.{get_bits}

-- The undefined instruction that the debugger uses, and its bytes in the order of the memory.
abbrev pub breakpoint : ℕ
breakpoint = 0xE7F000F0

abbrev pub breakpoint_bytes : Bool → List ℕ
breakpoint_bytes big =
    if big then 0xE7 ∷ 0xF0 ∷ 0x00 ∷ 0xF0 ∷ [] else 0xF0 ∷ 0x00 ∷ 0xF0 ∷ 0xE7 ∷ []

abbrev with_breakpoint : Gdb → ℕ → Gdb
with_breakpoint g b = record g {
  arm = record g.arm { mem = stored g.arm.mem b (breakpoint_bytes g.arm.mem.is_big_endian) };
}

word_at-stored :
    (mem : Memory) (b : ℕ)
    → word_at (stored mem b (breakpoint_bytes mem.is_big_endian)) b ≡ breakpoint
word_at-stored mem b = elim (Bool-cases mem.is_big_endian) [
  | inl big ↦ rw big (ground arith)
  | inr little ↦ rw little (ground arith)
]

write_at-stored :
    (mem : Memory) (b : ℕ) (big : Bool) (rest : List ℕ)
    → b + 4 ≤ mem.size
    → mem.size < 2 ^ 32
    → write_at 4 b (encode (breakpoint_bytes big) ++ rest) mem
      ≡ done (true, stored mem b (breakpoint_bytes big))
unfolding write_at memory_get_size
write_at-stored mem b true rest le small =
    let inside : ltb b mem.size ≡ true = ground arith in
    rw inside (write_cells-encode mem b (breakpoint_bytes true) rest le small refl)
write_at-stored mem b false rest le small =
    let inside : ltb b mem.size ≡ true = ground arith in
    rw inside (write_cells-encode mem b (breakpoint_bytes false) rest le small refl)

write_breakpoint :
    (s text rest : List ℕ) (b : ℕ) (g : Gdb)
    → text_of s ≡ done text
    → scan_pair text ≡ done (some b, some 4)
    → after b':' s ≡ done (encode (breakpoint_bytes g.arm.mem.is_big_endian) ++ rest)
    → b + 4 ≤ g.arm.mem.size
    → g.arm.mem.size < 2 ^ 32
    → write_memory_binary s g ≡ gdb_send_data (codes "OK") (with_breakpoint g b)
unfolding write_memory_binary
write_breakpoint s text rest b g texts numbers content le small =
    let write = write_at-stored g.arm.mem b g.arm.mem.is_big_endian rest le small in
    rw (texts, numbers, content, write) refl

-- The state after the answer, with the memory `mem`.
abbrev answer_with : Gdb → Memory → Gdb
answer_with g mem = record g {
  arm = record g.arm { mem = mem };
  packet = frame (codes "OK");
  sent = frame (codes "OK") ∷ g.sent;
}

-- The state after the answer.
unfoldable answered : Gdb → ℕ → Gdb
answered g b = record (with_breakpoint g b) {
  packet = frame (codes "OK");
  sent = frame (codes "OK") ∷ g.sent;
}

ok_sent :
    (g : Gdb) (b : ℕ)
    → g.is_shut ≡ false
    → gdb_send_data (codes "OK") (with_breakpoint g b) ≡ done (tt, answered g b)
unfolding gdb_send_data gdb_send_buffer gdb_transmit_packet answered
ok_sent g b live = rw live refl

-- An answer that returns was not made to a socket that is shut down.
sent-live :
    (g g1 : Gdb) (b : ℕ)
    → gdb_send_data (codes "OK") (with_breakpoint g b) ≡ done (tt, g1)
    → g.is_shut ≡ false
unfolding gdb_send_data gdb_send_buffer gdb_transmit_packet
sent-live g g1 b h = elim (Bool-cases g.is_shut) [ inl shut ↦ absurd cc | inr live ↦ live ]

done-tt : {g h : Gdb} → ◌≡◌ {A = Outcome (Unit {0} × Gdb)} (done (tt, g)) (done (tt, h)) → g ≡ h
done-tt e = cc

outside :
    (mem : Memory) (b i : ℕ)
    → (i < b) ⊎ (b + 4 ≤ i)
    → (stored mem b (breakpoint_bytes mem.is_big_endian)).values i ≡ mem.values i
outside mem b i h = elim (Bool-cases mem.is_big_endian) [
  | inl big ↦ rw big (stored-outside mem b (breakpoint_bytes true) i h)
  | inr little ↦ rw little (stored-outside mem b (breakpoint_bytes false) i h)
]

kept_size :
    (mem : Memory) (b : ℕ) → (stored mem b (breakpoint_bytes mem.is_big_endian)).size ≡ mem.size
kept_size mem b = elim (Bool-cases mem.is_big_endian) [
  | inl big ↦ rw big refl
  | inr little ↦ rw little refl
]

kept_order :
    (mem : Memory) (b : ℕ)
    → (stored mem b (breakpoint_bytes mem.is_big_endian)).is_big_endian ≡ mem.is_big_endian
kept_order mem b = elim (Bool-cases mem.is_big_endian) [
  | inl big ↦ rw big refl
  | inr little ↦ rw little refl
]

-- What all instructions keep.
Runs-Kept : (n : ℕ) (g g' : Gdb) → Runs n g g' → Kept g.arm g'.arm
Runs-Kept zero g g' stay = Kept-refl g.arm
Runs-Kept (suc n) g g' (round p a result at other stepped runs) =
    Kept-trans g.arm p g'.arm (Keeps-arm_step.at g.arm result p stepped)
      (Runs-Kept n (record g { arm = p; target_exception = result }) g' runs)

-- The debugger writes a breakpoint at an address inside the memory, in the memory's order, and lets the
-- processor continue. OK is answered; the breakpoint is in its place; and no other cell, not the size
-- and the order of the memory, no register, not the cycle counter, and nothing else of the debugger's
-- state has changed. If the processor comes to the address after some number of instructions, none of
-- them a breakpoint and the word still in its place, it stops there, before the breakpoint is executed,
-- and the reason of the stop is sent.
pub breakpoint-Runs :
    (rounds n b : ℕ) (s text rest : List ℕ) (g g1 g2 : Gdb)
    → text_of s ≡ done text
    → scan_pair text ≡ done (some b, some 4)
    → after b':' s ≡ done (encode (breakpoint_bytes g.arm.mem.is_big_endian) ++ rest)
    → b + 4 ≤ g.arm.mem.size
    → g.arm.mem.size < 2 ^ 32
    → write_memory_binary s g ≡ done (tt, g1)
    → Runs n g1 g2
    → IsReady g2.arm b
    → word_at g2.arm.mem b ≡ word_at g1.arm.mem b
    → n < rounds
    → (g1 ≡ record g {
      arm = record g.arm { mem = g1.arm.mem };
      packet = frame (codes "OK");
      sent = frame (codes "OK") ∷ g.sent;
    })
      × (word_at g1.arm.mem b ≡ breakpoint)
      × ((i : ℕ) → (i < b) ⊎ (b + 4 ≤ i) → g1.arm.mem.values i ≡ g.arm.mem.values i)
      × (g1.arm.mem.size ≡ g.arm.mem.size)
      × (g1.arm.mem.is_big_endian ≡ g.arm.mem.is_big_endian)
      × (cont rounds g1 ≡ (gdb_send_stop_reason >> pure true) g2)
breakpoint-Runs rounds n b s text rest g g1 g2 texts numbers content le small write runs ready kept
      lt =
    let written = write_breakpoint s text rest b g texts numbers content le small in
    let live : g.is_shut ≡ false = sent-live g g1 b (sym written ∙ write) in
    let same : g1 ≡ answered g b = done-tt (sym write ∙ written ∙ ok_sent g b live) in
    let mem : g1.arm.mem ≡ (with_breakpoint g b).arm.mem =
      ap (λ h. h.arm.mem) same ∙ unfold answered in refl in
    let word : word_at g1.arm.mem b ≡ breakpoint =
      ap (λ m. word_at m b) mem ∙ word_at-stored g.arm.mem b in
    let size : g1.arm.mem.size ≡ g.arm.mem.size = ap (λ m. m.size) mem ∙ kept_size g.arm.mem b in
    let all = Runs-Kept n g1 g2 runs in
    let inside : b + 3 < g2.arm.mem.size = omega (arith, size, all.memory.size) in
    let at : IsAt g2.arm b = record { ready = ready; inside = inside } in
    let break : is_undefined (word_at g2.arm.mem b) ≡ true =
      ap is_undefined (kept ∙ word) ∙ unfold get_bits in refl in
    (
      same ∙ unfold answered in ap (λ m. answer_with g m) (sym mem),
      word,
      λ i out. ap (λ m. m.values i) mem ∙ outside g.arm.mem b i out,
      size,
      ap (λ m. m.is_big_endian) mem ∙ kept_order g.arm.mem b,
      cont-Runs rounds n g1 g2 b runs at break lt,
    )
