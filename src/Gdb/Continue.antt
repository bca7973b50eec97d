-- ===== src/Gdb/Continue.antt =====
-- arm_simulator-1.4/gdb_protocol.c: where `cont` stops, by the instructions in the memory.
use arm_processor_simulator.Base.{
  ℕ, zero, suc, ◌+◌, ◌*◌, ◌/◌, ◌%◌, ◌^◌, ◌<◌, Bool, true, false, ◌&&◌, ◌==◌, Option, none, some,
  ◌≡◌, refl, ◌∙◌, done, arith, bit_and, ap,
}
use arm_processor_simulator.Base.Bits.{bit_and_split, bit_and_mask, bit_and_field}
use arm_processor_simulator.Util.{get_bits}
use arm_processor_simulator.Util.Fields.{get_bits_lem}
use arm_processor_simulator.Memory.Access.{word_at, memory_read_word-some}
use arm_processor_simulator.Core.{Core, arm_read_word}
use arm_processor_simulator.Core.Access.{read_pc, pc_seen_aligned}
use arm_processor_simulator.Instruction.{arm_step}
use arm_processor_simulator.Instruction.Step.{IsReady}
use arm_processor_simulator.Instruction.Branch.{word_at-small}
use arm_processor_simulator.Gdb.State.{Gdb, pure, ◌>>◌, on_arm, gdb_send_stop_reason}
use arm_processor_simulator.Gdb.Run.{step_target, is_breakpoint, next_instruction, cont_loop, cont}

-- The encodings that the ARM manual keeps undefined for good, with the condition `always`: bits 31 to 20
-- are 0xE7F, and bits 7 to 4 are 0xF.
abbrev pub is_undefined : ℕ → Bool
is_undefined word = get_bits word 31 20 == 0xE7F && get_bits word 7 4 == 0xF

masked :
    (w : ℕ) → w < 2 ^ 32 → bit_and w 0xFFF000F0 ≡ w / 2 ^ 20 * 2 ^ 20 + w / 2 ^ 4 % 2 ^ 4 * 2 ^ 4
masked w h =
    let whole : w ≡ w / 2 ^ 20 * 2 ^ 20 + w % 2 ^ 20 = omega arith in
    ap (λ x. bit_and x 0xFFF000F0) whole
    ∙ bit_and_split 20 (w / 2 ^ 20) (w % 2 ^ 20) 0xFFF 0xF0 (omega arith) (omega arith)
    ∙ omega (arith, bit_and_mask 12 (w / 2 ^ 20), bit_and_field 4 4 (w % 2 ^ 20))

pub is_breakpoint_lem : (w : ℕ) → w < 2 ^ 32 → is_breakpoint w ≡ is_undefined w
is_breakpoint_lem w h = ground (arith, masked w h, get_bits_lem w 31 20, get_bits_lem w 7 4)

-- The processor is about to fetch the word at `a`, which lies in the memory.
pub record IsAt (p : Core) (a : ℕ) : Type 0 where
  pub ready : IsReady p a
  pub inside : a + 3 < p.mem.size

-- So many instructions are executed from a state to another, none of them a breakpoint.
pub data Runs : ℕ → Gdb → Gdb → Type 0 where
  stay : {g : Gdb} → Runs 0 g g
  round :
      {n : ℕ} {g g' : Gdb} (p : Core) (a result : ℕ)
      → IsAt g.arm a
      → is_undefined (word_at g.arm.mem a) ≡ false
      → arm_step g.arm ≡ done (result, p)
      → Runs n (record g { arm = p; target_exception = result }) g'
      → Runs (suc n) g g'

next_instruction-IsReady :
    (p : Core) (a : ℕ) (old : Option ℕ)
    → IsAt p a
    → next_instruction old p ≡ done (some (word_at p.mem a), p)
unfolding next_instruction arm_read_word
next_instruction-IsReady p a old h =
    let ready = h.ready in
    let read = read_pc p ready.mode in
    let at = pc_seen_aligned a ready.small ready.aligned in
    let word =
      memory_read_word-some p.mem a ready.bytes h.inside (omega (arith, h.inside, ready.room)) in
    rw (read, ready.at, at, word) refl

-- What `cont` reads, and whether it is a breakpoint.
looked :
    (g : Gdb) (a : ℕ) (old : Option ℕ)
    → IsAt g.arm a
    → on_arm (next_instruction old) g ≡ done (some (word_at g.arm.mem a), g)
looked g a old h = rw (next_instruction-IsReady g.arm a old h) refl

judged :
    (p : Core) (a : ℕ) → IsAt p a → is_breakpoint (word_at p.mem a) ≡ is_undefined (word_at p.mem a)
judged p a h = is_breakpoint_lem (word_at p.mem a) (word_at-small p.mem a h.ready.bytes)

step_target-runs :
    (g : Gdb) (p : Core) (result : ℕ)
    → arm_step g.arm ≡ done (result, p)
    → step_target g ≡ done (tt, record g { arm = p; target_exception = result })
unfolding step_target
step_target-runs g p result stepped = rw stepped refl

one_round :
    (rounds : ℕ) (old : Option ℕ) (g g2 : Gdb) (instruction : ℕ)
    → on_arm (next_instruction old) g ≡ done (some instruction, g)
    → is_breakpoint instruction ≡ false
    → step_target g ≡ done (tt, g2)
    → cont_loop (suc rounds) old g ≡ cont_loop rounds (some instruction) g2
unfolding cont_loop
one_round rounds old g g2 instruction read other stepped = cc

last_round :
    (rounds : ℕ) (old : Option ℕ) (g : Gdb) (instruction : ℕ)
    → on_arm (next_instruction old) g ≡ done (some instruction, g)
    → is_breakpoint instruction ≡ true
    → cont_loop (suc rounds) old g ≡ done (true, g)
unfolding cont_loop
last_round rounds old g instruction read break = cc

pub cont_loop-round :
    (rounds : ℕ) (old : Option ℕ) (g : Gdb) (p : Core) (a result : ℕ)
    → IsAt g.arm a
    → is_undefined (word_at g.arm.mem a) ≡ false
    → arm_step g.arm ≡ done (result, p)
    → cont_loop (suc rounds) old g
      ≡ cont_loop rounds
          (some (word_at g.arm.mem a))
          (record g { arm = p; target_exception = result })
cont_loop-round rounds old g p a result h other stepped =
    one_round rounds old g (record g { arm = p; target_exception = result }) (word_at g.arm.mem a)
      (looked g a old h) (judged g.arm a h ∙ other) (step_target-runs g p result stepped)

cont_loop-end :
    (rounds : ℕ) (old : Option ℕ) (g : Gdb) (a : ℕ)
    → IsAt g.arm a
    → is_undefined (word_at g.arm.mem a) ≡ true
    → cont_loop (suc rounds) old g ≡ done (true, g)
cont_loop-end rounds old g a h break =
    last_round rounds old g (word_at g.arm.mem a) (looked g a old h) (judged g.arm a h ∙ break)

cont_loop-Runs :
    (rounds n : ℕ) (old : Option ℕ) (g g' : Gdb) (b : ℕ)
    → Runs n g g'
    → IsAt g'.arm b
    → is_undefined (word_at g'.arm.mem b) ≡ true
    → n < rounds
    → cont_loop rounds old g ≡ done (true, g')
cont_loop-Runs zero n old g g' b runs h break lt = absurd (omega arith)
cont_loop-Runs (suc rounds) zero old g g' b stay h break lt = cont_loop-end rounds old g b h break
cont_loop-Runs (suc rounds) (suc n) old g g' b (round p a result here other stepped runs) h break
      lt =
    cont_loop-round rounds old g p a result here other stepped
    ∙ cont_loop-Runs rounds n (some (word_at g.arm.mem a))
        (record g { arm = p; target_exception = result }) g' b runs h break (omega arith)

-- The command to continue, from a state from which the processor executes some number of instructions,
-- none of them in the encodings that stay undefined, and comes to one that is: it ends there, before
-- that one is executed, and the reason of the stop is sent. All these instructions lie in the memory, at
-- multiples of 4.
pub cont-Runs :
    (rounds n : ℕ) (g g' : Gdb) (b : ℕ)
    → Runs n g g'
    → IsAt g'.arm b
    → is_undefined (word_at g'.arm.mem b) ≡ true
    → n < rounds
    → cont rounds g ≡ (gdb_send_stop_reason >> pure true) g'
unfolding cont
cont-Runs rounds n g g' b runs h break lt =
    rw (cont_loop-Runs rounds n none g g' b runs h break lt) refl
