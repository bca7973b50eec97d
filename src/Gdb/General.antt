-- ===== src/Gdb/General.antt =====
-- arm_simulator-1.4/gdb_protocol.c: the packets that write and read all registers.
use arm_processor_simulator.Base.{
  ℕ, zero, suc, ◌+◌, ◌%◌, ◌^◌, ◌≤◌, ◌<◌, ◌&&◌, true, false, List, [], ◌∷◌, ◌++◌, ◌≡◌, refl, ap, ◌∙◌,
  done, Bool-cases, inl, inr, ◌>>=◌ as and_then, ltb, leb, ◌==◌, drop, codes, update, arith, ne→==,
  if_false, if_true,
}
use arm_processor_simulator.Util.{sub32, get_bits}
use arm_processor_simulator.Constants.{pc, cpsr, is_mode}
use arm_processor_simulator.Registers.{read_cpsr, write_cpsr, get_mode}
use arm_processor_simulator.Registers.Bank.{bank, bank_range}
use arm_processor_simulator.Core.{
  Core, pc_seen, arm_read_register, arm_write_register, arm_read_cpsr, arm_write_cpsr,
}
use arm_processor_simulator.Core.Access.{
  mode_of, put, stored, HasMode, HasMode-le, mode_of-put, pc_seen_aligned, arm_read_register-done,
  arm_write_register-done,
}
use arm_processor_simulator.Gdb.Text.{has_end}
use arm_processor_simulator.Gdb.Words.{Orders, read_uint32, write_uint32}
use arm_processor_simulator.Gdb.State.{
  Gdb, Action, ◌>>◌, gdb_send_data, gdb_send_buffer, gdb_transmit_packet,
}
use arm_processor_simulator.Gdb.Handlers.{
  registers_text, unknown, read_general_registers, write_registers, skip_words,
  write_general_registers,
}
use arm_processor_simulator.Gdb.Codec.{read_uint32-write_uint32, ended-word}
use arm_processor_simulator.Gdb.Sequence.{
  words_text, drop-word, drop-words, ended-words, first-word, skip_words-done, put_registers,
  with_registers, put_registers-at,
}

module _ (o : Orders) (w : ℕ → ℕ) where
  -- The registers of the packet are written one after the other.
  write_registers-done :
      (n i : ℕ) (rest : List ℕ) (p : Core)
      → HasMode p
      → i + n ≤ 16
      → ((j : ℕ) → w j < 2 ^ 32)
      → has_end rest ≡ true
      → write_registers o n i (words_text o w n i rest) p
        ≡ done (tt, with_registers p (put_registers (mode_of p) w n i p.reg.registers))
  unfolding write_registers
  write_registers-done zero i rest p mode room small h = refl
  write_registers-done (suc n) i rest p mode room small h =
      let s = words_text o w (suc n) i rest in
      let q = put p (bank (mode_of p) i) (w i) in
      let same : mode_of q ≡ mode_of p =
        mode_of-put p (bank (mode_of p) i) (w i) (bank_range (mode_of p) i (omega arith)).1 in
      ap
        (λ m. and_then m (λ value.
          and_then (arm_write_register i value p)
            (λ (_, p'). write_registers o n (i + 1) (drop 8 s) p')))
        (first-word o w rest n i small h)
      ∙ ap (λ m. and_then m (λ (_, p'). write_registers o n (i + 1) (drop 8 s) p'))
          (arm_write_register-done p i (w i) (omega arith) (HasMode-le p mode))
      ∙ ap (λ t. write_registers o n (i + 1) t q)
          (drop-word o (w i) 0 (words_text o w n (i + 1) rest))
      ∙ write_registers-done n (i + 1) rest q (ap is_mode same ∙ mode) (omega arith) small h
      ∙ ap (λ m. done (tt, with_registers p (put_registers m w n (i + 1) q.reg.registers))) same

  -- The registers below 15 are answered by their words.
  registers_text-done :
      (n i : ℕ) (p : Core)
      → HasMode p
      → i + n ≤ 15
      → ((j : ℕ) → j < 16 → stored p j ≡ w j)
      → registers_text o n i p ≡ done (words_text o w n i [], p)
  unfolding registers_text
  registers_text-done zero i p mode room holds = refl
  registers_text-done (suc n) i p mode room holds =
      let other : (i == pc) ≡ false = ne→== i pc (λ e. absurd (omega arith)) in
      let seen : arm_read_register i p ≡ done (w i, p) =
        arm_read_register-done p i (omega arith) (HasMode-le p mode)
        ∙ ap (λ v. done (v, p)) (if_false (i == pc) _ (stored p i) other)
        ∙ ap (λ v. done (v, p)) (holds i (omega arith)) in
      ap
        (λ m. and_then m (λ (v, p').
          and_then (registers_text o n (i + 1) p') (λ (r, p''). done (write_uint32 o v ++ r, p''))))
        seen
      ∙ ap (λ m. and_then m (λ (r, p''). done (write_uint32 o (w i) ++ r, p'')))
          (registers_text-done n (i + 1) p mode (omega arith) holds)

-- The body of the packet that writes all registers: 16 words, 25 that are dropped, and the status.
abbrev pub packet : Orders → (ℕ → ℕ) → (ℕ → ℕ) → ℕ → List ℕ → List ℕ
packet o w other status rest =
    words_text o w 16 0 (words_text o other 25 0 (write_uint32 o status ++ 0 ∷ rest))

-- What a request for all registers is answered: 16 words, 25 times `xxxxxxxx`, and the status.
abbrev pub answer : Orders → (ℕ → ℕ) → ℕ → List ℕ
answer o w status =
    words_text o w 15 0 [] ++ (write_uint32 o (w 15) ++ (unknown 25 ++ write_uint32 o status))

write_general_registers-done :
    (o : Orders) (s : List ℕ) (status : ℕ) (p : Core) (g : Gdb)
    → write_registers o 16 0 s g.arm ≡ done (tt, p)
    → skip_words o 25 (drop 128 s) ≡ done tt
    → read_uint32 o (drop 328 s) ≡ done status
    → write_general_registers o s g
      ≡ gdb_send_data (codes "OK") (record g { arm = record p { reg = write_cpsr p.reg status } })
unfolding write_general_registers arm_write_cpsr
write_general_registers-done o s status p g written skipped read = cc

read_general_registers-done :
    (o : Orders) (text : List ℕ) (seen : ℕ) (g : Gdb)
    → registers_text o 15 0 g.arm ≡ done (text, g.arm)
    → arm_read_register 15 g.arm ≡ done (seen, g.arm)
    → read_general_registers o g
      ≡ gdb_send_buffer
          (text
            ++ (write_uint32 o (sub32 seen 4)
                ++ (unknown 25 ++ write_uint32 o (read_cpsr g.arm.reg))))
          g
unfolding read_general_registers arm_read_cpsr
read_general_registers-done o text seen g general seen_pc = cc

-- The processor with the registers of the packet.
abbrev restored : Core → (ℕ → ℕ) → ℕ → Core
restored p w status =
    with_registers p (update (put_registers (mode_of p) w 16 0 p.reg.registers) cpsr status)

restored-mode :
    (p : Core) (w : ℕ → ℕ) (status : ℕ)
    → get_bits status 4 0 ≡ mode_of p
    → mode_of (restored p w status) ≡ mode_of p
unfolding get_mode read_cpsr
restored-mode p w status h = h

restored-stored :
    (p : Core) (w : ℕ → ℕ) (status j : ℕ)
    → HasMode p
    → get_bits status 4 0 ≡ mode_of p
    → j < 16
    → stored (restored p w status) j ≡ w j
restored-stored p w status j mode same lt =
    let registers = put_registers (mode_of p) w 16 0 p.reg.registers in
    ap (λ m. update registers cpsr status (bank m j)) (restored-mode p w status same)
    ∙ if_false (bank (mode_of p) j == cpsr) status (registers (bank (mode_of p) j))
        (ne→== _ _ (bank_range (mode_of p) j lt).1)
    ∙ put_registers-at (mode_of p) w 16 0 j p.reg.registers mode (omega arith) lt
    ∙ if_true (leb 0 j && ltb j 16) (w j) _ (ground arith)

read_general_registers-answer :
    (o : Orders) (w : ℕ → ℕ) (status : ℕ) (g : Gdb)
    → HasMode g.arm
    → ((j : ℕ) → j < 16 → stored g.arm j ≡ w j)
    → read_cpsr g.arm.reg ≡ status
    → w 15 < 2 ^ 32
    → w 15 % 4 ≡ 0
    → read_general_registers o g ≡ gdb_send_buffer (answer o w status) g
read_general_registers-answer o w status g mode holds is_status lt aligned =
    read_general_registers-done o (words_text o w 15 0 []) (pc_seen pc (stored g.arm 15)) g
      (registers_text-done o w 15 0 g.arm mode (omega arith) holds)
      (arm_read_register-done g.arm 15 (omega arith) (HasMode-le g.arm mode))
    ∙ ap
        (λ v.
          gdb_send_buffer
            (words_text o w 15 0 []
              ++ (write_uint32 o (sub32 (pc_seen pc v) 4)
                  ++ (unknown 25 ++ write_uint32 o (read_cpsr g.arm.reg))))
            g)
        (holds 15 (omega arith))
    ∙ ap
        (λ v.
          gdb_send_buffer
            (words_text o w 15 0 []
              ++ (write_uint32 o v ++ (unknown 25 ++ write_uint32 o (read_cpsr g.arm.reg))))
            g)
        (pc_seen_aligned (w 15) lt aligned)
    ∙ ap (λ v. gdb_send_buffer (answer o w v) g) is_status

-- What follows the answer OK.
after_ok :
    (g : Gdb) (k n : Action (Unit {0}))
    → ((g' : Gdb) → g'.arm ≡ g.arm → k g' ≡ n g')
    → (gdb_send_data (codes "OK") >> k) g ≡ (gdb_send_data (codes "OK") >> n) g
unfolding gdb_send_data gdb_send_buffer gdb_transmit_packet
after_ok g k n h = elim (Bool-cases g.is_shut) [
  | inl shut ↦ rw shut refl
  | inr live ↦ rw live (h _ refl)
]

-- The debugger writes all registers, by a packet of 42 words that ends within the array, with a status
-- of the mode that the processor is in and a multiple of 4 for the program counter, and then asks for
-- them: OK is answered, and then the same words, with `xxxxxxxx` for the 25 words that are dropped;
-- the 16 registers of the mode hold their words, and the CPSR the last one.
pub read_general_registers-write_general_registers :
    (o : Orders) (w other : ℕ → ℕ) (status : ℕ) (rest : List ℕ) (g : Gdb)
    → HasMode g.arm
    → get_bits status 4 0 ≡ mode_of g.arm
    → ((j : ℕ) → w j < 2 ^ 32)
    → ((j : ℕ) → other j < 2 ^ 32)
    → status < 2 ^ 32
    → w 15 % 4 ≡ 0
    → (p : Core) × ((write_general_registers o (packet o w other status rest)
            >> read_general_registers o)
          g
        ≡ (gdb_send_data (codes "OK") >> gdb_send_buffer (answer o w status))
            (record g { arm = p }))
      × ((j : ℕ) → j < 16 → stored p j ≡ w j)
      × (read_cpsr p.reg ≡ status)
      × (p.mem ≡ g.arm.mem)
unfolding read_cpsr write_cpsr
read_general_registers-write_general_registers o w other status rest g mode same small dropped lt
      aligned =
    let tail = write_uint32 o status ++ 0 ∷ rest in
    let floats = words_text o other 25 0 tail in
    let p = restored g.arm w status in
    let ended = ended-word o status (0 ∷ rest) refl in
    let written =
      write_general_registers-done o (packet o w other status rest) status
        (with_registers g.arm (put_registers (mode_of g.arm) w 16 0 g.arm.reg.registers)) g
        (write_registers-done o w 16 0 floats g.arm mode (omega arith) small
          (ended-words o other tail 25 0 ended))
        (ap (skip_words o 25) (drop-words o w floats 16 0 0)
          ∙ skip_words-done o other tail 25 0 dropped ended)
        (ap (read_uint32 o) (drop-words o w floats 16 0 200 ∙ drop-words o other tail 25 0 0)
          ∙ read_uint32-write_uint32 o status (0 ∷ rest) lt refl) in
    let holds = λ (j : ℕ) (k : j < 16). restored-stored g.arm w status j mode same k in
    let same_mode = restored-mode g.arm w status same in
    (
      p,
      ap (λ m. and_then m (λ (_, g'). read_general_registers o g')) written
          ∙ after_ok (record g { arm = p }) (read_general_registers o)
              (gdb_send_buffer (answer o w status))
              (λ g' e.
                read_general_registers-answer o w status g'
                  (ap (λ q. is_mode (mode_of q)) e ∙ ap is_mode same_mode ∙ mode)
                  (λ j k. ap (λ q. stored q j) e ∙ holds j k) (ap (λ q. read_cpsr q.reg) e)
                  (small 15) aligned),
      holds,
      refl,
      refl,
    )
