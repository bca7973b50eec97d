-- ===== src/Gdb/Sequence.antt =====
-- arm_simulator-1.4/gdb_protocol.c: sequences of words in a packet, and of registers that are written.
use arm_processor_simulator.Base.{
  ℕ, zero, suc, ◌+◌, ◌*◌, ◌^◌, ◌≤◌, ◌<◌, ◌&&◌, Bool, true, false, List, ◌++◌, ◌≡◌, refl, ap, ◌∙◌,
  done, ◌>>=◌ as and_then, ltb, leb, if◌then◌else◌, drop, update, arith,
}
use arm_processor_simulator.Constants.{is_mode}
use arm_processor_simulator.Registers.Bank.{bank, bank_ne}
use arm_processor_simulator.Core.{Core}
use arm_processor_simulator.Gdb.Text.{has_end}
use arm_processor_simulator.Gdb.Words.{Orders, read_uint32, write_uint32, write_loop}
use arm_processor_simulator.Gdb.Handlers.{skip_words}
use arm_processor_simulator.Gdb.Codec.{read_uint32-write_uint32, ended-word}

-- The words `w i`, `w (i + 1)` and on, and a rest.
abbrev pub words_text : Orders → (ℕ → ℕ) → ℕ → ℕ → List ℕ → List ℕ
words_text o w zero i rest = rest
words_text o w (suc n) i rest = write_uint32 o (w i) ++ words_text o w n (i + 1) rest

drop-bytes :
    (host target : Bool) (value n : ℕ) (rest : List ℕ)
    → drop
        (suc (suc (suc (suc (suc (suc (suc (suc n))))))))
        (write_uint32 (record { host_big = host; target_big = target }) value ++ rest)
      ≡ drop n rest
unfolding write_uint32 write_loop
drop-bytes true true value n rest = refl
drop-bytes true false value n rest = refl
drop-bytes false true value n rest = refl
drop-bytes false false value n rest = refl

eight : (n : ℕ) → n + 8 ≡ suc (suc (suc (suc (suc (suc (suc (suc n)))))))
eight n = omega arith

module _ (o : Orders) where
  pub drop-word :
      (value n : ℕ) (rest : List ℕ) → drop (n + 8) (write_uint32 o value ++ rest) ≡ drop n rest
  drop-word value n rest =
      ap (λ k. drop k (write_uint32 o value ++ rest)) (eight n)
      ∙ drop-bytes o.host_big o.target_big value n rest

  module _ (w : ℕ → ℕ) (rest : List ℕ) where
    pub drop-words : (n i k : ℕ) → drop (n * 8 + k) (words_text o w n i rest) ≡ drop k rest
    drop-words zero i k = let none : 0 * 8 + k ≡ k = omega arith in ap (λ m. drop m rest) none
    drop-words (suc n) i k =
        let bytes : suc n * 8 + k ≡ n * 8 + k + 8 = omega arith in
        ap (λ m. drop m (words_text o w (suc n) i rest)) bytes
        ∙ drop-word (w i) (n * 8 + k) (words_text o w n (i + 1) rest)
        ∙ drop-words n (i + 1) k

    pub ended-words : (n i : ℕ) → has_end rest ≡ true → has_end (words_text o w n i rest) ≡ true
    ended-words zero i h = h
    ended-words (suc n) i h =
        ended-word o (w i) (words_text o w n (i + 1) rest) (ended-words n (i + 1) h)

    pub first-word :
        (n i : ℕ)
        → ((j : ℕ) → w j < 2 ^ 32)
        → has_end rest ≡ true
        → read_uint32 o (words_text o w (suc n) i rest) ≡ done (w i)
    first-word n i small h =
        read_uint32-write_uint32 o (w i) (words_text o w n (i + 1) rest) (small i)
          (ended-words n (i + 1) h)

    pub skip_words-done :
        (n i : ℕ)
        → ((j : ℕ) → w j < 2 ^ 32)
        → has_end rest ≡ true
        → skip_words o n (words_text o w n i rest) ≡ done tt
    unfolding skip_words
    skip_words-done zero i small h = refl
    skip_words-done (suc n) i small h =
        ap (λ m. and_then m (λ value. skip_words o n (drop 8 (words_text o w (suc n) i rest))))
          (first-word n i small h)
        ∙ ap (skip_words o n) (drop-word (w i) 0 (words_text o w n (i + 1) rest))
        ∙ skip_words-done n (i + 1) small h

-- The registers of a mode from `i` on, written with `w`.
abbrev pub put_registers : ℕ → (ℕ → ℕ) → ℕ → ℕ → (ℕ → ℕ) → ℕ → ℕ
put_registers mode w zero i registers = registers
put_registers mode w (suc n) i registers =
    put_registers mode w n (i + 1) (update registers (bank mode i) (w i))

abbrev pub with_registers : Core → (ℕ → ℕ) → Core
with_registers p registers = record p { reg = record { registers = registers } }

pub put_registers-at :
    (mode : ℕ) (w : ℕ → ℕ) (n i j : ℕ) (registers : ℕ → ℕ)
    → is_mode mode ≡ true
    → i + n ≤ 16
    → j < 16
    → put_registers mode w n i registers (bank mode j)
      ≡ (if leb i j && ltb j (i + n) then w j else registers (bank mode j))
put_registers-at mode w zero i j registers known room lt = ground arith
put_registers-at mode w (suc n) i j registers known room lt =
    put_registers-at mode w n (i + 1) j (update registers (bank mode i) (w i)) known (omega arith)
      lt
    ∙ ground (arith, bank_ne mode j i known lt)
