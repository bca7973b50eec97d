-- ===== src/LoadStore/Store.antt =====
-- STM in arm_load_store.c: the loop over the registers, and the assertion at its end.
use arm_processor_simulator.Base.{
  ℕ, zero, suc, not, ◌+◌, ◌*◌, ◌/◌, ◌^◌, ◌≤◌, ◌<◌, ◌≡◌, inl, inr, refl, ◌∙◌, sym, ap, subst, arith,
  true, done, ◌==◌, Bool-cases,
}
use arm_processor_simulator.Util.{u32, sub32, get_bit, get_bits}
use arm_processor_simulator.Util.Fields.{get_bit_lem}
use arm_processor_simulator.Memory.{Memory}
use arm_processor_simulator.Memory.Cells.{IsBytes}
use arm_processor_simulator.Memory.Access.{word_at}
use arm_processor_simulator.Memory.RoundTrip.{memory_write_word-word}
use arm_processor_simulator.Core.{Core, pc_seen, arm_write_word}
use arm_processor_simulator.Core.Access.{stored, HasMode, HasMode-le, arm_read_register-done}
use arm_processor_simulator.DataProcessing.{truth}
use arm_processor_simulator.LoadStore.Condition.{ones}
use arm_processor_simulator.LoadStore.Transfer.{
  Progress, at_start, stm_one, stm_loop, assert_end, execute_instr_multiple,
}
use arm_processor_simulator.LoadStore.Words.{
  IsStored, HasWords, next_bits, IsStored-trans, HasWords-skip, HasWords-first, word_at-IsStored,
}

-- A processor that STM can store from into the addresses below the memory's size.
pub record IsStoring (p : Core) : Type 0 where
  pub mode : HasMode p
  pub bytes : IsBytes p.mem
  pub words : 2 < p.mem.size
  pub room : p.mem.size + 3 ≤ 2 ^ 32

stm_one-done :
    (i : ℕ) (s : Progress) (p : Core)
    → IsStoring p
    → i < 16
    → s.address + 4 ≤ p.mem.size
    → (mem : Memory) × (stm_one i s p
        ≡ done (record s { address = s.address + 4; res = 0 }, record p { mem = mem }))
      × IsStored p.mem s.address 4 mem
      × (word_at mem s.address ≡ u32 (pc_seen i (stored p i)))
unfolding stm_one arm_write_word
stm_one-done i s p ok h inside =
    let value = pc_seen i (stored p i) in
    let read = arm_read_register-done p i h (HasMode-le p ok.mode) in
    let (mem, write, written, word) =
      memory_write_word-word p.mem s.address value ok.bytes (omega arith)
        (omega (arith, ok.room)) in
    let next : u32 (s.address + 4) ≡ s.address + 4 = omega (arith, ok.room) in
    (
      mem,
      rw (read, write, next) refl,
      record {
        same_size = written.same_size;
        same_order = written.same_order;
        bytes = written.bytes;
        outside = written.outside;
      },
      word,
    )

-- What STM stores of each register.
abbrev values_of : Core → ℕ → ℕ
values_of p i = u32 (pc_seen i (stored p i))

IsStoring-stored :
    (p : Core) (a length : ℕ) (mem : Memory)
    → IsStoring p
    → IsStored p.mem a length mem
    → IsStoring (record p { mem = mem })
IsStoring-stored p a length mem ok h = record {
  mode = ok.mode;
  bytes = h.bytes;
  words = rw h.same_size ok.words;
  room = rw h.same_size ok.room;
}

stm_loop-done :
    (registers rounds i : ℕ) (s : Progress) (p : Core)
    → IsStoring p
    → i + rounds ≤ 16
    → s.res ≡ 0
    → s.address + 4 * ones rounds (registers / 2 ^ i) ≤ p.mem.size
    → (s' : Progress) × (mem : Memory) × (stm_loop registers rounds i s p
        ≡ done (s', record p { mem = mem }))
      × (s'.res ≡ 0)
      × (s'.address ≡ s.address + 4 * ones rounds (registers / 2 ^ i))
      × IsStored p.mem s.address (4 * ones rounds (registers / 2 ^ i)) mem
      × HasWords registers rounds i s.address (values_of p) mem
unfolding stm_loop
stm_loop-done registers zero i s p ok h res inside = (
  s,
  p.mem,
  refl,
  res,
  omega arith,
  record { same_size = refl; same_order = refl; bytes = ok.bytes; outside = λ b apart. refl },
  record { at = λ k lt bit. absurd (omega arith) },
)
stm_loop-done registers (suc rounds) i s p ok h res inside =
    let bit = get_bit_lem registers i in
    let rest = next_bits registers i in
    let count : ones (suc rounds) (registers / 2 ^ i)
        ≡ get_bit registers i + ones rounds (registers / 2 ^ (i + 1)) =
      rw (bit, sym rest) refl in
    let go : not (truth s.res) ≡ true = ground arith in
    elim (Bool-cases (truth (get_bit registers i))) [
      | inr clear ↦
          let zero_bit : get_bit registers i ≡ 0 = ground arith in
          let total : ones (suc rounds) (registers / 2 ^ i)
              ≡ ones rounds (registers / 2 ^ (i + 1)) =
            omega (arith, count, zero_bit) in
          let (s', mem, runs, res', address, stored_ok, words) =
            stm_loop-done registers rounds (i + 1) s p ok (omega arith) res
              (omega (arith, total)) in
          (
            s',
            mem,
            rw (go, clear) runs,
            res',
            omega (arith, total, address),
            subst (λ t. IsStored p.mem s.address (4 * t) mem) (sym total) stored_ok,
            HasWords-skip registers rounds i s.address (values_of p) mem zero_bit words,
          )
      | inl set ↦
          let one_bit : get_bit registers i ≡ 1 = ground (arith, bit) in
          let total : ones (suc rounds) (registers / 2 ^ i)
              ≡ 1 + ones rounds (registers / 2 ^ (i + 1)) =
            omega (arith, count, one_bit) in
          let (mid, first, one, word) =
            stm_one-done i s p ok (omega arith) (omega (arith, total)) in
          let q : Core = record p { mem = mid } in
          let ok' : IsStoring q = IsStoring-stored p s.address 4 mid ok one in
          let s1 : Progress = record s { address = s.address + 4; res = 0 } in
          let (s', mem, runs, res', address, last, words) =
            stm_loop-done registers rounds (i + 1) s1 q ok' (omega arith) refl
              (omega (arith, total, one.same_size)) in
          let before : word_at mem s.address ≡ word_at mid s.address =
            word_at-IsStored mid mem s.address (4 * ones rounds (registers / 2 ^ (i + 1))) last in
          let kept : word_at mem s.address ≡ values_of p i =
            ◌∙◌ {a = word_at mem s.address} before word in
          (
            s',
            mem,
            rw (go, set, first) runs,
            res',
            omega (arith, total, address),
            subst (λ t. IsStored p.mem s.address (4 * t) mem) (sym total)
                (IsStored-trans p.mem mid mem s.address (ones rounds (registers / 2 ^ (i + 1))) one
                  last),
            HasWords-first registers rounds i s.address (values_of p) mem one_bit kept words,
          )
    ]

-- STM stores its registers and returns 0, and the assertion at its end holds: conditions are that the
-- mode is one of the seven, the words of the list lie in the memory from the start address
-- on, and the end address is the last of them. The words are the values of the registers in the order
-- of their numbers, the program counter as it is read. No register changes, and no cell of the memory
-- but those words'.
pub execute_instr_multiple-stm :
    (ins start end : ℕ) (p : Core)
    → IsStoring p
    → get_bit ins 20 ≡ 0
    → start + 4 * ones 16 (get_bits ins 15 0) ≤ p.mem.size
    → end ≡ sub32 (start + 4 * ones 16 (get_bits ins 15 0)) 4
    → (mem : Memory) × (execute_instr_multiple ins start end p ≡ done (0, record p { mem = mem }))
      × IsStored p.mem start (4 * ones 16 (get_bits ins 15 0)) mem
      × ((k : ℕ)
          → k < 16
          → get_bit (get_bits ins 15 0) k ≡ 1
          → word_at mem (start + 4 * ones k (get_bits ins 15 0)) ≡ u32 (pc_seen k (stored p k)))
unfolding execute_instr_multiple assert_end
execute_instr_multiple-stm ins start end p ok store inside last =
    let list = get_bits ins 15 0 in
    let whole : list / 2 ^ 0 ≡ list = omega arith in
    let (s', mem, runs, res, address, stored_ok, words) =
      stm_loop-done list 16 0 (at_start start) p ok (omega arith) refl
        (subst (λ t. start + 4 * ones 16 t ≤ p.mem.size) (sym whole) inside) in
    let place : s'.address ≡ start + 4 * ones 16 list =
      address ∙ ap (λ t. start + 4 * ones 16 t) whole in
    let holds : (end == sub32 s'.address 4) ≡ true = rw place (ground (arith, last)) in
    (
      mem,
      rw (store, runs, holds, res) refl,
      subst (λ t. IsStored p.mem start (4 * ones 16 t) mem) whole stored_ok,
      λ k lt bit.
          let same : k ≡ 0 + k = omega arith in
          ap (λ t. word_at mem (start + 4 * ones k t)) (sym whole)
          ∙ words.at k lt (ap (λ j. get_bit list j) (sym same) ∙ bit)
          ∙ ap (values_of p) (sym same),
    )
