-- ===== src/LoadStore/Words.antt =====
-- What a run of stores of words leaves in the memory, and where each word of a list of registers is.
use arm_processor_simulator.Base.{
  ℕ, zero, suc, ◌+◌, ◌*◌, ◌/◌, ◌^◌, ◌≤◌, ◌<◌, ◌≡◌, ◌⊎◌, inl, inr, refl, ◌∙◌, sym, ap, subst, arith,
}
use native.Mathlib.Nat.{div-div-eq-div-mul}
use arm_processor_simulator.Base.Bits.{pow-add}
use arm_processor_simulator.Util.{get_bit}
use arm_processor_simulator.Util.Fields.{get_bit_lem}
use arm_processor_simulator.Memory.{Memory}
use arm_processor_simulator.Memory.Cells.{IsBytes}
use arm_processor_simulator.Memory.Access.{word_at}
use arm_processor_simulator.LoadStore.Condition.{ones}

-- `out` is the memory `mem` with no cell changed but the `length` from `a` on.
pub record IsStored (mem : Memory) (a length : ℕ) (out : Memory) : Type 0 where
  pub same_size : out.size ≡ mem.size
  pub same_order : out.is_big_endian ≡ mem.is_big_endian
  pub bytes : IsBytes out
  pub outside : (b : ℕ) → (b < a) ⊎ (a + length ≤ b) → out.values b ≡ mem.values b

pub next_bits : (x i : ℕ) → x / 2 ^ i / 2 ≡ x / 2 ^ (i + 1)
next_bits x i = div-div-eq-div-mul x (2 ^ i) 2 ∙ ap (λ t. x / t) (sym (pow-add i 1))

pub IsStored-trans :
    (mem mid out : Memory) (a n : ℕ)
    → IsStored mem a 4 mid
    → IsStored mid (a + 4) (4 * n) out
    → IsStored mem a (4 * (1 + n)) out
IsStored-trans mem mid out a n one rest = record {
  same_size = rest.same_size ∙ one.same_size;
  same_order = rest.same_order ∙ one.same_order;
  bytes = rest.bytes;
  outside = λ b apart.
      rest.outside b (elim apart [ inl below ↦ inl (omega arith) | inr above ↦ inr (omega arith) ])
      ∙ one.outside b (elim apart [ inl below ↦ inl below | inr above ↦ inr (omega arith) ]);
}

-- From the address on, `mem` has the values of the registers of the list from `i` on, in this order.
pub record HasWords (registers rounds i address : ℕ) (values : ℕ → ℕ) (mem : Memory) : Type 0 where
  pub at :
      (k : ℕ)
      → k < rounds
      → get_bit registers (i + k) ≡ 1
      → word_at mem (address + 4 * ones k (registers / 2 ^ i)) ≡ values (i + k)

HasWords-next :
    (registers rounds i a : ℕ) (values : ℕ → ℕ) (mem : Memory)
    → (get_bit registers i ≡ 1 → word_at mem a ≡ values i)
    → HasWords registers rounds (i + 1) (a + 4 * get_bit registers i) values mem
    → HasWords registers (suc rounds) i a values mem
HasWords-next registers rounds i a values mem here rest = record { at = each }
  where
    each :
        (k : ℕ)
        → k < suc rounds
        → get_bit registers (i + k) ≡ 1
        → word_at mem (a + 4 * ones k (registers / 2 ^ i)) ≡ values (i + k)
    each zero lt bit =
        let same : i ≡ i + 0 = omega arith in
        ap (λ b. word_at mem b) (omega arith)
        ∙ here (ap (λ j. get_bit registers j) same ∙ bit)
        ∙ ap values same
    each (suc k) lt bit =
        let moved : i + 1 + k ≡ i + suc k = omega arith in
        let count : ones (suc k) (registers / 2 ^ i)
            ≡ get_bit registers i + ones k (registers / 2 ^ (i + 1)) =
          rw (get_bit_lem registers i, sym (next_bits registers i)) refl in
        let place : a + 4 * get_bit registers i + 4 * ones k (registers / 2 ^ (i + 1))
            ≡ a + 4 * ones (suc k) (registers / 2 ^ i) =
          omega (arith, count) in
        let word = rest.at k (omega arith) (ap (λ j. get_bit registers j) moved ∙ bit) in
        ap (λ b. word_at mem b) (sym place) ∙ word ∙ ap values moved

-- Where `i` is not in the list, and where its word comes first.
pub HasWords-skip :
    (registers rounds i a : ℕ) (values : ℕ → ℕ) (mem : Memory)
    → get_bit registers i ≡ 0
    → HasWords registers rounds (i + 1) a values mem
    → HasWords registers (suc rounds) i a values mem
HasWords-skip registers rounds i a values mem clear rest =
    let place : a ≡ a + 4 * get_bit registers i = omega (arith, clear) in
    HasWords-next registers rounds i a values mem (λ one. absurd (omega (arith, clear, one)))
      (subst (λ b. HasWords registers rounds (i + 1) b values mem) place rest)

pub HasWords-first :
    (registers rounds i a : ℕ) (values : ℕ → ℕ) (mem : Memory)
    → get_bit registers i ≡ 1
    → word_at mem a ≡ values i
    → HasWords registers rounds (i + 1) (a + 4) values mem
    → HasWords registers (suc rounds) i a values mem
HasWords-first registers rounds i a values mem set word rest =
    let place : a + 4 ≡ a + 4 * get_bit registers i = omega (arith, set) in
    HasWords-next registers rounds i a values mem (λ _. word)
      (subst (λ b. HasWords registers rounds (i + 1) b values mem) place rest)

-- A word before the cells that are stored.
pub word_at-IsStored :
    (mem out : Memory) (a n : ℕ) → IsStored mem (a + 4) n out → word_at out a ≡ word_at mem a
word_at-IsStored mem out a n h =
    let cell : (k : ℕ) → k < 4 → out.values (a + k) ≡ mem.values (a + k) =
      λ k lt. h.outside (a + k) (inl (omega arith)) in
    ground (
      arith,
      h.same_order,
      cell 0 (omega arith),
      cell 1 (omega arith),
      cell 2 (omega arith),
      cell 3 (omega arith),
    )
