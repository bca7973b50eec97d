-- ===== src/Debug/Order.antt =====
-- arm_simulator-1.4/debug.c: the order of names that `strcmp` gives.
use arm_processor_simulator.Base.{
  ℕ, ◌<◌, true, false, List, [], ◌∷◌, ◌≡◌, refl, arith, ◌⊎◌, inl, inr, Bool-cases,
}
use arm_processor_simulator.Debug.{Files, before}

pub before_irrefl : (a : List ℕ) → before a a ≡ false
before_irrefl [] = refl
before_irrefl (x ∷ xs) = ground (arith, before_irrefl xs)

pub before_trans : (a b c : List ℕ) → before a b ≡ true → before b c ≡ true → before a c ≡ true
before_trans [] [] c p q = cc
before_trans [] (y ∷ ys) [] p q = cc
before_trans [] (y ∷ ys) (z ∷ zs) p q = refl
before_trans (x ∷ xs) [] c p q = cc
before_trans (x ∷ xs) (y ∷ ys) [] p q = cc
before_trans (x ∷ xs) (y ∷ ys) (z ∷ zs) p q = ground (arith, before_trans xs ys zs)

pub before_antisym : (a b : List ℕ) → before a b ≡ false → before b a ≡ false → a ≡ b
before_antisym [] [] p q = refl
before_antisym [] (y ∷ ys) p q = cc
before_antisym (x ∷ xs) [] p q = cc
before_antisym (x ∷ xs) (y ∷ ys) p q = ground (arith, before_antisym xs ys)

-- A name that is not behind one that is before `c` is before `c`.
pub before_le_lt : (a b c : List ℕ) → before b a ≡ false → before b c ≡ true → before a c ≡ true
before_le_lt [] [] [] p q = cc
before_le_lt [] [] (z ∷ zs) p q = refl
before_le_lt [] (y ∷ ys) [] p q = cc
before_le_lt [] (y ∷ ys) (z ∷ zs) p q = refl
before_le_lt (x ∷ xs) [] c p q = cc
before_le_lt (x ∷ xs) (y ∷ ys) [] p q = cc
before_le_lt (x ∷ xs) (y ∷ ys) (z ∷ zs) p q = ground (arith, before_le_lt xs ys zs)

pub before_lt_le : (a b c : List ℕ) → before a b ≡ true → before c b ≡ false → before a c ≡ true
before_lt_le [] [] c p q = cc
before_lt_le [] (y ∷ ys) [] p q = cc
before_lt_le [] (y ∷ ys) (z ∷ zs) p q = refl
before_lt_le (x ∷ xs) [] c p q = cc
before_lt_le (x ∷ xs) (y ∷ ys) [] p q = cc
before_lt_le (x ∷ xs) (y ∷ ys) (z ∷ zs) p q = ground (arith, before_lt_le xs ys zs)

pub before_asym : (a b : List ℕ) → before a b ≡ true → before b a ≡ false
before_asym [] [] p = cc
before_asym [] (y ∷ ys) p = refl
before_asym (x ∷ xs) [] p = cc
before_asym (x ∷ xs) (y ∷ ys) p = ground (arith, before_asym xs ys)

pub before_le_trans :
    (a b c : List ℕ) → before b a ≡ false → before c b ≡ false → before c a ≡ false
before_le_trans a b c p q = elim (Bool-cases (before c a)) [
  | inl h ↦ let less = before_lt_le c a b h p in cc
  | inr h ↦ h
]

-- No name stands before a name that is smaller.
unfoldable pub IsSorted : Files → Type 0
IsSorted f =
    (i j : ℕ)
    → i < j
    → j < f.nb_debugged_files
    → before (f.debugged_files j) (f.debugged_files i) ≡ false

unfoldable pub IsListed : Files → List ℕ → Type 0
IsListed f x = (i : ℕ) × (i < f.nb_debugged_files) × (f.debugged_files i ≡ x)

pub order : (i p : ℕ) → (i < p) ⊎ ((i ≡ p) ⊎ (p < i))
order i p = ground arith
