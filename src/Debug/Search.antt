-- ===== src/Debug/Search.antt =====
-- arm_simulator-1.4/debug.c: the search of a name in the array.
use arm_processor_simulator.Base.{
  ℕ, zero, suc, ◌+◌, ◌-◌, ◌/◌, ◌<◌, ◌≤◌, Bool, true, false, ◌&&◌, List, ◌≡◌, ◌↔◌, inl, inr, sym,
  ◌∙◌, ltb, ◌==◌, arith, Bool-cases, if_false, same_text, same_text-eq, same_text_refl, ap, ==_iff,
}
use arm_processor_simulator.Debug.{Files, before, search_loop, is_debugged}
use arm_processor_simulator.Debug.Order.{
  before_le_lt, before_lt_le, before_irrefl, before_antisym, IsSorted, IsListed, order,
}

-- `middle` lies inside a range of two or more.
middle-range :
    (from end : ℕ)
    → from + 1 < end
    → (from ≤ (from + (end - 1)) / 2) × ((from + (end - 1)) / 2 < end)
middle-range from end lt = (omega arith, omega arith)

-- The names from `from` to before `end`.
IsWithin : (ℕ → List ℕ) → ℕ → ℕ → List ℕ → Type 0
IsWithin files from end name = (i : ℕ) × (from ≤ i) × (i < end) × (files i ≡ name)

SortedTo : (ℕ → List ℕ) → ℕ → Type 0
SortedTo files n = (i j : ℕ) → i < j → j < n → before (files j) (files i) ≡ false

-- A name behind the one at `m` is not before it.
within-above :
    (files : ℕ → List ℕ) (n m i : ℕ) (name : List ℕ)
    → SortedTo files n
    → m < n
    → before (files m) name ≡ true
    → files i ≡ name
    → m < i
unfolding SortedTo
within-above files n m i name sorted lt h e = elim (order i m) [
  | inl less ↦
      let behind = before_le_lt (files i) (files m) name (sorted i m less lt) h in
      let irrefl = before_irrefl name in cc
  | inr (inl same) ↦ let irrefl = before_irrefl name in cc
  | inr (inr greater) ↦ greater
]

within-below :
    (files : ℕ → List ℕ) (n m i : ℕ) (name : List ℕ)
    → SortedTo files n
    → i < n
    → before name (files m) ≡ true
    → files i ≡ name
    → i < m
unfolding SortedTo
within-below files n m i name sorted lt h e = elim (order i m) [
  | inl less ↦ less
  | inr (inl same) ↦ let irrefl = before_irrefl name in cc
  | inr (inr greater) ↦
      let behind = before_lt_le name (files m) (files i) h (sorted m i greater lt) in
      let irrefl = before_irrefl name in cc
]

last-test :
    (from end : ℕ) (b : Bool) → (from + 1 == end && b) ≡ true → (from + 1 ≡ end) × (b ≡ true)
last-test from end b h = ground arith

last-found :
    (from end : ℕ) (a b : List ℕ)
    → from + 1 ≡ end
    → a ≡ b
    → (from + 1 == end && same_text a b) ≡ true
last-found from end a b h e =
    let test = (==_iff (from + 1) end).1 h in let same = same_text_refl b in cc

search_loop_lem :
    (rounds : ℕ) (files : ℕ → List ℕ) (n : ℕ) (name : List ℕ) (from end : ℕ)
    → SortedTo files n
    → end ≤ n
    → end < from + rounds
    → (search_loop rounds files name from end ≡ true) ↔ IsWithin files from end name
unfolding search_loop IsWithin
search_loop_lem zero files n name from end sorted le fuel =
    (λ h. absurd cc, λ (i, ge, lt, e). absurd (omega arith))
search_loop_lem (suc rounds) files n name from end sorted le fuel =
    let m = (from + (end - 1)) / 2 in
    let above = search_loop rounds files name (m + 1) end in
    let below = search_loop rounds files name from m in
    elim (Bool-cases (ltb (from + 1) end)) [
      | inl wide ↦
          let (m_ge, m_lt) = middle-range from end (ground arith) in
          elim (Bool-cases (before (files m) name)) [
            | inl h ↦
                let rest =
                  search_loop_lem rounds files n name (m + 1) end sorted le (omega arith) in
                (
                  λ found. let (i, ge, lt, e) = rest.0 cc in (i, omega arith, lt, e),
                  λ (i, ge, lt, e).
                      let found = rest.1 (
                        i,
                        omega (arith, within-above files n m i name sorted (omega arith) h e),
                        lt,
                        e,
                      ) in
                      cc,
                )
            | inr h ↦ elim (Bool-cases (before name (files m))) [
              | inl h' ↦
                  let rest =
                    search_loop_lem rounds files n name from m sorted (omega arith) (omega arith) in
                  (
                    λ found. let (i, ge, lt, e) = rest.0 cc in (i, ge, omega arith, e),
                    λ (i, ge, lt, e).
                        let found =
                          rest.1
                            (i, ge, within-below files n m i name sorted (omega arith) h' e, e) in
                        cc,
                  )
              | inr h' ↦
                  (λ found. (m, m_ge, m_lt, before_antisym (files m) name h h'), λ within. cc)
            ]
          ]
      | inr narrow ↦
          let e' =
            if_false (ltb (from + 1) end) _ (from + 1 == end && same_text (files from) name)
              narrow in
          (
            λ found.
                let (one, same) =
                  last-test from end (same_text (files from) name) (sym e' ∙ found) in
                (from, omega arith, omega arith, same_text-eq (files from) name same),
            λ (i, ge, lt, e).
                let one : from ≡ i = ground arith in
                e' ∙ last-found from end (files from) name (ground arith) (ap files one ∙ e),
          )
    ]

-- The search in a sorted array: it finds exactly the names that are listed.
pub is_debugged_lem :
    (f : Files) (name : List ℕ) → IsSorted f → (is_debugged f name ≡ true) ↔ IsListed f name
unfolding is_debugged IsWithin IsSorted SortedTo IsListed
is_debugged_lem f name sorted =
    let n = f.nb_debugged_files in
    let found =
      search_loop_lem (suc n) f.debugged_files n name 0 n sorted (omega arith) (omega arith) in
    (
      λ h. let (i, _, lt, e) = found.0 h in (i, lt, e),
      λ (i, lt, e). found.1 (i, omega arith, lt, e),
    )
