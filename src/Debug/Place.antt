-- ===== src/Debug/Place.antt =====
-- arm_simulator-1.4/debug.c: the two loops of `add_debug_to`.
use arm_processor_simulator.Base.{
  ℕ, zero, suc, ◌+◌, ◌-◌, ◌<◌, ◌≤◌, true, false, ◌&&◌, List, ◌≡◌, inl, inr, refl, sym, ◌∙◌, done,
  fault, ltb, leb, if◌then◌else◌, update, arith, Bool-cases, lt→ltb, subst, if_true, if_false,
}
use arm_processor_simulator.Debug.{Files, before, find_place, move_up, max_files_number}

-- What the first loop leaves in `i`.
unfoldable pub IsPlace : Files → List ℕ → ℕ → Type 0
IsPlace f name p =
    (p ≤ f.nb_debugged_files)
    × (p ≤ 64)
    × ((k : ℕ) → k < p → before (f.debugged_files k) name ≡ true)
    × (p < f.nb_debugged_files → p < 64 → before (f.debugged_files p) name ≡ false)

IsPlace-end :
    (f : Files) (name : List ℕ) (i : ℕ)
    → i ≤ f.nb_debugged_files
    → i ≤ 64
    → ((k : ℕ) → k < i → before (f.debugged_files k) name ≡ true)
    → (i < f.nb_debugged_files → i < 64 → before (f.debugged_files i) name ≡ false)
    → IsPlace f name i
unfolding IsPlace
IsPlace-end f name i le le' below h = (le, le', below, h)

pub place-le : (f : Files) (name : List ℕ) (p : ℕ) → IsPlace f name p → p ≤ f.nb_debugged_files
unfolding IsPlace
place-le f name p h = h.0

pub find_place_lem :
    (rounds : ℕ) (f : Files) (name : List ℕ) (i : ℕ)
    → i + rounds ≡ 64
    → i ≤ f.nb_debugged_files
    → ((k : ℕ) → k < i → before (f.debugged_files k) name ≡ true)
    → IsPlace f name (find_place rounds f name i)
unfolding find_place
find_place_lem zero f name i e le below =
    IsPlace-end f name i le (omega arith) below (λ lt lt'. absurd (omega arith))
find_place_lem (suc rounds) f name i e le below =
    let test =
      ltb i f.nb_debugged_files && ltb i max_files_number && before (f.debugged_files i) name in
    let rest = find_place rounds f name (i + 1) in
    elim (Bool-cases test) [
      | inl h ↦ subst (IsPlace f name) (sym (if_true test rest i h)) (
          find_place_lem rounds f name (i + 1) (omega arith) (ground arith) (λ k lt.
            elim (Bool-cases (ltb k i)) [
              | inl less ↦ below k (ground arith)
              | inr more ↦ ground arith
            ]))
      | inr h ↦
          subst (IsPlace f name) (sym (if_false test rest i h))
            (IsPlace-end f name i le (omega arith) below (λ lt lt'. ground arith))
    ]

-- The array once the entries from `i` to `j` have moved up by one.
abbrev pub moved : ℕ → ℕ → (ℕ → List ℕ) → ℕ → List ℕ
moved i j files k = if ltb i k && leb k j then files (k - 1) else files k

pub move_up_lem :
    (j i : ℕ) (files : ℕ → List ℕ)
    → j < 64
    → (g : ℕ → List ℕ) × (move_up j i files ≡ done g) × ((k : ℕ) → g k ≡ moved i j files k)
unfolding move_up
move_up_lem zero i files lt = (files, refl, λ k. ground arith)
move_up_lem (suc j) i files lt = elim (Bool-cases (ltb i (suc j))) [
  | inl h ↦
      let ih = move_up_lem j i (update files (suc j) (files j)) (omega arith) in
      (
        ih.0,
        if_true (ltb i (suc j)) _ (done files) h
            ∙ let stored =
                if_true (ltb (suc j) 64) (done (update files (suc j) (files j))) fault
                  (lt→ltb (suc j) 64 lt) in
              cc,
        λ k. ground (arith, ih.2 k),
      )
  | inr h ↦ (files, cc, λ k. ground arith)
]
