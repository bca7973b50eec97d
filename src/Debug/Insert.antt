-- ===== src/Debug/Insert.antt =====
-- arm_simulator-1.4/debug.c: a file that is added, and where the array has no room for it.
use arm_processor_simulator.Base.{
  ℕ, ◌+◌, ◌-◌, ◌<◌, ◌≤◌, true, false, List, ◌≡◌, ◌↔◌, ◌⊎◌, inl, inr, refl, sym, ◌∙◌, done, fault,
  ltb, leb, ◌==◌, if◌then◌else◌, update, arith, Bool-cases, all_below, all_below-apply,
  all_below-intro, subst, ap,
}
use arm_processor_simulator.Debug.{Files, before, find_place, move_up, add_debug_to}
use arm_processor_simulator.Debug.Order.{before_le_trans, before_asym, IsSorted, IsListed, order}
use arm_processor_simulator.Debug.Place.{IsPlace, moved, find_place_lem, move_up_lem, place-le}

abbrev inserted : ℕ → ℕ → List ℕ → (ℕ → List ℕ) → ℕ → List ℕ
inserted p nb name files k = if k == p then name else moved p nb files k

module _ (p nb : ℕ) (name : List ℕ) (files : ℕ → List ℕ) where
  inserted-low : (k : ℕ) → k < p → inserted p nb name files k ≡ files k
  inserted-low k lt = ground arith

  inserted-at : inserted p nb name files p ≡ name
  inserted-at = ground arith

  inserted-high : (k : ℕ) → p < k → k ≤ nb → inserted p nb name files k ≡ files (k - 1)
  inserted-high k lt le = ground arith

before_eq : {x y u v : List ℕ} → x ≡ u → y ≡ v → before u v ≡ false → before x y ≡ false
before_eq e e' h = cc

-- The order of two places around `p`.
Around : ℕ → ℕ → ℕ → Type 0
Around p i j = (j < p) ⊎ ((j ≡ p) × (i < p)) ⊎ ((p < j) × (i < p)) ⊎ ((p < j) × (i ≡ p)) ⊎ ((p < i))

around : (p i j : ℕ) → i < j → Around p i j
unfolding Around
around p i j lt = ground arith

-- Both arrays agree up to `n`.
IsSorted-ext :
    (f f' : Files) (g : ℕ → List ℕ)
    → ((k : ℕ) → f'.debugged_files k ≡ g k)
    → ((i j : ℕ) → i < j → j < f'.nb_debugged_files → before (g j) (g i) ≡ false)
    → IsSorted f'
unfolding IsSorted
IsSorted-ext f f' g at h i j lt lt' =
    subst (λ t. before t (f'.debugged_files i) ≡ false) (sym (at j))
      (subst (λ t. before (g j) t ≡ false) (sym (at i)) (h i j lt lt'))

inserted-IsSorted :
    (f : Files) (name : List ℕ) (p : ℕ)
    → IsSorted f
    → p < 64
    → IsPlace f name p
    → (i j : ℕ) → i < j
    → j < f.nb_debugged_files + 1
    → before
        (inserted p f.nb_debugged_files name f.debugged_files j)
        (inserted p f.nb_debugged_files name f.debugged_files i)
      ≡ false
unfolding IsSorted IsPlace Around
inserted-IsSorted f name p sorted room (le, _, below, above) i j lt lt' =
    let nb = f.nb_debugged_files in
    let files = f.debugged_files in
    let low = inserted-low p nb name files in
    let at = inserted-at p nb name files in
    let high = inserted-high p nb name files in
    elim (around p i j lt) [
      | inl a ↦ before_eq (low j a) (low i (omega arith)) (sorted i j lt (omega arith))
      | inr (inl (a, b)) ↦
          before_eq (subst (λ t. inserted p nb name files t ≡ name) (sym a) at) (low i b)
            (before_asym (files i) name (below i b))
      | inr (inr (inl (a, b))) ↦
          before_eq (high j a (omega arith)) (low i b)
            (sorted i (j - 1) (omega arith) (omega arith))
      | inr (inr (inr (inl (a, b)))) ↦
          before_eq (high j a (omega arith))
            (subst (λ t. inserted p nb name files t ≡ name) (sym b) at)
            (elim (Bool-cases (p == j - 1)) [
              | inl same ↦ ground (arith, above (omega arith) room)
              | inr other ↦
                  before_le_trans name (files p) (files (j - 1)) (above (omega arith) room)
                    (sorted p (j - 1) (ground arith) (omega arith))
            ])
      | inr (inr (inr (inr a))) ↦
          before_eq (high j (omega arith) (omega arith)) (high i a (omega arith))
            (sorted (i - 1) (j - 1) (omega arith) (omega arith))
    ]

-- What is listed after the insertion.
inserted-IsListed :
    (f : Files) (name : List ℕ) (p : ℕ)
    → p ≤ f.nb_debugged_files
    → (f' : Files) → (f'.nb_debugged_files ≡ f.nb_debugged_files + 1)
    → ((k : ℕ) → f'.debugged_files k ≡ inserted p f.nb_debugged_files name f.debugged_files k)
    → (x : List ℕ) → IsListed f' x ↔ (IsListed f x ⊎ (x ≡ name))
unfolding IsListed
inserted-IsListed f name p le f' more at x =
    let nb = f.nb_debugged_files in
    let files = f.debugged_files in
    let low = inserted-low p nb name files in
    let here = inserted-at p nb name files in
    let high = inserted-high p nb name files in
    (
      λ (i, lt, e). elim (order i p) [
        | inl a ↦ inl (i, omega arith, sym (at i ∙ low i a) ∙ e)
        | inr (inl a) ↦
            inr (sym e ∙ at i ∙ subst (λ t. inserted p nb name files t ≡ name) (sym a) here)
        | inr (inr a) ↦ inl (i - 1, omega arith, sym (at i ∙ high i a (omega arith)) ∙ e)
      ],
      elim [
        | inl (i, lt, e) ↦ elim (Bool-cases (ltb i p)) [
          | inl less ↦ (i, omega arith, at i ∙ low i (ground arith) ∙ e)
          | inr greater ↦ (
            i + 1,
            omega arith,
            at (i + 1) ∙ high (i + 1) (ground arith) (omega arith) ∙ ap files (omega arith) ∙ e,
          )
        ]
        | inr e ↦ (p, omega arith, at p ∙ here ∙ sym e)
      ],
    )

placed :
    (f : Files) (name : List ℕ) (p : ℕ)
    → ltb p 64 ≡ true
    → p < 64
    → find_place 64 f name 0 ≡ p
    → (files : ℕ → List ℕ) → move_up f.nb_debugged_files p f.debugged_files ≡ done files
    → add_debug_to f name
      ≡ done (record {
        debugged_files = update files p name;
        nb_debugged_files = f.nb_debugged_files + 1;
      })
unfolding add_debug_to
placed f name p test lt e files up = let open_end : leb 64 p ≡ false = ground arith in cc

add_debug_to-place :
    (f : Files) (name : List ℕ) (p : ℕ)
    → find_place 64 f name 0 ≡ p
    → p ≤ f.nb_debugged_files
    → f.nb_debugged_files < 64
    → (f' : Files) × (add_debug_to f name ≡ done f')
      × (f'.nb_debugged_files ≡ f.nb_debugged_files + 1)
      × ((k : ℕ) → f'.debugged_files k ≡ inserted p f.nb_debugged_files name f.debugged_files k)
unfolding add_debug_to
add_debug_to-place f name p e le room =
    let up = move_up_lem f.nb_debugged_files p f.debugged_files room in
    (
      record { debugged_files = update up.0 p name; nb_debugged_files = f.nb_debugged_files + 1 },
      placed f name p (ground arith) (omega arith) e up.0 up.1,
      refl,
      λ k. ground (arith, up.2 k),
    )

-- The file that is added: the array stays sorted while it is not full, and lists the new name and those
-- that it listed.
pub add_debug_to_lem :
    (f : Files) (name : List ℕ)
    → IsSorted f
    → f.nb_debugged_files < 64
    → (f' : Files) × (add_debug_to f name ≡ done f')
      × IsSorted f'
      × (f'.nb_debugged_files ≡ f.nb_debugged_files + 1)
      × ((x : List ℕ) → IsListed f' x ↔ (IsListed f x ⊎ (x ≡ name)))
add_debug_to_lem f name sorted room =
    let p = find_place 64 f name 0 in
    let place = find_place_lem 64 f name 0 refl (omega arith) (λ k lt. absurd (omega arith)) in
    let le = place-le f name p place in
    let (f', e, more, at) = add_debug_to-place f name p refl le room in
    (
      f',
      e,
      IsSorted-ext f f' (inserted p f.nb_debugged_files name f.debugged_files) at (λ i j lt lt'.
          inserted-IsSorted f name p sorted (omega arith) place i j lt (omega arith)),
      more,
      inserted-IsListed f name p le f' more at,
    )

full :
    (f : Files) (name : List ℕ) (p : ℕ)
    → f.nb_debugged_files ≡ 64
    → find_place 64 f name 0 ≡ p
    → add_debug_to f name ≡ (if leb 64 p then done f else fault)
unfolding add_debug_to move_up
full f name p nb e = elim (Bool-cases (leb 64 p)) [
  | inl h ↦ cc
  | inr h ↦ let less : ltb p 64 ≡ true = ground arith in cc
]

-- A file that is added when 64 are listed: nothing is done if its name is behind all of them, and
-- otherwise the source writes behind the end of the array.
pub add_debug_to-full :
    (f : Files) (name : List ℕ)
    → f.nb_debugged_files ≡ 64
    → add_debug_to f name
      ≡ (if all_below 64 (λ k. before (f.debugged_files k) name) then done f else fault)
unfolding IsPlace
add_debug_to-full f name nb =
    let p = find_place 64 f name 0 in
    let place = find_place_lem 64 f name 0 refl (omega arith) (λ k lt. absurd (omega arith)) in
    let result = full f name p nb refl in
    let test = λ (k : ℕ). before (f.debugged_files k) name in
    elim (Bool-cases (leb 64 p)) [
      | inl h ↦ let all = all_below-intro 64 test (λ k lt. place.2 k (ground arith)) in cc
      | inr h ↦
          let behind = place.3 (ground arith) (ground arith) in
          elim (Bool-cases (all_below 64 test)) [
            | inl all ↦ let less = all_below-apply 64 test p all (ground arith) in absurd cc
            | inr some_not ↦ cc
          ]
    ]
