-- ===== src/Sender/Names.antt =====
-- arm_simulator-1.4/send_irq.c: the number that is sent for a name.
use arm_processor_simulator.Base.{
  ℕ, zero, suc, ◌≤◌, Option, none, some, List, ◌∷◌, ◌≡◌, refl, ◌≢◌, ◌↔◌, ◌⊎◌, inl, inr, Outcome,
  done, ◌>>=◌, if◌then◌else◌, same_text, same_text-eq, arith, codes, Bool-cases, le→ltb,
}
use arm_processor_simulator.Constants.Names.{arm_get_exception_name}
use arm_processor_simulator.Sender.{start, send, unknown_irq, find_irq}

-- The tests of the loop, one after the other.
abbrev choice : List ℕ → Outcome (Option ℕ)
choice name =
    if same_text (codes "reset") name
    then done (some 1)
    else if same_text (codes "undefined instruction") name
    then done (some 2)
    else if same_text (codes "software interrupt") name
    then done (some 3)
    else if same_text (codes "prefetch abort") name
    then done (some 4)
    else if same_text (codes "data abort") name
    then done (some 5)
    else if same_text (codes "interrupt") name
    then done (some 6)
    else if same_text (codes "fast interrupt") name
    then done (some 7)
    else done none

find_irq-choice : (name : List ℕ) → find_irq 256 1 name ≡ choice name
unfolding find_irq arm_get_exception_name
find_irq-choice name = refl

decide_first :
    (text name : List ℕ) (irq : ℕ) (rest : Outcome (Option ℕ))
    → ((k : ℕ) × (rest ≡ done (some k))) ⊎ (rest ≡ done none)
    → ((k : ℕ) × ((if same_text text name then done (some irq) else rest) ≡ done (some k)))
      ⊎ ((if same_text text name then done (some irq) else rest) ≡ done none)
decide_first text name irq rest h = elim (Bool-cases (same_text text name)) [
  | inl same ↦ inl (irq, cc)
  | inr other ↦ elim h [ inl (k, e) ↦ inl (k, cc) | inr e ↦ inr cc ]
]

-- One test: the name is this one, or one of the rest.
choose :
    (text name : List ℕ) (irq k : ℕ) (rest : Outcome (Option ℕ))
    → arm_get_exception_name irq ≡ done (some text)
    → (rest ≡ done (some k) → arm_get_exception_name k ≡ done (some name))
    → (if same_text text name then done (some irq) else rest) ≡ done (some k)
    → arm_get_exception_name k ≡ done (some name)
choose text name irq k rest named on_rest h = elim (Bool-cases (same_text text name)) [
  | inl same ↦ let eq = same_text-eq text name same in cc
  | inr other ↦ on_rest cc
]

choice-named :
    (name : List ℕ) (k : ℕ)
    → choice name ≡ done (some k)
    → arm_get_exception_name k ≡ done (some name)
unfolding arm_get_exception_name
choice-named name k h =
    choose (codes "reset") name 1 k _ refl
      (choose (codes "undefined instruction") name 2 k _ refl (
        choose (codes "software interrupt") name 3 k _ refl (
          choose (codes "prefetch abort") name 4 k _ refl (
            choose (codes "data abort") name 5 k _ refl (
              choose (codes "interrupt") name 6 k _ refl
                (choose (codes "fast interrupt") name 7 k (done none) refl (λ e. cc)))))))
      h

-- The names end at 8.
unnamed : (k : ℕ) → 8 ≤ k → arm_get_exception_name k ≡ done none
unfolding arm_get_exception_name
unnamed k le = rw (le→ltb k 8 le)

choice-text :
    (text name : List ℕ) (k : ℕ)
    → done (some text) ≡ done (some name)
    → choice text ≡ done (some k)
    → choice name ≡ done (some k)
choice-text text name k h chosen = cc

choice_of :
    (name : List ℕ) (k : ℕ)
    → arm_get_exception_name k ≡ done (some name)
    → choice name ≡ done (some k)
unfolding arm_get_exception_name
choice_of name zero h = cc
choice_of name (suc zero) h = choice-text _ name 1 h refl
choice_of name (suc (suc zero)) h = choice-text _ name 2 h refl
choice_of name (suc (suc (suc zero))) h = choice-text _ name 3 h refl
choice_of name (suc (suc (suc (suc zero)))) h = choice-text _ name 4 h refl
choice_of name (suc (suc (suc (suc (suc zero))))) h = choice-text _ name 5 h refl
choice_of name (suc (suc (suc (suc (suc (suc zero)))))) h = choice-text _ name 6 h refl
choice_of name (suc (suc (suc (suc (suc (suc (suc zero))))))) h = choice-text _ name 7 h refl
choice_of name (suc (suc (suc (suc (suc (suc (suc (suc k)))))))) h =
    let end = unnamed (suc (suc (suc (suc (suc (suc (suc (suc k)))))))) (omega arith) in cc

choice_total :
    (name : List ℕ) → ((k : ℕ) × (choice name ≡ done (some k))) ⊎ (choice name ≡ done none)
choice_total name = decide_first (codes "reset") name 1 _ (
    decide_first (codes "undefined instruction") name 2 _ (
      decide_first (codes "software interrupt") name 3 _ (
        decide_first (codes "prefetch abort") name 4 _ (
          decide_first (codes "data abort") name 5 _ (
            decide_first (codes "interrupt") name 6 _
              (decide_first (codes "fast interrupt") name 7 (done none) (inr refl)))))))

start-choice :
    (host port name : List ℕ) (rest : List (List ℕ))
    → start (host ∷ port ∷ name ∷ rest)
      ≡ (choice name >>= elim [ none ↦ done unknown_irq | some irq ↦ done (send irq) ])
unfolding start find_irq arm_get_exception_name
start-choice host port name rest = refl

-- What the sender does with a name: it sends the number that has this name, and reports an unknown
-- one exactly if no number has it.
pub start_lem :
    (host port name : List ℕ) (rest : List (List ℕ))
    → ((k : ℕ)
        → (start (host ∷ port ∷ name ∷ rest) ≡ done (send k))
          ↔ (arm_get_exception_name k ≡ done (some name)))
      × ((start (host ∷ port ∷ name ∷ rest) ≡ done unknown_irq)
          ↔ ((k : ℕ) → arm_get_exception_name k ≢ done (some name)))
start_lem host port name rest =
    let from = start-choice host port name rest in
    elim (choice_total name) [
      | inl (i, found) ↦
          let named = choice-named name i found in
          (
            λ k. (λ e. cc, λ e. let found' = choice_of name k e in cc),
            (λ e. cc, λ none_named. absurd (none_named i named)),
          )
      | inr missing ↦ (
        λ k. (λ e. cc, λ e. let found = choice_of name k e in cc),
        (λ e k named. let found = choice_of name k named in cc, λ e. cc),
      )
    ]
