-- ===== src/Constants/Names.antt =====
-- arm_simulator-1.4/arm_constants.c: the names of modes, registers and exceptions. `none` is NULL.
use arm_processor_simulator.Base.{
  ℕ, Option, none, some, List, [], ◌∷◌, Outcome, done, fault, ltb, if◌then◌else◌, get_elem?, codes,
}

abbrev pub Name : Type 0
Name = Option (List ℕ)

-- `table[i]`, undefined outside the table.
abbrev pub entry : {A : Type 0} → List A → ℕ → Outcome A
entry table i = elim (get_elem? table i) [ none ↦ fault | some name ↦ done name ]

abbrev pub arm_mode_names : List Name
arm_mode_names =
    none
    ∷ none
    ∷ none
    ∷ none
    ∷ none
    ∷ none
    ∷ none
    ∷ none
    ∷ none
    ∷ none
    ∷ none
    ∷ none
    ∷ none
    ∷ none
    ∷ none
    ∷ none
    ∷ some (codes "USR")
    ∷ some (codes "FIQ")
    ∷ some (codes "IRQ")
    ∷ some (codes "SVC")
    ∷ none
    ∷ none
    ∷ none
    ∷ some (codes "ABT")
    ∷ none
    ∷ none
    ∷ none
    ∷ some (codes "UND")
    ∷ none
    ∷ none
    ∷ none
    ∷ some (codes "SYS")
    ∷ []

abbrev pub arm_register_names : List (List ℕ)
arm_register_names =
    codes "R00"
    ∷ codes "R01"
    ∷ codes "R02"
    ∷ codes "R03"
    ∷ codes "R04"
    ∷ codes "R05"
    ∷ codes "R06"
    ∷ codes "R07"
    ∷ codes "R08"
    ∷ codes "R09"
    ∷ codes "R10"
    ∷ codes "R11"
    ∷ codes "R12"
    ∷ codes "SP"
    ∷ codes "LR"
    ∷ codes "PC"
    ∷ codes "CPSR"
    ∷ codes "SPSR"
    ∷ []

abbrev pub arm_exception_names : List Name
arm_exception_names =
    none
    ∷ some (codes "reset")
    ∷ some (codes "undefined instruction")
    ∷ some (codes "software interrupt")
    ∷ some (codes "prefetch abort")
    ∷ some (codes "data abort")
    ∷ some (codes "interrupt")
    ∷ some (codes "fast interrupt")
    ∷ []

unfoldable pub arm_get_exception_name : ℕ → Outcome Name
arm_get_exception_name exception =
    if ltb exception 8 then entry arm_exception_names exception else done none

unfoldable pub arm_get_mode_name : ℕ → Outcome Name
arm_get_mode_name mode = entry arm_mode_names mode

unfoldable pub arm_get_register_name : ℕ → Outcome (List ℕ)
arm_get_register_name reg = entry arm_register_names reg
