-- ===== src/Sender.antt =====
-- arm_simulator-1.4/send_irq.c: a program that sends the number of an exception to the simulator.
pub mod Names
use arm_processor_simulator.Base.{
  ℕ, zero, suc, ◌+◌, Bool, true, false, Option, none, some, List, [], ◌∷◌, Outcome, done, fault,
  ◌>>=◌, if◌then◌else◌, same_text,
}
use arm_processor_simulator.Util.{u8}
use arm_processor_simulator.Constants.{reset, interrupt}
use arm_processor_simulator.Constants.Names.{Name, arm_get_exception_name}

-- The names that the usage text lists from `irq` on. There are fewer than `rounds`.
unfoldable pub listed_names : ℕ → ℕ → Outcome (List (List ℕ))
listed_names zero irq = done []
listed_names (suc rounds) irq =
    let rest = listed_names rounds (u8 (irq + 1)) in
    arm_get_exception_name irq
    >>= elim [ none ↦ done [] | some name ↦ rest >>= λ names. done (name ∷ names) ]

-- The search for the name from `irq` on, with `irq_name` as it was read: the number and whether it has
-- a name.
unfoldable pub find_irq : ℕ → ℕ → List ℕ → Outcome (Option ℕ)
find_irq zero irq name = fault
find_irq (suc rounds) irq name =
    let rest = find_irq rounds (u8 (irq + 1)) name in
    arm_get_exception_name irq >>= elim [
      | none ↦ done none
      | some irq_name ↦ if same_text irq_name name then done (some irq) else rest
    ]

-- What the program does before it connects: the names of its usage text and status 1, status 2, or
-- the number that it sends.
pub data Start : Type 0 where
  usage : List (List ℕ) → Start
  unknown_irq : Start
  send : ℕ → Start

-- The arguments after the name of the program: host, port, and at most a name.
unfoldable pub start : List (List ℕ) → Outcome Start
start [] = listed_names 256 reset >>= λ names. done (usage names)
start (host ∷ []) = listed_names 256 reset >>= λ names. done (usage names)
start (host ∷ port ∷ []) = done (send interrupt)
start (host ∷ port ∷ name ∷ rest) =
    find_irq 256 reset name >>= elim [ none ↦ done unknown_irq | some irq ↦ done (send irq) ]
