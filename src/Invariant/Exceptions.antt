-- ===== src/Invariant/Exceptions.antt =====
-- What the exceptions of arm_simulator-1.4/arm_exception.c keep.
use arm_processor_simulator.Base.{ℕ, Bool, true, false}
use arm_processor_simulator.Exception.{
  return_address, save_spsr, branch_exception_vector, execute_, arm_exception,
}
use arm_processor_simulator.Exception.{ReturnState, current, next}
use arm_processor_simulator.Invariant.Keeps.{Keeps}
use arm_processor_simulator.Invariant.Accesses.{keeps_rules}

pub Keeps-branch_exception_vector : (address : ℕ) → Keeps (branch_exception_vector address)
unfolding branch_exception_vector
Keeps-branch_exception_vector address = search keeps_rules depth 14

pub Keeps-return_address : (state : ReturnState) → Keeps (return_address state)
Keeps-return_address current = search keeps_rules
Keeps-return_address next = search keeps_rules

pub Keeps-save_spsr : (need : Bool) (spsr : ℕ) → Keeps (save_spsr need spsr)
Keeps-save_spsr true spsr = search keeps_rules
Keeps-save_spsr false spsr = search keeps_rules

pub Keeps-execute_ :
    (need : Bool) (bits count : ℕ) (state : ReturnState) (vector : ℕ)
    → Keeps (execute_ need bits count state vector)
unfolding execute_
Keeps-execute_ need bits count state vector =
    search (keeps_rules, Keeps-branch_exception_vector, Keeps-return_address, Keeps-save_spsr) depth
      14

pub Keeps-arm_exception : (exception : ℕ) → Keeps (arm_exception exception)
unfolding arm_exception
Keeps-arm_exception exception = search (keeps_rules, Keeps-execute_) depth 14
