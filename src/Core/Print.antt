-- ===== src/Core/Print.antt =====
-- arm_simulator-1.4/arm_core.c: the print of the processor. What is printed is the list of the calls
-- of `fprintf` with their values.
use arm_processor_simulator.Base.{
  ℕ, zero, suc, ◌+◌, ◌%◌, Option, false, not, ◌&&◌, ◌||◌, none, some, List, [], ◌∷◌, ◌++◌, Outcome,
  done, ltb, ◌==◌, if◌then◌else◌, ◌>>=◌ as and_then, ◌≡◌, refl, sym, ap, ◌∙◌, if_false,
}
use arm_processor_simulator.Constants.{usr, fiq, irq, svc, abt, und, sys}
use arm_processor_simulator.Constants.Names.{arm_get_mode_name, arm_get_register_name}
use arm_processor_simulator.Core.{
  Command, pure, ◌>>=◌, arm_read_usr_register, arm_read_register, arm_read_cpsr,
}

pub data Printed : Type 0 where
  mode_name : List ℕ → Printed
  next_line : Printed
  register : List ℕ → ℕ → Printed
  status : ℕ → Printed
  end_of_line : Printed
  blanks : Printed

-- A value that may be undefined.
abbrev pub lift : {A : Type 0} → Outcome A → Command A
lift m p = and_then m (λ a. done (a, p))

-- `(count > 0) && (count%5 == 0)`, before the print of a register.
abbrev pub line_break : ℕ → List Printed
line_break count = if ltb 0 count && count % 5 == 0 then next_line ∷ [] else []

-- A register in a mode other than USR, and what follows it.
abbrev pub print_other : ℕ → ℕ → Command (List Printed) → Command (List Printed)
print_other reg count next = do
  name ← lift (arm_get_register_name reg)
  value ← arm_read_register reg
  rest ← next
  pure (line_break count ++ register name value ∷ rest)

-- The inner loop, from `reg` and `count` on.
unfoldable pub print_registers : ℕ → ℕ → ℕ → ℕ → Command (List Printed)
print_registers zero mode reg count = pure []
print_registers (suc rounds) mode reg count =
    if mode == usr
    then (do
      name ← lift (arm_get_register_name reg)
      value ← arm_read_usr_register reg
      rest ← print_registers rounds mode (reg + 1) count
      pure (line_break reg ++ register name value ∷ rest))
    else print_other reg count (print_registers rounds mode (reg + 1) (count + 1))

-- The `switch` behind the registers.
abbrev pub mode_end : ℕ → List Printed
mode_end mode =
    if mode == usr || mode == fiq || mode == svc || mode == und
    then end_of_line ∷ []
    else if mode == irq || mode == abt
    then blanks ∷ []
    else []

abbrev pub print_status : ℕ → Command (List Printed)
print_status mode =
    if mode == usr then (do value ← arm_read_cpsr; pure (status value ∷ [])) else pure []

-- What is printed of a mode with this name, nothing without one.
abbrev pub print_named : ℕ → Option (List ℕ) → Command (List Printed)
print_named mode none = pure []
print_named mode (some text) = do
  registers ← print_registers 16 mode 0 0
  status_text ← print_status mode
  pure (
      (if not (mode == sys) then mode_name text ∷ [] else [])
      ++ registers
      ++ status_text
      ++ mode_end mode)

unfoldable pub print_mode : ℕ → Command (List Printed)
print_mode mode = do name ← lift (arm_get_mode_name mode); print_named mode name

unfoldable pub print_modes : ℕ → ℕ → Command (List Printed)
print_modes zero mode = pure []
print_modes (suc rounds) mode = do
  printed ← print_mode mode
  rest ← print_modes rounds (mode + 1)
  pure (printed ++ rest)

unfoldable pub arm_print_state : Command (List Printed)
arm_print_state = print_modes 32 0

-- What is printed of the registers in a mode other than USR: it is the same for all these modes, as the
-- registers are read in the mode of the processor and not in the mode that is named.
pub print_registers-any_mode :
    (rounds mode mode' reg count : ℕ)
    → (mode == usr) ≡ false
    → (mode' == usr) ≡ false
    → print_registers rounds mode reg count ≡ print_registers rounds mode' reg count
unfolding print_registers
print_registers-any_mode zero mode mode' reg count h h' = refl
print_registers-any_mode (suc rounds) mode mode' reg count h h' =
    let rest = print_registers-any_mode rounds mode mode' (reg + 1) (count + 1) h h' in
    if_false (mode == usr) _ _ h
    ∙ ap (print_other reg count) rest
    ∙ sym (if_false (mode' == usr) _ _ h')
