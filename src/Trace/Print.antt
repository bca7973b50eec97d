-- ===== src/Trace/Print.antt =====
-- arm_simulator-1.4/trace.c and arm_core.c: the print of the processor after an instruction. The
-- registers that it shows are read through the accesses, and these are traced themselves.
use arm_processor_simulator.Base.{
  ℕ, zero, suc, ◌+◌, ◌%◌, Bool, true, false, not, ◌&&◌, ◌||◌, Option, none, some, List, Outcome,
  done, ltb, ◌==◌, if◌then◌else◌, ◌>>=◌ as and_then,
}
use arm_processor_simulator.Constants.{usr, fiq, irq, svc, abt, und, sys}
use arm_processor_simulator.Constants.Names.{arm_get_mode_name, arm_get_register_name}
use arm_processor_simulator.Core.Print.{
  Printed, mode_name, next_line, register, status, end_of_line, blanks,
}
use arm_processor_simulator.Trace.{print, state_text, has_flag, state_flag}
use arm_processor_simulator.Trace.Accesses.{
  Traced, pure, ◌>>=◌, ◌>>◌, on_trace, arm_read_register, arm_read_usr_register, arm_read_cpsr,
}

-- A value that may be undefined.
abbrev pub lift : {A : Type 0} → Outcome A → Traced A
lift value m = and_then value (λ a. done (a, m))

abbrev pub show : Printed → Traced (Unit {0})
show text = on_trace (λ _. print (state_text text))

-- What is shown where a test holds.
abbrev pub show_if : Bool → Printed → Traced (Unit {0})
show_if true text = show text
show_if false text = pure tt

-- A register in the mode USR, or in another one, and the line break before it.
abbrev pub print_register : Bool → ℕ → ℕ → ℕ → Traced (Unit {0})
print_register format mode reg count =
    if mode == usr
    then (do
      show_if (ltb 0 reg && reg % 5 == 0) next_line
      name ← lift (arm_get_register_name reg)
      value ← arm_read_usr_register format reg
      show (register name value))
    else (do
      show_if (ltb 0 count && count % 5 == 0) next_line
      name ← lift (arm_get_register_name reg)
      value ← arm_read_register format reg
      show (register name value))

-- The inner loop, from `reg` and `count` on.
unfoldable pub print_registers : Bool → ℕ → ℕ → ℕ → ℕ → Traced (Unit {0})
print_registers format zero mode reg count = pure tt
print_registers format (suc rounds) mode reg count =
    print_register format mode reg count
    >> print_registers format rounds mode (reg + 1) (if mode == usr then count else count + 1)

abbrev pub print_status : Bool → ℕ → Traced (Unit {0})
print_status format mode =
    if mode == usr then (do value ← arm_read_cpsr format; show (status value)) else pure tt

-- The `switch` behind the registers.
abbrev pub print_end : ℕ → Traced (Unit {0})
print_end mode =
    if mode == usr || mode == fiq || mode == svc || mode == und
    then show end_of_line
    else if mode == irq || mode == abt
    then show blanks
    else pure tt

abbrev pub print_named : Bool → ℕ → Option (List ℕ) → Traced (Unit {0})
print_named format mode none = pure tt
print_named format mode (some text) =
    show_if (not (mode == sys)) (mode_name text)
    >> (print_registers format 16 mode 0 0 >> (print_status format mode >> print_end mode))

unfoldable pub print_mode : Bool → ℕ → Traced (Unit {0})
print_mode format mode = do name ← lift (arm_get_mode_name mode); print_named format mode name

unfoldable pub print_modes : Bool → ℕ → ℕ → Traced (Unit {0})
print_modes format zero mode = pure tt
print_modes format (suc rounds) mode =
    print_mode format mode >> print_modes format rounds (mode + 1)

unfoldable pub arm_print_state : Bool → Traced (Unit {0})
arm_print_state format = print_modes format 32 0

unfoldable pub trace_arm_state : Bool → Traced (Unit {0})
trace_arm_state format m =
    if m.trace.enabled && has_flag state_flag m.trace
    then arm_print_state format m
    else done (tt, m)
