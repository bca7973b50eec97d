-- ===== src/Trace/State.antt =====
-- arm_simulator-1.4/trace.c: what is printed of the processor after an instruction, where the accesses
-- of registers are not traced.
use arm_processor_simulator.Base.{
  ℕ, zero, suc, ◌+◌, ◌%◌, Bool, not, ◌&&◌, Option, none, some, List, [], ◌∷◌, ◌++◌, ◌≡◌, ap, done,
  ltb, ◌==◌, if◌then◌else◌, append_assoc, Bool-cases, inl, inr,
}
use arm_processor_simulator.Constants.{usr, sys}
use arm_processor_simulator.Constants.Names.{arm_get_mode_name, arm_get_register_name}
use arm_processor_simulator.Registers.{get_mode}
use arm_processor_simulator.Core
use arm_processor_simulator.Core.{Core, Command}
use arm_processor_simulator.Core.Print
use arm_processor_simulator.Core.Print.{
  Printed, mode_name, next_line, register, status, end_of_line, blanks,
}
use arm_processor_simulator.Trace.{Trace, has_flag, state_flag}
use arm_processor_simulator.Trace.Accesses.{
  Traced, ◌>>=◌, ◌>>◌, arm_read_register, arm_read_usr_register, arm_read_cpsr,
}
use arm_processor_simulator.Trace.Print.{
  lift, show, show_if, print_registers, print_status, print_named, print_mode, print_modes,
  arm_print_state, trace_arm_state,
}
use arm_processor_simulator.Trace.Erasure.{machine}
use arm_processor_simulator.Trace.Quiet.{
  IsQuiet, after, Prints, Gives, Prints-none, Prints-show, Prints-show_if, Prints->>, Prints-Gives,
  Prints-eq, Prints-if, bind_assoc, regroup, Gives-access, register_quiet, Gives-lift, Prints-end,
}

module _ (format : Bool) where
  Gives-read_register :
      (reg : ℕ) → Gives (arm_read_register format reg) (Core.arm_read_register reg)
  unfolding arm_read_register
  Gives-read_register reg =
      Gives-access (Core.arm_read_register reg) _
        (λ value p t h. register_quiet format p.cycle_count 1 reg (get_mode p.reg) value t h)

  Gives-read_usr_register :
      (reg : ℕ) → Gives (arm_read_usr_register format reg) (Core.arm_read_usr_register reg)
  unfolding arm_read_usr_register
  Gives-read_usr_register reg =
      Gives-access (Core.arm_read_usr_register reg) _
        (λ value p t h. register_quiet format p.cycle_count 1 reg 16 value t h)

  Gives-read_cpsr : Gives (arm_read_cpsr format) Core.arm_read_cpsr
  unfolding arm_read_cpsr
  Gives-read_cpsr =
      Gives-access Core.arm_read_cpsr _
        (λ value p t h. register_quiet format p.cycle_count 1 16 0 value t h)

  -- A register with its name, behind a line break where there is one, and what comes after it.
  Prints-register :
      (lead : Bool) (reg : ℕ) (value : Traced ℕ) (plain : Command ℕ) (n : Traced (Unit {0}))
      (rest : Command (List Printed))
      → Gives value plain
      → Prints n rest
      → Prints
          ((show_if lead next_line
              >> (lift (arm_get_register_name reg) >>= λ text.
                  value >>= λ v. show (register text v)))
            >> n)
          (Core.◌>>=◌ (Core.Print.lift (arm_get_register_name reg)) (λ text. Core.◌>>=◌ plain (λ v.
            Core.◌>>=◌ rest
              (λ xs. Core.pure ((if lead then next_line ∷ [] else []) ++ register text v ∷ xs)))))
  Prints-register lead reg value plain n rest given follows =
      let name = arm_get_register_name reg in
      Prints-eq _ _ _ (regroup (if lead then next_line ∷ [] else []) name plain rest) (
        Prints->> _ n _ rest
          (Prints->> (show_if lead next_line) _ _ _ (Prints-show_if lead next_line) (
            Prints-Gives (lift name) _ _ _ (Gives-lift name)
              (λ text. Prints-Gives value plain _ _ given (λ v. Prints-show (register text v)))))
          follows)

  Prints-registers :
      (rounds mode reg count : ℕ)
      → Prints
          (print_registers format rounds mode reg count)
          (Core.Print.print_registers rounds mode reg count)
  unfolding print_registers Core.Print.print_registers
  Prints-registers zero mode reg count = Prints-none
  Prints-registers (suc rounds) mode reg count = elim (Bool-cases (mode == usr)) [
    | inl user ↦ rw user (
        Prints-register (ltb 0 reg && reg % 5 == 0) reg (arm_read_usr_register format reg)
          (Core.arm_read_usr_register reg) (print_registers format rounds mode (reg + 1) count)
          (Core.Print.print_registers rounds mode (reg + 1) count) (Gives-read_usr_register reg)
          (Prints-registers rounds mode (reg + 1) count))
    | inr other ↦ rw other (
        Prints-register (ltb 0 count && count % 5 == 0) reg (arm_read_register format reg)
          (Core.arm_read_register reg) (print_registers format rounds mode (reg + 1) (count + 1))
          (Core.Print.print_registers rounds mode (reg + 1) (count + 1)) (Gives-read_register reg)
          (Prints-registers rounds mode (reg + 1) (count + 1)))
  ]

  Prints-status : (mode : ℕ) → Prints (print_status format mode) (Core.Print.print_status mode)
  Prints-status mode =
      Prints-if (mode == usr) _ _ _ _
        (Prints-Gives (arm_read_cpsr format) Core.arm_read_cpsr _ _ Gives-read_cpsr
          (λ value. Prints-show (status value)))
        Prints-none

  Prints-named :
      (mode : ℕ) (name : Option (List ℕ))
      → Prints (print_named format mode name) (Core.Print.print_named mode name)
  Prints-named mode none = Prints-none
  Prints-named mode (some text) =
      Prints-eq _ _ _ (λ p. simp (bind_assoc, append_assoc))
        (Prints->> (show_if (not (mode == sys)) (mode_name text)) _ _ _
          (Prints-show_if (not (mode == sys)) (mode_name text))
          (Prints->> (print_registers format 16 mode 0 0) _ _ _ (Prints-registers 16 mode 0 0)
            (Prints->> (print_status format mode) _ _ _ (Prints-status mode) (Prints-end mode))))

  Prints-mode : (mode : ℕ) → Prints (print_mode format mode) (Core.Print.print_mode mode)
  unfolding print_mode Core.Print.print_mode
  Prints-mode mode =
      Prints-Gives (lift (arm_get_mode_name mode)) (Core.Print.lift (arm_get_mode_name mode))
        (print_named format mode) (Core.Print.print_named mode)
        (Gives-lift (arm_get_mode_name mode)) (Prints-named mode)

  Prints-modes :
      (rounds mode : ℕ)
      → Prints (print_modes format rounds mode) (Core.Print.print_modes rounds mode)
  unfolding print_modes Core.Print.print_modes
  Prints-modes zero mode = Prints-none
  Prints-modes (suc rounds) mode =
      Prints->> (print_mode format mode) (print_modes format rounds (mode + 1)) _ _
        (Prints-mode mode) (Prints-modes rounds (mode + 1))

-- The trace of the state, where a file is set and the accesses of registers are not traced: if it is
-- asked for, what arm_print_state gives is printed, in its order, behind what was printed before, and
-- else nothing is.
pub trace_arm_state_lem :
    (format : Bool) (p : Core) (t : Trace)
    → IsQuiet t
    → trace_arm_state format (machine p t) ≡ (
        if t.enabled && has_flag state_flag t
        then after t (Core.Print.arm_print_state p)
        else done (tt, machine p t))
unfolding trace_arm_state arm_print_state Core.Print.arm_print_state
trace_arm_state_lem format p t h =
    ap (λ o. if t.enabled && has_flag state_flag t then o else done (tt, machine p t))
      ((Prints-modes format 32 0).at p t h)
