-- ===== src/Trace/Client.antt =====
-- arm_simulator-1.4/arm_core.h with trace_location.h: what the files that use the processor see of it.
-- Such a file makes accesses, each in its location, and goes on by their results.
use arm_processor_simulator.Base.{ℕ, zero, suc, ◌<◌, Bool, Option, List}
use arm_processor_simulator.Core
use arm_processor_simulator.Core.{Core, Command}
use arm_processor_simulator.Trace.Accesses
use arm_processor_simulator.Trace.Accesses.{Machine, Traced, located}

-- An access with its arguments; `old` is what the variable held that a read sets.
pub data Access : Type 0 where
  fetch : (old : ℕ) → Access
  read_register : (reg : ℕ) → Access
  read_usr_register : (reg : ℕ) → Access
  read_cpsr : Access
  read_spsr : Access
  write_register : (reg value : ℕ) → Access
  write_usr_register : (reg value : ℕ) → Access
  write_cpsr : (value : ℕ) → Access
  write_spsr : (value : ℕ) → Access
  read_byte : (address old : ℕ) → Access
  read_half : (address old : ℕ) → Access
  read_word : (address old : ℕ) → Access
  write_byte : (address value : ℕ) → Access
  write_half : (address value : ℕ) → Access
  write_word : (address value : ℕ) → Access

abbrev pub Answer : Access → Type 0
Answer (fetch old) = Option ℕ
Answer (read_register reg) = ℕ
Answer (read_usr_register reg) = ℕ
Answer read_cpsr = ℕ
Answer read_spsr = ℕ
Answer (write_register reg value) = Unit {0}
Answer (write_usr_register reg value) = Unit {0}
Answer (write_cpsr value) = Unit {0}
Answer (write_spsr value) = Unit {0}
Answer (read_byte address old) = Option ℕ
Answer (read_half address old) = Option ℕ
Answer (read_word address old) = Option ℕ
Answer (write_byte address value) = ℕ
Answer (write_half address value) = ℕ
Answer (write_word address value) = ℕ

-- The access of arm_core.c without its trace calls.
unfoldable pub plain : (a : Access) → Command (Answer a)
plain (fetch old) = Core.arm_fetch
plain (read_register reg) = Core.arm_read_register reg
plain (read_usr_register reg) = Core.arm_read_usr_register reg
plain read_cpsr = Core.arm_read_cpsr
plain read_spsr = Core.arm_read_spsr
plain (write_register reg value) = Core.arm_write_register reg value
plain (write_usr_register reg value) = Core.arm_write_usr_register reg value
plain (write_cpsr value) = Core.arm_write_cpsr value
plain (write_spsr value) = Core.arm_write_spsr value
plain (read_byte address old) = Core.arm_read_byte address
plain (read_half address old) = Core.arm_read_half address
plain (read_word address old) = Core.arm_read_word address
plain (write_byte address value) = Core.arm_write_byte address value
plain (write_half address value) = Core.arm_write_half address value
plain (write_word address value) = Core.arm_write_word address value

-- The access with its trace calls.
unfoldable pub traced : Bool → (a : Access) → Traced (Answer a)
traced format (fetch old) = Accesses.arm_fetch format old
traced format (read_register reg) = Accesses.arm_read_register format reg
traced format (read_usr_register reg) = Accesses.arm_read_usr_register format reg
traced format read_cpsr = Accesses.arm_read_cpsr format
traced format read_spsr = Accesses.arm_read_spsr format
traced format (write_register reg value) = Accesses.arm_write_register format reg value
traced format (write_usr_register reg value) = Accesses.arm_write_usr_register format reg value
traced format (write_cpsr value) = Accesses.arm_write_cpsr format value
traced format (write_spsr value) = Accesses.arm_write_spsr format value
traced format (read_byte address old) = Accesses.arm_read_byte format address old
traced format (read_half address old) = Accesses.arm_read_half format address old
traced format (read_word address old) = Accesses.arm_read_word format address old
traced format (write_byte address value) = Accesses.arm_write_byte format address value
traced format (write_half address value) = Accesses.arm_write_half format address value
traced format (write_word address value) = Accesses.arm_write_word format address value

-- The register of the access has a name.
abbrev pub IsNamed : Access → Type 0
IsNamed (read_register reg) = reg < 18
IsNamed (read_usr_register reg) = reg < 18
IsNamed (write_register reg value) = reg < 18
IsNamed (write_usr_register reg value) = reg < 18
IsNamed (fetch old) = Unit {0}
IsNamed read_cpsr = Unit {0}
IsNamed read_spsr = Unit {0}
IsNamed (write_cpsr value) = Unit {0}
IsNamed (write_spsr value) = Unit {0}
IsNamed (read_byte address old) = Unit {0}
IsNamed (read_half address old) = Unit {0}
IsNamed (read_word address old) = Unit {0}
IsNamed (write_byte address value) = Unit {0}
IsNamed (write_half address value) = Unit {0}
IsNamed (write_word address value) = Unit {0}

-- Accesses at lines of files, and what is made of their results. The location of a call is entered
-- before its argument is computed, by accesses in locations of their own, as in
-- `arm_write_register(p, rd, arm_read_cpsr(p))`. The result is a number.
pub data Client : Type 0 where
  result : ℕ → Client
  call :
      (file : List ℕ) (line : ℕ) (argument : Client) (access : ℕ → Access)
      → ((value : ℕ) → Answer (access value) → Client)
      → Client

-- Calls stand in the arguments of calls to a depth of `n` at most, and all registers that are named have
-- a name, whatever the accesses answer.
abbrev pub Nests : ℕ → Client → Type 0
Nests n (result x) = Unit {0}
Nests zero (call file line argument access next) = ⊥
Nests (suc n) (call file line argument access next) =
    Nests n argument
    × ((value : ℕ)
        → IsNamed (access value)
          × ((answer : Answer (access value)) → Nests (suc n) (next value answer)))

-- The client on the processor, without and with the trace.
unfoldable pub run : Client → Command ℕ
run (result x) = Core.pure x
run (call file line argument access next) =
    Core.◌>>=◌ (run argument)
      (λ value. Core.◌>>=◌ (plain (access value)) (λ answer. run (next value answer)))

unfoldable pub run_traced : Bool → Client → Traced ℕ
run_traced format (result x) = Accesses.pure x
run_traced format (call file line argument access next) =
    Accesses.◌>>=◌
      (located file line (
        Accesses.◌>>=◌ (run_traced format argument) (λ value.
          Accesses.◌>>=◌ (traced format (access value)) (λ answer. Accesses.pure (value, answer)))))
      (λ (value, answer). run_traced format (next value answer))
