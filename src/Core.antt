-- ===== src/Core.antt =====
-- arm_simulator-1.4/arm_core.c: the processor, its cycle counter, its registers and its memory, and
-- the accesses that the instructions make. A function of the source that takes an `arm_core` is a
-- command: it maps the state of the processor to a result and the state after it.
-- The trace calls only print, and are left out.
pub mod Print
pub mod Access
use arm_processor_simulator.Base.{
  ℕ, ◌+◌, ◌-◌, ◌%◌, ◌^◌, bit_and, Bool, Option, none, some, Outcome, done, fault, ◌>>=◌ as and_then,
  ◌==◌, if◌then◌else◌,
}
use arm_processor_simulator.Util.{u32, sub32}
use arm_processor_simulator.Constants.{pc}
use arm_processor_simulator.Memory.{
  Memory, memory_read_byte, memory_read_half, memory_read_word, memory_write_byte,
  memory_write_half, memory_write_word,
}
use arm_processor_simulator.Registers
use arm_processor_simulator.Registers.{Registers}

pub record Core : Type 0 where
  pub cycle_count : ℕ
  pub reg : Registers
  pub mem : Memory

abbrev pub Command : Type 0 → Type 0
Command A = Core → Outcome (A × Core)

abbrev pub pure : {A : Type 0} → A → Command A
pure a p = done (a, p)

infixl 5 ◌>>=◌ ◌>>◌
abbrev pub ◌>>=◌ : {A B : Type 0} → Command A → (A → Command B) → Command B
◌>>=◌ m k p = and_then (m p) (λ (a, p'). k a p')

abbrev pub ◌>>◌ : {B : Type 0} → Command (Unit {0}) → Command B → Command B
m >> k = m >>= λ _. k

-- The value of a variable that may not have been set.
unfoldable pub value_of : Option ℕ → Command ℕ
value_of none p = fault
value_of (some value) p = done (value, p)

-- A read of `p->reg`, and a write of it.
abbrev pub from_registers : {A : Type 0} → (Registers → Outcome A) → Command A
from_registers f p = and_then (f p.reg) (λ a. done (a, p))

abbrev pub to_registers : (Registers → Outcome Registers) → Command (Unit {0})
to_registers f p = and_then (f p.reg) (λ r. done (tt, record p { reg = r }))

-- The result -1 of an `int` function.
abbrev pub minus_one : ℕ
minus_one = 2 ^ 32 - 1

-- A read of `p->mem`, `none` for the result -1.
abbrev pub from_memory : (Memory → Outcome (Option ℕ)) → Command (Option ℕ)
from_memory f p = and_then (f p.mem) (λ value. done (value, p))

abbrev pub write_result : Core → Option Memory → Outcome (ℕ × Core)
write_result p none = done (minus_one, p)
write_result p (some mem) = done (0, record p { mem = mem })

-- A write of `p->mem` and its result, 0 or -1.
abbrev pub to_memory : (Memory → Outcome (Option Memory)) → Command ℕ
to_memory f p = and_then (f p.mem) (write_result p)

unfoldable pub arm_current_mode_has_spsr : Command Bool
arm_current_mode_has_spsr p = done (Registers.current_mode_has_spsr p.reg, p)

unfoldable pub arm_in_a_privileged_mode : Command Bool
arm_in_a_privileged_mode p = done (Registers.in_a_privileged_mode p.reg, p)

unfoldable pub arm_get_cycle_count : Command ℕ
arm_get_cycle_count p = done (p.cycle_count, p)

-- What a read of register 15 makes of its value.
abbrev pub pc_seen : ℕ → ℕ → ℕ
pc_seen reg value = if reg == pc then bit_and (u32 (value + 4)) 0xFFFFFFFD else value

unfoldable pub arm_read_register : ℕ → Command ℕ
arm_read_register reg = do
  value ← from_registers (λ r. Registers.read_register r reg)
  pure (pc_seen reg value)

unfoldable pub arm_read_usr_register : ℕ → Command ℕ
arm_read_usr_register reg = do
  value ← from_registers (λ r. Registers.read_usr_register r reg)
  pure (pc_seen reg value)

unfoldable pub arm_read_cpsr : Command ℕ
arm_read_cpsr p = done (Registers.read_cpsr p.reg, p)

unfoldable pub arm_read_spsr : Command ℕ
arm_read_spsr = from_registers Registers.read_spsr

unfoldable pub arm_write_register : ℕ → ℕ → Command (Unit {0})
arm_write_register reg value = to_registers (λ r. Registers.write_register r reg value)

unfoldable pub arm_write_usr_register : ℕ → ℕ → Command (Unit {0})
arm_write_usr_register reg value = to_registers (λ r. Registers.write_usr_register r reg value)

unfoldable pub arm_write_cpsr : ℕ → Command (Unit {0})
arm_write_cpsr value p = done (tt, record p { reg = Registers.write_cpsr p.reg value })

unfoldable pub arm_write_spsr : ℕ → Command (Unit {0})
arm_write_spsr value = to_registers (λ r. Registers.write_spsr r value)

unfoldable pub count_cycle : Command (Unit {0})
count_cycle p = done (tt, record p { cycle_count = u32 (p.cycle_count + 1) })

unfoldable pub arm_fetch : Command (Option ℕ)
arm_fetch = do
  count_cycle
  seen ← arm_read_register pc
  let address = sub32 seen 4
  result ← from_memory (λ mem. memory_read_word mem address)
  arm_write_register pc (u32 (address + 4))
  pure result

unfoldable pub arm_read_byte : ℕ → Command (Option ℕ)
arm_read_byte address = from_memory (λ mem. memory_read_byte mem address)

unfoldable pub arm_read_half : ℕ → Command (Option ℕ)
arm_read_half address = from_memory (λ mem. memory_read_half mem address)

unfoldable pub arm_read_word : ℕ → Command (Option ℕ)
arm_read_word address = from_memory (λ mem. memory_read_word mem address)

unfoldable pub arm_write_byte : ℕ → ℕ → Command ℕ
arm_write_byte address value = to_memory (λ mem. memory_write_byte mem address value)

unfoldable pub arm_write_half : ℕ → ℕ → Command ℕ
arm_write_half address value = to_memory (λ mem. memory_write_half mem address value)

unfoldable pub arm_write_word : ℕ → ℕ → Command ℕ
arm_write_word address value = to_memory (λ mem. memory_write_word mem address value)
