-- ===== src/Trace/Accesses.antt =====
-- arm_simulator-1.4/arm_core.c with its trace calls, and trace_location.h: the accesses of the
-- processor as they are traced, and the location around each. The state is that of the processor with
-- that of the trace. `format` is whether `ARM_TRACE_FORMAT` is defined.
use arm_processor_simulator.Base.{
  ℕ, ◌+◌, Bool, Option, none, some, List, Outcome, done, ◌>>=◌ as and_then,
}
use arm_processor_simulator.Util.{u32, sub32}
use arm_processor_simulator.Constants.{usr, pc, cpsr}
use arm_processor_simulator.Memory.{memory_read_word}
use arm_processor_simulator.Registers.{get_mode}
use arm_processor_simulator.Core
use arm_processor_simulator.Core.{Core, Command, from_memory, count_cycle}
use arm_processor_simulator.Trace.{
  Trace, trace_start_location, trace_end_location, trace_memory, trace_register,
}

pub record Machine : Type 0 where
  pub core : Core
  pub trace : Trace

abbrev pub Traced : Type 0 → Type 0
Traced A = Machine → Outcome (A × Machine)

abbrev pub pure : {A : Type 0} → A → Traced A
pure a m = done (a, m)

infixl 5 ◌>>=◌ ◌>>◌
abbrev pub ◌>>=◌ : {A B : Type 0} → Traced A → (A → Traced B) → Traced B
◌>>=◌ f k m = and_then (f m) (λ (a, m'). k a m')

abbrev pub ◌>>◌ : {B : Type 0} → Traced (Unit {0}) → Traced B → Traced B
f >> k = f >>= λ _. k

-- What is done to the processor alone, and what to the trace.
abbrev pub on_core : {A : Type 0} → Command A → Traced A
on_core c m = and_then (c m.core) (λ (a, p). done (a, record m { core = p }))

abbrev pub on_trace : (Core → Trace → Outcome Trace) → Traced (Unit {0})
on_trace f m = and_then (f m.core m.trace) (λ t. done (tt, record m { trace = t }))

-- trace.h: the number of the SPSR, the kinds of access, and their causes.
abbrev spsr : ℕ
spsr = 17

abbrev other_access : ℕ
other_access = 0

abbrev opcode_fetch : ℕ
opcode_fetch = 1

abbrev write : ℕ
write = 0

abbrev read : ℕ
read = 1

-- A value that is passed to the trace by a pointer: a read that fails leaves it as it was.
abbrev pub left_in : ℕ → Option ℕ → ℕ
left_in old none = old
left_in old (some value) = value

module _ (format : Bool) where
  unfoldable pub arm_read_register : ℕ → Traced ℕ
  arm_read_register reg = do
    value ← on_core (Core.arm_read_register reg)
    on_trace (λ p. trace_register format p.cycle_count read reg (get_mode p.reg) value)
    pure value

  unfoldable pub arm_read_usr_register : ℕ → Traced ℕ
  arm_read_usr_register reg = do
    value ← on_core (Core.arm_read_usr_register reg)
    on_trace (λ p. trace_register format p.cycle_count read reg usr value)
    pure value

  unfoldable pub arm_read_cpsr : Traced ℕ
  arm_read_cpsr = do
    value ← on_core Core.arm_read_cpsr
    on_trace (λ p. trace_register format p.cycle_count read cpsr 0 value)
    pure value

  unfoldable pub arm_read_spsr : Traced ℕ
  arm_read_spsr = do
    value ← on_core Core.arm_read_spsr
    on_trace (λ p. trace_register format p.cycle_count read spsr (get_mode p.reg) value)
    pure value

  unfoldable pub arm_write_register : ℕ → ℕ → Traced (Unit {0})
  arm_write_register reg value = do
    on_core (Core.arm_write_register reg value)
    on_trace (λ p. trace_register format p.cycle_count write reg (get_mode p.reg) value)

  unfoldable pub arm_write_usr_register : ℕ → ℕ → Traced (Unit {0})
  arm_write_usr_register reg value = do
    on_core (Core.arm_write_usr_register reg value)
    on_trace (λ p. trace_register format p.cycle_count write reg usr value)

  unfoldable pub arm_write_cpsr : ℕ → Traced (Unit {0})
  arm_write_cpsr value = do
    on_core (Core.arm_write_cpsr value)
    on_trace (λ p. trace_register format p.cycle_count write cpsr 0 value)

  unfoldable pub arm_write_spsr : ℕ → Traced (Unit {0})
  arm_write_spsr value = do
    on_core (Core.arm_write_spsr value)
    on_trace (λ p. trace_register format p.cycle_count write spsr (get_mode p.reg) value)

  -- `old` is what `*value` held before.
  unfoldable pub arm_fetch : ℕ → Traced (Option ℕ)
  arm_fetch old = do
    on_core count_cycle
    seen ← arm_read_register pc
    let address = sub32 seen 4
    result ← on_core (from_memory (λ mem. memory_read_word mem address))
    on_trace
        (λ p. trace_memory format p.cycle_count read 4 opcode_fetch address (left_in old result))
    arm_write_register pc (u32 (address + 4))
    pure result

  -- The reads of memory that no instruction is fetched by.
  abbrev read_memory : ℕ → Command (Option ℕ) → ℕ → ℕ → Traced (Option ℕ)
  read_memory size c address old = do
    result ← on_core c
    on_trace
        (λ p. trace_memory format p.cycle_count read size other_access address (left_in old result))
    pure result

  unfoldable pub arm_read_byte : ℕ → ℕ → Traced (Option ℕ)
  arm_read_byte address old = read_memory 1 (Core.arm_read_byte address) address old

  unfoldable pub arm_read_half : ℕ → ℕ → Traced (Option ℕ)
  arm_read_half address old = read_memory 2 (Core.arm_read_half address) address old

  unfoldable pub arm_read_word : ℕ → ℕ → Traced (Option ℕ)
  arm_read_word address old = read_memory 4 (Core.arm_read_word address) address old

  abbrev write_memory : ℕ → Command ℕ → ℕ → ℕ → Traced ℕ
  write_memory size c address value = do
    result ← on_core c
    on_trace (λ p. trace_memory format p.cycle_count write size other_access address value)
    pure result

  unfoldable pub arm_write_byte : ℕ → ℕ → Traced ℕ
  arm_write_byte address value = write_memory 1 (Core.arm_write_byte address value) address value

  unfoldable pub arm_write_half : ℕ → ℕ → Traced ℕ
  arm_write_half address value = write_memory 2 (Core.arm_write_half address value) address value

  unfoldable pub arm_write_word : ℕ → ℕ → Traced ℕ
  arm_write_word address value = write_memory 4 (Core.arm_write_word address value) address value

-- `(LOCATION, call + END_LOCATION)`: the number that is added is 0.
unfoldable pub located : {A : Type 0} → List ℕ → ℕ → Traced A → Traced A
located file line call = do
  on_trace (λ _. trace_start_location file line)
  a ← call
  on_trace (λ _ t. done (trace_end_location t))
  pure a
