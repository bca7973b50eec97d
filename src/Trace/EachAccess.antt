-- ===== src/Trace/EachAccess.antt =====
-- arm_simulator-1.4/arm_core.c and trace_location.h: each traced access changes the processor as the
-- access without its trace calls does.
use arm_processor_simulator.Base.{ℕ, ◌+◌, ◌<◌, Bool, Outcome, arith}
use arm_processor_simulator.Util.{u32, sub32}
use arm_processor_simulator.Constants.{pc}
use arm_processor_simulator.Memory.{memory_read_word}
use arm_processor_simulator.Registers.{get_mode}
use arm_processor_simulator.Registers.Bank.{get_mode-lt}
use arm_processor_simulator.Core
use arm_processor_simulator.Core.{Core, Command, count_cycle, from_memory}
use arm_processor_simulator.Trace.{Trace, trace_memory}
use arm_processor_simulator.Trace.Accesses.{
  pure, ◌>>=◌, ◌>>◌, on_core, on_trace, left_in, arm_read_register, arm_read_usr_register,
  arm_read_cpsr, arm_read_spsr, arm_write_register, arm_write_usr_register, arm_write_cpsr,
  arm_write_spsr, arm_fetch, arm_read_byte, arm_read_half, arm_read_word, arm_write_byte,
  arm_write_half, arm_write_word,
}
use arm_processor_simulator.Trace.Follows.{HasRoom, Adds, trace_memory-Adds, trace_register-Adds}
use arm_processor_simulator.Trace.Erasure.{
  Erases, Erases-pure, Erases-on_core, Erases-on_trace, Erases->>=, Erases-access, Erases-eq,
  pure_last,
}

module _ (format : Bool) where
  pub read_register-Erases :
      (reg : ℕ) → reg < 18 → Erases 128 (arm_read_register format reg) (Core.arm_read_register reg)
  unfolding arm_read_register
  read_register-Erases reg named = Erases-access 128 (Core.arm_read_register reg) _ (λ value p t.
      trace_register-Adds format p.cycle_count 1 reg (get_mode p.reg) value t (omega arith) named
        (get_mode-lt p.reg))

  pub read_usr_register-Erases :
      (reg : ℕ)
      → reg < 18
      → Erases 128 (arm_read_usr_register format reg) (Core.arm_read_usr_register reg)
  unfolding arm_read_usr_register
  read_usr_register-Erases reg named =
      Erases-access 128 (Core.arm_read_usr_register reg) _ (λ value p t.
        trace_register-Adds format p.cycle_count 1 reg 16 value t (omega arith) named (omega arith))

  pub read_cpsr-Erases : Erases 128 (arm_read_cpsr format) Core.arm_read_cpsr
  unfolding arm_read_cpsr
  read_cpsr-Erases = Erases-access 128 Core.arm_read_cpsr _ (λ value p t.
      trace_register-Adds format p.cycle_count 1 16 0 value t (omega arith) (omega arith)
        (omega arith))

  pub read_spsr-Erases : Erases 128 (arm_read_spsr format) Core.arm_read_spsr
  unfolding arm_read_spsr
  read_spsr-Erases = Erases-access 128 Core.arm_read_spsr _ (λ value p t.
      trace_register-Adds format p.cycle_count 1 17 (get_mode p.reg) value t (omega arith)
        (omega arith) (get_mode-lt p.reg))

  -- A write of a register that has a name in a mode, and its trace.
  write-Erases :
      (c : Command (Unit {0})) (f : Core → Trace → Outcome Trace)
      → ((p : Core) (t : Trace) → HasRoom 128 t → Adds t (f p t))
      → Erases 128 (on_core c >>= λ _. on_trace f) c
  write-Erases c f h =
      Erases-eq 128 (on_core c >>= λ _. on_trace f) (Core.◌>>=◌ c (λ _. Core.pure tt)) c
        (λ p. pure_last 128 (c p))
        (Erases->>= 128 (on_core c) c _ _ (Erases-on_core 128 c) (λ _. Erases-on_trace 128 f h))

  pub write_register-Erases :
      (reg value : ℕ)
      → reg < 18
      → Erases 128 (arm_write_register format reg value) (Core.arm_write_register reg value)
  unfolding arm_write_register
  write_register-Erases reg value named = write-Erases (Core.arm_write_register reg value) _ (λ p t.
      trace_register-Adds format p.cycle_count 0 reg (get_mode p.reg) value t (omega arith) named
        (get_mode-lt p.reg))

  pub write_usr_register-Erases :
      (reg value : ℕ)
      → reg < 18
      → Erases 128 (arm_write_usr_register format reg value) (Core.arm_write_usr_register reg value)
  unfolding arm_write_usr_register
  write_usr_register-Erases reg value named =
      write-Erases (Core.arm_write_usr_register reg value) _ (λ p t.
        trace_register-Adds format p.cycle_count 0 reg 16 value t (omega arith) named (omega arith))

  pub write_cpsr-Erases :
      (value : ℕ) → Erases 128 (arm_write_cpsr format value) (Core.arm_write_cpsr value)
  unfolding arm_write_cpsr
  write_cpsr-Erases value = write-Erases (Core.arm_write_cpsr value) _ (λ p t.
      trace_register-Adds format p.cycle_count 0 16 0 value t (omega arith) (omega arith)
        (omega arith))

  pub write_spsr-Erases :
      (value : ℕ) → Erases 128 (arm_write_spsr format value) (Core.arm_write_spsr value)
  unfolding arm_write_spsr
  write_spsr-Erases value = write-Erases (Core.arm_write_spsr value) _ (λ p t.
      trace_register-Adds format p.cycle_count 0 17 (get_mode p.reg) value t (omega arith)
        (omega arith) (get_mode-lt p.reg))

  -- An access of the memory whose result is traced.
  memory-Erases :
      {A : Type 0} (c : Command A) (type size cause address : ℕ) (seen : A → ℕ)
      → type < 2
      → cause < 2
      → Erases 128
          (on_core c >>= λ result.
            on_trace (λ p. trace_memory format p.cycle_count type size cause address (seen result))
            >> pure result)
          c
  memory-Erases c type size cause address seen kind why = Erases-access 128 c _ (λ result p t.
      trace_memory-Adds format p.cycle_count type size cause address (seen result) t kind why)

  pub read_byte-Erases :
      (address old : ℕ) → Erases 128 (arm_read_byte format address old) (Core.arm_read_byte address)
  unfolding arm_read_byte
  read_byte-Erases address old =
      memory-Erases (Core.arm_read_byte address) 1 1 0 address (left_in old) (omega arith)
        (omega arith)

  pub read_half-Erases :
      (address old : ℕ) → Erases 128 (arm_read_half format address old) (Core.arm_read_half address)
  unfolding arm_read_half
  read_half-Erases address old =
      memory-Erases (Core.arm_read_half address) 1 2 0 address (left_in old) (omega arith)
        (omega arith)

  pub read_word-Erases :
      (address old : ℕ) → Erases 128 (arm_read_word format address old) (Core.arm_read_word address)
  unfolding arm_read_word
  read_word-Erases address old =
      memory-Erases (Core.arm_read_word address) 1 4 0 address (left_in old) (omega arith)
        (omega arith)

  pub write_byte-Erases :
      (address value : ℕ)
      → Erases 128 (arm_write_byte format address value) (Core.arm_write_byte address value)
  unfolding arm_write_byte
  write_byte-Erases address value =
      memory-Erases (Core.arm_write_byte address value) 0 1 0 address (λ _. value) (omega arith)
        (omega arith)

  pub write_half-Erases :
      (address value : ℕ)
      → Erases 128 (arm_write_half format address value) (Core.arm_write_half address value)
  unfolding arm_write_half
  write_half-Erases address value =
      memory-Erases (Core.arm_write_half address value) 0 2 0 address (λ _. value) (omega arith)
        (omega arith)

  pub write_word-Erases :
      (address value : ℕ)
      → Erases 128 (arm_write_word format address value) (Core.arm_write_word address value)
  unfolding arm_write_word
  write_word-Erases address value =
      memory-Erases (Core.arm_write_word address value) 0 4 0 address (λ _. value) (omega arith)
        (omega arith)

  pub fetch-Erases : (old : ℕ) → Erases 128 (arm_fetch format old) Core.arm_fetch
  unfolding arm_fetch Core.arm_fetch
  fetch-Erases old =
      Erases->>= 128 (on_core count_cycle) count_cycle _ _ (Erases-on_core 128 count_cycle) (λ _.
        Erases->>= 128 (arm_read_register format pc) (Core.arm_read_register pc) _ _
          (read_register-Erases pc (omega arith))
          (λ seen.
            let address = sub32 seen 4 in
            let word = from_memory (λ mem. memory_read_word mem address) in
            let moved = u32 (address + 4) in
            Erases->>= 128 (on_core word) word _ _ (Erases-on_core 128 word) (λ result.
              Erases->>= 128
                (on_trace
                  (λ p. trace_memory format p.cycle_count 1 4 1 address (left_in old result)))
                (Core.pure tt) _ _
                (Erases-on_trace 128 _ (λ p t.
                  trace_memory-Adds format p.cycle_count 1 4 1 address (left_in old result) t
                    (omega arith) (omega arith)))
                (λ _.
                  Erases->>= 128 (arm_write_register format pc moved)
                    (Core.arm_write_register pc moved) _ _
                    (write_register-Erases pc moved (omega arith)) (λ _. Erases-pure 128 result)))))
