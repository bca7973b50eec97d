-- ===== src/Invariant/Accesses.antt =====
-- What the accesses of arm_simulator-1.4/arm_core.c keep.
use arm_processor_simulator.Base.{
  ℕ, ◌+◌, Option, none, some, ◌≡◌, refl, ap, ◌∙◌, Outcome, done, >>=-eq-done, arith, subst, sym,
}
use arm_processor_simulator.Util.{u32}
use arm_processor_simulator.Memory.{Memory}
use arm_processor_simulator.Registers
use arm_processor_simulator.Registers.{Registers}
use arm_processor_simulator.Core.{
  Core, write_result, pc_seen, pure, value_of, from_registers, to_registers, from_memory, to_memory,
  count_cycle, arm_fetch, arm_current_mode_has_spsr, arm_read_register, arm_read_cpsr,
  arm_read_spsr, arm_write_register, arm_write_cpsr, arm_write_spsr, arm_read_byte, arm_read_half,
  arm_read_word, arm_write_byte, arm_write_half, arm_write_word,
}
use arm_processor_simulator.Invariant.Keeps.{
  Keeps, Kept, KeptMemory, Kept-refl, Keeps-pure, Keeps->>=, Keeps-if, Keeps-Option,
  Keeps-unchanged, memory_write_byte-Stores, memory_write_half-Stores, memory_write_word-Stores,
  Stores, KeptMemory-refl,
}

module _ {A : Type 0} where
  pub Keeps-from_registers : (f : Registers → Outcome A) → Keeps (from_registers f)
  Keeps-from_registers f = Keeps-unchanged (from_registers f) (λ p a p' h.
      let (b, first, last) = >>=-eq-done (f p.reg) (λ a. done (a, p)) h in
      let e : p ≡ p' = cc in (sym (ap (λ q. q.mem) e), sym (ap (λ q. q.cycle_count) e)))

pub Keeps-to_registers : (f : Registers → Outcome Registers) → Keeps (to_registers f)
Keeps-to_registers f = Keeps-unchanged (to_registers f) (λ p a p' h.
    let (r, first, last) = >>=-eq-done (f p.reg) (λ r. done (tt, record p { reg = r })) h in
    let e : record p { reg = r } ≡ p' = cc in
    (sym (ap (λ q. q.mem) e), sym (ap (λ q. q.cycle_count) e)))

pub Keeps-from_memory : (f : Memory → Outcome (Option ℕ)) → Keeps (from_memory f)
Keeps-from_memory f = Keeps-unchanged (from_memory f) (λ p a p' h.
    let (b, first, last) = >>=-eq-done (f p.mem) (λ a. done (a, p)) h in
    let e : p ≡ p' = cc in (sym (ap (λ q. q.mem) e), sym (ap (λ q. q.cycle_count) e)))

write-Kept :
    (p p' : Core) (a : ℕ) (o : Option Memory)
    → ((mem : Memory) → o ≡ some mem → KeptMemory p.mem mem)
    → write_result p o ≡ done (a, p')
    → Kept p p'
write-Kept p p' a none kept h = let e : p ≡ p' = cc in subst (Kept p) e (Kept-refl p)
write-Kept p p' a (some mem) kept h =
    let e : record p { mem = mem } ≡ p' = cc in
    subst (Kept p) e (record { memory = kept mem refl; cycles = λ lt. lt })

pub Keeps-to_memory :
    (f : Memory → Outcome (Option Memory))
    → ((mem : Memory) → Stores mem (f mem))
    → Keeps (to_memory f)
unfolding Stores
Keeps-to_memory f hf = record {
  at = λ p a p' h.
      let (o, first, last) = >>=-eq-done (f p.mem) (write_result p) h in
      write-Kept p p' a o (λ mem e. hf p.mem mem (first ∙ ap done e)) last;
}

pub Keeps-value_of : (o : Option ℕ) → Keeps (value_of o)
unfolding value_of
Keeps-value_of none = record { at = λ p a p' h. absurd cc }
Keeps-value_of (some v) = Keeps-pure v

-- A command that gives a value of the state.
Keeps-gets : {A : Type 0} (f : Core → A) → Keeps (λ p. done (f p, p))
Keeps-gets f =
    Keeps-unchanged _ (λ p a p' h.
      let e : p ≡ p' = cc in (sym (ap (λ q. q.mem) e), sym (ap (λ q. q.cycle_count) e)))

pub Keeps-arm_read_cpsr : Keeps arm_read_cpsr
unfolding arm_read_cpsr
Keeps-arm_read_cpsr = Keeps-gets _

pub Keeps-arm_current_mode_has_spsr : Keeps arm_current_mode_has_spsr
unfolding arm_current_mode_has_spsr
Keeps-arm_current_mode_has_spsr = Keeps-gets _

pub Keeps-arm_read_spsr : Keeps arm_read_spsr
unfolding arm_read_spsr
Keeps-arm_read_spsr = Keeps-from_registers _

pub Keeps-arm_read_register : (reg : ℕ) → Keeps (arm_read_register reg)
unfolding arm_read_register
Keeps-arm_read_register reg =
    Keeps->>= (from_registers (λ r. Registers.read_register r reg)) (λ v. pure (pc_seen reg v))
      (Keeps-from_registers _) (λ v. Keeps-pure _)

pub Keeps-arm_write_register : (reg value : ℕ) → Keeps (arm_write_register reg value)
unfolding arm_write_register
Keeps-arm_write_register reg value = Keeps-to_registers _

pub Keeps-arm_write_cpsr : (value : ℕ) → Keeps (arm_write_cpsr value)
unfolding arm_write_cpsr
Keeps-arm_write_cpsr value = Keeps-unchanged _ (λ p a p' h.
    let e : record p { reg = Registers.write_cpsr p.reg value } ≡ p' = cc in
    (sym (ap (λ q. q.mem) e), sym (ap (λ q. q.cycle_count) e)))

pub Keeps-arm_write_spsr : (value : ℕ) → Keeps (arm_write_spsr value)
unfolding arm_write_spsr
Keeps-arm_write_spsr value = Keeps-to_registers _

pub Keeps-arm_read_byte : (address : ℕ) → Keeps (arm_read_byte address)
unfolding arm_read_byte
Keeps-arm_read_byte address = Keeps-from_memory _

pub Keeps-arm_read_half : (address : ℕ) → Keeps (arm_read_half address)
unfolding arm_read_half
Keeps-arm_read_half address = Keeps-from_memory _

pub Keeps-arm_read_word : (address : ℕ) → Keeps (arm_read_word address)
unfolding arm_read_word
Keeps-arm_read_word address = Keeps-from_memory _

pub Keeps-arm_write_byte : (address value : ℕ) → Keeps (arm_write_byte address value)
unfolding arm_write_byte
Keeps-arm_write_byte address value =
    Keeps-to_memory _ (λ mem. memory_write_byte-Stores mem address value)

pub Keeps-arm_write_half : (address value : ℕ) → Keeps (arm_write_half address value)
unfolding arm_write_half
Keeps-arm_write_half address value =
    Keeps-to_memory _ (λ mem. memory_write_half-Stores mem address value)

pub Keeps-arm_write_word : (address value : ℕ) → Keeps (arm_write_word address value)
unfolding arm_write_word
Keeps-arm_write_word address value =
    Keeps-to_memory _ (λ mem. memory_write_word-Stores mem address value)

pub Keeps-count_cycle : Keeps count_cycle
unfolding count_cycle
Keeps-count_cycle = record {
  at = λ p a p' h.
      let e : record p { cycle_count = u32 (p.cycle_count + 1) } ≡ p' = cc in
      subst (Kept p) e (record { memory = KeptMemory-refl p.mem; cycles = λ lt. omega arith });
}

-- The rules for the accesses and for what is built of them.
pub ruleset keeps_rules = (
  Keeps-pure, Keeps-if, Keeps->>=, Keeps-Option, Keeps-value_of, Keeps-from_memory,
  Keeps-count_cycle, Keeps-arm_read_cpsr, Keeps-arm_current_mode_has_spsr, Keeps-arm_read_spsr,
  Keeps-arm_read_register, Keeps-arm_write_register, Keeps-arm_write_cpsr, Keeps-arm_write_spsr,
  Keeps-arm_read_byte, Keeps-arm_read_half, Keeps-arm_read_word, Keeps-arm_write_byte,
  Keeps-arm_write_half, Keeps-arm_write_word,
)

pub Keeps-arm_fetch : Keeps arm_fetch
unfolding arm_fetch
Keeps-arm_fetch = search keeps_rules depth 12
