-- ===== src/Core/Access.antt =====
-- The accesses of arm_core.c in a mode number from 16 on, where none of them is undefined, and the
-- fetch.
use arm_processor_simulator.Base.{
  update, ℕ, ◌+◌, ◌%◌, ◌^◌, ◌≤◌, ◌<◌, ◌≡◌, ◌≢◌, ◌∙◌, ap, arith, true, done, ltb, if◌then◌else◌,
  bit_and, some, none,
}
use arm_processor_simulator.Util.{u32, sub32, clr_bit}
use arm_processor_simulator.Util.Fields.{clr_bit_lem}
use arm_processor_simulator.Constants.{pc, cpsr, is_mode}
use arm_processor_simulator.Memory.{memory_read_word}
use arm_processor_simulator.Memory.Cells.{IsBytes}
use arm_processor_simulator.Memory.Access.{word_at, memory_read_word-checked}
use arm_processor_simulator.Registers.{get_mode}
use arm_processor_simulator.Registers.Bank.{
  bank, read_register-done, write_register-done, get_mode-update,
}
use arm_processor_simulator.Core.{
  Core, arm_read_register, arm_write_register, arm_fetch, count_cycle, pc_seen,
}

abbrev pub mode_of : Core → ℕ
mode_of p = get_mode p.reg

-- The processor with one of its 37 registers changed.
abbrev pub put : Core → ℕ → ℕ → Core
put p i value = record p { reg = record { registers = update p.reg.registers i value } }

-- Register `reg` of the current mode, as it is stored.
abbrev pub stored : Core → ℕ → ℕ
stored p reg = p.reg.registers (bank (mode_of p) reg)

pub arm_read_register-done :
    (p : Core) (reg : ℕ)
    → reg < 16
    → 16 ≤ mode_of p
    → arm_read_register reg p ≡ done (pc_seen reg (stored p reg), p)
unfolding arm_read_register
arm_read_register-done p reg h m = rw (read_register-done p.reg reg h m)

pub arm_write_register-done :
    (p : Core) (reg value : ℕ)
    → reg < 16
    → 16 ≤ mode_of p
    → arm_write_register reg value p ≡ done (tt, put p (bank (mode_of p) reg) value)
unfolding arm_write_register
arm_write_register-done p reg value h m = rw (write_register-done p.reg reg value h m)

pub mode_of-put : (p : Core) (i value : ℕ) → i ≢ cpsr → mode_of (put p i value) ≡ mode_of p
mode_of-put p i value ne = get_mode-update p.reg i value ne

-- The mode of the processor is one of the seven.
abbrev pub HasMode : Core → Type 0
HasMode p = is_mode (mode_of p) ≡ true

pub HasMode-le : (p : Core) → HasMode p → 16 ≤ mode_of p
HasMode-le p h = ground arith

pub bank-pc : (mode : ℕ) → is_mode mode ≡ true → bank mode pc ≡ pc
unfolding bank
bank-pc mode h = ground arith

pub pc_seen_aligned : (a : ℕ) → a < 2 ^ 32 → a % 4 ≡ 0 → sub32 (pc_seen pc a) 4 ≡ a
unfolding clr_bit
pc_seen_aligned a h aligned =
    let cleared : bit_and (u32 (a + 4)) 0xFFFFFFFD ≡ u32 (a + 4) =
      clr_bit_lem (u32 (a + 4)) 1 30 (omega arith) (omega arith) ∙ omega arith in
    rw cleared (omega arith)

pub read_pc :
    (p : Core) → HasMode p → arm_read_register pc p ≡ done (pc_seen pc (p.reg.registers pc), p)
read_pc p h =
    arm_read_register-done p pc (omega arith) (HasMode-le p h)
    ∙ ap (λ i. done (pc_seen pc (p.reg.registers i), p)) (bank-pc (mode_of p) h)

pub write_pc :
    (p : Core) (value : ℕ) → HasMode p → arm_write_register pc value p ≡ done (tt, put p pc value)
write_pc p value h =
    arm_write_register-done p pc value (omega arith) (HasMode-le p h)
    ∙ ap (λ i. done (tt, put p i value)) (bank-pc (mode_of p) h)

-- The processor after a fetch from `a`.
abbrev pub fetched : Core → ℕ → Core
fetched p a = record p {
  cycle_count = u32 (p.cycle_count + 1);
  reg = record { registers = update p.reg.registers pc (u32 (a + 4)) };
}

-- From a program counter that is a multiple of 4, the fetch reads the word at that address, or
-- reports -1 where it lies outside the memory; in both cases it counts a cycle and moves the
-- program counter to the next word, and changes nothing else.
pub arm_fetch-aligned :
    (p : Core) (a : ℕ)
    → HasMode p
    → IsBytes p.mem
    → 2 < p.mem.size
    → p.mem.size + 3 ≤ 2 ^ 32
    → p.reg.registers pc ≡ a
    → a < 2 ^ 32
    → a % 4 ≡ 0
    → arm_fetch p
      ≡ done ((if ltb (a + 3) p.mem.size then some (word_at p.mem a) else none), fetched p a)
unfolding arm_fetch count_cycle
arm_fetch-aligned p a mode bytes words room at_a small aligned =
    let lo = HasMode-le p mode in
    let here = bank-pc (mode_of p) mode in
    let q : Core = record p { cycle_count = u32 (p.cycle_count + 1) } in
    let read = arm_read_register-done q pc (omega arith) lo in
    let write = arm_write_register-done q pc (u32 (a + 4)) (omega arith) lo in
    let address : sub32 (pc_seen pc (stored q pc)) 4 ≡ a =
      rw (here, at_a) (pc_seen_aligned a small aligned) in
    let access : memory_read_word p.mem a
        ≡ done (if ltb (a + 3) p.mem.size then some (word_at p.mem a) else none) =
      memory_read_word-checked p.mem a bytes small words room ∙ ground arith in
    rw (read, address, access, write, here)
