-- ===== src/Exception/Entry.antt =====
-- The state in which an exception leaves the processor.
use arm_processor_simulator.Base.{
  ℕ, ◌^◌, ◌≤◌, ◌<◌, ◌≡◌, ◌≢◌, ◌∙◌, arith, Bool, true, false, ◌==◌, if◌then◌else◌, done, bit_and,
  ◌&&◌, ◌||◌,
}
use arm_processor_simulator.Base.Bits.{bit_and_mask}
use arm_processor_simulator.Util.{sub32}
use arm_processor_simulator.Constants.{pc, cpsr, sp, lr, usr, sys, is_mode}
use arm_processor_simulator.Registers.{Registers, get_mode, read_cpsr, has_spsr}
use arm_processor_simulator.Registers
use arm_processor_simulator.Registers.Bank.{bank, bank_range, write_register-done}
use arm_processor_simulator.Registers.Spsr.{write_spsr-r0, bank-zero}
use arm_processor_simulator.Core.{
  Core, ◌>>◌, pc_seen, arm_read_cpsr, arm_write_cpsr, arm_write_spsr,
}
use arm_processor_simulator.Core.Access.{
  mode_of, put, stored, HasMode, HasMode-le, mode_of-put, read_pc, write_pc, arm_read_register-done,
  arm_write_register-done,
}
use arm_processor_simulator.Exception.{
  ReturnState, current, next, branch_exception_vector, exception_cpsr, save_spsr, execute_,
  return_address,
}
use arm_processor_simulator.Exception.Status.{IsEntryStatus, exception_cpsr-IsEntryStatus}

-- The address for the link register, from the program counter.
abbrev pub link_value : Core → ReturnState → ℕ
link_value p current = sub32 (pc_seen pc (p.reg.registers pc)) 4
link_value p next = pc_seen pc (p.reg.registers pc)

-- `out` is the processor `p` in the handler of an exception: in the exception's mode at its vector,
-- with the old stack pointer as the new mode's and the return address in its link register. Where
-- the old CPSR is saved, it is in r0. The registers r1 to r12 of user mode, the memory and the
-- cycle counter are as before.
pub record IsEntered (p : Core) (need_spsr : Bool) (mode : ℕ) (fast : Bool) (state : ReturnState)
    (vector : ℕ) (out : Core) : Type 0 where
  pub in_mode : mode_of out ≡ mode
  pub status : IsEntryStatus (p.reg.registers cpsr) mode fast (out.reg.registers cpsr)
  pub stack : stored out sp ≡ stored p sp
  pub link : stored out lr ≡ link_value p state
  pub target : out.reg.registers pc ≡ vector
  pub saved : out.reg.registers 0 ≡ (if need_spsr then p.reg.registers cpsr else p.reg.registers 0)
  pub general : (i : ℕ) → 1 ≤ i → i ≤ 12 → out.reg.registers i ≡ p.reg.registers i
  pub memory : out.mem ≡ p.mem
  pub cycles : out.cycle_count ≡ p.cycle_count

-- The processor after `execute_`, assignment by assignment.
module _ (p : Core) (mode count vector : ℕ) (state : ReturnState) where
  abbrev pub status_written : Core
  status_written = put p cpsr (exception_cpsr (p.reg.registers cpsr) mode count)

  abbrev pub stack_written : Core
  stack_written = put status_written (bank mode sp) (stored p sp)

  abbrev pub link_written : Core
  link_written = put stack_written (bank mode lr) (link_value p state)

  abbrev pub entered : Bool → Core
  entered need =
      put (if need then put link_written 0 (p.reg.registers cpsr) else link_written) pc vector

return_address-done :
    (p : Core) (state : ReturnState)
    → HasMode p
    → return_address state p ≡ done (link_value p state, p)
return_address-done p current h = rw (read_pc p h)
return_address-done p next h = rw (read_pc p h)

mode_of-status_written :
    (p : Core) (mode count vector : ℕ) (state : ReturnState)
    → p.reg.registers cpsr < 2 ^ 32
    → mode < 32
    → mode_of (status_written p mode count vector state) ≡ mode
unfolding get_mode read_cpsr
mode_of-status_written p mode count vector state h small =
    (exception_cpsr-IsEntryStatus (p.reg.registers cpsr) mode count h small).mode_bits

branch-done :
    (p : Core) (vector : ℕ)
    → HasMode p
    → vector < 2 ^ 16
    → branch_exception_vector vector p ≡ done (tt, put p pc vector)
unfolding branch_exception_vector
branch-done p vector h small =
    let same : bit_and vector 0xFFFF ≡ vector = bit_and_mask 16 vector ∙ omega arith in
    rw same (write_pc p vector h)

save-done :
    (p : Core) (value : ℕ)
    → HasMode p
    → has_spsr p.reg ≡ true
    → arm_write_spsr value p ≡ done (tt, put p 0 value)
unfolding arm_write_spsr
save-done p value h has = rw (
  write_spsr-r0 p.reg value has (HasMode-le p h),
  write_register-done p.reg 0 value (omega arith) (HasMode-le p h),
  bank-zero (mode_of p),
)

-- The last two statements of `execute_`.
finish-done :
    (need : Bool) (q : Core) (spsr vector : ℕ)
    → HasMode q
    → (need && (mode_of q == usr || mode_of q == sys)) ≡ false
    → vector < 2 ^ 16
    → (save_spsr need spsr >> branch_exception_vector vector) q
      ≡ done (tt, put (if need then put q 0 spsr else q) pc vector)
finish-done false q spsr vector h safe v = branch-done q vector h v
finish-done true q spsr vector h safe v =
    let has : has_spsr q.reg ≡ true = unfold has_spsr in ground arith in
    let kept : mode_of (put q 0 spsr) ≡ mode_of q = mode_of-put q 0 spsr (omega arith) in
    rw (save-done q spsr h has) (branch-done (put q 0 spsr) vector (rw kept h) v)

pub execute_-done :
    (p : Core) (need : Bool) (mode count vector : ℕ) (state : ReturnState)
    → HasMode p
    → p.reg.registers cpsr < 2 ^ 32
    → is_mode mode ≡ true
    → (need && (mode == usr || mode == sys)) ≡ false
    → vector < 2 ^ 16
    → execute_ need mode count state vector p ≡ done (tt, entered p mode count vector state need)
unfolding execute_ arm_read_cpsr arm_write_cpsr read_cpsr Registers.write_cpsr
execute_-done p need mode count vector state h small m safe v =
    let p1 = status_written p mode count vector state in
    let p2 = stack_written p mode count vector state in
    let p3 = link_written p mode count vector state in
    let range = bank_range mode in
    let mode1 : mode_of p1 ≡ mode =
      mode_of-status_written p mode count vector state small (ground arith) in
    let mode2 : mode_of p2 ≡ mode =
      mode_of-put p1 (bank mode sp) (stored p sp) (range sp (omega arith)).1 ∙ mode1 in
    let mode3 : mode_of p3 ≡ mode =
      mode_of-put p2 (bank mode lr) (link_value p state) (range lr (omega arith)).1 ∙ mode2 in
    let lo : 16 ≤ mode = ground arith in
    let write1 = arm_write_register-done p1 sp (stored p sp) (omega arith) (omega arith) in
    let write2 = arm_write_register-done p2 lr (link_value p state) (omega arith) (omega arith) in
    let read1 = arm_read_register-done p sp (omega arith) (HasMode-le p h) in
    rw (read1, return_address-done p state h, write1, mode1, write2, mode2)
      (finish-done need p3 (read_cpsr p.reg) vector (rw mode3 m) (rw mode3 safe) v)

-- The stack pointer and the link register of a mode are apart from each other and from the
-- registers that all modes share.
own_places :
    (mode : ℕ)
    → is_mode mode ≡ true
    → (12 < bank mode sp)
      × (12 < bank mode lr)
      × (bank mode sp ≢ pc)
      × (bank mode lr ≢ pc)
      × (bank mode sp ≢ cpsr)
      × (bank mode lr ≢ cpsr)
      × (bank mode sp ≢ bank mode lr)
unfolding bank
own_places mode h = ground arith

pub entered-IsEntered :
    (p : Core) (need : Bool) (mode count vector : ℕ) (state : ReturnState)
    → p.reg.registers cpsr < 2 ^ 32
    → is_mode mode ≡ true
    → IsEntered p need mode (count == 3) state vector (entered p mode count vector state need)
entered-IsEntered p need mode count vector state small m =
    let out = entered p mode count vector state need in
    let places = own_places mode m in
    let lt32 : mode < 32 = ground arith in
    let now : out.reg.registers cpsr ≡ exception_cpsr (p.reg.registers cpsr) mode count =
      ground arith in
    let status = exception_cpsr-IsEntryStatus (p.reg.registers cpsr) mode count small lt32 in
    let in_mode : mode_of out ≡ mode = unfold get_mode read_cpsr in rw now status.mode_bits in
    record {
      in_mode = in_mode;
      status = rw now status;
      stack = rw in_mode (ground arith);
      link = rw in_mode (ground arith);
      target = ground arith;
      saved = ground arith;
      general = λ i lo hi. ground arith;
      memory = ground arith;
      cycles = ground arith;
    }
