-- ===== src/Exception/Vectors.antt =====
-- The seven exceptions, and the processor that `arm_create` starts.
use arm_processor_simulator.Base.{
  ℕ, zero, suc, ◌^◌, ◌<◌, ◌≡◌, refl, arith, Bool, true, false, ◌==◌, done, ◌&&◌, ◌||◌,
}
use arm_processor_simulator.Constants.{pc, cpsr, usr, sys, is_mode, svc, und, abt, irq, fiq}
use arm_processor_simulator.Memory.{Memory}
use arm_processor_simulator.Core.{Core}
use arm_processor_simulator.Core.Access.{mode_of, HasMode}
use arm_processor_simulator.Exception.{
  arm_create, arm_exception, ReturnState, current, next, execute_,
}
use arm_processor_simulator.Exception.Entry.{IsEntered, entered, execute_-done, entered-IsEntered}
use arm_processor_simulator.Registers.{registers_create}
use arm_processor_simulator.Registers.Spsr.{registers_create-usr, registers_create-lt}
use arm_processor_simulator.Util.{get_bits}
use arm_processor_simulator.Util.Fields.{get_bits_lem, get_bit_lem}

-- What `arm_exception` asks for: whether the CPSR is saved, the mode, whether fast interrupts are masked,
-- the return address, and the vector.
pub record Row : Type 0 where
  pub need_spsr : Bool
  pub mode : ℕ
  pub fast : Bool
  pub state : ReturnState
  pub vector : ℕ

abbrev row : Bool → ℕ → Bool → ReturnState → ℕ → Row
row s m f r v = record { need_spsr = s; mode = m; fast = f; state = r; vector = v }

-- The arguments of the seven functions, by the exception's number less 1.
abbrev pub row_of : ℕ → Row
row_of zero = row false svc true next 0x0
row_of (suc zero) = row true und false next 0x4
row_of (suc (suc zero)) = row true svc false next 0x8
row_of (suc (suc (suc zero))) = row true abt false current 0xC
row_of (suc (suc (suc (suc zero)))) = row true abt false current 0x10
row_of (suc (suc (suc (suc (suc zero))))) = row true irq false next 0x18
row_of (suc (suc (suc (suc (suc (suc n)))))) = row true fiq true next 0x1C

abbrev EntersRow : Core → Row → ℕ → Type 0
EntersRow p r exception =
    (out : Core) × (arm_exception exception p ≡ done (tt, out))
    × IsEntered p r.need_spsr r.mode r.fast r.state r.vector out

module _ (p : Core) (h : HasMode p) (small : p.reg.registers cpsr < 2 ^ 32) where
  enters :
      (need : Bool) (mode count vector : ℕ) (state : ReturnState)
      → is_mode mode ≡ true
      → (need && (mode == usr || mode == sys)) ≡ false
      → vector < 2 ^ 16
      → (out : Core) × (execute_ need mode count state vector p ≡ done (tt, out))
        × IsEntered p need mode (count == 3) state vector out
  enters need mode count vector state m safe v = (
    entered p mode count vector state need,
    execute_-done p need mode count vector state h small m safe v,
    entered-IsEntered p need mode count vector state small m,
  )

  enters_row : (n : ℕ) → n < 7 → EntersRow p (row_of n) (suc n)
  unfolding arm_exception
  enters_row zero k = enters false svc 3 0x0 next refl refl (omega arith)
  enters_row (suc zero) k = enters true und 2 0x4 next refl refl (omega arith)
  enters_row (suc (suc zero)) k = enters true svc 2 0x8 next refl refl (omega arith)
  enters_row (suc (suc (suc zero))) k = enters true abt 2 0xC current refl refl (omega arith)
  enters_row (suc (suc (suc (suc zero)))) k = enters true abt 2 0x10 current refl refl (omega arith)
  enters_row (suc (suc (suc (suc (suc zero))))) k =
      enters true irq 2 0x18 next refl refl (omega arith)
  enters_row (suc (suc (suc (suc (suc (suc zero)))))) k =
      enters true fiq 3 0x1C next refl refl (omega arith)
  enters_row (suc (suc (suc (suc (suc (suc (suc n))))))) k = absurd (omega arith)

-- In one of the seven modes, each of the seven exceptions takes the processor to the mode and the vector
-- that its function asks for.
pub arm_exception-IsEntered :
    (p : Core) (n : ℕ)
    → HasMode p
    → p.reg.registers cpsr < 2 ^ 32
    → n < 7
    → (out : Core) × (arm_exception (suc n) p ≡ done (tt, out))
      × IsEntered p
          (row_of n).need_spsr
          (row_of n).mode
          (row_of n).fast
          (row_of n).state
          (row_of n).vector
          out
arm_exception-IsEntered p n h small k = enters_row p h small n k

-- Any other number, such as the 255 that a failed access leaves, changes nothing.
pub arm_exception_other :
    (p : Core) (exception : ℕ) → 7 < exception → arm_exception exception p ≡ done (tt, p)
unfolding arm_exception
arm_exception_other p exception h = ground arith

-- Whatever the blocks from `malloc` hold, a new processor is in supervisor mode at address 0, in
-- ARM state, with both interrupts masked, no cycle counted, and the memory it was given.
pub arm_create-reset :
    (contents : ℕ → ℕ) (cycles : ℕ) (mem : Memory)
    → contents cpsr < 2 ^ 32
    → (out : Core) × (arm_create contents cycles mem ≡ done out)
      × (mode_of out ≡ svc)
      × (out.reg.registers pc ≡ 0)
      × (get_bits (out.reg.registers cpsr) 7 5 ≡ 0b110)
      × (out.cycle_count ≡ 0)
      × (out.mem ≡ mem)
unfolding arm_create
arm_create-reset contents cycles mem h =
    let p : Core = record { cycle_count = cycles; reg = registers_create contents; mem = mem } in
    let user : HasMode p = rw (registers_create-usr contents h) in
    let (out, runs, e) =
      arm_exception-IsEntered p 0 user (registers_create-lt contents h) (omega arith) in
    let now = out.reg.registers cpsr in
    (
      record out { cycle_count = 0 },
      rw runs,
      e.in_mode,
      e.target,
      omega (
        arith,
        get_bits_lem now 7 5,
        e.status.arm_state,
        e.status.fast_mask,
        e.status.irq_mask,
        get_bit_lem now 5,
        get_bit_lem now 6,
        get_bit_lem now 7,
      ),
      refl,
      e.memory,
    )
