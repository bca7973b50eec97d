-- ===== src/Exception/Status.antt =====
-- The CPSR that an exception sets up.
use arm_processor_simulator.Base.{
  ℕ, ◌+◌, ◌*◌, ◌/◌, ◌%◌, ◌^◌, ◌<◌, ◌≡◌, ◌∙◌, arith, Bool, ◌==◌, if◌then◌else◌, Bool-cases, inl, inr,
}
use arm_processor_simulator.Util.{set_bit, clr_bit, set_bits, get_bit, get_bits}
use arm_processor_simulator.Util.Fields.{
  set_bit_lem, clr_bit_lem, set_bits_lem, get_bit_lem, get_bits_lem,
}
use arm_processor_simulator.Exception.{exception_cpsr}

-- The CPSR `now`, set up from `before` for an exception: its mode, ARM state, interrupts masked,
-- fast interrupts masked if `fast` says so and as before if not, and the flags as before.
pub record IsEntryStatus (before mode : ℕ) (fast : Bool) (now : ℕ) : Type 0 where
  pub small : now < 2 ^ 32
  pub mode_bits : get_bits now 4 0 ≡ mode
  pub arm_state : get_bit now 5 ≡ 0
  pub fast_mask : get_bit now 6 ≡ (if fast then 1 else get_bit before 6)
  pub irq_mask : get_bit now 7 ≡ 1
  pub flags : get_bits now 31 28 ≡ get_bits before 31 28

-- The five assignments, one after the other.
fast_bit : ℕ → ℕ → ℕ
fast_bit before count = if count == 3 then 1 else before / 2 ^ 6 % 2

module _ (before mode : ℕ) (hb : before < 2 ^ 32) (hm : mode < 32) where
  set_mode : set_bits before 4 0 mode ≡ before / 2 ^ 5 * 2 ^ 5 + mode
  set_mode = set_bits_lem before 0 4 27 mode (omega arith) hb hm ∙ omega arith

  clear_thumb : clr_bit (before / 2 ^ 5 * 2 ^ 5 + mode) 5 ≡ before / 2 ^ 6 * 2 ^ 6 + mode
  clear_thumb =
      clr_bit_lem (before / 2 ^ 5 * 2 ^ 5 + mode) 5 26 (omega arith) (omega arith) ∙ omega arith

  mask_fast :
      (count : ℕ)
      → (if count == 3
          then set_bit (before / 2 ^ 6 * 2 ^ 6 + mode) 6
          else before / 2 ^ 6 * 2 ^ 6 + mode)
        ≡ before / 2 ^ 7 * 2 ^ 7 + fast_bit before count * 2 ^ 6 + mode
  unfolding fast_bit
  mask_fast count = elim (Bool-cases (count == 3)) [
    | inl three ↦ rw three (set_bit_lem (before / 2 ^ 6 * 2 ^ 6 + mode) 6 ∙ omega arith)
    | inr two ↦ rw two (omega arith)
  ]

  module _ (f : ℕ) (hf : f < 2) where
    mask_irq :
        set_bit (before / 2 ^ 7 * 2 ^ 7 + f * 2 ^ 6 + mode) 7
        ≡ before / 2 ^ 8 * 2 ^ 8 + 2 ^ 7 + f * 2 ^ 6 + mode
    mask_irq = set_bit_lem (before / 2 ^ 7 * 2 ^ 7 + f * 2 ^ 6 + mode) 7 ∙ omega arith

    clear_order :
        clr_bit (before / 2 ^ 8 * 2 ^ 8 + 2 ^ 7 + f * 2 ^ 6 + mode) 9
        ≡ before / 2 ^ 10 * 2 ^ 10 + before / 2 ^ 8 % 2 * 2 ^ 8 + 2 ^ 7 + f * 2 ^ 6 + mode
    clear_order =
        clr_bit_lem (before / 2 ^ 8 * 2 ^ 8 + 2 ^ 7 + f * 2 ^ 6 + mode) 9 22 (omega arith)
          (omega arith)
        ∙ omega arith

exception_cpsr_sum :
    (before mode count : ℕ)
    → before < 2 ^ 32
    → mode < 32
    → exception_cpsr before mode count
      ≡ before / 2 ^ 10 * 2 ^ 10
        + before / 2 ^ 8 % 2 * 2 ^ 8
        + 2 ^ 7
        + fast_bit before count * 2 ^ 6
        + mode
unfolding exception_cpsr
exception_cpsr_sum before mode count hb hm =
    let f = fast_bit before count in
    let hf : f < 2 = unfold fast_bit in ground arith in
    rw
      (
        set_mode before mode hb hm,
        clear_thumb before mode hb hm,
        mask_fast before mode hb hm count,
        mask_irq before mode hb hm f hf,
      )
      (clear_order before mode hb hm f hf)

-- From any word and for any mode number, the CPSR that an exception sets up has the mode, ARM state,
-- interrupts masked, fast interrupts masked where three values are asked for and as before where
-- not, and the flags as before.
pub exception_cpsr-IsEntryStatus :
    (before mode count : ℕ)
    → before < 2 ^ 32
    → mode < 32
    → IsEntryStatus before mode (count == 3) (exception_cpsr before mode count)
exception_cpsr-IsEntryStatus before mode count hb hm =
    let now = exception_cpsr before mode count in
    let sum = exception_cpsr_sum before mode count hb hm in
    let hf : fast_bit before count < 2 = unfold fast_bit in ground arith in
    record {
      small = omega arith;
      mode_bits = omega (arith, get_bits_lem now 4 0);
      arm_state = omega (arith, get_bit_lem now 5);
      fast_mask = unfold fast_bit in ground (arith, get_bit_lem now 6, get_bit_lem before 6);
      irq_mask = omega (arith, get_bit_lem now 7);
      flags = omega (arith, get_bits_lem now 31 28, get_bits_lem before 31 28);
    }
