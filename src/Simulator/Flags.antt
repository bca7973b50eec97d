-- ===== src/Simulator/Flags.antt =====
-- arm_simulator-1.4/arm_simulator.c: the flags of the trace, and what an option leaves of it.
use arm_processor_simulator.Base.{
  ℕ, ◌+◌, ◌*◌, bit_or, Bool, true, false, ◌||◌, List, [], ◌∷◌, ◌≡◌, refl, sym, ap, Outcome, done,
  ◌>>=◌, >>=-eq-done, ◌==◌, if◌then◌else◌, to_int, arith, subst,
}
use arm_processor_simulator.Trace.{Trace, memory_flag, registers_flag, state_flag, position_flag}
use arm_processor_simulator.Simulator.{Settings, Progress, going, ended}

-- Whether an option is in the list.
abbrev pub is_asked : ℕ → List (ℕ × List ℕ) → Bool
is_asked letter [] = false
is_asked letter ((opt, optarg) ∷ options) = opt == letter || is_asked letter options

-- The flags for the traces of the memory, of registers, of the state and of positions.
abbrev pub flags_for : Bool → Bool → Bool → Bool → ℕ
flags_for m r s p =
    memory_flag * to_int m
    + registers_flag * to_int r
    + state_flag * to_int s
    + position_flag * to_int p

pub or_memory : (m r s p : Bool) → bit_or (flags_for m r s p) memory_flag ≡ flags_for true r s p
or_memory m r s p = ground arith

pub or_registers :
    (m r s p : Bool) → bit_or (flags_for m r s p) registers_flag ≡ flags_for m true s p
or_registers m r s p = ground arith

pub or_state : (m r s p : Bool) → bit_or (flags_for m r s p) state_flag ≡ flags_for m r true p
or_state m r s p = ground arith

pub or_position : (m r s p : Bool) → bit_or (flags_for m r s p) position_flag ≡ flags_for m r s true
or_position m r s p = ground arith

-- Where the program goes on, the trace is `t`.
unfoldable pub Leaves : Trace → Outcome (Progress Settings) → Type 0
Leaves t m = (s' : Settings) → m ≡ done (going s') → s'.trace ≡ t

pub Leaves-going : (s : Settings) → Leaves s.trace (done (going s))
unfolding Leaves
Leaves-going s s' h = let e : s ≡ s' = cc in sym (ap (λ x. x.trace) e)

pub Leaves-ended : (t : Trace) (status : ℕ) → Leaves t (done (ended status))
unfolding Leaves
Leaves-ended t status s' h = absurd cc

pub Leaves->>= :
    {A : Type 0} (t : Trace) (m : Outcome A) (k : A → Outcome (Progress Settings))
    → ((a : A) → Leaves t (k a))
    → Leaves t (m >>= k)
unfolding Leaves
Leaves->>= t m k h s' e = let (a, first, last) = >>=-eq-done m k e in h a s' last

pub Leaves-if :
    (t : Trace) (b : Bool) (m n : Outcome (Progress Settings))
    → (b ≡ true → Leaves t m)
    → (b ≡ false → Leaves t n)
    → Leaves t (if b then m else n)
Leaves-if t true m n hm hn = hm refl
Leaves-if t false m n hm hn = hn refl

pub Leaves-eq : (t t' : Trace) (m : Outcome (Progress Settings)) → t ≡ t' → Leaves t m → Leaves t' m
Leaves-eq t t' m e h = subst (λ x. Leaves x m) e h
