-- ===== src/Invariant/Keeps.antt =====
-- What no command changes: the size and the byte order of the memory, and what lies behind its block;
-- and the cycle counter stays a word. One rule for each way to build a command.
use arm_processor_simulator.Base.{
  ℕ, ◌^◌, ◌<◌, ◌≤◌, Bool, true, false, Option, none, some, ◌≡◌, refl, sym, ◌∙◌, Outcome, done,
  fault, ◌>>=◌ as and_then, >>=-eq-done, ltb, if◌then◌else◌, update, arith, Bool-cases, inl, inr,
  subst,
}
use arm_processor_simulator.Memory.{
  Memory, set_cell, memory_write_byte, memory_write_half, memory_write_word,
}
use arm_processor_simulator.Core.{Core, Command, pure, ◌>>=◌}

pub record KeptMemory (mem mem' : Memory) : Type 0 where
  pub size : mem'.size ≡ mem.size
  pub order : mem'.is_big_endian ≡ mem.is_big_endian
  pub outside : (i : ℕ) → mem.size ≤ i → mem'.values i ≡ mem.values i

pub record Kept (p p' : Core) : Type 0 where
  pub memory : KeptMemory p.mem p'.mem
  pub cycles : p.cycle_count < 2 ^ 32 → p'.cycle_count < 2 ^ 32

pub KeptMemory-refl : (mem : Memory) → KeptMemory mem mem
KeptMemory-refl mem = record { size = refl; order = refl; outside = λ i le. refl }

pub KeptMemory-trans : (a b c : Memory) → KeptMemory a b → KeptMemory b c → KeptMemory a c
KeptMemory-trans a b c h k = record {
  size = k.size ∙ h.size;
  order = k.order ∙ h.order;
  outside = λ i le. k.outside i (omega (arith, h.size)) ∙ h.outside i le;
}

pub Kept-refl : (p : Core) → Kept p p
Kept-refl p = record { memory = KeptMemory-refl p.mem; cycles = λ lt. lt }

pub Kept-trans : (a b c : Core) → Kept a b → Kept b c → Kept a c
Kept-trans a b c h k = record {
  memory = KeptMemory-trans a.mem b.mem c.mem h.memory k.memory;
  cycles = λ lt. k.cycles (h.cycles lt);
}

-- What a store of one cell keeps, and what a write of several keeps.
Cell : Memory → Outcome Memory → Type 0
Cell mem m = (mem' : Memory) → m ≡ done mem' → KeptMemory mem mem'

unfoldable pub Stores : Memory → Outcome (Option Memory) → Type 0
Stores mem m = (mem' : Memory) → m ≡ done (some mem') → KeptMemory mem mem'

updated-Kept :
    (mem : Memory) (address value : ℕ)
    → ltb address mem.size ≡ true
    → KeptMemory mem (record mem { values = update mem.values address value })
updated-Kept mem address value inside = record {
  size = refl;
  order = refl;
  outside = λ i le. ground arith;
}

Cell-set :
    (mem : Memory) (address value : ℕ)
    → Cell mem (
        if ltb address mem.size
        then done (record mem { values = update mem.values address value })
        else fault)
unfolding Cell
Cell-set mem address value mem' h = elim (Bool-cases (ltb address mem.size)) [
  | inl inside ↦
      let e : record mem { values = update mem.values address value } ≡ mem' = cc in
      subst (KeptMemory mem) e (updated-Kept mem address value inside)
  | inr outside ↦ absurd cc
]

Stores-some : (mem : Memory) → Stores mem (done (some mem))
unfolding Stores
Stores-some mem mem' h = let e : mem ≡ mem' = cc in subst (KeptMemory mem) e (KeptMemory-refl mem)

Stores-none : (mem : Memory) → Stores mem (done none)
unfolding Stores
Stores-none mem mem' h = absurd cc

Stores-then :
    (mem : Memory) (m : Outcome Memory) (k : Memory → Outcome (Option Memory))
    → Cell mem m
    → ((mem' : Memory) → Stores mem' (k mem'))
    → Stores mem (and_then m k)
unfolding Cell Stores
Stores-then mem m k hm hk mem' h =
    let (mid, first, last) = >>=-eq-done m k h in
    KeptMemory-trans mem mid mem' (hm mid first) (hk mid mem' last)

Stores-if :
    (mem : Memory) (b : Bool) (m n : Outcome (Option Memory))
    → Stores mem m
    → Stores mem n
    → Stores mem (if b then m else n)
Stores-if mem true m n hm hn = hm
Stores-if mem false m n hm hn = hn

ruleset stores_rules = (Cell-set, Stores-some, Stores-none, Stores-then, Stores-if)

pub memory_write_byte-Stores :
    (mem : Memory) (address value : ℕ) → Stores mem (memory_write_byte mem address value)
unfolding memory_write_byte set_cell
memory_write_byte-Stores mem address value = search stores_rules

pub memory_write_half-Stores :
    (mem : Memory) (address value : ℕ) → Stores mem (memory_write_half mem address value)
unfolding memory_write_half set_cell
memory_write_half-Stores mem address value = search stores_rules

pub memory_write_word-Stores :
    (mem : Memory) (address value : ℕ) → Stores mem (memory_write_word mem address value)
unfolding memory_write_word set_cell
memory_write_word-Stores mem address value = search stores_rules depth 12

-- `m` keeps all this wherever it returns.
pub record Keeps {A : Type 0} (m : Command A) : Type 0 where
  pub at : (p : Core) (a : A) (p' : Core) → m p ≡ done (a, p') → Kept p p'

module _ {A : Type 0} where
  pub Keeps-pure : (a : A) → Keeps (pure a)
  Keeps-pure a = record { at = λ p b p' h. let e : p ≡ p' = cc in subst (Kept p) e (Kept-refl p) }

  pub Keeps-if : (b : Bool) (m n : Command A) → Keeps m → Keeps n → Keeps (if b then m else n)
  Keeps-if true m n km kn = km
  Keeps-if false m n km kn = kn

module _ {A B : Type 0} where
  pub Keeps->>= :
      (m : Command A) (k : A → Command B) → Keeps m → ((a : A) → Keeps (k a)) → Keeps (m >>= k)
  Keeps->>= m k km kk = record {
    at = λ p b p' h.
        let ((a, mid), first, last) = >>=-eq-done (m p) (λ (a, p''). k a p'') h in
        Kept-trans p mid p' (km.at p a mid first) ((kk a).at mid b p' last);
  }

-- What follows a read that may fail.
module _ {A B : Type 0} where
  pub Keeps-Option :
      (m : Command (Option A)) (k : Option A → Command B)
      → Keeps m
      → Keeps (k none)
      → ((a : A) → Keeps (k (some a)))
      → Keeps (m >>= k)
  Keeps-Option m k km on_none on_some =
      Keeps->>= m k km (elim [ none ↦ on_none | some a ↦ on_some a ])

-- A command that leaves the memory and the counter.
pub Keeps-unchanged :
    {A : Type 0} (m : Command A)
    → ((p : Core) (a : A) (p' : Core)
        → m p ≡ done (a, p')
        → (p'.mem ≡ p.mem) × (p'.cycle_count ≡ p.cycle_count))
    → Keeps m
Keeps-unchanged m h = record {
  at = λ p a p' e.
      let (mem, cycles) = h p a p' e in
      record {
        memory = subst (KeptMemory p.mem) (sym mem) (KeptMemory-refl p.mem);
        cycles = λ lt. omega (arith, cycles);
      };
}
