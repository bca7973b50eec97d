-- ===== src/Instruction/Decode.antt =====
-- The condition table of arm_instruction.c against the `switch` of `condition_passed` in
-- arm_load_store.c: the two say the same of every condition and all flags.
use arm_processor_simulator.Util.{get_bit}
use arm_processor_simulator.Util.Fields.{get_bit_lem}
use arm_processor_simulator.Base.{
  Bool, all_below, all_below-apply, ==_iff, update, ℕ, zero, suc, ◌+◌, ◌*◌, ◌/◌, ◌%◌, ◌^◌, ◌≤◌, ◌<◌,
  ◌≡◌, refl, ◌∙◌, arith, bit_or, ◌&&◌, true, ltb, leb, ◌==◌, if◌then◌else◌, to_int,
}
use arm_processor_simulator.Base.Bits.{bit_or_join}
use arm_processor_simulator.LoadStore.Addressing.{condition_holds}
use arm_processor_simulator.DataProcessing.{truth}
use arm_processor_simulator.Instruction.{
  decode_value, decode_flags, decode_conditions, arm_decode_condition,
}

decode_flags_lem :
    (left cond flags i : ℕ) (table : ℕ → ℕ)
    → flags + left ≤ 16
    → decode_flags left cond flags table i ≡ (
        if i / 16 == cond && leb flags (i % 16) && ltb (i % 16) (flags + left)
        then decode_value cond (i % 16)
        else table i)
unfolding decode_flags
decode_flags_lem zero cond flags i table h = ground arith
decode_flags_lem (suc left) cond flags i table h =
    let place : bit_or (cond * 2 ^ 4) flags ≡ cond * 16 + flags =
      bit_or_join 4 cond flags (omega arith) in
    let ih =
      decode_flags_lem left cond (flags + 1) i
        (update table (bit_or (cond * 2 ^ 4) flags) (decode_value cond flags)) (omega arith) in
    ground (arith, ih, place)

decode_conditions_lem :
    (left cond i : ℕ) (table : ℕ → ℕ)
    → decode_conditions left cond table i ≡ (
        if leb cond (i / 16) && ltb (i / 16) (cond + left)
        then decode_value (i / 16) (i % 16)
        else table i)
unfolding decode_conditions
decode_conditions_lem zero cond i table = ground arith
decode_conditions_lem (suc left) cond i table =
    let ih = decode_conditions_lem left (cond + 1) i (decode_flags 16 cond 0 table) in
    let row = decode_flags_lem 16 cond 0 i table (omega arith) in ground (arith, ih, row)

pub arm_decode_condition_lem :
    (cond flags : ℕ)
    → cond < 14
    → flags < 16
    → arm_decode_condition (bit_or (cond * 2 ^ 4) flags) ≡ decode_value cond flags
unfolding arm_decode_condition
arm_decode_condition_lem cond flags hc hf =
    let place : bit_or (cond * 2 ^ 4) flags ≡ cond * 16 + flags =
      bit_or_join 4 cond flags (omega arith) in
    let row : (cond * 16 + flags) / 16 ≡ cond = omega arith in
    let column : (cond * 16 + flags) % 16 ≡ flags = omega arith in
    rw place
      (decode_conditions_lem 14 0 (cond * 16 + flags) (λ _. 0) ∙ rw (row, column) (ground arith))

bit_set : ℕ → ℕ → Bool
bit_set flags i = truth (flags / 2 ^ i % 2)

-- The `switch` of `condition_passed` at the flags N, Z, C and V as the bits 3 to 0.
abbrev held : ℕ → ℕ → Bool
held cond flags =
    condition_holds cond (bit_set flags 2) (bit_set flags 3) (bit_set flags 1) (bit_set flags 0)

agree : ℕ → Bool
agree x = decode_value (x / 16) (x % 16) == to_int (held (x / 16) (x % 16))

agree_table : all_below 224 agree ≡ true
unfolding all_below agree decode_value condition_holds bit_set
agree_table = refl

agree-eq :
    (x : ℕ) → agree x ≡ true → decode_value (x / 16) (x % 16) ≡ to_int (held (x / 16) (x % 16))
unfolding agree
agree-eq x h = (==_iff _ _).0 h

decode_value-held :
    (cond flags : ℕ) → cond < 14 → flags < 16 → decode_value cond flags ≡ to_int (held cond flags)
decode_value-held cond flags hc hf =
    let x = cond * 16 + flags in
    let e : x / 16 ≡ cond = omega arith in
    let e' : x % 16 ≡ flags = omega arith in
    let at = agree-eq x (all_below-apply 224 agree x agree_table (omega arith)) in
    (rw (e, e') at at)

-- For each of the 14 conditions that depend on the flags, the table of arm_instruction.c has the
-- answer of the `switch` in arm_load_store.c, at the flags N, Z, C and V as the bits 3 to 0.
pub arm_decode_condition-condition_holds :
    (cond flags : ℕ)
    → cond < 14
    → flags < 16
    → arm_decode_condition (bit_or (cond * 2 ^ 4) flags)
      ≡ to_int (
          condition_holds cond
            (truth (get_bit flags 2))
            (truth (get_bit flags 3))
            (truth (get_bit flags 1))
            (truth (get_bit flags 0)))
unfolding bit_set
arm_decode_condition-condition_holds cond flags hc hf =
    rw (get_bit_lem flags 0, get_bit_lem flags 1, get_bit_lem flags 2, get_bit_lem flags 3)
      (arm_decode_condition_lem cond flags hc hf ∙ decode_value-held cond flags hc hf)
