-- ===== src/Invariant/Transfers.antt =====
-- What the transfers of arm_simulator-1.4/arm_load_store.c keep.
use arm_processor_simulator.Base.{
  if_true, if_false, Bool-cases, inl, inr, sym, ◌∙◌, ℕ, zero, suc, aborted, ◌==◌,
}
use arm_processor_simulator.LoadStore.Addressing.{
  condition_passed, set_index, addrmode_load_store, addrmode_load_store_multiple,
  addrmode_load_store_miscellaneous,
}
use arm_processor_simulator.LoadStore.Transfer.{
  strh, ldrd, strd, ldrh, execute_instr_miscellaneous, ldrb, write_thumb, ldr_pc, ldr, strb, str,
  execute_instr_word_byte, ldm_one, ldm_pc, stm_one, ldm_loop, stm_loop, assert_end,
  execute_instr_multiple,
}
use arm_processor_simulator.LoadStore.Transfer.{Progress}
use arm_processor_simulator.Util.{sub32}
use arm_processor_simulator.Invariant.Keeps.{Keeps, Keeps-pure}
use arm_processor_simulator.Invariant.Accesses.{keeps_rules}

pub Keeps-condition_passed : (ins : ℕ) → Keeps (condition_passed ins)
unfolding condition_passed
Keeps-condition_passed ins = search keeps_rules depth 14

pub Keeps-set_index : (ins rm : ℕ) → Keeps (set_index ins rm)
unfolding set_index
Keeps-set_index ins rm = search keeps_rules depth 14

pub Keeps-addrmode_load_store : (ins rn add_word : ℕ) → Keeps (addrmode_load_store ins rn add_word)
unfolding addrmode_load_store
Keeps-addrmode_load_store ins rn add_word = search (keeps_rules, Keeps-condition_passed) depth 14

pub Keeps-addrmode_load_store_multiple : (ins rn : ℕ) → Keeps (addrmode_load_store_multiple ins rn)
unfolding addrmode_load_store_multiple
Keeps-addrmode_load_store_multiple ins rn = search (keeps_rules, Keeps-condition_passed) depth 14

pub Keeps-addrmode_load_store_miscellaneous :
    (ins rn offset : ℕ) → Keeps (addrmode_load_store_miscellaneous ins rn offset)
unfolding addrmode_load_store_miscellaneous
Keeps-addrmode_load_store_miscellaneous ins rn offset =
    search (keeps_rules, Keeps-condition_passed) depth 14

pub Keeps-strh : (ins address rd : ℕ) → Keeps (strh ins address rd)
unfolding strh
Keeps-strh ins address rd = search (keeps_rules, Keeps-condition_passed) depth 14

pub Keeps-ldrd : (address rd : ℕ) → Keeps (ldrd address rd)
unfolding ldrd
Keeps-ldrd address rd = search keeps_rules depth 14

pub Keeps-strd : (address rd : ℕ) → Keeps (strd address rd)
unfolding strd
Keeps-strd address rd = search keeps_rules depth 14

pub Keeps-ldrh : (address rd : ℕ) → Keeps (ldrh address rd)
unfolding ldrh
Keeps-ldrh address rd = search keeps_rules depth 14

pub Keeps-execute_instr_miscellaneous :
    (ins address : ℕ) → Keeps (execute_instr_miscellaneous ins address)
unfolding execute_instr_miscellaneous
Keeps-execute_instr_miscellaneous ins address =
    search (keeps_rules, Keeps-strh, Keeps-ldrd, Keeps-strd, Keeps-ldrh) depth 14

pub Keeps-ldrb : (address rd : ℕ) → Keeps (ldrb address rd)
unfolding ldrb
Keeps-ldrb address rd = search keeps_rules depth 14

pub Keeps-write_thumb : (word : ℕ) → Keeps (write_thumb word)
unfolding write_thumb
Keeps-write_thumb word = search keeps_rules depth 14

pub Keeps-ldr_pc : (word : ℕ) → Keeps (ldr_pc word)
unfolding ldr_pc
Keeps-ldr_pc word = search (keeps_rules, Keeps-write_thumb) depth 14

pub Keeps-ldr : (address rd : ℕ) → Keeps (ldr address rd)
unfolding ldr
Keeps-ldr address rd = search (keeps_rules, Keeps-ldr_pc) depth 14

pub Keeps-strb : (ins address rd : ℕ) → Keeps (strb ins address rd)
unfolding strb
Keeps-strb ins address rd = search (keeps_rules, Keeps-condition_passed) depth 14

pub Keeps-str : (ins address rd : ℕ) → Keeps (str ins address rd)
unfolding str
Keeps-str ins address rd = search (keeps_rules, Keeps-condition_passed) depth 14

pub Keeps-execute_instr_word_byte : (ins address : ℕ) → Keeps (execute_instr_word_byte ins address)
unfolding execute_instr_word_byte
Keeps-execute_instr_word_byte ins address =
    search (keeps_rules, Keeps-ldrb, Keeps-ldr, Keeps-strb, Keeps-str) depth 14

pub Keeps-ldm_one : (i : ℕ) (s : Progress) → Keeps (ldm_one i s)
unfolding ldm_one
Keeps-ldm_one i s = search keeps_rules depth 14

pub Keeps-ldm_pc : (s : Progress) → Keeps (ldm_pc s)
unfolding ldm_pc
Keeps-ldm_pc s = search (keeps_rules, Keeps-write_thumb) depth 14

pub Keeps-stm_one : (i : ℕ) (s : Progress) → Keeps (stm_one i s)
unfolding stm_one
Keeps-stm_one i s = search keeps_rules depth 14

pub Keeps-ldm_loop : (registers rounds i : ℕ) (s : Progress) → Keeps (ldm_loop registers rounds i s)
unfolding ldm_loop
Keeps-ldm_loop registers zero i s = search keeps_rules
Keeps-ldm_loop registers (suc rounds) i s =
    search (keeps_rules, Keeps-ldm_one, Keeps-ldm_loop registers rounds)

pub Keeps-stm_loop : (registers rounds i : ℕ) (s : Progress) → Keeps (stm_loop registers rounds i s)
unfolding stm_loop
Keeps-stm_loop registers zero i s = search keeps_rules
Keeps-stm_loop registers (suc rounds) i s =
    search (keeps_rules, Keeps-stm_one, Keeps-stm_loop registers rounds)

pub Keeps-assert_end : (end_address : ℕ) (s : Progress) → Keeps (assert_end end_address s)
unfolding assert_end
Keeps-assert_end end_address s = record {
  at = λ p a p' h. elim (Bool-cases (end_address == sub32 s.address 4)) [
    | inl same ↦
        (Keeps-pure s.res).at p a p' (sym (if_true (end_address == sub32 s.address 4) _ _ same) ∙ h)
    | inr other ↦
        let e = sym (if_false (end_address == sub32 s.address 4) _ aborted other) ∙ h in absurd cc
  ];
}

pub Keeps-execute_instr_multiple :
    (ins start_address end_address : ℕ)
    → Keeps (execute_instr_multiple ins start_address end_address)
unfolding execute_instr_multiple
Keeps-execute_instr_multiple ins start_address end_address =
    search (keeps_rules, Keeps-ldm_loop, Keeps-stm_loop, Keeps-ldm_pc, Keeps-assert_end) depth 14
