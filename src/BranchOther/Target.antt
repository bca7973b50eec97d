-- ===== src/BranchOther/Target.antt =====
-- Where the branches of arm_branch_other.c go, and what BL leaves in the link register.
use arm_processor_simulator.Base.{
  ℕ, ◌+◌, ◌-◌, ◌*◌, ◌%◌, ◌^◌, ◌<◌, ◌≡◌, ◌≢◌, ◌∙◌, ap, bit_and, arith, true, false, done, ◌==◌, ◌&&◌,
  ltb, if◌then◌else◌,
}
use arm_processor_simulator.Util.{u32, sub32, shl32, clr_bit, get_bit}
use arm_processor_simulator.Util.Fields.{get_bit_lem, get_bits_lem, clr_bit_lem}
use arm_processor_simulator.Constants.{pc, lr, cpsr, is_mode}
use arm_processor_simulator.DataProcessing.{truth}
use arm_processor_simulator.Registers.Bank.{bank}
use arm_processor_simulator.Core.{Core, pc_seen, arm_read_register}
use arm_processor_simulator.Core.Access.{
  mode_of, put, stored, HasMode, HasMode-le, read_pc, write_pc, mode_of-put,
  arm_write_register-done, pc_seen_aligned,
}
use arm_processor_simulator.BranchOther.{branch_adress, write_link, arm_branch}

-- The offset field as a signed number, in two's complement on 32 bits.
abbrev pub signed_24 : ℕ → ℕ
signed_24 ins =
    let field = ins % 2 ^ 24 in if ltb field (2 ^ 23) then field else field + (2 ^ 32 - 2 ^ 24)

pub branch_adress_lem : (ins : ℕ) → ins < 2 ^ 32 → branch_adress ins ≡ signed_24 ins
unfolding branch_adress
branch_adress_lem ins h = ground (arith, get_bits_lem ins 23 0, get_bit_lem ins 23)

-- The processor after `write_link`, with `next` the address of the word after the branch.
abbrev linked : ℕ → ℕ → Core → Core
linked ins next p = if truth (get_bit ins 24) then put p (bank (mode_of p) lr) next else p

write_link-done :
    (ins next : ℕ) (p : Core)
    → HasMode p
    → p.reg.registers pc ≡ next
    → next < 2 ^ 32
    → next % 4 ≡ 0
    → write_link ins p ≡ done (tt, linked ins next p)
unfolding write_link
write_link-done ins next p mode at small aligned =
    let seen : sub32 (pc_seen pc (p.reg.registers pc)) 4 ≡ next =
      rw at (pc_seen_aligned next small aligned) in
    let write = arm_write_register-done p lr next (omega arith) (HasMode-le p mode) in
    let read = read_pc p mode in ground (arith, read, seen, write)

-- A link register is apart from r0 to r12, the program counter and the CPSR.
pub link_apart :
    (mode : ℕ)
    → is_mode mode ≡ true
    → (12 < bank mode lr) × (bank mode lr ≢ pc) × (bank mode lr ≢ cpsr)
unfolding bank
link_apart mode h = ground arith

-- With the program counter already at the next word, 4 beyond the branch, a branch goes to the
-- address of the branch plus 8 plus four times the signed offset. BL leaves the address of the next
-- word in the link register of the mode, and B leaves it as it was. All other registers, in every mode,
-- and the status registers, the memory and the cycle counter stay.
pub arm_branch-target :
    (ins next : ℕ) (p : Core)
    → HasMode p
    → ins < 2 ^ 32
    → p.reg.registers pc ≡ next
    → next < 2 ^ 32
    → next % 4 ≡ 0
    → (out : Core) × (arm_branch ins p ≡ done (0, out))
      × (out.reg.registers pc ≡ u32 (next + 4 + 4 * signed_24 ins))
      × (stored out lr ≡ (if get_bit ins 24 == 1 then next else stored p lr))
      × ((i : ℕ) → i < 13 → out.reg.registers i ≡ p.reg.registers i)
      × ((i : ℕ)
          → i ≢ pc
          → (get_bit ins 24 == 1 && i == bank (mode_of p) lr) ≡ false
          → out.reg.registers i ≡ p.reg.registers i)
      × (mode_of out ≡ mode_of p)
      × (out.mem ≡ p.mem)
      × (out.cycle_count ≡ p.cycle_count)
unfolding clr_bit
arm_branch-target ins next p mode h at small aligned =
    let q = linked ins next p in
    let apart = link_apart (mode_of p) mode in
    let same : mode_of q ≡ mode_of p =
      ground (arith, mode_of-put p (bank (mode_of p) lr) next apart.2) in
    let mode' : HasMode q = rw same mode in
    let pc_same : q.reg.registers pc ≡ next = ground arith in
    let target = u32 (pc_seen pc next + shl32 (branch_adress ins) 2) in
    let out = put q pc target in
    let read : arm_read_register pc q ≡ done (pc_seen pc next, q) =
      read_pc q mode' ∙ ap (λ v. done (pc_seen pc v, q)) pc_same in
    let seen : bit_and (u32 (next + 4)) 0xFFFFFFFD ≡ u32 (next + 4) =
      clr_bit_lem (u32 (next + 4)) 1 30 (omega arith) (omega arith) ∙ omega arith in
    let same' : mode_of out ≡ mode_of p = mode_of-put q pc target (omega arith) ∙ same in
    (
      out,
      unfold arm_branch in
          rw (write_link-done ins next p mode at small aligned, read)
            (rw (write_pc q target mode')),
      omega (arith, seen, branch_adress_lem ins h),
      rw same' (ground (arith, get_bit_lem ins 24)),
      λ i lo. ground arith,
      λ i other free. ground (arith, get_bit_lem ins 24),
      same',
      ground arith,
      ground arith,
    )
