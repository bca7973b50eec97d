-- ===== src/LoadStore/Bytes.antt =====
-- What the transfers of arm_load_store.c leave in the registers and in memory.
use arm_processor_simulator.Base.{
  ℕ, ◌+◌, ◌^◌, ◌<◌, ◌≡◌, refl, ◌∙◌, arith, true, false, done, ltb, ◌==◌, if◌then◌else◌,
}
use arm_processor_simulator.Util.{get_bits}
use arm_processor_simulator.Memory.{Memory, memory_read_byte}
use arm_processor_simulator.Memory.Cells.{IsBytes}
use arm_processor_simulator.Memory.RoundTrip.{IsWritten, memory_read_word-memory_write_word}
use arm_processor_simulator.Registers.Bank.{bank}
use arm_processor_simulator.Core.{Core, arm_read_byte, arm_read_word, arm_write_word, value_of}
use arm_processor_simulator.Core.Access.{
  mode_of, put, stored, HasMode, HasMode-le, arm_read_register-done, arm_write_register-done,
}
use arm_processor_simulator.LoadStore.Addressing.{condition_holds, condition_passed}
use arm_processor_simulator.LoadStore.Condition.{condition_passed-condition_holds}
use arm_processor_simulator.LoadStore.Transfer.{failed, ldrb, ldr, str}

-- LDRB reports success where the byte lies in the memory and -1 where not, and in both cases the
-- processor stays as it was: the byte is not written to the register.
pub ldrb-unchanged :
    (address rd : ℕ) (p : Core)
    → ldrb address rd p ≡ done ((if ltb address p.mem.size then 0 else failed), p)
unfolding ldrb arm_read_byte memory_read_byte
ldrb-unchanged address rd p = ground arith

-- A word that STR stores from register `rd` is what LDR then loads into register `other`: STR
-- changes nothing but the four bytes, and LDR nothing but that register. Conditions: the
-- instruction is unconditional, the mode is one of the seven, the word lies in the memory,
-- and neither register is the program counter.
pub ldr-str :
    (ins address rd other : ℕ) (p : Core)
    → get_bits ins 31 28 ≡ 14
    → HasMode p
    → IsBytes p.mem
    → rd < 15
    → other < 15
    → stored p rd < 2 ^ 32
    → address + 3 < p.mem.size
    → address + 3 < 2 ^ 32
    → (mem : Memory) × (str ins address rd p ≡ done (0, record p { mem = mem }))
      × IsWritten p.mem address 4 mem
      × (ldr address other (record p { mem = mem })
          ≡ done (0, put (record p { mem = mem }) (bank (mode_of p) other) (stored p rd)))
unfolding str ldr arm_read_word arm_write_word value_of
ldr-str ins address rd other p always mode bytes lo lo' value inside small =
    let (mem, write, written, read) =
      memory_read_word-memory_write_word p.mem address (stored p rd) bytes value inside small in
    let le = HasMode-le p mode in
    let q : Core = record p { mem = mem } in
    let passed : condition_passed ins p ≡ done (true, p) =
      condition_passed-condition_holds ins p ∙ rw always (unfold condition_holds in refl) in
    let get = arm_read_register-done p rd (omega arith) le in
    let not_pc : (rd == 15) ≡ false = ground arith in
    let not_pc' : (other == 15) ≡ false = ground arith in
    let set = arm_write_register-done q other (stored p rd) (omega arith) le in
    (mem, rw (passed, get, not_pc, write), written, rw (read, not_pc', set))
