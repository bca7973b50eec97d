-- ===== src/Gdb/Untraced.antt =====
-- arm_simulator-1.4/gdb_protocol.c with its trace calls: what the debugger does to the registers is not
-- traced.
use arm_processor_simulator.Base.{
  ℕ, zero, suc, ◌+◌, ◌++◌, Bool, Option, none, List, [], codes, ltb, drop,
}
use arm_processor_simulator.Util.{sub32}
use arm_processor_simulator.Core
use arm_processor_simulator.Core.{Core, Command}
use arm_processor_simulator.Core.Print.{lift as lift_plain}
use arm_processor_simulator.LoadStore.Transfer.{assigned}
use arm_processor_simulator.Trace.Accesses
use arm_processor_simulator.Trace.Accesses.{Machine, Traced}
use arm_processor_simulator.Trace.Quiet.{bind_assoc}
use arm_processor_simulator.Trace.Silent.{
  Silent, Silent-pure, Silent-lift, Silent->>=, Silent-eq, Silent-located, Silent-read_register,
  Silent-write_register, Silent-read_cpsr, Silent-write_cpsr, Silent-read_word,
}
use arm_processor_simulator.Gdb.Text.{text_of, scan_hex, stored_value, atoi}
use arm_processor_simulator.Gdb.Words.{Orders, read_uint32, write_uint32}
use arm_processor_simulator.Gdb.State.{lift, on_arm, assert, gdb_send_data, gdb_send_buffer}
use arm_processor_simulator.Gdb.Handlers as H
use arm_processor_simulator.Gdb.Handlers.{value_of, after, unknown, skip_words}
use arm_processor_simulator.Gdb.Run as Run
use arm_processor_simulator.Gdb.Traced as T
use arm_processor_simulator.Gdb.Traced.{Session, Handler, on_gdb, hidden, at_line, ◌>>=◌}
use arm_processor_simulator.Gdb.Hidden.{Hides, Hides-hidden, Hides-before, Hides-after, Hides-eq}

abbrev general_of : Orders → List ℕ → ℕ → ℕ → List ℕ
general_of o general seen status =
    general ++ (write_uint32 o (sub32 seen 4) ++ (unknown 25 ++ write_uint32 o status))

module _ (format : Bool) where
  read_at :
      (line reg : ℕ)
      → Silent (at_line line (Accesses.arm_read_register format reg)) (Core.arm_read_register reg)
  read_at line reg = Silent-located _ line _ _ (Silent-read_register format reg)

  look_ahead-Silent :
      (held : ℕ) (old : Option ℕ) → Silent (T.look_ahead format held old) (Run.next_instruction old)
  unfolding T.look_ahead Run.next_instruction
  look_ahead-Silent held old =
      Silent->>= _ (Core.arm_read_register 15) _ _ (read_at 169 15) (λ seen.
        Silent->>= _ (Core.arm_read_word (sub32 seen 4)) _ _
          (Silent-located _ 170 _ _ (Silent-read_word format (sub32 seen 4) held))
          (λ read. Silent-pure (assigned read old)))

  registers_text-Silent :
      (o : Orders) (rounds i : ℕ)
      → Silent (T.registers_text format o rounds i) (H.registers_text o rounds i)
  unfolding T.registers_text H.registers_text
  registers_text-Silent o zero i = Silent-pure []
  registers_text-Silent o (suc rounds) i =
      Silent->>= _ (Core.arm_read_register i) _ _ (read_at 217 i) (λ value.
        Silent->>= _ (H.registers_text o rounds (i + 1)) _ _
          (registers_text-Silent o rounds (i + 1))
          (λ rest. Silent-pure (write_uint32 o value ++ rest)))

  write_registers-Silent :
      (o : Orders) (rounds i : ℕ) (s : List ℕ)
      → Silent (T.write_registers format o rounds i s) (H.write_registers o rounds i s)
  unfolding T.write_registers H.write_registers
  write_registers-Silent o zero i s = Silent-pure tt
  write_registers-Silent o (suc rounds) i s =
      Silent-eq _
        (Core.◌>>=◌ (lift_plain (read_uint32 o s)) (λ value.
          Core.◌>>◌ (Core.arm_write_register i value)
            (H.write_registers o rounds (i + 1) (drop 8 s))))
        (H.write_registers o (suc rounds) i s) (λ p. bind_assoc (read_uint32 o s) _ _)
        (Silent->>= _ (lift_plain (read_uint32 o s)) _ _ (Silent-lift (read_uint32 o s)) (λ value.
          Silent->>= _ (Core.arm_write_register i value) _ _
            (Silent-located _ 297 _ _ (Silent-write_register format i value))
            (λ _. write_registers-Silent o rounds (i + 1) (drop 8 s))))

  general_text-Silent :
      (o : Orders)
      → Silent (T.general_text format o) (
          Core.◌>>=◌ (H.registers_text o 15 0) (λ general.
            Core.◌>>=◌ (Core.arm_read_register 15) (λ seen.
              Core.◌>>=◌ Core.arm_read_cpsr
                (λ status. Core.pure (general_of o general seen status)))))
  unfolding T.general_text
  general_text-Silent o =
      Silent->>= _ (H.registers_text o 15 0) _ _ (registers_text-Silent o 15 0) (λ general.
        Silent->>= _ (Core.arm_read_register 15) _ _ (read_at 221 15) (λ seen.
          Silent->>= _ Core.arm_read_cpsr _ _ (Silent-located _ 235 _ _ (Silent-read_cpsr format))
            (λ status. Silent-pure _)))

  read_general_registers-Hides :
      (o : Orders) → Hides (T.read_general_registers format o) (H.read_general_registers o)
  unfolding T.read_general_registers H.read_general_registers
  read_general_registers-Hides o =
      Hides-eq _ _ _ (λ g. simp bind_assoc)
        (Hides-after (T.general_text format o) _ gdb_send_buffer (general_text-Silent o))

  take_registers-Silent :
      (o : Orders) (s : List ℕ)
      → Silent (T.take_registers format o s) (
          Core.◌>>◌ (H.write_registers o 16 0 s) (
            Core.◌>>◌
              (lift_plain (skip_words o 25 (drop 128 s)))
              (Core.◌>>=◌ (lift_plain (read_uint32 o (drop 328 s))) Core.arm_write_cpsr)))
  unfolding T.take_registers
  take_registers-Silent o s =
      Silent->>= _ (H.write_registers o 16 0 s) _ _ (write_registers-Silent o 16 0 s) (λ _.
        Silent->>= _ (lift_plain (skip_words o 25 (drop 128 s))) _ _ (Silent-lift _) (λ _.
          Silent->>= _ (lift_plain (read_uint32 o (drop 328 s))) _ _ (Silent-lift _)
            (λ status. Silent-located _ 322 _ _ (Silent-write_cpsr format status))))

  write_general_registers-Hides :
      (o : Orders) (s : List ℕ)
      → Hides (T.write_general_registers format o s) (H.write_general_registers o s)
  unfolding T.write_general_registers H.write_general_registers
  write_general_registers-Hides o s =
      Hides-eq _ _ _ (λ g. simp bind_assoc)
        (Hides-after (T.take_registers format o s) _ (λ _. gdb_send_data (codes "OK"))
          (take_registers-Silent o s))

  read_register-Hides :
      (o : Orders) (s : List ℕ) → Hides (T.read_register format o s) (H.read_register o s)
  unfolding T.read_register H.read_register
  read_register-Hides o s = Hides-before (lift (text_of s)) _ _ (λ text.
      Hides-before (lift (atoi text)) _ _ (λ reg.
        Hides-before (assert (ltb reg 16)) _ _
          (λ _. Hides-after _ (Core.arm_read_register reg) _ (read_at 260 reg))))

  write_register-Hides :
      (o : Orders) (s : List ℕ) → Hides (T.write_register format o s) (H.write_register o s)
  unfolding T.write_register H.write_register
  write_register-Hides o s = Hides-before (lift (text_of s)) _ _ (λ text.
      Hides-before (lift (stored_value (scan_hex text) none)) _ _ (λ number.
        Hides-before (lift (after b'=' s)) _ _ (λ content.
          Hides-before (lift (read_uint32 o content)) _ _ (λ value.
            Hides-before (lift (value_of number)) _ _ (λ reg.
              Hides-before (assert (ltb reg 16)) _ _ (λ _.
                Hides-after _ (Core.arm_write_register reg value) _
                  (Silent-located _ 365 _ _ (Silent-write_register format reg value))))))))

-- Whatever the trace prints, and whether or not it has a file or room for a location: what the
-- handlers of the debugger's reads and writes of registers, and the look of `cont` at the next
-- instruction, do to the connection is what they do without trace calls, undefined and aborted in the
-- same cases; nothing is printed, and the trace is as it was but enabled.
pub handlers-Hides :
    (format : Bool) (o : Orders) (s : List ℕ) (held : ℕ) (old : Option ℕ)
    → Hides (T.read_general_registers format o) (H.read_general_registers o)
      × Hides (T.write_general_registers format o s) (H.write_general_registers o s)
      × Hides (T.read_register format o s) (H.read_register o s)
      × Hides (T.write_register format o s) (H.write_register o s)
      × Hides (T.next_instruction format held old) (on_arm (Run.next_instruction old))
unfolding T.next_instruction
handlers-Hides format o s held old = (
  read_general_registers-Hides format o,
  write_general_registers-Hides format o s,
  read_register-Hides format o s,
  write_register-Hides format o s,
  Hides-hidden _ (Run.next_instruction old) (look_ahead-Silent format held old),
)
