-- ===== src/Gdb/Traced.antt =====
-- arm_simulator-1.4/gdb_protocol.c with its trace calls: the handlers that disable the trace around what
-- they do to the processor. The locations are those of the calls in gdb_protocol.c.
use arm_processor_simulator.Base.{
  ℕ, zero, suc, ◌+◌, ◌++◌, ◌==◌, Bool, Option, none, List, [], Outcome, done, codes, ltb, drop,
  if◌then◌else◌, ◌>>=◌ as and_then,
}
use arm_processor_simulator.Util.{sub32}
use arm_processor_simulator.LoadStore.Transfer.{assigned}
use arm_processor_simulator.Trace.{Trace, trace_disable, trace_enable}
use arm_processor_simulator.Trace.Accesses as T
use arm_processor_simulator.Trace.Accesses.{Machine, Traced, located}
use arm_processor_simulator.Trace.Print as P
use arm_processor_simulator.Gdb.Text.{text_of, scan_hex, stored_value, atoi}
use arm_processor_simulator.Gdb.Words.{Orders, read_uint32, write_uint32}
use arm_processor_simulator.Gdb.State.{Gdb, Action, lift, assert, gdb_send_data, gdb_send_buffer}
use arm_processor_simulator.Gdb.Handlers.{value_of, after, unknown, skip_words}

-- The debugger's connection, and the trace.
pub record Session : Type 0 where
  pub gdb : Gdb
  pub trace : Trace

abbrev pub Handler : Type 0 → Type 0
Handler A = Session → Outcome (A × Session)

abbrev pub pure : {A : Type 0} → A → Handler A
pure a s = done (a, s)

infixl 5 ◌>>=◌ ◌>>◌
abbrev pub ◌>>=◌ : {A B : Type 0} → Handler A → (A → Handler B) → Handler B
◌>>=◌ m k s = and_then (m s) (λ (a, s'). k a s')

abbrev pub ◌>>◌ : {B : Type 0} → Handler (Unit {0}) → Handler B → Handler B
m >> k = m >>= λ _. k

-- What is done without a trace call.
abbrev pub on_gdb : {A : Type 0} → Action A → Handler A
on_gdb a s = and_then (a s.gdb) (λ (x, g). done (x, record s { gdb = g }))

-- What is done to `gdb->arm` and the trace.
abbrev pub on_machine : {A : Type 0} → Traced A → Handler A
on_machine m s =
    and_then (m (record { core = s.gdb.arm; trace = s.trace }))
      (λ (x, m'). done (x, record { gdb = record s.gdb { arm = m'.core }; trace = m'.trace }))

abbrev pub on_trace : (Trace → Trace) → Handler (Unit {0})
on_trace f s = done (tt, record s { trace = f s.trace })

-- `m` between `trace_disable` and `trace_enable`.
abbrev pub hidden : {A : Type 0} → Traced A → Handler A
hidden m = do on_trace trace_disable; a ← on_machine m; on_trace trace_enable; pure a

abbrev pub at_line : {A : Type 0} → ℕ → Traced A → Traced A
at_line line m = located (codes "gdb_protocol.c") line m

module _ (format : Bool) where
  -- The two reads of `cont` before an instruction: `held` is what the variable `instruction` holds.
  unfoldable pub look_ahead : ℕ → Option ℕ → Traced (Option ℕ)
  look_ahead held old = T.◌>>=◌ (at_line 169 (T.arm_read_register format 15)) (λ seen.
      T.◌>>=◌ (at_line 170 (T.arm_read_word format (sub32 seen 4) held))
        (λ read. T.pure (assigned read old)))

  unfoldable pub next_instruction : ℕ → Option ℕ → Handler (Option ℕ)
  next_instruction held old = hidden (look_ahead held old)

  -- The registers from `i` on, with the rounds that are left.
  unfoldable pub registers_text : Orders → ℕ → ℕ → Traced (List ℕ)
  registers_text o zero i = T.pure []
  registers_text o (suc rounds) i = T.◌>>=◌ (at_line 217 (T.arm_read_register format i)) (λ value.
      T.◌>>=◌ (registers_text o rounds (i + 1)) (λ rest. T.pure (write_uint32 o value ++ rest)))

  -- The buffer that `read_general_registers` fills.
  unfoldable pub general_text : Orders → Traced (List ℕ)
  general_text o = T.◌>>=◌ (registers_text o 15 0) (λ general.
      T.◌>>=◌ (at_line 221 (T.arm_read_register format 15)) (λ seen.
        T.◌>>=◌ (at_line 235 (T.arm_read_cpsr format)) (λ status.
          T.pure
            (general ++ (write_uint32 o (sub32 seen 4) ++ (unknown 25 ++ write_uint32 o status))))))

  unfoldable pub read_general_registers : Orders → Handler (Unit {0})
  read_general_registers o = do text ← hidden (general_text o); on_gdb (gdb_send_buffer text)

  unfoldable pub read_register : Orders → List ℕ → Handler (Unit {0})
  read_register o s = do
    text ← on_gdb (lift (text_of s))
    reg ← on_gdb (lift (atoi text))
    on_gdb (assert (ltb reg 16))
    value ← hidden (at_line 260 (T.arm_read_register format reg))
    on_gdb (gdb_send_buffer (write_uint32 o (sub32 value (if reg == 15 then 4 else 0))))

  -- The registers from `i` on are read from the packet.
  unfoldable pub write_registers : Orders → ℕ → ℕ → List ℕ → Traced (Unit {0})
  write_registers o zero i s = T.pure tt
  write_registers o (suc rounds) i s = T.◌>>=◌ (P.lift (read_uint32 o s)) (λ value.
      T.◌>>◌ (at_line 297 (T.arm_write_register format i value))
        (write_registers o rounds (i + 1) (drop 8 s)))

  -- What `write_general_registers` does to the processor.
  unfoldable pub take_registers : Orders → List ℕ → Traced (Unit {0})
  take_registers o s = T.◌>>◌ (write_registers o 16 0 s) (
      T.◌>>◌ (P.lift (skip_words o 25 (drop 128 s))) (
        T.◌>>=◌ (P.lift (read_uint32 o (drop 328 s)))
          (λ status. at_line 322 (T.arm_write_cpsr format status))))

  unfoldable pub write_general_registers : Orders → List ℕ → Handler (Unit {0})
  write_general_registers o s = do hidden (take_registers o s); on_gdb (gdb_send_data (codes "OK"))

  unfoldable pub write_register : Orders → List ℕ → Handler (Unit {0})
  write_register o s = do
    text ← on_gdb (lift (text_of s))
    number ← on_gdb (lift (stored_value (scan_hex text) none))
    content ← on_gdb (lift (after b'=' s))
    value ← on_gdb (lift (read_uint32 o content))
    reg ← on_gdb (lift (value_of number))
    on_gdb (assert (ltb reg 16))
    hidden (at_line 365 (T.arm_write_register format reg value))
    on_gdb (gdb_send_data (codes "OK"))
