-- ===== src/Gdb/Replies.antt =====
-- arm_simulator-1.4/gdb_protocol.c: what is sent for a packet.
use arm_processor_simulator.Base.{
  ℕ, ◌+◌, Bool, true, false, Option, none, some, List, [], ◌∷◌, ◌++◌, ◌≡◌, ◌≢◌, arith, refl, sym,
  ◌∙◌, done, length, Bool-cases, inl, inr,
}
use arm_processor_simulator.Gdb.Text.{hex_byte}
use arm_processor_simulator.Gdb.Words.{Orders}
use arm_processor_simulator.Gdb.State.{
  Gdb, Action, pure, ◌>>◌, frame, checksum, gdb_send_ack, gdb_send_data,
}
use arm_processor_simulator.Gdb.Handlers.{
  query, read_general_registers, read_memory, read_register, reason, set_thread,
  write_general_registers, write_memory_binary, write_register,
}
use arm_processor_simulator.Gdb.Run.{step}
use arm_processor_simulator.Gdb.Packet.{
  Handler, on_cont, on_kill_request, on_query, on_read_general_registers, on_read_memory,
  on_read_register, on_reason, on_set_thread, on_step, on_write_general_registers,
  on_write_memory_binary, on_write_register, handle, handle_packet, handler, gdb_packet_analysis,
}
use arm_processor_simulator.Gdb.Checksum.{gdb_packet_analysis-frame}
use arm_processor_simulator.Gdb.Sends.{
  Answers, Silent-pure, Answers-before, Answers-gdb_send_data, answer_rules,
}

Answers-query : (s : List ℕ) → Answers (query s)
unfolding query
Answers-query s = search answer_rules depth 14

Answers-read_general_registers : (o : Orders) → Answers (read_general_registers o)
unfolding read_general_registers
Answers-read_general_registers o = search answer_rules depth 14

Answers-read_memory : (s : List ℕ) → Answers (read_memory s)
unfolding read_memory
Answers-read_memory s = search answer_rules depth 14

Answers-read_register : (o : Orders) (s : List ℕ) → Answers (read_register o s)
unfolding read_register
Answers-read_register o s = search answer_rules depth 14

Answers-reason : Answers reason
unfolding reason
Answers-reason = search answer_rules depth 14

Answers-set_thread : (s : List ℕ) → Answers (set_thread s)
unfolding set_thread
Answers-set_thread s = search answer_rules depth 14

Answers-write_general_registers : (o : Orders) (s : List ℕ) → Answers (write_general_registers o s)
unfolding write_general_registers
Answers-write_general_registers o s = search answer_rules depth 14

Answers-write_memory_binary : (s : List ℕ) → Answers (write_memory_binary s)
unfolding write_memory_binary
Answers-write_memory_binary s = search answer_rules depth 14

Answers-write_register : (o : Orders) (s : List ℕ) → Answers (write_register o s)
unfolding write_register
Answers-write_register o s = search answer_rules depth 14

Answers-step : Answers step
unfolding step
Answers-step = search answer_rules depth 14

-- The requests whose handlers always come to an answer.
abbrev pub is_answered : Handler → Bool
is_answered on_cont = false
is_answered on_kill_request = false
is_answered _ = true

Answers-returned : (m : Action (Unit {0})) → Answers m → Answers (m >> pure true)
Answers-returned m h = Answers-before m _ h (λ _. Silent-pure true)

Answers-handle :
    (rounds : ℕ) (o : Orders) (h : Handler) (s : List ℕ)
    → is_answered h ≡ true
    → Answers (handle rounds o h s)
unfolding handle
Answers-handle rounds o on_cont s e = absurd cc
Answers-handle rounds o on_kill_request s e = absurd cc
Answers-handle rounds o on_query s e = Answers-returned _ (Answers-query s)
Answers-handle rounds o on_read_general_registers s e =
    Answers-returned _ (Answers-read_general_registers o)
Answers-handle rounds o on_read_memory s e = Answers-returned _ (Answers-read_memory s)
Answers-handle rounds o on_read_register s e = Answers-returned _ (Answers-read_register o s)
Answers-handle rounds o on_reason s e = Answers-returned _ Answers-reason
Answers-handle rounds o on_set_thread s e = Answers-returned _ (Answers-set_thread s)
Answers-handle rounds o on_step s e = Answers-returned _ Answers-step
Answers-handle rounds o on_write_general_registers s e =
    Answers-returned _ (Answers-write_general_registers o s)
Answers-handle rounds o on_write_memory_binary s e =
    Answers-returned _ (Answers-write_memory_binary s)
Answers-handle rounds o on_write_register s e = Answers-returned _ (Answers-write_register o s)

Answers-chosen :
    (rounds : ℕ) (o : Orders) (s : List ℕ) (h : Option Handler)
    → ((h' : Handler) → h ≡ some h' → is_answered h' ≡ true)
    → Answers (elim h [ none ↦ gdb_send_data [] >> pure true | some h' ↦ handle rounds o h' s ])
Answers-chosen rounds o s none answered = Answers-returned _ (Answers-gdb_send_data [])
Answers-chosen rounds o s (some h) answered = Answers-handle rounds o h s (answered h refl)

handler-answered :
    (index : ℕ) (h : Handler)
    → index ≢ b'c'
    → index ≢ b'k'
    → handler index ≡ some h
    → is_answered h ≡ true
unfolding handler
handler-answered index on_cont not_c not_k e = ground arith
handler-answered index on_kill_request not_c not_k e = ground arith
handler-answered index on_query not_c not_k e = refl
handler-answered index on_read_general_registers not_c not_k e = refl
handler-answered index on_read_memory not_c not_k e = refl
handler-answered index on_read_register not_c not_k e = refl
handler-answered index on_reason not_c not_k e = refl
handler-answered index on_set_thread not_c not_k e = refl
handler-answered index on_step not_c not_k e = refl
handler-answered index on_write_general_registers not_c not_k e = refl
handler-answered index on_write_memory_binary not_c not_k e = refl
handler-answered index on_write_register not_c not_k e = refl

-- What returns behind the `+`.
behind_ack :
    (k : Action Bool) (g g' : Gdb) (returned : Bool)
    → (gdb_send_ack >> k) g ≡ done (returned, g')
    → k (record g { sent = (b'+' ∷ []) ∷ g.sent }) ≡ done (returned, g')
unfolding gdb_send_ack
behind_ack k g g' returned h = elim (Bool-cases g.is_shut) [ inl shut ↦ absurd cc | inr live ↦ cc ]

-- A framed request other than to continue and to kill, wherever its handling returns: first `+` is sent
-- and then one frame, and nothing else.
pub gdb_packet_analysis-Answers :
    (rounds : ℕ) (o : Orders) (g g' : Gdb) (index : ℕ) (s rest : List ℕ) (returned : Bool)
    → index ≢ b'c'
    → index ≢ b'k'
    → gdb_packet_analysis rounds o (frame (index ∷ s) ++ 0 ∷ rest) (length (index ∷ s) + 4) g
      ≡ done (returned, g')
    → (text : List ℕ) × (g'.sent ≡ frame text ∷ (b'+' ∷ []) ∷ g.sent)
unfolding handle_packet
gdb_packet_analysis-Answers rounds o g g' index s rest returned not_c not_k h =
    (Answers-chosen rounds o (s ++ 0 ∷ (hex_byte (checksum (index ∷ s)) ++ 0 ∷ rest))
        (handler index) (λ h' e. handler-answered index h' not_c not_k e)).at
      (record g { sent = (b'+' ∷ []) ∷ g.sent }) returned g'
      (behind_ack _ g g' returned (sym (gdb_packet_analysis-frame rounds o g (index ∷ s) rest) ∙ h))
