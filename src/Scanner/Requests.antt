-- ===== src/Scanner/Requests.antt =====
-- arm_simulator-1.4/scanner.l: the buffer of the characters that belong to no packet.
use arm_processor_simulator.Base.{
  ℕ, zero, suc, ◌<◌, true, false, List, [], ◌∷◌, ◌≡◌, refl, ap, done, exited, ltb, ◌==◌, length,
  arith, if_true,
}
use arm_processor_simulator.Gdb.State.{gdb_require_retransmission}
use arm_processor_simulator.Scanner.{Scanner, handle_error, add_character_to_error}

-- `n` requests to send again.
abbrev pub requests : ℕ → List (List ℕ) → List (List ℕ)
requests zero sent = sent
requests (suc n) sent = requests n ((b'-' ∷ []) ∷ sent)

-- The scanner after `n` such requests, with nothing in its buffer.
abbrev pub asked : ℕ → Scanner → Scanner
asked n sc = record { gdb = record sc.gdb { sent = requests n sc.gdb.sent }; buffer = [] }

pub flush :
    (sc : Scanner)
    → sc.gdb.is_shut ≡ false
    → 0 < length sc.buffer
    → length sc.buffer < 1024
    → handle_error sc ≡ done (tt, asked 1 sc)
unfolding handle_error gdb_require_retransmission
flush sc live some_left fits =
    let none : (length sc.buffer == 0) ≡ false = ground arith in
    let inside : ltb (length sc.buffer) 1024 ≡ true = ground arith in cc

-- Where the socket is shut down.
pub flush_shut :
    (sc : Scanner)
    → sc.gdb.is_shut ≡ true
    → 0 < length sc.buffer
    → length sc.buffer < 1024
    → handle_error sc ≡ exited
unfolding handle_error gdb_require_retransmission
flush_shut sc shut some_left fits =
    let none : (length sc.buffer == 0) ≡ false = ground arith in
    let inside : ltb (length sc.buffer) 1024 ≡ true = ground arith in cc

pub stored :
    (c : ℕ) (sc : Scanner)
    → length sc.buffer < 1023
    → add_character_to_error c sc ≡ done (tt, record sc { buffer = c ∷ sc.buffer })
unfolding add_character_to_error
stored c sc fits =
    let room : ltb 1022 (length sc.buffer) ≡ false = ground arith in
    let inside : ltb (length sc.buffer) 1024 ≡ true = ground arith in cc

pub stored_full :
    (c : ℕ) (sc : Scanner)
    → sc.gdb.is_shut ≡ false
    → length sc.buffer ≡ 1023
    → add_character_to_error c sc ≡ done (tt, record (asked 1 sc) { buffer = c ∷ [] })
unfolding add_character_to_error
stored_full c sc live full =
    let none_left : ltb 1022 (length sc.buffer) ≡ true = ground arith in
    let flushed = flush sc live (omega arith) (omega arith) in cc

pub stored_shut :
    (c : ℕ) (sc : Scanner)
    → sc.gdb.is_shut ≡ true
    → length sc.buffer ≡ 1023
    → add_character_to_error c sc ≡ exited
unfolding add_character_to_error
stored_shut c sc shut full =
    let none_left : ltb 1022 (length sc.buffer) ≡ true = ground arith in
    let flushed = flush_shut sc shut (omega arith) (omega arith) in cc

pub no_flush : (sc : Scanner) → length sc.buffer ≡ 0 → handle_error sc ≡ done (tt, sc)
unfolding handle_error
no_flush sc none = if_true (length sc.buffer == 0) _ _ (ground arith)

pub nothing_left : (sc : Scanner) → length sc.buffer ≡ 0 → asked 0 sc ≡ sc
nothing_left sc none = ap (λ b. record sc { buffer = b }) (empty sc.buffer none)
  where
    empty : (b : List ℕ) → length b ≡ 0 → [] ≡ b
    empty [] h = refl
    empty (c ∷ cs) h = absurd (omega arith)
