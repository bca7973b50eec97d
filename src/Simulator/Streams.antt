-- ===== src/Simulator/Streams.antt =====
-- arm_simulator-1.4/scanner.l with arm_simulator.c: what the scanner makes of the text of a connection,
-- as events of the simulator.
use arm_processor_simulator.Base.{
  ℕ, zero, suc, ◌+◌, ◌≤◌, Bool, true, false, List, [], ◌∷◌, ◌++◌, ◌≡◌, refl, sym, ap, ◌∙◌, Outcome,
  done, fault, exited, aborted, ◌>>=◌ as and_then, ltb, ◌==◌, if◌then◌else◌, length, arith, if_true,
  if_true, if_false, Bool-cases, inl, inr,
}
use native.Mathlib.Decide.{dec_lt}
use arm_processor_simulator.Core.{Core}
use arm_processor_simulator.Gdb.State.{Gdb, Action, gdb_init_data, gdb_require_retransmission}
use arm_processor_simulator.Gdb.Words.{Orders}
use arm_processor_simulator.Scanner.{
  Scanner, Token, ack, again, packet, other, newline, on_gdb, handle_error, add_character_to_error,
  next_token, rule, yylex, gdb_scanner,
}
use arm_processor_simulator.Scanner.Tokens.{after_rule, next_token-Short}
use arm_processor_simulator.Scanner.Requests.{
  flush, flush_shut, no_flush, stored, stored_full, stored_shut,
}
use arm_processor_simulator.Scanner.Grammar.{Tokens, end, more, next_token-First}
use arm_processor_simulator.Simulator.{Event, received, dropped, serve}
use arm_processor_simulator.Simulator as Events

-- The request for what was dropped, if there are stray characters.
abbrev pub dropping : ℕ → List Event
dropping n = if n == 0 then [] else dropped ∷ []

-- What tokens mean for the simulator, with `n` stray characters before them, of which 1023 are held.
abbrev pub events : ℕ → List Token → List Event
events n [] = dropping n
events n (ack ∷ tokens) = dropping n ++ events 0 tokens
events n (again ∷ tokens) = dropping n ++ Events.again ∷ events 0 tokens
events n (packet text ∷ tokens) =
    dropping n ++ received (text ++ 0 ∷ []) (length text) ∷ events 0 tokens
events n (other c ∷ tokens) =
    if ltb n 1023 then events (n + 1) tokens else dropped ∷ events 1 tokens
events n (newline ∷ tokens) = events n tokens

-- Events one after the other, until a `cont` runs out of its rounds.
abbrev pub serve_all : ℕ → Orders → List Event → Action Bool
serve_all rounds o [] g = done (true, g)
serve_all rounds o (event ∷ rest) g =
    and_then (serve rounds o event g)
      (λ (enough, g'). elim enough [ true ↦ serve_all rounds o rest g' | false ↦ done (false, g') ])

-- The outcome for the connection.
abbrev pub seen : Outcome (Bool × Scanner) → Outcome (Bool × Gdb)
seen m = and_then m (λ (enough, sc). done (enough, sc.gdb))

module _ (rounds : ℕ) (o : Orders) where
  -- From a scanner with fewer than 1024 stray characters, `k` serves the events of `tokens`.
  pub record Serves (k : Scanner → Outcome (Bool × Scanner)) (tokens : List Token) : Type 0 where
    pub at :
        (sc : Scanner)
        → length sc.buffer ≤ 1023
        → seen (k sc) ≡ serve_all rounds o (events (length sc.buffer) tokens) sc.gdb

  asked_again :
      (rest : List Event) (g : Gdb)
      → g.is_shut ≡ false
      → serve_all rounds o (dropped ∷ rest) g
        ≡ serve_all rounds o rest (record g { sent = (b'-' ∷ []) ∷ g.sent })
  unfolding serve gdb_require_retransmission
  asked_again rest g live = rw live refl

  asked_shut :
      (rest : List Event) (g : Gdb)
      → g.is_shut ≡ true
      → serve_all rounds o (dropped ∷ rest) g ≡ exited
  unfolding serve gdb_require_retransmission
  asked_shut rest g shut = rw shut refl

  -- The stray characters are dropped, and what follows serves the events of `rest`.
  flushed :
      (follow : Outcome (Unit {0} × Scanner) → Outcome (Bool × Gdb)) (rest : List Event)
      → ((sc' : Scanner)
          → sc'.buffer ≡ []
          → follow (done (tt, sc')) ≡ serve_all rounds o rest sc'.gdb)
      → follow exited ≡ exited
      → (sc : Scanner) → length sc.buffer ≤ 1023
      → follow (handle_error sc) ≡ serve_all rounds o (dropping (length sc.buffer) ++ rest) sc.gdb
  flushed follow rest served ended sc fits = elim (dec_lt 0 (length sc.buffer)) [
    | yes some_left ↦
        let held : (length sc.buffer == 0) ≡ false = ground arith in
        let asks =
          ap (λ es. serve_all rounds o (es ++ rest) sc.gdb)
            (if_false (length sc.buffer == 0) [] (dropped ∷ []) held) in
        elim (Bool-cases sc.gdb.is_shut) [
          | inl shut ↦
              ap follow (flush_shut sc shut some_left (omega arith))
              ∙ ended
              ∙ sym (asks ∙ asked_shut rest sc.gdb shut)
          | inr live ↦
              ap follow (flush sc live some_left (omega arith))
              ∙ served
                  (record { gdb = record sc.gdb { sent = (b'-' ∷ []) ∷ sc.gdb.sent }; buffer = [] })
                  refl
              ∙ sym (asks ∙ asked_again rest sc.gdb live)
        ]
    | no none_left ↦
        let none : (length sc.buffer == 0) ≡ true = ground arith in
        ap follow (no_flush sc (omega arith))
        ∙ served sc (nothing sc.buffer (omega arith))
        ∙ sym (
            ap (λ es. serve_all rounds o (es ++ rest) sc.gdb)
              (if_true (length sc.buffer == 0) [] (dropped ∷ []) none))
  ]
    where
      nothing : (b : List ℕ) → length b ≡ 0 → b ≡ []
      nothing [] h = refl
      nothing (c ∷ cs) h = absurd (omega arith)

  -- With an empty buffer.
  from_empty :
      (k : Scanner → Outcome (Bool × Scanner)) (tokens : List Token)
      → Serves k tokens
      → (sc : Scanner) → sc.buffer ≡ []
      → seen (k sc) ≡ serve_all rounds o (events 0 tokens) sc.gdb
  from_empty k tokens h sc empty =
      let none : length sc.buffer ≡ 0 = ap (λ b. length b) empty in
      h.at sc (omega (arith, none)) ∙ ap (λ n. serve_all rounds o (events n tokens) sc.gdb) none

  -- An action after which `k` goes on.
  then_seen :
      (k : Scanner → Outcome (Bool × Scanner)) (tokens : List Token)
      → Serves k tokens
      → (sc : Scanner) → sc.buffer ≡ []
      → (m : Outcome (Bool × Gdb))
      → seen (after_rule k (and_then m (λ (a, gdb). done (a, record sc { gdb = gdb }))))
        ≡ and_then m (λ (enough, g). elim enough [
          | true ↦ serve_all rounds o (events 0 tokens) g
          | false ↦ done (false, g)
        ])
  then_seen k tokens h sc empty (done (true, g)) =
      from_empty k tokens h (record sc { gdb = g }) empty
  then_seen k tokens h sc empty (done (false, g)) = refl
  then_seen k tokens h sc empty fault = refl
  then_seen k tokens h sc empty exited = refl
  then_seen k tokens h sc empty aborted = refl

  -- The stray characters are dropped, and an event is served.
  event_served :
      (event : Event) (k : Scanner → Outcome (Bool × Scanner)) (tokens : List Token)
      → Serves k tokens
      → (sc : Scanner) → length sc.buffer ≤ 1023
      → seen (
          after_rule k (and_then (handle_error sc) (λ (_, sc'). on_gdb (serve rounds o event) sc')))
        ≡ serve_all rounds o (dropping (length sc.buffer) ++ event ∷ events 0 tokens) sc.gdb
  event_served event k tokens h sc fits =
      flushed (λ m. seen (after_rule k (and_then m (λ (_, x). on_gdb (serve rounds o event) x))))
        (event ∷ events 0 tokens)
        (λ sc' empty. then_seen k tokens h sc' empty (serve rounds o event sc'.gdb)) refl sc fits

  rule_served :
      (token : Token) (k : Scanner → Outcome (Bool × Scanner)) (tokens : List Token)
      → Serves k tokens
      → Serves (λ sc. after_rule k (rule rounds o token sc)) (token ∷ tokens)
  unfolding rule
  rule_served ack k tokens h = record {
    at = λ sc fits.
        flushed (λ m. seen (after_rule k (and_then m (λ (_, x). done (true, x))))) (events 0 tokens)
          (λ sc' empty. from_empty k tokens h sc' empty) refl sc fits;
  }
  rule_served again k tokens h = record {
    at = λ sc fits. unfold serve in event_served Events.again k tokens h sc fits;
  }
  rule_served (packet text) k tokens h = record {
    at = λ sc fits.
        unfold serve in event_served (received (text ++ 0 ∷ []) (length text)) k tokens h sc fits;
  }
  rule_served (other c) k tokens h = record { at = λ sc fits. held sc fits }
    where
      held :
          (sc : Scanner)
          → length sc.buffer ≤ 1023
          → seen (after_rule k (and_then (add_character_to_error c sc) (λ (_, x). done (true, x))))
            ≡ serve_all rounds o (events (length sc.buffer) (other c ∷ tokens)) sc.gdb
      held sc fits = elim (dec_lt (length sc.buffer) 1023) [
        | yes room ↦
            let test : ltb (length sc.buffer) 1023 ≡ true = ground arith in
            let count : length sc.buffer + 1 ≡ suc (length sc.buffer) = omega arith in
            ap (λ m. seen (after_rule k (and_then m (λ (_, x). done (true, x))))) (stored c sc room)
            ∙ h.at (record sc { buffer = c ∷ sc.buffer }) (omega arith)
            ∙ ap (λ n. serve_all rounds o (events n tokens) sc.gdb) (sym count)
            ∙ ap (λ es. serve_all rounds o es sc.gdb)
                (sym (if_true (ltb (length sc.buffer) 1023) _ _ test))
        | no full ↦
            let test : ltb (length sc.buffer) 1023 ≡ false = ground arith in
            let asks =
              ap (λ es. serve_all rounds o es sc.gdb)
                (if_false (ltb (length sc.buffer) 1023) _ _ test) in
            let g' : Gdb = record sc.gdb { sent = (b'-' ∷ []) ∷ sc.gdb.sent } in
            elim (Bool-cases sc.gdb.is_shut) [
              | inl shut ↦
                  ap (λ m. seen (after_rule k (and_then m (λ (_, x). done (true, x)))))
                    (stored_shut c sc shut (omega arith))
                  ∙ sym (asks ∙ asked_shut (events 1 tokens) sc.gdb shut)
              | inr live ↦
                  ap (λ m. seen (after_rule k (and_then m (λ (_, x). done (true, x)))))
                    (stored_full c sc live (omega arith))
                  ∙ h.at (record { gdb = g'; buffer = c ∷ [] }) (omega arith)
                  ∙ sym (asks ∙ asked_again (events 1 tokens) sc.gdb live)
            ]
      ]
  rule_served newline k tokens h = record { at = λ sc fits. h.at sc fits }

  end_served : Serves (λ sc. and_then (handle_error sc) (λ (_, sc'). done (true, sc'))) []
  end_served = record {
    at = λ sc fits.
        flushed (λ m. seen (and_then m (λ (_, x). done (true, x)))) [] (λ sc' empty. refl) refl sc
          fits
        ∙ ap (λ es. serve_all rounds o es sc.gdb) (no_more (length sc.buffer == 0));
  }
    where
      no_more :
          (b : Bool) → (if b then [] else dropped ∷ []) ++ [] ≡ (if b then [] else dropped ∷ [])
      no_more true = refl
      no_more false = refl

  yylex-Serves :
      (bound : ℕ) (text : List ℕ)
      → length text ≤ bound
      → (tokens : List Token) × Tokens text tokens × Serves (yylex bound rounds o text) tokens
  unfolding yylex
  yylex-Serves zero [] h = ([], end, end_served)
  yylex-Serves zero (c ∷ cs) h = absurd (omega arith)
  yylex-Serves (suc bound) [] h = ([], end, end_served)
  yylex-Serves (suc bound) (c ∷ cs) h =
      let x = next_token c cs in
      let (tokens, t, s) = yylex-Serves bound x.1 (omega (arith, next_token-Short c cs)) in
      (
        x.0 ∷ tokens,
        more (next_token-First c cs) t,
        rule_served x.0 (yylex bound rounds o x.1) tokens s,
      )

-- Whatever text a connection brings, with a bound of one token for each character: the text is cut
-- into tokens by the patterns of the rules, and the scanner does to the connection and to the processor
-- what the events of these tokens do, one after the other, and ends as they do: an event for each packet
-- and each request to send again, in the order of the text, and a request for the stray characters
-- before a token, or before a stray character that 1023 others are before.
pub gdb_scanner-events :
    (bound rounds : ℕ) (o : Orders) (text : List ℕ) (arm : Core)
    → length text ≤ bound
    → (tokens : List Token) × Tokens text tokens
      × (seen (gdb_scanner bound rounds o text arm)
          ≡ serve_all rounds o (events 0 tokens) (gdb_init_data arm))
unfolding gdb_scanner
gdb_scanner-events bound rounds o text arm h =
    let (tokens, t, s) = yylex-Serves rounds o bound text h in
    (tokens, t, s.at (record { gdb = gdb_init_data arm; buffer = [] }) (omega arith))
