-- ===== src/Scanner/Buffer.antt =====
-- arm_simulator-1.4/scanner.l: the characters that belong to no packet.
use arm_processor_simulator.Base.{
  ℕ, zero, suc, ◌+◌, ◌/◌, ◌≤◌, ◌<◌, Bool, true, false, not, ◌&&◌, List, [], ◌∷◌, ◌≡◌, sym, ap, ◌∙◌,
  Outcome, done, exited, ◌>>=◌ as and_then, ltb, ◌==◌, length, arith, if_true, if_false,
  if◌then◌else◌, Bool-cases, inl, inr,
}
use native.Mathlib.Decide.{dec_lt}
use arm_processor_simulator.Gdb.Words.{Orders}
use arm_processor_simulator.Scanner.{
  Scanner, other, next_token, rule, yylex, handle_error, add_character_to_error,
}
use arm_processor_simulator.Scanner.Tokens.{after_rule}
use arm_processor_simulator.Scanner.Requests.{
  asked, flush, flush_shut, no_flush, stored, stored_full, stored_shut, nothing_left,
}

-- Characters of no packet: no `$`, no `+`, no `-`, and no newline.
abbrev pub is_stray : List ℕ → Bool
is_stray [] = true
is_stray (c ∷ cs) =
    not (c == b'+') && not (c == b'-') && not (c == b'$') && not (c == b'\n') && is_stray cs

stray-token :
    (c : ℕ) (cs : List ℕ)
    → (c == b'+') ≡ false
    → (c == b'-') ≡ false
    → (c == b'$') ≡ false
    → (c == b'\n') ≡ false
    → next_token c cs ≡ (other c, cs)
unfolding next_token
stray-token c cs plus minus dollar newline = cc

-- A rule that is done.
abbrev going_on : Outcome (Unit {0} × Scanner) → Outcome (Bool × Scanner)
going_on m = and_then m (λ (_, sc). done (true, sc))

abbrev leave : Scanner → Outcome (Bool × Scanner)
leave sc = done (true, sc)

abbrev after : ℕ → Scanner → Outcome (Bool × Scanner)
after n sc = done (true, asked n sc)

-- The end of the text.
at_end :
    (sc : Scanner)
    → sc.gdb.is_shut ≡ false
    → length sc.buffer ≤ 1023
    → going_on (handle_error sc) ≡ done (true, asked ((length sc.buffer + 1022) / 1023) sc)
at_end sc live fits = elim (dec_lt 0 (length sc.buffer)) [
  | yes some_left ↦
      let one : (length sc.buffer + 1022) / 1023 ≡ 1 = omega arith in
      ap going_on (flush sc live some_left (omega arith)) ∙ ap (λ n. after n sc) (sym one)
  | no none_left ↦
      let none : length sc.buffer ≡ 0 = omega arith in
      let zero_requests : (length sc.buffer + 1022) / 1023 ≡ 0 = omega arith in
      ap going_on (no_flush sc none)
      ∙ ap leave (sym (nothing_left sc none))
      ∙ ap (λ n. after n sc) (sym zero_requests)
]

-- With an empty buffer, also where the socket is shut down.
at_end_empty :
    (sc : Scanner)
    → length sc.buffer ≡ 0
    → going_on (handle_error sc) ≡ done (true, asked ((length sc.buffer + 0 + 1022) / 1023) sc)
at_end_empty sc none =
    let zero_requests : (length sc.buffer + 0 + 1022) / 1023 ≡ 0 = omega arith in
    ap going_on (no_flush sc none)
    ∙ ap leave (sym (nothing_left sc none))
    ∙ ap (λ n. after n sc) (sym zero_requests)

-- On a socket that is open.
stray-open :
    (text : List ℕ) (bound rounds : ℕ) (o : Orders) (sc : Scanner)
    → sc.gdb.is_shut ≡ false
    → is_stray text ≡ true
    → length sc.buffer ≤ 1023
    → length text ≤ bound
    → yylex bound rounds o text sc
      ≡ done (true, asked ((length sc.buffer + length text + 1022) / 1023) sc)
unfolding yylex rule
stray-open [] zero rounds o sc live stray fits enough =
    let same : length sc.buffer + 1022 ≡ length sc.buffer + 0 + 1022 = omega arith in
    at_end sc live fits ∙ ap (λ n. after (n / 1023) sc) same
stray-open [] (suc bound) rounds o sc live stray fits enough =
    let same : length sc.buffer + 1022 ≡ length sc.buffer + 0 + 1022 = omega arith in
    at_end sc live fits ∙ ap (λ n. after (n / 1023) sc) same
stray-open (c ∷ cs) zero rounds o sc live stray fits enough = absurd (omega arith)
stray-open (c ∷ cs) (suc bound) rounds o sc live stray fits enough =
    let more : is_stray cs ≡ true = ground arith in
    let token = stray-token c cs (ground arith) (ground arith) (ground arith) (ground arith) in
    let next = after_rule (yylex bound rounds o cs) in
    let full = length sc.buffer + length (c ∷ cs) + 1022 in
    let first : yylex (suc bound) rounds o (c ∷ cs) sc
        ≡ next (going_on (add_character_to_error c sc)) =
      ap (λ x. after_rule (yylex bound rounds o x.1) (rule rounds o x.0 sc)) token in
    elim (dec_lt (length sc.buffer) 1023) [
      | yes room ↦
          let sc' : Scanner = record sc { buffer = c ∷ sc.buffer } in
          let same : length sc'.buffer + length cs + 1022 ≡ full = omega arith in
          first
          ∙ ap (λ m. next (going_on m)) (stored c sc room)
          ∙ stray-open cs bound rounds o sc' live more (omega arith) (omega arith)
          ∙ ap (λ n. after (n / 1023) sc) same
      | no no_room ↦
          let sc' : Scanner = record (asked 1 sc) { buffer = c ∷ [] } in
          let one_more : suc ((length sc'.buffer + length cs + 1022) / 1023) ≡ full / 1023 =
            omega arith in
          first
          ∙ ap (λ m. next (going_on m)) (stored_full c sc live (omega arith))
          ∙ stray-open cs bound rounds o sc' live more (omega arith) (omega arith)
          ∙ ap (λ n. after n sc) one_more
    ]

-- And on one that is shut down: the first request ends the program.
stray-shut :
    (text : List ℕ) (bound rounds : ℕ) (o : Orders) (sc : Scanner)
    → sc.gdb.is_shut ≡ true
    → is_stray text ≡ true
    → length sc.buffer ≤ 1023
    → length text ≤ bound
    → 0 < length sc.buffer + length text
    → yylex bound rounds o text sc ≡ exited
unfolding yylex rule
stray-shut [] zero rounds o sc shut stray fits enough some_left =
    ap going_on (flush_shut sc shut (omega arith) (omega arith))
stray-shut [] (suc bound) rounds o sc shut stray fits enough some_left =
    ap going_on (flush_shut sc shut (omega arith) (omega arith))
stray-shut (c ∷ cs) zero rounds o sc shut stray fits enough some_left = absurd (omega arith)
stray-shut (c ∷ cs) (suc bound) rounds o sc shut stray fits enough some_left =
    let more : is_stray cs ≡ true = ground arith in
    let token = stray-token c cs (ground arith) (ground arith) (ground arith) (ground arith) in
    let next = after_rule (yylex bound rounds o cs) in
    let first : yylex (suc bound) rounds o (c ∷ cs) sc
        ≡ next (going_on (add_character_to_error c sc)) =
      ap (λ x. after_rule (yylex bound rounds o x.1) (rule rounds o x.0 sc)) token in
    elim (dec_lt (length sc.buffer) 1023) [
      | yes room ↦
          first
          ∙ ap (λ m. next (going_on m)) (stored c sc room)
          ∙ stray-shut cs bound rounds o (record sc { buffer = c ∷ sc.buffer }) shut more
              (omega arith) (omega arith) (omega arith)
      | no no_room ↦ first ∙ ap (λ m. next (going_on m)) (stored_shut c sc shut (omega arith))
    ]

stray-none :
    (text : List ℕ) (bound rounds : ℕ) (o : Orders) (sc : Scanner)
    → length text ≡ 0
    → length sc.buffer ≡ 0
    → yylex bound rounds o text sc
      ≡ done (true, asked ((length sc.buffer + length text + 1022) / 1023) sc)
unfolding yylex
stray-none [] zero rounds o sc none empty = at_end_empty sc empty
stray-none [] (suc bound) rounds o sc none empty = at_end_empty sc empty
stray-none (c ∷ cs) bound rounds o sc none empty = absurd (omega arith)

-- Characters of no packet up to the end of what the debugger sends, behind up to 1023 of them: the
-- buffer never overflows, one request to send again is made for every 1023 of them and one for the
-- rest, and nothing else happens; the first request ends the program if the socket is shut down.
pub yylex-stray :
    (text : List ℕ) (bound rounds : ℕ) (o : Orders) (sc : Scanner)
    → is_stray text ≡ true
    → length sc.buffer ≤ 1023
    → length text ≤ bound
    → yylex bound rounds o text sc ≡ (
        if sc.gdb.is_shut && ltb 0 (length sc.buffer + length text)
        then exited
        else done (true, asked ((length sc.buffer + length text + 1022) / 1023) sc))
yylex-stray text bound rounds o sc stray fits enough =
    elim (dec_lt 0 (length sc.buffer + length text)) [
      | yes some_left ↦ elim (Bool-cases sc.gdb.is_shut) [
        | inl shut ↦
            let test : (sc.gdb.is_shut && ltb 0 (length sc.buffer + length text)) ≡ true =
              ground arith in
            stray-shut text bound rounds o sc shut stray fits enough some_left
            ∙ sym (if_true (sc.gdb.is_shut && ltb 0 (length sc.buffer + length text)) _ _ test)
        | inr live ↦
            let test : (sc.gdb.is_shut && ltb 0 (length sc.buffer + length text)) ≡ false =
              ground arith in
            stray-open text bound rounds o sc live stray fits enough
            ∙ sym (if_false (sc.gdb.is_shut && ltb 0 (length sc.buffer + length text)) _ _ test)
      ]
      | no none_left ↦
          let test : (sc.gdb.is_shut && ltb 0 (length sc.buffer + length text)) ≡ false =
            ground arith in
          stray-none text bound rounds o sc (omega arith) (omega arith)
          ∙ sym (if_false (sc.gdb.is_shut && ltb 0 (length sc.buffer + length text)) _ _ test)
    ]
