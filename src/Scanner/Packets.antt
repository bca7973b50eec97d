-- ===== src/Scanner/Packets.antt =====
-- arm_simulator-1.4/scanner.l: the packets of the debugger in what it sends.
use arm_processor_simulator.Base.{
  ℕ, suc, ◌+◌, ◌/◌, ◌%◌, ◌<◌, Bool, true, false, not, ◌&&◌, some, List, [], ◌∷◌, ◌++◌, ◌≡◌, ap, ◌∙◌,
  done, ◌>>=◌ as and_then, ◌==◌, length, length-append, append_assoc, arith, if_true,
}
use arm_processor_simulator.Gdb.Text.{hex_byte, hex_digit}
use arm_processor_simulator.Gdb.State.{frame, checksum}
use arm_processor_simulator.Gdb.Words.{Orders}
use arm_processor_simulator.Scanner.{
  Scanner, Token, packet, is_hex, match_body, after_dollar, next_token, rule, yylex,
}
use arm_processor_simulator.Gdb.State.{◌>>◌, gdb_send_ack}
use arm_processor_simulator.Gdb.Packet.{gdb_packet_analysis, handle_packet}
use arm_processor_simulator.Gdb.Checksum.{checksum-u8, gdb_packet_analysis-frame}
use arm_processor_simulator.Scanner.{on_gdb, handle_error}
use arm_processor_simulator.Scanner.Tokens.{after_rule}

-- The characters of the body of a packet.
abbrev pub is_body : List ℕ → Bool
is_body [] = true
is_body (c ∷ cs) = not (c == b'$') && not (c == b'#') && is_body cs

pub match_body-digits :
    (body : List ℕ) (d e : ℕ) (rest : List ℕ)
    → is_body body ≡ true
    → is_hex d ≡ true
    → is_hex e ≡ true
    → match_body (body ++ b'#' ∷ d ∷ e ∷ rest) ≡ some (body ++ b'#' ∷ d ∷ e ∷ [], rest)
unfolding match_body
match_body-digits [] d e rest h hd he = cc
match_body-digits (c ∷ body) d e rest h hd he =
    let more : is_body body ≡ true = ground arith in
    let dollar : (c == b'$') ≡ false = ground arith in
    let hash : (c == b'#') ≡ false = ground arith in
    let found = match_body-digits body d e rest more hd he in cc

hex_digit-is_hex : (n : ℕ) → n < 16 → is_hex (hex_digit n) ≡ true
hex_digit-is_hex n h = ground arith

-- A packet as the simulator frames it, whose text has no `$` and no `#`: the scanner takes it for one
-- packet, whatever follows.
pub next_token-frame :
    (text rest : List ℕ)
    → is_body text ≡ true
    → next_token b'$' (text ++ b'#' ∷ (hex_byte (checksum text) ++ rest))
      ≡ (packet (frame text), rest)
unfolding next_token
next_token-frame text rest h =
    ap (after_dollar (text ++ b'#' ∷ (hex_byte (checksum text) ++ rest))) (
      match_body-digits text (hex_digit (checksum text / 16)) (hex_digit (checksum text % 16)) rest
        h (hex_digit-is_hex (checksum text / 16) (omega (arith, checksum-u8 text 0 (omega arith))))
        (hex_digit-is_hex (checksum text % 16) (omega arith)))

length-frame : (text : List ℕ) → length (frame text) ≡ length text + 4
length-frame text = omega (arith, length-append {0} text (b'#' ∷ hex_byte (checksum text)))

-- A packet on its way from the debugger to its handler: framed as the simulator frames its own, with a
-- text without `$` and `#`, and with no stray characters before it, it is acknowledged and handled, and
-- then the scanner goes on with what follows.
pub yylex-frame :
    (bound rounds : ℕ) (o : Orders) (text rest : List ℕ) (sc : Scanner)
    → is_body text ≡ true
    → sc.buffer ≡ []
    → yylex (suc bound) rounds o (frame text ++ rest) sc
      ≡ after_rule (yylex bound rounds o rest) (
          on_gdb
            (gdb_send_ack
              >> handle_packet rounds o (b'$' ∷ (text ++ 0 ∷ (hex_byte (checksum text) ++ 0 ∷ []))))
            sc)
unfolding yylex rule handle_error
yylex-frame bound rounds o text rest sc h empty =
    let on = after_rule (yylex bound rounds o rest) in
    let first =
      λ (x : Token × List ℕ). after_rule (yylex bound rounds o x.1) (rule rounds o x.0 sc) in
    let analysis = gdb_packet_analysis rounds o (frame text ++ 0 ∷ []) in
    ap (λ cs. first (next_token b'$' cs)) (append_assoc text (b'#' ∷ hex_byte (checksum text)) rest)
    ∙ ap first (next_token-frame text rest h)
    ∙ ap (λ m. on (and_then m (λ (_, sc'). on_gdb (analysis (length (frame text))) sc')))
        (if_true (length sc.buffer == 0) (done (tt, sc)) _ (ap (λ b. length b == 0) empty))
    ∙ ap (λ n. on (on_gdb (analysis n) sc)) (length-frame text)
    ∙ ap (λ m. on (and_then m (λ (a, gdb). done (a, record sc { gdb = gdb }))))
        (gdb_packet_analysis-frame rounds o sc.gdb text [])
