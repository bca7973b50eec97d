-- ===== src/Scanner.antt =====
-- arm_simulator-1.4/scanner.l: the rules that cut what the debugger sends into acknowledgements,
-- requests to send again, packets and characters that belong to none, and what each rule does. The
-- scanner that flex makes of them takes the longest match, and of two equally long ones the first.
pub mod Tokens
pub mod Packets
pub mod Grammar
pub mod Requests
pub mod Buffer
use arm_processor_simulator.Base.{
  ℕ, zero, suc, ◌+◌, ◌-◌, Bool, true, false, not, ◌&&◌, ◌||◌, Option, none, some, List, [], ◌∷◌,
  ◌++◌, Outcome, done, fault, ◌>>=◌ as and_then, leb, ltb, ◌==◌, if◌then◌else◌, length,
}
use arm_processor_simulator.Core.{Core}
use arm_processor_simulator.Gdb.State as State
use arm_processor_simulator.Gdb.State.{
  Gdb, Action, gdb_init_data, gdb_require_retransmission, gdb_transmit_packet,
}
use arm_processor_simulator.Gdb.Words.{Orders}
use arm_processor_simulator.Gdb.Packet.{gdb_packet_analysis}

abbrev pub max_error_size : ℕ
max_error_size = 1024

-- `buffer` is its first `len` characters, the last first.
pub record Scanner : Type 0 where
  pub gdb : Gdb
  pub buffer : List ℕ

-- What the rules match; a character that no rule matches is a newline, which flex prints.
pub data Token : Type 0 where
  ack : Token
  again : Token
  packet : List ℕ → Token
  other : ℕ → Token
  newline : Token

-- `[0-9a-fA-F]`
abbrev pub is_hex : ℕ → Bool
is_hex c = leb b'0' c && leb c b'9' || leb b'a' c && leb c b'f' || leb b'A' c && leb c b'F'

-- `{HEX}{HEX}`: the characters that match, and those that follow.
abbrev match_digits : List ℕ → Option (List ℕ × List ℕ)
match_digits (d ∷ e ∷ rest) = if is_hex d && is_hex e then some (d ∷ e ∷ [], rest) else none
match_digits (d ∷ []) = none
match_digits [] = none

abbrev with_first : ℕ → Option (List ℕ × List ℕ) → Option (List ℕ × List ℕ)
with_first c none = none
with_first c (some (text, rest)) = some (c ∷ text, rest)

-- `[^$#]*"#"{HEX}{HEX}`
unfoldable pub match_body : List ℕ → Option (List ℕ × List ℕ)
match_body [] = none
match_body (c ∷ cs) =
    let more = match_body cs in
    if c == b'#'
    then with_first c (match_digits cs)
    else if c == b'$'
    then none
    else with_first c more

-- A `$`, by what `match_body` makes of the characters behind it.
abbrev pub after_dollar : List ℕ → Option (List ℕ × List ℕ) → Token × List ℕ
after_dollar cs none = (other b'$', cs)
after_dollar cs (some (text, rest)) = (packet (b'$' ∷ text), rest)

-- The first token of a text that starts with `c`, and the characters behind the token.
unfoldable pub next_token : ℕ → List ℕ → Token × List ℕ
next_token c cs =
    if c == b'+'
    then (ack, cs)
    else if c == b'-'
    then (again, cs)
    else if c == b'$'
    then after_dollar cs (match_body cs)
    else if c == b'\n'
    then (newline, cs)
    else (other c, cs)

-- An action of the debugger's protocol.
abbrev pub on_gdb : {A : Type 0} → Action A → Scanner → Outcome (A × Scanner)
on_gdb m sc = and_then (m sc.gdb) (λ (a, gdb). done (a, record sc { gdb = gdb }))

-- The characters that belonged to no packet, if there are any, are dropped. The terminator of the
-- buffer must fit.
unfoldable pub handle_error : Scanner → Outcome (Unit {0} × Scanner)
handle_error sc =
    if length sc.buffer == 0
    then done (tt, sc)
    else if ltb (length sc.buffer) max_error_size
    then on_gdb gdb_require_retransmission (record sc { buffer = [] })
    else fault

-- `data->buffer[data->len++] = c`
abbrev pub store : ℕ → Scanner → Outcome (Unit {0} × Scanner)
store c sc =
    if ltb (length sc.buffer) max_error_size
    then done (tt, record sc { buffer = c ∷ sc.buffer })
    else fault

unfoldable pub add_character_to_error : ℕ → Scanner → Outcome (Unit {0} × Scanner)
add_character_to_error c sc =
    if ltb (max_error_size - 2) (length sc.buffer)
    then and_then (handle_error sc) (λ (_, sc'). store c sc')
    else store c sc

-- What a rule does, true if no `cont` ran out of its rounds. `yytext` ends with a terminator.
unfoldable pub rule : ℕ → Orders → Token → Scanner → Outcome (Bool × Scanner)
rule rounds o ack sc = and_then (handle_error sc) (λ (_, sc'). done (true, sc'))
rule rounds o again sc =
    and_then (handle_error sc)
      (λ (_, sc'). on_gdb (State.◌>>◌ gdb_transmit_packet (State.pure true)) sc')
rule rounds o (packet text) sc =
    and_then (handle_error sc)
      (λ (_, sc'). on_gdb (gdb_packet_analysis rounds o (text ++ 0 ∷ []) (length text)) sc')
rule rounds o (other c) sc = and_then (add_character_to_error c sc) (λ (_, sc'). done (true, sc'))
rule rounds o newline sc = done (true, sc)

-- `yylex` over a text that ends, with a bound on the number of its tokens: true if the bound and the
-- rounds of each `cont` were enough.
unfoldable pub yylex : ℕ → ℕ → Orders → List ℕ → Scanner → Outcome (Bool × Scanner)
yylex bound rounds o [] sc = and_then (handle_error sc) (λ (_, sc'). done (true, sc'))
yylex zero rounds o (c ∷ cs) sc = done (false, sc)
yylex (suc bound) rounds o (c ∷ cs) sc =
    let (token, rest) = next_token c cs in
    and_then (rule rounds o token sc) (λ (enough, sc'). elim enough [
      | true ↦ yylex bound rounds o rest sc'
      | false ↦ done (false, sc')
    ])

-- The scanner of a connection.
unfoldable pub gdb_scanner : ℕ → ℕ → Orders → List ℕ → Core → Outcome (Bool × Scanner)
gdb_scanner bound rounds o text arm =
    yylex bound rounds o text (record { gdb = gdb_init_data arm; buffer = [] })
