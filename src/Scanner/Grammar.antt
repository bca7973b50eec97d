-- ===== src/Scanner/Grammar.antt =====
-- arm_simulator-1.4/scanner.l: its patterns, and the tokens of a text by them.
use arm_processor_simulator.Base.{
  ℕ, Bool, true, false, ◌&&◌, ◌||◌, Option, none, some, List, [], ◌∷◌, ◌++◌, ◌≡◌, refl, sym, ◌∙◌,
  ap, subst, ◌==◌, if◌then◌else◌, arith, Bool-cases, inl, inr,
}
use arm_processor_simulator.Scanner.{
  Token, ack, again, packet, other, newline, is_hex, match_body, match_digits, with_first,
  after_dollar, next_token,
}
use arm_processor_simulator.Scanner.Packets.{is_body, match_body-digits}

-- `text` is the body of a packet from the character behind `$` on, with its checksum, and then `rest`.
pub record IsPacket (text body : List ℕ) (d e : ℕ) (rest : List ℕ) : Type 0 where
  pub whole : text ≡ body ++ b'#' ∷ d ∷ e ∷ rest
  pub plain : is_body body ≡ true
  pub first_digit : is_hex d ≡ true
  pub second_digit : is_hex e ≡ true

-- The first token of a text and what is behind it. A `$` that starts no packet is a stray character.
pub data First : List ℕ → Token → List ℕ → Type 0 where
  plus : {cs : List ℕ} → First (b'+' ∷ cs) ack cs
  minus : {cs : List ℕ} → First (b'-' ∷ cs) again cs
  line : {cs : List ℕ} → First (b'\n' ∷ cs) newline cs
  framed :
      {cs rest : List ℕ} (body : List ℕ) (d e : ℕ)
      → IsPacket cs body d e rest
      → First (b'$' ∷ cs) (packet (b'$' ∷ (body ++ b'#' ∷ d ∷ e ∷ []))) rest
  lone :
      {cs : List ℕ}
      → ((body : List ℕ) (d e : ℕ) (rest : List ℕ) → ¬ (IsPacket cs body d e rest))
      → First (b'$' ∷ cs) (other b'$') cs
  stray :
      {cs : List ℕ} (c : ℕ)
      → (c == b'+' || c == b'-' || c == b'$' || c == b'\n') ≡ false
      → First (c ∷ cs) (other c) cs

pub data Tokens : List ℕ → List Token → Type 0 where
  end : Tokens [] []
  more :
      {text rest : List ℕ} {token : Token} {tokens : List Token}
      → First text token rest
      → Tokens rest tokens
      → Tokens text (token ∷ tokens)

-- What `match_body` finds is a packet.
abbrev Found : List ℕ → Option (List ℕ × List ℕ) → Type 0
Found cs none = Unit {0}
Found cs (some (text, rest)) =
    (body : List ℕ) × (d : ℕ) × (e : ℕ) × IsPacket cs body d e rest
    × (text ≡ body ++ b'#' ∷ d ∷ e ∷ [])

digits-Found :
    (d e : ℕ) (rest : List ℕ) (b : Bool)
    → (is_hex d && is_hex e) ≡ b
    → Found (b'#' ∷ d ∷ e ∷ rest) (with_first b'#' (if b then some (d ∷ e ∷ [], rest) else none))
digits-Found d e rest false h = tt
digits-Found d e rest true h = (
  [],
  d,
  e,
  record {
    whole = refl;
    plain = refl;
    first_digit = ground (arith, h);
    second_digit = ground (arith, h);
  },
  refl,
)

hash-Found : (cs : List ℕ) → Found (b'#' ∷ cs) (with_first b'#' (match_digits cs))
hash-Found [] = tt
hash-Found (d ∷ []) = tt
hash-Found (d ∷ e ∷ rest) = digits-Found d e rest (is_hex d && is_hex e) refl

later-Found :
    (c : ℕ) (cs : List ℕ) (m : Option (List ℕ × List ℕ))
    → (c == b'#') ≡ false
    → (c == b'$') ≡ false
    → Found cs m
    → Found (c ∷ cs) (with_first c m)
later-Found c cs none hash dollar h = tt
later-Found c cs (some (text, rest)) hash dollar (body, d, e, p, same) = (
  c ∷ body,
  d,
  e,
  record {
    whole = ap (λ t. c ∷ t) p.whole;
    plain = ground (arith, p.plain);
    first_digit = p.first_digit;
    second_digit = p.second_digit;
  },
  ap (λ t. c ∷ t) same,
)

match_body-Found : (cs : List ℕ) → Found cs (match_body cs)
unfolding match_body
match_body-Found [] = tt
match_body-Found (c ∷ cs) = elim (Bool-cases (c == b'#')) [
  | inl hash ↦
      let at : b'#' ≡ c = ground arith in
      rw hash (subst (λ x. Found (x ∷ cs) (with_first x (match_digits cs))) at (hash-Found cs))
  | inr no_hash ↦ elim (Bool-cases (c == b'$')) [
    | inl dollar ↦ rw (no_hash, dollar) tt
    | inr no_dollar ↦
        rw (no_hash, no_dollar)
          (later-Found c cs (match_body cs) no_hash no_dollar (match_body-Found cs))
  ]
]

-- Where `match_body` finds nothing there is no packet.
match_body-none :
    (cs : List ℕ)
    → match_body cs ≡ none
    → (body : List ℕ) (d e : ℕ) (rest : List ℕ) → ¬ (IsPacket cs body d e rest)
match_body-none cs nothing body d e rest p =
    let found = match_body-digits body d e rest p.plain p.first_digit p.second_digit in
    let there : match_body (body ++ b'#' ∷ d ∷ e ∷ rest) ≡ none =
      ap match_body (sym p.whole) ∙ nothing in
    absurd cc

abbrev FirstOf : List ℕ → Token × List ℕ → Type 0
FirstOf text x = First text x.0 x.1

dollar-First :
    (cs : List ℕ) (m : Option (List ℕ × List ℕ))
    → match_body cs ≡ m
    → Found cs m
    → FirstOf (b'$' ∷ cs) (after_dollar cs m)
dollar-First cs none at found = lone (match_body-none cs at)
dollar-First cs (some (text, rest)) at (body, d, e, p, same) =
    subst (λ t. First (b'$' ∷ cs) (packet (b'$' ∷ t)) rest) (sym same) (framed body d e p)

First-if :
    (text : List ℕ) (b : Bool) (x y : Token × List ℕ)
    → (b ≡ true → FirstOf text x)
    → (b ≡ false → FirstOf text y)
    → FirstOf text (if b then x else y)
First-if text true x y hx hy = hx refl
First-if text false x y hx hy = hy refl

-- What `next_token` takes is the first token by the patterns.
pub next_token-First : (c : ℕ) (cs : List ℕ) → FirstOf (c ∷ cs) (next_token c cs)
unfolding next_token
next_token-First c cs =
    First-if (c ∷ cs) (c == b'+') (ack, cs) _ (λ h. at (λ d. First (d ∷ cs) ack cs) b'+' h plus)
      (λ no_plus.
        First-if (c ∷ cs) (c == b'-') (again, cs) _
          (λ h. at (λ d. First (d ∷ cs) again cs) b'-' h minus)
          (λ no_minus.
            First-if (c ∷ cs) (c == b'$') (after_dollar cs (match_body cs)) _
              (λ h.
                at (λ d. FirstOf (d ∷ cs) (after_dollar cs (match_body cs))) b'$' h
                  (dollar-First cs (match_body cs) refl (match_body-Found cs)))
              (λ no_dollar.
                First-if (c ∷ cs) (c == b'\n') (newline, cs) (other c, cs)
                  (λ h. at (λ d. First (d ∷ cs) newline cs) b'\n' h line)
                  (λ no_line. stray c (ground (arith, no_plus, no_minus, no_dollar, no_line))))))
  where
    at : (P : ℕ → Type 0) (d : ℕ) → (c == d) ≡ true → P d → P c
    at P d h x = let same : d ≡ c = ground arith in subst P same x
