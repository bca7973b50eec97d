-- ===== src/Scanner/Tokens.antt =====
-- arm_simulator-1.4/scanner.l: where the tokens of a text end.
use arm_processor_simulator.Base.{
  ℕ, zero, suc, ◌≤◌, Bool, true, false, ◌&&◌, Option, none, some, List, [], ◌∷◌, ◌++◌, ◌≡◌, refl,
  ap, ◌∙◌, Outcome, done, ◌>>=◌ as and_then, ◌==◌, if◌then◌else◌, length, length-append, arith,
}
use mathlib.Core.Path.{fun_ext}
use arm_processor_simulator.Gdb.Words.{Orders}
use arm_processor_simulator.Scanner.{
  Scanner, Token, ack, again, packet, other, newline, is_hex, match_body, match_digits, with_first,
  after_dollar, next_token, rule, yylex,
}

-- The characters of a token.
abbrev pub token_text : Token → List ℕ
token_text ack = b'+' ∷ []
token_text again = b'-' ∷ []
token_text (packet text) = text
token_text (other c) = c ∷ []
token_text newline = b'\n' ∷ []

-- What matches and what follows are the text again.
abbrev Splits : List ℕ → Option (List ℕ × List ℕ) → Type 0
Splits cs none = Unit {0}
Splits cs (some (text, rest)) = text ++ rest ≡ cs

match_digits-Splits : (cs : List ℕ) → Splits cs (match_digits cs)
match_digits-Splits [] = tt
match_digits-Splits (d ∷ []) = tt
match_digits-Splits (d ∷ e ∷ rest) = digits (is_hex d && is_hex e)
  where
    digits : (b : Bool) → Splits (d ∷ e ∷ rest) (if b then some (d ∷ e ∷ [], rest) else none)
    digits true = refl
    digits false = tt

with_first-Splits :
    (c : ℕ) (cs : List ℕ) (m : Option (List ℕ × List ℕ))
    → Splits cs m
    → Splits (c ∷ cs) (with_first c m)
with_first-Splits c cs none h = tt
with_first-Splits c cs (some (text, rest)) h = ap (λ t. c ∷ t) h

Splits-if :
    (cs : List ℕ) (b : Bool) (m n : Option (List ℕ × List ℕ))
    → Splits cs m
    → Splits cs n
    → Splits cs (if b then m else n)
Splits-if cs true m n hm hn = hm
Splits-if cs false m n hm hn = hn

match_body-Splits : (cs : List ℕ) → Splits cs (match_body cs)
unfolding match_body
match_body-Splits [] = tt
match_body-Splits (c ∷ cs) =
    Splits-if (c ∷ cs) (c == b'#') _ _
      (with_first-Splits c cs (match_digits cs) (match_digits-Splits cs))
      (Splits-if (c ∷ cs) (c == b'$') none _ tt
        (with_first-Splits c cs (match_body cs) (match_body-Splits cs)))

after_dollar-Splits :
    (cs : List ℕ) (m : Option (List ℕ × List ℕ))
    → Splits cs m
    → token_text (after_dollar cs m).0 ++ (after_dollar cs m).1 ≡ b'$' ∷ cs
after_dollar-Splits cs none h = refl
after_dollar-Splits cs (some (text, rest)) h = ap (λ t. b'$' ∷ t) h

abbrev Cuts : ℕ → List ℕ → Token × List ℕ → Type 0
Cuts c cs x = token_text x.0 ++ x.1 ≡ c ∷ cs

Cuts-if :
    (c : ℕ) (cs : List ℕ) (b : Bool) (x y : Token × List ℕ)
    → (b ≡ true → Cuts c cs x)
    → Cuts c cs y
    → Cuts c cs (if b then x else y)
Cuts-if c cs true x y hx hy = hx refl
Cuts-if c cs false x y hx hy = hy

-- The characters of the first token and those behind it are the whole text: none is lost or repeated.
pub next_token-Cuts :
    (c : ℕ) (cs : List ℕ) → token_text (next_token c cs).0 ++ (next_token c cs).1 ≡ c ∷ cs
unfolding next_token
next_token-Cuts c cs =
    Cuts-if c cs (c == b'+') (ack, cs) _ (λ h. ap (λ d. d ∷ cs) (same b'+' h))
      (Cuts-if c cs (c == b'-') (again, cs) _ (λ h. ap (λ d. d ∷ cs) (same b'-' h))
        (Cuts-if c cs (c == b'$') (after_dollar cs (match_body cs)) _
          (λ h.
            after_dollar-Splits cs (match_body cs) (match_body-Splits cs)
            ∙ ap (λ d. d ∷ cs) (same b'$' h))
          (Cuts-if c cs (c == b'\n') (newline, cs) (other c, cs)
            (λ h. ap (λ d. d ∷ cs) (same b'\n' h)) refl)))
  where
    same : (d : ℕ) → (c == d) ≡ true → d ≡ c
    same d h = ground arith

abbrev Short : List ℕ → Token × List ℕ → Type 0
Short cs x = length x.1 ≤ length cs

Short-if :
    (cs : List ℕ) (b : Bool) (x y : Token × List ℕ)
    → Short cs x
    → Short cs y
    → Short cs (if b then x else y)
Short-if cs true x y hx hy = hx
Short-if cs false x y hx hy = hy

after_dollar-Short :
    (cs : List ℕ) (m : Option (List ℕ × List ℕ)) → Splits cs m → Short cs (after_dollar cs m)
after_dollar-Short cs none h = omega arith
after_dollar-Short cs (some (text, rest)) h =
    omega (arith, length-append {0} text rest, ap (λ t. length t) h)

pub next_token-Short : (c : ℕ) (cs : List ℕ) → Short cs (next_token c cs)
unfolding next_token
next_token-Short c cs =
    Short-if cs (c == b'+') (ack, cs) _ (omega arith)
      (Short-if cs (c == b'-') (again, cs) _ (omega arith)
        (Short-if cs (c == b'$') (after_dollar cs (match_body cs)) _
          (after_dollar-Short cs (match_body cs) (match_body-Splits cs))
          (Short-if cs (c == b'\n') (newline, cs) (other c, cs) (omega arith) (omega arith))))

-- The scanner after a rule, by what is done next.
abbrev pub after_rule :
    (Scanner → Outcome (Bool × Scanner)) → Outcome (Bool × Scanner) → Outcome (Bool × Scanner)
after_rule next m =
    and_then m (λ (enough, sc). elim enough [ true ↦ next sc | false ↦ done (false, sc) ])

bound-free :
    (b b' rounds : ℕ) (o : Orders) (text : List ℕ) (sc : Scanner)
    → length text ≤ b
    → length text ≤ b'
    → yylex b rounds o text sc ≡ yylex b' rounds o text sc
unfolding yylex
bound-free zero zero rounds o text sc h h' = refl
bound-free zero (suc b') rounds o [] sc h h' = refl
bound-free zero (suc b') rounds o (c ∷ cs) sc h h' = absurd (omega arith)
bound-free (suc b) zero rounds o [] sc h h' = refl
bound-free (suc b) zero rounds o (c ∷ cs) sc h h' = absurd (omega arith)
bound-free (suc b) (suc b') rounds o [] sc h h' = refl
bound-free (suc b) (suc b') rounds o (c ∷ cs) sc h h' =
    let token = (next_token c cs).0 in
    let rest = (next_token c cs).1 in
    let shorter : length rest ≤ length cs = next_token-Short c cs in
    ap (λ next. after_rule next (rule rounds o token sc))
      (fun_ext (λ sc'. bound-free b b' rounds o rest sc' (omega arith) (omega arith)))

-- As many tokens as the text has characters are enough: any larger bound gives the same.
pub yylex-enough :
    (bound rounds : ℕ) (o : Orders) (text : List ℕ) (sc : Scanner)
    → length text ≤ bound
    → yylex bound rounds o text sc ≡ yylex (length text) rounds o text sc
yylex-enough bound rounds o text sc h =
    bound-free bound (length text) rounds o text sc h (omega arith)
