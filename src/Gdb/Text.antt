-- ===== src/Gdb/Text.antt =====
-- What arm_simulator-1.4/gdb_protocol.c uses of C's text functions. A pointer into a text is the list
-- of the bytes from it to the end of the array, and a read past that end is undefined.
use arm_processor_simulator.Base.{
  ℕ, ◌+◌, ◌-◌, ◌*◌, ◌/◌, ◌%◌, ◌^◌, Bool, true, false, ◌&&◌, ◌||◌, Option, none, some, List, [], ◌∷◌,
  Outcome, done, fault, ltb, leb, ◌==◌, if◌then◌else◌, take,
}
use arm_processor_simulator.Util.{sub32}

-- The text at a pointer, up to its terminator.
abbrev pub c_string : List ℕ → List ℕ
c_string [] = []
c_string (c ∷ cs) = if c == 0 then [] else c ∷ c_string cs

-- `*p`
abbrev pub first : List ℕ → Outcome ℕ
first [] = fault
first (c ∷ cs) = done c

-- The terminator is in the array, so that its text may be read.
abbrev pub has_end : List ℕ → Bool
has_end [] = false
has_end (c ∷ cs) = c == 0 || has_end cs

abbrev pub text_of : List ℕ → Outcome (List ℕ)
text_of cs = if has_end cs then done (c_string cs) else fault

-- `index(p, c)`, none for NULL.
abbrev pub find : ℕ → List ℕ → Option (List ℕ)
find c [] = none
find c (x ∷ xs) = if x == c then some (x ∷ xs) else if x == 0 then none else find c xs

-- `isspace`
abbrev pub is_space : ℕ → Bool
is_space c = c == b' ' || (leb 9 c && leb c 13)

abbrev pub skip_spaces : List ℕ → List ℕ
skip_spaces [] = []
skip_spaces (c ∷ cs) = if is_space c then skip_spaces cs else c ∷ cs

-- `%02x` of a byte, in printing.
abbrev pub hex_digit : ℕ → ℕ
hex_digit n = if ltb n 10 then b'0' + n else b'a' + (n - 10)

abbrev pub hex_byte : ℕ → List ℕ
hex_byte v = hex_digit (v / 16) ∷ hex_digit (v % 16) ∷ []

-- The value of a digit in base 16.
abbrev pub digit_value : ℕ → Option ℕ
digit_value c =
    if leb b'0' c && leb c b'9'
    then some (c - b'0')
    else if leb b'a' c && leb c b'f'
    then some (c - b'a' + 10)
    else if leb b'A' c && leb c b'F'
    then some (c - b'A' + 10)
    else none

-- The digits at the front below `base`, after the value of those before: the value, and what follows.
unfoldable pub scan_digits : ℕ → ℕ → List ℕ → ℕ × List ℕ
scan_digits base acc [] = (acc, [])
scan_digits base acc (c ∷ cs) = elim (digit_value c) [
  | none ↦ (acc, c ∷ cs)
  | some d ↦ if ltb d base then scan_digits base (acc * base + d) cs else (acc, c ∷ cs)
]

abbrev pub is_digit : ℕ → ℕ → Bool
is_digit base c = elim (digit_value c) [ none ↦ false | some d ↦ ltb d base ]

-- What a conversion of the `scanf` family does: no match, or a value and what follows it. A value that
-- does not fit is undefined.
pub data Scanned : Type 0 where
  no_match : Scanned
  too_large : Scanned
  matched : ℕ → List ℕ → Scanned

abbrev pub fitting : Bool → ℕ × List ℕ → Scanned
fitting negative (v, rest) =
    if ltb v (2 ^ 32) then matched (if negative then sub32 0 v else v) rest else too_large

-- The digits after the sign: one is needed.
abbrev pub scan_first : ℕ → Bool → List ℕ → Scanned
scan_first base negative [] = no_match
scan_first base negative (c ∷ cs) =
    if is_digit base c then fitting negative (scan_digits base 0 (c ∷ cs)) else no_match

abbrev pub is_x : ℕ → Bool
is_x c = c == b'x' || c == b'X'

-- `0x` may stand before the digits in base 16.
abbrev pub scan_prefix : Bool → List ℕ → Scanned
scan_prefix negative [] = no_match
scan_prefix negative (c ∷ []) = scan_first 16 negative (c ∷ [])
scan_prefix negative (c ∷ d ∷ cs) =
    if c == b'0' && is_x d then scan_first 16 negative cs else scan_first 16 negative (c ∷ d ∷ cs)

abbrev pub scan_sign : (Bool → List ℕ → Scanned) → List ℕ → Scanned
scan_sign k [] = no_match
scan_sign k (c ∷ cs) =
    if c == b'-' then k true cs else if c == b'+' then k false cs else k false (c ∷ cs)

-- `%x` in scanning.
unfoldable pub scan_hex : List ℕ → Scanned
scan_hex s = scan_sign scan_prefix (skip_spaces s)

-- `%02x` in scanning: at most two characters are read.
unfoldable pub scan_hex_2 : List ℕ → Scanned
scan_hex_2 s = scan_sign scan_prefix (take 2 (skip_spaces s))

-- The value of a variable after a conversion into it.
abbrev pub stored_value : Scanned → Option ℕ → Outcome (Option ℕ)
stored_value no_match old = done old
stored_value too_large old = fault
stored_value (matched v rest) old = done (some v)

-- `sscanf(s, "%x,%x", &a, &b)` into variables that were not set.
abbrev pub scan_second : ℕ → List ℕ → Outcome (Option ℕ × Option ℕ)
scan_second a [] = done (some a, none)
scan_second a (c ∷ cs) =
    if c == b','
    then elim (scan_hex cs) [
      | no_match ↦ done (some a, none)
      | too_large ↦ fault
      | matched b rest ↦ done (some a, some b)
    ]
    else done (some a, none)

unfoldable pub scan_pair : List ℕ → Outcome (Option ℕ × Option ℕ)
scan_pair s = elim (scan_hex s) [
  | no_match ↦ done (none, none)
  | too_large ↦ fault
  | matched a rest ↦ scan_second a rest
]

-- `atoi`: 0 where there is no number. A value that is no `int` is undefined.
abbrev pub int_of : Scanned → Outcome ℕ
int_of no_match = done 0
int_of too_large = fault
int_of (matched v rest) = done v

abbrev pub fits_int : Bool → ℕ × List ℕ → Scanned
fits_int negative (v, rest) =
    if leb v (if negative then 2 ^ 31 else 2 ^ 31 - 1)
    then matched (if negative then sub32 0 v else v) rest
    else too_large

abbrev pub decimal : Bool → List ℕ → Scanned
decimal negative s = fits_int negative (scan_digits 10 0 s)

unfoldable pub atoi : List ℕ → Outcome ℕ
atoi s = int_of (scan_sign decimal (skip_spaces s))
