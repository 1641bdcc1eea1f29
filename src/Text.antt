-- ===== src/Text.antt =====
-- What the source calls of `str`: lists of characters by number, without a bound on their length.
pub mod Split
pub mod Lines
pub mod Decimal
use gresse.Prelude.{
  ℕ, ◌+◌, ◌*◌, ◌/◌, ◌%◌, ◌-◌, zero, suc, Bool, true, false, not, ◌&&◌, ◌||◌, Option, none, some,
  List, [], ◌∷◌, ◌++◌, ite, if◌then◌else◌, leb, ltb, ℕ_discrete, nat_key, Key, ℤ, pos, negsuc,
}
use gresse.Set

abbrev pub Text : Type 0
Text = List ℕ

abbrev pub comma : ℕ
comma = 44

abbrev pub slash : ℕ
slash = 47

abbrev pub plus : ℕ
plus = 43

abbrev pub minus : ℕ
minus = 45

abbrev push_char : ℕ → List Text → List Text
push_char c [] = (c ∷ []) ∷ []
push_char c (piece ∷ pieces) = (c ∷ piece) ∷ pieces

-- `split(separator)`: one piece more than there are separators.
unfoldable pub split_on : ℕ → Text → List Text
split_on separator [] = [] ∷ []
split_on separator (c ∷ text) =
    let rest = split_on separator text in
    ite (ℕ_discrete c separator) ([] ∷ rest) (push_char c rest)

-- `rsplit(separator).next()`: what follows the last separator.
unfoldable pub after_last : ℕ → Text → Text
after_last separator [] = []
after_last separator (c ∷ text) =
    let rest = after_last separator text in
    if Set.contains separator (c ∷ text) then rest else c ∷ text

abbrev is_nil : Text → Bool
is_nil [] = true
is_nil (_ ∷ _) = false

-- `trim_end_matches(test)`: a character goes if it passes the test and nothing after it stays.
unfoldable pub trim_end_matches : (ℕ → Bool) → Text → Text
trim_end_matches test [] = []
trim_end_matches test (c ∷ text) =
    let rest = trim_end_matches test text in if test c && is_nil rest then [] else c ∷ rest

abbrev pub is_slash : ℕ → Bool
is_slash c = ite (ℕ_discrete c slash) true false

abbrev pub is_digit : ℕ → Bool
is_digit c = leb 48 c && leb c 57

-- The digits of a number before the text so far; `fuel` bounds how many there are.
unfoldable pub push_digits : ℕ → ℕ → Text → Text
push_digits zero n rest = rest
push_digits (suc fuel) n rest =
    let more = push_digits fuel (n / 10) ((48 + n % 10) ∷ rest) in
    if ltb n 10 then (48 + n) ∷ rest else more

-- The most digits of a `u128`.
abbrev pub max_digits : ℕ
max_digits = 39

-- `Display` of an unsigned and of a signed number.
unfoldable pub print_nat : ℕ → Text
print_nat n = push_digits max_digits n []

unfoldable pub print_int : ℤ → Text
print_int (pos n) = print_nat n
print_int (negsuc n) = minus ∷ print_nat (suc n)

-- The digits are added to the value so far, with a checked multiplication and addition.
unfoldable pub parse_digits : ℕ → ℕ → Text → Option ℕ
parse_digits max value [] = some value
parse_digits max value (c ∷ text) =
    let next = value * 10 + (c - 48) in
    let rest = parse_digits max next text in if is_digit c && leb next max then rest else none

-- The digits after the sign: there is one at least.
abbrev digits_of : ℕ → Text → Option ℕ
digits_of max [] = none
digits_of max (c ∷ text) = parse_digits max 0 (c ∷ text)

-- `parse::<u128>()`, `parse::<u64>()` and `parse::<u16>()`: a leading plus is taken.
unfoldable pub parse_nat : ℕ → Text → Option ℕ
parse_nat max [] = none
parse_nat max (c ∷ text) = ite (ℕ_discrete c plus) (digits_of max text) (digits_of max (c ∷ text))

abbrev pub signed : Option ℕ → Option ℤ
signed none = none
signed (some n) = some (pos n)

abbrev pub negated : Option ℕ → Option ℤ
negated none = none
negated (some zero) = some (pos 0)
negated (some (suc n)) = some (negsuc n)

-- `parse::<i64>()`, by the greatest magnitude of either sign.
unfoldable pub parse_int : ℕ → Text → Option ℤ
parse_int max [] = none
parse_int max (c ∷ text) =
    ite (ℕ_discrete c minus) (negated (digits_of (suc max) text))
      (signed (parse_nat max (c ∷ text)))
