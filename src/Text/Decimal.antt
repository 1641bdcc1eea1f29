-- ===== src/Text/Decimal.antt =====
-- Numbers that are printed and read back.
use gresse.Prelude.{
  ◌≡◌, ◌≢◌, refl, ℕ, zero, suc, ◌+◌, ◌*◌, ◌/◌, ◌%◌, ◌^◌, ◌≤◌, ◌<◌, true, false, [], ◌∷◌, arith,
  nat_key, some, ℤ, pos, negsuc, Bool, pos_part, neg_part, ◌∙◌,
}
use gresse.Set
use gresse.Text.{
  signed, negated, Text, push_digits, print_nat, print_int, max_digits, parse_digits, parse_nat,
  parse_int, is_digit, minus,
}
use gresse.Text.Split.{IsFree, IsFree-nil}

pow_10 : (f : ℕ) → 10 ^ suc f ≡ 10 * 10 ^ f
pow_10 f = omega arith

div_10 : (n m : ℕ) → n < 10 * m → n / 10 < m
div_10 n m h = omega arith

-- Reading one digit.
parse_digits-digit :
    (max value d : ℕ) (rest : Text)
    → d < 10
    → value * 10 + d ≤ max
    → parse_digits max value ((48 + d) ∷ rest) ≡ parse_digits max (value * 10 + d) rest
unfolding parse_digits
parse_digits-digit max value d rest h k = ground arith

-- Enough fuel prints all the digits, and they are read back as the number.
pub parse_digits-push_digits :
    (max f n : ℕ) (rest : Text)
    → n < 10 ^ f
    → n ≤ max
    → parse_digits max 0 (push_digits f n rest) ≡ parse_digits max n rest
unfolding push_digits
parse_digits-push_digits max zero n rest h k = ground arith
parse_digits-push_digits max (suc f) n rest h k =
    let split : n / 10 * 10 + n % 10 ≡ n = omega arith in
    ground (
      arith,
      parse_digits-digit max 0 n rest,
      parse_digits-digit max (n / 10) (n % 10) rest,
      parse_digits-push_digits max f (n / 10) ((48 + n % 10) ∷ rest),
      div_10 n (10 ^ f),
      pow_10 f,
      split,
    )

-- A character that no printed number has.
abbrev pub IsNoDigit : ℕ → Type 0
IsNoDigit c = is_digit c ≡ false

IsFree-digit :
    (c d : ℕ) (rest : Text) → d < 10 → IsNoDigit c → IsFree c rest → IsFree c ((48 + d) ∷ rest)
unfolding Set.contains
IsFree-digit c d rest e h k = ground arith

push_digits-IsFree :
    (c f n : ℕ) (rest : Text) → IsNoDigit c → IsFree c rest → IsFree c (push_digits f n rest)
unfolding push_digits
push_digits-IsFree c zero n rest h k = k
push_digits-IsFree c (suc f) n rest h k =
    let digit : n % 10 < 10 = omega arith in
    ground (
      arith,
      push_digits-IsFree c f (n / 10) ((48 + n % 10) ∷ rest),
      IsFree-digit c n rest,
      IsFree-digit c (n % 10) rest,
      digit,
    )

pub print_nat-IsFree : (c n : ℕ) → IsNoDigit c → IsFree c (print_nat n)
unfolding print_nat
print_nat-IsFree c n h = push_digits-IsFree c max_digits n [] h (IsFree-nil c)

pub print_int-IsFree : (c : ℕ) (z : ℤ) → IsNoDigit c → c ≢ minus → IsFree c (print_int z)
unfolding print_int Set.contains
print_int-IsFree c (pos n) h k = print_nat-IsFree c n h
print_int-IsFree c (negsuc n) h k = ground (arith, print_nat-IsFree c (suc n) h)

abbrev starts_with_digit : Text → Bool
starts_with_digit [] = false
starts_with_digit (c ∷ _) = is_digit c

keeps_first_digit :
    (f n : ℕ) (rest : Text)
    → starts_with_digit rest ≡ true
    → starts_with_digit (push_digits f n rest) ≡ true
unfolding push_digits
keeps_first_digit zero n rest h = h
keeps_first_digit (suc f) n rest h =
    let digit : n % 10 < 10 = omega arith in
    ground (arith, digit, keeps_first_digit f (n / 10) ((48 + n % 10) ∷ rest))

first_digit : (f n : ℕ) (rest : Text) → starts_with_digit (push_digits (suc f) n rest) ≡ true
unfolding push_digits
first_digit f n rest =
    let digit : n % 10 < 10 = omega arith in
    ground (arith, digit, keeps_first_digit f (n / 10) ((48 + n % 10) ∷ rest))

print_nat-first : (n : ℕ) → starts_with_digit (print_nat n) ≡ true
unfolding print_nat
print_nat-first n = first_digit 38 n []

parse_digits-print_nat :
    (max n : ℕ) → n < 10 ^ max_digits → n ≤ max → parse_digits max 0 (print_nat n) ≡ some n
unfolding print_nat parse_digits
parse_digits-print_nat max n h k = parse_digits-push_digits max max_digits n [] h k

parse_nat-digits :
    (max : ℕ) (text : Text)
    → starts_with_digit text ≡ true
    → parse_nat max text ≡ parse_digits max 0 text
unfolding parse_nat
parse_nat-digits max [] h = cc
parse_nat-digits max (c ∷ text) h = ground arith

parse_int-digits :
    (max : ℕ) (text : Text)
    → starts_with_digit text ≡ true
    → parse_int max text ≡ signed (parse_digits max 0 text)
unfolding parse_int
parse_int-digits max [] h = cc
parse_int-digits max (c ∷ text) h = ground (arith, parse_nat-digits max (c ∷ text) h)

parse_int-negative :
    (max : ℕ) (text : Text)
    → starts_with_digit text ≡ true
    → parse_int max (minus ∷ text) ≡ negated (parse_digits (suc max) 0 text)
unfolding parse_int
parse_int-negative max [] h = cc
parse_int-negative max (c ∷ text) h = ground arith

-- Every number up to the maximum of its type is read back.
pub parse_nat-print_nat :
    (max n : ℕ) → n < 10 ^ max_digits → n ≤ max → parse_nat max (print_nat n) ≡ some n
parse_nat-print_nat max n h k =
    parse_nat-digits max (print_nat n) (print_nat-first n) ∙ parse_digits-print_nat max n h k

-- Every integer between `-max - 1` and `max` is read back.
pub parse_int-print_int :
    (max : ℕ) (z : ℤ)
    → max < 10 ^ 38
    → pos_part z ≤ max
    → neg_part z ≤ suc max
    → parse_int max (print_int z) ≡ some z
unfolding print_int
parse_int-print_int max (pos n) b h k =
    rw
      (
        parse_int-digits max (print_nat n) (print_nat-first n),
        parse_digits-print_nat max n (omega (arith, b, h)) h,
      )
      refl
parse_int-print_int max (negsuc n) b h k =
    rw
      (
        parse_int-negative max (print_nat (suc n)) (print_nat-first (suc n)),
        parse_digits-print_nat (suc max) (suc n) (omega (arith, b, k)) k,
      )
      refl
