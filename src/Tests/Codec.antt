-- ===== src/Tests/Codec.antt =====
-- Codecs for lists of numbers, of which a serializer is made.
use gresse.Prelude.{
  ℕ, zero, suc, ◌+◌, ◌-◌, ◌≡◌, refl, Option, none, some, List, [], ◌∷◌, ◌++◌, ◌⊎◌, inl, inr, ite,
  length, ℕ_discrete, nat_key, arith,
}
use gresse.Set

-- What is written is read back, without a line feed among it.
pub record Codec (A : Type 0) : Type 0 where
  pub write : A → List ℕ → List ℕ
  pub read : List ℕ → Option (A × List ℕ)
  pub law : (a : A) (rest : List ℕ) → read (write a rest) ≡ some (a, rest)
  pub clean : (a : A) (rest : List ℕ) → Set.contains 10 (write a rest) ≡ Set.contains 10 rest
  pub append : (a : A) (rest more : List ℕ) → write a rest ++ more ≡ write a (rest ++ more)

abbrev read_nat : List ℕ → Option (ℕ × List ℕ)
read_nat [] = none
read_nat (b ∷ rest) = some (b - 33, rest)

nat_law : (n : ℕ) (rest : List ℕ) → read_nat ((n + 33) ∷ rest) ≡ some (n, rest)
nat_law n rest = let same : (n + 33) - 33 ≡ n = omega arith in rw same refl

nat_clean : (n : ℕ) (rest : List ℕ) → Set.contains 10 ((n + 33) ∷ rest) ≡ Set.contains 10 rest
unfolding Set.contains
nat_clean n rest = ground arith

pub nat_codec : Codec ℕ
nat_codec = record {
  write = λ n rest. (n + 33) ∷ rest;
  read = read_nat;
  law = nat_law;
  clean = nat_clean;
  append = λ n rest more. refl;
}

module _ {A B : Type 0} (a : Codec A) (b : Codec B) where
  abbrev with_first : A → Option (B × List ℕ) → Option ((A × B) × List ℕ)
  with_first x none = none
  with_first x (some (y, rest)) = some ((x, y), rest)

  abbrev read_second : Option (A × List ℕ) → Option ((A × B) × List ℕ)
  read_second none = none
  read_second (some (x, rest)) = with_first x (b.read rest)

  abbrev write_pair : A × B → List ℕ → List ℕ
  write_pair (x, y) rest = a.write x (b.write y rest)

  pair_law : (p : A × B) (rest : List ℕ) → read_second (a.read (write_pair p rest)) ≡ some (p, rest)
  pair_law (x, y) rest = rw (a.law x (b.write y rest), b.law y rest) refl

  pair_clean :
      (p : A × B) (rest : List ℕ) → Set.contains 10 (write_pair p rest) ≡ Set.contains 10 rest
  pair_clean (x, y) rest = rw (a.clean x (b.write y rest)) (b.clean y rest)

  pair_append :
      (p : A × B) (rest more : List ℕ) → write_pair p rest ++ more ≡ write_pair p (rest ++ more)
  pair_append (x, y) rest more = rw (a.append x (b.write y rest) more, b.append y rest more) refl

  pub pair_codec : Codec (A × B)
  pair_codec = record {
    write = write_pair;
    read = λ bytes. read_second (a.read bytes);
    law = pair_law;
    clean = pair_clean;
    append = pair_append;
  }

  abbrev as_left : Option (A × List ℕ) → Option ((A ⊎ B) × List ℕ)
  as_left none = none
  as_left (some (x, rest)) = some (inl x, rest)

  abbrev as_right : Option (B × List ℕ) → Option ((A ⊎ B) × List ℕ)
  as_right none = none
  as_right (some (y, rest)) = some (inr y, rest)

  abbrev write_sum : A ⊎ B → List ℕ → List ℕ
  write_sum (inl x) rest = 33 ∷ a.write x rest
  write_sum (inr y) rest = 34 ∷ b.write y rest

  abbrev read_sum : List ℕ → Option ((A ⊎ B) × List ℕ)
  read_sum [] = none
  read_sum (tag ∷ rest) = ite (ℕ_discrete tag 33) (as_left (a.read rest)) (as_right (b.read rest))

  sum_law : (s : A ⊎ B) (rest : List ℕ) → read_sum (write_sum s rest) ≡ some (s, rest)
  unfolding ℕ_discrete
  sum_law (inl x) rest = rw (a.law x rest) refl
  sum_law (inr y) rest = rw (b.law y rest) refl

  sum_clean :
      (s : A ⊎ B) (rest : List ℕ) → Set.contains 10 (write_sum s rest) ≡ Set.contains 10 rest
  unfolding ℕ_discrete Set.contains
  sum_clean (inl x) rest = a.clean x rest
  sum_clean (inr y) rest = b.clean y rest

  sum_append :
      (s : A ⊎ B) (rest more : List ℕ) → write_sum s rest ++ more ≡ write_sum s (rest ++ more)
  sum_append (inl x) rest more = rw (a.append x rest more) refl
  sum_append (inr y) rest more = rw (b.append y rest more) refl

  pub sum_codec : Codec (A ⊎ B)
  sum_codec = record {
    write = write_sum;
    read = read_sum;
    law = sum_law;
    clean = sum_clean;
    append = sum_append;
  }

minus : (n : ℕ) → (n + 33) - 33 ≡ n
minus n = omega arith

-- A codec along a map with a section.
module _ {A B : Type 0} (a : Codec A) (f : A → B) (g : B → A) (back : (y : B) → f (g y) ≡ y) where
  abbrev made_by : Option (A × List ℕ) → Option (B × List ℕ)
  made_by none = none
  made_by (some (x, rest)) = some (f x, rest)

  iso_law : (y : B) (rest : List ℕ) → made_by (a.read (a.write (g y) rest)) ≡ some (y, rest)
  iso_law y rest = rw (a.law (g y) rest, back y) refl

  pub iso_codec : Codec B
  iso_codec = record {
    write = λ y rest. a.write (g y) rest;
    read = λ bytes. made_by (a.read bytes);
    law = iso_law;
    clean = λ y rest. a.clean (g y) rest;
    append = λ y rest more. a.append (g y) rest more;
  }

module _ {A : Type 0} (a : Codec A) where
  abbrev write_all : List A → List ℕ → List ℕ
  write_all [] rest = rest
  write_all (x ∷ xs) rest = a.write x (write_all xs rest)

  abbrev push_read : A → Option (List A × List ℕ) → Option (List A × List ℕ)
  push_read x none = none
  push_read x (some (xs, rest)) = some (x ∷ xs, rest)

  abbrev read_then :
      (List ℕ → Option (List A × List ℕ)) → Option (A × List ℕ) → Option (List A × List ℕ)
  read_then others none = none
  read_then others (some (x, rest)) = push_read x (others rest)

  abbrev read_all : ℕ → List ℕ → Option (List A × List ℕ)
  read_all zero bytes = some ([], bytes)
  read_all (suc n) bytes = read_then (read_all n) (a.read bytes)

  all_law :
      (xs : List A) (rest : List ℕ) → read_all (length xs) (write_all xs rest) ≡ some (xs, rest)
  all_law [] rest = refl
  all_law (x ∷ xs) rest = rw (a.law x (write_all xs rest), all_law xs rest) refl

  all_clean :
      (xs : List A) (rest : List ℕ) → Set.contains 10 (write_all xs rest) ≡ Set.contains 10 rest
  all_clean [] rest = refl
  all_clean (x ∷ xs) rest = rw (a.clean x (write_all xs rest)) (all_clean xs rest)

  all_append :
      (xs : List A) (rest more : List ℕ) → write_all xs rest ++ more ≡ write_all xs (rest ++ more)
  all_append [] rest more = refl
  all_append (x ∷ xs) rest more =
      rw (a.append x (write_all xs rest) more, all_append xs rest more) refl

  abbrev read_list : List ℕ → Option (List A × List ℕ)
  read_list [] = none
  read_list (n ∷ rest) = read_all (n - 33) rest

  list_law :
      (xs : List A) (rest : List ℕ)
      → read_list ((length xs + 33) ∷ write_all xs rest) ≡ some (xs, rest)
  list_law xs rest = rw (minus (length xs)) (all_law xs rest)

  list_clean :
      (xs : List A) (rest : List ℕ)
      → Set.contains 10 ((length xs + 33) ∷ write_all xs rest) ≡ Set.contains 10 rest
  list_clean xs rest = rw (nat_clean (length xs) (write_all xs rest)) (all_clean xs rest)

  pub list_codec : Codec (List A)
  list_codec = record {
    write = λ xs rest. (length xs + 33) ∷ write_all xs rest;
    read = read_list;
    law = list_law;
    clean = list_clean;
    append = λ xs rest more. rw (all_append xs rest more) refl;
  }
