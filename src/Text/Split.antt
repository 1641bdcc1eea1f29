-- ===== src/Text/Split.antt =====
-- Texts that are cut at a separator.
use gresse.Prelude.{◌≡◌, refl, ap, false, true, [], ◌∷◌, ◌++◌, ℕ, nat_key, arith}
use gresse.Set
use gresse.Text.{Text, split_on, after_last}

-- The character does not stand in the text.
abbrev pub IsFree : ℕ → Text → Type 0
IsFree c text = Set.contains c text ≡ false

pub IsFree-nil : (c : ℕ) → IsFree c []
unfolding Set.contains
IsFree-nil c = refl

pub IsFree-append : (c : ℕ) (s t : Text) → IsFree c s → IsFree c t → IsFree c (s ++ t)
IsFree-append c s t h k = ground (arith, Set.contains-append c s t)

pub split_on-free : (c : ℕ) (s : Text) → IsFree c s → split_on c s ≡ s ∷ []
unfolding split_on Set.contains
split_on-free c [] h = refl
split_on-free c (x ∷ s) h = ground (arith, split_on-free c s)

pub split_on-append : (c : ℕ) (s t : Text) → IsFree c s → split_on c (s ++ c ∷ t) ≡ s ∷ split_on c t
unfolding split_on Set.contains
split_on-append c [] t h = ground arith
split_on-append c (x ∷ s) t h = ground (arith, split_on-append c s t)

pub after_last-free : (c : ℕ) (s : Text) → IsFree c s → after_last c s ≡ s
unfolding after_last
after_last-free c [] h = refl
after_last-free c (x ∷ s) h = ground arith

contains-middle : (c : ℕ) (s t : Text) → Set.contains c (s ++ c ∷ t) ≡ true
unfolding Set.contains
contains-middle c [] t = ground arith
contains-middle c (x ∷ s) t = ground (arith, contains-middle c s t)

pub after_last-append : (c : ℕ) (s t : Text) → IsFree c t → after_last c (s ++ c ∷ t) ≡ t
unfolding after_last
after_last-append c [] t h = ground (arith, after_last-free c t h, contains-middle c [] t)
after_last-append c (x ∷ s) t h =
    ground (arith, after_last-append c s t h, contains-middle c (x ∷ s) t)

pub append_nil : (s : Text) → s ++ [] ≡ s
append_nil [] = refl
append_nil (c ∷ s) = ap (λ t. c ∷ t) (append_nil s)
