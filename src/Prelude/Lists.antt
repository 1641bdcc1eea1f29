-- ===== src/Prelude/Lists.antt =====
-- Lists measured by native numbers, and predicates over them.
use Prim.Native.Nat.{ℕ, zero, suc, ◌+◌}
use mathlib.Core.Path.{◌≡◌, refl}
use mathlib.Core.Bool.{Bool, ◌&&◌}
use mathlib.Core.Option.{Option, none, some}
use gresse.Prelude.Tests.{if◌then◌else◌}
use mathlib.Core.List.{List, [], ◌∷◌, ◌++◌}
use native.Mathlib.Omega.{arith}

module _ {ℓ} {A : Type ℓ} where
  abbrev pub length : List A → ℕ
  length [] = 0
  length (x ∷ xs) = suc (length xs)

  abbrev pub take : ℕ → List A → List A
  take zero xs = []
  take (suc n) [] = []
  take (suc n) (x ∷ xs) = x ∷ take n xs

  abbrev pub drop : ℕ → List A → List A
  drop zero xs = xs
  drop (suc n) [] = []
  drop (suc n) (x ∷ xs) = drop n xs

  abbrev pub All {κ} : (A → Type κ) → List A → Type κ
  All P [] = Unit
  All P (x ∷ xs) = P x × All P xs

  pub All-append {κ} : (P : A → Type κ) (xs ys : List A) → All P xs → All P ys → All P (xs ++ ys)
  All-append P [] ys hx hy = hy
  All-append P (x ∷ xs) ys hx hy = (hx.0, All-append P xs ys hx.1 hy)

  pub length-append : (xs ys : List A) → length (xs ++ ys) ≡ length xs + length ys
  length-append [] ys = omega arith
  length-append (x ∷ xs) ys = omega (arith, length-append xs ys)

module _ {ℓ} {A : Type ℓ} where
  abbrev pub get_elem? : List A → ℕ → Option A
  get_elem? [] i = none
  get_elem? (x ∷ xs) zero = some x
  get_elem? (x ∷ xs) (suc i) = get_elem? xs i

  -- `Vec::retain`, and `filter` of an iterator.
  unfoldable pub filter : (A → Bool) → List A → List A
  filter test [] = []
  filter test (x ∷ xs) = let rest = filter test xs in if test x then x ∷ rest else rest

  pub filter-append :
      (test : A → Bool) (xs ys : List A) → filter test (xs ++ ys) ≡ filter test xs ++ filter test ys
  unfolding filter
  filter-append test [] ys = refl
  filter-append test (x ∷ xs) ys = ground (arith, filter-append test xs ys)

  pub filter-filter :
      (s t : A → Bool) (xs : List A) → filter s (filter t xs) ≡ filter (λ x. t x && s x) xs
  unfolding filter
  filter-filter s t [] = refl
  filter-filter s t (x ∷ xs) = ground (arith, filter-filter s t xs)

  pub All-filter {κ} :
      (P : A → Type κ) (test : A → Bool) (xs : List A) → All P xs → All P (filter test xs)
  unfolding filter
  All-filter P test [] h = tt
  All-filter P test (x ∷ xs) h = ground (arith, All-filter P test xs h.1)

  -- Two tests that agree on the members leave the same list.
  pub filter_congr :
      (s t : A → Bool) (xs : List A) → All (λ x. s x ≡ t x) xs → filter s xs ≡ filter t xs
  unfolding filter
  filter_congr s t [] h = refl
  filter_congr s t (x ∷ xs) h = ground (arith, filter_congr s t xs h.1, h.0)
