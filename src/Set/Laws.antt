-- ===== src/Set/Laws.antt =====
-- A set as a test: what `contains` returns after each operation, and that no element stands twice.
use gresse.Prelude.{
  Key, ite, if_pos, if_neg, ◌≡◌, refl, true, false, ◌||◌, List, [], ◌∷◌, ◌++◌, arith, insert_by,
  sort_by, Bool, Bool-cases, inl, inr,
}
use gresse.Set.Defs.{contains, insert, remove, from_list}

module _ {ℓ} {K : Type ℓ} ⦃key : Key K⦄ where
  pub contains-append : (j : K) (s t : List K) → contains j (s ++ t) ≡ contains j s || contains j t
  unfolding contains
  contains-append j [] t = refl
  contains-append j (i ∷ s) t = ground (arith, contains-append j s t)

  contains-snoc :
      (j k : K) (s : List K) → contains j (s ++ k ∷ []) ≡ ite (key.dec k j) true (contains j s)
  unfolding contains
  contains-snoc j k [] = refl
  contains-snoc j k (i ∷ s) = ground (arith, contains-snoc j k s)

  pub contains-insert :
      (j k : K) (s : List K) → contains j (insert k s) ≡ ite (key.dec k j) true (contains j s)
  unfolding insert
  contains-insert j k s = ground (arith, contains-snoc j k s)

  pub contains-remove :
      (j k : K) (s : List K) → contains j (remove k s) ≡ ite (key.dec k j) false (contains j s)
  unfolding contains remove
  contains-remove j k [] = ground arith
  contains-remove j k (i ∷ s) = elim (key.dec i k) [
    | yes p ↦ rw (if_pos _ p) (ground (arith, contains-remove j k s))
    | no n ↦ rw (if_neg _ n) (ground (arith, contains-remove j k s))
  ]

  pub contains-from_list : (j : K) (xs : List K) → contains j (from_list xs) ≡ contains j xs
  unfolding from_list contains
  contains-from_list j [] = refl
  contains-from_list j (x ∷ xs) =
      ground (arith, contains-insert j x (from_list xs), contains-from_list j xs)

  -- No element stands twice.
  abbrev pub IsDistinct : List K → Type 0
  IsDistinct [] = Unit
  IsDistinct (x ∷ xs) = (contains x xs ≡ false) × IsDistinct xs

  snoc-IsDistinct :
      (k : K) (s : List K) → contains k s ≡ false → IsDistinct s → IsDistinct (s ++ k ∷ [])
  unfolding contains
  snoc-IsDistinct k [] h d = (refl, tt)
  snoc-IsDistinct k (i ∷ s) h d = ground (arith, snoc-IsDistinct k s, contains-snoc i k s)

  pub insert-IsDistinct : (k : K) (s : List K) → IsDistinct s → IsDistinct (insert k s)
  unfolding insert
  insert-IsDistinct k s d = ground (arith, snoc-IsDistinct k s)

  pub remove-IsDistinct : (k : K) (s : List K) → IsDistinct s → IsDistinct (remove k s)
  unfolding remove
  remove-IsDistinct k [] d = tt
  remove-IsDistinct k (i ∷ s) d = elim (key.dec i k) [
    | yes p ↦ rw (if_pos _ p) (remove-IsDistinct k s d.1)
    | no n ↦ rw (if_neg _ n) (ground (arith, remove-IsDistinct k s, contains-remove i k s))
  ]

  contains-insert_by :
      (le : K → K → Bool) (j x : K) (xs : List K)
      → contains j (insert_by le x xs) ≡ ite (key.dec x j) true (contains j xs)
  unfolding insert_by contains
  contains-insert_by le j x [] = refl
  contains-insert_by le j x (y ∷ ys) = elim (Bool-cases (le x y)) [
    | inl t ↦ rw t refl
    | inr f ↦ rw (f, contains-insert_by le j x ys) (ground arith)
  ]

  pub contains-sort_by :
      (le : K → K → Bool) (j : K) (xs : List K) → contains j (sort_by le xs) ≡ contains j xs
  unfolding sort_by contains
  contains-sort_by le j [] = refl
  contains-sort_by le j (x ∷ xs) =
      rw (contains-insert_by le j x (sort_by le xs), contains-sort_by le j xs) refl
