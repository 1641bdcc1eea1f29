-- ===== src/Map/Distinct.antt =====
-- A map holds a key once: what every `HashMap` satisfies, and every operation keeps.
use gresse.Prelude.{Key, ◌≡◌, ◌≢◌, refl, Option, none, some, Bool, [], ◌∷◌, if◌then◌else◌, arith}
use gresse.Map.Defs.{Map, get, insert, remove, filter, map_values, upsert}

-- The value, if it passes the test.
abbrev pub keep_if {ℓ} : {V : Type ℓ} → (V → Bool) → Option V → Option V
keep_if test none = none
keep_if test (some v) = if test v then some v else none

module _ {ℓ} {K V : Type ℓ} ⦃key : Key K⦄ where
  -- No key stands twice.
  abbrev pub IsDistinct : Map K V → Type ℓ
  IsDistinct [] = Unit
  IsDistinct ((k, v) ∷ m) = (get k m ≡ none) × IsDistinct m

  pub get-filter-none :
      (k : K) (test : K → V → Bool) (m : Map K V) → get k m ≡ none → get k (filter test m) ≡ none
  unfolding get filter
  get-filter-none k test [] h = refl
  get-filter-none k test ((j, v) ∷ m) h = ground (arith, get-filter-none k test m)

  pub filter-IsDistinct :
      (test : K → V → Bool) (m : Map K V) → IsDistinct m → IsDistinct (filter test m)
  unfolding filter
  filter-IsDistinct test [] h = tt
  filter-IsDistinct test ((j, v) ∷ m) h =
      ground (arith, filter-IsDistinct test m, get-filter-none j test m)

  get-insert_absent :
      (j k : K) (v : V) (m : Map K V) → get j m ≡ none → j ≢ k → get j (insert k v m) ≡ none
  unfolding get insert
  get-insert_absent j k v [] h n = ground arith
  get-insert_absent j k v ((i, w) ∷ m) h n = ground (arith, get-insert_absent j k v m)

  pub insert-IsDistinct : (k : K) (v : V) (m : Map K V) → IsDistinct m → IsDistinct (insert k v m)
  unfolding get insert
  insert-IsDistinct k v [] h = (refl, tt)
  insert-IsDistinct k v ((j, w) ∷ m) h =
      ground (arith, insert-IsDistinct k v m, get-insert_absent j k v m)

  get-remove_absent : (j k : K) (m : Map K V) → get j m ≡ none → get j (remove k m) ≡ none
  unfolding get remove
  get-remove_absent j k [] h = refl
  get-remove_absent j k ((i, w) ∷ m) h = ground (arith, get-remove_absent j k m)

  pub remove-IsDistinct : (k : K) (m : Map K V) → IsDistinct m → IsDistinct (remove k m)
  unfolding remove
  remove-IsDistinct k [] h = tt
  remove-IsDistinct k ((j, w) ∷ m) h =
      ground (arith, remove-IsDistinct k m, get-remove_absent j k m)

  pub upsert-IsDistinct :
      (k : K) (f : V → V) (d : V) (m : Map K V) → IsDistinct m → IsDistinct (upsert k f d m)
  unfolding upsert
  upsert-IsDistinct k f d m h =
      elim (get k m)
        as (λ o. IsDistinct (elim o [ none ↦ insert k d m | some v ↦ insert k (f v) m ])) [
          | none ↦ insert-IsDistinct k d m h
          | some v ↦ insert-IsDistinct k (f v) m h
        ]

  -- What `filter` leaves of a key, in a map that holds it once.
  pub get-filter :
      (k : K) (test : K → V → Bool) (m : Map K V)
      → IsDistinct m
      → get k (filter test m) ≡ keep_if (test k) (get k m)
  unfolding get filter
  get-filter k test [] h = refl
  get-filter k test ((j, v) ∷ m) h = elim (key.dec j k) [
    | yes p ↦ ground (arith, get-filter-none k test m)
    | no n ↦ ground (arith, get-filter k test m)
  ]

  map_values-none :
      (k : K) (f : V → V) (m : Map K V) → get k m ≡ none → get k (map_values f m) ≡ none
  unfolding get map_values
  map_values-none k f [] h = refl
  map_values-none k f ((j, v) ∷ m) h = ground (arith, map_values-none k f m)

  pub map_values-IsDistinct : (f : V → V) (m : Map K V) → IsDistinct m → IsDistinct (map_values f m)
  unfolding map_values
  map_values-IsDistinct f [] h = tt
  map_values-IsDistinct f ((j, v) ∷ m) h =
      (map_values-none j f m h.0, map_values-IsDistinct f m h.1)
