-- ===== src/Map/Laws.antt =====
-- A map as a function: what `get` returns after each operation.
use gresse.Prelude.{
  Key, ite, if_pos, if_neg, ◌≡◌, refl, Option, none, some, Bool, true, false, [], ◌∷◌, arith,
}
use gresse.Set
use gresse.Map.Defs.{keys, Map, get, insert, remove, contains_key, upsert, map_values}

-- Whether an option holds a value.
abbrev pub is_some {ℓ} : {A : Type ℓ} → Option A → Bool
is_some none = false
is_some (some _) = true

-- `and_modify(f).or_insert(d)`, on what the entry held.
abbrev pub modify_or {ℓ} : {A : Type ℓ} → (A → A) → A → Option A → A
modify_or f d none = d
modify_or f d (some v) = f v

abbrev pub map_option {ℓ} : {A B : Type ℓ} → (A → B) → Option A → Option B
map_option f none = none
map_option f (some v) = some (f v)

module _ {ℓ} {K V : Type ℓ} ⦃key : Key K⦄ where
  pub get-insert :
      (j k : K) (v : V) (m : Map K V) → get j (insert k v m) ≡ ite (key.dec k j) (some v) (get j m)
  unfolding get insert
  get-insert j k v [] = refl
  get-insert j k v ((i, w) ∷ m) = ground (arith, get-insert j k v m)

  pub get-remove : (j k : K) (m : Map K V) → get j (remove k m) ≡ ite (key.dec k j) none (get j m)
  unfolding get remove
  get-remove j k [] = ground arith
  get-remove j k ((i, w) ∷ m) = ground (arith, get-remove j k m)

  pub get-upsert :
      (j k : K) (f : V → V) (d : V) (m : Map K V)
      → get j (upsert k f d m) ≡ ite (key.dec k j) (some (modify_or f d (get k m))) (get j m)
  unfolding upsert
  get-upsert j k f d m =
      elim (get k m)
        as (λ o.
          get j (elim o [ none ↦ insert k d m | some v ↦ insert k (f v) m ])
          ≡ ite (key.dec k j) (some (modify_or f d o)) (get j m)) [
            | none ↦ get-insert j k d m
            | some v ↦ get-insert j k (f v) m
          ]

  pub get-map_values :
      (k : K) (f : V → V) (m : Map K V) → get k (map_values f m) ≡ map_option f (get k m)
  unfolding get map_values
  get-map_values k f [] = refl
  get-map_values k f ((j, v) ∷ m) = ground (arith, get-map_values k f m)

  pub contains_key-eq : (k : K) (m : Map K V) → contains_key k m ≡ is_some (get k m)
  unfolding contains_key
  contains_key-eq k m = ground arith

  pub contains-keys : (k : K) (m : Map K V) → Set.contains k (keys m) ≡ is_some (get k m)
  unfolding Set.contains get
  contains-keys k [] = refl
  contains-keys k ((j, v) ∷ m) = elim (key.dec j k) [
    | yes p ↦ rw (if_pos (key.dec j k) p true, if_pos (key.dec j k) p (some v)) refl
    | no n ↦ rw (if_neg (key.dec j k) n true, if_neg (key.dec j k) n (some v)) (contains-keys k m)
  ]

  -- A second write of the same entry changes nothing.
  pub insert-insert : (k : K) (v w : V) (m : Map K V) → insert k v (insert k w m) ≡ insert k v m
  unfolding insert
  insert-insert k v w [] = ground arith
  insert-insert k v w ((j, u) ∷ m) = ground (arith, insert-insert k v w m)
