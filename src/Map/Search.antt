-- ===== src/Map/Search.antt =====
-- Whether some entry of a map passes a test.
use gresse.Prelude.{
  Key, ◌≡◌, refl, some, Bool, true, false, ◌||◌, [], ◌∷◌, arith, Bool-cases, inl, inr, if_pos,
}
use gresse.Map.Defs.{Map, get}
use gresse.Map.Distinct.{IsDistinct}

module _ {ℓ} {K V : Type ℓ} where
  unfoldable pub any : (K → V → Bool) → Map K V → Bool
  any test [] = false
  any test ((k, v) ∷ m) = test k v || any test m

module _ {K V : Type 0} ⦃key : Key K⦄ where
  -- An entry that passes the test, as a key of the map.
  pub entry_of_any :
      (test : K → V → Bool) (m : Map K V)
      → IsDistinct m
      → any test m ≡ true
      → (k : K) × (v : V) × (get k m ≡ some v) × (test k v ≡ true)
  unfolding any get
  entry_of_any test [] d h = cc
  entry_of_any test ((k, v) ∷ m) d h = elim (Bool-cases (test k v)) [
    | inl t ↦ (k, v, if_pos (key.dec k k) refl _ _, t)
    | inr f ↦
        let (j, w, found, t) = entry_of_any test m d.1 (ground arith) in
        (j, w, ground (arith, found, d.0), t)
  ]

  pub any_of_entry :
      (test : K → V → Bool) (m : Map K V) (k : K) (v : V)
      → get k m ≡ some v
      → test k v ≡ true
      → any test m ≡ true
  unfolding any get
  any_of_entry test [] k v g t = cc
  any_of_entry test ((j, w) ∷ m) k v g t = elim (key.dec j k) [
    | yes p ↦ ground arith
    | no n ↦ ground (arith, any_of_entry test m k v)
  ]
