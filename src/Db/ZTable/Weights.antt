-- ===== src/Db/ZTable/Weights.antt =====
-- The weights of a `ZTable` (src/db/ztable.rs).
use gresse.Prelude.{
  ℕ, zero, suc, ℤ, ◌≡◌, ◌≢◌, ◌<◌, ◌%◌, refl, true, false, if◌then◌else◌, ltb_ℤ, ap, sym, Option,
  none, some, List, [], ◌∷◌, ite, if_neg, if_pos, Key, length, Option-cases, inl, inr, ℕ_discrete,
  ℤ_discrete, succ_i64, pred_i64, arith,
}
use native.Mathlib.Nat.{mod-lt}
use gresse.Map
use gresse.Db.ZTable.{
  ZTable, Shard, Weight, nth, change_nth, shard_index, shard, shard_mut, insert, remove, get_weight,
  get, inserted, removed, weight_of, lowered_weight,
}

module _ {A : Type 0} where
  nth_same :
      (i : ℕ) (d : A) (f : A → A) (xs : List A)
      → i < length xs
      → nth i d (change_nth i f xs) ≡ f (nth i d xs)
  unfolding nth change_nth
  nth_same i d f [] h = absurd (omega arith)
  nth_same zero d f (x ∷ xs) h = refl
  nth_same (suc i) d f (x ∷ xs) h = nth_same i d f xs (omega arith)

  nth_other :
      (i j : ℕ) (d : A) (f : A → A) (xs : List A) → i ≢ j → nth j d (change_nth i f xs) ≡ nth j d xs
  unfolding nth change_nth
  nth_other i j d f [] h = refl
  nth_other zero zero d f (x ∷ xs) h = absurd (h refl)
  nth_other zero (suc j) d f (x ∷ xs) h = refl
  nth_other (suc i) zero d f (x ∷ xs) h = refl
  nth_other (suc i) (suc j) d f (x ∷ xs) h = nth_other i j d f xs (λ e. h (ap suc e))

  length-change_nth : (i : ℕ) (f : A → A) (xs : List A) → length (change_nth i f xs) ≡ length xs
  unfolding change_nth
  length-change_nth i f [] = refl
  length-change_nth zero f (x ∷ xs) = refl
  length-change_nth (suc i) f (x ∷ xs) = ap suc (length-change_nth i f xs)

module _ {K V : Type 0} ⦃key : Key K⦄ (hash : K → ℕ) (default : V) where
  -- A change of one key's entry in its shard is a change of that entry in the table.
  get-shard_mut :
      (j k : K) (f : Shard K V → Shard K V) (t : ZTable K V) (entry : Option (Weight × V))
      → shard_index hash default k t < length t.shards
      → ((i : K)
          → Map.get i (f (shard hash default k t))
            ≡ ite (key.dec k i) entry (Map.get i (shard hash default k t)))
      → Map.get j (shard hash default j (shard_mut hash default k f t))
        ≡ ite (key.dec k j) entry (Map.get j (shard hash default j t))
  unfolding shard shard_mut shard_index
  get-shard_mut j k f t entry h law =
      rw (length-change_nth (hash k % length t.shards) f t.shards)
        (elim (ℕ_discrete (hash k % length t.shards) (hash j % length t.shards)) [
          | yes p ↦ rw (sym p, nth_same (hash k % length t.shards) [] f t.shards h) (law j)
          | no n ↦
              rw (nth_other (hash k % length t.shards) (hash j % length t.shards) [] f t.shards n) (
                rw
                  (if_neg (key.dec k j) (λ e. n (ap (λ x. hash x % length t.shards) e)) entry
                    (Map.get j (nth (hash j % length t.shards) [] t.shards)))
                  refl)
        ])

  in_range :
      (k : K) (t : ZTable K V)
      → 0 < length t.shards
      → shard_index hash default k t < length t.shards
  unfolding shard_index
  in_range k t h = mod-lt (hash k) h

  abbrev raised : V → Option (Weight × V) → Weight × V
  raised v none = (ℤ.pos 1, v)
  raised v (some (w, _)) = (succ_i64 w, v)

  get-inserted :
      (i k : K) (v : V) (inner : Shard K V)
      → Map.get i (inserted hash default k v inner)
        ≡ ite (key.dec k i) (some (raised v (Map.get k inner))) (Map.get i inner)
  get-inserted i k v inner = elim (Option-cases (Map.get k inner)) [
    | inl e ↦ rw (inserted, e) (Map.get-insert i k (ℤ.pos 1, v) inner)
    | inr ((w, old), e) ↦ rw (inserted, e) (Map.get-insert i k (succ_i64 w, v) inner)
  ]

  abbrev dropped : Option (Weight × V) → Option (Weight × V)
  dropped none = some (ℤ.negsuc 0, default)
  dropped (some (w, v)) = ite (ℤ_discrete (pred_i64 w) (ℤ.pos 0)) none (some (pred_i64 w, v))

  get-removed :
      (i k : K) (inner : Shard K V)
      → Map.get i (removed hash default k inner)
        ≡ ite (key.dec k i) (dropped (Map.get k inner)) (Map.get i inner)
  unfolding ℤ_discrete
  get-removed i k inner = elim (Option-cases (Map.get k inner)) [
    | inl e ↦ ground (arith, Map.get-insert i k (ℤ.negsuc 0, default) inner)
    | inr ((w, v), e) ↦ ground (
      arith,
      Map.get-insert i k (pred_i64 w, v) inner,
      Map.get-remove i k (Map.insert k (pred_i64 w, v) inner),
    )
  ]

  -- What an entry that was raised or lowered says of its weight.
  raised_weight :
      (v : V) (o : Option (Weight × V))
      → ((raised v o).0 ≡ succ_i64 (weight_of hash default o)) × ((raised v o).1 ≡ v)
  unfolding succ_i64
  raised_weight v none = (refl, refl)
  raised_weight v (some x) = (refl, refl)

  inserted_weight :
      (o : Option (Weight × V))
      → (elim o [ some (w, _) ↦ succ_i64 w | none ↦ ℤ.pos 1 ]) ≡ succ_i64 (weight_of hash default o)
  unfolding succ_i64
  inserted_weight none = refl
  inserted_weight (some x) = refl

  removed_weight :
      (o : Option (Weight × V))
      → lowered_weight hash default o ≡ pred_i64 (weight_of hash default o)
  unfolding pred_i64
  removed_weight none = refl
  removed_weight (some x) = refl

  dropped_weight :
      (o : Option (Weight × V))
      → (weight_of hash default (dropped o) ≡ pred_i64 (weight_of hash default o))
        × (Map.is_some (dropped o)
            ≡ ite (ℤ_discrete (pred_i64 (weight_of hash default o)) (ℤ.pos 0)) false true)
  unfolding pred_i64 ℤ_discrete
  dropped_weight none = (refl, refl)
  dropped_weight (some (w, v)) = elim (ℤ_discrete (pred_i64 w) (ℤ.pos 0)) [
    | yes e ↦
        rw
          (
            if_pos (ℤ_discrete (pred_i64 w) (ℤ.pos 0)) e,
            if_pos (ℤ_discrete (pred_i64 w) (ℤ.pos 0)) e,
          )
          (sym e, refl)
    | no n ↦
        rw
          (
            if_neg (ℤ_discrete (pred_i64 w) (ℤ.pos 0)) n,
            if_neg (ℤ_discrete (pred_i64 w) (ℤ.pos 0)) n,
          )
          (refl, refl)
  ]

  -- With at least one shard, an insertion raises the weight of its key by one, wrapping around at
  -- 64 bits, and returns it, leaves every other weight and value, and stores its value: it is what
  -- a lookup of the key gives if the new weight is positive.
  pub get_weight-insert :
      (j k : K) (v : V) (t : ZTable K V)
      → 0 < length t.shards
      → ((insert hash default k v t).1 ≡ succ_i64 (get_weight hash default k t))
        × (get_weight hash default j ((insert hash default k v t).0)
            ≡ ite
                (key.dec k j)
                (succ_i64 (get_weight hash default k t))
                (get_weight hash default j t))
        × (get hash default j ((insert hash default k v t).0)
            ≡ ite
                (key.dec k j)
                (if ltb_ℤ (succ_i64 (get_weight hash default k t)) (ℤ.pos 1) then none else some v)
                (get hash default j t))
  unfolding get_weight insert get
  get_weight-insert j k v t h =
      let entry =
        get-shard_mut j k (inserted hash default k v) t
          (some (raised v (Map.get k (shard hash default k t)))) (in_range k t h)
          (λ i. get-inserted i k v (shard hash default k t)) in
      let raise = raised_weight v (Map.get k (shard hash default k t)) in
      (
        inserted_weight (Map.get k (shard hash default k t)),
        rw entry (elim (key.dec k j) [
          | yes e ↦ rw (if_pos (key.dec k j) e, if_pos (key.dec k j) e) (raise.0)
          | no n ↦ rw (if_neg (key.dec k j) n, if_neg (key.dec k j) n) refl
        ]),
        rw entry (elim (key.dec k j) [
          | yes e ↦ rw (if_pos (key.dec k j) e, if_pos (key.dec k j) e, raise.0, raise.1) refl
          | no n ↦ rw (if_neg (key.dec k j) n, if_neg (key.dec k j) n) refl
        ]),
      )

  -- With at least one shard, a removal lowers the weight of its key by one, wrapping around at 64
  -- bits, and returns it, leaves every other weight, and keeps an entry of the key exactly if that
  -- weight is not zero.
  pub get_weight-remove :
      (j k : K) (t : ZTable K V)
      → 0 < length t.shards
      → ((remove hash default k t).1 ≡ pred_i64 (get_weight hash default k t))
        × (get_weight hash default j ((remove hash default k t).0)
            ≡ ite
                (key.dec k j)
                (pred_i64 (get_weight hash default k t))
                (get_weight hash default j t))
        × (Map.is_some (Map.get k (shard hash default k ((remove hash default k t).0)))
            ≡ ite (ℤ_discrete (pred_i64 (get_weight hash default k t)) (ℤ.pos 0)) false true)
  unfolding get_weight remove
  get_weight-remove j k t h =
      let entry =
        get-shard_mut j k (removed hash default k) t (dropped (Map.get k (shard hash default k t)))
          (in_range k t h) (λ i. get-removed i k (shard hash default k t)) in
      let own =
        get-shard_mut k k (removed hash default k) t (dropped (Map.get k (shard hash default k t)))
          (in_range k t h) (λ i. get-removed i k (shard hash default k t)) in
      let lower = dropped_weight (Map.get k (shard hash default k t)) in
      (
        removed_weight (Map.get k (shard hash default k t)),
        rw entry (elim (key.dec k j) [
          | yes e ↦ rw (if_pos (key.dec k j) e, if_pos (key.dec k j) e) (lower.0)
          | no n ↦ rw (if_neg (key.dec k j) n, if_neg (key.dec k j) n) refl
        ]),
        rw (own, if_pos (key.dec k k) refl) (lower.1),
      )
