-- ===== src/Db/Index.antt =====
-- Indexes of the views of src/db: a map of sets without empty sets, on hashes or in order.
use gresse.Prelude.{
  ◌≡◌, refl, ap, Bool, true, false, Option, none, some, List, [], ◌∷◌, ite, if_pos, if_neg,
  if◌then◌else◌, Key, Option-cases, inl, inr, arith,
}
use gresse.Map
use gresse.Map.{Map}
use gresse.Set

-- Equality of pairs.
pair_discrete {ℓ} : {A B : Type ℓ} (a : Key A) (b : Key B) → Discrete (A × B)
pair_discrete a b (x, y) (u, v) = elim (a.dec x u) [
  | no n ↦ no (λ e. n (ap (λ p. p.0) e))
  | yes p ↦ elim (b.dec y v) [
    | no n ↦ no (λ e. n (ap (λ p. p.1) e))
    | yes q ↦ yes (λ i. (p i, q i))
  ]
]

instance abbrev pub pair_key {ℓ} : {A B : Type ℓ} ⦃a : Key A⦄ ⦃b : Key B⦄ → Key (A × B)
unfolding pair_discrete
pair_key ⦃a⦄ ⦃b⦄ = record { dec = pair_discrete a b }

-- A test on pairs is one on both halves.
pub ite_pair :
    {A B C : Type 0} ⦃a : Key A⦄ ⦃b : Key B⦄ (x u : A) (y v : B) (c d : C)
    → ite (pair_key.dec (x, y) (u, v)) c d ≡ ite (a.dec x u) (ite (b.dec y v) c d) d
unfolding pair_key pair_discrete
ite_pair ⦃a⦄ ⦃b⦄ x u y v c d = elim (pair_discrete a b (x, y) (u, v)) [
  | yes p ↦
      rw
        (
          if_pos (pair_discrete a b (x, y) (u, v)) p c d,
          if_pos (a.dec x u) (ap (λ q. q.0) p) (ite (b.dec y v) c d) d,
          if_pos (b.dec y v) (ap (λ q. q.1) p) c d,
        )
        refl
  | no n ↦ rw (if_neg (pair_discrete a b (x, y) (u, v)) n c d) (elim (a.dec x u) [
    | no m ↦ rw (if_neg (a.dec x u) m (ite (b.dec y v) c d) d) refl
    | yes p ↦
        rw
          (
            if_pos (a.dec x u) p (ite (b.dec y v) c d) d,
            if_neg (b.dec y v) (λ q. n (λ i. (p i, q i))) c d,
          )
          refl
  ])
]

abbrev pub is_nil {ℓ} : {A : Type ℓ} → List A → Bool
is_nil [] = true
is_nil (_ ∷ _) = false

abbrev pub or_nil {ℓ} : {A : Type ℓ} → Option (List A) → List A
or_nil none = []
or_nil (some xs) = xs

-- `BTreeSet::insert` and `BTreeMap::insert`, in the order that is given.
module _ {K : Type 0} ⦃key : Key K⦄ (le : K → K → Bool) where
  unfoldable pub insert_sorted : K → List K → List K
  insert_sorted k [] = k ∷ []
  insert_sorted k (j ∷ s) =
      let rest = insert_sorted k s in
      ite (key.dec j k) (j ∷ s) (if le k j then k ∷ j ∷ s else j ∷ rest)

  unfoldable pub insert_entry : {V : Type 0} → K → V → Map K V → Map K V
  insert_entry k v [] = (k, v) ∷ []
  insert_entry k v ((j, w) ∷ m) =
      let rest = insert_entry k v m in
      ite (key.dec j k) ((k, v) ∷ m) (if le k j then (k, v) ∷ (j, w) ∷ m else (j, w) ∷ rest)

abbrev unless_nil : {X : Type 0} → List X → Option (List X)
unless_nil [] = none
unless_nil (x ∷ xs) = some (x ∷ xs)

or_nil-unless_nil : {X : Type 0} (xs : List X) → or_nil (unless_nil xs) ≡ xs
or_nil-unless_nil [] = refl
or_nil-unless_nil (x ∷ xs) = refl

module _ {K X : Type 0} ⦃key : Key K⦄ ⦃item : Key X⦄ where
  -- `get_mut(k)`, `remove(x)`, and the removal of a set that has become empty.
  unfoldable pub discard : K → X → Map K (List X) → Map K (List X)
  discard k x index = elim (Map.get k index) [
    | none ↦ index
    | some xs ↦
        let kept = Set.remove x xs in
        if is_nil kept then Map.remove k index else Map.insert k kept index
  ]

  -- `entry(k).or_default().insert(x)`.
  unfoldable pub add : (X → List X → List X) → K → X → Map K (List X) → Map K (List X)
  add ins k x index = Map.upsert k (ins x) (ins x []) index

  -- Whether `x` stands under `k`.
  abbrev pub holds : K → X → Map K (List X) → Bool
  holds k x index = Set.contains x (or_nil (Map.get k index))

  get-kept :
      (j k : K) (kept : List X) (index : Map K (List X))
      → Map.get j (if is_nil kept then Map.remove k index else Map.insert k kept index)
        ≡ ite (key.dec k j) (unless_nil kept) (Map.get j index)
  get-kept j k [] index = Map.get-remove j k index
  get-kept j k (x ∷ xs) index = Map.get-insert j k (x ∷ xs) index

  get-discard :
      (j k : K) (x : X) (index : Map K (List X))
      → or_nil (Map.get j (discard k x index))
        ≡ ite (key.dec k j) (Set.remove x (or_nil (Map.get k index))) (or_nil (Map.get j index))
  unfolding discard Set.remove
  get-discard j k x index = elim (Option-cases (Map.get k index)) [
    | inl e ↦ ground arith
    | inr (xs, e) ↦
        ground (arith, get-kept j k (Set.remove x xs) index, or_nil-unless_nil (Set.remove x xs))
  ]

  pub holds-discard :
      (j k : K) (y x : X) (index : Map K (List X))
      → holds j y (discard k x index)
        ≡ ite (key.dec k j) (ite (item.dec x y) false (holds k y index)) (holds j y index)
  holds-discard j k y x index =
      ground (arith, get-discard j k x index, Set.contains-remove y x (or_nil (Map.get k index)))

  -- The set that is inserted into gains one element.
  pub holds-add :
      (ins : X → List X → List X)
      → ((y x : X) (s : List X)
          → Set.contains y (ins x s) ≡ ite (item.dec x y) true (Set.contains y s))
      → (j k : K) (y x : X) (index : Map K (List X))
      → holds j y (add ins k x index)
        ≡ ite (key.dec k j) (ite (item.dec x y) true (holds k y index)) (holds j y index)
  unfolding add
  holds-add ins law j k y x index = elim (Option-cases (Map.get k index)) [
    | inl e ↦ ground (arith, Map.get-upsert j k (ins x) (ins x []) index, law y x [])
    | inr (xs, e) ↦ ground (arith, Map.get-upsert j k (ins x) (ins x []) index, law y x xs)
  ]

module _ {K : Type 0} ⦃key : Key K⦄ (le : K → K → Bool) where
  pub contains-insert_sorted :
      (j k : K) (s : List K)
      → Set.contains j (insert_sorted le k s) ≡ ite (key.dec k j) true (Set.contains j s)
  unfolding insert_sorted Set.contains
  contains-insert_sorted j k [] = refl
  contains-insert_sorted j k (i ∷ s) = ground (arith, contains-insert_sorted j k s)

  pub get-insert_entry :
      {V : Type 0} (j k : K) (v : V) (m : Map K V)
      → Map.get j (insert_entry le k v m) ≡ ite (key.dec k j) (some v) (Map.get j m)
  unfolding insert_entry Map.get
  get-insert_entry j k v [] = refl
  get-insert_entry j k v ((i, w) ∷ m) = ground (arith, get-insert_entry j k v m)
