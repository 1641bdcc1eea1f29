-- ===== src/ObjectStorage/Laws.antt =====
-- What the source relies on in the object store, and what a successful method has called.
use gresse.Prelude.{◌≡◌, refl, ◌⊎◌, Bool, true, Option, none, some, List, [], ◌∷◌, arith, ap}
use mathlib.Core.List.{Memᴰ}
use gresse.Text.{Text}
use gresse.ObjectStorage.{
  StoreError, not_found, already_exists, precondition, Call, finished, refused, elapsed, Result,
  done, failed, Item, listed, broken, ObjectStore, ObjectStorageClient, Action, continue,
  with_operation_timeout, file_names, names_of,
}

module _ {Location Response S : Type 0} (store : ObjectStore Location Response S) where
  -- The documented behaviour of a store that is strongly consistent. `object` is the text under a
  -- location, `under` the order of prefixes. A call that is refused for another reason, or not
  -- finished, may have had its effect or not.
  pub record IsStore : Type 0 where
    pub object : Location → S → Option Text
    pub body : Response → Text
    pub under : Location → Location → Bool
    pub put-finished :
        (l : Location) (t : Text) (s : S) {s' : S}
        → store.put l t s ≡ (s', finished tt)
        → object l s' ≡ some t
    pub create-finished :
        (l : Location) (t : Text) (s : S) {s' : S}
        → store.put_create l t s ≡ (s', finished tt)
        → (object l s ≡ none) × (object l s' ≡ some t)
    pub create-exists :
        (l : Location) (t : Text) (s : S) {s' : S} {e : StoreError}
        → store.put_create l t s ≡ (s', refused e)
        → (e ≡ already_exists) ⊎ (e ≡ precondition)
        → (u : Text) × (object l s' ≡ some u)
    pub create-keeps :
        (l m : Location) (t u : Text) (s : S)
        → object m s ≡ some u
        → object m (store.put_create l t s).0 ≡ some u
    pub get-finished :
        (l : Location) (s : S) {s' : S} {r : Response}
        → store.get l s ≡ (s', finished r)
        → object l s ≡ some (body r)
    pub get-missing :
        (l : Location) (s : S) {s' : S}
        → store.get l s ≡ (s', refused not_found)
        → object l s ≡ none
    pub bytes-finished :
        (r : Response) (s : S) {s' : S} {t : Text} → store.bytes r s ≡ (s', finished t) → t ≡ body r
    pub list-finished :
        (prefix l : Location) (s : S) {s' : S} {items : List (Item Location)} {t : Text}
        → store.list prefix s ≡ (s', some items)
        → object l s ≡ some t
        → under prefix l ≡ true
        → Memᴰ (listed l) items ⊎ ((e : StoreError) × Memᴰ (broken e) items)

module _ {Addr S : Type 0} where
  -- Inversion of a method that succeeds.
  pub continue-eq-done :
      {A B : Type 0} (r : ObjectStorageClient Addr S × Result A) (next : A → Action Addr S B)
      {c' : ObjectStorageClient Addr S} {b : B}
      → continue next r ≡ (c', done b)
      → (c1 : ObjectStorageClient Addr S) × (a : A) × (r ≡ (c1, done a))
        × (next a c1 ≡ (c', done b))
  continue-eq-done (c, done a) next h = (c, a, refl, h)
  continue-eq-done (c, failed e) next h = cc

  abbrev pub called :
      {A : Type 0} → ObjectStorageClient Addr S → S × Call A → ObjectStorageClient Addr S × Result A
  called c answer = (record c { store = answer.0 }, with_operation_timeout (answer.1))

  pub call-eq-done :
      {A : Type 0} (c : ObjectStorageClient Addr S) (answer : S × Call A)
      {c' : ObjectStorageClient Addr S} {a : A}
      → called c answer ≡ (c', done a)
      → (answer ≡ (answer.0, finished a)) × (c' ≡ record c { store = answer.0 })
  unfolding with_operation_timeout
  call-eq-done c (s, finished x) h = (cc, cc)
  call-eq-done c (s, refused e) h = cc
  call-eq-done c (s, elapsed) h = cc

module _ {Location Response S : Type 0} (store : ObjectStore Location Response S) where
  pub names_of-eq-finished :
      (answer : S × Option (List (Item Location))) {names : List Text} {s : S}
      → names_of store answer ≡ (s, finished names)
      → (items : List (Item Location)) × (answer ≡ (s, some items))
        × (file_names store items ≡ finished names)
  names_of-eq-finished (s, none) h = cc
  names_of-eq-finished (s, some items) h = (items, cc, cc)

  file_names-cons :
      (k : Location) (items : List (Item Location)) {names : List Text}
      → file_names store (listed k ∷ items) ≡ finished names
      → (rest : List Text) × (file_names store items ≡ finished rest)
        × (names ≡ store.path_text k ∷ rest)
  unfolding file_names
  file_names-cons k items {names} h = by_call (file_names store items) refl
    where
      by_call :
          (r : Call (List Text))
          → file_names store items ≡ r
          → (rest : List Text) × (file_names store items ≡ finished rest)
            × (names ≡ store.path_text k ∷ rest)
      by_call (finished rest) e = (rest, e, ground (arith, h))
      by_call (refused x) e = absurd (ground (arith, h))
      by_call elapsed e = absurd (ground (arith, h))

  -- The names of a complete listing are those of the locations it streams.
  pub file_names-Mem :
      (items : List (Item Location)) {names : List Text} (l : Location)
      → file_names store items ≡ finished names
      → Memᴰ (listed l) items
      → Memᴰ (store.path_text l) names
  file_names-Mem [] l h m = elim m [ ]
  file_names-Mem (broken e ∷ items) l h m = absurd (unfold file_names in cc)
  file_names-Mem (listed k ∷ items) {names} l h (Memᴰ.head e) =
      let (rest, _, r) = file_names-cons k items h in
      rw r (Memᴰ.head (let same : l ≡ k = cc in ap store.path_text same))
  file_names-Mem (listed k ∷ items) {names} l h (Memᴰ.tail m) =
      let (rest, f, r) = file_names-cons k items h in rw r (Memᴰ.tail (file_names-Mem items l f m))

  -- A listing with an error is not complete.
  pub file_names-broken :
      (items : List (Item Location)) {names : List Text} (e : StoreError)
      → file_names store items ≡ finished names
      → Memᴰ (broken e) items
      → ⊥
  file_names-broken [] e h m = elim m [ ]
  file_names-broken (broken x ∷ items) e h m = unfold file_names in cc
  file_names-broken (listed k ∷ items) e h (Memᴰ.head q) = cc
  file_names-broken (listed k ∷ items) e h (Memᴰ.tail m) =
      let (rest, f, r) = file_names-cons k items h in file_names-broken items e f m
