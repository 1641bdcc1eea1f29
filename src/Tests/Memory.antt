-- ===== src/Tests/Memory.antt =====
-- An object store in memory, and addresses of one letter.
use gresse.Prelude.{
  ℕ_discrete, ◌≡◌, refl, ◌⊎◌, inl, inr, Bool, true, false, Option, none, some, List, [], ◌∷◌,
  nat_key, arith, Option-cases, if◌then◌else◌,
}
use mathlib.Core.Path.{subst}
use mathlib.Core.List.{Memᴰ}
use gresse.Map
use gresse.Map.{Map}
use gresse.Text.{Text, comma, slash}
use gresse.Set
use gresse.Text.Split.{IsFree}
use gresse.Text.Lines.{text_key}
use gresse.Replica.Descriptor.Display.{AddrText, IsAddrText}
use gresse.ObjectStorage.{
  ObjectStore, Item, listed, broken, Call, finished, refused, StoreError, not_found, already_exists,
  precondition, UpdateVersion,
}
use gresse.ObjectStorage.Laws.{IsStore}

abbrev pub Objects : Type 0
Objects = Map Text Text

abbrev put : Text → Text → Objects → Objects × Call (Unit {0})
put l t s = (Map.insert l t s, finished tt)

abbrev create_at : Text → Text → Objects → Option Text → Objects × Call (Unit {0})
create_at l t s none = (Map.insert l t s, finished tt)
create_at l t s (some _) = (s, refused already_exists)

abbrev get_at : Objects → Option Text → Objects × Call Text
get_at s none = (s, refused not_found)
get_at s (some t) = (s, finished t)

abbrev items : Objects → List (Item Text)
items [] = []
items ((l, _) ∷ s) = listed l ∷ items s

abbrev no_version : UpdateVersion
no_version = record { e_tag = none; version = none }

abbrev pub memory : ObjectStore Text Text Objects
memory = record {
  path_from = λ t. t;
  path_text = λ t. t;
  put = put;
  put_create = λ l t s. create_at l t s (Map.get l s);
  get = λ l s. get_at s (Map.get l s);
  bytes = λ r s. (s, finished r);
  meta = λ _. no_version;
  delete = λ l s. (Map.remove l s, finished tt);
  list = λ prefix s. (s, some (items s));
}

items-Mem : (l : Text) (s : Objects) {t : Text} → Map.get l s ≡ some t → Memᴰ (listed l) (items s)
unfolding Map.get
items-Mem l [] h = cc
items-Mem l ((k, v) ∷ s) {t} h = elim (text_key.dec k l) [
  | yes p ↦ Memᴰ.head (let q : listed l ≡ listed k = cc in q)
  | no n ↦ Memᴰ.tail (items-Mem l s (let q : Map.get l s ≡ some t = ground (arith, h, n) in q))
]

memory-put :
    (l t : Text) (s : Objects) {s' : Objects}
    → memory.put l t s ≡ (s', finished tt)
    → Map.get l s' ≡ some t
memory-put l t s h = ground (arith, h, Map.get-insert l l t s)

memory-create :
    (l t : Text) (s : Objects) {s' : Objects}
    → memory.put_create l t s ≡ (s', finished tt)
    → (Map.get l s ≡ none) × (Map.get l s' ≡ some t)
memory-create l t s {s'} h = elim (Option-cases (Map.get l s)) [
  | inl absent ↦
      let made : Map.insert l t s ≡ s' = ground (arith, h) in
      (absent, ground (arith, made, Map.get-insert l l t s))
  | inr (u, present) ↦ absurd (ground (arith, h))
]

memory-exists :
    (l t : Text) (s : Objects) {s' : Objects} {e : StoreError}
    → memory.put_create l t s ≡ (s', refused e)
    → (e ≡ already_exists) ⊎ (e ≡ precondition)
    → (u : Text) × (Map.get l s' ≡ some u)
memory-exists l t s {s'} h r = elim (Option-cases (Map.get l s)) [
  | inl absent ↦ absurd (ground (arith, h))
  | inr (u, present) ↦ (u, ground (arith, h))
]

memory-keeps :
    (l m t u : Text) (s : Objects)
    → Map.get m s ≡ some u
    → Map.get m (memory.put_create l t s).0 ≡ some u
memory-keeps l m t u s h = elim (Option-cases (Map.get l s)) [
  | inl absent ↦ ground (arith, h, Map.get-insert m l t s)
  | inr (v, present) ↦ ground (arith, h)
]

memory-get :
    (l : Text) (s : Objects) {s' : Objects} {r : Text}
    → memory.get l s ≡ (s', finished r)
    → Map.get l s ≡ some r
memory-get l s h = elim (Option-cases (Map.get l s)) [
  | inl absent ↦ absurd (ground (arith, h))
  | inr (v, present) ↦ ground (arith, h)
]

memory-missing :
    (l : Text) (s : Objects) {s' : Objects}
    → memory.get l s ≡ (s', refused not_found)
    → Map.get l s ≡ none
memory-missing l s h = elim (Option-cases (Map.get l s)) [
  | inl absent ↦ absent
  | inr (v, present) ↦ absurd (ground (arith, h))
]

memory-bytes :
    (r : Text) (s : Objects) {s' : Objects} {t : Text} → memory.bytes r s ≡ (s', finished t) → t ≡ r
memory-bytes r s h = cc

memory-list :
    (prefix l : Text) (s : Objects) {s' : Objects} {found : List (Item Text)} {t : Text}
    → memory.list prefix s ≡ (s', some found)
    → Map.get l s ≡ some t
    → true ≡ true
    → Memᴰ (listed l) found ⊎ ((e : StoreError) × Memᴰ (broken e) found)
memory-list prefix l s {s'} {found} h o u =
    let same : items s ≡ found = cc in
    inl (subst (λ (is : List (Item Text)). Memᴰ (listed l) is) same (items-Mem l s o))

pub memory-IsStore : IsStore memory
memory-IsStore = record {
  object = Map.get;
  body = λ r. r;
  under = λ _ _. true;
  put-finished = memory-put;
  create-finished = memory-create;
  create-exists = memory-exists;
  create-keeps = memory-keeps;
  get-finished = memory-get;
  get-missing = memory-missing;
  bytes-finished = memory-bytes;
  list-finished = memory-list;
}

pub memory-under : (a b : Text) → memory-IsStore.under a b ≡ true
unfolding memory-IsStore
memory-under a b = refl

abbrev pub print_letter : Bool → Text
print_letter true = b'a' ∷ []
print_letter false = b'b' ∷ []

abbrev pub parse_letter : Text → Option Bool
parse_letter text =
    if Set.contains b'a' text
    then some true
    else if Set.contains b'b' text
    then some false
    else none

abbrev pub letters : AddrText Bool
letters = record { print = print_letter; parse = parse_letter }

pub letters-parse : (a : Bool) → parse_letter (print_letter a) ≡ some a
unfolding Set.contains ℕ_discrete
letters-parse true = refl
letters-parse false = refl

letters-comma : (a : Bool) → IsFree comma (print_letter a)
unfolding Set.contains ℕ_discrete
letters-comma true = refl
letters-comma false = refl

letters-slash : (a : Bool) → IsFree slash (print_letter a)
unfolding Set.contains ℕ_discrete
letters-slash true = refl
letters-slash false = refl

pub letters-IsAddrText : IsAddrText letters
letters-IsAddrText = record {
  parse-print = letters-parse;
  no_comma = letters-comma;
  no_slash = letters-slash;
}
