-- ===== src/Prelude/BinarySearch.antt =====
-- `slice::binary_search_by` of the standard library, as it is implemented there.
use Prim.Native.Nat.{ℕ, zero, suc, ◌+◌, ◌-◌, ◌/◌, ◌≤◌, ◌<◌, Ordering}
use mathlib.Core.Path.{◌≡◌, refl, sym}
use mathlib.Core.Logic.{◌⊎◌, inl, inr}
use mathlib.Core.Bool.{Bool, true, false}
use mathlib.Core.Option.{none, some}
use mathlib.Core.List.{List, [], ◌∷◌}
use native.Mathlib.Omega.{arith}
use gresse.Prelude.Tests.{leb, if◌then◌else◌, Bool-cases}
use gresse.Prelude.Lists.{length, get_elem?, drop, filter}

-- `Ok(position)`, or `Err(position)` where the value would be inserted.
pub data Position : Type 0 where
  found : ℕ → Position
  missing : ℕ → Position

-- One round moves `base` to the middle, unless the element there is greater.
unfoldable pub next_base : (ℕ → Ordering) → ℕ → ℕ → ℕ
next_base f base mid = elim (f mid) [ Ordering.gt ↦ base | _ ↦ mid ]

-- `while size > 1`, with fuel; the size falls in every round.
unfoldable pub narrow : ℕ → (ℕ → Ordering) → ℕ → ℕ → ℕ
narrow zero f base size = base
narrow (suc fuel) f base size =
    let rest = narrow fuel f (next_base f base (base + size / 2)) (size - size / 2) in
    if leb size 1 then base else rest

module _ {ℓ} {A : Type ℓ} where
  -- The comparison of an element with the value looked for; no read is out of bounds.
  unfoldable pub order_at : (A → Ordering) → List A → ℕ → Ordering
  order_at f xs i = elim (get_elem? xs i) [ none ↦ Ordering.gt | some x ↦ f x ]

  unfoldable pub binary_search_by : List A → (A → Ordering) → Position
  binary_search_by [] f = missing 0
  binary_search_by (x ∷ xs) f =
      let base = narrow (length (x ∷ xs)) (order_at f (x ∷ xs)) 0 (length (x ∷ xs)) in
      elim (order_at f (x ∷ xs) base) [
        | Ordering.eq ↦ found base
        | Ordering.lt ↦ missing (base + 1)
        | Ordering.gt ↦ missing base
      ]

-- The element at the position is greater than the value looked for.
abbrev pub is_gt : Ordering → Bool
is_gt Ordering.gt = true
is_gt _ = false

next_base-gt :
    (f : ℕ → Ordering) (base mid : ℕ) → is_gt (f mid) ≡ true → next_base f base mid ≡ base
unfolding next_base
next_base-gt f base mid h = ground arith

next_base-le :
    (f : ℕ → Ordering) (base mid : ℕ) → is_gt (f mid) ≡ false → next_base f base mid ≡ mid
unfolding next_base
next_base-le f base mid h = ground arith

-- The element at `b` is not greater, or `b` is 0; those from `e` on are greater.
abbrev Brackets : (ℕ → Ordering) → ℕ → ℕ → Type 0
Brackets f b e = ((b ≡ 0) ⊎ (is_gt (f b) ≡ false)) × (is_gt (f e) ≡ true)

module _ (f : ℕ → Ordering)
    (mono : (i j : ℕ) → i ≤ j → is_gt (f i) ≡ true → is_gt (f j) ≡ true) where
  next_base-Brackets :
      (base size : ℕ)
      → 1 < size
      → Brackets f base (base + size)
      → Brackets f
          (next_base f base (base + size / 2))
          (next_base f base (base + size / 2) + (size - size / 2))
  next_base-Brackets base size h b = elim (Bool-cases (is_gt (f (base + size / 2)))) [
    | inl t ↦
        rw (next_base-gt f base (base + size / 2) t)
          (b.0, mono (base + size / 2) (base + (size - size / 2)) (omega arith) t)
    | inr n ↦
        let e : base + size / 2 + (size - size / 2) ≡ base + size = omega arith in
        rw (next_base-le f base (base + size / 2) n, e) (inr n, b.1)
  ]

  narrow-Brackets :
      (fuel base size : ℕ)
      → size ≤ fuel
      → 1 ≤ size
      → Brackets f base (base + size)
      → Brackets f (narrow fuel f base size) (suc (narrow fuel f base size))
  unfolding narrow
  narrow-Brackets zero base size h k b = absurd (omega arith)
  narrow-Brackets (suc fuel) base size h k b = elim (Bool-cases (leb size 1)) [
    | inl t ↦ let e : base + size ≡ suc base = ground arith in rw (t, narrow) (b.0, rw e at b.1)
    | inr n ↦
        rw (n, narrow)
          (narrow-Brackets fuel _ (size - size / 2) (ground arith) (ground arith)
            (next_base-Brackets base size (ground arith) b))
  ]

-- Where the search ends, and from where on the elements are greater.
abbrev pub after : Position → ℕ
after (found pos) = pos + 1
after (missing pos) = pos

-- A later element is greater too.
abbrev pub IsMonotone {ℓ} : {A : Type ℓ} → (A → Ordering) → List A → Type 0
IsMonotone f xs =
    (i j : ℕ) → i ≤ j → is_gt (order_at f xs i) ≡ true → is_gt (order_at f xs j) ≡ true

order_at-end {ℓ} :
    {A : Type ℓ} (f : A → Ordering) (xs : List A) → is_gt (order_at f xs (length xs)) ≡ true
unfolding order_at
order_at-end f [] = refl
order_at-end f (x ∷ xs) = order_at-end f xs

-- All before `n` are not greater, and the one at `n` is, or is past the end.
abbrev Splits : (ℕ → Ordering) → ℕ → Type 0
Splits g n = ((i : ℕ) → i < n → is_gt (g i) ≡ false) × (is_gt (g n) ≡ true)

Splits-Brackets :
    (g : ℕ → Ordering)
    → ((i j : ℕ) → i ≤ j → is_gt (g i) ≡ true → is_gt (g j) ≡ true)
    → (b : ℕ) → Brackets g b (suc b)
    → Splits g (if is_gt (g b) then b else b + 1)
Splits-Brackets g mono b (low, high) = elim (Bool-cases (is_gt (g b))) [
  | inl t ↦ rw t (λ i h. absurd (first t low (omega arith)), t)
  | inr n ↦ rw n (λ i h. below n i (omega arith), let e : b + 1 ≡ suc b = omega arith in rw e high)
]
  where
    first : is_gt (g b) ≡ true → (b ≡ 0) ⊎ (is_gt (g b) ≡ false) → 0 < b → ⊥
    first t (inl z) p = omega arith
    first t (inr n) p = ground arith

    below : is_gt (g b) ≡ false → (i : ℕ) → i ≤ b → is_gt (g i) ≡ false
    below n i h = elim (Bool-cases (is_gt (g i))) [
      | inl t ↦ absurd (ground (arith, mono i b h t))
      | inr f ↦ f
    ]

after-binary_search_by {ℓ} :
    {A : Type ℓ} (f : A → Ordering) (xs : List A)
    → IsMonotone f xs
    → Splits (order_at f xs) (after (binary_search_by xs f))
unfolding binary_search_by
after-binary_search_by f [] mono = (λ i h. absurd (omega arith), unfold order_at in refl)
after-binary_search_by f (x ∷ xs) mono =
    let n = length (x ∷ xs) in
    let b = narrow n (order_at f (x ∷ xs)) 0 n in
    let e : after (binary_search_by (x ∷ xs) f)
        ≡ (if is_gt (order_at f (x ∷ xs) b) then b else b + 1) =
      ground arith in
    rw e (
      Splits-Brackets (order_at f (x ∷ xs)) mono b (
        narrow-Brackets (order_at f (x ∷ xs)) mono n 0 n (omega arith) (omega arith)
          (inl refl, let z : 0 + n ≡ n = omega arith in rw z (order_at-end f (x ∷ xs)))))

module _ {ℓ} {A : Type ℓ} (f : A → Ordering) where
  filter_all :
      (xs : List A)
      → ((i : ℕ) → i < length xs → is_gt (order_at f xs i) ≡ true)
      → filter (λ x. is_gt (f x)) xs ≡ xs
  unfolding filter order_at
  filter_all [] h = refl
  filter_all (x ∷ xs) h =
      ground (arith, h 0 (omega arith), filter_all xs (λ i lt. h (suc i) (omega arith)))

  drop_split :
      (xs : List A) (n : ℕ)
      → IsMonotone f xs
      → Splits (order_at f xs) n
      → drop n xs ≡ filter (λ x. is_gt (f x)) xs
  unfolding filter order_at
  drop_split [] zero mono s = refl
  drop_split [] (suc n) mono s = refl
  drop_split (x ∷ xs) zero mono s = sym (filter_all (x ∷ xs) (λ i _. mono 0 i (omega arith) s.1))
  drop_split (x ∷ xs) (suc n) mono s = ground (
    arith,
    s.0 0 (omega arith),
    drop_split xs n (λ i j h. mono (suc i) (suc j) (omega arith))
        (λ i h. s.0 (suc i) (omega arith), s.1),
  )

  -- The elements after the position found are those greater than the value.
  pub drop-binary_search_by :
      (xs : List A)
      → IsMonotone f xs
      → drop (after (binary_search_by xs f)) xs ≡ filter (λ x. is_gt (f x)) xs
  drop-binary_search_by xs mono =
      drop_split xs (after (binary_search_by xs f)) mono (after-binary_search_by f xs mono)
