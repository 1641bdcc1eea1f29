-- ===== src/Prelude/Tests.antt =====
-- Tests, the conditional, equality of keys, and panics.
use Prim.Native.Nat.{ℕ, compare, Ordering}
use mathlib.Core.Path.{◌≡◌, refl}
use mathlib.Core.Logic.{◌⊎◌, inl, inr}
use mathlib.Core.Bool.{Bool, true, false}
use mathlib.Core.Option.{Option, none, some}
use native.Mathlib.Decide.{ℕ_discrete}
use native.Mathlib.Omega.{arith}

abbrev pub ltb : ℕ → ℕ → Bool
ltb a b = elim (compare a b) [ Ordering.lt ↦ true | _ ↦ false ]

abbrev pub leb : ℕ → ℕ → Bool
leb a b = elim (compare a b) [ Ordering.gt ↦ false | _ ↦ true ]

infix 1 if◌then◌else◌
abbrev pub if◌then◌else◌ {ℓ} : {A : Type ℓ} → Bool → A → A → A
if true then x else y = x
if false then x else y = y

-- To split on a computed value and keep the equation.
pub Bool-cases : (b : Bool) → (b ≡ true) ⊎ (b ≡ false)
Bool-cases true = inl refl
Bool-cases false = inr refl

pub Option-cases {ℓ} : {A : Type ℓ} (o : Option A) → (o ≡ none) ⊎ ((a : A) × (o ≡ some a))
Option-cases none = inl refl
Option-cases (some a) = inr (a, refl)

-- The bound `Eq + Hash` on a type of keys.
pub record Key {ℓ} (K : Type ℓ) : Type ℓ where
  pub dec : Discrete K

instance abbrev pub nat_key : Key ℕ
nat_key = record { dec = ℕ_discrete }

-- A computation that may panic: a failed `assert!`, `unwrap` or `expect`.
pub data Outcome {ℓ} (A : Type ℓ) : Type ℓ where
  ok : A → Outcome A
  panic : Outcome A

infixl 5 ◌>>=◌
abbrev pub ◌>>=◌ {ℓ κ} : {A : Type ℓ} {B : Type κ} → Outcome A → (A → Outcome B) → Outcome B
panic >>= next = panic
ok x >>= next = next x

-- Inversion of a successful bind.
pub >>=-eq-ok {ℓ} :
    {A B : Type ℓ} (first : Outcome A) (next : A → Outcome B) {y : B}
    → (first >>= next) ≡ ok y
    → (x : A) × (first ≡ ok x) × (next x ≡ ok y)
>>=-eq-ok (ok x) next made = (x, refl, made)
>>=-eq-ok panic next made = cc

-- `option.expect(..)` and `option.unwrap()`.
abbrev pub expect {ℓ} : {A : Type ℓ} → Option A → Outcome A
expect none = panic
expect (some a) = ok a

-- The bound `Ord`: a total order as a test.
pub record Ord (K : Type 0) : Type 0 where
  pub le : K → K → Bool
  pub le_total : (a b : K) → (le a b ≡ true) ⊎ (le b a ≡ true)
  pub le_trans : (a b c : K) → le a b ≡ true → le b c ≡ true → le a c ≡ true
  pub le_antisymm : (a b : K) → le a b ≡ true → le b a ≡ true → a ≡ b

nat_le_total : (a b : ℕ) → (leb a b ≡ true) ⊎ (leb b a ≡ true)
nat_le_total a b = ground arith

nat_le_trans : (a b c : ℕ) → leb a b ≡ true → leb b c ≡ true → leb a c ≡ true
nat_le_trans a b c h k = ground arith

nat_le_antisymm : (a b : ℕ) → leb a b ≡ true → leb b a ≡ true → a ≡ b
nat_le_antisymm a b h k = ground arith

instance abbrev pub nat_ord : Ord ℕ
unfolding nat_le_total nat_le_trans nat_le_antisymm
nat_ord = record {
  le = leb;
  le_total = nat_le_total;
  le_trans = nat_le_trans;
  le_antisymm = nat_le_antisymm;
}
