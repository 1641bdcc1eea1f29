-- ===== src/Prelude/Int.antt =====
-- Signed integers over the native numbers: the `i64` counters and the `isize` weights.
use Prim.Native.Nat.{ℕ, zero, suc, ◌+◌, ◌-◌, ◌^◌, ◌≤◌}
use mathlib.Core.Path.{◌≡◌, ap}
use mathlib.Core.Bool.{Bool}
use native.Mathlib.Omega.{arith}
use native.Mathlib.Decide.{ℕ_discrete}
use gresse.Prelude.Tests.{ltb, leb, if◌then◌else◌, Key}

-- `negsuc n` is -(n + 1).
pub data ℤ : Type 0 where
  pos : ℕ → ℤ
  negsuc : ℕ → ℤ

abbrev pub pos_part : ℤ → ℕ
pos_part (pos n) = n
pos_part (negsuc n) = 0

abbrev pub neg_part : ℤ → ℕ
neg_part (pos n) = 0
neg_part (negsuc n) = suc n

-- a - b, as an integer.
abbrev pub sub_ℕ : ℕ → ℕ → ℤ
sub_ℕ a b = if leb b a then pos (a - b) else negsuc (b - a - 1)

infixl 65 ◌+ℤ◌ ◌-ℤ◌
infix 50 ◌≤ℤ◌ ◌<ℤ◌
unfoldable pub ◌+ℤ◌ : ℤ → ℤ → ℤ
a +ℤ b = sub_ℕ (pos_part a + pos_part b) (neg_part a + neg_part b)

unfoldable pub ◌-ℤ◌ : ℤ → ℤ → ℤ
a -ℤ b = sub_ℕ (pos_part a + neg_part b) (neg_part a + pos_part b)

abbrev pub ◌≤ℤ◌ : ℤ → ℤ → Type 0
a ≤ℤ b = pos_part a + neg_part b ≤ pos_part b + neg_part a

abbrev pub ◌<ℤ◌ : ℤ → ℤ → Type 0
a <ℤ b = suc (pos_part a + neg_part b) ≤ pos_part b + neg_part a

abbrev pub leb_ℤ : ℤ → ℤ → Bool
leb_ℤ a b = leb (pos_part a + neg_part b) (pos_part b + neg_part a)

abbrev pub ltb_ℤ : ℤ → ℤ → Bool
ltb_ℤ a b = ltb (pos_part a + neg_part b) (pos_part b + neg_part a)

abbrev pub min_ℤ : ℤ → ℤ → ℤ
min_ℤ a b = if leb_ℤ a b then a else b

abbrev pub max_ℤ : ℤ → ℤ → ℤ
max_ℤ a b = if leb_ℤ a b then b else a

pub eq_of_parts : (a b : ℤ) → pos_part a + neg_part b ≡ pos_part b + neg_part a → a ≡ b
eq_of_parts a b h = ground arith

pub le_antisymm : (a b : ℤ) → a ≤ℤ b → b ≤ℤ a → a ≡ b
le_antisymm a b h k = eq_of_parts a b (omega arith)

-- The last value of an `i64`, and the first.
abbrev pub i64_max : ℤ
i64_max = pos (2 ^ 63 - 1)

abbrev pub i64_min : ℤ
i64_min = negsuc (2 ^ 63 - 1)

unfoldable pub ℤ_discrete : Discrete ℤ
ℤ_discrete (pos a) (pos b) = elim (ℕ_discrete a b) [
  | yes p ↦ yes (ap pos p)
  | no n ↦ no (λ e. n (cc))
]
ℤ_discrete (pos a) (negsuc b) = no (λ e. cc)
ℤ_discrete (negsuc a) (pos b) = no (λ e. cc)
ℤ_discrete (negsuc a) (negsuc b) = elim (ℕ_discrete a b) [
  | yes p ↦ yes (ap negsuc p)
  | no n ↦ no (λ e. n (cc))
]

instance abbrev pub int_key : Key ℤ
int_key = record { dec = ℤ_discrete }

-- `c + 1` and `c - 1` on 64 bits, with the wrap-around of a release build.
unfoldable pub succ_i64 : ℤ → ℤ
succ_i64 (pos n) = if ltb n (2 ^ 63 - 1) then pos (suc n) else i64_min
succ_i64 (negsuc zero) = pos 0
succ_i64 (negsuc (suc n)) = negsuc n

unfoldable pub pred_i64 : ℤ → ℤ
pred_i64 (pos zero) = negsuc 0
pred_i64 (pos (suc n)) = pos n
pred_i64 (negsuc n) = if ltb n (2 ^ 63 - 1) then negsuc (suc n) else i64_max

-- Below the last value the increment is exact.
pub succ_i64_parts :
    (c : ℤ)
    → c <ℤ i64_max
    → pos_part (succ_i64 c) + neg_part c ≡ suc (pos_part c + neg_part (succ_i64 c))
unfolding succ_i64
succ_i64_parts (pos n) h = ground arith
succ_i64_parts (negsuc zero) h = omega arith
succ_i64_parts (negsuc (suc n)) h = omega arith
