-- ===== src/OrSet/Range.antt =====
-- Logs without a gap: the entries of a replica bear the counters from 0 on, as long as nothing was
-- collected.
use gresse.Prelude.{
  ℕ, zero, suc, ltb, ◌+◌, ◌-◌, ◌≤◌, ◌≡◌, refl, Option, none, some, List, [], ◌∷◌, ◌++◌, length,
  filter, pos, ℕ_discrete, nat_key, arith, ap, sym, ◌∙◌,
}
use mathlib.Core.Path.{subst}
use gresse.Dots.{Pid, Counter, Dot}
use gresse.Dots.DotSet
use gresse.Dots.DotSet.{DotSet}
use gresse.Dots.DotSet.Reads
use gresse.Dots.DotMap.Greater.{uncovered}
use gresse.OrSet.{Delta}

abbrev pub dot_at : Pid → ℕ → Dot
dot_at p k = record { pid = p; counter = pos k }

-- The last counter of so many from 0 on.
abbrev pub last_of : ℕ → Option Counter
last_of zero = none
last_of (suc n) = some (pos n)

covers-last_of : (k m : ℕ) → Reads.covers (pos k) (last_of m) ≡ ltb k m
covers-last_of k zero = ground arith
covers-last_of k (suc m) = ground arith

pub contains-dot_at :
    (p : Pid) (k m : ℕ) (ds : DotSet)
    → DotSet.counter p ds ≡ last_of m
    → DotSet.contains (dot_at p k) ds ≡ ltb k m
contains-dot_at p k m ds c = rw (Reads.contains-counter, c) (covers-last_of k m)

module _ {T : Type 0} where
  -- Entries with the dots of a replica from a counter on, each delta under its own dot.
  abbrev pub IsRange : Pid → ℕ → List (Dot × Delta T) → Type 0
  IsRange p k [] = Unit {0}
  IsRange p k (e ∷ es) = (e.0 ≡ dot_at p k) × ((e.1).dot ≡ dot_at p k) × IsRange p (suc k) es

  pub IsRange-append :
      (p : Pid) (k : ℕ) (es fs : List (Dot × Delta T))
      → IsRange p k es
      → IsRange p (k + length es) fs
      → IsRange p k (es ++ fs)
  IsRange-append p k [] fs h g = let same : k + 0 ≡ k = omega arith in rw same at g
  IsRange-append p k (e ∷ es) fs h g =
      let same : k + suc (length es) ≡ suc k + length es = omega arith in
      (h.0, h.1, IsRange-append p (suc k) es fs h.2 (rw same at g))

  -- Beyond the last counter that a vector knows, nothing is covered.
  filter-beyond :
      (p : Pid) (k m : ℕ) (ds : DotSet) (es : List (Dot × Delta T))
      → DotSet.counter p ds ≡ last_of m
      → m ≤ k
      → IsRange p k es
      → filter (uncovered ds) es ≡ es
  unfolding filter
  filter-beyond p k m ds [] c l h = refl
  filter-beyond p k m ds (e ∷ es) c l h =
      let seen : DotSet.contains e.0 ds ≡ ltb k m =
        ap (λ (d : Dot). DotSet.contains d ds) h.0 ∙ contains-dot_at p k m ds c in
      ground (arith, seen, filter-beyond p (suc k) m ds es c (omega (arith, l)) h.2)

  abbrev HasRest : Pid → ℕ → ℕ → List (Dot × Delta T) → List (Dot × Delta T) → Type 0
  HasRest p k m es fs = IsRange p m fs × (length fs ≡ k + length es - m)

  -- What a vector with so many dots lacks of a range is the rest of the range.
  pub filter-IsRange :
      (p : Pid) (k m : ℕ) (ds : DotSet) (es : List (Dot × Delta T))
      → DotSet.counter p ds ≡ last_of m
      → k ≤ m
      → IsRange p k es
      → HasRest p k m es (filter (uncovered ds) es)
  unfolding filter
  filter-IsRange p k m ds [] c l h = (tt, omega (arith, l))
  filter-IsRange p k m ds (e ∷ es) c l h =
      let seen : DotSet.contains e.0 ds ≡ ltb k m =
        ap (λ (d : Dot). DotSet.contains d ds) h.0 ∙ contains-dot_at p k m ds c in
      elim (ℕ_discrete k m) [
        | yes same ↦
            let whole : filter (uncovered ds) (e ∷ es) ≡ e ∷ es =
              filter-beyond p k m ds (e ∷ es) c (omega (arith, same)) h in
            let range : IsRange p m (e ∷ es) = subst (λ (j : ℕ). IsRange p j (e ∷ es)) same h in
            subst (HasRest p k m (e ∷ es)) (sym whole) (range, omega (arith, same))
        | no n ↦
            let shorter : filter (uncovered ds) (e ∷ es) ≡ filter (uncovered ds) es =
              ground (arith, seen, l, n) in
            let (range, size) = filter-IsRange p (suc k) m ds es c (omega (arith, l, n)) h.2 in
            subst (HasRest p k m (e ∷ es)) (sym shorter) (range, omega (arith, size))
      ]
