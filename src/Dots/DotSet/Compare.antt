-- ===== src/Dots/DotSet/Compare.antt =====
-- `cmp` and `is_concurrent_with`: both read the entries of the first vector only.
use Prim.Native.Nat.{Ordering}
use gresse.Prelude.{
  ◌≡◌, ◌↔◌, Bool, true, false, ◌||◌, ◌&&◌, some, [], ◌∷◌, ◌≤ℤ◌, ltb_ℤ, nat_key, if◌then◌else◌,
  arith, Bool-cases, inl, inr,
}
use gresse.Map
use gresse.Map.{Map}
use gresse.Dots.{Pid, Counter}
use gresse.Dots.DotSet.{DotSet, get, counter, cmp, cmp_flags, is_concurrent_with}
use gresse.Dots.DotSet.Reads.{IsWf}

-- The tests of the two branches of the loop.
abbrev greater : DotSet → Pid → Counter → Bool
greater other p c = ltb_ℤ (get p other) c

abbrev lower : DotSet → Pid → Counter → Bool
lower other p c = ltb_ℤ c (get p other)

cmp_flags-any :
    (m : Map Pid Counter) (other : DotSet) (l g : Bool)
    → cmp_flags m other l g ≡ (l || Map.any (lower other) m, g || Map.any (greater other) m)
unfolding cmp_flags Map.any
cmp_flags-any [] other l g = ground arith
cmp_flags-any ((p, c) ∷ m) other l g = ground (
  arith,
  cmp_flags-any m other
      (if ltb_ℤ (get p other) c then l else if ltb_ℤ c (get p other) then true else l)
      (if ltb_ℤ (get p other) c then true else g),
)

concurrent-any :
    (s other : DotSet)
    → is_concurrent_with s other ≡ Map.any (lower other) s.set && Map.any (greater other) s.set
unfolding is_concurrent_with cmp
concurrent-any s other = ground (arith, cmp_flags-any s.set other false false)

-- An entry of `s` that passes the test.
abbrev HasEntry : DotSet → (Pid → Counter → Bool) → Type 0
HasEntry s test = (p : Pid) × (c : Counter) × (counter p s ≡ some c) × (test p c ≡ true)

any_iff :
    (s : DotSet) (test : Pid → Counter → Bool)
    → IsWf s
    → (Map.any test s.set ≡ true) ↔ HasEntry s test
unfolding counter
any_iff s test w =
    (Map.entry_of_any test s.set w, λ (p, c, found, t). Map.any_of_entry test s.set p c found t)

-- The answer is yes exactly if one entry of `s` is behind `other` and one is ahead of it.
pub is_concurrent_with_iff :
    (s other : DotSet)
    → IsWf s
    → (is_concurrent_with s other ≡ true)
      ↔ (HasEntry s (λ p c. ltb_ℤ c (get p other)) × HasEntry s (λ p c. ltb_ℤ (get p other) c))
is_concurrent_with_iff s other w = (
  λ h.
      let both : (Map.any (lower other) s.set ≡ true) × (Map.any (greater other) s.set ≡ true) =
        ground (arith, h, concurrent-any s other) in
      ((any_iff s (lower other) w).0 both.0, (any_iff s (greater other) w).0 both.1),
  λ (l, g). ground (
    arith,
    concurrent-any s other,
    (any_iff s (lower other) w).1 l,
    (any_iff s (greater other) w).1 g,
  ),
)

-- Where the first vector holds each replica once and no entry of it is behind the second, the
-- comparison answers Greater and not concurrent, whatever dots of other replicas the second has
-- that the first has not.
pub cmp_blind :
    (s other : DotSet)
    → IsWf s
    → ((p : Pid) (c : Counter) → counter p s ≡ some c → get p other ≤ℤ c)
    → (cmp s other ≡ Ordering.gt) × (is_concurrent_with s other ≡ false)
unfolding is_concurrent_with cmp
cmp_blind s other w h = ground (arith, cmp_flags-any s.set other false false, none_lower)
  where
    clash : (p : Pid) (c : Counter) → counter p s ≡ some c → ltb_ℤ c (get p other) ≡ true → ⊥
    clash p c found behind = ground (arith, h p c)

    none_lower : Map.any (lower other) s.set ≡ false
    none_lower = elim (Bool-cases (Map.any (lower other) s.set)) [
      | inl t ↦
          let (p, c, found, behind) = (any_iff s (lower other) w).0 t in
          absurd (clash p c found behind)
      | inr f ↦ f
    ]
