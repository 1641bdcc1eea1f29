-- ===== src/Dots/DotSet/Merge.antt =====
-- `merge` is the join of version vectors.
use gresse.Prelude.{
  ◌≡◌, refl, ◌||◌, Option, none, some, [], ◌∷◌, nat_key, max_ℤ, le_antisymm, arith,
}
use gresse.Map
use gresse.Map.{Map}
use gresse.Dots.{Pid, Counter, Dot}
use gresse.Dots.DotSet.{DotSet, counter, contains, merge, merge_entries}
use gresse.Dots.DotSet.Reads.{IsWf, covers, contains-counter}

-- The greater of two optional counters; a missing one is the least.
abbrev pub join : Option Counter → Option Counter → Option Counter
join none o = o
join (some a) none = some a
join (some a) (some b) = some (max_ℤ a b)

join-none : (a : Option Counter) → join a none ≡ a
join-none none = refl
join-none (some a) = refl

join_comm : (a b : Option Counter) → join a b ≡ join b a
join_comm none none = refl
join_comm none (some b) = refl
join_comm (some a) none = refl
join_comm (some a) (some b) = ground (arith, le_antisymm a b)

join_assoc : (a b c : Option Counter) → join (join a b) c ≡ join a (join b c)
join_assoc none b c = refl
join_assoc (some a) none c = refl
join_assoc (some a) (some b) none = refl
join_assoc (some a) (some b) (some c) = ground arith

join_self : (a : Option Counter) → join a a ≡ a
join_self none = refl
join_self (some a) = ground arith

get-merge_entries :
    (p : Pid) (other set : Map Pid Counter)
    → Map.IsDistinct other
    → Map.get p (merge_entries other set) ≡ join (Map.get p set) (Map.get p other)
unfolding merge_entries Map.get
get-merge_entries p [] set w = ground (arith, join-none (Map.get p set))
get-merge_entries p ((q, c) ∷ rest) set w = ground (
  arith,
  get-merge_entries p rest (Map.upsert q (λ old. max_ℤ old c) c set),
  Map.get-upsert p q (λ old. max_ℤ old c) c set,
  join-none (Map.get p set),
)

-- The counter of every replica is the greater of the two.
pub counter-merge :
    (p : Pid) (s other : DotSet)
    → IsWf other
    → counter p (merge s other) ≡ join (counter p s) (counter p other)
unfolding counter merge
counter-merge p s other w = get-merge_entries p other.set s.set w

covers-join : (c : Counter) (a b : Option Counter) → covers c (join a b) ≡ covers c a || covers c b
covers-join c none b = refl
covers-join c (some a) none = ground arith
covers-join c (some a) (some b) = ground arith

-- A dot is in the merge of two vectors exactly if it is in one of them, when the other vector
-- holds each replica once.
pub contains-merge :
    (d : Dot) (s other : DotSet)
    → IsWf other
    → contains d (merge s other) ≡ contains d s || contains d other
contains-merge d s other w =
    simp (contains-counter, counter-merge d.pid s other w) (covers-join d.counter _ _)

merge_entries-IsDistinct :
    (other set : Map Pid Counter) → Map.IsDistinct set → Map.IsDistinct (merge_entries other set)
unfolding merge_entries
merge_entries-IsDistinct [] set w = w
merge_entries-IsDistinct ((q, c) ∷ rest) set w =
    merge_entries-IsDistinct rest _ (Map.upsert-IsDistinct q (λ old. max_ℤ old c) c set w)

pub merge-IsWf : (s other : DotSet) → IsWf s → IsWf (merge s other)
unfolding merge
merge-IsWf s other w = merge_entries-IsDistinct other.set s.set w

-- On vectors that hold each replica once, merging is commutative, associative and idempotent as to
-- the counter of every replica.
pub merge_semilattice :
    (a b c : DotSet)
    → IsWf a
    → IsWf b
    → IsWf c
    → (p : Pid)
    → (counter p (merge a b) ≡ counter p (merge b a))
      × (counter p (merge (merge a b) c) ≡ counter p (merge a (merge b c)))
      × (counter p (merge a a) ≡ counter p a)
merge_semilattice a b c wa wb wc p = (
  rw (counter-merge p a b wb, counter-merge p b a wa) (join_comm (counter p a) (counter p b)),
  rw
      (
        counter-merge p (merge a b) c wc,
        counter-merge p a b wb,
        counter-merge p a (merge b c) (merge-IsWf b c wb),
        counter-merge p b c wc,
      )
      (join_assoc (counter p a) (counter p b) (counter p c)),
  rw (counter-merge p a a wa) (join_self (counter p a)),
)
