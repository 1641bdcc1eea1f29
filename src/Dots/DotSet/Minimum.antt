-- ===== src/Dots/DotSet/Minimum.antt =====
-- `pointwise_min` is the meet of version vectors, where a missing counter reads as -1.
use gresse.Prelude.{
  ℕ, pos, ◌≡◌, refl, ◌&&◌, Option, none, some, List, [], ◌∷◌, ◌++◌, nat_key, min_ℤ, leb_ℤ,
  if◌then◌else◌, arith,
}
use gresse.Map
use gresse.Set
use gresse.Dots.{Pid, Counter}
use gresse.Dots.DotSet.{
  DotSet, get, counter, contains, pids, set_counter, lower_pids, pointwise_min,
}
use gresse.Dots.DotSet.Reads.{
  IsWf, covers, or_unseen, get-counter, contains-counter, get-set_counter, set_counter-IsWf,
}

get-lower_pids :
    (p : Pid) (ps : List Pid) (other s : DotSet)
    → get p (lower_pids ps other s)
      ≡ (if Set.contains p ps then min_ℤ (get p s) (get p other) else get p s)
unfolding lower_pids Set.contains
get-lower_pids p [] other s = refl
get-lower_pids p (q ∷ ps) other s = ground (
  arith,
  get-lower_pids p ps other (set_counter q (min_ℤ (get q s) (get q other)) s),
  get-set_counter p s q (min_ℤ (get q s) (get q other)),
)

contains-pids : (p : Pid) (s : DotSet) → Set.contains p (pids s) ≡ Map.is_some (counter p s)
unfolding pids counter
contains-pids p s = Map.contains-keys p s.set

-- The counter of every replica reads as the lesser of the two.
pub get-pointwise_min :
    (p : Pid) (s other : DotSet) → get p (pointwise_min s other) ≡ min_ℤ (get p s) (get p other)
unfolding pointwise_min
get-pointwise_min p s other = ground (
  arith,
  get-lower_pids p (Set.from_list (pids s ++ pids other)) other s,
  Set.contains-from_list p (pids s ++ pids other),
  Set.contains-append p (pids s) (pids other),
  contains-pids p s,
  contains-pids p other,
  get-counter p s,
  get-counter p other,
)

-- A dot that a replica has made, from counter 0 on, is contained exactly if `get` has reached it.
pub contains-get :
    (p : Pid) (n : ℕ) (s : DotSet)
    → contains (record { pid = p; counter = pos n }) s ≡ leb_ℤ (pos n) (get p s)
contains-get p n s = rw (contains-counter, get-counter) (reads (counter p s))
  where
    reads : (o : Option Counter) → covers (pos n) o ≡ leb_ℤ (pos n) (or_unseen o)
    reads none = ground arith
    reads (some c) = refl

-- A dot with a counter from 0 on is in the pointwise minimum exactly if it is in both vectors.
pub contains-pointwise_min :
    (p : Pid) (n : ℕ) (s other : DotSet)
    → contains (record { pid = p; counter = pos n }) (pointwise_min s other)
      ≡ contains (record { pid = p; counter = pos n }) s
        && contains (record { pid = p; counter = pos n }) other
contains-pointwise_min p n s other = simp (contains-get, get-pointwise_min) (ground arith)

lower_pids-IsWf : (ps : List Pid) (other s : DotSet) → IsWf s → IsWf (lower_pids ps other s)
unfolding lower_pids
lower_pids-IsWf [] other s w = w
lower_pids-IsWf (q ∷ ps) other s w =
    lower_pids-IsWf ps other _ (set_counter-IsWf q (min_ℤ (get q s) (get q other)) s w)

pub pointwise_min-IsWf : (s other : DotSet) → IsWf s → IsWf (pointwise_min s other)
unfolding pointwise_min
pointwise_min-IsWf s other w = lower_pids-IsWf (Set.from_list (pids s ++ pids other)) other s w
