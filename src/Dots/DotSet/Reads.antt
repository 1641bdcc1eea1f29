-- ===== src/Dots/DotSet/Reads.antt =====
-- What a version vector answers after one write.
use gresse.Prelude.{
  ite, ◌≡◌, refl, Bool, false, Option, none, some, ℕ_discrete, nat_key, int_key, leb_ℤ, arith,
}
use gresse.Map
use gresse.Dots.{Pid, Counter, Dot, unseen}
use gresse.Dots.DotSet.{DotSet, new, get, counter, set_counter, remove_pid, contains}

-- Every `HashMap` holds a key once.
abbrev pub IsWf : DotSet → Type 0
IsWf s = Map.IsDistinct s.set

-- The reading of an optional counter by `get`, and by `contains`.
abbrev pub or_unseen : Option Counter → Counter
or_unseen none = unseen
or_unseen (some c) = c

abbrev pub covers : Counter → Option Counter → Bool
covers c none = false
covers c (some seen) = leb_ℤ c seen

pub get-counter : (p : Pid) (s : DotSet) → get p s ≡ or_unseen (counter p s)
unfolding get counter
get-counter p s = ground arith

module _ (p : Pid) (s : DotSet) where
  pub counter-set_counter :
      (q : Pid) (c : Counter)
      → counter p (set_counter q c s) ≡ ite (ℕ_discrete q p) (some c) (counter p s)
  unfolding set_counter counter
  counter-set_counter q c = Map.get-insert p q c s.set

  pub counter-remove_pid :
      (q : Pid) → counter p (remove_pid q s) ≡ ite (ℕ_discrete q p) none (counter p s)
  unfolding remove_pid counter
  counter-remove_pid q = Map.get-remove p q s.set

  pub get-set_counter :
      (q : Pid) (c : Counter) → get p (set_counter q c s) ≡ ite (ℕ_discrete q p) c (get p s)
  get-set_counter q c =
      ground (arith, get-counter p s, get-counter p (set_counter q c s), counter-set_counter q c)

pub contains-counter : (d : Dot) (s : DotSet) → contains d s ≡ covers d.counter (counter d.pid s)
unfolding contains
contains-counter d s = ground arith

pub counter-new : (p : Pid) → counter p new ≡ none
unfolding counter new Map.get
counter-new p = refl

pub set_counter-IsWf : (q : Pid) (c : Counter) (s : DotSet) → IsWf s → IsWf (set_counter q c s)
unfolding set_counter
set_counter-IsWf q c s w = Map.insert-IsDistinct q c s.set w

pub remove_pid-IsWf : (q : Pid) (s : DotSet) → IsWf s → IsWf (remove_pid q s)
unfolding remove_pid
remove_pid-IsWf q s w = Map.remove-IsDistinct q s.set w
