-- ===== src/Dots/DotSet.antt =====
-- `DotSet` of src/dots.rs: a version vector, the greatest counter seen of each replica.
pub mod Reads
pub mod Merge
pub mod Minimum
pub mod Increment
pub mod Compare
use Prim.Native.Nat.{Ordering}
use gresse.Prelude.{
  ℤ, Bool, true, false, Option, none, some, List, [], ◌∷◌, ◌++◌, ◌&&◌, ite, if◌then◌else◌, Outcome,
  ok, panic, ltb_ℤ, leb_ℤ, min_ℤ, max_ℤ, succ_i64, ℤ_discrete, nat_key, int_key,
}
use gresse.Map
use gresse.Map.{Map}
use gresse.Set
use gresse.Dots.{Pid, Counter, Dot, stable_replica_pid, unseen}

pub record DotSet : Type 0 where
  pub set : Map Pid Counter

-- `==` compares the two maps.
unfoldable pub eq : DotSet → DotSet → Bool
eq a b = Map.eq a.set b.set

unfoldable pub new : DotSet
new = record { set = Map.empty }

unfoldable pub get : Pid → DotSet → Counter
get pid s = elim (Map.get pid s.set) [ none ↦ unseen | some c ↦ c ]

unfoldable pub counter : Pid → DotSet → Option Counter
counter pid s = Map.get pid s.set

unfoldable pub pids : DotSet → List Pid
pids s = Map.keys s.set

unfoldable pub set_counter : Pid → Counter → DotSet → DotSet
set_counter pid c s = record { set = Map.insert pid c s.set }

unfoldable pub remove_pid : Pid → DotSet → DotSet
remove_pid pid s = record { set = Map.remove pid s.set }

-- The loop of `merge` over the other vector's entries.
unfoldable pub merge_entries : Map Pid Counter → Map Pid Counter → Map Pid Counter
merge_entries [] set = set
merge_entries ((pid, c) ∷ rest) set = merge_entries rest (Map.upsert pid (λ old. max_ℤ old c) c set)

unfoldable pub merge : DotSet → DotSet → DotSet
merge s other = record { set = merge_entries other.set s.set }

-- The loop of `pointwise_min` over the pids of both vectors.
unfoldable pub lower_pids : List Pid → DotSet → DotSet → DotSet
lower_pids [] other s = s
lower_pids (pid ∷ rest) other s =
    lower_pids rest other (set_counter pid (min_ℤ (get pid s) (get pid other)) s)

unfoldable pub pointwise_min : DotSet → DotSet → DotSet
pointwise_min s other = lower_pids (Set.from_list (pids s ++ pids other)) other s

-- The assertion fails after the write; what was written is lost with the panic.
unfoldable pub insert : Dot → DotSet → Outcome DotSet
insert dot s = elim (counter dot.pid s) [
  | some previous_value ↦
      ite (ℤ_discrete (succ_i64 previous_value) dot.counter)
        (ok (set_counter dot.pid dot.counter s)) panic
  | none ↦ ok (set_counter dot.pid dot.counter (set_counter dot.pid dot.counter s))
]

abbrev with_dot : Dot → Outcome DotSet → Outcome (DotSet × Dot)
with_dot dot panic = panic
with_dot dot (ok s) = ok (s, dot)

unfoldable pub increment_and_get : Pid → DotSet → Outcome (DotSet × Dot)
increment_and_get pid s = elim (counter pid s) [
  | some count ↦
      ok (set_counter pid (succ_i64 count) s, record { pid = pid; counter = succ_i64 count })
  | none ↦ let dot : Dot = record { pid = pid; counter = ℤ.pos 0 } in with_dot dot (insert dot s)
]

unfoldable pub contains : Dot → DotSet → Bool
contains dot s = elim (counter dot.pid s) [
  | none ↦ false
  | some this_counter ↦ leb_ℤ dot.counter this_counter
]

unfoldable pub gc_counter : DotSet → Counter
gc_counter s = get stable_replica_pid s

-- The flags `has_lower` and `has_greater` after the loop of `cmp` over the entries of `self`.
unfoldable pub cmp_flags : Map Pid Counter → DotSet → Bool → Bool → Bool × Bool
cmp_flags [] other has_lower has_greater = (has_lower, has_greater)
cmp_flags ((pid, c) ∷ rest) other has_lower has_greater =
    let greater = ltb_ℤ (get pid other) c in
    let lower = ltb_ℤ c (get pid other) in
    cmp_flags rest other (if greater then has_lower else if lower then true else has_lower)
      (if greater then true else has_greater)

abbrev order_of : Bool × Bool → Ordering
order_of (has_lower, has_greater) =
    if has_lower && has_greater then Ordering.eq else if has_lower then Ordering.lt else Ordering.gt

unfoldable pub cmp : DotSet → DotSet → Ordering
cmp s other = order_of (cmp_flags s.set other false false)

unfoldable pub is_concurrent_with : DotSet → DotSet → Bool
is_concurrent_with s other = elim (cmp s other) [ Ordering.eq ↦ true | _ ↦ false ]
