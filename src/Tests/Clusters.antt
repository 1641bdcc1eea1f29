-- ===== src/Tests/Clusters.antt =====
-- Replicas 1 and 2 of a set of numbers; replica 1 has inserted 7.
use gresse.Prelude.{
  ℕ, ◌+◌, ◌≤◌, ◌<◌, ◌≡◌, refl, true, false, none, some, List, [], ◌∷◌, ok, ◌<ℤ◌, i64_max, pos,
  ℕ_discrete, nat_key, nat_ord, arith, length, All,
}
use gresse.Map
use gresse.Dots.{Pid, dot_key}
use gresse.Dots.DotSet
use gresse.Dots.DotMap
use gresse.Dots.DotMap.Contents.{entries}
use gresse.Dots.DotMap.Greater.{of_pid}
use gresse.OrSet
use gresse.OrSet.{OrSet, Mutation, new, set_pid, Query, query, gc, merge_delta_group, get_delta}
use gresse.OrSet.Mutate.{after_mutate, delta_of, mutate-IsWf}
use gresse.OrSet.Invariant.{IsWf, new-IsWf}
use gresse.OrSet.Range.{last_of}
use gresse.OrSet.Complete
use gresse.OrSet.Complete.{most, count, IsComplete}
use gresse.OrSet.Exchange
use gresse.OrSet.Cluster
use gresse.OrSet.Collect

abbrev empty_one : OrSet ℕ
empty_one = set_pid 1 new

abbrev one : OrSet ℕ
one = after_mutate 1 (Mutation.insert 7) empty_one

abbrev two : OrSet ℕ
two = set_pid 2 new

empty-IsComplete : (p : Pid) → IsComplete (set_pid p (new {T = ℕ}))
empty-IsComplete p = Complete.set_pid-IsComplete p new Complete.new-IsComplete

empty_room : (p q : Pid) → count q (set_pid p (new {T = ℕ})) < most
empty_room p q = omega (arith, Complete.count-new ℕ p q)

one-IsComplete : IsComplete one
one-IsComplete =
    Complete.record_delta-IsComplete 1 (delta_of 1 (Mutation.insert 7) empty_one) empty_one
      (empty-IsComplete 1) (empty_room 1 1)
      (Complete.next_dot-IsComplete 1 empty_one (empty-IsComplete 1) (empty_room 1 1))

one_room : (q : Pid) → count q one ≤ most
one_room q =
    let grown =
      Complete.count-after 1 q (delta_of 1 (Mutation.insert 7) empty_one) empty_one refl in
    ground (arith, grown, Complete.count-new ℕ 1 q)

two_room : (q : Pid) → count q two ≤ most
two_room q = omega (arith, Complete.count-new ℕ 2 q)

merge_delta_group-get_delta_example :
    (t : OrSet ℕ) × (merge_delta_group (get_delta two.version_vector one) two ≡ ok t)
    × IsComplete t
    × ((p : Pid)
        → DotSet.counter p t.version_vector ≡ last_of (Exchange.max_ℕ (count p two) (count p one)))
merge_delta_group-get_delta_example =
    Exchange.merge_delta_group-get_delta one two one-IsComplete (empty-IsComplete 2) one_room
      two_room

abbrev events : List (Cluster.Event ℕ)
events =
    Cluster.change 1 (Mutation.insert 7)
    ∷ Cluster.change 2 (Mutation.insert 8)
    ∷ Cluster.pull 2 1
    ∷ Cluster.change 2 (Mutation.remove 7)
    ∷ Cluster.pull 1 2
    ∷ []

run-start_example :
    (c : Cluster.Cluster ℕ) × (Cluster.run events Cluster.start ≡ ok c)
    × ((i : Pid) → IsComplete (c i))
run-start_example = Cluster.run-start events (omega arith)

one-dropped :
    All (Collect.HasDropped one.version_vector one.version_vector none) (entries 1 one.delta_log)
unfolding OrSet.record_delta OrSet.change_of set_pid new DotMap.new DotSet.new DotMap.insert
    DotSet.set_counter DotSet.get DotSet.counter DotSet.contains Map.get Map.insert Map.upsert
    ℕ_discrete gresse.Prelude.succ_i64
one-dropped = (λ _. refl, tt)

get_all_greater_iter-gc_example :
    of_pid 1
      (DotMap.get_all_greater_iter one.version_vector (gc one.version_vector none one).delta_log)
    ≡ of_pid 1 (DotMap.get_all_greater_iter one.version_vector one.delta_log)
get_all_greater_iter-gc_example =
    Collect.get_all_greater_iter-gc 1 one.version_vector one.version_vector none one
      (one-IsComplete.logged) (one-IsComplete.logged.vector) one-dropped

empty-IsWf : IsWf empty_one
unfolding set_pid new DotMap.new DotSet.new
empty-IsWf =
    let w : IsWf (new {T = ℕ}) = new-IsWf in
    record {
      logged = record { log = w.logged.log; vector = w.logged.vector; covered = w.logged.covered };
      distinct = tt;
      no_empty = w.no_empty;
    }

empty_pid : empty_one.pid ≡ some 1
unfolding set_pid
empty_pid = refl

first_room : DotSet.get 1 empty_one.version_vector <ℤ i64_max
unfolding set_pid new DotSet.new DotSet.get Map.get
first_room = omega arith

gc-IsWf_example :
    IsWf (gc one.version_vector none one)
    × ((x : ℕ)
        → query (Query.contains x) (gc one.version_vector none one) ≡ query (Query.contains x) one)
    × (query Query.elements (gc one.version_vector none one) ≡ query Query.elements one)
gc-IsWf_example =
    Collect.gc-IsWf one.version_vector none one
      (mutate-IsWf (Mutation.insert 7) empty_one empty_pid first_room empty-IsWf)
