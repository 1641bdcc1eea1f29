-- ===== src/Tests/Sets.antt =====
-- A set of numbers with an element of another replica.
use gresse.Prelude.{
  arith, filter, ℕ, pos, ◌≡◌, refl, false, some, [], ◌∷◌, ite, ok, nat_key, nat_ord, ℕ_discrete,
}
use gresse.Map
use gresse.Dots.{Dot}
use gresse.Dots.DotSet
use gresse.Dots.DotSet.{DotSet}
use gresse.Dots.DotMap
use gresse.Dots.DotMap.{DotMap}
use gresse.Dots.DotMap.Contents
use gresse.Dots.DotMap.Greater
use gresse.OrSet
use gresse.OrSet.{
  OrSet, Delta, Change, Mutation, Query, Response, answer, mutate, query, merge_deltas, set_pid,
}
use gresse.OrSet.Invariant
use gresse.OrSet.Mutate
use gresse.OrSet.Merge

abbrev dot : Dot
dot = record { pid = 2; counter = pos 0 }

abbrev delta : Delta ℕ
delta = record { dot = dot; change = Change.insert 7 }

abbrev set : OrSet ℕ
set = record {
  pid = some 1;
  entries = (7, dot ∷ []) ∷ [];
  delta_log = record { map = (2, (dot, delta) ∷ []) ∷ [] };
  version_vector = record { set = (2, pos 0) ∷ [] };
}

query-mutate_example :
    (s : OrSet ℕ) × (mutate (Mutation.remove 7) set ≡ ok (s, answer Response.acknowledged))
    × (query (Query.contains 7) s
        ≡ ite (nat_key.dec 7 7) (Mutate.says false) (query (Query.contains 7) set))
query-mutate_example = Mutate.query-mutate 7 (Mutation.remove 7) set refl

abbrev start : OrSet ℕ
start = record {
  pid = some 1;
  entries = [];
  delta_log = record { map = [] };
  version_vector = record { set = [] };
}

start-IsWf : Invariant.IsWf start
unfolding OrSet.new DotMap.new DotSet.new
start-IsWf =
    let w : Invariant.IsWf (OrSet.new {T = ℕ}) = Invariant.new-IsWf in
    record {
      logged = record { log = w.logged.log; vector = w.logged.vector; covered = w.logged.covered };
      distinct = tt;
      no_empty = w.no_empty;
    }

-- What the tests compute with.
abbrev program : Unit {0}
unfolding merge_deltas OrSet.merge_delta DotSet.contains DotSet.counter DotSet.insert
    DotSet.set_counter Map.get Map.insert Map.upsert OrSet.record_delta OrSet.apply_change
    OrSet.insert_dot gresse.Set.contains DotMap.insert ℕ_discrete
program = tt

merge_deltas-IsWf_example : Invariant.IsWf set
unfolding program
merge_deltas-IsWf_example = Merge.merge_deltas-IsWf (delta ∷ []) start start-IsWf refl

merge_deltas_again_example : merge_deltas (delta ∷ []) set ≡ ok set
unfolding program
merge_deltas_again_example = Merge.merge_deltas_again (delta ∷ []) start start-IsWf refl

-- A log of two entries of replica 1, of which a vector has the first.
abbrev first_dot : Dot
first_dot = record { pid = 1; counter = pos 0 }

abbrev second_dot : Dot
second_dot = record { pid = 1; counter = pos 1 }

abbrev log : DotMap ℕ
log = DotMap.insert second_dot 11 (DotMap.insert first_dot 10 DotMap.new)

log-IsWf : Contents.IsWf log
unfolding DotMap.insert DotMap.new Contents.entries Map.get Map.upsert Map.insert ℕ_discrete
log-IsWf =
    Contents.insert-IsWf second_dot 11 (DotMap.insert first_dot 10 DotMap.new) (omega arith, tt)
      (Contents.insert-IsWf first_dot 10 DotMap.new tt Contents.new-IsWf)

abbrev seen : DotSet
seen = record { set = (1, pos 0) ∷ [] }

seen-IsWf : Map.IsDistinct seen.set
unfolding Map.get
seen-IsWf = (refl, tt)

get_all_greater_iter_lem_example :
    Greater.of_pid 1 (DotMap.get_all_greater_iter seen log)
    ≡ filter (Greater.uncovered seen) (Contents.entries 1 log)
get_all_greater_iter_lem_example = Greater.get_all_greater_iter_lem 1 seen log log-IsWf seen-IsWf
