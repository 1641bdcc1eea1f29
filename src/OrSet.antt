-- ===== src/OrSet.antt =====
-- `ORSet<T>` of src/orset.rs: an observed-remove set that logs its deltas.
pub mod Entries
pub mod Invariant
pub mod Mutate
pub mod Merge
pub mod Range
pub mod Complete
pub mod Exchange
pub mod Cluster
pub mod Collect
use gresse.Prelude.{
  ℕ, Bool, true, false, not, ◌&&◌, Option, none, some, List, [], ◌∷◌, ◌++◌, map, if◌then◌else◌,
  length, filter, Key, Ord, Outcome, ok, panic, ◌>>=◌, sort_by, nat_key,
}
use gresse.Map
use gresse.Map.{Map}
use gresse.Set
use gresse.Dots.{Pid, Dot, dot_key}
use gresse.Dots.DotSet
use gresse.Dots.DotSet.{DotSet}
use gresse.Dots.DotMap
use gresse.Dots.DotMap.{DotMap}
use gresse.DeltaGroup.{DeltaGroup}

pub data Mutation (T : Type 0) : Type 0 where
  insert : T → Mutation T
  remove : T → Mutation T

pub data Query (T : Type 0) : Type 0 where
  contains : T → Query T
  elements : Query T
  meta : Query T

pub record Meta : Type 0 where
  pub entry_count : ℕ
  pub delta_log_count : ℕ

pub data Response (T : Type 0) : Type 0 where
  acknowledged : Response T
  contains : Bool → Response T
  elements : List T → Response T
  meta : Meta → Response T

-- A removal takes away the dots that it has seen.
pub data Change (T : Type 0) : Type 0 where
  insert : T → Change T
  remove : T → List Dot → Change T

pub record Delta (T : Type 0) : Type 0 where
  pub dot : Dot
  pub change : Change T

pub data Error : Type 0 where
  missing_pid : Error

-- `Result<A, OrSetError>`.
pub data Reply (A : Type 0) : Type 0 where
  answer : A → Reply A
  error : Error → Reply A

pub record OrSet (T : Type 0) : Type 0 where
  pub pid : Option Pid
  pub entries : Map T (List Dot)
  pub delta_log : DotMap (Delta T)
  pub version_vector : DotSet

module _ {T : Type 0} where
  unfoldable pub new : OrSet T
  new = record {
    pid = none;
    entries = Map.empty;
    delta_log = DotMap.new;
    version_vector = DotSet.new;
  }

  unfoldable pub set_pid : Pid → OrSet T → OrSet T
  set_pid pid s = record s { pid = some pid }

  abbrev counted : OrSet T → Outcome (DotSet × Dot) → Outcome (OrSet T × Reply Dot)
  counted s panic = panic
  counted s (ok (vv, dot)) = ok (record s { version_vector = vv }, answer dot)

  -- `self.pid.ok_or(MissingPid)?`, and the counter of the pid.
  unfoldable pub next_dot : OrSet T → Outcome (OrSet T × Reply Dot)
  next_dot s = elim s.pid [
    | none ↦ ok (s, error missing_pid)
    | some pid ↦ counted s (DotSet.increment_and_get pid s.version_vector)
  ]

  unfoldable pub get_meta : OrSet T → Meta
  get_meta s = record { entry_count = length s.entries; delta_log_count = DotMap.len s.delta_log }

abbrev pub push_new : Dot → List Dot → List Dot
push_new dot dots = if Set.contains dot dots then dots else dots ++ dot ∷ []

abbrev pub not_in : List Dot → Dot → Bool
not_in removed dot = not (Set.contains dot removed)

abbrev pub or_nil : Option (List Dot) → List Dot
or_nil none = []
or_nil (some dots) = dots

abbrev pub is_nil : List Dot → Bool
is_nil [] = true
is_nil (_ ∷ _) = false

abbrev pub listed : Option (List Pid) → List Pid
listed none = []
listed (some pids) = Set.from_list pids

unfoldable pub remove_all : List Pid → DotSet → DotSet
remove_all [] vv = vv
remove_all (pid ∷ pids) vv = remove_all pids (DotSet.remove_pid pid vv)

module _ {T : Type 0} ⦃key : Key T⦄ where
  unfoldable pub insert_dot : T → Dot → Map T (List Dot) → Map T (List Dot)
  insert_dot element dot entries = Map.upsert element (push_new dot) (push_new dot []) entries

  unfoldable pub remove_dots : T → List Dot → Map T (List Dot) → Map T (List Dot)
  remove_dots element removed entries = elim (Map.get element entries) [
    | none ↦ entries
    | some dots ↦
        let kept = filter (not_in removed) dots in
        if is_nil kept then Map.remove element entries else Map.insert element kept entries
  ]

  -- What a mutation records: a removal lists the dots that the element has here.
  unfoldable pub change_of : Mutation T → Map T (List Dot) → Change T
  change_of (insert element) entries = insert element
  change_of (remove element) entries = remove element (or_nil (Map.get element entries))

  unfoldable pub apply_change : Change T → Dot → Map T (List Dot) → Map T (List Dot)
  apply_change (insert element) dot entries = insert_dot element dot entries
  apply_change (remove element removed) dot entries = remove_dots element removed entries

  -- The change is made, and logged under its dot.
  unfoldable pub record_delta : Delta T → OrSet T → OrSet T
  record_delta delta s = record s {
    entries = apply_change delta.change delta.dot s.entries;
    delta_log = DotMap.insert delta.dot delta s.delta_log;
  }

  abbrev mutated : Mutation T → OrSet T × Reply Dot → OrSet T × Reply (Response T)
  mutated mutation (s, error e) = (s, error e)
  mutated mutation (s, answer dot) = (
    record_delta (record { dot = dot; change = change_of mutation s.entries }) s,
    answer acknowledged,
  )

  unfoldable pub mutate : Mutation T → OrSet T → Outcome (OrSet T × Reply (Response T))
  mutate mutation s = do next ← next_dot s; ok (mutated mutation next)

  -- One round of the loop of `merge_delta_group`.
  unfoldable pub merge_delta : Delta T → OrSet T → Outcome (OrSet T)
  merge_delta delta s = if DotSet.contains delta.dot s.version_vector then ok s else do
    vv ← DotSet.insert delta.dot s.version_vector
    ok (record_delta delta (record s { version_vector = vv }))

  unfoldable pub merge_deltas : List (Delta T) → OrSet T → Outcome (OrSet T)
  merge_deltas [] s = ok s
  merge_deltas (delta ∷ deltas) s = do s' ← merge_delta delta s; merge_deltas deltas s'

  unfoldable pub merge_delta_group : DeltaGroup (Delta T) (Unit {0}) → OrSet T → Outcome (OrSet T)
  merge_delta_group group s = merge_deltas group.list s

module _ {T : Type 0} ⦃key : Key T⦄ ⦃ord : Ord T⦄ where
  unfoldable pub query : Query T → OrSet T → Reply (Response T)
  query (contains element) s =
      answer (
        contains
          (elim (Map.get element s.entries) [ none ↦ false | some dots ↦ not (is_nil dots) ]))
  query elements s = answer (elements (sort_by ord.le (Map.keys s.entries)))
  query meta s = answer (meta (get_meta s))

module _ {T : Type 0} where
  unfoldable pub get_delta : DotSet → OrSet T → DeltaGroup (Delta T) (Unit {0})
  get_delta version_vector s = record {
    list = map (λ e. e.1) (DotMap.get_all_greater_iter version_vector s.delta_log);
    side_effects = none;
    version_vector = s.version_vector;
  }

  unfoldable pub gc : DotSet → Option (List Pid) → OrSet T → OrSet T
  gc stable departed_pids s = record s {
    delta_log =
        DotMap.retain
          (λ dot _.
            not (DotSet.contains dot stable) && not (Set.contains dot.pid (listed departed_pids)))
          s.delta_log;
    version_vector = remove_all (listed departed_pids) s.version_vector;
  }
