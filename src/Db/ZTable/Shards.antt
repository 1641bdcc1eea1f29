-- ===== src/Db/ZTable/Shards.antt =====
-- The functions of `ZTable` that read every shard: `iter_all`, `is_empty` and `map_reduce_active`.
use gresse.Prelude.{
  ℕ, suc, ◌≡◌, refl, Bool, true, false, ◌&&◌, List, [], ◌∷◌, ◌++◌, if◌then◌else◌, ltb_ℤ, ℤ, Outcome,
  ok, ◌>>=◌,
}
use gresse.Db.ZTable.{ZTable, Shard}

if_either : {A : Type 0} {a b : A} (test : Bool) → a ≡ b → (if test then a else b) ≡ b
if_either true e = e
if_either false e = refl

module _ {K V : Type 0} where
  abbrev active : Shard K V → List (K × V)
  active [] = []
  active ((k, (w, v)) ∷ shard) =
      let rest = active shard in if ltb_ℤ (ℤ.pos 0) w then (k, v) ∷ rest else rest

  abbrev all_active : List (Shard K V) → List (K × V)
  all_active [] = []
  all_active (shard ∷ shards) = active shard ++ all_active shards

  unfoldable iter_all : ZTable K V → List (K × V)
  iter_all t = all_active t.shards

  abbrev is_empty_shard : Shard K V → Bool
  is_empty_shard [] = true
  is_empty_shard (entry ∷ shard) = false

  abbrev all_empty : List (Shard K V) → Bool
  all_empty [] = true
  all_empty (shard ∷ shards) = is_empty_shard shard && all_empty shards

  unfoldable is_empty : ZTable K V → Bool
  is_empty t = all_empty t.shards

  -- `has_runtime` is whether `Handle::try_current` finds a runtime, `join` what awaiting a task that
  -- computed a value gives: that value, or an error of the runtime, on which `expect` panics.
  module _ {ShardOutput Output : Type 0} (has_runtime : Bool)
      (join : ShardOutput → Outcome ShardOutput) (map_shard : ℕ → Shard K V → ShardOutput)
      (reduce : Output → ShardOutput → Output) where
    -- The loop without a runtime.
    unfoldable reduce_here : ℕ → List (Shard K V) → Output → Output
    reduce_here i [] output = output
    reduce_here i (shard ∷ shards) output =
        reduce_here (suc i) shards (reduce output (map_shard i shard))

    -- The values of the tasks, in the order in which they are spawned.
    unfoldable spawn_all : ℕ → List (Shard K V) → List ShardOutput
    spawn_all i [] = []
    spawn_all i (shard ∷ shards) = map_shard i shard ∷ spawn_all (suc i) shards

    unfoldable await_all : List ShardOutput → Output → Outcome Output
    await_all [] output = ok output
    await_all (handle ∷ handles) output = do
      shard_output ← join handle
      await_all handles (reduce output shard_output)

    -- The tasks of a runtime, or the loop.
    unfoldable on_runtime : List (Shard K V) → Output → Outcome Output
    on_runtime shards init =
        if has_runtime then await_all (spawn_all 0 shards) init else ok (reduce_here 0 shards init)

    unfoldable over_shards : List (Shard K V) → Output → Outcome Output
    over_shards [] init = on_runtime [] init
    over_shards (shard ∷ []) init = ok (reduce init (map_shard 0 shard))
    over_shards (shard ∷ other ∷ shards) init = on_runtime (shard ∷ other ∷ shards) init

    unfoldable map_reduce_active : ZTable K V → Output → Outcome Output
    map_reduce_active t init = over_shards t.shards init

    await_all-spawn_all :
        ((output : ShardOutput) → join output ≡ ok output)
        → (i : ℕ) (shards : List (Shard K V)) (output : Output)
        → await_all (spawn_all i shards) output ≡ ok (reduce_here i shards output)
    unfolding reduce_here spawn_all await_all
    await_all-spawn_all joins i [] output = refl
    await_all-spawn_all joins i (shard ∷ shards) output =
        rw (joins (map_shard i shard))
          (await_all-spawn_all joins (suc i) shards (reduce output (map_shard i shard)))

    on_runtime_lem :
        ((output : ShardOutput) → join output ≡ ok output)
        → (shards : List (Shard K V)) (init : Output)
        → on_runtime shards init ≡ ok (reduce_here 0 shards init)
    unfolding on_runtime
    on_runtime_lem joins shards init =
        if_either has_runtime (await_all-spawn_all joins 0 shards init)

    over_shards_lem :
        ((output : ShardOutput) → join output ≡ ok output)
        → (shards : List (Shard K V)) (init : Output)
        → over_shards shards init ≡ ok (reduce_here 0 shards init)
    unfolding over_shards reduce_here
    over_shards_lem joins [] init = on_runtime_lem joins [] init
    over_shards_lem joins (shard ∷ []) init = refl
    over_shards_lem joins (shard ∷ other ∷ shards) init =
        on_runtime_lem joins (shard ∷ other ∷ shards) init

    -- Where every task of a runtime gives its value, the result is that of the loop over the shards
    -- in order, with one shard or more, with a runtime or without.
    map_reduce_active_lem :
        ((output : ShardOutput) → join output ≡ ok output)
        → (t : ZTable K V) (init : Output)
        → map_reduce_active t init ≡ ok (reduce_here 0 t.shards init)
    unfolding map_reduce_active
    map_reduce_active_lem joins t init = over_shards_lem joins t.shards init
