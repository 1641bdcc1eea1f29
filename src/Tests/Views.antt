-- ===== src/Tests/Views.antt =====
-- A view, a composite view, a table of weights and a network manager.
use gresse.Prelude.{
  ℕ, pos, ◌≡◌, ◌<◌, refl, true, false, Option, none, some, List, [], ◌∷◌, ite, ok, nat_key, nat_ord,
  ℕ_discrete, ℤ_discrete, arith, succ_i64, pred_i64, ltb_ℤ, if◌then◌else◌,
}
use gresse.Map
use gresse.Set
use gresse.Db.Index.{holds, pair_key}
use gresse.Db.View
use gresse.Db.View.Consistent
use gresse.Db.CompositeView
use gresse.Db.CompositeView.Lookup
use gresse.Db.ZTable
use gresse.Db.ZTable.{ZTable}
use gresse.Db.ZTable.Weights
use gresse.Network
use gresse.Network.Liveness
use gresse.Replica.Descriptor.{ReplicaDescriptor}

abbrev calls : List (Consistent.Op ℕ ℕ)
calls = Consistent.put 1 5 ∷ Consistent.put 2 5 ∷ Consistent.put 1 6 ∷ Consistent.take_value 5 ∷ []

view_agrees_example :
    holds 6 1 (Consistent.apply_all calls View.new).value_to_keys
    ≡ Consistent.is_value (View.get_value 1 (Consistent.apply_all calls View.new)) 6
view_agrees_example = Consistent.view_agrees calls 1 6

abbrev composite_calls : List (Lookup.Op ℕ ℕ)
composite_calls = Lookup.put 1 5 9 ∷ Lookup.put 2 5 8 ∷ Lookup.take_s 1 ∷ []

get_by_key_u-apply_all_example :
    (found : Option (List ((ℕ × ℕ) × ℕ))) × (CompositeView.get_by_key_u 5
        (Lookup.apply_all composite_calls CompositeView.new)
      ≡ ok found)
get_by_key_u-apply_all_example = Lookup.get_by_key_u-apply_all composite_calls 5

-- Two shards, for the even and the odd keys.
abbrev table : ZTable ℕ ℕ
table = record { shards = ((4, (pos 1, 40)) ∷ []) ∷ [] ∷ [] }

abbrev same : ℕ → ℕ
same k = k

two_shards : 0 < 2
two_shards = omega arith

get_weight-insert_example :
    ((ZTable.insert same 0 4 41 table).1 ≡ succ_i64 (ZTable.get_weight same 0 4 table))
    × (ZTable.get_weight same 0 4 ((ZTable.insert same 0 4 41 table).0)
        ≡ ite
            (ℕ_discrete 4 4)
            (succ_i64 (ZTable.get_weight same 0 4 table))
            (ZTable.get_weight same 0 4 table))
    × (ZTable.get same 0 4 ((ZTable.insert same 0 4 41 table).0)
        ≡ ite
            (ℕ_discrete 4 4)
            (if ltb_ℤ (succ_i64 (ZTable.get_weight same 0 4 table)) (pos 1) then none else some 41)
            (ZTable.get same 0 4 table))
get_weight-insert_example = Weights.get_weight-insert same 0 4 4 41 table two_shards

get_weight-remove_example :
    ((ZTable.remove same 0 4 table).1 ≡ pred_i64 (ZTable.get_weight same 0 4 table))
    × (ZTable.get_weight same 0 4 ((ZTable.remove same 0 4 table).0)
        ≡ ite
            (ℕ_discrete 4 4)
            (pred_i64 (ZTable.get_weight same 0 4 table))
            (ZTable.get_weight same 0 4 table))
    × (Map.is_some (Map.get 4 (ZTable.shard same 0 4 ((ZTable.remove same 0 4 table).0)))
        ≡ ite (ℤ_discrete (pred_i64 (ZTable.get_weight same 0 4 table)) (pos 0)) false true)
get_weight-remove_example = Weights.get_weight-remove same 0 4 4 table two_shards

abbrev leaver : Network.Member
leaver = record { pid = 2; address = 80; gc_counter = pos 0; final_counter = some (pos 3) }

abbrev events : List Network.Event
events = Network.member 0 leaver ∷ Network.result 1 (Network.established none 2 true) ∷ []

dead_stays_apart_example :
    (Set.contains 2 (Network.run events (Network.new 1 70)).connected_members ≡ false)
    × (Set.contains 2 (Network.run events (Network.new 1 70)).connecting_members ≡ false)
unfolding Network.run Network.handle Network.handle_new_member Network.handle_connection_result
    Network.register Network.new Set.contains Set.insert Set.remove ℕ_discrete
    gresse.Replica.Descriptor.is_shutdown
dead_stays_apart_example = Liveness.dead_stays_apart 1 70 events 2 refl
