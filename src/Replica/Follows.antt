-- ===== src/Replica/Follows.antt =====
-- What each handler of src/replica.rs leaves of the agreement between the replica and its journal.
use gresse.Prelude.{
  ◌≡◌, refl, sym, ◌∙◌, false, List, [], ◌∷◌, ◌++◌, Outcome, ok, >>=-eq-ok, nat_key, arith, All,
}
use gresse.Dots.{Pid}
use gresse.Dots.DotSet.{DotSet}
use gresse.DeltaGroup.{DeltaGroup, GcMarker}
use gresse.Crdt
use gresse.Crdt.{Crdt, CrdtWrapper, PersistentReplica, current_gc_marker, push_gc_marker}
use gresse.Journal.{Serde, append_mutation, append_delta_group, append_gc_marker, collect}
use gresse.Journal.Recovery.{Entry, perform}
use gresse.Replica.{
  Replica, handle_mutation, apply_gc_marker, merge_logged, refresh_own_version_vector, refreshed,
}
use gresse.Replica.Durable.{
  IsDurable, lists, logged_step, push_gc_marker-eq-ok, push_gc_marker-HasOwnRow,
  update_own_version_vector-eq-ok,
}

-- No marker of the list names the replica as departed.
abbrev pub Spared : Pid → List GcMarker → Type 0
Spared pid markers = All (λ marker. lists marker pid ≡ false) markers

Spared-left : (pid : Pid) (xs ys : List GcMarker) → Spared pid (xs ++ ys) → Spared pid xs
Spared-left pid [] ys h = tt
Spared-left pid (x ∷ xs) ys h = (h.0, Spared-left pid xs ys h.1)

pub Spared-right : (pid : Pid) (xs ys : List GcMarker) → Spared pid (xs ++ ys) → Spared pid ys
Spared-right pid [] ys h = h
Spared-right pid (x ∷ xs) ys h = Spared-right pid xs ys h.1

append_nil : {A : Type 0} (xs : List A) → xs ++ [] ≡ xs
append_nil [] = refl
append_nil (x ∷ xs) = rw (append_nil xs) refl

append_assoc : {A : Type 0} (xs ys zs : List A) → (xs ++ ys) ++ zs ≡ xs ++ (ys ++ zs)
append_assoc [] ys zs = refl
append_assoc (x ∷ xs) ys zs = rw (append_assoc xs ys zs) refl

module _ {T D E M Value : Type 0} (ops : Crdt T D E M) (serde : Serde T D E M Value) where
  -- The replica keeps its pid and its markers, and the journal holds what leads to it, unless a marker
  -- taken on the way names the replica.
  pub record Follows (r r' : Replica T) : Type 0 where
    pub own : Crdt.own_pid r'.crdt_wrapper ≡ Crdt.own_pid r.crdt_wrapper
    pub taken : List GcMarker
    pub markers : (r'.crdt_wrapper).gc_markers ≡ (r.crdt_wrapper).gc_markers ++ taken
    pub durable :
        Spared (Crdt.own_pid r.crdt_wrapper) taken → IsDurable ops serde r → IsDurable ops serde r'

  -- The data, the journal, the markers and the pid are as before.
  pub kept :
      (r r' : Replica T)
      → r'.durability_journal ≡ r.durability_journal
      → r'.crdt ≡ r.crdt
      → (r'.crdt_wrapper).gc_markers ≡ (r.crdt_wrapper).gc_markers
      → Crdt.own_pid r'.crdt_wrapper ≡ Crdt.own_pid r.crdt_wrapper
      → Follows r r'
  kept r r' j c m o = record {
    own = o;
    taken = [];
    markers = m ∙ sym (append_nil (r.crdt_wrapper).gc_markers);
    durable = λ s d. record {
      start = d.start;
      base = d.base;
      entries = d.entries;
      back = d.back;
      enabled = d.enabled;
      logged = j ∙ d.logged;
      performed = d.performed;
      same_state = d.same_state ∙ sym c;
      same_markers = d.same_markers ∙ sym m;
      same_pid = d.same_pid ∙ sym o;
      own_row = d.own_row;
    };
  }

  pub unchanged : (r : Replica T) → Follows r r
  unchanged r = kept r r refl refl refl refl

  pub then_follows : {a b c : Replica T} → Follows a b → Follows b c → Follows a c
  then_follows {a} {b} {c} f g = record {
    own = g.own ∙ f.own;
    taken = f.taken ++ g.taken;
    markers = rw (g.markers, f.markers) (append_assoc (a.crdt_wrapper).gc_markers f.taken g.taken);
    durable = λ s d.
        g.durable (rw f.own (Spared-right _ f.taken g.taken s))
          (f.durable (Spared-left _ f.taken g.taken s) d);
  }

  pub handle_mutation-Follows :
      (m : M) (r : Replica T) {r' : Replica T}
      → handle_mutation ops serde m r ≡ ok r'
      → Follows r r'
  unfolding handle_mutation
  handle_mutation-Follows m r {r'} h =
      let after : T → Replica T = λ t. record r {
        crdt = t;
        durability_journal = append_mutation ops serde m r.durability_journal;
      } in
      let next : T → Outcome (Replica T) = λ t. ok (after t) in
      let (t, changed, made) = >>=-eq-ok (ops.mutate m r.crdt) next h in
      let e : r' ≡ after t = ground arith in
      rw e (record {
        own = refl;
        taken = [];
        markers = sym (append_nil (r.crdt_wrapper).gc_markers);
        durable = λ s d.
            logged_step ops serde (Entry.mutation m) r (after t) d
              (record d.back { local_state = t }) refl
              (unfold perform in rw (d.same_state, changed) refl) refl d.same_markers d.same_pid
              d.own_row;
      })

  pub merge_logged-Follows :
      (delta : DeltaGroup D E) (r : Replica T) {r' : Replica T}
      → merge_logged ops serde delta r ≡ ok r'
      → Follows r r'
  unfolding merge_logged
  merge_logged-Follows delta r {r'} h =
      let after : T → Replica T = λ t. record r {
        crdt = t;
        durability_journal = append_delta_group ops serde delta r.durability_journal;
      } in
      let next : T → Outcome (Replica T) = λ t. ok (after t) in
      let (t, changed, made) = >>=-eq-ok (ops.merge_delta_group delta r.crdt) next h in
      let e : r' ≡ after t = ground arith in
      rw e (record {
        own = refl;
        taken = [];
        markers = sym (append_nil (r.crdt_wrapper).gc_markers);
        durable = λ s d.
            logged_step ops serde (Entry.delta delta) r (after t) d
              (record d.back { local_state = t }) refl
              (unfold perform in rw (d.same_state, changed) refl) refl d.same_markers d.same_pid
              d.own_row;
      })

  pub apply_gc_marker-Follows :
      (marker : GcMarker) (r : Replica T) {r' : Replica T}
      → apply_gc_marker ops serde marker r ≡ ok r'
      → Follows r r'
  unfolding apply_gc_marker
  apply_gc_marker-Follows marker r {r'} h =
      let after : CrdtWrapper → Replica T = λ w. record r {
        crdt = ops.gc marker.stable marker.departed_pids r.crdt;
        crdt_wrapper = w;
        durability_journal = append_gc_marker ops serde marker r.durability_journal;
      } in
      let next : CrdtWrapper → Outcome (Replica T) = λ w. ok (after w) in
      let (w, pushed, made) = >>=-eq-ok (push_gc_marker marker r.crdt_wrapper) next h in
      let (markers, own) = push_gc_marker-eq-ok marker r.crdt_wrapper pushed in
      let e : r' ≡ after w = ground arith in
      rw e (record {
        own = own;
        taken = marker ∷ [];
        markers = markers;
        durable = λ spared d.
            let (v, pushed', markers', own', row) =
              push_gc_marker-HasOwnRow marker d.back.crdt_wrapper d.own_row
                (rw d.same_pid spared.0) in
            let last : PersistentReplica T = record {
              local_state = ops.gc marker.stable marker.departed_pids d.back.local_state;
              crdt_wrapper = v;
            } in
            logged_step ops serde (Entry.marker marker) r (after w) d last refl
              (unfold perform collect in rw pushed' refl) (rw d.same_state refl)
              (rw (markers', markers, d.same_markers) refl) (rw (own', own) d.same_pid) row;
      })

  pub refresh-Follows :
      (r : Replica T) {u : Replica T × DotSet}
      → refresh_own_version_vector ops serde r ≡ ok u
      → Follows r (u.0)
  unfolding refresh_own_version_vector
  refresh-Follows r {u} h =
      let next : CrdtWrapper × DotSet → Outcome (Replica T × DotSet) =
        λ v. ok (record r { crdt_wrapper = v.0 }, v.1) in
      let (v, updated, made) =
        >>=-eq-ok (Crdt.update_own_version_vector (ops.get_version_vector r.crdt) r.crdt_wrapper)
          next h in
      let (markers, own) =
        update_own_version_vector-eq-ok (ops.get_version_vector r.crdt) r.crdt_wrapper updated in
      let pair : Replica T × DotSet = (record r { crdt_wrapper = v.0 }, v.1) in
      let e : u ≡ pair = ground arith in
      rw e (kept r (record r { crdt_wrapper = v.0 }) refl refl markers own)

  pub refreshed-Follows :
      (r : Replica T) {r' : Replica T} → refreshed ops serde r ≡ ok r' → Follows r r'
  refreshed-Follows r {r'} h =
      let (u, made, last) = >>=-eq-ok (refresh_own_version_vector ops serde r) (λ u. ok (u.0)) h in
      let e : r' ≡ u.0 = ground arith in rw e (refresh-Follows r made)
