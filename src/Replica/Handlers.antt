-- ===== src/Replica/Handlers.antt =====
-- The handlers of src/replica.rs that are made of others, and what they leave of the journal's agreement.
use gresse.Prelude.{
  ◌≡◌, refl, ◌∙◌, Bool, true, false, Option, none, some, List, [], ◌∷◌, if◌then◌else◌, ◌&&◌,
  Outcome, ok, panic, ◌>>=◌, >>=-eq-ok, Bool-cases, Option-cases, inl, inr, ltb_ℤ, leb_ℤ,
  ℕ_discrete, nat_key, arith,
}
use gresse.Set
use gresse.Dots.{Pid, Counter, stable_replica_pid}
use gresse.Dots.DotSet
use gresse.Dots.DotSet.{DotSet}
use gresse.Dots.VersionMatrix
use gresse.Dots.VersionMatrix.{VersionMatrix}
use gresse.DeltaGroup.{DeltaGroup, GcMarker}
use gresse.Crdt
use gresse.Crdt.{Crdt, CrdtWrapper, current_gc_marker}
use gresse.Journal.{Serde}
use gresse.Replica.Descriptor.{ReplicaDescriptor, is_shutdown, is_stable_membership}
use gresse.Replica.{
  Replica, ReplicaMessage, SendResult, observe_gc, merge_logged, handle_delta,
  refresh_own_version_vector, refreshed, handle_version_vector, pull_delta, after_send,
  merge_shutdown_payload, handle_shutdown_descriptor, handle_departures, departed, run_gc, init_gc,
  next_marker, final_dot_of, nil_or,
}
use gresse.Replica.Durable.{own_pid-update, update_own_version_vector-eq-ok}
use gresse.Replica.Follows.{
  Follows, kept, unchanged, then_follows, merge_logged-Follows, apply_gc_marker-Follows,
  refresh-Follows, refreshed-Follows,
}

module _ {T D E M Value : Type 0} (ops : Crdt T D E M) (serde : Serde T D E M Value) where
  pub same-Follows : {r r' : Replica T} → ok r ≡ ok r' → Follows ops serde r r'
  same-Follows {r} {r'} h = let e : r' ≡ r = cc in rw e (unchanged ops serde r)

  observe_gc-Follows :
      (marker : GcMarker) (r : Replica T) {r' : Replica T}
      → observe_gc ops serde marker r ≡ ok r'
      → Follows ops serde r r'
  unfolding observe_gc
  observe_gc-Follows marker r {r'} h = elim (ℕ_discrete marker.marker.pid stable_replica_pid) [
    | no n ↦ same-Follows (ground arith)
    | yes p ↦
        elim (Bool-cases (leb_ℤ marker.marker.counter (current_gc_marker r.crdt_wrapper).counter)) [
          | inl old ↦ same-Follows (ground arith)
          | inr newer ↦ apply_gc_marker-Follows ops serde marker r (ground arith)
        ]
  ]

  pub handle_delta-Follows :
      (delta : DeltaGroup D E) (metadata : GcMarker) (r : Replica T) {r' : Replica T}
      → handle_delta ops serde delta metadata r ≡ ok r'
      → Follows ops serde r r'
  unfolding handle_delta
  handle_delta-Follows delta metadata r {r'} h =
      elim (Bool-cases (
        ltb_ℤ (DotSet.gc_counter delta.version_vector)
          (current_gc_marker r.crdt_wrapper).counter)) [
            | inl refused ↦ same-Follows (ground arith)
            | inr current ↦
                let rest : Replica T → Outcome (Replica T) =
                  λ r1. (merge_logged ops serde delta r1 >>= refreshed ops serde) in
                let h' : (observe_gc ops serde metadata r >>= rest) ≡ ok r' = ground arith in
                let (r1, observed, h1) = >>=-eq-ok (observe_gc ops serde metadata r) rest h' in
                let (r2, merged, h2) =
                  >>=-eq-ok (merge_logged ops serde delta r1) (refreshed ops serde) h1 in
                then_follows ops serde (observe_gc-Follows metadata r observed) (
                  then_follows ops serde (merge_logged-Follows ops serde delta r1 merged)
                    (refreshed-Follows ops serde r2 h2))
          ]

  after_send-Follows :
      (pid : Pid) (sending : SendResult) (r : Replica T)
      → Follows ops serde r (after_send pid sending r)
  after_send-Follows pid SendResult.sent r = unchanged ops serde r
  after_send-Follows pid SendResult.full r = unchanged ops serde r
  after_send-Follows pid SendResult.closed r = kept ops serde r _ refl refl refl refl

  pub pull_delta-Follows :
      (chosen : Option Pid) (sending : SendResult) (r : Replica T)
      {u : Replica T × Option (ReplicaMessage D E)}
      → pull_delta ops serde chosen sending r ≡ ok u
      → Follows ops serde r (u.0)
  unfolding pull_delta
  pull_delta-Follows none sending r {u} h =
      let pair : Replica T × Option (ReplicaMessage D E) = (r, none) in
      let e : u ≡ pair = cc in rw e (unchanged ops serde r)
  pull_delta-Follows (some peer) sending r {u} h =
      let next : Replica T × DotSet → Outcome (Replica T × Option (ReplicaMessage D E)) =
        λ v. ok (after_send peer sending (v.0), some (ReplicaMessage.version_vector r.pid (v.1))) in
      let (v, made, last) = >>=-eq-ok (refresh_own_version_vector ops serde r) next h in
      let pair : Replica T × Option (ReplicaMessage D E) =
        (after_send peer sending (v.0), some (ReplicaMessage.version_vector r.pid (v.1))) in
      let e : u ≡ pair = cc in
      rw e (
        then_follows ops serde (refresh-Follows ops serde r made)
          (after_send-Follows peer sending (v.0)))

  pub handle_version_vector-Follows :
      (pid : Pid) (vv : DotSet) (sending : SendResult) (r : Replica T)
      {u : Replica T × Option (ReplicaMessage D E)}
      → handle_version_vector ops serde pid vv sending r ≡ ok u
      → Follows ops serde r (u.0)
  unfolding handle_version_vector
  handle_version_vector-Follows pid vv sending r {u} h =
      let reply : CrdtWrapper × DotSet → GcMarker → Replica T × Option (ReplicaMessage D E) =
        λ v metadata. elim (Set.contains pid r.writers) [
          | false ↦ (record r { crdt_wrapper = v.0 }, none)
          | true ↦ (
            after_send pid sending (record r { crdt_wrapper = v.0 }),
            some (
                ReplicaMessage.delta_group
                  (record (ops.get_delta vv r.crdt) { version_vector = v.1 }) metadata),
          )
        ] in
      let answer : CrdtWrapper × DotSet → Outcome (Replica T × Option (ReplicaMessage D E)) =
        λ v. (Crdt.gc_metadata (v.0) >>= λ metadata. ok (reply v metadata)) in
      let given : VersionMatrix → CrdtWrapper = λ m. record r.crdt_wrapper { version_matrix = m } in
      let rest : VersionMatrix → Outcome (Replica T × Option (ReplicaMessage D E)) = λ m.
        (Crdt.update_own_version_vector (ops.get_delta vv r.crdt).version_vector (given m)
          >>= answer) in
      let (m, updated, h1) =
        >>=-eq-ok (VersionMatrix.update pid vv (r.crdt_wrapper).version_matrix) rest h in
      let (v, stamped, h2) =
        >>=-eq-ok
          (Crdt.update_own_version_vector (ops.get_delta vv r.crdt).version_vector (given m)) answer
          h1 in
      let (metadata, found, made) =
        >>=-eq-ok (Crdt.gc_metadata (v.0)) (λ metadata. ok (reply v metadata)) h2 in
      let (markers, own) = update_own_version_vector-eq-ok _ (given m) stamped in
      let own' : Crdt.own_pid (given m) ≡ Crdt.own_pid r.crdt_wrapper =
        unfold Crdt.own_pid in own_pid-update pid vv (r.crdt_wrapper).version_matrix updated in
      let e : u ≡ reply v metadata = cc in
      let wrapped =
        kept ops serde r (record r { crdt_wrapper = v.0 }) refl refl markers (own ∙ own') in
      rw e (elim (Bool-cases (Set.contains pid r.writers)) [
        | inl there ↦ rw there (
            then_follows ops serde wrapped
              (after_send-Follows pid sending (record r { crdt_wrapper = v.0 })))
        | inr gone ↦ rw gone wrapped
      ])

  merge_shutdown_payload-Follows :
      (payload : Option T) (r : Replica T) {u : Replica T × Bool}
      → merge_shutdown_payload ops serde payload r ≡ ok u
      → Follows ops serde r (u.0)
  unfolding merge_shutdown_payload
  merge_shutdown_payload-Follows none r {u} h =
      let pair : Replica T × Bool = (r, false) in
      let e : u ≡ pair = cc in rw e (unchanged ops serde r)
  merge_shutdown_payload-Follows (some left) r {u} h =
      let delta = ops.get_delta (ops.get_version_vector r.crdt) left in
      let next : Replica T → Outcome (Replica T × Bool) = λ r2. ok (r2, true) in
      let rest : Replica T → Outcome (Replica T × Bool) = λ r1. (refreshed ops serde r1 >>= next) in
      let merging = nil_or delta.list (ok r) (merge_logged ops serde delta r) in
      let (r1, merged, h1) = >>=-eq-ok merging rest h in
      let (r2, again, h2) = >>=-eq-ok (refreshed ops serde r1) next h1 in
      let pair : Replica T × Bool = (r2, true) in
      let e : u ≡ pair = cc in
      rw e
        (then_follows ops serde (by_list delta.list merged) (refreshed-Follows ops serde r1 again))
    where
      by_list :
          (ds : List D) {r1 : Replica T}
          → nil_or ds
              (ok r)
              (merge_logged ops serde (ops.get_delta (ops.get_version_vector r.crdt) left) r)
            ≡ ok r1
          → Follows ops serde r r1
      by_list [] m = same-Follows m
      by_list (_ ∷ _) m = merge_logged-Follows ops serde _ r m

  module _ {Addr : Type 0} where
    departed-Follows :
        (d : ReplicaDescriptor Addr) (c : Counter) (merged : Replica T × Bool)
        → Follows ops serde (merged.0) (departed d c merged)
    departed-Follows d c (r, false) = unchanged ops serde r
    departed-Follows d c (r, true) =
        unfold Crdt.observe_departed_replica Crdt.own_pid VersionMatrix.insert_final_dot in
        kept ops serde r _ refl refl refl refl

    pub handle_shutdown_descriptor-Follows :
        (d : ReplicaDescriptor Addr) (payload : Option T) (r : Replica T) {r' : Replica T}
        → handle_shutdown_descriptor ops serde d payload r ≡ ok r'
        → Follows ops serde r r'
    unfolding handle_shutdown_descriptor
    handle_shutdown_descriptor-Follows d payload r {r'} h = elim (Option-cases d.final_counter) [
      | inl e ↦ let clash : panic ≡ ok r' = ground arith in absurd cc
      | inr (c, e) ↦
          elim (Bool-cases (Crdt.should_fetch_departed_replica (final_dot_of d c) r.crdt_wrapper)) [
            | inr known ↦ same-Follows (ground arith)
            | inl new ↦
                let next : Replica T × Bool → Outcome (Replica T) =
                  λ merged. ok (departed d c merged) in
                let h' : (merge_shutdown_payload ops serde payload r >>= next) ≡ ok r' =
                  ground arith in
                let (merged, m, made) =
                  >>=-eq-ok (merge_shutdown_payload ops serde payload r) next h' in
                let e' : r' ≡ departed d c merged = cc in
                rw e' (
                  then_follows ops serde (merge_shutdown_payload-Follows payload r m)
                    (departed-Follows d c merged))
          ]
    ]

    pub handle_departures-Follows :
        (ds : List (ReplicaDescriptor Addr)) (payloads : ReplicaDescriptor Addr → Option T)
        (r : Replica T) {r' : Replica T}
        → handle_departures ops serde ds payloads r ≡ ok r'
        → Follows ops serde r r'
    unfolding handle_departures
    handle_departures-Follows [] payloads r h = same-Follows h
    handle_departures-Follows (d ∷ ds) payloads r {r'} h = elim (Bool-cases (is_shutdown d)) [
      | inr alive ↦ handle_departures-Follows ds payloads r (ground arith)
      | inl down ↦
          let next = handle_departures ops serde ds payloads in
          let h' : (handle_shutdown_descriptor ops serde d (payloads d) r >>= next) ≡ ok r' =
            ground arith in
          let (r1, one, rest) =
            >>=-eq-ok (handle_shutdown_descriptor ops serde d (payloads d) r) next h' in
          then_follows ops serde (handle_shutdown_descriptor-Follows d (payloads d) r one)
            (handle_departures-Follows ds payloads r1 rest)
    ]

    run_gc-Follows :
        (previous : List (ReplicaDescriptor Addr)) (created : Bool)
        (current : Option (List (ReplicaDescriptor Addr)))
        (found : Option DotSet × Option (List Pid)) (r : Replica T) {r' : Replica T}
        → run_gc ops serde previous created current found r ≡ ok r'
        → Follows ops serde r r'
    run_gc-Follows previous created current (none, departed_pids) r h = same-Follows h
    run_gc-Follows previous created current (some stable, departed_pids) r h =
        elim (Bool-cases (created && is_stable_membership r.pid previous current)) [
          | inl go ↦
              apply_gc_marker-Follows ops serde (next_marker stable departed_pids r) r
                (ground arith)
          | inr stay ↦ same-Follows (ground arith)
        ]

    pub init_gc-Follows :
        (previous : List (ReplicaDescriptor Addr)) (created : Bool)
        (current : Option (List (ReplicaDescriptor Addr))) (r : Replica T) {r' : Replica T}
        → init_gc ops serde previous created current r ≡ ok r'
        → Follows ops serde r r'
    unfolding init_gc
    init_gc-Follows previous created current r {r'} h =
        let last : Replica T → Bool → Option DotSet × Option (List Pid) → Outcome (Replica T) =
          λ r1 due found.
            (if due then run_gc ops serde previous created current found r1 else ok r1) in
        let chosen : Replica T → Bool → Outcome (Replica T) =
          λ r1 due. (VersionMatrix.get_stable (r1.crdt_wrapper).version_matrix >>= last r1 due) in
        let rest : Replica T → Outcome (Replica T) =
          λ r1. (Crdt.needs_gc r1.crdt_wrapper >>= chosen r1) in
        let (r1, again, h1) = >>=-eq-ok (refreshed ops serde r) rest h in
        let (due, needed, h2) = >>=-eq-ok (Crdt.needs_gc r1.crdt_wrapper) (chosen r1) h1 in
        let (found, stable, h3) =
          >>=-eq-ok (VersionMatrix.get_stable (r1.crdt_wrapper).version_matrix) (last r1 due) h2 in
        then_follows ops serde (refreshed-Follows ops serde r again) (by_due due found h3)
      where
        by_due :
            {r1 : Replica T} (due : Bool) (found : Option DotSet × Option (List Pid))
            → (if due then run_gc ops serde previous created current found r1 else ok r1) ≡ ok r'
            → Follows ops serde r1 r'
        by_due false found m = same-Follows m
        by_due true found m = run_gc-Follows previous created current found _ m
