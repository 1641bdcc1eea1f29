-- ===== src/OrSet/Collect.antt =====
-- `gc`: which deltas it drops, and that nobody who has the frontier misses them.
use gresse.Prelude.{
  ◌≡◌, refl, Bool, true, false, not, ◌&&◌, if◌then◌else◌, Bool-cases, inl, inr, Option, none, List,
  [], ◌∷◌, filter, filter-filter, filter_congr, All, nat_key, arith, ap, sym, ◌∙◌, Key, Ord,
}
use gresse.Set
use gresse.Dots.{Pid, Dot, dot_key}
use gresse.Dots.DotSet
use gresse.Dots.DotSet.{DotSet}
use gresse.Dots.DotSet.Reads
use gresse.Dots.DotMap
use gresse.Dots.DotMap.Contents
use gresse.Dots.DotMap.Contents.{entries, HasPid, entries-retain, retain-IsWf}
use gresse.Dots.DotMap.Greater.{of_pid, uncovered, get_all_greater_iter_lem}
use gresse.OrSet.{OrSet, Delta, Query, query, gc, listed, remove_all}
use gresse.OrSet.Invariant.{IsLogged, IsWf, Covered}

-- Whether `gc` keeps a delta.
abbrev pub is_kept : DotSet → Option (List Pid) → Dot → Bool
is_kept stable departed_pids dot =
    not (DotSet.contains dot stable) && not (Set.contains dot.pid (listed departed_pids))

module _ {T : Type 0} where
  abbrev kept_entry : DotSet → Option (List Pid) → Dot × Delta T → Bool
  kept_entry stable departed_pids e = is_kept stable departed_pids (e.0)

  entries-gc :
      (p : Pid) (stable : DotSet) (departed_pids : Option (List Pid)) (s : OrSet T)
      → IsLogged s
      → entries p (gc stable departed_pids s).delta_log
        ≡ filter (kept_entry stable departed_pids) (entries p s.delta_log)
  unfolding gc
  entries-gc p stable departed_pids s w =
      entries-retain p (λ dot _. is_kept stable departed_pids dot) s.delta_log w.log.distinct

  -- Every delta that is dropped is in the vector.
  abbrev pub HasDropped : DotSet → DotSet → Option (List Pid) → Dot × Delta T → Type 0
  HasDropped vv stable departed_pids e =
      is_kept stable departed_pids (e.0) ≡ false → DotSet.contains (e.0) vv ≡ true

  same_answers :
      (vv stable : DotSet) (departed_pids : Option (List Pid)) (es : List (Dot × Delta T))
      → All (HasDropped vv stable departed_pids) es
      → All (λ e. (kept_entry stable departed_pids e && uncovered vv e) ≡ uncovered vv e) es
  same_answers vv stable departed_pids [] h = tt
  same_answers vv stable departed_pids (e ∷ es) h =
      (ground (arith, h.0), same_answers vv stable departed_pids es h.1)

  log-gc :
      (stable : DotSet) (departed_pids : Option (List Pid)) (s : OrSet T)
      → IsLogged s
      → Contents.IsWf (gc stable departed_pids s).delta_log
  unfolding gc
  log-gc stable departed_pids s w =
      retain-IsWf (λ dot _. is_kept stable departed_pids dot) s.delta_log w.log

  -- On a well-formed log and a vector that holds each replica once and has every delta of a
  -- replica that is dropped, the deltas of that replica that are new to the vector are the same
  -- before a garbage collection and after it.
  pub get_all_greater_iter-gc :
      (p : Pid) (vv stable : DotSet) (departed_pids : Option (List Pid)) (s : OrSet T)
      → IsLogged s
      → Reads.IsWf vv
      → All (HasDropped vv stable departed_pids) (entries p s.delta_log)
      → of_pid p (DotMap.get_all_greater_iter vv (gc stable departed_pids s).delta_log)
        ≡ of_pid p (DotMap.get_all_greater_iter vv s.delta_log)
  get_all_greater_iter-gc p vv stable departed_pids s w v h =
      get_all_greater_iter_lem p vv (gc stable departed_pids s).delta_log
        (log-gc stable departed_pids s w) v
      ∙ ap (filter (uncovered vv)) (entries-gc p stable departed_pids s w)
      ∙ filter-filter (uncovered vv) (kept_entry stable departed_pids) (entries p s.delta_log)
      ∙ filter_congr (λ e. kept_entry stable departed_pids e && uncovered vv e) (uncovered vv)
          (entries p s.delta_log) (same_answers vv stable departed_pids (entries p s.delta_log) h)
      ∙ sym (get_all_greater_iter_lem p vv s.delta_log w.log v)

counter-remove_all :
    (p : Pid) (pids : List Pid) (vv : DotSet)
    → DotSet.counter p (remove_all pids vv)
      ≡ (if Set.contains p pids then none else DotSet.counter p vv)
unfolding remove_all Set.contains
counter-remove_all p [] vv = refl
counter-remove_all p (q ∷ pids) vv =
    ground
      (arith, counter-remove_all p pids (DotSet.remove_pid q vv), Reads.counter-remove_pid p vv q)

remove_all-IsWf : (pids : List Pid) (vv : DotSet) → Reads.IsWf vv → Reads.IsWf (remove_all pids vv)
unfolding remove_all
remove_all-IsWf [] vv w = w
remove_all-IsWf (p ∷ pids) vv w =
    remove_all-IsWf pids (DotSet.remove_pid p vv) (Reads.remove_pid-IsWf p vv w)

contains-kept :
    (d : Dot) (vv stable : DotSet) (departed_pids : Option (List Pid))
    → DotSet.contains d vv ≡ true
    → is_kept stable departed_pids d ≡ true
    → DotSet.contains d (remove_all (listed departed_pids) vv) ≡ true
contains-kept d vv stable departed_pids h k =
    let here : Set.contains d.pid (listed departed_pids) ≡ false = ground (arith, k) in
    let same : DotSet.counter d.pid (remove_all (listed departed_pids) vv)
        ≡ DotSet.counter d.pid vv =
      counter-remove_all d.pid (listed departed_pids) vv ∙ ground (arith, here) in
    Reads.contains-counter d (remove_all (listed departed_pids) vv)
    ∙ ap (Reads.covers d.counter) same
    ∙ sym (Reads.contains-counter d vv)
    ∙ h

module _ {T : Type 0} where
  Covered-kept :
      (p : Pid) (vv stable : DotSet) (departed_pids : Option (List Pid)) (es : List (Dot × Delta T))
      → All (HasPid p) es
      → Covered vv es
      → Covered (remove_all (listed departed_pids) vv) (filter (kept_entry stable departed_pids) es)
  unfolding filter
  Covered-kept p vv stable departed_pids [] h k = tt
  Covered-kept p vv stable departed_pids (e ∷ es) h k =
      let later = Covered-kept p vv stable departed_pids es h.1 k.1 in
      elim (Bool-cases (kept_entry stable departed_pids e)) [
        | inr dropped ↦ rw dropped later
        | inl kept ↦
            let stays : DotSet.contains e.0 (remove_all (listed departed_pids) vv) ≡ true =
              contains-kept e.0 vv stable departed_pids k.0 kept in
            rw kept (stays, later)
      ]

  gc-IsLogged :
      (stable : DotSet) (departed_pids : Option (List Pid)) (s : OrSet T)
      → IsLogged s
      → IsLogged (gc stable departed_pids s)
  gc-IsLogged stable departed_pids s w = record {
    log = log-gc stable departed_pids s w;
    vector = unfold gc in remove_all-IsWf (listed departed_pids) s.version_vector w.vector;
    covered = λ p. rw (entries-gc p stable departed_pids s w) (
        unfold gc in
        Covered-kept p s.version_vector stable departed_pids (entries p s.delta_log) (w.log.pids p)
          (w.covered p));
  }

module _ {T : Type 0} ⦃key : Key T⦄ ⦃ord : Ord T⦄ where
  -- A garbage collection keeps a well-formed set well-formed and changes neither which elements it
  -- contains nor the list of its elements.
  pub gc-IsWf :
      (stable : DotSet) (departed_pids : Option (List Pid)) (s : OrSet T)
      → IsWf s
      → IsWf (gc stable departed_pids s)
        × ((x : T)
            → query (Query.contains x) (gc stable departed_pids s) ≡ query (Query.contains x) s)
        × (query Query.elements (gc stable departed_pids s) ≡ query Query.elements s)
  gc-IsWf stable departed_pids s w = (
    record {
      logged = gc-IsLogged stable departed_pids s w.logged;
      distinct = unfold gc in w.distinct;
      no_empty = unfold gc in w.no_empty;
    },
    λ x. unfold gc query in refl,
    unfold gc query in refl,
  )
