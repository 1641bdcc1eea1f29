-- ===== src/OrSet/Invariant.antt =====
-- What holds of every reachable set: the log is in order and within the version vector, and no
-- element is kept without dots.
use gresse.Prelude.{
  ◌≡◌, ◌≢◌, refl, Bool, true, false, Option, none, some, List, [], ◌∷◌, ◌++◌, ite, if_pos, if_neg,
  if◌then◌else◌, All, All-append, Key, ℕ_discrete, nat_key, ◌<ℤ◌, filter, arith, Option-cases, inl,
  inr,
}
use gresse.Map
use gresse.Map.{Map}
use gresse.Set
use gresse.Dots.{Pid, Dot, dot_key}
use gresse.Dots.DotSet
use gresse.Dots.DotSet.{DotSet}
use gresse.Dots.DotSet.Reads
use gresse.Dots.DotSet.Increment
use gresse.Dots.DotSet.Increment.{Appends}
use gresse.Dots.DotMap
use gresse.Dots.DotMap.{DotMap}
use gresse.Dots.DotMap.Contents
use gresse.OrSet.{
  OrSet, Delta, Change, insert, remove, new, insert_dot, remove_dots, apply_change, record_delta,
  push_new, not_in, is_nil,
}

pub push_new-ne_nil : (d : Dot) (dots : List Dot) → push_new d dots ≢ []
unfolding Set.contains
push_new-ne_nil d [] = λ e. cc
push_new-ne_nil d (x ∷ dots) = λ e. ground arith

is_nil_nil : is_nil [] ≡ true
is_nil_nil = refl

module _ {T : Type 0} where
  -- The vector has every dot of these entries.
  abbrev pub Covered : DotSet → List (Dot × Delta T) → Type 0
  Covered vv = All (λ e. DotSet.contains e.0 vv ≡ true)

  pub record IsLogged (s : OrSet T) : Type 0 where
    pub log : Contents.IsWf s.delta_log
    pub vector : Reads.IsWf s.version_vector
    pub covered : (p : Pid) → Covered s.version_vector (Contents.entries p s.delta_log)

  Covered-Appends :
      {d : Dot} {vv vv' : DotSet} (a : Appends d vv vv') (es : List (Dot × Delta T))
      → Covered vv es
      → Covered vv' es
  Covered-Appends a [] h = tt
  Covered-Appends {d} a (e ∷ es) h =
      (Increment.contains-Appends d e.0 a h.0, Covered-Appends a es h.1)

  older :
      {d : Dot} {vv vv' : DotSet} (a : Appends d vv vv') (es : List (Dot × Delta T))
      → All (Contents.HasPid d.pid) es
      → Covered vv es
      → All (λ e. e.0.counter <ℤ d.counter) es
  older a [] p h = tt
  older {d} a (e ∷ es) p h = (Increment.lt_of_Appends d e.0 a p.0 h.0, older a es p.1 h.1)

  pub new-IsLogged : IsLogged (new {T = T})
  unfolding new DotMap.new DotSet.new Map.get
  new-IsLogged = record { log = Contents.new-IsWf; vector = tt; covered = λ p. tt }

module _ {T : Type 0} ⦃key : Key T⦄ where
  -- One more delta, under the dot that its replica makes next.
  pub record_delta-IsLogged :
      (delta : Delta T) (s : OrSet T) {vv : DotSet}
      → Appends delta.dot s.version_vector vv
      → IsLogged s
      → IsLogged (record_delta delta (record s { version_vector = vv }))
  unfolding record_delta
  record_delta-IsLogged delta s {vv} a w = record {
    log =
        Contents.insert-IsWf delta.dot delta s.delta_log
          (older a (Contents.entries delta.dot.pid s.delta_log) (w.log.pids delta.dot.pid)
            (w.covered delta.dot.pid))
          w.log;
    vector = a.wf;
    covered = λ p. rw Contents.entries-insert (ite_covered p);
  }
    where
      before : (p : Pid) → Covered vv (Contents.entries p s.delta_log)
      before p = Covered-Appends a (Contents.entries p s.delta_log) (w.covered p)

      ite_covered :
          (p : Pid)
          → Covered vv (
              ite
                (ℕ_discrete delta.dot.pid p)
                (Contents.entries p s.delta_log ++ (delta.dot, delta) ∷ [])
                (Contents.entries p s.delta_log))
      ite_covered p = elim (ℕ_discrete delta.dot.pid p) [
        | yes e ↦
            rw
              (if_pos (ℕ_discrete delta.dot.pid p) e
                (Contents.entries p s.delta_log ++ (delta.dot, delta) ∷ []))
              (All-append (λ e. DotSet.contains e.0 vv ≡ true) (Contents.entries p s.delta_log)
                ((delta.dot, delta) ∷ []) (before p)
                (Increment.contains-Appends_self delta.dot a, tt))
        | no n ↦
            rw
              (if_neg (ℕ_discrete delta.dot.pid p) n
                (Contents.entries p s.delta_log ++ (delta.dot, delta) ∷ []))
              (before p)
      ]

  -- No element is kept without dots.
  abbrev pub HasNoEmpty : Map T (List Dot) → Type 0
  HasNoEmpty entries = (x : T) → Map.get x entries ≢ some []

  apply_insert-HasNoEmpty :
      (e : T) (d : Dot) (m : Map T (List Dot)) → HasNoEmpty m → HasNoEmpty (insert_dot e d m)
  unfolding insert_dot
  apply_insert-HasNoEmpty e d m h x q = elim (Option-cases (Map.get e m)) [
    | inl absent ↦
        ground (arith, Map.get-upsert x e (push_new d) (push_new d []) m, push_new-ne_nil d [], h x)
    | inr (dots, found) ↦
        ground
          (arith, Map.get-upsert x e (push_new d) (push_new d []) m, push_new-ne_nil d dots, h x)
  ]

  apply_remove-HasNoEmpty :
      (e : T) (removed : List Dot) (m : Map T (List Dot))
      → HasNoEmpty m
      → HasNoEmpty (remove_dots e removed m)
  unfolding remove_dots
  apply_remove-HasNoEmpty e removed m h x q = elim (Option-cases (Map.get e m)) [
    | inl absent ↦ ground (arith, h x)
    | inr (dots, found) ↦
        let kept = filter (not_in removed) dots in
        ground (arith, Map.get-remove x e m, Map.get-insert x e kept m, h x, is_nil_nil)
  ]

  pub apply_change-HasNoEmpty :
      (c : Change T) (d : Dot) (m : Map T (List Dot))
      → HasNoEmpty m
      → HasNoEmpty (apply_change c d m)
  unfolding apply_change
  apply_change-HasNoEmpty (insert e) d m h = apply_insert-HasNoEmpty e d m h
  apply_change-HasNoEmpty (remove e removed) d m h = apply_remove-HasNoEmpty e removed m h

  pub apply_change-IsDistinct :
      (c : Change T) (d : Dot) (m : Map T (List Dot))
      → Map.IsDistinct m
      → Map.IsDistinct (apply_change c d m)
  unfolding apply_change insert_dot remove_dots
  apply_change-IsDistinct (insert e) d m h =
      Map.upsert-IsDistinct e (push_new d) (push_new d []) m h
  apply_change-IsDistinct (remove e removed) d m h = by_dots (Map.get e m)
    where
      by_rest :
          (b : Bool) (kept : List Dot)
          → Map.IsDistinct (if b then Map.remove e m else Map.insert e kept m)
      by_rest true kept = Map.remove-IsDistinct e m h
      by_rest false kept = Map.insert-IsDistinct e kept m h

      by_dots :
          (o : Option (List Dot))
          → Map.IsDistinct (elim o [
            | none ↦ m
            | some dots ↦
                let kept = filter (not_in removed) dots in
                if is_nil kept then Map.remove e m else Map.insert e kept m
          ])
      by_dots none = h
      by_dots (some dots) =
          by_rest (is_nil (filter (not_in removed) dots)) (filter (not_in removed) dots)

  pub record IsWf (s : OrSet T) : Type 0 where
    pub logged : IsLogged s
    pub distinct : Map.IsDistinct s.entries
    pub no_empty : HasNoEmpty s.entries

  pub new-IsWf : IsWf (new {T = T})
  unfolding new Map.get
  new-IsWf = record { logged = new-IsLogged; distinct = tt; no_empty = λ x e. cc }

  pub record_delta-IsWf :
      (delta : Delta T) (s : OrSet T) {vv : DotSet}
      → Appends delta.dot s.version_vector vv
      → IsWf s
      → IsWf (record_delta delta (record s { version_vector = vv }))
  record_delta-IsWf delta s {vv} a w = record {
    logged = record_delta-IsLogged delta s a w.logged;
    distinct =
        unfold record_delta in apply_change-IsDistinct delta.change delta.dot s.entries w.distinct;
    no_empty =
        unfold record_delta in apply_change-HasNoEmpty delta.change delta.dot s.entries w.no_empty;
  }
