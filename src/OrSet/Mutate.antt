-- ===== src/OrSet/Mutate.antt =====
-- `mutate` and `query`: what a client sees of its own calls.
use gresse.Prelude.{
  ◌≡◌, ◌≢◌, refl, Bool, true, false, not, none, some, List, [], ◌∷◌, ite, if_pos, filter, All, Key,
  Ord, ok, ◌<ℤ◌, i64_max, succ_i64, arith,
}
use gresse.Set
use gresse.Dots.{Pid, Dot, dot_key}
use gresse.Dots.DotSet
use gresse.Dots.DotSet.{DotSet}
use gresse.Dots.DotSet.Increment
use gresse.OrSet.{
  OrSet, Delta, Mutation, Query, Response, Reply, answer, error, missing_pid, mutate, query,
  next_dot, record_delta, change_of, push_new, not_in, is_nil,
}
use gresse.OrSet.Entries.{dots_of, changed, dots_of-apply_change}
use gresse.OrSet.Invariant.{IsWf, record_delta-IsWf, push_new-ne_nil}

module _ {T : Type 0} ⦃key : Key T⦄ where
  -- The delta that a mutation logs.
  abbrev pub delta_of : Pid → Mutation T → OrSet T → Delta T
  delta_of p mutation s = record {
    dot = Increment.next_dot p s.version_vector;
    change = change_of mutation s.entries;
  }

  abbrev pub advanced : Pid → OrSet T → OrSet T
  advanced p s = record s {
    version_vector =
        DotSet.set_counter p (succ_i64 (DotSet.get p s.version_vector)) s.version_vector;
  }

  -- The state after a mutation.
  abbrev pub after_mutate : Pid → Mutation T → OrSet T → OrSet T
  after_mutate p mutation s = record_delta (delta_of p mutation s) (advanced p s)

  pub mutate_lem :
      (mutation : Mutation T) (s : OrSet T) {p : Pid}
      → s.pid ≡ some p
      → mutate mutation s ≡ ok (after_mutate p mutation s, answer Response.acknowledged)
  unfolding mutate next_dot
  mutate_lem mutation s {p} h = ground (arith, Increment.increment_and_get_lem p s.version_vector)

  -- Without a pid nothing is changed and the caller is told.
  pub mutate_missing_pid :
      (mutation : Mutation T) (s : OrSet T)
      → s.pid ≡ none
      → mutate mutation s ≡ ok (s, error missing_pid)
  unfolding mutate next_dot
  mutate_missing_pid mutation s h = ground arith

  pub mutate-IsWf :
      (mutation : Mutation T) (s : OrSet T) {p : Pid}
      → s.pid ≡ some p
      → DotSet.get p s.version_vector <ℤ i64_max
      → IsWf s
      → IsWf (after_mutate p mutation s)
  mutate-IsWf mutation s {p} h room w =
      record_delta-IsWf (delta_of p mutation s) s
        (Increment.next-Appends p s.version_vector w.logged.vector room) w

module _ {A : Type 0} ⦃key : Key A⦄ where
  All-contains_cons :
      (x : A) (r xs : List A)
      → All (λ d. Set.contains d r ≡ true) xs
      → All (λ d. Set.contains d (x ∷ r) ≡ true) xs
  unfolding Set.contains
  All-contains_cons x r [] h = tt
  All-contains_cons x r (y ∷ ys) h = (ground (arith, h.0), All-contains_cons x r ys h.1)

  All-contains_self : (xs : List A) → All (λ d. Set.contains d xs ≡ true) xs
  unfolding Set.contains
  All-contains_self [] = tt
  All-contains_self (x ∷ xs) =
      (if_pos (key.dec x x) refl _ _, All-contains_cons x xs xs (All-contains_self xs))

is_nil_of : (dots : List Dot) → dots ≢ [] → is_nil dots ≡ false
is_nil_of [] h = absurd (h refl)
is_nil_of (d ∷ dots) h = refl

filter_out :
    (r dots : List Dot) → All (λ d. Set.contains d r ≡ true) dots → filter (not_in r) dots ≡ []
unfolding filter
filter_out r [] h = refl
filter_out r (d ∷ dots) h = ground (arith, h.0, filter_out r dots h.1)

module _ {T : Type 0} ⦃key : Key T⦄ ⦃ord : Ord T⦄ where
  -- The answer to `Contains`.
  abbrev pub says : Bool → Reply (Response T)
  says b = answer (Response.contains b)

  pub query-contains :
      (x : T) (s : OrSet T) → query (Query.contains x) s ≡ says (not (is_nil (dots_of x s.entries)))
  unfolding query
  query-contains x s = ground arith

  abbrev pub target : Mutation T → T
  target (Mutation.insert x) = x
  target (Mutation.remove x) = x

  abbrev pub inserts : Mutation T → Bool
  inserts (Mutation.insert x) = true
  inserts (Mutation.remove x) = false

  dots_of-after_mutate :
      (x : T) (p : Pid) (mutation : Mutation T) (s : OrSet T)
      → dots_of x (after_mutate p mutation s).entries
        ≡ changed
            (change_of mutation s.entries)
            (Increment.next_dot p s.version_vector)
            x
            (dots_of x s.entries)
  unfolding record_delta
  dots_of-after_mutate x p mutation s =
      dots_of-apply_change (change_of mutation s.entries) (Increment.next_dot p s.version_vector) x
        s.entries

  -- With a pid set, a mutation is acknowledged, after it the element it names is contained exactly
  -- if it was an insertion, and the answer for every other element is as before.
  pub query-mutate :
      (x : T) (mutation : Mutation T) (s : OrSet T) {p : Pid}
      → s.pid ≡ some p
      → (s' : OrSet T) × (mutate mutation s ≡ ok (s', answer Response.acknowledged))
        × (query (Query.contains x) s'
            ≡ ite
                (key.dec (target mutation) x)
                (says (inserts mutation))
                (query (Query.contains x) s))
  query-mutate x mutation s {p} h = (
    after_mutate p mutation s,
    mutate_lem mutation s h,
    rw
        (
          query-contains x (after_mutate p mutation s),
          query-contains x s,
          dots_of-after_mutate x p mutation s,
        )
        (by_mutation mutation),
  )
    where
      d : Dot
      d = Increment.next_dot p s.version_vector

      by_mutation :
          (mutation : Mutation T)
          → says (not (is_nil (changed (change_of mutation s.entries) d x (dots_of x s.entries))))
            ≡ ite
                (key.dec (target mutation) x)
                (says (inserts mutation))
                (says (not (is_nil (dots_of x s.entries))))
      by_mutation (Mutation.insert e) =
          unfold change_of in
          ground (
            arith,
            push_new-ne_nil d (dots_of x s.entries),
            is_nil_of (push_new d (dots_of x s.entries)),
          )
      by_mutation (Mutation.remove e) =
          unfold change_of in
          ground (
            arith,
            filter_out (dots_of x s.entries) (dots_of x s.entries)
                (All-contains_self (dots_of x s.entries)),
          )
