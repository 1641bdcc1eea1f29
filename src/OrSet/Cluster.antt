-- ===== src/OrSet/Cluster.antt =====
-- Replicas of an observed-remove set that make mutations and pull from one another, in any order, while
-- nothing is collected.
use gresse.Prelude.{
  ℕ, suc, ◌+◌, ◌≤◌, ◌<◌, ◌≡◌, refl, some, List, [], ◌∷◌, ite, if_pos, if_neg, length, ℕ_discrete,
  nat_key, arith, ◌∙◌, Key, Outcome, ok, ◌>>=◌,
}
use mathlib.Core.Path.{subst}
use gresse.Dots.{Pid}
use gresse.OrSet.{OrSet, Mutation, new, set_pid, mutate, merge_delta_group, get_delta}
use gresse.OrSet.Mutate.{after_mutate, mutate_lem, delta_of}
use gresse.OrSet.Complete.{
  most, count, counting, IsComplete, new-IsComplete, set_pid-IsComplete, count-new,
  next_dot-IsComplete, count-after, record_delta-IsComplete,
}
use gresse.OrSet.Range.{dot_at}
use gresse.OrSet.Exchange.{pull_lem, pid-record_delta}

-- A change that a client asks of a replica, or a replica that pulls from another one.
pub data Event (T : Type 0) : Type 0 where
  change : Pid → Mutation T → Event T
  pull : Pid → Pid → Event T

-- The sets of all replicas.
abbrev pub Cluster : Type 0 → Type 0
Cluster T = Pid → OrSet T

module _ {T : Type 0} ⦃key : Key T⦄ where
  abbrev put : Pid → OrSet T → Cluster T → Cluster T
  put i s c j = ite (ℕ_discrete i j) s (c j)

  unfoldable pub step : Event T → Cluster T → Outcome (Cluster T)
  step (change i m) c = do r ← mutate m (c i); ok (put i (r.0) c)
  step (pull i j) c = do
    s ← merge_delta_group (get_delta (c i).version_vector (c j)) (c i)
    ok (put i s c)

  unfoldable pub run : List (Event T) → Cluster T → Outcome (Cluster T)
  run [] c = ok c
  run (e ∷ events) c = do c' ← step e c; run events c'

  -- Every replica starts with an empty set.
  unfoldable pub start : Cluster T
  start i = set_pid i new

  -- At most `n` deltas of a replica are anywhere.
  pub record IsSound (n : ℕ) (i : Pid) (s : OrSet T) : Type 0 where
    pub complete : IsComplete s
    pub bounded : (p : Pid) → count p s ≤ n
    pub own : s.pid ≡ some i

  abbrev pub AllSound : ℕ → Cluster T → Type 0
  AllSound n c = (i : Pid) → IsSound n i (c i)

  mutate-IsSound :
      (n : ℕ) (i : Pid) (m : Mutation T) (s : OrSet T)
      → n < most
      → IsSound n i s
      → IsSound (suc n) i (after_mutate i m s)
  mutate-IsSound n i m s h w = record {
    complete = record_delta-IsComplete i (delta_of i m s) s w.complete below dot;
    bounded = λ p.
        let grown = count-after i p (delta_of i m s) s refl in ground (arith, grown, w.bounded p);
    own = pid-record_delta (delta_of i m s) (counting i s) ∙ w.own;
  }
    where
      below : count i s < most
      below = omega (arith, w.bounded i, h)

      dot : (delta_of i m s).dot ≡ dot_at i (count i s)
      dot = next_dot-IsComplete i s w.complete below

  later-IsSound : (n : ℕ) (i : Pid) (s : OrSet T) → IsSound n i s → IsSound (suc n) i s
  later-IsSound n i s w = record {
    complete = w.complete;
    bounded = λ p. omega (arith, w.bounded p);
    own = w.own;
  }

  put-AllSound :
      (n : ℕ) (i : Pid) (s : OrSet T) (c : Cluster T)
      → IsSound (suc n) i s
      → AllSound n c
      → AllSound (suc n) (put i s c)
  put-AllSound n i s c w h j = elim (ℕ_discrete i j) [
    | yes same ↦ rw (if_pos (ℕ_discrete i j) same) (subst (λ (k : Pid). IsSound (suc n) k s) same w)
    | no other ↦ rw (if_neg (ℕ_discrete i j) other) (later-IsSound n j (c j) (h j))
  ]

  step-AllSound :
      (n : ℕ) (e : Event T) (c : Cluster T)
      → n < most
      → AllSound n c
      → (c' : Cluster T) × (step e c ≡ ok c') × AllSound (suc n) c'
  unfolding step
  step-AllSound n (change i m) c h w =
      let s = after_mutate i m (c i) in
      (
        put i s c,
        rw (mutate_lem m (c i) (w i).own) refl,
        put-AllSound n i s c (mutate-IsSound n i m (c i) h (w i)) w,
      )
  step-AllSound n (pull i j) c h w =
      let (s, (merged, complete, counts, same_pid)) =
        pull_lem (c j) (c i) (w j).complete (w i).complete (λ p. omega (arith, (w j).bounded p, h))
          (λ p. omega (arith, (w i).bounded p, h)) in
      let sound : IsSound n i s = record {
        complete = complete;
        bounded = λ p. ground (arith, counts p, (w j).bounded p, (w i).bounded p);
        own = same_pid ∙ (w i).own;
      } in
      (put i s c, rw merged refl, put-AllSound n i s c (later-IsSound n i s sound) w)

  run-AllSound :
      (n : ℕ) (events : List (Event T)) (c : Cluster T)
      → n + length events ≤ most
      → AllSound n c
      → (c' : Cluster T) × (run events c ≡ ok c') × AllSound (n + length events) c'
  unfolding run
  run-AllSound n [] c h w =
      let same : n ≡ n + 0 = omega arith in (c, refl, subst (λ (k : ℕ). AllSound k c) same w)
  run-AllSound n (e ∷ events) c h w =
      let (c1, made, w1) = step-AllSound n e c (omega (arith, h)) w in
      let (c', ran, w') = run-AllSound (suc n) events c1 (omega (arith, h)) w1 in
      let same : suc n + length events ≡ n + suc (length events) = omega arith in
      (c', rw (made, run) ran, subst (λ (k : ℕ). AllSound k c') same w')

  start-AllSound : AllSound 0 start
  unfolding start set_pid
  start-AllSound i = record {
    complete = set_pid-IsComplete i new new-IsComplete;
    bounded = λ p. omega (arith, count-new T i p);
    own = refl;
  }

  -- From empty sets, no sequence of mutations and pulls within the exact counters makes any
  -- replica panic, and after it every replica has the deltas of each replica from the first one
  -- on.
  pub run-start :
      (events : List (Event T))
      → length events ≤ most
      → (c : Cluster T) × (run events start ≡ ok c) × ((i : Pid) → IsComplete (c i))
  run-start events h =
      let (c, ran, sound) = run-AllSound 0 events start (omega (arith, h)) start-AllSound in
      (c, ran, λ i. (sound i).complete)
