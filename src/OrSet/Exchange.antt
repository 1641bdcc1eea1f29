-- ===== src/OrSet/Exchange.antt =====
-- What one replica pulls from another: `get_delta` for its version vector, and `merge_delta_group` of the
-- answer.
use mathlib.Core.Path.{subst}
use gresse.Prelude.{
  ℕ, suc, ◌+◌, ◌-◌, ◌≤◌, ◌<◌, ◌≡◌, ◌≢◌, refl, false, List, [], ◌∷◌, map, ite, if_pos, if_neg,
  if◌then◌else◌, leb, length, ℕ_discrete, nat_key, arith, ap, sym, ◌∙◌, Key, ok, filter,
}
use gresse.Dots.{Pid, Dot}
use gresse.Dots.DotSet
use gresse.Dots.DotSet.{DotSet}
use gresse.Dots.DotSet.Increment
use gresse.Dots.DotMap
use gresse.Dots.DotMap.{DotMap}
use gresse.Dots.DotMap.Contents.{entries}
use gresse.Dots.DotMap.Greater.{of_pid, get_all_greater_iter_lem}
use gresse.OrSet.{
  OrSet, Delta, record_delta, merge_delta, merge_deltas, merge_delta_group, get_delta,
}
use gresse.OrSet.Range.{dot_at, last_of, IsRange, contains-dot_at, filter-IsRange}
use gresse.OrSet.Complete.{
  most, count, counting, IsComplete, next_dot-IsComplete, count-after, record_delta-IsComplete,
}

abbrev pub max_ℕ : ℕ → ℕ → ℕ
max_ℕ a b = if leb a b then b else a

eq_max : (a b c n : ℕ) → c ≡ a + n → n ≡ b - a → c ≡ max_ℕ a b
eq_max a b c n h k = ground arith

module _ {T : Type 0} ⦃key : Key T⦄ where
  -- The next delta of a replica is taken.
  merge_delta-next :
      (p : Pid) (d : Delta T) (t : OrSet T)
      → IsComplete t
      → count p t < most
      → d.dot ≡ dot_at p (count p t)
      → merge_delta d t ≡ ok (record_delta d (counting p t))
  unfolding merge_delta
  merge_delta-next p d t w h e =
      let unseen : DotSet.contains d.dot t.version_vector ≡ false =
        ap (λ (x : Dot). DotSet.contains x t.version_vector) e
        ∙ contains-dot_at p (count p t) (count p t) t.version_vector (w.counted p)
        ∙ ground arith in
      let taken : DotSet.insert d.dot t.version_vector ≡ ok (counting p t).version_vector =
        ap (λ (x : Dot). DotSet.insert x t.version_vector) (e ∙ sym (next_dot-IsComplete p t w h))
        ∙ Increment.insert_next p t.version_vector in
      rw (unseen, taken) refl

  -- Entries of a replica from a counter on, with exact counters.
  abbrev Fits : Pid → ℕ → List (Dot × Delta T) → Type 0
  Fits p n es = IsRange p n es × (n + length es ≤ most)

  -- Entries that go on where the log of each replica ends.
  abbrev Continues : List (Dot × Delta T) → OrSet T → Type 0
  Continues es t = (p : Pid) → Fits p (count p t) (of_pid p es)

  abbrev deltas_of : List (Dot × Delta T) → List (Delta T)
  deltas_of es = map (λ e. e.1) es

  abbrev Merged : List (Dot × Delta T) → OrSet T → OrSet T → Type 0
  Merged es t t' =
      (merge_deltas (deltas_of es) t ≡ ok t')
      × IsComplete t'
      × ((p : Pid) → count p t' ≡ count p t + length (of_pid p es))
      × (t'.pid ≡ t.pid)

  of_pid-own :
      (e : Dot × Delta T) (es : List (Dot × Delta T))
      → of_pid e.0.pid (e ∷ es) ≡ e ∷ of_pid e.0.pid es
  unfolding filter
  of_pid-own e es = ground arith

  of_pid-skip :
      (q : Pid) (e : Dot × Delta T) (es : List (Dot × Delta T))
      → e.0.pid ≢ q
      → of_pid q (e ∷ es) ≡ of_pid q es
  unfolding filter
  of_pid-skip q e es n = ground arith

  own-Fits :
      (e : Dot × Delta T) (es : List (Dot × Delta T)) (t : OrSet T)
      → Continues (e ∷ es) t
      → Fits e.0.pid (count e.0.pid t) (e ∷ of_pid e.0.pid es)
  own-Fits e es t h = subst (Fits e.0.pid (count e.0.pid t)) (of_pid-own e es) (h e.0.pid)

  -- After the first entry, the others go on where it stands.
  Continues-after :
      (e : Dot × Delta T) (es : List (Dot × Delta T)) (t : OrSet T)
      → Continues (e ∷ es) t
      → Continues es (record_delta (e.1) (counting e.0.pid t))
  Continues-after e es t h q = elim (ℕ_discrete p q) [
    | yes same ↦
        let rest : Fits p (suc (count p t)) (of_pid p es) = (run.2, omega (arith, room)) in
        subst (λ (n : ℕ). Fits q n (of_pid q es)) (sym (after ∙ if_pos (ℕ_discrete p q) same _ _))
          (subst (λ (r : Pid). Fits r (suc (count r t)) (of_pid r es)) same rest)
    | no n ↦
        subst (λ (n : ℕ). Fits q n (of_pid q es))
          (sym (after ∙ if_neg (ℕ_discrete p q) n (suc (count q t)) (count q t)))
          (subst (Fits q (count q t)) (of_pid-skip q e es n) (h q))
  ]
    where
      p : Pid
      p = e.0.pid

      run : IsRange p (count p t) (e ∷ of_pid p es)
      run = (own-Fits e es t h).0

      room : count p t + length (e ∷ of_pid p es) ≤ most
      room = (own-Fits e es t h).1

      after :
          count q (record_delta (e.1) (counting p t))
          ≡ ite (ℕ_discrete p q) (suc (count q t)) (count q t)
      after = count-after p q (e.1) t (ap (λ (x : Dot). x.pid) run.1)

  count-step :
      (e : Dot × Delta T) (es : List (Dot × Delta T)) (t : OrSet T)
      → (e.1).dot.pid ≡ e.0.pid
      → (q : Pid)
      → count q (record_delta (e.1) (counting e.0.pid t)) + length (of_pid q es)
        ≡ count q t + length (of_pid q (e ∷ es))
  unfolding filter
  count-step e es t h q = ground (arith, count-after e.0.pid q (e.1) t h)

  pub pid-record_delta : (d : Delta T) (s : OrSet T) → (record_delta d s).pid ≡ s.pid
  unfolding record_delta
  pid-record_delta d s = refl

  merge_deltas-Continues :
      (es : List (Dot × Delta T)) (t : OrSet T)
      → IsComplete t
      → Continues es t
      → (t' : OrSet T) × Merged es t t'
  unfolding merge_deltas filter
  merge_deltas-Continues [] t w h = (t, (refl, w, λ p. omega arith, refl))
  merge_deltas-Continues (e ∷ es) t w h =
      let p = e.0.pid in
      let t1 = record_delta (e.1) (counting p t) in
      let (run, room) = own-Fits e es t h in
      let below : count p t < most = omega (arith, room) in
      let made = merge_delta-next p (e.1) t w below run.1 in
      let w1 = record_delta-IsComplete p (e.1) t w below run.1 in
      let (t', (merged, w', counts, same_pid)) =
        merge_deltas-Continues es t1 w1 (Continues-after e es t h) in
      (
        t',
        (
          rw (made, merge_deltas) merged,
          w',
          λ q. counts q ∙ count-step e es t (ap (λ (x : Dot). x.pid) run.1) q,
          same_pid ∙ pid-record_delta (e.1) (counting p t),
        ),
      )

  -- What `s` has and `t` has not, for the version vector of `t`.
  abbrev pub missing_entries : OrSet T → OrSet T → List (Dot × Delta T)
  missing_entries s t = DotMap.get_all_greater_iter t.version_vector s.delta_log

  of_pid-missing_entries :
      (p : Pid) (s t : OrSet T)
      → IsComplete s
      → IsComplete t
      → IsRange p (count p t) (of_pid p (missing_entries s t))
        × (length (of_pid p (missing_entries s t)) ≡ count p s - count p t)
  of_pid-missing_entries p s t v w =
      let (range, size) =
        filter-IsRange p 0 (count p t) t.version_vector (entries p s.delta_log) (w.counted p)
          (omega arith) (v.ranges p) in
      let same =
        get_all_greater_iter_lem p t.version_vector s.delta_log v.logged.log w.logged.vector in
      rw same (range, omega (arith, size))

  -- What the answer to a pull makes of a replica.
  abbrev pub Pulled : OrSet T → OrSet T → OrSet T → Type 0
  Pulled s t t' =
      (merge_delta_group (get_delta t.version_vector s) t ≡ ok t')
      × IsComplete t'
      × ((p : Pid) → count p t' ≡ max_ℕ (count p t) (count p s))
      × (t'.pid ≡ t.pid)

  pub pull_lem :
      (s t : OrSet T)
      → IsComplete s
      → IsComplete t
      → ((p : Pid) → count p s ≤ most)
      → ((p : Pid) → count p t ≤ most)
      → (t' : OrSet T) × Pulled s t t'
  unfolding merge_delta_group get_delta
  pull_lem s t v w hs ht =
      let es = missing_entries s t in
      let fits : Continues es t = λ p.
        let (range, size) = of_pid-missing_entries p s t v w in
        (range, omega (arith, size, hs p, ht p)) in
      let (t', (merged, w', counts, same_pid)) = merge_deltas-Continues es t w fits in
      (
        t',
        (
          merged,
          w',
          λ p.
              let (range, size) = of_pid-missing_entries p s t v w in
              eq_max (count p t) (count p s) (count p t') (length (of_pid p es)) (counts p) size,
          same_pid,
        ),
      )

  -- Between two replicas that have the deltas of every replica from the first one on, within the
  -- exact counters: what one pulls from the other is merged with no panic, and after that its
  -- counter of every replica is the greater of the two.
  pub merge_delta_group-get_delta :
      (s t : OrSet T)
      → IsComplete s
      → IsComplete t
      → ((p : Pid) → count p s ≤ most)
      → ((p : Pid) → count p t ≤ most)
      → (t' : OrSet T) × (merge_delta_group (get_delta t.version_vector s) t ≡ ok t')
        × IsComplete t'
        × ((p : Pid) → DotSet.counter p t'.version_vector ≡ last_of (max_ℕ (count p t) (count p s)))
  merge_delta_group-get_delta s t v w hs ht =
      let (t', (merged, w', counts, _)) = pull_lem s t v w hs ht in
      (t', merged, w', λ p. w'.counted p ∙ ap last_of (counts p))
