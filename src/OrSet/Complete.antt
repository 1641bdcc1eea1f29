-- ===== src/OrSet/Complete.antt =====
-- Sets that have the deltas of every replica from its first one on: what mutations and merges keep, until
-- deltas are collected.
use mathlib.Core.Path.{subst}
use gresse.Prelude.{
  ℕ, zero, suc, ◌+◌, ◌^◌, ◌<◌, ◌≡◌, refl, some, [], ◌∷◌, ◌++◌, ite, if_pos, if_neg, length,
  length-append, pos, ℕ_discrete, nat_key, arith, succ_i64, ap, sym, ◌∙◌, Key, ◌<ℤ◌, i64_max,
}
use gresse.Map
use gresse.Dots.{Pid, Counter, Dot}
use gresse.Dots.DotSet
use gresse.Dots.DotSet.{DotSet}
use gresse.Dots.DotSet.Reads
use gresse.Dots.DotSet.Increment
use gresse.Dots.DotMap
use gresse.Dots.DotMap.{DotMap}
use gresse.Dots.DotMap.Contents
use gresse.Dots.DotMap.Contents.{entries}
use gresse.OrSet.{OrSet, Delta, new, set_pid, record_delta}
use gresse.OrSet.Invariant.{IsLogged, new-IsLogged, record_delta-IsLogged}
use gresse.OrSet.Range.{dot_at, last_of, IsRange, IsRange-append}

-- Counters up to this are exact.
abbrev pub most : ℕ
most = 2 ^ 63

succ-last_of : (n : ℕ) → n < most → succ_i64 (Reads.or_unseen (last_of n)) ≡ pos n
unfolding succ_i64
succ-last_of zero h = refl
succ-last_of (suc n) h = ground (arith, h)

last_of-lt : (n : ℕ) → n < most → Reads.or_unseen (last_of n) <ℤ i64_max
last_of-lt zero h = omega arith
last_of-lt (suc n) h = omega (arith, h)

module _ {T : Type 0} where
  -- How many deltas of a replica are logged.
  abbrev pub count : Pid → OrSet T → ℕ
  count p s = length (entries p s.delta_log)

  pub record IsComplete (s : OrSet T) : Type 0 where
    pub logged : IsLogged s
    pub ranges : (p : Pid) → IsRange p 0 (entries p s.delta_log)
    pub counted : (p : Pid) → DotSet.counter p s.version_vector ≡ last_of (count p s)

  pub new-IsComplete : IsComplete (new {T = T})
  unfolding new DotMap.new DotSet.new DotSet.counter Map.get
  new-IsComplete = record { logged = new-IsLogged; ranges = λ p. tt; counted = λ p. refl }

  pub set_pid-IsComplete : (p : Pid) (s : OrSet T) → IsComplete s → IsComplete (set_pid p s)
  unfolding set_pid
  set_pid-IsComplete p s w = record {
    logged = record {
      log = (w.logged).log;
      vector = (w.logged).vector;
      covered = (w.logged).covered;
    };
    ranges = w.ranges;
    counted = w.counted;
  }

  -- The vector with the next dot of a replica, and the log as it was.
  abbrev pub counting : Pid → OrSet T → OrSet T
  counting p s = record s {
    version_vector =
        DotSet.set_counter p (succ_i64 (DotSet.get p s.version_vector)) s.version_vector;
  }

  get-IsComplete :
      (p : Pid) (s : OrSet T)
      → IsComplete s
      → DotSet.get p s.version_vector ≡ Reads.or_unseen (last_of (count p s))
  get-IsComplete p s w = Reads.get-counter p s.version_vector ∙ ap Reads.or_unseen (w.counted p)

  pub next_dot-IsComplete :
      (p : Pid) (s : OrSet T)
      → IsComplete s
      → count p s < most
      → Increment.next_dot p s.version_vector ≡ dot_at p (count p s)
  next_dot-IsComplete p s w h =
      let next : succ_i64 (DotSet.get p s.version_vector) ≡ pos (count p s) =
        ap succ_i64 (get-IsComplete p s w) ∙ succ-last_of (count p s) h in
      ap (λ (c : Counter). record { pid = p; counter = c }) next

pub count-new : (T : Type 0) (p q : Pid) → count q (set_pid p (new {T = T})) ≡ 0
unfolding set_pid new DotMap.new Map.get
count-new T p q = refl

module _ {T : Type 0} ⦃key : Key T⦄ where
  entries-record_delta :
      (q : Pid) (d : Delta T) (s : OrSet T)
      → entries q (record_delta d s).delta_log
        ≡ ite
            (ℕ_discrete d.dot.pid q)
            (entries q s.delta_log ++ (d.dot, d) ∷ [])
            (entries q s.delta_log)
  unfolding record_delta
  entries-record_delta q d s = Contents.entries-insert q d.dot d s.delta_log

  pub entries-after :
      (p q : Pid) (d : Delta T) (s : OrSet T)
      → d.dot.pid ≡ p
      → entries q (record_delta d (counting p s)).delta_log
        ≡ ite (ℕ_discrete p q) (entries q s.delta_log ++ (d.dot, d) ∷ []) (entries q s.delta_log)
  entries-after p q d s e = rw (sym e) (entries-record_delta q d (counting d.dot.pid s))

  pub count-after :
      (p q : Pid) (d : Delta T) (s : OrSet T)
      → d.dot.pid ≡ p
      → count q (record_delta d (counting p s)) ≡ ite (ℕ_discrete p q) (suc (count q s)) (count q s)
  count-after p q d s e =
      let longer = length-append (entries q s.delta_log) ((d.dot, d) ∷ []) in
      rw (entries-after p q d s e) (ground (arith, longer))

  counter-after :
      (p q : Pid) (d : Delta T) (s : OrSet T)
      → DotSet.counter q (record_delta d (counting p s)).version_vector
        ≡ ite
            (ℕ_discrete p q)
            (some (succ_i64 (DotSet.get p s.version_vector)))
            (DotSet.counter q s.version_vector)
  unfolding record_delta
  counter-after p q d s =
      Reads.counter-set_counter q s.version_vector p (succ_i64 (DotSet.get p s.version_vector))

  -- One more delta, under the next dot of its replica.
  pub record_delta-IsComplete :
      (p : Pid) (d : Delta T) (s : OrSet T)
      → IsComplete s
      → count p s < most
      → d.dot ≡ dot_at p (count p s)
      → IsComplete (record_delta d (counting p s))
  record_delta-IsComplete p d s w h e = record {
    logged = record_delta-IsLogged d s appends w.logged;
    ranges = λ q. rw (entries-after p q d s pid_of) (ranges_of q);
    counted = λ q. rw (counter-after p q d s) (counted_of q);
  }
    where
      pid_of : d.dot.pid ≡ p
      pid_of = ap (λ (x : Dot). x.pid) e

      next : Increment.next_dot p s.version_vector ≡ dot_at p (count p s)
      next = next_dot-IsComplete p s w h

      appends : Increment.Appends d.dot s.version_vector (counting p s).version_vector
      appends =
          let room : DotSet.get p s.version_vector <ℤ i64_max =
            rw (get-IsComplete p s w) (last_of-lt (count p s) h) in
          subst (λ (x : Dot). Increment.Appends x s.version_vector (counting p s).version_vector)
            (next ∙ sym e) (Increment.next-Appends p s.version_vector w.logged.vector room)

      ranges_of :
          (q : Pid)
          → IsRange q 0 (
              ite
                (ℕ_discrete p q)
                (entries q s.delta_log ++ (d.dot, d) ∷ [])
                (entries q s.delta_log))
      ranges_of q = elim (ℕ_discrete p q) [
        | yes same ↦ rw (if_pos (ℕ_discrete p q) same (entries q s.delta_log ++ (d.dot, d) ∷ [])) (
            IsRange-append q 0 (entries q s.delta_log) ((d.dot, d) ∷ []) (w.ranges q) (
              let at_q : d.dot ≡ dot_at q (count q s) =
                subst (λ (r : Pid). d.dot ≡ dot_at r (count r s)) same e in
              let from_zero : 0 + count q s ≡ count q s = omega arith in
              rw from_zero (at_q, at_q, tt)))
        | no n ↦
            rw (if_neg (ℕ_discrete p q) n (entries q s.delta_log ++ (d.dot, d) ∷ [])) (w.ranges q)
      ]

      counted_of :
          (q : Pid)
          → ite
              (ℕ_discrete p q)
              (some (succ_i64 (DotSet.get p s.version_vector)))
              (DotSet.counter q s.version_vector)
            ≡ last_of (count q (record_delta d (counting p s)))
      counted_of q = elim (ℕ_discrete p q) [
        | yes same ↦
            let grown : count q (record_delta d (counting p s)) ≡ suc (count q s) =
              count-after p q d s pid_of ∙ if_pos (ℕ_discrete p q) same _ _ in
            let value : succ_i64 (DotSet.get p s.version_vector) ≡ pos (count q s) =
              ap (λ (x : Dot). x.counter) next ∙ ap (λ (r : Pid). pos (count r s)) same in
            rw (grown, if_pos (ℕ_discrete p q) same, value) refl
        | no n ↦
            let stays : count q (record_delta d (counting p s)) ≡ count q s =
              count-after p q d s pid_of
              ∙ if_neg (ℕ_discrete p q) n (suc (count q s)) (count q s) in
            rw (stays, if_neg (ℕ_discrete p q) n) (w.counted q)
      ]
