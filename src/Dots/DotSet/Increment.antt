-- ===== src/Dots/DotSet/Increment.antt =====
-- `increment_and_get` and the check of `insert`.
use gresse.Prelude.{
  ℤ, if_neg, if_pos, ◌≡◌, ◌≢◌, refl, ap, true, false, some, ℕ_discrete, nat_key, succ_i64,
  succ_i64_parts, i64_max, ◌<ℤ◌, ok, arith,
}
use gresse.Map
use gresse.Dots.{Pid, Counter, Dot, unseen}
use gresse.Dots.DotSet.{DotSet, get, counter, contains, set_counter, insert, increment_and_get}
use gresse.Dots.DotSet.Reads.{
  get-counter, contains-counter, counter-set_counter, IsWf, set_counter-IsWf,
}

-- The dot that the replica `p` makes next.
abbrev pub next_dot : Pid → DotSet → Dot
next_dot p s = record { pid = p; counter = succ_i64 (get p s) }

succ_unseen : succ_i64 unseen ≡ ℤ.pos 0
unfolding succ_i64
succ_unseen = refl

set_counter_twice :
    (p : Pid) (c : Counter) (s : DotSet) → set_counter p c (set_counter p c s) ≡ set_counter p c s
unfolding set_counter
set_counter_twice p c s = ap (λ m. record { set = m }) (Map.insert-insert p c c s.set)

pub increment_and_get_lem :
    (p : Pid) (s : DotSet)
    → increment_and_get p s ≡ ok (set_counter p (succ_i64 (get p s)) s, next_dot p s)
unfolding increment_and_get insert
increment_and_get_lem p s =
    ground (arith, get-counter p s, set_counter_twice p (ℤ.pos 0) s, succ_unseen)

pub insert_next :
    (p : Pid) (s : DotSet) → insert (next_dot p s) s ≡ ok (set_counter p (succ_i64 (get p s)) s)
unfolding insert
insert_next p s = ground (arith, get-counter p s, set_counter_twice p (ℤ.pos 0) s, succ_unseen)

-- While the counter of the replica has not reached its last value, the dot made is new to the
-- vector, is in the vector after, and the counters of the other replicas stay.
pub increment_and_get-fresh :
    (p : Pid) (s : DotSet)
    → get p s <ℤ i64_max
    → (t : DotSet) × (increment_and_get p s ≡ ok (t, next_dot p s))
      × (contains (next_dot p s) s ≡ false)
      × (contains (next_dot p s) t ≡ true)
      × ((q : Pid) → p ≢ q → counter q t ≡ counter q s)
increment_and_get-fresh p s h = (
  set_counter p (succ_i64 (get p s)) s,
  increment_and_get_lem p s,
  rw contains-counter (ground (arith, get-counter p s, succ_i64_parts (get p s))),
  rw (contains-counter, counter-set_counter) (ground arith),
  λ q n. rw counter-set_counter (if_neg (ℕ_discrete p q) n _ _),
)

-- The vector of another replica that has the same counter of `p` takes the dot with no panic, and
-- has the same counter of `p` again.
pub insert-increment_and_get :
    (p : Pid) (s t : DotSet)
    → counter p s ≡ counter p t
    → (s' t' : DotSet) × (increment_and_get p s ≡ ok (s', next_dot p s))
      × (insert (next_dot p s) t ≡ ok t')
      × (counter p s' ≡ counter p t')
insert-increment_and_get p s t h = (
  set_counter p (succ_i64 (get p s)) s,
  set_counter p (succ_i64 (get p s)) t,
  increment_and_get_lem p s,
  ground (arith, insert_next p t, get-counter p s, get-counter p t),
  rw (counter-set_counter, counter-set_counter) (ground arith),
)

-- The vector `t` is `s` with one new dot, next after those of its replica.
pub record Appends (d : Dot) (s t : DotSet) : Type 0 where
  pub fresh : contains d s ≡ false
  pub last : counter d.pid t ≡ some d.counter
  pub others : (q : Pid) → d.pid ≢ q → counter q t ≡ counter q s
  pub wf : IsWf t

set_counter-Appends :
    (d : Dot) (s : DotSet)
    → IsWf s
    → contains d s ≡ false
    → Appends d s (set_counter d.pid d.counter s)
set_counter-Appends d s w h = record {
  fresh = h;
  last = rw counter-set_counter (if_pos (ℕ_discrete d.pid d.pid) refl _ _);
  others = λ q n. rw counter-set_counter (if_neg (ℕ_discrete d.pid q) n _ _);
  wf = set_counter-IsWf d.pid d.counter s w;
}

-- A dot that the vector has not and that `insert` takes is appended.
pub insert-Appends :
    (d : Dot) (s : DotSet) {t : DotSet}
    → IsWf s
    → contains d s ≡ false
    → insert d s ≡ ok t
    → Appends d s t
unfolding insert
insert-Appends d s {t} w h e =
    let same : t ≡ set_counter d.pid d.counter s =
      ground (arith, set_counter_twice d.pid d.counter s) in
    rw same (set_counter-Appends d s w h)

pub next-Appends :
    (p : Pid) (s : DotSet)
    → IsWf s
    → get p s <ℤ i64_max
    → Appends (next_dot p s) s (set_counter p (succ_i64 (get p s)) s)
next-Appends p s w h =
    set_counter-Appends (next_dot p s) s w
      (rw contains-counter (ground (arith, get-counter p s, succ_i64_parts (get p s))))

pub contains-Appends :
    (d e : Dot) {s t : DotSet} → Appends d s t → contains e s ≡ true → contains e t ≡ true
contains-Appends d e {s} {t} a h = ground (
  arith,
  contains-counter e s,
  contains-counter e t,
  contains-counter d s,
  a.fresh,
  a.last,
  a.others e.pid,
)

pub contains-Appends_self : (d : Dot) {s t : DotSet} → Appends d s t → contains d t ≡ true
contains-Appends_self d {s} {t} a = rw (contains-counter, a.last) (ground arith)

-- An older dot of the same replica has a lesser counter.
pub lt_of_Appends :
    (d e : Dot) {s t : DotSet}
    → Appends d s t
    → e.pid ≡ d.pid
    → contains e s ≡ true
    → e.counter <ℤ d.counter
lt_of_Appends d e {s} {t} a same h =
    ground (arith, contains-counter e s, contains-counter d s, a.fresh)
