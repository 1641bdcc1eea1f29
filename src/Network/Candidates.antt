-- ===== src/Network/Candidates.antt =====
-- `network_connection_candidates`: which members are candidates.
use gresse.Prelude.{
  ◌≡◌, ◌≢◌, refl, Bool, true, false, Option, none, some, List, [], ◌∷◌, ◌⊎◌, inl, inr, ite, if_pos,
  if_neg, if◌then◌else◌, ℕ_discrete, nat_key, arith, ap, sym, ◌∙◌, ◌≤ℤ◌, sort_by, insert_by,
  Bool-cases, Key,
}
use mathlib.Core.Path.{subst}
use mathlib.Core.List.{Memᴰ}
use mathlib.Core.List.Memᴰ
use gresse.Map
use gresse.Map.{Map}
use gresse.Dots.{Pid}
use gresse.Replica.Descriptor.{is_shutdown}
use gresse.Set
use gresse.Network.{
  Member, newest_by_pid, le_pid, shutdown_pids, is_skipped, network_connection_candidates,
}
use gresse.Network.Newest.{IsBest, In, get-IsBest, newest_by_pid-IsDistinct}

module _ {K V : Type 0} ⦃key : Key K⦄ where
  values-entry :
      (m : Map K V) (v : V)
      → Map.IsDistinct m
      → Memᴰ v (Map.values m)
      → (k : K) × (Map.get k m ≡ some v)
  unfolding Map.get
  values-entry [] v d h = absurd (Memᴰ.not-nil h)
  values-entry ((k, w) ∷ m) v d (Memᴰ.head e) = (k, if_pos (key.dec k k) refl _ _ ∙ ap some (sym e))
  values-entry ((k, w) ∷ m) v d (Memᴰ.tail h) =
      let (j, g) = values-entry m v d.1 h in (j, ground (arith, g, d.0))

  entry-values : (m : Map K V) (k : K) (v : V) → Map.get k m ≡ some v → Memᴰ v (Map.values m)
  unfolding Map.get
  entry-values [] k v h = absurd (let no_entry : none ≡ some v = h in cc)
  entry-values ((j, w) ∷ m) k v h = elim (key.dec j k) [
    | yes p ↦ Memᴰ.head (let same : some w ≡ some v = sym (if_pos (key.dec j k) p _ _) ∙ h in cc)
    | no n ↦ Memᴰ.tail (entry-values m k v (sym (if_neg (key.dec j k) n _ _) ∙ h))
  ]

module _ {A : Type 0} (le : A → A → Bool) where
  Memᴰ-insert_by : (x y : A) (ys : List A) → (y ≡ x) ⊎ Memᴰ y ys → Memᴰ y (insert_by le x ys)
  unfolding insert_by
  Memᴰ-insert_by x y [] (inl e) = Memᴰ.head e
  Memᴰ-insert_by x y [] (inr m) = absurd (Memᴰ.not-nil m)
  Memᴰ-insert_by x y (z ∷ ys) h = elim (Bool-cases (le x z)) [
    | inl t ↦ rw t (elim h [ inl e ↦ Memᴰ.head e | inr m ↦ Memᴰ.tail m ])
    | inr f ↦ rw f (elim h [
      | inl e ↦ Memᴰ.tail (Memᴰ-insert_by x y ys (inl e))
      | inr m ↦ elim (Memᴰ.cases_cons m) [
        | inl e ↦ Memᴰ.head e
        | inr n ↦ Memᴰ.tail (Memᴰ-insert_by x y ys (inr n))
      ]
    ])
  ]

  insert_by-Memᴰ : (x y : A) (ys : List A) → Memᴰ y (insert_by le x ys) → (y ≡ x) ⊎ Memᴰ y ys
  unfolding insert_by
  insert_by-Memᴰ x y [] h = elim (Memᴰ.cases_cons h) [
    | inl e ↦ inl e
    | inr m ↦ absurd (Memᴰ.not-nil m)
  ]
  insert_by-Memᴰ x y (z ∷ ys) h = elim (Bool-cases (le x z)) [
    | inl t ↦
        Memᴰ.cases_cons (subst (λ b. Memᴰ y (if b then x ∷ z ∷ ys else z ∷ insert_by le x ys)) t h)
    | inr f ↦
        elim (Memᴰ.cases_cons
          (subst (λ b. Memᴰ y (if b then x ∷ z ∷ ys else z ∷ insert_by le x ys)) f h)) [
            | inl e ↦ inr (Memᴰ.head e)
            | inr m ↦ elim (insert_by-Memᴰ x y ys m) [ inl e ↦ inl e | inr n ↦ inr (Memᴰ.tail n) ]
          ]
  ]

  Memᴰ-sort_by : (y : A) (xs : List A) → Memᴰ y xs → Memᴰ y (sort_by le xs)
  unfolding sort_by
  Memᴰ-sort_by y [] m = m
  Memᴰ-sort_by y (x ∷ xs) m = elim (Memᴰ.cases_cons m) [
    | inl e ↦ Memᴰ-insert_by x y (sort_by le xs) (inl e)
    | inr n ↦ Memᴰ-insert_by x y (sort_by le xs) (inr (Memᴰ-sort_by y xs n))
  ]

  sort_by-Memᴰ : (y : A) (xs : List A) → Memᴰ y (sort_by le xs) → Memᴰ y xs
  unfolding sort_by
  sort_by-Memᴰ y [] m = m
  sort_by-Memᴰ y (x ∷ xs) m = elim (insert_by-Memᴰ x y (sort_by le xs) m) [
    | inl e ↦ Memᴰ.head e
    | inr n ↦ Memᴰ.tail (sort_by-Memᴰ y xs n)
  ]

-- An entry of the map of the newest members is the newest one for its pid.
newest-entry :
    (skipped : Member → Bool) (members : List Member) (d : Member)
    → (k : Pid) × (Map.get k (newest_by_pid skipped members Map.empty) ≡ some d)
    → (Memᴰ d members)
      × (skipped d ≡ false)
      × (Map.get d.pid (newest_by_pid skipped members Map.empty) ≡ some d)
newest-entry skipped members d (k, g) =
    let best : IsBest k skipped (In members) (some d) =
      subst (IsBest k skipped (In members)) g (get-IsBest k skipped members) in
    (
      best.1,
      best.2,
      ap (λ (p : Pid). Map.get p (newest_by_pid skipped members Map.empty)) (best.0) ∙ g,
    )

-- A member that a connection may go to: another replica, not connected, no member of its pid shut down.
abbrev pub IsEligible : Pid → List Pid → List Member → Member → Type 0
IsEligible local_pid connected members d =
    (d.pid ≢ local_pid)
    × (Set.contains d.pid connected ≡ false)
    × ((e : Member) → Memᴰ e members → is_shutdown e ≡ true → e.pid ≢ d.pid)

contains-shutdown_pids-cons :
    (p : Pid) (d : Member) (members : List Member)
    → Set.contains p (shutdown_pids (d ∷ members)) ≡ (
        if is_shutdown d
        then ite (ℕ_discrete d.pid p) true (Set.contains p (shutdown_pids members))
        else Set.contains p (shutdown_pids members))
unfolding shutdown_pids
contains-shutdown_pids-cons p d members =
    ground (arith, Set.contains-insert p d.pid (shutdown_pids members))

contains-shutdown_pids :
    (p : Pid) (members : List Member)
    → Set.contains p (shutdown_pids members) ≡ false
    → (e : Member) → Memᴰ e members
    → is_shutdown e ≡ true
    → e.pid ≢ p
contains-shutdown_pids p [] h e m t q = Memᴰ.not-nil m
contains-shutdown_pids p (d ∷ members) h e m t q =
    let now = sym (contains-shutdown_pids-cons p d members) ∙ h in
    elim (Memᴰ.cases_cons m) [
      | inl same ↦
          let t' = ap is_shutdown (sym same) ∙ t in
          let q' = ap (λ (x : Member). x.pid) (sym same) ∙ q in ground (arith, now, t', q')
      | inr later ↦ contains-shutdown_pids p members (ground (arith, now)) e later t q
    ]

shutdown_pids-contains :
    (p : Pid) (members : List Member)
    → ((e : Member) → Memᴰ e members → is_shutdown e ≡ true → e.pid ≢ p)
    → Set.contains p (shutdown_pids members) ≡ false
shutdown_pids-contains p [] h = unfold shutdown_pids Set.contains in refl
shutdown_pids-contains p (d ∷ members) h =
    let rest = shutdown_pids-contains p members (λ e m. h e (Memᴰ.tail m)) in
    contains-shutdown_pids-cons p d members ∙ ground (arith, rest, h d (Memᴰ.head refl))

IsEligible-is_skipped :
    (local_pid : Pid) (connected : List Pid) (members : List Member) (d : Member)
    → Memᴰ d members
    → IsEligible local_pid connected members d
    → is_skipped local_pid (shutdown_pids members) connected d ≡ false
unfolding is_skipped
IsEligible-is_skipped local_pid connected members d m (n, c, h) =
    let shut = shutdown_pids-contains d.pid members h in
    let alive : is_shutdown d ≢ true = λ t. h d m t refl in ground (arith, n, c, shut, alive)

pub is_skipped-IsEligible :
    (local_pid : Pid) (connected : List Pid) (members : List Member) (d : Member)
    → is_skipped local_pid (shutdown_pids members) connected d ≡ false
    → IsEligible local_pid connected members d
unfolding is_skipped
is_skipped-IsEligible local_pid connected members d f =
    (ground (arith, f), ground (arith, f), contains-shutdown_pids d.pid members (ground (arith, f)))

-- Each candidate for a connection is an eligible member with the greatest counter among the
-- eligible members of its pid, no two candidates have the same pid, and the pid of every eligible
-- member has a candidate; a member is eligible if it is another replica, its pid is not connected
-- and no member with its pid has shut down.
pub network_connection_candidates_lem :
    (members : List Member) (local_pid : Pid) (connected : List Pid)
    → ((d : Member)
        → Memᴰ d (network_connection_candidates members local_pid connected)
        → Memᴰ d members
          × IsEligible local_pid connected members d
          × ((e : Member)
              → Memᴰ e members
              → IsEligible local_pid connected members e
              → e.pid ≡ d.pid
              → e.gc_counter ≤ℤ d.gc_counter))
      × ((d e : Member)
          → Memᴰ d (network_connection_candidates members local_pid connected)
          → Memᴰ e (network_connection_candidates members local_pid connected)
          → d.pid ≡ e.pid
          → d ≡ e)
      × ((e : Member)
          → Memᴰ e members
          → IsEligible local_pid connected members e
          → (d : Member) × Memᴰ d (network_connection_candidates members local_pid connected)
            × (d.pid ≡ e.pid))
unfolding network_connection_candidates
network_connection_candidates_lem members local_pid connected = (
  λ d m.
      let (there, f, g) = entry d m in
      (
        there,
        is_skipped-IsEligible local_pid connected members d f,
        λ e n k q. (get-best d g).3 e n (IsEligible-is_skipped local_pid connected members e n k) q,
      ),
  λ d e m n q.
      let g = (entry d m).2 in
      let h = (entry e n).2 in
      let same : some d ≡ some e = sym g ∙ ap (λ (p : Pid). Map.get p newest) q ∙ h in cc,
  λ e n k.
      candidate e n (IsEligible-is_skipped local_pid connected members e n k) (Map.get e.pid newest)
        refl (get-IsBest e.pid skipped members),
)
  where
    skipped : Member → Bool
    skipped = is_skipped local_pid (shutdown_pids members) connected

    newest : Map Pid Member
    newest = newest_by_pid skipped members Map.empty

    entry :
        (d : Member)
        → Memᴰ d (sort_by le_pid (Map.values newest))
        → Memᴰ d members × (skipped d ≡ false) × (Map.get d.pid newest ≡ some d)
    entry d m = newest-entry skipped members d (
        values-entry newest d (newest_by_pid-IsDistinct skipped members Map.empty tt)
          (sort_by-Memᴰ le_pid d (Map.values newest) m))

    get-best :
        (d : Member) → Map.get d.pid newest ≡ some d → IsBest d.pid skipped (In members) (some d)
    get-best d g = subst (IsBest d.pid skipped (In members)) g (get-IsBest d.pid skipped members)

    candidate :
        (e : Member)
        → Memᴰ e members
        → skipped e ≡ false
        → (o : Option Member) → Map.get e.pid newest ≡ o
        → IsBest e.pid skipped (In members) o
        → (d : Member) × Memᴰ d (sort_by le_pid (Map.values newest)) × (d.pid ≡ e.pid)
    candidate e n f none g h = absurd (h e n f refl)
    candidate e n f (some d) g h =
        (d, Memᴰ-sort_by le_pid d (Map.values newest) (entry-values newest e.pid d g), h.0)
