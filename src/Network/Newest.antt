-- ===== src/Network/Newest.antt =====
-- `network_connection_candidates`: the member with the greatest counter for each pid.
use gresse.Prelude.{
  ◌≡◌, ◌≢◌, refl, Bool, true, false, Option, none, some, List, [], ◌∷◌, ◌⊎◌, inl, inr, ite, if_pos,
  if_neg, if◌then◌else◌, ℕ_discrete, nat_key, arith, ap, sym, ◌∙◌, ◌≤ℤ◌, ltb_ℤ, Bool-cases,
}
use mathlib.Core.List.{Memᴰ}
use mathlib.Core.List.Memᴰ
use gresse.Map
use gresse.Map.{Map}
use gresse.Dots.{Pid}
use gresse.Network.{Member, newer, newest_by_pid}

-- What the loop makes of the candidate for a pid.
abbrev offer : Pid → (Member → Bool) → Member → Option Member → Option Member
offer p skipped d o =
    if skipped d then o else ite (ℕ_discrete d.pid p) (some (Map.modify_or (newer d) d o)) o

abbrev best : Pid → (Member → Bool) → List Member → Option Member → Option Member
best p skipped [] o = o
best p skipped (d ∷ members) o = best p skipped members (offer p skipped d o)

get-newest_by_pid :
    (p : Pid) (skipped : Member → Bool) (members : List Member) (m : Map Pid Member)
    → Map.get p (newest_by_pid skipped members m) ≡ best p skipped members (Map.get p m)
unfolding newest_by_pid
get-newest_by_pid p skipped [] m = refl
get-newest_by_pid p skipped (d ∷ members) m =
    get-newest_by_pid p skipped members (if skipped d then m else Map.upsert d.pid (newer d) d m)
    ∙ ap (best p skipped members) offered
  where
    offered :
        Map.get p (if skipped d then m else Map.upsert d.pid (newer d) d m)
        ≡ offer p skipped d (Map.get p m)
    offered = elim (ℕ_discrete d.pid p) [
      | yes e ↦ ground (arith, Map.get-upsert p d.pid (newer d) d m)
      | no n ↦ ground (arith, Map.get-upsert p d.pid (newer d) d m)
    ]

-- Of the members that satisfy `P`, are not skipped and have this pid, the option holds one with the greatest
-- counter, or there is none.
abbrev pub IsBest : Pid → (Member → Bool) → (Member → Type 0) → Option Member → Type 0
IsBest p skipped P none = (e : Member) → P e → skipped e ≡ false → e.pid ≢ p
IsBest p skipped P (some d) =
    (d.pid ≡ p)
    × P d
    × (skipped d ≡ false)
    × ((e : Member) → P e → skipped e ≡ false → e.pid ≡ p → e.gc_counter ≤ℤ d.gc_counter)

-- One more member.
abbrev Or : Member → (Member → Type 0) → Member → Type 0
Or d P e = (e ≡ d) ⊎ P e

-- A member that the loop passes over for this pid.
abbrev IsOut : Pid → (Member → Bool) → Member → Type 0
IsOut p skipped d = (skipped d ≡ true) ⊎ (d.pid ≢ p)

not_out :
    (p : Pid) (skipped : Member → Bool) (d e : Member)
    → IsOut p skipped d
    → e ≡ d
    → skipped e ≡ false
    → e.pid ≢ p
not_out p skipped d e (inl t) same k q =
    let f : skipped d ≡ false = ap skipped (sym same) ∙ k in ground (arith, f, t)
not_out p skipped d e (inr n) same k q = n (ap (λ (x : Member). x.pid) (sym same) ∙ q)

IsBest-out :
    (p : Pid) (skipped : Member → Bool) (P : Member → Type 0) (d : Member) (o : Option Member)
    → IsOut p skipped d
    → IsBest p skipped P o
    → IsBest p skipped (Or d P) o
IsBest-out p skipped P d none out h =
    λ e m k. elim m [ inl same ↦ not_out p skipped d e out same k | inr old ↦ h e old k ]
IsBest-out p skipped P d (some b) out h = (
  h.0,
  inr (h.1),
  h.2,
  λ e m k q. elim m [
    | inl same ↦ absurd (not_out p skipped d e out same k q)
    | inr old ↦ h.3 e old k q
  ],
)

IsBest-in :
    (p : Pid) (skipped : Member → Bool) (P : Member → Type 0) (d : Member) (o : Option Member)
    → skipped d ≡ false
    → d.pid ≡ p
    → IsBest p skipped P o
    → IsBest p skipped (Or d P) (some (Map.modify_or (newer d) d o))
IsBest-in p skipped P d none f q h = (
  q,
  inl refl,
  f,
  λ e m k r. elim m [
    | inl same ↦ let c = ap (λ (x : Member). x.gc_counter) same in ground (arith, c)
    | inr old ↦ absurd (h e old k r)
  ],
)
IsBest-in p skipped P d (some b) f q h = elim (Bool-cases (ltb_ℤ b.gc_counter d.gc_counter)) [
  | inl later ↦ rw later (
    q,
    inl refl,
    f,
    λ e m k r. elim m [
      | inl same ↦ let c = ap (λ (x : Member). x.gc_counter) same in ground (arith, c)
      | inr old ↦ let c = h.3 e old k r in ground (arith, c, later)
    ],
  )
  | inr earlier ↦ rw earlier (
    h.0,
    inr (h.1),
    h.2,
    λ e m k r. elim m [
      | inl same ↦ let c = ap (λ (x : Member). x.gc_counter) same in ground (arith, c, earlier)
      | inr old ↦ h.3 e old k r
    ],
  )
]

offer-IsBest :
    (p : Pid) (skipped : Member → Bool) (P : Member → Type 0) (d : Member) (o : Option Member)
    → IsBest p skipped P o
    → IsBest p skipped (Or d P) (offer p skipped d o)
offer-IsBest p skipped P d o h = elim (Bool-cases (skipped d)) [
  | inl t ↦ rw t (IsBest-out p skipped P d o (inl t) h)
  | inr f ↦ elim (ℕ_discrete d.pid p) [
    | yes q ↦ rw (f, if_pos (ℕ_discrete d.pid p) q) (IsBest-in p skipped P d o f q h)
    | no n ↦ rw (f, if_neg (ℕ_discrete d.pid p) n) (IsBest-out p skipped P d o (inr n) h)
  ]
]

IsBest-iff :
    (p : Pid) (skipped : Member → Bool) (P Q : Member → Type 0) (o : Option Member)
    → ((e : Member) → P e → Q e)
    → ((e : Member) → Q e → P e)
    → IsBest p skipped P o
    → IsBest p skipped Q o
IsBest-iff p skipped P Q none to from h = λ e m k. h e (from e m) k
IsBest-iff p skipped P Q (some b) to from h =
    (h.0, to b (h.1), h.2, λ e m k q. h.3 e (from e m) k q)

-- Among the members of the list or those of `P`.
abbrev Among : List Member → (Member → Type 0) → Member → Type 0
Among members P e = Memᴰ e members ⊎ P e

best-IsBest :
    (p : Pid) (skipped : Member → Bool) (members : List Member) (P : Member → Type 0)
    (o : Option Member)
    → IsBest p skipped P o
    → IsBest p skipped (Among members P) (best p skipped members o)
best-IsBest p skipped [] P o h =
    IsBest-iff p skipped P (Among [] P) o (λ e m. inr m)
      (λ e m. elim m [ inl none_there ↦ absurd (Memᴰ.not-nil none_there) | inr old ↦ old ]) h
best-IsBest p skipped (d ∷ members) P o h =
    IsBest-iff p skipped (Among members (Or d P)) (Among (d ∷ members) P)
      (best p skipped (d ∷ members) o)
      (λ e m. elim m [
        | inl later ↦ inl (Memᴰ.tail later)
        | inr now ↦ elim now [ inl same ↦ inl (Memᴰ.head same) | inr old ↦ inr old ]
      ])
      (λ e m. elim m [
        | inr old ↦ inr (inr old)
        | inl there ↦ elim (Memᴰ.cases_cons there) [
          | inl same ↦ inr (inl same)
          | inr later ↦ inl later
        ]
      ])
      (best-IsBest p skipped members (Or d P) (offer p skipped d o)
        (offer-IsBest p skipped P d o h))

abbrev Nobody : Member → Type 0
Nobody e = ⊥

-- A member of the list.
abbrev pub In : List Member → Member → Type 0
In members e = Memᴰ e members

pub get-IsBest :
    (p : Pid) (skipped : Member → Bool) (members : List Member)
    → IsBest p skipped (In members) (Map.get p (newest_by_pid skipped members Map.empty))
get-IsBest p skipped members = rw (get-newest_by_pid p skipped members Map.empty) (
    IsBest-iff p skipped (Among members Nobody) (In members)
      (best p skipped members (Map.get p Map.empty))
      (λ e m. elim m [ inl there ↦ there | inr nobody ↦ absurd nobody ]) (λ e m. inl m)
      (best-IsBest p skipped members Nobody (Map.get p Map.empty)
        (unfold Map.get in λ e m k. absurd m)))

pub newest_by_pid-IsDistinct :
    (skipped : Member → Bool) (members : List Member) (m : Map Pid Member)
    → Map.IsDistinct m
    → Map.IsDistinct (newest_by_pid skipped members m)
unfolding newest_by_pid
newest_by_pid-IsDistinct skipped [] m h = h
newest_by_pid-IsDistinct skipped (d ∷ members) m h = elim (Bool-cases (skipped d)) [
  | inl t ↦ rw t (newest_by_pid-IsDistinct skipped members m h)
  | inr f ↦ rw f (
      newest_by_pid-IsDistinct skipped members (Map.upsert d.pid (newer d) d m)
        (Map.upsert-IsDistinct d.pid (newer d) d m h))
]
