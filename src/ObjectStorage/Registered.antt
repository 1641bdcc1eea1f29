-- ===== src/ObjectStorage/Registered.antt =====
-- A replica that registers stands in the listing that it gets.
use gresse.Prelude.{
  ◌≡◌, refl, inl, inr, Bool, true, Option, none, some, List, [], ◌∷◌, arith, ap, sym, ◌∙◌,
}
use mathlib.Core.Path.{subst}
use mathlib.Core.List.{Memᴰ}
use gresse.Text.{Text}
use gresse.Replica.Descriptor.{ReplicaDescriptor}
use gresse.Replica.Descriptor.Display
use gresse.Replica.Descriptor.Display.{
  AddrText, IsAddrText, object_path, from_str, from_str-object_path,
}
use gresse.ObjectStorage.{
  StoreError, not_found, already_exists, precondition, Call, finished, refused, elapsed, Result,
  done, failed, ObjectStore, ObjectStorageClient, Action, continue, with_operation_timeout,
  names_of, list_objects, upload_empty_atomic_create, created, log_connection_established_once,
}
use gresse.ObjectStorage.Membership.{
  update_membership_cache, push_parsed, parse_members, fetch_membership_descriptors,
  list_membership_descriptors, write_membership_descriptor, register_and_list_members, cached,
  registered, path_of,
}
use gresse.ObjectStorage.Laws
use gresse.ObjectStorage.Laws.{IsStore}

module _ {Addr : Type 0} (addr : AddrText Addr) where
  -- A name that can be parsed is not dropped.
  parse_members-Mem :
      (names : List Text) {name : Text} {d : ReplicaDescriptor Addr}
      → from_str addr name ≡ some d
      → Memᴰ name names
      → Memᴰ d (parse_members addr names)
  unfolding parse_members
  parse_members-Mem [] h m = elim m [ ]
  parse_members-Mem (n ∷ names) h (Memᴰ.head e) =
      rw (ap (from_str addr) (sym e) ∙ h) (Memᴰ.head refl)
  parse_members-Mem (n ∷ names) {name} {d} h (Memᴰ.tail m) =
      later (from_str addr n) (parse_members-Mem names h m)
    where
      later :
          (o : Option (ReplicaDescriptor Addr)) {ds : List (ReplicaDescriptor Addr)}
          → Memᴰ d ds
          → Memᴰ d (push_parsed o ds)
      later none k = k
      later (some x) k = Memᴰ.tail k

module _ {Addr Location Response S : Type 0} (addr : AddrText Addr)
    (store : ObjectStore Location Response S) (w : IsStore store) where
  -- A listing that comes to an end has the name of every object under its prefix.
  pub list_objects-Mem :
      (prefix : Text) (l : Location) {t : Text} (c : ObjectStorageClient Addr S)
      {c' : ObjectStorageClient Addr S} {names : List Text}
      → w.object l c.store ≡ some t
      → w.under (store.path_from prefix) l ≡ true
      → list_objects store prefix c ≡ (c', done names)
      → Memᴰ (store.path_text l) names
  unfolding list_objects log_connection_established_once
  list_objects-Mem prefix l c {c'} {names} o u h =
      let answer = names_of store (store.list (store.path_from prefix) c.store) in
      let give_names : List Text → Action Addr S (List Text) =
        λ found c. continue (λ _ c. (c, done found)) (log_connection_established_once c) in
      let (c1, found, first, next) = Laws.continue-eq-done (Laws.called c answer) give_names h in
      let (made, _) = Laws.call-eq-done c answer first in
      let (items, streamed, complete) =
        Laws.names_of-eq-finished store (store.list (store.path_from prefix) c.store) made in
      let same : found ≡ names = cc in
      elim (w.list-finished (store.path_from prefix) l c.store streamed o u) [
        | inl m ↦
            subst (λ (ns : List Text). Memᴰ (store.path_text l) ns) same
              (Laws.file_names-Mem store items l complete m)
        | inr (e, m) ↦ absurd (Laws.file_names-broken store items e complete m)
      ]

  fetch-Mem :
      (d : ReplicaDescriptor Addr) (l : Location) {t : Text} (c : ObjectStorageClient Addr S)
      {c' : ObjectStorageClient Addr S} {ds : List (ReplicaDescriptor Addr)}
      → w.object l c.store ≡ some t
      → w.under (store.path_from c.membership_directory_path) l ≡ true
      → from_str addr (store.path_text l) ≡ some d
      → fetch_membership_descriptors addr store c ≡ (c', done ds)
      → Memᴰ d ds
  unfolding fetch_membership_descriptors
  fetch-Mem d l c {c'} {ds} o u p h =
      let parsed : List Text → Action Addr S (List (ReplicaDescriptor Addr)) =
        λ names c. (c, done (parse_members addr names)) in
      let (c1, names, first, next) =
        Laws.continue-eq-done (list_objects store c.membership_directory_path c) parsed h in
      let same : parse_members addr names ≡ ds = cc in
      subst (λ (es : List (ReplicaDescriptor Addr)). Memᴰ d es) same
        (parse_members-Mem addr names p
          (list_objects-Mem c.membership_directory_path l c o u first))

  cached-eq-some :
      (r : ObjectStorageClient Addr S × Result (List (ReplicaDescriptor Addr)))
      {c' : ObjectStorageClient Addr S} {ds : List (ReplicaDescriptor Addr)}
      → cached r ≡ (c', some ds)
      → (c1 : ObjectStorageClient Addr S) × (r ≡ (c1, done ds)) × (c'.membership_descriptors ≡ ds)
  unfolding update_membership_cache
  cached-eq-some (c1, failed e) h = cc
  cached-eq-some (c1, done found) {c'} {ds} h = (c1, ground arith, ground arith)

  -- After a put that must create, the object is there, whoever made it.
  created-object :
      (l : Location) (c : ObjectStorageClient Addr S) (answer : S × Call (Unit {0}))
      {c' : ObjectStorageClient Addr S} {b : Bool}
      → store.put_create l [] c.store ≡ answer
      → created (Laws.called c answer) ≡ (c', done b)
      → (t : Text) × (w.object l c'.store ≡ some t)
        × (c'.membership_directory_path ≡ c.membership_directory_path)
  unfolding with_operation_timeout
  created-object l c (s, finished _) {c'} e h =
      let o = (w.create-finished l [] c.store e).1 in
      let same : c'.store ≡ s = ground (arith, h) in
      ([], ap (w.object l) same ∙ o, ground (arith, h))
  created-object l c (s, refused already_exists) {c'} e h =
      let (t, o) = w.create-exists l [] c.store e (inl refl) in
      let same : c'.store ≡ s = ground (arith, h) in
      (t, ap (w.object l) same ∙ o, ground (arith, h))
  created-object l c (s, refused precondition) {c'} e h =
      let (t, o) = w.create-exists l [] c.store e (inr refl) in
      let same : c'.store ≡ s = ground (arith, h) in
      (t, ap (w.object l) same ∙ o, ground (arith, h))
  created-object l c (s, refused not_found) e h = cc
  created-object l c (s, refused (StoreError.other x)) e h = cc
  created-object l c (s, elapsed) e h = cc

  registered-eq-some :
      (r : ObjectStorageClient Addr S × Result Bool) {c' : ObjectStorageClient Addr S}
      {ds : List (ReplicaDescriptor Addr)}
      → registered addr store r ≡ (c', some ds)
      → (c1 : ObjectStorageClient Addr S) × (b : Bool) × (r ≡ (c1, done b))
        × (list_membership_descriptors addr store c1 ≡ (c', some ds))
  registered-eq-some (c1, failed e) h = cc
  registered-eq-some (c1, done b) h = (c1, b, refl, h)

  -- Over a consistent store whose paths keep the text of the descriptor and that lists what is
  -- under a prefix: if registering a well-formed descriptor gives a list of members, the
  -- descriptor stands in it, and the list is cached.
  pub register_and_list_members-Mem :
      (d : ReplicaDescriptor Addr) (c : ObjectStorageClient Addr S)
      {c' : ObjectStorageClient Addr S} {ds : List (ReplicaDescriptor Addr)}
      → IsAddrText addr
      → Display.IsWf d
      → store.path_text (store.path_from (path_of addr store d c)) ≡ path_of addr store d c
      → w.under
          (store.path_from c.membership_directory_path)
          (store.path_from (path_of addr store d c))
        ≡ true
      → register_and_list_members addr store d c ≡ (c', some ds)
      → Memᴰ d ds × (c'.membership_descriptors ≡ ds)
  unfolding register_and_list_members write_membership_descriptor list_membership_descriptors
      upload_empty_atomic_create
  register_and_list_members-Mem d c {c'} {ds} t v p u h =
      let l = store.path_from (path_of addr store d c) in
      let (c1, b, put, listing) =
        registered-eq-some (write_membership_descriptor addr store d c) h in
      let (text, o, dir) = created-object l c (store.put_create l [] c.store) refl put in
      let (c2, fetched, cache) =
        cached-eq-some (fetch_membership_descriptors addr store c1) listing in
      let beneath : w.under (store.path_from c1.membership_directory_path) l ≡ true =
        ap (λ (path : Text). w.under (store.path_from path) l) dir ∙ u in
      let parsed : from_str addr (store.path_text l) ≡ some d =
        ap (from_str addr) p ∙ from_str-object_path addr c.membership_directory_path d t v in
      (fetch-Mem d l c1 o beneath parsed fetched, cache)
