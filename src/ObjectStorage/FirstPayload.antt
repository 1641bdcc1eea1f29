-- ===== src/ObjectStorage/FirstPayload.antt =====
-- The payload of a descriptor is written once: `write_membership_descriptor_payload` and
-- `read_membership_descriptor_payload`.
use gresse.Prelude.{◌≡◌, ◌≢◌, refl, Bool, true, Option, none, some, arith, ap, sym, ◌∙◌}
use gresse.Text.{Text}
use gresse.Replica.Descriptor.{ReplicaDescriptor}
use gresse.Replica.Descriptor.Display.{AddrText, object_path}
use gresse.ObjectStorage.{
  StoreError, not_found, already_exists, precondition, Call, ObjectStorageError, finished, refused,
  elapsed, Result, done, failed, ObjectStore, ObjectStorageClient, with_operation_timeout, Codec,
  to_json, created, upload_data_atomic_create,
}
use gresse.ObjectStorage.Membership.{
  path_of, write_membership_descriptor_payload, read_membership_descriptor_payload,
}
use gresse.ObjectStorage.Laws
use gresse.ObjectStorage.Laws.{IsStore}
use gresse.ObjectStorage.Stored.{GivesOnly, result_of, download-GivesOnly}

module _ {Addr Location Response S A : Type 0} (store : ObjectStore Location Response S)
    (w : IsStore store) (codec : Codec A) where
  create_lem :
      (path : Text) (a : A) (c : ObjectStorageClient Addr S) {text : Text}
      → codec.to_string a ≡ some text
      → upload_data_atomic_create store codec path a c
        ≡ created (Laws.called c (store.put_create (store.path_from path) text c.store))
  unfolding upload_data_atomic_create
  create_lem path a c e = rw (e, to_json) refl

  create_unserialized :
      (path : Text) (a : A) (c : ObjectStorageClient Addr S)
      → codec.to_string a ≡ none
      → upload_data_atomic_create store codec path a c
        ≡ (c, failed ObjectStorageError.serialization_error)
  unfolding upload_data_atomic_create
  create_unserialized path a c e = rw (e, to_json) refl

  created-eq-true :
      (c : ObjectStorageClient Addr S) (answer : S × Call (Unit {0}))
      {c' : ObjectStorageClient Addr S}
      → created (Laws.called c answer) ≡ (c', done true)
      → (answer ≡ (c'.store, finished tt))
        × (c'.membership_directory_path ≡ c.membership_directory_path)
  unfolding with_operation_timeout
  created-eq-true c (s, finished _) h = (ground (arith, h), ground (arith, h))
  created-eq-true c (s, refused already_exists) h = cc
  created-eq-true c (s, refused precondition) h = cc
  created-eq-true c (s, refused not_found) h = cc
  created-eq-true c (s, refused (StoreError.other x)) h = cc
  created-eq-true c (s, elapsed) h = cc

  created-kept :
      (c : ObjectStorageClient Addr S) (answer : S × Call (Unit {0}))
      {c' : ObjectStorageClient Addr S} {r : Result Bool}
      → created (Laws.called c answer) ≡ (c', r)
      → (answer.0 ≡ c'.store) × (c'.membership_directory_path ≡ c.membership_directory_path)
  unfolding with_operation_timeout
  created-kept c (s, finished _) h = (ground (arith, h), ground (arith, h))
  created-kept c (s, refused already_exists) h = (ground (arith, h), ground (arith, h))
  created-kept c (s, refused precondition) h = (ground (arith, h), ground (arith, h))
  created-kept c (s, refused not_found) h = (ground (arith, h), ground (arith, h))
  created-kept c (s, refused (StoreError.other x)) h = (ground (arith, h), ground (arith, h))
  created-kept c (s, elapsed) h = (ground (arith, h), ground (arith, h))

  -- Whoever creates an object has stored the text.
  create-object :
      (path : Text) (a : A) (c : ObjectStorageClient Addr S) {c' : ObjectStorageClient Addr S}
      → upload_data_atomic_create store codec path a c ≡ (c', done true)
      → (text : Text) × (codec.to_string a ≡ some text)
        × (w.object (store.path_from path) c'.store ≡ some text)
        × (c'.membership_directory_path ≡ c.membership_directory_path)
  create-object path a c {c'} h = by_text (codec.to_string a) refl
    where
      by_text :
          (o : Option Text)
          → codec.to_string a ≡ o
          → (text : Text) × (codec.to_string a ≡ some text)
            × (w.object (store.path_from path) c'.store ≡ some text)
            × (c'.membership_directory_path ≡ c.membership_directory_path)
      by_text none e = absurd (ground (arith, h, create_unserialized path a c e))
      by_text (some text) e =
          let (made, dir) =
            created-eq-true c (store.put_create (store.path_from path) text c.store)
              (sym (create_lem path a c e) ∙ h) in
          (text, e, (w.create-finished (store.path_from path) text c.store made).1, dir)

  create_not_again :
      (path : Text) (u : Text) (c : ObjectStorageClient Addr S) {c' : ObjectStorageClient Addr S}
      {text : Text}
      → w.object (store.path_from path) c.store ≡ some text
      → created (Laws.called c (store.put_create (store.path_from path) u c.store))
        ≡ (c', done true)
      → ⊥
  create_not_again path u c o h =
      let (made, _) = created-eq-true c (store.put_create (store.path_from path) u c.store) h in
      let absent = (w.create-finished (store.path_from path) u c.store made).0 in
      ground (arith, absent, o)

  -- A later creation neither succeeds nor changes the object.
  create_again :
      (path : Text) (b : A) (c : ObjectStorageClient Addr S) {c' : ObjectStorageClient Addr S}
      {r : Result Bool} {text : Text}
      → w.object (store.path_from path) c.store ≡ some text
      → upload_data_atomic_create store codec path b c ≡ (c', r)
      → (w.object (store.path_from path) c'.store ≡ some text)
        × (r ≢ done true)
        × (c'.membership_directory_path ≡ c.membership_directory_path)
  create_again path b c {c'} {r} {text} o h = by_text (codec.to_string b) refl
    where
      l : Location
      l = store.path_from path

      by_text :
          (t : Option Text)
          → codec.to_string b ≡ t
          → (w.object l c'.store ≡ some text)
            × (r ≢ done true)
            × (c'.membership_directory_path ≡ c.membership_directory_path)
      by_text none e =
          let made = sym (create_unserialized path b c e) ∙ h in
          let same : c.store ≡ c'.store = ground (arith, made) in
          let dir : c'.membership_directory_path ≡ c.membership_directory_path =
            ground (arith, made) in
          (ap (w.object l) (sym same) ∙ o, λ q. ground (arith, made, q), dir)
      by_text (some u) e =
          let made = sym (create_lem path b c e) ∙ h in
          let (kept, dir) = created-kept c (store.put_create l u c.store) made in
          (
            ap (w.object l) (sym kept) ∙ w.create-keeps l l u text c.store o,
            λ q. create_not_again path u c o (made ∙ ap (λ (x : Result Bool). (c', x)) q),
            dir,
          )

  -- Over a consistent store, the payload that created the object of a descriptor stays: another
  -- payload under the same descriptor is not taken, and a later read gives the first one or an
  -- error.
  pub payload_stays :
      (addr : AddrText Addr) (d : ReplicaDescriptor Addr) (a b : A) (c : ObjectStorageClient Addr S)
      {c1 c2 : ObjectStorageClient Addr S} {r : Result Bool}
      → ((text : Text) → codec.to_string a ≡ some text → codec.from_slice text ≡ some a)
      → write_membership_descriptor_payload addr store codec d a c ≡ (c1, done true)
      → write_membership_descriptor_payload addr store codec d b c1 ≡ (c2, r)
      → (r ≢ done true)
        × GivesOnly a
            (result_of store w codec (read_membership_descriptor_payload addr store codec d c2))
  unfolding write_membership_descriptor_payload read_membership_descriptor_payload
  payload_stays addr d a b c {c1} {c2} {r} law first second =
      let path = path_of addr store d c in
      let (text, e, o, dir1) = create-object path a c first in
      let path1 : path_of addr store d c1 ≡ path =
        ap (λ (dir : Text). object_path addr dir d) dir1 in
      let again : upload_data_atomic_create store codec path b c1 ≡ (c2, r) =
        ap (λ (p : Text). upload_data_atomic_create store codec p b c1) (sym path1) ∙ second in
      let (o2, refusal, dir2) = create_again path b c1 o again in
      let path2 : path_of addr store d c2 ≡ path =
        ap (λ (dir : Text). object_path addr dir d) (dir2 ∙ dir1) in
      (refusal, rw path2 (download-GivesOnly store w codec path a text c2 o2 (law text e)))
