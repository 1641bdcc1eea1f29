-- ===== src/ObjectStorage/Stored.antt =====
-- What is read of an object that was written: `write_persistent_replica` and
-- `read_persistent_replica`, and the payloads of descriptors.
use gresse.Prelude.{◌≡◌, refl, Bool, true, false, Option, none, some, arith, ap, sym, ◌∙◌}
use gresse.Text.{Text}
use gresse.ObjectStorage.{
  StoreError, not_found, already_exists, precondition, Call, finished, refused, elapsed, Result,
  done, failed, ObjectStore, ObjectStorageClient, continue, call, with_operation_timeout, Codec,
  to_json, from_json, log_connection_established_once, ◌>>=◌, found, or_missing, download_data,
  download_data_with_serialized_data, upload_data, upload_data_with_size, read_persistent_replica,
  write_persistent_replica, UpdateVersion,
}
use gresse.ObjectStorage.Laws
use gresse.ObjectStorage.Laws.{IsStore}

-- A read gives this value or an error; it does not give another value or miss the object.
abbrev pub GivesOnly : {A : Type 0} → A → Result (Option A) → Type 0
GivesOnly a (done (some x)) = x ≡ a
GivesOnly a (done none) = ⊥
GivesOnly a (failed e) = Unit {0}

module _ {Addr Location Response S A : Type 0} (store : ObjectStore Location Response S)
    (w : IsStore store) (codec : Codec A) where
  abbrev pub result_of : ObjectStorageClient Addr S × Result (Option A) → Result (Option A)
  result_of (c, r) = r

  -- The rest of a download, after its get.
  abbrev after_get :
      ObjectStorageClient Addr S × Result Response → ObjectStorageClient Addr S × Result (Option A)
  after_get r = or_missing (
      continue (λ (found : A × Text × UpdateVersion). λ c. (c, done (found.0, found.2)))
        (continue
          (λ response. call (store.bytes response) >>= λ raw_data.
            from_json codec raw_data >>= λ a c. (c, done (a, raw_data, store.meta response)))
          r))

  download-after_get :
      (path : Text) (c : ObjectStorageClient Addr S)
      → or_missing (download_data store codec path c)
        ≡ after_get (found (Laws.called c (store.get (store.path_from path) c.store)))
  unfolding download_data download_data_with_serialized_data
  download-after_get path c = refl

  after_bytes :
      (response : Response) (a : A) (c : ObjectStorageClient Addr S)
      → codec.from_slice (w.body response) ≡ some a
      → GivesOnly a (result_of (after_get (c, done response)))
  unfolding with_operation_timeout
  after_bytes response a c k = by_call (store.bytes response c.store) refl
    where
      by_call :
          (answer : S × Call Text)
          → store.bytes response c.store ≡ answer
          → GivesOnly a (result_of (after_get (c, done response)))
      by_call (s, finished raw) e =
          let right : codec.from_slice raw ≡ some a =
            ap codec.from_slice (w.bytes-finished response c.store e) ∙ k in
          rw (e, right, from_json) refl
      by_call (s, refused x) e = rw e tt
      by_call (s, elapsed) e = rw e tt

  after_call :
      (path : Text) (a : A) (text : Text) (c : ObjectStorageClient Addr S)
      → w.object (store.path_from path) c.store ≡ some text
      → codec.from_slice text ≡ some a
      → (answer : S × Call Response) → store.get (store.path_from path) c.store ≡ answer
      → GivesOnly a (result_of (after_get (found (Laws.called c answer))))
  unfolding with_operation_timeout
  after_call path a text c o k (s, finished response) e =
      let same : some text ≡ some (w.body response) =
        sym o ∙ w.get-finished (store.path_from path) c.store e in
      let right : codec.from_slice (w.body response) ≡ some a = ground (arith, same, k) in
      after_bytes response a (record c { store = s; connection_logged = true }) right
  after_call path a text c o k (s, refused not_found) e =
      let missing : w.object (store.path_from path) c.store ≡ none =
        w.get-missing (store.path_from path) c.store e in
      absurd (ground (arith, missing, o))
  after_call path a text c o k (s, refused already_exists) e = tt
  after_call path a text c o k (s, refused precondition) e = tt
  after_call path a text c o k (s, refused (StoreError.other x)) e = tt
  after_call path a text c o k (s, elapsed) e = tt

  -- A download of an object that holds the text of a value.
  pub download-GivesOnly :
      (path : Text) (a : A) (text : Text) (c : ObjectStorageClient Addr S)
      → w.object (store.path_from path) c.store ≡ some text
      → codec.from_slice text ≡ some a
      → GivesOnly a (result_of (or_missing (download_data store codec path c)))
  download-GivesOnly path a text c o k =
      rw (download-after_get path c)
        (after_call path a text c o k (store.get (store.path_from path) c.store) refl)

  abbrev put_result :
      ObjectStorageClient Addr S → S × Call (Unit {0}) → ObjectStorageClient Addr S × Bool
  put_result c (s, finished _) = (record c { store = s; connection_logged = true }, true)
  put_result c (s, refused e) = (record c { store = s }, false)
  put_result c (s, elapsed) = (record c { store = s }, false)

  write_lem :
      (a : A) (c : ObjectStorageClient Addr S) {text : Text}
      → codec.to_string a ≡ some text
      → (answer : S × Call (Unit {0}))
      → store.put (store.path_from c.persistent_replica_path) text c.store ≡ answer
      → write_persistent_replica store codec a c ≡ put_result c answer
  unfolding write_persistent_replica upload_data upload_data_with_size
      log_connection_established_once with_operation_timeout
  write_lem a c e (s, finished _) q = rw (e, to_json, q) refl
  write_lem a c e (s, refused x) q = rw (e, to_json, q) refl
  write_lem a c e (s, elapsed) q = rw (e, to_json, q) refl

  write_unserialized :
      (a : A) (c : ObjectStorageClient Addr S)
      → codec.to_string a ≡ none
      → write_persistent_replica store codec a c ≡ (c, false)
  unfolding write_persistent_replica upload_data upload_data_with_size
  write_unserialized a c e = rw (e, to_json) refl

  write-object :
      (a : A) (c : ObjectStorageClient Addr S) {c' : ObjectStorageClient Addr S}
      → write_persistent_replica store codec a c ≡ (c', true)
      → (text : Text) × (codec.to_string a ≡ some text)
        × (w.object (store.path_from c'.persistent_replica_path) c'.store ≡ some text)
  write-object a c {c'} h = by_text (codec.to_string a) refl
    where
      by_answer :
          (text : Text) (answer : S × Call (Unit {0}))
          → store.put (store.path_from c.persistent_replica_path) text c.store ≡ answer
          → put_result c answer ≡ (c', true)
          → w.object (store.path_from c'.persistent_replica_path) c'.store ≡ some text
      by_answer text (s, finished _) q r =
          let stored = w.put-finished (store.path_from c.persistent_replica_path) text c.store q in
          ground (arith, r, stored)
      by_answer text (s, refused x) q r = cc
      by_answer text (s, elapsed) q r = cc

      by_text :
          (o : Option Text)
          → codec.to_string a ≡ o
          → (text : Text) × (codec.to_string a ≡ some text)
            × (w.object (store.path_from c'.persistent_replica_path) c'.store ≡ some text)
      by_text none e = absurd (ground (arith, h, write_unserialized a c e))
      by_text (some text) e =
          let answer = store.put (store.path_from c.persistent_replica_path) text c.store in
          (text, e, by_answer text answer refl (sym (write_lem a c e answer refl) ∙ h))

  -- Over a consistent store, when a write of the replica succeeds, the next read gives that
  -- replica, or an error.
  pub read-write_persistent_replica :
      (a : A) (c : ObjectStorageClient Addr S) {c' : ObjectStorageClient Addr S}
      → ((text : Text) → codec.to_string a ≡ some text → codec.from_slice text ≡ some a)
      → write_persistent_replica store codec a c ≡ (c', true)
      → GivesOnly a (result_of (read_persistent_replica store codec c'))
  unfolding read_persistent_replica
  read-write_persistent_replica a c {c'} law h =
      let (text, e, o) = write-object a c h in
      download-GivesOnly c'.persistent_replica_path a text c' o (law text e)
