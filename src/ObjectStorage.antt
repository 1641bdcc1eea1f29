-- ===== src/ObjectStorage.antt =====
-- `ObjectStorageClient` of src/object_storage.rs: the calls of an object store, their errors and time
-- limits, and the objects that the client reads and writes through them. The crates `object_store` and
-- `serde_json` are parameters; each method runs as a whole.
pub mod Membership
pub mod Poll
pub mod Laws
pub mod Profile
pub mod Registered
pub mod Stored
pub mod FirstPayload
use gresse.Prelude.{ℕ, Bool, true, false, Option, none, some, List, [], ◌∷◌, length}
use gresse.Text.{Text}
use gresse.Replica.Descriptor.{ReplicaDescriptor}

-- `object_store::Error`, as far as the source looks into it.
pub data StoreError : Type 0 where
  not_found : StoreError
  already_exists : StoreError
  precondition : StoreError
  other : Text → StoreError

-- What a call of the store comes to within the time limit of `tokio::time::timeout`.
pub data Call (A : Type 0) : Type 0 where
  finished : A → Call A
  refused : StoreError → Call A
  elapsed : Call A

pub data ObjectStorageError : Type 0 where
  file_not_found : ObjectStorageError
  configuration_error : Text → ObjectStorageError
  store_error : StoreError → ObjectStorageError
  operation_timeout : ObjectStorageError
  serialization_error : ObjectStorageError
  io_error : ObjectStorageError

-- `Result<A, ObjectStorageError>`.
pub data Result (A : Type 0) : Type 0 where
  done : A → Result A
  failed : ObjectStorageError → Result A

pub record UpdateVersion : Type 0 where
  pub e_tag : Option Text
  pub version : Option Text

-- What a listing streams: the location of an object, or an error.
pub data Item (Location : Type 0) : Type 0 where
  listed : Location → Item Location
  broken : StoreError → Item Location

-- The store, over its own state. `list` gives nothing where the time limit passed.
pub record ObjectStore (Location Response S : Type 0) : Type 0 where
  pub path_from : Text → Location
  pub path_text : Location → Text
  pub put : Location → Text → S → S × Call (Unit {0})
  pub put_create : Location → Text → S → S × Call (Unit {0})
  pub get : Location → S → S × Call Response
  pub bytes : Response → S → S × Call Text
  pub meta : Response → UpdateVersion
  pub delete : Location → S → S × Call (Unit {0})
  pub list : Location → S → S × Option (List (Item Location))

-- `serde_json::to_string` and `from_slice` of one type.
pub record Codec (A : Type 0) : Type 0 where
  pub to_string : A → Option Text
  pub from_slice : Text → Option A

pub record ObjectStorageClient (Addr S : Type 0) : Type 0 where
  pub store : S
  pub persistent_replica_path : Text
  pub membership_directory_path : Text
  pub membership_descriptors : List (ReplicaDescriptor Addr)
  pub membership_poll_in_flight : Bool
  pub membership_poll_results : List (Result (List (ReplicaDescriptor Addr)))
  pub membership_poll_task : Bool
  -- The spawned listings that have not sent their result.
  pub running_polls : ℕ
  pub connection_logged : Bool

-- A method, which changes the client and answers.
abbrev pub Action : Type 0 → Type 0 → Type 0 → Type 0
Action Addr S A = ObjectStorageClient Addr S → ObjectStorageClient Addr S × Result A

unfoldable pub with_operation_timeout : {A : Type 0} → Call A → Result A
with_operation_timeout (finished a) = done a
with_operation_timeout (refused e) = failed (store_error e)
with_operation_timeout elapsed = failed operation_timeout

module _ {Addr S : Type 0} where
  abbrev pub give : {A : Type 0} → A → Action Addr S A
  give a c = (c, done a)

  abbrev pub fail : {A : Type 0} → ObjectStorageError → Action Addr S A
  fail e c = (c, failed e)

  abbrev pub continue :
      {A B : Type 0}
      → (A → Action Addr S B)
      → ObjectStorageClient Addr S × Result A
      → ObjectStorageClient Addr S × Result B
  continue next (c, done a) = next a c
  continue next (c, failed e) = (c, failed e)

  infixl 5 ◌>>=◌
  abbrev pub ◌>>=◌ : {A B : Type 0} → Action Addr S A → (A → Action Addr S B) → Action Addr S B
  (first >>= next) c = continue next (first c)

  -- A call of the store under the time limit.
  abbrev pub call : {A : Type 0} → (S → S × Call A) → Action Addr S A
  call run c =
      let answer = run c.store in (record c { store = answer.0 }, with_operation_timeout (answer.1))

  unfoldable pub log_connection_established_once : Action Addr S (Unit {0})
  log_connection_established_once c = (record c { connection_logged = true }, done tt)

module _ {Addr S : Type 0} where
  -- The `match` on the result of a put that must create: an object that is there is no error.
  abbrev pub created :
      ObjectStorageClient Addr S × Result (Unit {0}) → ObjectStorageClient Addr S × Result Bool
  created (c, done _) = (record c { connection_logged = true }, done true)
  created (c, failed (store_error already_exists)) =
      (record c { connection_logged = true }, done false)
  created (c, failed (store_error precondition)) =
      (record c { connection_logged = true }, done false)
  created (c, failed (store_error not_found)) = (c, failed (store_error not_found))
  created (c, failed (store_error (other e))) = (c, failed (store_error (other e)))
  created (c, failed file_not_found) = (c, failed file_not_found)
  created (c, failed (configuration_error e)) = (c, failed (configuration_error e))
  created (c, failed operation_timeout) = (c, failed operation_timeout)
  created (c, failed serialization_error) = (c, failed serialization_error)
  created (c, failed io_error) = (c, failed io_error)

  -- The `match` on the result of the get: a missing object has an error of its own.
  abbrev pub found :
      {Response : Type 0}
      → ObjectStorageClient Addr S × Result Response
      → ObjectStorageClient Addr S × Result Response
  found (c, done response) = (record c { connection_logged = true }, done response)
  found (c, failed (store_error not_found)) =
      (record c { connection_logged = true }, failed file_not_found)
  found (c, failed e) = (c, failed e)

  -- `Err(FileNotFound)` is no error for the callers.
  abbrev pub or_missing :
      {A : Type 0}
      → ObjectStorageClient Addr S × Result (A × UpdateVersion)
      → ObjectStorageClient Addr S × Result (Option A)
  or_missing (c, done r) = (c, done (some (r.0)))
  or_missing (c, failed file_not_found) = (c, done none)
  or_missing (c, failed e) = (c, failed e)

  abbrev pub succeeded :
      ObjectStorageClient Addr S × Result (Unit {0}) → ObjectStorageClient Addr S × Bool
  succeeded (c, done _) = (c, true)
  succeeded (c, failed e) = (c, false)

abbrev pub to_json : {Addr S A : Type 0} → Codec A → A → Action Addr S Text
to_json codec a c = elim (codec.to_string a) [
  | none ↦ (c, failed serialization_error)
  | some text ↦ (c, done text)
]

abbrev pub from_json : {Addr S A : Type 0} → Codec A → Text → Action Addr S A
from_json codec text c = elim (codec.from_slice text) [
  | none ↦ (c, failed serialization_error)
  | some a ↦ (c, done a)
]

module _ {Location Response S : Type 0} (store : ObjectStore Location Response S) where
  -- The loop over the stream, which the first error ends.
  unfoldable pub file_names : List (Item Location) → Call (List Text)
  file_names [] = finished []
  file_names (broken e ∷ items) = refused e
  file_names (listed location ∷ items) = elim (file_names items) [
    | finished names ↦ finished (store.path_text location ∷ names)
    | refused e ↦ refused e
    | elapsed ↦ elapsed
  ]

  abbrev pub names_of : S × Option (List (Item Location)) → S × Call (List Text)
  names_of (s, none) = (s, elapsed)
  names_of (s, some items) = (s, file_names items)

module _ {Addr Location Response S : Type 0} (store : ObjectStore Location Response S) where
  unfoldable pub list_objects : Text → Action Addr S (List Text)
  list_objects prefix = do
    names ← call (λ s. names_of store (store.list (store.path_from prefix) s))
    _ ← log_connection_established_once
    give names

  unfoldable pub delete_data : Text → Action Addr S (Unit {0})
  delete_data file_path = do
    _ ← call (store.delete (store.path_from file_path))
    log_connection_established_once

  unfoldable pub upload_empty_atomic_create : Text → Action Addr S Bool
  upload_empty_atomic_create file_path c =
      created (call (store.put_create (store.path_from file_path) []) c)

  module _ {A : Type 0} (codec : Codec A) where
    -- The number of bytes that were written.
    unfoldable pub upload_data_with_size : Text → A → Action Addr S ℕ
    upload_data_with_size file_path value = do
      text ← to_json codec value
      _ ← call (store.put (store.path_from file_path) text)
      _ ← log_connection_established_once
      give (length text)

    unfoldable pub upload_data : Text → A → Action Addr S (Unit {0})
    upload_data file_path value = do _ ← upload_data_with_size file_path value; give tt

    unfoldable pub upload_data_atomic_create : Text → A → Action Addr S Bool
    upload_data_atomic_create file_path value = do
      text ← to_json codec value
      (λ c. created (call (store.put_create (store.path_from file_path) text) c))

    -- The value, the bytes it was read from, and their version.
    unfoldable pub download_data_with_serialized_data :
        Text → Action Addr S (A × Text × UpdateVersion)
    download_data_with_serialized_data file_path = do
      response ← (λ c. found (call (store.get (store.path_from file_path)) c))
      raw_data ← call (store.bytes response)
      a ← from_json codec raw_data
      give (a, raw_data, store.meta response)

    unfoldable pub download_data : Text → Action Addr S (A × UpdateVersion)
    download_data file_path = do r ← download_data_with_serialized_data file_path; give (r.0, r.2)

    unfoldable pub read_persistent_replica : Action Addr S (Option A)
    read_persistent_replica c = or_missing (download_data c.persistent_replica_path c)

    unfoldable pub write_persistent_replica :
        A → ObjectStorageClient Addr S → ObjectStorageClient Addr S × Bool
    write_persistent_replica a c = succeeded (upload_data c.persistent_replica_path a c)
