-- ===== src/ObjectStorage/Membership.antt =====
-- The membership directory of src/object_storage.rs: an object for every descriptor, named by it, and the
-- client's cache of the descriptors that were listed last.
use gresse.Prelude.{Bool, true, false, Option, none, some, List, [], ◌∷◌, ite, ℕ_discrete, filter}
use gresse.Dots.{Pid}
use gresse.Text.{Text}
use gresse.Replica.Descriptor.{ReplicaDescriptor}
use gresse.Replica.Descriptor.Display.{AddrText, object_path, from_str}
use gresse.ObjectStorage.{
  ObjectStore, ObjectStorageClient, Action, Result, done, failed, Codec, ◌>>=◌, list_objects,
  delete_data, upload_empty_atomic_create, upload_data_atomic_create, download_data, or_missing,
}

module _ {Addr : Type 0} where
  abbrev pub push_parsed :
      Option (ReplicaDescriptor Addr)
      → List (ReplicaDescriptor Addr)
      → List (ReplicaDescriptor Addr)
  push_parsed none ds = ds
  push_parsed (some d) ds = d ∷ ds

  abbrev pub has_pid : Pid → ReplicaDescriptor Addr → Bool
  has_pid pid d = ite (ℕ_discrete d.pid pid) true false

  abbrev pub has_other_pid : Pid → ReplicaDescriptor Addr → Bool
  has_other_pid pid d = ite (ℕ_discrete d.pid pid) false true

module _ {Addr S : Type 0} where
  unfoldable pub update_membership_cache :
      List (ReplicaDescriptor Addr) → ObjectStorageClient Addr S → ObjectStorageClient Addr S
  update_membership_cache ds c = record c { membership_descriptors = ds }

  -- The answer of a method that logs its error and gives nothing.
  abbrev pub cached :
      ObjectStorageClient Addr S × Result (List (ReplicaDescriptor Addr))
      → ObjectStorageClient Addr S × Option (List (ReplicaDescriptor Addr))
  cached (c, failed e) = (c, none)
  cached (c, done ds) = (update_membership_cache ds c, some ds)

  abbrev pub client_of : {A : Type 0} → ObjectStorageClient Addr S × A → ObjectStorageClient Addr S
  client_of (c, _) = c

  -- The cache forgets a pid, after all its objects were deleted.
  abbrev forget : Pid → ObjectStorageClient Addr S × Result (Unit {0}) → ObjectStorageClient Addr S
  forget pid (c, failed e) = c
  forget pid (c, done _) = record c {
    membership_descriptors = filter (has_other_pid pid) c.membership_descriptors;
  }

-- `filter_map(|member| member.parse().ok())`.
unfoldable pub parse_members :
    {Addr : Type 0} → AddrText Addr → List Text → List (ReplicaDescriptor Addr)
parse_members addr [] = []
parse_members addr (name ∷ names) = push_parsed (from_str addr name) (parse_members addr names)

module _ {Addr Location Response S : Type 0} (addr : AddrText Addr)
    (store : ObjectStore Location Response S) where
  abbrev pub path_of : ReplicaDescriptor Addr → ObjectStorageClient Addr S → Text
  path_of d c = object_path addr c.membership_directory_path d

  unfoldable pub write_membership_descriptor : ReplicaDescriptor Addr → Action Addr S Bool
  write_membership_descriptor d c = upload_empty_atomic_create store (path_of d c) c

  unfoldable pub write_membership_descriptor_payload :
      {A : Type 0} → Codec A → ReplicaDescriptor Addr → A → Action Addr S Bool
  write_membership_descriptor_payload codec d payload c =
      upload_data_atomic_create store codec (path_of d c) payload c

  unfoldable pub read_membership_descriptor_payload :
      {A : Type 0} → Codec A → ReplicaDescriptor Addr → Action Addr S (Option A)
  read_membership_descriptor_payload codec d c =
      or_missing (download_data store codec (path_of d c) c)

  unfoldable pub try_delete_membership_descriptor :
      ReplicaDescriptor Addr → Action Addr S (Unit {0})
  try_delete_membership_descriptor d c = delete_data store (path_of d c) c

  -- The error is logged.
  unfoldable pub delete_membership_descriptor :
      ReplicaDescriptor Addr → ObjectStorageClient Addr S → ObjectStorageClient Addr S
  delete_membership_descriptor d c = client_of (try_delete_membership_descriptor d c)

  -- `try_join_all`, one deletion after the other, up to the first error.
  unfoldable pub try_delete_all : List (ReplicaDescriptor Addr) → Action Addr S (Unit {0})
  try_delete_all [] c = (c, done tt)
  try_delete_all (d ∷ ds) c = (try_delete_membership_descriptor d >>= λ _. try_delete_all ds) c

  unfoldable pub delete_membership_descriptors_for_pid :
      Pid → ObjectStorageClient Addr S → ObjectStorageClient Addr S
  delete_membership_descriptors_for_pid pid c =
      forget pid (try_delete_all (filter (has_pid pid) c.membership_descriptors) c)

  unfoldable pub fetch_membership_descriptors : Action Addr S (List (ReplicaDescriptor Addr))
  fetch_membership_descriptors c =
      (list_objects store c.membership_directory_path >>= λ names c.
      (c, done (parse_members addr names)))
        c

  unfoldable pub list_membership_descriptors :
      ObjectStorageClient Addr S
      → ObjectStorageClient Addr S × Option (List (ReplicaDescriptor Addr))
  list_membership_descriptors c = cached (fetch_membership_descriptors c)

  abbrev pub registered :
      ObjectStorageClient Addr S × Result Bool
      → ObjectStorageClient Addr S × Option (List (ReplicaDescriptor Addr))
  registered (c, failed e) = (c, none)
  registered (c, done created) = list_membership_descriptors c

  unfoldable pub register_and_list_members :
      ReplicaDescriptor Addr
      → ObjectStorageClient Addr S
      → ObjectStorageClient Addr S × Option (List (ReplicaDescriptor Addr))
  register_and_list_members d c = registered (write_membership_descriptor d c)
