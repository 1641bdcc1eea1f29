-- ===== src/Tests/Storage.antt =====
-- Descriptors, replicas and messages of one letter over the store in memory.
use gresse.Prelude.{
  ℕ_discrete, ◌≤◌, ◌≡◌, ◌≢◌, refl, sym, ap, ◌∙◌, Bool, true, false, some, [], ◌∷◌, pos, ok, nat_key,
  arith, take,
}
use mathlib.Core.List.{Memᴰ}
use gresse.Map
use gresse.Map.{Map}
use gresse.Text
use gresse.Text.{Text, comma, slash}
use gresse.Set
use gresse.Text.Split.{IsFree}
use gresse.Text.Lines
use gresse.Text.Lines.{text_key}
use gresse.Replica.Descriptor.{ReplicaDescriptor}
use gresse.Replica.Descriptor.Display
use gresse.Replica.Descriptor.Display.{
  AddrText, IsAddrText, from_str, object_path, from_str-object_path,
}
use gresse.ObjectStorage
use gresse.ObjectStorage.{
  ObjectStore, ObjectStorageClient, Item, listed, broken, Call, finished, refused, StoreError,
  not_found, already_exists, precondition, Codec, UpdateVersion,
}
use gresse.ObjectStorage.Membership
use gresse.ObjectStorage.Poll
use gresse.ObjectStorage.Poll.{Steps}
use gresse.ObjectStorage.Registered
use gresse.ObjectStorage.Stored
use gresse.ObjectStorage.FirstPayload
use gresse.Network.Wire
use gresse.Tests.Memory.{
  Objects, memory, memory-IsStore, memory-under, print_letter, parse_letter, letters, letters-parse,
  letters-IsAddrText,
}

-- A replica that has shut down after two changes.
abbrev leaver : ReplicaDescriptor Bool
leaver = record { pid = 12; address = true; gc_counter = pos 3; final_counter = some (pos 1) }

leaver-IsWf : Display.IsWf leaver
leaver-IsWf = record {
  pid = omega arith;
  gc = (omega arith, omega arith);
  final = (omega arith, omega arith);
}

-- "members/".
abbrev directory : Text
directory = b'm' ∷ b'/' ∷ []

from_str-object_path_example : from_str letters (object_path letters directory leaver) ≡ some leaver
from_str-object_path_example =
    from_str-object_path letters directory leaver letters-IsAddrText leaver-IsWf

abbrev client : ObjectStorageClient Bool Objects
client = record {
  store = [];
  persistent_replica_path = b'p' ∷ [];
  membership_directory_path = directory;
  membership_descriptors = [];
  membership_poll_in_flight = false;
  membership_poll_results = [];
  membership_poll_task = false;
  running_polls = 0;
  connection_logged = false;
}

program : Unit {0}
unfolding Membership.register_and_list_members Membership.write_membership_descriptor
    Membership.list_membership_descriptors Membership.fetch_membership_descriptors
    Membership.parse_members Membership.update_membership_cache
    ObjectStorage.upload_empty_atomic_create ObjectStorage.list_objects ObjectStorage.file_names
    ObjectStorage.with_operation_timeout ObjectStorage.log_connection_established_once Map.get
    Map.insert object_path Display.display from_str Text.print_nat Text.push_digits Text.print_int
    Text.parse_nat Text.parse_int Text.parse_digits Text.split_on Text.after_last
    Text.trim_end_matches Set.contains ℕ_discrete Lines.text_dec
program = tt

abbrev after : ObjectStorageClient Bool Objects
after = (Membership.register_and_list_members letters memory leaver client).0

registered :
    Membership.register_and_list_members letters memory leaver client ≡ (after, some (leaver ∷ []))
unfolding program
registered = refl

register_and_list_members-Mem_example :
    Memᴰ leaver (leaver ∷ []) × (after.membership_descriptors ≡ leaver ∷ [])
register_and_list_members-Mem_example =
    Registered.register_and_list_members-Mem letters memory memory-IsStore leaver client
      letters-IsAddrText leaver-IsWf refl
      (memory-under directory (object_path letters directory leaver)) registered

-- One letter, printed as itself.
abbrev letter_json : Codec Bool
letter_json = record { to_string = λ a. some (print_letter a); from_slice = parse_letter }

letter_law : (text : Text) → some (print_letter true) ≡ some text → parse_letter text ≡ some true
letter_law text h =
    let same : print_letter true ≡ text = cc in ap parse_letter (sym same) ∙ letters-parse true

abbrev written : ObjectStorageClient Bool Objects
written = (ObjectStorage.write_persistent_replica memory letter_json true client).0

write_succeeds :
    ObjectStorage.write_persistent_replica memory letter_json true client ≡ (written, true)
unfolding ObjectStorage.write_persistent_replica ObjectStorage.upload_data
    ObjectStorage.upload_data_with_size ObjectStorage.with_operation_timeout
    ObjectStorage.log_connection_established_once
write_succeeds = refl

read-write_persistent_replica_example : Stored.GivesOnly true (
    Stored.result_of memory memory-IsStore letter_json
      (ObjectStorage.read_persistent_replica memory letter_json written))
read-write_persistent_replica_example =
    Stored.read-write_persistent_replica memory memory-IsStore letter_json true client letter_law
      write_succeeds

abbrev first_write : ObjectStorageClient Bool Objects × ObjectStorage.Result Bool
first_write =
    Membership.write_membership_descriptor_payload letters memory letter_json leaver true client

abbrev second_write : ObjectStorageClient Bool Objects × ObjectStorage.Result Bool
second_write =
    Membership.write_membership_descriptor_payload letters memory letter_json leaver false
      (first_write.0)

writes : Unit {0}
unfolding program Membership.write_membership_descriptor_payload
    ObjectStorage.upload_data_atomic_create
writes = tt

first_created : first_write ≡ (first_write.0, ObjectStorage.done true)
unfolding writes
first_created = refl

payload_stays_example :
    (second_write.1 ≢ ObjectStorage.done true)
    × Stored.GivesOnly true (
        Stored.result_of memory memory-IsStore letter_json (
          Membership.read_membership_descriptor_payload letters memory letter_json leaver
            (second_write.0)))
payload_stays_example =
    FirstPayload.payload_stays memory memory-IsStore letter_json letters leaver true false client
      letter_law first_created refl

abbrev polled : ObjectStorageClient Bool Objects
polled = Poll.start_membership_poll (Poll.start_membership_poll client)

polls : Steps client polled
polls =
    Poll.step (Poll.started client)
      (Poll.step (Poll.started (Poll.start_membership_poll client)) Poll.here)

idle : Poll.outstanding client ≡ 0
unfolding Poll.outstanding
idle = refl

outstanding-steps_example : Poll.outstanding polled ≤ 1
outstanding-steps_example = Poll.outstanding-steps polls idle

letter_line : (m : Bool) → IsFree Lines.line_feed (print_letter m)
unfolding Set.contains ℕ_discrete
letter_line true = refl
letter_line false = refl

letter_end : (m : Bool) → Lines.ends_with Lines.carriage_return (print_letter m) ≡ false
unfolding Lines.ends_with ℕ_discrete
letter_end true = refl
letter_end false = refl

letter-IsLine : (m : Bool) → Wire.IsLine letter_json m
letter-IsLine m = record {
  text = print_letter m;
  printed = refl;
  parsed = letters-parse m;
  one_line = letter_line m;
  no_return = letter_end m;
}

read_loop-write_loop_example :
    (bytes : Text) × (Wire.write_loop letter_json (Wire.as_sent (true ∷ false ∷ [])) ≡ ok bytes)
    × (Wire.read_loop letter_json (Wire.as_lines (Lines.lines bytes)) 5
        ≡ take 5 (true ∷ false ∷ []))
read_loop-write_loop_example =
    Wire.read_loop-write_loop letter_json (true ∷ false ∷ []) 5 letter-IsLine
