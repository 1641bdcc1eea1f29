-- ===== src/Tests/Rounds.antt =====
-- A replica of a counter over the store in memory, and a server that takes the second attempt.
use gresse.Prelude.{ℕ, zero, suc, ◌≡◌, Bool, true, false, none, some, [], ◌∷◌}
use gresse.Replica
use gresse.Replica.{Replica}
use gresse.Replica.Storage
use gresse.Replica.Storage.Round
use gresse.Journal.{Serde, disabled}
use gresse.Crdt.{PersistentReplica}
use gresse.ObjectStorage.{ObjectStorageClient, Codec}
use gresse.ObjectStorage.Membership.{write_membership_descriptor, list_membership_descriptors}
use gresse.Http
use gresse.Http.{Answer}
use gresse.Http.Retries
use gresse.Tests.Memory.{Objects, memory, letters, print_letter, parse_letter}
use gresse.Tests.Journals.{counter}

-- A journal that is disabled writes nothing.
abbrev serde : Serde ℕ ℕ ℕ ℕ ℕ
serde = record {
  to_vec = λ _. [];
  from_slice = λ _. none;
  replica_to_value = λ _. 0;
  replica_from_value = λ _. none;
  delta_to_value = λ _. 0;
  delta_from_value = λ _. none;
  mutation_to_value = λ m. m;
  mutation_from_value = λ v. some v;
  marker_to_value = λ _. 0;
  marker_from_value = λ _. none;
}

abbrev no_json : Codec (PersistentReplica ℕ)
no_json = record { to_string = λ _. none; from_slice = λ _. none }

abbrev replica : Replica ℕ
replica = Replica.start counter serde 1 5 disabled none

abbrev client : ObjectStorageClient Bool Objects
client = record {
  store = [];
  persistent_replica_path = b'p' ∷ [];
  membership_directory_path = b'm' ∷ [];
  membership_descriptors = [];
  membership_poll_in_flight = false;
  membership_poll_results = [];
  membership_poll_task = false;
  running_polls = 0;
  connection_logged = false;
}

init_gc_lem_example :
    Round.replica_of letters memory true counter serde no_json
      (Storage.init_gc letters memory true counter serde no_json replica client)
    ≡ Replica.init_gc counter serde []
        (Round.succeeded letters memory true counter serde no_json (
          (write_membership_descriptor letters memory
            (Round.announced letters memory true counter serde no_json replica)
            client).1))
        ((list_membership_descriptors letters memory (
          (write_membership_descriptor letters memory
            (Round.announced letters memory true counter serde no_json replica)
            client).0)).1)
        replica
init_gc_lem_example = Round.init_gc_lem letters memory true counter serde no_json replica client

abbrev letter_json : Codec Bool
letter_json = record { to_string = λ a. some (print_letter a); from_slice = parse_letter }

abbrev answers : ℕ → Answer
answers zero = Answer.refused []
answers (suc _) = Answer.body (print_letter true)

send_loop-ends_example :
    (k : ℕ) × Retries.EndsAt letter_json letter_json answers Http.max_retries 0 k
send_loop-ends_example = Retries.send_loop-ends letter_json letter_json answers
