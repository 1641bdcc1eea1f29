-- ===== src/Tests/Journals.antt =====
-- A counter kept in a journal, with a serializer made of codecs.
use gresse.Prelude.{
  ℕ, ℤ, pos, negsuc, ◌+◌, ◌≡◌, ◌≢◌, refl, true, false, Option, none, some, List, [], ◌∷◌, ◌++◌, ◌⊎◌,
  inl, inr, ok, nat_key, ℕ_discrete, arith,
}
use gresse.Set
use gresse.Dots.{Dot}
use gresse.Dots.DotSet.{DotSet}
use gresse.Dots.VersionMatrix.{VersionMatrix}
use gresse.DeltaGroup.{DeltaGroup, GcMarker}
use gresse.Crdt.{Crdt, CrdtWrapper, PersistentReplica}
use gresse.Journal
use gresse.Journal.{
  RecordType, RawDurabilityRecord, Serde, DiskJournal, returned, append_snapshot, recover, newline,
  is_blank,
}
use gresse.Journal.Recovery
use gresse.Journal.Recovery.{IsFaithful, Entry, append_entries, crashed, half_replaced, perform_all}
use gresse.Tests.Codec.{Codec, nat_codec, pair_codec, sum_codec, iso_codec, list_codec}

-- The numbers with addition, whose deltas are numbers.
abbrev pub counter : Crdt ℕ ℕ ℕ ℕ
counter = record {
  set_pid = λ p s. s;
  mutate = λ m s. ok (s + m);
  get_version_vector = λ s. record { set = [] };
  get_delta = λ vv s. record { list = s ∷ []; side_effects = none; version_vector = vv };
  merge_delta_group = λ group s. ok (s + 1);
  gc = λ stable departed s. s;
}

-- Any value that the journal writes.
abbrev Value : Type 0
Value = PersistentReplica ℕ ⊎ (DeltaGroup ℕ ℕ ⊎ (ℕ ⊎ GcMarker))

abbrev int_of : ℕ ⊎ ℕ → ℤ
int_of (inl n) = pos n
int_of (inr n) = negsuc n

abbrev of_int : ℤ → ℕ ⊎ ℕ
of_int (pos n) = inl n
of_int (negsuc n) = inr n

int_back : (z : ℤ) → int_of (of_int z) ≡ z
int_back (pos n) = refl
int_back (negsuc n) = refl

int_codec : Codec ℤ
int_codec = iso_codec (sum_codec nat_codec nat_codec) int_of of_int int_back

abbrev option_of : {A : Type 0} → ℕ ⊎ A → Option A
option_of (inl n) = none
option_of (inr a) = some a

abbrev of_option : {A : Type 0} → Option A → ℕ ⊎ A
of_option none = inl 0
of_option (some a) = inr a

option_back : {A : Type 0} (o : Option A) → option_of (of_option o) ≡ o
option_back none = refl
option_back (some a) = refl

option_codec : {A : Type 0} → Codec A → Codec (Option A)
option_codec a = iso_codec (sum_codec nat_codec a) option_of of_option option_back

dot_codec : Codec Dot
dot_codec =
    iso_codec (pair_codec nat_codec int_codec) (λ p. record { pid = p.0; counter = p.1 })
      (λ d. (d.pid, d.counter)) (λ d. refl)

dot_set_codec : Codec DotSet
dot_set_codec =
    iso_codec (list_codec (pair_codec nat_codec int_codec)) (λ m. record { set = m }) (λ s. s.set)
      (λ s. refl)

matrix_codec : Codec VersionMatrix
matrix_codec =
    iso_codec
      (pair_codec nat_codec (
        pair_codec (list_codec (pair_codec nat_codec dot_set_codec))
          (list_codec (pair_codec nat_codec int_codec))))
      (λ p. record { own_pid = p.0; matrix = (p.1).0; final_dots = (p.1).1 })
      (λ m. (m.own_pid, (m.matrix, m.final_dots))) (λ m. refl)

marker_codec : Codec GcMarker
marker_codec =
    iso_codec
      (pair_codec dot_codec (pair_codec dot_set_codec (option_codec (list_codec nat_codec))))
      (λ p. record { marker = p.0; stable = (p.1).0; departed_pids = (p.1).1 })
      (λ m. (m.marker, (m.stable, m.departed_pids))) (λ m. refl)

wrapper_codec : Codec CrdtWrapper
wrapper_codec =
    iso_codec (pair_codec matrix_codec (list_codec marker_codec))
      (λ p. record { version_matrix = p.0; gc_markers = p.1 })
      (λ w. (w.version_matrix, w.gc_markers)) (λ w. refl)

replica_codec : Codec (PersistentReplica ℕ)
replica_codec =
    iso_codec (pair_codec nat_codec wrapper_codec)
      (λ p. record { local_state = p.0; crdt_wrapper = p.1 }) (λ r. (r.local_state, r.crdt_wrapper))
      (λ r. refl)

group_codec : Codec (DeltaGroup ℕ ℕ)
group_codec =
    iso_codec
      (pair_codec (list_codec nat_codec) (pair_codec (option_codec nat_codec) dot_set_codec))
      (λ p. record { list = p.0; side_effects = (p.1).0; version_vector = (p.1).1 })
      (λ g. (g.list, (g.side_effects, g.version_vector))) (λ g. refl)

value_codec : Codec Value
value_codec = sum_codec replica_codec (sum_codec group_codec (sum_codec nat_codec marker_codec))

abbrev type_of : ℕ ⊎ (ℕ ⊎ (ℕ ⊎ (ℕ ⊎ List ℕ))) → RecordType
type_of (inl _) = RecordType.snapshot
type_of (inr (inl _)) = RecordType.delta_group
type_of (inr (inr (inl _))) = RecordType.mutation
type_of (inr (inr (inr (inl _)))) = RecordType.gc_marker
type_of (inr (inr (inr (inr name)))) = RecordType.other name

abbrev of_type : RecordType → ℕ ⊎ (ℕ ⊎ (ℕ ⊎ (ℕ ⊎ List ℕ)))
of_type RecordType.snapshot = inl 0
of_type RecordType.delta_group = inr (inl 0)
of_type RecordType.mutation = inr (inr (inl 0))
of_type RecordType.gc_marker = inr (inr (inr (inl 0)))
of_type (RecordType.other name) = inr (inr (inr (inr name)))

type_back : (t : RecordType) → type_of (of_type t) ≡ t
type_back RecordType.snapshot = refl
type_back RecordType.delta_group = refl
type_back RecordType.mutation = refl
type_back RecordType.gc_marker = refl
type_back (RecordType.other name) = refl

type_codec : Codec RecordType
type_codec =
    iso_codec
      (sum_codec nat_codec
        (sum_codec nat_codec (sum_codec nat_codec (sum_codec nat_codec (list_codec nat_codec)))))
      type_of of_type type_back

body_codec : Codec (ℕ × (RecordType × Value))
body_codec = pair_codec nat_codec (pair_codec type_codec value_codec)

pub raw_codec : Codec (RawDurabilityRecord Value)
raw_codec =
    iso_codec body_codec
      (λ p. record { generation = p.0; record_type = (p.1).0; payload = (p.1).1 })
      (λ r. (r.generation, (r.record_type, r.payload))) (λ r. refl)

abbrev first_of : {A : Type 0} → Option (A × List ℕ) → Option A
first_of none = none
first_of (some (a, rest)) = some a

abbrev replica_of : Value → Option (PersistentReplica ℕ)
replica_of (inl r) = some r
replica_of (inr _) = none

abbrev group_of : Value → Option (DeltaGroup ℕ ℕ)
group_of (inr (inl g)) = some g
group_of _ = none

abbrev number_of : Value → Option ℕ
number_of (inr (inr (inl n))) = some n
number_of _ = none

abbrev marker_of : Value → Option GcMarker
marker_of (inr (inr (inr m))) = some m
marker_of _ = none

-- The number 32 + 1 stands in front, so that no line is blank.
abbrev pub serde : Serde ℕ ℕ ℕ ℕ Value
serde = record {
  to_vec = λ raw. 33 ∷ raw_codec.write raw [];
  from_slice = λ bytes. elim bytes [ [] ↦ none | _ ∷ rest ↦ first_of (raw_codec.read rest) ];
  replica_to_value = λ r. inl r;
  replica_from_value = replica_of;
  delta_to_value = λ g. inr (inl g);
  delta_from_value = group_of;
  mutation_to_value = λ n. inr (inr (inl n));
  mutation_from_value = number_of;
  marker_to_value = λ m. inr (inr (inr m));
  marker_from_value = marker_of;
}

serde_read :
    (raw : RawDurabilityRecord Value)
    → first_of (raw_codec.read (raw_codec.write raw [] ++ newline ∷ [])) ≡ some raw
serde_read raw = rw (raw_codec.append raw [] (newline ∷ []), raw_codec.law raw (newline ∷ [])) refl

serde_one_line :
    (raw : RawDurabilityRecord Value) → Set.contains newline (33 ∷ raw_codec.write raw []) ≡ false
unfolding Set.contains ℕ_discrete
serde_one_line raw = raw_codec.clean raw []

serde_filled :
    (raw : RawDurabilityRecord Value)
    → is_blank ((33 ∷ raw_codec.write raw []) ++ newline ∷ []) ≡ false
unfolding is_blank Journal.is_ascii_whitespace Set.contains ℕ_discrete
serde_filled raw = refl

pub faithful : IsFaithful counter serde
faithful = record {
  read = serde_read;
  one_line = serde_one_line;
  filled = serde_filled;
  replica = λ r. refl;
  delta = λ d. refl;
  mutation = λ m. refl;
  marker = λ m. refl;
}

abbrev pub journal : DiskJournal
journal = record { has_paths = true; snapshot = none; mutations = none; generation = 0 }

abbrev five : PersistentReplica ℕ
five = record {
  local_state = 5;
  crdt_wrapper = record {
    version_matrix = record { own_pid = 1; matrix = []; final_dots = [] };
    gc_markers = [];
  };
}

abbrev nine : PersistentReplica ℕ
nine = record five { local_state = 9 }

abbrev entries : List (Entry counter serde)
entries =
    Entry.mutation 3
    ∷ Entry.delta (record { list = []; side_effects = none; version_vector = record { set = [] } })
    ∷ []

performed : perform_all counter serde entries five ≡ ok nine
unfolding perform_all Recovery.perform
performed = refl

recover-append_entries_example :
    recover counter serde
      (append_entries counter serde entries (append_snapshot counter serde five journal))
    ≡ returned (
      append_entries counter serde entries (append_snapshot counter serde five journal),
      some nine,
    )
recover-append_entries_example =
    Recovery.recover-append_entries counter serde faithful journal five entries refl performed

no_newline : Set.contains newline (65 ∷ 66 ∷ []) ≡ false
unfolding Set.contains ℕ_discrete
no_newline = refl

recover-crashed_example :
    recover counter serde (
      crashed counter serde
        (65 ∷ 66 ∷ [])
        (append_entries counter serde entries (append_snapshot counter serde five journal)))
    ≡ returned (
      append_snapshot counter serde nine
          (append_entries counter serde entries (append_snapshot counter serde five journal)),
      some nine,
    )
recover-crashed_example =
    Recovery.recover-crashed counter serde faithful journal five entries 65 (66 ∷ []) refl performed
      no_newline

abbrev old_generation : ℕ
old_generation = 1

abbrev generation : ℕ
generation = 2

older : old_generation ≢ generation
older = λ e. omega arith

recover-half_replaced_example :
    recover counter serde (half_replaced counter serde generation old_generation nine entries)
    ≡ returned (half_replaced counter serde generation old_generation nine entries, some nine)
recover-half_replaced_example =
    Recovery.recover-half_replaced counter serde faithful generation old_generation nine entries
      older
