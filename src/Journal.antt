-- ===== src/Journal.antt =====
-- src/journal.rs: the snapshot and the log of a replica on its disk, and their recovery. Bytes are
-- numbers, and the files are read and written without an error of the operating system.
pub mod Lines
pub mod Recovery
use gresse.Prelude.{
  ℕ, ◌+◌, ◌%◌, ◌^◌, Bool, true, false, not, ◌||◌, Option, none, some, List, [], ◌∷◌, ◌++◌, ite,
  if◌then◌else◌, Outcome, ok, panic, ◌>>=◌, ℕ_discrete, nat_key,
}
use gresse.Set
use gresse.Crdt.{Crdt, CrdtWrapper, PersistentReplica, push_gc_marker}
use gresse.DeltaGroup.{DeltaGroup, GcMarker}

abbrev pub Bytes : Type 0
Bytes = List ℕ

-- `record_type`: the four names that are written, and any other.
pub data RecordType : Type 0 where
  snapshot : RecordType
  delta_group : RecordType
  mutation : RecordType
  gc_marker : RecordType
  other : Bytes → RecordType

pub record RawDurabilityRecord (Value : Type 0) : Type 0 where
  pub generation : ℕ
  pub record_type : RecordType
  pub payload : Value

pub data JournalError : Type 0 where
  missing_snapshot : JournalError
  unknown_record_type : RecordType → JournalError
  serialization : JournalError

-- `Result<A, JournalError>`, with the panics of the calls.
pub data Attempt (A : Type 0) : Type 0 where
  returned : A → Attempt A
  failed : JournalError → Attempt A
  panicked : Attempt A

-- What the journal calls of serde_json: of values, of bytes, and back.
pub record Serde (T D E M Value : Type 0) : Type 0 where
  pub to_vec : RawDurabilityRecord Value → Bytes
  pub from_slice : Bytes → Option (RawDurabilityRecord Value)
  pub replica_to_value : PersistentReplica T → Value
  pub replica_from_value : Value → Option (PersistentReplica T)
  pub delta_to_value : DeltaGroup D E → Value
  pub delta_from_value : Value → Option (DeltaGroup D E)
  pub mutation_to_value : M → Value
  pub mutation_from_value : Value → Option M
  pub marker_to_value : GcMarker → Value
  pub marker_from_value : Value → Option GcMarker

-- The two files, where they exist; the journal is disabled without paths.
pub record DiskJournal : Type 0 where
  pub has_paths : Bool
  pub snapshot : Option Bytes
  pub mutations : Option Bytes
  pub generation : ℕ

unfoldable pub disabled : DiskJournal
disabled = record { has_paths = false; snapshot = none; mutations = none; generation = 0 }

abbrev pub is_snapshot : RecordType → Bool
is_snapshot snapshot = true
is_snapshot _ = false

abbrev pub newline : ℕ
newline = 10

abbrev push_byte : ℕ → List Bytes → List Bytes
push_byte b [] = (b ∷ []) ∷ []
push_byte b (line ∷ lines) = (b ∷ line) ∷ lines

-- What the calls of `read_until(b'\n')` return, one after the other: the last one may be incomplete.
unfoldable pub split_lines : Bytes → List Bytes
split_lines [] = []
split_lines (b ∷ bytes) =
    let rest = split_lines bytes in ite (ℕ_discrete b newline) ((b ∷ []) ∷ rest) (push_byte b rest)

unfoldable pub ends_with_newline : Bytes → Bool
ends_with_newline [] = false
ends_with_newline (b ∷ []) = ite (ℕ_discrete b newline) true false
ends_with_newline (_ ∷ b ∷ bytes) = ends_with_newline (b ∷ bytes)

-- Tab, line feed, form feed, carriage return, space.
unfoldable pub is_ascii_whitespace : ℕ → Bool
is_ascii_whitespace b = Set.contains b (9 ∷ 10 ∷ 12 ∷ 13 ∷ 32 ∷ [])

unfoldable pub is_blank : Bytes → Bool
is_blank [] = true
is_blank (b ∷ bytes) = if is_ascii_whitespace b then is_blank bytes else false

abbrev pub bytes_or_nil : Option Bytes → Bytes
bytes_or_nil none = []
bytes_or_nil (some bytes) = bytes

-- `generation + 1` on a `u64`.
abbrev pub next_generation : ℕ → ℕ
next_generation g = (g + 1) % 2 ^ 64

module _ {T D E M Value : Type 0} (crdt : Crdt T D E M) (serde : Serde T D E M Value) where
  -- Whether the rest of the log is discarded, and the state so far.
  abbrev pub Scan : Type 0
  Scan = Bool × PersistentReplica T

  abbrev discard_at : PersistentReplica T → Outcome Scan
  discard_at r = ok (true, r)

  abbrev with_state : PersistentReplica T → Outcome T → Outcome Scan
  with_state r changed = do t ← changed; ok (false, record r { local_state = t })

  unfoldable pub collect : GcMarker → PersistentReplica T → Outcome (PersistentReplica T)
  collect marker r = do
    w ← push_gc_marker marker r.crdt_wrapper
    ok (record {
      local_state = crdt.gc marker.stable marker.departed_pids r.local_state;
      crdt_wrapper = w;
    })

  -- The `match` on the type of a record of the current generation.
  unfoldable pub replay_record : RecordType → Value → PersistentReplica T → Outcome Scan
  replay_record delta_group payload r = elim (serde.delta_from_value payload) [
    | none ↦ discard_at r
    | some delta ↦ with_state r (crdt.merge_delta_group delta r.local_state)
  ]
  replay_record mutation payload r = elim (serde.mutation_from_value payload) [
    | none ↦ discard_at r
    | some m ↦ with_state r (crdt.mutate m r.local_state)
  ]
  replay_record gc_marker payload r = elim (serde.marker_from_value payload) [
    | none ↦ discard_at r
    | some marker ↦ do r' ← collect marker r; ok (false, r')
  ]
  replay_record snapshot payload r = discard_at r
  replay_record (other name) payload r = discard_at r

  abbrev replay_known : ℕ → PersistentReplica T → Option (RawDurabilityRecord Value) → Outcome Scan
  replay_known generation r none = discard_at r
  replay_known generation r (some raw) =
      ite (ℕ_discrete raw.generation generation) (replay_record raw.record_type raw.payload r)
        (ok (false, r))

  -- One round of the loop.
  unfoldable pub replay_line : ℕ → Bytes → PersistentReplica T → Outcome Scan
  replay_line generation line r =
      if not (ends_with_newline line)
      then discard_at r
      else if is_blank line
      then ok (false, r)
      else replay_known generation r (serde.from_slice line)

  unfoldable pub replay : ℕ → List Bytes → PersistentReplica T → Outcome Scan
  replay generation [] r = ok (false, r)
  replay generation (line ∷ lines) r = replay_line generation line r >>= λ s. elim (s.0) [
    | true ↦ ok (true, s.1)
    | false ↦ replay generation lines (s.1)
  ]

  abbrev pub snapshot_record : ℕ → PersistentReplica T → RawDurabilityRecord Value
  snapshot_record g r = record {
    generation = g;
    record_type = snapshot;
    payload = serde.replica_to_value r;
  }

  -- `replace_snapshot_and_clear_log_locked`.
  unfoldable pub replace_snapshot_and_clear_log :
      ℕ → PersistentReplica T → DiskJournal → DiskJournal
  replace_snapshot_and_clear_log g r j = record j {
    snapshot = some (serde.to_vec (snapshot_record g r) ++ newline ∷ []);
    mutations = some [];
  }

  unfoldable pub append_snapshot : PersistentReplica T → DiskJournal → DiskJournal
  append_snapshot r j =
      if j.has_paths
      then record (replace_snapshot_and_clear_log (next_generation j.generation) r j) {
        generation = next_generation j.generation;
      }
      else j

  unfoldable pub append_record : RecordType → Value → DiskJournal → DiskJournal
  append_record record_type payload j =
      let raw : RawDurabilityRecord Value = record {
        generation = j.generation;
        record_type = record_type;
        payload = payload;
      } in
      if j.has_paths
      then record j {
        mutations = some (bytes_or_nil j.mutations ++ (serde.to_vec raw ++ newline ∷ []));
      }
      else j

  unfoldable pub append_delta_group : DeltaGroup D E → DiskJournal → DiskJournal
  append_delta_group delta j = append_record delta_group (serde.delta_to_value delta) j

  unfoldable pub append_gc_marker : GcMarker → DiskJournal → DiskJournal
  append_gc_marker marker j = append_record gc_marker (serde.marker_to_value marker) j

  unfoldable pub append_mutation : M → DiskJournal → DiskJournal
  append_mutation m j = append_record mutation (serde.mutation_to_value m) j

  -- After the loop: a log with a bad suffix is replaced by a snapshot of the next generation.
  abbrev pub repaired :
      ℕ → DiskJournal → Outcome Scan → Attempt (DiskJournal × Option (PersistentReplica T))
  repaired g j panic = panicked
  repaired g j (ok (false, r)) = returned (j, some r)
  repaired g j (ok (true, r)) = returned (
    record (replace_snapshot_and_clear_log (next_generation g) r j) {
      generation = next_generation g;
    },
    some r,
  )

  abbrev recover_raw :
      DiskJournal → RawDurabilityRecord Value → Attempt (DiskJournal × Option (PersistentReplica T))
  recover_raw j raw =
      if is_snapshot raw.record_type
      then elim (serde.replica_from_value raw.payload) [
        | none ↦ failed serialization
        | some r ↦
            repaired raw.generation j
              (replay raw.generation (split_lines (bytes_or_nil j.mutations)) r)
      ]
      else failed (unknown_record_type raw.record_type)

  abbrev recover_missing :
      DiskJournal → Bytes → Attempt (DiskJournal × Option (PersistentReplica T))
  recover_missing j [] = returned (j, none)
  recover_missing j (_ ∷ _) = failed missing_snapshot

  unfoldable pub recover_locked : DiskJournal → Attempt (DiskJournal × Option (PersistentReplica T))
  recover_locked j = elim j.snapshot [
    | none ↦ recover_missing j (bytes_or_nil j.mutations)
    | some bytes ↦ elim (serde.from_slice bytes) [
      | none ↦ failed serialization
      | some raw ↦ recover_raw j raw
    ]
  ]

  unfoldable pub recover : DiskJournal → Attempt (DiskJournal × Option (PersistentReplica T))
  recover j = if j.has_paths then recover_locked j else returned (j, none)

  -- `snapshot_generation`, that `new` starts from.
  unfoldable pub snapshot_generation : Option Bytes → Attempt ℕ
  snapshot_generation none = returned 0
  snapshot_generation (some bytes) = elim (serde.from_slice bytes) [
    | none ↦ failed serialization
    | some raw ↦
        if is_snapshot raw.record_type
        then returned raw.generation
        else failed (unknown_record_type raw.record_type)
  ]
