-- ===== src/Journal/Recovery.antt =====
-- The appends of src/journal.rs, crashes among them, and the recovery.
use gresse.Prelude.{
  ℕ, ◌≡◌, ◌≢◌, refl, sym, Bool, true, false, Option, some, List, [], ◌∷◌, ◌++◌, if_pos, if_neg,
  Outcome, ok, panic, ◌>>=◌, >>=-eq-ok, ℕ_discrete, nat_key, arith,
}
use gresse.Set
use gresse.Crdt.{Crdt, PersistentReplica}
use gresse.DeltaGroup.{DeltaGroup, GcMarker}
use gresse.Journal.{
  Bytes, RecordType, RawDurabilityRecord, Serde, DiskJournal, returned, newline, split_lines,
  is_blank, next_generation, collect, replay_record, replay_line, replay, snapshot_record,
  replace_snapshot_and_clear_log, append_snapshot, append_record, append_delta_group,
  append_gc_marker, append_mutation, recover_locked, recover, bytes_or_nil, repaired,
}
use gresse.Journal.Lines.{
  split_lines-append, ends_with_newline-append, split_lines-torn, ends_with_newline-torn,
}

module _ {T D E M Value : Type 0} (crdt : Crdt T D E M) (serde : Serde T D E M Value) where
  -- serde_json writes one line, and reads back what it wrote.
  pub record IsFaithful : Type 0 where
    pub read :
        (raw : RawDurabilityRecord Value)
        → serde.from_slice (serde.to_vec raw ++ newline ∷ []) ≡ some raw
    pub one_line :
        (raw : RawDurabilityRecord Value) → Set.contains newline (serde.to_vec raw) ≡ false
    pub filled :
        (raw : RawDurabilityRecord Value) → is_blank (serde.to_vec raw ++ newline ∷ []) ≡ false
    pub replica :
        (r : PersistentReplica T) → serde.replica_from_value (serde.replica_to_value r) ≡ some r
    pub delta : (d : DeltaGroup D E) → serde.delta_from_value (serde.delta_to_value d) ≡ some d
    pub mutation : (m : M) → serde.mutation_from_value (serde.mutation_to_value m) ≡ some m
    pub marker : (m : GcMarker) → serde.marker_from_value (serde.marker_to_value m) ≡ some m

  -- What is appended to a log.
  pub data Entry : Type 0 where
    delta : DeltaGroup D E → Entry
    mutation : M → Entry
    marker : GcMarker → Entry

  abbrev pub append_entry : Entry → DiskJournal → DiskJournal
  append_entry (delta d) j = append_delta_group crdt serde d j
  append_entry (mutation m) j = append_mutation crdt serde m j
  append_entry (marker m) j = append_gc_marker crdt serde m j

  abbrev pub append_entries : List Entry → DiskJournal → DiskJournal
  append_entries [] j = j
  append_entries (e ∷ es) j = append_entries es (append_entry e j)

  abbrev pub with_local : PersistentReplica T → Outcome T → Outcome (PersistentReplica T)
  with_local r changed = do t ← changed; ok (record r { local_state = t })

  -- What the replica did when it appended the entry.
  unfoldable pub perform : Entry → PersistentReplica T → Outcome (PersistentReplica T)
  perform (delta d) r = with_local r (crdt.merge_delta_group d r.local_state)
  perform (mutation m) r = with_local r (crdt.mutate m r.local_state)
  perform (marker m) r = collect crdt serde m r

  unfoldable pub perform_all : List Entry → PersistentReplica T → Outcome (PersistentReplica T)
  perform_all [] r = ok r
  perform_all (e ∷ es) r = do r' ← perform e r; perform_all es r'

  abbrev type_of : Entry → RecordType
  type_of (delta d) = RecordType.delta_group
  type_of (mutation m) = RecordType.mutation
  type_of (marker m) = RecordType.gc_marker

  abbrev value_of : Entry → Value
  value_of (delta d) = serde.delta_to_value d
  value_of (mutation m) = serde.mutation_to_value m
  value_of (marker m) = serde.marker_to_value m

  abbrev raw_of : ℕ → Entry → RawDurabilityRecord Value
  raw_of g e = record { generation = g; record_type = type_of e; payload = value_of e }

  abbrev log_bytes : ℕ → List Entry → Bytes
  log_bytes g [] = []
  log_bytes g (e ∷ es) = (serde.to_vec (raw_of g e) ++ newline ∷ []) ++ log_bytes g es

  abbrev go_on : Outcome (PersistentReplica T) → Outcome (Bool × PersistentReplica T)
  go_on done = do r ← done; ok (false, r)

  go_on-with_local :
      (r : PersistentReplica T) (o : Outcome T)
      → (o >>= λ t. ok (false, record r { local_state = t })) ≡ go_on (with_local r o)
  go_on-with_local r (ok t) = refl
  go_on-with_local r panic = refl

  replay_record-value :
      IsFaithful
      → (e : Entry) (r : PersistentReplica T)
      → replay_record crdt serde (type_of e) (value_of e) r ≡ go_on (perform e r)
  unfolding replay_record perform
  replay_record-value faithful (delta d) r =
      rw (faithful.delta d) (go_on-with_local r (crdt.merge_delta_group d r.local_state))
  replay_record-value faithful (mutation m) r =
      rw (faithful.mutation m) (go_on-with_local r (crdt.mutate m r.local_state))
  replay_record-value faithful (marker m) r = rw (faithful.marker m) refl

  replay_line-entry :
      IsFaithful
      → (g : ℕ) (e : Entry) (r : PersistentReplica T)
      → replay_line crdt serde g (serde.to_vec (raw_of g e) ++ newline ∷ []) r ≡ go_on (perform e r)
  unfolding replay_line
  replay_line-entry faithful g e r =
      rw
        (
          ends_with_newline-append (serde.to_vec (raw_of g e)),
          faithful.filled (raw_of g e),
          faithful.read (raw_of g e),
          if_pos (ℕ_discrete g g) refl,
        )
        (replay_record-value faithful e r)

  stale_line :
      IsFaithful
      → (g old : ℕ) (e : Entry) (r : PersistentReplica T) → old ≢ g
      → replay_line crdt serde g (serde.to_vec (raw_of old e) ++ newline ∷ []) r ≡ ok (false, r)
  unfolding replay_line
  stale_line faithful g old e r h =
      rw
        (
          ends_with_newline-append (serde.to_vec (raw_of old e)),
          faithful.filled (raw_of old e),
          faithful.read (raw_of old e),
          if_neg (ℕ_discrete old g) h,
        )
        refl

  append_assoc : (a b c : Bytes) → (a ++ b) ++ c ≡ a ++ (b ++ c)
  append_assoc [] b c = refl
  append_assoc (x ∷ a) b c = ground (arith, append_assoc a b c)

  split_log :
      IsFaithful
      → (g : ℕ) (e : Entry) (es : List Entry) (tail : Bytes)
      → split_lines (log_bytes g (e ∷ es) ++ tail)
        ≡ (serde.to_vec (raw_of g e) ++ newline ∷ []) ∷ split_lines (log_bytes g es ++ tail)
  split_log faithful g e es tail =
      rw (append_assoc (serde.to_vec (raw_of g e) ++ newline ∷ []) (log_bytes g es) tail) (
        split_lines-append (serde.to_vec (raw_of g e)) (log_bytes g es ++ tail)
          (faithful.one_line (raw_of g e)))

  replay_log :
      IsFaithful
      → (g : ℕ) (es : List Entry) (tail : Bytes) (r : PersistentReplica T)
        {r' : PersistentReplica T}
      → perform_all es r ≡ ok r'
      → replay crdt serde g (split_lines (log_bytes g es ++ tail)) r
        ≡ replay crdt serde g (split_lines tail) r'
  unfolding perform_all replay
  replay_log faithful g [] tail r {r'} h = let same : r' ≡ r = ground arith in rw same refl
  replay_log faithful g (e ∷ es) tail r {r'} h =
      let (s, done, later) = >>=-eq-ok (perform e r) (perform_all es) h in
      rw (split_log faithful g e es tail)
        (rw (replay_line-entry faithful g e r, done) (replay_log faithful g es tail s later))

  replay_stale :
      IsFaithful
      → (g old : ℕ) (es : List Entry) (r : PersistentReplica T) → old ≢ g
      → replay crdt serde g (split_lines (log_bytes old es ++ [])) r ≡ ok (false, r)
  unfolding replay split_lines
  replay_stale faithful g old [] r h = refl
  replay_stale faithful g old (e ∷ es) r h =
      rw (split_log faithful old e es [], stale_line faithful g old e r h)
        (replay_stale faithful g old es r h)

  -- The journal after a snapshot and a log of entries, with what else stands behind them.
  abbrev journal_of : ℕ → PersistentReplica T → List Entry → Bytes → DiskJournal
  journal_of g r es tail = record {
    has_paths = true;
    snapshot = some (serde.to_vec (snapshot_record crdt serde g r) ++ newline ∷ []);
    mutations = some (log_bytes g es ++ tail);
    generation = g;
  }

  append_nil : (a : Bytes) → a ++ [] ≡ a
  append_nil [] = refl
  append_nil (x ∷ a) = ground (arith, append_nil a)

  append_entries-journal :
      (es : List Entry) (g : ℕ) (snapshot : Option Bytes) (log : Bytes)
      → append_entries es
          (record { has_paths = true; snapshot = snapshot; mutations = some log; generation = g })
        ≡ record {
          has_paths = true;
          snapshot = snapshot;
          mutations = some (log ++ log_bytes g es);
          generation = g;
        }
  unfolding append_delta_group append_mutation append_gc_marker append_record
  append_entries-journal [] g snapshot log = rw (append_nil log) refl
  append_entries-journal (delta d ∷ es) g snapshot log =
      let line = serde.to_vec (raw_of g (delta d)) ++ newline ∷ [] in
      rw (sym (append_assoc log line (log_bytes g es)))
        (append_entries-journal es g snapshot (log ++ line))
  append_entries-journal (mutation m ∷ es) g snapshot log =
      let line = serde.to_vec (raw_of g (mutation m)) ++ newline ∷ [] in
      rw (sym (append_assoc log line (log_bytes g es)))
        (append_entries-journal es g snapshot (log ++ line))
  append_entries-journal (marker m ∷ es) g snapshot log =
      let line = serde.to_vec (raw_of g (marker m)) ++ newline ∷ [] in
      rw (sym (append_assoc log line (log_bytes g es)))
        (append_entries-journal es g snapshot (log ++ line))

  -- A snapshot and appends leave that journal.
  written :
      (j : DiskJournal) (r : PersistentReplica T) (es : List Entry)
      → j.has_paths ≡ true
      → append_entries es (append_snapshot crdt serde r j)
        ≡ journal_of (next_generation j.generation) r es []
  unfolding append_snapshot replace_snapshot_and_clear_log
  written j r es h =
      let g = next_generation j.generation in
      rw (h, append_nil (log_bytes g es))
        (append_entries-journal es g
          (some (serde.to_vec (snapshot_record crdt serde g r) ++ newline ∷ [])) [])

  recover-journal_of :
      IsFaithful
      → (g : ℕ) (r : PersistentReplica T) (es : List Entry) (tail : Bytes)
        {r' : PersistentReplica T}
      → perform_all es r ≡ ok r'
      → recover crdt serde (journal_of g r es tail)
        ≡ repaired crdt serde g (journal_of g r es tail) (replay crdt serde g (split_lines tail) r')
  unfolding recover recover_locked
  recover-journal_of faithful g r es tail h =
      rw
        (
          faithful.read (snapshot_record crdt serde g r),
          faithful.replica r,
          replay_log faithful g es tail r h,
        )
        refl

  -- For a serializer that reads back what it writes and an enabled journal: what was appended
  -- after a snapshot is recovered, if the appended calls do not panic, and recovery leaves the
  -- journal as it is.
  pub recover-append_entries :
      IsFaithful
      → (j : DiskJournal) (r : PersistentReplica T) (es : List Entry) {r' : PersistentReplica T}
      → j.has_paths ≡ true
      → perform_all es r ≡ ok r'
      → recover crdt serde (append_entries es (append_snapshot crdt serde r j))
        ≡ returned (append_entries es (append_snapshot crdt serde r j), some r')
  recover-append_entries faithful j r es h done =
      rw (written j r es h, recover-journal_of faithful (next_generation j.generation) r es [] done)
        (unfold replay split_lines in refl)

  -- A crash in the middle of an append, that leaves `torn` behind the log.
  abbrev pub crashed : Bytes → DiskJournal → DiskJournal
  crashed torn j = record j { mutations = some (bytes_or_nil j.mutations ++ torn) }

  crashed-journal_of :
      (g : ℕ) (r : PersistentReplica T) (es : List Entry) (torn : Bytes)
      → crashed torn (journal_of g r es []) ≡ journal_of g r es torn
  crashed-journal_of g r es torn = rw (append_nil (log_bytes g es)) refl

  replay_torn :
      (g b : ℕ) (torn : Bytes) (r : PersistentReplica T)
      → Set.contains newline (b ∷ torn) ≡ false
      → replay crdt serde g (split_lines (b ∷ torn)) r ≡ ok (true, r)
  unfolding replay replay_line
  replay_torn g b torn r h =
      rw (split_lines-torn b torn h, ends_with_newline-torn (b ∷ torn) h) refl

  -- For a serializer that reads back what it writes and an enabled journal: after a crash in the
  -- middle of an append, what the complete records did is recovered, and the journal is left as a
  -- new snapshot of the recovered state leaves it.
  pub recover-crashed :
      IsFaithful
      → (j : DiskJournal) (r : PersistentReplica T) (es : List Entry) (b : ℕ) (torn : Bytes)
        {r' : PersistentReplica T}
      → j.has_paths ≡ true
      → perform_all es r ≡ ok r'
      → Set.contains newline (b ∷ torn) ≡ false
      → recover crdt serde (crashed (b ∷ torn) (append_entries es (append_snapshot crdt serde r j)))
        ≡ returned (
          append_snapshot crdt serde r' (append_entries es (append_snapshot crdt serde r j)),
          some r',
        )
  unfolding append_snapshot replace_snapshot_and_clear_log
  recover-crashed faithful j r es b torn {r'} h done cut =
      let g = next_generation j.generation in
      let made : append_entries es (append_snapshot crdt serde r j) ≡ journal_of g r es [] =
        written j r es h in
      rw
        (
          made,
          crashed-journal_of g r es (b ∷ torn),
          recover-journal_of faithful g r es (b ∷ torn) done,
          replay_torn g b torn r' cut,
        )
        refl

  -- The snapshot was replaced by one of generation `g`, and the log of generation `old` not cleared.
  abbrev pub half_replaced : ℕ → ℕ → PersistentReplica T → List Entry → DiskJournal
  half_replaced g old r es = record {
    has_paths = true;
    snapshot = some (serde.to_vec (snapshot_record crdt serde g r) ++ newline ∷ []);
    mutations = some (log_bytes old es);
    generation = g;
  }

  -- For a serializer that reads back what it writes: after a crash between the replacement of the
  -- snapshot and the clearing of a log of another generation, the snapshot is recovered and the
  -- old log is not replayed.
  pub recover-half_replaced :
      IsFaithful
      → (g old : ℕ) (r : PersistentReplica T) (es : List Entry) → old ≢ g
      → recover crdt serde (half_replaced g old r es) ≡ returned (half_replaced g old r es, some r)
  unfolding recover recover_locked
  recover-half_replaced faithful g old r es h =
      let stale : replay crdt serde g (split_lines (log_bytes old es)) r ≡ ok (false, r) =
        rw (sym (append_nil (log_bytes old es))) (replay_stale faithful g old es r h) in
      rw (faithful.read (snapshot_record crdt serde g r), faithful.replica r, stale) refl
