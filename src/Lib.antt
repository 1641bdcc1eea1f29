-- ===== src/Lib.antt =====
-- Gresse: a framework for replicated data types (src/ of the repository, in Rust). A replica keeps a
-- state of a data type, answers queries from it, logs and applies mutations, and pulls the deltas of
-- its peers. Rounds of garbage collection advance a stable frontier and drop replicas that left.
--
-- The files, from the bottom up, with the code that each is about:
--   Prelude, Map, Set: numbers, lists, sorting and binary search; HashMap and HashSet as lists.
--   Text: what is called of `str`, with numbers that are printed and parsed (Text.Decimal).
--   Config: src/lib.rs and the configuration of src/replica_helpers.rs; Config.Timer and Config.Runtime:
--     the timers of the run loop.
--   Dots.DotSet, Dots.VersionMatrix, Dots.DotMap: src/dots.rs, a version vector, the matrix of the
--     vectors of all replicas, and the log of deltas; each method is a function of its name.
--   DeltaGroup, Crdt: src/crdt.rs, CRDTWrapper and PersistentReplica; the trait CRDT is the record
--     Crdt of operations, that Journal and Replica take as a parameter.
--   OrSet: src/orset.rs, the observed-remove set. OrSet.Exchange is a pull of one replica from another,
--     OrSet.Cluster any sequence of mutations and pulls, OrSet.Collect the garbage collection.
--   Journal: src/journal.rs, the snapshot and the log of a replica; recover_locked is the loop
--     replay over the lines of the log. What serde_json does is the parameter Serde.
--   Replica: src/replica.rs, the handlers of the run loop; Replica.Descriptor: ReplicaDescriptor of
--     src/replica_helpers.rs, with its text in Replica.Descriptor.Display. Replica.Polled is what a
--     replica learns of the members that are listed, and Replica.Run a run from the bootstrap, in which
--     each turn is a branch of the loop with what it finds: a message, a draw, the answers of the object
--     storage. Replica.Durable, Replica.Follows and Replica.Handlers say what the journal holds after
--     each handler. Replica.Storage has the handlers with their calls of the object storage.
--   ObjectStorage: src/object_storage.rs, the methods of the client over the record ObjectStore, which
--     stands for the crate object_store; its Membership, Poll and Profile are the directory of
--     descriptors, the background listing and the profile files. ObjectStorage.Laws says what is known of
--     a consistent store.
--   Network: src/network.rs, the candidates for a connection and the bookkeeping of NetworkManager;
--     Network.Peers: ReplicaNetwork; Network.Wire: the tasks that read and write messages;
--     Network.Latency: the emulated latency.
--   Http: src/http_client.rs and src/http_server.rs, the attempts of a client and the routing of a
--     request.
--   Db.View, Db.CompositeView, Db.ZTable: src/db; Db.Index has the maps of sets that they share, and
--     Db.ZTable.Shards the functions over every shard.
--   Tests: concrete data on which the theorems are applied.
--
-- A value is a native number; counters and weights are signed integers, and an increment wraps around
-- at 64 bits as in a release build. A panic is the outcome `panic`. The loops are structural, but for
-- the digits of a number, with fuel for the 39 digits that a `u128` has at most, and the attempts of
-- the HTTP client, which are counted down from ten as in the source. A hash map is an association list
-- in which new keys stand last, so that an order of iteration is fixed where the source leaves it open;
-- the orders that the source sorts are sorted. Locks and tasks are not modelled: every handler runs to
-- its end, as the run loop and the commit gate of the source have it, and requests that the source
-- joins are made one after the other. What a random generator draws, what a call of the store, of a
-- socket or of a channel comes to, and the variables of the environment are arguments; a variable whose
-- value is not Unicode counts as not set.
--
-- Not modelled: the choice of a backend and the builder of the S3 client, sockets and the spawning of
-- tasks, logging, the handles and signals of the shutdown, the files of src/db, and errors of the
-- operating system on the journal's files.
pub mod Prelude
pub mod Map
pub mod Text
pub mod Config
pub mod Set
pub mod Dots
pub mod DeltaGroup
pub mod OrSet
pub mod Crdt
pub mod Journal
pub mod Replica
pub mod Db
pub mod Network
pub mod ObjectStorage
pub mod Http
pub mod Tests
