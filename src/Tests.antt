-- ===== src/Tests.antt =====
-- Concrete vectors, matrices, sets and views on which the theorems are applied.
mod Vectors
mod Sets
mod Views
mod Codec
mod Journals
mod Candidates
mod Clusters
mod Memory
mod Storage
mod Rounds
mod Runs
mod Timers
