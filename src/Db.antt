-- ===== src/Db.antt =====
-- src/db: the views and the table of weights that applications keep beside a replicated state.
pub mod Index
pub mod View
pub mod CompositeView
pub mod ZTable
