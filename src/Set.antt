-- ===== src/Set.antt =====
-- `HashSet<K>` of the standard library: the elements in the order in which the set is iterated.
mod Defs
mod Laws
unfoldable pub use Defs.{contains, insert, remove, from_list}
pub use Laws.*
