-- ===== src/Map.antt =====
-- `HashMap<K, V>` of the standard library: the entries in the order in which the map is iterated.
-- Rust leaves that order open; statements are about the map as a function, and hold for each order.
mod Defs
mod Laws
mod Distinct
mod Search
unfoldable pub use Defs.{
  Map, empty, get, insert, remove, contains_key, keys, values, upsert, filter, map_values,
  is_submap, eq,
}
pub use Laws.*
pub use Distinct.*
unfoldable pub use Search.*
