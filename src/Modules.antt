-- ===== src/Modules.antt =====
-- crates/vera-modules: the state of the native modules, on a key-value store each.
pub mod Results
pub mod OrdMap
pub mod KvStore
pub mod Nonces
pub mod Bulletin
mod Tests
