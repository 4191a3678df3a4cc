-- ===== src/Overlay.antt =====
-- crates/vera-qmdb/src/changes.rs and crates/vera-overlay/src/overlay.rs: pending account changes,
-- their merge, and reads through them. Addresses, hashes, slots and values are numbers, of which
-- only equality is used; a `BTreeMap` is an association list with unique keys.
pub mod Changes
pub mod Reads
pub mod Layers
mod Tests
