-- ===== src/Zanzibar.antt =====
-- crates/zanzibar: relationship-based permission checks.
pub mod Error
pub mod Subject
pub mod Expression
pub mod SubjectCodec
pub mod Relationship
pub mod Policy
pub mod Lookup
pub mod Store
pub mod Memory
pub mod Engine
mod Tests
