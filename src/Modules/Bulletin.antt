-- ===== src/Modules/Bulletin.antt =====
-- crates/vera-modules/src/bulletin: namespaces of posts and their collaborators.
pub mod Glob
pub mod Keys
pub mod Types
pub mod Storage
pub mod Collect
pub mod Handlers
pub mod Queries
mod Keyed
pub mod Keeps
pub mod Answers
pub mod Posts
mod Reads
mod Tests
mod Accepted
pub mod Restored
