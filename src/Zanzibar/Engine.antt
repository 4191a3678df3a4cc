-- ===== src/Zanzibar/Engine.antt =====
-- crates/zanzibar/src/engine: the permission engine. The definitions are in the first three
-- modules, the proofs in the others.
pub mod State
pub mod Evaluate
pub mod Check
pub mod Runs
pub mod Budget
pub mod Batch
pub mod Semantics
pub mod Consistency
pub mod Unfolding
pub mod LoopFree
pub mod Levels
pub mod Ensures
pub mod Verdict
pub mod LoopVerdict
pub mod TupleVerdict
pub mod Exact
pub mod Answers
pub mod Flattening
