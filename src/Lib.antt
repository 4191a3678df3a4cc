-- ===== src/Lib.antt =====
-- A model of the permission engine (crates/zanzibar, with crates/identity), of the overlay on pending
-- state changes (crates/vera-qmdb, crates/vera-overlay), of the mempool (crates/vera-consensus) and of
-- native modules (crates/vera-modules: the key-value store, the nonces, the bulletin), with what makes
-- them correct.
--
-- The parts and their files:
--
-- Prelude, Text: shared names, Boolean tests on native numbers, maps as association lists, and
-- strings as lists of code points.
--
-- Identity: `Did::new` of crates/identity/src/did.rs.
--
-- Zanzibar: crates/zanzibar/src. A policy names resources, a resource names relations, and a
-- relation has an expression that says who holds it. `Expression`, `Subject`, `Relationship` and
-- `Policy` are the types of types/ and expression/ with their validation; `Policy.Dpi` is
-- `validate_dpi` and `Relationship::validate`; `Expression.Parser` is expression/parser.rs;
-- `SubjectCodec` is types/subject_codec.rs. `Lookup` is lookup.rs, `Store` the reads of
-- store/traits.rs, and `Memory` store/memory.rs. The other modules under these hold proofs, and the
-- `Tests` modules concrete runs.
--
-- Zanzibar.Engine: crates/zanzibar/src/engine. `State` is limits.rs and cache.rs: the state of a
-- traversal, which is the step count, the depth and the memo table, and the monad over it.
-- `Evaluate` is evaluate.rs, one function for each arm and each loop body, composed as the source
-- composes them. `Check` is `check`, `check_many` and `check_with_cache` of mod.rs. `Semantics` is
-- the specification, independent of trails, memo table and budget: an inductive relation between an
-- expression at a node and its value. `Consistency`, `Unfolding`, `LoopFree` and `Levels` are its
-- theory; `Runs`, `Ensures`, `Verdict` and the modules after them relate the evaluator to it. `Budget`
-- is about the limits of one check, and `Batch` about those of a batch.
--
-- Overlay: `Changes` is crates/vera-qmdb/src/changes.rs, `Reads` is
-- crates/vera-overlay/src/overlay.rs, and `Layers` relates reads through a merged change set to
-- reads through two overlays. The database under an overlay is an argument.
--
-- Mempool: crates/vera-consensus/src/components/mempool.rs, with the limits and the transactions of
-- crates/vera-domain. `Queue` is the abstract view, a bounded list in the order of admission;
-- `Refines` relates the map, the order and the byte count to it, over any run of insertions and
-- prunes; `Block` is about the blocks taken from it. The transaction's hash and its encoded size are
-- arguments.
--
-- Modules: crates/vera-modules/src. `OrdMap` is the interface of the library's ordered map, reads after
-- writes and sorted ranges, and `OrdMap.SortedList` an instance of it. `KvStore` is kv_store.rs; its
-- `Scan` is about prefixes and its `Dirty` about the keys that changed. `Nonces` is native_account:
-- `Codec` its little-endian bytes, `Step` one check, `Replay` runs of checks. `Bulletin` is bulletin:
-- `Keys` is keys.rs, `Storage` storage.rs, collections.rs and the storage methods of mod.rs,
-- `Handlers` and `Queries` the messages and the queries of mod.rs, `Glob` its `glob_match`. `Types` has
-- the records, the errors and `Services`, the interface of what the module uses of others: the map,
-- the access control module, the codecs, the hash. A handler is a function of the site (the store and
-- the access control module) to an answer and a site, so that what is written before an error stays.
-- `Keyed`, `Keeps`, `Answers`, `Accepted`, `Reads`, `Posts` and `Restored` are the theory of the handlers.
--
-- How they meet: the bulletin and the nonces keep their state in a `KvStore`; a collaborator is a
-- relationship of the permission engine, and its DID is validated by `Identity`.
--
-- Fuel: `evaluate_expr_inner` recurses on fuel, which starts at MAX_EVALUATION_DEPTH (64). Each
-- level enters the depth budget first, and that refuses the level after the last, so the model's
-- own outcome `out_of_fuel` is never reached.
--
-- Parameters: the store's reads are the functions of a `ZanzibarStore`; the standard library's hash
-- in `storage_key` is an argument, and so is its UTF-8 validation of a stored policy
-- identifier.
--
-- Not modelled: the async runtime (a traversal awaits one future at a time), the messages in
-- errors, `explain` and its trace, YAML, the access control module behind its interface, rings, the
-- timer of `build_block_wait`, Borsh, the EVM, storage engines, networking and the command line.
pub mod Prelude
pub mod Text
pub mod Identity
pub mod Zanzibar
pub mod Overlay
pub mod Mempool
pub mod Modules
