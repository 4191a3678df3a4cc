-- ===== src/Mempool/Tests.antt =====
-- A short run of a mempool, and the theorems of this component at it.
use hub_rs.Prelude.{ℕ, ◌+◌, ◌≤◌, ◌≡◌, refl, arith, some, List, [], ◌∷◌, length}
use hub_rs.Mempool.{
  Tx, new, build, build_block, take, len, max_pending_txs, max_pending_bytes, max_block_txs,
  max_block_tx_bytes,
}
use hub_rs.Mempool.Queue.{total, admit, find, without, not_excluded}
use hub_rs.Mempool.Refines.{Op, insert_op, prune_op, run, run_queue, run_refines}
use hub_rs.Mempool.Block.{encoded, IsPrefix, build_block_bounds, build_block_progress}

-- An identifier for the transactions of this file.
abbrev first_byte : Tx → ℕ
first_byte tx = elim tx.bytes [ [] ↦ 0 | b ∷ bs ↦ b ]

-- One byte of length before the bytes.
abbrev size : Tx → ℕ
size tx = length tx.bytes + 1

abbrev tx_of : ℕ → Tx
tx_of n = record { bytes = n ∷ 7 ∷ [] }

abbrev ops : List Op
ops =
    insert_op (tx_of 1)
    ∷ insert_op (tx_of 2)
    ∷ insert_op (tx_of 1)
    ∷ prune_op (1 ∷ [])
    ∷ insert_op (tx_of 3)
    ∷ insert_op (tx_of 1)
    ∷ []

run_refines_example :
    ((run first_byte ops new).0 ≡ (run_queue first_byte ops []).0)
    × (len (run first_byte ops new).1 ≡ length (run_queue first_byte ops []).1)
    × (length (run_queue first_byte ops []).1 ≤ max_pending_txs)
    × ((run first_byte ops new).1.bytes ≡ total (run_queue first_byte ops []).1)
    × (total (run_queue first_byte ops []).1 ≤ max_pending_bytes)
    × (build 2 (3 ∷ []) (run first_byte ops new).1
        ≡ some (take 2 (not_excluded first_byte (3 ∷ []) (run_queue first_byte ops []).1)))
run_refines_example = run_refines first_byte ops 2 (3 ∷ [])

queue_after : (run_queue first_byte ops []).1 ≡ tx_of 2 ∷ tx_of 3 ∷ tx_of 1 ∷ []
unfolding run_queue admit find without
queue_after = refl

build_block_bounds_example :
    (block : List Tx) × (build_block size 2 (3 ∷ []) (run first_byte ops new).1 ≡ some block)
    × IsPrefix block (not_excluded first_byte (3 ∷ []) (run_queue first_byte ops []).1)
    × (length block ≤ 2)
    × (length block ≤ max_block_txs)
    × (encoded size block + 5 ≤ max_block_tx_bytes)
build_block_bounds_example = build_block_bounds first_byte size ops 2 (3 ∷ [])

adds_one : (x : Tx) → size x ≤ length x.bytes + 5
adds_one x = omega arith

oldest : not_excluded first_byte (2 ∷ []) (run_queue first_byte ops []).1 ≡ tx_of 3 ∷ tx_of 1 ∷ []
unfolding not_excluded run_queue admit find without
oldest = refl

build_block_progress_example :
    (rest : List Tx) × (build_block size 1 (2 ∷ []) (run first_byte ops new).1
      ≡ some (tx_of 3 ∷ rest))
build_block_progress_example =
    build_block_progress first_byte size ops 1 (2 ∷ []) (tx_of 3) (tx_of 1 ∷ []) adds_one
      (omega arith) oldest
