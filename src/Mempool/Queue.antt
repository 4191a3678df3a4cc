-- ===== src/Mempool/Queue.antt =====
-- What the mempool promises: a bounded queue of transactions.
use hub_rs.Prelude.{
  ℕ, ◌+◌, ◌≡◌, Bool, true, false, not, Option, none, some, List, [], ◌∷◌, ◌++◌, ◌&&◌, ◌==◌, nat_eq,
  leb, ltb, length, if◌then◌else◌,
}
use hub_rs.Mempool.{Tx, member, max_tx_bytes, max_pending_bytes, max_pending_txs}

-- The bytes of all transactions of the queue.
abbrev pub total : List Tx → ℕ
total [] = 0
total (tx ∷ q) = length tx.bytes + total q

abbrev pub is_some : Option Tx → Bool
is_some none = false
is_some (some tx) = true

module _ (id : Tx → ℕ) where
  -- The first transaction with an identifier.
  unfoldable pub find : ℕ → List Tx → Option Tx
  find i [] = none
  find i (tx ∷ q) = if id tx == i then some tx else find i q

  -- No identifier stands twice.
  abbrev pub IsDistinct : List Tx → Type 0
  IsDistinct [] = Unit
  IsDistinct (tx ∷ q) = (find (id tx) q ≡ none) × IsDistinct q

  -- An admission goes to the end, if the transaction is new and there is room for it.
  unfoldable pub admit : Tx → List Tx → Bool × List Tx
  admit tx q =
      if leb (length tx.bytes) max_tx_bytes
        && not (is_some (find (id tx) q))
        && ltb (length q) max_pending_txs
        && leb (length tx.bytes + total q) max_pending_bytes
      then (true, q ++ (tx ∷ []))
      else (false, q)

  -- The queue without the transactions that are named.
  unfoldable pub without : List ℕ → List Tx → List Tx
  without ids [] = []
  without ids (tx ∷ q) = let rest = without ids q in if member (id tx) ids then rest else tx ∷ rest

-- The transactions of the queue that are not excluded.
unfoldable pub not_excluded : (Tx → ℕ) → List ℕ → List Tx → List Tx
not_excluded id excluded [] = []
not_excluded id excluded (tx ∷ q) =
    let rest = not_excluded id excluded q in if member (id tx) excluded then rest else tx ∷ rest
