-- ===== src/Mempool.antt =====
-- crates/vera-consensus/src/components/mempool.rs: the pending transactions of a node, in the order
-- of their admission. The lock makes each operation a step of its own. A transaction's identifier
-- (a hash) and its encoded size (a codec's) are parameters; `usize` has 64 bits and wraps around.
pub mod Queue
mod Lookups
mod Named
pub mod Refines
pub mod Block
mod Tests
use hub_rs.Prelude.{
  ℕ, zero, suc, ◌+◌, ◌-◌, ◌*◌, ◌%◌, ◌^◌, Bool, true, false, not, Option, none, some, List, [], ◌∷◌,
  ◌++◌, ◌&&◌, ◌||◌, ◌==◌, nat_eq, leb, ltb, length, map, any, if◌then◌else◌,
}
use hub_rs.Prelude.Map.{Map, get, insert, remove, contains_key}

pub record Tx : Type 0 where
  pub bytes : List ℕ

-- crates/vera-domain/src/limits.rs.
abbrev pub max_tx_bytes : ℕ
max_tx_bytes = 12 * 2 ^ 20 + 4096

abbrev pub max_block_txs : ℕ
max_block_txs = 256

abbrev pub max_block_tx_bytes : ℕ
max_block_tx_bytes = 16 * 2 ^ 20

abbrev pub max_pending_bytes : ℕ
max_pending_bytes = 64 * 2 ^ 20

abbrev pub max_pending_txs : ℕ
max_pending_txs = 4096

abbrev pub wrapping_add : ℕ → ℕ → ℕ
wrapping_add a b = (a + b) % 2 ^ 64

abbrev pub wrapping_sub : ℕ → ℕ → ℕ
wrapping_sub a b = (a + 2 ^ 64 - b) % 2 ^ 64

pub record Pending : Type 0 where
  pub txs : Map ℕ Tx
  pub order : List ℕ
  pub bytes : ℕ

-- `InMemoryMempool::new`.
abbrev pub new : Pending
new = record { txs = []; order = []; bytes = 0 }

abbrev pub member : ℕ → List ℕ → Bool
member i [] = false
member i (j ∷ js) = j == i || member i js

-- `Pending::ordered`; the `expect` that fails is `none`.
abbrev look_up : ℕ → Option Tx → Option (List (ℕ × Tx)) → Option (List (ℕ × Tx))
look_up i none rest = none
look_up i (some tx) none = none
look_up i (some tx) (some rest) = some ((i, tx) ∷ rest)

unfoldable pub look_up_all : Map ℕ Tx → List ℕ → Option (List (ℕ × Tx))
look_up_all txs [] = some []
look_up_all txs (i ∷ order) = look_up i (get i txs) (look_up_all txs order)

unfoldable pub ordered : Pending → Option (List (ℕ × Tx))
unfolding look_up_all
ordered p = look_up_all p.txs p.order

-- `Pending::accepts`.
unfoldable pub accepts : Pending → ℕ → Tx → Bool
accepts p id tx =
    leb (length tx.bytes) max_tx_bytes
    && (contains_key id p.txs
        || (ltb (length p.txs) max_pending_txs
            && leb (length tx.bytes) (wrapping_sub max_pending_bytes p.bytes)))

-- The loop of `prune`, over the map and the byte count.
abbrev pub bytes_after : Option Tx → ℕ → ℕ
bytes_after none bytes = bytes
bytes_after (some tx) bytes = wrapping_sub bytes (length tx.bytes)

unfoldable pub remove_each : List ℕ → Map ℕ Tx → ℕ → Map ℕ Tx × ℕ
remove_each [] txs bytes = (txs, bytes)
remove_each (id ∷ ids) txs bytes = remove_each ids (remove id txs) (bytes_after (get id txs) bytes)

-- `order.retain(|id| txs.contains_key(id))`.
unfoldable pub retain_known : Map ℕ Tx → List ℕ → List ℕ
retain_known txs [] = []
retain_known txs (i ∷ order) =
    let rest = retain_known txs order in if contains_key i txs then i ∷ rest else rest

-- `InMemoryMempool::prune`.
unfoldable pub prune : List ℕ → Pending → Pending
unfolding remove_each retain_known
prune [] p = p
prune (id ∷ ids) p =
    let (txs, bytes) = remove_each (id ∷ ids) p.txs p.bytes in
    record { txs = txs; order = retain_known txs p.order; bytes = bytes }

-- `InMemoryMempool::len`.
unfoldable pub len : Pending → ℕ
len p = length p.txs

abbrev pub take {ℓ} : {A : Type ℓ} → ℕ → List A → List A
take zero xs = []
take (suc n) [] = []
take (suc n) (x ∷ xs) = x ∷ take n xs

abbrev pub min : ℕ → ℕ → ℕ
min a b = if leb a b then a else b

-- What the closure of `take_while` lets through, within the bytes that remain.
unfoldable pub take_fitting : (Tx → ℕ) → ℕ → List Tx → List Tx
take_fitting encode_size remaining [] = []
take_fitting encode_size remaining (tx ∷ txs) =
    let rest = take_fitting encode_size (remaining - encode_size tx) txs in
    if ltb max_tx_bytes (length tx.bytes) || ltb remaining (encode_size tx) then [] else tx ∷ rest

module _ (id : Tx → ℕ) where
  -- `can_insert`.
  unfoldable pub can_insert : Pending → Tx → Bool
  unfolding accepts
  can_insert p tx = accepts p (id tx) tx

  -- `insert`.
  unfoldable pub insert_tx : Tx → Pending → Bool × Pending
  unfolding accepts
  insert_tx tx p =
      if not (accepts p (id tx) tx) || contains_key (id tx) p.txs then (false, p) else (
        true,
        record {
          txs = insert (id tx) tx p.txs;
          order = p.order ++ (id tx ∷ []);
          bytes = wrapping_add p.bytes (length tx.bytes);
        },
      )

-- `filter(|(id, _)| !excluded.contains(id))`.
unfoldable pub keep_included : List ℕ → List (ℕ × Tx) → List (ℕ × Tx)
keep_included excluded [] = []
keep_included excluded ((id, tx) ∷ txs) =
    let rest = keep_included excluded txs in
    if not (member id excluded) then (id, tx) ∷ rest else rest

-- `map(|(_, tx)| tx.clone())`.
abbrev pub transactions : List (ℕ × Tx) → List Tx
transactions [] = []
transactions ((id, tx) ∷ txs) = tx ∷ transactions txs

abbrev pub build_from : ℕ → List ℕ → Option (List (ℕ × Tx)) → Option (List Tx)
build_from max_txs excluded none = none
build_from max_txs excluded (some txs) =
    some (transactions (take max_txs (keep_included excluded txs)))

-- `build`.
unfoldable pub build : ℕ → List ℕ → Pending → Option (List Tx)
unfolding ordered keep_included
build max_txs excluded p = build_from max_txs excluded (ordered p)

abbrev pub block_from : (Tx → ℕ) → ℕ → List ℕ → Option (List (ℕ × Tx)) → Option (List Tx)
block_from encode_size max_txs excluded none = none
block_from encode_size max_txs excluded (some txs) = some (
    take_fitting encode_size (max_block_tx_bytes - 5)
      (transactions (take (min max_txs max_block_txs) (keep_included excluded txs))))

-- `build_block`.
unfoldable pub build_block : (Tx → ℕ) → ℕ → List ℕ → Pending → Option (List Tx)
unfolding ordered keep_included take_fitting
build_block encode_size max_txs excluded p = block_from encode_size max_txs excluded (ordered p)
