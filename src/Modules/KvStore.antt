-- ===== src/Modules/KvStore.antt =====
-- crates/vera-modules/src/kv_store.rs: a module's state as a key-value store on an ordered map, with
-- the keys written since the last clone. The hash set of these keys is a list without repetitions;
-- its order, which the source leaves open, is that of the writes.
pub mod Scan
pub mod Dirty
use hub_rs.Prelude.{
  Bool, true, false, Option, none, some, List, [], ◌∷◌, ◌++◌, ◌==◌, list_eq, nat_eq, ◌||◌,
  if◌then◌else◌,
}
use hub_rs.Prelude.Map.{Map}
use hub_rs.Text.{starts_with}
use hub_rs.Modules.OrdMap.{Bytes, OrdMap}

pub record KvStore (M : OrdMap) : Type 0 where
  pub tree : M.Tree
  pub dirty : List Bytes

abbrev pub holds : Bytes → List Bytes → Bool
holds k [] = false
holds k (j ∷ ks) = j == k || holds k ks

-- `HashSet::insert`.
abbrev pub mark : Bytes → List Bytes → List Bytes
mark k ks = if holds k ks then ks else ks ++ (k ∷ [])

-- `take_while(|(key, _)| key.starts_with(prefix))`.
unfoldable pub take_prefixed : Bytes → Map Bytes Bytes → Map Bytes Bytes
unfolding starts_with
take_prefixed prefix [] = []
take_prefixed prefix ((key, value) ∷ rest) =
    let taken = take_prefixed prefix rest in
    if starts_with prefix key then (key, value) ∷ taken else []

module _ (M : OrdMap) where
  -- `Default`.
  abbrev pub empty_store : KvStore M
  empty_store = record { tree = M.empty; dirty = [] }

  -- `Clone`.
  abbrev pub clone_store : KvStore M → KvStore M
  clone_store s = record { tree = s.tree; dirty = [] }

  abbrev pub insert_pairs : M.Tree → List (Bytes × Bytes) → M.Tree
  insert_pairs t [] = t
  insert_pairs t ((key, value) ∷ pairs) = insert_pairs (M.insert key value t) pairs

  abbrev pub from_pairs : List (Bytes × Bytes) → KvStore M
  from_pairs pairs = record { tree = insert_pairs M.empty pairs; dirty = [] }

  -- `get_ref`, and `get`.
  abbrev pub get_ref : Bytes → KvStore M → Option Bytes
  get_ref key s = M.lookup key s.tree

  abbrev pub put : Bytes → Bytes → KvStore M → KvStore M
  put key value s = record { tree = M.insert key value s.tree; dirty = mark key s.dirty }

  abbrev pub delete : Bytes → KvStore M → KvStore M
  delete key s = record { tree = M.remove key s.tree; dirty = mark key s.dirty }

  -- `prefix_iter`, and `prefix_scan`.
  unfoldable pub prefix_scan : Bytes → KvStore M → Map Bytes Bytes
  unfolding take_prefixed
  prefix_scan prefix s = take_prefixed prefix (M.range prefix s.tree)

  abbrev pub reset_dirty : KvStore M → KvStore M
  reset_dirty s = record { tree = s.tree; dirty = [] }

  abbrev pub entries_of : List Bytes → M.Tree → Map Bytes (Option Bytes)
  entries_of [] t = []
  entries_of (key ∷ keys) t = (key, M.lookup key t) ∷ entries_of keys t

  unfoldable pub dirty_entries : KvStore M → Map Bytes (Option Bytes)
  dirty_entries s = entries_of s.dirty s.tree
