-- ===== src/Overlay/Changes.antt =====
-- crates/vera-qmdb/src/changes.rs
use hub_rs.Prelude.{
  ℕ, Bool, true, false, not, Option, none, some, List, [], ◌∷◌, ◌||◌, ◌==◌, nat_eq, length,
  if◌then◌else◌,
}
use hub_rs.Prelude.Map.{Map, get, insert, insert_all}

pub record AccountUpdate : Type 0 where
  pub created : Bool
  pub selfdestructed : Bool
  pub nonce : ℕ
  pub balance : ℕ
  pub code_hash : ℕ
  pub code : Option (List ℕ)
  pub storage : Map ℕ ℕ

pub record ChangeSet : Type 0 where
  pub accounts : Map ℕ AccountUpdate

abbrev pub new : ChangeSet
new = record { accounts = [] }

abbrev is_some : Option (List ℕ) → Bool
is_some none = false
is_some (some c) = true

-- `AccountUpdate::merge`. The storage is cleared first, and then takes the newer slots.
unfoldable pub merge_update : AccountUpdate → AccountUpdate → AccountUpdate
merge_update self other = record {
  created = if other.created then true else self.created;
  selfdestructed = other.selfdestructed;
  nonce = other.nonce;
  balance = other.balance;
  code_hash = other.code_hash;
  code =
      if not (self.code_hash == other.code_hash) || is_some other.code
      then other.code
      else self.code;
  storage =
      let cleared = (if other.created || other.selfdestructed then [] else self.storage) in
      if not other.selfdestructed then insert_all cleared other.storage else cleared;
}

-- `get_mut` and the branches on it, as `ChangeSet::insert` writes them.
unfoldable pub insert_account : ℕ → AccountUpdate → Map ℕ AccountUpdate → Map ℕ AccountUpdate
insert_account address update accounts = elim (get address accounts) [
  | some existing ↦ insert address (merge_update existing update) accounts
  | none ↦ insert address update accounts
]

unfoldable pub insert_change : ℕ → AccountUpdate → ChangeSet → ChangeSet
unfolding insert_account
insert_change address update c = record { accounts = insert_account address update c.accounts }

-- The loop of `ChangeSet::merge`.
unfoldable pub merge_accounts : Map ℕ AccountUpdate → Map ℕ AccountUpdate → Map ℕ AccountUpdate
merge_accounts accounts [] = accounts
merge_accounts accounts ((address, update) ∷ rest) =
    merge_accounts (insert_account address update accounts) rest

-- `ChangeSet::merge`.
unfoldable pub merge : ChangeSet → ChangeSet → ChangeSet
unfolding merge_accounts insert_account
merge self other = record { accounts = merge_accounts self.accounts other.accounts }

unfoldable pub len : ChangeSet → ℕ
len c = length c.accounts
