-- ===== src/Overlay/Reads.antt =====
-- crates/vera-overlay/src/overlay.rs: reads, and the writes that an overlay passes on.
use hub_rs.Prelude.{
  ℕ, Bool, true, false, not, Option, none, some, List, [], ◌∷◌, ◌==◌, nat_eq, ltb, if◌then◌else◌,
}
use hub_rs.Prelude.Map.{Map, get}
use hub_rs.Overlay.Changes.{AccountUpdate, ChangeSet, merge}

pub data Result {ℓ} (E A : Type ℓ) : Type ℓ where
  ok : A → Result E A
  err : E → Result E A

-- `StateDbRead` and the writes that the overlay passes on; a root is a number. `E` is
-- `StateDbError`, whose values only the base makes.
pub record StateDb (E : Type 0) : Type 0 where
  pub nonce : ℕ → Result E ℕ
  pub balance : ℕ → Result E ℕ
  pub code_hash : ℕ → Result E ℕ
  pub code : ℕ → Result E (List ℕ)
  pub storage : ℕ → ℕ → Result E ℕ
  pub commit : ChangeSet → Result E ℕ
  pub compute_root : ChangeSet → Result E ℕ
  pub state_root : Result E ℕ
  pub merge_changes : ChangeSet → ChangeSet → ChangeSet

pub record OverlayState (E : Type 0) : Type 0 where
  pub base : StateDb E
  pub changes : ChangeSet

-- `StateDbRead::exists`, with the test for `StateDbError::AccountNotFound`.
unfoldable pub account_exists : {E : Type 0} → (E → Bool) → StateDb E → ℕ → Result E Bool
account_exists is_account_not_found db a = elim (db.nonce a) [
  | ok nonce ↦
      if ltb 0 nonce
      then ok true
      else elim (db.balance a) [ ok balance ↦ ok (not (balance == 0)) | err e ↦ err e ]
  | err e ↦ if is_account_not_found e then ok false else err e
]

abbrev place : ℕ → AccountUpdate → Map ℕ AccountUpdate → List (ℕ × AccountUpdate)
place address update [] = (address, update) ∷ []
place address update ((other, old) ∷ rest) =
    let later = place address update rest in
    if ltb address other then (address, update) ∷ (other, old) ∷ rest else (other, old) ∷ later

-- `BTreeMap::values`, with the keys: in the order of the addresses.
unfoldable pub in_order : Map ℕ AccountUpdate → List (ℕ × AccountUpdate)
in_order [] = []
in_order ((address, update) ∷ rest) = place address update (in_order rest)

-- The loop over the accounts in `code`.
unfoldable pub find_code : ℕ → List (ℕ × AccountUpdate) → Option (List ℕ)
find_code hash [] = none
find_code hash ((address, update) ∷ rest) =
    let later = find_code hash rest in
    if update.code_hash == hash
    then elim update.code [ some code ↦ some code | none ↦ later ]
    else later

module _ {E : Type 0} where
  -- The method of `OverlayState` itself; the one of `StateDbWrite` asks the base (`as_db`).
  unfoldable pub merge_changes : OverlayState E → ChangeSet → ChangeSet
  merge_changes o newer = merge o.changes newer

  -- A number of the update, or of the base.
  abbrev pub field_or : (AccountUpdate → ℕ) → Option AccountUpdate → Result E ℕ → Result E ℕ
  field_or field none r = r
  field_or field (some update) r = ok (field update)

  abbrev pub slot_of : AccountUpdate → Option ℕ → Result E ℕ → Result E ℕ
  slot_of update (some value) r = if update.selfdestructed then ok 0 else ok value
  slot_of update none r = if update.selfdestructed then ok 0 else if update.created then ok 0 else r

  abbrev pub storage_or : ℕ → Option AccountUpdate → Result E ℕ → Result E ℕ
  storage_or slot none r = r
  storage_or slot (some update) r = slot_of update (get slot update.storage) r

  abbrev code_or : Option (List ℕ) → Result E (List ℕ) → Result E (List ℕ)
  code_or none r = r
  code_or (some code) r = ok code

  unfoldable pub nonce : OverlayState E → ℕ → Result E ℕ
  nonce o a = field_or (λ u. u.nonce) (get a o.changes.accounts) (o.base.nonce a)

  unfoldable pub balance : OverlayState E → ℕ → Result E ℕ
  balance o a = field_or (λ u. u.balance) (get a o.changes.accounts) (o.base.balance a)

  unfoldable pub code_hash : OverlayState E → ℕ → Result E ℕ
  code_hash o a = field_or (λ u. u.code_hash) (get a o.changes.accounts) (o.base.code_hash a)

  unfoldable pub code : OverlayState E → ℕ → Result E (List ℕ)
  unfolding find_code in_order
  code o hash = code_or (find_code hash (in_order o.changes.accounts)) (o.base.code hash)

  unfoldable pub storage : OverlayState E → ℕ → ℕ → Result E ℕ
  storage o a slot = storage_or slot (get a o.changes.accounts) (o.base.storage a slot)

  unfoldable pub commit : OverlayState E → ChangeSet → Result E ℕ
  commit o changes = o.base.commit (merge o.changes changes)

  unfoldable pub compute_root : OverlayState E → ChangeSet → Result E ℕ
  compute_root o changes = o.base.compute_root (merge o.changes changes)

  unfoldable pub state_root : OverlayState E → Result E ℕ
  state_root o = o.base.state_root

  -- An overlay is a database itself, so that overlays can be stacked.
  unfoldable pub as_db : OverlayState E → StateDb E
  unfolding nonce balance code_hash code storage commit compute_root state_root
  as_db o = record {
    nonce = nonce o;
    balance = balance o;
    code_hash = code_hash o;
    code = code o;
    storage = storage o;
    commit = commit o;
    compute_root = compute_root o;
    state_root = state_root o;
    merge_changes = o.base.merge_changes;
  }
