-- ===== src/Overlay/Tests.antt =====
-- Two concrete change sets over a concrete database, and the theorems of this component at them.
use hub_rs.Prelude.{ℕ, nat_eq, ◌==◌, true, false, none, [], ◌∷◌, ◌≡◌, refl}
use hub_rs.Prelude.Map.{get}
use hub_rs.Overlay.Changes.{AccountUpdate, ChangeSet, merge}
use hub_rs.Overlay.Reads.{
  ok, err, StateDb, nonce, balance, code_hash, storage, as_db, account_exists,
}
use hub_rs.Overlay.Layers.{merged, layered, account_reads, storage_reads, storage_revived}

-- Every slot of the base holds 7.
abbrev base : StateDb ℕ
base = record {
  nonce = λ a. ok 1;
  balance = λ a. ok 100;
  code_hash = λ a. ok 0;
  code = λ h. err 404;
  storage = λ a slot. ok 7;
  commit = λ c. ok 0;
  compute_root = λ c. ok 0;
  state_root = ok 0;
  merge_changes = λ older newer. merge older newer;
}

abbrev destroyed : AccountUpdate
destroyed = record {
  created = false;
  selfdestructed = true;
  nonce = 0;
  balance = 0;
  code_hash = 0;
  code = none;
  storage = [];
}

-- A plain transfer to the account.
abbrev paid : AccountUpdate
paid = record {
  created = false;
  selfdestructed = false;
  nonce = 0;
  balance = 5;
  code_hash = 0;
  code = none;
  storage = [];
}

abbrev written : AccountUpdate
written = record paid { storage = (3, 9) ∷ [] }

abbrev at_one : AccountUpdate → ChangeSet
at_one u = record { accounts = (1, u) ∷ [] }

account_reads_example :
    (nonce (merged base (at_one written) (at_one paid)) 1
      ≡ nonce (layered base (at_one written) (at_one paid)) 1)
    × (balance (merged base (at_one written) (at_one paid)) 1
        ≡ balance (layered base (at_one written) (at_one paid)) 1)
    × (code_hash (merged base (at_one written) (at_one paid)) 1
        ≡ code_hash (layered base (at_one written) (at_one paid)) 1)
unfolding get
account_reads_example = account_reads base (at_one written) (at_one paid) 1 (refl, tt)

storage_reads_example :
    storage (merged base (at_one paid) (at_one written)) 1 3
    ≡ storage (layered base (at_one paid) (at_one written)) 1 3
unfolding get
storage_reads_example =
    storage_reads base (at_one paid) (at_one written) 1 3 (refl, tt) (refl, tt) refl

storage_revived_example :
    (storage (merged base (at_one destroyed) (at_one paid)) 1 3 ≡ base.storage 1 3)
    × (storage (layered base (at_one destroyed) (at_one paid)) 1 3 ≡ ok 0)
unfolding get
storage_revived_example =
    storage_revived base (at_one destroyed) (at_one paid) 1 3 destroyed paid (refl, tt) tt refl refl
      refl refl refl refl

-- A destroyed account does not exist above a base that has it.
destroyed_is_absent :
    account_exists (λ e. e == 404) (as_db (record { base = base; changes = at_one destroyed })) 1
    ≡ ok false
unfolding get as_db account_exists
destroyed_is_absent = refl
