-- ===== src/Overlay/Layers.antt =====
-- Reads through merged changes, against reads through two layers.
use hub_rs.Prelude.{
  ℕ, Bool, true, false, not, Option, none, some, [], ◌∷◌, ◌≡◌, inl, inr, refl, ap, ◌∙◌, arith, ◌==◌,
  nat_eq, nat_beq_iff, if◌then◌else◌, Option-cases, ◌&&◌, ◌||◌,
}
use hub_rs.Prelude.Map.{Map, get, get-insert, get-insert_all, IsUnique}
use hub_rs.Overlay.Changes.{
  AccountUpdate, ChangeSet, merge_update, insert_account, merge_accounts, merge,
}
use hub_rs.Overlay.Reads.{
  Result, ok, StateDb, OverlayState, field_or, storage_or, nonce, balance, code_hash, storage,
  as_db,
}

-- An account after a merge, from the two accounts before it.
abbrev pub merged_account : Option AccountUpdate → Option AccountUpdate → Option AccountUpdate
merged_account old none = old
merged_account none (some new) = some new
merged_account (some old) (some new) = some (merge_update old new)

get-insert_account :
    (a b : ℕ) (u : AccountUpdate) (m : Map ℕ AccountUpdate)
    → get b (insert_account a u m) ≡ (if a == b then merged_account (get b m) (some u) else get b m)
unfolding insert_account
get-insert_account a b u m = elim (Option-cases (get a m)) [
  | inl e ↦ ground (arith, e, nat_beq_iff a b, get-insert a b u m)
  | inr (x, e) ↦ ground (arith, e, nat_beq_iff a b, get-insert a b (merge_update x u) m)
]

get-merge_accounts :
    (a : ℕ) (m rest : Map ℕ AccountUpdate)
    → IsUnique rest
    → get a (merge_accounts m rest) ≡ merged_account (get a m) (get a rest)
unfolding merge_accounts get
get-merge_accounts a m [] u = refl
get-merge_accounts a m ((b, x) ∷ rest) u = ground (
  arith,
  get-merge_accounts a (insert_account b x m) rest u.1,
  get-insert_account b a x m,
  nat_beq_iff b a,
)

-- The account was destroyed before, and the newer update neither creates nor destroys it.
abbrev pub revives : Option AccountUpdate → Option AccountUpdate → Bool
revives old none = false
revives none (some new) = false
revives (some old) (some new) = old.selfdestructed && not (new.created || new.selfdestructed)

-- The storage maps hold no slot twice.
abbrev pub HasUniqueSlots : Option AccountUpdate → Type 0
HasUniqueSlots none = Unit
HasUniqueSlots (some new) = IsUnique new.storage

module _ {E : Type 0} where
  field_or-merged_account :
      (f : AccountUpdate → ℕ) (r : Result E ℕ) (old new : Option AccountUpdate)
      → ((x y : AccountUpdate) → f (merge_update x y) ≡ f y)
      → field_or f (merged_account old new) r ≡ field_or f new (field_or f old r)
  field_or-merged_account f r old none h = refl
  field_or-merged_account f r none (some new) h = refl
  field_or-merged_account f r (some old) (some new) h = ap ok (h old new)

  storage_or-merged_account :
      (slot : ℕ) (r : Result E ℕ) (old new : Option AccountUpdate)
      → HasUniqueSlots new
      → revives old new ≡ false
      → storage_or slot (merged_account old new) r ≡ storage_or slot new (storage_or slot old r)
  unfolding merge_update get
  storage_or-merged_account slot r old none u h = refl
  storage_or-merged_account slot r none (some new) u h = refl
  storage_or-merged_account slot r (some old) (some new) u h = ground (
    arith,
    h,
    get-insert_all slot [] new.storage u,
    get-insert_all slot old.storage new.storage u,
  )

  -- The same state as one change set over the database.
  abbrev pub merged : StateDb E → ChangeSet → ChangeSet → OverlayState E
  merged db older newer = record { base = db; changes = merge older newer }

  -- The same state as an overlay over an overlay.
  abbrev pub layered : StateDb E → ChangeSet → ChangeSet → OverlayState E
  layered db older newer = record {
    base = as_db (record { base = db; changes = older });
    changes = newer;
  }

  -- For change sets whose newer one names no account twice: the nonce, the balance and the code
  -- hash of every account read the same through the merged change sets as through two overlays.
  pub account_reads :
      (db : StateDb E) (older newer : ChangeSet) (a : ℕ)
      → IsUnique newer.accounts
      → (nonce (merged db older newer) a ≡ nonce (layered db older newer) a)
        × (balance (merged db older newer) a ≡ balance (layered db older newer) a)
        × (code_hash (merged db older newer) a ≡ code_hash (layered db older newer) a)
  unfolding nonce balance code_hash merge merge_update as_db
  account_reads db older newer a u =
      let g = get-merge_accounts a older.accounts newer.accounts u in
      let old = get a older.accounts in
      let new = get a newer.accounts in
      (
        ap (λ o. field_or (λ x. x.nonce) o (db.nonce a)) g
            ∙ field_or-merged_account (λ x. x.nonce) (db.nonce a) old new (λ x y. refl),
        ap (λ o. field_or (λ x. x.balance) o (db.balance a)) g
            ∙ field_or-merged_account (λ x. x.balance) (db.balance a) old new (λ x y. refl),
        ap (λ o. field_or (λ x. x.code_hash) o (db.code_hash a)) g
            ∙ field_or-merged_account (λ x. x.code_hash) (db.code_hash a) old new (λ x y. refl),
      )

  -- For change sets with no account twice in the newer one and no slot twice in its update of
  -- the account: a slot reads the same through the merged change sets as through two overlays,
  -- unless the older one destroys the account and the newer one touches it and neither creates nor
  -- destroys it.
  pub storage_reads :
      (db : StateDb E) (older newer : ChangeSet) (a slot : ℕ)
      → IsUnique newer.accounts
      → HasUniqueSlots (get a newer.accounts)
      → revives (get a older.accounts) (get a newer.accounts) ≡ false
      → storage (merged db older newer) a slot ≡ storage (layered db older newer) a slot
  unfolding storage merge as_db
  storage_reads db older newer a slot u us h =
      ap (λ o. storage_or slot o (db.storage a slot))
        (get-merge_accounts a older.accounts newer.accounts u)
      ∙ storage_or-merged_account slot (db.storage a slot) (get a older.accounts)
          (get a newer.accounts) us h

  -- For change sets of which the older one destroys an account and does not create it, and the
  -- newer one touches the account again and neither creates nor destroys it, for a slot that
  -- neither update writes: through the merged change sets the slot reads as the base's, although
  -- through two overlays it reads as zero.
  pub storage_revived :
      (db : StateDb E) (older newer : ChangeSet) (a slot : ℕ) (old new : AccountUpdate)
      → IsUnique newer.accounts
      → IsUnique new.storage
      → get a older.accounts ≡ some old
      → get a newer.accounts ≡ some new
      → revives (some old) (some new) ≡ true
      → old.created ≡ false
      → get slot old.storage ≡ none
      → get slot new.storage ≡ none
      → (storage (merged db older newer) a slot ≡ db.storage a slot)
        × (storage (layered db older newer) a slot ≡ ok 0)
  unfolding storage merge as_db merge_update
  storage_revived db older newer a slot old new u us eo en h c so sn =
      let r = db.storage a slot in
      let g = get-merge_accounts a older.accounts newer.accounts u in
      (
        ap (λ o. storage_or slot o r)
              (g
                ∙ ap (λ o. merged_account o (get a newer.accounts)) eo
                ∙ ap (merged_account (some old)) en)
            ∙ ground (arith, h, c, so, sn, get-insert_all slot old.storage new.storage us),
        ap (λ o. storage_or slot o (storage_or slot (get a older.accounts) r)) en
            ∙ ap (λ o. storage_or slot (some new) (storage_or slot o r)) eo
            ∙ ground (arith, h, c, so, sn),
      )
