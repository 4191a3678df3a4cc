-- ===== src/Modules/KvStore/Dirty.antt =====
-- The keys written since a clone in crates/vera-modules/src/kv_store.rs.
use hub_rs.Prelude.{
  Bool, false, Option, none, some, List, [], ◌∷◌, ◌++◌, ◌==◌, ◌≡◌, refl, arith, list_eq, nat_eq,
  ◌||◌, if◌then◌else◌, list_beq_iff,
}
use hub_rs.Prelude.Map.{get}
use hub_rs.Modules.OrdMap.{Bytes, OrdMap}
use hub_rs.Modules.KvStore.{
  KvStore, holds, mark, put, delete, clone_store, entries_of, dirty_entries, get_ref,
}

pub data Write : Type 0 where
  put_write : Bytes → Bytes → Write
  delete_write : Bytes → Write

-- What a reader of the changes sees: the change of a key, or the base.
abbrev pub changed_or : Option (Option Bytes) → Option Bytes → Option Bytes
changed_or none base = base
changed_or (some change) base = change

holds-append : (k j : Bytes) (ks : List Bytes) → holds k (ks ++ (j ∷ [])) ≡ (holds k ks || j == k)
holds-append k j [] = ground arith
holds-append k j (i ∷ ks) = ground (arith, holds-append k j ks)

holds-mark : (k j : Bytes) (ks : List Bytes) → holds k (mark j ks) ≡ (holds k ks || j == k)
holds-mark k j ks = ground (arith, holds-append k j ks, list_beq_iff j k)

unfoldable pub is_written : Bytes → List Write → Bool
is_written key [] = false
is_written key (put_write k v ∷ ws) = k == key || is_written key ws
is_written key (delete_write k ∷ ws) = k == key || is_written key ws

module _ (M : OrdMap) where
  unfoldable pub write_all : List Write → KvStore M → KvStore M
  write_all [] s = s
  write_all (put_write k v ∷ ws) s = write_all ws (put M k v s)
  write_all (delete_write k ∷ ws) s = write_all ws (delete M k s)

  get-entries_of :
      (k : Bytes) (ks : List Bytes) (t : M.Tree)
      → get k (entries_of M ks t) ≡ (if holds k ks then some (M.lookup k t) else none)
  unfolding get
  get-entries_of k [] t = refl
  get-entries_of k (j ∷ ks) t = ground (arith, get-entries_of k ks t, list_beq_iff j k)

  -- A key that is not marked reads as in the base.
  IsTracked : KvStore M → KvStore M → Type 0
  IsTracked base s = (k : Bytes) → holds k s.dirty ≡ false → get_ref M k s ≡ get_ref M k base

  put-IsTracked :
      (base s : KvStore M) (k v : Bytes) → IsTracked base s → IsTracked base (put M k v s)
  unfolding IsTracked
  put-IsTracked base s k v t j h =
      ground (arith, h, t j, M.lookup-insert k j v s.tree, holds-mark j k s.dirty)

  delete-IsTracked :
      (base s : KvStore M) (k : Bytes) → IsTracked base s → IsTracked base (delete M k s)
  unfolding IsTracked
  delete-IsTracked base s k t j h =
      ground (arith, h, t j, M.lookup-remove k j s.tree, holds-mark j k s.dirty)

  write_all-IsTracked :
      (base s : KvStore M) (ws : List Write) → IsTracked base s → IsTracked base (write_all ws s)
  unfolding write_all
  write_all-IsTracked base s [] t = t
  write_all-IsTracked base s (put_write k v ∷ ws) t =
      write_all-IsTracked base (put M k v s) ws (put-IsTracked base s k v t)
  write_all-IsTracked base s (delete_write k ∷ ws) t =
      write_all-IsTracked base (delete M k s) ws (delete-IsTracked base s k t)

  IsTracked-reads :
      (base s : KvStore M) (k : Bytes)
      → IsTracked base s
      → get_ref M k s ≡ changed_or (get k (dirty_entries M s)) (get_ref M k base)
  unfolding IsTracked dirty_entries
  IsTracked-reads base s k t = ground (arith, t k, get-entries_of k s.dirty s.tree)

  holds-write_all :
      (key : Bytes) (ws : List Write) (s : KvStore M)
      → holds key (write_all ws s).dirty ≡ (holds key s.dirty || is_written key ws)
  unfolding write_all is_written
  holds-write_all key [] s = ground arith
  holds-write_all key (put_write k v ∷ ws) s =
      ground (arith, holds-write_all key ws (put M k v s), holds-mark key k s.dirty)
  holds-write_all key (delete_write k ∷ ws) s =
      ground (arith, holds-write_all key ws (delete M k s), holds-mark key k s.dirty)

-- Whatever is written and deleted in a clone of a store, in any order: the clone's changes have
-- exactly the keys written or deleted, each with the clone's value of it, and laid over the store
-- that was cloned they read as the clone at every key.
pub dirty_entries_capture :
    (M : OrdMap) (base : KvStore M) (writes : List Write) (key : Bytes)
    → let after = write_all M writes (clone_store M base) in
      let changes = dirty_entries M after in
      (get key changes ≡ (if is_written key writes then some (get_ref M key after) else none))
      × (get_ref M key after ≡ changed_or (get key changes) (get_ref M key base))
unfolding IsTracked dirty_entries
dirty_entries_capture M base writes key =
    let s = clone_store M base in
    let after = write_all M writes s in
    (
      ground (arith, get-entries_of M key after.dirty after.tree, holds-write_all M key writes s),
      IsTracked-reads M base after key (write_all-IsTracked M base s writes (λ k h. refl)),
    )
