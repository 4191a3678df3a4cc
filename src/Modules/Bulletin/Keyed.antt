-- ===== src/Modules/Bulletin/Keyed.antt =====
-- Stores in which every record of the bulletin stands under its own key.
use hub_rs.Prelude.{
  Bool, true, false, Option, none, some, List, [], ◌∷◌, ◌==◌, list_eq, list_beq_iff, nat_eq,
  if◌then◌else◌, ◌≡◌, refl, sym, ap, ◌∙◌, arith, Bool-cases, inl, inr, Option-cases, beq_refl, not,
}
use hub_rs.Prelude.Map.{Map, get}
use hub_rs.Text.{starts_with}
use hub_rs.Modules.Results.{ok, err, ◌>>=◌}
use hub_rs.Modules.OrdMap.{Bytes, OrdMap, IsSorted, get-above}
use hub_rs.Modules.KvStore.{KvStore, get_ref, put, delete, prefix_scan, empty_store}
use hub_rs.Modules.KvStore.Scan.{prefix_scan_complete}
use hub_rs.Modules.Bulletin.Types.{state, Codec}
use hub_rs.Modules.Bulletin.Storage.{get_record, read_record, decoded, check_key}
use hub_rs.Modules.Bulletin.Collect.{Hold, hold_none, hold_more}

some_same : (a b : Bytes) → some a ≡ some b → a ≡ b
some_same a b h = ground arith

from_test :
    (b : Bool) (o : Option Bytes) (value : Bytes)
    → (if b then o else none) ≡ some value
    → (b ≡ true) × (o ≡ some value)
from_test true o value h = (refl, h)
from_test false o value h = absurd (ground arith)

module _ {T : Type 0} (codec : Codec T) (record_key : T → Bytes) (M : OrdMap) where
  -- The value holds a record whose key is that.
  abbrev pub IsRecord : Bytes → Bytes → Type 0
  IsRecord key value = (r : T) × (codec.from_slice value ≡ some r) × (record_key r ≡ key)

  -- Every key that starts so has a record.
  unfoldable pub IsKeyed : Bytes → KvStore M → Type 0
  IsKeyed start s =
      (key value : Bytes)
      → starts_with start key ≡ true
      → get_ref M key s ≡ some value
      → IsRecord key value

  pub empty-IsKeyed : (start : Bytes) → IsKeyed start (empty_store M)
  unfolding IsKeyed
  empty-IsKeyed start key value h g = absurd (ground (arith, M.lookup-empty key, g))

  pub record-IsKeyed :
      (start : Bytes) (x : T) (s : KvStore M)
      → IsKeyed start s
      → IsKeyed start (put M (record_key x) (codec.to_vec x) s)
  unfolding IsKeyed
  record-IsKeyed start x s i key value h g = elim (Bool-cases (record_key x == key)) [
    | inl e ↦
        (let same =
            some_same (codec.to_vec x) value
              (ground (arith, e, M.lookup-insert (record_key x) key (codec.to_vec x) s.tree, g)) in
          (
            x,
            ap codec.from_slice (sym same) ∙ codec.from_slice-to_vec x,
            (list_beq_iff (record_key x) key).0 e,
          ))
    | inr e ↦
        i key value h
          (ground (arith, e, M.lookup-insert (record_key x) key (codec.to_vec x) s.tree, g))
  ]

  -- A write elsewhere.
  pub elsewhere-IsKeyed :
      (start k v : Bytes) (s : KvStore M)
      → starts_with start k ≡ false
      → IsKeyed start s
      → IsKeyed start (put M k v s)
  unfolding IsKeyed
  elsewhere-IsKeyed start k v s n i key value h g =
      i key value h (ground (arith, list_beq_iff k key, n, h, M.lookup-insert k key v s.tree, g))

  pub delete-IsKeyed :
      (start k : Bytes) (s : KvStore M) → IsKeyed start s → IsKeyed start (delete M k s)
  unfolding IsKeyed
  delete-IsKeyed start k s i key value h g =
      i key value h (ground (arith, M.lookup-remove k key s.tree, g))

  pub read_found :
      (key v : Bytes) (r : T)
      → codec.from_slice v ≡ some r
      → record_key r ≡ key
      → read_record codec record_key key (some v) ≡ ok (some r)
  read_found key v r d k =
      ap (λ o. decoded o >>= λ e. check_key key (record_key e) >>= λ c. ok (some e)) d
      ∙ ap (λ b. (if not b then err state else ok tt) >>= λ c. ok (some r))
          ((list_beq_iff (record_key r) key).1 k)

  entries-Hold :
      (m : Map Bytes Bytes)
      → IsSorted m
      → ((key value : Bytes) → get key m ≡ some value → IsRecord key value)
      → (records : List T) × Hold codec record_key m records
  unfolding get
  entries-Hold [] s h = ([], hold_none)
  entries-Hold ((k, v) ∷ m) (a, s) h =
      let (r, d, e) = h k v (ground (arith, beq_refl k)) in
      let (records, rest) =
        entries-Hold m s
          (λ key value g. h key value (ground (arith, list_beq_iff k key, get-above k m a, g))) in
      (r ∷ records, hold_more d e rest)

  -- A point read finds the record or nothing.
  pub get_record-IsKeyed :
      (start key : Bytes) (s : KvStore M)
      → IsKeyed start s
      → starts_with start key ≡ true
      → (found : Option T) × (get_record codec record_key M key s ≡ ok found)
  unfolding IsKeyed get_record
  get_record-IsKeyed start key s i h = elim (Option-cases (get_ref M key s)) [
    | inl e ↦ (none, ap (read_record codec record_key key) e)
    | inr (v, e) ↦
        (let (r, d, k) = i key v h e in
          (some r, ap (read_record codec record_key key) e ∙ read_found key v r d k))
  ]

  -- A scan finds records.
  pub prefix_scan-IsKeyed :
      (start prefix : Bytes) (s : KvStore M)
      → IsKeyed start s
      → ((key : Bytes) → starts_with prefix key ≡ true → starts_with start key ≡ true)
      → (records : List T) × Hold codec record_key (prefix_scan M prefix s) records
  unfolding IsKeyed
  prefix_scan-IsKeyed start prefix s i longer =
      let (sorted, reads) = prefix_scan_complete M prefix s in
      entries-Hold (prefix_scan M prefix s) sorted (λ key value g.
        (let (b, f) =
            from_test (starts_with prefix key) (get_ref M key s) value (sym (reads key) ∙ g) in
          i key value (longer key b) f))
