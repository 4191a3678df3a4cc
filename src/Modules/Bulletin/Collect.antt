-- ===== src/Modules/Bulletin/Collect.antt =====
-- `collect_records` of crates/vera-modules/src/bulletin/collections.rs on records that stand under
-- their own keys.
use hub_rs.Prelude.{
  ℕ, zero, suc, ◌+◌, ◌≤◌, Bool, true, false, not, some, List, [], ◌∷◌, ◌==◌, nat_eq, list_eq,
  list_beq_iff, ltb, leb, ◌||◌, ◌&&◌, length, if◌then◌else◌, ◌≡◌, refl, ap, ◌∙◌, arith, Bool-cases,
  inl, inr,
}
use hub_rs.Mempool.{take}
use hub_rs.Modules.Results.{Result, ok, err, ◌>>=◌}
use hub_rs.Modules.OrdMap.{Bytes, OrdMap}
use hub_rs.Modules.KvStore.{KvStore, prefix_scan}
use hub_rs.Modules.Bulletin.Types.{BulletinError, query_limit, state, Codec}
use hub_rs.Modules.Bulletin.Storage.{
  max_records, max_bytes, max_prefix_bytes, saturating_add, decoded, check_key, keep, collect_from,
  collect_records,
}

-- The bytes of the keys and the values.
abbrev pub total_bytes : List (Bytes × Bytes) → ℕ
total_bytes [] = 0
total_bytes ((key, value) ∷ entries) = length key + length value + total_bytes entries

-- The entries hold these records, each under its own key.
pub data Hold {T : Type 0} (codec : Codec T) (record_key : T → Bytes)
    : List (Bytes × Bytes) → List T → Type 0 where
  hold_none : Hold codec record_key [] []
  hold_more :
      {key value : Bytes} {entries : List (Bytes × Bytes)} {r : T} {records : List T}
      → codec.from_slice value ≡ some r
      → record_key r ≡ key
      → Hold codec record_key entries records
      → Hold codec record_key ((key, value) ∷ entries) (r ∷ records)

abbrev pub select_from : {T : Type 0} → (T → Bool) → List T → List T
select_from select [] = []
select_from select (r ∷ records) =
    let rest = select_from select records in if select r then r ∷ rest else rest

-- The answer of a scan within the limits, or past them.
abbrev pub answer : {A : Type 0} → Bool → A → Result BulletinError A
answer true records = ok records
answer false records = err query_limit

added : ℕ → Bytes → Bytes → ℕ
added bytes key value = saturating_add (saturating_add bytes (length key)) (length value)

within_exact :
    (bytes : ℕ) (key value : Bytes)
    → ltb max_bytes (bytes + (length key + length value)) ≡ false
    → added bytes key value ≡ bytes + (length key + length value)
unfolding added
within_exact bytes key value h = ground arith

over_over :
    (bytes : ℕ) (key value : Bytes)
    → ltb max_bytes (bytes + (length key + length value)) ≡ true
    → ltb max_bytes (added bytes key value) ≡ true
unfolding added
over_over bytes key value h = ground arith

module _ {T : Type 0} (codec : Codec T) (record_key : T → Bytes) (select : T → Bool) where
  step_ok :
      (key value : Bytes) (r : T) (rest : Result BulletinError (List T))
      → codec.from_slice value ≡ some r
      → record_key r ≡ key
      → (decoded (codec.from_slice value) >>= λ e. check_key key (record_key e) >>= λ c.
          rest >>= λ rs. ok (keep codec record_key select e rs))
        ≡ (rest >>= λ rs. ok (keep codec record_key select r rs))
  step_ok key value r rest d k =
      ap
        (λ o. decoded o >>= λ e. check_key key (record_key e) >>= λ c.
          rest >>= λ rs. ok (keep codec record_key select e rs))
        d
      ∙ ap
          (λ b. (if not b then err state else ok tt) >>= λ c.
            rest >>= λ rs. ok (keep codec record_key select r rs))
          ((list_beq_iff (record_key r) key).1 k)

  answer-keep :
      (b : Bool) (r : T) (records : List T)
      → (answer b (select_from select records) >>= λ rs. ok (keep codec record_key select r rs))
        ≡ answer b (select_from select (r ∷ records))
  answer-keep true r records = refl
  answer-keep false r records = refl

  collect_within :
      (count bytes : ℕ) (key value : Bytes) (entries : List (Bytes × Bytes)) (r : T)
      → codec.from_slice value ≡ some r
      → record_key r ≡ key
      → (count == max_records || ltb max_bytes (added bytes key value)) ≡ false
      → collect_from codec record_key select count bytes ((key, value) ∷ entries) ≡ (
          collect_from codec record_key select (count + 1) (added bytes key value) entries >>= λ rs.
          ok (keep codec record_key select r rs))
  unfolding collect_from added
  collect_within count bytes key value entries r d k g =
      ap
        (λ b.
          if b
          then err query_limit
          else (decoded (codec.from_slice value) >>= λ e. check_key key (record_key e) >>= λ c.
              collect_from codec record_key select (count + 1) (added bytes key value) entries
              >>= λ rs. ok (keep codec record_key select e rs)))
        g
      ∙ step_ok key value r _ d k

  -- The loop, with room for that many more records.
  collect_from_holding :
      (count room bytes : ℕ) (entries : List (Bytes × Bytes)) (records : List T)
      → Hold codec record_key entries records
      → count + room ≡ max_records
      → bytes ≤ max_bytes
      → collect_from codec record_key select count bytes (take (suc room) entries)
        ≡ answer
            (leb (length entries) room && leb (bytes + total_bytes entries) max_bytes)
            (select_from select records)
  unfolding collect_from added
  collect_from_holding count room bytes _ _ hold_none c b = ground arith
  collect_from_holding count zero bytes _ _ (hold_more d k h) c b = ground arith
  collect_from_holding count (suc room) bytes _ _
        (hold_more {key} {value} {entries} {r} {records} d k h) c b =
      elim (Bool-cases (ltb max_bytes (bytes + (length key + length value)))) [
        | inl e ↦ ground (arith, over_over bytes key value e, e)
        | inr e ↦
            (let exact = within_exact bytes key value e in
              collect_within count bytes key value (take (suc room) entries) r d k
                (ground (arith, c, e, exact))
              ∙ ap (λ rest. rest >>= λ rs. ok (keep codec record_key select r rs))
                  (collect_from_holding (count + 1) room (added bytes key value) entries records h
                    (omega (arith, c)) (ground (arith, e, exact)))
              ∙ answer-keep _ r records
              ∙ ap (λ b. answer b (select_from select (r ∷ records))) (ground (arith, exact)))
      ]

answer_if :
    {A : Type 0} (b : Bool) (records : A)
    → answer b records ≡ (if b then ok records else err query_limit)
answer_if true records = refl
answer_if false records = refl

-- A scan of a prefix of at most 64 KiB, of a store whose entries with the prefix hold records under
-- their own keys: it answers with all the records that are selected, in the order of their keys, if
-- there are at most 128 entries with the prefix and their keys and values take at most 1 MiB, and
-- with the error `query_limit` otherwise. It never leaves records out.
pub collect_records_complete :
    {T : Type 0} (codec : Codec T) (record_key : T → Bytes) (M : OrdMap) (prefix : Bytes)
    (select : T → Bool) (s : KvStore M) (records : List T)
    → Hold codec record_key (prefix_scan M prefix s) records
    → length prefix ≤ max_prefix_bytes
    → collect_records codec record_key M prefix select s ≡ (
        if leb (length (prefix_scan M prefix s)) max_records
          && leb (total_bytes (prefix_scan M prefix s)) max_bytes
        then ok (select_from select records)
        else err query_limit)
unfolding collect_records
collect_records_complete codec record_key M prefix select s records h short =
    ap
      (λ b.
        if b
        then err query_limit
        else collect_from codec record_key select 0 0
            (take (max_records + 1) (prefix_scan M prefix s)))
      {y = false} (ground (arith, short))
    ∙ collect_from_holding codec record_key select 0 max_records 0 (prefix_scan M prefix s) records
        h refl (omega arith)
    ∙ ap
        (λ n.
          answer (leb (length (prefix_scan M prefix s)) max_records && leb n max_bytes)
            (select_from select records))
        (omega arith)
    ∙ answer_if _ (select_from select records)
