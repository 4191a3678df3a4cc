-- ===== src/Modules/Bulletin/Storage.antt =====
-- The storage methods of crates/vera-modules/src/bulletin: storage.rs, collections.rs and the last
-- part of mod.rs.
use hub_rs.Prelude.{
  ℕ, ◌+◌, ◌-◌, ◌*◌, ◌^◌, Bool, true, false, not, Option, none, some, List, [], ◌∷◌, ◌++◌, ◌==◌,
  nat_eq, list_eq, ltb, ◌||◌, length, if◌then◌else◌,
}
use hub_rs.Text.{is_empty}
use hub_rs.Mempool.{take}
use hub_rs.Modules.Results.{Result, ok, err, ◌>>=◌}
use hub_rs.Modules.OrdMap.{Bytes, OrdMap}
use hub_rs.Modules.KvStore.{KvStore, get_ref, put, delete, prefix_scan}
use hub_rs.Modules.Bulletin.Keys.{
  params_key, namespace_start, post_start, collaborator_start, policy_id_key, namespace_key,
  post_key, collaborator_key,
}
use hub_rs.Modules.Bulletin.Types.{
  Namespace, Post, Collaborator, BulletinError, state, query_limit, Codec, Services,
}

abbrev pub max_records : ℕ
max_records = 128

abbrev pub max_bytes : ℕ
max_bytes = 2 ^ 20

abbrev pub max_prefix_bytes : ℕ
max_prefix_bytes = 64 * 2 ^ 10

abbrev pub saturating_add : ℕ → ℕ → ℕ
saturating_add a b = if ltb (a + b) (2 ^ 64) then a + b else 2 ^ 64 - 1

abbrev pub decoded : {T : Type 0} → Option T → Result BulletinError T
decoded none = err state
decoded (some entry) = ok entry

-- `key != record_key(&entry)`.
abbrev pub check_key : Bytes → Bytes → Result BulletinError (Unit {0})
check_key key expected = if not (expected == key) then err state else ok tt

module _ {T : Type 0} (codec : Codec T) (record_key : T → Bytes) where
  abbrev pub read_record : Bytes → Option Bytes → Result BulletinError (Option T)
  read_record key none = ok none
  read_record key (some bytes) = do
    entry ← decoded (codec.from_slice bytes)
    checked ← check_key key (record_key entry)
    ok (some entry)

  unfoldable pub get_record : (M : OrdMap) → Bytes → KvStore M → Result BulletinError (Option T)
  get_record M key store = read_record key (get_ref M key store)

  abbrev pub keep : (T → Bool) → T → List T → List T
  keep select entry records = if select entry then entry ∷ records else records

  -- The loop of `collect_records`, from its `count` and `bytes` on.
  unfoldable pub collect_from :
      (T → Bool) → ℕ → ℕ → List (Bytes × Bytes) → Result BulletinError (List T)
  collect_from select count bytes [] = ok []
  collect_from select count bytes ((key, value) ∷ entries) =
      let total = saturating_add (saturating_add bytes (length key)) (length value) in
      let rest = collect_from select (count + 1) total entries in
      if count == max_records || ltb max_bytes total then err query_limit else do
        entry ← decoded (codec.from_slice value)
        checked ← check_key key (record_key entry)
        records ← rest
        ok (keep select entry records)

  unfoldable pub collect_records :
      (M : OrdMap) → Bytes → (T → Bool) → KvStore M → Result BulletinError (List T)
  unfolding prefix_scan collect_from
  collect_records M prefix select store =
      if ltb max_prefix_bytes (length prefix)
      then err query_limit
      else collect_from select 0 0 (take (max_records + 1) (prefix_scan M prefix store))

module _ (V : Services) where
  abbrev pub Store : Type 0
  Store = KvStore V.maps

  abbrev pub read_policy_id : Option Bytes → Result BulletinError (Option Bytes)
  read_policy_id none = ok none
  read_policy_id (some bytes) =
      if not (V.is_utf8 bytes)
      then err state
      else (if is_empty bytes then err state else ok (some bytes))

  unfoldable pub get_policy_id : Store → Result BulletinError (Option Bytes)
  get_policy_id store = read_policy_id (get_ref V.maps policy_id_key store)

  abbrev pub set_policy_id : Bytes → Store → Store
  set_policy_id policy_id store = put V.maps policy_id_key policy_id store

  abbrev pub key_of_namespace : Namespace → Bytes
  key_of_namespace n = namespace_key n.id

  abbrev pub key_of_post : Post → Bytes
  key_of_post p = post_key p.namespace p.id

  abbrev pub key_of_collaborator : Collaborator → Bytes
  key_of_collaborator c = collaborator_key c.namespace c.did

  unfoldable pub set_namespace : Namespace → Store → Store
  unfolding namespace_key
  set_namespace n store = put V.maps (key_of_namespace n) (V.namespaces.to_vec n) store

  unfoldable pub get_namespace : Bytes → Store → Result BulletinError (Option Namespace)
  unfolding get_record
  get_namespace namespace_id store =
      get_record V.namespaces key_of_namespace V.maps (namespace_key namespace_id) store

  abbrev pub is_found : {T : Type 0} → Option T → Bool
  is_found none = false
  is_found (some entry) = true

  unfoldable pub has_namespace : Bytes → Store → Result BulletinError Bool
  unfolding get_namespace
  has_namespace namespace_id store = do
    found ← get_namespace namespace_id store
    ok (is_found found)

  unfoldable pub set_collaborator : Collaborator → Store → Store
  set_collaborator c store = put V.maps (key_of_collaborator c) (V.collaborators.to_vec c) store

  unfoldable pub get_collaborator :
      Bytes → Bytes → Store → Result BulletinError (Option Collaborator)
  get_collaborator namespace_id did store =
      get_record V.collaborators key_of_collaborator V.maps (collaborator_key namespace_id did)
        store

  unfoldable pub delete_collaborator : Bytes → Bytes → Store → Store
  delete_collaborator namespace_id did store =
      delete V.maps (collaborator_key namespace_id did) store

  unfoldable pub set_post : Post → Store → Store
  set_post p store = put V.maps (key_of_post p) (V.posts.to_vec p) store

  unfoldable pub get_post : Bytes → Bytes → Store → Result BulletinError (Option Post)
  get_post namespace_id post_id store =
      get_record V.posts key_of_post V.maps (post_key namespace_id post_id) store

  abbrev pub generate_post_id : Bytes → Bytes → Bytes
  generate_post_id namespace_id payload = V.sha256_hex (namespace_id ++ payload)

  abbrev pub read_params : Option Bytes → Result BulletinError (Unit {0})
  read_params none = ok tt
  read_params (some bytes) = if V.is_params bytes then ok tt else err state

  unfoldable pub get_params : Store → Result BulletinError (Unit {0})
  get_params store = read_params (get_ref V.maps params_key store)

  -- The loop of `validate_storage_keys` over one prefix.
  unfoldable pub validate_entries :
      {T : Type 0} → Codec T → (T → Bytes) → List (Bytes × Bytes) → Result BulletinError (Unit {0})
  validate_entries codec record_key [] = ok tt
  validate_entries codec record_key ((key, value) ∷ entries) =
      let rest = validate_entries codec record_key entries in
      decoded (codec.from_slice value) >>= λ entry.
      check_key key (record_key entry) >>= λ checked. rest

  unfoldable pub validate_storage_keys : Store → Result BulletinError (Unit {0})
  unfolding validate_entries prefix_scan get_policy_id get_params
  validate_storage_keys store = do
    namespaces ←
        validate_entries V.namespaces key_of_namespace (prefix_scan V.maps namespace_start store)
    posts ← validate_entries V.posts key_of_post (prefix_scan V.maps post_start store)
    collaborators ←
        validate_entries V.collaborators key_of_collaborator
          (prefix_scan V.maps collaborator_start store)
    policy_id ← get_policy_id store
    params ← get_params store
    ok tt
