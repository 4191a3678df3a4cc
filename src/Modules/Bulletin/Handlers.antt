-- ===== src/Modules/Bulletin/Handlers.antt =====
-- The message and query handlers of crates/vera-modules/src/bulletin/mod.rs. A handler reads and
-- writes the module's store and the access control module; what it wrote before an error stays.
use hub_rs.Prelude.{
  ℕ, ◌*◌, Bool, true, false, not, Option, none, some, [], ◌∷◌, ltb, length, if◌then◌else◌,
}
use hub_rs.Identity
use hub_rs.Identity.{Did}
use hub_rs.Text.{codes, is_empty}
use hub_rs.Zanzibar.Relationship.{Relationship}
use hub_rs.Zanzibar.Subject.{entity}
use hub_rs.Modules.Results.{Result, ok, err}
use hub_rs.Modules.OrdMap.{Bytes}
use hub_rs.Modules.Bulletin.Keys.{namespace_id}
use hub_rs.Modules.Bulletin.Types.{
  Timestamp, Namespace, Post, BulletinError, invalid_namespace, post_payload_too_large,
  namespace_not_found, namespace_already_exists, post_already_exists, not_collaborator,
  collaborator_already_exists, collaborator_not_found, invalid_post_payload, policy_not_initialized,
  policy_init_failed, unauthorized, state, Object, AccessRequest, PolicyCmd, set_relationship,
  delete_relationship, register_object, Services,
}
use hub_rs.Modules.Bulletin.Storage.{
  Store, get_policy_id, set_policy_id, set_namespace, has_namespace, set_collaborator,
  get_collaborator, delete_collaborator, set_post, get_post, generate_post_id, is_found,
}

-- `BULLETIN_POLICY_YAML`.
abbrev pub bulletin_policy_yaml : Bytes
bulletin_policy_yaml =
    codes
      "name: bulletin-module-policy\nresources:\n  - name: namespace\n    relations:\n      - name: owner\n      - name: collaborator\n    permissions:\n      - name: create_post\n        expr: owner + collaborator\n"

abbrev pub module_did : Bytes
module_did = codes "did:key:bulletin"

abbrev pub max_post_payload_bytes : ℕ
max_post_payload_bytes = 64 * 1024

abbrev pub validate_namespace : Bytes → Result BulletinError (Unit {0})
validate_namespace namespace = if is_empty namespace then err invalid_namespace else ok tt

abbrev pub parse_did : BulletinError → Bytes → Result BulletinError Did
parse_did e did = elim (Identity.new did) [ Identity.ok d ↦ ok d | Identity.err f ↦ err e ]

abbrev pub some_or : {A : Type 0} → BulletinError → Option A → Result BulletinError A
some_or e none = err e
some_or e (some a) = ok a

module _ (V : Services) where
  -- The module and the access control module.
  pub record Site : Type 0 where
    pub store : Store V
    pub acp : V.acp.State

  abbrev pub Method : Type 0 → Type 0
  Method A = Site → Result BulletinError A × Site

  abbrev pub pure : {A : Type 0} → A → Method A
  pure a s = (ok a, s)

  -- A result that needs no writes, with the operator `?`.
  abbrev pub try_read : {A : Type 0} → (Site → Result BulletinError A) → Method A
  try_read read s = (read s, s)

  abbrev pub continue :
      {A B : Type 0}
      → Result BulletinError A × Site
      → (A → Method B)
      → Result BulletinError B × Site
  continue (err e, s) rest = (err e, s)
  continue (ok a, s) rest = rest a s

  infixl 5 ◌>>=◌
  unfoldable pub ◌>>=◌ : {A B : Type 0} → Method A → (A → Method B) → Method B
  (first >>= rest) s = continue (first s) rest

  abbrev pub fail_if : Bool → BulletinError → Method (Unit {0})
  fail_if true e s = (err e, s)
  fail_if false e s = (ok tt, s)

  abbrev pub write : (Store V → Store V) → Method (Unit {0})
  write change s = (ok tt, record { store = change s.store; acp = s.acp })

  abbrev pub command_answer : BulletinError → Bool → Result BulletinError (Unit {0})
  command_answer e true = ok tt
  command_answer e false = err e

  abbrev pub direct_policy_cmd : BulletinError → Did → Bytes → PolicyCmd → Method (Unit {0})
  direct_policy_cmd e creator policy_id cmd s =
      let (done, acp) = V.acp.direct_policy_cmd creator policy_id cmd s.acp in
      (command_answer e done, record { store = s.store; acp = acp })

  abbrev pub create_policy : Did → Method Bytes
  create_policy creator s =
      let (created, acp) = V.acp.create_policy creator bulletin_policy_yaml s.acp in
      (some_or policy_init_failed created, record { store = s.store; acp = acp })

  abbrev pub init_policy : Option Bytes → Method Bytes
  init_policy (some policy_id) = pure policy_id
  init_policy none = do
    creator ← try_read (λ s. parse_did policy_init_failed module_did)
    policy_id ← create_policy creator
    stored ← write (set_policy_id V policy_id)
    pure policy_id

  unfoldable pub ensure_policy : Method Bytes
  unfolding get_policy_id
  ensure_policy = do found ← try_read (λ s. get_policy_id V s.store); init_policy found

  abbrev pub namespace_object : Bytes → Object
  namespace_object id = record { resource = codes "namespace"; id = id }

  abbrev pub new_namespace : Bytes → Bytes → Did → Timestamp → Namespace
  new_namespace id signer creator timestamp = record {
    id = id;
    creator = signer;
    owner_did = creator.as_str;
    created_at = timestamp;
  }

  unfoldable pub register_namespace : Timestamp → Bytes → Did → Bytes → Method Namespace
  unfolding ensure_policy has_namespace set_namespace
  register_namespace timestamp signer creator namespace = do
    valid ← try_read (λ s. validate_namespace namespace)
    policy_id ← ensure_policy
    exists ← try_read (λ s. has_namespace V (namespace_id namespace) s.store)
    fresh ← fail_if exists (namespace_already_exists namespace)
    registered ←
        direct_policy_cmd policy_init_failed creator policy_id
          (register_object (namespace_object (namespace_id namespace)))
    let ns = new_namespace (namespace_id namespace) signer creator timestamp
    stored ← write (set_namespace V ns)
    pure ns

  -- The policy identifier and the namespace, which the handlers of posts and collaborators need.
  abbrev pub require_policy : Method Bytes
  require_policy = do
    found ← try_read (λ s. get_policy_id V s.store)
    try_read (λ s. some_or policy_not_initialized found)

  abbrev pub require_namespace : Bytes → Method (Unit {0})
  require_namespace namespace = do
    exists ← try_read (λ s. has_namespace V (namespace_id namespace) s.store)
    fail_if (not exists) (namespace_not_found namespace)

  abbrev pub post_request : Bytes → Did → AccessRequest
  post_request id creator = record {
    operations = record { object = namespace_object id; permission = codes "create_post" } ∷ [];
    actor = creator;
  }

  abbrev pub new_post : Bytes → Did → Bytes → Bytes → Post
  new_post namespace creator payload proof = record {
    id = generate_post_id V namespace payload;
    namespace = namespace;
    creator_did = creator.as_str;
    payload = payload;
    proof = proof;
  }

  unfoldable pub create_post : Did → Bytes → Bytes → Bytes → Method Bytes
  unfolding get_policy_id has_namespace get_post set_post
  create_post creator namespace payload proof = do
    valid ← try_read (λ s. validate_namespace namespace)
    policy_id ← require_policy
    known ← require_namespace namespace
    small ←
        fail_if (ltb max_post_payload_bytes (length payload))
          (post_payload_too_large max_post_payload_bytes)
    full ← fail_if (is_empty payload) invalid_post_payload
    allowed ← try_read (λ s. some_or state (
        V.acp.query_verify_access_request policy_id (post_request (namespace_id namespace) creator)
          s.acp))
    permitted ← fail_if (not allowed) (not_collaborator namespace)
    let post = new_post (namespace_id namespace) creator payload proof
    existing ← try_read (λ s. get_post V (namespace_id namespace) post.id s.store)
    fresh ← fail_if (is_found V existing) (post_already_exists namespace post.id)
    stored ← write (set_post V post)
    pure post.id

  abbrev pub collaborator_relationship : Bytes → Did → Relationship
  collaborator_relationship id did = record {
    resource = codes "namespace";
    object_id = id;
    relation = codes "collaborator";
    subject = entity did;
  }

  unfoldable pub add_collaborator : Did → Bytes → Bytes → Method Bytes
  unfolding get_policy_id has_namespace get_collaborator set_collaborator
  add_collaborator creator namespace collaborator_did = do
    valid ← try_read (λ s. validate_namespace namespace)
    policy_id ← require_policy
    known ← require_namespace namespace
    existing ← try_read (λ s. get_collaborator V (namespace_id namespace) collaborator_did s.store)
    fresh ← fail_if (is_found V existing) (collaborator_already_exists namespace collaborator_did)
    did ← try_read (λ s. parse_did state collaborator_did)
    related ←
        direct_policy_cmd unauthorized creator policy_id
          (set_relationship (collaborator_relationship (namespace_id namespace) did))
    stored ←
        write (
          set_collaborator V
            (record { did = collaborator_did; namespace = namespace_id namespace }))
    pure collaborator_did

  unfoldable pub remove_collaborator : Did → Bytes → Bytes → Method Bytes
  unfolding get_policy_id has_namespace get_collaborator delete_collaborator
  remove_collaborator creator namespace collaborator_did = do
    valid ← try_read (λ s. validate_namespace namespace)
    policy_id ← require_policy
    known ← require_namespace namespace
    existing ← try_read (λ s. get_collaborator V (namespace_id namespace) collaborator_did s.store)
    present ←
        fail_if (not (is_found V existing)) (collaborator_not_found namespace collaborator_did)
    did ← try_read (λ s. parse_did state collaborator_did)
    unrelated ←
        direct_policy_cmd unauthorized creator policy_id
          (delete_relationship (collaborator_relationship (namespace_id namespace) did))
    removed ← write (delete_collaborator V (namespace_id namespace) collaborator_did)
    pure collaborator_did
