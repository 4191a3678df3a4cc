-- ===== src/Modules/Bulletin/Types.antt =====
-- crates/vera-modules/src/bulletin/types.rs and error.rs, and what the module asks of others: the
-- access control module (crates/vera-modules/src/acp) and the libraries' codecs and hash.
use hub_rs.Prelude.{ℕ, Bool, Option, some, List, ◌≡◌}
use hub_rs.Identity.{Did}
use hub_rs.Zanzibar.Relationship.{Relationship}
use hub_rs.Modules.OrdMap.{Bytes, OrdMap}

pub record Timestamp : Type 0 where
  pub seconds : ℕ
  pub block_height : ℕ

pub record Namespace : Type 0 where
  pub id : Bytes
  pub creator : Bytes
  pub owner_did : Bytes
  pub created_at : Timestamp

pub record Post : Type 0 where
  pub id : Bytes
  pub namespace : Bytes
  pub creator_did : Bytes
  pub payload : Bytes
  pub proof : Bytes

pub record Collaborator : Type 0 where
  pub did : Bytes
  pub namespace : Bytes

-- `state` and `unauthorized` leave their messages out.
pub data BulletinError : Type 0 where
  invalid_namespace : BulletinError
  post_payload_too_large : ℕ → BulletinError
  namespace_not_found : Bytes → BulletinError
  namespace_already_exists : Bytes → BulletinError
  post_not_found : Bytes → Bytes → BulletinError
  post_already_exists : Bytes → Bytes → BulletinError
  not_collaborator : Bytes → BulletinError
  collaborator_already_exists : Bytes → Bytes → BulletinError
  collaborator_not_found : Bytes → Bytes → BulletinError
  invalid_post_payload : BulletinError
  policy_not_initialized : BulletinError
  policy_init_failed : BulletinError
  unauthorized : BulletinError
  invalid_glob : Bytes → BulletinError
  query_limit : BulletinError
  state : BulletinError

pub record Object : Type 0 where
  pub resource : Bytes
  pub id : Bytes

pub record Operation : Type 0 where
  pub object : Object
  pub permission : Bytes

pub record AccessRequest : Type 0 where
  pub operations : List Operation
  pub actor : Did

-- The commands that the bulletin sends.
pub data PolicyCmd : Type 0 where
  set_relationship : Relationship → PolicyCmd
  delete_relationship : Relationship → PolicyCmd
  register_object : Object → PolicyCmd

-- The access control module: its state, and the methods that the bulletin calls. A failure is an
-- error without its message.
pub record Acp : Type 1 where
  pub State : Type 0
  -- The identifier of the new policy.
  pub create_policy : Did → Bytes → State → Option Bytes × State
  pub direct_policy_cmd : Did → Bytes → PolicyCmd → State → Bool × State
  pub query_verify_access_request : Bytes → AccessRequest → State → Option Bool

-- A derived codec: what is written is read back.
pub record Codec (T : Type 0) : Type 0 where
  pub to_vec : T → Bytes
  pub from_slice : Bytes → Option T
  pub from_slice-to_vec : (x : T) → from_slice (to_vec x) ≡ some x

pub record Services : Type 1 where
  pub maps : OrdMap
  pub acp : Acp
  pub namespaces : Codec Namespace
  pub posts : Codec Post
  pub collaborators : Codec Collaborator
  -- `hex::encode` of SHA-256.
  pub sha256_hex : Bytes → Bytes
  -- Whether `str::from_utf8` accepts the bytes.
  pub is_utf8 : Bytes → Bool
  -- Whether the stored parameters, which are empty, decode.
  pub is_params : Bytes → Bool
