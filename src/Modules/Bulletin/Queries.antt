-- ===== src/Modules/Bulletin/Queries.antt =====
-- The query handlers of crates/vera-modules/src/bulletin/mod.rs.
use hub_rs.Prelude.{Bool, true, false, List, ltb, length, if◌then◌else◌}
use hub_rs.Text.{codes, is_empty}
use hub_rs.Modules.Results.{Result, ok, err, ◌>>=◌}
use hub_rs.Modules.OrdMap.{Bytes}
use hub_rs.Modules.Bulletin.Keys.{
  namespace_id, namespace_start, post_start, post_prefix, collaborator_prefix,
}
use hub_rs.Modules.Bulletin.Glob.{glob_match}
use hub_rs.Modules.Bulletin.Types.{
  Namespace, Post, Collaborator, BulletinError, namespace_not_found, post_not_found, invalid_glob,
  query_limit, Services,
}
use hub_rs.Modules.Bulletin.Storage.{
  Store, get_namespace, has_namespace, get_post, collect_records, key_of_namespace, key_of_post,
  key_of_collaborator,
}
use hub_rs.Modules.Bulletin.Handlers.{some_or}

abbrev pub require : Bool → BulletinError → Result BulletinError (Unit {0})
require true e = ok tt
require false e = err e

abbrev pub everything : {T : Type 0} → T → Bool
everything x = true

module _ (V : Services) where
  unfoldable pub query_namespace : Bytes → Store V → Result BulletinError Namespace
  unfolding get_namespace
  query_namespace namespace store = do
    found ← get_namespace V (namespace_id namespace) store
    some_or (namespace_not_found namespace) found

  unfoldable pub query_namespaces : Store V → Result BulletinError (List Namespace)
  unfolding collect_records
  query_namespaces store =
      collect_records V.namespaces (key_of_namespace V) V.maps namespace_start everything store

  unfoldable pub query_namespace_collaborators :
      Bytes → Store V → Result BulletinError (List Collaborator)
  unfolding collect_records has_namespace collaborator_prefix
  query_namespace_collaborators namespace store = do
    exists ← has_namespace V (namespace_id namespace) store
    known ← require exists (namespace_not_found namespace)
    collect_records V.collaborators (key_of_collaborator V) V.maps
        (collaborator_prefix (namespace_id namespace)) everything store

  unfoldable pub query_namespace_posts : Bytes → Store V → Result BulletinError (List Post)
  unfolding collect_records has_namespace post_prefix
  query_namespace_posts namespace store = do
    exists ← has_namespace V (namespace_id namespace) store
    known ← require exists (namespace_not_found namespace)
    collect_records V.posts (key_of_post V) V.maps (post_prefix (namespace_id namespace)) everything
        store

  unfoldable pub query_post : Bytes → Bytes → Store V → Result BulletinError Post
  unfolding has_namespace get_post
  query_post namespace id store = do
    exists ← has_namespace V (namespace_id namespace) store
    known ← require exists (namespace_not_found namespace)
    found ← get_post V (namespace_id namespace) id store
    some_or (post_not_found namespace id) found

  unfoldable pub query_posts : Store V → Result BulletinError (List Post)
  unfolding collect_records
  query_posts store = collect_records V.posts (key_of_post V) V.maps post_start everything store

  unfoldable pub query_iterate_glob : Bytes → Bytes → Store V → Result BulletinError (List Post)
  unfolding collect_records post_prefix glob_match
  query_iterate_glob namespace glob store =
      if is_empty namespace
      then err (invalid_glob (codes "empty namespace"))
      else (if ltb 4096 (length glob)
          then err query_limit
          else collect_records V.posts (key_of_post V) V.maps (post_prefix (namespace_id namespace))
              (λ post. glob_match glob post.id) store)
