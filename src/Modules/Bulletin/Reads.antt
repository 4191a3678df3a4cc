-- ===== src/Modules/Bulletin/Reads.antt =====
-- Reads of the bulletin's store after a post is written.
use hub_rs.Prelude.{
  some, ◌≡◌, ◌≢◌, refl, ap, ◌∙◌, arith, if◌then◌else◌, nat_eq, list_eq, list_beq_iff, beq_refl,
}
use hub_rs.Modules.Results.{ok, ◌>>=◌}
use hub_rs.Modules.OrdMap.{Bytes}
use hub_rs.Modules.KvStore.{get_ref}
use hub_rs.Modules.Bulletin.Keys.{post_key, namespace_key, policy_id_key}
use hub_rs.Modules.Bulletin.Types.{Post, Services}
use hub_rs.Modules.Bulletin.Storage.{
  Store, has_namespace, get_namespace, get_record, get_post, set_post, is_found, key_of_post,
  read_record, key_of_namespace,
}
use hub_rs.Modules.Bulletin.Keyed.{read_found}

post_not_namespace : (a b c : Bytes) → post_key a b ≢ namespace_key c
unfolding post_key namespace_key
post_not_namespace a b c h = absurd (ground arith)

pub post_not_policy : (a b : Bytes) → post_key a b ≢ policy_id_key
unfolding post_key
post_not_policy a b h = absurd (ground arith)

module _ (V : Services) where
  pub read_elsewhere :
      (key : Bytes) (p : Post) (store : Store V)
      → key_of_post V p ≢ key
      → get_ref V.maps key (set_post V p store) ≡ get_ref V.maps key store
  unfolding set_post
  read_elsewhere key p store h = ground (
    arith,
    V.maps.lookup-insert (key_of_post V p) key (V.posts.to_vec p) store.tree,
    list_beq_iff (key_of_post V p) key,
    h,
  )

  written :
      (p : Post) (store : Store V)
      → get_ref V.maps (key_of_post V p) (set_post V p store) ≡ some (V.posts.to_vec p)
  unfolding set_post
  written p store =
      V.maps.lookup-insert (key_of_post V p) (key_of_post V p) (V.posts.to_vec p) store.tree
      ∙ ap (λ b. if b then some (V.posts.to_vec p) else V.maps.lookup (key_of_post V p) store.tree)
          (beq_refl (key_of_post V p))

  pub namespace_elsewhere :
      (id : Bytes) (p : Post) (store : Store V)
      → has_namespace V id (set_post V p store) ≡ has_namespace V id store
  unfolding has_namespace get_namespace get_record
  namespace_elsewhere id p store =
      ap
        (λ o. read_record V.namespaces (key_of_namespace V) (namespace_key id) o >>= λ found.
          ok (is_found V found))
        (read_elsewhere (namespace_key id) p store (post_not_namespace p.namespace p.id id))

  pub post_found :
      (p : Post) (store : Store V) → get_post V p.namespace p.id (set_post V p store) ≡ ok (some p)
  unfolding get_post get_record set_post
  post_found p store =
      ap (read_record V.posts (key_of_post V) (key_of_post V p)) (written p store)
      ∙ read_found V.posts (key_of_post V) V.maps (key_of_post V p) (V.posts.to_vec p) p
          (V.posts.from_slice-to_vec p) refl
