-- ===== src/Modules/Bulletin/Posts.antt =====
-- A post that is accepted, and the reads and posts after it.
use hub_rs.Prelude.{true, some, ◌≡◌, ◌≢◌, refl, ap, ◌∙◌, list_eq}
use hub_rs.Identity.{Did}
use hub_rs.Modules.Results.{ok, err}
use hub_rs.Modules.OrdMap.{Bytes}
use hub_rs.Modules.KvStore.{get_ref}
use hub_rs.Modules.Bulletin.Keys.{namespace_id, post_key, policy_id_key}
use hub_rs.Modules.Bulletin.Types.{Post, Services, post_already_exists}
use hub_rs.Modules.Bulletin.Storage.{
  Store, get_policy_id, has_namespace, get_post, set_post, read_policy_id,
}
use hub_rs.Modules.Bulletin.Queries.{query_post}
use hub_rs.Modules.Bulletin.Reads.{read_elsewhere, namespace_elsewhere, post_found, post_not_policy}
use hub_rs.Modules.Bulletin.Handlers.{Site, create_post, new_post}
use hub_rs.Modules.Bulletin.Accepted.{
  IsAccepted, accepted_finishes, accepts_inverse, accepted, finish,
}

module _ (V : Services) where
  still-IsAccepted :
      (creator : Did) (namespace payload proof again : Bytes) (p : Post) (s : Site V)
      → IsAccepted V creator namespace payload proof s
      → IsAccepted V creator namespace payload again
          (record { store = set_post V p s.store; acp = s.acp })
  unfolding get_policy_id
  still-IsAccepted creator namespace payload proof again p s i = record {
    named = i.named;
    policy_id = i.policy_id;
    policy =
        ap (read_policy_id V)
          (read_elsewhere V policy_id_key p s.store (post_not_policy p.namespace p.id))
        ∙ i.policy;
    known = namespace_elsewhere V (namespace_id namespace) p s.store ∙ i.known;
    small = i.small;
    full = i.full;
    allowed = i.allowed;
  }

query_finds :
    (V : Services) (namespace : Bytes) (p : Post) (store : Store V)
    → has_namespace V (namespace_id namespace) store ≡ ok true
    → get_post V (namespace_id namespace) p.id store ≡ ok (some p)
    → query_post V namespace p.id store ≡ ok p
unfolding query_post
query_finds V namespace p store known found = rw (known, found) refl

-- When a post is accepted: it is in the store under its identifier, with its namespace, author,
-- payload and proof, and the query for it answers with it; what the store has under other keys, and
-- the access control module, are as before; and the same author posting the same payload to the
-- namespace again, with whatever proof, is refused for the post that exists, and nothing changes.
pub accepted_post_stays :
    (V : Services) (creator : Did) (namespace payload proof id : Bytes) (s : Site V)
    → (create_post V creator namespace payload proof s).0 ≡ ok id
    → let s' = (create_post V creator namespace payload proof s).1 in
      (query_post V namespace id s'.store
        ≡ ok (record {
          id = id;
          namespace = namespace_id namespace;
          creator_did = creator.as_str;
          payload = payload;
          proof = proof;
        }))
      × ((key : Bytes)
          → post_key (namespace_id namespace) id ≢ key
          → get_ref V.maps key s'.store ≡ get_ref V.maps key s.store)
      × (s'.acp ≡ s.acp)
      × ((again : Bytes)
          → create_post V creator namespace payload again s'
            ≡ (err (post_already_exists namespace id), s'))
accepted_post_stays V creator namespace payload proof id s h =
    let (e, f) = accepted V creator namespace payload proof id s h in
    let i = accepts_inverse V creator namespace payload proof id s h in
    let p = new_post V (namespace_id namespace) creator payload proof in
    let s' : Site V = record { store = set_post V p s.store; acp = s.acp } in
    rw (f, e)
      (
        query_finds V namespace p s'.store
            (namespace_elsewhere V (namespace_id namespace) p s.store ∙ i.known)
            (post_found V p s.store),
        (λ key n. read_elsewhere V key p s.store n),
        refl,
        λ again.
            accepted_finishes V creator namespace payload again s'
              (still-IsAccepted V creator namespace payload proof again p s i)
            ∙ ap
                (λ r.
                  finish V namespace (new_post V (namespace_id namespace) creator payload again) r
                    s')
                (post_found V p s.store),
      )
