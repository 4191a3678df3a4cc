-- ===== src/Modules/Bulletin/Answers.antt =====
-- What the bulletin answers after a run of messages.
use hub_rs.Prelude.{
  ◌≤◌, true, false, Option, List, [], ◌∷◌, append_assoc, ◌≡◌, sym, ap, ◌∙◌, subst, arith,
  if◌then◌else◌, leb, ltb, ◌&&◌, length,
}
use hub_rs.Identity.{Did}
use hub_rs.Text.{codes, starts_with, starts_with-append, starts_with_split, is_empty}
use hub_rs.Modules.Results.{ok, err}
use hub_rs.Modules.OrdMap.{Bytes}
use hub_rs.Modules.KvStore.{empty_store, prefix_scan}
use hub_rs.Modules.Bulletin.Keys.{
  namespace_id, post_start, namespace_start, collaborator_start, post_key, namespace_key,
  collaborator_key, post_prefix,
}
use hub_rs.Modules.Bulletin.Glob.{glob_match}
use hub_rs.Modules.Bulletin.Types.{
  Timestamp, Namespace, Post, Collaborator, Services, query_limit, invalid_glob,
}
use hub_rs.Modules.Bulletin.Storage.{
  get_post, get_namespace, get_collaborator, key_of_namespace, key_of_post, key_of_collaborator,
  collect_records, max_records, max_bytes, max_prefix_bytes,
}
use hub_rs.Modules.Bulletin.Collect.{Hold, total_bytes, select_from, collect_records_complete}
use hub_rs.Modules.Bulletin.Handlers.{
  Site, register_namespace, create_post, add_collaborator, remove_collaborator,
}
use hub_rs.Modules.Bulletin.Queries.{query_iterate_glob}
use hub_rs.Modules.Bulletin.Keyed.{get_record-IsKeyed, prefix_scan-IsKeyed}
use hub_rs.Modules.Bulletin.Keeps.{
  IsWellKeyed, empty-IsWellKeyed, register_namespace-Keeps, create_post-Keeps,
  add_collaborator-Keeps, remove_collaborator-Keeps,
}

pub data Message : Type 0 where
  register : Timestamp → Bytes → Did → Bytes → Message
  post : Did → Bytes → Bytes → Bytes → Message
  add : Did → Bytes → Bytes → Message
  drop_out : Did → Bytes → Bytes → Message

module _ (V : Services) where
  -- The state after the messages, those that fail included.
  unfoldable pub run_messages : List Message → Site V → Site V
  run_messages [] s = s
  run_messages (register timestamp signer creator namespace ∷ ms) s =
      run_messages ms (register_namespace V timestamp signer creator namespace s).1
  run_messages (post creator namespace payload proof ∷ ms) s =
      run_messages ms (create_post V creator namespace payload proof s).1
  run_messages (add creator namespace did ∷ ms) s =
      run_messages ms (add_collaborator V creator namespace did s).1
  run_messages (drop_out creator namespace did ∷ ms) s =
      run_messages ms (remove_collaborator V creator namespace did s).1

  -- A new module, beside an access control module in any state.
  abbrev pub new_site : V.acp.State → Site V
  new_site acp = record { store = empty_store V.maps; acp = acp }

  pub run_messages-IsWellKeyed :
      (ms : List Message) (s : Site V)
      → IsWellKeyed V s.store
      → IsWellKeyed V (run_messages ms s).store
  unfolding run_messages
  run_messages-IsWellKeyed [] s w = w
  run_messages-IsWellKeyed (register timestamp signer creator namespace ∷ ms) s w =
      run_messages-IsWellKeyed ms _
        (register_namespace-Keeps V timestamp signer creator namespace s w)
  run_messages-IsWellKeyed (post creator namespace payload proof ∷ ms) s w =
      run_messages-IsWellKeyed ms _ (create_post-Keeps V creator namespace payload proof s w)
  run_messages-IsWellKeyed (add creator namespace did ∷ ms) s w =
      run_messages-IsWellKeyed ms _ (add_collaborator-Keeps V creator namespace did s w)
  run_messages-IsWellKeyed (drop_out creator namespace did ∷ ms) s w =
      run_messages-IsWellKeyed ms _ (remove_collaborator-Keeps V creator namespace did s w)

post_key-starts : (a b : Bytes) → starts_with post_start (post_key a b) ≡ true
unfolding post_key
post_key-starts a b = starts_with-append post_start _

collaborator_key-starts :
    (a b : Bytes) → starts_with collaborator_start (collaborator_key a b) ≡ true
unfolding collaborator_key
collaborator_key-starts a b = starts_with-append collaborator_start _

namespace_key-starts : (a : Bytes) → starts_with namespace_start (namespace_key a) ≡ true
unfolding namespace_key
namespace_key-starts a = starts_with-append namespace_start a

post_prefix-starts :
    (a key : Bytes) → starts_with (post_prefix a) key ≡ true → starts_with post_start key ≡ true
unfolding post_prefix
post_prefix-starts a key h =
    let (r, e) = starts_with_split (post_prefix a) key h in
    subst (λ x. starts_with post_start x ≡ true) (sym (e ∙ append_assoc post_start _ r))
      (starts_with-append post_start _)

-- After any messages to a new module, failed ones included, beside whatever access control module:
-- the read of a namespace, of a post and of a collaborator finds a record or none, and never the
-- error of a malformed or misplaced record.
pub point_reads_answer :
    (V : Services) (acp : V.acp.State) (ms : List Message) (id part : Bytes)
    → let store = (run_messages V ms (new_site V acp)).store in
      ((found : Option Namespace) × (get_namespace V id store ≡ ok found))
      × ((found : Option Post) × (get_post V id part store ≡ ok found))
      × ((found : Option Collaborator) × (get_collaborator V id part store ≡ ok found))
unfolding get_namespace get_post get_collaborator
point_reads_answer V acp ms id part =
    let w = run_messages-IsWellKeyed V ms (new_site V acp) (empty-IsWellKeyed V) in
    (
      get_record-IsKeyed V.namespaces (key_of_namespace V) V.maps namespace_start (namespace_key id)
          _ w.namespaces (namespace_key-starts id),
      get_record-IsKeyed V.posts (key_of_post V) V.maps post_start (post_key id part) _ w.posts
          (post_key-starts id part),
      get_record-IsKeyed V.collaborators (key_of_collaborator V) V.maps collaborator_start
          (collaborator_key id part) _ w.collaborators (collaborator_key-starts id part),
    )

-- After any messages to a new module, for a namespace that is not empty and whose key prefix is of at
-- most 64 KiB, and a glob of at most 4096 bytes: the entries under the namespace's prefix hold posts,
-- each under its own key, and the query answers with those of them whose identifier the glob matches, in
-- the order of their keys, if there are at most 128 entries of at most 1 MiB in all; else it answers
-- with the error `query_limit`.
pub query_iterate_glob_complete :
    (V : Services) (acp : V.acp.State) (ms : List Message) (namespace glob : Bytes)
    → is_empty namespace ≡ false
    → length (post_prefix (namespace_id namespace)) ≤ max_prefix_bytes
    → length glob ≤ 4096
    → let store = (run_messages V ms (new_site V acp)).store in
      let entries = prefix_scan V.maps (post_prefix (namespace_id namespace)) store in
      (posts : List Post) × Hold V.posts (key_of_post V) entries posts
      × (query_iterate_glob V namespace glob store ≡ (
          if leb (length entries) max_records && leb (total_bytes entries) max_bytes
          then ok (select_from (λ p. glob_match glob p.id) posts)
          else err query_limit))
unfolding query_iterate_glob
query_iterate_glob_complete V acp ms namespace glob some_name short small =
    let store = (run_messages V ms (new_site V acp)).store in
    let prefix = post_prefix (namespace_id namespace) in
    let w = run_messages-IsWellKeyed V ms (new_site V acp) (empty-IsWellKeyed V) in
    let (posts, holds) =
      prefix_scan-IsKeyed V.posts (key_of_post V) V.maps post_start prefix store w.posts
        (post_prefix-starts (namespace_id namespace)) in
    (
      posts,
      holds,
      ap
            (λ b.
              if b
              then err (invalid_glob (codes "empty namespace"))
              else (if ltb 4096 (length glob)
                  then err query_limit
                  else collect_records V.posts (key_of_post V) V.maps prefix
                      (λ p. glob_match glob p.id) store))
            some_name
          ∙ ap
              (λ b.
                if b
                then err query_limit
                else collect_records V.posts (key_of_post V) V.maps prefix
                    (λ p. glob_match glob p.id) store)
              {y = false} (ground (arith, small))
          ∙ collect_records_complete V.posts (key_of_post V) V.maps prefix
              (λ p. glob_match glob p.id) store posts holds short,
    )
