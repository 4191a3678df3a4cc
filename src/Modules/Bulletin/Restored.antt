-- ===== src/Modules/Bulletin/Restored.antt =====
-- `validate_storage_keys` of crates/vera-modules/src/bulletin/storage.rs, which restored state goes
-- through, on the stores that messages leave.
use hub_rs.Prelude.{not, List, ◌≡◌, refl, ap, ◌∙◌, if◌then◌else◌, nat_eq, list_beq_iff, list_eq}
use hub_rs.Modules.Results.{ok, err, ◌>>=◌}
use hub_rs.Modules.OrdMap.{Bytes}
use hub_rs.Modules.Bulletin.Keys.{namespace_start, post_start, collaborator_start}
use hub_rs.Modules.Bulletin.Types.{state, Codec, Services}
use hub_rs.Modules.Bulletin.Storage.{
  decoded, check_key, validate_entries, validate_storage_keys, get_policy_id, get_params,
  key_of_namespace, key_of_post, key_of_collaborator,
}
use hub_rs.Modules.Bulletin.Collect.{Hold, hold_none, hold_more}
use hub_rs.Modules.Bulletin.Keyed.{prefix_scan-IsKeyed}
use hub_rs.Modules.Bulletin.Keeps.{empty-IsWellKeyed}
use hub_rs.Modules.Bulletin.Answers.{Message, run_messages, new_site, run_messages-IsWellKeyed}

validate_entries_holding :
    (V : Services) {T : Type 0} (codec : Codec T) (record_key : T → Bytes)
    (entries : List (Bytes × Bytes)) (records : List T)
    → Hold codec record_key entries records
    → validate_entries V codec record_key entries ≡ ok tt
unfolding validate_entries
validate_entries_holding V codec record_key _ _ hold_none = refl
validate_entries_holding V codec record_key _ _
      (hold_more {key} {value} {entries} {r} {records} d k h) =
    ap
      (λ o. decoded o >>= λ e.
        check_key key (record_key e) >>= λ c. validate_entries V codec record_key entries)
      d
    ∙ ap
        (λ b.
          (if not b then err state else ok tt) >>= λ c. validate_entries V codec record_key entries)
        ((list_beq_iff (record_key r) key).1 k)
    ∙ validate_entries_holding V codec record_key entries records h

-- After any messages to a new module, failed ones included: the check of restored state accepts every
-- record of the store, so that it answers as its checks of the policy identifier and of the
-- parameters do.
pub validate_storage_keys_passes :
    (V : Services) (acp : V.acp.State) (ms : List Message)
    → let store = (run_messages V ms (new_site V acp)).store in
      validate_storage_keys V store
      ≡ (get_policy_id V store >>= λ id. get_params V store >>= λ params. ok tt)
unfolding validate_storage_keys
validate_storage_keys_passes V acp ms =
    let store = (run_messages V ms (new_site V acp)).store in
    let w = run_messages-IsWellKeyed V ms (new_site V acp) (empty-IsWellKeyed V) in
    let (ns, n) =
      prefix_scan-IsKeyed V.namespaces (key_of_namespace V) V.maps namespace_start namespace_start
        store w.namespaces (λ key h. h) in
    let (ps, p) =
      prefix_scan-IsKeyed V.posts (key_of_post V) V.maps post_start post_start store w.posts
        (λ key h. h) in
    let (cs, c) =
      prefix_scan-IsKeyed V.collaborators (key_of_collaborator V) V.maps collaborator_start
        collaborator_start store w.collaborators (λ key h. h) in
    rw
      (
        validate_entries_holding V V.namespaces (key_of_namespace V) _ ns n,
        validate_entries_holding V V.posts (key_of_post V) _ ps p,
        validate_entries_holding V V.collaborators (key_of_collaborator V) _ cs c,
      )
      refl
