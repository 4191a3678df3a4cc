-- ===== src/Modules/Bulletin/Keeps.antt =====
-- The bulletin's store along its messages.
use hub_rs.Prelude.{Bool, true, false, Option, none, some, ◌≡◌, refl, sym, subst, not}
use hub_rs.Identity.{Did}
use hub_rs.Text.{starts_with}
use hub_rs.Modules.Results.{Result, ok, err}
use hub_rs.Modules.OrdMap.{Bytes}
use hub_rs.Modules.KvStore.{empty_store}
use hub_rs.Modules.Bulletin.Keys.{
  namespace_id, post_start, namespace_start, collaborator_start, policy_id_key, post_key,
  namespace_key, collaborator_key,
}
use hub_rs.Modules.Bulletin.Types.{
  Timestamp, Namespace, Post, Collaborator, BulletinError, Services,
}
use hub_rs.Modules.Bulletin.Storage.{
  Store, set_policy_id, set_namespace, set_collaborator, delete_collaborator, set_post,
  key_of_namespace, key_of_post, key_of_collaborator,
}
use hub_rs.Modules.Bulletin.Handlers.{
  validate_namespace, require_policy, require_namespace, Site, Method, try_read, continue, ◌>>=◌,
  fail_if, init_policy, ensure_policy, register_namespace, create_post, add_collaborator,
  remove_collaborator,
}
use hub_rs.Modules.Bulletin.Keyed.{
  IsKeyed, empty-IsKeyed, record-IsKeyed, elsewhere-IsKeyed, delete-IsKeyed,
}

module _ (V : Services) where
  -- Every record of the three kinds stands under its own key.
  pub record IsWellKeyed (s : Store V) : Type 0 where
    pub namespaces : IsKeyed V.namespaces (key_of_namespace V) V.maps namespace_start s
    pub posts : IsKeyed V.posts (key_of_post V) V.maps post_start s
    pub collaborators : IsKeyed V.collaborators (key_of_collaborator V) V.maps collaborator_start s

  pub empty-IsWellKeyed : IsWellKeyed (empty_store V.maps)
  empty-IsWellKeyed = record {
    namespaces = empty-IsKeyed V.namespaces (key_of_namespace V) V.maps namespace_start;
    posts = empty-IsKeyed V.posts (key_of_post V) V.maps post_start;
    collaborators = empty-IsKeyed V.collaborators (key_of_collaborator V) V.maps collaborator_start;
  }

  policy-IsWellKeyed :
      (policy_id : Bytes) (s : Store V) → IsWellKeyed s → IsWellKeyed (set_policy_id V policy_id s)
  unfolding starts_with
  policy-IsWellKeyed policy_id s w = record {
    namespaces =
        elsewhere-IsKeyed V.namespaces (key_of_namespace V) V.maps namespace_start policy_id_key
          policy_id s refl w.namespaces;
    posts =
        elsewhere-IsKeyed V.posts (key_of_post V) V.maps post_start policy_id_key policy_id s refl
          w.posts;
    collaborators =
        elsewhere-IsKeyed V.collaborators (key_of_collaborator V) V.maps collaborator_start
          policy_id_key policy_id s refl w.collaborators;
  }

  namespace-IsWellKeyed :
      (n : Namespace) (s : Store V) → IsWellKeyed s → IsWellKeyed (set_namespace V n s)
  unfolding set_namespace starts_with namespace_key
  namespace-IsWellKeyed n s w = record {
    namespaces =
        record-IsKeyed V.namespaces (key_of_namespace V) V.maps namespace_start n s w.namespaces;
    posts =
        elsewhere-IsKeyed V.posts (key_of_post V) V.maps post_start (key_of_namespace V n)
          (V.namespaces.to_vec n) s refl w.posts;
    collaborators =
        elsewhere-IsKeyed V.collaborators (key_of_collaborator V) V.maps collaborator_start
          (key_of_namespace V n) (V.namespaces.to_vec n) s refl w.collaborators;
  }

  post-IsWellKeyed : (p : Post) (s : Store V) → IsWellKeyed s → IsWellKeyed (set_post V p s)
  unfolding set_post starts_with post_key
  post-IsWellKeyed p s w = record {
    namespaces =
        elsewhere-IsKeyed V.namespaces (key_of_namespace V) V.maps namespace_start (key_of_post V p)
          (V.posts.to_vec p) s refl w.namespaces;
    posts = record-IsKeyed V.posts (key_of_post V) V.maps post_start p s w.posts;
    collaborators =
        elsewhere-IsKeyed V.collaborators (key_of_collaborator V) V.maps collaborator_start
          (key_of_post V p) (V.posts.to_vec p) s refl w.collaborators;
  }

  collaborator-IsWellKeyed :
      (c : Collaborator) (s : Store V) → IsWellKeyed s → IsWellKeyed (set_collaborator V c s)
  unfolding set_collaborator starts_with collaborator_key
  collaborator-IsWellKeyed c s w = record {
    namespaces =
        elsewhere-IsKeyed V.namespaces (key_of_namespace V) V.maps namespace_start
          (key_of_collaborator V c) (V.collaborators.to_vec c) s refl w.namespaces;
    posts =
        elsewhere-IsKeyed V.posts (key_of_post V) V.maps post_start (key_of_collaborator V c)
          (V.collaborators.to_vec c) s refl w.posts;
    collaborators =
        record-IsKeyed V.collaborators (key_of_collaborator V) V.maps collaborator_start c s
          w.collaborators;
  }

  deletion-IsWellKeyed :
      (id did : Bytes) (s : Store V) → IsWellKeyed s → IsWellKeyed (delete_collaborator V id did s)
  unfolding delete_collaborator
  deletion-IsWellKeyed id did s w = record {
    namespaces =
        delete-IsKeyed V.namespaces (key_of_namespace V) V.maps namespace_start
          (collaborator_key id did) s w.namespaces;
    posts =
        delete-IsKeyed V.posts (key_of_post V) V.maps post_start (collaborator_key id did) s
          w.posts;
    collaborators =
        delete-IsKeyed V.collaborators (key_of_collaborator V) V.maps collaborator_start
          (collaborator_key id did) s w.collaborators;
  }

  -- Whatever the method answers, the store is as well keyed after it as before.
  abbrev pub Keeps : {A : Type 0} → Method V A → Type 0
  Keeps m = (s : Site V) → IsWellKeyed s.store → IsWellKeyed (m s).1.store

  Keeps-continue :
      {A B : Type 0} (r : Result BulletinError A × Site V) (rest : A → Method V B)
      → IsWellKeyed r.1.store
      → ((a : A) → Keeps (rest a))
      → IsWellKeyed (continue V r rest).1.store
  Keeps-continue (ok a, t) rest v l = l a t v
  Keeps-continue (err e, t) rest v l = v

  Keeps-bind :
      {A B : Type 0} (m : Method V A) (rest : A → Method V B)
      → Keeps m
      → ((a : A) → Keeps (rest a))
      → Keeps (◌>>=◌ V m rest)
  unfolding ◌>>=◌
  Keeps-bind m rest k l s w = Keeps-continue (m s) rest (k s w) l

  -- A step that writes nothing to the store, before the rest.
  Keeps-after_read :
      {A B : Type 0} (m : Method V A) (rest : A → Method V B)
      → ((s : Site V) → (m s).1.store ≡ s.store)
      → ((a : A) → Keeps (rest a))
      → Keeps (◌>>=◌ V m rest)
  Keeps-after_read m rest same l = Keeps-bind m rest (λ s w. subst IsWellKeyed (sym (same s)) w) l

  reads-fail_if : (b : Bool) (e : BulletinError) (s : Site V) → (fail_if V b e s).1.store ≡ s.store
  reads-fail_if true e s = refl
  reads-fail_if false e s = refl

  init_policy-Keeps : (found : Option Bytes) → Keeps (init_policy V found)
  init_policy-Keeps (some policy_id) = λ s w. w
  init_policy-Keeps none =
      Keeps-after_read _ _ (λ s. refl)
        (λ creator.
          Keeps-after_read _ _ (λ s. refl)
            (λ policy_id.
              Keeps-bind _ _ (λ s w. policy-IsWellKeyed policy_id s.store w) (λ stored s w. w)))

  ensure_policy-Keeps : Keeps (ensure_policy V)
  unfolding ensure_policy
  ensure_policy-Keeps = Keeps-after_read _ _ (λ s. refl) init_policy-Keeps

  pub register_namespace-Keeps :
      (timestamp : Timestamp) (signer : Bytes) (creator : Did) (namespace : Bytes)
      → Keeps (register_namespace V timestamp signer creator namespace)
  unfolding register_namespace
  register_namespace-Keeps timestamp signer creator namespace =
      Keeps-after_read _ _ (λ s. refl)
        (λ valid. Keeps-bind _ _ ensure_policy-Keeps (λ policy_id.
          Keeps-after_read _ _ (λ s. refl)
            (λ exists. Keeps-after_read _ _ (reads-fail_if exists _) (λ fresh.
              Keeps-after_read _ _ (λ s. refl)
                (λ registered.
                  Keeps-bind _ _ (λ s w. namespace-IsWellKeyed _ s.store w) (λ stored s w. w))))))

  -- The steps that the handlers of posts and collaborators begin with.
  Keeps-guarded :
      {A : Type 0} (namespace : Bytes) (rest : Bytes → Method V A)
      → ((policy_id : Bytes) → Keeps (rest policy_id))
      → Keeps (
          ◌>>=◌ V (try_read V (λ s. validate_namespace namespace)) (λ valid.
            ◌>>=◌ V
              (require_policy V)
              (λ policy_id. ◌>>=◌ V (require_namespace V namespace) (λ known. rest policy_id))))
  Keeps-guarded namespace rest l =
      Keeps-after_read _ _ (λ s. refl)
        (λ valid. Keeps-bind _ _ (Keeps-after_read _ _ (λ s. refl) (λ found s w. w)) (λ policy_id.
          Keeps-bind _ _
            (Keeps-after_read _ _ (λ s. refl)
              (λ exists s w. subst IsWellKeyed (sym (reads-fail_if (not exists) _ s)) w))
            (λ known. l policy_id)))

  pub create_post-Keeps :
      (creator : Did) (namespace payload proof : Bytes)
      → Keeps (create_post V creator namespace payload proof)
  unfolding create_post
  create_post-Keeps creator namespace payload proof = Keeps-guarded namespace _ (λ policy_id.
      Keeps-after_read _ _ (reads-fail_if _ _) (λ small.
        Keeps-after_read _ _ (reads-fail_if _ _) (λ full.
          Keeps-after_read _ _ (λ s. refl)
            (λ allowed. Keeps-after_read _ _ (reads-fail_if _ _) (λ permitted.
              Keeps-after_read _ _ (λ s. refl)
                (λ existing. Keeps-after_read _ _ (reads-fail_if _ _) (λ fresh.
                  Keeps-bind _ _ (λ s w. post-IsWellKeyed _ s.store w) (λ stored s w. w))))))))

  pub add_collaborator-Keeps :
      (creator : Did) (namespace did : Bytes) → Keeps (add_collaborator V creator namespace did)
  unfolding add_collaborator
  add_collaborator-Keeps creator namespace did = Keeps-guarded namespace _ (λ policy_id.
      Keeps-after_read _ _ (λ s. refl)
        (λ existing. Keeps-after_read _ _ (reads-fail_if _ _) (λ fresh.
          Keeps-after_read _ _ (λ s. refl)
            (λ parsed.
              Keeps-after_read _ _ (λ s. refl)
                (λ related.
                  Keeps-bind _ _ (λ s w. collaborator-IsWellKeyed _ s.store w)
                    (λ stored s w. w))))))

  pub remove_collaborator-Keeps :
      (creator : Did) (namespace did : Bytes) → Keeps (remove_collaborator V creator namespace did)
  unfolding remove_collaborator
  remove_collaborator-Keeps creator namespace did = Keeps-guarded namespace _ (λ policy_id.
      Keeps-after_read _ _ (λ s. refl)
        (λ existing. Keeps-after_read _ _ (reads-fail_if _ _) (λ present.
          Keeps-after_read _ _ (λ s. refl)
            (λ parsed.
              Keeps-after_read _ _ (λ s. refl)
                (λ unrelated.
                  Keeps-bind _ _
                    (λ s w. deletion-IsWellKeyed (namespace_id namespace) did s.store w)
                    (λ removed s w. w))))))
