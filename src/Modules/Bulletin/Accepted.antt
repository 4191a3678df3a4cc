-- ===== src/Modules/Bulletin/Accepted.antt =====
-- The steps of `create_post` in crates/vera-modules/src/bulletin/mod.rs, one after the other.
use hub_rs.Prelude.{
  Bool, true, false, not, Option, none, some, ◌≡◌, refl, sym, ap, ◌∙◌, subst, arith, ltb, length,
  list_eq,
}
use hub_rs.Identity.{Did}
use hub_rs.Text.{is_empty}
use hub_rs.Modules.Results.{Result, ok, err}
use hub_rs.Modules.OrdMap.{Bytes}
use hub_rs.Modules.Bulletin.Keys.{namespace_id}
use hub_rs.Modules.Bulletin.Types.{
  policy_not_initialized, Post, BulletinError, Services, post_already_exists, namespace_not_found,
  state,
}
use hub_rs.Modules.Bulletin.Storage.{
  get_policy_id, has_namespace, get_post, set_post, is_found, generate_post_id,
}
use hub_rs.Modules.Bulletin.Handlers.{
  Site, Method, ◌>>=◌, continue, try_read, fail_if, write, pure, validate_namespace, require_policy,
  require_namespace, create_post, new_post, post_request, some_or, max_post_payload_bytes,
}

module _ (V : Services) where
  continue_ok :
      {A B : Type 0} (r : Result BulletinError A × Site V) (rest : A → Method V B) (b : B)
      → (continue V r rest).0 ≡ ok b
      → (a : A) × (r.0 ≡ ok a) × (continue V r rest ≡ rest a r.1)
  continue_ok (ok a, t) rest b h = (a, refl, refl)
  continue_ok (err e, t) rest b h = absurd (ground arith)

  -- From an answer of a sequence: its first part answers, and then the rest.
  bind_ok :
      {A B : Type 0} (m : Method V A) (rest : A → Method V B) (s : Site V) (b : B)
      → (◌>>=◌ V m rest s).0 ≡ ok b
      → (a : A) × ((m s).0 ≡ ok a) × ((rest a (m s).1).0 ≡ ok b)
  unfolding ◌>>=◌
  bind_ok m rest s b h =
      let (a, e, f) = continue_ok (m s) rest b h in (a, e, sym (ap (λ x. x.0) f) ∙ h)

  -- The same where the first part leaves the site as it was.
  bind_read :
      {A B : Type 0} (m : Method V A) (rest : A → Method V B) (s : Site V) (b : B)
      → ((a : A) → (m s).0 ≡ ok a → (m s).1 ≡ s)
      → (◌>>=◌ V m rest s).0 ≡ ok b
      → (a : A) × ((m s).0 ≡ ok a) × ((rest a s).0 ≡ ok b)
  bind_read m rest s b same h =
      let (a, e, f) = bind_ok m rest s b h in (a, e, subst (λ t. (rest a t).0 ≡ ok b) (same a e) f)

  not-false : (b : Bool) → not b ≡ false → b ≡ true
  not-false true h = refl
  not-false false h = absurd (ground arith)

  some_or_ok :
      {A : Type 0} (e : BulletinError) (o : Option A) (a : A) → some_or e o ≡ ok a → o ≡ some a
  some_or_ok e none a h = absurd (ground arith)
  some_or_ok e (some x) a h = ground arith

  fail_if_ok :
      (b : Bool) (e : BulletinError) (s : Site V) (u : Unit)
      → (fail_if V b e s).0 ≡ ok u
      → b ≡ false
  fail_if_ok true e s u h = absurd (ground arith)
  fail_if_ok false e s u h = refl

  fail_if_reads :
      (b : Bool) (e : BulletinError) (s : Site V) (u : Unit)
      → (fail_if V b e s).0 ≡ ok u
      → (fail_if V b e s).1 ≡ s
  fail_if_reads true e s u h = refl
  fail_if_reads false e s u h = refl

  policy_read :
      (r : Result BulletinError (Option Bytes)) (s : Site V) (policy_id : Bytes)
      → (continue V (r, s) (λ found. try_read V (λ t. some_or policy_not_initialized found))).0
        ≡ ok policy_id
      → (r ≡ ok (some policy_id))
        × ((continue V (r, s) (λ found. try_read V (λ t. some_or policy_not_initialized found))).1
            ≡ s)
  policy_read (err e) s policy_id h = absurd (ground arith)
  policy_read (ok none) s policy_id h = absurd (ground arith)
  policy_read (ok (some x)) s policy_id h = (ground arith, refl)

  require_policy_ok :
      (s : Site V) (policy_id : Bytes)
      → (require_policy V s).0 ≡ ok policy_id
      → (get_policy_id V s.store ≡ ok (some policy_id)) × ((require_policy V s).1 ≡ s)
  unfolding ◌>>=◌
  require_policy_ok s policy_id h = policy_read (get_policy_id V s.store) s policy_id h

  namespace_read :
      (r : Result BulletinError Bool) (e : BulletinError) (s : Site V) (u : Unit)
      → (continue V (r, s) (λ exists. fail_if V (not exists) e)).0 ≡ ok u
      → (r ≡ ok true) × ((continue V (r, s) (λ exists. fail_if V (not exists) e)).1 ≡ s)
  namespace_read (err f) e s u h = absurd (ground arith)
  namespace_read (ok false) e s u h = absurd (ground arith)
  namespace_read (ok true) e s u h = (refl, refl)

  require_namespace_ok :
      (namespace : Bytes) (s : Site V) (u : Unit)
      → (require_namespace V namespace s).0 ≡ ok u
      → (has_namespace V (namespace_id namespace) s.store ≡ ok true)
        × ((require_namespace V namespace s).1 ≡ s)
  unfolding ◌>>=◌
  require_namespace_ok namespace s u h =
      namespace_read (has_namespace V (namespace_id namespace) s.store)
        (namespace_not_found namespace) s u h

  -- What an accepted post has passed.
  pub record IsAccepted (creator : Did) (namespace payload proof : Bytes) (s : Site V)
      : Type 0 where
    pub named : validate_namespace namespace ≡ ok tt
    pub policy_id : Bytes
    pub policy : get_policy_id V s.store ≡ ok (some policy_id)
    pub known : has_namespace V (namespace_id namespace) s.store ≡ ok true
    pub small : ltb max_post_payload_bytes (length payload) ≡ false
    pub full : is_empty payload ≡ false
    pub allowed :
        V.acp.query_verify_access_request policy_id
          (post_request V (namespace_id namespace) creator)
          s.acp
        ≡ some true

  -- The last steps of a post that passed the others.
  abbrev pub finish :
      Bytes
      → Post
      → Result BulletinError (Option Post)
      → Site V
      → Result BulletinError Bytes × Site V
  finish namespace post (err e) s = (err e, s)
  finish namespace post (ok (some found)) s = (err (post_already_exists namespace post.id), s)
  finish namespace post (ok none) s =
      (ok post.id, record { store = set_post V post s.store; acp = s.acp })

  pub ending_cases :
      (namespace : Bytes) (post : Post) (r : Result BulletinError (Option Post)) (s : Site V)
      → continue V
          (r, s)
          (λ existing.
            ◌>>=◌ V
              (fail_if V (is_found V existing) (post_already_exists namespace post.id))
              (λ fresh. ◌>>=◌ V (write V (set_post V post)) (λ stored. pure V post.id)))
        ≡ finish namespace post r s
  unfolding ◌>>=◌
  ending_cases namespace post (err e) s = refl
  ending_cases namespace post (ok (some found)) s = refl
  ending_cases namespace post (ok none) s = refl

  pub accepted_finishes :
      (creator : Did) (namespace payload proof : Bytes) (s : Site V)
      → IsAccepted creator namespace payload proof s
      → create_post V creator namespace payload proof s
        ≡ finish namespace
            (new_post V (namespace_id namespace) creator payload proof)
            (get_post V
              (namespace_id namespace)
              (generate_post_id V (namespace_id namespace) payload)
              s.store)
            s
  unfolding create_post ◌>>=◌
  accepted_finishes creator namespace payload proof s i =
      rw (i.named, i.policy, i.known, i.small, i.full, i.allowed) (ending_cases namespace _ _ s)

  pub accepts_inverse :
      (creator : Did) (namespace payload proof id : Bytes) (s : Site V)
      → (create_post V creator namespace payload proof s).0 ≡ ok id
      → IsAccepted creator namespace payload proof s
  unfolding create_post
  accepts_inverse creator namespace payload proof id s h =
      let (valid, named, h1) = bind_read _ _ s id (λ a e. refl) h in
      let (policy_id, p, h2) = bind_read _ _ s id (λ a e. (require_policy_ok s a e).1) h1 in
      let (known, k, h3) =
        bind_read _ _ s id (λ a e. (require_namespace_ok namespace s a e).1) h2 in
      let (small, l, h4) = bind_read _ _ s id (fail_if_reads _ _ s) h3 in
      let (full, f, h5) = bind_read _ _ s id (fail_if_reads _ _ s) h4 in
      let (allowed, a, h6) = bind_read _ _ s id (λ a e. refl) h5 in
      let (permitted, q, h7) = bind_read _ _ s id (fail_if_reads _ _ s) h6 in
      record {
        named = named;
        policy_id = policy_id;
        policy = (require_policy_ok s policy_id p).0;
        known = (require_namespace_ok namespace s known k).0;
        small = fail_if_ok _ _ s small l;
        full = fail_if_ok _ _ s full f;
        allowed =
            some_or_ok state _ true (a ∙ ap ok (not-false allowed (fail_if_ok _ _ s permitted q)));
      }

  pub finish_ok :
      (namespace id : Bytes) (p : Post) (r : Result BulletinError (Option Post)) (s : Site V)
      → (finish namespace p r s).0 ≡ ok id
      → (id ≡ p.id)
        × (finish namespace p r s ≡ (ok p.id, record { store = set_post V p s.store; acp = s.acp }))
  finish_ok namespace id p (err e) s h = absurd (ground arith)
  finish_ok namespace id p (ok (some found)) s h = absurd (ground arith)
  finish_ok namespace id p (ok none) s h = (ground arith, refl)

  -- An accepted post: the identifier, the store, and what it passed.
  pub accepted :
      (creator : Did) (namespace payload proof id : Bytes) (s : Site V)
      → (create_post V creator namespace payload proof s).0 ≡ ok id
      → let p = new_post V (namespace_id namespace) creator payload proof in
        (id ≡ p.id)
        × (create_post V creator namespace payload proof s
            ≡ (ok p.id, record { store = set_post V p s.store; acp = s.acp }))
  accepted creator namespace payload proof id s h =
      let q =
        accepted_finishes creator namespace payload proof s
          (accepts_inverse creator namespace payload proof id s h) in
      let p = new_post V (namespace_id namespace) creator payload proof in
      let (e, f) = finish_ok namespace id p _ s (sym (ap (λ x. x.0) q) ∙ h) in (e, q ∙ f)
