-- ===== src/Zanzibar/Engine/TupleVerdict.antt =====
-- The arms of the evaluator that follow stored tuples or another relation of the object judge their
-- expression.
use hub_rs.Prelude.{
  ℕ, subst, Bool, true, false, List, [], ◌∷◌, map, ◌≡◌, refl, inl, inr, Bool-cases, ◌&&◌, ◌==◌,
  list_eq, nat_eq,
}
use hub_rs.Text.{Text}
use hub_rs.Identity.{Did}
use hub_rs.Zanzibar.Error.{Result}
use hub_rs.Zanzibar.Error
use hub_rs.Zanzibar.Expression.{RelationExpression}
use hub_rs.Zanzibar.Engine.State.{NodeId, NodeTrail, trail_contains, M, ◌>>=◌, lift}
use hub_rs.Zanzibar.Engine.Evaluate.{
  PermissionEngine, Eval, Evaluator, for_each, denied, this_step, this_arm, target_step,
  subject_step, tuple_arm, computed_arm,
}
use hub_rs.Zanzibar.Engine.Semantics.{
  Edge, this_edge, target_edge, subject_edge, direct, through, nowhere, computed, by_target,
  by_subject, by_none, Edges, done,
}
use hub_rs.Zanzibar.Engine.Consistency.{same_ok}
use hub_rs.Zanzibar.Engine.Unfolding.{AnyEdge, Fresh}
use hub_rs.Zanzibar.Engine.Ensures.{Ensures, Ensures-pure, Ensures-lift, Ensures-bind}
use hub_rs.Zanzibar.Engine.Ensures.{Ensures-weaken}
use hub_rs.Zanzibar.Engine.Verdict.{Verdict, Judged, ValueAt, NodeAt, LoopAt, Ensures-evaluate_node}
use hub_rs.Zanzibar.Engine.LoopVerdict.{
  nothing, on_trail, granted-Judged, skip-Judged, Ensures-follow, Ensures-for_each, Ensures-denied,
}
use hub_rs.Zanzibar.Expression.{this, computed_userset, tuple_to_userset}
use hub_rs.Zanzibar.Subject.{Subject, entity, entity_set, typed_wildcard, wildcard}
use hub_rs.Zanzibar.Relationship.{ObjectRef}
use hub_rs.Zanzibar.Lookup.{is_actor_resource}

module _ (engine : PermissionEngine) (policy_id : Text) (subject : Did) where
  open engine use {store, lookup}

  abbrev Loop : Bool → List Edge → NodeTrail → Verdict → Verdict
  Loop = LoopAt engine policy_id subject

  abbrev At : NodeId → RelationExpression → NodeTrail → Verdict
  At = ValueAt engine policy_id subject

  this_blocked :
      (n : NodeId) (trail : NodeTrail) (ss : List Subject)
      → store.check_permission_direct policy_id n.resource n.object_id n.relation subject
        ≡ Error.ok false
      → store.get_relation_subjects policy_id n.resource n.object_id n.relation ≡ Error.ok ss
      → ((k : ℕ)
          → ¬ AnyEdge
              (Fresh engine policy_id subject k trail)
              (map (this_edge engine policy_id subject) ss))
      → (At n this trail).blocked
  this_blocked n trail ss d p f k (inl q) = cc
  this_blocked n trail ss d p f k (inr (ss', q, h)) = f k (
      subst
        (λ x.
          AnyEdge (Fresh engine policy_id subject k trail)
            (map (this_edge engine policy_id subject) x))
        (same_ok q p) h)

  this-Judged :
      (n : NodeId) (trail : NodeTrail) (ss : List Subject) (y : Eval)
      → store.check_permission_direct policy_id n.resource n.object_id n.relation subject
        ≡ Error.ok false
      → store.get_relation_subjects policy_id n.resource n.object_id n.relation ≡ Error.ok ss
      → Judged (Loop false (map (this_edge engine policy_id subject) ss) trail nothing) y
      → Judged (At n this trail) y
  this-Judged n trail ss (true, t) d p (inl h, q) = (through p h, q)
  this-Judged n trail ss (true, t) d p (inr h, q) = absurd h
  this-Judged n trail ss (false, true) d p j = this_blocked n trail ss d p j.0
  this-Judged n trail ss (false, false) d p ((e, h, r), b) =
      (nowhere d p h, this_blocked n trail ss d p b.0)

  -- What follows the first loop of `TupleToUserset`: the second.
  abbrev SubjectsAt : NodeId → Text → Text → NodeTrail → Verdict
  SubjectsAt n tuple relation trail = record {
    grants =
        (ss : List Subject) × (store.get_relation_subjects policy_id n.resource n.object_id tuple
          ≡ Error.ok ss)
        × Edges engine policy_id subject (map (subject_edge relation) ss) true;
    denies =
        (ss : List Subject) × (store.get_relation_subjects policy_id n.resource n.object_id tuple
          ≡ Error.ok ss)
        × Edges engine policy_id subject (map (subject_edge relation) ss) false;
    blocked =
        (k : ℕ) (ss : List Subject)
        → store.get_relation_subjects policy_id n.resource n.object_id tuple ≡ Error.ok ss
        → ¬ AnyEdge (Fresh engine policy_id subject k trail) (map (subject_edge relation) ss);
  }

  other_subjects :
      (n : NodeId) (tuple relation : Text) (trail : NodeTrail) (ss : List Subject)
      → store.get_relation_subjects policy_id n.resource n.object_id tuple ≡ Error.ok ss
      → ((k : ℕ)
          → ¬ AnyEdge (Fresh engine policy_id subject k trail) (map (subject_edge relation) ss))
      → (SubjectsAt n tuple relation trail).blocked
  other_subjects n tuple relation trail ss p f k ss' q h = f k (
      subst (λ x. AnyEdge (Fresh engine policy_id subject k trail) (map (subject_edge relation) x))
        (same_ok q p) h)

  subjects-Judged :
      (n : NodeId) (tuple relation : Text) (trail : NodeTrail) (t : Bool) (ss : List Subject)
      (y : Eval)
      → store.get_relation_subjects policy_id n.resource n.object_id tuple ≡ Error.ok ss
      → Judged (Loop t (map (subject_edge relation) ss) trail nothing) y
      → Judged (Loop t [] trail (SubjectsAt n tuple relation trail)) y
  subjects-Judged n tuple relation trail t ss (true, u) p (inl h, q) = (inr (ss, p, h), q)
  subjects-Judged n tuple relation trail t ss (true, u) p (inr h, q) = absurd h
  subjects-Judged n tuple relation trail t ss (false, true) p (f, r) =
      ((λ k h. h), other_subjects n tuple relation trail ss p f)
  subjects-Judged n tuple relation trail t ss (false, false) p ((e, d, r), (f, r')) =
      ((e, done, (ss, p, d)), ((λ k h. h), other_subjects n tuple relation trail ss p f))

  tuple_blocked :
      (n : NodeId) (tuple relation : Text) (trail : NodeTrail) (ts : List ObjectRef)
      → store.get_relation_targets policy_id n.resource n.object_id tuple ≡ Error.ok ts
      → ((k : ℕ)
          → ¬ AnyEdge (Fresh engine policy_id subject k trail) (map (target_edge relation) ts))
      → (SubjectsAt n tuple relation trail).blocked
      → (At n (tuple_to_userset tuple relation) trail).blocked
  tuple_blocked n tuple relation trail ts p f g k (inl (ts', q, h)) = f k (
      subst (λ x. AnyEdge (Fresh engine policy_id subject k trail) (map (target_edge relation) x))
        (same_ok q p) h)
  tuple_blocked n tuple relation trail ts p f g k (inr (ss, q, h)) = g k ss q h

  tuple-Judged :
      (n : NodeId) (tuple relation : Text) (trail : NodeTrail) (ts : List ObjectRef) (y : Eval)
      → store.get_relation_targets policy_id n.resource n.object_id tuple ≡ Error.ok ts
      → Judged
          (Loop false (map (target_edge relation) ts) trail (SubjectsAt n tuple relation trail))
          y
      → Judged (At n (tuple_to_userset tuple relation) trail) y
  tuple-Judged n tuple relation trail ts (true, u) p (inl h, q) = (by_target p h, q)
  tuple-Judged n tuple relation trail ts (true, u) p (inr (ss, p', h), q) = (by_subject p' h, q)
  tuple-Judged n tuple relation trail ts (false, true) p (f, g) =
      tuple_blocked n tuple relation trail ts p f g
  tuple-Judged n tuple relation trail ts (false, false) p ((e, d, (ss, p', d')), (f, g)) =
      (by_none p d p' d', tuple_blocked n tuple relation trail ts p f g)

  computed-Judged :
      (n : NodeId) (relation : Text) (trail : NodeTrail) (y : Eval)
      → Judged (NodeAt engine policy_id subject (record n { relation = relation }) trail) y
      → Judged (At n (computed_userset relation) trail) y
  computed-Judged n relation trail (true, t) (v, q) = (computed v, q)
  computed-Judged n relation trail (false, true) b = b
  computed-Judged n relation trail (false, false) (v, b) = (computed v, b)

  module _ (inner : Evaluator)
      (sound : (n : NodeId) (e : RelationExpression) (trail : NodeTrail)
        → Ensures engine
            (Judged (ValueAt engine policy_id subject n e trail))
            (inner n e trail)) where
    Ensures-this_step :
        (trail : NodeTrail) (rest : Verdict) (x : Subject) (t : Bool) (es : List Edge)
        (k : Bool → M Eval)
        → ((b : Bool) → Ensures engine (Judged (Loop b es trail rest)) (k b))
        → Ensures engine
            (Judged (Loop t (this_edge engine policy_id subject x ∷ es) trail rest))
            (this_step engine policy_id subject inner trail x t k)
    unfolding this_step
    Ensures-this_step trail rest (entity_set r o []) t es k h =
        elim (Bool-cases (is_actor_resource lookup policy_id r && o == subject.as_str)) [
          | inl e ↦
              rw e
                (Ensures-pure engine _ _ (granted-Judged engine policy_id subject t es trail rest))
          | inr e ↦ rw e (
              Ensures-weaken engine _ (h t)
                (λ y. skip-Judged engine policy_id subject t es trail rest y))
        ]
    Ensures-this_step trail rest (entity_set r o (c ∷ l)) t es k h =
        Ensures-follow engine policy_id subject inner sound _ t es trail rest k h
    Ensures-this_step trail rest (entity d) t es k h =
        Ensures-weaken engine _ (h t) (λ y. skip-Judged engine policy_id subject t es trail rest y)
    Ensures-this_step trail rest (typed_wildcard r) t es k h =
        Ensures-weaken engine _ (h t) (λ y. skip-Judged engine policy_id subject t es trail rest y)
    Ensures-this_step trail rest wildcard t es k h =
        Ensures-weaken engine _ (h t) (λ y. skip-Judged engine policy_id subject t es trail rest y)

    Ensures-subject_step :
        (trail : NodeTrail) (rest : Verdict) (relation : Text) (x : Subject) (t : Bool)
        (es : List Edge) (k : Bool → M Eval)
        → ((b : Bool) → Ensures engine (Judged (Loop b es trail rest)) (k b))
        → Ensures engine
            (Judged (Loop t (subject_edge relation x ∷ es) trail rest))
            (subject_step engine policy_id subject inner trail relation x t k)
    unfolding subject_step
    Ensures-subject_step trail rest l (entity_set r o _) t es k h =
        Ensures-follow engine policy_id subject inner sound _ t es trail rest k h
    Ensures-subject_step trail rest l (entity d) t es k h =
        Ensures-weaken engine _ (h t) (λ y. skip-Judged engine policy_id subject t es trail rest y)
    Ensures-subject_step trail rest l (typed_wildcard r) t es k h =
        Ensures-pure engine _ _ (granted-Judged engine policy_id subject t es trail rest)
    Ensures-subject_step trail rest l wildcard t es k h =
        Ensures-pure engine _ _ (granted-Judged engine policy_id subject t es trail rest)

    pub Ensures-this_arm :
        (n : NodeId) (trail : NodeTrail) (b : Bool)
        → store.check_permission_direct policy_id n.resource n.object_id n.relation subject
          ≡ Error.ok b
        → Ensures engine
            (Judged (At n this trail))
            (this_arm engine policy_id subject inner n trail b)
    unfolding this_arm
    Ensures-this_arm n trail true d = Ensures-pure engine _ _ (direct d, refl)
    Ensures-this_arm n trail false d =
        Ensures-bind engine
          {P = λ ss.
            store.get_relation_subjects policy_id n.resource n.object_id n.relation ≡ Error.ok ss}
          _ _ (Ensures-lift engine _ _ (λ ss p. p))
          λ ss p.
            Ensures-weaken engine _
              (Ensures-for_each engine policy_id subject (this_edge engine policy_id subject) trail
                nothing (this_step engine policy_id subject inner trail) denied
                (λ x t es k h. Ensures-this_step trail nothing x t es k h)
                (Ensures-denied engine policy_id subject trail) ss false)
              (λ y. this-Judged n trail ss y d p)

    pub Ensures-tuple_arm :
        (n : NodeId) (trail : NodeTrail) (tuple relation : Text)
        → Ensures engine
            (Judged (At n (tuple_to_userset tuple relation) trail))
            (tuple_arm engine policy_id subject inner n trail tuple relation)
    unfolding tuple_arm target_step
    Ensures-tuple_arm n trail tuple relation =
        Ensures-bind engine
          {P = λ ts.
            store.get_relation_targets policy_id n.resource n.object_id tuple ≡ Error.ok ts}
          _ _ (Ensures-lift engine _ _ (λ ts p. p))
          λ ts p.
            Ensures-weaken engine _
              (Ensures-for_each engine policy_id subject (target_edge relation) trail
                (SubjectsAt n tuple relation trail) _ _
                (λ x t es k h.
                  Ensures-follow engine policy_id subject inner sound _ t es trail _ k h)
                second ts false)
              (λ y. tuple-Judged n tuple relation trail ts y p)
      where
        second :
            (t : Bool)
            → Ensures engine (Judged (Loop t [] trail (SubjectsAt n tuple relation trail))) (
                lift (store.get_relation_subjects policy_id n.resource n.object_id tuple) >>= λ ss.
                for_each (subject_step engine policy_id subject inner trail relation) ss t denied)
        second t =
            Ensures-bind engine
              {P = λ ss.
                store.get_relation_subjects policy_id n.resource n.object_id tuple ≡ Error.ok ss}
              _ _ (Ensures-lift engine _ _ (λ ss p. p))
              λ ss p.
                Ensures-weaken engine _
                  (Ensures-for_each engine policy_id subject (subject_edge relation) trail nothing _
                    denied (λ x b es k h. Ensures-subject_step trail nothing relation x b es k h)
                    (Ensures-denied engine policy_id subject trail) ss t)
                  (λ y. subjects-Judged n tuple relation trail t ss y p)

    pub Ensures-computed_arm :
        (n : NodeId) (trail : NodeTrail) (relation : Text)
        → Ensures engine
            (Judged (At n (computed_userset relation) trail))
            (computed_arm engine policy_id subject inner n trail relation)
    unfolding computed_arm
    Ensures-computed_arm n trail relation =
        elim (Bool-cases (trail_contains trail (record n { relation = relation }))) [
          | inl c ↦ rw c (
              Ensures-pure engine _ _ (λ k.
                on_trail engine policy_id subject k trail (record n { relation = relation }) c))
          | inr out ↦ rw out (
              Ensures-weaken engine _
                (Ensures-evaluate_node engine policy_id subject inner sound
                  (record n { relation = relation }) trail)
                (λ y. computed-Judged n relation trail y))
        ]
