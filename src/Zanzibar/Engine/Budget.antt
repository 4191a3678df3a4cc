-- ===== src/Zanzibar/Engine/Budget.antt =====
-- The work budget of an evaluation: limits.rs and evaluate.rs.
use hub_rs.Prelude.{
  ℕ, zero, suc, ◌≤◌, ◌≡◌, ◌≢◌, ◌∙◌, Bool, true, false, Option, none, some, [], ◌∷◌, arith,
  Bool-cases, inl, inr, ◌==◌, ◌&&◌, ◌||◌, list_eq, nat_eq,
}
use hub_rs.Text.{Text}
use hub_rs.Identity.{Did}
use hub_rs.Zanzibar.Expression.{
  RelationExpression, Expressions, this, computed_userset, tuple_to_userset, union, intersection,
  difference, nil, cons,
}
use hub_rs.Zanzibar.Subject.{Subject, entity, entity_set, typed_wildcard, wildcard}
use hub_rs.Zanzibar.Lookup.{is_actor_resource}
use hub_rs.Zanzibar.Engine.State.{
  NodeId, NodeTrail, trail_contains, with_node, CheckKey, CheckCache, out_of_fuel, M,
  max_evaluation_depth, max_evaluation_steps,
}
use hub_rs.Zanzibar.Engine.Evaluate.{
  PermissionEngine, Eval, Evaluator, denied, store_result, hit_or, evaluate_expr_cached,
  evaluate_node, grant_or, follow, this_step, this_arm, target_step, subject_step, tuple_arm,
  computed_arm, union_arm, deny_or, intersection_arm, exclude, subtract_arm, difference_arm,
  evaluate_arm, evaluate_expr_inner,
}
use hub_rs.Zanzibar.Engine.Check.{PermissionCheckRequest, node_of, check_with_cache}
use hub_rs.Zanzibar.Engine.Runs.{
  Runs, Runs-pure, Runs-lift, Runs-bind, Runs-guarded, Runs-out_of_fuel, Runs-for_each, runs_rules,
}

module _ (engine : PermissionEngine) (policy_id : Text) (subject : Did) (n : ℕ) (inner : Evaluator)
    (ih : (node : NodeId) (e : RelationExpression) (trail : NodeTrail)
      → Runs n (inner node e trail)) where
  Runs-store_result :
      (key : CheckKey) (e : Eval) → Runs n (store_result engine policy_id subject key e)
  unfolding store_result
  Runs-store_result key (value, true) = search runs_rules
  Runs-store_result key (value, false) = search runs_rules

  Runs-hit_or :
      (miss : M Eval) (o : Option Bool)
      → Runs n miss
      → Runs n (hit_or engine policy_id subject miss o)
  unfolding hit_or
  Runs-hit_or miss (some v) h = search runs_rules
  Runs-hit_or miss none h = h

  Runs-evaluate_node :
      (node : NodeId) (trail : NodeTrail)
      → Runs n (evaluate_node engine policy_id subject inner node trail)
  unfolding evaluate_node evaluate_expr_cached
  Runs-evaluate_node node trail = search (runs_rules, Runs-hit_or, Runs-store_result, ih) depth 9

  Runs-grant_or :
      (t : Bool) (k : Bool → M Eval) (e : Eval)
      → ((b : Bool) → Runs n (k b))
      → Runs n (grant_or engine policy_id subject t k e)
  unfolding grant_or
  Runs-grant_or t k (true, b) h = Runs-pure n _
  Runs-grant_or t k (false, b) h = h (t || b)

  Runs-deny_or :
      (t : Bool) (k : Bool → M Eval) (e : Eval)
      → ((b : Bool) → Runs n (k b))
      → Runs n (deny_or engine policy_id subject t k e)
  unfolding deny_or
  Runs-deny_or t k (false, b) h = Runs-pure n _
  Runs-deny_or t k (true, b) h = h (t || b)

  Runs-follow :
      (trail : NodeTrail) (node : NodeId) (t : Bool) (k : Bool → M Eval)
      → ((b : Bool) → Runs n (k b))
      → Runs n (follow engine policy_id subject inner trail node t k)
  unfolding follow
  Runs-follow trail node t k h = elim (Bool-cases (trail_contains trail node)) [
    | inl e ↦ rw e (h true)
    | inr e ↦ rw e (
        Runs-bind n _ _ (Runs-evaluate_node node (with_node trail node))
          (λ x. Runs-grant_or t k x h))
  ]

  Runs-this_step :
      (trail : NodeTrail) (target : Subject) (t : Bool) (k : Bool → M Eval)
      → ((b : Bool) → Runs n (k b))
      → Runs n (this_step engine policy_id subject inner trail target t k)
  unfolding this_step
  Runs-this_step trail (entity_set r o []) t k h =
      elim (Bool-cases (is_actor_resource engine.lookup policy_id r && o == subject.as_str)) [
        | inl e ↦ rw e (Runs-pure n _)
        | inr e ↦ rw e (h t)
      ]
  Runs-this_step trail (entity_set r o (c ∷ l)) t k h = Runs-follow trail _ t k h
  Runs-this_step trail _ t k h = h t

  Runs-subject_step :
      (trail : NodeTrail) (rel : Text) (target : Subject) (t : Bool) (k : Bool → M Eval)
      → ((b : Bool) → Runs n (k b))
      → Runs n (subject_step engine policy_id subject inner trail rel target t k)
  unfolding subject_step
  Runs-subject_step trail rel (entity_set r o l) t k h = Runs-follow trail _ t k h
  Runs-subject_step trail rel (entity d) t k h = h t
  Runs-subject_step trail rel (typed_wildcard r) t k h = Runs-pure n _
  Runs-subject_step trail rel wildcard t k h = Runs-pure n _

  Runs-this_arm :
      (node : NodeId) (trail : NodeTrail) (direct : Bool)
      → Runs n (this_arm engine policy_id subject inner node trail direct)
  unfolding this_arm
  Runs-this_arm node trail true = Runs-pure n _
  Runs-this_arm node trail false = Runs-bind n _ _ (Runs-lift n _) λ targets.
      Runs-for_each n _ (λ x t k h. Runs-this_step trail x t k h) denied (λ t. Runs-pure n _)
        targets false

  Runs-tuple_arm :
      (node : NodeId) (trail : NodeTrail) (tuple rel : Text)
      → Runs n (tuple_arm engine policy_id subject inner node trail tuple rel)
  unfolding tuple_arm target_step
  Runs-tuple_arm node trail tuple rel = Runs-bind n _ _ (Runs-lift n _) λ targets.
      Runs-for_each n _ (λ x t k h. Runs-follow trail _ t k h) _
        (λ t. Runs-bind n _ _ (Runs-lift n _) λ subjects.
          Runs-for_each n _ (λ x b k h. Runs-subject_step trail rel x b k h) denied
            (λ b. Runs-pure n _) subjects t)
        targets false

  Runs-computed_arm :
      (node : NodeId) (trail : NodeTrail) (rel : Text)
      → Runs n (computed_arm engine policy_id subject inner node trail rel)
  unfolding computed_arm
  Runs-computed_arm node trail rel =
      elim (Bool-cases (trail_contains trail (record node { relation = rel }))) [
        | inl e ↦ rw e (Runs-pure n _)
        | inr e ↦ rw e (Runs-evaluate_node _ _)
      ]

  Runs-union_arm :
      (node : NodeId) (trail : NodeTrail) (es : Expressions) (t : Bool)
      → Runs n (union_arm engine policy_id subject inner node trail es t)
  unfolding union_arm
  Runs-union_arm node trail nil t = Runs-pure n _
  Runs-union_arm node trail (cons e es) t =
      Runs-bind n _ _ (ih node e trail)
        (λ x. Runs-grant_or t _ x (λ b. Runs-union_arm node trail es b))

  Runs-intersection_arm :
      (node : NodeId) (trail : NodeTrail) (es : Expressions) (t : Bool)
      → Runs n (intersection_arm engine policy_id subject inner node trail es t)
  unfolding intersection_arm
  Runs-intersection_arm node trail nil t = Runs-pure n _
  Runs-intersection_arm node trail (cons e es) t =
      Runs-bind n _ _ (ih node e trail)
        (λ x. Runs-deny_or t _ x (λ b. Runs-intersection_arm node trail es b))

  Runs-exclude : (t : Bool) (e : Eval) → Runs n (exclude engine policy_id subject t e)
  unfolding exclude
  Runs-exclude t (g, true) = Runs-lift n _
  Runs-exclude t (true, false) = Runs-pure n _
  Runs-exclude t (false, false) = Runs-pure n _

  Runs-subtract_arm :
      (m : M Eval) (e : Eval) → Runs n m → Runs n (subtract_arm engine policy_id subject m e)
  unfolding subtract_arm
  Runs-subtract_arm m (false, t) h = Runs-pure n _
  Runs-subtract_arm m (true, t) h = Runs-bind n _ _ h (λ e. Runs-exclude t e)

  Runs-evaluate_arm :
      (node : NodeId) (e : RelationExpression) (trail : NodeTrail)
      → Runs n (evaluate_arm engine policy_id subject inner node e trail)
  unfolding evaluate_arm difference_arm
  Runs-evaluate_arm node this trail =
      Runs-bind n _ _ (Runs-lift n _) (λ direct. Runs-this_arm node trail direct)
  Runs-evaluate_arm node (computed_userset rel) trail = Runs-computed_arm node trail rel
  Runs-evaluate_arm node (tuple_to_userset tuple rel) trail = Runs-tuple_arm node trail tuple rel
  Runs-evaluate_arm node (union es) trail = Runs-union_arm node trail es false
  Runs-evaluate_arm node (intersection es) trail = Runs-intersection_arm node trail es false
  Runs-evaluate_arm node (difference base subtract) trail =
      Runs-bind n _ _ (ih node base trail) (λ e. Runs-subtract_arm _ e (ih node subtract trail))

module _ (engine : PermissionEngine) (policy_id : Text) (subject : Did) where
  pub Runs-evaluate_expr_inner :
      (n : ℕ) (node : NodeId) (e : RelationExpression) (trail : NodeTrail)
      → Runs n (evaluate_expr_inner engine policy_id subject n node e trail)
  unfolding evaluate_expr_inner
  Runs-evaluate_expr_inner zero node e trail = Runs-out_of_fuel
  Runs-evaluate_expr_inner (suc n) node e trail =
      Runs-guarded n _
        (Runs-evaluate_arm engine policy_id subject n _ (Runs-evaluate_expr_inner n) node e trail)

  Runs-check_node :
      (node : NodeId) (trail : NodeTrail)
      → Runs max_evaluation_depth (
          evaluate_node engine policy_id subject
            (evaluate_expr_inner engine policy_id subject max_evaluation_depth)
            node
            trail)
  Runs-check_node =
      Runs-evaluate_node engine policy_id subject max_evaluation_depth _
        (Runs-evaluate_expr_inner max_evaluation_depth)

-- One check on a cache whose depth counter is at zero, with at most 10,000 steps taken: it ends with
-- a value or an error of the code, never for want of the model's fuel; it gives the depth back,
-- takes no step back, and does not pass 10,000 steps.
pub check_with_cache-Spends :
    (engine : PermissionEngine) (r : PermissionCheckRequest) (s : CheckCache)
    → s.depth ≡ 0
    → s.steps ≤ max_evaluation_steps
    → ((check_with_cache engine r s).0 ≢ out_of_fuel)
      × ((check_with_cache engine r s).1.depth ≡ 0)
      × (s.steps ≤ (check_with_cache engine r s).1.steps)
      × ((check_with_cache engine r s).1.steps ≤ max_evaluation_steps)
unfolding check_with_cache
check_with_cache-Spends engine r s zero_depth within =
    let spends =
      (Runs-bind max_evaluation_depth _ _
          (Runs-check_node engine r.policy_id r.subject (node_of r) (node_of r ∷ []))
          (λ (e : Eval). Runs-pure max_evaluation_depth e.0)).at
        s in
    (spends.fuelled (omega arith), spends.depth ∙ zero_depth, spends.grows, spends.capped within)
