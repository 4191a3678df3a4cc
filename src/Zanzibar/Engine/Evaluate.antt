-- ===== src/Zanzibar/Engine/Evaluate.antt =====
-- crates/zanzibar/src/engine/evaluate.rs: the evaluation of a relation expression at a node.
-- `evaluate_expr_inner` enters the depth budget at each call, so its recursion is on the levels
-- that are left of it; each loop and each arm is a function over the evaluator for one level less.
use hub_rs.Prelude.{
  ℕ, zero, suc, Bool, true, false, Option, none, some, List, [], ◌∷◌, ◌&&◌, ◌||◌, ◌==◌, nat_eq,
  list_eq, if◌then◌else◌,
}
use hub_rs.Text.{Text, is_empty}
use hub_rs.Identity.{Did}
use hub_rs.Zanzibar.Error.{Result, indeterminate_exclusion}
use hub_rs.Zanzibar.Expression.{
  RelationExpression, Expressions, this, computed_userset, tuple_to_userset, union, intersection,
  difference, nil, cons,
}
use hub_rs.Zanzibar.Subject.{Subject, entity, entity_set, typed_wildcard, wildcard}
use hub_rs.Zanzibar.Relationship.{ObjectRef}
use hub_rs.Zanzibar.Lookup.{PolicyLookupTable, get_expression, is_actor_resource}
use hub_rs.Zanzibar.Store.{ZanzibarStore}
use hub_rs.Zanzibar.Engine.State.{
  NodeId, NodeTrail, trail_contains, with_node, CheckKey, M, ◌>>=◌, ◌>>◌, pure, lift, charge,
  guarded, cached, memoize, out_of_fuel,
}

-- `PermissionEngine`.
pub record PermissionEngine : Type 0 where
  pub store : ZanzibarStore
  pub lookup : PolicyLookupTable

-- The value and the `tainted` flag.
abbrev pub Eval : Type 0
Eval = Bool × Bool

abbrev pub Evaluator : Type 0
Evaluator = NodeId → RelationExpression → NodeTrail → M Eval

-- A `for` loop that charges each item; `step` is its body, given `tainted` and `continue`, and
-- `finish` is what follows the loop.
unfoldable pub for_each :
    {A : Type 0} → (A → Bool → (Bool → M Eval) → M Eval) → List A → Bool → (Bool → M Eval) → M Eval
for_each step [] tainted finish = finish tainted
for_each step (x ∷ xs) tainted finish = charge >> step x tainted (λ t. for_each step xs t finish)

-- The value after a loop that granted nothing.
abbrev pub denied : Bool → M Eval
denied tainted = pure (false, tainted)

module _ (engine : PermissionEngine) (policy_id : Text) (subject : Did) where
  open engine use {store, lookup}

  -- `if !tainted { cache.set(key, value) }; Ok((value, tainted))`.
  unfoldable pub store_result : CheckKey → Eval → M Eval
  store_result key (value, true) = pure (value, true)
  store_result key (value, false) = memoize key value >> pure (value, false)

  abbrev pub key_of : NodeId → CheckKey
  key_of node = record { policy = policy_id; node = node; subject = subject }

  unfoldable pub hit_or : M Eval → Option Bool → M Eval
  hit_or miss (some value) = charge >> pure (value, false)
  hit_or miss none = miss

  -- `evaluate_expr_cached`, over `evaluate_expr_inner`.
  unfoldable pub evaluate_expr_cached : Evaluator → Evaluator
  unfolding store_result hit_or
  evaluate_expr_cached inner node expression trail =
      cached (key_of node) >>= hit_or (inner node expression trail >>= store_result (key_of node))

  -- `lookup.get_expression(..)?` and the evaluation of the expression that it finds.
  unfoldable pub evaluate_node : Evaluator → NodeId → NodeTrail → M Eval
  evaluate_node inner node trail =
      lift (get_expression lookup policy_id node.resource node.relation) >>= λ expression.
      evaluate_expr_cached inner node expression trail

  unfoldable pub grant_or : Bool → (Bool → M Eval) → Eval → M Eval
  grant_or tainted continue (true, t) = pure (true, t)
  grant_or tainted continue (false, t) = continue (tainted || t)

  -- The body that the three loops over stored tuples share: skip a node of the trail, else
  -- evaluate it.
  unfoldable pub follow : Evaluator → NodeTrail → NodeId → Bool → (Bool → M Eval) → M Eval
  unfolding grant_or
  follow inner trail node tainted continue =
      if trail_contains trail node
      then continue true
      else evaluate_node inner node (with_node trail node) >>= grant_or tainted continue

  -- The loop body of the arm `This`.
  unfoldable pub this_step : Evaluator → NodeTrail → Subject → Bool → (Bool → M Eval) → M Eval
  this_step inner trail (entity_set resource object_id relation) tainted continue =
      if is_empty relation
      then (if is_actor_resource lookup policy_id resource && object_id == subject.as_str
          then pure (true, false)
          else continue tainted)
      else follow inner trail
          (record { resource = resource; object_id = object_id; relation = relation }) tainted
          continue
  this_step inner trail _ tainted continue = continue tainted

  unfoldable pub this_arm : Evaluator → NodeId → NodeTrail → Bool → M Eval
  this_arm inner node trail true = pure (true, false)
  this_arm inner node trail false =
      lift (store.get_relation_subjects policy_id node.resource node.object_id node.relation)
      >>= λ targets. for_each (this_step inner trail) targets false denied

  -- The loop bodies of the arm `TupleToUserset`.
  unfoldable pub target_step :
      Evaluator → NodeTrail → Text → ObjectRef → Bool → (Bool → M Eval) → M Eval
  target_step inner trail computed_relation target tainted continue =
      follow inner trail
        (record {
          resource = target.resource;
          object_id = target.object_id;
          relation = computed_relation;
        })
        tainted continue

  unfoldable pub subject_step :
      Evaluator → NodeTrail → Text → Subject → Bool → (Bool → M Eval) → M Eval
  subject_step inner trail computed_relation (entity_set resource object_id _) tainted continue =
      follow inner trail
        (record { resource = resource; object_id = object_id; relation = computed_relation })
        tainted continue
  subject_step inner trail computed_relation wildcard tainted continue = pure (true, false)
  subject_step inner trail computed_relation (typed_wildcard _) tainted continue =
      pure (true, false)
  subject_step inner trail computed_relation (entity _) tainted continue = continue tainted

  unfoldable pub tuple_arm : Evaluator → NodeId → NodeTrail → Text → Text → M Eval
  tuple_arm inner node trail tuple_relation computed_relation =
      lift (store.get_relation_targets policy_id node.resource node.object_id tuple_relation)
      >>= λ targets. for_each (target_step inner trail computed_relation) targets false λ tainted.
        lift (store.get_relation_subjects policy_id node.resource node.object_id tuple_relation)
        >>= λ subjects.
            for_each (subject_step inner trail computed_relation) subjects tainted denied

  unfoldable pub computed_arm : Evaluator → NodeId → NodeTrail → Text → M Eval
  computed_arm inner node trail computed_rel =
      let target : NodeId = record node { relation = computed_rel } in
      if trail_contains trail target
      then pure (false, true)
      else evaluate_node inner target (with_node trail target)

  unfoldable pub union_arm : Evaluator → NodeId → NodeTrail → Expressions → Bool → M Eval
  union_arm inner node trail nil tainted = denied tainted
  union_arm inner node trail (cons expr exprs) tainted =
      inner node expr trail >>= grant_or tainted (union_arm inner node trail exprs)

  unfoldable pub deny_or : Bool → (Bool → M Eval) → Eval → M Eval
  deny_or tainted continue (false, t) = pure (false, t)
  deny_or tainted continue (true, t) = continue (tainted || t)

  unfoldable pub intersection_arm : Evaluator → NodeId → NodeTrail → Expressions → Bool → M Eval
  intersection_arm inner node trail nil tainted = pure (true, tainted)
  intersection_arm inner node trail (cons expr exprs) tainted =
      inner node expr trail >>= deny_or tainted (intersection_arm inner node trail exprs)

  -- What the arm `Difference` makes of the subtracted value.
  unfoldable pub exclude : Bool → Eval → M Eval
  exclude base_tainted (granted, true) = lift (Result.err indeterminate_exclusion)
  exclude base_tainted (true, false) = pure (false, base_tainted)
  exclude base_tainted (false, false) = pure (true, base_tainted)

  unfoldable pub subtract_arm : M Eval → Eval → M Eval
  subtract_arm subtract (false, base_tainted) = pure (false, base_tainted)
  subtract_arm subtract (true, base_tainted) = subtract >>= exclude base_tainted

  unfoldable pub difference_arm :
      Evaluator → NodeId → NodeTrail → RelationExpression → RelationExpression → M Eval
  difference_arm inner node trail base subtract =
      inner node base trail >>= subtract_arm (inner node subtract trail)

  unfoldable pub evaluate_arm : Evaluator → Evaluator
  evaluate_arm inner node this trail =
      lift
        (store.check_permission_direct policy_id node.resource node.object_id node.relation subject)
      >>= this_arm inner node trail
  evaluate_arm inner node (computed_userset relation) trail = computed_arm inner node trail relation
  evaluate_arm inner node (tuple_to_userset tuple_relation computed_relation) trail =
      tuple_arm inner node trail tuple_relation computed_relation
  evaluate_arm inner node (union exprs) trail = union_arm inner node trail exprs false
  evaluate_arm inner node (intersection exprs) trail = intersection_arm inner node trail exprs false
  evaluate_arm inner node (difference base subtract) trail =
      difference_arm inner node trail base subtract

  -- `evaluate_expr_inner`.
  unfoldable pub evaluate_expr_inner : ℕ → Evaluator
  evaluate_expr_inner zero node expression trail = guarded (λ s. (out_of_fuel, s))
  evaluate_expr_inner (suc fuel) node expression trail =
      guarded (evaluate_arm (evaluate_expr_inner fuel) node expression trail)
