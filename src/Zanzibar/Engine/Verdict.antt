-- ===== src/Zanzibar/Engine/Verdict.antt =====
-- What a value with its taint says: a grant is a grant of the semantics and never tainted, an
-- untainted denial is a denial of the semantics, and any denial excludes the grants that avoid the
-- trail. The rules are for the helpers that the arms of the evaluator share.
use hub_rs.Prelude.{
  ℕ, zero, suc, subst, Bool, true, false, Option, none, some, List, ◌∷◌, ◌≡◌, refl, ◌⊎◌,
}
use hub_rs.Text.{Text}
use hub_rs.Identity.{Did}
use hub_rs.Zanzibar.Error.{Result}
use hub_rs.Zanzibar.Error
use hub_rs.Zanzibar.Expression.{RelationExpression}
use hub_rs.Zanzibar.Lookup.{get_expression}
use hub_rs.Zanzibar.Engine.State.{NodeId, NodeTrail, with_node, M}
use hub_rs.Zanzibar.Engine.Evaluate.{
  PermissionEngine, Eval, Evaluator, key_of, store_result, hit_or, evaluate_expr_cached,
  evaluate_node,
}
use hub_rs.Zanzibar.Engine.Semantics.{Edge, Value, NodeValue, defined, Edges}
use hub_rs.Zanzibar.Engine.Consistency.{NodeValue-unique, same_ok}
use hub_rs.Zanzibar.Engine.Unfolding.{AnyEdge, Holds, Fresh}
use hub_rs.Zanzibar.Engine.Levels.{Fresh-NodeValue}
use hub_rs.Zanzibar.Engine.Ensures.{
  KeyValue, Ensures, Ensures-pure, Ensures-lift, Ensures-charge, Ensures-cached, Ensures-memoize,
  Ensures-bind,
}

pub record Verdict : Type 1 where
  pub grants : Type 0
  pub denies : Type 0
  -- No grant avoids the trail.
  pub blocked : Type 0

abbrev pub Judged : Verdict → Eval → Type 0
Judged v (true, t) = v.grants × (t ≡ false)
Judged v (false, true) = v.blocked
Judged v (false, false) = v.denies × v.blocked

module _ (engine : PermissionEngine) (policy_id : Text) (subject : Did) where
  abbrev pub ValueAt : NodeId → RelationExpression → NodeTrail → Verdict
  ValueAt n e trail = record {
    grants = Value engine policy_id subject n e true;
    denies = Value engine policy_id subject n e false;
    blocked =
        (k : ℕ) → ¬ Holds engine policy_id subject (Fresh engine policy_id subject k trail) n e;
  }

  -- A node that is not on the trail.
  abbrev pub NodeAt : NodeId → NodeTrail → Verdict
  NodeAt n trail = record {
    grants = NodeValue engine policy_id subject n true;
    denies = NodeValue engine policy_id subject n false;
    blocked = (k : ℕ) → ¬ Fresh engine policy_id subject k trail n;
  }

  -- The rest of a loop, entered with the taint `t`, and what follows it.
  abbrev pub LoopAt : Bool → List Edge → NodeTrail → Verdict → Verdict
  LoopAt t es trail rest = record {
    grants = Edges engine policy_id subject es true ⊎ rest.grants;
    denies = (t ≡ false) × Edges engine policy_id subject es false × rest.denies;
    blocked = ((k : ℕ) → ¬ AnyEdge (Fresh engine policy_id subject k trail) es) × rest.blocked;
  }

  module _ (inner : Evaluator)
      (sound : (n : NodeId) (e : RelationExpression) (trail : NodeTrail)
        → Ensures engine (Judged (ValueAt n e trail)) (inner n e trail)) where
    unique_blocked :
        (n : NodeId) (trail : NodeTrail)
        → NodeValue engine policy_id subject n false
        → (k : ℕ) → ¬ Fresh engine policy_id subject k trail n
    unique_blocked n trail d k f =
        NodeValue-unique engine policy_id subject n
          (Fresh-NodeValue engine policy_id subject k trail n f) d

    hit-Judged :
        (n : NodeId) (trail : NodeTrail) (b : Bool)
        → NodeValue engine policy_id subject n b
        → Judged (NodeAt n trail) (b, false)
    hit-Judged n trail true v = (v, refl)
    hit-Judged n trail false v = (v, unique_blocked n trail v)

    Fresh-blocked :
        (n : NodeId) (trail : NodeTrail) (e : RelationExpression)
        → get_expression engine.lookup policy_id n.resource n.relation ≡ Error.ok e
        → (ValueAt n e (with_node trail n)).blocked
        → (k : ℕ) → ¬ Fresh engine policy_id subject k trail n
    Fresh-blocked n trail e p b zero h = h
    Fresh-blocked n trail e p b (suc k) (out, e', p', h) = b k (
        subst (Holds engine policy_id subject (Fresh engine policy_id subject k (n ∷ trail)) n)
          (same_ok p' p) h)

    miss-Judged :
        (n : NodeId) (trail : NodeTrail) (e : RelationExpression) (x : Eval)
        → get_expression engine.lookup policy_id n.resource n.relation ≡ Error.ok e
        → Judged (ValueAt n e (with_node trail n)) x
        → Judged (NodeAt n trail) x
    miss-Judged n trail e (true, t) p (v, u) = (defined p v, u)
    miss-Judged n trail e (false, true) p b = Fresh-blocked n trail e p b
    miss-Judged n trail e (false, false) p (v, b) =
        (defined p v, unique_blocked n trail (defined p v))

    Ensures-store_result :
        (n : NodeId) (trail : NodeTrail) (x : Eval)
        → Judged (NodeAt n trail) x
        → Ensures engine
            (Judged (NodeAt n trail))
            (store_result engine policy_id subject (key_of engine policy_id subject n) x)
    unfolding store_result
    Ensures-store_result n trail (b, true) j = Ensures-pure engine _ _ j
    Ensures-store_result n trail (true, false) j =
        Ensures-bind engine _ _ (Ensures-memoize engine _ true j.0)
          (λ _ _. Ensures-pure engine _ _ j)
    Ensures-store_result n trail (false, false) j =
        Ensures-bind engine _ _ (Ensures-memoize engine _ false j.0)
          (λ _ _. Ensures-pure engine _ _ j)

    Ensures-hit_or :
        (n : NodeId) (trail : NodeTrail) (miss : M Eval) (o : Option Bool)
        → ((b : Bool) → o ≡ some b → KeyValue engine (key_of engine policy_id subject n) b)
        → Ensures engine (Judged (NodeAt n trail)) miss
        → Ensures engine (Judged (NodeAt n trail)) (hit_or engine policy_id subject miss o)
    unfolding hit_or
    Ensures-hit_or n trail miss (some b) hit h =
        Ensures-bind engine _ _ (Ensures-charge engine)
          (λ _ _. Ensures-pure engine _ _ (hit-Judged n trail b (hit b refl)))
    Ensures-hit_or n trail miss none hit h = h

    -- `evaluate_node` under its own trail judges the node.
    pub Ensures-evaluate_node :
        (n : NodeId) (trail : NodeTrail)
        → Ensures engine
            (Judged (NodeAt n trail))
            (evaluate_node engine policy_id subject inner n (with_node trail n))
    unfolding evaluate_node evaluate_expr_cached
    Ensures-evaluate_node n trail =
        Ensures-bind engine
          {P = λ e. get_expression engine.lookup policy_id n.resource n.relation ≡ Error.ok e} _ _
          (Ensures-lift engine _ _ (λ e p. p))
          λ e p.
            Ensures-bind engine _ _ (Ensures-cached engine (key_of engine policy_id subject n))
              λ o hit. Ensures-hit_or n trail _ o hit (
                Ensures-bind engine _ _ (sound n e (with_node trail n))
                  (λ x j. Ensures-store_result n trail x (miss-Judged n trail e x p j)))
