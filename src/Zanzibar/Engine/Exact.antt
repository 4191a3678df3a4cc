-- ===== src/Zanzibar/Engine/Exact.antt =====
-- The evaluator of evaluate.rs against the derivations of `Semantics`.
use hub_rs.Prelude.{ℕ, zero, suc, Bool, true, false, ◌≡◌, refl, inl, inr, arith, ◌||◌}
use hub_rs.Text.{Text}
use hub_rs.Identity.{Did}
use hub_rs.Zanzibar.Error.{Result}
use hub_rs.Zanzibar.Error
use hub_rs.Zanzibar.Expression.{
  RelationExpression, Expressions, this, computed_userset, tuple_to_userset, union, intersection,
  difference, nil, cons,
}
use hub_rs.Zanzibar.Engine.State.{NodeId, NodeTrail}
use hub_rs.Zanzibar.Engine.Evaluate.{
  PermissionEngine, Eval, Evaluator, grant_or, union_arm, deny_or, intersection_arm, exclude,
  subtract_arm, difference_arm, evaluate_arm, evaluate_expr_inner,
}
use hub_rs.Zanzibar.Engine.Semantics.{
  Value, union_some, union_none, intersection_all, intersection_not, excluded_not, no_base,
  excluded, Some, here, there, Every, stop, more,
}
use hub_rs.Zanzibar.Engine.Consistency.{Value-unique}
use hub_rs.Zanzibar.Engine.Unfolding.{AnyHolds, AllHold, Fresh}
use hub_rs.Zanzibar.Engine.Ensures.{
  Ensures, Ensures-pure, Ensures-lift, Ensures-bind, Ensures-weaken, Ensures-guarded,
  Ensures-out_of_fuel,
}
use hub_rs.Zanzibar.Engine.Verdict.{Verdict, Judged, ValueAt}
use hub_rs.Zanzibar.Engine.LoopVerdict.{or_true, or_false}
use hub_rs.Zanzibar.Engine.TupleVerdict.{Ensures-this_arm, Ensures-tuple_arm, Ensures-computed_arm}

module _ (engine : PermissionEngine) (policy_id : Text) (subject : Did) where
  abbrev At : NodeId → RelationExpression → NodeTrail → Verdict
  At = ValueAt engine policy_id subject

  -- The rest of a union, entered with the taint `t`.
  abbrev UnionAt : Bool → NodeId → Expressions → NodeTrail → Verdict
  UnionAt t n es trail = record {
    grants = Some engine policy_id subject n es true;
    denies = (t ≡ false) × Every engine policy_id subject n es false;
    blocked =
        (k : ℕ) → ¬ AnyHolds engine policy_id subject (Fresh engine policy_id subject k trail) n es;
  }

  -- The rest of an intersection: only grants have gone before, and those are not tainted.
  abbrev IntersectionAt : NodeId → Expressions → NodeTrail → Verdict
  IntersectionAt n es trail = record {
    grants = Every engine policy_id subject n es true;
    denies = Some engine policy_id subject n es false;
    blocked =
        (k : ℕ) → ¬ AllHold engine policy_id subject (Fresh engine policy_id subject k trail) n es;
  }

  union-Judged :
      (t u : Bool) (n : NodeId) (e : RelationExpression) (es : Expressions) (trail : NodeTrail)
      (y : Eval)
      → Judged (At n e trail) (false, u)
      → Judged (UnionAt (t || u) n es trail) y
      → Judged (UnionAt t n (cons e es) trail) y
  union-Judged t u n e es trail (true, v) j (h, q) = (there h, q)
  union-Judged t true n e es trail (false, true) j b =
      λ k h. elim h [ inl g ↦ j k g | inr g ↦ b k g ]
  union-Judged t false n e es trail (false, true) j b =
      λ k h. elim h [ inl g ↦ j.1 k g | inr g ↦ b k g ]
  union-Judged t true n e es trail (false, false) j ((p, d), b) = absurd (or_true t p)
  union-Judged t false n e es trail (false, false) j ((p, d), b) =
      ((or_false t p, more j.0 d), λ k h. elim h [ inl g ↦ j.1 k g | inr g ↦ b k g ])

  intersection-Judged :
      (n : NodeId) (e : RelationExpression) (es : Expressions) (trail : NodeTrail) (y : Eval)
      → Value engine policy_id subject n e true
      → Judged (IntersectionAt n es trail) y
      → Judged (IntersectionAt n (cons e es) trail) y
  intersection-Judged n e es trail (true, u) v (h, q) = (more v h, q)
  intersection-Judged n e es trail (false, true) v b = λ k h. b k h.1
  intersection-Judged n e es trail (false, false) v (d, b) = (there d, λ k h. b k h.1)

  module _ (inner : Evaluator)
      (sound : (n : NodeId) (e : RelationExpression) (trail : NodeTrail)
        → Ensures engine
            (Judged (ValueAt engine policy_id subject n e trail))
            (inner n e trail)) where
    Ensures-union_arm :
        (n : NodeId) (trail : NodeTrail) (es : Expressions) (t : Bool)
        → Ensures engine
            (Judged (UnionAt t n es trail))
            (union_arm engine policy_id subject inner n trail es t)
    unfolding union_arm grant_or
    Ensures-union_arm n trail nil true = Ensures-pure engine _ _ (λ k h. h)
    Ensures-union_arm n trail nil false = Ensures-pure engine _ _ ((refl, stop), (λ k h. h))
    Ensures-union_arm n trail (cons e es) t =
        Ensures-bind engine _ _ (sound n e trail) (after (λ b. Ensures-union_arm n trail es b))
      where
        after :
            ((b : Bool)
              → Ensures engine
                  (Judged (UnionAt b n es trail))
                  (union_arm engine policy_id subject inner n trail es b))
            → (x : Eval) → Judged (At n e trail) x
            → Ensures engine (Judged (UnionAt t n (cons e es) trail)) (
                grant_or engine policy_id subject t
                  (union_arm engine policy_id subject inner n trail es)
                  x)
        after h (true, u) (v, p) = Ensures-pure engine _ _ (here v, p)
        after h (false, u) j =
            Ensures-weaken engine _ (h (t || u)) (λ y. union-Judged t u n e es trail y j)

    Ensures-intersection_arm :
        (n : NodeId) (trail : NodeTrail) (es : Expressions) (t : Bool)
        → t ≡ false
        → Ensures engine
            (Judged (IntersectionAt n es trail))
            (intersection_arm engine policy_id subject inner n trail es t)
    unfolding intersection_arm deny_or
    Ensures-intersection_arm n trail nil t p = Ensures-pure engine _ _ (stop, p)
    Ensures-intersection_arm n trail (cons e es) t p =
        Ensures-bind engine _ _ (sound n e trail)
          (after (λ b q. Ensures-intersection_arm n trail es b q))
      where
        after :
            ((b : Bool)
              → b ≡ false
              → Ensures engine
                  (Judged (IntersectionAt n es trail))
                  (intersection_arm engine policy_id subject inner n trail es b))
            → (x : Eval) → Judged (At n e trail) x
            → Ensures engine (Judged (IntersectionAt n (cons e es) trail)) (
                deny_or engine policy_id subject t
                  (intersection_arm engine policy_id subject inner n trail es)
                  x)
        after h (true, u) (v, q) =
            Ensures-weaken engine _ (h (t || u) (ground arith))
              (λ y. intersection-Judged n e es trail y v)
        after h (false, true) b = Ensures-pure engine _ _ (λ k g. b k g.0)
        after h (false, false) (d, b) = Ensures-pure engine _ _ (here d, λ k g. b k g.0)

    Ensures-exclude :
        (n : NodeId) (trail : NodeTrail) (base subtract : RelationExpression) (u : Bool) (y : Eval)
        → Value engine policy_id subject n base true
        → u ≡ false
        → Judged (At n subtract trail) y
        → Ensures engine
            (Judged (At n (difference base subtract) trail))
            (exclude engine policy_id subject u y)
    unfolding exclude
    Ensures-exclude n trail base subtract u (g, true) v p j = Ensures-lift engine _ _ (λ a q. cc)
    Ensures-exclude n trail base subtract true (true, false) v p j = cc
    Ensures-exclude n trail base subtract false (true, false) v p (w, q) =
        Ensures-pure engine _ _
          (excluded w, λ k h. Value-unique engine policy_id subject n subtract w h.1)
    Ensures-exclude n trail base subtract u (false, false) v p (d, b) =
        Ensures-pure engine _ _ (excluded_not v d, p)

    Ensures-difference_arm :
        (n : NodeId) (trail : NodeTrail) (base subtract : RelationExpression)
        → Ensures engine
            (Judged (At n (difference base subtract) trail))
            (difference_arm engine policy_id subject inner n trail base subtract)
    unfolding difference_arm subtract_arm
    Ensures-difference_arm n trail base subtract =
        Ensures-bind engine _ _ (sound n base trail) after
      where
        after :
            (x : Eval)
            → Judged (At n base trail) x
            → Ensures engine
                (Judged (At n (difference base subtract) trail))
                (subtract_arm engine policy_id subject (inner n subtract trail) x)
        after (true, u) (v, p) =
            Ensures-bind engine _ _ (sound n subtract trail)
              (λ y. Ensures-exclude n trail base subtract u y v p)
        after (false, true) b = Ensures-pure engine _ _ (λ k h. b k h.0)
        after (false, false) (d, b) = Ensures-pure engine _ _ (no_base d, λ k h. b k h.0)

    of_union :
        (n : NodeId) (es : Expressions) (trail : NodeTrail) (y : Eval)
        → Judged (UnionAt false n es trail) y
        → Judged (At n (union es) trail) y
    of_union n es trail (true, u) (h, q) = (union_some h, q)
    of_union n es trail (false, true) b = b
    of_union n es trail (false, false) ((p, d), b) = (union_none d, b)

    of_intersection :
        (n : NodeId) (es : Expressions) (trail : NodeTrail) (y : Eval)
        → Judged (IntersectionAt n es trail) y
        → Judged (At n (intersection es) trail) y
    of_intersection n es trail (true, u) (h, q) = (intersection_all h, q)
    of_intersection n es trail (false, true) b = b
    of_intersection n es trail (false, false) (d, b) = (intersection_not d, b)

    Ensures-evaluate_arm :
        (n : NodeId) (e : RelationExpression) (trail : NodeTrail)
        → Ensures engine
            (Judged (At n e trail))
            (evaluate_arm engine policy_id subject inner n e trail)
    unfolding evaluate_arm
    Ensures-evaluate_arm n this trail =
        Ensures-bind engine
          {P = λ b.
            engine.store.check_permission_direct policy_id n.resource n.object_id n.relation subject
            ≡ Error.ok b}
          _ _ (Ensures-lift engine _ _ (λ b p. p))
          (λ b p. Ensures-this_arm engine policy_id subject inner sound n trail b p)
    Ensures-evaluate_arm n (computed_userset relation) trail =
        Ensures-computed_arm engine policy_id subject inner sound n trail relation
    Ensures-evaluate_arm n (tuple_to_userset tuple relation) trail =
        Ensures-tuple_arm engine policy_id subject inner sound n trail tuple relation
    Ensures-evaluate_arm n (union es) trail =
        Ensures-weaken engine _ (Ensures-union_arm n trail es false) (λ y. of_union n es trail y)
    Ensures-evaluate_arm n (intersection es) trail =
        Ensures-weaken engine _ (Ensures-intersection_arm n trail es false refl)
          (λ y. of_intersection n es trail y)
    Ensures-evaluate_arm n (difference base subtract) trail =
        Ensures-difference_arm n trail base subtract

  -- Every level of the evaluator judges every expression at every node, on every trail.
  pub Ensures-evaluate_expr_inner :
      (fuel : ℕ) (n : NodeId) (e : RelationExpression) (trail : NodeTrail)
      → Ensures engine
          (Judged (At n e trail))
          (evaluate_expr_inner engine policy_id subject fuel n e trail)
  unfolding evaluate_expr_inner
  Ensures-evaluate_expr_inner zero n e trail = Ensures-out_of_fuel engine _
  Ensures-evaluate_expr_inner (suc fuel) n e trail =
      Ensures-guarded engine _ _
        (Ensures-evaluate_arm _ (Ensures-evaluate_expr_inner fuel) n e trail)
