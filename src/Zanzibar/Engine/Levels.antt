-- ===== src/Zanzibar/Engine/Levels.antt =====
-- The derivations of the semantics, against those cut into levels.
use Prim.Native.Nat.{max}
use hub_rs.Prelude.{ℕ, zero, suc, Bool, true, List, [], ◌∷◌, map, inl, inr, arith}
use hub_rs.Text.{Text}
use hub_rs.Identity.{Did}
use hub_rs.Zanzibar.Expression.{
  RelationExpression, Expressions, this, computed_userset, tuple_to_userset, union, intersection,
  difference, nil, cons,
}
use hub_rs.Zanzibar.Engine.State.{NodeId, NodeTrail}
use hub_rs.Zanzibar.Engine.Evaluate.{PermissionEngine}
use hub_rs.Zanzibar.Engine.Semantics.{
  Edge, grant, skip, to, this_edge, target_edge, subject_edge, Value, direct, through, computed,
  by_target, by_subject, union_some, intersection_all, excluded_not, NodeValue, defined, Edges,
  granting, leading, later, Some, here, there, Every, stop, more,
}
use hub_rs.Zanzibar.Engine.Unfolding.{AnyEdge, Holds, AnyHolds, AllHold, Within, Fresh}
use hub_rs.Zanzibar.Engine.LoopFree.{Holds-map, Within-le, AllHold-map}

module _ (engine : PermissionEngine) (policy_id : Text) (subject : Did) where
  abbrev V : NodeId → RelationExpression → Bool → Type 0
  V = Value engine policy_id subject

  abbrev N : NodeId → Bool → Type 0
  N = NodeValue engine policy_id subject

  abbrev W : ℕ → NodeId → Type 0
  W = Within engine policy_id subject

  -- What the nodes of `G` grant, the semantics grants, if it grants those nodes.
  module _ {G : NodeId → Type 0} (granted : (n : NodeId) → G n → N n true) where
    Edges-granted : (es : List Edge) → AnyEdge G es → Edges engine policy_id subject es true
    Edges-granted [] h = absurd h
    Edges-granted (grant ∷ es) h = granting
    Edges-granted (skip ∷ es) h = later (Edges-granted es h)
    Edges-granted (to n ∷ es) (inl g) = leading (granted n g)
    Edges-granted (to n ∷ es) (inr h) = later (Edges-granted es h)

    mutual
      pub holds_granted :
          (n : NodeId) (e : RelationExpression) → Holds engine policy_id subject G n e → V n e true
      holds_granted n this (inl d) = direct d
      holds_granted n this (inr (ss, p, h)) =
          through p (Edges-granted (map (this_edge engine policy_id subject) ss) h)
      holds_granted n (computed_userset relation) h = computed (granted _ h)
      holds_granted n (tuple_to_userset tuple relation) (inl (ts, p, h)) =
          by_target p (Edges-granted (map (target_edge relation) ts) h)
      holds_granted n (tuple_to_userset tuple relation) (inr (ss, p, h)) =
          by_subject p (Edges-granted (map (subject_edge relation) ss) h)
      holds_granted n (union es) h = union_some (any_granted n es h)
      holds_granted n (intersection es) h = intersection_all (all_granted n es h)
      holds_granted n (difference base subtract) (h, d) = excluded_not (holds_granted n base h) d

      any_granted :
          (n : NodeId) (es : Expressions)
          → AnyHolds engine policy_id subject G n es
          → Some engine policy_id subject n es true
      any_granted n nil h = absurd h
      any_granted n (cons e es) (inl h) = here (holds_granted n e h)
      any_granted n (cons e es) (inr h) = there (any_granted n es h)

      all_granted :
          (n : NodeId) (es : Expressions)
          → AllHold engine policy_id subject G n es
          → Every engine policy_id subject n es true
      all_granted n nil h = stop
      all_granted n (cons e es) (h, hs) = more (holds_granted n e h) (all_granted n es hs)

  pub Fresh-NodeValue :
      (k : ℕ) (trail : NodeTrail) (n : NodeId) → Fresh engine policy_id subject k trail n → N n true
  Fresh-NodeValue zero trail n h = absurd h
  Fresh-NodeValue (suc k) trail n (out, e, p, h) =
      defined p (holds_granted (Fresh-NodeValue k (n ∷ trail)) n e h)

  -- Every derivation has a number of levels.
  mutual
    value_within :
        {n : NodeId} {e : RelationExpression}
        → V n e true
        → (k : ℕ) × Holds engine policy_id subject (W k) n e
    value_within (direct p) = (0, inl p)
    value_within (through {ss = ss} p h) = let (k, w) = Edges-within h in (k, inr (ss, p, w))
    value_within (computed h) = node_within h
    value_within (by_target {ts = ts} p h) = let (k, w) = Edges-within h in (k, inl (ts, p, w))
    value_within (by_subject {ss = ss} p h) = let (k, w) = Edges-within h in (k, inr (ss, p, w))
    value_within (union_some h) = Some-within h
    value_within (intersection_all h) = Every-within h
    value_within (excluded_not h d) = let (k, w) = value_within h in (k, (w, d))

    node_within : {n : NodeId} → N n true → (k : ℕ) × W k n
    node_within (defined {e = e} p h) = let (k, w) = value_within h in (suc k, (e, p, w))

    Edges-within :
        {es : List Edge} → Edges engine policy_id subject es true → (k : ℕ) × AnyEdge (W k) es
    Edges-within granting = (0, tt)
    Edges-within (leading h) = let (k, w) = node_within h in (k, inl w)
    Edges-within (later {x = grant} h) = (0, tt)
    Edges-within (later {x = skip} h) = Edges-within h
    Edges-within (later {x = to n} h) = let (k, w) = Edges-within h in (k, inr w)

    Some-within :
        {n : NodeId} {es : Expressions}
        → Some engine policy_id subject n es true
        → (k : ℕ) × AnyHolds engine policy_id subject (W k) n es
    Some-within (here h) = let (k, w) = value_within h in (k, inl w)
    Some-within (there h) = let (k, w) = Some-within h in (k, inr w)

    Every-within :
        {n : NodeId} {es : Expressions}
        → Every engine policy_id subject n es true
        → (k : ℕ) × AllHold engine policy_id subject (W k) n es
    Every-within stop = (0, tt)
    Every-within {n} (more {e = e} {es = es} h hs) =
        let (j, w) = value_within h in
        let (k, ws) = Every-within hs in
        (
          max j k,
          (
            Holds-map engine policy_id subject
                (Within-le engine policy_id subject j (max j k) (omega arith)) n e w,
            AllHold-map engine policy_id subject
                (Within-le engine policy_id subject k (max j k) (omega arith)) n es ws,
          ),
        )

  -- A node with the value `true` grants within some number of levels.
  pub NodeValue-Within : {n : NodeId} → N n true → (k : ℕ) × W k n
  NodeValue-Within h = node_within h
