-- ===== src/Zanzibar/Engine/Unfolding.antt =====
-- Grants as a search would find them: derivations cut into levels of nodes, and those that visit
-- no node twice. Every grant has one of the second kind.
use hub_rs.Prelude.{ℕ, zero, suc, true, false, List, [], ◌∷◌, map, ◌≡◌, ◌⊎◌}
use hub_rs.Text.{Text}
use hub_rs.Identity.{Did}
use hub_rs.Zanzibar.Error.{ok}
use hub_rs.Zanzibar.Expression.{
  RelationExpression, Expressions, this, computed_userset, tuple_to_userset, union, intersection,
  difference, nil, cons,
}
use hub_rs.Zanzibar.Subject.{Subject}
use hub_rs.Zanzibar.Relationship.{ObjectRef}
use hub_rs.Zanzibar.Lookup.{get_expression}
use hub_rs.Zanzibar.Engine.State.{NodeId, NodeTrail, trail_contains}
use hub_rs.Zanzibar.Engine.Evaluate.{PermissionEngine}
use hub_rs.Zanzibar.Engine.Semantics.{
  Edge, grant, skip, to, this_edge, target_edge, subject_edge, Value,
}

-- Some edge grants, if the nodes of `G` grant.
abbrev pub AnyEdge : (NodeId → Type 0) → List Edge → Type 0
AnyEdge G [] = ⊥
AnyEdge G (grant ∷ es) = Unit
AnyEdge G (skip ∷ es) = AnyEdge G es
AnyEdge G (to n ∷ es) = G n ⊎ AnyEdge G es

module _ (engine : PermissionEngine) (policy_id : Text) (subject : Did) where
  open engine use {store, lookup}

  -- One level: the expression grants at a node, if the nodes of `G` grant.
  abbrev mutual
    pub Holds : (NodeId → Type 0) → NodeId → RelationExpression → Type 0
    Holds G n this =
        (store.check_permission_direct policy_id n.resource n.object_id n.relation subject
          ≡ ok true)
        ⊎ ((ss : List Subject) × (store.get_relation_subjects policy_id n.resource n.object_id
                n.relation
              ≡ ok ss)
            × AnyEdge G (map (this_edge engine policy_id subject) ss))
    Holds G n (computed_userset relation) = G (record n { relation = relation })
    Holds G n (tuple_to_userset tuple relation) =
        ((ts : List ObjectRef) × (store.get_relation_targets policy_id n.resource n.object_id tuple
            ≡ ok ts)
          × AnyEdge G (map (target_edge relation) ts))
        ⊎ ((ss : List Subject) × (store.get_relation_subjects policy_id n.resource n.object_id tuple
              ≡ ok ss)
            × AnyEdge G (map (subject_edge relation) ss))
    Holds G n (union es) = AnyHolds G n es
    Holds G n (intersection es) = AllHold G n es
    Holds G n (difference base subtract) =
        Holds G n base × Value engine policy_id subject n subtract false

    pub AnyHolds : (NodeId → Type 0) → NodeId → Expressions → Type 0
    AnyHolds G n nil = ⊥
    AnyHolds G n (cons e es) = Holds G n e ⊎ AnyHolds G n es

    pub AllHold : (NodeId → Type 0) → NodeId → Expressions → Type 0
    AllHold G n nil = Unit
    AllHold G n (cons e es) = Holds G n e × AllHold G n es

  -- The node grants by a derivation of at most `k` levels.
  abbrev pub Within : ℕ → NodeId → Type 0
  Within zero n = ⊥
  Within (suc k) n =
      (e : RelationExpression) × (get_expression lookup policy_id n.resource n.relation ≡ ok e)
      × Holds (Within k) n e

  -- The same, with no node of the trail, and none twice on a branch.
  abbrev pub Fresh : ℕ → NodeTrail → NodeId → Type 0
  Fresh zero trail n = ⊥
  Fresh (suc k) trail n =
      (trail_contains trail n ≡ false)
      × (e : RelationExpression) × (get_expression lookup policy_id n.resource n.relation ≡ ok e)
      × Holds (Fresh k (n ∷ trail)) n e
