-- ===== src/Zanzibar/Engine/Semantics.antt =====
-- What a permission is, apart from how it is computed: the stored tuples and the loaded
-- expressions are a graph, and a value is a finite derivation over it. There is no trail, no cache
-- and no budget here.
use hub_rs.Prelude.{
  Bool, true, false, List, [], ◌∷◌, map, ◌≡◌, ◌&&◌, ◌==◌, nat_eq, list_eq, if◌then◌else◌,
}
use hub_rs.Text.{Text, is_empty}
use hub_rs.Identity.{Did}
use hub_rs.Zanzibar.Error.{ok}
use hub_rs.Zanzibar.Expression.{
  RelationExpression, Expressions, this, computed_userset, tuple_to_userset, union, intersection,
  difference, nil, cons,
}
use hub_rs.Zanzibar.Subject.{Subject, entity, entity_set}
use hub_rs.Zanzibar.Relationship.{ObjectRef}
use hub_rs.Zanzibar.Lookup.{get_expression, is_actor_resource}
use hub_rs.Zanzibar.Engine.State.{NodeId}
use hub_rs.Zanzibar.Engine.Evaluate.{PermissionEngine}

-- What a stored tuple leads to: a grant, nothing, or the value of another node.
pub data Edge : Type 0 where
  grant skip : Edge
  to : NodeId → Edge

-- The tuple `target` of a relation, read by `This`.
abbrev pub this_edge : PermissionEngine → Text → Did → Subject → Edge
this_edge engine policy_id subject (entity_set resource object_id relation) =
    if is_empty relation
    then (if is_actor_resource engine.lookup policy_id resource && object_id == subject.as_str
        then grant
        else skip)
    else to (record { resource = resource; object_id = object_id; relation = relation })
this_edge engine policy_id subject _ = skip

abbrev pub target_edge : Text → ObjectRef → Edge
target_edge relation target =
    to (record { resource = target.resource; object_id = target.object_id; relation = relation })

-- A subject of the tuple relation, read by `TupleToUserset`.
abbrev pub subject_edge : Text → Subject → Edge
subject_edge relation (entity_set resource object_id _) =
    to (record { resource = resource; object_id = object_id; relation = relation })
subject_edge relation (entity _) = skip
subject_edge relation _ = grant

module _ (engine : PermissionEngine) (policy_id : Text) (subject : Did) where
  open engine use {store, lookup}

  mutual
    -- The value of an expression at a node.
    pub data Value : NodeId → RelationExpression → Bool → Type 0 where
      direct :
          {n : NodeId}
          → store.check_permission_direct policy_id n.resource n.object_id n.relation subject
            ≡ ok true
          → Value n this true
      through :
          {n : NodeId} {ss : List Subject}
          → store.get_relation_subjects policy_id n.resource n.object_id n.relation ≡ ok ss
          → Edges (map (this_edge engine policy_id subject) ss) true
          → Value n this true
      nowhere :
          {n : NodeId} {ss : List Subject}
          → store.check_permission_direct policy_id n.resource n.object_id n.relation subject
            ≡ ok false
          → store.get_relation_subjects policy_id n.resource n.object_id n.relation ≡ ok ss
          → Edges (map (this_edge engine policy_id subject) ss) false
          → Value n this false
      computed :
          {n : NodeId} {relation : Text} {b : Bool}
          → NodeValue (record n { relation = relation }) b
          → Value n (computed_userset relation) b
      by_target :
          {n : NodeId} {tuple relation : Text} {ts : List ObjectRef}
          → store.get_relation_targets policy_id n.resource n.object_id tuple ≡ ok ts
          → Edges (map (target_edge relation) ts) true
          → Value n (tuple_to_userset tuple relation) true
      by_subject :
          {n : NodeId} {tuple relation : Text} {ss : List Subject}
          → store.get_relation_subjects policy_id n.resource n.object_id tuple ≡ ok ss
          → Edges (map (subject_edge relation) ss) true
          → Value n (tuple_to_userset tuple relation) true
      by_none :
          {n : NodeId} {tuple relation : Text} {ts : List ObjectRef} {ss : List Subject}
          → store.get_relation_targets policy_id n.resource n.object_id tuple ≡ ok ts
          → Edges (map (target_edge relation) ts) false
          → store.get_relation_subjects policy_id n.resource n.object_id tuple ≡ ok ss
          → Edges (map (subject_edge relation) ss) false
          → Value n (tuple_to_userset tuple relation) false
      union_some : {n : NodeId} {es : Expressions} → Some n es true → Value n (union es) true
      union_none : {n : NodeId} {es : Expressions} → Every n es false → Value n (union es) false
      intersection_all :
          {n : NodeId} {es : Expressions} → Every n es true → Value n (intersection es) true
      intersection_not :
          {n : NodeId} {es : Expressions} → Some n es false → Value n (intersection es) false
      excluded_not :
          {n : NodeId} {base subtract : RelationExpression}
          → Value n base true
          → Value n subtract false
          → Value n (difference base subtract) true
      no_base :
          {n : NodeId} {base subtract : RelationExpression}
          → Value n base false
          → Value n (difference base subtract) false
      excluded :
          {n : NodeId} {base subtract : RelationExpression}
          → Value n subtract true
          → Value n (difference base subtract) false

    -- The value of a node is that of the expression loaded for it.
    pub data NodeValue : NodeId → Bool → Type 0 where
      defined :
          {n : NodeId} {b : Bool} {e : RelationExpression}
          → get_expression lookup policy_id n.resource n.relation ≡ ok e
          → Value n e b
          → NodeValue n b

    -- Some edge grants, or every edge denies.
    pub data Edges : List Edge → Bool → Type 0 where
      granting : {es : List Edge} → Edges (grant ∷ es) true
      leading : {n : NodeId} {es : List Edge} → NodeValue n true → Edges (to n ∷ es) true
      later : {x : Edge} {es : List Edge} → Edges es true → Edges (x ∷ es) true
      done : Edges [] false
      skipping : {es : List Edge} → Edges es false → Edges (skip ∷ es) false
      denying :
          {n : NodeId} {es : List Edge}
          → NodeValue n false
          → Edges es false
          → Edges (to n ∷ es) false

    pub data Some : NodeId → Expressions → Bool → Type 0 where
      here :
          {n : NodeId} {e : RelationExpression} {es : Expressions} {b : Bool}
          → Value n e b
          → Some n (cons e es) b
      there :
          {n : NodeId} {e : RelationExpression} {es : Expressions} {b : Bool}
          → Some n es b
          → Some n (cons e es) b

    pub data Every : NodeId → Expressions → Bool → Type 0 where
      stop : {n : NodeId} {b : Bool} → Every n nil b
      more :
          {n : NodeId} {e : RelationExpression} {es : Expressions} {b : Bool}
          → Value n e b
          → Every n es b
          → Every n (cons e es) b
