-- ===== src/Zanzibar/Engine/Consistency.antt =====
-- The two values of the semantics against each other.
use hub_rs.Prelude.{Bool, true, false, List, map, ◌≡◌, subst}
use hub_rs.Text.{Text}
use hub_rs.Identity.{Did}
use hub_rs.Zanzibar.Error.{Result, ok}
use hub_rs.Zanzibar.Expression.{RelationExpression, Expressions}
use hub_rs.Zanzibar.Engine.State.{NodeId}
use hub_rs.Zanzibar.Engine.Evaluate.{PermissionEngine}
use hub_rs.Zanzibar.Engine.Semantics.{
  Edge, this_edge, target_edge, subject_edge, Value, direct, through, nowhere, computed, by_target,
  by_subject, by_none, union_some, union_none, intersection_all, intersection_not, excluded_not,
  no_base, excluded, NodeValue, defined, Edges, granting, leading, later, done, skipping, denying,
  Some, here, there, Every, stop, more,
}

pub same_ok : {A : Type 0} {r : Result A} {a b : A} → r ≡ ok a → r ≡ ok b → a ≡ b
same_ok p q = cc

module _ (engine : PermissionEngine) (policy_id : Text) (subject : Did) where
  abbrev V : NodeId → RelationExpression → Bool → Type 0
  V = Value engine policy_id subject

  abbrev N : NodeId → Bool → Type 0
  N = NodeValue engine policy_id subject

  abbrev E : List Edge → Bool → Type 0
  E = Edges engine policy_id subject

  mutual
    value_clash : {n : NodeId} {e : RelationExpression} → V n e true → V n e false → ⊥
    value_clash (direct p) (nowhere q r d) = cc
    value_clash (through p t) (nowhere q r d) =
        edges_clash t
          (subst (λ ss. E (map (this_edge engine policy_id subject) ss) false) (same_ok r p) d)
    value_clash (computed t) (computed d) = node_clash t d
    value_clash (by_target {relation = l} p t) (by_none q d r d') =
        edges_clash t (subst (λ ts. E (map (target_edge l) ts) false) (same_ok q p) d)
    value_clash (by_subject {relation = l} p t) (by_none q d r d') =
        edges_clash t (subst (λ ss. E (map (subject_edge l) ss) false) (same_ok r p) d')
    value_clash (union_some t) (union_none d) = Some-clash t d
    value_clash (intersection_all t) (intersection_not d) = Every-clash t d
    value_clash (excluded_not t u) (no_base d) = value_clash t d
    value_clash (excluded_not t u) (excluded d) = denial_clash u d

    node_clash : {n : NodeId} → N n true → N n false → ⊥
    node_clash {n} (defined p t) (defined q d) =
        value_clash t (subst (λ e. V n e false) (same_ok q p) d)

    edges_clash : {es : List Edge} → E es true → E es false → ⊥
    edges_clash granting d = elim d [ ]
    edges_clash (leading t) (denying d ds) = node_clash t d
    edges_clash (later t) (skipping ds) = edges_clash t ds
    edges_clash (later t) (denying d ds) = edges_clash t ds

    Some-clash :
        {n : NodeId} {es : Expressions}
        → Some engine policy_id subject n es true
        → Every engine policy_id subject n es false
        → ⊥
    Some-clash (here t) (more d ds) = value_clash t d
    Some-clash (there t) (more d ds) = Some-clash t ds

    Every-clash :
        {n : NodeId} {es : Expressions}
        → Every engine policy_id subject n es true
        → Some engine policy_id subject n es false
        → ⊥
    Every-clash stop d = elim d [ ]
    Every-clash (more t ts) (here d) = value_clash t d
    Every-clash (more t ts) (there d) = Every-clash ts d

    denial_clash : {n : NodeId} {e : RelationExpression} → V n e false → V n e true → ⊥
    denial_clash (nowhere q r d) (direct p) = cc
    denial_clash (nowhere q r d) (through p t) =
        edges_denial d
          (subst (λ ss. E (map (this_edge engine policy_id subject) ss) true) (same_ok p r) t)
    denial_clash (computed d) (computed t) = node_denial d t
    denial_clash (by_none {relation = l} q d r d') (by_target p t) =
        edges_denial d (subst (λ ts. E (map (target_edge l) ts) true) (same_ok p q) t)
    denial_clash (by_none {relation = l} q d r d') (by_subject p t) =
        edges_denial d' (subst (λ ss. E (map (subject_edge l) ss) true) (same_ok p r) t)
    denial_clash (union_none d) (union_some t) = Every-denial d t
    denial_clash (intersection_not d) (intersection_all t) = Some-denial d t
    denial_clash (no_base d) (excluded_not t u) = denial_clash d t
    denial_clash (excluded d) (excluded_not t u) = value_clash d u

    node_denial : {n : NodeId} → N n false → N n true → ⊥
    node_denial {n} (defined q d) (defined p t) =
        denial_clash d (subst (λ e. V n e true) (same_ok p q) t)

    edges_denial : {es : List Edge} → E es false → E es true → ⊥
    edges_denial done t = elim t [ ]
    edges_denial (skipping ds) (later t) = edges_denial ds t
    edges_denial (denying d ds) (leading t) = node_denial d t
    edges_denial (denying d ds) (later t) = edges_denial ds t

    Some-denial :
        {n : NodeId} {es : Expressions}
        → Some engine policy_id subject n es false
        → Every engine policy_id subject n es true
        → ⊥
    Some-denial (here d) (more t ts) = denial_clash d t
    Some-denial (there d) (more t ts) = Some-denial d ts

    Every-denial :
        {n : NodeId} {es : Expressions}
        → Every engine policy_id subject n es false
        → Some engine policy_id subject n es true
        → ⊥
    Every-denial stop t = elim t [ ]
    Every-denial (more d ds) (here t) = denial_clash d t
    Every-denial (more d ds) (there t) = Every-denial ds t

-- No node has both values: what the stored tuples and loaded expressions grant, they do not deny.
pub NodeValue-unique :
    (engine : PermissionEngine) (policy_id : Text) (subject : Did) (n : NodeId)
    → NodeValue engine policy_id subject n true
    → ¬ NodeValue engine policy_id subject n false
NodeValue-unique engine policy_id subject n t d = node_clash engine policy_id subject t d

pub Value-unique :
    (engine : PermissionEngine) (policy_id : Text) (subject : Did) (n : NodeId)
    (e : RelationExpression)
    → Value engine policy_id subject n e true
    → ¬ Value engine policy_id subject n e false
Value-unique engine policy_id subject n e t d = value_clash engine policy_id subject t d
