-- ===== src/Zanzibar/Engine/Flattening.antt =====
-- The parser's flattening of nested unions and intersections, against the semantics.
use hub_rs.Prelude.{Bool, true, false, ◌↔◌, ◌⊎◌, inl, inr}
use hub_rs.Text.{Text}
use hub_rs.Identity.{Did}
use hub_rs.Zanzibar.Expression.{
  RelationExpression, Expressions, this, computed_userset, tuple_to_userset, union, intersection,
  difference, nil, cons, extend,
}
use hub_rs.Zanzibar.Expression.Parser.{in_union, in_intersection, merge_union, merge_intersection}
use hub_rs.Zanzibar.Engine.State.{NodeId}
use hub_rs.Zanzibar.Engine.Evaluate.{PermissionEngine}
use hub_rs.Zanzibar.Engine.Semantics.{
  Value, union_some, union_none, intersection_all, intersection_not, Some, here, there, Every, stop,
  more,
}

module _ (engine : PermissionEngine) (policy_id : Text) (subject : Did) (n : NodeId) where
  Some-left :
      (xs ys : Expressions) (b : Bool)
      → Some engine policy_id subject n xs b
      → Some engine policy_id subject n (extend xs ys) b
  unfolding extend
  Some-left nil ys b s = elim s [ ]
  Some-left (cons x xs) ys b (here v) = here v
  Some-left (cons x xs) ys b (there s) = there (Some-left xs ys b s)

  Some-right :
      (xs ys : Expressions) (b : Bool)
      → Some engine policy_id subject n ys b
      → Some engine policy_id subject n (extend xs ys) b
  unfolding extend
  Some-right nil ys b s = s
  Some-right (cons x xs) ys b s = there (Some-right xs ys b s)

  Some-split :
      (xs ys : Expressions) (b : Bool)
      → Some engine policy_id subject n (extend xs ys) b
      → Some engine policy_id subject n xs b ⊎ Some engine policy_id subject n ys b
  unfolding extend
  Some-split nil ys b s = inr s
  Some-split (cons x xs) ys b (here v) = inl (here v)
  Some-split (cons x xs) ys b (there s) = elim (Some-split xs ys b s) [
    | inl t ↦ inl (there t)
    | inr t ↦ inr t
  ]

  Every-join :
      (xs ys : Expressions) (b : Bool)
      → Every engine policy_id subject n xs b
      → Every engine policy_id subject n ys b
      → Every engine policy_id subject n (extend xs ys) b
  unfolding extend
  Every-join nil ys b u v = v
  Every-join (cons x xs) ys b (more a u) v = more a (Every-join xs ys b u v)

  Every-left :
      (xs ys : Expressions) (b : Bool)
      → Every engine policy_id subject n (extend xs ys) b
      → Every engine policy_id subject n xs b
  unfolding extend
  Every-left nil ys b u = stop
  Every-left (cons x xs) ys b (more a u) = more a (Every-left xs ys b u)

  Every-right :
      (xs ys : Expressions) (b : Bool)
      → Every engine policy_id subject n (extend xs ys) b
      → Every engine policy_id subject n ys b
  unfolding extend
  Every-right nil ys b u = u
  Every-right (cons x xs) ys b (more a u) = Every-right xs ys b u

  single :
      (e : RelationExpression) (b : Bool)
      → Some engine policy_id subject n (cons e nil) b
      → Value engine policy_id subject n e b
  single e b (here v) = v
  single e b (there s) = elim s [ ]

  alone :
      (e : RelationExpression) (b : Bool)
      → Every engine policy_id subject n (cons e nil) b
      → Value engine policy_id subject n e b
  alone e b (more v s) = v

  union-Some_inside :
      (es : Expressions)
      → Value engine policy_id subject n (union es) true
      → Some engine policy_id subject n es true
  union-Some_inside es (union_some s) = s

  union-Every_inside :
      (es : Expressions)
      → Value engine policy_id subject n (union es) false
      → Every engine policy_id subject n es false
  union-Every_inside es (union_none s) = s

  intersection-Some_inside :
      (es : Expressions)
      → Value engine policy_id subject n (intersection es) false
      → Some engine policy_id subject n es false
  intersection-Some_inside es (intersection_not s) = s

  intersection-Every_inside :
      (es : Expressions)
      → Value engine policy_id subject n (intersection es) true
      → Every engine policy_id subject n es true
  intersection-Every_inside es (intersection_all s) = s

  union-Some_operand :
      (e : RelationExpression)
      → Some engine policy_id subject n (in_union e) true ↔ Value engine policy_id subject n e true
  union-Some_operand this = (single this true, λ v. here v)
  union-Some_operand (computed_userset c) = (single (computed_userset c) true, λ v. here v)
  union-Some_operand (tuple_to_userset c d) = (single (tuple_to_userset c d) true, λ v. here v)
  union-Some_operand (union es) = (λ s. union_some s, union-Some_inside es)
  union-Some_operand (intersection es) = (single (intersection es) true, λ v. here v)
  union-Some_operand (difference c d) = (single (difference c d) true, λ v. here v)

  union-Every_operand :
      (e : RelationExpression)
      → Every engine policy_id subject n (in_union e) false
        ↔ Value engine policy_id subject n e false
  union-Every_operand this = (alone this false, λ v. more v stop)
  union-Every_operand (computed_userset c) = (alone (computed_userset c) false, λ v. more v stop)
  union-Every_operand (tuple_to_userset c d) =
      (alone (tuple_to_userset c d) false, λ v. more v stop)
  union-Every_operand (union es) = (λ s. union_none s, union-Every_inside es)
  union-Every_operand (intersection es) = (alone (intersection es) false, λ v. more v stop)
  union-Every_operand (difference c d) = (alone (difference c d) false, λ v. more v stop)

  intersection-Some_operand :
      (e : RelationExpression)
      → Some engine policy_id subject n (in_intersection e) false
        ↔ Value engine policy_id subject n e false
  intersection-Some_operand this = (single this false, λ v. here v)
  intersection-Some_operand (computed_userset c) = (single (computed_userset c) false, λ v. here v)
  intersection-Some_operand (tuple_to_userset c d) =
      (single (tuple_to_userset c d) false, λ v. here v)
  intersection-Some_operand (union es) = (single (union es) false, λ v. here v)
  intersection-Some_operand (intersection es) =
      (λ s. intersection_not s, intersection-Some_inside es)
  intersection-Some_operand (difference c d) = (single (difference c d) false, λ v. here v)

  intersection-Every_operand :
      (e : RelationExpression)
      → Every engine policy_id subject n (in_intersection e) true
        ↔ Value engine policy_id subject n e true
  intersection-Every_operand this = (alone this true, λ v. more v stop)
  intersection-Every_operand (computed_userset c) =
      (alone (computed_userset c) true, λ v. more v stop)
  intersection-Every_operand (tuple_to_userset c d) =
      (alone (tuple_to_userset c d) true, λ v. more v stop)
  intersection-Every_operand (union es) = (alone (union es) true, λ v. more v stop)
  intersection-Every_operand (intersection es) =
      (λ s. intersection_all s, intersection-Every_inside es)
  intersection-Every_operand (difference c d) = (alone (difference c d) true, λ v. more v stop)

  -- For operands that may be flattened: some operand has the value exactly if one of the two has.
  Some-merged :
      (xs ys : Expressions) (l r : RelationExpression) (b : Bool)
      → (Some engine policy_id subject n xs b ↔ Value engine policy_id subject n l b)
      → (Some engine policy_id subject n ys b ↔ Value engine policy_id subject n r b)
      → Some engine policy_id subject n (extend xs ys) b
        ↔ Some engine policy_id subject n (cons l (cons r nil)) b
  Some-merged xs ys l r b u v = (from, to)
    where
      from :
          Some engine policy_id subject n (extend xs ys) b
          → Some engine policy_id subject n (cons l (cons r nil)) b
      from s = elim (Some-split xs ys b s) [ inl x ↦ here (u.0 x) | inr y ↦ there (here (v.0 y)) ]

      to :
          Some engine policy_id subject n (cons l (cons r nil)) b
          → Some engine policy_id subject n (extend xs ys) b
      to (here x) = Some-left xs ys b (u.1 x)
      to (there y) = Some-right xs ys b (v.1 (single r b y))

  Every-merged :
      (xs ys : Expressions) (l r : RelationExpression) (b : Bool)
      → (Every engine policy_id subject n xs b ↔ Value engine policy_id subject n l b)
      → (Every engine policy_id subject n ys b ↔ Value engine policy_id subject n r b)
      → Every engine policy_id subject n (extend xs ys) b
        ↔ Every engine policy_id subject n (cons l (cons r nil)) b
  Every-merged xs ys l r b u v = (from, to)
    where
      from :
          Every engine policy_id subject n (extend xs ys) b
          → Every engine policy_id subject n (cons l (cons r nil)) b
      from s = more (u.0 (Every-left xs ys b s)) (more (v.0 (Every-right xs ys b s)) stop)

      to :
          Every engine policy_id subject n (cons l (cons r nil)) b
          → Every engine policy_id subject n (extend xs ys) b
      to (more x s) = Every-join xs ys b (u.1 x) (v.1 (alone r b s))

-- A merged union has a value exactly if the union of the two operands, nested as they are written,
-- has it, and a merged intersection likewise.
pub merge_keeps_values :
    (engine : PermissionEngine) (policy_id : Text) (subject : Did) (n : NodeId)
    (l r : RelationExpression) (b : Bool)
    → (Value engine policy_id subject n (merge_union l r) b
        ↔ Value engine policy_id subject n (union (cons l (cons r nil))) b)
      × (Value engine policy_id subject n (merge_intersection l r) b
          ↔ Value engine policy_id subject n (intersection (cons l (cons r nil))) b)
unfolding merge_union merge_intersection
merge_keeps_values engine policy_id subject n l r true =
    let s =
      Some-merged engine policy_id subject n _ _ l r true
        (union-Some_operand engine policy_id subject n l)
        (union-Some_operand engine policy_id subject n r) in
    let e =
      Every-merged engine policy_id subject n _ _ l r true
        (intersection-Every_operand engine policy_id subject n l)
        (intersection-Every_operand engine policy_id subject n r) in
    (
      (
        (λ v. union_some (s.0 (union-Some_inside engine policy_id subject n _ v))),
        (λ v. union_some (s.1 (union-Some_inside engine policy_id subject n _ v))),
      ),
      (
        (λ v. intersection_all (e.0 (intersection-Every_inside engine policy_id subject n _ v))),
        (λ v. intersection_all (e.1 (intersection-Every_inside engine policy_id subject n _ v))),
      ),
    )
merge_keeps_values engine policy_id subject n l r false =
    let e =
      Every-merged engine policy_id subject n _ _ l r false
        (union-Every_operand engine policy_id subject n l)
        (union-Every_operand engine policy_id subject n r) in
    let s =
      Some-merged engine policy_id subject n _ _ l r false
        (intersection-Some_operand engine policy_id subject n l)
        (intersection-Some_operand engine policy_id subject n r) in
    (
      (
        (λ v. union_none (e.0 (union-Every_inside engine policy_id subject n _ v))),
        (λ v. union_none (e.1 (union-Every_inside engine policy_id subject n _ v))),
      ),
      (
        (λ v. intersection_not (s.0 (intersection-Some_inside engine policy_id subject n _ v))),
        (λ v. intersection_not (s.1 (intersection-Some_inside engine policy_id subject n _ v))),
      ),
    )
