-- ===== src/Zanzibar/Policy/OwnerAccess.antt =====
-- What the rules of a `defra` policy mean for the owner of an object, by the engine's semantics.
use hub_rs.Prelude.{
  Bool, true, false, none, ◌≡◌, refl, ◌⊎◌, inl, inr, arith, ◌||◌, ◌&&◌, ◌==◌, nat_eq, list_eq,
  list_beq_iff, subst, sym,
}
use hub_rs.Text.{Text}
use hub_rs.Identity.{Did}
use hub_rs.Zanzibar.Error.{ok}
use hub_rs.Zanzibar.Expression.{
  RelationExpression, Expressions, this, computed_userset, tuple_to_userset, union, intersection,
  difference, nil, cons, is_this,
}
use hub_rs.Zanzibar.Policy.{Relation}
use hub_rs.Zanzibar.Policy.Dpi.{
  owner, expression_includes_owner, any_includes_owner, all_include_owner,
  find_disallowed_operation, find_in, validate_dpi_relation,
}
use hub_rs.Zanzibar.Engine.State.{NodeId}
use hub_rs.Zanzibar.Engine.Evaluate.{PermissionEngine}
use hub_rs.Zanzibar.Engine.Semantics.{
  Value, computed, union_some, intersection_all, excluded, NodeValue, Some, here, there, Every,
  stop, more,
}

-- The expression neither excludes nor looks at other objects.
unfoldable mutual
  pub is_local : RelationExpression → Bool
  is_local this = true
  is_local (computed_userset relation) = true
  is_local (tuple_to_userset tuple relation) = false
  is_local (union es) = are_local es
  is_local (intersection es) = are_local es
  is_local (difference base subtract) = false

  pub are_local : Expressions → Bool
  are_local nil = true
  are_local (cons e es) = is_local e && are_local es

and_left : (a b : Bool) → (a && b) ≡ true → a ≡ true
and_left a b h = ground arith

and_right : (a b : Bool) → (a && b) ≡ true → b ≡ true
and_right a b h = ground arith

or_split : (a b : Bool) → (a || b) ≡ true → (a ≡ true) ⊎ (b ≡ true)
or_split true b h = inl refl
or_split false b h = inr h

module _ (engine : PermissionEngine) (policy_id : Text) (subject : Did) (n : NodeId)
    (owns : NodeValue engine policy_id subject (record n { relation = owner }) true) where
  mutual
    unfolding expression_includes_owner is_local

    owner_holds :
        (e : RelationExpression)
        → expression_includes_owner e ≡ true
        → is_local e ≡ true
        → Value engine policy_id subject n e true
    owner_holds this h l = cc
    owner_holds (computed_userset relation) h l =
        let same : relation ≡ owner = (list_beq_iff relation owner).0 h in
        computed (
          subst (λ r. NodeValue engine policy_id subject (record n { relation = r }) true)
            (sym same) owns)
    owner_holds (tuple_to_userset tuple relation) h l = cc
    owner_holds (union es) h l = union_some (owner_grants_one es h l)
    owner_holds (intersection es) h l = intersection_all (owner_grants_all es h l)
    owner_holds (difference base subtract) h l = cc

    owner_grants_one :
        (es : Expressions)
        → any_includes_owner es ≡ true
        → are_local es ≡ true
        → Some engine policy_id subject n es true
    owner_grants_one nil h l = cc
    owner_grants_one (cons e es) h l =
        elim (or_split (expression_includes_owner e) (any_includes_owner es) h) [
          | inl p ↦ here (owner_holds e p (and_left (is_local e) (are_local es) l))
          | inr p ↦ there (owner_grants_one es p (and_right (is_local e) (are_local es) l))
        ]

    owner_grants_all :
        (es : Expressions)
        → all_include_owner es ≡ true
        → are_local es ≡ true
        → Every engine policy_id subject n es true
    owner_grants_all nil h l = stop
    owner_grants_all (cons e es) h l =
        more
          (owner_holds e (and_left (expression_includes_owner e) (all_include_owner es) h)
            (and_left (is_local e) (are_local es) l))
          (owner_grants_all es (and_right (expression_includes_owner e) (all_include_owner es) h)
            (and_right (is_local e) (are_local es) l))

mutual
  unfolding find_disallowed_operation

  is_allowed : (e : RelationExpression) → find_disallowed_operation e ≡ none
  is_allowed this = refl
  is_allowed (computed_userset relation) = refl
  is_allowed (tuple_to_userset tuple relation) = refl
  is_allowed (union es) = are_allowed es
  is_allowed (intersection es) = are_allowed es
  is_allowed (difference base subtract) = rw (is_allowed base) (is_allowed subtract)

  are_allowed : (es : Expressions) → find_in es ≡ none
  are_allowed nil = refl
  are_allowed (cons e es) = rw (is_allowed e) (are_allowed es)

-- The owner keeps every permission that passes the rules by an expression of unions and
-- intersections over this object's relations: who holds `owner` on an object holds the permission.
pub owner_access :
    (engine : PermissionEngine) (policy_id : Text) (subject : Did) (n : NodeId) (resource : Text)
    (r : Relation)
    → validate_dpi_relation resource r ≡ ok tt
    → (r.name == owner) ≡ false
    → is_this r.expression ≡ false
    → is_local r.expression ≡ true
    → NodeValue engine policy_id subject (record n { relation = owner }) true
    → Value engine policy_id subject n r.expression true
unfolding validate_dpi_relation
owner_access engine policy_id subject n resource r valid other computed_rel local owns =
    owner_holds engine policy_id subject n owns r.expression (ground arith) local

passes :
    (resource : Text) (r : Relation)
    → is_this r.expression ≡ false
    → expression_includes_owner r.expression ≡ true
    → validate_dpi_relation resource r ≡ ok tt
unfolding validate_dpi_relation
passes resource r h i = ground (arith, is_allowed r.expression)

or_true_right : (a : Bool) → (a || true) ≡ true
or_true_right a = ground arith

exclusion_includes_owner :
    (base : RelationExpression)
    → expression_includes_owner (difference base (computed_userset owner)) ≡ true
unfolding expression_includes_owner
exclusion_includes_owner base =
    rw ((list_beq_iff owner owner).1 refl) (or_true_right (expression_includes_owner base))

exclusion-is_this :
    (base subtract : RelationExpression) → is_this (difference base subtract) ≡ false
unfolding is_this
exclusion-is_this base subtract = refl

-- An exclusion of the owner passes the rules: whatever the base, a permission defined as the base
-- less `owner` is accepted, and who holds `owner` on an object is denied it.
pub owner_excluded :
    (engine : PermissionEngine) (policy_id : Text) (subject : Did) (n : NodeId) (resource : Text)
    (r : Relation) (base : RelationExpression)
    → r.expression ≡ difference base (computed_userset owner)
    → NodeValue engine policy_id subject (record n { relation = owner }) true
    → (validate_dpi_relation resource r ≡ ok tt)
      × Value engine policy_id subject n r.expression false
owner_excluded engine policy_id subject n resource r base e owns = (
  passes resource r (rw e (exclusion-is_this base (computed_userset owner)))
      (rw e (exclusion_includes_owner base)),
  rw e (excluded (computed owns)),
)
