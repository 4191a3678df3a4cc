-- ===== src/Zanzibar/Policy/Dpi.antt =====
-- crates/zanzibar/src/types/policy.rs: the rules of a `defra` policy, and the validation of a
-- relationship against a policy.
use hub_rs.Prelude.{
  Bool, true, false, Option, none, some, List, [], ◌∷◌, ◌&&◌, ◌||◌, ◌==◌, nat_eq, list_eq,
  if◌then◌else◌, not, or_else,
}
use hub_rs.Text.{Text, codes, is_empty}
use hub_rs.Identity
use hub_rs.Identity.{Did}
use hub_rs.Zanzibar.Error.{
  Result, ok, err, ◌>>=◌, ◌>>◌, fail_if, invalid_policy, actor_object, actor_subject, actor_did,
  relation_not_found, invalid_entity_set_reference, subject_restriction_violation,
  dpi_missing_owner, dpi_expression_missing_owner, dpi_disallowed_operation,
}
use hub_rs.Zanzibar.Expression.{
  RelationExpression, Expressions, this, computed_userset, tuple_to_userset, union, intersection,
  difference, nil, cons, is_this,
}
use hub_rs.Zanzibar.Subject.{Subject, entity, entity_set, SubjectRestriction, satisfies}
use hub_rs.Zanzibar.Relationship.{Relationship}
use hub_rs.Zanzibar.Policy.{
  Policy, Resource, Relation, find_relation, get_resource, get_relation, is_none,
}

abbrev pub owner : Text
owner = codes "owner"

unfoldable mutual
  pub expression_includes_owner : RelationExpression → Bool
  expression_includes_owner this = false
  expression_includes_owner (computed_userset relation) = relation == owner
  expression_includes_owner (tuple_to_userset tuple_relation computed_relation) =
      computed_relation == owner
  expression_includes_owner (union exprs) = any_includes_owner exprs
  expression_includes_owner (intersection exprs) = all_include_owner exprs
  expression_includes_owner (difference base subtract) =
      expression_includes_owner base || expression_includes_owner subtract

  pub any_includes_owner : Expressions → Bool
  any_includes_owner nil = false
  any_includes_owner (cons e es) = expression_includes_owner e || any_includes_owner es

  pub all_include_owner : Expressions → Bool
  all_include_owner nil = true
  all_include_owner (cons e es) = expression_includes_owner e && all_include_owner es

unfoldable mutual
  pub find_disallowed_operation : RelationExpression → Option Text
  find_disallowed_operation this = none
  find_disallowed_operation (computed_userset relation) = none
  find_disallowed_operation (tuple_to_userset tuple_relation computed_relation) = none
  find_disallowed_operation (union exprs) = find_in exprs
  find_disallowed_operation (intersection exprs) = find_in exprs
  find_disallowed_operation (difference base subtract) =
      or_else (find_disallowed_operation base) (find_disallowed_operation subtract)

  -- `find_map`.
  pub find_in : Expressions → Option Text
  find_in nil = none
  find_in (cons e es) = or_else (find_disallowed_operation e) (find_in es)

abbrev reject_operation : Text → Text → Option Text → Result (Unit {0})
reject_operation resource relation none = ok tt
reject_operation resource relation (some op) = err (dpi_disallowed_operation resource relation op)

-- The body of the inner loop.
unfoldable pub validate_dpi_relation : Text → Relation → Result (Unit {0})
validate_dpi_relation resource r =
    if r.name == owner
    then ok tt
    else if is_this r.expression
    then ok tt
    else if not (expression_includes_owner r.expression)
    then err (dpi_expression_missing_owner resource r.name)
    else reject_operation resource r.name (find_disallowed_operation r.expression)

unfoldable pub validate_dpi_relations : Text → List Relation → Result (Unit {0})
validate_dpi_relations resource [] = ok tt
validate_dpi_relations resource (r ∷ rs) =
    validate_dpi_relation resource r >> validate_dpi_relations resource rs

unfoldable pub validate_dpi_resources : List Resource → Result (Unit {0})
validate_dpi_resources [] = ok tt
validate_dpi_resources (r ∷ rs) = do
  fail_if (is_none (find_relation owner r.relations)) (dpi_missing_owner r.name)
  validate_dpi_relations r.name r.relations
  validate_dpi_resources rs

unfoldable pub validate_dpi : Policy → Result (Unit {0})
validate_dpi p = validate_dpi_resources p.resources

-- The closure `is_actor` of `Relationship::validate`.
unfoldable pub is_actor : Policy → Text → Bool
is_actor p resource = elim p.actor [ none ↦ false | some actor ↦ actor.name == resource ]

abbrev is_did_err : Identity.Result Did → Bool
is_did_err (Identity.Result.ok did) = false
is_did_err (Identity.Result.err e) = true

unfoldable pub check_actor_subject : Policy → Subject → Result (Unit {0})
check_actor_subject p (entity_set resource object_id _) =
    fail_if (is_actor p resource && is_did_err (Identity.new object_id))
      (invalid_policy actor_subject)
check_actor_subject p _ = ok tt

unfoldable pub check_reference : Policy → Subject → Result (Unit {0})
check_reference p (entity_set resource _ relation) =
    let missing =
      if is_empty relation
      then is_none (get_resource p resource)
      else is_none (get_relation p resource relation) in
    fail_if missing (invalid_entity_set_reference resource relation)
check_reference p _ = ok tt

abbrev actor_entity : Identity.Result Did → Result Subject
actor_entity (Identity.Result.ok did) = ok (entity did)
actor_entity (Identity.Result.err e) = err (invalid_policy actor_did)

-- `terminal_actor`, or the subject itself.
unfoldable pub restricted_subject : Policy → Subject → Result Subject
restricted_subject p (entity_set resource object_id relation) =
    if is_actor p resource && is_empty relation
    then actor_entity (Identity.new object_id)
    else ok (entity_set resource object_id relation)
restricted_subject p s = ok s

abbrev found : Option Relation → Text → Text → Result Relation
found none resource relation = err (relation_not_found resource relation)
found (some r) resource relation = ok r

abbrev allows : Option SubjectRestriction → Subject → Bool
allows none s = true
allows (some restriction) s = satisfies restriction s

-- `Relationship::validate`.
unfoldable pub validate_relationship : Policy → Relationship → Result (Unit {0})
unfolding check_actor_subject check_reference restricted_subject is_actor
validate_relationship p r = do
  fail_if (is_actor p r.resource && is_did_err (Identity.new r.object_id))
      (invalid_policy actor_object)
  check_actor_subject p r.subject
  relation_def ← found (get_relation p r.resource r.relation) r.resource r.relation
  check_reference p r.subject
  s ← restricted_subject p r.subject
  fail_if (not (allows relation_def.subject_restriction s))
      (subject_restriction_violation r.relation r.resource)
