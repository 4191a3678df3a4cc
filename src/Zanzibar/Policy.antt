-- ===== src/Zanzibar/Policy.antt =====
-- crates/zanzibar/src/types/policy.rs and resource.rs: policies and their validation.
pub mod Dpi
pub mod OwnerAccess
use hub_rs.Prelude.{
  ℕ, Bool, true, false, Option, none, some, List, [], ◌∷◌, ◌++◌, ◌≡◌, map, any, ◌&&◌, ◌||◌, ◌==◌,
  nat_eq, list_eq, if◌then◌else◌, or_else,
}
use hub_rs.Prelude.Map.{Map}
use hub_rs.Text.{Text, codes, is_empty}
use hub_rs.Identity
use hub_rs.Identity.{Did}
use hub_rs.Zanzibar.Error.{
  Error, Result, ok, err, ◌>>=◌, ◌>>◌, fail_if, invalid_policy, PolicyFault, no_computed_relation,
  no_tuple_relation, actor_object, actor_subject, actor_did, relation_not_found,
  invalid_entity_set_reference, subject_restriction_violation, dpi_missing_owner,
  dpi_expression_missing_owner, dpi_disallowed_operation,
}
use hub_rs.Zanzibar.Expression.{
  RelationExpression, Expressions, this, computed_userset, tuple_to_userset, union, intersection,
  difference, nil, cons, is_this,
}
use hub_rs.Zanzibar.Subject.{
  Subject, entity, entity_set, typed_wildcard, wildcard, SubjectRestriction, satisfies,
}
use hub_rs.Zanzibar.Relationship.{Relationship}

pub record Relation : Type 0 where
  pub name : Text
  pub description : Text
  pub expression : RelationExpression
  pub subject_restriction : Option SubjectRestriction
  pub manages : List Text

pub record Resource : Type 0 where
  pub name : Text
  pub description : Text
  pub relations : List Relation

pub data PolicySpecification : Type 0 where
  unspecified defra : PolicySpecification

pub record Policy : Type 0 where
  pub id : Text
  pub name : Text
  pub description : Text
  pub actor : Option Resource
  pub resources : List Resource
  pub attributes : Map Text Text
  pub specification : PolicySpecification

-- `relations.iter().find(|r| r.name == name)`.
unfoldable pub find_relation : Text → List Relation → Option Relation
find_relation name [] = none
find_relation name (r ∷ rs) = if r.name == name then some r else find_relation name rs

unfoldable pub find_resource : Text → List Resource → Option Resource
find_resource name [] = none
find_resource name (r ∷ rs) = if r.name == name then some r else find_resource name rs

-- `self.actor.as_ref().filter(|actor| actor.name == name)`.
unfoldable pub actor_named : Text → Option Resource → Option Resource
actor_named name none = none
actor_named name (some actor) = if actor.name == name then some actor else none

unfoldable pub get_resource : Policy → Text → Option Resource
get_resource p name = or_else (find_resource name p.resources) (actor_named name p.actor)

abbrev pub relation_in : Option Resource → Text → Option Relation
relation_in none relation = none
relation_in (some r) relation = find_relation relation r.relations

unfoldable pub get_relation : Policy → Text → Text → Option Relation
unfolding get_resource
get_relation p resource relation = relation_in (get_resource p resource) relation

unfoldable pub managers_among : Text → List Relation → List Text
managers_among relation [] = []
managers_among relation (r ∷ rs) =
    let rest = managers_among relation rs in
    if any (λ m. m == relation) r.manages then r.name ∷ rest else rest

abbrev managers_in : Option Resource → Text → List Text
managers_in none relation = []
managers_in (some r) relation = managers_among relation r.relations

unfoldable pub get_managers_for_relation : Policy → Text → Text → List Text
unfolding managers_among
get_managers_for_relation p resource relation = managers_in (get_resource p resource) relation

abbrev pub is_none {ℓ} : {A : Type ℓ} → Option A → Bool
is_none none = true
is_none (some a) = false

unfoldable mutual
  pub validate_expression : Policy → Text → RelationExpression → Result (Unit {0})
  validate_expression p resource this = ok tt
  validate_expression p resource (computed_userset relation) =
      if is_none (get_relation p resource relation)
      then err (invalid_policy (no_computed_relation relation resource))
      else ok tt
  validate_expression p resource (tuple_to_userset tuple_relation computed_relation) =
      if is_none (get_relation p resource tuple_relation)
      then err (invalid_policy (no_tuple_relation tuple_relation resource))
      else ok tt
  validate_expression p resource (union exprs) = validate_expressions p resource exprs
  validate_expression p resource (intersection exprs) = validate_expressions p resource exprs
  validate_expression p resource (difference base subtract) =
      validate_expression p resource base >> validate_expression p resource subtract

  pub validate_expressions : Policy → Text → Expressions → Result (Unit {0})
  validate_expressions p resource nil = ok tt
  validate_expressions p resource (cons e es) =
      validate_expression p resource e >> validate_expressions p resource es

unfoldable pub validate_relations : Policy → Text → List Relation → Result (Unit {0})
validate_relations p resource [] = ok tt
validate_relations p resource (r ∷ rs) =
    validate_expression p resource r.expression >> validate_relations p resource rs

unfoldable pub validate_resources : Policy → List Resource → Result (Unit {0})
unfolding validate_relations
validate_resources p [] = ok tt
validate_resources p (r ∷ rs) = validate_relations p r.name r.relations >> validate_resources p rs

-- `self.actor.iter()`.
abbrev pub actor_list : Option Resource → List Resource
actor_list none = []
actor_list (some actor) = actor ∷ []

unfoldable pub validate : Policy → Result (Unit {0})
unfolding validate_resources
validate p = validate_resources p (p.resources ++ actor_list p.actor)
