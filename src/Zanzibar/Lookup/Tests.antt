-- ===== src/Zanzibar/Lookup/Tests.antt =====
-- A small policy, and the theorems of this component at it.
use hub_rs.Prelude.{some, none, [], ◌∷◌, ◌++◌, ◌≡◌, ◌≢◌, refl, arith, All}
use hub_rs.Prelude.Equality.{list_beq}
use hub_rs.Text.{Text, codes}
use hub_rs.Zanzibar.Error.{ok, err, policy_not_found}
use hub_rs.Zanzibar.Expression.{RelationExpression, this, computed_userset}
use hub_rs.Zanzibar.Policy.{
  Policy, Resource, Relation, defra, actor_list, get_resource, get_relation, find_relation,
  find_resource, actor_named, validate, validate_expression,
}
use hub_rs.Zanzibar.Lookup.{new, add_policy, remove_policy, update_policy, get_expression}
use hub_rs.Zanzibar.Lookup.Loaded.{
  DistinctResources, declared, get_expression-add_policy, get_expression_elsewhere,
}
use hub_rs.Zanzibar.Lookup.Resolves.{names, validate-Resolves}

abbrev relation_of : Text → RelationExpression → Relation
relation_of name expression = record {
  name = name;
  description = [];
  expression = expression;
  subject_restriction = none;
  manages = [];
}

abbrev resource_named : Text → Resource
resource_named name = record {
  name = name;
  description = [];
  relations =
      relation_of (codes "owner") this
      ∷ relation_of (codes "reader") (computed_userset (codes "owner"))
      ∷ [];
}

abbrev policy : Policy
policy = record {
  id = codes "p";
  name = [];
  description = [];
  actor = some (resource_named (codes "user"));
  resources = resource_named (codes "doc") ∷ [];
  attributes = [];
  specification = defra;
}

names_distinct : DistinctResources (policy.resources ++ actor_list policy.actor)
unfolding find_resource find_relation list_beq
names_distinct = (refl, (refl, (refl, tt)), (refl, (refl, (refl, tt)), tt))

get_expression-add_policy_example :
    get_expression (add_policy policy new) (codes "p") (codes "doc") (codes "writer")
    ≡ declared (codes "doc") (codes "writer") (get_resource policy (codes "doc"))
get_expression-add_policy_example =
    get_expression-add_policy policy new (codes "doc") (codes "writer") names_distinct

other_policy : codes "p" ≢ codes "q"
other_policy e = ground (arith, e)

get_expression_elsewhere_example :
    (get_expression (add_policy policy new) (codes "q") (codes "doc") (codes "owner")
      ≡ get_expression new (codes "q") (codes "doc") (codes "owner"))
    × (get_expression (remove_policy (codes "p") new) (codes "q") (codes "doc") (codes "owner")
        ≡ get_expression new (codes "q") (codes "doc") (codes "owner"))
    × (get_expression (update_policy policy new) (codes "q") (codes "doc") (codes "owner")
        ≡ get_expression new (codes "q") (codes "doc") (codes "owner"))
    × (get_expression (remove_policy (codes "p") new) (codes "p") (codes "doc") (codes "owner")
        ≡ err (policy_not_found (codes "p")))
get_expression_elsewhere_example =
    get_expression_elsewhere policy new (codes "q") (codes "doc") (codes "owner") other_policy

policy-validates : validate policy ≡ ok tt
unfolding validate validate_expression get_relation find_resource find_relation actor_named list_beq
policy-validates = refl

validate-Resolves_example :
    All
      (λ r.
        All
          (λ x.
            All
              (λ c.
                (e : RelationExpression) × (get_expression
                    (add_policy policy new)
                    (codes "p")
                    r.name
                    c
                  ≡ ok e))
              (names x.expression))
          r.relations)
      (policy.resources ++ actor_list policy.actor)
validate-Resolves_example = validate-Resolves policy new names_distinct policy-validates
