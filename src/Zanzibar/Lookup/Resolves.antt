-- ===== src/Zanzibar/Lookup/Resolves.antt =====
-- The relations that the expressions of a policy name: `validate` of types/policy.rs against the
-- lookup table of lookup.rs.
use hub_rs.Prelude.{false, Option, none, some, List, [], ◌∷◌, ◌++◌, ◌≡◌, refl, ◌∙◌, arith, All}
use hub_rs.Text.{Text}
use hub_rs.Zanzibar.Error.{Result, ok, ◌>>◌}
use hub_rs.Zanzibar.Expression.{
  RelationExpression, Expressions, this, computed_userset, tuple_to_userset, union, intersection,
  difference, nil, cons,
}
use hub_rs.Zanzibar.Policy.{
  Policy, Resource, Relation, actor_list, get_resource, get_relation, relation_in, find_relation,
  is_none, validate_expression, validate_expressions, validate_relations, validate_resources,
  validate,
}
use hub_rs.Zanzibar.Lookup.{PolicyLookupTable, add_policy, get_expression}
use hub_rs.Zanzibar.Lookup.Loaded.{
  DistinctResources, declared, declared_relation, get_expression-add_policy,
}

-- The relations of the same resource that the expression names.
unfoldable mutual
  pub names : RelationExpression → List Text
  names this = []
  names (computed_userset relation) = relation ∷ []
  names (tuple_to_userset tuple_relation computed_relation) = tuple_relation ∷ []
  names (union es) = all_names es
  names (intersection es) = all_names es
  names (difference base subtract) = names base ++ names subtract

  pub all_names : Expressions → List Text
  all_names nil = []
  all_names (cons e es) = names e ++ all_names es

All-append : (P : Text → Type 0) (xs ys : List Text) → All P xs → All P ys → All P (xs ++ ys)
All-append P [] ys u v = v
All-append P (x ∷ xs) ys (a, u) v = (a, All-append P xs ys u v)

both_ok : (a b : Result (Unit {0})) → (a >> b) ≡ ok tt → (a ≡ ok tt) × (b ≡ ok tt)
both_ok a b h = ground arith

module _ (p : Policy) where
  abbrev Declares : Text → Text → Type 0
  Declares resource relation = is_none (get_relation p resource relation) ≡ false

  mutual
    unfolding validate_expression names

    Declares-names :
        (resource : Text) (e : RelationExpression)
        → validate_expression p resource e ≡ ok tt
        → All (Declares resource) (names e)
    Declares-names resource this h = tt
    Declares-names resource (computed_userset relation) h = (ground arith, tt)
    Declares-names resource (tuple_to_userset tuple relation) h = (ground arith, tt)
    Declares-names resource (union es) h = Declares-all_names resource es h
    Declares-names resource (intersection es) h = Declares-all_names resource es h
    Declares-names resource (difference base subtract) h =
        let (a, b) = both_ok _ _ h in
        All-append (Declares resource) (names base) (names subtract)
          (Declares-names resource base a) (Declares-names resource subtract b)

    Declares-all_names :
        (resource : Text) (es : Expressions)
        → validate_expressions p resource es ≡ ok tt
        → All (Declares resource) (all_names es)
    Declares-all_names resource nil h = tt
    Declares-all_names resource (cons e es) h =
        let (a, b) = both_ok _ _ h in
        All-append (Declares resource) (names e) (all_names es) (Declares-names resource e a)
          (Declares-all_names resource es b)

  module _ (t : PolicyLookupTable) (d : DistinctResources (p.resources ++ actor_list p.actor)) where
    -- The loaded table has an expression for the relation.
    abbrev pub Resolves : Text → Text → Type 0
    Resolves resource relation =
        (e : RelationExpression) × (get_expression (add_policy p t) p.id resource relation ≡ ok e)

    declared_ok :
        (resource relation : Text) (o : Option Resource)
        → is_none (relation_in o relation) ≡ false
        → (e : RelationExpression) × (declared resource relation o ≡ ok e)
    declared_ok resource relation none h = cc
    declared_ok resource relation (some r) h = go (find_relation relation r.relations) h
      where
        go :
            (o : Option Relation)
            → is_none o ≡ false
            → (e : RelationExpression) × (declared_relation resource relation o ≡ ok e)
        go none k = cc
        go (some x) k = (x.expression, refl)

    Declares-Resolves :
        (resource relation : Text) → Declares resource relation → Resolves resource relation
    unfolding get_relation
    Declares-Resolves resource relation h =
        let (e, q) = declared_ok resource relation (get_resource p resource) h in
        (e, get_expression-add_policy p t resource relation d ∙ q)

    declared_each :
        (resource : Text) (xs : List Text) → All (Declares resource) xs → All (Resolves resource) xs
    declared_each resource [] u = tt
    declared_each resource (x ∷ xs) (a, u) =
        (Declares-Resolves resource x a, declared_each resource xs u)

    declared_relations :
        (resource : Text) (rs : List Relation)
        → validate_relations p resource rs ≡ ok tt
        → All (λ r. All (Resolves resource) (names r.expression)) rs
    unfolding validate_relations
    declared_relations resource [] h = tt
    declared_relations resource (r ∷ rs) h =
        let (a, b) = both_ok _ _ h in
        (
          declared_each resource _ (Declares-names resource r.expression a),
          declared_relations resource rs b,
        )

    declared_resources :
        (rs : List Resource)
        → validate_resources p rs ≡ ok tt
        → All (λ r. All (λ x. All (Resolves r.name) (names x.expression)) r.relations) rs
    unfolding validate_resources
    declared_resources [] h = tt
    declared_resources (r ∷ rs) h =
        let (a, b) = both_ok _ _ h in
        (declared_relations r.name r.relations a, declared_resources rs b)

-- For a policy that `validate` accepts and that declares no resource twice, the actor included, and
-- no relation of a resource twice: once it is loaded, every relation that an expression names on its
-- own resource has an expression in the table.
pub validate-Resolves :
    (p : Policy) (t : PolicyLookupTable)
    → DistinctResources (p.resources ++ actor_list p.actor)
    → validate p ≡ ok tt
    → All
        (λ r.
          All
            (λ x.
              All
                (λ c.
                  (e : RelationExpression) × (get_expression (add_policy p t) p.id r.name c ≡ ok e))
                (names x.expression))
            r.relations)
        (p.resources ++ actor_list p.actor)
unfolding validate
validate-Resolves p t d h = declared_resources p t d (p.resources ++ actor_list p.actor) h
