-- ===== src/Zanzibar/Lookup/Loaded.antt =====
-- The lookup table after a policy is loaded, against the policy itself.
use hub_rs.Prelude.{
  Bool, true, false, Option, none, some, List, [], ◌∷◌, ◌++◌, ◌≡◌, ◌≢◌, refl, ap, ◌∙◌, arith, ◌==◌,
  nat_eq, list_eq, list_beq_iff, if◌then◌else◌, or_else,
}
use hub_rs.Prelude.Map.{Map, get, insert, remove, get-insert, get-remove}
use hub_rs.Text.{Text}
use hub_rs.Zanzibar.Error.{
  Result, ok, err, ◌>>=◌, policy_not_found, relation_not_found, resource_not_found,
}
use hub_rs.Zanzibar.Expression.{RelationExpression}
use hub_rs.Zanzibar.Policy.{
  Policy, Resource, Relation, actor_list, find_relation, find_resource, get_resource, actor_named,
}
use hub_rs.Zanzibar.Lookup.{
  PolicyLookupTable, Relations, Resources, add_relations, add_resources, add_policy, remove_policy,
  update_policy, get_expression, ok_or,
}

-- No name is declared twice.
abbrev pub DistinctRelations : List Relation → Type 0
DistinctRelations [] = Unit
DistinctRelations (r ∷ rs) = (find_relation r.name rs ≡ none) × DistinctRelations rs

abbrev pub DistinctResources : List Resource → Type 0
DistinctResources [] = Unit
DistinctResources (r ∷ rs) =
    (find_resource r.name rs ≡ none) × DistinctRelations r.relations × DistinctResources rs

abbrev expression_of : Option Relation → Option RelationExpression
expression_of none = none
expression_of (some r) = some r.expression

get-add_relations :
    (name : Text) (rs : List Relation) (table : Relations)
    → DistinctRelations rs
    → get name (add_relations rs table)
      ≡ or_else (expression_of (find_relation name rs)) (get name table)
unfolding add_relations find_relation
get-add_relations name [] table d = refl
get-add_relations name (r ∷ rs) table d = ground (
  arith,
  get-add_relations name rs (insert r.name r.expression table) d.1,
  get-insert r.name name r.expression table,
  list_beq_iff r.name name,
  d.0,
)

abbrev relations_of : Option Resource → Option Relations
relations_of none = none
relations_of (some r) = some (add_relations r.relations [])

get-add_resources :
    (name : Text) (rs : List Resource) (table : Resources)
    → DistinctResources rs
    → get name (add_resources rs table)
      ≡ or_else (relations_of (find_resource name rs)) (get name table)
unfolding add_resources find_resource
get-add_resources name [] table d = refl
get-add_resources name (r ∷ rs) table d = ground (
  arith,
  get-add_resources name rs (insert r.name (add_relations r.relations []) table) d.2,
  get-insert r.name name (add_relations r.relations []) table,
  list_beq_iff r.name name,
  d.0,
)

find_resource-append :
    (name : Text) (rs : List Resource) (actor : Option Resource)
    → find_resource name (rs ++ actor_list actor)
      ≡ or_else (find_resource name rs) (actor_named name actor)
unfolding find_resource actor_named
find_resource-append name [] none = refl
find_resource-append name [] (some r) = refl
find_resource-append name (r ∷ rs) actor = ground (arith, find_resource-append name rs actor)

-- What the policy itself says.
abbrev pub declared_relation : Text → Text → Option Relation → Result RelationExpression
declared_relation resource relation none = err (relation_not_found resource relation)
declared_relation resource relation (some r) = ok r.expression

abbrev pub declared : Text → Text → Option Resource → Result RelationExpression
declared resource relation none = err (resource_not_found resource)
declared resource relation (some r) =
    declared_relation resource relation (find_relation relation r.relations)

abbrev HasDistinct : Option Resource → Type 0
HasDistinct none = Unit
HasDistinct (some r) = DistinctRelations r.relations

-- `get_expression` from the relations that it finds, and from the resources that it finds.
abbrev in_relations : Text → Text → Option Relations → Result RelationExpression
in_relations resource relation o = ok_or o (resource_not_found resource) >>= λ relations.
    ok_or (get relation relations) (relation_not_found resource relation)

abbrev in_resources : Text → Text → Text → Option Resources → Result RelationExpression
in_resources policy_id resource relation o = ok_or o (policy_not_found policy_id) >>= λ resources.
    in_relations resource relation (get resource resources)

in_relations-declared :
    (resource relation : Text) (o : Option Resource)
    → HasDistinct o
    → in_relations resource relation (relations_of o) ≡ declared resource relation o
unfolding get
in_relations-declared resource relation none d = refl
in_relations-declared resource relation (some r) d =
    ap (λ e. ok_or e (relation_not_found resource relation))
      (get-add_relations relation r.relations [] d)
    ∙ found (find_relation relation r.relations)
  where
    found :
        (o : Option Relation)
        → ok_or (or_else (expression_of o) (get relation [])) (relation_not_found resource relation)
          ≡ declared_relation resource relation o
    found none = refl
    found (some x) = refl

get_same : (k : Text) (v : Resources) (m : Map Text Resources) → get k (insert k v m) ≡ some v
get_same k v m = ground (arith, get-insert k k v m, list_beq_iff k k)

get_other :
    (k j : Text) (v : Resources) (m : Map Text Resources)
    → k ≢ j
    → (get j (insert k v m) ≡ get j m) × (get j (remove k m) ≡ get j m)
get_other k j v m other =
    ground (arith, get-insert k j v m, get-remove k j m, list_beq_iff k j, other)

get_removed : (k : Text) (m : Map Text Resources) → get k (remove k m) ≡ none
get_removed k m = ground (arith, get-remove k k m, list_beq_iff k k)

or_nothing : (k : Text) (o : Option Relations) → or_else o (get k []) ≡ o
unfolding get
or_nothing k none = refl
or_nothing k (some x) = refl

find_resource-distinct :
    (name : Text) (rs : List Resource) → DistinctResources rs → HasDistinct (find_resource name rs)
unfolding find_resource
find_resource-distinct name [] d = tt
find_resource-distinct name (x ∷ rs) d = go (x.name == name) (find_resource-distinct name rs d.2)
  where
    go :
        (b : Bool)
        → HasDistinct (find_resource name rs)
        → HasDistinct (if b then some x else find_resource name rs)
    go true later = d.1
    go false later = later

-- For a policy that declares no resource twice, the actor included, and no relation of a resource
-- twice: once it is loaded, the table has for each resource and relation the expression that the
-- policy declares, and the error that says which of the two is missing.
pub get_expression-add_policy :
    (p : Policy) (t : PolicyLookupTable) (resource relation : Text)
    → DistinctResources (p.resources ++ actor_list p.actor)
    → get_expression (add_policy p t) p.id resource relation
      ≡ declared resource relation (get_resource p resource)
unfolding get_expression add_policy get_resource
get_expression-add_policy p t resource relation d =
    let all = p.resources ++ actor_list p.actor in
    ap (in_resources p.id resource relation) (get_same p.id (add_resources all []) t.policies)
    ∙ ap (in_relations resource relation) (
        get-add_resources resource all [] d
        ∙ or_nothing resource (relations_of (find_resource resource all)))
    ∙ in_relations-declared resource relation (find_resource resource all)
        (find_resource-distinct resource all d)
    ∙ ap (declared resource relation) (find_resource-append resource p.resources p.actor)

-- Loading, removing or replacing one policy changes no other policy's expressions, and after a
-- removal the policy is not found.
pub get_expression_elsewhere :
    (p : Policy) (t : PolicyLookupTable) (policy_id resource relation : Text)
    → p.id ≢ policy_id
    → (get_expression (add_policy p t) policy_id resource relation
        ≡ get_expression t policy_id resource relation)
      × (get_expression (remove_policy p.id t) policy_id resource relation
          ≡ get_expression t policy_id resource relation)
      × (get_expression (update_policy p t) policy_id resource relation
          ≡ get_expression t policy_id resource relation)
      × (get_expression (remove_policy p.id t) p.id resource relation ≡ err (policy_not_found p.id))
unfolding get_expression add_policy remove_policy update_policy
get_expression_elsewhere p t policy_id resource relation other =
    let at = in_resources policy_id resource relation in
    let table = add_resources (p.resources ++ actor_list p.actor) [] in
    let (added, removed) = get_other p.id policy_id table t.policies other in
    let (added_again, _) = get_other p.id policy_id table (remove p.id t.policies) other in
    (
      ap at added,
      ap at removed,
      ap at (added_again ∙ removed),
      ap (in_resources p.id resource relation) (get_removed p.id t.policies),
    )
