-- ===== src/Zanzibar/Lookup.antt =====
-- crates/zanzibar/src/lookup.rs: the expressions of all loaded policies by name.
pub mod Loaded
pub mod Resolves
mod Tests
use hub_rs.Prelude.{Bool, false, Option, none, some, List, [], ◌∷◌, ◌++◌, ◌==◌, nat_eq, list_eq}
use hub_rs.Prelude.Map.{Map, get, insert, remove, contains_key}
use hub_rs.Text.{Text}
use hub_rs.Zanzibar.Error.{
  Error, Result, ok, err, ◌>>=◌, policy_not_found, relation_not_found, resource_not_found,
}
use hub_rs.Zanzibar.Expression.{RelationExpression}
use hub_rs.Zanzibar.Policy.{Policy, Resource, Relation, actor_list}

abbrev pub Relations : Type 0
Relations = Map Text RelationExpression

abbrev pub Resources : Type 0
Resources = Map Text Relations

pub record PolicyLookupTable : Type 0 where
  pub policies : Map Text Resources
  pub actors : Map Text Text

abbrev pub new : PolicyLookupTable
new = record { policies = []; actors = [] }

-- The inner loop of `add_policy`.
unfoldable pub add_relations : List Relation → Relations → Relations
add_relations [] table = table
add_relations (r ∷ rs) table = add_relations rs (insert r.name r.expression table)

-- The outer loop of `add_policy`.
unfoldable pub add_resources : List Resource → Resources → Resources
unfolding add_relations
add_resources [] table = table
add_resources (r ∷ rs) table = add_resources rs (insert r.name (add_relations r.relations []) table)

abbrev set_actor : Text → Option Resource → Map Text Text → Map Text Text
set_actor policy_id none actors = remove policy_id actors
set_actor policy_id (some actor) actors = insert policy_id actor.name (remove policy_id actors)

unfoldable pub add_policy : Policy → PolicyLookupTable → PolicyLookupTable
unfolding add_resources
add_policy p t = record {
  policies = insert p.id (add_resources (p.resources ++ actor_list p.actor) []) t.policies;
  actors = set_actor p.id p.actor t.actors;
}

unfoldable pub remove_policy : Text → PolicyLookupTable → PolicyLookupTable
remove_policy policy_id t = record {
  policies = remove policy_id t.policies;
  actors = remove policy_id t.actors;
}

unfoldable pub update_policy : Policy → PolicyLookupTable → PolicyLookupTable
unfolding add_policy remove_policy
update_policy p t = add_policy p (remove_policy p.id t)

abbrev named : Option Text → Text → Bool
named none resource = false
named (some name) resource = name == resource

unfoldable pub is_actor_resource : PolicyLookupTable → Text → Text → Bool
is_actor_resource t policy_id resource = named (get policy_id t.actors) resource

-- `ok_or_else`.
abbrev pub ok_or {ℓ} : {A : Type ℓ} → Option A → Error → Result A
ok_or none e = err e
ok_or (some a) e = ok a

unfoldable pub get_expression : PolicyLookupTable → Text → Text → Text → Result RelationExpression
get_expression t policy_id resource relation = do
  resources ← ok_or (get policy_id t.policies) (policy_not_found policy_id)
  relations ← ok_or (get resource resources) (resource_not_found resource)
  ok_or (get relation relations) (relation_not_found resource relation)

unfoldable pub has_policy : PolicyLookupTable → Text → Bool
has_policy t policy_id = contains_key policy_id t.policies
