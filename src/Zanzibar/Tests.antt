-- ===== src/Zanzibar/Tests.antt =====
-- A small policy and store, and the theorems of this component at them.
use hub_rs.Prelude.{
  ℕ, List, Bool, true, false, none, [], ◌∷◌, ◌≡◌, ◌+◌, ◌↔◌, refl, arith, ◌⊎◌, ◌≢◌, ◌≤◌, ◌&&◌,
}
use hub_rs.Prelude.Map.{get, insert, remove, contains_key}
use hub_rs.Prelude.Equality.{list_beq}
use hub_rs.Text.{Text, codes, starts_with}
use hub_rs.Identity.{Did, did_beq}
use hub_rs.Zanzibar.Error.{Result}
use hub_rs.Zanzibar.Expression.{
  RelationExpression, this, computed_userset, union, difference, nil, cons, is_this, intersection,
}
use hub_rs.Zanzibar.Subject.{
  Subject, entity, entity_set, typed_wildcard, wildcard, subject_is_typed_wildcard,
}
use hub_rs.Zanzibar.Relationship.{with_entity, relation_prefix, storage_key}
use hub_rs.Zanzibar.SubjectCodec.{Wire, encode_subject, decode_subject, decode_userset}
use hub_rs.Zanzibar.SubjectCodec.RoundTrip.{IsCanonical, decode, decode-encode, encode-decode}
use hub_rs.Zanzibar.Policy.Dpi.{
  owner, validate_dpi_relation, expression_includes_owner, find_disallowed_operation,
}
use hub_rs.Zanzibar.Policy.OwnerAccess.{is_local, owner_access, owner_excluded}
use hub_rs.Zanzibar.Policy.{Policy, Resource, Relation, defra}
use hub_rs.Zanzibar.Lookup
use hub_rs.Zanzibar.Lookup.{
  add_policy, add_relations, add_resources, get_expression, is_actor_resource,
}
use hub_rs.Zanzibar.Memory
use hub_rs.Zanzibar.Memory.{store_relationship, as_store}
use hub_rs.Zanzibar.Engine.State.{
  Outcome, ok, ◌>>=◌, lift, cached, guarded, trail_contains, node_beq, charge, enter, enter_depth,
  key_beq, leave, memoize, pure, key_eq, new_cache, out_of_fuel, max_evaluation_steps,
}
use hub_rs.Zanzibar.Engine.Evaluate.{
  PermissionEngine, evaluate_node, evaluate_expr_cached, evaluate_expr_inner, evaluate_arm,
  difference_arm, union_arm, computed_arm, deny_or, exclude, follow, for_each, grant_or, hit_or,
  intersection_arm, store_result, subject_step, subtract_arm, target_step, this_arm, this_step,
  tuple_arm,
}
use hub_rs.Zanzibar.Engine.Check.{
  PermissionCheckRequest, node_of, check, check_with_cache, check_each, check_many,
}
use hub_rs.Zanzibar.Engine.Semantics.{Value}
use hub_rs.Zanzibar.Expression.Parser.{merge_union, merge_intersection}
use hub_rs.Zanzibar.Engine.Flattening.{merge_keeps_values}
use hub_rs.Zanzibar.Engine.Budget.{check_with_cache-Spends}
use hub_rs.Zanzibar.Engine.Batch.{Spent, sum, check_each-within}
use hub_rs.Zanzibar.Engine.Answers.{
  Granted, AllAnswer, IsTrue-new, check_exact, check_many-AllAnswer, untainted_evaluation,
}

-- A hash without collisions, in place of the standard library's.
abbrev hash : Subject → Text
hash (entity did) = did.as_str
hash (entity_set resource object_id relation) = codes "set"
hash (typed_wildcard resource) = codes "type"
hash wildcard = codes "any"

abbrev relation_of : Text → RelationExpression → Relation
relation_of name expression = record {
  name = name;
  description = [];
  expression = expression;
  subject_restriction = none;
  manages = [];
}

-- Owners and direct viewers may view, unless they are blocked.
abbrev viewer_expression : RelationExpression
viewer_expression =
    difference (union (cons (computed_userset (codes "owner")) (cons this nil)))
      (computed_userset (codes "blocked"))

abbrev documents : Resource
documents = record {
  name = codes "doc";
  description = [];
  relations =
      relation_of (codes "owner") this
      ∷ relation_of (codes "blocked") this
      ∷ relation_of (codes "viewer") viewer_expression
      ∷ [];
}

abbrev policy : Policy
policy = record {
  id = codes "p";
  name = [];
  description = [];
  actor = none;
  resources = documents ∷ [];
  attributes = [];
  specification = defra;
}

abbrev alice : Did
alice = record { as_str = codes "did:key:a" }

abbrev bob : Did
bob = record { as_str = codes "did:key:b" }

abbrev engine : PermissionEngine
engine = record {
  store = as_store hash (
      store_relationship hash (codes "p")
        (with_entity (codes "doc") (codes "1") (codes "owner") alice) Memory.new);
  lookup = add_policy policy Lookup.new;
}

abbrev asks : Text → Did → PermissionCheckRequest
asks relation did = record {
  policy_id = codes "p";
  resource = codes "doc";
  object_id = codes "1";
  relation = relation;
  subject = did;
}

abbrev may_view : Did → PermissionCheckRequest
may_view did = asks (codes "viewer") did

-- A check with all that it calls, so that the tests compute.
unfoldable run : PermissionCheckRequest → Outcome Bool
unfolding check check_with_cache ◌>>=◌ evaluate_node lift get_expression get insert list_beq
    evaluate_expr_cached cached evaluate_expr_inner guarded evaluate_arm difference_arm union_arm
    computed_arm trail_contains node_beq did_beq contains_key remove starts_with deny_or exclude
    follow for_each grant_or hit_or intersection_arm store_result subject_step subtract_arm
    target_step this_arm this_step tuple_arm charge enter enter_depth key_beq leave memoize pure
    add_relations add_resources add_policy is_actor_resource Memory.check_permission_direct
    Memory.get_relation_subjects Memory.get_relation_targets Memory.subjects_under
    Memory.targets_under relation_prefix storage_key subject_is_typed_wildcard store_relationship
    as_store with_entity
run r = check engine r

alice_owns : check engine (asks (codes "owner") alice) ≡ ok true
unfolding run
alice_owns = refl

alice_views : check engine (may_view alice) ≡ ok true
unfolding run
alice_views = refl

check_exact_example : (true ≡ true) ↔ Granted engine (may_view alice)
check_exact_example = check_exact engine (may_view alice) true alice_views

bob_does_not : check engine (may_view bob) ≡ ok false
unfolding run
bob_does_not = refl

check_many-AllAnswer_example :
    AllAnswer engine
      (may_view alice ∷ may_view bob ∷ [])
      (check_many engine (may_view alice ∷ may_view bob ∷ []))
check_many-AllAnswer_example = check_many-AllAnswer engine (may_view alice ∷ may_view bob ∷ [])

viewer_value :
    (evaluate_expr_inner engine
      (codes "p")
      alice
      9
      (node_of (may_view alice))
      viewer_expression
      []
      new_cache).0
    ≡ ok (true, false)
unfolding run
viewer_value = refl

untainted_evaluation_example :
    ((true && false) ≡ false)
    × ((false ≡ true)
        ⊎ Value engine (codes "p") alice (node_of (may_view alice)) viewer_expression true)
untainted_evaluation_example =
    untainted_evaluation engine (codes "p") alice 9 (node_of (may_view alice)) viewer_expression []
      new_cache true false (IsTrue-new engine) viewer_value

check_with_cache-Spends_example :
    ((check_with_cache engine (may_view bob) new_cache).0 ≢ out_of_fuel)
    × ((check_with_cache engine (may_view bob) new_cache).1.depth ≡ 0)
    × (new_cache.steps ≤ (check_with_cache engine (may_view bob) new_cache).1.steps)
    × ((check_with_cache engine (may_view bob) new_cache).1.steps ≤ max_evaluation_steps)
check_with_cache-Spends_example =
    check_with_cache-Spends engine (may_view bob) new_cache refl (omega arith)

check_each-within_example :
    let (outcomes, last) = check_each engine (may_view alice ∷ may_view bob ∷ []) new_cache in
    (costs : List ℕ) × Spent engine new_cache
      (may_view alice ∷ may_view bob ∷ [])
      outcomes
      costs
      last
    × (new_cache.steps + sum costs ≡ last.steps)
    × (new_cache.steps + sum costs ≤ max_evaluation_steps)
    × (last.depth ≡ 0)
check_each-within_example =
    check_each-within engine (may_view alice ∷ may_view bob ∷ []) new_cache refl (omega arith)

abbrev reader : Relation
reader = relation_of (codes "reader") (union (cons this (cons (computed_userset owner) nil)))

reader_valid : validate_dpi_relation (codes "doc") reader ≡ Result.ok tt
unfolding validate_dpi_relation expression_includes_owner find_disallowed_operation is_this list_beq
reader_valid = refl

owner_access_example :
    Value engine (codes "p") alice (node_of (may_view alice)) reader.expression true
unfolding list_beq is_this is_local
owner_access_example =
    owner_access engine (codes "p") alice (node_of (may_view alice)) (codes "doc") reader
      reader_valid refl refl refl
      ((check_exact engine (asks (codes "owner") alice) true alice_owns).0 refl)

abbrev stranger : Relation
stranger = relation_of (codes "stranger") (difference this (computed_userset owner))

owner_excluded_example :
    (validate_dpi_relation (codes "doc") stranger ≡ Result.ok tt)
    × Value engine (codes "p") alice (node_of (may_view alice)) stranger.expression false
owner_excluded_example =
    owner_excluded engine (codes "p") alice (node_of (may_view alice)) (codes "doc") stranger this
      refl ((check_exact engine (asks (codes "owner") alice) true alice_owns).0 refl)

-- A userset of the frozen grammar.
abbrev group : Subject
group = entity_set (codes "group") (codes "g") (codes "member")

decode-encode_example :
    (w : Wire) × (encode_subject group ≡ Result.ok w) × (decode w ≡ Result.ok group)
decode-encode_example = decode-encode group (refl, refl)

group_decodes : decode_subject 3 (codes "group") (codes "g") (codes "member") ≡ Result.ok group
unfolding decode_subject decode_userset
group_decodes = refl

encode-decode_example :
    (encode_subject group ≡ Result.ok (3, codes "group", codes "g", codes "member"))
    × IsCanonical group
encode-decode_example =
    encode-decode 3 (codes "group") (codes "g") (codes "member") group group_decodes

merge_keeps_values_example :
    (Value engine
        (codes "p")
        alice
        (node_of (may_view alice))
        (merge_union this (union (cons this nil)))
        true
      ↔ Value engine
          (codes "p")
          alice
          (node_of (may_view alice))
          (union (cons this (cons (union (cons this nil)) nil)))
          true)
    × (Value engine
          (codes "p")
          alice
          (node_of (may_view alice))
          (merge_intersection this (union (cons this nil)))
          true
        ↔ Value engine
            (codes "p")
            alice
            (node_of (may_view alice))
            (intersection (cons this (cons (union (cons this nil)) nil)))
            true)
merge_keeps_values_example =
    merge_keeps_values engine (codes "p") alice (node_of (may_view alice)) this
      (union (cons this nil)) true
