-- ===== src/Zanzibar/Memory.antt =====
-- crates/zanzibar/src/store/memory.rs: the in-memory store. The order in which a `HashMap` is
-- walked is that of the association list; `storage_hash` is a parameter.
mod Tuples
pub mod TupleSet
pub mod Keyed
mod Tests
use hub_rs.Prelude.{
  ℕ, ◌+◌, ◌%◌, ◌^◌, Bool, true, false, not, Option, none, some, List, [], ◌∷◌, ◌&&◌, ◌||◌, list_eq,
  nat_eq, if◌then◌else◌,
}
use hub_rs.Prelude.Map.{Map, get, insert, remove, contains_key}
use hub_rs.Text.{Text, starts_with}
use hub_rs.Identity.{Did}
use hub_rs.Zanzibar.Error.{ok}
use hub_rs.Zanzibar.Subject.{Subject, entity_set, wildcard, subject_is_typed_wildcard}
use hub_rs.Zanzibar.Relationship.{
  Relationship, ObjectRef, with_entity, storage_key, relation_prefix, object_prefix,
}
use hub_rs.Zanzibar.Policy.{Policy}
use hub_rs.Zanzibar.Store.{ZanzibarStore}

abbrev pub Relationships : Type 0
Relationships = Map Text Relationship

pub record MemoryZanzibarStore : Type 0 where
  pub policies : Map Text Policy
  pub relationships : Map Text Relationships
  pub policy_counter : ℕ

abbrev pub new : MemoryZanzibarStore
new = record { policies = []; relationships = []; policy_counter = 0 }

unfoldable pub store_policy : Policy → MemoryZanzibarStore → MemoryZanzibarStore
store_policy p m = record m { policies = insert p.id p m.policies }

unfoldable pub get_policy : Text → MemoryZanzibarStore → Option Policy
get_policy policy_id m = get policy_id m.policies

-- `fetch_add(1) + 1` on a `u64`: the stored counter wraps around.
unfoldable pub next_policy_counter : MemoryZanzibarStore → ℕ × MemoryZanzibarStore
next_policy_counter m =
    ((m.policy_counter + 1) % 2 ^ 64, record m { policy_counter = (m.policy_counter + 1) % 2 ^ 64 })

unfoldable pub delete_policy : Text → MemoryZanzibarStore → Bool × MemoryZanzibarStore
delete_policy policy_id m =
    if contains_key policy_id m.policies
    then (
      true,
      record m {
        policies = remove policy_id m.policies;
        relationships = remove policy_id m.relationships;
      },
    )
    else (false, m)

-- `entry(..).or_default()`.
abbrev pub of_policy : Text → Map Text Relationships → Relationships
of_policy policy_id all = elim (get policy_id all) [ none ↦ [] | some rels ↦ rels ]

abbrev pub has_wildcard_type : Text → Relationships → Bool
has_wildcard_type prefix [] = false
has_wildcard_type prefix ((key, rel) ∷ rels) =
    (starts_with prefix key && subject_is_typed_wildcard rel.subject)
    || has_wildcard_type prefix rels

unfoldable pub subjects_under : Text → Relationships → List Subject
subjects_under prefix [] = []
subjects_under prefix ((key, rel) ∷ rels) =
    let rest = subjects_under prefix rels in
    if starts_with prefix key then rel.subject ∷ rest else rest

abbrev target_of : Subject → List ObjectRef → List ObjectRef
target_of (entity_set resource object_id _) rest =
    record { resource = resource; object_id = object_id } ∷ rest
target_of _ rest = rest

unfoldable pub targets_under : Text → Relationships → List ObjectRef
targets_under prefix [] = []
targets_under prefix ((key, rel) ∷ rels) =
    let rest = targets_under prefix rels in
    if starts_with prefix key then target_of rel.subject rest else rest

unfoldable pub retain_outside : Text → Relationships → Relationships
retain_outside prefix [] = []
retain_outside prefix ((key, rel) ∷ rels) =
    let rest = retain_outside prefix rels in
    if not (starts_with prefix key) then (key, rel) ∷ rest else rest

module _ (storage_hash : Subject → Text) where
  unfoldable pub store_relationship :
      Text → Relationship → MemoryZanzibarStore → MemoryZanzibarStore
  store_relationship policy_id rel m = record m {
    relationships =
        insert policy_id
          (insert (storage_key storage_hash rel) rel (of_policy policy_id m.relationships))
          m.relationships;
  }

  unfoldable pub delete_relationship :
      Text → Relationship → MemoryZanzibarStore → Bool × MemoryZanzibarStore
  delete_relationship policy_id rel m = elim (get policy_id m.relationships) [
    | none ↦ (false, m)
    | some rels ↦ (
      contains_key (storage_key storage_hash rel) rels,
      record m {
        relationships =
            insert policy_id (remove (storage_key storage_hash rel) rels) m.relationships;
      },
    )
  ]

  unfoldable pub has_relationship : Text → Text → Text → Text → Subject → MemoryZanzibarStore → Bool
  has_relationship policy_id resource object_id relation subject m =
      elim (get policy_id m.relationships) [
        | none ↦ false
        | some rels ↦
            contains_key
              (storage_key storage_hash (record {
                resource = resource;
                object_id = object_id;
                relation = relation;
                subject = subject;
              }))
              rels
      ]

  unfoldable pub check_permission_direct :
      Text → Text → Text → Text → Did → MemoryZanzibarStore → Bool
  check_permission_direct policy_id resource object_id relation subject m =
      elim (get policy_id m.relationships) [
        | none ↦ false
        | some rels ↦
            contains_key
              (storage_key storage_hash (with_entity resource object_id relation subject)) rels
            || contains_key
                (storage_key storage_hash (record {
                  resource = resource;
                  object_id = object_id;
                  relation = relation;
                  subject = wildcard;
                }))
                rels
            || has_wildcard_type (relation_prefix resource object_id relation) rels
      ]

unfoldable pub get_relation_subjects :
    Text → Text → Text → Text → MemoryZanzibarStore → List Subject
get_relation_subjects policy_id resource object_id relation m =
    elim (get policy_id m.relationships) [
      | none ↦ []
      | some rels ↦ subjects_under (relation_prefix resource object_id relation) rels
    ]

unfoldable pub get_relation_targets :
    Text → Text → Text → Text → MemoryZanzibarStore → List ObjectRef
get_relation_targets policy_id resource object_id relation m =
    elim (get policy_id m.relationships) [
      | none ↦ []
      | some rels ↦ targets_under (relation_prefix resource object_id relation) rels
    ]

unfoldable pub delete_object_relationships :
    Text → Text → Text → MemoryZanzibarStore → MemoryZanzibarStore
delete_object_relationships policy_id resource object_id m = elim (get policy_id m.relationships) [
  | none ↦ m
  | some rels ↦ record m {
    relationships =
        insert policy_id (retain_outside (object_prefix resource object_id) rels) m.relationships;
  }
]

-- The reads of the store, which the engine uses.
unfoldable pub as_store : (Subject → Text) → MemoryZanzibarStore → ZanzibarStore
as_store storage_hash m = record {
  check_permission_direct = λ p r o l s. ok (check_permission_direct storage_hash p r o l s m);
  get_relation_subjects = λ p r o l. ok (get_relation_subjects p r o l m);
  get_relation_targets = λ p r o l. ok (get_relation_targets p r o l m);
}
