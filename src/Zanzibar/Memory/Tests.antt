-- ===== src/Zanzibar/Memory/Tests.antt =====
-- Two tuples in a store, and the theorems on keys and on the store at them.
use hub_rs.Prelude.{none, true, [], ◌≡◌, refl, ◌↔◌, ◌⊎◌}
use hub_rs.Prelude.Map.{get, insert}
use hub_rs.Text.{Text, codes, starts_with}
use hub_rs.Zanzibar.Subject.{Subject, entity, entity_set, typed_wildcard, wildcard}
use hub_rs.Zanzibar.Relationship.{
  Relationship, storage_key, object_prefix, find_forbidden, is_forbidden, try_new,
}
use hub_rs.Zanzibar.Relationship.Keys.{IsValid, IsClean, storage_key_fields, object_prefix_iff}
use hub_rs.Zanzibar.Memory.{
  MemoryZanzibarStore, new, store_policy, delete_policy, store_relationship, delete_relationship,
  delete_object_relationships,
}
use hub_rs.Zanzibar.Memory.Keyed.{IsWellKeyed, operations-IsWellKeyed}
use hub_rs.Zanzibar.Policy.{Policy, unspecified}
use hub_rs.Zanzibar.Memory.Tuples.{has}
use hub_rs.Zanzibar.Memory.TupleSet.{store_adds, delete_removes, delete_object_removes}

-- A hash that tells the subjects of this file apart.
abbrev hash : Subject → Text
hash (entity did) = did.as_str
hash (entity_set resource object_id relation) = codes "set"
hash (typed_wildcard resource) = codes "type"
hash wildcard = codes "any"

abbrev tuple_of : Text → Subject → Relationship
tuple_of relation subject = record {
  resource = codes "doc";
  object_id = codes "1";
  relation = relation;
  subject = subject;
}

abbrev read_by_all : Relationship
read_by_all = tuple_of (codes "reader") wildcard

abbrev read_by_type : Relationship
read_by_type = tuple_of (codes "reader") (typed_wildcard (codes "user"))

abbrev full : MemoryZanzibarStore
full = store_relationship hash (codes "p") read_by_all new

all-IsValid : IsValid read_by_all
unfolding try_new is_forbidden
all-IsValid = refl

type-IsValid : IsValid read_by_type
unfolding try_new is_forbidden
type-IsValid = refl

doc-IsClean : IsClean (codes "doc")
unfolding find_forbidden
doc-IsClean = refl

one-IsClean : IsClean (codes "1")
unfolding find_forbidden
one-IsClean = refl

apart :
    hash wildcard ≡ hash (typed_wildcard (codes "user")) → wildcard ≡ typed_wildcard (codes "user")
apart e = cc

abbrev policy : Policy
policy = record {
  id = codes "p";
  name = [];
  description = [];
  actor = none;
  resources = [];
  attributes = [];
  specification = unspecified;
}

full-IsWellKeyed : IsWellKeyed hash full
unfolding store_relationship get insert
full-IsWellKeyed = ((refl, tt), tt)

storage_key_fields_example :
    (codes "doc" ≡ codes "doc")
    × (codes "1" ≡ codes "1")
    × (codes "reader" ≡ codes "reader")
    × (hash wildcard ≡ hash wildcard)
storage_key_fields_example =
    storage_key_fields hash read_by_all read_by_all all-IsValid all-IsValid refl

object_prefix_iff_example :
    (starts_with (object_prefix (codes "doc") (codes "1")) (storage_key hash read_by_all) ≡ true)
    ↔ ((codes "doc" ≡ codes "doc") × (codes "1" ≡ codes "1"))
object_prefix_iff_example =
    object_prefix_iff hash read_by_all (codes "doc") (codes "1") all-IsValid doc-IsClean one-IsClean

store_adds_example :
    (has hash (codes "p") read_by_type (store_relationship hash (codes "p") read_by_all full)
      ≡ true)
    ↔ (((codes "p" ≡ codes "p") × (read_by_all ≡ read_by_type))
        ⊎ (has hash (codes "p") read_by_type full ≡ true))
store_adds_example =
    store_adds hash (codes "p") (codes "p") read_by_all read_by_type full apart all-IsValid
      type-IsValid

delete_removes_example :
    ((delete_relationship hash (codes "p") read_by_all full).0
      ≡ has hash (codes "p") read_by_all full)
    × ((has hash (codes "p") read_by_type (delete_relationship hash (codes "p") read_by_all full).1
          ≡ true)
        ↔ ((¬ ((codes "p" ≡ codes "p") × (read_by_all ≡ read_by_type)))
            × (has hash (codes "p") read_by_type full ≡ true)))
delete_removes_example =
    delete_removes hash (codes "p") (codes "p") read_by_all read_by_type full apart all-IsValid
      type-IsValid

delete_object_removes_example :
    (has hash
        (codes "p")
        read_by_all
        (delete_object_relationships (codes "p") (codes "doc") (codes "1") full)
      ≡ true)
    ↔ ((¬ ((codes "p" ≡ codes "p") × (codes "doc" ≡ codes "doc") × (codes "1" ≡ codes "1")))
        × (has hash (codes "p") read_by_all full ≡ true))
delete_object_removes_example =
    delete_object_removes hash (codes "p") (codes "p") (codes "doc") (codes "1") read_by_all full
      doc-IsClean one-IsClean all-IsValid

operations-IsWellKeyed_example :
    IsWellKeyed hash (store_policy policy full)
    × IsWellKeyed hash (delete_policy (codes "p") full).1
    × IsWellKeyed hash (store_relationship hash (codes "p") read_by_type full)
    × IsWellKeyed hash (delete_relationship hash (codes "p") read_by_type full).1
    × IsWellKeyed hash (delete_object_relationships (codes "p") (codes "doc") (codes "1") full)
operations-IsWellKeyed_example =
    operations-IsWellKeyed hash full policy (codes "p") read_by_type (codes "doc") (codes "1")
      full-IsWellKeyed
