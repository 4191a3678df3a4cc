-- ===== src/Zanzibar/Memory/TupleSet.antt =====
-- The in-memory store as a set of tuples, by the tuples themselves.
use hub_rs.Prelude.{
  Bool, true, not, ◌≡◌, ◌∙◌, ap, arith, ◌↔◌, ◌⊎◌, ◌&&◌, ◌||◌, ◌==◌, list_eq, nat_eq, list_beq_iff,
  if◌then◌else◌,
}
use hub_rs.Text.{Text, starts_with}
use hub_rs.Zanzibar.Subject.{Subject}
use hub_rs.Zanzibar.Relationship.{Relationship, storage_key, object_prefix}
use hub_rs.Zanzibar.Relationship.Keys.{IsClean, IsValid, storage_key_fields, object_prefix_iff}
use hub_rs.Zanzibar.Memory.{
  MemoryZanzibarStore, store_relationship, delete_relationship, delete_object_relationships,
}
use hub_rs.Zanzibar.Memory.Tuples.{has, has-store, has-delete, has-delete_object, delete_answers}

key_iff :
    (hash : Subject → Text) (r s : Relationship)
    → (hash r.subject ≡ hash s.subject → r.subject ≡ s.subject)
    → IsValid r
    → IsValid s
    → (storage_key hash r == storage_key hash s ≡ true) ↔ (r ≡ s)
key_iff hash r s apart v w = (from, λ same. (list_beq_iff _ _).1 (ap (storage_key hash) same))
  where
    from : storage_key hash r == storage_key hash s ≡ true → r ≡ s
    from h =
        let (a, b, c, d) = storage_key_fields hash r s v w ((list_beq_iff _ _).0 h) in
        ground (arith, apart d)

if_stored : (p k old : Bool) → (if p then k || old else old) ≡ ((p && k) || old)
if_stored p k old = ground arith

if_removed : (p k old : Bool) → (if p then not k && old else old) ≡ (not (p && k) && old)
if_removed p k old = ground arith

-- For two tuples with validated fields, whose subjects are the same if their hashes are: after the
-- first is stored under a policy, the store has the second exactly if it had it before or it is the
-- first under the same policy.
pub store_adds :
    (hash : Subject → Text) (p q : Text) (r s : Relationship) (m : MemoryZanzibarStore)
    → (hash r.subject ≡ hash s.subject → r.subject ≡ s.subject)
    → IsValid r
    → IsValid s
    → (has hash q s (store_relationship hash p r m) ≡ true)
      ↔ (((p ≡ q) × (r ≡ s)) ⊎ (has hash q s m ≡ true))
store_adds hash p q r s m apart v w = ground (
  arith,
  has-store hash p q r s m
      ∙ if_stored (p == q) (storage_key hash r == storage_key hash s) (has hash q s m),
  key_iff hash r s apart v w,
  list_beq_iff p q,
)

-- For two tuples with validated fields, whose subjects are the same if their hashes are: a deletion
-- of the first answers whether it was there, and after it the store has the second exactly if it had
-- it before and it is not the first under the same policy.
pub delete_removes :
    (hash : Subject → Text) (p q : Text) (r s : Relationship) (m : MemoryZanzibarStore)
    → (hash r.subject ≡ hash s.subject → r.subject ≡ s.subject)
    → IsValid r
    → IsValid s
    → ((delete_relationship hash p r m).0 ≡ has hash p r m)
      × ((has hash q s (delete_relationship hash p r m).1 ≡ true)
          ↔ ((¬ ((p ≡ q) × (r ≡ s))) × (has hash q s m ≡ true)))
delete_removes hash p q r s m apart v w = (
  delete_answers hash p r m,
  ground (
    arith,
    has-delete hash p q r s m
        ∙ if_removed (p == q) (storage_key hash r == storage_key hash s) (has hash q s m),
    key_iff hash r s apart v w,
    list_beq_iff p q,
  ),
)

-- For an object whose names are clean and a tuple with validated fields: after the relationships of
-- the object are deleted under a policy, the store has exactly the tuples of other objects, and
-- those under other policies, that it had before.
pub delete_object_removes :
    (hash : Subject → Text) (p q resource object_id : Text) (s : Relationship)
    (m : MemoryZanzibarStore)
    → IsClean resource
    → IsClean object_id
    → IsValid s
    → (has hash q s (delete_object_relationships p resource object_id m) ≡ true) ↔ (
        (¬ ((p ≡ q) × (s.resource ≡ resource) × (s.object_id ≡ object_id)))
        × (has hash q s m ≡ true))
delete_object_removes hash p q resource object_id s m cr co w = ground (
  arith,
  has-delete_object hash p q resource object_id s m
      ∙ if_removed (p == q) (starts_with (object_prefix resource object_id) (storage_key hash s))
          (has hash q s m),
  object_prefix_iff hash s resource object_id w cr co,
  list_beq_iff p q,
)
