-- ===== src/Zanzibar/Memory/Keyed.antt =====
-- An invariant of the in-memory store of store/memory.rs, on keys.
use hub_rs.Prelude.{
  Bool, true, false, not, Option, none, some, [], ◌∷◌, ◌≡◌, refl, ◌∙◌, ◌==◌, list_eq, nat_eq,
  list_beq_iff, if◌then◌else◌, Option-cases, subst, inl, inr,
}
use hub_rs.Prelude.Map.{Map, get, insert, remove, contains_key}
use hub_rs.Text.{Text, starts_with}
use hub_rs.Zanzibar.Subject.{Subject}
use hub_rs.Zanzibar.Relationship.{Relationship, storage_key, object_prefix}
use hub_rs.Zanzibar.Policy.{Policy}
use hub_rs.Zanzibar.Memory.{
  Relationships, MemoryZanzibarStore, of_policy, retain_outside, store_policy, delete_policy,
  store_relationship, delete_relationship, delete_object_relationships,
}

module _ (hash : Subject → Text) where
  abbrev pub IsKeyed : Relationships → Type 0
  IsKeyed [] = Unit
  IsKeyed ((key, rel) ∷ rels) = (key ≡ storage_key hash rel) × IsKeyed rels

  abbrev pub AllKeyed : Map Text Relationships → Type 0
  AllKeyed [] = Unit
  AllKeyed ((p, rels) ∷ rest) = IsKeyed rels × AllKeyed rest

  insert-IsKeyed :
      (key : Text) (rel : Relationship) (rels : Relationships)
      → key ≡ storage_key hash rel
      → IsKeyed rels
      → IsKeyed (insert key rel rels)
  unfolding insert
  insert-IsKeyed key rel [] e u = (e, tt)
  insert-IsKeyed key rel ((k, r) ∷ rels) e (d, u) =
      go (k == key) (list_beq_iff k key).0 (insert-IsKeyed key rel rels e u)
    where
      go :
          (b : Bool)
          → ((b ≡ true) → k ≡ key)
          → IsKeyed (insert key rel rels)
          → IsKeyed (if b then (k, rel) ∷ rels else (k, r) ∷ insert key rel rels)
      go true same v = (same refl ∙ e, u)
      go false same v = (d, v)

  remove-IsKeyed : (key : Text) (rels : Relationships) → IsKeyed rels → IsKeyed (remove key rels)
  unfolding remove
  remove-IsKeyed key [] u = tt
  remove-IsKeyed key ((k, r) ∷ rels) (d, u) = go (k == key) (remove-IsKeyed key rels u)
    where
      go :
          (b : Bool)
          → IsKeyed (remove key rels)
          → IsKeyed (if b then remove key rels else (k, r) ∷ remove key rels)
      go true v = v
      go false v = (d, v)

  retain_outside-IsKeyed :
      (prefix : Text) (rels : Relationships) → IsKeyed rels → IsKeyed (retain_outside prefix rels)
  unfolding retain_outside
  retain_outside-IsKeyed prefix [] u = tt
  retain_outside-IsKeyed prefix ((k, r) ∷ rels) (d, u) =
      go (not (starts_with prefix k)) (retain_outside-IsKeyed prefix rels u)
    where
      go :
          (b : Bool)
          → IsKeyed (retain_outside prefix rels)
          → IsKeyed (if b then (k, r) ∷ retain_outside prefix rels else retain_outside prefix rels)
      go true v = (d, v)
      go false v = v

  abbrev KeyedIn : Option Relationships → Type 0
  KeyedIn none = Unit
  KeyedIn (some rels) = IsKeyed rels

  get-KeyedIn : (p : Text) (all : Map Text Relationships) → AllKeyed all → KeyedIn (get p all)
  unfolding get
  get-KeyedIn p [] u = tt
  get-KeyedIn p ((q, rels) ∷ all) (d, u) = go (q == p) (get-KeyedIn p all u)
    where
      go : (b : Bool) → KeyedIn (get p all) → KeyedIn (if b then some rels else get p all)
      go true v = d
      go false v = v

  of_policy-IsKeyed :
      (p : Text) (all : Map Text Relationships) → AllKeyed all → IsKeyed (of_policy p all)
  of_policy-IsKeyed p all u = go (get p all) (get-KeyedIn p all u)
    where
      go :
          (o : Option Relationships) → KeyedIn o → IsKeyed (elim o [ none ↦ [] | some rels ↦ rels ])
      go none v = tt
      go (some rels) v = v

  insert-AllKeyed :
      (p : Text) (rels : Relationships) (all : Map Text Relationships)
      → IsKeyed rels
      → AllKeyed all
      → AllKeyed (insert p rels all)
  unfolding insert
  insert-AllKeyed p rels [] d u = (d, tt)
  insert-AllKeyed p rels ((q, old) ∷ all) d (c, u) = go (q == p) (insert-AllKeyed p rels all d u)
    where
      go :
          (b : Bool)
          → AllKeyed (insert p rels all)
          → AllKeyed (if b then (q, rels) ∷ all else (q, old) ∷ insert p rels all)
      go true v = (d, u)
      go false v = (c, v)

  remove-AllKeyed :
      (p : Text) (all : Map Text Relationships) → AllKeyed all → AllKeyed (remove p all)
  unfolding remove
  remove-AllKeyed p [] u = tt
  remove-AllKeyed p ((q, rels) ∷ all) (c, u) = go (q == p) (remove-AllKeyed p all u)
    where
      go :
          (b : Bool)
          → AllKeyed (remove p all)
          → AllKeyed (if b then remove p all else (q, rels) ∷ remove p all)
      go true v = v
      go false v = (c, v)

  -- In the whole store, every tuple stands under its own key.
  abbrev pub IsWellKeyed : MemoryZanzibarStore → Type 0
  IsWellKeyed m = AllKeyed m.relationships

  delete_relationship-IsWellKeyed :
      (p : Text) (r : Relationship) (m : MemoryZanzibarStore)
      → IsWellKeyed m
      → IsWellKeyed (delete_relationship hash p r m).1
  unfolding delete_relationship
  delete_relationship-IsWellKeyed p r m u = elim (Option-cases (get p m.relationships)) [
    | inl e ↦ rw (e, delete_relationship) u
    | inr (rels, e) ↦
        rw (e, delete_relationship)
          (insert-AllKeyed p _ m.relationships
            (remove-IsKeyed (storage_key hash r) rels (subst KeyedIn e (get-KeyedIn p _ u))) u)
  ]

  delete_object-IsWellKeyed :
      (p resource object_id : Text) (m : MemoryZanzibarStore)
      → IsWellKeyed m
      → IsWellKeyed (delete_object_relationships p resource object_id m)
  unfolding delete_object_relationships
  delete_object-IsWellKeyed p resource object_id m u = elim (Option-cases (get p m.relationships)) [
    | inl e ↦ rw (e, delete_object_relationships) u
    | inr (rels, e) ↦
        rw (e, delete_object_relationships)
          (insert-AllKeyed p _ m.relationships
            (retain_outside-IsKeyed (object_prefix resource object_id) rels
              (subst KeyedIn e (get-KeyedIn p _ u)))
            u)
  ]

  delete_policy-IsWellKeyed :
      (p : Text) (m : MemoryZanzibarStore) → IsWellKeyed m → IsWellKeyed (delete_policy p m).1
  unfolding delete_policy
  delete_policy-IsWellKeyed p m u = go (contains_key p m.policies)
    where
      go :
          (b : Bool)
          → IsWellKeyed
              (if◌then◌else◌ {A = Bool × MemoryZanzibarStore} b
                (
                  true,
                  record m {
                    policies = remove p m.policies;
                    relationships = remove p m.relationships;
                  },
                )
                (false, m)).1
      go true = remove-AllKeyed p m.relationships u
      go false = u

-- In a store in which every tuple stands under its own storage key, it does so after any operation
-- that changes the store's relationships or policies: storing and deleting a policy, storing and
-- deleting a tuple, and deleting the tuples of an object.
pub operations-IsWellKeyed :
    (hash : Subject → Text) (m : MemoryZanzibarStore) (policy : Policy) (p : Text)
    (r : Relationship) (resource object_id : Text)
    → IsWellKeyed hash m
    → IsWellKeyed hash (store_policy policy m)
      × IsWellKeyed hash (delete_policy p m).1
      × IsWellKeyed hash (store_relationship hash p r m)
      × IsWellKeyed hash (delete_relationship hash p r m).1
      × IsWellKeyed hash (delete_object_relationships p resource object_id m)
unfolding store_policy store_relationship
operations-IsWellKeyed hash m policy p r resource object_id u = (
  u,
  delete_policy-IsWellKeyed hash p m u,
  insert-AllKeyed hash p _ m.relationships
      (insert-IsKeyed hash (storage_key hash r) r _ refl
        (of_policy-IsKeyed hash p m.relationships u))
      u,
  delete_relationship-IsWellKeyed hash p r m u,
  delete_object-IsWellKeyed hash p resource object_id m u,
)
