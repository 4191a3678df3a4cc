-- ===== src/Zanzibar/Memory/Tuples.antt =====
-- The in-memory store as a set of tuples: what `has_relationship` sees after each operation.
use hub_rs.Prelude.{
  Bool, true, false, not, Option, none, some, [], ◌∷◌, ◌≡◌, refl, sym, ◌∙◌, ap, arith, inl, inr,
  ◌&&◌, ◌||◌, ◌==◌, list_eq, nat_eq, list_beq_iff, if◌then◌else◌, Option-cases,
}
use hub_rs.Prelude.Map.{Map, get, insert, remove, contains_key, get-insert}
use hub_rs.Text.{Text, starts_with}
use hub_rs.Zanzibar.Subject.{Subject}
use hub_rs.Zanzibar.Relationship.{Relationship, storage_key, object_prefix}
use hub_rs.Zanzibar.Memory.{
  Relationships, MemoryZanzibarStore, of_policy, store_relationship, delete_relationship,
  has_relationship, delete_object_relationships, retain_outside,
}

-- Whether the store has the tuple.
abbrev pub has : (Subject → Text) → Text → Relationship → MemoryZanzibarStore → Bool
has hash p r m = has_relationship hash p r.resource r.object_id r.relation r.subject m

contains_key-insert :
    (k j : Text) (v : Relationship) (m : Relationships)
    → contains_key j (insert k v m) ≡ (k == j || contains_key j m)
unfolding contains_key insert
contains_key-insert k j v [] = ground arith
contains_key-insert k j v ((i, w) ∷ m) =
    ground
      (arith, list_beq_iff k j, list_beq_iff i k, list_beq_iff i j, contains_key-insert k j v m)

contains_key-remove :
    (k j : Text) (m : Relationships)
    → contains_key j (remove k m) ≡ (not (k == j) && contains_key j m)
unfolding contains_key remove
contains_key-remove k j [] = ground arith
contains_key-remove k j ((i, w) ∷ m) =
    ground (arith, list_beq_iff k j, list_beq_iff i k, list_beq_iff i j, contains_key-remove k j m)

contains_key-retain_outside :
    (prefix j : Text) (m : Relationships)
    → contains_key j (retain_outside prefix m) ≡ (not (starts_with prefix j) && contains_key j m)
unfolding contains_key retain_outside
contains_key-retain_outside prefix j [] = ground arith
contains_key-retain_outside prefix j ((i, w) ∷ m) =
    ground (arith, list_beq_iff i j, contains_key-retain_outside prefix j m)

-- What `has_relationship` says of a key, from the tuples of its policy.
abbrev holds_key : Text → Option Relationships → Bool
holds_key k none = false
holds_key k (some rels) = contains_key k rels

-- A test that is false of no tuples sees an update at one policy.
holds_key-if :
    (j p q : Text) (b : Bool) (after : Relationships) (all : Map Text Relationships)
    (t : Bool → Bool)
    → ((b ≡ true) → p ≡ q)
    → contains_key j after ≡ t (holds_key j (get p all))
    → holds_key j (if b then some after else get q all)
      ≡ (if b then t (holds_key j (get q all)) else holds_key j (get q all))
holds_key-if j p q true after all t same h = h ∙ ap (λ x. t (holds_key j (get x all))) (same refl)
holds_key-if j p q false after all t same h = refl

-- The same for the map that `insert` gives.
holds_key-insert :
    (j p q : Text) (after : Relationships) (all : Map Text Relationships) (t : Bool → Bool)
    → contains_key j after ≡ t (holds_key j (get p all))
    → holds_key j (get q (insert p after all))
      ≡ (if p == q then t (holds_key j (get q all)) else holds_key j (get q all))
holds_key-insert j p q after all t h =
    ap (holds_key j) (get-insert p q after all)
    ∙ holds_key-if j p q (p == q) after all t (list_beq_iff p q).0 h

-- A policy without tuples sees no deletion.
holds_key-none :
    (j p q : Text) (b : Bool) (all : Map Text Relationships) (t : Bool → Bool)
    → ((b ≡ true) → p ≡ q)
    → get p all ≡ none
    → t false ≡ false
    → holds_key j (get q all) ≡ (if b then t (holds_key j (get q all)) else holds_key j (get q all))
holds_key-none j p q true all t same e h =
    let none_there = ap (λ x. holds_key j (get x all)) (sym (same refl)) ∙ ap (holds_key j) e in
    none_there ∙ sym h ∙ ap t (sym none_there)
holds_key-none j p q false all t same e h = refl

stored :
    (k j : Text) (r : Relationship) (p : Text) (all : Map Text Relationships)
    → contains_key j (insert k r (of_policy p all)) ≡ (k == j || holds_key j (get p all))
unfolding contains_key
stored k j r p all = contains_key-insert k j r (of_policy p all) ∙ ground arith

pub has-store :
    (hash : Subject → Text) (p q : Text) (r s : Relationship) (m : MemoryZanzibarStore)
    → has hash q s (store_relationship hash p r m) ≡ (
        if p == q
        then storage_key hash r == storage_key hash s || has hash q s m
        else has hash q s m)
unfolding has_relationship store_relationship
has-store hash p q r s m =
    holds_key-insert (storage_key hash s) p q _ m.relationships
      (λ b. storage_key hash r == storage_key hash s || b)
      (stored (storage_key hash r) (storage_key hash s) r p m.relationships)

pub has-delete :
    (hash : Subject → Text) (p q : Text) (r s : Relationship) (m : MemoryZanzibarStore)
    → has hash q s (delete_relationship hash p r m).1 ≡ (
        if p == q
        then not (storage_key hash r == storage_key hash s) && has hash q s m
        else has hash q s m)
unfolding has_relationship delete_relationship
has-delete hash p q r s m = elim (Option-cases (get p m.relationships)) [
  | inl e ↦
      rw (e, delete_relationship)
        (holds_key-none (storage_key hash s) p q (p == q) m.relationships
          (λ b. not (storage_key hash r == storage_key hash s) && b) (list_beq_iff p q).0 e
          (ground arith))
  | inr (rels, e) ↦
      rw (e, delete_relationship)
        (holds_key-insert (storage_key hash s) p q _ m.relationships
          (λ b. not (storage_key hash r == storage_key hash s) && b)
          (contains_key-remove (storage_key hash r) (storage_key hash s) rels ∙ rw e refl))
]

pub has-delete_object :
    (hash : Subject → Text) (p q resource object_id : Text) (s : Relationship)
    (m : MemoryZanzibarStore)
    → has hash q s (delete_object_relationships p resource object_id m) ≡ (
        if p == q
        then not (starts_with (object_prefix resource object_id) (storage_key hash s))
          && has hash q s m
        else has hash q s m)
unfolding has_relationship delete_object_relationships
has-delete_object hash p q resource object_id s m = elim (Option-cases (get p m.relationships)) [
  | inl e ↦
      rw (e, delete_object_relationships)
        (holds_key-none (storage_key hash s) p q (p == q) m.relationships
          (λ b. not (starts_with (object_prefix resource object_id) (storage_key hash s)) && b)
          (list_beq_iff p q).0 e (ground arith))
  | inr (rels, e) ↦
      rw (e, delete_object_relationships)
        (holds_key-insert (storage_key hash s) p q _ m.relationships
          (λ b. not (starts_with (object_prefix resource object_id) (storage_key hash s)) && b)
          (contains_key-retain_outside (object_prefix resource object_id) (storage_key hash s) rels
            ∙ rw e refl))
]

pub delete_answers :
    (hash : Subject → Text) (p : Text) (r : Relationship) (m : MemoryZanzibarStore)
    → (delete_relationship hash p r m).0 ≡ has hash p r m
unfolding has_relationship delete_relationship
delete_answers hash p r m = elim (Option-cases (get p m.relationships)) [
  | inl e ↦ rw (e, delete_relationship, has_relationship) refl
  | inr (rels, e) ↦ rw (e, delete_relationship, has_relationship) refl
]
