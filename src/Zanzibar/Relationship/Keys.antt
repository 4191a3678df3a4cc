-- ===== src/Zanzibar/Relationship/Keys.antt =====
-- Storage keys and prefixes of types/relationship.rs, for tuples with validated fields.
use hub_rs.Prelude.{true, none, [], ◌∷◌, ◌++◌, append_assoc, ◌≡◌, ap, sym, ◌∙◌, arith, ◌↔◌, subst}
use hub_rs.Text.{Text, codes, starts_with, starts_with_split, starts_with-append}
use hub_rs.Zanzibar.Error.{ok}
use hub_rs.Zanzibar.Subject.{Subject}
use hub_rs.Zanzibar.Relationship.{
  Relationship, is_forbidden, find_forbidden, validate_field, try_new, storage_key, object_prefix,
}

-- No character of the text is forbidden.
abbrev pub IsClean : Text → Type 0
IsClean t = find_forbidden t ≡ none

-- The relationship is one that `try_new` makes.
abbrev pub IsValid : Relationship → Type 0
IsValid r = try_new r.resource r.object_id r.relation r.subject ≡ ok r

field-IsClean : (field t : Text) → validate_field field t ≡ ok tt → IsClean t
unfolding validate_field
field-IsClean field t h = ground arith

IsValid-fields :
    (r : Relationship) → IsValid r → IsClean r.resource × IsClean r.object_id × IsClean r.relation
unfolding try_new
IsValid-fields r h = ground (
  arith,
  field-IsClean (codes "resource") r.resource,
  field-IsClean (codes "object_id") r.object_id,
  field-IsClean (codes "relation") r.relation,
)

-- A separator splits a text in one way, if what stands before it is clean.
split_unique :
    (a b x y : Text) → IsClean a → IsClean b → a ++ (b'/' ∷ x) ≡ b ++ (b'/' ∷ y) → (a ≡ b) × (x ≡ y)
unfolding find_forbidden is_forbidden
split_unique [] [] x y h i e = ground arith
split_unique [] (d ∷ b) x y h i e = ground arith
split_unique (c ∷ a) [] x y h i e = ground arith
split_unique (c ∷ a) (d ∷ b) x y h i e = ground (arith, split_unique a b x y)

tail_eq : (x y : Text) → codes "/rel/" ++ x ≡ codes "/rel/" ++ y → x ≡ y
tail_eq x y h = ground arith

-- Two tuples with validated fields have the same storage key only if their resource, object and
-- relation are the same, and their subjects have the same hash.
pub storage_key_fields :
    (hash : Subject → Text) (r s : Relationship)
    → IsValid r
    → IsValid s
    → storage_key hash r ≡ storage_key hash s
    → (r.resource ≡ s.resource)
      × (r.object_id ≡ s.object_id)
      × (r.relation ≡ s.relation)
      × (hash r.subject ≡ hash s.subject)
unfolding storage_key
storage_key_fields hash r s v w e =
    let (a, b, c) = IsValid-fields r v in
    let (a', b', c') = IsValid-fields s w in
    let (same_resource, after) = split_unique r.resource s.resource _ _ a a' (tail_eq _ _ e) in
    let (same_object, last) = split_unique r.object_id s.object_id _ _ b b' after in
    let (same_relation, same_hash) = split_unique r.relation s.relation _ _ c c' last in
    (same_resource, same_object, same_relation, same_hash)

object_prefix-append :
    (resource object_id rest : Text)
    → object_prefix resource object_id ++ rest
      ≡ codes "/rel/" ++ (resource ++ (b'/' ∷ (object_id ++ (b'/' ∷ rest))))
unfolding object_prefix
object_prefix-append resource object_id rest =
    ap (λ t. codes "/rel/" ++ t)
      (append_assoc resource (b'/' ∷ (object_id ++ (b'/' ∷ []))) rest
        ∙ ap (λ t. resource ++ (b'/' ∷ t)) (append_assoc object_id (b'/' ∷ []) rest))

-- The key of a tuple with validated fields starts with the prefix of an object whose names are clean
-- exactly if the tuple is one of that object.
pub object_prefix_iff :
    (hash : Subject → Text) (r : Relationship) (resource object_id : Text)
    → IsValid r
    → IsClean resource
    → IsClean object_id
    → (starts_with (object_prefix resource object_id) (storage_key hash r) ≡ true)
      ↔ ((r.resource ≡ resource) × (r.object_id ≡ object_id))
unfolding object_prefix storage_key
object_prefix_iff hash r resource object_id v cr co = (from, to)
  where
    from :
        starts_with (object_prefix resource object_id) (storage_key hash r) ≡ true
        → (r.resource ≡ resource) × (r.object_id ≡ object_id)
    from h =
        let (rest, e) =
          starts_with_split (object_prefix resource object_id) (storage_key hash r) h in
        let tails = tail_eq _ _ (e ∙ object_prefix-append resource object_id rest) in
        let (a, b, c) = IsValid-fields r v in
        let (same_resource, after) = split_unique r.resource resource _ _ a cr tails in
        (same_resource, (split_unique r.object_id object_id _ _ b co after).0)

    to :
        (r.resource ≡ resource) × (r.object_id ≡ object_id)
        → starts_with (object_prefix resource object_id) (storage_key hash r) ≡ true
    to (same_resource, same_object) =
        subst (λ t. starts_with (object_prefix resource object_id) t ≡ true)
          (object_prefix-append resource object_id _
            ∙ ap
                (λ o.
                  codes "/rel/"
                  ++ (resource ++ (b'/' ∷ (o ++ (b'/' ∷ (r.relation ++ (b'/' ∷ hash r.subject)))))))
                (sym same_object)
            ∙ ap
                (λ o.
                  codes "/rel/"
                  ++ (o
                      ++ (b'/'
                          ∷ (r.object_id ++ (b'/' ∷ (r.relation ++ (b'/' ∷ hash r.subject)))))))
                (sym same_resource))
          (starts_with-append (object_prefix resource object_id) _)
