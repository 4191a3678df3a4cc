-- ===== src/Zanzibar/Relationship.antt =====
-- crates/zanzibar/src/types/relationship.rs: relationship tuples and their storage keys.
pub mod Keys
use hub_rs.Prelude.{ℕ, Bool, Option, none, some, [], ◌∷◌, ◌++◌, ◌||◌, ◌==◌, nat_eq, if◌then◌else◌}
use hub_rs.Text.{Text, codes, is_empty}
use hub_rs.Identity.{Did}
use hub_rs.Zanzibar.Error.{
  Result, ok, err, ◌>>◌, invalid_relationship_field, empty, forbidden_character,
}
use hub_rs.Zanzibar.Subject.{Subject, entity}

pub record Relationship : Type 0 where
  pub resource : Text
  pub object_id : Text
  pub relation : Text
  pub subject : Subject

pub record ObjectRef : Type 0 where
  pub resource : Text
  pub object_id : Text

-- `FORBIDDEN_CHARS`.
unfoldable pub is_forbidden : ℕ → Bool
is_forbidden c = c == b'/' || c == 92

-- `value.chars().find(..)`.
unfoldable pub find_forbidden : Text → Option ℕ
unfolding is_forbidden
find_forbidden [] = none
find_forbidden (c ∷ s) = if is_forbidden c then some c else find_forbidden s

abbrev reject_character : Text → Option ℕ → Result (Unit {0})
reject_character field none = ok tt
reject_character field (some ch) = err (invalid_relationship_field field (forbidden_character ch))

unfoldable pub validate_field : Text → Text → Result (Unit {0})
unfolding find_forbidden
validate_field field value =
    if is_empty value
    then err (invalid_relationship_field field empty)
    else reject_character field (find_forbidden value)

-- `Relationship::try_new`.
unfoldable pub try_new : Text → Text → Text → Subject → Result Relationship
unfolding validate_field
try_new resource object_id relation subject = do
  validate_field (codes "resource") resource
  validate_field (codes "object_id") object_id
  validate_field (codes "relation") relation
  ok (record { resource = resource; object_id = object_id; relation = relation; subject = subject })

unfoldable pub with_entity : Text → Text → Text → Did → Relationship
with_entity resource object_id relation did = record {
  resource = resource;
  object_id = object_id;
  relation = relation;
  subject = entity did;
}

unfoldable pub object_prefix : Text → Text → Text
object_prefix resource object_id = codes "/rel/" ++ (resource ++ (b'/' ∷ (object_id ++ b'/' ∷ [])))

unfoldable pub relation_prefix : Text → Text → Text → Text
relation_prefix resource object_id relation =
    codes "/rel/" ++ (resource ++ (b'/' ∷ (object_id ++ (b'/' ∷ (relation ++ b'/' ∷ [])))))

-- `storage_hash` is the standard library's hash of a subject, in hexadecimal.
unfoldable pub storage_key : (Subject → Text) → Relationship → Text
storage_key storage_hash r =
    codes "/rel/"
    ++ (r.resource
        ++ (b'/' ∷ (r.object_id ++ (b'/' ∷ (r.relation ++ (b'/' ∷ storage_hash r.subject))))))
