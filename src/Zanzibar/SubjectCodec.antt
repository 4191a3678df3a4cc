-- ===== src/Zanzibar/SubjectCodec.antt =====
-- crates/zanzibar/src/types/subject_codec.rs: the wire tuple (kind, resource, object_id, relation).
pub mod RoundTrip
use hub_rs.Prelude.{ℕ, Bool, true, false, [], ◌≡◌, not, ◌||◌, ◌==◌, nat_eq, if◌then◌else◌}
use hub_rs.Text.{Text, is_empty}
use hub_rs.Identity
use hub_rs.Identity.{Did}
use hub_rs.Zanzibar.Error.{
  Error, Result, ok, err, ◌>>=◌, ◌>>◌, fail_if, invalid_subject_encoding, EncodingFault,
  typed_wildcard_reserved, entity_resource, entity_relation, entity_did, wildcard_fields,
  edge_resource, edge_object_id, edge_relation, userset_resource, userset_object_id,
  userset_relation, unrecognized_kind,
}
use hub_rs.Zanzibar.Subject.{Subject, entity, entity_set, typed_wildcard, wildcard}

abbrev pub Wire : Type 0
Wire = ℕ × Text × Text × Text

unfoldable pub encode_subject : Subject → Result Wire
encode_subject (entity did) = ok (0, [], did.as_str, [])
encode_subject wildcard = ok (1, [], [], [])
encode_subject (entity_set resource object_id relation) =
    if is_empty relation
    then ok (2, resource, object_id, [])
    else ok (3, resource, object_id, relation)
encode_subject (typed_wildcard resource) =
    err (invalid_subject_encoding (typed_wildcard_reserved resource))

-- `Did::new(..).map_err(..)`.
abbrev pub entity_of : Text → Identity.Result Did → Result Subject
entity_of object_id (Identity.Result.ok did) = ok (entity did)
entity_of object_id (Identity.Result.err e) = err (invalid_subject_encoding (entity_did object_id))

pub decode_entity : Text → Text → Text → Result Subject
decode_entity resource object_id relation = do
  fail_if (not (is_empty resource)) (invalid_subject_encoding (entity_resource resource))
  fail_if (not (is_empty relation)) (invalid_subject_encoding (entity_relation relation))
  entity_of object_id (Identity.new object_id)

pub decode_wildcard : Text → Text → Text → Result Subject
decode_wildcard resource object_id relation = do
  fail_if (not (is_empty resource) || not (is_empty object_id) || not (is_empty relation))
      (invalid_subject_encoding (wildcard_fields resource object_id relation))
  ok wildcard

pub decode_edge : Text → Text → Text → Result Subject
decode_edge resource object_id relation = do
  fail_if (is_empty resource) (invalid_subject_encoding edge_resource)
  fail_if (is_empty object_id) (invalid_subject_encoding edge_object_id)
  fail_if (not (is_empty relation)) (invalid_subject_encoding (edge_relation relation))
  ok (entity_set resource object_id [])

unfoldable pub decode_userset : Text → Text → Text → Result Subject
decode_userset resource object_id relation = do
  fail_if (is_empty resource) (invalid_subject_encoding userset_resource)
  fail_if (is_empty object_id) (invalid_subject_encoding userset_object_id)
  fail_if (is_empty relation) (invalid_subject_encoding userset_relation)
  ok (entity_set resource object_id relation)

unfoldable pub decode_subject : ℕ → Text → Text → Text → Result Subject
decode_subject kind resource object_id relation =
    if kind == 0
    then decode_entity resource object_id relation
    else if kind == 1
    then decode_wildcard resource object_id relation
    else if kind == 2
    then decode_edge resource object_id relation
    else if kind == 3
    then decode_userset resource object_id relation
    else err (invalid_subject_encoding (unrecognized_kind kind))
