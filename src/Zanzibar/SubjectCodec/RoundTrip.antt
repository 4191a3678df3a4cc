-- ===== src/Zanzibar/SubjectCodec/RoundTrip.antt =====
-- The two directions of the codec of types/subject_codec.rs, one after the other.
use hub_rs.Prelude.{ℕ, false, [], ◌∷◌, ◌≡◌, refl, arith}
use hub_rs.Text.{Text, is_empty}
use hub_rs.Identity
use hub_rs.Identity.{Did}
use hub_rs.Zanzibar.Error.{Result, ok}
use hub_rs.Zanzibar.Subject.{Subject, entity, entity_set, typed_wildcard, wildcard}
use hub_rs.Zanzibar.SubjectCodec.{
  Wire, encode_subject, decode_subject, entity_of, decode_entity, decode_wildcard, decode_edge,
  decode_userset,
}

-- A subject that the grammar can carry: a validated DID, and set fields that are not empty.
abbrev pub IsCanonical : Subject → Type 0
IsCanonical (entity did) = Identity.new did.as_str ≡ Identity.Result.ok did
IsCanonical (entity_set resource object_id relation) =
    (is_empty resource ≡ false) × (is_empty object_id ≡ false)
IsCanonical (typed_wildcard resource) = ⊥
IsCanonical wildcard = Unit

abbrev pub decode : Wire → Result Subject
decode (kind, resource, object_id, relation) = decode_subject kind resource object_id relation

-- Decoding the encoding of a subject gives the subject back, for every subject with a validated
-- DID and non-empty set fields.
pub decode-encode :
    (s : Subject) → IsCanonical s → (w : Wire) × (encode_subject s ≡ ok w) × (decode w ≡ ok s)
unfolding encode_subject decode_subject decode_entity decode_wildcard decode_edge decode_userset
decode-encode (entity did) h = ((0, [], did.as_str, []), refl, rw (h, entity_of))
decode-encode wildcard h = ((1, [], [], []), refl, refl)
decode-encode (typed_wildcard resource) h = absurd h
decode-encode (entity_set (c ∷ r) (d ∷ o) []) h = ((2, c ∷ r, d ∷ o, []), refl, refl)
decode-encode (entity_set (c ∷ r) (d ∷ o) (e ∷ l)) h = ((3, c ∷ r, d ∷ o, e ∷ l), refl, refl)
decode-encode (entity_set [] o l) h = cc
decode-encode (entity_set (c ∷ r) [] l) h = cc

new_keeps : (t : Text) (did : Did) → Identity.new t ≡ Identity.Result.ok did → did.as_str ≡ t
unfolding Identity.new
new_keeps t did h = ground arith

entity_of-eq-ok :
    (o : Text) (m : Identity.Result Did) (s : Subject)
    → entity_of o m ≡ ok s
    → (did : Did) × (m ≡ Identity.Result.ok did) × (s ≡ entity did)
entity_of-eq-ok o (Identity.Result.ok did) s h = (did, refl, cc)
entity_of-eq-ok o (Identity.Result.err e) s h = cc

abbrev Inverts : ℕ → Text → Text → Text → Subject → Type 0
Inverts kind resource object_id relation s =
    (encode_subject s ≡ ok (kind, resource, object_id, relation)) × IsCanonical s

decode_entity-Inverts :
    (r o l : Text) (s : Subject) → decode_entity r o l ≡ ok s → Inverts 0 r o l s
unfolding decode_entity encode_subject
decode_entity-Inverts [] o [] s h =
    let (did, e, q) = entity_of-eq-ok o (Identity.new o) s h in
    let same = new_keeps o did e in rw q (rw same refl, rw same e)
decode_entity-Inverts [] o (d ∷ l) s h = cc
decode_entity-Inverts (c ∷ r) o l s h = cc

decode_wildcard-Inverts :
    (r o l : Text) (s : Subject) → decode_wildcard r o l ≡ ok s → Inverts 1 r o l s
unfolding decode_wildcard encode_subject
decode_wildcard-Inverts r o l s h = ground arith

decode_edge-Inverts : (r o l : Text) (s : Subject) → decode_edge r o l ≡ ok s → Inverts 2 r o l s
unfolding decode_edge encode_subject
decode_edge-Inverts r o l s h = ground arith

decode_userset-Inverts :
    (r o l : Text) (s : Subject) → decode_userset r o l ≡ ok s → Inverts 3 r o l s
unfolding decode_userset encode_subject
decode_userset-Inverts r o l s h = ground arith

-- Whatever decodes to a subject is the encoding of that subject: the decoder accepts no second
-- spelling, and its result is canonical.
pub encode-decode :
    (kind : ℕ) (resource object_id relation : Text) (s : Subject)
    → decode_subject kind resource object_id relation ≡ ok s
    → (encode_subject s ≡ ok (kind, resource, object_id, relation)) × IsCanonical s
unfolding decode_subject
encode-decode kind resource object_id relation s h = ground (
  arith,
  decode_entity-Inverts resource object_id relation s,
  decode_wildcard-Inverts resource object_id relation s,
  decode_edge-Inverts resource object_id relation s,
  decode_userset-Inverts resource object_id relation s,
)
