-- ===== src/Zanzibar/Subject.antt =====
-- crates/zanzibar/src/types/subject.rs: subjects of relationships, and restrictions on them.
use hub_rs.Prelude.{Bool, true, false, ◌==◌, list_eq, nat_eq, ◌&&◌, ◌||◌}
use hub_rs.Text.{Text}
use hub_rs.Identity.{Did, did_eq}

pub data Subject : Type 0 where
  entity : Did → Subject
  -- The resource, the object and the relation, which is empty for an edge to the object itself.
  entity_set : Text → Text → Text → Subject
  typed_wildcard : Text → Subject
  wildcard : Subject

mutual
  pub data SubjectRestriction : Type 0 where
    is_entity : SubjectRestriction
    is_entity_set : Text → Text → SubjectRestriction
    is_typed_wildcard : Text → SubjectRestriction
    is_actor : SubjectRestriction
    any_of : Restrictions → SubjectRestriction
    anything : SubjectRestriction

  -- `Vec<SubjectRestriction>`.
  pub data Restrictions : Type 0 where
    nil : Restrictions
    cons : SubjectRestriction → Restrictions → Restrictions

-- `SubjectRestriction::satisfies`, whether it is `Ok`: the error is only a message.
unfoldable mutual
  pub satisfies : SubjectRestriction → Subject → Bool
  satisfies is_entity (entity _) = true
  satisfies is_entity _ = false
  satisfies (is_entity_set resource relation) (entity_set r _ l) = r == resource && l == relation
  satisfies (is_entity_set resource relation) _ = false
  satisfies (is_typed_wildcard resource) (typed_wildcard r) = r == resource
  satisfies (is_typed_wildcard resource) _ = false
  satisfies is_actor (entity _) = true
  satisfies is_actor wildcard = true
  satisfies is_actor _ = false
  satisfies (any_of restrictions) s = satisfies_any restrictions s
  satisfies anything s = true

  pub satisfies_any : Restrictions → Subject → Bool
  satisfies_any nil s = false
  satisfies_any (cons r rs) s = satisfies r s || satisfies_any rs s

-- `Subject::is_typed_wildcard`.
unfoldable pub subject_is_typed_wildcard : Subject → Bool
subject_is_typed_wildcard (typed_wildcard _) = true
subject_is_typed_wildcard _ = false
