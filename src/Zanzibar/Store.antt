-- ===== src/Zanzibar/Store.antt =====
-- crates/zanzibar/src/store/traits.rs: what the engine reads of a store. A store is an argument of
-- the engine; its reads are functions, as the contract of `check_blocking` asks (side-effect-free
-- and order-stable).
use hub_rs.Prelude.{Bool, List}
use hub_rs.Text.{Text}
use hub_rs.Identity.{Did}
use hub_rs.Zanzibar.Error.{Result}
use hub_rs.Zanzibar.Subject.{Subject}
use hub_rs.Zanzibar.Relationship.{ObjectRef}

-- The arguments are the policy, the resource, the object, the relation and the subject.
pub record ZanzibarStore : Type 0 where
  pub check_permission_direct : Text → Text → Text → Text → Did → Result Bool
  pub get_relation_subjects : Text → Text → Text → Text → Result (List Subject)
  pub get_relation_targets : Text → Text → Text → Text → Result (List ObjectRef)
