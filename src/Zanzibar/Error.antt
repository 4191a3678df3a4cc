-- ===== src/Zanzibar/Error.antt =====
-- crates/zanzibar/src/error.rs, and the result of code that may fail. A formatted message is the
-- constructor of a fault with the values that it interpolates.
use hub_rs.Prelude.{ℕ, Bool, true, false}
use hub_rs.Text.{Text}

pub data Limit : Type 0 where
  steps depth : Limit

-- The messages of `InvalidExpression`.
pub data ExpressionFault : Type 0 where
  nesting_limit empty_expression empty_tuple_relation empty_computed_relation : ExpressionFault
  empty_identifier : ExpressionFault
  bad_first_character : Text → ExpressionFault
  bad_character : ℕ → Text → ExpressionFault

-- The messages of `InvalidPolicy`.
pub data PolicyFault : Type 0 where
  no_computed_relation no_tuple_relation : Text → Text → PolicyFault
  actor_object actor_subject actor_did : PolicyFault

-- The messages of `InvalidSubjectEncoding`.
pub data EncodingFault : Type 0 where
  typed_wildcard_reserved : Text → EncodingFault
  entity_resource entity_relation entity_did : Text → EncodingFault
  wildcard_fields : Text → Text → Text → EncodingFault
  edge_resource edge_object_id : EncodingFault
  edge_relation : Text → EncodingFault
  userset_resource userset_object_id userset_relation : EncodingFault
  unrecognized_kind : ℕ → EncodingFault

pub data FieldFault : Type 0 where
  empty : FieldFault
  forbidden_character : ℕ → FieldFault

pub data Error : Type 0 where
  indeterminate_exclusion : Error
  evaluation_limit_exceeded : Limit → Error
  policy_not_found : Text → Error
  relation_not_found : Text → Text → Error
  resource_not_found : Text → Error
  invalid_expression : ExpressionFault → Error
  invalid_policy : PolicyFault → Error
  invalid_entity_set_reference : Text → Text → Error
  subject_restriction_violation : Text → Text → Error
  dpi_missing_owner : Text → Error
  dpi_expression_missing_owner : Text → Text → Error
  dpi_disallowed_operation : Text → Text → Text → Error
  invalid_relationship_field : Text → FieldFault → Error
  invalid_subject_encoding : EncodingFault → Error

pub data Result {ℓ} (A : Type ℓ) : Type ℓ where
  ok : A → Result A
  err : Error → Result A

-- `if b { return Err(e) }`.
abbrev pub fail_if : Bool → Error → Result (Unit {0})
fail_if false e = ok tt
fail_if true e = err e

-- The operator `?`.
infixl 5 ◌>>=◌ ◌>>◌
abbrev pub ◌>>=◌ {ℓ κ} : {A : Type ℓ} {B : Type κ} → Result A → (A → Result B) → Result B
err e >>= rest = err e
ok value >>= rest = rest value

abbrev pub ◌>>◌ {ℓ} : {B : Type ℓ} → Result (Unit {0}) → Result B → Result B
first >> second = first >>= λ _. second
