-- ===== src/Zanzibar/Expression.antt =====
-- crates/zanzibar/src/expression/mod.rs: the userset rewrite rules.
pub mod Parser
use hub_rs.Prelude.{Bool, true, false}
use hub_rs.Text.{Text}

mutual
  pub data RelationExpression : Type 0 where
    this : RelationExpression
    computed_userset : Text → RelationExpression
    -- The tuple relation, then the computed relation.
    tuple_to_userset : Text → Text → RelationExpression
    union : Expressions → RelationExpression
    intersection : Expressions → RelationExpression
    -- The base, then what is subtracted.
    difference : RelationExpression → RelationExpression → RelationExpression

  -- `Vec<RelationExpression>`.
  pub data Expressions : Type 0 where
    nil : Expressions
    cons : RelationExpression → Expressions → Expressions

unfoldable pub is_this : RelationExpression → Bool
is_this this = true
is_this _ = false

-- `Vec::extend`.
unfoldable pub extend : Expressions → Expressions → Expressions
extend nil ys = ys
extend (cons x xs) ys = cons x (extend xs ys)
