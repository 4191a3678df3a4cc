-- ===== src/Zanzibar/Expression/Parser/Tests.antt =====
-- Texts that parse and texts that do not, and the theorem of this component at one.
use hub_rs.Prelude.{◌≡◌, refl}
use hub_rs.Prelude.Equality.{list_beq}
use hub_rs.Text.{Text, codes, starts_with}
use hub_rs.Zanzibar.Error.{ok, err, invalid_expression, empty_expression}
use hub_rs.Zanzibar.Expression.{
  RelationExpression, this, computed_userset, tuple_to_userset, union, difference, nil, cons,
  extend,
}
use hub_rs.Zanzibar.Expression.Parser.{
  parse, parse_bounded, validate_identifier, trim_start, trim_end, ends_with_close,
}
use hub_rs.Zanzibar.Expression.Parser.NormalForm.{IsNormal, parse-IsNormal}

abbrev sample : Text
sample = codes "(owner + (_this + reader)) - parent->owner"

abbrev sample_expression : RelationExpression
sample_expression =
    difference
      (union (
        cons (computed_userset (codes "owner"))
          (cons this (cons (computed_userset (codes "reader")) nil))))
      (tuple_to_userset (codes "parent") (codes "owner"))

sample_parses : parse sample ≡ ok sample_expression
unfolding parse parse_bounded list_beq validate_identifier trim_start trim_end starts_with extend
    ends_with_close
sample_parses = refl

empty_parentheses : parse (codes "( )") ≡ err (invalid_expression empty_expression)
unfolding parse parse_bounded list_beq validate_identifier trim_start trim_end starts_with extend
    ends_with_close
empty_parentheses = refl

parse-IsNormal_example : IsNormal sample_expression
parse-IsNormal_example = parse-IsNormal sample sample_expression sample_parses
