-- ===== src/Zanzibar/Expression/Parser.antt =====
-- crates/zanzibar/src/expression/parser.rs: relation expressions from text. A position that the
-- source finds in a text is the split of the text there; the depth of parentheses, a signed counter
-- that is only tested for zero, is the numbers of opened and of closed ones.
pub mod NormalForm
mod Tests
use hub_rs.Prelude.{
  ℕ, zero, suc, ◌+◌, ◌≡◌, Bool, true, false, not, Option, none, some, List, [], ◌∷◌, ◌++◌, ◌&&◌,
  ◌||◌, ◌==◌, nat_eq, list_eq, leb, if◌then◌else◌, any,
}
use hub_rs.Text.{Text, codes, is_empty, starts_with}
use hub_rs.Zanzibar.Error.{
  Error, Result, ok, err, ◌>>=◌, ◌>>◌, fail_if, invalid_expression, nesting_limit, empty_expression,
  empty_tuple_relation, empty_computed_relation, empty_identifier, bad_first_character,
  bad_character,
}
use hub_rs.Zanzibar.Expression.{
  RelationExpression, Expressions, this, computed_userset, tuple_to_userset, union, intersection,
  difference, nil, cons, extend,
}

-- `char::is_whitespace`.
unfoldable pub is_whitespace : ℕ → Bool
is_whitespace c =
    (leb 9 c && leb c 13)
    || c == 32
    || c == 133
    || c == 160
    || c == 5760
    || (leb 8192 c && leb c 8202)
    || c == 8232
    || c == 8233
    || c == 8239
    || c == 8287
    || c == 12288

unfoldable pub trim_start : Text → Text
unfolding is_whitespace
trim_start [] = []
trim_start (c ∷ s) = if is_whitespace c then trim_start s else c ∷ s

unfoldable pub trim_end : Text → Text
unfolding is_whitespace
trim_end [] = []
trim_end (c ∷ s) = let r = trim_end s in if is_empty r && is_whitespace c then [] else c ∷ r

-- `str::trim`.
abbrev pub trim : Text → Text
trim s = trim_end (trim_start s)

unfoldable pub is_ascii_alphabetic : ℕ → Bool
is_ascii_alphabetic c = (leb b'a' c && leb c b'z') || (leb b'A' c && leb c b'Z')

unfoldable pub is_ascii_alphanumeric : ℕ → Bool
unfolding is_ascii_alphabetic
is_ascii_alphanumeric c = is_ascii_alphabetic c || (leb b'0' c && leb c b'9')

-- The loop of `validate_identifier`, which names the whole text in its error.
unfoldable pub check_characters : Text → Text → Result (Unit {0})
unfolding is_ascii_alphanumeric
check_characters whole [] = ok tt
check_characters whole (c ∷ s) =
    if not (is_ascii_alphanumeric c) && not (c == b'_')
    then err (invalid_expression (bad_character c whole))
    else check_characters whole s

unfoldable pub validate_identifier : Text → Result (Unit {0})
unfolding check_characters
validate_identifier [] = err (invalid_expression empty_identifier)
validate_identifier (c ∷ s) =
    if not (is_ascii_alphabetic c) && not (c == b'_')
    then err (invalid_expression (bad_first_character (c ∷ s)))
    else check_characters (c ∷ s) (c ∷ s)

-- `input.ends_with(')')`.
unfoldable pub ends_with_close : Text → Bool
ends_with_close [] = false
ends_with_close (c ∷ []) = c == b')'
ends_with_close (c ∷ d ∷ s) = ends_with_close (d ∷ s)

abbrev opens_by : ℕ → ℕ
opens_by c = if c == b'(' then 1 else 0

abbrev closes_by : ℕ → ℕ
closes_by c = if c == b')' then 1 else 0

-- The loop of `is_fully_parenthesized`: no parenthesis but the last character closes the first.
unfoldable pub stays_open : ℕ → ℕ → Text → Bool
stays_open opened closed [] = true
stays_open opened closed (c ∷ s) =
    let rest = stays_open (opened + opens_by c) (closed + closes_by c) s in
    if c == b')' && opened == closed + 1 && not (is_empty s) then false else rest

unfoldable pub is_fully_parenthesized : Text → Bool
unfolding ends_with_close stays_open
is_fully_parenthesized s =
    if not (starts_with (codes "(") s) || not (ends_with_close s) then false else stays_open 0 0 s

abbrev pub is_operator : ℕ → Text → Bool
is_operator c rest = c == b'+' || c == b'&' || (c == b'-' && not (starts_with (codes ">") rest))

-- What stands before the operator, the operator, and what stands after it.
abbrev pub Split : Type 0
Split = Text × ℕ × Text

abbrev or_here : ℕ → Text → Bool → Option Split → Option Split
or_here c s here (some (left, op, right)) = some (c ∷ left, op, right)
or_here c s true none = some ([], c, s)
or_here c s false none = none

-- `find_rightmost_operator`: the last operator outside parentheses.
unfoldable pub find_rightmost_operator : ℕ → ℕ → Text → Option Split
find_rightmost_operator opened closed [] = none
find_rightmost_operator opened closed (c ∷ s) =
    or_here c s (is_operator c s && opened == closed)
      (find_rightmost_operator (opened + opens_by c) (closed + closes_by c) s)

abbrev prepend : ℕ → Option (Text × Text) → Option (Text × Text)
prepend c none = none
prepend c (some (left, right)) = some (c ∷ left, right)

-- `input.find("->")`, with what stands before and after it.
unfoldable pub find_arrow : Text → Option (Text × Text)
find_arrow [] = none
find_arrow (c ∷ []) = none
find_arrow (c ∷ d ∷ s) =
    let later = find_arrow (d ∷ s) in
    if c == b'-' && d == b'>' then some ([], s) else prepend c later

unfoldable pub parse_arrow : Text → Text → Result RelationExpression
parse_arrow tuple_relation computed_relation = do
  fail_if (is_empty tuple_relation) (invalid_expression empty_tuple_relation)
  fail_if (is_empty computed_relation) (invalid_expression empty_computed_relation)
  validate_identifier tuple_relation
  validate_identifier computed_relation
  ok (tuple_to_userset tuple_relation computed_relation)

abbrev pub term_of : Text → Option (Text × Text) → Result RelationExpression
term_of input none = validate_identifier input >> ok (computed_userset input)
term_of input (some (left, right)) = parse_arrow (trim left) (trim right)

unfoldable pub parse_term : Text → Result RelationExpression
unfolding parse_arrow find_arrow
parse_term s =
    let input = trim s in
    if input == codes "_this" then ok this else term_of input (find_arrow input)

-- The operands that an operand brings to a union.
abbrev pub in_union : RelationExpression → Expressions
in_union (union inner) = inner
in_union other = cons other nil

abbrev pub in_intersection : RelationExpression → Expressions
in_intersection (intersection inner) = inner
in_intersection other = cons other nil

unfoldable pub merge_union : RelationExpression → RelationExpression → RelationExpression
merge_union left right = union (extend (in_union left) (in_union right))

unfoldable pub merge_intersection : RelationExpression → RelationExpression → RelationExpression
merge_intersection left right = intersection (extend (in_intersection left) (in_intersection right))

-- The `match` on the operator, which is one of `+`, `&` and `-`.
unfoldable pub apply_operator : ℕ → RelationExpression → RelationExpression → RelationExpression
unfolding merge_union merge_intersection
apply_operator op left right =
    if op == b'+'
    then merge_union left right
    else if op == b'&'
    then merge_intersection left right
    else difference left right

-- `&input[1..input.len() - 1]`.
abbrev pub drop_last : Text → Text
drop_last [] = []
drop_last (c ∷ []) = []
drop_last (c ∷ d ∷ s) = c ∷ drop_last (d ∷ s)

abbrev pub inside : Text → Text
inside [] = []
inside (c ∷ s) = drop_last s

abbrev pub Parser : Type 0
Parser = Text → Result RelationExpression

-- The branches on the operator, over the parser for one level less.
unfoldable pub parse_operator : Parser → Text → Option Split → Result RelationExpression
unfolding apply_operator parse_term
parse_operator parse input none = parse_term input
parse_operator parse input (some (left, op, right)) =
    parse left >>= λ l. parse right >>= λ r. ok (apply_operator op l r)

unfoldable pub parse_trimmed : Parser → Text → Result RelationExpression
unfolding parse_operator is_fully_parenthesized find_rightmost_operator
parse_trimmed parse input =
    if is_empty input
    then err (invalid_expression empty_expression)
    else if starts_with (codes "(") input && ends_with_close input && is_fully_parenthesized input
    then parse (inside input)
    else parse_operator parse input (find_rightmost_operator 0 0 input)

unfoldable pub parse_bounded : ℕ → Parser
unfolding parse_trimmed
parse_bounded zero input = err (invalid_expression nesting_limit)
parse_bounded (suc remaining) input = parse_trimmed (parse_bounded remaining) (trim input)

-- `RelationExpression::parse`.
unfoldable pub parse : Parser
parse input = parse_bounded 128 input
