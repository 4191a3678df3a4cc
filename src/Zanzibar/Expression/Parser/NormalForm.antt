-- ===== src/Zanzibar/Expression/Parser/NormalForm.antt =====
-- The form of what the parser of expression/parser.rs returns.
use hub_rs.Prelude.{
  ℕ, zero, suc, ◌≡◌, refl, Bool, true, false, Option, none, some, ◌==◌, nat_eq, list_eq, arith,
  if◌then◌else◌, subst,
}
use hub_rs.Text.{Text, codes}
use hub_rs.Zanzibar.Error.{Result, ok, err, ◌>>=◌, ◌>>◌}
use hub_rs.Zanzibar.Expression.{
  RelationExpression, Expressions, this, computed_userset, tuple_to_userset, union, intersection,
  difference, nil, cons, extend,
}
use hub_rs.Zanzibar.Expression.Parser.{
  trim, Split, validate_identifier, parse_arrow, term_of, parse_term, in_union, in_intersection,
  merge_union, merge_intersection, apply_operator, parse_operator, parse_trimmed, parse_bounded,
  parse, find_arrow, inside, find_rightmost_operator, Parser,
}

abbrev pub at_least_two : Expressions → Bool
at_least_two (cons e (cons d es)) = true
at_least_two _ = false

abbrev pub not_union : RelationExpression → Bool
not_union (union es) = false
not_union _ = true

abbrev pub not_intersection : RelationExpression → Bool
not_intersection (intersection es) = false
not_intersection _ = true

-- Every name is an identifier; a union has two operands at least, none of them a union, and an
-- intersection likewise.
unfoldable mutual
  pub IsNormal : RelationExpression → Type 0
  IsNormal this = Unit
  IsNormal (computed_userset relation) = validate_identifier relation ≡ ok tt
  IsNormal (tuple_to_userset tuple relation) =
      (validate_identifier tuple ≡ ok tt) × (validate_identifier relation ≡ ok tt)
  IsNormal (union es) = (at_least_two es ≡ true) × AllNormal not_union es
  IsNormal (intersection es) = (at_least_two es ≡ true) × AllNormal not_intersection es
  IsNormal (difference base subtract) = IsNormal base × IsNormal subtract

  pub AllNormal : (RelationExpression → Bool) → Expressions → Type 0
  AllNormal allowed nil = Unit
  AllNormal allowed (cons e es) = (allowed e ≡ true) × IsNormal e × AllNormal allowed es

abbrev nonempty : Expressions → Bool
nonempty nil = false
nonempty (cons e es) = true

extend-AllNormal :
    (allowed : RelationExpression → Bool) (xs ys : Expressions)
    → AllNormal allowed xs
    → AllNormal allowed ys
    → AllNormal allowed (extend xs ys)
unfolding extend IsNormal
extend-AllNormal allowed nil ys u v = v
extend-AllNormal allowed (cons x xs) ys (a, n, u) v = (a, n, extend-AllNormal allowed xs ys u v)

extend-at_least_two :
    (xs ys : Expressions)
    → nonempty xs ≡ true
    → nonempty ys ≡ true
    → at_least_two (extend xs ys) ≡ true
unfolding extend
extend-at_least_two nil ys u v = cc
extend-at_least_two (cons x xs) nil u v = cc
extend-at_least_two (cons x nil) (cons y ys) u v = refl
extend-at_least_two (cons x (cons z xs)) (cons y ys) u v = refl

two_nonempty : (es : Expressions) → at_least_two es ≡ true → nonempty es ≡ true
two_nonempty nil h = cc
two_nonempty (cons e es) h = refl

in_union-IsNormal :
    (e : RelationExpression)
    → IsNormal e
    → (nonempty (in_union e) ≡ true) × AllNormal not_union (in_union e)
unfolding IsNormal
in_union-IsNormal (union es) (two, n) = (two_nonempty es two, n)
in_union-IsNormal this h = (refl, (refl, h, tt))
in_union-IsNormal (computed_userset r) h = (refl, (refl, h, tt))
in_union-IsNormal (tuple_to_userset t r) h = (refl, (refl, h, tt))
in_union-IsNormal (intersection es) h = (refl, (refl, h, tt))
in_union-IsNormal (difference b s) h = (refl, (refl, h, tt))

in_intersection-IsNormal :
    (e : RelationExpression)
    → IsNormal e
    → (nonempty (in_intersection e) ≡ true) × AllNormal not_intersection (in_intersection e)
unfolding IsNormal
in_intersection-IsNormal (intersection es) (two, n) = (two_nonempty es two, n)
in_intersection-IsNormal this h = (refl, (refl, h, tt))
in_intersection-IsNormal (computed_userset r) h = (refl, (refl, h, tt))
in_intersection-IsNormal (tuple_to_userset t r) h = (refl, (refl, h, tt))
in_intersection-IsNormal (union es) h = (refl, (refl, h, tt))
in_intersection-IsNormal (difference b s) h = (refl, (refl, h, tt))

merge_union-IsNormal :
    (l r : RelationExpression) → IsNormal l → IsNormal r → IsNormal (merge_union l r)
unfolding IsNormal merge_union
merge_union-IsNormal l r u v =
    let (a, b) = in_union-IsNormal l u in
    let (c, d) = in_union-IsNormal r v in
    (extend-at_least_two _ _ a c, extend-AllNormal not_union _ _ b d)

merge_intersection-IsNormal :
    (l r : RelationExpression) → IsNormal l → IsNormal r → IsNormal (merge_intersection l r)
unfolding IsNormal merge_intersection
merge_intersection-IsNormal l r u v =
    let (a, b) = in_intersection-IsNormal l u in
    let (c, d) = in_intersection-IsNormal r v in
    (extend-at_least_two _ _ a c, extend-AllNormal not_intersection _ _ b d)

apply_operator-IsNormal :
    (op : ℕ) (l r : RelationExpression) → IsNormal l → IsNormal r → IsNormal (apply_operator op l r)
unfolding apply_operator IsNormal
apply_operator-IsNormal op l r u v = choose (op == b'+') (op == b'&')
  where
    choose :
        (a b : Bool)
        → IsNormal
            (if a then merge_union l r else if b then merge_intersection l r else difference l r)
    choose true b = merge_union-IsNormal l r u v
    choose false true = merge_intersection-IsNormal l r u v
    choose false false = (u, v)

ok_eq : (a b : RelationExpression) → Result.ok a ≡ ok b → a ≡ b
ok_eq a b k = ground arith

parse_arrow-eq-ok :
    (t r : Text) (e : RelationExpression)
    → parse_arrow t r ≡ ok e
    → (validate_identifier t ≡ ok tt) × (validate_identifier r ≡ ok tt) × (e ≡ tuple_to_userset t r)
unfolding parse_arrow
parse_arrow-eq-ok t r e h = ground arith

computed-eq-ok :
    (input : Text) (e : RelationExpression)
    → (validate_identifier input >> ok (computed_userset input)) ≡ ok e
    → (validate_identifier input ≡ ok tt) × (e ≡ computed_userset input)
computed-eq-ok input e h = ground arith

term_of-IsNormal :
    (input : Text) (o : Option (Text × Text)) (e : RelationExpression)
    → term_of input o ≡ ok e
    → IsNormal e
unfolding IsNormal
term_of-IsNormal input none e h = let (valid, same) = computed-eq-ok input e h in rw same valid
term_of-IsNormal input (some (left, right)) e h =
    let (a, b, same) = parse_arrow-eq-ok (trim left) (trim right) e h in rw same (a, b)

parse_term-IsNormal : (s : Text) (e : RelationExpression) → parse_term s ≡ ok e → IsNormal e
unfolding parse_term IsNormal
parse_term-IsNormal s e h = choose (trim s == codes "_this") h
  where
    choose :
        (b : Bool)
        → (if b then ok this else term_of (trim s) (find_arrow (trim s))) ≡ ok e
        → IsNormal e
    choose true k = subst IsNormal (ok_eq this e k) tt
    choose false k = term_of-IsNormal (trim s) (find_arrow (trim s)) e k

module _ (parser : Parser)
    (ih : (s : Text) (e : RelationExpression) → parser s ≡ ok e → IsNormal e) where
  parse_operator-IsNormal :
      (s : Text) (o : Option Split) (e : RelationExpression)
      → parse_operator parser s o ≡ ok e
      → IsNormal e
  unfolding parse_operator
  parse_operator-IsNormal s none e h = parse_term-IsNormal s e h
  parse_operator-IsNormal s (some (left, op, right)) e h =
      go (parser left) (parser right) (ih left) (ih right) h
    where
      go :
          (l r : Result RelationExpression)
          → ((d : RelationExpression) → l ≡ ok d → IsNormal d)
          → ((d : RelationExpression) → r ≡ ok d → IsNormal d)
          → (l >>= λ x. r >>= λ y. ok (apply_operator op x y)) ≡ ok e
          → IsNormal e
      go (ok x) (ok y) u v k =
          subst IsNormal (ok_eq (apply_operator op x y) e k)
            (apply_operator-IsNormal op x y (u x refl) (v y refl))
      go (ok x) (err y) u v k = cc
      go (err x) r u v k = cc

  parse_trimmed-IsNormal :
      (s : Text) (e : RelationExpression) → parse_trimmed parser s ≡ ok e → IsNormal e
  unfolding parse_trimmed
  parse_trimmed-IsNormal s e h =
      ground (arith, ih (inside s) e, parse_operator-IsNormal s (find_rightmost_operator 0 0 s) e)

parse_bounded-IsNormal :
    (n : ℕ) (s : Text) (e : RelationExpression) → parse_bounded n s ≡ ok e → IsNormal e
unfolding parse_bounded
parse_bounded-IsNormal zero s e h = cc
parse_bounded-IsNormal (suc n) s e h =
    parse_trimmed-IsNormal (parse_bounded n) (parse_bounded-IsNormal n) (trim s) e h

-- Whatever text parses gives an expression in which every name is an identifier, every union and
-- every intersection has two operands at least, no operand of a union is a union, and no operand of
-- an intersection is an intersection.
pub parse-IsNormal : (s : Text) (e : RelationExpression) → parse s ≡ ok e → IsNormal e
unfolding parse
parse-IsNormal s e h = parse_bounded-IsNormal 128 s e h
