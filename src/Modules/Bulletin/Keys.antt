-- ===== src/Modules/Bulletin/Keys.antt =====
-- crates/vera-modules/src/bulletin/keys.rs. A string is the list of its UTF-8 bytes; the bytes that
-- are replaced are of no other character.
use hub_rs.Prelude.{
  ℕ, true, [], ◌∷◌, ◌++◌, append_assoc, ◌==◌, nat_eq, ◌≡◌, ◌≢◌, refl, sym, ap, ◌∙◌, subst, arith,
  if◌then◌else◌, Bool-cases, inl, inr, ◌↔◌,
}
use hub_rs.Text.{codes, starts_with, starts_with-append, starts_with_split}
use hub_rs.Modules.OrdMap.{Bytes}

abbrev pub slash : ℕ
slash = 47

abbrev pub percent : ℕ
percent = 37

abbrev pub pipe : ℕ
pipe = 124

-- `str::replace` of a character.
unfoldable pub replace : ℕ → Bytes → Bytes → Bytes
replace c with [] = []
replace c with (d ∷ s) = if d == c then with ++ replace c with s else d ∷ replace c with s

unfoldable pub sanitize_key_part : Bytes → Bytes
unfolding replace
sanitize_key_part part =
    replace slash (codes "|") (replace pipe (codes "%7C") (replace percent (codes "%25") part))

abbrev pub policy_id_key : Bytes
policy_id_key = codes "policy_id"

abbrev pub params_key : Bytes
params_key = codes "p_bulletin"

abbrev pub post_start : Bytes
post_start = codes "post/"

abbrev pub namespace_start : Bytes
namespace_start = codes "namespace/"

abbrev pub collaborator_start : Bytes
collaborator_start = codes "collaborator/"

abbrev pub namespace_id : Bytes → Bytes
namespace_id namespace =
    if starts_with (codes "bulletin/") namespace then namespace else codes "bulletin/" ++ namespace

-- What `post_key`, `collaborator_key` and their prefixes share.
abbrev part_prefix : Bytes → Bytes → Bytes
part_prefix start first = start ++ (sanitize_key_part first ++ (slash ∷ []))

abbrev part_key : Bytes → Bytes → Bytes → Bytes
part_key start first second =
    start ++ (sanitize_key_part first ++ (slash ∷ sanitize_key_part second))

unfoldable pub post_key : Bytes → Bytes → Bytes
unfolding sanitize_key_part
post_key namespace post_id = part_key post_start namespace post_id

unfoldable pub collaborator_key : Bytes → Bytes → Bytes
unfolding sanitize_key_part
collaborator_key namespace did = part_key collaborator_start namespace did

unfoldable pub namespace_key : Bytes → Bytes
namespace_key namespace = namespace_start ++ namespace

unfoldable pub collaborator_prefix : Bytes → Bytes
unfolding sanitize_key_part
collaborator_prefix namespace = part_prefix collaborator_start namespace

unfoldable pub post_prefix : Bytes → Bytes
unfolding sanitize_key_part
post_prefix namespace = part_prefix post_start namespace

-- The bytes that stand for one byte of a part.
abbrev sanitized : ℕ → Bytes
sanitized c =
    if c == percent
    then codes "%25"
    else (if c == pipe then codes "%7C" else (if c == slash then pipe ∷ [] else c ∷ []))

sanitize_byte : (c : ℕ) (s : Bytes) → sanitize_key_part (c ∷ s) ≡ sanitized c ++ sanitize_key_part s
unfolding sanitize_key_part replace
sanitize_byte c s = ground arith

sanitized_cancel : (c d : ℕ) (x y : Bytes) → sanitized c ++ x ≡ sanitized d ++ y → (c ≡ d) × (x ≡ y)
sanitized_cancel c d x y h = ground arith

HasNoSlash : Bytes → Type 0
HasNoSlash [] = Unit
HasNoSlash (c ∷ s) = (c ≢ slash) × HasNoSlash s

sanitized-HasNoSlash : (c : ℕ) (x : Bytes) → HasNoSlash x → HasNoSlash (sanitized c ++ x)
unfolding HasNoSlash
sanitized-HasNoSlash c x n = elim (Bool-cases (c == percent)) [
  | inl e ↦ rw e (omega arith, (omega arith, (omega arith, n)))
  | inr e ↦ elim (Bool-cases (c == pipe)) [
    | inl f ↦ rw (e, f) (omega arith, (omega arith, (omega arith, n)))
    | inr f ↦ elim (Bool-cases (c == slash)) [
      | inl g ↦ rw (e, f, g) (omega arith, n)
      | inr g ↦ rw (e, f, g) (ground (arith, g), n)
    ]
  ]
]

sanitize-HasNoSlash : (s : Bytes) → HasNoSlash (sanitize_key_part s)
unfolding sanitize_key_part replace HasNoSlash
sanitize-HasNoSlash [] = tt
sanitize-HasNoSlash (c ∷ s) =
    subst HasNoSlash (sym (sanitize_byte c s))
      (sanitized-HasNoSlash c (sanitize_key_part s) (sanitize-HasNoSlash s))

pub sanitize_key_part-injective : (a b : Bytes) → sanitize_key_part a ≡ sanitize_key_part b → a ≡ b
unfolding sanitize_key_part replace
sanitize_key_part-injective [] [] h = refl
sanitize_key_part-injective [] (d ∷ b) h = ground arith
sanitize_key_part-injective (c ∷ a) [] h = ground arith
sanitize_key_part-injective (c ∷ a) (d ∷ b) h =
    let (e, f) =
      sanitized_cancel c d (sanitize_key_part a) (sanitize_key_part b)
        (sym (sanitize_byte c a) ∙ h ∙ sanitize_byte d b) in
    let g = sanitize_key_part-injective a b f in ground arith

slash_splits :
    (a b c d : Bytes)
    → HasNoSlash a
    → HasNoSlash b
    → a ++ (slash ∷ c) ≡ b ++ (slash ∷ d)
    → (a ≡ b) × (c ≡ d)
unfolding HasNoSlash
slash_splits [] [] c d m n h = (refl, ground arith)
slash_splits [] (y ∷ b) c d m (g, n) h = ground arith
slash_splits (x ∷ a) [] c d (g, m) n h = ground arith
slash_splits (x ∷ a) (y ∷ b) c d (g, m) (k, n) h =
    let (e, f) = slash_splits a b c d m n (ground arith) in (ground arith, f)

append_cancel : (p a b : Bytes) → p ++ a ≡ p ++ b → a ≡ b
append_cancel [] a b h = h
append_cancel (x ∷ p) a b h = append_cancel p a b (ground arith)

part_key-injective :
    (start a b c d : Bytes) → part_key start a b ≡ part_key start c d → (a ≡ c) × (b ≡ d)
part_key-injective start a b c d h =
    let (e, f) =
      slash_splits (sanitize_key_part a) (sanitize_key_part c) (sanitize_key_part b)
        (sanitize_key_part d) (sanitize-HasNoSlash a) (sanitize-HasNoSlash c)
        (append_cancel start _ _ h) in
    (sanitize_key_part-injective a c e, sanitize_key_part-injective b d f)

part_prefix-append :
    (start a b : Bytes) → part_key start a b ≡ part_prefix start a ++ sanitize_key_part b
part_prefix-append start a b = sym (
    append_assoc start (sanitize_key_part a ++ (slash ∷ [])) (sanitize_key_part b)
    ∙ ap (λ x. start ++ x) (append_assoc (sanitize_key_part a) (slash ∷ []) (sanitize_key_part b)))

part_prefix_iff :
    (start a c d : Bytes)
    → (starts_with (part_prefix start a) (part_key start c d) ≡ true) ↔ (a ≡ c)
part_prefix_iff start a c d = (
  λ h.
      (let (r, e) = starts_with_split (part_prefix start a) (part_key start c d) h in
        let (f, g) =
          slash_splits (sanitize_key_part c) (sanitize_key_part a) (sanitize_key_part d) r
            (sanitize-HasNoSlash c) (sanitize-HasNoSlash a)
            (append_cancel start _ _ (
              e
              ∙ append_assoc start (sanitize_key_part a ++ (slash ∷ [])) r
              ∙ ap (λ x. start ++ x) (append_assoc (sanitize_key_part a) (slash ∷ []) r))) in
        sym (sanitize_key_part-injective c a f)),
  λ e.
      subst (λ x. starts_with (part_prefix start a) x ≡ true)
        (sym (part_prefix-append start a d) ∙ ap (λ x. part_key start x d) e)
        (starts_with-append (part_prefix start a) (sanitize_key_part d)),
)

-- The key of a post names its namespace and its identifier, whatever bytes they have, and the key of
-- a collaborator likewise: two of them are the same key only if both parts are the same. The keys
-- that start with a namespace's prefix are exactly those of its own posts, and those of its own
-- collaborators.
pub record_keys_distinct :
    (a b c d : Bytes)
    → ((post_key a b ≡ post_key c d) ↔ ((a ≡ c) × (b ≡ d)))
      × ((collaborator_key a b ≡ collaborator_key c d) ↔ ((a ≡ c) × (b ≡ d)))
      × ((starts_with (post_prefix a) (post_key c d) ≡ true) ↔ (a ≡ c))
      × ((starts_with (collaborator_prefix a) (collaborator_key c d) ≡ true) ↔ (a ≡ c))
unfolding post_key collaborator_key post_prefix collaborator_prefix
record_keys_distinct a b c d = (
  (
    part_key-injective post_start a b c d,
    λ (e, f). ap (λ x. part_key post_start x b) e ∙ ap (λ x. part_key post_start c x) f,
  ),
  (
    part_key-injective collaborator_start a b c d,
    λ (e, f).
        ap (λ x. part_key collaborator_start x b) e ∙ ap (λ x. part_key collaborator_start c x) f,
  ),
  part_prefix_iff post_start a c d,
  part_prefix_iff collaborator_start a c d,
)
