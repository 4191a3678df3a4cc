-- ===== src/Modules/Bulletin/Glob/Correct.antt =====
-- `glob_match` of crates/vera-modules/src/bulletin/mod.rs against the meaning of globs.
use hub_rs.Prelude.{
  true, Option, none, some, [], ◌∷◌, ◌++◌, nat_eq, list_eq, list_beq_iff, ◌≡◌, ◌↔◌, refl, sym, ap,
  ◌∙◌, subst, arith, Option-cases, inl, inr,
}
use hub_rs.Text.{strip_prefix}
use hub_rs.Modules.OrdMap.{Bytes}
use hub_rs.Modules.Bulletin.Glob.{
  star, split_once, rsplit_once, strip_suffix, split_star, or_no_star, match_middle, match_parts,
  glob_match,
}
use hub_rs.Modules.Bulletin.Glob.Matches.{
  Matches, InOrder, joined, literal-Matches, literal_inverts, literal_exact, literal_only,
  star-Matches, star_inverts, joined-Matches, joined_inverts, joined-split_star,
  split_star-AllLiteral,
}
use hub_rs.Modules.Bulletin.Glob.Strips.{
  strip_prefix-append, strip_prefix-some, strip_suffix-append, strip_suffix-some, SplitFirst,
  SplitLast, split_once-SplitFirst, rsplit_once-SplitLast,
}
use hub_rs.Modules.Bulletin.Glob.Finds.{find_each_iff}

some_same : (a b : Bytes) → some a ≡ some b → a ≡ b
some_same a b h = ground arith

-- Literals in order, and a suffix behind them.
middle_iff :
    (q s v : Bytes)
    → (match_middle q (strip_suffix s v) ≡ true)
      ↔ ((u : Bytes) × (v ≡ u ++ s) × InOrder (split_star q) u)
middle_iff q s v = elim (Option-cases (strip_suffix s v)) [
  | inl e ↦ rw e (
    λ h. absurd (ground (arith, h)),
    λ (u, f, o). absurd (ground (arith, sym e ∙ ap (strip_suffix s) f ∙ strip_suffix-append s u)),
  )
  | inr (w, e) ↦ rw e (
    λ h. (w, strip_suffix-some s v w e, (find_each_iff (split_star q) w).0 h),
    λ (u, f, o).
        (let same = some_same w u (sym e ∙ ap (strip_suffix s) f ∙ strip_suffix-append s u) in
          (find_each_iff (split_star q) w).1 (subst (InOrder (split_star q)) (sym same) o)),
  )
]

nothing_between : (u : Bytes) → InOrder (split_star []) u
unfolding split_star
nothing_between u = ([], u, refl, tt)

last_iff :
    (rest w : Bytes) (o : Option (Bytes × Bytes))
    → SplitLast rest o
    → (match_middle (or_no_star rest o).0 (strip_suffix (or_no_star rest o).1 w) ≡ true)
      ↔ Matches (star ∷ rest) w
last_iff rest w none lit =
    let (forth, back) = middle_iff [] rest w in
    (
      λ h.
          (let (u, e, o) = forth h in
            subst (Matches (star ∷ rest)) (sym e)
              (star-Matches u rest rest (literal_exact rest lit))),
      λ m.
          (let (a, r, e, n) = star_inverts rest w m in
            back (a, e ∙ ap (λ x. a ++ x) (literal_only rest r lit n), nothing_between a)),
    )
last_iff rest w (some (q, s)) (e, lit) =
    let (forth, back) = middle_iff q s w in
    let glob = joined-split_star q s ∙ ap (λ x. star ∷ x) (sym e) in
    (
      λ h.
          (let (u, f, o) = forth h in
            subst (λ x. Matches x w) glob
              (subst (Matches (joined (split_star q) s)) (sym f)
                (joined-Matches (split_star q) s u (split_star-AllLiteral q) lit o))),
      λ m. back (
          joined_inverts (split_star q) s w (split_star-AllLiteral q) lit
            (subst (λ x. Matches x w) (sym glob) m)),
    )

first_iff :
    (p v : Bytes) (o : Option (Bytes × Bytes))
    → SplitFirst p o
    → (match_parts o p v ≡ true) ↔ Matches p v
first_iff p v none lit = (
  λ h. subst (Matches p) ((list_beq_iff p v).0 h) (literal_exact p lit),
  λ m. (list_beq_iff p v).1 (sym (literal_only p v lit m)),
)
first_iff p v (some (before, rest)) (e, lit) = elim (Option-cases (strip_prefix before v)) [
  | inl f ↦ rw f (
    λ h. absurd (ground (arith, h)),
    λ m.
        (let (r, g, n) =
            literal_inverts before (star ∷ rest) v lit (subst (λ x. Matches x v) e m) in
          absurd
            (ground (arith, sym f ∙ ap (strip_prefix before) g ∙ strip_prefix-append before r))),
  )
  | inr (w, f) ↦ rw f (
    λ h.
        subst (λ x. Matches x v) (sym e)
          (subst (Matches (before ++ (star ∷ rest))) (sym (strip_prefix-some before v w f)) (
            literal-Matches before (star ∷ rest) w lit
              ((last_iff rest w (rsplit_once rest) (rsplit_once-SplitLast rest)).0 h))),
    λ m.
        (let (r, g, n) =
            literal_inverts before (star ∷ rest) v lit (subst (λ x. Matches x v) e m) in
          let same =
            some_same w r (sym f ∙ ap (strip_prefix before) g ∙ strip_prefix-append before r) in
          (last_iff rest w (rsplit_once rest) (rsplit_once-SplitLast rest)).1
            (subst (Matches (star ∷ rest)) (sym same) n)),
  )
]

-- A glob matches a text exactly if the text comes from the glob with some bytes in the place of each
-- star: taking the first place of each literal misses no match.
pub glob_match_iff :
    (pattern value : Bytes) → (glob_match pattern value ≡ true) ↔ Matches pattern value
unfolding glob_match
glob_match_iff pattern value =
    first_iff pattern value (split_once pattern) (split_once-SplitFirst pattern)
