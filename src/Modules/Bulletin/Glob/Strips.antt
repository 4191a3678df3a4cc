-- ===== src/Modules/Bulletin/Glob/Strips.antt =====
-- What the string operations of a glob answer.
use hub_rs.Prelude.{
  ℕ, true, Option, none, some, [], ◌∷◌, ◌++◌, ◌==◌, nat_eq, list_eq, list_beq_iff, beq_refl, ◌≡◌,
  ◌≢◌, refl, sym, ap, ◌∙◌, arith, length, length-append, Bool-cases, inl, inr, nat_beq_iff,
}
use hub_rs.Text.{strip_prefix}
use hub_rs.Modules.OrdMap.{Bytes}
use hub_rs.Modules.Bulletin.Glob.{
  star, split_once, prepend_first, rsplit_once, later_or, strip_suffix, prepend,
}
use hub_rs.Modules.Bulletin.Glob.Matches.{IsLiteral, other_byte}

pub strip_prefix-append : (p s : Bytes) → strip_prefix p (p ++ s) ≡ some s
unfolding strip_prefix
strip_prefix-append [] s = refl
strip_prefix-append (c ∷ p) s = ground (arith, strip_prefix-append p s)

pub strip_prefix-some : (p s r : Bytes) → strip_prefix p s ≡ some r → s ≡ p ++ r
unfolding strip_prefix
strip_prefix-some [] s r h = ground arith
strip_prefix-some (c ∷ p) [] r h = ground arith
strip_prefix-some (c ∷ p) (d ∷ s) r h = ground (arith, strip_prefix-some p s r)

longer : (c : ℕ) (u s : Bytes) → s ≢ c ∷ (u ++ s)
longer c u s h = absurd (omega (arith, ap length h, length-append u s))

strip_suffix_whole : (s : Bytes) → strip_suffix s s ≡ some []
unfolding strip_suffix
strip_suffix_whole [] = ground (arith, beq_refl {A = Bytes} [])
strip_suffix_whole (c ∷ s) = ground (arith, beq_refl {A = Bytes} (c ∷ s))

pub strip_suffix-append : (s u : Bytes) → strip_suffix s (u ++ s) ≡ some u
unfolding strip_suffix
strip_suffix-append s [] = strip_suffix_whole s
strip_suffix-append s (c ∷ u) =
    ground (arith, strip_suffix-append s u, longer c u s, list_beq_iff s (c ∷ (u ++ s)))

prepend-some :
    (c : ℕ) (o : Option Bytes) (u : Bytes)
    → prepend c o ≡ some u
    → (w : Bytes) × (o ≡ some w) × (u ≡ c ∷ w)
prepend-some c none u h = absurd (ground arith)
prepend-some c (some w) u h = (w, refl, ground arith)

whole_suffix : (s v u : Bytes) → (s == v) ≡ true → strip_suffix s s ≡ some u → v ≡ u ++ s
whole_suffix s v [] e h = ground (arith, list_beq_iff s v, e)
whole_suffix s v (c ∷ u) e h = absurd (ground (arith, strip_suffix_whole s, h))

pub strip_suffix-some : (s v u : Bytes) → strip_suffix s v ≡ some u → v ≡ u ++ s
unfolding strip_suffix
strip_suffix-some s [] u h = elim (Bool-cases (s == [])) [
  | inl e ↦ whole_suffix s [] u e (ground (arith, e, h, strip_suffix_whole s))
  | inr e ↦ absurd (ground (arith, e, h))
]
strip_suffix-some s (c ∷ v) u h = elim (Bool-cases (s == c ∷ v)) [
  | inl e ↦ whole_suffix s (c ∷ v) u e (ground (arith, e, h, strip_suffix_whole s))
  | inr e ↦
      (let (w, f, g) = prepend-some c (strip_suffix s v) u (ground (arith, e, h)) in
        ap (λ x. c ∷ x) (strip_suffix-some s v w f) ∙ ap (λ x. x ++ s) (sym g))
]

-- What `split_once` and `rsplit_once` answer for a text.
abbrev pub SplitFirst : Bytes → Option (Bytes × Bytes) → Type 0
SplitFirst p none = IsLiteral p
SplitFirst p (some (before, after)) = (p ≡ before ++ (star ∷ after)) × IsLiteral before

abbrev pub SplitLast : Bytes → Option (Bytes × Bytes) → Type 0
SplitLast p none = IsLiteral p
SplitLast p (some (before, after)) = (p ≡ before ++ (star ∷ after)) × IsLiteral after

SplitFirst-prepend_first :
    (c : ℕ) (p : Bytes) (o : Option (Bytes × Bytes))
    → c ≢ star
    → SplitFirst p o
    → SplitFirst (c ∷ p) (prepend_first c o)
SplitFirst-prepend_first c p none h s = (h, s)
SplitFirst-prepend_first c p (some (before, after)) h (e, s) = (ap (λ x. c ∷ x) e, (h, s))

pub split_once-SplitFirst : (p : Bytes) → SplitFirst p (split_once p)
unfolding split_once
split_once-SplitFirst [] = tt
split_once-SplitFirst (c ∷ p) = elim (Bool-cases (c == star)) [
  | inl e ↦ rw e (ap (λ x. x ∷ p) ((nat_beq_iff c star).0 e), tt)
  | inr e ↦
      rw e (SplitFirst-prepend_first c p (split_once p) (other_byte c e) (split_once-SplitFirst p))
]

SplitLast-later_or :
    (c : ℕ) (p : Bytes) (o : Option (Bytes × Bytes))
    → SplitLast p o
    → SplitLast (c ∷ p) (later_or c p o)
SplitLast-later_or c p none s = elim (Bool-cases (c == star)) [
  | inl e ↦ rw e (ap (λ x. x ∷ p) ((nat_beq_iff c star).0 e), s)
  | inr e ↦ rw e (other_byte c e, s)
]
SplitLast-later_or c p (some (before, after)) (e, s) = (ap (λ x. c ∷ x) e, s)

pub rsplit_once-SplitLast : (p : Bytes) → SplitLast p (rsplit_once p)
unfolding rsplit_once
rsplit_once-SplitLast [] = tt
rsplit_once-SplitLast (c ∷ p) = SplitLast-later_or c p (rsplit_once p) (rsplit_once-SplitLast p)
