-- ===== src/Modules/Bulletin/Glob/Matches.antt =====
-- What a glob means: a star stands for any bytes, every other byte for itself.
use hub_rs.Prelude.{
  ℕ, false, List, [], ◌∷◌, ◌++◌, append_assoc, ◌==◌, nat_eq, ◌≡◌, ◌≢◌, refl, sym, ap, ◌∙◌, subst,
  arith, if◌then◌else◌, Bool-cases, inl, inr, ◌⊎◌, nat_beq_iff,
}
use hub_rs.Modules.OrdMap.{Bytes}
use hub_rs.Modules.Bulletin.Glob.{star, split_star, extend_first}

pub data Matches : Bytes → Bytes → Type 0 where
  both_end : Matches [] []
  same_byte : {c : ℕ} {p v : Bytes} → c ≢ star → Matches p v → Matches (c ∷ p) (c ∷ v)
  star_ends : {p v : Bytes} → Matches p v → Matches (star ∷ p) v
  star_takes : {c : ℕ} {p v : Bytes} → Matches (star ∷ p) v → Matches (star ∷ p) (c ∷ v)

abbrev pub IsLiteral : Bytes → Type 0
IsLiteral [] = Unit
IsLiteral (c ∷ s) = (c ≢ star) × IsLiteral s

-- The first byte of a glob is a literal one, or a star that stands for some bytes.
abbrev Inverted : Bytes → Bytes → Type 0
Inverted [] v = v ≡ []
Inverted (c ∷ p) v =
    ((c ≢ star) × (r : Bytes) × (v ≡ c ∷ r) × Matches p r)
    ⊎ ((c ≡ star) × (a r : Bytes) × (v ≡ a ++ r) × Matches p r)

invert : (q v : Bytes) → Matches q v → Inverted q v
invert _ _ both_end = refl
invert _ _ (same_byte h m) = inl (h, _, refl, m)
invert _ _ (star_ends m) = inr (refl, [], _, refl, m)
invert _ _ (star_takes {c} {p} {v} m) = elim (invert (star ∷ p) v m) [
  | inl (h, r, e, n) ↦ absurd (h refl)
  | inr (same, a, r, e, n) ↦ inr (refl, c ∷ a, r, ap (λ x. c ∷ x) e, n)
]

pub literal-Matches : (l p v : Bytes) → IsLiteral l → Matches p v → Matches (l ++ p) (l ++ v)
literal-Matches [] p v a m = m
literal-Matches (c ∷ l) p v (h, a) m = same_byte h (literal-Matches l p v a m)

pub literal_inverts :
    (l p v : Bytes) → IsLiteral l → Matches (l ++ p) v → (r : Bytes) × (v ≡ l ++ r) × Matches p r
literal_inverts [] p v a m = (v, refl, m)
literal_inverts (c ∷ l) p v (h, a) m = elim (invert (c ∷ (l ++ p)) v m) [
  | inl (other, r, e, n) ↦
      (let (s, f, k) = literal_inverts l p r a n in (s, e ∙ ap (λ x. c ∷ x) f, k))
  | inr (same, b, r, e, n) ↦ absurd (h same)
]

pub literal_exact : (s : Bytes) → IsLiteral s → Matches s s
literal_exact [] a = both_end
literal_exact (c ∷ s) (h, a) = same_byte h (literal_exact s a)

pub literal_only : (s v : Bytes) → IsLiteral s → Matches s v → v ≡ s
literal_only [] v a m = invert [] v m
literal_only (c ∷ s) v (h, a) m = elim (invert (c ∷ s) v m) [
  | inl (other, r, e, n) ↦ e ∙ ap (λ x. c ∷ x) (literal_only s r a n)
  | inr (same, b, r, e, n) ↦ absurd (h same)
]

pub star-Matches : (a p v : Bytes) → Matches p v → Matches (star ∷ p) (a ++ v)
star-Matches [] p v m = star_ends m
star-Matches (c ∷ a) p v m = star_takes (star-Matches a p v m)

pub star_inverts : (p v : Bytes) → Matches (star ∷ p) v → (a r : Bytes) × (v ≡ a ++ r) × Matches p r
star_inverts p v m = elim (invert (star ∷ p) v m) [
  | inl (other, r, e, n) ↦ absurd (other refl)
  | inr (same, a, r, e, n) ↦ (a, r, e, n)
]

-- The literals stand in the text, one after the other.
abbrev pub InOrder : List Bytes → Bytes → Type 0
InOrder [] v = Unit
InOrder (l ∷ ls) v = (a r : Bytes) × (v ≡ a ++ (l ++ r)) × InOrder ls r

pub InOrder-later : (ls : List Bytes) (b v : Bytes) → InOrder ls v → InOrder ls (b ++ v)
InOrder-later [] b v o = tt
InOrder-later (l ∷ ls) b v (a, r, e, o) =
    (b ++ a, r, ap (λ x. b ++ x) e ∙ sym (append_assoc b a (l ++ r)), o)

-- A star, and the literals with a star after each, before `s`.
abbrev pub joined : List Bytes → Bytes → Bytes
joined [] s = star ∷ s
joined (l ∷ ls) s = star ∷ (l ++ joined ls s)

abbrev pub AllLiteral : List Bytes → Type 0
AllLiteral [] = Unit
AllLiteral (l ∷ ls) = IsLiteral l × AllLiteral ls

regroup : (a l r s : Bytes) → (a ++ (l ++ r)) ++ s ≡ a ++ (l ++ (r ++ s))
regroup a l r s = append_assoc a (l ++ r) s ∙ ap (λ x. a ++ x) (append_assoc l r s)

pub joined-Matches :
    (ls : List Bytes) (s u : Bytes)
    → AllLiteral ls
    → IsLiteral s
    → InOrder ls u
    → Matches (joined ls s) (u ++ s)
joined-Matches [] s u lits lit o = star-Matches u s s (literal_exact s lit)
joined-Matches (l ∷ ls) s u (this, lits) lit (a, r, e, o) =
    subst (Matches (joined (l ∷ ls) s)) (sym (ap (λ x. x ++ s) e ∙ regroup a l r s)) (
      star-Matches a (l ++ joined ls s) (l ++ (r ++ s))
        (literal-Matches l (joined ls s) (r ++ s) this (joined-Matches ls s r lits lit o)))

pub joined_inverts :
    (ls : List Bytes) (s v : Bytes)
    → AllLiteral ls
    → IsLiteral s
    → Matches (joined ls s) v
    → (u : Bytes) × (v ≡ u ++ s) × InOrder ls u
joined_inverts [] s v lits lit m =
    let (a, r, e, n) = star_inverts s v m in (a, e ∙ ap (λ x. a ++ x) (literal_only s r lit n), tt)
joined_inverts (l ∷ ls) s v (this, lits) lit m =
    let (a, r, e, n) = star_inverts (l ++ joined ls s) v m in
    let (r', f, k) = literal_inverts l (joined ls s) r this n in
    let (u, g, o) = joined_inverts ls s r' lits lit k in
    (
      a ++ (l ++ u),
      e ∙ ap (λ x. a ++ x) (f ∙ ap (λ x. l ++ x) g) ∙ sym (regroup a l u s),
      (a, u, refl, o),
    )

extend_first_not_empty : (c : ℕ) (ls : List Bytes) → extend_first c ls ≢ []
extend_first_not_empty c [] h = cc
extend_first_not_empty c (l ∷ ls) h = cc

split_star_not_empty : (q : Bytes) → split_star q ≢ []
unfolding split_star
split_star_not_empty [] h = cc
split_star_not_empty (c ∷ q) h = elim (Bool-cases (c == star)) [
  | inl e ↦ ground (arith, h, e)
  | inr e ↦
      extend_first_not_empty c (split_star q)
        (sym (ap (λ b. if b then [] ∷ split_star q else extend_first c (split_star q)) e) ∙ h)
]

joined-extend_first :
    (c : ℕ) (ls : List Bytes) (s x : Bytes)
    → ls ≢ []
    → joined ls s ≡ star ∷ x
    → joined (extend_first c ls) s ≡ star ∷ c ∷ x
joined-extend_first c [] s x n h = absurd (n refl)
joined-extend_first c (l ∷ ls) s x n h = ground arith

-- Between the first and the last star.
pub joined-split_star : (q s : Bytes) → joined (split_star q) s ≡ star ∷ (q ++ (star ∷ s))
unfolding split_star
joined-split_star [] s = refl
joined-split_star (c ∷ q) s = elim (Bool-cases (c == star)) [
  | inl e ↦ rw e (
      ap (λ x. star ∷ x)
        (joined-split_star q s ∙ ap (λ k. k ∷ (q ++ (star ∷ s))) (sym ((nat_beq_iff c star).0 e))))
  | inr e ↦ rw e (
      joined-extend_first c (split_star q) s (q ++ (star ∷ s)) (split_star_not_empty q)
        (joined-split_star q s))
]

extend_first-AllLiteral :
    (c : ℕ) (ls : List Bytes) → c ≢ star → AllLiteral ls → AllLiteral (extend_first c ls)
extend_first-AllLiteral c [] h a = ((h, tt), tt)
extend_first-AllLiteral c (l ∷ ls) h (b, a) = ((h, b), a)

pub other_byte : (c : ℕ) → (c == star) ≡ false → c ≢ star
other_byte c h e = ground arith

pub split_star-AllLiteral : (q : Bytes) → AllLiteral (split_star q)
unfolding split_star
split_star-AllLiteral [] = (tt, tt)
split_star-AllLiteral (c ∷ q) = elim (Bool-cases (c == star)) [
  | inl e ↦ rw e (tt, split_star-AllLiteral q)
  | inr e ↦
      rw e (extend_first-AllLiteral c (split_star q) (other_byte c e) (split_star-AllLiteral q))
]
