-- ===== src/Modules/Bulletin/Glob/Finds.antt =====
-- The loop over the literals of a glob against the places where they can stand.
use hub_rs.Prelude.{
  ℕ, suc, ◌+◌, ◌≤◌, true, Option, none, some, List, [], ◌∷◌, ◌++◌, append_assoc, nat_eq, ◌≡◌, ◌↔◌,
  refl, sym, ap, ◌∙◌, subst, arith, length, length-append, Bool-cases, Option-cases, inl, inr,
}
use hub_rs.Text.{starts_with, starts_with-append, starts_with_split}
use hub_rs.Modules.OrdMap.{Bytes}
use hub_rs.Modules.Bulletin.Glob.{find, find_each, drop, one_on}
use hub_rs.Modules.Bulletin.Glob.Matches.{InOrder, InOrder-later}

drop-append : (l q : Bytes) → drop (length l) (l ++ q) ≡ q
drop-append [] q = refl
drop-append (c ∷ l) q = drop-append l q

-- The shorter of two beginnings begins the longer.
begins : (x y q r : Bytes) → x ++ q ≡ y ++ r → length x ≤ length y → (b : Bytes) × (q ≡ b ++ r)
begins [] y q r e h = (y, e)
begins (c ∷ x) [] q r e h = absurd (omega arith)
begins (c ∷ x) (d ∷ y) q r e h = begins x y q r (ground arith) (omega (arith, h))

one_on-some : (o : Option ℕ) (i : ℕ) → one_on o ≡ some i → (j : ℕ) × (o ≡ some j) × (i ≡ suc j)
one_on-some none i h = absurd (ground arith)
one_on-some (some j) i h = (j, refl, ground arith)

drop_found :
    (l v : Bytes) (s : starts_with l v ≡ true) → drop (length l) v ≡ (starts_with_split l v s).0
drop_found l v s = let (q, e) = starts_with_split l v s in ap (drop (length l)) e ∙ drop-append l q

found_here :
    (l v : Bytes) (i : ℕ)
    → starts_with l v ≡ true
    → 0 ≡ i
    → (a : Bytes) × (v ≡ a ++ (l ++ drop (i + length l) v))
found_here l v i s h = (
  [],
  (starts_with_split l v s).1
      ∙ ap (λ x. l ++ x) (sym (drop_found l v s))
      ∙ ap (λ k. l ++ drop k v) (omega (arith, h)),
)

pub find-some :
    (l v : Bytes) (i : ℕ)
    → find l v ≡ some i
    → (a : Bytes) × (v ≡ a ++ (l ++ drop (i + length l) v))
unfolding find
find-some l [] i h = elim (Bool-cases (starts_with l [])) [
  | inl s ↦ found_here l [] i s (ground (arith, s, h))
  | inr s ↦ absurd (ground (arith, s, h))
]
find-some l (c ∷ v) i h = elim (Bool-cases (starts_with l (c ∷ v))) [
  | inl s ↦ found_here l (c ∷ v) i s (ground (arith, s, h))
  | inr s ↦
      (let (j, f, g) = one_on-some (find l v) i (ground (arith, s, h)) in
        let (a, e) = find-some l v j f in
        (
          c ∷ a,
          ap (λ x. c ∷ x) e
              ∙ ap (λ k. c ∷ (a ++ (l ++ drop k (c ∷ v)))) {x = suc (j + length l)}
                  (omega (arith, g)),
        ))
]

starts_here : (l v r : Bytes) → v ≡ l ++ r → starts_with l v ≡ true
starts_here l v r e = ap (starts_with l) e ∙ starts_with-append l r

first_here :
    (l v a r : Bytes)
    → starts_with l v ≡ true
    → v ≡ a ++ (l ++ r)
    → (b : Bytes) × (drop (0 + length l) v ≡ b ++ r)
first_here l v a r s e =
    let (q, f) = starts_with_split l v s in
    let (b, g) =
      begins l (a ++ l) q r (sym f ∙ e ∙ sym (append_assoc a l r))
        (omega (arith, length-append a l)) in
    (b, ap (λ k. drop k v) (omega arith) ∙ drop_found l v s ∙ g)

pub find_first :
    (l v a r : Bytes)
    → v ≡ a ++ (l ++ r)
    → (i : ℕ) × (find l v ≡ some i) × (b : Bytes) × (drop (i + length l) v ≡ b ++ r)
unfolding find
find_first l [] [] r e =
    let s = starts_here l [] r e in
    let (b, g) = first_here l [] [] r s e in (0, ground (arith, s), b, g)
find_first l [] (d ∷ a) r e = absurd (ground arith)
find_first l (c ∷ v) [] r e =
    let s = starts_here l (c ∷ v) r e in
    let (b, g) = first_here l (c ∷ v) [] r s e in (0, ground (arith, s), b, g)
find_first l (c ∷ v) (d ∷ a) r e = elim (Bool-cases (starts_with l (c ∷ v))) [
  | inl s ↦ (let (b, g) = first_here l (c ∷ v) (d ∷ a) r s e in (0, ground (arith, s), b, g))
  | inr s ↦
      (let (i, f, b, g) = find_first l v a r (ground arith) in
        (
          suc i,
          ground (arith, s, f),
          b,
          ap (λ k. drop k (c ∷ v)) {y = suc (i + length l)} (omega arith) ∙ g,
        ))
]

some_same : (i j : ℕ) → some i ≡ some j → i ≡ j
some_same i j h = ground arith

pub find_each_iff : (ls : List Bytes) (v : Bytes) → (find_each ls v ≡ true) ↔ InOrder ls v
unfolding find_each
find_each_iff [] v = (λ h. tt, λ o. refl)
find_each_iff ([] ∷ ls) v = (
  λ h. ([], v, refl, (find_each_iff ls v).0 h),
  λ (a, r, e, o). (find_each_iff ls v).1 (subst (InOrder ls) (sym e) (InOrder-later ls a r o)),
)
find_each_iff ((c ∷ l) ∷ ls) v = elim (Option-cases (find (c ∷ l) v)) [
  | inl e ↦ rw e (
    λ h. absurd (ground (arith, h)),
    λ (a, r, f, o).
        (let (i, g, b, k) = find_first (c ∷ l) v a r f in absurd (ground (arith, e, g))),
  )
  | inr (i, e) ↦ rw e (
    λ h.
        (let (a, f) = find-some (c ∷ l) v i e in
          (a, drop (i + length (c ∷ l)) v, f, (find_each_iff ls _).0 h)),
    λ (a, r, f, o).
        (let (j, g, b, k) = find_first (c ∷ l) v a r f in
          let same = some_same i j (sym e ∙ g) in
          (find_each_iff ls _).1 (
            subst (InOrder ls) (sym (ap (λ n. drop (n + length (c ∷ l)) v) same ∙ k))
              (InOrder-later ls b r o))),
  )
]
