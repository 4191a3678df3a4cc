-- ===== src/Mempool/Named.antt =====
-- The filter and the limit of `build` and `build_block`, over the queued identifiers.
use hub_rs.Prelude.{ℕ, zero, suc, ◌≡◌, refl, ap, ◌∙◌, List, [], ◌∷◌, Bool-cases, inl, inr}
use hub_rs.Mempool.{Tx, member, take, transactions, keep_included}
use hub_rs.Mempool.Queue.{not_excluded}

-- A queue's transactions with their identifiers.
abbrev pub named : (Tx → ℕ) → List Tx → List (ℕ × Tx)
named id [] = []
named id (tx ∷ q) = (id tx, tx) ∷ named id q

keep_included-named :
    (id : Tx → ℕ) (excluded : List ℕ) (q : List Tx)
    → keep_included excluded (named id q) ≡ named id (not_excluded id excluded q)
unfolding keep_included not_excluded
keep_included-named id excluded [] = refl
keep_included-named id excluded (tx ∷ q) = elim (Bool-cases (member (id tx) excluded)) [
  | inl e ↦ rw e (keep_included-named id excluded q)
  | inr e ↦ rw e (ap (λ l. (id tx, tx) ∷ l) (keep_included-named id excluded q))
]

transactions-take :
    (id : Tx → ℕ) (n : ℕ) (q : List Tx) → transactions (take n (named id q)) ≡ take n q
transactions-take id zero q = refl
transactions-take id (suc n) [] = refl
transactions-take id (suc n) (tx ∷ q) = ap (λ l. tx ∷ l) (transactions-take id n q)

-- The first transactions of the queue that are not excluded, by the identifiers that are queued.
pub picked-named :
    (id : Tx → ℕ) (n : ℕ) (excluded : List ℕ) (q : List Tx)
    → transactions (take n (keep_included excluded (named id q)))
      ≡ take n (not_excluded id excluded q)
picked-named id n excluded q =
    ap (λ l. transactions (take n l)) (keep_included-named id excluded q)
    ∙ transactions-take id n (not_excluded id excluded q)
