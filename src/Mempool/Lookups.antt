-- ===== src/Mempool/Lookups.antt =====
-- Facts on lookups in the map and in the queue.
use hub_rs.Prelude.{
  ℕ, suc, ◌+◌, ◌≤◌, ◌≡◌, refl, ap, arith, none, some, List, [], ◌∷◌, ◌++◌, ◌==◌, nat_eq,
  nat_beq_iff, length, All, if◌then◌else◌, or_else, Bool-cases, inl, inr,
}
use hub_rs.Prelude.Map.{Map, get, insert, remove, contains_key, get-insert, get-remove, IsUnique}
use hub_rs.Mempool.{Tx, member, max_tx_bytes}
use hub_rs.Mempool.Queue.{total, find, is_some, IsDistinct, without}

pub contains_key-get : (i : ℕ) (m : Map ℕ Tx) → contains_key i m ≡ is_some (get i m)
unfolding contains_key get
contains_key-get i [] = refl
contains_key-get i ((j, v) ∷ m) = ground (arith, contains_key-get i m)

pub length-insert :
    (i : ℕ) (v : Tx) (m : Map ℕ Tx) → get i m ≡ none → length (insert i v m) ≡ suc (length m)
unfolding get insert
length-insert i v [] h = refl
length-insert i v ((j, w) ∷ m) h = ground (arith, length-insert i v m)

pub IsUnique-insert : (i : ℕ) (v : Tx) (m : Map ℕ Tx) → IsUnique m → IsUnique (insert i v m)
unfolding insert get
IsUnique-insert i v [] u = (refl, tt)
IsUnique-insert i v ((j, w) ∷ m) (fresh, u) = elim (Bool-cases (j == i)) [
  | inl e ↦ rw e (fresh, u)
  | inr e ↦ rw e (
    ground (arith, get-insert i j v m, fresh, nat_beq_iff j i, nat_beq_iff i j),
    IsUnique-insert i v m u,
  )
]

pub remove-absent : (i : ℕ) (m : Map ℕ Tx) → get i m ≡ none → remove i m ≡ m
unfolding get remove
remove-absent i [] h = refl
remove-absent i ((j, w) ∷ m) h = ground (arith, remove-absent i m)

pub length-remove :
    (i : ℕ) (v : Tx) (m : Map ℕ Tx)
    → IsUnique m
    → get i m ≡ some v
    → suc (length (remove i m)) ≡ length m
unfolding get remove
length-remove i v [] u h = cc
length-remove i v ((j, w) ∷ m) (fresh, u) h =
    ground (arith, length-remove i v m u, remove-absent i m, nat_beq_iff j i)

pub IsUnique-remove : (i : ℕ) (m : Map ℕ Tx) → IsUnique m → IsUnique (remove i m)
unfolding remove
IsUnique-remove i [] u = tt
IsUnique-remove i ((j, w) ∷ m) (fresh, u) = elim (Bool-cases (j == i)) [
  | inl e ↦ rw e (IsUnique-remove i m u)
  | inr e ↦ rw e (ground (arith, get-remove i j m, fresh), IsUnique-remove i m u)
]

module _ (id : Tx → ℕ) where
  pub find-append :
      (i : ℕ) (q : List Tx) (tx : Tx)
      → find id i (q ++ (tx ∷ [])) ≡ or_else (find id i q) (if id tx == i then some tx else none)
  unfolding find
  find-append i [] tx = refl
  find-append i (x ∷ q) tx = ground (arith, find-append i q tx)

  pub IsDistinct-append :
      (q : List Tx) (tx : Tx)
      → IsDistinct id q
      → find id (id tx) q ≡ none
      → IsDistinct id (q ++ (tx ∷ []))
  unfolding find
  IsDistinct-append [] tx d h = (refl, tt)
  IsDistinct-append (x ∷ q) tx (fresh, d) h = (
    ground (
      arith,
      h,
      fresh,
      find-append (id x) q tx,
      nat_beq_iff (id x) (id tx),
      nat_beq_iff (id tx) (id x),
    ),
    IsDistinct-append q tx d (ground (arith, h)),
  )

  pub find-without :
      (i : ℕ) (ids : List ℕ) (q : List Tx)
      → find id i (without id ids q) ≡ (if member i ids then none else find id i q)
  unfolding find without
  find-without i ids [] = ground arith
  find-without i ids (x ∷ q) = ground (arith, find-without i ids q, nat_beq_iff (id x) i)

  pub IsDistinct-without :
      (ids : List ℕ) (q : List Tx) → IsDistinct id q → IsDistinct id (without id ids q)
  unfolding without
  IsDistinct-without ids [] d = tt
  IsDistinct-without ids (x ∷ q) (fresh, d) = elim (Bool-cases (member (id x) ids)) [
    | inl e ↦ rw e (IsDistinct-without ids q d)
    | inr e ↦ rw e (ground (arith, find-without (id x) ids q, fresh, e), IsDistinct-without ids q d)
  ]

pub total-append : (q : List Tx) (tx : Tx) → total (q ++ (tx ∷ [])) ≡ total q + length tx.bytes
total-append [] tx = omega arith
total-append (x ∷ q) tx = omega (arith, total-append q tx)

module _ (id : Tx → ℕ) where
  pub without-absent : (i : ℕ) (q : List Tx) → find id i q ≡ none → without id (i ∷ []) q ≡ q
  unfolding find without
  without-absent i [] h = refl
  without-absent i (x ∷ q) h = ground (arith, without-absent i q, nat_beq_iff (id x) i)

  pub without-present :
      (i : ℕ) (tx : Tx) (q : List Tx)
      → IsDistinct id q
      → find id i q ≡ some tx
      → (suc (length (without id (i ∷ []) q)) ≡ length q)
        × (total (without id (i ∷ []) q) + length tx.bytes ≡ total q)
  unfolding find without
  without-present i tx [] d h = cc
  without-present i tx (x ∷ q) (fresh, d) h = ground (
    arith,
    h,
    fresh,
    without-present i tx q d,
    without-absent i q,
    nat_beq_iff (id x) i,
    nat_beq_iff i (id x),
  )

  pub without-nil : (q : List Tx) → without id [] q ≡ q
  unfolding without
  without-nil [] = refl
  without-nil (x ∷ q) = ap (λ r. x ∷ r) (without-nil q)

  pub without-cons :
      (i : ℕ) (ids : List ℕ) (q : List Tx)
      → without id ids (without id (i ∷ []) q) ≡ without id (i ∷ ids) q
  unfolding without
  without-cons i ids [] = refl
  without-cons i ids (x ∷ q) =
      ground (arith, without-cons i ids q, nat_beq_iff (id x) i, nat_beq_iff i (id x))

  pub without-bounds :
      (ids : List ℕ) (q : List Tx)
      → (total (without id ids q) ≤ total q) × (length (without id ids q) ≤ length q)
  unfolding without
  without-bounds ids [] = omega arith
  without-bounds ids (x ∷ q) = ground (arith, without-bounds ids q)

  -- Every transaction of the queue is found in it.
  pub find_each : (q : List Tx) → IsDistinct id q → All (λ tx. find id (id tx) q ≡ some tx) q
  unfolding find
  find_each [] d = tt
  find_each (x ∷ q) (fresh, d) =
      (ground (arith, nat_beq_iff (id x) (id x)), later q (find_each q d))
    where
      later :
          (r : List Tx)
          → All (λ tx. find id (id tx) q ≡ some tx) r
          → All (λ tx. find id (id tx) (x ∷ q) ≡ some tx) r
      later [] a = tt
      later (y ∷ r) (e, a) = (ground (arith, e, fresh, nat_beq_iff (id x) (id y)), later r a)

-- Every transaction is within the limit on one.
abbrev pub AllSmall : List Tx → Type 0
AllSmall [] = Unit
AllSmall (tx ∷ q) = (length tx.bytes ≤ max_tx_bytes) × AllSmall q

pub AllSmall-append :
    (q : List Tx) (tx : Tx)
    → AllSmall q
    → length tx.bytes ≤ max_tx_bytes
    → AllSmall (q ++ (tx ∷ []))
AllSmall-append [] tx a h = (h, tt)
AllSmall-append (x ∷ q) tx (b, a) h = (b, AllSmall-append q tx a h)

pub AllSmall-without :
    (id : Tx → ℕ) (ids : List ℕ) (q : List Tx) → AllSmall q → AllSmall (without id ids q)
unfolding without
AllSmall-without id ids [] a = tt
AllSmall-without id ids (x ∷ q) (b, a) = elim (Bool-cases (member (id x) ids)) [
  | inl e ↦ rw e (AllSmall-without id ids q a)
  | inr e ↦ rw e (b, AllSmall-without id ids q a)
]
