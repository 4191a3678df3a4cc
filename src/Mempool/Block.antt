-- ===== src/Mempool/Block.antt =====
-- `build_block`: what a proposal takes from the queue.
use hub_rs.Prelude.{
  ℕ, zero, suc, ◌+◌, ◌-◌, ◌≤◌, ◌<◌, ◌≡◌, refl, ap, subst, ◌∙◌, arith, some, List, [], ◌∷◌, ◌++◌,
  ◌||◌, ltb, length, Bool-cases, inl, inr,
}
use hub_rs.Mempool.{
  Tx, new, member, take_fitting, take, min, build_block, block_from, max_tx_bytes, max_block_txs,
  max_block_tx_bytes,
}
use hub_rs.Mempool.Queue.{not_excluded}
use hub_rs.Mempool.Named.{picked-named}
use hub_rs.Mempool.Lookups.{AllSmall}
use hub_rs.Mempool.Refines.{new-Represents, ordered-Represents, Op, run, run_queue, run-Represents}

-- The encoded bytes of a block's transactions.
abbrev pub encoded : (Tx → ℕ) → List Tx → ℕ
encoded encode_size [] = 0
encoded encode_size (tx ∷ txs) = encode_size tx + encoded encode_size txs

-- The first list begins the second.
abbrev pub IsPrefix : List Tx → List Tx → Type 0
IsPrefix xs ys = (rest : List Tx) × (xs ++ rest ≡ ys)

IsPrefix-cons : (x : Tx) (xs ys : List Tx) → IsPrefix xs ys → IsPrefix (x ∷ xs) (x ∷ ys)
IsPrefix-cons x xs ys (rest, e) = (rest, ap (λ r. x ∷ r) e)

take_fitting-IsPrefix :
    (encode_size : Tx → ℕ) (remaining : ℕ) (txs : List Tx)
    → IsPrefix (take_fitting encode_size remaining txs) txs
unfolding take_fitting
take_fitting-IsPrefix encode_size remaining [] = ([], refl)
take_fitting-IsPrefix encode_size remaining (x ∷ txs) =
    elim (Bool-cases (ltb max_tx_bytes (length x.bytes) || ltb remaining (encode_size x))) [
      | inl e ↦ rw e (x ∷ txs, refl)
      | inr e ↦ rw e (
          IsPrefix-cons x _ txs (take_fitting-IsPrefix encode_size (remaining - encode_size x) txs))
    ]

take_fitting_bounds :
    (encode_size : Tx → ℕ) (remaining : ℕ) (txs : List Tx)
    → (encoded encode_size (take_fitting encode_size remaining txs) ≤ remaining)
      × (length (take_fitting encode_size remaining txs) ≤ length txs)
unfolding take_fitting
take_fitting_bounds encode_size remaining [] = omega arith
take_fitting_bounds encode_size remaining (x ∷ txs) =
    ground (arith, take_fitting_bounds encode_size (remaining - encode_size x) txs)

take-IsPrefix : (n : ℕ) (txs : List Tx) → IsPrefix (take n txs) txs
take-IsPrefix zero txs = (txs, refl)
take-IsPrefix (suc n) [] = ([], refl)
take-IsPrefix (suc n) (x ∷ txs) = IsPrefix-cons x (take n txs) txs (take-IsPrefix n txs)

IsPrefix-trans : (xs ys zs : List Tx) → IsPrefix xs ys → IsPrefix ys zs → IsPrefix xs zs
IsPrefix-trans [] ys zs p q = (zs, refl)
IsPrefix-trans (x ∷ xs) [] zs (r, e) q = cc
IsPrefix-trans (x ∷ xs) (y ∷ ys) [] p (s, f) = cc
IsPrefix-trans (x ∷ xs) (y ∷ ys) (z ∷ zs) (r, e) (s, f) =
    let (rest, g) = IsPrefix-trans xs ys zs (r, ground (arith, e)) (s, ground (arith, f)) in
    (rest, ground (arith, e, f, g))

length-take-le : (n : ℕ) (txs : List Tx) → length (take n txs) ≤ n
length-take-le zero txs = omega arith
length-take-le (suc n) [] = omega arith
length-take-le (suc n) (x ∷ txs) = omega (arith, length-take-le n txs)

min_bounds : (a b : ℕ) → (min a b ≤ a) × (min a b ≤ b)
min_bounds a b = ground arith

-- Whatever is inserted and pruned before: a block takes a prefix of the queue's transactions that
-- are not excluded, so that none is overtaken; it has no more than the caller's count and 256 of
-- them, and their encodings fit the 16 MiB of a block with five bytes to spare.
pub build_block_bounds :
    (id encode_size : Tx → ℕ) (ops : List Op) (max_txs : ℕ) (excluded : List ℕ)
    → let q = (run_queue id ops []).1 in
      (block : List Tx) × (build_block encode_size max_txs excluded (run id ops new).1 ≡ some block)
      × IsPrefix block (not_excluded id excluded q)
      × (length block ≤ max_txs)
      × (length block ≤ max_block_txs)
      × (encoded encode_size block + 5 ≤ max_block_tx_bytes)
unfolding build_block
build_block_bounds id encode_size ops max_txs excluded =
    let (answers, r) = run-Represents id ops new [] (new-Represents id) in
    let q = (run_queue id ops []).1 in
    let picked = take (min max_txs max_block_txs) (not_excluded id excluded q) in
    let (fits, fewer) = take_fitting_bounds encode_size (max_block_tx_bytes - 5) picked in
    let short = length-take-le (min max_txs max_block_txs) (not_excluded id excluded q) in
    (
      take_fitting encode_size (max_block_tx_bytes - 5) picked,
      ap (block_from encode_size max_txs excluded) (ordered-Represents id _ q r)
          ∙ ap (λ l. some (take_fitting encode_size (max_block_tx_bytes - 5) l))
              (picked-named id (min max_txs max_block_txs) excluded q),
      IsPrefix-trans _ picked _ (take_fitting-IsPrefix encode_size _ picked)
          (take-IsPrefix (min max_txs max_block_txs) _),
      omega (arith, fewer, short, min_bounds max_txs max_block_txs),
      omega (arith, fewer, short, min_bounds max_txs max_block_txs),
      omega (arith, fits),
    )

AllSmall-not_excluded :
    (id : Tx → ℕ) (excluded : List ℕ) (q : List Tx)
    → AllSmall q
    → AllSmall (not_excluded id excluded q)
unfolding not_excluded
AllSmall-not_excluded id excluded [] a = tt
AllSmall-not_excluded id excluded (x ∷ q) (b, a) = elim (Bool-cases (member (id x) excluded)) [
  | inl e ↦ rw e (AllSmall-not_excluded id excluded q a)
  | inr e ↦ rw e (b, AllSmall-not_excluded id excluded q a)
]

first_fits :
    (encode_size : Tx → ℕ) (m : ℕ) (tx : Tx) (later : List Tx)
    → encode_size tx ≤ length tx.bytes + 5
    → length tx.bytes ≤ max_tx_bytes
    → 0 < m
    → (rest : List Tx) × (take_fitting encode_size (max_block_tx_bytes - 5) (take m (tx ∷ later))
        ≡ tx ∷ rest)
unfolding take_fitting
first_fits encode_size zero tx later codec small h = absurd (omega arith)
first_fits encode_size (suc m) tx later codec small h = (
  take_fitting encode_size (max_block_tx_bytes - 5 - encode_size tx) (take m later),
  ground (arith, codec, small),
)

-- Progress: when the encoding of a transaction adds at most five bytes to it and the caller asks
-- for one at least, then, whatever was inserted and pruned before, a block begins with the oldest
-- transaction of the queue that is not excluded.
pub build_block_progress :
    (id encode_size : Tx → ℕ) (ops : List Op) (max_txs : ℕ) (excluded : List ℕ) (tx : Tx)
    (later : List Tx)
    → ((x : Tx) → encode_size x ≤ length x.bytes + 5)
    → 0 < max_txs
    → not_excluded id excluded (run_queue id ops []).1 ≡ tx ∷ later
    → (rest : List Tx) × (build_block encode_size max_txs excluded (run id ops new).1
        ≡ some (tx ∷ rest))
unfolding build_block take_fitting
build_block_progress id encode_size ops max_txs excluded tx later codec asked oldest =
    let (answers, r) = run-Represents id ops new [] (new-Represents id) in
    let q = (run_queue id ops []).1 in
    let small = subst AllSmall oldest (AllSmall-not_excluded id excluded q r.small) in
    let (rest, e) =
      first_fits encode_size (min max_txs max_block_txs) tx later (codec tx) small.0
        (ground (arith, asked)) in
    (
      rest,
      ap (block_from encode_size max_txs excluded) (ordered-Represents id _ q r)
          ∙ ap (λ l. some (take_fitting encode_size (max_block_tx_bytes - 5) l))
              (picked-named id (min max_txs max_block_txs) excluded q)
          ∙ ap
              (λ l. some (
                take_fitting encode_size (max_block_tx_bytes - 5)
                  (take (min max_txs max_block_txs) l)))
              oldest
          ∙ ap some e,
    )
