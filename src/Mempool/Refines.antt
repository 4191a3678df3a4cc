-- ===== src/Mempool/Refines.antt =====
-- The mempool against the queue that it promises: each operation on the map, the order and the byte
-- count does to them what the queue's operation does to the queue.
use hub_rs.Prelude.{
  ℕ, suc, ◌+◌, ◌^◌, ◌≤◌, ◌<◌, ◌≡◌, refl, sym, ap, ◌∙◌, subst, arith, Bool, true, false, not, Option,
  none, some, List, [], ◌∷◌, ◌++◌, ◌&&◌, ◌||◌, nat_eq, nat_beq_iff, leb, ltb, length, length-append,
  map, All, if◌then◌else◌,
}
use hub_rs.Prelude.Map.{Map, get, insert, remove, contains_key, get-insert, get-remove, IsUnique}
use hub_rs.Mempool.{
  Tx, Pending, new, ordered, look_up_all, accepts, insert_tx, prune, remove_each, retain_known,
  bytes_after, wrapping_add, max_tx_bytes, max_pending_bytes, max_pending_txs, len, build,
  build_from, take,
}
use hub_rs.Mempool.Queue.{total, find, is_some, IsDistinct, admit, without, not_excluded}
use hub_rs.Mempool.Named.{named, picked-named}
use hub_rs.Mempool.Lookups.{
  contains_key-get, length-insert, IsUnique-insert, length-remove, remove-absent, IsUnique-remove,
  find-append, IsDistinct-append, find-without, without-absent, without-present, without-nil,
  without-cons, without-bounds, find_each, AllSmall, AllSmall-append, AllSmall-without,
  IsDistinct-without, total-append,
}

module _ (id : Tx → ℕ) where
  -- The map and the byte count hold the transactions of the queue.
  pub record Holds (txs : Map ℕ Tx) (bytes : ℕ) (q : List Tx) : Type 0 where
    pub lookup : (i : ℕ) → get i txs ≡ find id i q
    pub unique : IsUnique txs
    pub count : length txs ≡ length q
    pub counted : bytes ≡ total q
    pub distinct : IsDistinct id q

  -- The mempool stands for the queue, which is within the limits.
  pub record Represents (p : Pending) (q : List Tx) : Type 0 where
    pub holds : Holds p.txs p.bytes q
    pub queue : p.order ≡ map id q
    pub bounded : total q ≤ max_pending_bytes
    pub few : length q ≤ max_pending_txs
    pub small : AllSmall q

  pub new-Represents : Represents new []
  unfolding get find
  new-Represents = record {
    holds = record { lookup = λ i. refl; unique = tt; count = refl; counted = refl; distinct = tt };
    queue = refl;
    bounded = omega arith;
    few = omega arith;
    small = tt;
  }

  map-append : (q : List Tx) (tx : Tx) → map id (q ++ (tx ∷ [])) ≡ map id q ++ (id tx ∷ [])
  map-append [] tx = refl
  map-append (x ∷ q) tx = ap (λ r. id x ∷ r) (map-append q tx)

  admitted :
      (p : Pending) (q : List Tx) (tx : Tx)
      → Represents p q
      → find id (id tx) q ≡ none
      → length tx.bytes ≤ max_tx_bytes
      → length tx.bytes + total q ≤ max_pending_bytes
      → suc (length q) ≤ max_pending_txs
      → Represents
          (record {
            txs = insert (id tx) tx p.txs;
            order = p.order ++ (id tx ∷ []);
            bytes = wrapping_add p.bytes (length tx.bytes);
          })
          (q ++ (tx ∷ []))
  admitted p q tx r fresh fits room slot =
      let h = r.holds in
      record {
        holds = record {
          lookup = λ i. ground (
            arith,
            get-insert (id tx) i tx p.txs,
            h.lookup i,
            find-append id i q tx,
            nat_beq_iff (id tx) i,
            fresh,
          );
          unique = IsUnique-insert (id tx) tx p.txs h.unique;
          count =
              length-insert (id tx) tx p.txs (h.lookup (id tx) ∙ fresh)
              ∙ omega (arith, h.count, length-append q (tx ∷ []));
          counted = omega (arith, h.counted, total-append q tx, room);
          distinct = IsDistinct-append id q tx h.distinct fresh;
        };
        queue = ap (λ o. o ++ (id tx ∷ [])) r.queue ∙ sym (map-append q tx);
        bounded = omega (arith, total-append q tx, room);
        few = omega (arith, length-append q (tx ∷ []), slot);
        small = AllSmall-append q tx r.small fits;
      }

  accepts_new :
      (p : Pending) (q : List Tx) (tx : Tx)
      → Represents p q
      → (accepts p (id tx) tx && not (contains_key (id tx) p.txs)) ≡ (
          leb (length tx.bytes) max_tx_bytes
          && not (is_some (find id (id tx) q))
          && ltb (length q) max_pending_txs
          && leb (length tx.bytes + total q) max_pending_bytes)
  unfolding accepts
  accepts_new p q tx r = ground (
    arith,
    contains_key-get (id tx) p.txs,
    r.holds.lookup (id tx),
    r.holds.count,
    r.holds.counted,
    r.bounded,
  )

  abbrev after_insert : Tx → Pending → Pending
  after_insert tx p = record {
    txs = insert (id tx) tx p.txs;
    order = p.order ++ (id tx ∷ []);
    bytes = wrapping_add p.bytes (length tx.bytes);
  }

  -- An answer and a state of the mempool, for an answer and a state of the queue.
  abbrev pub Same : Bool × Pending → Bool × List Tx → Type 0
  Same (a, p) (b, q) = (a ≡ b) × Represents p q

  Same-if :
      (b : Bool) (tx : Tx) (p : Pending) (q : List Tx)
      → Represents p q
      → ((b ≡ true) → Represents (after_insert tx p) (q ++ (tx ∷ [])))
      → Same
          (if not b then (false, p) else (true, after_insert tx p))
          (if b then (true, q ++ (tx ∷ [])) else (false, q))
  Same-if true tx p q r h = (refl, h refl)
  Same-if false tx p q r h = (refl, r)

  not_accepted : (a c : Bool) → (not a || c) ≡ not (a && not c)
  not_accepted a c = ground arith

  -- Admission answers as the queue does, and puts the transaction where the queue puts it.
  insert-Same :
      (tx : Tx) (p : Pending) (q : List Tx)
      → Represents p q
      → Same (insert_tx id tx p) (admit id tx q)
  unfolding insert_tx admit
  insert-Same tx p q r =
      subst (λ c. Same (if c then (false, p) else (true, after_insert tx p)) (admit id tx q))
        (sym (
          not_accepted (accepts p (id tx) tx) (contains_key (id tx) p.txs)
          ∙ ap not (accepts_new p q tx r)))
        (Same-if _ tx p q r (λ e.
          admitted p q tx r (ground (arith, e)) (ground (arith, e)) (ground (arith, e))
            (ground (arith, e))))

  -- One turn of the loop of `prune`.
  Holds-remove :
      (i : ℕ) (txs : Map ℕ Tx) (bytes : ℕ) (q : List Tx)
      → Holds txs bytes q
      → total q < 2 ^ 64
      → Holds (remove i txs) (bytes_after (get i txs) bytes) (without id (i ∷ []) q)
  Holds-remove i txs bytes q h small = record {
    lookup = λ j.
        ground
          (arith, get-remove i j txs, find-without id j (i ∷ []) q, h.lookup j, nat_beq_iff i j);
    unique = IsUnique-remove i txs h.unique;
    count = (counts (find id i q) refl).0;
    counted = (counts (find id i q) refl).1;
    distinct = IsDistinct-without id (i ∷ []) q h.distinct;
  }
    where
      counts :
          (o : Option Tx)
          → find id i q ≡ o
          → (length (remove i txs) ≡ length (without id (i ∷ []) q))
            × (bytes_after (get i txs) bytes ≡ total (without id (i ∷ []) q))
      counts none e =
          ground
            (arith, h.lookup i, e, remove-absent i txs, without-absent id i q, h.count, h.counted)
      counts (some tx) e = ground (
        arith,
        h.lookup i,
        e,
        length-remove i tx txs h.unique,
        without-present id i tx q h.distinct,
        h.count,
        h.counted,
        small,
      )

  Holds-remove_each :
      (ids : List ℕ) (txs : Map ℕ Tx) (bytes : ℕ) (q : List Tx)
      → Holds txs bytes q
      → total q < 2 ^ 64
      → Holds (remove_each ids txs bytes).0 (remove_each ids txs bytes).1 (without id ids q)
  unfolding remove_each
  Holds-remove_each [] txs bytes q h small = subst (Holds txs bytes) (sym (without-nil id q)) h
  Holds-remove_each (i ∷ ids) txs bytes q h small = subst (Holds _ _) (without-cons id i ids q) (
      Holds-remove_each ids (remove i txs) (bytes_after (get i txs) bytes) (without id (i ∷ []) q)
        (Holds-remove i txs bytes q h small) (omega (arith, small, without-bounds id (i ∷ []) q)))

  retain_known-without :
      (ids : List ℕ) (q r : List Tx) (txs : Map ℕ Tx)
      → ((i : ℕ) → get i txs ≡ find id i (without id ids q))
      → All (λ tx. find id (id tx) q ≡ some tx) r
      → retain_known txs (map id r) ≡ map id (without id ids r)
  unfolding retain_known without
  retain_known-without ids q [] txs h a = refl
  retain_known-without ids q (x ∷ r) txs h (e, a) = ground (
    arith,
    e,
    retain_known-without ids q r txs h a,
    contains_key-get (id x) txs,
    h (id x),
    find-without id (id x) ids q,
  )

  -- Pruning takes the named transactions out of the queue.
  prune-Represents :
      (ids : List ℕ) (p : Pending) (q : List Tx)
      → Represents p q
      → Represents (prune ids p) (without id ids q)
  unfolding prune
  prune-Represents [] p q r = subst (Represents p) (sym (without-nil id q)) r
  prune-Represents (i ∷ ids) p q r =
      let h = Holds-remove_each (i ∷ ids) p.txs p.bytes q r.holds (omega (arith, r.bounded)) in
      record {
        holds = h;
        queue =
            ap (retain_known _) r.queue
            ∙ retain_known-without (i ∷ ids) q q _ h.lookup (find_each id q r.holds.distinct);
        bounded = omega (arith, r.bounded, without-bounds id (i ∷ ids) q);
        few = omega (arith, r.few, without-bounds id (i ∷ ids) q);
        small = AllSmall-without id (i ∷ ids) q r.small;
      }

  look_up_each :
      (r : List Tx) (txs : Map ℕ Tx)
      → All (λ tx. get (id tx) txs ≡ some tx) r
      → look_up_all txs (map id r) ≡ some (named id r)
  unfolding look_up_all
  look_up_each [] txs a = refl
  look_up_each (x ∷ r) txs (e, a) = rw e (rw (look_up_each r txs a))

  -- No queued identifier is without its transaction.
  pub ordered-Represents :
      (p : Pending) (q : List Tx) → Represents p q → ordered p ≡ some (named id q)
  unfolding ordered
  ordered-Represents p q r =
      ap (look_up_all p.txs) r.queue
      ∙ look_up_each q p.txs (known q (find_each id q r.holds.distinct))
    where
      known :
          (s : List Tx)
          → All (λ tx. find id (id tx) q ≡ some tx) s
          → All (λ tx. get (id tx) p.txs ≡ some tx) s
      known [] a = tt
      known (x ∷ s) (e, a) = (r.holds.lookup (id x) ∙ e, known s a)

-- What a node asks of its mempool.
pub data Op : Type 0 where
  insert_op : Tx → Op
  prune_op : List ℕ → Op

module _ (id : Tx → ℕ) where
  -- The answers of the insertions, and the mempool after the operations.
  unfoldable pub run : List Op → Pending → List Bool × Pending
  run [] p = ([], p)
  run (insert_op tx ∷ ops) p =
      let (b, p') = insert_tx id tx p in let (bs, p'') = run ops p' in (b ∷ bs, p'')
  run (prune_op ids ∷ ops) p = run ops (prune ids p)

  -- The same of the queue.
  unfoldable pub run_queue : List Op → List Tx → List Bool × List Tx
  run_queue [] q = ([], q)
  run_queue (insert_op tx ∷ ops) q =
      let (b, q') = admit id tx q in let (bs, q'') = run_queue ops q' in (b ∷ bs, q'')
  run_queue (prune_op ids ∷ ops) q = run_queue ops (without id ids q)

  pub run-Represents :
      (ops : List Op) (p : Pending) (q : List Tx)
      → Represents id p q
      → ((run ops p).0 ≡ (run_queue ops q).0) × Represents id (run ops p).1 (run_queue ops q).1
  unfolding run run_queue
  run-Represents [] p q r = (refl, r)
  run-Represents (insert_op tx ∷ ops) p q r =
      let (same, r') = insert-Same id tx p q r in
      let (answers, r'') = run-Represents ops (insert_tx id tx p).1 (admit id tx q).1 r' in
      (
        ap (λ b. b ∷ (run ops (insert_tx id tx p).1).0) same
            ∙ ap (λ bs. (admit id tx q).0 ∷ bs) answers,
        r'',
      )
  run-Represents (prune_op ids ∷ ops) p q r =
      run-Represents ops (prune ids p) (without id ids q) (prune-Represents id ids p q r)

-- Whatever is inserted and pruned, in any order: the insertions answer as those of the bounded queue
-- do; the mempool has as many transactions as the queue, within the limits on their number and on
-- their bytes, and its byte count is theirs; and a batch is the first `max_txs` transactions of the
-- queue that are not excluded, in the order of their admission.
pub run_refines :
    (id : Tx → ℕ) (ops : List Op) (max_txs : ℕ) (excluded : List ℕ)
    → let p = (run id ops new).1 in
      let q = (run_queue id ops []).1 in
      ((run id ops new).0 ≡ (run_queue id ops []).0)
      × (len p ≡ length q)
      × (length q ≤ max_pending_txs)
      × (p.bytes ≡ total q)
      × (total q ≤ max_pending_bytes)
      × (build max_txs excluded p ≡ some (take max_txs (not_excluded id excluded q)))
unfolding build len
run_refines id ops max_txs excluded =
    let (answers, r) = run-Represents id ops new [] (new-Represents id) in
    (
      answers,
      r.holds.count,
      r.few,
      r.holds.counted,
      r.bounded,
      ap (build_from max_txs excluded) (ordered-Represents id _ _ r)
          ∙ ap some (picked-named id max_txs excluded (run_queue id ops []).1),
    )
