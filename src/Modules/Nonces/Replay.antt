-- ===== src/Modules/Nonces/Replay.antt =====
-- Runs of transactions against the nonces: what the executor's checks, one after the other, let
-- through for one DID.
use hub_rs.Prelude.{
  ℕ, zero, suc, ◌+◌, ◌&&◌, ◌<◌, ◌^◌, Bool, true, false, List, [], ◌∷◌, ◌≡◌, ◌≢◌, ◌⊎◌, inl, inr,
  refl, sym, ap, ◌∙◌, arith, ◌==◌, list_eq, nat_eq, list_beq_iff, Bool-cases, subst, length,
  if◌then◌else◌,
}
use hub_rs.Modules.Results.{Result, ok, err}
use hub_rs.Modules.OrdMap.{Bytes, OrdMap}
use hub_rs.Modules.KvStore.{KvStore}
use hub_rs.Modules.Nonces.{NonceError, mismatch, get_nonce, check_and_increment}
use hub_rs.Modules.Nonces.Step.{
  IsStored, IsRefusal, get_nonce-AsStored, Refuses-IsRefusal, after, check_and_increment_outcome,
  get_nonce-after, get_nonce-elsewhere,
}

abbrev pub is_ok {ℓ κ} : {E : Type ℓ} {A : Type κ} → Result E A → Bool
is_ok (ok a) = true
is_ok (err e) = false

-- From `n` on, one by one.
abbrev pub count_up : ℕ → ℕ → List ℕ
count_up n zero = []
count_up n (suc count) = n ∷ count_up (n + 1) count

module _ (M : OrdMap) where
  -- The nonces accepted for `did`, and the store afterwards, of transactions checked in order.
  unfoldable pub run_checks : Bytes → List (Bytes × ℕ) → KvStore M → List ℕ × KvStore M
  run_checks did [] s = ([], s)
  run_checks did ((signer, n) ∷ txs) s =
      let (answer, s') = check_and_increment M signer n s in
      let (accepted, s'') = run_checks did txs s' in
      (if is_ok answer && signer == did then n ∷ accepted else accepted, s'')

  step_run :
      (did signer : Bytes) (n : ℕ) (txs : List (Bytes × ℕ)) (s : KvStore M)
      (answer : Result NonceError (Unit {0})) (s' : KvStore M)
      → check_and_increment M signer n s ≡ (answer, s')
      → run_checks did ((signer, n) ∷ txs) s ≡ (
        if is_ok answer && signer == did
            then n ∷ (run_checks did txs s').0
            else (run_checks did txs s').0,
        (run_checks did txs s').1,
      )
  unfolding run_checks
  step_run did signer n txs s answer s' h =
      ap
        (λ r. (
          if is_ok r.0 && signer == did
              then n ∷ (run_checks did txs r.1).0
              else (run_checks did txs r.1).0,
          (run_checks did txs r.1).1,
        ))
        h

  -- What a run from a readable nonce leaves behind.
  Consecutive : Bytes → ℕ → List ℕ × KvStore M → Type 0
  Consecutive did m (accepted, s) =
      (accepted ≡ count_up m (length accepted)) × (get_nonce M did s ≡ ok (m + length accepted))

  read_once :
      (did : Bytes) (n m : ℕ) (s : KvStore M)
      → get_nonce M did s ≡ ok n
      → get_nonce M did s ≡ ok m
      → n ≡ m
  read_once did n m s g h = cc

  accepted-Consecutive :
      (did signer : Bytes) (n : ℕ) (txs : List (Bytes × ℕ)) (s : KvStore M) (m : ℕ)
      → get_nonce M did s ≡ ok m
      → get_nonce M signer s ≡ ok n
      → n + 1 < 2 ^ 64
      → ((k : ℕ)
          → get_nonce M did (after M signer n s) ≡ ok k
          → Consecutive did k (run_checks did txs (after M signer n s)))
      → Consecutive did m (
          let rest = run_checks did txs (after M signer n s) in
          (if signer == did then n ∷ rest.0 else rest.0, rest.1))
  unfolding Consecutive
  accepted-Consecutive did signer n txs s m h g small ih = elim (Bool-cases (signer == did)) [
    | inl e ↦ rw e (
        let same = (list_beq_iff signer did).0 e in
        let (c, f) = ih (n + 1) (
          subst (λ d. get_nonce M d (after M signer n s) ≡ ok (n + 1)) same
            (get_nonce-after M signer n s small)) in
        let q = read_once did n m s (subst (λ d. get_nonce M d s ≡ ok n) same g) h in
        (
          ap (λ l. n ∷ l) c
              ∙ ap (λ k. k ∷ count_up (k + 1) (length (run_checks did txs (after M signer n s)).0))
                  q,
          f ∙ ap ok (omega (arith, q)),
        ))
    | inr e ↦ rw e (
        ih m (
          get_nonce-elsewhere M signer did n s
            (λ q. ground (arith, e, (list_beq_iff signer did).1 q))
          ∙ h))
  ]

  run-Consecutive :
      (did : Bytes) (txs : List (Bytes × ℕ)) (s : KvStore M) (m : ℕ)
      → get_nonce M did s ≡ ok m
      → Consecutive did m (run_checks did txs s)
  unfolding Consecutive run_checks
  run-Consecutive did [] s m h = (refl, h ∙ ap ok (omega arith))
  run-Consecutive did ((signer, n) ∷ txs) s m h = elim (check_and_increment_outcome M signer n s) [
    | inr (e, r, why) ↦
        subst (Consecutive did m) (sym (step_run did signer n txs s (err e) s r))
          (run-Consecutive did txs s m h)
    | inl ((g, small), r) ↦
        subst (Consecutive did m) (sym (step_run did signer n txs s (ok tt) (after M signer n s) r))
          (accepted-Consecutive did signer n txs s m h g small
            (run-Consecutive did txs (after M signer n s)))
  ]

-- A call answers `ok` only with the nonce that the store has for the DID, which is zero where there is
-- no value and is read from eight bytes otherwise, and that is not the last `u64`: then the store has
-- the next one, and the nonces of other DIDs read as before. Else it answers with an error that names
-- the reason, and leaves the store as it was: `malformed` where the stored value is not eight bytes,
-- `mismatch` with the stored nonce where that is another, and `overflow` at the last `u64`.
pub check_and_increment_effect :
    (M : OrdMap) (did : Bytes) (n : ℕ) (s : KvStore M)
    → let (answer, s') = check_and_increment M did n s in
      ((answer ≡ ok tt)
        × IsStored M did n s
        × (n + 1 < 2 ^ 64)
        × IsStored M did (n + 1) s'
        × (get_nonce M did s' ≡ ok (n + 1))
        × ((other : Bytes) → did ≢ other → get_nonce M other s' ≡ get_nonce M other s))
      ⊎ ((e : NonceError) × (answer ≡ err e) × (s' ≡ s) × IsRefusal M e did n s)
check_and_increment_effect M did n s = elim (check_and_increment_outcome M did n s) [
  | inl ((g, small), r) ↦ rw r (
      inl (
        refl,
        get_nonce-AsStored M did s (ok n) g,
        small,
        get_nonce-AsStored M did (after M did n s) (ok (n + 1)) (get_nonce-after M did n s small),
        get_nonce-after M did n s small,
        λ other h. get_nonce-elsewhere M did other n s h,
      ))
  | inr (e, r, why) ↦ rw r (inr (e, refl, refl, Refuses-IsRefusal M e did n s why))
]

-- From a store whose nonce for a DID is readable, whatever transactions of whatever signers are
-- checked, in any order: the nonces accepted for the DID are consecutive from the stored one on,
-- and the store counts them.
pub accepted_consecutive :
    (M : OrdMap) (did : Bytes) (txs : List (Bytes × ℕ)) (s : KvStore M) (m : ℕ)
    → get_nonce M did s ≡ ok m
    → let (accepted, s') = run_checks M did txs s in
      (accepted ≡ count_up m (length accepted)) × (get_nonce M did s' ≡ ok (m + length accepted))
unfolding Consecutive
accepted_consecutive M did txs s m h = run-Consecutive M did txs s m h

err_not_ok : {A : Type 0} (e : NonceError) (a : A) → err e ≢ ok a
err_not_ok e a h = cc

stale_refused :
    (M : OrdMap) (did : Bytes) (n m : ℕ) (s : KvStore M)
    → get_nonce M did s ≡ ok m
    → n < m
    → check_and_increment M did n s ≡ (err (mismatch did m n), s)
stale_refused M did n m s h less = elim (check_and_increment_outcome M did n s) [
  | inl ((g, small), r) ↦ absurd (omega (arith, read_once M did n m s g h))
  | inr (e, r, inl g) ↦ absurd (err_not_ok e m (sym g ∙ h))
  | inr (e, r, inr (inl (expected, g, other, q))) ↦
      r ∙ ap (λ x. (err x, s)) (q ∙ ap (λ k. mismatch did k n) (read_once M did expected m s g h))
  | inr (e, r, inr (inr (g, last, q))) ↦ absurd (omega (arith, read_once M did n m s g h))
]

-- Once a DID's nonce is accepted, no transactions checked in between let it pass a second time: it
-- is refused for a nonce that has gone past it, and the store stays as it was.
pub replay_refused :
    (M : OrdMap) (did : Bytes) (n : ℕ) (txs : List (Bytes × ℕ)) (s : KvStore M)
    → (check_and_increment M did n s).0 ≡ ok tt
    → let s' = (run_checks M did txs (check_and_increment M did n s).1).1 in
      (expected : ℕ) × (n < expected)
      × (check_and_increment M did n s' ≡ (err (mismatch did expected n), s'))
replay_refused M did n txs s h = elim (check_and_increment_outcome M did n s) [
  | inl ((g, small), r) ↦ rw r (
      let next = get_nonce-after M did n s small in
      let (c, f) = accepted_consecutive M did txs (after M did n s) (n + 1) next in
      (_, omega arith, stale_refused M did n _ _ f (omega arith)))
  | inr (e, r, why) ↦ absurd (err_not_ok e tt (sym (ap (λ x. x.0) r) ∙ h))
]
