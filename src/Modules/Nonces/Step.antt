-- ===== src/Modules/Nonces/Step.antt =====
-- One call of `check_and_increment`, on all its branches.
use hub_rs.Prelude.{
  ℕ, ◌+◌, ◌≤◌, ◌<◌, ◌^◌, not, Option, length, none, some, [], ◌∷◌, ◌++◌, ◌≡◌, ◌≢◌, ◌⊎◌, inl, inr,
  refl, sym, ap, ◌∙◌, arith, ◌==◌, nat_eq, nat_beq_iff, list_eq, beq_refl, subst, list_beq_iff,
  Bool-cases, ltb, if◌then◌else◌,
}
use hub_rs.Modules.Results.{Result, ok, err}
use hub_rs.Modules.OrdMap.{Bytes, OrdMap}
use hub_rs.Modules.KvStore.{KvStore, put, get_ref}
use hub_rs.Modules.Nonces.{
  NonceError, mismatch, overflow, malformed, from_le_bytes, native_nonce_key, native_nonce_prefix,
  to_le_bytes, read_nonce, get_nonce, store_next, checked_successor, compare_nonce,
  check_and_increment,
}
use hub_rs.Modules.Nonces.Codec.{length-to_le_bytes, from_to_le_bytes}

append_cancel : (p a b : Bytes) → p ++ a ≡ p ++ b → a ≡ b
append_cancel [] a b h = h
append_cancel (x ∷ p) a b h = append_cancel p a b (ground arith)

native_nonce_key-injective : (d e : Bytes) → native_nonce_key d ≡ native_nonce_key e → d ≡ e
unfolding native_nonce_key
native_nonce_key-injective d e h = append_cancel native_nonce_prefix d e h

read_nonce_written :
    (did : Bytes) (n : ℕ) → n < 2 ^ 64 → read_nonce did (some (to_le_bytes 8 n)) ≡ ok n
unfolding read_nonce
read_nonce_written did n h = ground (arith, length-to_le_bytes 8 n, from_to_le_bytes 8 n h)

module _ (M : OrdMap) where
  abbrev pub Accepts : Bytes → ℕ → KvStore M → Type 0
  Accepts did n s = (get_nonce M did s ≡ ok n) × (n + 1 < 2 ^ 64)

  abbrev pub after : Bytes → ℕ → KvStore M → KvStore M
  after did n s = put M (native_nonce_key did) (to_le_bytes 8 (n + 1)) s

  -- Why a call is refused.
  abbrev pub Refuses : NonceError → Bytes → ℕ → KvStore M → Type 0
  Refuses e did n s =
      (get_nonce M did s ≡ err e)
      ⊎ ((expected : ℕ) × (get_nonce M did s ≡ ok expected)
          × (n ≢ expected)
          × (e ≡ mismatch did expected n))
      ⊎ ((get_nonce M did s ≡ ok n) × (2 ^ 64 ≤ n + 1) × (e ≡ overflow did))

  -- What the store has for a DID stands for that nonce: nothing for zero, or eight bytes.
  abbrev pub IsStored : Bytes → ℕ → KvStore M → Type 0
  IsStored did n s =
      ((get_ref M (native_nonce_key did) s ≡ none) × (n ≡ 0))
      ⊎ ((bytes : Bytes) × (get_ref M (native_nonce_key did) s ≡ some bytes)
          × (length bytes ≡ 8)
          × (n ≡ from_le_bytes bytes))

  -- The store has a value for the DID that is not eight bytes.
  abbrev pub IsMalformed : Bytes → KvStore M → Type 0
  IsMalformed did s =
      (bytes : Bytes) × (get_ref M (native_nonce_key did) s ≡ some bytes) × (length bytes ≢ 8)

  abbrev AsStored : Bytes → KvStore M → Result NonceError ℕ → Type 0
  AsStored did s (ok n) = IsStored did n s
  AsStored did s (err e) = IsMalformed did s × (e ≡ malformed did)

  read-AsStored :
      (did : Bytes) (s : KvStore M) (o : Option Bytes)
      → get_ref M (native_nonce_key did) s ≡ o
      → AsStored did s (read_nonce did o)
  unfolding read_nonce
  read-AsStored did s none h = inl (h, refl)
  read-AsStored did s (some bytes) h = elim (Bool-cases (length bytes == 8)) [
    | inl e ↦ rw e (inr (bytes, h, (nat_beq_iff (length bytes) 8).0 e, refl))
    | inr e ↦ rw e ((bytes, h, λ q. ground (arith, e, q)), refl)
  ]

  -- A read answers with the nonce that is stored, or with the error of a malformed value.
  pub get_nonce-AsStored :
      (did : Bytes) (s : KvStore M) (r : Result NonceError ℕ)
      → get_nonce M did s ≡ r
      → AsStored did s r
  unfolding get_nonce
  get_nonce-AsStored did s r h =
      subst (AsStored did s) h (read-AsStored did s (get_ref M (native_nonce_key did) s) refl)

  -- Why a call is refused, by what the store has.
  abbrev pub IsRefusal : NonceError → Bytes → ℕ → KvStore M → Type 0
  IsRefusal e did n s =
      (IsMalformed did s × (e ≡ malformed did))
      ⊎ ((expected : ℕ) × IsStored did expected s × (n ≢ expected) × (e ≡ mismatch did expected n))
      ⊎ (IsStored did n s × (2 ^ 64 ≤ n + 1) × (e ≡ overflow did))

  pub Refuses-IsRefusal :
      (e : NonceError) (did : Bytes) (n : ℕ) (s : KvStore M)
      → Refuses e did n s
      → IsRefusal e did n s
  Refuses-IsRefusal e did n s (inl g) = inl (get_nonce-AsStored did s (err e) g)
  Refuses-IsRefusal e did n s (inr (inl (expected, g, other, q))) =
      inr (inl (expected, get_nonce-AsStored did s (ok expected) g, other, q))
  Refuses-IsRefusal e did n s (inr (inr (g, last, q))) =
      inr (inr (get_nonce-AsStored did s (ok n) g, last, q))

  -- The outcome of a call whose stored nonce is read as `r`.
  Outcome : Bytes → ℕ → KvStore M → Result NonceError ℕ → Type 0
  Outcome did n s r =
      (Accepts did n s × (compare_nonce M did n r s ≡ (ok tt, after did n s)))
      ⊎ ((e : NonceError) × (compare_nonce M did n r s ≡ (err e, s)) × Refuses e did n s)

  same_nonce :
      (did : Bytes) (n : ℕ) (s : KvStore M)
      → compare_nonce M did n (ok n) s ≡ store_next M did (checked_successor n) s
  same_nonce did n s =
      ap
        (λ b.
          if not b then (err (mismatch did n n), s) else store_next M did (checked_successor n) s)
        (beq_refl n)

  outcome_same :
      (did : Bytes) (n : ℕ) (s : KvStore M) → get_nonce M did s ≡ ok n → Outcome did n s (ok n)
  unfolding Outcome
  outcome_same did n s h = elim (Bool-cases (ltb (n + 1) (2 ^ 64))) [
    | inl l ↦ inl (
      (h, ground (arith, l)),
      same_nonce did n s ∙ ap (λ b. store_next M did (if b then some (n + 1) else none) s) l,
    )
    | inr l ↦ inr (
      overflow did,
      same_nonce did n s ∙ ap (λ b. store_next M did (if b then some (n + 1) else none) s) l,
      inr (inr (h, ground (arith, l), refl)),
    )
  ]

  outcome_cases :
      (did : Bytes) (n : ℕ) (s : KvStore M) (r : Result NonceError ℕ)
      → get_nonce M did s ≡ r
      → Outcome did n s r
  unfolding Outcome
  outcome_cases did n s (err e) h = inr (e, refl, inl h)
  outcome_cases did n s (ok expected) h = elim (Bool-cases (n == expected)) [
    | inl e ↦
        subst (λ x. Outcome did n s (ok x)) ((nat_beq_iff n expected).0 e)
          (outcome_same did n s (h ∙ ap ok (sym ((nat_beq_iff n expected).0 e))))
    | inr e ↦ inr (
      mismatch did expected n,
      ap
          (λ b.
            if not b
            then (err (mismatch did expected n), s)
            else store_next M did (checked_successor expected) s)
          e,
      inr (inl (expected, h, (λ q. ground (arith, e, q)), refl)),
    )
  ]

  -- A call accepts the stored nonce, unless it is the last `u64`, and writes the next; or it is
  -- refused, with the reason, and the store stays as it was.
  pub check_and_increment_outcome :
      (did : Bytes) (n : ℕ) (s : KvStore M)
      → (Accepts did n s × (check_and_increment M did n s ≡ (ok tt, after did n s)))
        ⊎ ((e : NonceError) × (check_and_increment M did n s ≡ (err e, s)) × Refuses e did n s)
  unfolding check_and_increment Outcome
  check_and_increment_outcome did n s = outcome_cases did n s (get_nonce M did s) refl

  lookup_written : (k v : Bytes) (t : M.Tree) → M.lookup k (M.insert k v t) ≡ some v
  lookup_written k v t =
      M.lookup-insert k k v t ∙ ap (λ b. if b then some v else M.lookup k t) (beq_refl k)

  pub get_nonce-after :
      (did : Bytes) (n : ℕ) (s : KvStore M)
      → n + 1 < 2 ^ 64
      → get_nonce M did (after did n s) ≡ ok (n + 1)
  unfolding get_nonce
  get_nonce-after did n s h =
      ap (read_nonce did) (lookup_written (native_nonce_key did) (to_le_bytes 8 (n + 1)) s.tree)
      ∙ read_nonce_written did (n + 1) h

  lookup_elsewhere :
      (k j v : Bytes) (t : M.Tree) → k ≢ j → M.lookup j (M.insert k v t) ≡ M.lookup j t
  lookup_elsewhere k j v t h = ground (arith, M.lookup-insert k j v t, list_beq_iff k j, h)

  pub get_nonce-elsewhere :
      (did other : Bytes) (n : ℕ) (s : KvStore M)
      → did ≢ other
      → get_nonce M other (after did n s) ≡ get_nonce M other s
  unfolding get_nonce
  get_nonce-elsewhere did other n s h = ap (read_nonce other) (
      lookup_elsewhere (native_nonce_key did) (native_nonce_key other) (to_le_bytes 8 (n + 1))
        s.tree (λ e. h (native_nonce_key-injective did other e)))
