-- ===== src/Modules/KvStore/Scan.antt =====
-- A scan of a prefix in crates/vera-modules/src/kv_store.rs: the keys that start with the prefix
-- stand together in an ordered map, from the prefix on.
use hub_rs.Prelude.{
  true, false, none, [], ◌∷◌, ◌≡◌, refl, arith, list_eq, nat_eq, if◌then◌else◌, list_beq_iff,
  beq_refl, Bool-cases, inl, inr, subst, ◌∙◌, ap,
}
use hub_rs.Prelude.Map.{Map, get}
use hub_rs.Text.{starts_with}
use hub_rs.Modules.OrdMap.{
  Bytes, OrdMap, bytes_lt, IsSorted, IsAbove, IsAbove-trans, get-above, bytes_lt-total,
}
use hub_rs.Modules.KvStore.{KvStore, prefix_scan, take_prefixed, get_ref}

prefixed_together :
    (p k j : Bytes)
    → starts_with p k ≡ false
    → bytes_lt k p ≡ false
    → bytes_lt k j ≡ true
    → starts_with p j ≡ false
unfolding starts_with bytes_lt
prefixed_together [] k j s l h = ground arith
prefixed_together (a ∷ p) [] j s l h = ground arith
prefixed_together (a ∷ p) (b ∷ k) [] s l h = refl
prefixed_together (a ∷ p) (b ∷ k) (c ∷ j) s l h = ground (arith, prefixed_together p k j)

pub starts_with-after : (p j : Bytes) → starts_with p j ≡ true → bytes_lt j p ≡ false
unfolding starts_with bytes_lt
starts_with-after [] [] s = refl
starts_with-after [] (c ∷ j) s = refl
starts_with-after (a ∷ p) [] s = ground arith
starts_with-after (a ∷ p) (c ∷ j) s = ground (arith, starts_with-after p j)

get-not_after :
    (k j : Bytes) (m : Map Bytes Bytes) → IsAbove k m → bytes_lt k j ≡ false → get j m ≡ none
get-not_after k j m a l = elim (bytes_lt-total k j l) [
  | inl h ↦ get-above j m (IsAbove-trans j k m h a)
  | inr e ↦ subst (λ x. get x m ≡ none) e (get-above k m a)
]

-- Past the first key without the prefix, no key has it.
none_later :
    (p k v j : Bytes) (m : Map Bytes Bytes)
    → IsAbove k m
    → starts_with p k ≡ false
    → bytes_lt k p ≡ false
    → starts_with p j ≡ true
    → get j ((k, v) ∷ m) ≡ none
unfolding get
none_later p k v j m a s l h =
    ground (arith, list_beq_iff k j, get-not_after k j m a, prefixed_together p k j s l)

-- No key of the list comes before `p`.
IsFrom : Bytes → Map Bytes Bytes → Type 0
IsFrom p m = (i : Bytes) → bytes_lt i p ≡ true → get i m ≡ none

absent_later : (p k v : Bytes) (m : Map Bytes Bytes) → IsFrom p ((k, v) ∷ m) → IsFrom p m
unfolding IsFrom get
absent_later p k v m l i h = ground (arith, l i h, list_beq_iff k i)

first_not_before :
    (p k v : Bytes) (m : Map Bytes Bytes) → IsFrom p ((k, v) ∷ m) → bytes_lt k p ≡ false
unfolding IsFrom get
first_not_before p k v m l = elim (Bool-cases (bytes_lt k p)) [
  | inl h ↦ absurd (ground (arith, l k h, beq_refl k))
  | inr h ↦ h
]

get-take_prefixed :
    (p j : Bytes) (m : Map Bytes Bytes)
    → IsSorted m
    → IsFrom p m
    → get j (take_prefixed p m) ≡ (if starts_with p j then get j m else none)
unfolding get take_prefixed
get-take_prefixed p j [] s l = ground arith
get-take_prefixed p j ((k, v) ∷ m) (a, s) l = elim (Bool-cases (starts_with p k)) [
  | inl e ↦ ground (arith, e, list_beq_iff k j, get-take_prefixed p j m s (absent_later p k v m l))
  | inr e ↦ ground (arith, e, none_later p k v j m a e (first_not_before p k v m l))
]

take_prefixed-IsAbove :
    (p k : Bytes) (m : Map Bytes Bytes) → IsAbove k m → IsAbove k (take_prefixed p m)
unfolding take_prefixed
take_prefixed-IsAbove p k [] a = tt
take_prefixed-IsAbove p k ((j, v) ∷ m) (b, a) = elim (Bool-cases (starts_with p j)) [
  | inl e ↦ rw e (b, take_prefixed-IsAbove p k m a)
  | inr e ↦ rw e tt
]

take_prefixed-IsSorted :
    (p : Bytes) (m : Map Bytes Bytes) → IsSorted m → IsSorted (take_prefixed p m)
unfolding take_prefixed
take_prefixed-IsSorted p [] s = tt
take_prefixed-IsSorted p ((j, v) ∷ m) (a, s) = elim (Bool-cases (starts_with p j)) [
  | inl e ↦ rw e (take_prefixed-IsAbove p j m a, take_prefixed-IsSorted p m s)
  | inr e ↦ rw e tt
]

-- A scan has exactly the store's entries whose key starts with the prefix, each key once, in the
-- order of the keys.
pub prefix_scan_complete :
    (M : OrdMap) (prefix : Bytes) (s : KvStore M)
    → IsSorted (prefix_scan M prefix s)
      × ((key : Bytes)
          → get key (prefix_scan M prefix s)
            ≡ (if starts_with prefix key then get_ref M key s else none))
unfolding prefix_scan IsFrom
prefix_scan_complete M prefix s = (
  take_prefixed-IsSorted prefix _ (M.range-IsSorted prefix s.tree),
  λ key. ground (
    arith,
    starts_with-after prefix key,
    M.get-range prefix key s.tree,
    get-take_prefixed prefix key (M.range prefix s.tree) (M.range-IsSorted prefix s.tree)
        (λ i h. M.get-range prefix i s.tree ∙ ap (λ b. if b then none else M.lookup i s.tree) h),
  ),
)
