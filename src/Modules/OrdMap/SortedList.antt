-- ===== src/Modules/OrdMap/SortedList.antt =====
-- The interface of ordered maps has an instance: the lists sorted by their keys.
use hub_rs.Prelude.{
  true, false, none, some, [], ◌∷◌, ◌≡◌, refl, arith, ◌==◌, nat_eq, list_eq, list_beq_iff,
  Bool-cases, inl, inr, if◌then◌else◌, sym, subst,
}
use hub_rs.Prelude.Map.{Map, get, remove, get-remove}
use hub_rs.Modules.OrdMap.{
  Bytes, bytes_lt, bytes_lt-total, bytes_lt_before, IsAbove, IsSorted, IsAbove-trans, get-above,
  OrdMap,
}

unfoldable pub insert_sorted : Bytes → Bytes → Map Bytes Bytes → Map Bytes Bytes
insert_sorted k v [] = (k, v) ∷ []
insert_sorted k v ((j, w) ∷ m) =
    let rest = insert_sorted k v m in
    if k == j then (k, v) ∷ m else (if bytes_lt k j then (k, v) ∷ (j, w) ∷ m else (j, w) ∷ rest)

pub get-insert_sorted :
    (k j v : Bytes) (m : Map Bytes Bytes)
    → get j (insert_sorted k v m) ≡ (if k == j then some v else get j m)
unfolding get insert_sorted
get-insert_sorted k j v [] = refl
get-insert_sorted k j v ((i, w) ∷ m) =
    ground (arith, get-insert_sorted k j v m, list_beq_iff k j, list_beq_iff k i, list_beq_iff i j)

insert_sorted-IsAbove :
    (i k v : Bytes) (m : Map Bytes Bytes)
    → bytes_lt i k ≡ true
    → IsAbove i m
    → IsAbove i (insert_sorted k v m)
unfolding insert_sorted
insert_sorted-IsAbove i k v [] h a = (h, tt)
insert_sorted-IsAbove i k v ((j, w) ∷ m) h (b, a) = elim (Bool-cases (k == j)) [
  | inl e ↦ rw e (h, a)
  | inr e ↦ elim (Bool-cases (bytes_lt k j)) [
    | inl l ↦ rw (e, l) (h, (b, a))
    | inr l ↦ rw (e, l) (b, insert_sorted-IsAbove i k v m h a)
  ]
]

after_other : (k j : Bytes) → bytes_lt k j ≡ false → (k == j) ≡ false → bytes_lt j k ≡ true
after_other k j l e = ground (arith, bytes_lt-total k j l, list_beq_iff k j)

pub insert_sorted-IsSorted :
    (k v : Bytes) (m : Map Bytes Bytes) → IsSorted m → IsSorted (insert_sorted k v m)
unfolding insert_sorted
insert_sorted-IsSorted k v [] s = (tt, tt)
insert_sorted-IsSorted k v ((j, w) ∷ m) (a, s) = elim (Bool-cases (k == j)) [
  | inl e ↦ rw e (subst (λ x. IsAbove x m) (sym ((list_beq_iff k j).0 e)) a, s)
  | inr e ↦ elim (Bool-cases (bytes_lt k j)) [
    | inl l ↦ rw (e, l) ((l, IsAbove-trans k j m l a), (a, s))
    | inr l ↦
        rw (e, l)
          (insert_sorted-IsAbove j k v m (after_other k j l e) a, insert_sorted-IsSorted k v m s)
  ]
]

remove-IsAbove : (i k : Bytes) (m : Map Bytes Bytes) → IsAbove i m → IsAbove i (remove k m)
unfolding remove
remove-IsAbove i k [] a = tt
remove-IsAbove i k ((j, w) ∷ m) (b, a) = elim (Bool-cases (j == k)) [
  | inl e ↦ rw e (remove-IsAbove i k m a)
  | inr e ↦ rw e (b, remove-IsAbove i k m a)
]

pub remove-IsSorted : (k : Bytes) (m : Map Bytes Bytes) → IsSorted m → IsSorted (remove k m)
unfolding remove
remove-IsSorted k [] s = tt
remove-IsSorted k ((j, w) ∷ m) (a, s) = elim (Bool-cases (j == k)) [
  | inl e ↦ rw e (remove-IsSorted k m s)
  | inr e ↦ rw e (remove-IsAbove j k m a, remove-IsSorted k m s)
]

unfoldable pub from_key : Bytes → Map Bytes Bytes → Map Bytes Bytes
from_key k [] = []
from_key k ((j, v) ∷ m) = let rest = from_key k m in if bytes_lt j k then rest else (j, v) ∷ m

pub from_key-IsSorted : (k : Bytes) (m : Map Bytes Bytes) → IsSorted m → IsSorted (from_key k m)
unfolding from_key
from_key-IsSorted k [] s = tt
from_key-IsSorted k ((j, v) ∷ m) (a, s) = elim (Bool-cases (bytes_lt j k)) [
  | inl e ↦ rw e (from_key-IsSorted k m s)
  | inr e ↦ rw e (a, s)
]

below_none :
    (i j k v : Bytes) (m : Map Bytes Bytes)
    → bytes_lt j k ≡ false
    → bytes_lt i k ≡ true
    → IsAbove j m
    → get i ((j, v) ∷ m) ≡ none
unfolding get
below_none i j k v m h l a = elim (Bool-cases (j == i)) [
  | inl e ↦ absurd (ground (arith, (list_beq_iff j i).0 e))
  | inr e ↦ rw e (get-above i m (IsAbove-trans i j m (bytes_lt_before i j k l h) a))
]

pub get-from_key :
    (k i : Bytes) (m : Map Bytes Bytes)
    → IsSorted m
    → get i (from_key k m) ≡ (if bytes_lt i k then none else get i m)
unfolding get from_key
get-from_key k i [] s = ground arith
get-from_key k i ((j, v) ∷ m) (a, s) =
    ground (arith, below_none i j k v m, get-from_key k i m s, list_beq_iff j i, a)

unfoldable pub sorted_list : OrdMap
unfolding insert_sorted from_key remove get
sorted_list = record {
  Tree = (m : Map Bytes Bytes) × IsSorted m;
  empty = ([], tt);
  lookup = λ k t. get k t.0;
  insert = λ k v t. (insert_sorted k v t.0, insert_sorted-IsSorted k v t.0 t.1);
  remove = λ k t. (remove k t.0, remove-IsSorted k t.0 t.1);
  range = λ k t. from_key k t.0;
  lookup-empty = λ k. refl;
  lookup-insert = λ k j v t. get-insert_sorted k j v t.0;
  lookup-remove = λ k j t. get-remove k j t.0;
  get-range = λ k j t. get-from_key k j t.0 t.1;
  range-IsSorted = λ k t. from_key-IsSorted k t.0 t.1;
}
