-- ===== src/Modules/OrdMap.antt =====
-- What crates/vera-modules/src/kv_store.rs relies on of the library's ordered map: reads after
-- writes, and ranges in the order of the keys. Bytes compare as Rust's slices do.
pub mod SortedList
use hub_rs.Prelude.{
  ℕ, Bool, true, false, Option, none, some, List, [], ◌∷◌, ◌≡◌, refl, ◌↔◌, arith, ◌==◌, nat_eq,
  list_eq, list_beq_iff, Bool-cases, ◌⊎◌, inl, inr, sym, subst, ltb, ◌&&◌, ◌||◌, if◌then◌else◌,
}
use hub_rs.Prelude.Map.{Map, get}

abbrev pub Bytes : Type 0
Bytes = List ℕ

unfoldable pub bytes_lt : Bytes → Bytes → Bool
bytes_lt [] [] = false
bytes_lt [] (y ∷ ys) = true
bytes_lt (x ∷ xs) [] = false
bytes_lt (x ∷ xs) (y ∷ ys) = ltb x y || (x == y && bytes_lt xs ys)

pub bytes_lt-irreflexive : (a : Bytes) → bytes_lt a a ≡ false
unfolding bytes_lt
bytes_lt-irreflexive [] = refl
bytes_lt-irreflexive (x ∷ a) = ground (arith, bytes_lt-irreflexive a)

pub bytes_lt_trans :
    (a b c : Bytes) → bytes_lt a b ≡ true → bytes_lt b c ≡ true → bytes_lt a c ≡ true
unfolding bytes_lt
bytes_lt_trans [] [] [] h i = h
bytes_lt_trans [] (y ∷ b) [] h i = i
bytes_lt_trans [] b (z ∷ c) h i = refl
bytes_lt_trans (x ∷ a) [] c h i = ground arith
bytes_lt_trans (x ∷ a) (y ∷ b) [] h i = ground arith
bytes_lt_trans (x ∷ a) (y ∷ b) (z ∷ c) h i = ground (arith, bytes_lt_trans a b c)

pub bytes_lt-total : (a b : Bytes) → bytes_lt a b ≡ false → (bytes_lt b a ≡ true) ⊎ (a ≡ b)
unfolding bytes_lt
bytes_lt-total [] [] h = inr refl
bytes_lt-total [] (y ∷ b) h = ground arith
bytes_lt-total (x ∷ a) [] h = inl refl
bytes_lt-total (x ∷ a) (y ∷ b) h = elim (Bool-cases (x == y)) [
  | inl e ↦ elim (bytes_lt-total a b (ground arith)) [
    | inl l ↦ inl (ground arith)
    | inr q ↦ inr (ground arith)
  ]
  | inr e ↦ inl (ground arith)
]

pub bytes_lt_before :
    (i j k : Bytes) → bytes_lt i k ≡ true → bytes_lt j k ≡ false → bytes_lt i j ≡ true
bytes_lt_before i j k h l = elim (bytes_lt-total j k l) [
  | inl m ↦ bytes_lt_trans i k j h m
  | inr e ↦ subst (λ x. bytes_lt i x ≡ true) (sym e) h
]

-- Every key of the list comes after `k`.
abbrev pub IsAbove : Bytes → Map Bytes Bytes → Type 0
IsAbove k [] = Unit
IsAbove k ((j, v) ∷ m) = (bytes_lt k j ≡ true) × IsAbove k m

abbrev pub IsSorted : Map Bytes Bytes → Type 0
IsSorted [] = Unit
IsSorted ((k, v) ∷ m) = IsAbove k m × IsSorted m

pub IsAbove-trans :
    (i j : Bytes) (m : Map Bytes Bytes) → bytes_lt i j ≡ true → IsAbove j m → IsAbove i m
IsAbove-trans i j [] h a = tt
IsAbove-trans i j ((k, v) ∷ m) h (b, a) = (bytes_lt_trans i j k h b, IsAbove-trans i j m h a)

pub get-above : (i : Bytes) (m : Map Bytes Bytes) → IsAbove i m → get i m ≡ none
unfolding get
get-above i [] a = refl
get-above i ((k, v) ∷ m) (b, a) =
    ground (arith, get-above i m a, list_beq_iff k i, bytes_lt-irreflexive i)

pub record OrdMap : Type 1 where
  pub Tree : Type 0
  pub empty : Tree
  pub lookup : Bytes → Tree → Option Bytes
  pub insert : Bytes → Bytes → Tree → Tree
  pub remove : Bytes → Tree → Tree
  -- The entries from a key on, in the order of the keys.
  pub range : Bytes → Tree → Map Bytes Bytes
  pub lookup-empty : (k : Bytes) → lookup k empty ≡ none
  pub lookup-insert :
      (k j : Bytes) (v : Bytes) (m : Tree)
      → lookup j (insert k v m) ≡ (if k == j then some v else lookup j m)
  pub lookup-remove :
      (k j : Bytes) (m : Tree) → lookup j (remove k m) ≡ (if k == j then none else lookup j m)
  pub get-range :
      (k j : Bytes) (m : Tree) → get j (range k m) ≡ (if bytes_lt j k then none else lookup j m)
  pub range-IsSorted : (k : Bytes) (m : Tree) → IsSorted (range k m)
