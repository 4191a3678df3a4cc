-- ===== src/Modules/Bulletin/Glob.antt =====
-- `glob_match` of crates/vera-modules/src/bulletin/mod.rs, and the string operations it is made of.
-- A string is the list of its UTF-8 bytes; the star is a byte of no other character.
mod Finds
mod Strips
pub mod Matches
pub mod Correct
use hub_rs.Prelude.{
  ℕ, zero, suc, ◌+◌, Bool, true, false, Option, none, some, List, [], ◌∷◌, ◌==◌, nat_eq, list_eq,
  length, if◌then◌else◌,
}
use hub_rs.Text.{is_empty, strip_prefix, starts_with}
use hub_rs.Modules.OrdMap.{Bytes}

abbrev pub star : ℕ
star = 42

abbrev pub prepend_first : ℕ → Option (Bytes × Bytes) → Option (Bytes × Bytes)
prepend_first c none = none
prepend_first c (some (before, after)) = some (c ∷ before, after)

-- `split_once('*')`.
unfoldable pub split_once : Bytes → Option (Bytes × Bytes)
split_once [] = none
split_once (c ∷ s) =
    let rest = split_once s in if c == star then some ([], s) else prepend_first c rest

abbrev pub later_or : ℕ → Bytes → Option (Bytes × Bytes) → Option (Bytes × Bytes)
later_or c s none = if c == star then some ([], s) else none
later_or c s (some (before, after)) = some (c ∷ before, after)

-- `rsplit_once('*')`.
unfoldable pub rsplit_once : Bytes → Option (Bytes × Bytes)
rsplit_once [] = none
rsplit_once (c ∷ s) = later_or c s (rsplit_once s)

abbrev pub prepend : ℕ → Option Bytes → Option Bytes
prepend c none = none
prepend c (some s) = some (c ∷ s)

-- `strip_suffix`, suffix first.
unfoldable pub strip_suffix : Bytes → Bytes → Option Bytes
strip_suffix suffix [] = if suffix == [] then some [] else none
strip_suffix suffix (c ∷ s) =
    let rest = strip_suffix suffix s in if suffix == c ∷ s then some [] else prepend c rest

abbrev pub extend_first : ℕ → List Bytes → List Bytes
extend_first c [] = (c ∷ []) ∷ []
extend_first c (part ∷ parts) = (c ∷ part) ∷ parts

-- `split('*')`.
unfoldable pub split_star : Bytes → List Bytes
split_star [] = [] ∷ []
split_star (c ∷ s) = let rest = split_star s in if c == star then [] ∷ rest else extend_first c rest

abbrev pub one_on : Option ℕ → Option ℕ
one_on none = none
one_on (some position) = some (suc position)

-- `find`, literal first.
unfoldable pub find : Bytes → Bytes → Option ℕ
unfolding starts_with
find literal [] = if starts_with literal [] then some 0 else none
find literal (c ∷ s) =
    let rest = find literal s in if starts_with literal (c ∷ s) then some 0 else one_on rest

abbrev pub drop : ℕ → Bytes → Bytes
drop zero s = s
drop (suc n) [] = []
drop (suc n) (c ∷ s) = drop n s

-- The loop over the literals between the first and the last star; an empty one is filtered out.
unfoldable pub find_each : List Bytes → Bytes → Bool
unfolding find
find_each [] remaining = true
find_each (literal ∷ literals) remaining =
    if is_empty literal then find_each literals remaining else elim (find literal remaining) [
      | none ↦ false
      | some position ↦ find_each literals (drop (position + length literal) remaining)
    ]

abbrev pub or_no_star : Bytes → Option (Bytes × Bytes) → Bytes × Bytes
or_no_star rest none = ([], rest)
or_no_star rest (some parts) = parts

abbrev pub match_middle : Bytes → Option Bytes → Bool
match_middle middle none = false
match_middle middle (some remaining) = find_each (split_star middle) remaining

abbrev pub match_rest : Bytes → Option Bytes → Bool
match_rest rest none = false
match_rest rest (some value) =
    let (middle, suffix) = or_no_star rest (rsplit_once rest) in
    match_middle middle (strip_suffix suffix value)

abbrev pub match_parts : Option (Bytes × Bytes) → Bytes → Bytes → Bool
match_parts none pattern value = pattern == value
match_parts (some (prefix, rest)) pattern value = match_rest rest (strip_prefix prefix value)

unfoldable pub glob_match : Bytes → Bytes → Bool
unfolding split_once rsplit_once strip_suffix strip_prefix find_each split_star
glob_match pattern value = match_parts (split_once pattern) pattern value
