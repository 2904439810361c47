-- ===== src/Filter/Ranks.antt =====
-- The order in which an index returns its matches (internal/filter/index.go): by rank, each once.
-- `slices.SortFunc` is an insertion sort here; ranks that compare equal belong to equal IDs, so no
-- sort can tell another result.
pub mod Sorted
pub mod Ids
use tagstrak.Common.{
  ℕ, zero, suc, Bool, true, false, List, [], ◌∷◌, ◌++◌, Bytes, length, take, drop, ltb,
  if◌then◌else◌, bytes_eq,
}

-- The map `ranks`; a missing key reads as zero.
abbrev pub Ranks : Type 0
Ranks = List (Bytes × ℕ)

unfoldable pub rank_of : Ranks → Bytes → ℕ
rank_of [] id = 0
rank_of ((k, r) ∷ ranks) id = if bytes_eq k id then r else rank_of ranks id

module _ {A : Type 0} (rank : A → ℕ) where
  -- `slices.IsSortedFunc` by rank, from an element on
  unfoldable pub sorted_from : A → List A → Bool
  sorted_from x [] = true
  sorted_from x (y ∷ ys) =
      let rest = sorted_from y ys in if ltb (rank y) (rank x) then false else rest

  unfoldable pub insert_by : A → List A → List A
  insert_by x [] = x ∷ []
  insert_by x (y ∷ ys) =
      let later = y ∷ insert_by x ys in if ltb (rank y) (rank x) then later else x ∷ y ∷ ys

  unfoldable pub sort_by : List A → List A
  sort_by [] = []
  sort_by (x ∷ xs) = insert_by x (sort_by xs)

  -- `if !slices.IsSortedFunc(found, byRank) { slices.SortFunc(found, byRank) }`
  unfoldable pub ensure_sorted : List A → List A
  ensure_sorted [] = []
  ensure_sorted (x ∷ xs) = if sorted_from x xs then x ∷ xs else sort_by (x ∷ xs)

module _ {A : Type 0} (same : A → A → Bool) where
  -- What `slices.Compact` keeps behind an element
  unfoldable pub compact_from : A → List A → List A
  compact_from x [] = []
  compact_from x (y ∷ ys) = let rest = compact_from y ys in if same x y then rest else y ∷ rest

  unfoldable pub compact : List A → List A
  compact [] = []
  compact (x ∷ xs) = x ∷ compact_from x xs

-- `index.order`
unfoldable pub order : Ranks → List Bytes → ℕ → List Bytes
unfolding ensure_sorted compact sorted_from sort_by insert_by compact_from rank_of
order ranks dst start =
    let found = drop start dst in
    if ltb (length found) 2
    then dst
    else take start dst ++ compact bytes_eq (ensure_sorted (rank_of ranks) found)
