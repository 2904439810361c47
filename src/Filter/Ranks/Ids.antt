-- ===== src/Filter/Ranks/Ids.antt =====
-- `order` on IDs does what the same steps do on their ranks, where the map of ranks inverts the list
-- of IDs.
use tagstrak.Common.{
  ℕ, ◌<◌, ◌≡◌, refl, sym, ap, ◌∙◌, arith, List, [], ◌∷◌, ◌++◌, Bytes, length, take-append,
  drop-append, ltb, ◌==◌, if◌then◌else◌, Bool-cases, inl, inr, All, map, bytes_eq, bytes_eq_iff,
}
use tagstrak.Filter.Entry.{id_at}
use tagstrak.Filter.Found.{with_ids}
use tagstrak.Filter.Ranks.{
  Ranks, rank_of, sorted_from, insert_by, sort_by, ensure_sorted, compact_from, compact, order,
}
use tagstrak.Filter.Ranks.Sorted.{itself, ordered}

module _ (ids : List Bytes) (ranks : Ranks) where
  -- The rank's ID has that rank.
  abbrev pub IsRanked : ℕ → Type 0
  IsRanked r = rank_of ranks (id_at ids r) ≡ r

  abbrev names : List ℕ → List Bytes
  names = map (id_at ids)

  sorted_from-names :
      (x : ℕ) (xs : List ℕ)
      → IsRanked x
      → All IsRanked xs
      → sorted_from (rank_of ranks) (id_at ids x) (names xs) ≡ sorted_from itself x xs
  unfolding sorted_from
  sorted_from-names x [] hx h = refl
  sorted_from-names x (y ∷ ys) hx (hy, h) = rw (hx, hy, sorted_from-names y ys hy h)

  insert_by-names :
      (x : ℕ) (xs : List ℕ)
      → IsRanked x
      → All IsRanked xs
      → insert_by (rank_of ranks) (id_at ids x) (names xs) ≡ names (insert_by itself x xs)
  unfolding insert_by
  insert_by-names x [] hx h = refl
  insert_by-names x (y ∷ ys) hx (hy, h) = rw (hx, hy, insert_by-names x ys hx h) (ground arith)

  insert_by-IsRanked :
      (x : ℕ) (xs : List ℕ) → IsRanked x → All IsRanked xs → All IsRanked (insert_by itself x xs)
  unfolding insert_by
  insert_by-IsRanked x [] hx h = (hx, tt)
  insert_by-IsRanked x (y ∷ ys) hx (hy, h) = elim (Bool-cases (ltb y x)) [
    | inl later ↦ rw later (hy, insert_by-IsRanked x ys hx h)
    | inr here ↦ rw here (hx, (hy, h))
  ]

  sort_by-IsRanked : (xs : List ℕ) → All IsRanked xs → All IsRanked (sort_by itself xs)
  unfolding sort_by
  sort_by-IsRanked [] h = tt
  sort_by-IsRanked (x ∷ xs) (hx, h) =
      insert_by-IsRanked x (sort_by itself xs) hx (sort_by-IsRanked xs h)

  sort_by-names :
      (xs : List ℕ)
      → All IsRanked xs
      → sort_by (rank_of ranks) (names xs) ≡ names (sort_by itself xs)
  unfolding sort_by
  sort_by-names [] h = refl
  sort_by-names (x ∷ xs) (hx, h) =
      ap (insert_by (rank_of ranks) (id_at ids x)) (sort_by-names xs h)
      ∙ insert_by-names x (sort_by itself xs) hx (sort_by-IsRanked xs h)

  same-names : (x y : ℕ) → IsRanked x → IsRanked y → bytes_eq (id_at ids x) (id_at ids y) ≡ (x == y)
  same-names x y hx hy = elim (Bool-cases (bytes_eq (id_at ids x) (id_at ids y))) [
    | inl same ↦ ground (arith, same, hx, hy, ap (rank_of ranks) ((bytes_eq_iff _ _).0 same))
    | inr other ↦ ground (arith, other, (bytes_eq_iff (id_at ids x) (id_at ids y)).1)
  ]

  compact_from-names :
      (x : ℕ) (xs : List ℕ)
      → IsRanked x
      → All IsRanked xs
      → compact_from bytes_eq (id_at ids x) (names xs) ≡ names (compact_from ◌==◌ x xs)
  unfolding compact_from
  compact_from-names x [] hx h = refl
  compact_from-names x (y ∷ ys) hx (hy, h) =
      rw (same-names x y hx hy, compact_from-names y ys hy h) (ground arith)

  compact-names :
      (xs : List ℕ) → All IsRanked xs → compact bytes_eq (names xs) ≡ names (compact ◌==◌ xs)
  unfolding compact
  compact-names [] h = refl
  compact-names (x ∷ xs) (hx, h) = ap (λ t. id_at ids x ∷ t) (compact_from-names x xs hx h)

  ensure_sorted-names :
      (xs : List ℕ)
      → All IsRanked xs
      → ensure_sorted (rank_of ranks) (names xs) ≡ names (ensure_sorted itself xs)
  unfolding ensure_sorted
  ensure_sorted-names [] h = refl
  ensure_sorted-names (x ∷ xs) (hx, h) = elim (Bool-cases (sorted_from itself x xs)) [
    | inl sorted ↦ rw (sorted_from-names x xs hx h, sorted)
    | inr unsorted ↦ rw (sorted_from-names x xs hx h, unsorted) (sort_by-names (x ∷ xs) (hx, h))
  ]

  ensure_sorted-IsRanked : (xs : List ℕ) → All IsRanked xs → All IsRanked (ensure_sorted itself xs)
  unfolding ensure_sorted
  ensure_sorted-IsRanked [] h = tt
  ensure_sorted-IsRanked (x ∷ xs) (hx, h) = elim (Bool-cases (sorted_from itself x xs)) [
    | inl sorted ↦ rw sorted (hx, h)
    | inr unsorted ↦ rw unsorted (sort_by-IsRanked (x ∷ xs) (hx, h))
  ]

  order_steps-names :
      (xs : List ℕ)
      → All IsRanked xs
      → compact bytes_eq (ensure_sorted (rank_of ranks) (names xs)) ≡ names (ordered xs)
  order_steps-names xs h =
      ap (compact bytes_eq) (ensure_sorted-names xs h)
      ∙ compact-names (ensure_sorted itself xs) (ensure_sorted-IsRanked xs h)

  -- The early return of `order` leaves what its steps would.
  ordered-short : (xs : List ℕ) → length (names xs) < 2 → ordered xs ≡ xs
  unfolding ensure_sorted sorted_from compact compact_from
  ordered-short [] h = refl
  ordered-short (x ∷ []) h = refl
  ordered-short (x ∷ y ∷ xs) h = absurd (omega arith)

  order-drop :
      (dst rest : List Bytes)
      → order ranks (dst ++ rest) (length dst) ≡ (
          if ltb (length rest) 2
          then dst ++ rest
          else dst ++ compact bytes_eq (ensure_sorted (rank_of ranks) rest))
  unfolding order
  order-drop dst rest =
      rw (drop-append (length dst) dst rest refl, take-append (length dst) dst rest refl)

  -- Behind what the caller had, the ranks are ordered and each is left once.
  pub order-names :
      (dst : List Bytes) (xs : List ℕ)
      → All IsRanked xs
      → order ranks (with_ids ids dst xs) (length dst) ≡ with_ids ids dst (ordered xs)
  order-names dst xs h = elim (Bool-cases (ltb (length (names xs)) 2)) [
    | inl short ↦
        order-drop dst (names xs)
        ∙ (rw short (ap (with_ids ids dst) (sym (ordered-short xs (ground arith)))))
    | inr long ↦ order-drop dst (names xs) ∙ (rw long (ap (λ t. dst ++ t) (order_steps-names xs h)))
  ]
