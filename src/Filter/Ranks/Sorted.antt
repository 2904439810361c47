-- ===== src/Filter/Ranks/Sorted.antt =====
-- Sorting by rank and dropping repeats: two such lists with the same ranks are the same list.
use tagstrak.Common.{
  ℕ, ◌≤◌, ◌<◌, ◌≡◌, refl, ap, ◌∙◌, arith, true, false, ◌||◌, List, [], ◌∷◌, ltb, ◌==◌, Bool-cases,
  inl, inr,
}
use tagstrak.Filter.Found.{has}
use tagstrak.Filter.Ranks.{sorted_from, insert_by, sort_by, ensure_sorted, compact_from, compact}

-- The ranks themselves are sorted by their value.
abbrev pub itself : ℕ → ℕ
itself r = r

-- From an element on, the list does not fall; or it rises.
pub NotFalling : ℕ → List ℕ → Type 0
NotFalling x [] = Unit
NotFalling x (y ∷ ys) = (x ≤ y) × NotFalling y ys

abbrev pub Rising : ℕ → List ℕ → Type 0
Rising x [] = Unit
Rising x (y ∷ ys) = (x < y) × Rising y ys

abbrev pub IsRising : List ℕ → Type 0
IsRising [] = Unit
IsRising (x ∷ xs) = Rising x xs

-- A rising list holds no rank up to the one that it starts from.
pub Rising-has : (x r : ℕ) (xs : List ℕ) → Rising x xs → r ≤ x → has r xs ≡ false
Rising-has x r [] h le = refl
Rising-has x r (y ∷ ys) (lt, h) le = ground (arith, Rising-has y r ys h (omega arith))

has-head : (x : ℕ) (xs : List ℕ) → has x (x ∷ xs) ≡ true
has-head x xs = ground arith

Rising-IsRising : (x : ℕ) (xs : List ℕ) → Rising x xs → IsRising xs
Rising-IsRising x [] h = tt
Rising-IsRising x (y ∷ ys) (lt, h) = h

same_head :
    (x y : ℕ) (xs ys : List ℕ)
    → Rising x xs
    → Rising y ys
    → has x (x ∷ xs) ≡ has x (y ∷ ys)
    → has y (x ∷ xs) ≡ has y (y ∷ ys)
    → x ≡ y
same_head x y xs ys hx hy ex ey =
    ground (arith, has-head x xs, has-head y ys, Rising-has y x ys hy, Rising-has x y xs hx)

same_tail :
    (x y : ℕ) (xs ys : List ℕ)
    → Rising x xs
    → Rising y ys
    → x ≡ y
    → ((r : ℕ) → has r (x ∷ xs) ≡ has r (y ∷ ys))
    → (r : ℕ) → has r xs ≡ has r ys
same_tail x y xs ys hx hy e h r = ground (arith, h r, Rising-has x r xs hx, Rising-has y r ys hy)

-- Two rising lists that hold the same ranks are equal.
pub IsRising-unique :
    (xs ys : List ℕ) → IsRising xs → IsRising ys → ((r : ℕ) → has r xs ≡ has r ys) → xs ≡ ys
IsRising-unique [] [] hx hy h = refl
IsRising-unique [] (y ∷ ys) hx hy h = cc (h y, has-head y ys)
IsRising-unique (x ∷ xs) [] hx hy h = cc (h x, has-head x xs)
IsRising-unique (x ∷ xs) (y ∷ ys) hx hy h =
    let heads : x ≡ y = same_head x y xs ys hx hy (h x) (h y) in
    cc (
      heads,
      IsRising-unique xs ys (Rising-IsRising x xs hx) (Rising-IsRising y ys hy)
          (same_tail x y xs ys hx hy heads h),
    )

has-insert_by : (r x : ℕ) (ys : List ℕ) → has r (insert_by itself x ys) ≡ (x == r || has r ys)
unfolding insert_by
has-insert_by r x [] = refl
has-insert_by r x (y ∷ ys) = ground (arith, has-insert_by r x ys)

has-sort_by : (r : ℕ) (xs : List ℕ) → has r (sort_by itself xs) ≡ has r xs
unfolding sort_by
has-sort_by r [] = refl
has-sort_by r (x ∷ xs) =
    has-insert_by r x (sort_by itself xs) ∙ ap (λ t. x == r || t) (has-sort_by r xs)

-- A list that does not fall, with its repeats dropped, rises.
has-compact_from :
    (r x : ℕ) (ys : List ℕ) → (x == r || has r (compact_from ◌==◌ x ys)) ≡ (x == r || has r ys)
unfolding compact_from
has-compact_from r x [] = refl
has-compact_from r x (y ∷ ys) = ground (arith, has-compact_from r y ys)

Rising-lower : (x y : ℕ) (ys : List ℕ) → x ≤ y → Rising y ys → Rising x ys
Rising-lower x y [] le h = tt
Rising-lower x y (z ∷ zs) le (lt, h) = (omega arith, h)

compact_from-Rising : (x : ℕ) (ys : List ℕ) → NotFalling x ys → Rising x (compact_from ◌==◌ x ys)
unfolding compact_from NotFalling
compact_from-Rising x [] h = tt
compact_from-Rising x (y ∷ ys) (le, h) = elim (Bool-cases (x == y)) [
  | inl same ↦ rw same (Rising-lower x y (compact_from ◌==◌ y ys) le (compact_from-Rising y ys h))
  | inr other ↦ rw other (ground arith, compact_from-Rising y ys h)
]

sorted_from-NotFalling : (x : ℕ) (ys : List ℕ) → sorted_from itself x ys ≡ true → NotFalling x ys
unfolding sorted_from NotFalling
sorted_from-NotFalling x [] h = tt
sorted_from-NotFalling x (y ∷ ys) h = (ground arith, sorted_from-NotFalling y ys (ground arith))

insert_by-NotFalling :
    (z x : ℕ) (ys : List ℕ) → z ≤ x → NotFalling z ys → NotFalling z (insert_by itself x ys)
unfolding insert_by NotFalling
insert_by-NotFalling z x [] le h = (le, tt)
insert_by-NotFalling z x (y ∷ ys) le (zy, h) = elim (Bool-cases (ltb y x)) [
  | inl later ↦ rw later (zy, insert_by-NotFalling y x ys (ground arith) h)
  | inr here ↦ rw here (le, (ground arith, h))
]

sort_by-NotFalling : (xs : List ℕ) → NotFalling 0 (sort_by itself xs)
unfolding sort_by
sort_by-NotFalling [] = unfold NotFalling in tt
sort_by-NotFalling (x ∷ xs) =
    insert_by-NotFalling 0 x (sort_by itself xs) (omega arith) (sort_by-NotFalling xs)

-- The two steps of `order` on ranks.
abbrev pub ordered : List ℕ → List ℕ
ordered xs = compact ◌==◌ (ensure_sorted itself xs)

has-compact : (r : ℕ) (xs : List ℕ) → has r (compact ◌==◌ xs) ≡ has r xs
unfolding compact
has-compact r [] = refl
has-compact r (x ∷ xs) = has-compact_from r x xs

compact-IsRising : (x : ℕ) (xs : List ℕ) → NotFalling x xs → IsRising (compact ◌==◌ xs)
unfolding compact NotFalling
compact-IsRising x [] h = tt
compact-IsRising x (y ∷ ys) (le, h) = compact_from-Rising y ys h

NotFalling-cons : (x : ℕ) (xs : List ℕ) → NotFalling x xs → NotFalling 0 (x ∷ xs)
unfolding NotFalling
NotFalling-cons x xs h = (omega arith, h)

ensure_sorted-NotFalling : (xs : List ℕ) → NotFalling 0 (ensure_sorted itself xs)
unfolding ensure_sorted
ensure_sorted-NotFalling [] = unfold NotFalling in tt
ensure_sorted-NotFalling (x ∷ xs) = elim (Bool-cases (sorted_from itself x xs)) [
  | inl sorted ↦ rw sorted (NotFalling-cons x xs (sorted_from-NotFalling x xs sorted))
  | inr unsorted ↦ rw unsorted (sort_by-NotFalling (x ∷ xs))
]

has-ensure_sorted : (r : ℕ) (xs : List ℕ) → has r (ensure_sorted itself xs) ≡ has r xs
unfolding ensure_sorted
has-ensure_sorted r [] = refl
has-ensure_sorted r (x ∷ xs) = elim (Bool-cases (sorted_from itself x xs)) [
  | inl sorted ↦ rw sorted
  | inr unsorted ↦ rw unsorted (has-sort_by r (x ∷ xs))
]

pub ordered-IsRising : (xs : List ℕ) → IsRising (ordered xs)
ordered-IsRising xs = compact-IsRising 0 (ensure_sorted itself xs) (ensure_sorted-NotFalling xs)

pub has-ordered : (r : ℕ) (xs : List ℕ) → has r (ordered xs) ≡ has r xs
has-ordered r xs = has-compact r (ensure_sorted itself xs) ∙ has-ensure_sorted r xs
