-- ===== src/Filter/Found.antt =====
-- The ranks that a search confirms, as a list beside the IDs that the source appends.
use tagstrak.Common.{
  ℕ, ◌≡◌, Bool, false, ◌&&◌, ◌||◌, List, [], ◌∷◌, ◌++◌, Bytes, ◌==◌, if◌then◌else◌, map,
  append_assoc, append-nil, refl, sym, ap, ◌∙◌, arith, Bool-cases, inl, inr,
}
use tagstrak.Filter.Subscription.{Subject, matches}
use tagstrak.Filter.Entry.{Entry, id_at, confirm, confirm_all}

abbrev pub has : ℕ → List ℕ → Bool
has r [] = false
has r (x ∷ xs) = x == r || has r xs

pub has-append : (r : ℕ) (xs ys : List ℕ) → has r (xs ++ ys) ≡ (has r xs || has r ys)
has-append r [] ys = refl
has-append r (x ∷ xs) ys = ground (arith, has-append r xs ys)

-- An entry that counts for a rank: it is the rank's, and its pattern matches.
abbrev pub hit : ℕ → Subject → Entry → Bool
hit r s e = e.rank == r && matches e.pattern s

abbrev pub found_one : Subject → Entry → List ℕ
found_one s e = if matches e.pattern s then e.rank ∷ [] else []

abbrev pub found_all : Subject → List Entry → List ℕ
found_all s [] = []
found_all s (e ∷ es) = found_one s e ++ found_all s es

abbrev pub any_hit : ℕ → Subject → List Entry → Bool
any_hit r s [] = false
any_hit r s (e ∷ es) = hit r s e || any_hit r s es

pub has-found_one : (r : ℕ) (s : Subject) (e : Entry) → has r (found_one s e) ≡ hit r s e
has-found_one r s e = ground arith

pub has-found_all :
    (r : ℕ) (s : Subject) (es : List Entry) → has r (found_all s es) ≡ any_hit r s es
has-found_all r s [] = refl
has-found_all r s (e ∷ es) = ground (
  arith,
  has-append r (found_one s e) (found_all s es),
  has-found_all r s es,
  has-found_one r s e,
)

pub any_hit-append :
    (r : ℕ) (s : Subject) (es fs : List Entry)
    → any_hit r s (es ++ fs) ≡ (any_hit r s es || any_hit r s fs)
any_hit-append r s [] fs = refl
any_hit-append r s (e ∷ es) fs = ground (arith, any_hit-append r s es fs)

-- IDs of ranks, behind what was there.
abbrev pub with_ids : List Bytes → List Bytes → List ℕ → List Bytes
with_ids ids dst ranks = dst ++ map (id_at ids) ranks

map_id-append :
    (ids : List Bytes) (xs ys : List ℕ)
    → map (id_at ids) (xs ++ ys) ≡ map (id_at ids) xs ++ map (id_at ids) ys
map_id-append ids [] ys = refl
map_id-append ids (x ∷ xs) ys = ap (λ t. id_at ids x ∷ t) (map_id-append ids xs ys)

pub with_ids-append :
    (ids dst : List Bytes) (xs ys : List ℕ)
    → with_ids ids (with_ids ids dst xs) ys ≡ with_ids ids dst (xs ++ ys)
with_ids-append ids dst xs ys =
    append_assoc dst (map (id_at ids) xs) (map (id_at ids) ys)
    ∙ ap (λ t. dst ++ t) (sym (map_id-append ids xs ys))

pub confirm-found :
    (ids : List Bytes) (s : Subject) (e : Entry) (dst : List Bytes)
    → confirm ids s e dst ≡ with_ids ids dst (found_one s e)
unfolding confirm
confirm-found ids s e dst = elim (Bool-cases (matches e.pattern s)) [
  | inl matched ↦ rw matched
  | inr other ↦ rw other (sym (append-nil dst))
]

confirm_all-cons :
    (ids : List Bytes) (s : Subject) (e : Entry) (es : List Entry) (dst : List Bytes)
    → confirm_all ids s (e ∷ es) dst ≡ confirm_all ids s es (confirm ids s e dst)
unfolding confirm_all
confirm_all-cons ids s e es dst = refl

pub confirm_all-found :
    (ids : List Bytes) (s : Subject) (es : List Entry) (dst : List Bytes)
    → confirm_all ids s es dst ≡ with_ids ids dst (found_all s es)
confirm_all-found ids s [] dst = unfold confirm_all in sym (append-nil dst)
confirm_all-found ids s (e ∷ es) dst =
    confirm_all-cons ids s e es dst
    ∙ confirm_all-found ids s es (confirm ids s e dst)
    ∙ ap (λ d. with_ids ids d (found_all s es)) (confirm-found ids s e dst)
    ∙ with_ids-append ids dst (found_one s e) (found_all s es)
