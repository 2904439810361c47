-- ===== src/Filter/Linear/Ranks.antt =====
-- The ranks that the linear matcher (internal/filter/linear.go) reports.
use tagstrak.Common.{
  ℕ, zero, suc, ◌+◌, ◌<◌, ◌≡◌, refl, sym, ap, ◌∙◌, arith, true, ◌&&◌, List, [], ◌∷◌, ◌++◌,
  append_assoc, append-nil, Bytes, length, length-append, map, ◌==◌, if◌then◌else◌, Bool-cases, inl,
  inr,
}
use tagstrak.Identity.Pattern.{Pattern}
use tagstrak.Filter.Subscription.{Subscription, Subject, any_match}
use tagstrak.Filter.Entry.{id_at}
use tagstrak.Filter.Linear.{Linear, match_loop, match_linear}
use tagstrak.Filter.Ranks.Sorted.{Rising, IsRising}
use tagstrak.Filter.Found.{has, any_hit, any_hit-append, with_ids}
use tagstrak.Filter.Index.Compiled.{entries_for, entries_from, ids_of}

-- The ranks of the subscriptions that the linear matcher reports.
abbrev pub linear_ranks : ℕ → List Subscription → Subject → List ℕ
linear_ranks rank [] s = []
linear_ranks rank (x ∷ ss) s =
    if any_match x.patterns s
    then rank ∷ linear_ranks (rank + 1) ss s
    else linear_ranks (rank + 1) ss s

any_hit-entries_for :
    (r rank : ℕ) (ps : List Pattern) (s : Subject)
    → any_hit r s (entries_for rank ps) ≡ (rank == r && any_match ps s)
unfolding any_match
any_hit-entries_for r rank [] s = ground arith
any_hit-entries_for r rank (p ∷ ps) s = ground (arith, any_hit-entries_for r rank ps s)

pub has-linear_ranks :
    (r rank : ℕ) (ss : List Subscription) (s : Subject)
    → has r (linear_ranks rank ss s) ≡ any_hit r s (entries_from rank ss)
has-linear_ranks r rank [] s = refl
has-linear_ranks r rank (x ∷ ss) s = ground (
  arith,
  has-linear_ranks r (rank + 1) ss s,
  any_hit-append r s (entries_for rank x.patterns) (entries_from (rank + 1) ss),
  any_hit-entries_for r rank x.patterns s,
)

pub linear_ranks-lt :
    (r rank : ℕ) (ss : List Subscription) (s : Subject)
    → has r (linear_ranks rank ss s) ≡ true
    → r < rank + length ss
linear_ranks-lt r rank [] s h = absurd (ground arith)
linear_ranks-lt r rank (x ∷ ss) s h = elim (Bool-cases (has r (linear_ranks (rank + 1) ss s))) [
  | inl later ↦ omega (arith, linear_ranks-lt r (rank + 1) ss s later)
  | inr here ↦ ground arith
]

linear_ranks-Rising :
    (x rank : ℕ) (ss : List Subscription) (s : Subject)
    → x < rank
    → Rising x (linear_ranks rank ss s)
linear_ranks-Rising x rank [] s lt = tt
linear_ranks-Rising x rank (y ∷ ss) s lt = elim (Bool-cases (any_match y.patterns s)) [
  | inl matched ↦ rw matched (lt, linear_ranks-Rising rank (rank + 1) ss s (omega arith))
  | inr other ↦ rw other (linear_ranks-Rising x (rank + 1) ss s (omega arith))
]

pub linear_ranks-IsRising :
    (rank : ℕ) (ss : List Subscription) (s : Subject) → IsRising (linear_ranks rank ss s)
linear_ranks-IsRising rank [] s = tt
linear_ranks-IsRising rank (y ∷ ss) s = elim (Bool-cases (any_match y.patterns s)) [
  | inl matched ↦ rw matched (linear_ranks-Rising rank (rank + 1) ss s (omega arith))
  | inr other ↦ rw other (linear_ranks-IsRising (rank + 1) ss s)
]

id_at-append :
    (pre ids : List Bytes) (id : Bytes) (rank : ℕ)
    → length pre ≡ rank
    → id_at (pre ++ id ∷ ids) rank ≡ id
id_at-append [] ids id zero h = refl
id_at-append [] ids id (suc rank) h = absurd (omega arith)
id_at-append (x ∷ pre) ids id zero h = absurd (omega arith)
id_at-append (x ∷ pre) ids id (suc rank) h = id_at-append pre ids id rank (omega arith)

match_loop-cons :
    (x : Subscription) (ss : List Subscription) (s : Subject) (dst : List Bytes)
    → match_loop (x ∷ ss) s dst
      ≡ match_loop ss s (if any_match x.patterns s then dst ++ x.id ∷ [] else dst)
unfolding match_loop
match_loop-cons x ss s dst = refl

match_loop-ranks :
    (pre : List Bytes) (rank : ℕ) (ss : List Subscription) (s : Subject) (dst : List Bytes)
    → length pre ≡ rank
    → match_loop ss s dst ≡ with_ids (pre ++ ids_of ss) dst (linear_ranks rank ss s)
match_loop-ranks pre rank [] s dst h = unfold match_loop in sym (append-nil dst)
match_loop-ranks pre rank (x ∷ ss) s dst h =
    let pre' = pre ++ x.id ∷ [] in
    let ids = pre ++ x.id ∷ ids_of ss in
    let same : pre' ++ ids_of ss ≡ ids = append_assoc pre (x.id ∷ []) (ids_of ss) in
    let longer : length pre' ≡ rank + 1 = omega (arith, length-append pre (x.id ∷ [])) in
    let rest : (d : List Bytes)
        → match_loop ss s d ≡ with_ids ids d (linear_ranks (rank + 1) ss s) =
      λ d.
        match_loop-ranks pre' (rank + 1) ss s d longer
        ∙ ap (λ i. with_ids i d (linear_ranks (rank + 1) ss s)) same in
    match_loop-cons x ss s dst ∙ elim (Bool-cases (any_match x.patterns s)) [
      | inl matched ↦ rw matched (
          rest (dst ++ x.id ∷ [])
          ∙ ap (λ i. with_ids ids (dst ++ i ∷ []) (linear_ranks (rank + 1) ss s))
              (sym (id_at-append pre (ids_of ss) x.id rank h))
          ∙ append_assoc dst (id_at ids rank ∷ []) (map (id_at ids) (linear_ranks (rank + 1) ss s)))
      | inr other ↦ rw other (rest dst)
    ]

-- The linear matcher appends the IDs of those ranks.
pub match_linear-ranks :
    (m : Linear) (s : Subject) (dst : List Bytes)
    → match_linear m s dst
      ≡ with_ids (ids_of m.subscriptions) dst (linear_ranks 0 m.subscriptions s)
unfolding match_linear
match_linear-ranks m s dst = match_loop-ranks [] 0 m.subscriptions s dst refl
