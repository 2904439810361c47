-- ===== src/Filter/Index/Agrees.antt =====
-- The prefix index (internal/filter/index.go) gives the answers of the linear matcher
-- (internal/filter/linear.go), in the same order.
use tagstrak.Common.{
  ℕ, zero, suc, ◌+◌, ◌<◌, ◌≡◌, refl, sym, ap, ◌∙◌, arith, true, ◌||◌, List, [], ◌∷◌, Bytes, IsBytes,
  length, Result, ok, err, All, bytes_eq_iff, bytes_eq_refl, ◌>>◌, ok-injective,
}
use tagstrak.Filter.Subscription.{Subscription, Subject, Error, has_id, validate}
use tagstrak.Filter.Subscription.Laws.{IsDistinct, validate_iff}
use tagstrak.Filter.Entry.{id_at}
use tagstrak.Filter.Linear.{Linear, compile_linear, match_linear}
use tagstrak.Filter.Linear.Ranks.{
  linear_ranks, has-linear_ranks, linear_ranks-lt, linear_ranks-IsRising, match_linear-ranks,
}
use tagstrak.Filter.Ranks.{Ranks, rank_of, order}
use tagstrak.Filter.Ranks.Sorted.{IsRising-unique, ordered, ordered-IsRising, has-ordered}
use tagstrak.Filter.Ranks.Ids.{IsRanked, order-names}
use tagstrak.Filter.Found.{has, any_hit, with_ids}
use tagstrak.Filter.Index.{Index, empty_index, add_subscriptions, compile_index, match_index}
use tagstrak.Filter.Index.Found.{found, found-empty, collect-found}
use tagstrak.Filter.Index.Compiled.{
  HasBitPatterns, entries_from, ids_of, ranks_from, add_subscriptions-ids, add_subscriptions-ranks,
  has-add_subscriptions,
}

-- The rank of an ID that came before is kept.
ranks_from-seen :
    (rank : ℕ) (ss : List Subscription) (ranks : Ranks) (seen : List Bytes) (id : Bytes)
    → IsDistinct seen ss
    → has_id id seen ≡ true
    → rank_of (ranks_from rank ss ranks) id ≡ rank_of ranks id
ranks_from-seen rank [] ranks seen id h in_seen = refl
ranks_from-seen rank (s ∷ ss) ranks seen id (fresh, h) in_seen =
    ranks_from-seen (rank + 1) ss ((s.id, rank) ∷ ranks) (s.id ∷ seen) id h
      (unfold has_id in ground arith)
    ∙ (unfold rank_of in ground (arith, bytes_eq_iff s.id id))

-- The map of ranks inverts the list of IDs.
ranks_from-id :
    (rank : ℕ) (ss : List Subscription) (ranks : Ranks) (seen : List Bytes) (r : ℕ)
    → IsDistinct seen ss
    → r < length ss
    → rank_of (ranks_from rank ss ranks) (id_at (ids_of ss) r) ≡ rank + r
ranks_from-id rank [] ranks seen r h lt = absurd (omega arith)
ranks_from-id rank (s ∷ ss) ranks seen zero (fresh, h) lt =
    ranks_from-seen (rank + 1) ss ((s.id, rank) ∷ ranks) (s.id ∷ seen) s.id h
      (unfold has_id in ground (arith, bytes_eq_refl s.id))
    ∙ (unfold rank_of in ground (arith, bytes_eq_refl s.id))
ranks_from-id rank (s ∷ ss) ranks seen (suc r) (fresh, h) lt =
    ranks_from-id (rank + 1) ss ((s.id, rank) ∷ ranks) (s.id ∷ seen) r h (omega arith)
    ∙ (omega arith)

All-has : {P : ℕ → Type 0} (xs : List ℕ) → ((r : ℕ) → has r xs ≡ true → P r) → All P xs
All-has [] h = tt
All-has (x ∷ xs) h = (h x (ground arith), All-has xs (λ r e. h r (ground arith)))

then_ok :
    {A : Type 0} (r : Result Error (Unit {0})) (a b : A)
    → (r >> ok a) ≡ ok b
    → (r ≡ ok tt) × (a ≡ b)
then_ok (ok tt) a b h = (refl, ok-injective h)
then_ok (err e) a b h = cc

compile_linear-ok :
    (subs : List Subscription) (l : Linear)
    → compile_linear subs ≡ ok l
    → (validate subs ≡ ok tt) × (l.subscriptions ≡ subs)
unfolding compile_linear
compile_linear-ok subs l h =
    let (valid, same) = then_ok (validate subs) (record { subscriptions = subs }) l h in
    (valid, ap (λ (k : Linear). k.subscriptions) (sym same))

compile_index-ok :
    (subs : List Subscription) (m : Index)
    → compile_index subs ≡ ok m
    → m ≡ add_subscriptions empty_index 0 subs
unfolding compile_index
compile_index-ok subs m h =
    sym (then_ok (validate subs) (add_subscriptions empty_index 0 subs) m h).1

-- What a compiled index finds are the ranks that the linear matcher reports.
has-compiled :
    (subs : List Subscription) (s : Subject) (r : ℕ)
    → All HasBitPatterns subs
    → IsBytes s.bits
    → has r (found (add_subscriptions empty_index 0 subs) s) ≡ has r (linear_ranks 0 subs s)
has-compiled subs s r valid bytes =
    has-add_subscriptions r empty_index 0 subs s valid bytes
    ∙ ap (λ t. has r t || any_hit r s (entries_from 0 subs)) (found-empty s)
    ∙ sym (has-linear_ranks r 0 subs s)

match_index-compiled :
    (subs : List Subscription) (s : Subject) (dst : List Bytes)
    → All HasBitPatterns subs
    → IsBytes s.bits
    → IsDistinct [] subs
    → match_index (add_subscriptions empty_index 0 subs) s dst
      ≡ with_ids (ids_of subs) dst (linear_ranks 0 subs s)
unfolding match_index
match_index-compiled subs s dst valid bytes distinct =
    let m = add_subscriptions empty_index 0 subs in
    let ids : m.ids ≡ ids_of subs = add_subscriptions-ids empty_index 0 subs in
    let ranks : m.ranks ≡ ranks_from 0 subs [] = add_subscriptions-ranks empty_index 0 subs in
    let ranked : All (IsRanked (ids_of subs) (ranks_from 0 subs [])) (found m s) =
      All-has (found m s) λ r h.
        let reported = sym (has-compiled subs s r valid bytes) ∙ h in
        let lt : r < length subs = omega (arith, linear_ranks-lt r 0 subs s reported) in
        ranks_from-id 0 subs [] [] r distinct lt ∙ (omega arith) in
    let same : ordered (found m s) ≡ linear_ranks 0 subs s =
      IsRising-unique (ordered (found m s)) (linear_ranks 0 subs s) (ordered-IsRising (found m s))
        (linear_ranks-IsRising 0 subs s)
        (λ r. has-ordered r (found m s) ∙ has-compiled subs s r valid bytes) in
    ap (λ d. order m.ranks d (length dst)) (collect-found m s dst)
    ∙ ap (λ i. order m.ranks (with_ids i dst (found m s)) (length dst)) ids
    ∙ ap (λ k. order k (with_ids (ids_of subs) dst (found m s)) (length dst)) ranks
    ∙ order-names (ids_of subs) (ranks_from 0 subs []) dst (found m s) ranked
    ∙ ap (with_ids (ids_of subs) dst) same

-- An index and a linear matcher that are compiled from the same subscriptions, with bit tests such
-- as `NewBitPattern` makes, append the same IDs in the same order for every subject whose bits are
-- bytes.
pub match_index-match_linear :
    (subs : List Subscription) (m : Index) (l : Linear) (s : Subject) (dst : List Bytes)
    → compile_index subs ≡ ok m
    → compile_linear subs ≡ ok l
    → All HasBitPatterns subs
    → IsBytes s.bits
    → match_index m s dst ≡ match_linear l s dst
match_index-match_linear subs m l s dst hm hl valid bytes =
    let (valid_set, same) = compile_linear-ok subs l hl in
    let (few, (bounded, distinct)) = (validate_iff subs).0 valid_set in
    ap (λ i. match_index i s dst) (compile_index-ok subs m hm)
    ∙ match_index-compiled subs s dst valid bytes distinct
    ∙ ap (λ subs'. with_ids (ids_of subs') dst (linear_ranks 0 subs' s)) (sym same)
    ∙ sym (match_linear-ranks l s dst)
