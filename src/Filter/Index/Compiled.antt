-- ===== src/Filter/Index/Compiled.antt =====
-- What `compileIndex` (internal/filter/index.go) builds: the entries of all patterns, the IDs by
-- rank, and the ranks by ID.
use tagstrak.Common.{
  ℕ, ◌+◌, ◌≡◌, refl, sym, ap, ◌∙◌, arith, ◌||◌, List, [], ◌∷◌, ◌++◌, append_assoc, append-nil,
  Bytes, IsBytes, map, Option, none, some, All,
}
use tagstrak.Identity.Pattern.{
  Pattern, PatternLevel, BitPattern, unset_level, level_identity, level_encoding,
}
use tagstrak.Filter.Subscription.{Subscription, Subject}
use tagstrak.Filter.Entry.{Entry}
use tagstrak.Filter.BitTrie.Prefix.{IsBitPattern}
use tagstrak.Filter.FieldTrie.{exact_prefix}
use tagstrak.Filter.Ranks.{Ranks}
use tagstrak.Filter.Found.{has, any_hit, any_hit-append}
use tagstrak.Filter.Index.{
  Index, add_to_roots, add_field_pattern, add_bit_pattern, add_by, add, add_patterns,
  add_subscriptions,
}
use tagstrak.Filter.Index.Found.{found, found-names}
use tagstrak.Filter.Index.Added.{has-add}

-- The bit test of a pattern, if it has one, is such as `NewBitPattern` makes.
abbrev pub HasBitPattern : Pattern → Type 0
HasBitPattern p = (b : BitPattern) → p.bits ≡ some b → IsBitPattern b

abbrev pub HasBitPatterns : Subscription → Type 0
HasBitPatterns s = All HasBitPattern s.patterns

abbrev pub entries_for : ℕ → List Pattern → List Entry
entries_for rank [] = []
entries_for rank (p ∷ ps) = record { rank = rank; pattern = p } ∷ entries_for rank ps

abbrev pub entries_from : ℕ → List Subscription → List Entry
entries_from rank [] = []
entries_from rank (s ∷ ss) = entries_for rank s.patterns ++ entries_from (rank + 1) ss

abbrev pub ids_of : List Subscription → List Bytes
ids_of = map (λ (s : Subscription). s.id)

abbrev pub ranks_from : ℕ → List Subscription → Ranks → Ranks
ranks_from rank [] ranks = ranks
ranks_from rank (s ∷ ss) ranks = ranks_from (rank + 1) ss ((s.id, rank) ∷ ranks)

-- `add` touches neither the IDs nor the ranks.
abbrev SameNames : Index → Index → Type 0
SameNames m n = (m.ids ≡ n.ids) × (m.ranks ≡ n.ranks)

add_to_roots-SameNames :
    (m : Index) (e : Entry) (level : PatternLevel) (texts : List Bytes)
    → SameNames (add_to_roots m e level texts) m
unfolding add_to_roots
add_to_roots-SameNames m e unset_level texts = (refl, refl)
add_to_roots-SameNames m e level_identity texts = (refl, refl)
add_to_roots-SameNames m e level_encoding texts = (refl, refl)

add_field_pattern-SameNames :
    (m : Index) (e : Entry) (o : Option (List Bytes)) → SameNames (add_field_pattern m e o) m
unfolding add_field_pattern
add_field_pattern-SameNames m e none = (refl, refl)
add_field_pattern-SameNames m e (some texts) = add_to_roots-SameNames m e e.pattern.level texts

add_by-SameNames :
    (m : Index) (e : Entry) (level : PatternLevel) (bits : Option BitPattern)
    → SameNames (add_by m e level bits) m
unfolding add_by add_bit_pattern
add_by-SameNames m e level_encoding (some b) = (refl, refl)
add_by-SameNames m e level_encoding none =
    add_field_pattern-SameNames m e (exact_prefix e.pattern.fields)
add_by-SameNames m e level_identity bits =
    add_field_pattern-SameNames m e (exact_prefix e.pattern.fields)
add_by-SameNames m e unset_level bits =
    add_field_pattern-SameNames m e (exact_prefix e.pattern.fields)

add_patterns-SameNames :
    (m : Index) (rank : ℕ) (ps : List Pattern) → SameNames (add_patterns m rank ps) m
unfolding add_patterns add
add_patterns-SameNames m rank [] = (refl, refl)
add_patterns-SameNames m rank (p ∷ ps) =
    let e : Entry = record { rank = rank; pattern = p } in
    let (ids, ranks) = add_patterns-SameNames (add m e) rank ps in
    let (ids', ranks') = add_by-SameNames m e p.level p.bits in (ids ∙ ids', ranks ∙ ranks')

-- The index that the patterns of a subscription are added to.
abbrev named : Index → ℕ → Subscription → Index
named m rank s = record m { ids = m.ids ++ s.id ∷ []; ranks = (s.id, rank) ∷ m.ranks }

add_subscriptions-cons :
    (m : Index) (rank : ℕ) (s : Subscription) (ss : List Subscription)
    → add_subscriptions m rank (s ∷ ss)
      ≡ add_subscriptions (add_patterns (named m rank s) rank s.patterns) (rank + 1) ss
unfolding add_subscriptions
add_subscriptions-cons m rank s ss = refl

pub add_subscriptions-ids :
    (m : Index) (rank : ℕ) (ss : List Subscription)
    → (add_subscriptions m rank ss).ids ≡ m.ids ++ ids_of ss
add_subscriptions-ids m rank [] = unfold add_subscriptions in sym (append-nil m.ids)
add_subscriptions-ids m rank (s ∷ ss) =
    let next = add_patterns (named m rank s) rank s.patterns in
    let (ids, ranks) = add_patterns-SameNames (named m rank s) rank s.patterns in
    ap (λ (n : Index). n.ids) (add_subscriptions-cons m rank s ss)
    ∙ add_subscriptions-ids next (rank + 1) ss
    ∙ ap (λ t. t ++ ids_of ss) ids
    ∙ append_assoc m.ids (s.id ∷ []) (ids_of ss)

pub add_subscriptions-ranks :
    (m : Index) (rank : ℕ) (ss : List Subscription)
    → (add_subscriptions m rank ss).ranks ≡ ranks_from rank ss m.ranks
add_subscriptions-ranks m rank [] = unfold add_subscriptions in refl
add_subscriptions-ranks m rank (s ∷ ss) =
    let next = add_patterns (named m rank s) rank s.patterns in
    let (ids, ranks) = add_patterns-SameNames (named m rank s) rank s.patterns in
    ap (λ (n : Index). n.ranks) (add_subscriptions-cons m rank s ss)
    ∙ add_subscriptions-ranks next (rank + 1) ss
    ∙ ap (ranks_from (rank + 1) ss) ranks

-- What an index finds after the patterns of a subscription, and after all subscriptions, are added.
has-add_patterns :
    (r : ℕ) (m : Index) (rank : ℕ) (ps : List Pattern) (s : Subject)
    → All HasBitPattern ps
    → IsBytes s.bits
    → has r (found (add_patterns m rank ps) s)
      ≡ (has r (found m s) || any_hit r s (entries_for rank ps))
unfolding add_patterns
has-add_patterns r m rank [] s h bytes = ground arith
has-add_patterns r m rank (p ∷ ps) s (hp, h) bytes =
    let e : Entry = record { rank = rank; pattern = p } in
    ground (arith, has-add_patterns r (add m e) rank ps s h bytes, has-add r m e s hp bytes)

pub has-add_subscriptions :
    (r : ℕ) (m : Index) (rank : ℕ) (ss : List Subscription) (s : Subject)
    → All HasBitPatterns ss
    → IsBytes s.bits
    → has r (found (add_subscriptions m rank ss) s)
      ≡ (has r (found m s) || any_hit r s (entries_from rank ss))
has-add_subscriptions r m rank [] s h bytes = unfold add_subscriptions in ground arith
has-add_subscriptions r m rank (x ∷ ss) s (hx, h) bytes =
    let m' = named m rank x in
    let next = add_patterns m' rank x.patterns in
    let step = ap (λ n. has r (found n s)) (add_subscriptions-cons m rank x ss) in
    let same = ap (has r) (found-names m (m.ids ++ x.id ∷ []) ((x.id, rank) ∷ m.ranks) s) in
    ground (
      arith,
      step,
      same,
      has-add_subscriptions r next (rank + 1) ss s h bytes,
      has-add_patterns r m' rank x.patterns s hx bytes,
      any_hit-append r s (entries_for rank x.patterns) (entries_from (rank + 1) ss),
    )
