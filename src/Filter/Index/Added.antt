-- ===== src/Filter/Index/Added.antt =====
-- An entry that is added to an index is found exactly where it matches, and nothing else changes.
use tagstrak.Common.{
  ℕ, ◌/◌, ◌%◌, ◌≡◌, ◌↔◌, refl, ap, ◌∙◌, arith, Bool, true, ◌&&◌, ◌||◌, List, [], ◌∷◌, ◌++◌, Bytes,
  IsBytes, Option, none, some, ◌==◌, Bool-cases, inl, inr, bytes_eq, bytes_eq_iff, take,
}
use tagstrak.Identity.Value.{Component}
use tagstrak.Identity.Pattern.{
  PatternLevel, BitPattern, unset_level, level_identity, level_encoding,
}
use tagstrak.Filter.Subscription.{Subject, matches}
use tagstrak.Filter.Entry.{Entry}
use tagstrak.Filter.Found.{has, hit, any_hit-append}
use tagstrak.Filter.BitTrie
use tagstrak.Filter.BitTrie.{BitNode, BitEntry, add_bits, leading_ones, bit_entry}
use tagstrak.Filter.BitTrie.Lookup.{found_bits, has-add_bits, found_bits-empty, reach}
use tagstrak.Filter.BitTrie.Prefix.{IsBitPattern, reach-bit_match}
use tagstrak.Filter.FieldTrie
use tagstrak.Filter.FieldTrie.{FieldNode, add_fields, exact_prefix}
use tagstrak.Filter.FieldTrie.Lookup.{
  found_fields, has-add_fields, found_fields-empty, reach as reach_fields,
}
use tagstrak.Filter.FieldTrie.Prefix.{reach-match_fields}
use tagstrak.Filter.Index.{
  Index, Domain, same_domain, domain_of, root_at, update_root, add_bit_pattern, add_to_roots,
  add_field_pattern, add_by, add,
}
use tagstrak.Filter.Index.Found.{
  root_or, root_at-update_root, same_domain_iff, found_bit_root, found_field_root, bit_part,
  enc_part, id_part, found, has-found, matches-bits, matches-fields, matches-identity,
  matches-unset,
}

-- What the code relies on of an entry: a bit test is one that `NewBitPattern` makes.
abbrev pub IsEntry : Entry → Type 0
IsEntry e = (b : BitPattern) → e.pattern.bits ≡ some b → IsBitPattern b

bit_root-or :
    (r : ℕ) (s : Subject) (o : Option BitNode)
    → has r (found_bits s (root_or bytes_eq bytes_eq_iff BitTrie.empty_node o) s.bits)
      ≡ has r (found_bit_root s o)
bit_root-or r s none = ap (has r) (found_bits-empty s s.bits)
bit_root-or r s (some n) = refl

-- An update of a root of the byte tries.
has-bit_root :
    (r : ℕ) (s : Subject) (scheme path : Bytes) (e : BitEntry) (roots : List (Bytes × BitNode))
    → has r (
        found_bit_root s (
          root_at bytes_eq s.scheme
            (update_root bytes_eq scheme BitTrie.empty_node (add_bits path e) roots)))
      ≡ (has r (found_bit_root s (root_at bytes_eq s.scheme roots))
          || (bytes_eq scheme s.scheme && (reach path e s.bits && hit r s e.entry)))
has-bit_root r s scheme path e roots =
    let o = root_at bytes_eq s.scheme roots in
    let old = root_or bytes_eq bytes_eq_iff BitTrie.empty_node o in
    elim (Bool-cases (bytes_eq scheme s.scheme)) [
      | inl same ↦
          rw
            (
              root_at-update_root bytes_eq bytes_eq_iff s.scheme scheme BitTrie.empty_node
                  (add_bits path e) roots,
              same,
            )
            (has-add_bits r s path e old s.bits
              ∙ ap (λ t. t || (reach path e s.bits && hit r s e.entry)) (bit_root-or r s o))
      | inr other ↦
          rw
            (
              root_at-update_root bytes_eq bytes_eq_iff s.scheme scheme BitTrie.empty_node
                  (add_bits path e) roots,
              other,
            )
            (ground arith)
    ]

module _ {K : Type 0} (same : K → K → Bool)
    (same_iff : (a b : K) → (same a b ≡ true) ↔ (a ≡ b)) where
  field_root-or :
      (r : ℕ) (s : Subject) (cs : List Component) (o : Option FieldNode)
      → has r (found_fields s (root_or same same_iff FieldTrie.empty_node o) cs)
        ≡ has r (found_field_root s cs o)
  field_root-or r s cs none = ap (has r) (found_fields-empty s cs)
  field_root-or r s cs (some n) = refl

  -- An update of a root of the tries over field values.
  has-field_root :
      (r : ℕ) (s : Subject) (cs : List Component) (k j : K) (path : List Bytes) (e : Entry)
      (roots : List (K × FieldNode))
      → has r (
          found_field_root s cs
            (root_at same k (update_root same j FieldTrie.empty_node (add_fields path e) roots)))
        ≡ (has r (found_field_root s cs (root_at same k roots))
            || (same j k && (reach_fields path cs && hit r s e)))
  has-field_root r s cs k j path e roots =
      let o = root_at same k roots in
      let old = root_or same same_iff FieldTrie.empty_node o in
      elim (Bool-cases (same j k)) [
        | inl here ↦
            rw
              (
                root_at-update_root same same_iff k j FieldTrie.empty_node (add_fields path e)
                    roots,
                here,
              )
              (has-add_fields r s path e old cs
                ∙ ap (λ t. t || (reach_fields path cs && hit r s e)) (field_root-or r s cs o))
        | inr other ↦
            rw
              (
                root_at-update_root same same_iff k j FieldTrie.empty_node (add_fields path e)
                    roots,
                other,
              )
              (ground arith)
      ]

-- Where a match passes two tests, they prune nothing from a hit.
hit-pruned :
    (r : ℕ) (s : Subject) (e : Entry) (a b : Bool)
    → (matches e.pattern s ≡ true → (a ≡ true) × (b ≡ true))
    → (a && (b && hit r s e)) ≡ hit r s e
hit-pruned r s e a b h = elim (Bool-cases (matches e.pattern s)) [
  | inl matched ↦ let (p, q) = h matched in rw (p, q) refl
  | inr other ↦ rw other (ground arith)
]

entry-bit_entry : (e : Entry) (n : ℕ) (value : Bytes) → (bit_entry e n value).entry ≡ e
unfolding bit_entry
entry-bit_entry e n value = elim (Bool-cases (n % 8 == 0)) [
  | inl whole ↦ rw whole
  | inr part ↦ rw part
]

-- The branches of `add`.
has-add_bit_pattern :
    (r : ℕ) (m : Index) (e : Entry) (b : BitPattern) (s : Subject)
    → IsBitPattern b
    → IsBytes s.bits
    → e.pattern.level ≡ level_encoding
    → e.pattern.bits ≡ some b
    → has r (found (add_bit_pattern m e b) s) ≡ (has r (found m s) || hit r s e)
unfolding add_bit_pattern
has-add_bit_pattern r m e b s valid bytes level bits =
    let n = leading_ones 0 b.mask in
    let path = take (n / 8) b.value in
    let be = bit_entry e n b.value in
    let added : has r (bit_part (add_bit_pattern m e b) s) ≡ (has r (bit_part m s) || hit r s e) =
      has-bit_root r s e.pattern.scheme path be m.bit_roots
      ∙ ap
          (λ x.
            has r (bit_part m s)
            || (bytes_eq e.pattern.scheme s.scheme && (reach path be s.bits && hit r s x)))
          (entry-bit_entry e n b.value)
      ∙ (ap (λ t. has r (bit_part m s) || t)
          (hit-pruned r s e (bytes_eq e.pattern.scheme s.scheme) (reach path be s.bits) λ matched.
            let (scheme, passes) = matches-bits e.pattern s level bits matched in
            (scheme, reach-bit_match b e s.bits s.bit_len valid bytes passes))) in
    ground (arith, has-found r (add_bit_pattern m e b) s, has-found r m s, added)

has-add_to_enc_roots :
    (r : ℕ) (m : Index) (e : Entry) (s : Subject) (texts : List Bytes)
    → (matches e.pattern s ≡ true
        → (bytes_eq e.pattern.scheme s.scheme ≡ true) × (reach_fields texts s.fields ≡ true))
    → has r (
        found
          (record m {
            enc_roots =
                update_root bytes_eq e.pattern.scheme FieldTrie.empty_node
                  (add_fields texts e)
                  m.enc_roots;
          })
          s)
      ≡ (has r (found m s) || hit r s e)
has-add_to_enc_roots r m e s texts h =
    let m' : Index = record m {
      enc_roots =
          update_root bytes_eq e.pattern.scheme FieldTrie.empty_node (add_fields texts e)
            m.enc_roots;
    } in
    let added : has r (enc_part m' s) ≡ (has r (enc_part m s) || hit r s e) =
      has-field_root bytes_eq bytes_eq_iff r s s.fields s.scheme e.pattern.scheme texts e
        m.enc_roots
      ∙ ap (λ t. has r (enc_part m s) || t)
          (hit-pruned r s e (bytes_eq e.pattern.scheme s.scheme) (reach_fields texts s.fields) h) in
    ground (arith, has-found r m' s, has-found r m s, added)

has-add_to_id_roots :
    (r : ℕ) (m : Index) (e : Entry) (s : Subject) (texts : List Bytes)
    → e.pattern.level ≡ level_identity
    → exact_prefix e.pattern.fields ≡ some texts
    → has r (found (add_to_roots m e level_identity texts) s) ≡ (has r (found m s) || hit r s e)
unfolding add_to_roots
has-add_to_id_roots r m e s texts level prefix =
    let key : Domain = record { authority = e.pattern.authority; key_type = e.pattern.key_type } in
    let cs = s.identity.components in
    let added : has r (id_part (add_to_roots m e level_identity texts) s)
        ≡ (has r (id_part m s) || hit r s e) =
      has-field_root same_domain same_domain_iff r s cs (domain_of s) key texts e m.id_roots
      ∙ ap (λ t. has r (id_part m s) || t)
          (hit-pruned r s e (same_domain key (domain_of s)) (reach_fields texts cs) λ matched.
            let (domain, fields) = matches-identity e.pattern s level matched in
            (domain, reach-match_fields e.pattern.fields cs prefix fields)) in
    ground (arith, has-found r (add_to_roots m e level_identity texts) s, has-found r m s, added)

has-add_residual :
    (r : ℕ) (m : Index) (e : Entry) (s : Subject)
    → has r (found (record m { residual = m.residual ++ e ∷ [] }) s)
      ≡ (has r (found m s) || hit r s e)
has-add_residual r m e s =
    let m' : Index = record m { residual = m.residual ++ e ∷ [] } in
    ground (arith, has-found r m' s, has-found r m s, any_hit-append r s m.residual (e ∷ []))

has-add_to_roots :
    (r : ℕ) (m : Index) (e : Entry) (s : Subject) (texts : List Bytes) (level : PatternLevel)
    → exact_prefix e.pattern.fields ≡ some texts
    → e.pattern.level ≡ level
    → (level ≡ level_encoding → e.pattern.bits ≡ none)
    → has r (found (add_to_roots m e level texts) s) ≡ (has r (found m s) || hit r s e)
unfolding add_to_roots
has-add_to_roots r m e s texts level_identity prefix k no_bits =
    has-add_to_id_roots r m e s texts k prefix
has-add_to_roots r m e s texts level_encoding prefix k no_bits =
    has-add_to_enc_roots r m e s texts λ matched.
      let (scheme, fields) = matches-fields e.pattern s k (no_bits refl) matched in
      (scheme, reach-match_fields e.pattern.fields s.fields prefix fields)
has-add_to_roots r m e s texts unset_level prefix k no_bits =
    has-add_to_enc_roots r m e s texts (λ matched. cc (matched, matches-unset e.pattern s k))

has-add_field_pattern :
    (r : ℕ) (m : Index) (e : Entry) (s : Subject) (o : Option (List Bytes))
    → exact_prefix e.pattern.fields ≡ o
    → (e.pattern.level ≡ level_encoding → e.pattern.bits ≡ none)
    → has r (found (add_field_pattern m e o) s) ≡ (has r (found m s) || hit r s e)
unfolding add_field_pattern
has-add_field_pattern r m e s none prefix no_bits = has-add_residual r m e s
has-add_field_pattern r m e s (some texts) prefix no_bits =
    has-add_to_roots r m e s texts e.pattern.level prefix refl no_bits

has-add_by :
    (r : ℕ) (m : Index) (e : Entry) (s : Subject) (level : PatternLevel) (bits : Option BitPattern)
    → IsEntry e
    → IsBytes s.bits
    → e.pattern.level ≡ level
    → e.pattern.bits ≡ bits
    → has r (found (add_by m e level bits) s) ≡ (has r (found m s) || hit r s e)
unfolding add_by
has-add_by r m e s level_encoding (some b) valid bytes k h =
    has-add_bit_pattern r m e b s (valid b h) bytes k h
has-add_by r m e s level_encoding none valid bytes k h =
    has-add_field_pattern r m e s (exact_prefix e.pattern.fields) refl (λ l. h)
has-add_by r m e s level_identity bits valid bytes k h =
    has-add_field_pattern r m e s (exact_prefix e.pattern.fields) refl (λ l. cc)
has-add_by r m e s unset_level bits valid bytes k h =
    has-add_field_pattern r m e s (exact_prefix e.pattern.fields) refl (λ l. cc)

-- An added entry is found where its pattern matches, by the reference rule, and all else as before.
pub has-add :
    (r : ℕ) (m : Index) (e : Entry) (s : Subject)
    → IsEntry e
    → IsBytes s.bits
    → has r (found (add m e) s) ≡ (has r (found m s) || hit r s e)
unfolding add
has-add r m e s valid bytes =
    has-add_by r m e s e.pattern.level e.pattern.bits valid bytes refl refl
