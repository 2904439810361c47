-- ===== src/Filter/Index/Found.antt =====
-- What an index finds is what its entries hit: an added entry is found exactly where it matches.
use tagstrak.Common.{
  ℕ, ◌≡◌, ◌↔◌, refl, sym, ap, ◌∙◌, arith, Bool, true, false, ◌||◌, List, [], ◌∷◌, ◌++◌, Bytes,
  Option, none, some, if◌then◌else◌, append-nil, bytes_eq,
}
use tagstrak.Identity.Names.{authority_code, key_code, authority_code-injective, key_code-injective}
use tagstrak.Identity.Value.{Component}
use tagstrak.Identity.Pattern.{
  Pattern, BitPattern, unset_level, level_identity, level_encoding, match_fields, match_components,
  match_value, bit_match,
}
use tagstrak.Filter.Subscription.{Subject, matches}
use tagstrak.Filter.Entry.{confirm_all}
use tagstrak.Filter.Found.{
  has, has-append, found_all, any_hit, has-found_all, with_ids, with_ids-append, confirm_all-found,
}
use tagstrak.Filter.BitTrie.{BitNode}
use tagstrak.Filter.BitTrie.Lookup.{found_bits, walk_bits-found}
use tagstrak.Filter.FieldTrie.{FieldNode}
use tagstrak.Filter.FieldTrie.Lookup.{found_fields, walk_fields-found}
use tagstrak.Filter.Ranks.{Ranks}
use tagstrak.Filter.Index.{
  Index, empty_index, Domain, same_domain, domain_of, root_at, update_root, walk_bit_root,
  walk_enc_root, walk_id_root, collect,
}

-- A root after an update: the updated one under its key, and any other as before.
module _ {K V : Type 0} (same : K → K → Bool)
    (same_iff : (a b : K) → (same a b ≡ true) ↔ (a ≡ b)) where
  abbrev pub root_or : V → Option V → V
  root_or fresh none = fresh
  root_or fresh (some v) = v

  pub root_at-update_root :
      (k j : K) (fresh : V) (f : V → V) (roots : List (K × V))
      → root_at same k (update_root same j fresh f roots) ≡ (
          if same j k
          then some (f (root_or fresh (root_at same k roots)))
          else root_at same k roots)
  unfolding root_at update_root
  root_at-update_root k j fresh f [] = ground arith
  root_at-update_root k j fresh f ((i, v) ∷ roots) =
      ground
        (arith, root_at-update_root k j fresh f roots, same_iff i j, same_iff i k, same_iff j k)

pub same_domain_iff : (a b : Domain) → (same_domain a b ≡ true) ↔ (a ≡ b)
same_domain_iff a b = (
  λ h.
      let authorities : authority_code a.authority ≡ authority_code b.authority = ground arith in
      let keys : key_code a.key_type ≡ key_code b.key_type = ground arith in
      cc (
        authority_code-injective a.authority b.authority authorities,
        key_code-injective a.key_type b.key_type keys,
      ),
  λ h. rw h (ground arith),
)

-- What the three look-ups and the residual scan find.
abbrev pub found_bit_root : Subject → Option BitNode → List ℕ
found_bit_root s none = []
found_bit_root s (some n) = found_bits s n s.bits

abbrev pub found_field_root : Subject → List Component → Option FieldNode → List ℕ
found_field_root s cs none = []
found_field_root s cs (some n) = found_fields s n cs

abbrev pub bit_part : Index → Subject → List ℕ
bit_part m s = found_bit_root s (root_at bytes_eq s.scheme m.bit_roots)

abbrev pub enc_part : Index → Subject → List ℕ
enc_part m s = found_field_root s s.fields (root_at bytes_eq s.scheme m.enc_roots)

abbrev pub id_part : Index → Subject → List ℕ
id_part m s =
    found_field_root s s.identity.components (root_at same_domain (domain_of s) m.id_roots)

pub found : Index → Subject → List ℕ
found m s = bit_part m s ++ enc_part m s ++ id_part m s ++ found_all s m.residual

bit_root-found :
    (ids : List Bytes) (s : Subject) (o : Option BitNode) (dst : List Bytes)
    → walk_bit_root ids s o dst ≡ with_ids ids dst (found_bit_root s o)
bit_root-found ids s none dst = sym (append-nil dst)
bit_root-found ids s (some n) dst = walk_bits-found ids s n s.bits dst

enc_root-found :
    (ids : List Bytes) (s : Subject) (o : Option FieldNode) (dst : List Bytes)
    → walk_enc_root ids s o dst ≡ with_ids ids dst (found_field_root s s.fields o)
enc_root-found ids s none dst = sym (append-nil dst)
enc_root-found ids s (some n) dst = walk_fields-found ids s n s.fields dst

id_root-found :
    (ids : List Bytes) (s : Subject) (o : Option FieldNode) (dst : List Bytes)
    → walk_id_root ids s o dst ≡ with_ids ids dst (found_field_root s s.identity.components o)
id_root-found ids s none dst = sym (append-nil dst)
id_root-found ids s (some n) dst = walk_fields-found ids s n s.identity.components dst

pub collect-found :
    (m : Index) (s : Subject) (dst : List Bytes) → collect m s dst ≡ with_ids m.ids dst (found m s)
unfolding collect found
collect-found m s dst =
    let bit_root = root_at bytes_eq s.scheme m.bit_roots in
    let enc_root = root_at bytes_eq s.scheme m.enc_roots in
    let id_root = root_at same_domain (domain_of s) m.id_roots in
    let a = with_ids m.ids dst (bit_part m s) in
    let b = with_ids m.ids dst (bit_part m s ++ enc_part m s) in
    let c = with_ids m.ids dst (bit_part m s ++ enc_part m s ++ id_part m s) in
    ap
      (λ d.
        confirm_all m.ids s m.residual
          (walk_id_root m.ids s id_root (walk_enc_root m.ids s enc_root d)))
      (bit_root-found m.ids s bit_root dst)
    ∙ ap (λ d. confirm_all m.ids s m.residual (walk_id_root m.ids s id_root d))
        (enc_root-found m.ids s enc_root a
          ∙ with_ids-append m.ids dst (bit_part m s) (enc_part m s))
    ∙ ap (confirm_all m.ids s m.residual) (
        id_root-found m.ids s id_root b
        ∙ with_ids-append m.ids dst (bit_part m s ++ enc_part m s) (id_part m s))
    ∙ confirm_all-found m.ids s m.residual c
    ∙ with_ids-append m.ids dst (bit_part m s ++ enc_part m s ++ id_part m s)
        (found_all s m.residual)

-- The IDs and the ranks have no part in what is found.
pub found-names :
    (m : Index) (ids : List Bytes) (ranks : Ranks) (s : Subject)
    → found (record m { ids = ids; ranks = ranks }) s ≡ found m s
unfolding found
found-names m ids ranks s = refl

pub has-found :
    (r : ℕ) (m : Index) (s : Subject)
    → has r (found m s) ≡ (
        ((has r (bit_part m s) || has r (enc_part m s)) || has r (id_part m s))
        || any_hit r s m.residual)
unfolding found
has-found r m s =
    has-append r (bit_part m s ++ enc_part m s ++ id_part m s) (found_all s m.residual)
    ∙ ap (λ t. t || has r (found_all s m.residual))
        (has-append r (bit_part m s ++ enc_part m s) (id_part m s))
    ∙ ap (λ t. (t || has r (id_part m s)) || has r (found_all s m.residual))
        (has-append r (bit_part m s) (enc_part m s))
    ∙ ap (λ t. ((has r (bit_part m s) || has r (enc_part m s)) || has r (id_part m s)) || t)
        (has-found_all r s m.residual)

pub found-empty : (s : Subject) → found empty_index s ≡ []
unfolding found root_at
found-empty s = refl

-- The reference rule, by level and bit test.
pub matches-bits :
    (p : Pattern) (s : Subject) {b : BitPattern}
    → p.level ≡ level_encoding
    → p.bits ≡ some b
    → matches p s ≡ true
    → (bytes_eq p.scheme s.scheme ≡ true) × (bit_match b s.bits s.bit_len ≡ true)
unfolding matches
matches-bits p s level bits h = ground arith

pub matches-fields :
    (p : Pattern) (s : Subject)
    → p.level ≡ level_encoding
    → p.bits ≡ none
    → matches p s ≡ true
    → (bytes_eq p.scheme s.scheme ≡ true) × (match_fields p.fields s.fields ≡ true)
unfolding matches match_components
matches-fields p s level bits h = ground arith

pub matches-identity :
    (p : Pattern) (s : Subject)
    → p.level ≡ level_identity
    → matches p s ≡ true
    → (same_domain (record { authority = p.authority; key_type = p.key_type }) (domain_of s) ≡ true)
      × (match_fields p.fields s.identity.components ≡ true)
unfolding matches match_value match_components
matches-identity p s level h = ground arith

pub matches-unset : (p : Pattern) (s : Subject) → p.level ≡ unset_level → matches p s ≡ false
unfolding matches
matches-unset p s level = ground arith
