-- ===== src/Filter/Index.antt =====
-- The prefix index (internal/filter/index.go). What Go updates through pointers and maps is built
-- anew here: a trie is a tree, and a map an association list.
pub mod Found
pub mod Added
pub mod Compiled
pub mod Agrees
use tagstrak.Common.{
  ℕ, zero, suc, ◌+◌, Bool, true, false, ◌&&◌, List, [], ◌∷◌, ◌++◌, Bytes, length, Option, none,
  some, Result, ok, if◌then◌else◌, ◌>>=◌, ◌>>◌, bytes_eq,
}
use tagstrak.Identity.Names.{Authority, KeyType, same_authority, same_key}
use tagstrak.Identity.Pattern.{
  Pattern, PatternLevel, BitPattern, unset_level, level_identity, level_encoding,
}
use tagstrak.Filter.Subscription.{Subscription, Subject, Error, validate}
use tagstrak.Filter.Entry.{Entry, confirm_all}
use tagstrak.Filter.BitTrie.{BitNode, add_bits, leading_ones, bit_entry, walk_bits}
use tagstrak.Filter.FieldTrie.{FieldNode, add_fields, exact_prefix, walk_fields}
use tagstrak.Filter.BitTrie
use tagstrak.Filter.FieldTrie
use tagstrak.Filter.Ranks.{Ranks, order}
use tagstrak.Common.{◌/◌, take}

-- `domain`
pub record Domain : Type 0 where
  pub authority : Authority
  pub key_type : KeyType

abbrev pub same_domain : Domain → Domain → Bool
same_domain a b = same_authority a.authority b.authority && same_key a.key_type b.key_type

module _ {K V : Type 0} (same : K → K → Bool) where
  -- A look-up in one of the maps of roots
  unfoldable pub root_at : K → List (K × V) → Option V
  root_at k [] = none
  root_at k ((j, v) ∷ roots) = if same j k then some v else root_at k roots

  -- The root under a key, made if there is none, with what is then written through its pointer
  unfoldable pub update_root : K → V → (V → V) → List (K × V) → List (K × V)
  update_root k fresh f [] = (k, f fresh) ∷ []
  update_root k fresh f ((j, v) ∷ roots) =
      let later = (j, v) ∷ update_root k fresh f roots in
      if same j k then (j, f v) ∷ roots else later

pub record Index : Type 0 where
  pub ids : List Bytes
  pub ranks : Ranks
  pub bit_roots : List (Bytes × BitNode)
  pub id_roots : List (Domain × FieldNode)
  pub enc_roots : List (Bytes × FieldNode)
  pub residual : List Entry

-- The branch of `add` for an encoding pattern with a bit test
add_bit_pattern : Index → Entry → BitPattern → Index
add_bit_pattern m e b =
    let n = leading_ones 0 b.mask in
    record m {
      bit_roots =
          update_root bytes_eq e.pattern.scheme BitTrie.empty_node
            (add_bits (take (n / 8) b.value) (bit_entry e n b.value)) m.bit_roots;
    }

-- The rest of `add`, on what `exactPrefix` found
add_to_roots : Index → Entry → PatternLevel → List Bytes → Index
add_to_roots m e level_identity texts = record m {
  id_roots =
      update_root same_domain
        (record { authority = e.pattern.authority; key_type = e.pattern.key_type })
        FieldTrie.empty_node (add_fields texts e) m.id_roots;
}
add_to_roots m e _ texts = record m {
  enc_roots =
      update_root bytes_eq e.pattern.scheme FieldTrie.empty_node (add_fields texts e) m.enc_roots;
}

add_field_pattern : Index → Entry → Option (List Bytes) → Index
unfolding add_to_roots
add_field_pattern m e none = record m { residual = m.residual ++ e ∷ [] }
add_field_pattern m e (some texts) = add_to_roots m e e.pattern.level texts

-- `index.add`, by the level and the bit test
add_by : Index → Entry → PatternLevel → Option BitPattern → Index
unfolding add_bit_pattern add_field_pattern
add_by m e level_encoding (some b) = add_bit_pattern m e b
add_by m e _ _ = add_field_pattern m e (exact_prefix e.pattern.fields)

unfoldable pub add : Index → Entry → Index
unfolding add_by
add m e = add_by m e e.pattern.level e.pattern.bits

-- The loops of `compileIndex`: over the patterns of a subscription, and over the subscriptions.
unfoldable pub add_patterns : Index → ℕ → List Pattern → Index
unfolding add
add_patterns m rank [] = m
add_patterns m rank (p ∷ ps) = add_patterns (add m (record { rank = rank; pattern = p })) rank ps

unfoldable pub add_subscriptions : Index → ℕ → List Subscription → Index
unfolding add_patterns
add_subscriptions m rank [] = m
add_subscriptions m rank (s ∷ ss) =
    let m' = record m { ids = m.ids ++ s.id ∷ []; ranks = (s.id, rank) ∷ m.ranks } in
    add_subscriptions (add_patterns m' rank s.patterns) (rank + 1) ss

abbrev pub empty_index : Index
empty_index = record {
  ids = [];
  ranks = [];
  bit_roots = [];
  id_roots = [];
  enc_roots = [];
  residual = [];
}

-- `compileIndex`
unfoldable pub compile_index : List Subscription → Result Error Index
unfolding add_subscriptions validate update_root add_bits leading_ones bit_entry add_fields
    exact_prefix BitTrie.update_kid FieldTrie.update_kid
compile_index subscriptions = do
  validate subscriptions
  ok (add_subscriptions empty_index 0 subscriptions)

-- The three look-ups of `Match`, where there is a root
abbrev walk_bit_root : List Bytes → Subject → Option BitNode → List Bytes → List Bytes
walk_bit_root ids s none dst = dst
walk_bit_root ids s (some n) dst = walk_bits ids s n s.bits dst

abbrev walk_enc_root : List Bytes → Subject → Option FieldNode → List Bytes → List Bytes
walk_enc_root ids s none dst = dst
walk_enc_root ids s (some n) dst = walk_fields ids s n s.fields dst

abbrev walk_id_root : List Bytes → Subject → Option FieldNode → List Bytes → List Bytes
walk_id_root ids s none dst = dst
walk_id_root ids s (some n) dst = walk_fields ids s n s.identity.components dst

abbrev pub domain_of : Subject → Domain
domain_of s = record { authority = s.identity.authority; key_type = s.identity.key_type }

-- `index.Match` up to the final ordering
unfoldable pub collect : Index → Subject → List Bytes → List Bytes
unfolding root_at walk_bits walk_fields confirm_all
collect m s dst =
    let a = walk_bit_root m.ids s (root_at bytes_eq s.scheme m.bit_roots) dst in
    let b = walk_enc_root m.ids s (root_at bytes_eq s.scheme m.enc_roots) a in
    let c = walk_id_root m.ids s (root_at same_domain (domain_of s) m.id_roots) b in
    confirm_all m.ids s m.residual c

-- `index.Match`
unfoldable pub match_index : Index → Subject → List Bytes → List Bytes
unfolding collect order
match_index m s dst = order m.ranks (collect m s dst) (length dst)
