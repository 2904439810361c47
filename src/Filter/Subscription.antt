-- ===== src/Filter/Subscription.antt =====
-- Subscriptions, subjects, the reference rule and the checks shared by all matchers
-- (internal/filter/filter.go).
pub mod Laws
use tagstrak.Common.{
  ℕ, suc, Bool, true, false, ◌&&◌, ◌||◌, not, List, [], ◌∷◌, Bytes, length, Option, none, some,
  Result, ok, err, ltb, ◌==◌, if◌then◌else◌, ◌>>=◌, ◌>>◌, bytes_eq,
}
use tagstrak.Identity.Value.{Component, Value}
use tagstrak.Identity.Pattern.{
  Pattern, PatternLevel, BitPattern, unset_level, level_identity, level_encoding, bit_match,
  match_components, match_value, is_zero,
}

abbrev pub max_subscriptions : ℕ
max_subscriptions = 10000

abbrev pub max_patterns_per_subscription : ℕ
max_patterns_per_subscription = 64

pub data Error : Type 0 where
  empty_id duplicate_id no_patterns zero_pattern too_many_subscriptions too_many_patterns : Error

pub record Subscription : Type 0 where
  pub id : Bytes
  pub patterns : List Pattern

pub record Subject : Type 0 where
  pub identity : Value
  pub scheme : Bytes
  pub fields : List Component
  pub bits : Bytes
  pub bit_len : ℕ

-- `matches`, by the pattern's level and bit test
match_encoding : Pattern → Subject → Option BitPattern → Bool
match_encoding p s none = match_components p s.fields
match_encoding p s (some b) = bit_match b s.bits s.bit_len

match_level : Pattern → Subject → PatternLevel → Bool
unfolding match_encoding
match_level p s level_identity = match_value p s.identity
match_level p s level_encoding =
    if not (bytes_eq p.scheme s.scheme) then false else match_encoding p s p.bits
match_level p s unset_level = false

unfoldable pub matches : Pattern → Subject → Bool
unfolding match_level
matches p s = match_level p s p.level

-- Whether one of the patterns matches: the inner loop of the linear matcher, and the rule for a
-- subscription.
unfoldable pub any_match : List Pattern → Subject → Bool
any_match [] s = false
any_match (p ∷ ps) s = if matches p s then true else any_match ps s

-- The keys of the map `seen`
unfoldable pub has_id : Bytes → List Bytes → Bool
has_id id [] = false
has_id id (seen ∷ ids) = if bytes_eq seen id then true else has_id id ids

any_zero : List Pattern → Bool
any_zero [] = false
any_zero (p ∷ ps) = if is_zero p then true else any_zero ps

-- The loop of `validate`
check_subscription : Subscription → List Bytes → Result Error (Unit {0})
unfolding any_zero
check_subscription s seen =
    if length s.id == 0
    then err empty_id
    else if has_id s.id seen
    then err duplicate_id
    else if length s.patterns == 0
    then err no_patterns
    else if ltb max_patterns_per_subscription (length s.patterns)
    then err too_many_patterns
    else if any_zero s.patterns
    then err zero_pattern
    else ok tt

check_subscriptions : List Subscription → List Bytes → Result Error (Unit {0})
unfolding check_subscription
check_subscriptions [] seen = ok tt
check_subscriptions (s ∷ ss) seen = do
  check_subscription s seen
  check_subscriptions ss (s.id ∷ seen)

-- `validate`
unfoldable pub validate : List Subscription → Result Error (Unit {0})
unfolding check_subscriptions
validate subscriptions =
    if ltb max_subscriptions (length subscriptions)
    then err too_many_subscriptions
    else check_subscriptions subscriptions []
