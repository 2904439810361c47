-- ===== src/Filter/Tests.antt =====
-- The theorems on subscriptions and matchers at concrete subscriptions and tags.
use tagstrak.Common.{
  ◌≤◌, ◌≡◌, ◌↔◌, refl, arith, ◌||◌, List, [], ◌∷◌, IsBytes, length, none, some, ok, All, subst,
  bytes_eq,
}
use tagstrak.Filter.Adaptive.{Matcher, Controller, Adaptive, decide, match_adaptive, pick_shadow}
use tagstrak.Filter.Adaptive.Decide.{IsEarned, decide_switched, pick_shadow_lem}
use tagstrak.Filter.Adaptive.Agrees.{IsAdaptive, match_adaptive_agrees}
use tagstrak.Filter.Adaptive.Compile.{
  Candidate, AdaptiveConfig, compile_adaptive, compile_adaptive-IsAdaptive,
}
use tagstrak.Common.{◌>>=◌, ◌&&◌, leb, ◌<◌, ℕ, Bool, true, false, ◌≢◌}
use tagstrak.Identity.Names.{gs1, sscc, gs1_company_prefix, serial_reference}
use tagstrak.Identity.Pattern.{
  level_identity, level_encoding, exact, any, BitPattern, Pattern, new_bit_pattern, is_zero,
  match_value, bit_match,
}
use tagstrak.Filter.Subscription.{
  Subscription, Subject, has_id, matches, validate, max_subscriptions,
}
use tagstrak.Filter.Subscription.Laws.{IsBounded, IsDistinct, validate_iff}
use tagstrak.Filter.Entry.{Entry}
use tagstrak.Filter.Found.{has, hit}
use tagstrak.Filter.Linear.{compile_linear, match_linear}
use tagstrak.Filter.BitTrie.Prefix.{IsBitPattern, new_bit_pattern_ok}
use tagstrak.Filter.FieldTrie
use tagstrak.Filter.FieldTrie.{exact_prefix, add_fields}
use tagstrak.Filter.BitTrie.{add_bits, leading_ones, bit_entry}
use tagstrak.Filter.Index.{
  Index, update_root, empty_index, add, add_subscriptions, compile_index, match_index,
}
use tagstrak.Filter.Index.Found.{found}
use tagstrak.Filter.Index.Added.{has-add}
use tagstrak.Filter.Index.Compiled.{HasBitPatterns}
use tagstrak.Filter.Index.Agrees.{match_index-match_linear}

-- A test of the first four bits, one of a company prefix, and a tag that passes both.
abbrev header_bits : BitPattern
header_bits = record { value = 48 ∷ []; mask = 240 ∷ []; bit_len = 4 }

abbrev header_pattern : Pattern
header_pattern = record {
  level = level_encoding;
  authority = gs1;
  key_type = sscc;
  scheme = b's' ∷ [];
  fields = record { name = serial_reference; kind = any; text = []; lo = 0; hi = 0 } ∷ [];
  bits = some header_bits;
  text = [];
}

abbrev prefix_pattern : Pattern
prefix_pattern = record {
  level = level_identity;
  authority = gs1;
  key_type = sscc;
  scheme = [];
  fields =
      record { name = gs1_company_prefix; kind = exact; text = b'1' ∷ []; lo = 0; hi = 0 }
      ∷ record { name = serial_reference; kind = any; text = []; lo = 0; hi = 0 }
      ∷ [];
  bits = none;
  text = [];
}

abbrev two_subscriptions : List Subscription
two_subscriptions =
    record { id = b'p' ∷ []; patterns = prefix_pattern ∷ [] }
    ∷ record { id = b'h' ∷ []; patterns = header_pattern ∷ prefix_pattern ∷ [] }
    ∷ []

abbrev tag : Subject
tag = record {
  identity = record {
    authority = gs1;
    key_type = sscc;
    components =
        record { name = gs1_company_prefix; value = b'1' ∷ [] }
        ∷ record { name = serial_reference; value = b'7' ∷ [] }
        ∷ [];
  };
  scheme = b's' ∷ [];
  fields = [];
  bits = 49 ∷ [];
  bit_len = 8;
}

tag-IsBytes : IsBytes tag.bits
tag-IsBytes = (omega arith, tt)

header_bits-new : new_bit_pattern (48 ∷ []) (240 ∷ []) 4 ≡ ok header_bits
unfolding new_bit_pattern
header_bits-new = refl

header_bits-IsBitPattern : IsBitPattern header_bits
header_bits-IsBitPattern =
    (new_bit_pattern_ok (48 ∷ []) (240 ∷ []) 4 (omega arith, tt) (omega arith, tt)
      header_bits-new).0

header_entry-valid : (b : BitPattern) → header_pattern.bits ≡ some b → IsBitPattern b
header_entry-valid b e =
    let same : header_bits ≡ b = cc in subst IsBitPattern same header_bits-IsBitPattern

two_subscriptions-HasBitPatterns : All HasBitPatterns two_subscriptions
two_subscriptions-HasBitPatterns = ((λ b e. cc, tt), ((header_entry-valid, (λ b e. cc, tt)), tt))

abbrev compiled_index : Index
compiled_index = add_subscriptions empty_index 0 two_subscriptions

index-compiled : compile_index two_subscriptions ≡ ok compiled_index
unfolding compile_index has_id is_zero bytes_eq
index-compiled = refl

linear-compiled :
    compile_linear two_subscriptions ≡ ok (record { subscriptions = two_subscriptions })
unfolding compile_linear has_id is_zero bytes_eq
linear-compiled = refl

match_index-match_linear_example :
    match_index compiled_index tag ((b'o' ∷ []) ∷ [])
    ≡ match_linear (record { subscriptions = two_subscriptions }) tag ((b'o' ∷ []) ∷ [])
match_index-match_linear_example =
    match_index-match_linear two_subscriptions compiled_index
      (record { subscriptions = two_subscriptions }) tag ((b'o' ∷ []) ∷ []) index-compiled
      linear-compiled two_subscriptions-HasBitPatterns tag-IsBytes

-- Both subscriptions match, the second one by two patterns, and each is told once.
two-matched : match_index compiled_index tag [] ≡ (b'p' ∷ []) ∷ (b'h' ∷ []) ∷ []
unfolding match_index add_subscriptions exact_prefix update_root add_fields FieldTrie.update_kid
    bytes_eq matches match_value add_bits leading_ones bit_entry bit_match
two-matched = refl

validate_iff_example : (validate two_subscriptions ≡ ok tt) ↔ (
    (length two_subscriptions ≤ max_subscriptions)
    × (All IsBounded two_subscriptions × IsDistinct [] two_subscriptions))
validate_iff_example = validate_iff two_subscriptions

abbrev header_entry : Entry
header_entry = record { rank = 4; pattern = header_pattern }

has-add_example :
    has 4 (found (add empty_index header_entry) tag)
    ≡ (has 4 (found empty_index tag) || hit 4 tag header_entry)
has-add_example = has-add 4 empty_index header_entry tag header_entry-valid tag-IsBytes

-- An adaptive matcher over the linear matcher and the index, at a call that is sampled.
abbrev both : List Matcher
both = match_linear (record { subscriptions = two_subscriptions }) ∷ match_index compiled_index ∷ []

linear-matched :
    match_linear (record { subscriptions = two_subscriptions }) tag []
    ≡ (b'p' ∷ []) ∷ (b'h' ∷ []) ∷ []
unfolding match_linear matches match_value bytes_eq bit_match
linear-matched = refl

abbrev measured : Controller
measured = record {
  warmup = 1;
  cooldown = 0;
  window = 2;
  selected = 0;
  switches = 0;
  since_switch = 5;
  counts = 1 ∷ 1 ∷ [];
  rings = (10 ∷ []) ∷ (3 ∷ []) ∷ [];
  next = 0 ∷ 0 ∷ [];
}

abbrev switched : Controller
switched = record measured { selected = 1; switches = 1; since_switch = 0 }

-- No hysteresis: what is not cheaper is too dear.
not_cheaper : ℕ → ℕ → Bool
not_cheaper cost selected = leb selected cost

measured-decides : decide not_cheaper measured ≡ (switched, (1, true))
unfolding decide not_cheaper
measured-decides = refl

decide_switched_example :
    IsEarned not_cheaper measured 1
    × (switched ≡ record measured { selected = 1; switches = 1; since_switch = 0 })
decide_switched_example = decide_switched not_cheaper measured measured-decides

abbrev adaptive : Adaptive
adaptive = record {
  matchers = both;
  every = 10;
  full = false;
  selected = 0;
  calls = 9;
  ctl = measured;
  next_shadow = 0;
  scratch = [];
  sampled = 0;
  skipped = 0;
  shadow_time = 0;
  ticks = 0;
}

adaptive-IsAdaptive : IsAdaptive both 0 adaptive
adaptive-IsAdaptive = record {
  matchers = refl;
  mirrors = refl;
  controls = record {
    selects = refl;
    there = omega arith;
    counted = refl;
    rings = (omega arith, (omega arith, tt));
  };
}

each_tick : ℕ → ℕ
each_tick n = n

always : ℕ → ℕ → ℕ → Bool
always shadow_time mean calls = true

match_adaptive_agrees_example :
    ((match_adaptive each_tick not_cheaper always adaptive tag []).0
      ≡ (b'p' ∷ []) ∷ (b'h' ∷ []) ∷ [])
    × ((next : ℕ) × IsAdaptive both next
          (match_adaptive each_tick not_cheaper always adaptive tag []).1)
match_adaptive_agrees_example =
    match_adaptive_agrees each_tick not_cheaper always both 0 adaptive tag [] adaptive-IsAdaptive
      (linear-matched, (two-matched, tt))

pick_shadow_lem_example : (pick_shadow 3 1 2 < 3) × (pick_shadow 3 1 2 ≢ 2)
pick_shadow_lem_example = pick_shadow_lem 3 1 2 (omega arith) (omega arith)

-- A configuration of the linear matcher and the index, with its fractions in percent.
abbrev linear_candidate : Candidate
linear_candidate = record {
  name = b'l' ∷ [];
  compile = some (λ subs. compile_linear subs >>= λ m. ok (match_linear m));
}

abbrev index_candidate : Candidate
index_candidate = record {
  name = b'i' ∷ [];
  compile = some (λ subs. compile_index subs >>= λ m. ok (match_index m));
}

abbrev percents : AdaptiveConfig ℕ
percents = record {
  candidates = linear_candidate ∷ index_candidate ∷ [];
  sample_every = 100;
  warmup = 20;
  window = 50;
  hysteresis = 10;
  cooldown = 500;
  overhead_budget = 5;
  full_shadow = false;
  experimental = false;
}

below_whole : ℕ → Bool
below_whole n = leb n 99

some_part : ℕ → Bool
some_part n = leb 1 n && leb n 100

abbrev compiled_adaptive : Adaptive
compiled_adaptive = record {
  matchers = both;
  every = 100;
  full = false;
  selected = 0;
  calls = 0;
  ctl = record {
    warmup = 20;
    cooldown = 500;
    window = 50;
    selected = 0;
    switches = 0;
    since_switch = 0;
    counts = 0 ∷ 0 ∷ [];
    rings = [] ∷ [] ∷ [];
    next = 0 ∷ 0 ∷ [];
  };
  next_shadow = 0;
  scratch = [];
  sampled = 0;
  skipped = 0;
  shadow_time = 0;
  ticks = 0;
}

adaptive-compiled :
    compile_adaptive below_whole some_part two_subscriptions percents ≡ ok compiled_adaptive
unfolding compile_adaptive compile_index compile_linear has_id is_zero bytes_eq below_whole
    some_part
adaptive-compiled = refl

compile_adaptive-IsAdaptive_example :
    IsAdaptive compiled_adaptive.matchers 0 compiled_adaptive
    × (length compiled_adaptive.matchers ≡ length percents.candidates)
    × (2 ≤ length compiled_adaptive.matchers)
    × (length compiled_adaptive.matchers ≤ 4)
compile_adaptive-IsAdaptive_example =
    compile_adaptive-IsAdaptive below_whole some_part two_subscriptions percents adaptive-compiled
