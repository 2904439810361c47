-- ===== src/Identity/Pattern.antt =====
-- Compiled patterns (internal/identity/pattern.go): construction and the two ways to match.
pub mod Laws
use tagstrak.Common.{
  ℕ, zero, suc, ◌+◌, ◌/◌, Bool, true, false, ◌&&◌, ◌||◌, not, List, [], ◌∷◌, Bytes, length, Option,
  none, some, Result, ok, err, ltb, ◌==◌, if◌then◌else◌, ◌>>=◌, ◌>>◌, bytes_eq, parse_uint, bit_and,
}
use tagstrak.Identity.Names.{
  Authority, KeyType, ComponentName, same_authority, same_key, same_name, component_order,
}
use tagstrak.Identity.Value.{Component, Value}

-- `PatternLevel` and `FieldKind`; `unset_level` and `unset_kind` are the zero values.
pub data PatternLevel : Type 0 where
  unset_level level_identity level_encoding : PatternLevel

pub data FieldKind : Type 0 where
  unset_kind exact any range : FieldKind

pub record FieldPattern : Type 0 where
  pub name : ComponentName
  pub kind : FieldKind
  pub text : Bytes
  pub lo : ℕ
  pub hi : ℕ

pub record BitPattern : Type 0 where
  pub value : Bytes
  pub mask : Bytes
  pub bit_len : ℕ

pub data Error : Type 0 where
  pattern_level pattern_fields pattern_star : Error

-- `NewBitPattern`; a negative bit length, which is refused too, is not represented.
unfoldable pub new_bit_pattern : Bytes → Bytes → ℕ → Result Error BitPattern
new_bit_pattern value mask bit_len =
    if not (length value == length mask) || ltb (length value) ((bit_len + 7) / 8)
    then err pattern_fields
    else ok (record { value = value; mask = mask; bit_len = bit_len })

-- The loop of `BitPattern.Match` over the mask. A missing byte of the tag or of the value, where the
-- source would index out of range, is kept from it by the test before the loop and by the lengths
-- that `NewBitPattern` checks.
unfoldable pub masked_equal : Bytes → Bytes → Bytes → Bool
masked_equal [] bits value = true
masked_equal (m ∷ ms) (b ∷ bs) (v ∷ vs) =
    let rest = masked_equal ms bs vs in
    if m == 0 then rest else if not (bit_and b m == bit_and v m) then false else rest
masked_equal (m ∷ ms) [] value = false
masked_equal (m ∷ ms) (b ∷ bs) [] = false

-- `BitPattern.Match`
unfoldable pub bit_match : BitPattern → Bytes → ℕ → Bool
unfolding masked_equal
bit_match p bits bit_len =
    if ltb bit_len p.bit_len || ltb (length bits) (length p.mask)
    then false
    else masked_equal p.mask bits p.value

pub record Pattern : Type 0 where
  pub level : PatternLevel
  pub authority : Authority
  pub key_type : KeyType
  pub scheme : Bytes
  pub fields : List FieldPattern
  pub bits : Option BitPattern
  pub text : Bytes

-- The switch on the level in `NewPattern`.
check_level : PatternLevel → Bytes → Option BitPattern → Result Error (Unit {0})
check_level level_identity scheme none =
    if not (length scheme == 0) then err pattern_level else ok tt
check_level level_identity scheme (some b) = err pattern_level
check_level level_encoding scheme bits = if length scheme == 0 then err pattern_level else ok tt
check_level unset_level scheme bits = err pattern_level

-- The loop over the fields; the Boolean is `seenAny`.
check_field : FieldKind → ℕ → ℕ → Bool → Result Error Bool
check_field any lo hi seen_any = ok true
check_field exact lo hi seen_any = if seen_any then err pattern_star else ok false
check_field range lo hi seen_any =
    if seen_any then err pattern_star else if ltb hi lo then err pattern_fields else ok false
check_field unset_kind lo hi seen_any = err pattern_fields

check_fields : List FieldPattern → Bool → Result Error (Unit {0})
unfolding check_field
check_fields [] seen_any = ok tt
check_fields (f ∷ fs) seen_any = do
  seen ← check_field f.kind f.lo f.hi seen_any
  check_fields fs seen

check_names : List FieldPattern → List ComponentName → Bool
check_names (f ∷ fs) (n ∷ order) =
    let rest = check_names fs order in if not (same_name f.name n) then false else rest
check_names [] order = true
check_names (f ∷ fs) [] = true

abbrev order_or_empty : Option (List ComponentName) → List ComponentName
order_or_empty none = []
order_or_empty (some order) = order

-- The check of the canonical order, which only identity-level patterns have to meet.
check_order : PatternLevel → KeyType → List FieldPattern → Result Error (Unit {0})
unfolding check_names
check_order level_identity key_type fields =
    let order = order_or_empty (component_order key_type) in
    if not (length order == length fields)
    then err pattern_fields
    else if check_names fields order
    then ok tt
    else err pattern_fields
check_order _ key_type fields = ok tt

-- `NewPattern`
unfoldable pub new_pattern :
    PatternLevel
    → Authority
    → KeyType
    → Bytes
    → List FieldPattern
    → Option BitPattern
    → Bytes
    → Result Error Pattern
unfolding check_level check_fields check_order
new_pattern level authority key_type scheme fields bits text = do
  check_level level scheme bits
  (if length fields == 0 then err pattern_fields else ok tt)
  check_fields fields false
  check_order level key_type fields
  ok (record {
    level = level;
    authority = authority;
    key_type = key_type;
    scheme = scheme;
    fields = fields;
    bits = bits;
    text = text;
  })

-- How one field constrains a component's value.
abbrev in_range : ℕ → ℕ → Option ℕ → Bool
in_range lo hi none = false
in_range lo hi (some n) = if ltb n lo || ltb hi n then false else true

unfoldable pub match_field : FieldPattern → Bytes → FieldKind → Bool
match_field f value any = true
match_field f value exact = bytes_eq value f.text
match_field f value range = in_range f.lo f.hi (parse_uint value)
match_field f value unset_kind = false

-- The loop of `matchComponents`, on lists of one length
unfoldable pub match_fields : List FieldPattern → List Component → Bool
unfolding match_field
match_fields [] components = true
match_fields (f ∷ fs) [] = false
match_fields (f ∷ fs) (c ∷ cs) =
    let rest = match_fields fs cs in
    if not (same_name c.name f.name)
    then false
    else if match_field f c.value f.kind
    then rest
    else false

-- `MatchComponents`
unfoldable pub match_components : Pattern → List Component → Bool
unfolding match_fields
match_components p components =
    if not (length components == length p.fields) then false else match_fields p.fields components

abbrev is_identity : PatternLevel → Bool
is_identity level_identity = true
is_identity _ = false

-- `MatchValue`
unfoldable pub match_value : Pattern → Value → Bool
unfolding match_components
match_value p v =
    if not (is_identity p.level)
      || not (same_authority p.authority v.authority)
      || not (same_key p.key_type v.key_type)
    then false
    else match_components p v.components

-- `Pattern.IsZero`
abbrev is_unset : PatternLevel → Bool
is_unset unset_level = true
is_unset _ = false

unfoldable pub is_zero : Pattern → Bool
is_zero p = is_unset p.level
