-- ===== src/Identity/Pattern/Laws.antt =====
-- Which patterns `NewPattern` (internal/identity/pattern.go) builds.
use tagstrak.Common.{
  ℕ, ◌≤◌, ◌<◌, ◌≡◌, ◌⊎◌, refl, ap, sym, ◌∙◌, arith, Bool, true, false, List, [], ◌∷◌, length, map,
  Option, none, some, Bytes, Result, ok, err, ok-injective, Bool-cases, inl, inr, All, ltb, ◌==◌,
  if◌then◌else◌, ◌>>=◌, ◌>>◌,
}
use tagstrak.Identity.Names.{
  Authority, KeyType, ComponentName, name_code, name_code-injective, component_order,
}
use tagstrak.Identity.Pattern.{
  PatternLevel, unset_level, level_identity, level_encoding, FieldKind, unset_kind, exact, any,
  range, FieldPattern, BitPattern, Pattern, Error, check_level, check_field, check_fields,
  check_names, check_order, pattern_fields, new_pattern, order_or_empty,
}

-- A field that constrains its component: by a text, or by a range that is not empty.
abbrev pub IsConstraint : FieldPattern → Type 0
IsConstraint f = (f.kind ≡ exact) ⊎ ((f.kind ≡ range) × (f.lo ≤ f.hi))

-- Constraints, and behind them only stars.
pub data IsFields : List FieldPattern → Type 0 where
  stars : {fs : List FieldPattern} → All (λ f. f.kind ≡ any) fs → IsFields fs
  constraint :
      {f : FieldPattern} {fs : List FieldPattern} → IsConstraint f → IsFields fs → IsFields (f ∷ fs)

abbrev pub field_names : List FieldPattern → List ComponentName
field_names = map (λ (f : FieldPattern). f.name)

-- What a level asks of the rest: at the identity level the key type's canonical order, no scheme
-- and no bit test; at the encoding level a scheme.
abbrev pub IsAtLevel :
    PatternLevel → KeyType → Bytes → List FieldPattern → Option BitPattern → Type 0
IsAtLevel level_identity k scheme fields bits =
    (scheme ≡ []) × (bits ≡ none) × (component_order k ≡ some (field_names fields))
IsAtLevel level_encoding k scheme fields bits = 0 < length scheme
IsAtLevel unset_level k scheme fields bits = ⊥

check_fields-cons :
    (f : FieldPattern) (fs : List FieldPattern) (seen : Bool)
    → check_fields (f ∷ fs) seen ≡ (check_field f.kind f.lo f.hi seen >>= λ s. check_fields fs s)
unfolding check_fields
check_fields-cons f fs seen = refl

check_field_star :
    (kind : FieldKind) (lo hi : ℕ) {s : Bool}
    → check_field kind lo hi true ≡ ok s
    → (kind ≡ any) × (s ≡ true)
unfolding check_field
check_field_star any lo hi e = (refl, sym (ok-injective e))
check_field_star exact lo hi e = cc
check_field_star range lo hi e = cc
check_field_star unset_kind lo hi e = cc

check_field_open :
    (kind : FieldKind) (lo hi : ℕ) {s : Bool}
    → check_field kind lo hi false ≡ ok s
    → ((kind ≡ any) × (s ≡ true)) ⊎ (((kind ≡ exact) ⊎ ((kind ≡ range) × (lo ≤ hi))) × (s ≡ false))
unfolding check_field
check_field_open any lo hi e = inl (refl, sym (ok-injective e))
check_field_open exact lo hi e = inr (inl refl, sym (ok-injective e))
check_field_open range lo hi e = elim (Bool-cases (ltb hi lo)) [
  | inl empty ↦ cc (rw empty at e)
  | inr fine ↦ inr (inr (refl, ground arith), sym (ok-injective (rw fine at e)))
]
check_field_open unset_kind lo hi e = cc

then_rest :
    {A B : Type 0} (r : Result Error A) (f : A → Result Error B) {b : B}
    → (r >>= f) ≡ ok b
    → (a : A) × (r ≡ ok a) × (f a ≡ ok b)
then_rest (ok a) f e = (a, refl, e)
then_rest (err x) f e = cc

check_fields_stars :
    (fs : List FieldPattern) → check_fields fs true ≡ ok tt → All (λ f. f.kind ≡ any) fs
check_fields_stars [] e = tt
check_fields_stars (f ∷ fs) e =
    let (s, first, rest) = then_rest _ _ (sym (check_fields-cons f fs true) ∙ e) in
    let (star, seen) = check_field_star f.kind f.lo f.hi first in
    (star, check_fields_stars fs (ap (check_fields fs) (sym seen) ∙ rest))

check_fields-IsFields : (fs : List FieldPattern) → check_fields fs false ≡ ok tt → IsFields fs
check_fields-IsFields [] e = stars tt
check_fields-IsFields (f ∷ fs) e =
    let (s, first, rest) = then_rest _ _ (sym (check_fields-cons f fs false) ∙ e) in
    elim (check_field_open f.kind f.lo f.hi first) [
      | inl (star, seen) ↦
          stars (star, check_fields_stars fs (ap (check_fields fs) (sym seen) ∙ rest))
      | inr (fine, unseen) ↦
          constraint fine (check_fields-IsFields fs (ap (check_fields fs) (sym unseen) ∙ rest))
    ]

check_names_ok :
    (fs : List FieldPattern) (order : List ComponentName)
    → length order ≡ length fs
    → check_names fs order ≡ true
    → field_names fs ≡ order
unfolding check_names
check_names_ok [] [] h e = refl
check_names_ok [] (n ∷ order) h e = absurd (omega arith)
check_names_ok (f ∷ fs) [] h e = absurd (omega arith)
check_names_ok (f ∷ fs) (n ∷ order) h e =
    let first : name_code f.name ≡ name_code n = ground arith in
    let others : check_names fs order ≡ true = ground arith in
    cc (name_code-injective f.name n first, check_names_ok fs order (omega arith) others)

canonical :
    (o : Option (List ComponentName)) (fs : List FieldPattern)
    → 0 < length fs
    → length (order_or_empty o) ≡ length fs
    → field_names fs ≡ order_or_empty o
    → o ≡ some (field_names fs)
canonical none fs some_field h e = absurd (omega arith)
canonical (some order) fs some_field h e = ap some (sym e)

check_order_identity :
    (k : KeyType) (fs : List FieldPattern)
    → 0 < length fs
    → check_order level_identity k fs ≡ ok tt
    → component_order k ≡ some (field_names fs)
unfolding check_order
check_order_identity k fs some_field e =
    let lengths : length (order_or_empty (component_order k)) ≡ length fs = ground arith in
    let names : check_names fs (order_or_empty (component_order k)) ≡ true = ground arith in
    canonical (component_order k) fs some_field lengths (check_names_ok fs _ lengths names)

nil_of_length : (xs : Bytes) → length xs ≡ 0 → xs ≡ []
nil_of_length [] h = refl
nil_of_length (x ∷ xs) h = absurd (omega arith)

checked-IsAtLevel :
    (level : PatternLevel) (k : KeyType) (scheme : Bytes) (fs : List FieldPattern)
    (bits : Option BitPattern)
    → 0 < length fs
    → check_level level scheme bits ≡ ok tt
    → check_order level k fs ≡ ok tt
    → IsAtLevel level k scheme fs bits
unfolding check_level
checked-IsAtLevel level_identity k scheme fs none some_field e h =
    (nil_of_length scheme (ground arith), refl, check_order_identity k fs some_field h)
checked-IsAtLevel level_identity k scheme fs (some b) some_field e h = cc
checked-IsAtLevel level_encoding k scheme fs bits some_field e h = ground arith
checked-IsAtLevel unset_level k scheme fs bits some_field e h = cc

both_ok :
    {B : Type 0} (r : Result Error (Unit {0})) (s : Result Error B) {b : B}
    → (r >> s) ≡ ok b
    → (r ≡ ok tt) × (s ≡ ok b)
both_ok (ok tt) s e = (refl, e)
both_ok (err x) s e = cc

-- A pattern that `NewPattern` builds holds its arguments as given and is well formed: its level is
-- set and has what it asks of the key type, the scheme, the fields' names and the bit test; it has a
-- field; and its fields are constraints, each range not empty, with nothing but stars behind them.
pub new_pattern_ok :
    (level : PatternLevel) (a : Authority) (k : KeyType) (scheme : Bytes) (fs : List FieldPattern)
    (bits : Option BitPattern) (text : Bytes) {p : Pattern}
    → new_pattern level a k scheme fs bits text ≡ ok p
    → (p ≡ record {
      level = level;
      authority = a;
      key_type = k;
      scheme = scheme;
      fields = fs;
      bits = bits;
      text = text;
    })
      × (0 < length fs)
      × IsFields fs
      × IsAtLevel level k scheme fs bits
unfolding new_pattern
new_pattern_ok level a k scheme fs bits text e =
    let built : Result Error Pattern = ok (record {
      level = level;
      authority = a;
      key_type = k;
      scheme = scheme;
      fields = fs;
      bits = bits;
      text = text;
    }) in
    let ordered = check_order level k fs >> built in
    let laid_out = check_fields fs false >> ordered in
    let counted : Result Error (Unit {0}) = if length fs == 0 then err pattern_fields else ok tt in
    let (at_level, e1) = both_ok (check_level level scheme bits) (counted >> laid_out) e in
    let (some_field, e2) = both_ok counted laid_out e1 in
    let (fields, e3) = both_ok (check_fields fs false) ordered e2 in
    let (order, e4) = both_ok (check_order level k fs) built e3 in
    let not_empty : 0 < length fs = ground (arith, some_field) in
    (
      sym (ok-injective e4),
      not_empty,
      check_fields-IsFields fs fields,
      checked-IsAtLevel level k scheme fs bits not_empty at_level order,
    )
