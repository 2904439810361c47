-- ===== src/Identity/Tests.antt =====
-- The theorems on identities and patterns at concrete values.
use tagstrak.Common.{◌<◌, ◌≡◌, ◌↔◌, refl, true, List, [], ◌∷◌, Bytes, length, none, some, ok}
use tagstrak.Identity.Names.{gs1, sscc, gs1_company_prefix, serial_reference, component_order}
use tagstrak.Identity.Value.{Component, Value, new, key, equal}
use tagstrak.Identity.Value.Laws.{names_of, new_iff}
use tagstrak.Identity.Value.Keys.{key-equal}
use tagstrak.Identity.Pattern.{level_identity, exact, any, FieldPattern, Pattern, new_pattern}
use tagstrak.Identity.Pattern.Laws.{IsFields, IsAtLevel, new_pattern_ok}

-- Two values whose texts run together to the same bytes.
abbrev parts : Bytes → Bytes → List Component
parts prefix reference =
    record { name = gs1_company_prefix; value = prefix }
    ∷ record { name = serial_reference; value = reference }
    ∷ []

abbrev pallet : Bytes → Bytes → Value
pallet prefix reference = record {
  authority = gs1;
  key_type = sscc;
  components = parts prefix reference;
}

abbrev one_pallet : Value
one_pallet = pallet (b'1' ∷ b'2' ∷ []) (b'3' ∷ [])

abbrev other_pallet : Value
other_pallet = pallet (b'1' ∷ []) (b'2' ∷ b'3' ∷ [])

key-equal_example : (key one_pallet ≡ key other_pallet) ↔ (equal one_pallet other_pallet ≡ true)
key-equal_example = key-equal one_pallet other_pallet

new_iff_example : (new gs1 sscc one_pallet.components ≡ ok one_pallet) ↔ (
    (component_order sscc ≡ some (names_of one_pallet.components))
    × (one_pallet
        ≡ record { authority = gs1; key_type = sscc; components = one_pallet.components }))
new_iff_example = new_iff gs1 sscc one_pallet.components one_pallet

abbrev prefix_fields : List FieldPattern
prefix_fields =
    record { name = gs1_company_prefix; kind = exact; text = b'1' ∷ b'2' ∷ []; lo = 0; hi = 0 }
    ∷ record { name = serial_reference; kind = any; text = []; lo = 0; hi = 0 }
    ∷ []

abbrev prefix_pattern : Pattern
prefix_pattern = record {
  level = level_identity;
  authority = gs1;
  key_type = sscc;
  scheme = [];
  fields = prefix_fields;
  bits = none;
  text = [];
}

prefix_pattern-new :
    new_pattern level_identity gs1 sscc [] prefix_fields none [] ≡ ok prefix_pattern
unfolding new_pattern component_order
prefix_pattern-new = refl

new_pattern_ok_example :
    (prefix_pattern ≡ prefix_pattern)
    × (0 < length prefix_fields)
    × IsFields prefix_fields
    × IsAtLevel level_identity sscc [] prefix_fields none
new_pattern_ok_example =
    new_pattern_ok level_identity gs1 sscc [] prefix_fields none [] prefix_pattern-new
