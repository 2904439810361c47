-- ===== src/Identity/Names.antt =====
-- The enumerations of internal/identity/identity.go, with their numbers: Go compares and writes
-- those. Numbers that no constant names are not represented.
use tagstrak.Common.{
  ℕ, ◌≡◌, refl, ap, sym, ◌∙◌, Bool, List, [], ◌∷◌, Option, none, some, get_or, ◌==◌,
}

pub data Authority : Type 0 where
  unknown_authority gs1 iso6346 iso15459 : Authority

abbrev authorities : List Authority
authorities = unknown_authority ∷ gs1 ∷ iso6346 ∷ iso15459 ∷ []

abbrev pub authority_code : Authority → ℕ
authority_code unknown_authority = 0
authority_code gs1 = 1
authority_code iso6346 = 2
authority_code iso15459 = 3

pub data KeyType : Type 0 where
  unknown_key sgtin sscc grai giai freight_container transport_unit : KeyType

abbrev key_types : List KeyType
key_types = unknown_key ∷ sgtin ∷ sscc ∷ grai ∷ giai ∷ freight_container ∷ transport_unit ∷ []

abbrev pub key_code : KeyType → ℕ
key_code unknown_key = 0
key_code sgtin = 1
key_code sscc = 2
key_code grai = 3
key_code giai = 4
key_code freight_container = 5
key_code transport_unit = 6

pub data ComponentName : Type 0 where
  unknown_component gs1_company_prefix item_reference serial_reference serial : ComponentName
  asset_type individual_asset_reference data_identifier owner_code : ComponentName
  equipment_category container_serial check_digit iso_identifier : ComponentName
  filter_value partition : ComponentName

abbrev names : List ComponentName
names =
    unknown_component ∷ gs1_company_prefix ∷ item_reference ∷ serial_reference ∷ serial ∷ asset_type
    ∷ individual_asset_reference ∷ data_identifier ∷ owner_code ∷ equipment_category
    ∷ container_serial ∷ check_digit ∷ iso_identifier ∷ filter_value ∷ partition ∷ []

abbrev pub name_code : ComponentName → ℕ
name_code unknown_component = 0
name_code gs1_company_prefix = 1
name_code item_reference = 2
name_code serial_reference = 3
name_code serial = 4
name_code asset_type = 5
name_code individual_asset_reference = 6
name_code data_identifier = 7
name_code owner_code = 8
name_code equipment_category = 9
name_code container_serial = 10
name_code check_digit = 11
name_code iso_identifier = 12
name_code filter_value = 13
name_code partition = 14

-- Two values with one number are one value.
authority_of_code : (a : Authority) → get_or authorities (authority_code a) unknown_authority ≡ a
authority_of_code unknown_authority = refl
authority_of_code _ = refl

key_of_code : (k : KeyType) → get_or key_types (key_code k) unknown_key ≡ k
key_of_code unknown_key = refl
key_of_code _ = refl

name_of_code : (c : ComponentName) → get_or names (name_code c) unknown_component ≡ c
name_of_code unknown_component = refl
name_of_code _ = refl

pub authority_code-injective : (a b : Authority) → authority_code a ≡ authority_code b → a ≡ b
authority_code-injective a b e =
    sym (authority_of_code a)
    ∙ ap (λ n. get_or authorities n unknown_authority) e
    ∙ authority_of_code b

pub key_code-injective : (a b : KeyType) → key_code a ≡ key_code b → a ≡ b
key_code-injective a b e =
    sym (key_of_code a) ∙ ap (λ n. get_or key_types n unknown_key) e ∙ key_of_code b

pub name_code-injective : (a b : ComponentName) → name_code a ≡ name_code b → a ≡ b
name_code-injective a b e =
    sym (name_of_code a) ∙ ap (λ n. get_or names n unknown_component) e ∙ name_of_code b

-- `==` on each enumeration
abbrev pub same_authority : Authority → Authority → Bool
same_authority a b = authority_code a == authority_code b

abbrev pub same_key : KeyType → KeyType → Bool
same_key a b = key_code a == key_code b

abbrev pub same_name : ComponentName → ComponentName → Bool
same_name a b = name_code a == name_code b

-- `componentOrder`: the canonical components of a key type, in order.
unfoldable pub component_order : KeyType → Option (List ComponentName)
component_order unknown_key = none
component_order sgtin = some (gs1_company_prefix ∷ item_reference ∷ serial ∷ [])
component_order sscc = some (gs1_company_prefix ∷ serial_reference ∷ [])
component_order grai = some (gs1_company_prefix ∷ asset_type ∷ serial ∷ [])
component_order giai = some (gs1_company_prefix ∷ individual_asset_reference ∷ [])
component_order freight_container =
    some (owner_code ∷ equipment_category ∷ container_serial ∷ check_digit ∷ [])
component_order transport_unit = some (data_identifier ∷ iso_identifier ∷ [])
