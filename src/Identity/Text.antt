-- ===== src/Identity/Text.antt =====
-- The texts of internal/identity/identity.go: the three `String` methods and `Value.Describe`.
use tagstrak.Common.{◌≡◌, refl, sym, ap, ◌∙◌, List, [], ◌∷◌, ◌++◌, Bytes, if◌then◌else◌, bytes_eq}
use tagstrak.Identity.Names.{
  Authority, gs1, iso6346, iso15459, unknown_authority, KeyType, sgtin, sscc, grai, giai,
  freight_container, transport_unit, unknown_key, ComponentName, gs1_company_prefix, item_reference,
  serial_reference, serial, asset_type, individual_asset_reference, data_identifier, owner_code,
  equipment_category, container_serial, check_digit, iso_identifier, filter_value, partition,
  unknown_component,
}
use tagstrak.Identity.Value.{Component, Value}

unfoldable pub authority_string : Authority → Bytes
authority_string gs1 = b'g' ∷ b's' ∷ b'1' ∷ []
authority_string iso6346 = b'i' ∷ b's' ∷ b'o' ∷ b'6' ∷ b'3' ∷ b'4' ∷ b'6' ∷ []
authority_string iso15459 = b'i' ∷ b's' ∷ b'o' ∷ b'1' ∷ b'5' ∷ b'4' ∷ b'5' ∷ b'9' ∷ []
authority_string unknown_authority = b'u' ∷ b'n' ∷ b'k' ∷ b'n' ∷ b'o' ∷ b'w' ∷ b'n' ∷ []

unfoldable pub key_string : KeyType → Bytes
key_string sgtin = b's' ∷ b'g' ∷ b't' ∷ b'i' ∷ b'n' ∷ []
key_string sscc = b's' ∷ b's' ∷ b'c' ∷ b'c' ∷ []
key_string grai = b'g' ∷ b'r' ∷ b'a' ∷ b'i' ∷ []
key_string giai = b'g' ∷ b'i' ∷ b'a' ∷ b'i' ∷ []
key_string freight_container =
    b'f' ∷ b'r' ∷ b'e' ∷ b'i' ∷ b'g' ∷ b'h' ∷ b't' ∷ b'-' ∷ b'c' ∷ b'o' ∷ b'n' ∷ b't' ∷ b'a' ∷ b'i'
    ∷ b'n' ∷ b'e' ∷ b'r' ∷ []
key_string transport_unit =
    b't' ∷ b'r' ∷ b'a' ∷ b'n' ∷ b's' ∷ b'p' ∷ b'o' ∷ b'r' ∷ b't' ∷ b'-' ∷ b'u' ∷ b'n' ∷ b'i' ∷ b't'
    ∷ []
key_string unknown_key = b'u' ∷ b'n' ∷ b'k' ∷ b'n' ∷ b'o' ∷ b'w' ∷ b'n' ∷ []

unfoldable pub name_string : ComponentName → Bytes
name_string gs1_company_prefix =
    b'g' ∷ b's' ∷ b'1' ∷ b'c' ∷ b'o' ∷ b'm' ∷ b'p' ∷ b'a' ∷ b'n' ∷ b'y' ∷ b'p' ∷ b'r' ∷ b'e' ∷ b'f'
    ∷ b'i' ∷ b'x' ∷ []
name_string item_reference = b'i' ∷ b't' ∷ b'e' ∷ b'm' ∷ b'r' ∷ b'e' ∷ b'f' ∷ []
name_string serial_reference = b's' ∷ b'e' ∷ b'r' ∷ b'i' ∷ b'a' ∷ b'l' ∷ b'r' ∷ b'e' ∷ b'f' ∷ []
name_string serial = b's' ∷ b'e' ∷ b'r' ∷ b'i' ∷ b'a' ∷ b'l' ∷ []
name_string asset_type = b'a' ∷ b's' ∷ b's' ∷ b'e' ∷ b't' ∷ b't' ∷ b'y' ∷ b'p' ∷ b'e' ∷ []
name_string individual_asset_reference =
    b'i' ∷ b'n' ∷ b'd' ∷ b'a' ∷ b's' ∷ b's' ∷ b'e' ∷ b't' ∷ b'r' ∷ b'e' ∷ b'f' ∷ []
name_string data_identifier = b'd' ∷ b'i' ∷ []
name_string owner_code = b'o' ∷ b'w' ∷ b'n' ∷ b'e' ∷ b'r' ∷ b'c' ∷ b'o' ∷ b'd' ∷ b'e' ∷ []
name_string equipment_category =
    b'e' ∷ b'q' ∷ b'u' ∷ b'i' ∷ b'p' ∷ b'm' ∷ b'e' ∷ b'n' ∷ b't' ∷ b'c' ∷ b'a' ∷ b't' ∷ b'e' ∷ b'g'
    ∷ b'o' ∷ b'r' ∷ b'y' ∷ []
name_string container_serial =
    b'c' ∷ b'o' ∷ b'n' ∷ b't' ∷ b'a' ∷ b'i' ∷ b'n' ∷ b'e' ∷ b'r' ∷ b's' ∷ b'e' ∷ b'r' ∷ b'i' ∷ b'a'
    ∷ b'l' ∷ []
name_string check_digit = b'c' ∷ b'h' ∷ b'e' ∷ b'c' ∷ b'k' ∷ b'd' ∷ b'i' ∷ b'g' ∷ b'i' ∷ b't' ∷ []
name_string iso_identifier =
    b'i' ∷ b'd' ∷ b'e' ∷ b'n' ∷ b't' ∷ b'i' ∷ b'f' ∷ b'i' ∷ b'e' ∷ b'r' ∷ []
name_string filter_value = b'f' ∷ b'i' ∷ b'l' ∷ b't' ∷ b'e' ∷ b'r' ∷ []
name_string partition = b'p' ∷ b'a' ∷ b'r' ∷ b't' ∷ b'i' ∷ b't' ∷ b'i' ∷ b'o' ∷ b'n' ∷ []
name_string unknown_component = b'u' ∷ b'n' ∷ b'k' ∷ b'n' ∷ b'o' ∷ b'w' ∷ b'n' ∷ []

-- The loop of `Describe` behind the first component, and from the first one
describe_rest : List Component → Bytes
unfolding name_string
describe_rest [] = []
describe_rest (c ∷ cs) = b' ' ∷ (name_string c.name ++ b'=' ∷ (c.value ++ describe_rest cs))

describe_components : List Component → Bytes
unfolding name_string describe_rest
describe_components [] = []
describe_components (c ∷ cs) = name_string c.name ++ b'=' ∷ (c.value ++ describe_rest cs)

-- `Value.Describe`
unfoldable pub describe : Value → Bytes
unfolding key_string describe_components
describe v = key_string v.key_type ++ b'[' ∷ (describe_components v.components ++ b']' ∷ [])

module _ {A : Type 0} (text : A → Bytes) where
  -- The first of some values that has a text.
  with_text : Bytes → A → List A → A
  with_text t d [] = d
  with_text t d (a ∷ as') = if bytes_eq (text a) t then a else with_text t d as'

name_of_text : Bytes → ComponentName
unfolding with_text name_string
name_of_text t = with_text name_string t unknown_component (
    gs1_company_prefix ∷ item_reference ∷ serial_reference ∷ serial ∷ asset_type
    ∷ individual_asset_reference ∷ data_identifier ∷ owner_code ∷ equipment_category
    ∷ container_serial ∷ check_digit ∷ iso_identifier ∷ filter_value ∷ partition ∷ unknown_component
    ∷ [])

name_of_text-name_string : (x : ComponentName) → name_of_text (name_string x) ≡ x
unfolding name_of_text name_string with_text bytes_eq
name_of_text-name_string gs1_company_prefix = refl
name_of_text-name_string item_reference = refl
name_of_text-name_string serial_reference = refl
name_of_text-name_string serial = refl
name_of_text-name_string asset_type = refl
name_of_text-name_string individual_asset_reference = refl
name_of_text-name_string data_identifier = refl
name_of_text-name_string owner_code = refl
name_of_text-name_string equipment_category = refl
name_of_text-name_string container_serial = refl
name_of_text-name_string check_digit = refl
name_of_text-name_string iso_identifier = refl
name_of_text-name_string filter_value = refl
name_of_text-name_string partition = refl
name_of_text-name_string unknown_component = refl

key_of_text : Bytes → KeyType
unfolding with_text key_string
key_of_text t =
    with_text key_string t unknown_key
      (sgtin ∷ sscc ∷ grai ∷ giai ∷ freight_container ∷ transport_unit ∷ unknown_key ∷ [])

key_of_text-key_string : (x : KeyType) → key_of_text (key_string x) ≡ x
unfolding key_of_text key_string with_text bytes_eq
key_of_text-key_string sgtin = refl
key_of_text-key_string sscc = refl
key_of_text-key_string grai = refl
key_of_text-key_string giai = refl
key_of_text-key_string freight_container = refl
key_of_text-key_string transport_unit = refl
key_of_text-key_string unknown_key = refl

authority_of_text : Bytes → Authority
unfolding with_text authority_string
authority_of_text t =
    with_text authority_string t unknown_authority
      (gs1 ∷ iso6346 ∷ iso15459 ∷ unknown_authority ∷ [])

authority_of_text-authority_string : (x : Authority) → authority_of_text (authority_string x) ≡ x
unfolding authority_of_text authority_string with_text bytes_eq
authority_of_text-authority_string gs1 = refl
authority_of_text-authority_string iso6346 = refl
authority_of_text-authority_string iso15459 = refl
authority_of_text-authority_string unknown_authority = refl

-- Distinct component names have distinct texts, that of a name with no text of its own included.
pub name_string-injective : (a b : ComponentName) → name_string a ≡ name_string b → a ≡ b
name_string-injective a b e =
    sym (name_of_text-name_string a) ∙ ap name_of_text e ∙ name_of_text-name_string b

-- Distinct key types have distinct texts.
key_string-injective : (a b : KeyType) → key_string a ≡ key_string b → a ≡ b
key_string-injective a b e =
    sym (key_of_text-key_string a) ∙ ap key_of_text e ∙ key_of_text-key_string b

-- Distinct authorities have distinct texts.
authority_string-injective : (a b : Authority) → authority_string a ≡ authority_string b → a ≡ b
authority_string-injective a b e =
    sym (authority_of_text-authority_string a)
    ∙ ap authority_of_text e
    ∙ authority_of_text-authority_string b
