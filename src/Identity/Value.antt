-- ===== src/Identity/Value.antt =====
-- Identity values (internal/identity/identity.go): construction, access, equality and map keys.
pub mod Laws
pub mod Keys
use tagstrak.Common.{
  ℕ, zero, suc, ◌+◌, ◌/◌, ◌%◌, Bool, true, false, ◌&&◌, not, List, [], ◌∷◌, ◌++◌, Bytes, length,
  Option, none, some, Result, ok, err, ltb, ◌==◌, if◌then◌else◌, ◌>>=◌, ◌>>◌, bytes_eq,
}
use tagstrak.Identity.Names.{
  Authority, KeyType, ComponentName, name_code, same_authority, same_key, same_name,
  component_order,
}

pub record Component : Type 0 where
  pub name : ComponentName
  pub value : Bytes

pub record Value : Type 0 where
  pub authority : Authority
  pub key_type : KeyType
  pub components : List Component

pub data Error : Type 0 where
  unknown_key_type component_layout : Error

-- The loop of `New` over the components and the order, which are of one length.
check_layout : List Component → List ComponentName → Result Error (Unit {0})
check_layout [] order = ok tt
check_layout (c ∷ cs) [] = ok tt
check_layout (c ∷ cs) (n ∷ order) =
    let rest = check_layout cs order in
    if not (same_name c.name n) then err component_layout else rest

-- `New`, once the order of the key type is known
new_ordered :
    Authority → KeyType → List Component → Option (List ComponentName) → Result Error Value
unfolding check_layout
new_ordered authority key_type components none = err unknown_key_type
new_ordered authority key_type components (some order) =
    if not (length components == length order) then err component_layout else do
      check_layout components order
      ok (record { authority = authority; key_type = key_type; components = components })

-- `New`
unfoldable pub new : Authority → KeyType → List Component → Result Error Value
unfolding new_ordered
new authority key_type components =
    new_ordered authority key_type components (component_order key_type)

-- `Value.Component`: the first component of that name
find_component : List Component → ComponentName → Option Component
find_component [] name = none
find_component (c ∷ cs) name = if same_name c.name name then some c else find_component cs name

unfoldable pub component : Value → ComponentName → Option Component
unfolding find_component
component v name = find_component v.components name

-- `==` on components, and the loop of `Value.Equal` over two lists of one length
unfoldable pub component_eq : Component → Component → Bool
component_eq a b = same_name a.name b.name && bytes_eq a.value b.value

unfoldable pub components_eq : List Component → List Component → Bool
unfolding component_eq
components_eq (a ∷ as') (b ∷ bs) =
    let rest = components_eq as' bs in if not (component_eq a b) then false else rest
components_eq [] _ = true
components_eq (a ∷ as') [] = true

-- `Value.Equal`
unfoldable pub equal : Value → Value → Bool
unfolding components_eq
equal v w =
    if not (same_authority v.authority w.authority)
    then false
    else if not (same_key v.key_type w.key_type)
    then false
    else if not (length v.components == length w.components)
    then false
    else components_eq v.components w.components

-- `strconv.Itoa` of a length. A round divides the number by ten, so its own value is enough fuel.
itoa_loop : ℕ → ℕ → Bytes → Bytes
itoa_loop zero n out = out
itoa_loop (suc fuel) n out =
    let rest = itoa_loop fuel (n / 10) ((b'0' + n % 10) ∷ out) in
    if ltb n 10 then (b'0' + n) ∷ out else rest

-- `Key`
pub record Key : Type 0 where
  pub authority : Authority
  pub key_type : KeyType
  pub fields : Bytes

-- What the loop of `Value.Key` writes: each value behind its name's byte and its length.
key_fields : List Component → Bytes
key_fields [] = []
key_fields (c ∷ cs) =
    name_code c.name
    ∷ itoa_loop (suc (length c.value)) (length c.value) (b':' ∷ (c.value ++ key_fields cs))

-- `Value.Key`
unfoldable pub key : Value → Key
unfolding key_fields itoa_loop
key v = record { authority = v.authority; key_type = v.key_type; fields = key_fields v.components }
