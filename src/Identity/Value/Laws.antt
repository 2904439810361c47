-- ===== src/Identity/Value/Laws.antt =====
-- Which values `New` builds.
use tagstrak.Common.{
  suc, ◌≡◌, ◌↔◌, refl, ap, sym, arith, List, [], ◌∷◌, length, map, Option, none, some, ok,
}
use tagstrak.Identity.Names.{
  Authority, KeyType, ComponentName, name_code, name_code-injective, component_order,
}
use tagstrak.Identity.Value.{Component, Value, check_layout, new_ordered, new}

abbrev pub names_of : List Component → List ComponentName
names_of = map (λ c. c.name)

check_layout_ok :
    (cs : List Component) (order : List ComponentName)
    → length cs ≡ length order
    → check_layout cs order ≡ ok tt
    → names_of cs ≡ order
unfolding check_layout
check_layout_ok [] [] h e = refl
check_layout_ok [] (n ∷ order) h e = absurd (omega arith)
check_layout_ok (c ∷ cs) [] h e = absurd (omega arith)
check_layout_ok (c ∷ cs) (n ∷ order) h e =
    let first : name_code c.name ≡ name_code n = ground arith in
    let others : check_layout cs order ≡ ok tt = ground arith in
    cc (name_code-injective c.name n first, check_layout_ok cs order (omega arith) others)

check_layout-names_of : (cs : List Component) → check_layout cs (names_of cs) ≡ ok tt
unfolding check_layout
check_layout-names_of [] = refl
check_layout-names_of (c ∷ cs) = ground (arith, check_layout-names_of cs)

length-names_of : (cs : List Component) → length (names_of cs) ≡ length cs
length-names_of [] = refl
length-names_of (c ∷ cs) = ap suc (length-names_of cs)

new_ordered_ok :
    (a : Authority) (k : KeyType) (cs : List Component) (o : Option (List ComponentName))
    {v : Value}
    → new_ordered a k cs o ≡ ok v
    → (o ≡ some (names_of cs)) × (v ≡ record { authority = a; key_type = k; components = cs })
unfolding new_ordered
new_ordered_ok a k cs none e = cc
new_ordered_ok a k cs (some order) {v} e =
    let lengths : length cs ≡ length order = ground arith in
    let layout : check_layout cs order ≡ ok tt = ground arith in
    (ap some (sym (check_layout_ok cs order lengths layout)), ground (arith, layout))

-- `New` succeeds exactly when the key type has a canonical order and the components' names are that
-- order, and the value then holds the authority, the key type and the components as given.
pub new_iff :
    (a : Authority) (k : KeyType) (cs : List Component) (v : Value)
    → (new a k cs ≡ ok v) ↔ (
        (component_order k ≡ some (names_of cs))
        × (v ≡ record { authority = a; key_type = k; components = cs }))
unfolding new
new_iff a k cs v = (
  λ e. new_ordered_ok a k cs (component_order k) e,
  λ h.
      rw (h.0, h.1)
        (unfold new_ordered in ground (arith, length-names_of cs, check_layout-names_of cs)),
)
