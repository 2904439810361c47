-- ===== src/Filter/FieldTrie.antt =====
-- The trie over exact component values (internal/filter/index.go).
pub mod Lookup
pub mod Prefix
use tagstrak.Common.{
  ℕ, zero, suc, ◌+◌, Bool, true, false, not, List, [], ◌∷◌, ◌++◌, Bytes, Option, none, some,
  if◌then◌else◌, bytes_eq,
}
use tagstrak.Identity.Value.{Component}
use tagstrak.Identity.Pattern.{FieldPattern, FieldKind, exact, any}
use tagstrak.Filter.Subscription.{Subject}
use tagstrak.Filter.Entry.{Entry, confirm_all}

-- `fieldNode`: its entries, and its children by component value.
mutual
  pub data FieldNode : Type 0 where
    node : List Entry → FieldKids → FieldNode

  pub data FieldKids : Type 0 where
    no_kids : FieldKids
    kid : Bytes → FieldNode → FieldKids → FieldKids

abbrev pub empty_node : FieldNode
empty_node = node [] no_kids

-- The child under a value, made if there is none, and the assignment through its pointer.
unfoldable pub update_kid : Bytes → (FieldNode → FieldNode) → FieldKids → FieldKids
update_kid t f no_kids = kid t (f empty_node) no_kids
update_kid t f (kid k n kids) =
    let later = kid k n (update_kid t f kids) in if bytes_eq k t then kid k (f n) kids else later

-- `node.children[c.Value]`
unfoldable pub find_kid : Bytes → FieldKids → Option FieldNode
find_kid t no_kids = none
find_kid t (kid k n kids) = if bytes_eq k t then some n else find_kid t kids

abbrev with_entry : Entry → FieldNode → FieldNode
with_entry e (node entries kids) = node (entries ++ e ∷ []) kids

abbrev with_kids : (FieldKids → FieldKids) → FieldNode → FieldNode
with_kids f (node entries kids) = node entries (f kids)

-- The loop of `add` down the texts of the exact fields, and the append at its end.
unfoldable pub add_fields : List Bytes → Entry → FieldNode → FieldNode
add_fields [] e n = with_entry e n
add_fields (t ∷ path) e n = with_kids (update_kid t (add_fields path e)) n

abbrev is_exact : FieldKind → Bool
is_exact exact = true
is_exact _ = false

abbrev is_any : FieldKind → Bool
is_any any = true
is_any _ = false

all_any : List FieldPattern → Bool
all_any [] = true
all_any (f ∷ fs) = if not (is_any f.kind) then false else all_any fs

-- `exactPrefix`, and the texts of the fields that it counts: `none` where a field behind the leading
-- exact ones is no star.
unfoldable pub exact_prefix : List FieldPattern → Option (List Bytes)
unfolding all_any
exact_prefix [] = some []
exact_prefix (f ∷ fs) =
    if is_exact f.kind
    then elim (exact_prefix fs) [ none ↦ none | some texts ↦ some (f.text ∷ texts) ]
    else if all_any (f ∷ fs)
    then some []
    else none

abbrev entries_of : FieldNode → List Entry
entries_of (node entries kids) = entries

abbrev kids_of : FieldNode → FieldKids
kids_of (node entries kids) = kids

-- `walkFields` on the components that are left. A node with no children ends the walk; so does the
-- look-up in it.
unfoldable pub walk_fields :
    List Bytes → Subject → FieldNode → List Component → List Bytes → List Bytes
unfolding confirm_all find_kid
walk_fields ids s n [] dst = confirm_all ids s (entries_of n) dst
walk_fields ids s n (c ∷ cs) dst =
    let dst' = confirm_all ids s (entries_of n) dst in
    elim (find_kid c.value (kids_of n)) [
      | none ↦ dst'
      | some child ↦ walk_fields ids s child cs dst'
    ]
