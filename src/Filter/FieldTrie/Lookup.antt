-- ===== src/Filter/FieldTrie/Lookup.antt =====
-- What an added entry changes about the walk over field values, and that the path of a pattern
-- prunes no match.
use tagstrak.Common.{
  ℕ, ◌≡◌, refl, sym, ap, ◌∙◌, arith, Bool, true, false, ◌&&◌, ◌||◌, List, [], ◌∷◌, ◌++◌, Bytes,
  Option, none, some, if◌then◌else◌, Bool-cases, Option-cases, inl, inr, append-nil, bytes_eq,
  bytes_eq_iff,
}
use tagstrak.Identity.Value.{Component}
use tagstrak.Filter.Subscription.{Subject}
use tagstrak.Filter.Entry.{Entry, confirm_all}
use tagstrak.Filter.Found.{
  has, has-append, hit, found_all, any_hit-append, has-found_all, with_ids, with_ids-append,
  confirm_all-found,
}
use tagstrak.Filter.FieldTrie.{
  FieldNode, FieldKids, node, no_kids, kid, empty_node, update_kid, find_kid, add_fields,
  walk_fields, entries_of, kids_of,
}

abbrev or_empty : Option FieldNode → FieldNode
or_empty none = empty_node
or_empty (some n) = n

-- A look-up after an update: the updated child under its text, and any other child as before.
find_kid-update_kid :
    (t u : Bytes) (f : FieldNode → FieldNode) (kids : FieldKids)
    → find_kid t (update_kid u f kids)
      ≡ (if bytes_eq u t then some (f (or_empty (find_kid t kids))) else find_kid t kids)
unfolding find_kid update_kid
find_kid-update_kid t u f no_kids = ground arith
find_kid-update_kid t u f (kid k n kids) =
    ground
      (arith, find_kid-update_kid t u f kids, bytes_eq_iff k u, bytes_eq_iff k t, bytes_eq_iff u t)

-- The ranks that a walk confirms.
pub found_fields : Subject → FieldNode → List Component → List ℕ
found_fields s n [] = found_all s (entries_of n)
found_fields s n (c ∷ cs) =
    found_all s (entries_of n)
    ++ elim (find_kid c.value (kids_of n)) [ none ↦ [] | some child ↦ found_fields s child cs ]

abbrev found_below : Subject → Option FieldNode → List Component → List ℕ
found_below s none cs = []
found_below s (some child) cs = found_fields s child cs

abbrev walk_below :
    List Bytes → Subject → Option FieldNode → List Component → List Bytes → List Bytes
walk_below ids s none cs dst = dst
walk_below ids s (some child) cs dst = walk_fields ids s child cs dst

walk_fields-cons :
    (ids : List Bytes) (s : Subject) (n : FieldNode) (c : Component) (cs : List Component)
    (dst : List Bytes)
    → walk_fields ids s n (c ∷ cs) dst
      ≡ walk_below ids s (find_kid c.value (kids_of n)) cs (confirm_all ids s (entries_of n) dst)
unfolding walk_fields
walk_fields-cons ids s n c cs dst = elim (Option-cases (find_kid c.value (kids_of n))) [
  | inl e ↦ rw (e, walk_fields)
  | inr (child, e) ↦ rw (e, walk_fields)
]

found_fields-cons :
    (s : Subject) (n : FieldNode) (c : Component) (cs : List Component)
    → found_fields s n (c ∷ cs)
      ≡ found_all s (entries_of n) ++ found_below s (find_kid c.value (kids_of n)) cs
unfolding found_fields
found_fields-cons s n c cs = elim (Option-cases (find_kid c.value (kids_of n))) [
  | inl e ↦ rw (e, found_fields)
  | inr (child, e) ↦ rw (e, found_fields)
]

pub walk_fields-found :
    (ids : List Bytes) (s : Subject) (n : FieldNode) (cs : List Component) (dst : List Bytes)
    → walk_fields ids s n cs dst ≡ with_ids ids dst (found_fields s n cs)
walk_fields-found ids s n [] dst =
    unfold walk_fields found_fields in confirm_all-found ids s (entries_of n) dst
walk_fields-found ids s n (c ∷ cs) dst =
    let top = found_all s (entries_of n) in
    let o = find_kid c.value (kids_of n) in
    walk_fields-cons ids s n c cs dst
    ∙ ap (walk_below ids s o cs) (confirm_all-found ids s (entries_of n) dst)
    ∙ below (with_ids ids dst top) o
        (λ child. walk_fields-found ids s child cs (with_ids ids dst top))
    ∙ with_ids-append ids dst top (found_below s o cs)
    ∙ ap (with_ids ids dst) (sym (found_fields-cons s n c cs))
  where
    below :
        (d : List Bytes) (o : Option FieldNode)
        → ((child : FieldNode)
            → walk_fields ids s child cs d ≡ with_ids ids d (found_fields s child cs))
        → walk_below ids s o cs d ≡ with_ids ids d (found_below s o cs)
    below d none ih = sym (append-nil d)
    below d (some child) ih = ih child

has-added :
    (r : ℕ) (s : Subject) (es : List Entry) (e : Entry)
    → has r (found_all s (es ++ e ∷ [])) ≡ (has r (found_all s es) || hit r s e)
has-added r s es e =
    ground (
      arith,
      has-found_all r s (es ++ e ∷ []),
      has-found_all r s es,
      any_hit-append r s es (e ∷ []),
    )

-- Whether a walk over these components comes to the end of a path.
unfoldable pub reach : List Bytes → List Component → Bool
reach [] cs = true
reach (t ∷ path) [] = false
reach (t ∷ path) (c ∷ cs) = bytes_eq t c.value && reach path cs

pub found_fields-empty : (s : Subject) (cs : List Component) → found_fields s empty_node cs ≡ []
unfolding found_fields find_kid
found_fields-empty s [] = refl
found_fields-empty s (c ∷ cs) = refl

found_fields-or_empty :
    (s : Subject) (o : Option FieldNode) (cs : List Component)
    → found_fields s (or_empty o) cs ≡ found_below s o cs
found_fields-or_empty s none cs = found_fields-empty s cs
found_fields-or_empty s (some n) cs = refl

-- The step of `has-add_fields` below the child for the next value.
has-found_below :
    (r : ℕ) (s : Subject) (t : Bytes) (path : List Bytes) (e : Entry) (kids : FieldKids)
    (c : Component) (cs : List Component)
    → has r (found_fields s (add_fields path e (or_empty (find_kid c.value kids))) cs) ≡ (
        has r (found_fields s (or_empty (find_kid c.value kids)) cs)
        || (reach path cs && hit r s e))
    → has r (found_below s (find_kid c.value (update_kid t (add_fields path e) kids)) cs) ≡ (
        has r (found_below s (find_kid c.value kids) cs)
        || (reach (t ∷ path) (c ∷ cs) && hit r s e))
unfolding reach
has-found_below r s t path e kids c cs ih = elim (Bool-cases (bytes_eq t c.value)) [
  | inl same ↦
      rw (find_kid-update_kid c.value t (add_fields path e) kids, same)
        (ih
          ∙ ap (λ x. has r x || (reach path cs && hit r s e))
              (found_fields-or_empty s (find_kid c.value kids) cs))
  | inr other ↦ rw (find_kid-update_kid c.value t (add_fields path e) kids, other) (ground arith)
]

-- A walk finds what it found before, and the added entry if it comes to it.
pub has-add_fields :
    (r : ℕ) (s : Subject) (path : List Bytes) (e : Entry) (n : FieldNode) (cs : List Component)
    → has r (found_fields s (add_fields path e n) cs)
      ≡ (has r (found_fields s n cs) || (reach path cs && hit r s e))
unfolding add_fields
has-add_fields r s [] e (node es kids) [] = unfold reach found_fields in has-added r s es e
has-add_fields r s [] e (node es kids) (c ∷ cs) =
    let below = found_below s (find_kid c.value kids) cs in
    rw
      (found_fields-cons s (node es kids) c cs, found_fields-cons s (node (es ++ e ∷ []) kids) c cs)
      (unfold reach in
        ground (
          arith,
          has-append r (found_all s (es ++ e ∷ [])) below,
          has-append r (found_all s es) below,
          has-added r s es e,
        ))
has-add_fields r s (t ∷ path) e (node es kids) [] = unfold reach found_fields in ground arith
has-add_fields r s (t ∷ path) e (node es kids) (c ∷ cs) =
    let kids' = update_kid t (add_fields path e) kids in
    let top = found_all s es in
    rw (found_fields-cons s (node es kids) c cs, found_fields-cons s (node es kids') c cs)
      (ground (
        arith,
        has-append r top (found_below s (find_kid c.value kids) cs),
        has-append r top (found_below s (find_kid c.value kids') cs),
        has-found_below r s t path e kids c cs
            (has-add_fields r s path e (or_empty (find_kid c.value kids)) cs),
      ))
