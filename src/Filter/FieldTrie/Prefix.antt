-- ===== src/Filter/FieldTrie/Prefix.antt =====
-- The path of a field pattern prunes no match: components that match have the exact texts.
use tagstrak.Common.{
  ◌≡◌, refl, arith, true, List, [], ◌∷◌, Bytes, some, Option-cases, inl, inr, bytes_eq_iff, sym,
}
use tagstrak.Identity.Value.{Component}
use tagstrak.Identity.Pattern.{
  FieldPattern, FieldKind, exact, any, range, unset_kind, match_fields, match_field,
}
use tagstrak.Filter.FieldTrie.{exact_prefix}
use tagstrak.Filter.FieldTrie.Lookup.{reach}

-- What a successful match says of the first field.
match_fields-cons :
    (f : FieldPattern) (fs : List FieldPattern) (c : Component) (cs : List Component)
    → match_fields (f ∷ fs) (c ∷ cs) ≡ true
    → (match_field f c.value f.kind ≡ true) × (match_fields fs cs ≡ true)
unfolding match_fields
match_fields-cons f fs c cs h = ground arith

exact_text :
    (f : FieldPattern) (value : Bytes) (k : FieldKind)
    → k ≡ exact
    → match_field f value k ≡ true
    → value ≡ f.text
unfolding match_field
exact_text f value exact e h = (bytes_eq_iff value f.text).0 h
exact_text f value any e h = cc
exact_text f value range e h = cc
exact_text f value unset_kind e h = cc

data Leading (f : FieldPattern) (fs : List FieldPattern) (texts : List Bytes) : Type 0 where
  stops : texts ≡ [] → Leading f fs texts
  goes_on :
      (more : List Bytes)
      → f.kind ≡ exact
      → exact_prefix fs ≡ some more
      → texts ≡ f.text ∷ more
      → Leading f fs texts

exact_prefix-cons :
    (f : FieldPattern) (fs : List FieldPattern) {texts : List Bytes} (k : FieldKind)
    → f.kind ≡ k
    → exact_prefix (f ∷ fs) ≡ some texts
    → Leading f fs texts
unfolding exact_prefix
exact_prefix-cons f fs exact k e = elim (Option-cases (exact_prefix fs)) [
  | inl h ↦ cc (rw (k, h, exact_prefix) at e)
  | inr (more, h) ↦ goes_on more k h (cc (rw (k, h, exact_prefix) at e))
]
exact_prefix-cons f fs any k e = stops (ground (arith, k))
exact_prefix-cons f fs range k e = stops (ground (arith, k))
exact_prefix-cons f fs unset_kind k e = stops (ground (arith, k))

reach-nil : (cs : List Component) → reach [] cs ≡ true
unfolding reach
reach-nil cs = refl

reach-cons :
    (t : Bytes) (path : List Bytes) (c : Component) (cs : List Component)
    → c.value ≡ t
    → reach path cs ≡ true
    → reach (t ∷ path) (c ∷ cs) ≡ true
unfolding reach
reach-cons t path c cs e h = ground (arith, (bytes_eq_iff t c.value).1 (sym e), h)

pub reach-match_fields :
    (fs : List FieldPattern) (cs : List Component) {texts : List Bytes}
    → exact_prefix fs ≡ some texts
    → match_fields fs cs ≡ true
    → reach texts cs ≡ true
reach-match_fields [] cs {texts} e h =
    let nothing : texts ≡ [] = unfold exact_prefix in cc in rw nothing (reach-nil cs)
reach-match_fields (f ∷ fs) [] e h = unfold match_fields in cc
reach-match_fields (f ∷ fs) (c ∷ cs) e h = elim (exact_prefix-cons f fs f.kind refl e) [
  | stops nothing ↦ rw nothing (reach-nil (c ∷ cs))
  | goes_on more k prefix shape ↦
      let (first, others) = match_fields-cons f fs c cs h in
      rw shape (
        reach-cons f.text more c cs (exact_text f c.value f.kind k first)
          (reach-match_fields fs cs prefix others))
]
