-- ===== src/Inventory/Store/Laws.antt =====
-- What the inventory accepts, and what its snapshots show.
use mathlib.Core.List.{Perm}
use mathlib.Core.List.Perm
use tagstrak.Common.{
  ◌%◌, ◌≤◌, ◌≡◌, ◌≢◌, ◌↔◌, ◌∙◌, refl, sym, subst, arith, true, false, List, [], ◌∷◌, ◌++◌,
  append-nil, append_assoc, Bytes, length, All, bytes_eq_iff, ok, Bool-cases, Result-cases, inl,
  inr,
}
use tagstrak.Inventory.{Tag, new_tag, min_epc_bytes, max_epc_bytes}
use tagstrak.Inventory.Store.{
  bytes_less, has_tag, tag_map, replace, insert_tag, sort_tags, snapshot,
}

abbrev pub IsTag : Tag → Type 0
IsTag t = (min_epc_bytes ≤ length t.epc) × (length t.epc ≤ max_epc_bytes) × (length t.epc % 2 ≡ 0)

abbrev pub Distinct : List Tag → Type 0
Distinct [] = Unit {0}
Distinct (t ∷ tags) = All (λ (u : Tag). t.epc ≢ u.epc) tags × Distinct tags

abbrev Fresh : List Tag → List Tag → Type 0
Fresh next tags = All (λ (t : Tag). has_tag t.epc next ≡ false) tags

abbrev NotBelow : Tag → List Tag → Type 0
NotBelow t [] = Unit {0}
NotBelow t (u ∷ tags) = bytes_less u.epc t.epc ≡ false

-- No tag comes before one that it should follow.
abbrev pub Ascending : List Tag → Type 0
Ascending [] = Unit {0}
Ascending (t ∷ tags) = NotBelow t tags × Ascending tags

bytes_less_asym : (a b : Bytes) → bytes_less a b ≡ true → bytes_less b a ≡ false
unfolding bytes_less
bytes_less_asym as' [] h = cc
bytes_less_asym [] (b ∷ bs) h = refl
bytes_less_asym (a ∷ as') (b ∷ bs) h = ground (arith, bytes_less_asym as' bs)

insert_tag-NotBelow :
    (t u : Tag) (tags : List Tag)
    → bytes_less u.epc t.epc ≡ true
    → NotBelow u tags
    → NotBelow u (insert_tag t tags)
unfolding insert_tag
insert_tag-NotBelow t u [] h k = bytes_less_asym u.epc t.epc h
insert_tag-NotBelow t u (v ∷ tags) h k = elim (Bool-cases (bytes_less v.epc t.epc)) [
  | inl later ↦ rw later k
  | inr here ↦ rw here (bytes_less_asym u.epc t.epc h)
]

insert_first :
    (t u : Tag) (tags : List Tag)
    → bytes_less u.epc t.epc ≡ false
    → insert_tag t (u ∷ tags) ≡ t ∷ u ∷ tags
unfolding insert_tag
insert_first t u tags here = rw here refl

insert_tag-Ascending : (t : Tag) (tags : List Tag) → Ascending tags → Ascending (insert_tag t tags)
unfolding insert_tag
insert_tag-Ascending t [] h = (tt, tt)
insert_tag-Ascending t (u ∷ tags) (low, h) = elim (Bool-cases (bytes_less u.epc t.epc)) [
  | inl later ↦ rw later (insert_tag-NotBelow t u tags later low, insert_tag-Ascending t tags h)
  | inr here ↦ subst Ascending (sym (insert_first t u tags here)) (here, (low, h))
]

sort_tags-Ascending : (tags : List Tag) → Ascending (sort_tags tags)
unfolding sort_tags
sort_tags-Ascending [] = tt
sort_tags-Ascending (t ∷ tags) = insert_tag-Ascending t (sort_tags tags) (sort_tags-Ascending tags)

insert_tag-perm : (t : Tag) (tags : List Tag) → Perm (insert_tag t tags) (t ∷ tags)
unfolding insert_tag
insert_tag-perm t [] = Perm.refl (t ∷ [])
insert_tag-perm t (u ∷ tags) = elim (Bool-cases (bytes_less u.epc t.epc)) [
  | inl later ↦ rw later (Perm.trans (Perm.cons u (insert_tag-perm t tags)) (Perm.swap t u tags))
  | inr here ↦ rw here (Perm.refl (t ∷ u ∷ tags))
]

sort_tags-perm : (tags : List Tag) → Perm (sort_tags tags) tags
unfolding sort_tags
sort_tags-perm [] = Perm.refl []
sort_tags-perm (t ∷ tags) =
    Perm.trans (insert_tag-perm t (sort_tags tags)) (Perm.cons t (sort_tags-perm tags))

new_tag-IsTag : (t v : Tag) → (new_tag t.epc ≡ ok v) ↔ (IsTag t × (v ≡ t))
unfolding new_tag
new_tag-IsTag t v = ground arith

has_tag-append :
    (epc : Bytes) (next : List Tag) (t : Tag)
    → (has_tag epc (next ++ t ∷ []) ≡ false) ↔ ((has_tag epc next ≡ false) × (t.epc ≢ epc))
unfolding has_tag
has_tag-append epc [] t = ground (arith, bytes_eq_iff t.epc epc)
has_tag-append epc (u ∷ next) t = ground (arith, has_tag-append epc next t)

Fresh-append :
    (t : Tag) (next tags : List Tag)
    → Fresh (next ++ t ∷ []) tags ↔ (Fresh next tags × All (λ (u : Tag). t.epc ≢ u.epc) tags)
Fresh-append t next [] = (λ h. (tt, tt), λ h. tt)
Fresh-append t next (u ∷ tags) =
    let one = has_tag-append u.epc next t in
    let more = Fresh-append t next tags in
    (
      λ h. let (f, g) = one.0 h.0 in let (f', g') = more.0 h.1 in ((f, f'), (g, g')),
      λ h. (one.1 (h.0.0, h.1.0), more.1 (h.0.1, h.1.1)),
    )

nil-Fresh : (tags : List Tag) → Fresh [] tags
unfolding has_tag
nil-Fresh [] = tt
nil-Fresh (t ∷ tags) = (refl, nil-Fresh tags)

tag_map_iff :
    (tags next all : List Tag)
    → (tag_map tags next ≡ ok all)
      ↔ (All IsTag tags × Distinct tags × Fresh next tags × (all ≡ next ++ tags))
unfolding tag_map
tag_map_iff [] next all = ground (arith, append-nil next)
tag_map_iff (t ∷ tags) next all =
    let one = Fresh-append t next tags in
    let rest = tag_map_iff tags (next ++ t ∷ []) all in
    let made = new_tag-IsTag t t in
    let moved : (next ++ t ∷ []) ++ tags ≡ next ++ t ∷ tags = append_assoc next (t ∷ []) tags in
    (
      λ h. elim (Result-cases (new_tag t.epc)) [
        | inl (v, e) ↦
            let valid = ((new_tag-IsTag t v).0 e).0 in
            let taken = made.1 (valid, refl) in
            let checks : (has_tag t.epc next ≡ false) × (tag_map tags (next ++ t ∷ []) ≡ ok all) =
              (ground (arith, taken), ground (arith, taken)) in
            let (others, distinct, fresh, whole) = rest.0 checks.1 in
            let (old, apart) = one.0 fresh in
            ((valid, others), (apart, distinct), (checks.0, old), whole ∙ moved)
        | inr (x, e) ↦ cc (rw e at h)
      ],
      λ h.
          let added = rest.1 (h.0.1, h.1.1, one.1 (h.2.1, h.1.0), h.3 ∙ sym moved) in
          rw (made.1 (h.0.0, refl), h.2.0) added,
    )

-- The inventory accepts exactly the lists of valid tags whose EPCs differ, and keeps their tags. In
-- whatever order its map gives the tags, a snapshot then lists the same tags, in the order of their
-- EPCs.
pub snapshot-replace :
    (tags kept enumerated : List Tag)
    → Perm enumerated tags
    → ((replace tags ≡ ok kept) ↔ (All IsTag tags × Distinct tags × (kept ≡ tags)))
      × Ascending (snapshot enumerated)
      × Perm (snapshot enumerated) tags
unfolding replace snapshot
snapshot-replace tags kept enumerated p =
    let added = tag_map_iff tags [] kept in
    (
      (
        λ h. let (valid, distinct, fresh, all) = added.0 h in (valid, distinct, all),
        λ h. added.1 (h.0, h.1, nil-Fresh tags, h.2),
      ),
      sort_tags-Ascending enumerated,
      Perm.trans (sort_tags-perm enumerated) p,
    )
