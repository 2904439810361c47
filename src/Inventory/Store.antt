-- ===== src/Inventory/Store.antt =====
-- The inventory of the emulator (internal/inventory/inventory.go, `Store`): a map from EPCs to tags, here
-- the list of its values. A map is enumerated in any order; the snapshot sorts what is enumerated.
-- `slices.SortFunc` is an insertion sort: tags that compare equal are equal.
pub mod Laws
use tagstrak.Common.{
  Bool, true, false, ◌||◌, List, [], ◌∷◌, ◌++◌, Bytes, bytes_eq, ltb, if◌then◌else◌, Result, ok,
  err, ◌>>=◌,
}
use tagstrak.Inventory.{InventoryError, invalid_epc, Tag, new_tag}

-- `bytes.Compare` of two EPCs is negative.
unfoldable pub bytes_less : Bytes → Bytes → Bool
bytes_less as' [] = false
bytes_less [] (b ∷ bs) = true
bytes_less (a ∷ as') (b ∷ bs) =
    let rest = bytes_less as' bs in if ltb a b then true else if ltb b a then false else rest

unfoldable pub has_tag : Bytes → List Tag → Bool
has_tag epc [] = false
has_tag epc (t ∷ tags) = bytes_eq t.epc epc || has_tag epc tags

-- The loop of `tagMap`
unfoldable pub tag_map : List Tag → List Tag → Result InventoryError (List Tag)
unfolding has_tag
tag_map [] next = ok next
tag_map (tag ∷ tags) next = do
  validated ← new_tag tag.epc
  let rest = tag_map tags (next ++ validated ∷ [])
  if has_tag validated.epc next then err invalid_epc else rest

-- `Store.Replace`; where it fails, the store stays as it is.
unfoldable pub replace : List Tag → Result InventoryError (List Tag)
unfolding tag_map
replace tags = tag_map tags []

unfoldable pub insert_tag : Tag → List Tag → List Tag
unfolding bytes_less
insert_tag tag [] = tag ∷ []
insert_tag tag (t ∷ tags) =
    let later = t ∷ insert_tag tag tags in
    if bytes_less t.epc tag.epc then later else tag ∷ t ∷ tags

-- `sortTags`
unfoldable pub sort_tags : List Tag → List Tag
unfolding insert_tag
sort_tags [] = []
sort_tags (tag ∷ tags) = insert_tag tag (sort_tags tags)

-- `Store.Snapshot`, on the tags in the order in which the map gives them
unfoldable pub snapshot : List Tag → List Tag
unfolding sort_tags
snapshot enumerated = sort_tags enumerated
