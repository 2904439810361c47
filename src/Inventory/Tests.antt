-- ===== src/Inventory/Tests.antt =====
-- The inventory at concrete tags.
use mathlib.Core.List.{Perm}
use mathlib.Core.List.Perm
use tagstrak.Common.{◌≡◌, ◌↔◌, refl, List, [], ◌∷◌, ok, err, All, bytes_eq}
use tagstrak.Inventory.{Tag, new_tag, invalid_epc}
use tagstrak.Inventory.Store.{replace, snapshot}
use tagstrak.Inventory.Store.Laws.{IsTag, Distinct, Ascending, snapshot-replace}

abbrev tags : List Tag
tags =
    record { epc = 7 ∷ 1 ∷ [] }
    ∷ record { epc = 2 ∷ 9 ∷ [] }
    ∷ record { epc = 2 ∷ 9 ∷ 0 ∷ 0 ∷ [] }
    ∷ []

snapshot_test :
    snapshot tags
    ≡ record { epc = 2 ∷ 9 ∷ [] }
      ∷ record { epc = 2 ∷ 9 ∷ 0 ∷ 0 ∷ [] }
      ∷ record { epc = 7 ∷ 1 ∷ [] }
      ∷ []
unfolding snapshot
snapshot_test = refl

duplicate_test :
    replace (record { epc = 7 ∷ 1 ∷ [] } ∷ record { epc = 7 ∷ 1 ∷ [] } ∷ []) ≡ err invalid_epc
unfolding replace new_tag bytes_eq
duplicate_test = refl

snapshot-replace_example :
    ((replace tags ≡ ok tags) ↔ (All IsTag tags × Distinct tags × (tags ≡ tags)))
    × Ascending (snapshot tags)
    × Perm (snapshot tags) tags
snapshot-replace_example = snapshot-replace tags tags tags (Perm.refl tags)
