-- ===== src/Inventory.antt =====
-- Tags and observations (internal/inventory/inventory.go). A time is its nanoseconds since the zero
-- time, and is normalised to UTC already.
mod Tests
pub mod Store
use tagstrak.Common.{
  ℕ, ◌%◌, ◌||◌, not, Bytes, Option, none, some, length, ltb, ◌==◌, if◌then◌else◌, Result, ok, err,
  ◌>>=◌,
}

pub data InventoryError : Type 0 where
  invalid_epc_length invalid_epc invalid_observation : InventoryError

abbrev pub min_epc_bytes : ℕ
min_epc_bytes = 2

abbrev pub max_epc_bytes : ℕ
max_epc_bytes = 62

-- `Tag`
pub record Tag : Type 0 where
  pub epc : Bytes

-- `NewTag`
unfoldable pub new_tag : Bytes → Result InventoryError Tag
new_tag epc =
    if ltb (length epc) min_epc_bytes
      || (ltb max_epc_bytes (length epc) || not (length epc % 2 == 0))
    then err invalid_epc_length
    else ok (record { epc = epc })

-- `Observation`; `none` is a tag with no PC word.
pub record Observation : Type 0 where
  pub tag : Tag
  pub seen_at : ℕ
  pub source : Bytes
  pub pc : Option ℕ

-- `NewObservation`
unfoldable pub new_observation : Tag → ℕ → Bytes → Result InventoryError Observation
unfolding new_tag
new_observation tag seen_at source = do
  checked ← new_tag tag.epc
  if seen_at == 0 || ltb 256 (length source)
      then err invalid_observation
      else ok (record { tag = tag; seen_at = seen_at; source = source; pc = none })

-- `Observation.WithProtocolControl`
abbrev pub with_protocol_control : ℕ → Observation → Observation
with_protocol_control pc o = record o { pc = some pc }
