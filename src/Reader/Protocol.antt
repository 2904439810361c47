-- ===== src/Reader/Protocol.antt =====
-- The checks of received messages (internal/reader/protocol.go). `ErrProtocol` is one error, with what
-- it wraps left out.
pub mod Handshake
pub mod Reports
use tagstrak.Common.{
  ℕ, ◌+◌, ◌-◌, ◌*◌, ◌/◌, ◌%◌, Bool, true, false, ◌||◌, ◌&&◌, not, List, [], ◌∷◌, Bytes, Option,
  none, some, length, take, drop, slice, be_uint, ltb, ◌==◌, if◌then◌else◌, Result, ok, err, ◌>>=◌,
  ◌>>◌,
}
use tagstrak.Inventory.{
  InventoryError, Tag, Observation, new_tag, new_observation, with_protocol_control,
}
use tagstrak.Llrp.Error.{Llrp, Limits, malformed_tag_report}
use tagstrak.Llrp.Error as Codec
use tagstrak.Llrp.Frame.{Message}
use tagstrak.Llrp.Parameter.{Parameter, decode_parameters}
use tagstrak.Llrp.TagReport.{ReadEvent, decode_read_events}

-- Errors of a session: `ErrProtocol`, `ErrBackpressure`, that of a cancelled context, and those of the
-- codec and the connection
pub data Error : Type 0 where
  protocol backpressure context_error : Error
  codec : Codec.Error → Error
  inventory : InventoryError → Error

-- `fmt.Errorf("%w: %w", ErrProtocol, err)`
unfoldable pub as_protocol {ℓ} : {E : Type 0} {A : Type ℓ} → Result E A → Result Error A
as_protocol (ok a) = ok a
as_protocol (err e) = err protocol

unfoldable pub as_codec {ℓ} : {A : Type ℓ} → Result Codec.Error A → Result Error A
as_codec (ok a) = ok a
as_codec (err e) = err (codec e)

unfoldable pub as_inventory {ℓ} : {A : Type ℓ} → Result InventoryError A → Result Error A
as_inventory (ok a) = ok a
as_inventory (err e) = err (inventory e)

-- The inner loop of `validateNotification`
unfoldable pub count_attempts : ℕ → List Parameter → Result Error ℕ
count_attempts attempts [] = ok attempts
count_attempts attempts (n ∷ ns) =
    let rest = count_attempts (if n.kind == 256 then attempts + 1 else attempts) ns in
    if n.kind == 256 && (n.tv || (not (length n.content == 2) || not (be_uint n.content == 0)))
    then err protocol
    else rest

-- The outer loop: the containers and attempts so far
unfoldable pub count_containers : Limits → ℕ → ℕ → List Parameter → Result Error (ℕ × ℕ)
unfolding count_attempts as_protocol
count_containers limits containers attempts [] = ok (containers, attempts)
count_containers limits containers attempts (p ∷ ps) =
    if p.tv || not (p.kind == 246) then err protocol else do
      nested ← as_protocol (decode_parameters p.content limits)
      more ← count_attempts attempts nested
      count_containers limits (containers + 1) more ps

-- `validateNotification`
unfoldable pub validate_notification : Message → Limits → Bool → Result Error (Unit {0})
unfolding count_containers as_protocol
validate_notification m limits initial = if not (m.header.kind == 1087) then err protocol else do
  params ← as_protocol (decode_parameters m.payload limits)
  (containers, attempts) ← count_containers limits 0 0 params
  if not (containers == 1) || (ltb 1 attempts || (initial && not (attempts == 1)))
      then err protocol
      else ok tt

-- One `LLRPStatus` in the loop of `validateConfigResponse`
unfoldable pub check_status : Limits → Parameter → Result Error (Unit {0})
unfolding as_protocol
check_status limits p =
    let code = be_uint (take 2 p.content) in
    let description = be_uint (slice 2 4 p.content) in
    if p.tv || ltb (length p.content) 4
    then err protocol
    else if ltb (length p.content - 4) description
    then err protocol
    else do
      rest ← as_protocol (decode_parameters (drop (4 + description) p.content) limits)
      if code == 0 then ok tt else err protocol

unfoldable pub count_statuses : Limits → ℕ → List Parameter → Result Error ℕ
unfolding check_status
count_statuses limits statuses [] = ok statuses
count_statuses limits statuses (p ∷ ps) =
    let rest = count_statuses limits (if p.kind == 287 then statuses + 1 else statuses) ps in
    if p.kind == 287 then check_status limits p >> rest else rest

-- `validateConfigResponse`
unfoldable pub validate_config_response : Message → ℕ → Limits → Result Error (Unit {0})
unfolding count_statuses as_protocol
validate_config_response m id limits =
    if not (m.header.kind == 1037) || not (m.header.id == id) then err protocol else do
      params ← as_protocol (decode_parameters m.payload limits)
      statuses ← count_statuses limits 0 params
      if statuses == 1 then ok tt else err protocol

-- An EPC_DATA parameter as `decodeObservations` wants it: whole words, and nothing behind them
unfoldable pub whole_words : Parameter → Bool
whole_words n =
    let bits = be_uint (take 2 n.content) in
    not (n.tv || ltb (length n.content) 2)
    && not (bits == 0 || (not (bits % 16 == 0) || not (bits / 8 == length n.content - 2)))

-- The inner loop of `decodeObservations`: the EPCs so far
unfoldable pub count_epcs : ℕ → List Parameter → Result Error ℕ
unfolding whole_words
count_epcs epcs [] = ok epcs
count_epcs epcs (n ∷ ns) =
    let rest = count_epcs (if n.kind == 13 || n.kind == 241 then epcs + 1 else epcs) ns in
    if n.kind == 241 && not (whole_words n) then err (codec malformed_tag_report) else rest

unfoldable pub check_reports : Limits → List Parameter → Result Error (Unit {0})
unfolding count_epcs as_codec
check_reports limits [] = ok tt
check_reports limits (p ∷ ps) =
    let rest = check_reports limits ps in
    if p.tv || not (p.kind == 240) then rest else do
      nested ← as_codec (decode_parameters p.content limits)
      epcs ← count_epcs 0 nested
      if epcs == 1 then rest else err (codec malformed_tag_report)

with_pc : Option Bytes → Observation → Observation
with_pc none o = o
with_pc (some pc) o = if length pc == 2 then with_protocol_control (be_uint pc) o else o

unfoldable pub observation_of : Bytes → ℕ → ReadEvent → Result Error Observation
unfolding with_pc as_inventory
observation_of source now event = do
  tag ← as_inventory (new_tag event.id)
  observation ← as_inventory (new_observation tag now source)
  ok (with_pc event.pc observation)

unfoldable pub observations_of : Bytes → ℕ → List ReadEvent → Result Error (List Observation)
unfolding observation_of
observations_of source now [] = ok []
observations_of source now (event ∷ events) = do
  observation ← observation_of source now event
  rest ← observations_of source now events
  ok (observation ∷ rest)

-- `decodeObservations`
unfoldable pub decode_observations : Bytes → Limits → Bytes → ℕ → Result Error (List Observation)
unfolding check_reports observations_of as_codec
decode_observations body limits source now = do
  params ← as_codec (decode_parameters body limits)
  check_reports limits params
  events ← as_codec (decode_read_events body limits)
  observations_of source now events
