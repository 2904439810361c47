-- ===== src/Report/Dispatcher.antt =====
-- The dispatcher over its destinations (internal/report/dispatcher.go: `New`, `Enqueue`, `Close`).
pub mod Laws
use tagstrak.Common.{
  ℕ, suc, ◌+◌, Bool, true, false, ◌&&◌, ◌||◌, not, List, [], ◌∷◌, ◌++◌, Result, ok, err, Bytes,
  length, ltb, leb, ◌==◌, if◌then◌else◌, bytes_eq,
}
use tagstrak.Report.Config.{Config, ConfigError, validate}
use tagstrak.Report.Wire.{Event}
use tagstrak.Report.Worker.{Wiring, Worker, new_worker, enqueue_event}

-- `Destination`, its reporter by whether there is one
pub record Destination : Type 0 where
  pub name : Bytes
  pub has_reporter : Bool

is_alphanumeric : ℕ → Bool
is_alphanumeric c =
    (leb b'A' c && leb c b'Z') || ((leb b'a' c && leb c b'z') || (leb b'0' c && leb c b'9'))

name_rest : Bytes → Bool
name_rest [] = true
name_rest (c ∷ s) = (is_alphanumeric c || (c == b'_' || (c == b'.' || c == b'-'))) && name_rest s

-- `destinationName`: a letter or digit, then at most 63 of letters, digits, `_`, `.` and `-`
unfoldable pub name_matches : Bytes → Bool
unfolding is_alphanumeric name_rest
name_matches [] = false
name_matches (c ∷ s) = is_alphanumeric c && (name_rest s && leb (length s) 63)

-- `ErrConfig`, as `New` gives it
pub data NewError : Type 0 where
  bad_config : ConfigError → NewError
  bad_name no_reporter duplicate : NewError

-- A lane under its name
pub record Lane : Type 0 where
  pub name : Bytes
  pub worker : Worker

unfoldable pub has_lane : Bytes → List Lane → Bool
has_lane name [] = false
has_lane name (l ∷ lanes) = bytes_eq l.name name || has_lane name lanes

-- The loop of `New`
unfoldable pub add_destinations :
    Config → Wiring → List Destination → List Lane → Result NewError (List Lane)
unfolding name_matches has_lane
add_destinations c w [] lanes = ok lanes
add_destinations c w (d ∷ ds) lanes =
    let rest =
      add_destinations c w ds (lanes ++ record { name = d.name; worker = new_worker c w } ∷ []) in
    if not (name_matches d.name)
    then err bad_name
    else if not d.has_reporter
    then err no_reporter
    else if has_lane d.name lanes
    then err duplicate
    else rest

start_lanes :
    Config → Wiring → List Destination → Result ConfigError (Unit {0}) → Result NewError (List Lane)
unfolding add_destinations
start_lanes c w ds (ok u) = add_destinations c w ds []
start_lanes c w ds (err e) = err (bad_config e)

-- `New`
unfoldable pub new : Config → Wiring → List Destination → Result NewError (List Lane)
unfolding start_lanes
new c w ds = start_lanes c w ds (validate c)

-- `Dispatcher.Enqueue`
unfoldable pub enqueue_to : Bytes → Event → List Lane → List Lane × Bool
enqueue_to name e [] = ([], false)
enqueue_to name e (l ∷ lanes) =
    let (others, done) = enqueue_to name e lanes in
    let (worker, taken) = enqueue_event e l.worker in
    if bytes_eq l.name name
    then (record l { worker = worker } ∷ lanes, taken)
    else (l ∷ others, done)

-- What `Close` reports: the destinations with undelivered events, none of which is a nil error
unfoldable pub lost : List Lane → List (Bytes × ℕ)
lost [] = []
lost (l ∷ lanes) =
    let more = lost lanes in
    if ltb 0 l.worker.counters.undelivered
    then (l.name, l.worker.counters.undelivered) ∷ more
    else more
