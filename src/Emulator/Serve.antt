-- ===== src/Emulator/Serve.antt =====
-- The loop of a connection of the emulator (internal/emulator/session.go, `serve`), after the handshake:
-- reports, keepalives and their acknowledgements. What makes the loop go on is a cause, with the time
-- and what the connection does.
pub mod Round
use tagstrak.Common.{
  ℕ, ◌+◌, ◌%◌, ◌^◌, Bool, true, false, ◌||◌, not, List, [], ◌∷◌, ◌++◌, Bytes, Option, none, some,
  length, leb, ◌==◌, if◌then◌else◌, Result, ok, err, ◌>>=◌,
}
use tagstrak.Inventory.{Tag}
use tagstrak.Llrp.Frame.{Message}
use tagstrak.Llrp.Messages.{keepalive_message, ro_access_report_message}
use tagstrak.Emulator.{Config, Error, protocol, keepalive_timeout}
use tagstrak.Emulator.Cycle.{write_cycle}

-- Whether an acknowledgement is awaited (`ackC`), of which ID (`pending`), and until when
pub data Awaited : Type 0 where
  nothing : Awaited
  ack_of : ℕ → ℕ → Awaited

-- The variables of the loop; `armed` tells whether the keepalive timer runs.
pub record Link : Type 0 where
  pub awaited : Awaited
  pub armed : Bool
  pub keepalive_id : ℕ
  pub report_id : ℕ
  pub written : List Message

-- A message that was read with the time, a timer that is due, or a report that is due with the tags of
-- the cursor (`none` at the scenario's end)
pub data Cause : Type 0 where
  input : Result Error Message → ℕ → Cause
  keepalive_due : ℕ → Cause
  ack_due : Option (Result Error Message × ℕ) → Cause
  report_due : Result Error (Option (List Tag)) → Cause

-- What becomes of the loop; a cause that cannot be is `still`.
pub data Served : Type 0 where
  still : Served
  serves : Link → Served
  stops : Error → Served

unfoldable pub served : Result Error Link → Served
served (ok l) = serves l
served (err e) = stops e

-- `handle` on a message, where an acknowledgement is awaited
handle_ack : ℕ → ℕ → Message → ℕ → Link → Served
handle_ack pending deadline m received l =
    if not (m.header.kind == 1096) || (not (length m.payload == 0) || not (m.header.id == pending))
    then stops protocol
    else if leb deadline received
    then stops keepalive_timeout
    else serves (record l { awaited = nothing; armed = true })

handle_awaited : Awaited → Message → ℕ → Link → Served
unfolding handle_ack
handle_awaited nothing m received l = stops protocol
handle_awaited (ack_of pending deadline) m received l = handle_ack pending deadline m received l

-- `handle`
unfoldable pub handle : Result Error Message → ℕ → Link → Served
unfolding handle_awaited
handle (err e) received l = stops e
handle (ok m) received l = handle_awaited l.awaited m received l

module _ (c : Config) (write : Message → Result Error (Unit {0})) where
  sends : Message → Link → Result Error Link
  sends m l = do done ← write m; ok (record l { written = l.written ++ m ∷ [] })

  -- What `writeCycle` calls with each body
  emit_report : Bytes → Link → Result Error Link
  unfolding sends
  emit_report body l = do
    l' ← sends (ro_access_report_message body l.report_id) l
    ok (record l' { report_id = (l'.report_id + 1) % 2 ^ 32 })

  -- `report`
  report : Result Error (Option (List Tag)) → Link → Result Error Link
  unfolding emit_report
  report (err e) l = err e
  report (ok none) l = ok l
  report (ok (some tags)) l = write_cycle emit_report c.frame_bytes tags l

  -- The case of the keepalive timer
  send_keepalive : ℕ → Link → Result Error Link
  unfolding sends
  send_keepalive now l = do
    l' ← sends (keepalive_message l.keepalive_id) l
    ok (record l' {
      awaited = ack_of l.keepalive_id (now + c.ack_timeout);
      armed = false;
      keepalive_id = (l.keepalive_id + 1) % 2 ^ 32;
    })

  ack_timer : Awaited → Option (Result Error Message × ℕ) → Link → Served
  ack_timer nothing arrived l = still
  ack_timer (ack_of pending deadline) none l = stops keepalive_timeout
  ack_timer (ack_of pending deadline) (some (read, received)) l = handle read received l

  -- A round of the loop of `serve`
  unfoldable pub serve_step : Cause → Link → Served
  unfolding handle served report send_keepalive ack_timer
  serve_step (input read received) l = handle read received l
  serve_step (keepalive_due now) l = if l.armed then served (send_keepalive now l) else still
  serve_step (ack_due arrived) l = ack_timer l.awaited arrived l
  serve_step (report_due tags) l = served (report tags l)
