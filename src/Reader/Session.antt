-- ===== src/Reader/Session.antt =====
-- A session: its connections and its retries (internal/reader/session.go). What the outside does is
-- given with each message: whether the context is cancelled before the read, the results of the read
-- and of the write if the message leads to one, the time, and, while the observations of a report are
-- sent, how many of them the output queue takes and how many times the context is found not cancelled.
pub mod Stages
pub mod Serving
pub mod Run
pub mod Retries
use tagstrak.Common.{
  ℕ, zero, suc, ◌+◌, ◌-◌, ◌%◌, ◌^◌, Bool, true, false, ◌||◌, ◌&&◌, not, List, [], ◌∷◌, ◌++◌, Bytes,
  Option, none, some, length, ltb, leb, ◌==◌, if◌then◌else◌, Result, ok, err,
}
use tagstrak.Inventory.{Observation}
use tagstrak.Llrp.Error as Codec
use tagstrak.Llrp.Frame.{Message}
use tagstrak.Llrp.Messages.{set_reader_config_message, keepalive_ack_message}
use tagstrak.Reader.Config.{Config, backoff}
use tagstrak.Reader.Protocol.{
  Error, protocol, backpressure, context_error, codec, inventory, as_protocol,
  validate_notification, validate_config_response, decode_observations,
}

pub data State : Type 0 where
  idle connecting handshaking serving keepalive reporting reconnecting stopping stopped failed :
      State

-- `Snapshot`, its last error by whether there is one
pub record Snapshot : Type 0 where
  pub state : State
  pub ready : Bool
  pub attempts : ℕ
  pub reconnects : ℕ
  pub frames : ℕ
  pub reports : ℕ
  pub observations : ℕ
  pub keepalives : ℕ
  pub queue_overflows : ℕ
  pub failures : ℕ
  pub last_error : Option Error
  pub retry_delay : ℕ

abbrev pub next_u64 : ℕ → ℕ
next_u64 n = (n + 1) % 2 ^ 64

unfoldable pub is_ready : State → Bool
is_ready serving = true
is_ready keepalive = true
is_ready reporting = true
is_ready other = false

-- `Session.transition`
unfoldable pub transition : State → Snapshot → Snapshot
unfolding is_ready
transition state v = record v { state = state; ready = is_ready state }

-- Where `connected` stands: before the notification, before the response, or in the last loop
pub data Stage : Type 0 where
  opening requested open_stage : Stage

pub record Connection : Type 0 where
  pub stage : Stage
  pub status : Snapshot
  pub written : List Message
  pub out : List Observation

-- A message with what the outside does while it is awaited and handled
pub record Incoming : Type 0 where
  pub cancelled : Bool
  pub read : Result Error Message
  pub write : Result Error (Unit {0})
  pub now : ℕ
  pub room : ℕ
  pub checks : ℕ

-- An end of `connected`, or its going on
pub data Outcome : Type 0 where
  goes_on : Connection → Outcome
  ends : Connection → Error → Outcome

-- `write`, and what comes after it
unfoldable pub write_then : Incoming → Message → Connection → (Connection → Outcome) → Outcome
write_then i m k rest = elim i.write [
  | ok done ↦ rest (record k { written = k.written ++ m ∷ [] })
  | err e ↦ ends k e
]

count_keepalive : Connection → Connection
count_keepalive k = record k {
  status = record k.status { keepalives = next_u64 k.status.keepalives };
}

enter : State → Connection → Connection
unfolding transition
enter state k = record k { status = transition state k.status }

-- A message before the notification
unfoldable pub handle_opening : Config → Incoming → Message → Connection → Outcome
unfolding write_then
handle_opening c i m k = elim (validate_notification m c.limits true) [
  | ok tt ↦
      write_then i (set_reader_config_message c.initial_message_id) k
        (λ k'. goes_on (record k' { stage = requested }))
  | err e ↦ ends k e
]

-- A message before the response: keepalives are acknowledged.
unfoldable pub handle_requested : Config → Incoming → Message → Connection → Outcome
unfolding write_then enter count_keepalive
handle_requested c i m k =
    if m.header.kind == 1086
    then (if not (length m.payload == 0)
        then ends k protocol
        else write_then i (keepalive_ack_message m.header.id) k
            (λ k'. goes_on (count_keepalive k')))
    else elim (validate_config_response m c.initial_message_id c.limits) [
      | ok tt ↦ goes_on (
          enter serving
            (record k { stage = open_stage; status = record k.status { last_error = none } }))
      | err e ↦ ends k e
    ]

-- The sends of a report: before each, the context is looked at, which is cancelled after `checks`
-- times; `room` observations are taken, and the next one finds the queue full.
unfoldable pub send_observations : (room checks : ℕ) → List Observation → Connection → Outcome
send_observations room checks [] k = goes_on k
send_observations room zero (o ∷ os) k = ends k context_error
send_observations zero (suc checks) (o ∷ os) k =
    ends
      (record k {
        status = record k.status { queue_overflows = next_u64 k.status.queue_overflows };
      })
      backpressure
send_observations (suc room) (suc checks) (o ∷ os) k = send_observations room checks os (record k {
  status = record k.status { observations = next_u64 k.status.observations };
  out = k.out ++ o ∷ [];
})

unfoldable pub then_serving : Outcome → Outcome
unfolding enter
then_serving (goes_on k) = goes_on (enter serving k)
then_serving (ends k e) = ends k e

handle_report : Incoming → Result Error (List Observation) → Connection → Outcome
unfolding send_observations
handle_report i (err e) k = ends k protocol
handle_report i (ok os) k =
    send_observations i.room i.checks os
      (record k { status = record k.status { reports = next_u64 k.status.reports } })

-- A message in the last loop
unfoldable pub handle_serving : Config → Incoming → Message → Connection → Outcome
unfolding write_then then_serving enter count_keepalive handle_report
handle_serving c i m k =
    if m.header.kind == 1086
    then (if not (length m.payload == 0)
        then ends k protocol
        else then_serving (
            write_then i (keepalive_ack_message m.header.id) (enter keepalive k)
              (λ k'. goes_on (count_keepalive k'))))
    else if m.header.kind == 1085
    then then_serving (
        handle_report i (decode_observations m.payload c.limits c.source i.now) (enter reporting k))
    else if m.header.kind == 1087
    then elim (validate_notification m c.limits false) [
      | ok tt ↦ goes_on (enter serving k)
      | err e ↦ ends k e
    ]
    else ends k protocol

handle_stage : Stage → Config → Incoming → Message → Connection → Outcome
unfolding handle_opening handle_requested handle_serving
handle_stage opening c i m k = handle_opening c i m k
handle_stage requested c i m k = handle_requested c i m k
handle_stage open_stage c i m k = handle_serving c i m k

unfoldable pub receive_read : Config → Incoming → Result Error Message → Connection → Outcome
unfolding handle_stage
receive_read c i (err e) k = ends k e
receive_read c i (ok m) k =
    handle_stage k.stage c i m
      (record k { status = record k.status { frames = next_u64 k.status.frames } })

-- The last loop looks at the context before it reads.
await : Stage → Config → Incoming → Connection → Outcome
unfolding receive_read
await open_stage c i k = if i.cancelled then ends k context_error else receive_read c i i.read k
await other c i k = receive_read c i i.read k

-- A round of `connected`
unfoldable pub receive : Config → Incoming → Connection → Outcome
unfolding await
receive c i k = await k.stage c i k

unfoldable pub and_then : Outcome → (Connection → Outcome) → Outcome
and_then (goes_on k) rest = rest k
and_then (ends k e) rest = ends k e

-- `connected` on the messages that come
unfoldable pub receive_all : Config → List Incoming → Connection → Outcome
unfolding receive and_then
receive_all c [] k = goes_on k
receive_all c (i ∷ is) k = and_then (receive c i k) (receive_all c is)

-- The start of `connected`
unfoldable pub connect : Snapshot → List Observation → Connection
unfolding transition
connect v out = record {
  stage = opening;
  status = transition handshaking v;
  written = [];
  out = out;
}
