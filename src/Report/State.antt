-- ===== src/Report/State.antt =====
-- The state of a destination's worker: its batches, its deliveries, the counters of `lane`, and the
-- actions of the scheduler (internal/report/dispatcher.go). Three fields are histories that no step
-- reads: the events that were accepted, those of the batches that the reporter was handed, and those
-- that the abandoned worker left.
use tagstrak.Common.{ℕ, ◌+◌, ◌%◌, ◌^◌, ◌++◌, Bool, List, Option, Bytes, codes}
use tagstrak.Report.Failure.{Failure}
use tagstrak.Report.Wire.{Event, WireEvent, encode_event, batch_envelope}

-- What the code computes with besides: `json.Marshal` on an event and on a batch's ID, the format of a
-- time, and the instance ID of the dispatcher.
pub record Wiring : Type 0 where
  pub marshal : WireEvent → Option Bytes
  pub time : ℕ → Bytes
  pub marshal_text : Bytes → Bytes
  pub instance_id : Bytes

-- `encodeEvent`
unfoldable pub event_body : Wiring → Event → Option Bytes
event_body w e = encode_event w.marshal w.time e

-- `envelope` of `run`: the size of a batch without events, under an ID of ten digits
unfoldable pub envelope : Wiring → ℕ
envelope w = batch_envelope w.marshal_text (w.instance_id ++ codes ":0000000000")

-- `events`, `encoded` and `size` of `run`
pub record Batch : Type 0 where
  pub events : List Event
  pub encoded : List Bytes
  pub size : ℕ

-- What `run` does when `deliver` returns: it goes on, appends the event that did not fit, or returns.
pub data After : Type 0 where
  resume leave : After
  open_with : Event → Bytes → After

-- A batch in delivery: `Batch` of report.go, the count of attempts, and the rest of `run`
pub record Delivery : Type 0 where
  pub id : Bytes
  pub events : List Event
  pub body : Bytes
  pub attempt : ℕ
  pub after : After

-- Where the worker stands: at the `select` of `run`, in `Deliver`, in `sleep`, or returned.
pub data Phase : Type 0 where
  collecting : Batch → Phase
  delivering : Delivery → Phase
  sleeping : Delivery → ℕ → Phase
  finished : Phase

-- The counters of a lane
pub record Counters : Type 0 where
  pub enqueued : ℕ
  pub delivered : ℕ
  pub dropped : ℕ
  pub failed : ℕ
  pub undelivered : ℕ
  pub retries : ℕ

pub record Worker : Type 0 where
  pub capacity : ℕ
  pub queue : List Event
  pub dropping : Bool
  pub counters : Counters
  pub closed : Bool
  pub aborted : Bool
  pub batches : ℕ
  pub phase : Phase
  pub accepted : List Event
  pub offered : List Event
  pub left_over : List Event

pub data Action : Type 0 where
  enqueue : Event → Action
  close abort other_batch receive flush abandon wake interrupt : Action
  answer : Option Failure → ℕ → Action

-- `atomic.Uint64.Add`
abbrev pub add_u64 : ℕ → ℕ → ℕ
add_u64 n d = (n + d) % 2 ^ 64
