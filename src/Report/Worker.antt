-- ===== src/Report/Worker.antt =====
-- The queue of one destination and its worker (internal/report/dispatcher.go: `lane`, `Enqueue`, `run`,
-- `deliver`, `abandon`, `Close`), as one state and the steps that the goroutines make on it. A step
-- is an action of the scheduler: what a `select`, a channel or a lock lets happen at once.
pub mod Closing
pub mod Counts
pub mod Enqueue
pub mod Order
pub mod Limits
pub mod Drain
pub mod Schedule
pub mod Drained
pub mod Bodies
use tagstrak.Common.{
  ℕ, zero, suc, ◌+◌, ◌%◌, ◌^◌, ◌≡◌, Bool, true, false, ◌&&◌, ◌||◌, not, List, [], ◌∷◌, ◌++◌, Option,
  none, some, Bytes, length, ltb, leb, ◌==◌, if◌then◌else◌,
}
pub use tagstrak.Report.State.{
  Wiring, Batch, After, resume, leave, open_with, Delivery, Phase, collecting, delivering, sleeping,
  finished, Counters, Worker, Action, enqueue, close, abort, other_batch, receive, flush, abandon,
  wake, interrupt, answer,
}
unfoldable pub use tagstrak.Report.State.{add_u64, event_body, envelope}
use tagstrak.Report.Config.{Config}
use tagstrak.Report.Failure.{Failure}
use tagstrak.Report.Deliver.{judge, Verdict, delivered, undelivered, failed, retry}
use tagstrak.Report.Wire.{Event, encode_batch, batch_id}

unfoldable pub empty_batch : Wiring → Batch
empty_batch w = record { events = []; encoded = []; size = envelope w }

-- `Dispatcher.Enqueue` on a destination that exists
unfoldable pub enqueue_event : Event → Worker → Worker × Bool
enqueue_event e s =
    if s.closed
    then (
      record s { counters = record s.counters { dropped = add_u64 s.counters.dropped 1 } },
      false,
    )
    else if ltb (length s.queue) s.capacity
    then (
      record s {
        queue = s.queue ++ e ∷ [];
        dropping = false;
        counters = record s.counters { enqueued = add_u64 s.counters.enqueued 1 };
        accepted = s.accepted ++ e ∷ [];
      },
      true,
    )
    else (
      record s {
        dropping = true;
        counters = record s.counters { dropped = add_u64 s.counters.dropped 1 };
      },
      false,
    )

-- `send` on a batch with events: `deliver` numbers and encodes it, and makes the first attempt.
unfoldable pub send : Wiring → Batch → After → Worker → Worker
send w b after s =
    let number = add_u64 s.batches 1 in
    let id = batch_id w.instance_id number in
    record s {
      batches = number;
      phase = delivering (record {
        id = id;
        events = b.events;
        body = encode_batch w.marshal_text id b.encoded;
        attempt = 1;
        after = after;
      });
      offered = s.offered ++ b.events;
    }

-- The rest of a round of `run`, from the append on
unfoldable pub append_event : Config → Wiring → Batch → Event → Bytes → Worker → Worker
unfolding send
append_event c w b e body s =
    let b' : Batch = record {
      events = b.events ++ e ∷ [];
      encoded = b.encoded ++ body ∷ [];
      size = b.size + (length body + 1);
    } in
    if leb c.batch_events (length b'.encoded) || leb c.batch_bytes b'.size
    then send w b' resume s
    else record s { phase = collecting b' }

-- A round of `run` on an event from the queue
unfoldable pub receive_event : Config → Wiring → Batch → Event → Option Bytes → Worker → Worker
unfolding append_event send
receive_event c w b e none s = record s {
  counters = record s.counters { failed = add_u64 s.counters.failed 1 };
}
receive_event c w b e (some body) s =
    if ltb 0 (length b.encoded) && ltb c.batch_bytes (b.size + length body + 1)
    then send w b (open_with e body) s
    else append_event c w b e body s

-- The first case of the `select` in `run`; an empty queue that is not closed blocks.
unfoldable pub receive_queue : Config → Wiring → Batch → List Event → Worker → Option Worker
unfolding receive_event send
receive_queue c w b [] s =
    if s.closed
    then (if length b.encoded == 0
        then some (record s { phase = finished })
        else some (send w b leave s))
    else none
receive_queue c w b (e ∷ queue) s =
    some (receive_event c w b e (event_body w e) (record s { queue = queue }))

-- `deliver` has returned.
unfoldable pub delivery_done : Config → Wiring → After → Worker → Worker
unfolding append_event empty_batch
delivery_done c w resume s = record s { phase = collecting (empty_batch w) }
delivery_done c w leave s = record s { phase = finished }
delivery_done c w (open_with e body) s = append_event c w (empty_batch w) e body s

-- What the loop of `deliver` does on a verdict
unfoldable pub settle : Config → Wiring → Delivery → Verdict → Worker → Worker
unfolding delivery_done
settle c w d delivered s = delivery_done c w d.after (record s {
  counters = record s.counters { delivered = add_u64 s.counters.delivered (length d.events) };
})
settle c w d undelivered s = delivery_done c w d.after (record s {
  counters = record s.counters { undelivered = add_u64 s.counters.undelivered (length d.events) };
})
settle c w d failed s = delivery_done c w d.after (record s {
  counters = record s.counters { failed = add_u64 s.counters.failed (length d.events) };
})
settle c w d (retry wait) s = record s {
  counters = record s.counters { retries = add_u64 s.counters.retries 1 };
  phase = sleeping d wait;
}

-- `abandon` with the return of `run`
unfoldable pub abandon_queue : Batch → Worker → Worker
abandon_queue b s = record s {
  counters = record s.counters {
    undelivered = add_u64 (add_u64 s.counters.undelivered (length b.encoded)) (length s.queue);
  };
  queue = [];
  phase = finished;
  left_over = b.events ++ s.queue;
}

-- The steps of the worker at the `select` of `run`
unfoldable pub step_collecting : Config → Wiring → Batch → Action → Worker → Option Worker
unfolding receive_queue send abandon_queue
step_collecting c w b receive s = receive_queue c w b s.queue s
step_collecting c w b flush s = if length b.encoded == 0 then none else some (send w b resume s)
step_collecting c w b abandon s = if s.aborted then some (abandon_queue b s) else none
step_collecting c w b other s = none

-- The answer of `Deliver`
unfoldable pub step_delivering : Config → Wiring → Delivery → Action → Worker → Option Worker
unfolding settle
step_delivering c w d (answer result elapsed) s =
    some (settle c w d (judge c s.aborted d.attempt elapsed result) s)
step_delivering c w d other s = none

-- The end of `sleep`
unfoldable pub step_sleeping : Config → Wiring → Delivery → Action → Worker → Option Worker
unfolding settle
step_sleeping c w d wake s =
    some (record s { phase = delivering (record d { attempt = d.attempt + 1 }) })
step_sleeping c w d interrupt s = if s.aborted then some (settle c w d undelivered s) else none
step_sleeping c w d other s = none

unfoldable pub step_worker : Config → Wiring → Phase → Action → Worker → Option Worker
unfolding step_collecting step_delivering step_sleeping
step_worker c w (collecting b) a s = step_collecting c w b a s
step_worker c w (delivering d) a s = step_delivering c w d a s
step_worker c w (sleeping d wait) a s = step_sleeping c w d a s
step_worker c w finished a s = none

-- A step; `none` where the action cannot happen. `Close` closes every queue before it can abort.
unfoldable pub step : Config → Wiring → Action → Worker → Option Worker
unfolding step_worker enqueue_event
step c w (enqueue e) s = some (enqueue_event e s).0
step c w close s = some (record s { closed = true })
step c w abort s = if s.closed then some (record s { aborted = true }) else none
step c w other_batch s = some (record s { batches = add_u64 s.batches 1 })
step c w a s = step_worker c w s.phase a s

-- `New` on a destination
unfoldable pub new_worker : Config → Wiring → Worker
unfolding empty_batch
new_worker c w = record {
  capacity = c.queue_capacity;
  queue = [];
  dropping = false;
  counters = record {
    enqueued = 0;
    delivered = 0;
    dropped = 0;
    failed = 0;
    undelivered = 0;
    retries = 0;
  };
  closed = false;
  aborted = false;
  batches = 0;
  phase = collecting (empty_batch w);
  accepted = [];
  offered = [];
  left_over = [];
}

-- The states that some sequence of steps leads to
pub data Reachable (c : Config) (w : Wiring) : Worker → Type 0 where
  created : Reachable c w (new_worker c w)
  stepped : (a : Action) (s t : Worker) → Reachable c w s → step c w a s ≡ some t → Reachable c w t
