-- ===== src/Report/Tests.antt =====
-- Runs of report delivery, and the theorems at concrete inputs.
use tagstrak.Common.{
  ℕ, ◌+◌, ◌*◌, ◌-◌, ◌%◌, ◌^◌, ◌≤◌, ◌<◌, ◌≡◌, ◌⊎◌, ◌↔◌, refl, arith, true, false, min, max, List, [],
  ◌∷◌, ◌++◌, Bytes, codes, Option, none, some, ok, length, length-append, All,
}
use tagstrak.Report.Failure.{plain, is_permanent}
use tagstrak.Report.Config.{default_config, backoff}
use tagstrak.Report.Config.Laws.{IsBounded}
use tagstrak.Report.Deliver.{judge, retry, failed}
use tagstrak.Report.Deliver.Laws.{judge-retry, hint_or_zero}
use tagstrak.Report.Wire.{
  Event, wire_event, encode_event, batch_envelope, batch_id, encode_batch, joined, hex,
}
use tagstrak.Report.Worker.{
  Wiring, Phase, delivering, finished, Worker, Delivery, Action, enqueue, close, abort, flush,
  receive, answer, envelope, event_body, new_worker, enqueue_event, step, step_worker, Reachable,
  created, stepped, resume, add_u64,
}
use tagstrak.Report.Worker.Closing.{finished_accounted}
use tagstrak.Report.Worker.Order.{encodable, open_events, offered-accepted}
use tagstrak.Report.Worker.Limits.{IsQuoting, delivering_bounded}
use tagstrak.Report.Worker.Drain.{work_left, step_worker_bounded}
use tagstrak.Report.Worker.Schedule.{Turn, run_worker}
use tagstrak.Report.Worker.Drained.{Drained, run_worker-Drained}
use tagstrak.Report.Worker.Bodies.{encodings, delivering_body}
use tagstrak.Report.Worker.Enqueue.{enqueue_event_lem}
use tagstrak.Report.Dispatcher.{Destination, new}
use tagstrak.Report.Dispatcher.Laws.{IsValid, Distinct, lanes_of, new-lanes_of}

-- `json.Marshal` on a text with nothing to escape
quote : Bytes → Bytes
quote s = b'"' ∷ (s ++ b'"' ∷ [])

instance_id : Bytes
instance_id = codes "00c0ffee00c0ffee"

abbrev wiring : Wiring
wiring = record {
  marshal = λ e. some e.id;
  time = λ t. [];
  marshal_text = quote;
  instance_id = instance_id;
}

abbrev event : Event
event = record {
  id = codes "a-1";
  source = codes "reader-1";
  observed_at = 1;
  subscriptions = none;
  scheme = codes "sgtin-96";
  epc = 0x30 ∷ [];
  identity = record { authority = codes "gs1"; key_type = codes "sgtin"; components = none };
  pure_identity_uri = [];
}

hex_test : hex (0x30 ∷ 0xaf ∷ []) ≡ codes "30af"
unfolding hex
hex_test = refl

batch_id_test : batch_id instance_id 42 ≡ codes "00c0ffee00c0ffee:0000000042"
unfolding batch_id instance_id
batch_id_test = refl

judge_test : judge default_config false 10 0 (some (plain 1)) ≡ failed
unfolding judge is_permanent
judge_test = refl

backoff_test : backoff default_config 3 ≡ 800000000
unfolding backoff
backoff_test = refl

judge-retry_example : (judge default_config false 1 0 (some (plain 1)) ≡ retry 200000000) ↔ (
    (false ≡ false)
    × (is_permanent (plain 1) ≡ false)
    × (1 < 10)
    × (0 + 200000000 ≤ 30000000000)
    × (◌≡◌ {A = ℕ} 200000000
        (min (max (200000000 * 2 ^ (1 - 1)) (hint_or_zero (plain 1))) 10000000000)))
judge-retry_example = judge-retry default_config false 1 0 200000000 (plain 1)

-- The worker from the start: an event is accepted, the dispatcher closes, the worker takes the event,
-- sends what it has, and returns when the reporter has answered.
abbrev started : Worker
started = new_worker default_config wiring

or_same : Worker → Option Worker → Worker
or_same s none = s
or_same s (some t) = t

after : Action → Worker → Worker
unfolding or_same
after a s = or_same s (step default_config wiring a s)

or_same-Reachable :
    (a : Action) (s : Worker) (o : Option Worker)
    → Reachable default_config wiring s
    → step default_config wiring a s ≡ o
    → Reachable default_config wiring (or_same s o)
unfolding or_same
or_same-Reachable a s none r e = r
or_same-Reachable a s (some t) r e = stepped a s t r e

after-Reachable :
    (a : Action) (s : Worker)
    → Reachable default_config wiring s
    → Reachable default_config wiring (after a s)
unfolding after
after-Reachable a s r = or_same-Reachable a s (step default_config wiring a s) r refl

abbrev queued : Worker
queued = after (enqueue event) started

abbrev closed : Worker
closed = after close queued

abbrev taken : Worker
taken = after receive closed

abbrev sending : Worker
sending = after receive taken

abbrev done : Worker
done = after (answer none 0) sending

done_phase : done.phase ≡ finished
unfolding step after new_worker quote instance_id envelope event_body batch_envelope encode_event
    wire_event encode_batch batch_id joined judge
done_phase = refl

queued-Reachable : Reachable default_config wiring queued
queued-Reachable = after-Reachable (enqueue event) started created

sending-Reachable : Reachable default_config wiring sending
sending-Reachable =
    after-Reachable receive taken
      (after-Reachable receive closed (after-Reachable close queued queued-Reachable))

finished_accounted_example :
    (done.closed ≡ true)
    × (done.queue ≡ [])
    × (done.counters.enqueued
        ≡ (done.counters.delivered + done.counters.failed + done.counters.undelivered) % 2 ^ 64)
finished_accounted_example =
    finished_accounted default_config wiring done
      (after-Reachable (answer none 0) sending sending-Reachable) done_phase

offered-accepted_example :
    encodable wiring sending.accepted
    ≡ sending.offered
      ++ (open_events sending.phase
          ++ (encodable wiring sending.queue ++ encodable wiring sending.left_over))
offered-accepted_example = offered-accepted default_config wiring sending sending-Reachable

wiring-IsQuoting : IsQuoting wiring
unfolding quote
wiring-IsQuoting = record {
  quoted = λ n. omega (arith, length-append {0} (batch_id instance_id n) (b'"' ∷ []));
}

delivery : Phase → Delivery
delivery (delivering d) = d
delivery other = record { id = []; events = []; body = []; attempt = 0; after = resume }

abbrev first_delivery : Delivery
first_delivery = delivery sending.phase

sending_phase : sending.phase ≡ delivering first_delivery
unfolding step after new_worker quote instance_id envelope event_body batch_envelope encode_event
    wire_event encode_batch batch_id joined delivery
sending_phase = refl

delivering_bounded_example :
    (1 ≤ length first_delivery.events)
    × (length first_delivery.events ≤ 500)
    × (1 ≤ first_delivery.attempt)
    × (first_delivery.attempt ≤ 10)
    × ((length first_delivery.events ≡ 1)
        ⊎ (length first_delivery.body + (length instance_id + 11)
            ≤ 1048576 + length first_delivery.id))
delivering_bounded_example =
    delivering_bounded default_config wiring wiring-IsQuoting (omega arith) (omega arith) sending
      first_delivery sending-Reachable sending_phase

delivering_body_example :
    (first_delivery.body
      ≡ encode_batch quote first_delivery.id (encodings wiring first_delivery.events))
    × (length (encodings wiring first_delivery.events) ≡ length first_delivery.events)
delivering_body_example =
    delivering_body default_config wiring sending first_delivery sending-Reachable sending_phase

taken_step : step_worker default_config wiring closed.phase receive closed ≡ some taken
unfolding step after new_worker quote instance_id envelope event_body batch_envelope
taken_step = refl

step_worker_bounded_example : work_left default_config taken < work_left default_config closed
step_worker_bounded_example =
    step_worker_bounded default_config wiring receive closed taken taken_step

closed_shut : closed.closed ≡ true
unfolding step after new_worker
closed_shut = refl

closed_work : work_left default_config closed ≤ 24
unfolding step after new_worker
closed_work = omega arith

closed-Reachable : Reachable default_config wiring closed
closed-Reachable = after-Reachable close queued queued-Reachable

-- The deadline passes, the dispatcher is closed again, and the flush timer is due at every turn.
abbrev busy : Turn
busy = record { others = close ∷ abort ∷ enqueue event ∷ []; chosen = flush; says = (none, 0) }

run_worker-Drained_example :
    Drained wiring closed (run_worker default_config wiring (λ n. busy) 24 closed)
run_worker-Drained_example =
    run_worker-Drained default_config wiring (λ n. busy) 24 closed closed-Reachable closed_shut
      closed_work

enqueue_event_lem_example :
    (((false ≡ false)
        × (0 < 10000)
        × ((enqueue_event event started).1 ≡ true)
        × ((enqueue_event event started).0.queue ≡ [] ++ event ∷ [])
        × ((enqueue_event event started).0.counters.enqueued ≡ add_u64 0 1)
        × ((enqueue_event event started).0.counters.dropped ≡ 0))
      ⊎ (((false ≡ true) ⊎ (10000 ≤ 0))
          × ((enqueue_event event started).1 ≡ false)
          × ((enqueue_event event started).0.queue ≡ [])
          × ((enqueue_event event started).0.counters.enqueued ≡ 0)
          × ((enqueue_event event started).0.counters.dropped ≡ add_u64 0 1)))
    × ((enqueue_event event started).0.phase ≡ started.phase)
unfolding new_worker
enqueue_event_lem_example = enqueue_event_lem event started

abbrev destinations : List Destination
destinations =
    record { name = codes "erp"; has_reporter = true }
    ∷ record { name = codes "lake.2"; has_reporter = true }
    ∷ []

new-lanes_of_example :
    (new default_config wiring destinations ≡ ok (lanes_of default_config wiring destinations)) ↔ (
      IsBounded default_config
      × All IsValid destinations
      × Distinct destinations
      × (lanes_of default_config wiring destinations ≡ lanes_of default_config wiring destinations))
new-lanes_of_example =
    new-lanes_of default_config wiring destinations (lanes_of default_config wiring destinations)
