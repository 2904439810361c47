-- ===== src/Report/Worker/Counts.antt =====
-- Every accepted event is counted: delivered, failed, undelivered, queued or in hand.
use tagstrak.Common.{
  ℕ, ◌+◌, ◌%◌, ◌^◌, ◌≡◌, refl, ap, subst, arith, List, [], ◌∷◌, Option, none, some, Bytes, length,
  length-append, some-injective,
}
use tagstrak.Report.Config.{Config}
use tagstrak.Report.Deliver.{judge, Verdict, delivered, undelivered, failed, retry}
use tagstrak.Report.Wire.{Event}
use tagstrak.Report.Worker.{
  event_body, Wiring, Batch, After, resume, leave, open_with, Delivery, Phase, collecting,
  delivering, sleeping, finished, Worker, Action, enqueue, close, abort, other_batch, receive,
  flush, abandon, wake, interrupt, answer, empty_batch, enqueue_event, send, append_event,
  receive_event, receive_queue, delivery_done, settle, abandon_queue, step_collecting,
  step_delivering, step_sleeping, step_worker, step, new_worker, Reachable, created, stepped,
}

abbrev pub pending : After → ℕ
pending resume = 0
pending leave = 0
pending (open_with e body) = 1

-- The events that have left the queue and are not counted yet
abbrev pub in_hand : Phase → ℕ
in_hand (collecting b) = length b.events
in_hand (delivering d) = length d.events + pending d.after
in_hand (sleeping d wait) = length d.events + pending d.after
in_hand finished = 0

abbrev pub IsPaired : Phase → Type 0
IsPaired (collecting b) = length b.encoded ≡ length b.events
IsPaired other = Unit {0}

abbrev Balance : ℕ → Worker → Type 0
Balance n s =
    s.counters.enqueued
    ≡ (s.counters.delivered + s.counters.failed + s.counters.undelivered + (length s.queue + n))
      % 2 ^ 64

pub record IsCounted (s : Worker) : Type 0 where
  pub balance : Balance (in_hand s.phase) s
  pub paired : IsPaired s.phase

module _ (c : Config) (w : Wiring) where
  send-IsCounted :
      (b : Batch) (after : After) (s : Worker)
      → Balance (length b.events + pending after) s
      → IsCounted (send w b after s)
  unfolding send
  send-IsCounted b after s h = record { balance = h; paired = tt }

  append_event-IsCounted :
      (b : Batch) (e : Event) (body : Bytes) (s : Worker)
      → Balance (length b.events + 1) s
      → length b.encoded ≡ length b.events
      → IsCounted (append_event c w b e body s)
  unfolding append_event
  append_event-IsCounted b e body s h p =
      ground (arith, length-append {0} b.events (e ∷ []), length-append {0} b.encoded (body ∷ []))

  delivery_done-IsCounted :
      (after : After) (s : Worker)
      → Balance (pending after) s
      → IsCounted (delivery_done c w after s)
  unfolding delivery_done empty_batch
  delivery_done-IsCounted resume s h = record { balance = h; paired = refl }
  delivery_done-IsCounted leave s h = record { balance = h; paired = tt }
  delivery_done-IsCounted (open_with e body) s h =
      append_event-IsCounted (empty_batch w) e body s h refl

  settle-IsCounted :
      (d : Delivery) (v : Verdict) (s : Worker)
      → Balance (length d.events + pending d.after) s
      → IsCounted (settle c w d v s)
  unfolding settle
  settle-IsCounted d delivered s h = delivery_done-IsCounted d.after _ (omega arith)
  settle-IsCounted d undelivered s h = delivery_done-IsCounted d.after _ (omega arith)
  settle-IsCounted d failed s h = delivery_done-IsCounted d.after _ (omega arith)
  settle-IsCounted d (retry wait) s h = record { balance = h; paired = tt }

  receive_event-IsCounted :
      (b : Batch) (e : Event) (body : Option Bytes) (s : Worker)
      → Balance (length b.events + 1) s
      → length b.encoded ≡ length b.events
      → s.phase ≡ collecting b
      → IsCounted (receive_event c w b e body s)
  unfolding receive_event
  receive_event-IsCounted b e none s h p at = ground arith
  receive_event-IsCounted b e (some body) s h p at =
      ground (arith, send-IsCounted b (open_with e body) s h, append_event-IsCounted b e body s h p)

  receive_queue-IsCounted :
      (b : Batch) (queue : List Event) (s t : Worker)
      → Balance (length b.events) s
      → length b.encoded ≡ length b.events
      → s.phase ≡ collecting b
      → s.queue ≡ queue
      → receive_queue c w b queue s ≡ some t
      → IsCounted t
  unfolding receive_queue
  receive_queue-IsCounted b [] s t h p at q e = ground (arith, send-IsCounted b leave s)
  receive_queue-IsCounted b (x ∷ queue) s t h p at q e =
      let ready : Balance (length b.events + 1) (record s { queue = queue }) =
        ground (arith, ap (length {A = Event}) q) in
      ground (
        arith,
        receive_event-IsCounted b x (event_body w x) (record s { queue = queue }) ready p at,
      )

  step_collecting-IsCounted :
      (b : Batch) (a : Action) (s t : Worker)
      → Balance (length b.events) s
      → length b.encoded ≡ length b.events
      → s.phase ≡ collecting b
      → step_collecting c w b a s ≡ some t
      → IsCounted t
  unfolding step_collecting abandon_queue
  step_collecting-IsCounted b receive s t h p at e =
      receive_queue-IsCounted b s.queue s t h p at refl e
  step_collecting-IsCounted b flush s t h p at e = ground (arith, send-IsCounted b resume s)
  step_collecting-IsCounted b abandon s t h p at e = ground arith
  step_collecting-IsCounted b (enqueue x) s t h p at e = cc
  step_collecting-IsCounted b other s t h p at e = cc

  step_worker-IsCounted :
      (phase : Phase) (a : Action) (s t : Worker)
      → Balance (in_hand phase) s
      → IsPaired phase
      → s.phase ≡ phase
      → step_worker c w phase a s ≡ some t
      → IsCounted t
  unfolding step_worker step_delivering step_sleeping
  step_worker-IsCounted (collecting b) a s t h p at e = step_collecting-IsCounted b a s t h p at e
  step_worker-IsCounted (delivering d) (answer r elapsed) s t h p at e =
      ground (arith, settle-IsCounted d (judge c s.aborted d.attempt elapsed r) s h)
  step_worker-IsCounted (delivering d) other s t h p at e = cc
  step_worker-IsCounted (sleeping d wait) wake s t h p at e = ground arith
  step_worker-IsCounted (sleeping d wait) interrupt s t h p at e =
      ground (arith, settle-IsCounted d undelivered s h)
  step_worker-IsCounted (sleeping d wait) other s t h p at e = cc
  step_worker-IsCounted finished a s t h p at e = cc

  enqueue_event-IsCounted : (x : Event) (s : Worker) → IsCounted s → IsCounted (enqueue_event x s).0
  unfolding enqueue_event
  enqueue_event-IsCounted x s h = ground (arith, length-append {0} s.queue (x ∷ []))

  step-IsCounted : (a : Action) (s t : Worker) → IsCounted s → step c w a s ≡ some t → IsCounted t
  unfolding step
  step-IsCounted (enqueue x) s t h e =
      subst IsCounted (some-injective _ _ e) (enqueue_event-IsCounted x s h)
  step-IsCounted close s t h e = ground arith
  step-IsCounted abort s t h e = ground arith
  step-IsCounted other_batch s t h e = ground arith
  step-IsCounted other s t h e = step_worker-IsCounted s.phase other s t h.balance h.paired refl e

  -- However enqueues, closing, timers and the reporter's answers interleave, every event that was
  -- accepted is delivered, failed, undelivered, still queued or in the worker's hand, so that the
  -- counters add up modulo 2^64.
  pub Reachable-IsCounted : (s : Worker) → Reachable c w s → IsCounted s
  unfolding new_worker empty_batch
  Reachable-IsCounted u created = record { balance = refl; paired = refl }
  Reachable-IsCounted u (stepped a s t r e) = step-IsCounted a s t (Reachable-IsCounted s r) e
