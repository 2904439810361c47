-- ===== src/Report/Worker/Closing.antt =====
-- What closing brings: the worker returns only from a closed and empty queue, and leaves events over
-- only where it is abandoned.
use tagstrak.Common.{
  ◌+◌, ◌%◌, ◌^◌, ◌≡◌, refl, ap, subst, arith, Bool, true, false, List, [], ◌∷◌, ◌++◌, Option, none,
  some, some-injective, Bytes, length, Bool-cases, inl, inr,
}
use tagstrak.Report.Worker.Counts.{in_hand, Reachable-IsCounted}
use tagstrak.Report.Config.{Config}
use tagstrak.Report.Deliver.{judge, Verdict, delivered, undelivered, failed, retry}
use tagstrak.Report.Wire.{Event}
use tagstrak.Report.Worker.{
  event_body, Wiring, Batch, After, resume, leave, open_with, Delivery, Phase, collecting,
  delivering, sleeping, finished, Worker, Action, enqueue, close, abort, other_batch, receive,
  flush, abandon, wake, interrupt, answer, empty_batch, enqueue_event, send, append_event,
  receive_event, receive_queue, delivery_done, settle, abandon_queue, step_collecting,
  step_delivering, step_sleeping, step_worker, step, new_worker, Reachable, created, stepped,
}

abbrev pub IsDrained : List Event → Bool → Type 0
IsDrained queue closed = (queue ≡ []) × (closed ≡ true)

-- Of a delivery after which `run` returns
abbrev pub Ending : After → List Event → Bool → Type 0
Ending leave queue closed = IsDrained queue closed
Ending other queue closed = Unit {0}

abbrev pub Closing : Phase → List Event → List Event → Bool → Type 0
Closing (collecting b) rest queue closed = rest ≡ []
Closing (delivering d) rest queue closed = (rest ≡ []) × Ending d.after queue closed
Closing (sleeping d wait) rest queue closed = (rest ≡ []) × Ending d.after queue closed
Closing finished rest queue closed = IsDrained queue closed

pub open-Closing :
    (phase : Phase) (rest queue : List Event) (closed : Bool)
    → closed ≡ false
    → Closing phase rest queue closed
    → rest ≡ []
open-Closing (collecting b) rest queue closed o h = h
open-Closing (delivering d) rest queue closed o h = h.0
open-Closing (sleeping d wait) rest queue closed o h = h.0
open-Closing finished rest queue closed o h = cc

pub record IsClosing (s : Worker) : Type 0 where
  pub phases : Closing s.phase s.left_over s.queue s.closed
  pub aborting : s.aborted ≡ true → s.closed ≡ true

close-Ending :
    (after : After) (queue : List Event) (closed : Bool)
    → Ending after queue closed
    → Ending after queue true
close-Ending leave queue closed h = (h.0, refl)
close-Ending other queue closed h = tt

close-Closing :
    (phase : Phase) (rest queue : List Event) (closed : Bool)
    → Closing phase rest queue closed
    → Closing phase rest queue true
close-Closing (collecting b) rest queue closed h = h
close-Closing (delivering d) rest queue closed h = (h.0, close-Ending d.after queue closed h.1)
close-Closing (sleeping d wait) rest queue closed h = (h.0, close-Ending d.after queue closed h.1)
close-Closing finished rest queue closed h = (h.0, refl)

enqueue-Ending :
    (after : After) (queue queue' : List Event) (closed : Bool)
    → closed ≡ false
    → Ending after queue closed
    → Ending after queue' closed
enqueue-Ending leave queue queue' closed o h = cc
enqueue-Ending other queue queue' closed o h = tt

enqueue-Closing :
    (phase : Phase) (rest queue queue' : List Event) (closed : Bool)
    → closed ≡ false
    → Closing phase rest queue closed
    → Closing phase rest queue' closed
enqueue-Closing (collecting b) rest queue queue' closed o h = h
enqueue-Closing (delivering d) rest queue queue' closed o h =
    (h.0, enqueue-Ending d.after queue queue' closed o h.1)
enqueue-Closing (sleeping d wait) rest queue queue' closed o h =
    (h.0, enqueue-Ending d.after queue queue' closed o h.1)
enqueue-Closing finished rest queue queue' closed o h = cc

module _ (c : Config) (w : Wiring) where
  append_event-IsClosing :
      (b : Batch) (e : Event) (body : Bytes) (s : Worker)
      → s.left_over ≡ []
      → (s.aborted ≡ true → s.closed ≡ true)
      → IsClosing (append_event c w b e body s)
  unfolding append_event send
  append_event-IsClosing b e body s h g = ground arith

  delivery_done-IsClosing :
      (after : After) (s : Worker)
      → s.left_over ≡ []
      → Ending after s.queue s.closed
      → (s.aborted ≡ true → s.closed ≡ true)
      → IsClosing (delivery_done c w after s)
  unfolding delivery_done empty_batch
  delivery_done-IsClosing resume s h k g = record { phases = h; aborting = g }
  delivery_done-IsClosing leave s h k g = record { phases = k; aborting = g }
  delivery_done-IsClosing (open_with e body) s h k g =
      append_event-IsClosing (empty_batch w) e body s h g

  settle-IsClosing :
      (d : Delivery) (v : Verdict) (s : Worker)
      → s.left_over ≡ []
      → Ending d.after s.queue s.closed
      → (s.aborted ≡ true → s.closed ≡ true)
      → IsClosing (settle c w d v s)
  unfolding settle
  settle-IsClosing d delivered s h k g = delivery_done-IsClosing d.after _ h k g
  settle-IsClosing d undelivered s h k g = delivery_done-IsClosing d.after _ h k g
  settle-IsClosing d failed s h k g = delivery_done-IsClosing d.after _ h k g
  settle-IsClosing d (retry wait) s h k g = record { phases = (h, k); aborting = g }

  receive_event-IsClosing :
      (b : Batch) (e : Event) (body : Option Bytes) (s : Worker)
      → s.left_over ≡ []
      → s.phase ≡ collecting b
      → (s.aborted ≡ true → s.closed ≡ true)
      → IsClosing (receive_event c w b e body s)
  unfolding receive_event send
  receive_event-IsClosing b e none s h at g = record { phases = rw at h; aborting = g }
  receive_event-IsClosing b e (some body) s h at g =
      ground (arith, append_event-IsClosing b e body s h g)

  receive_queue-IsClosing :
      (b : Batch) (queue : List Event) (s t : Worker)
      → s.left_over ≡ []
      → s.phase ≡ collecting b
      → s.queue ≡ queue
      → (s.aborted ≡ true → s.closed ≡ true)
      → receive_queue c w b queue s ≡ some t
      → IsClosing t
  unfolding receive_queue send
  receive_queue-IsClosing b [] s t h at q g e = ground arith
  receive_queue-IsClosing b (x ∷ queue) s t h at q g e =
      subst IsClosing (some-injective _ _ e)
        (receive_event-IsClosing b x (event_body w x) (record s { queue = queue }) h at g)

  step_collecting-IsClosing :
      (b : Batch) (a : Action) (s t : Worker)
      → s.left_over ≡ []
      → s.phase ≡ collecting b
      → (s.aborted ≡ true → s.closed ≡ true)
      → step_collecting c w b a s ≡ some t
      → IsClosing t
  unfolding step_collecting abandon_queue send
  step_collecting-IsClosing b receive s t h at g e =
      receive_queue-IsClosing b s.queue s t h at refl g e
  step_collecting-IsClosing b flush s t h at g e = ground arith
  step_collecting-IsClosing b abandon s t h at g e = ground arith
  step_collecting-IsClosing b other s t h at g e = cc

  step_worker-IsClosing :
      (phase : Phase) (a : Action) (s t : Worker)
      → Closing phase s.left_over s.queue s.closed
      → s.phase ≡ phase
      → (s.aborted ≡ true → s.closed ≡ true)
      → step_worker c w phase a s ≡ some t
      → IsClosing t
  unfolding step_worker step_delivering step_sleeping
  step_worker-IsClosing (collecting b) a s t h at g e = step_collecting-IsClosing b a s t h at g e
  step_worker-IsClosing (delivering d) (answer r elapsed) s t h at g e =
      subst IsClosing (some-injective _ _ e)
        (settle-IsClosing d (judge c s.aborted d.attempt elapsed r) s h.0 h.1 g)
  step_worker-IsClosing (delivering d) other s t h at g e = cc
  step_worker-IsClosing (sleeping d wait) wake s t h at g e =
      subst IsClosing (some-injective _ _ e) (record { phases = h; aborting = g })
  step_worker-IsClosing (sleeping d wait) interrupt s t h at g e =
      ground (arith, settle-IsClosing d undelivered s h.0 h.1 g)
  step_worker-IsClosing (sleeping d wait) other s t h at g e = cc
  step_worker-IsClosing finished a s t h at g e = cc

  enqueue_event-IsClosing : (x : Event) (s : Worker) → IsClosing s → IsClosing (enqueue_event x s).0
  unfolding enqueue_event
  enqueue_event-IsClosing x s h = elim (Bool-cases s.closed) [
    | inl shut ↦ ground arith
    | inr not_shut ↦
        let grown : Closing s.phase s.left_over (s.queue ++ x ∷ []) s.closed =
          enqueue-Closing s.phase s.left_over s.queue (s.queue ++ x ∷ []) s.closed not_shut
            h.phases in
        ground arith
  ]

  step-IsClosing : (a : Action) (s t : Worker) → IsClosing s → step c w a s ≡ some t → IsClosing t
  unfolding step
  step-IsClosing (enqueue x) s t h e =
      subst IsClosing (some-injective _ _ e) (enqueue_event-IsClosing x s h)
  step-IsClosing close s t h e = subst IsClosing (some-injective _ _ e) (record {
    phases = close-Closing s.phase s.left_over s.queue s.closed h.phases;
    aborting = λ k. refl;
  })
  step-IsClosing abort s t h e = ground arith
  step-IsClosing other_batch s t h e = ground arith
  step-IsClosing other s t h e = step_worker-IsClosing s.phase other s t h.phases refl h.aborting e

  pub Reachable-IsClosing : (s : Worker) → Reachable c w s → IsClosing s
  unfolding new_worker empty_batch
  Reachable-IsClosing u created = record { phases = refl; aborting = λ k. cc }
  Reachable-IsClosing u (stepped a s t r e) = step-IsClosing a s t (Reachable-IsClosing s r) e

  -- Once the worker has returned, its queue is closed and empty, and every event that was accepted
  -- is counted as delivered, failed or undelivered, modulo 2^64: none is lost silently.
  pub finished_accounted :
      (s : Worker)
      → Reachable c w s
      → s.phase ≡ finished
      → (s.closed ≡ true)
        × (s.queue ≡ [])
        × (s.counters.enqueued
            ≡ (s.counters.delivered + s.counters.failed + s.counters.undelivered) % 2 ^ 64)
  finished_accounted s r f =
      let drained : IsDrained s.queue s.closed =
        subst (λ p. Closing p s.left_over s.queue s.closed) f (Reachable-IsClosing s r).phases in
      let counted = Reachable-IsCounted c w s r in
      (
        drained.1,
        drained.0,
        omega (arith, counted.balance, ap (length {A = Event}) drained.0, ap in_hand f),
      )
