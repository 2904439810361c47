-- ===== src/Report/Worker/Order.antt =====
-- Events reach the reporter in the order in which they were accepted.
use tagstrak.Common.{
  length, ◌==◌, ◌+◌, ◌≡◌, refl, ap, ◌∙◌, subst, arith, List, [], ◌∷◌, ◌++◌, Option, none, some,
  some-injective, Bytes, append-nil, append_assoc, Bool-cases, inl, inr,
}
use tagstrak.Report.Config.{Config}
use tagstrak.Report.Deliver.{judge, Verdict, delivered, undelivered, failed, retry}
use tagstrak.Report.Wire.{Event}
use tagstrak.Report.Worker.Counts.{IsPaired, Reachable-IsCounted}
use tagstrak.Report.Worker.Closing.{Closing, IsClosing, open-Closing, Reachable-IsClosing}
use tagstrak.Report.Worker.{
  event_body, Wiring, Batch, After, resume, leave, open_with, Delivery, Phase, collecting,
  delivering, sleeping, finished, Worker, Action, enqueue, close, abort, other_batch, receive,
  flush, abandon, wake, interrupt, answer, empty_batch, enqueue_event, send, append_event,
  receive_event, receive_queue, delivery_done, settle, abandon_queue, step_collecting,
  step_delivering, step_sleeping, step_worker, step, new_worker, Reachable, created, stepped,
}

-- The events that can be encoded; the worker counts any other as failed.
unfoldable pub encodable : Wiring → List Event → List Event
encodable w [] = []
encodable w (e ∷ es) = elim (event_body w e) [
  | none ↦ encodable w es
  | some body ↦ e ∷ encodable w es
]

pub encodable-append :
    (w : Wiring) (xs ys : List Event) → encodable w (xs ++ ys) ≡ encodable w xs ++ encodable w ys
unfolding encodable
encodable-append w [] ys = refl
encodable-append w (e ∷ es) ys = ground (arith, encodable-append w es ys)

encodable_nil : (w : Wiring) → encodable w [] ≡ []
unfolding encodable
encodable_nil w = refl

encodable_one :
    (w : Wiring) (e : Event) {body : Bytes}
    → event_body w e ≡ some body
    → encodable w (e ∷ []) ≡ e ∷ []
unfolding encodable
encodable_one w e h = ground arith

encodable_bad : (w : Wiring) (e : Event) → event_body w e ≡ none → encodable w (e ∷ []) ≡ []
unfolding encodable
encodable_bad w e h = ground arith

nil_of_length : (es : List Event) → length es ≡ 0 → es ≡ []
nil_of_length [] h = refl
nil_of_length (e ∷ es) h = absurd (omega arith)

abbrev pub pending_events : After → List Event
pending_events (open_with e body) = e ∷ []
pending_events other = []

-- The events that were taken from the queue and not handed to the reporter yet
abbrev pub open_events : Phase → List Event
open_events (collecting b) = b.events
open_events (delivering d) = pending_events d.after
open_events (sleeping d wait) = pending_events d.after
open_events finished = []

abbrev Ordered : Wiring → List Event → Worker → Type 0
Ordered w held s =
    encodable w s.accepted ≡ s.offered ++ (held ++ (encodable w s.queue ++ encodable w s.left_over))

pub record IsOrdered (w : Wiring) (s : Worker) : Type 0 where
  pub order : Ordered w (open_events s.phase) s
  pub encoded : encodable w (open_events s.phase) ≡ open_events s.phase

module _ (c : Config) (w : Wiring) where
  send-IsOrdered :
      (b : Batch) (after : After) (s : Worker)
      → Ordered w (b.events ++ pending_events after) s
      → encodable w (pending_events after) ≡ pending_events after
      → IsOrdered w (send w b after s)
  unfolding send
  send-IsOrdered b after s h k = record { order = h ∙ simp append_assoc; encoded = k }

  append_event-IsOrdered :
      (b : Batch) (e : Event) (body : Bytes) (s : Worker)
      → Ordered w (b.events ++ e ∷ []) s
      → encodable w (b.events ++ e ∷ []) ≡ b.events ++ e ∷ []
      → IsOrdered w (append_event c w b e body s)
  unfolding append_event
  append_event-IsOrdered b e body s h k =
      let b' : Batch = record {
        events = b.events ++ e ∷ [];
        encoded = b.encoded ++ body ∷ [];
        size = b.size + (length body + 1);
      } in
      let sent : IsOrdered w (send w b' resume s) =
        send-IsOrdered b' resume s (rw append-nil h) (encodable_nil w) in
      ground (arith, sent)

  delivery_done-IsOrdered :
      (after : After) (s : Worker)
      → Ordered w (pending_events after) s
      → encodable w (pending_events after) ≡ pending_events after
      → IsOrdered w (delivery_done c w after s)
  unfolding delivery_done empty_batch
  delivery_done-IsOrdered resume s h k = record { order = h; encoded = k }
  delivery_done-IsOrdered leave s h k = record { order = h; encoded = k }
  delivery_done-IsOrdered (open_with e body) s h k =
      append_event-IsOrdered (empty_batch w) e body s h k

  settle-IsOrdered :
      (d : Delivery) (v : Verdict) (s : Worker)
      → Ordered w (pending_events d.after) s
      → encodable w (pending_events d.after) ≡ pending_events d.after
      → IsOrdered w (settle c w d v s)
  unfolding settle
  settle-IsOrdered d delivered s h k = delivery_done-IsOrdered d.after _ h k
  settle-IsOrdered d undelivered s h k = delivery_done-IsOrdered d.after _ h k
  settle-IsOrdered d failed s h k = delivery_done-IsOrdered d.after _ h k
  settle-IsOrdered d (retry wait) s h k = record { order = h; encoded = k }

  receive_event-IsOrdered :
      (b : Batch) (e : Event) (body : Option Bytes) (s : Worker)
      → event_body w e ≡ body
      → Ordered w (b.events ++ encodable w (e ∷ [])) s
      → encodable w b.events ≡ b.events
      → s.phase ≡ collecting b
      → IsOrdered w (receive_event c w b e body s)
  unfolding receive_event
  receive_event-IsOrdered b e none s eb h k at =
      let held : Ordered w (b.events ++ []) s = rw (encodable_bad w e eb) at h in
      record { order = rw at (rw append-nil at held); encoded = rw at k }
  receive_event-IsOrdered b e (some body) s eb h k at =
      let one = encodable_one w e eb in
      let held : Ordered w (b.events ++ e ∷ []) s = rw one at h in
      let both : encodable w (b.events ++ e ∷ []) ≡ b.events ++ e ∷ [] =
        encodable-append w b.events (e ∷ []) ∙ ground arith in
      ground (
        arith,
        send-IsOrdered b (open_with e body) s held one,
        append_event-IsOrdered b e body s held both,
      )

  receive_queue-IsOrdered :
      (b : Batch) (queue : List Event) (s t : Worker)
      → Ordered w b.events s
      → encodable w b.events ≡ b.events
      → length b.encoded ≡ length b.events
      → s.phase ≡ collecting b
      → s.queue ≡ queue
      → receive_queue c w b queue s ≡ some t
      → IsOrdered w t
  unfolding receive_queue
  receive_queue-IsOrdered b [] s t h k p at q e =
      let sent : IsOrdered w (send w b leave s) =
        send-IsOrdered b leave s (rw append-nil h) (encodable_nil w) in
      let returned : length b.events ≡ 0 → IsOrdered w (record s { phase = finished }) = λ z.
        record {
          order = subst (λ held. Ordered w held s) (nil_of_length b.events z) h;
          encoded = encodable_nil w;
        } in
      elim (Bool-cases (length b.encoded == 0)) [
        | inl none_open ↦
            subst (IsOrdered w) (some-injective _ _ (ground arith)) (returned (ground arith))
        | inr some_open ↦ subst (IsOrdered w) (some-injective _ _ (ground arith)) sent
      ]
  receive_queue-IsOrdered b (x ∷ queue) s t h k p at q e =
      let front : encodable w s.queue ≡ encodable w (x ∷ []) ++ encodable w queue =
        ap (encodable w) q ∙ encodable-append w (x ∷ []) queue in
      let taken : Ordered w (b.events ++ encodable w (x ∷ [])) (record s { queue = queue }) =
        h ∙ rw front (simp append_assoc) in
      subst (IsOrdered w) (some-injective _ _ e)
        (receive_event-IsOrdered b x (event_body w x) (record s { queue = queue }) refl taken k at)

  abandon_queue-IsOrdered :
      (b : Batch) (s : Worker)
      → Ordered w b.events s
      → encodable w b.events ≡ b.events
      → s.left_over ≡ []
      → IsOrdered w (abandon_queue b s)
  unfolding abandon_queue
  abandon_queue-IsOrdered b s h k l =
      let moved : b.events ++ (encodable w s.queue ++ encodable w s.left_over)
          ≡ encodable w [] ++ encodable w (b.events ++ s.queue) =
        rw (l, encodable_nil w, encodable-append w b.events s.queue, k, append-nil) refl in
      record { order = h ∙ ap (λ t. s.offered ++ t) moved; encoded = encodable_nil w }

  step_collecting-IsOrdered :
      (b : Batch) (a : Action) (s t : Worker)
      → Ordered w b.events s
      → encodable w b.events ≡ b.events
      → length b.encoded ≡ length b.events
      → s.left_over ≡ []
      → s.phase ≡ collecting b
      → step_collecting c w b a s ≡ some t
      → IsOrdered w t
  unfolding step_collecting
  step_collecting-IsOrdered b receive s t h k p l at e =
      receive_queue-IsOrdered b s.queue s t h k p at refl e
  step_collecting-IsOrdered b flush s t h k p l at e =
      let sent : IsOrdered w (send w b resume s) =
        send-IsOrdered b resume s (rw append-nil h) (encodable_nil w) in
      ground arith
  step_collecting-IsOrdered b abandon s t h k p l at e =
      ground (arith, abandon_queue-IsOrdered b s h k l)
  step_collecting-IsOrdered b other s t h k p l at e = cc

  step_worker-IsOrdered :
      (phase : Phase) (a : Action) (s t : Worker)
      → Ordered w (open_events phase) s
      → encodable w (open_events phase) ≡ open_events phase
      → Closing phase s.left_over s.queue s.closed
      → IsPaired phase
      → s.phase ≡ phase
      → step_worker c w phase a s ≡ some t
      → IsOrdered w t
  unfolding step_worker step_delivering step_sleeping
  step_worker-IsOrdered (collecting b) a s t h k l p at e =
      step_collecting-IsOrdered b a s t h k p l at e
  step_worker-IsOrdered (delivering d) (answer r elapsed) s t h k l p at e =
      subst (IsOrdered w) (some-injective _ _ e)
        (settle-IsOrdered d (judge c s.aborted d.attempt elapsed r) s h k)
  step_worker-IsOrdered (delivering d) other s t h k l p at e = cc
  step_worker-IsOrdered (sleeping d wait) wake s t h k l p at e =
      subst (IsOrdered w) (some-injective _ _ e) (record { order = h; encoded = k })
  step_worker-IsOrdered (sleeping d wait) interrupt s t h k l p at e =
      ground (arith, settle-IsOrdered d undelivered s h k)
  step_worker-IsOrdered (sleeping d wait) other s t h k l p at e = cc
  step_worker-IsOrdered finished a s t h k l p at e = cc

  -- An event that is accepted goes behind all others: nothing is left over while the queue is open.
  enqueue_event-IsOrdered :
      (x : Event) (s : Worker) → IsClosing s → IsOrdered w s → IsOrdered w (enqueue_event x s).0
  unfolding enqueue_event
  enqueue_event-IsOrdered x s l h = elim (Bool-cases s.closed) [
    | inl shut ↦ ground arith
    | inr not_shut ↦
        let rest : s.left_over ≡ [] =
          open-Closing s.phase s.left_over s.queue s.closed not_shut l.phases in
        let grown : encodable w (s.accepted ++ x ∷ [])
            ≡ s.offered
              ++ (open_events s.phase
                  ++ (encodable w (s.queue ++ x ∷ []) ++ encodable w s.left_over)) =
          encodable-append w s.accepted (x ∷ [])
          ∙ ap (λ t. t ++ encodable w (x ∷ [])) h.order
          ∙ rw (rest, encodable_nil w, encodable-append w s.queue (x ∷ []))
              (simp (append_assoc, append-nil)) in
        ground arith
  ]

  step-IsOrdered :
      (a : Action) (s t : Worker)
      → IsClosing s
      → IsPaired s.phase
      → IsOrdered w s
      → step c w a s ≡ some t
      → IsOrdered w t
  unfolding step
  step-IsOrdered (enqueue x) s t l p h e =
      subst (IsOrdered w) (some-injective _ _ e) (enqueue_event-IsOrdered x s l h)
  step-IsOrdered close s t l p h e = ground arith
  step-IsOrdered abort s t l p h e = ground arith
  step-IsOrdered other_batch s t l p h e = ground arith
  step-IsOrdered other s t l p h e =
      step_worker-IsOrdered s.phase other s t h.order h.encoded l.phases p refl e

  Reachable-IsOrdered : (s : Worker) → Reachable c w s → IsOrdered w s
  unfolding new_worker empty_batch
  Reachable-IsOrdered u created = record {
    order = rw (encodable_nil w) refl;
    encoded = encodable_nil w;
  }
  Reachable-IsOrdered u (stepped a s t r e) =
      step-IsOrdered a s t (Reachable-IsClosing c w s r) (Reachable-IsCounted c w s r).paired
        (Reachable-IsOrdered s r) e

  -- Delivery is first in, first out: the accepted events that can be encoded are, in the order of
  -- their acceptance, those that the reporter was handed, those that the worker holds, those queued,
  -- and those that an abandoned worker left.
  pub offered-accepted :
      (s : Worker)
      → Reachable c w s
      → encodable w s.accepted
        ≡ s.offered ++ (open_events s.phase ++ (encodable w s.queue ++ encodable w s.left_over))
  offered-accepted s r = (Reachable-IsOrdered s r).order
