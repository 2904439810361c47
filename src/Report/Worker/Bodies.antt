-- ===== src/Report/Worker/Bodies.antt =====
-- The body of a batch is that of its events, in order.
use tagstrak.Common.{
  ◌+◌, ◌≡◌, refl, sym, ap, ◌∙◌, subst, arith, List, [], ◌∷◌, ◌++◌, Option, none, some,
  some-injective, Bytes, length, length-append, ltb, leb, ◌&&◌, ◌||◌, Bool-cases, inl, inr,
}
use tagstrak.Report.Config.{Config}
use tagstrak.Report.Deliver.{judge, Verdict, delivered, undelivered, failed, retry}
use tagstrak.Report.Wire.{Event, encode_batch}
use tagstrak.Report.Worker.{
  event_body, Wiring, Batch, After, resume, leave, open_with, Delivery, Phase, collecting,
  delivering, sleeping, finished, Worker, Action, enqueue, close, abort, other_batch, receive,
  flush, abandon, wake, interrupt, answer, empty_batch, enqueue_event, send, append_event,
  receive_event, receive_queue, delivery_done, settle, abandon_queue, step_collecting,
  step_delivering, step_sleeping, step_worker, step, new_worker, Reachable, created, stepped,
}

-- The bodies of events, those that cannot be encoded left out
unfoldable pub encodings : Wiring → List Event → List Bytes
encodings w [] = []
encodings w (e ∷ es) = elim (event_body w e) [
  | none ↦ encodings w es
  | some body ↦ body ∷ encodings w es
]

encodings-snoc :
    (w : Wiring) (es : List Event) (e : Event) (body : Bytes)
    → event_body w e ≡ some body
    → encodings w (es ++ e ∷ []) ≡ encodings w es ++ body ∷ []
unfolding encodings
encodings-snoc w [] e body h = ground arith
encodings-snoc w (x ∷ es) e body h = ground (arith, encodings-snoc w es e body h)

-- An event for each body
abbrev Matched : Wiring → List Event → List Bytes → Type 0
Matched w events bodies = (bodies ≡ encodings w events) × (length bodies ≡ length events)

abbrev Awaiting : Wiring → After → Type 0
Awaiting w (open_with e body) = event_body w e ≡ some body
Awaiting w other = Unit {0}

record IsBodied (w : Wiring) (d : Delivery) : Type 0 where
  body : d.body ≡ encode_batch w.marshal_text d.id (encodings w d.events)
  paired : length (encodings w d.events) ≡ length d.events
  after : Awaiting w d.after

abbrev Bodied : Wiring → Phase → Type 0
Bodied w (collecting b) = Matched w b.events b.encoded
Bodied w (delivering d) = IsBodied w d
Bodied w (sleeping d wait) = IsBodied w d
Bodied w finished = Unit {0}

module _ (c : Config) (w : Wiring) where
  send-Bodied :
      (b : Batch) (after : After) (s : Worker)
      → Matched w b.events b.encoded
      → Awaiting w after
      → Bodied w (send w b after s).phase
  unfolding send
  send-Bodied b after s h g = record {
    body = ap (encode_batch w.marshal_text _) h.0;
    paired = ap (length {A = Bytes}) (sym h.0) ∙ h.1;
    after = g;
  }

  append_event-Bodied :
      (b : Batch) (e : Event) (body : Bytes) (s : Worker)
      → Matched w b.events b.encoded
      → event_body w e ≡ some body
      → Bodied w (append_event c w b e body s).phase
  unfolding append_event
  append_event-Bodied b e body s h g =
      let b' : Batch = record {
        events = b.events ++ e ∷ [];
        encoded = b.encoded ++ body ∷ [];
        size = b.size + (length body + 1);
      } in
      let joined : Matched w b'.events b'.encoded = (
        ap (λ t. t ++ body ∷ []) h.0 ∙ sym (encodings-snoc w b.events e body g),
        omega (
          arith,
          h.1,
          length-append {0} b.encoded (body ∷ []),
          length-append {0} b.events (e ∷ []),
        ),
      ) in
      elim (Bool-cases (leb c.batch_events (length b'.encoded) || leb c.batch_bytes b'.size)) [
        | inl due ↦ rw due (send-Bodied b' resume s joined tt)
        | inr early ↦ rw early joined
      ]

  delivery_done-Bodied :
      (after : After) (s : Worker) → Awaiting w after → Bodied w (delivery_done c w after s).phase
  unfolding delivery_done empty_batch encodings
  delivery_done-Bodied resume s g = (refl, refl)
  delivery_done-Bodied leave s g = tt
  delivery_done-Bodied (open_with e body) s g =
      append_event-Bodied (empty_batch w) e body s (refl, refl) g

  settle-Bodied :
      (d : Delivery) (v : Verdict) (s : Worker) → IsBodied w d → Bodied w (settle c w d v s).phase
  unfolding settle
  settle-Bodied d delivered s h = delivery_done-Bodied d.after _ h.after
  settle-Bodied d undelivered s h = delivery_done-Bodied d.after _ h.after
  settle-Bodied d failed s h = delivery_done-Bodied d.after _ h.after
  settle-Bodied d (retry wait) s h = h

  receive_event-Bodied :
      (b : Batch) (e : Event) (body : Option Bytes) (s : Worker)
      → Matched w b.events b.encoded
      → event_body w e ≡ body
      → s.phase ≡ collecting b
      → Bodied w (receive_event c w b e body s).phase
  unfolding receive_event
  receive_event-Bodied b e none s h g at = subst (Bodied w) (sym at) h
  receive_event-Bodied b e (some body) s h g at =
      elim (Bool-cases (ltb 0 (length b.encoded) && ltb c.batch_bytes (b.size + length body + 1))) [
        | inl over ↦ rw over (send-Bodied b (open_with e body) s h g)
        | inr fits ↦ rw fits (append_event-Bodied b e body s h g)
      ]

  step_collecting-Bodied :
      (b : Batch) (a : Action) (queue : List Event) (s t : Worker)
      → Matched w b.events b.encoded
      → s.phase ≡ collecting b
      → s.queue ≡ queue
      → step_collecting c w b a s ≡ some t
      → Bodied w t.phase
  unfolding step_collecting abandon_queue receive_queue
  step_collecting-Bodied b receive [] s t h at q e =
      let sent : Bodied w (send w b leave s).phase = send-Bodied b leave s h tt in ground arith
  step_collecting-Bodied b receive (x ∷ queue) s t h at q e =
      let got = receive_event-Bodied b x (event_body w x) (record s { queue = queue }) h refl at in
      subst (λ u. Bodied w u.phase)
        (some-injective (receive_event c w b x (event_body w x) (record s { queue = queue })) t
          (ground arith))
        got
  step_collecting-Bodied b flush queue s t h at q e =
      let sent : Bodied w (send w b resume s).phase = send-Bodied b resume s h tt in ground arith
  step_collecting-Bodied b abandon queue s t h at q e = ground arith
  step_collecting-Bodied b other queue s t h at q e = cc

  step_worker-Bodied :
      (phase : Phase) (a : Action) (s t : Worker)
      → Bodied w phase
      → s.phase ≡ phase
      → step_worker c w phase a s ≡ some t
      → Bodied w t.phase
  unfolding step_worker step_delivering step_sleeping
  step_worker-Bodied (collecting b) a s t h at e =
      step_collecting-Bodied b a s.queue s t h at refl e
  step_worker-Bodied (delivering d) (answer r elapsed) s t h at e =
      subst (λ u. Bodied w u.phase) (some-injective _ _ e)
        (settle-Bodied d (judge c s.aborted d.attempt elapsed r) s h)
  step_worker-Bodied (delivering d) other s t h at e = cc
  step_worker-Bodied (sleeping d wait) wake s t h at e =
      subst (λ u. Bodied w u.phase) (some-injective _ _ e)
        (record { body = h.body; paired = h.paired; after = h.after })
  step_worker-Bodied (sleeping d wait) interrupt s t h at e = elim (Bool-cases s.aborted) [
    | inl gone ↦
        subst (λ u. Bodied w u.phase) (some-injective (settle c w d undelivered s) t (ground arith))
          (settle-Bodied d undelivered s h)
    | inr going ↦ ground arith
  ]
  step_worker-Bodied (sleeping d wait) other s t h at e = cc
  step_worker-Bodied finished a s t h at e = cc

  step-Bodied :
      (a : Action) (s t : Worker) → Bodied w s.phase → step c w a s ≡ some t → Bodied w t.phase
  unfolding step enqueue_event
  step-Bodied (enqueue x) s t h e = ground arith
  step-Bodied close s t h e = ground arith
  step-Bodied abort s t h e = ground arith
  step-Bodied other_batch s t h e = ground arith
  step-Bodied other s t h e = step_worker-Bodied s.phase other s t h refl e

  Reachable-Bodied : (s : Worker) → Reachable c w s → Bodied w s.phase
  unfolding new_worker empty_batch encodings
  Reachable-Bodied u created = (refl, refl)
  Reachable-Bodied u (stepped a s t r e) = step-Bodied a s t (Reachable-Bodied s r) e

  -- Whatever steps led to it, the body of a batch in delivery is what `encodeBatch` makes of the
  -- batch's ID and of the encodings of its events, one for each event and in their order.
  pub delivering_body :
      (s : Worker) (d : Delivery)
      → Reachable c w s
      → s.phase ≡ delivering d
      → (d.body ≡ encode_batch w.marshal_text d.id (encodings w d.events))
        × (length (encodings w d.events) ≡ length d.events)
  delivering_body s d r at =
      let h : IsBodied w d = subst (Bodied w) at (Reachable-Bodied s r) in (h.body, h.paired)
