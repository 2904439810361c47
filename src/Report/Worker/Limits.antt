-- ===== src/Report/Worker/Limits.antt =====
-- How large queues, batches and bodies get, and how often a batch is tried.
use tagstrak.Common.{
  ℕ, ◌+◌, ◌%◌, ltb, ◌^◌, ◌≤◌, ◌<◌, ◌≡◌, ◌⊎◌, refl, subst, arith, Bool, List, [], ◌∷◌, ◌++◌, Option,
  none, some, some-injective, Bytes, length, length-append, leb, ◌||◌, ◌&&◌, ◌==◌, Bool-cases, inl,
  inr,
}
use tagstrak.Report.Config.{Config}
use tagstrak.Report.Failure.{Failure}
use tagstrak.Report.Deliver.{judge, Verdict, delivered, undelivered, failed, retry}
use tagstrak.Report.Deliver.Laws.{judge-retry}
use tagstrak.Report.Wire.{Event, encode_batch, batch_envelope, batch_id}
use tagstrak.Report.Wire.Size.{
  events_size, events_size-append, length-encode_batch, length-batch_id,
}
use tagstrak.Report.Worker.{
  envelope, event_body, Wiring, Batch, After, resume, leave, open_with, Delivery, Phase, collecting,
  delivering, sleeping, finished, Worker, Action, enqueue, close, abort, other_batch, receive,
  flush, abandon, wake, interrupt, answer, empty_batch, enqueue_event, send, append_event,
  receive_event, receive_queue, delivery_done, settle, abandon_queue, step_collecting,
  step_delivering, step_sleeping, step_worker, step, new_worker, Reachable, created, stepped,
}

-- `json.Marshal` quotes a batch ID as it is, since it has only letters, digits and a colon.
pub record IsQuoting (w : Wiring) : Type 0 where
  pub quoted :
      (n : ℕ)
      → length (w.marshal_text (batch_id w.instance_id n)) ≡ length (batch_id w.instance_id n) + 2

-- A batch that may be sent
pub record IsFull (c : Config) (w : Wiring) (b : Batch) : Type 0 where
  pub sized : b.size ≡ envelope w + events_size b.encoded
  pub paired : length b.encoded ≡ length b.events
  pub some_events : 0 < length b.encoded
  pub few_events : length b.encoded ≤ c.batch_events
  pub few_bytes : 1 < length b.encoded → b.size ≤ c.batch_bytes

-- A batch that is open
pub record IsOpen (c : Config) (w : Wiring) (b : Batch) : Type 0 where
  pub sized : b.size ≡ envelope w + events_size b.encoded
  pub paired : length b.encoded ≡ length b.events
  pub few_events : length b.encoded < c.batch_events
  pub few_bytes : 0 < length b.encoded → b.size < c.batch_bytes

-- A batch in delivery; its ID is as long as an instance ID, a colon and ten digits until 10^10 batches
-- were sent, and the envelope counts that length.
pub record IsSent (c : Config) (w : Wiring) (d : Delivery) : Type 0 where
  pub some_events : 0 < length d.events
  pub few_events : length d.events ≤ c.batch_events
  pub few_bytes :
      1 < length d.events
      → length d.body + (length w.instance_id + 11) ≤ c.batch_bytes + length d.id

abbrev pub Within : Config → Wiring → Phase → Type 0
Within c w (collecting b) = IsOpen c w b
Within c w (delivering d) = IsSent c w d × (1 ≤ d.attempt) × (d.attempt ≤ c.max_attempts)
Within c w (sleeping d wait) =
    IsSent c w d × (1 ≤ d.attempt) × (d.attempt < c.max_attempts) × (wait ≤ c.backoff_max)
Within c w finished = Unit {0}

module _ (c : Config) (w : Wiring) (quoting : IsQuoting w) (batch : 1 ≤ c.batch_events)
    (tries : 1 ≤ c.max_attempts) where
  envelope_lem : envelope w ≡ batch_envelope w.marshal_text (batch_id w.instance_id 0)
  unfolding envelope batch_id
  envelope_lem = refl

  length-body :
      (n : ℕ) (encoded : List Bytes)
      → length (encode_batch w.marshal_text (batch_id w.instance_id n) encoded)
          + (length w.instance_id + 11)
        ≤ envelope w + events_size encoded + length (batch_id w.instance_id n)
  length-body n encoded = omega (
    arith,
    length-encode_batch w.marshal_text (batch_id w.instance_id n) (batch_id w.instance_id 0)
        encoded,
    quoting.quoted n,
    quoting.quoted 0,
    length-batch_id w.instance_id 0,
    envelope_lem,
  )

  send-Within :
      (b : Batch) (after : After) (s : Worker) → IsFull c w b → Within c w (send w b after s).phase
  unfolding send
  send-Within b after s h = (
    record {
      some_events = omega (arith, h.some_events, h.paired);
      few_events = omega (arith, h.few_events, h.paired);
      few_bytes = λ more. omega (
        arith,
        length-body ((s.batches + 1) % 2 ^ 64) b.encoded,
        h.sized,
        h.few_bytes (omega (arith, more, h.paired)),
      );
    },
    omega arith,
    tries,
  )

  append_event-Within :
      (b : Batch) (e : Event) (body : Bytes) (s : Worker)
      → IsOpen c w b
      → (0 < length b.encoded → b.size + length body + 1 ≤ c.batch_bytes)
      → Within c w (append_event c w b e body s).phase
  unfolding append_event events_size
  append_event-Within b e body s h g =
      let b' : Batch = record {
        events = b.events ++ e ∷ [];
        encoded = b.encoded ++ body ∷ [];
        size = b.size + (length body + 1);
      } in
      let longer = length-append b.encoded (body ∷ []) in
      let also = length-append b.events (e ∷ []) in
      let sized = events_size-append b.encoded (body ∷ []) in
      let full : IsFull c w b' = record {
        sized = omega arith;
        paired = omega arith;
        some_events = omega arith;
        few_events = omega arith;
        few_bytes = λ more. omega arith;
      } in
      elim (Bool-cases (leb c.batch_events (length b'.encoded) || leb c.batch_bytes b'.size)) [
        | inl due ↦ rw due (send-Within b' resume s full)
        | inr early ↦ rw early (record {
          sized = full.sized;
          paired = full.paired;
          few_events = ground arith;
          few_bytes = λ more. ground arith;
        })
      ]

  empty_batch-IsOpen : IsOpen c w (empty_batch w)
  unfolding empty_batch events_size
  empty_batch-IsOpen = record {
    sized = omega arith;
    paired = refl;
    few_events = batch;
    few_bytes = λ more. absurd (omega arith);
  }

  delivery_done-Within : (after : After) (s : Worker) → Within c w (delivery_done c w after s).phase
  unfolding delivery_done empty_batch
  delivery_done-Within resume s = empty_batch-IsOpen
  delivery_done-Within leave s = tt
  delivery_done-Within (open_with e body) s =
      append_event-Within (empty_batch w) e body s empty_batch-IsOpen (λ more. absurd (omega arith))

  settle-Within :
      (d : Delivery) (aborted : Bool) (elapsed : ℕ) (r : Option Failure) (v : Verdict) (s : Worker)
      → IsSent c w d
      → 1 ≤ d.attempt
      → judge c aborted d.attempt elapsed r ≡ v
      → Within c w (settle c w d v s).phase
  unfolding settle judge
  settle-Within d aborted elapsed r delivered s h one e = delivery_done-Within d.after _
  settle-Within d aborted elapsed r undelivered s h one e = delivery_done-Within d.after _
  settle-Within d aborted elapsed r failed s h one e = delivery_done-Within d.after _
  settle-Within d aborted elapsed none (retry wait) s h one e = cc
  settle-Within d aborted elapsed (some f) (retry wait) s h one e =
      let again = (judge-retry c aborted d.attempt elapsed wait f).0 e in
      (h, one, again.2, omega (arith, again.4))

  IsOpen-IsFull : (b : Batch) → IsOpen c w b → 0 < length b.encoded → IsFull c w b
  IsOpen-IsFull b h g = record {
    sized = h.sized;
    paired = h.paired;
    some_events = g;
    few_events = omega (arith, h.few_events);
    few_bytes = λ more. omega (arith, h.few_bytes g);
  }

  receive_event-Within :
      (b : Batch) (e : Event) (body : Option Bytes) (s : Worker)
      → IsOpen c w b
      → s.phase ≡ collecting b
      → Within c w (receive_event c w b e body s).phase
  unfolding receive_event
  receive_event-Within b e none s h at = rw at h
  receive_event-Within b e (some body) s h at =
      elim (Bool-cases (ltb 0 (length b.encoded) && ltb c.batch_bytes (b.size + length body + 1))) [
        | inl over ↦ rw over (send-Within b (open_with e body) s (IsOpen-IsFull b h (ground arith)))
        | inr fits ↦ rw fits (append_event-Within b e body s h (λ more. ground arith))
      ]

  receive_queue-Within :
      (b : Batch) (queue : List Event) (s t : Worker)
      → IsOpen c w b
      → s.phase ≡ collecting b
      → receive_queue c w b queue s ≡ some t
      → Within c w t.phase
  unfolding receive_queue
  receive_queue-Within b [] s t h at e =
      let sent : 0 < length b.encoded → Within c w (send w b leave s).phase =
        λ more. send-Within b leave s (IsOpen-IsFull b h more) in
      elim (Bool-cases (length b.encoded == 0)) [
        | inl nothing ↦
            subst (λ t. Within c w t.phase)
              (some-injective (record s { phase = finished }) t (ground arith)) tt
        | inr something ↦
            subst (λ t. Within c w t.phase) (some-injective (send w b leave s) t (ground arith))
              (sent (ground arith))
      ]
  receive_queue-Within b (x ∷ queue) s t h at e =
      subst (λ t. Within c w t.phase) (some-injective _ _ e)
        (receive_event-Within b x (event_body w x) (record s { queue = queue }) h at)

  step_collecting-Within :
      (b : Batch) (a : Action) (s t : Worker)
      → IsOpen c w b
      → s.phase ≡ collecting b
      → step_collecting c w b a s ≡ some t
      → Within c w t.phase
  unfolding step_collecting abandon_queue
  step_collecting-Within b receive s t h at e = receive_queue-Within b s.queue s t h at e
  step_collecting-Within b flush s t h at e =
      let sent : 0 < length b.encoded → Within c w (send w b resume s).phase =
        λ more. send-Within b resume s (IsOpen-IsFull b h more) in
      elim (Bool-cases (length b.encoded == 0)) [
        | inl nothing ↦ ground arith
        | inr something ↦
            subst (λ t. Within c w t.phase) (some-injective (send w b resume s) t (ground arith))
              (sent (ground arith))
      ]
  step_collecting-Within b abandon s t h at e = ground arith
  step_collecting-Within b other s t h at e = cc

  step_worker-Within :
      (phase : Phase) (a : Action) (s t : Worker)
      → Within c w phase
      → s.phase ≡ phase
      → step_worker c w phase a s ≡ some t
      → Within c w t.phase
  unfolding step_worker step_delivering step_sleeping settle
  step_worker-Within (collecting b) a s t h at e = step_collecting-Within b a s t h at e
  step_worker-Within (delivering d) (answer r elapsed) s t h at e =
      subst (λ t. Within c w t.phase) (some-injective _ _ e)
        (settle-Within d s.aborted elapsed r _ s h.0 h.1 refl)
  step_worker-Within (delivering d) other s t h at e = cc
  step_worker-Within (sleeping d wait) wake s t h at e =
      subst (λ t. Within c w t.phase) (some-injective _ _ e)
        (
          record {
            some_events = h.0.some_events;
            few_events = h.0.few_events;
            few_bytes = h.0.few_bytes;
          },
          omega arith,
          omega (arith, h.2),
        )
  step_worker-Within (sleeping d wait) interrupt s t h at e = elim (Bool-cases s.aborted) [
    | inl gone ↦
        subst (λ t. Within c w t.phase)
          (some-injective (settle c w d undelivered s) t (ground arith))
          (delivery_done-Within d.after _)
    | inr going ↦ ground arith
  ]
  step_worker-Within (sleeping d wait) other s t h at e = cc
  step_worker-Within finished a s t h at e = cc

  step-Within :
      (a : Action) (s t : Worker) → Within c w s.phase → step c w a s ≡ some t → Within c w t.phase
  unfolding step enqueue_event
  step-Within (enqueue x) s t h e = ground arith
  step-Within close s t h e = ground arith
  step-Within abort s t h e = ground arith
  step-Within other_batch s t h e = ground arith
  step-Within other s t h e = step_worker-Within s.phase other s t h refl e

  pub Reachable-Within : (s : Worker) → Reachable c w s → Within c w s.phase
  unfolding new_worker
  Reachable-Within u created = empty_batch-IsOpen
  Reachable-Within u (stepped a s t r e) = step-Within a s t (Reachable-Within s r) e

  -- Under a configuration whose `batch_events` and `max_attempts` are one at least, and where
  -- `json.Marshal` puts a batch ID between quotes and changes nothing else of its length: whatever
  -- the reporter answers and the scheduler does, a batch that the reporter is handed has between one
  -- event and `batch_events`, and is handed over at most `max_attempts` times. Unless it has a single
  -- event, its body is longer than `batch_bytes` at most by what its ID is longer than the instance
  -- ID, a colon and ten digits, so that it keeps within `batch_bytes` while the number has ten digits.
  pub delivering_bounded :
      (s : Worker) (d : Delivery)
      → Reachable c w s
      → s.phase ≡ delivering d
      → (1 ≤ length d.events)
        × (length d.events ≤ c.batch_events)
        × (1 ≤ d.attempt)
        × (d.attempt ≤ c.max_attempts)
        × ((length d.events ≡ 1)
            ⊎ (length d.body + (length w.instance_id + 11) ≤ c.batch_bytes + length d.id))
  delivering_bounded s d r at =
      let within : Within c w (delivering d) = subst (Within c w) at (Reachable-Within s r) in
      let some_events = within.0.some_events in
      (
        some_events,
        within.0.few_events,
        within.1,
        within.2,
        elim (Bool-cases (ltb 1 (length d.events))) [
          | inl many ↦ inr (within.0.few_bytes (ground arith))
          | inr few ↦ inl (ground arith)
        ],
      )
