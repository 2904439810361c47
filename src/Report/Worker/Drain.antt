-- ===== src/Report/Worker/Drain.antt =====
-- The steps of a worker are bounded.
use native.Mathlib.Nat.{suc-mul}
use tagstrak.Common.{
  ℕ, ◌+◌, ◌-◌, ◌*◌, ◌≤◌, ◌<◌, ◌≡◌, ◌⊎◌, refl, ap, ◌∙◌, subst, arith, Bool, true, false, List, [],
  ◌∷◌, Option, none, some, some-injective, Bytes, length, length-append, ltb, ◌==◌, ◌&&◌,
  if◌then◌else◌, Bool-cases, inl, inr,
}
use tagstrak.Report.Config.{Config}
use tagstrak.Report.Failure.{Failure}
use tagstrak.Report.Deliver.{judge, Verdict, delivered, undelivered, failed, retry}
use tagstrak.Report.Deliver.Laws.{judge-retry}
use tagstrak.Report.Wire.{Event}
use tagstrak.Report.Worker.{
  event_body, Wiring, Batch, After, resume, leave, open_with, Delivery, Phase, collecting,
  delivering, sleeping, finished, Worker, Action, receive, flush, abandon, wake, interrupt, answer,
  empty_batch, send, append_event, receive_event, receive_queue, delivery_done, settle,
  abandon_queue, step_collecting, step_delivering, step_sleeping, step_worker,
}

-- What a delivery from an attempt on can take, what an open batch can, and what a queued event can
abbrev pub attempts_cost : Config → ℕ → ℕ
attempts_cost c attempt = 2 * (c.max_attempts + 1 - attempt) + 1

abbrev pub batch_cost : Config → ℕ
batch_cost c = 2 * c.max_attempts + 2

abbrev pub after_cost : Config → After → ℕ
after_cost c resume = 1
after_cost c leave = 0
after_cost c (open_with e body) = batch_cost c + 1

abbrev pub phase_cost : Config → Phase → ℕ
phase_cost c (collecting b) = (if length b.encoded == 0 then 0 else batch_cost c) + 1
phase_cost c (delivering d) = attempts_cost c d.attempt + after_cost c d.after
phase_cost c (sleeping d wait) = 2 * (c.max_attempts - d.attempt) + 2 + after_cost c d.after
phase_cost c finished = 0

-- A bound on the steps that the worker can make before it must wait for an event
abbrev pub work_left : Config → Worker → ℕ
work_left c s = length s.queue * (batch_cost c + 1) + phase_cost c s.phase

-- What a part of a step leaves as it was
abbrev pub Kept : Worker → Worker → Type 0
Kept s t =
    (t.closed ≡ s.closed)
    × (t.accepted ≡ s.accepted)
    × (t.aborted ≡ s.aborted)
    × (t.left_over ≡ s.left_over)

-- A part of a step that takes no event from the queue and leaves `n` of the work at most
record Leaves (c : Config) (n : ℕ) (s t : Worker) : Type 0 where
  cost : phase_cost c t.phase ≤ n
  queue : t.queue ≡ s.queue
  kept : Kept s t

-- A whole step: only a worker that is abandoned leaves events over.
pub record Advances (c : Config) (s t : Worker) : Type 0 where
  pub less : work_left c t < work_left c s
  pub kept : Kept s (record t { left_over = s.left_over })
  pub left : (t.left_over ≡ s.left_over) ⊎ (s.aborted ≡ true)

module _ (c : Config) (w : Wiring) where
  append_event-Leaves :
      (b : Batch) (e : Event) (body : Bytes) (s : Worker)
      → Leaves c (batch_cost c + 1) s (append_event c w b e body s)
  unfolding append_event send
  append_event-Leaves b e body s = ground (arith, length-append {0} b.encoded (body ∷ []))

  delivery_done-Leaves :
      (after : After) (s : Worker) → Leaves c (after_cost c after) s (delivery_done c w after s)
  unfolding delivery_done empty_batch
  delivery_done-Leaves resume s = record {
    cost = omega arith;
    queue = refl;
    kept = (refl, refl, refl, refl);
  }
  delivery_done-Leaves leave s = record {
    cost = omega arith;
    queue = refl;
    kept = (refl, refl, refl, refl);
  }
  delivery_done-Leaves (open_with e body) s = append_event-Leaves (empty_batch w) e body s

  done-Leaves :
      (after : After) (n : ℕ) (s s' : Worker)
      → s'.queue ≡ s.queue
      → Kept s s'
      → after_cost c after ≤ n
      → Leaves c n s (delivery_done c w after s')
  done-Leaves after n s s' q k h =
      let l = delivery_done-Leaves after s' in
      record {
        cost = omega (arith, l.cost);
        queue = l.queue ∙ q;
        kept = (l.kept.0 ∙ k.0, l.kept.1 ∙ k.1, l.kept.2 ∙ k.2, l.kept.3 ∙ k.3);
      }

  settle-Leaves :
      (d : Delivery) (elapsed : ℕ) (aborted : Bool) (r : Option Failure) (v : Verdict) (s : Worker)
      → judge c aborted d.attempt elapsed r ≡ v
      → Leaves c (2 * (c.max_attempts + 1 - d.attempt) + after_cost c d.after) s (settle c w d v s)
  unfolding settle judge
  settle-Leaves d elapsed aborted r delivered s e =
      done-Leaves d.after _ s _ refl (refl, refl, refl, refl) (omega arith)
  settle-Leaves d elapsed aborted r undelivered s e =
      done-Leaves d.after _ s _ refl (refl, refl, refl, refl) (omega arith)
  settle-Leaves d elapsed aborted r failed s e =
      done-Leaves d.after _ s _ refl (refl, refl, refl, refl) (omega arith)
  settle-Leaves d elapsed aborted none (retry wait) s e = cc
  settle-Leaves d elapsed aborted (some f) (retry wait) s e =
      let again = (judge-retry c aborted d.attempt elapsed wait f).0 e in
      record { cost = omega (arith, again.2); queue = refl; kept = (refl, refl, refl, refl) }

  Leaves-Advances :
      (n : ℕ) (s t : Worker) → Leaves c n s t → n < phase_cost c s.phase → Advances c s t
  Leaves-Advances n s t l h =
      let same = ap (λ q. length {A = Event} q * (batch_cost c + 1)) l.queue in
      record {
        less = omega (arith, same, l.cost);
        kept = (l.kept.0, l.kept.1, l.kept.2, refl);
        left = inl l.kept.3;
      }

  -- Taking an event from the queue pays for the batch that it opens or joins.
  taken-paid :
      (e : Event) (queue : List Event) (s : Worker)
      → s.queue ≡ e ∷ queue
      → length s.queue * (batch_cost c + 1) ≡ length queue * (batch_cost c + 1) + (batch_cost c + 1)
  taken-paid e queue s q =
      ap (λ t. length {A = Event} t * (batch_cost c + 1)) q
      ∙ suc-mul (length queue) (batch_cost c + 1)

  receive_event-Advances :
      (b : Batch) (e : Event) (queue : List Event) (body : Option Bytes) (s : Worker)
      → s.phase ≡ collecting b
      → s.queue ≡ e ∷ queue
      → Advances c s (receive_event c w b e body (record s { queue = queue }))
  unfolding receive_event send
  receive_event-Advances b e queue none s at q = record {
    less = omega (arith, taken-paid e queue s q);
    kept = (refl, refl, refl, refl);
    left = inl refl;
  }
  receive_event-Advances b e queue (some body) s at q =
      let paid = taken-paid e queue s q in
      let from = ap (phase_cost c) at in
      let joined = append_event-Leaves b e body (record s { queue = queue }) in
      let same = ap (λ t. length {A = Event} t * (batch_cost c + 1)) joined.queue in
      elim (Bool-cases (ltb 0 (length b.encoded) && ltb c.batch_bytes (b.size + length body + 1))) [
        | inl over ↦ rw over (record {
          less = ground (arith, paid, from);
          kept = (refl, refl, refl, refl);
          left = inl refl;
        })
        | inr fits ↦ rw fits (record {
          less = ground (arith, paid, from, same, joined.cost);
          kept = (joined.kept.0, joined.kept.1, joined.kept.2, refl);
          left = inl joined.kept.3;
        })
      ]

  send-Advances :
      (b : Batch) (after : After) (s : Worker)
      → s.phase ≡ collecting b
      → (length b.encoded == 0) ≡ false
      → after_cost c after ≤ 1
      → Advances c s (send w b after s)
  unfolding send
  send-Advances b after s at something h = record {
    less = ground (arith, ap (phase_cost c) at);
    kept = (refl, refl, refl, refl);
    left = inl refl;
  }

  receive_queue-Advances :
      (b : Batch) (queue : List Event) (s t : Worker)
      → s.phase ≡ collecting b
      → s.queue ≡ queue
      → receive_queue c w b queue s ≡ some t
      → Advances c s t
  unfolding receive_queue send
  receive_queue-Advances b [] s t at q e = elim (Bool-cases (length b.encoded == 0)) [
    | inl nothing ↦
        subst (Advances c s) (some-injective (record s { phase = finished }) t (ground arith))
          (record {
            less = ground (arith, ap (phase_cost c) at);
            kept = (refl, refl, refl, refl);
            left = inl refl;
          })
    | inr something ↦
        subst (Advances c s) (some-injective (send w b leave s) t (ground arith))
          (send-Advances b leave s at something (omega arith))
  ]
  receive_queue-Advances b (x ∷ queue) s t at q e =
      subst (Advances c s) (some-injective _ _ e)
        (receive_event-Advances b x queue (event_body w x) s at q)

  step_collecting-Advances :
      (b : Batch) (a : Action) (s t : Worker)
      → s.phase ≡ collecting b
      → step_collecting c w b a s ≡ some t
      → Advances c s t
  unfolding step_collecting send abandon_queue
  step_collecting-Advances b receive s t at e = receive_queue-Advances b s.queue s t at refl e
  step_collecting-Advances b flush s t at e = elim (Bool-cases (length b.encoded == 0)) [
    | inl nothing ↦ ground arith
    | inr something ↦
        subst (Advances c s) (some-injective (send w b resume s) t (ground arith))
          (send-Advances b resume s at something (omega arith))
  ]
  step_collecting-Advances b abandon s t at e = elim (Bool-cases s.aborted) [
    | inl gone ↦
        subst (Advances c s) (some-injective (abandon_queue b s) t (ground arith)) (record {
          less = ground (arith, ap (phase_cost c) at);
          kept = (refl, refl, refl, refl);
          left = inr gone;
        })
    | inr going ↦ ground arith
  ]
  step_collecting-Advances b other s t at e = cc

  pub step_worker-Advances :
      (phase : Phase) (a : Action) (s t : Worker)
      → s.phase ≡ phase
      → step_worker c w phase a s ≡ some t
      → Advances c s t
  unfolding step_worker step_delivering step_sleeping settle
  step_worker-Advances (collecting b) a s t at e = step_collecting-Advances b a s t at e
  step_worker-Advances (delivering d) (answer r elapsed) s t at e =
      let v = judge c s.aborted d.attempt elapsed r in
      subst (Advances c s) (some-injective _ _ e) (
        Leaves-Advances _ s _ (settle-Leaves d elapsed s.aborted r v s refl)
          (omega (arith, ap (phase_cost c) at)))
  step_worker-Advances (delivering d) other s t at e = cc
  step_worker-Advances (sleeping d wait) wake s t at e =
      subst (Advances c s) (some-injective _ _ e) (record {
        less = omega (arith, ap (phase_cost c) at);
        kept = (refl, refl, refl, refl);
        left = inl refl;
      })
  step_worker-Advances (sleeping d wait) interrupt s t at e = elim (Bool-cases s.aborted) [
    | inl gone ↦
        subst (Advances c s) (some-injective (settle c w d undelivered s) t (ground arith)) (
          Leaves-Advances _ s _
            (done-Leaves d.after (after_cost c d.after) s _ refl (refl, refl, refl, refl)
              (omega arith))
            (omega (arith, ap (phase_cost c) at)))
    | inr going ↦ ground arith
  ]
  step_worker-Advances (sleeping d wait) other s t at e = cc
  step_worker-Advances finished a s t at e = cc

  -- Every step of the worker uses up some of a bounded amount of work, whatever the reporter answers
  -- and however the timers, the deadline and the queue take turns, so that the worker can make no more
  -- than `work_left` steps before it must wait for an event or has returned.
  pub step_worker_bounded :
      (a : Action) (s t : Worker)
      → step_worker c w s.phase a s ≡ some t
      → work_left c t < work_left c s
  step_worker_bounded a s t e = (step_worker-Advances s.phase a s t refl e).less
