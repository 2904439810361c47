-- ===== src/Report/Worker/Drained.antt =====
-- Closing drains the queue: after it the worker always has a step until it has returned, and then every
-- accepted event was handed to the reporter, failed to encode, or was left by an abandoned worker.
use tagstrak.Common.{
  ℕ, zero, suc, ◌+◌, ◌*◌, ◌≤◌, ◌≡◌, ◌⊎◌, refl, ap, ◌∙◌, arith, true, List, [], ◌∷◌, ◌++◌, Option,
  none, some, length, ◌==◌, Bool-cases, inl, inr,
}
use tagstrak.Report.Config.{Config}
use tagstrak.Report.Failure.{Failure}
use tagstrak.Report.Wire.{Event}
use tagstrak.Report.Worker.{
  Wiring, Batch, leave, Phase, collecting, delivering, sleeping, finished, Worker, Action, enqueue,
  close, abort, other_batch, event_body, enqueue_event, send, receive_event, receive_queue,
  step_collecting, step_delivering, step_sleeping, step_worker, step, new_worker, Reachable,
  created, stepped,
}
use tagstrak.Report.Worker.Closing.{finished_accounted}
use tagstrak.Report.Worker.Order.{encodable, open_events, offered-accepted}
use tagstrak.Report.Worker.Drain.{batch_cost, work_left, phase_cost, step_worker-Advances}
use tagstrak.Report.Worker.Schedule.{
  next_action, Turn, interfere, or_next, take_turn, go_on, run_worker, Undisturbed,
  interfere-Undisturbed,
}

-- What comes of a worker that was closed
abbrev pub Drained : Wiring → Worker → Worker → Type 0
Drained w s t =
    (t.phase ≡ finished)
    × (t.queue ≡ [])
    × (t.accepted ≡ s.accepted)
    × (encodable w t.accepted ≡ t.offered ++ encodable w t.left_over)
    × ((t.left_over ≡ []) ⊎ (t.aborted ≡ true))

module _ (c : Config) (w : Wiring) where
  -- After closing, the worker can go on until it has returned.
  receive_next :
      (b : Batch) (queue : List Event) (s : Worker)
      → s.closed ≡ true
      → (t : Worker) × (receive_queue c w b queue s ≡ some t)
  unfolding receive_queue
  receive_next b [] s shut = elim (Bool-cases (length b.encoded == 0)) [
    | inl nothing ↦ (record s { phase = finished }, rw (shut, nothing) refl)
    | inr something ↦ (send w b leave s, rw (shut, something) refl)
  ]
  receive_next b (e ∷ queue) s shut =
      (receive_event c w b e (event_body w e) (record s { queue = queue }), refl)

  next_step :
      (says : Option Failure × ℕ) (phase : Phase) (s : Worker)
      → s.closed ≡ true
      → (phase ≡ finished)
        ⊎ ((t : Worker) × (step_worker c w phase (next_action says phase) s ≡ some t))
  unfolding next_action step_worker step_collecting step_delivering step_sleeping
  next_step says (collecting b) s shut = inr (receive_next b s.queue s shut)
  next_step says (delivering d) s shut = inr (_, refl)
  next_step says (sleeping d wait) s shut = inr (_, refl)
  next_step says finished s shut = inl refl

  no_work : (p : Phase) → phase_cost c p ≡ 0 → p ≡ finished
  no_work (collecting b) h = absurd (ground arith)
  no_work (delivering d) h = absurd (omega arith)
  no_work (sleeping d wait) h = absurd (omega arith)
  no_work finished h = refl

  -- A turn is a step of the worker, and there is one unless it has returned.
  or_next-some :
      (turn : Turn) (s t : Worker) (o : Option Worker)
      → step_worker c w s.phase turn.chosen s ≡ o
      → or_next c w turn.says s o ≡ some t
      → (a : Action) × (step_worker c w s.phase a s ≡ some t)
  unfolding or_next
  or_next-some turn s t none e h = (next_action turn.says s.phase, h)
  or_next-some turn s t (some u) e h = (turn.chosen, e ∙ h)

  or_next-none :
      (says : Option Failure × ℕ) (s : Worker) (o : Option Worker)
      → s.closed ≡ true
      → or_next c w says s o ≡ none
      → s.phase ≡ finished
  unfolding or_next
  or_next-none says s none shut h = elim (next_step says s.phase s shut) [
    | inl over ↦ over
    | inr (t, e) ↦ cc
  ]
  or_next-none says s (some u) shut h = cc

  -- The worker makes none of the other goroutines' actions.
  others_idle :
      (phase : Phase) (e : Event) (s : Worker)
      → (step_worker c w phase (enqueue e) s ≡ none)
        × (step_worker c w phase close s ≡ none)
        × (step_worker c w phase abort s ≡ none)
        × (step_worker c w phase other_batch s ≡ none)
  unfolding step_worker step_collecting step_delivering step_sleeping
  others_idle (collecting b) e s = (refl, refl, refl, refl)
  others_idle (delivering d) e s = (refl, refl, refl, refl)
  others_idle (sleeping d wait) e s = (refl, refl, refl, refl)
  others_idle finished e s = (refl, refl, refl, refl)

  any_event : Event
  any_event = record {
    id = [];
    source = [];
    observed_at = 0;
    subscriptions = none;
    scheme = [];
    epc = [];
    identity = record { authority = []; key_type = []; components = none };
    pure_identity_uri = [];
  }

  step_worker-step :
      (a : Action) (s t : Worker) → step_worker c w s.phase a s ≡ some t → step c w a s ≡ some t
  unfolding step
  step_worker-step (enqueue e) s t h = let i = (others_idle s.phase e s).0 in cc
  step_worker-step close s t h = let i = (others_idle s.phase any_event s).1 in cc
  step_worker-step abort s t h = let i = (others_idle s.phase any_event s).2 in cc
  step_worker-step other_batch s t h = let i = (others_idle s.phase any_event s).3 in cc
  step_worker-step other s t h = h

  -- Only an abandoned worker leaves events over.
  step-left :
      (a : Action) (s t : Worker)
      → (s.left_over ≡ []) ⊎ (s.aborted ≡ true)
      → step c w a s ≡ some t
      → (t.left_over ≡ []) ⊎ (t.aborted ≡ true)
  unfolding step enqueue_event
  step-left (enqueue e) s t h k = ground arith
  step-left close s t h k = ground arith
  step-left abort s t h k = ground arith
  step-left other_batch s t h k = ground arith
  step-left other s t h k =
      let on = step_worker-Advances c w s.phase other s t refl k in
      elim on.left [
        | inr gone ↦ inr (on.kept.2 ∙ gone)
        | inl same ↦ elim h [ inl nil ↦ inl (same ∙ nil) | inr gone ↦ inr (on.kept.2 ∙ gone) ]
      ]

  Reachable-left : (s : Worker) → Reachable c w s → (s.left_over ≡ []) ⊎ (s.aborted ≡ true)
  unfolding new_worker
  Reachable-left u created = inl refl
  Reachable-left u (stepped a s t r e) = step-left a s t (Reachable-left s r) e

  finished-Drained :
      (s t : Worker)
      → Reachable c w t
      → t.phase ≡ finished
      → t.accepted ≡ s.accepted
      → Drained w s t
  unfolding encodable
  finished-Drained s t r f same =
      let (shut, empty, counted) = finished_accounted c w t r f in
      (
        f,
        empty,
        same,
        offered-accepted c w t r
            ∙ ap
                (λ p.
                  t.offered ++ (open_events p ++ (encodable w t.queue ++ encodable w t.left_over)))
                f
            ∙ ap (λ q. t.offered ++ (encodable w q ++ encodable w t.left_over)) empty,
        Reachable-left t r,
      )

  go_on-Drained :
      (turn : Turn) (s s' : Worker) (fuel : ℕ) (rest : Worker → Worker) (o : Option Worker)
      → Undisturbed c w s s'
      → work_left c s ≤ suc fuel
      → take_turn c w turn s' ≡ o
      → ((t : Worker)
          → Reachable c w t
          → t.closed ≡ true
          → work_left c t ≤ fuel
          → Drained w t (rest t))
      → Drained w s (go_on s' rest o)
  unfolding go_on take_turn
  go_on-Drained turn s s' fuel rest none here h e more =
      finished-Drained s s' here.reachable (or_next-none turn.says s' _ here.closed e) here.accepted
  go_on-Drained turn s s' fuel rest (some t) here h e more =
      let (a, made) = or_next-some turn s' t _ refl e in
      let on = step_worker-Advances c w s'.phase a s' t refl made in
      let queue = ap (λ q. length {A = Event} q * (batch_cost c + 1)) here.queue in
      let phase = ap (phase_cost c) here.phase in
      let done =
        more t (stepped a s' t here.reachable (step_worker-step a s' t made))
          (on.kept.0 ∙ here.closed) (omega (arith, on.less, queue, phase, h)) in
      (done.0, done.1, done.2 ∙ on.kept.1 ∙ here.accepted, done.3, done.4)

  -- Whatever a worker whose queue is closed was doing, and however the flush timer, the deadline, the
  -- reporter, `Enqueue` and `Close` take turns with it, `fuel` turns are enough, if the work left is
  -- no more, for it to drain its queue and return. Then the queue is empty; the events that were
  -- accepted are those from before; those of them that can be encoded are, in order, the ones that the
  -- reporter was handed and the ones that were left over; and none is left over unless the deadline
  -- has aborted the worker.
  pub run_worker-Drained :
      (turns : ℕ → Turn) (fuel : ℕ) (s : Worker)
      → Reachable c w s
      → s.closed ≡ true
      → work_left c s ≤ fuel
      → Drained w s (run_worker c w turns fuel s)
  unfolding run_worker
  run_worker-Drained turns zero s r shut h =
      finished-Drained s s r (no_work s.phase (omega arith)) refl
  run_worker-Drained turns (suc fuel) s r shut h =
      let s' = interfere c w (turns fuel).others s in
      go_on-Drained (turns fuel) s s' fuel (run_worker c w turns fuel)
        (take_turn c w (turns fuel) s') (interfere-Undisturbed c w (turns fuel).others s r shut) h
        refl (λ t reached closed less. run_worker-Drained turns fuel t reached closed less)
