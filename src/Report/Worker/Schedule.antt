-- ===== src/Report/Worker/Schedule.antt =====
-- A worker under a scheduler: turn by turn other goroutines act, and then the worker makes a step, until
-- it has returned. Other goroutines leave a closed worker where it stands.
use tagstrak.Common.{ℕ, zero, suc, ◌≡◌, refl, ◌∙◌, arith, true, List, [], ◌∷◌, Option, none, some}
use tagstrak.Report.Config.{Config}
use tagstrak.Report.Failure.{Failure}
use tagstrak.Report.Wire.{Event}
use tagstrak.Report.Worker.{
  Wiring, Phase, collecting, delivering, sleeping, finished, Worker, Action, enqueue, close, abort,
  other_batch, receive, flush, abandon, wake, interrupt, answer, enqueue_event, step_worker, step,
  Reachable, stepped,
}

-- The worker's next step where neither the flush timer nor the deadline comes first: `answer` is what
-- the reporter says, and when.
unfoldable pub next_action : Option Failure × ℕ → Phase → Action
next_action says (collecting b) = receive
next_action says (delivering d) = answer says.0 says.1
next_action says (sleeping d wait) = wake
next_action says finished = receive

-- What happens around a step: what other goroutines do before it, the action that the scheduler would
-- take, and what the reporter says.
pub record Turn : Type 0 where
  pub others : List Action
  pub chosen : Action
  pub says : Option Failure × ℕ

or_stay : Worker → Option Worker → Worker
or_stay s none = s
or_stay s (some t) = t

-- The actions of other goroutines; those of the worker itself are passed over.
unfoldable pub interfere : Config → Wiring → List Action → Worker → Worker
unfolding or_stay
interfere c w [] s = s
interfere c w (enqueue e ∷ more) s = interfere c w more (or_stay s (step c w (enqueue e) s))
interfere c w (close ∷ more) s = interfere c w more (or_stay s (step c w close s))
interfere c w (abort ∷ more) s = interfere c w more (or_stay s (step c w abort s))
interfere c w (other_batch ∷ more) s = interfere c w more (or_stay s (step c w other_batch s))
interfere c w (a ∷ more) s = interfere c w more s

-- The scheduler's action, and where it cannot happen the next one
unfoldable pub or_next :
    Config → Wiring → Option Failure × ℕ → Worker → Option Worker → Option Worker
unfolding next_action
or_next c w says s (some t) = some t
or_next c w says s none = step_worker c w s.phase (next_action says s.phase) s

unfoldable pub take_turn : Config → Wiring → Turn → Worker → Option Worker
unfolding or_next
take_turn c w turn s = or_next c w turn.says s (step_worker c w s.phase turn.chosen s)

unfoldable pub go_on : Worker → (Worker → Worker) → Option Worker → Worker
go_on s rest none = s
go_on s rest (some t) = rest t

unfoldable pub run_worker : Config → Wiring → (ℕ → Turn) → ℕ → Worker → Worker
unfolding take_turn interfere go_on
run_worker c w turns zero s = s
run_worker c w turns (suc fuel) s =
    let s' = interfere c w (turns fuel).others s in
    go_on s' (run_worker c w turns fuel) (take_turn c w (turns fuel) s')

module _ (c : Config) (w : Wiring) where
  -- A closed worker that other goroutines have left where it stood
  pub record Undisturbed (s t : Worker) : Type 0 where
    pub phase : t.phase ≡ s.phase
    pub queue : t.queue ≡ s.queue
    pub accepted : t.accepted ≡ s.accepted
    pub closed : t.closed ≡ true
    pub reachable : Reachable c w t

  or_stay-Reachable :
      (a : Action) (s : Worker) (o : Option Worker)
      → Reachable c w s
      → step c w a s ≡ o
      → Reachable c w (or_stay s o)
  unfolding or_stay
  or_stay-Reachable a s none r e = r
  or_stay-Reachable a s (some t) r e = stepped a s t r e

  after-Undisturbed : (s t u : Worker) → Undisturbed s t → Undisturbed t u → Undisturbed s u
  after-Undisturbed s t u h k = record {
    phase = k.phase ∙ h.phase;
    queue = k.queue ∙ h.queue;
    accepted = k.accepted ∙ h.accepted;
    closed = k.closed;
    reachable = k.reachable;
  }

  shut_enqueue :
      (e : Event) (s : Worker)
      → Reachable c w s
      → s.closed ≡ true
      → Undisturbed s (or_stay s (step c w (enqueue e) s))
  unfolding or_stay step enqueue_event
  shut_enqueue e s r shut =
      let reached = or_stay-Reachable (enqueue e) s _ r refl in
      record {
        phase = ground arith;
        queue = ground arith;
        accepted = ground arith;
        closed = ground arith;
        reachable = reached;
      }

  shut_abort :
      (s : Worker)
      → Reachable c w s
      → s.closed ≡ true
      → Undisturbed s (or_stay s (step c w abort s))
  unfolding or_stay step
  shut_abort s r shut =
      let reached = or_stay-Reachable abort s _ r refl in
      record {
        phase = ground arith;
        queue = ground arith;
        accepted = ground arith;
        closed = ground arith;
        reachable = reached;
      }

  shut_close :
      (s : Worker)
      → Reachable c w s
      → s.closed ≡ true
      → Undisturbed s (or_stay s (step c w close s))
  unfolding or_stay step
  shut_close s r shut = record {
    phase = refl;
    queue = refl;
    accepted = refl;
    closed = refl;
    reachable = or_stay-Reachable close s _ r refl;
  }

  shut_other_batch :
      (s : Worker)
      → Reachable c w s
      → s.closed ≡ true
      → Undisturbed s (or_stay s (step c w other_batch s))
  unfolding or_stay step
  shut_other_batch s r shut = record {
    phase = refl;
    queue = refl;
    accepted = refl;
    closed = shut;
    reachable = or_stay-Reachable other_batch s _ r refl;
  }

  pub interfere-Undisturbed :
      (others : List Action) (s : Worker)
      → Reachable c w s
      → s.closed ≡ true
      → Undisturbed s (interfere c w others s)
  unfolding interfere
  interfere-Undisturbed [] s r shut = record {
    phase = refl;
    queue = refl;
    accepted = refl;
    closed = shut;
    reachable = r;
  }
  interfere-Undisturbed (enqueue e ∷ more) s r shut =
      let h = shut_enqueue e s r shut in
      after-Undisturbed s _ _ h (interfere-Undisturbed more _ h.reachable h.closed)
  interfere-Undisturbed (close ∷ more) s r shut =
      let h = shut_close s r shut in
      after-Undisturbed s _ _ h (interfere-Undisturbed more _ h.reachable h.closed)
  interfere-Undisturbed (abort ∷ more) s r shut =
      let h = shut_abort s r shut in
      after-Undisturbed s _ _ h (interfere-Undisturbed more _ h.reachable h.closed)
  interfere-Undisturbed (other_batch ∷ more) s r shut =
      let h = shut_other_batch s r shut in
      after-Undisturbed s _ _ h (interfere-Undisturbed more _ h.reachable h.closed)
  interfere-Undisturbed (receive ∷ more) s r shut = interfere-Undisturbed more s r shut
  interfere-Undisturbed (flush ∷ more) s r shut = interfere-Undisturbed more s r shut
  interfere-Undisturbed (abandon ∷ more) s r shut = interfere-Undisturbed more s r shut
  interfere-Undisturbed (wake ∷ more) s r shut = interfere-Undisturbed more s r shut
  interfere-Undisturbed (interrupt ∷ more) s r shut = interfere-Undisturbed more s r shut
  interfere-Undisturbed (answer f n ∷ more) s r shut = interfere-Undisturbed more s r shut
