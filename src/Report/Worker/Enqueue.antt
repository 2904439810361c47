-- ===== src/Report/Worker/Enqueue.antt =====
-- What `Enqueue` promises its caller.
use tagstrak.Common.{◌≤◌, ◌<◌, ◌≡◌, ◌⊎◌, arith, true, false, [], ◌∷◌, ◌++◌, length}
use tagstrak.Report.Wire.{Event}
use tagstrak.Report.Worker.{Worker, add_u64, enqueue_event}

-- Either the dispatcher is open and the queue has room, and the event is accepted, appended and
-- counted as enqueued; or it is closed or the queue is full, and the event is refused and counted as
-- dropped, while the queue stays as it is. The worker's phase stays in both cases.
pub enqueue_event_lem :
    (x : Event) (s : Worker)
    → (((s.closed ≡ false)
          × (length s.queue < s.capacity)
          × ((enqueue_event x s).1 ≡ true)
          × ((enqueue_event x s).0.queue ≡ s.queue ++ x ∷ [])
          × ((enqueue_event x s).0.counters.enqueued ≡ add_u64 s.counters.enqueued 1)
          × ((enqueue_event x s).0.counters.dropped ≡ s.counters.dropped))
        ⊎ (((s.closed ≡ true) ⊎ (s.capacity ≤ length s.queue))
            × ((enqueue_event x s).1 ≡ false)
            × ((enqueue_event x s).0.queue ≡ s.queue)
            × ((enqueue_event x s).0.counters.enqueued ≡ s.counters.enqueued)
            × ((enqueue_event x s).0.counters.dropped ≡ add_u64 s.counters.dropped 1)))
      × ((enqueue_event x s).0.phase ≡ s.phase)
unfolding enqueue_event
enqueue_event_lem x s = ground arith
