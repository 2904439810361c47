-- ===== src/Reader/Session/Retries.antt =====
-- How often a session connects, and how it ends.
use tagstrak.Common.{ℕ, ◌+◌, ◌≤◌, ◌≡◌, ◌⊎◌, Bool, true, false, List}
use tagstrak.Inventory.{Observation}
use tagstrak.Reader.Config.{Config}
use tagstrak.Reader.Session.{Snapshot}
use tagstrak.Reader.Session.Run.{
  Attempt, End, no_output, cancelled, refused, exhausted, Session, Ran, retryable, gone_after,
  connect_once,
}

module _ (c : Config) (transient : ℕ → Bool) (outside : ℕ → Attempt) where
  -- The context is cancelled before, within or after one of the connections.
  abbrev pub IsCancelled : Type 0
  IsCancelled =
      (n : ℕ) × (((outside n).cancelled_before ≡ true)
        ⊎ (((outside n).cancelled_waiting ≡ true)
            ⊎ ((v : Snapshot) × (out : List Observation) × (gone_after (outside n)
                    (connect_once c (outside n) (outside n).dial v out).2
                  ≡ true))))

  -- What the end of the loop says of the dials, the error and the context
  abbrev pub Justified : ℕ → ℕ → End → Type 0
  Justified limit dials cancelled = IsCancelled
  Justified limit dials (refused e) = (retryable transient e ≡ false) × (1 ≤ dials)
  Justified limit dials (exhausted e) = (retryable transient e ≡ true) × (dials ≡ limit)
  Justified limit dials other = ◌≡◌ {A = Bool} true false

  abbrev pub Bound : ℕ → Ran → Type 0
  Bound limit r = (r.dials ≤ limit) × Justified limit r.dials r.end

  -- What a run of a session that was not started before comes to
  abbrev pub Ended : Bool → Session × Ran → Type 0
  Ended has_output r =
      (r.0.started ≡ true)
      × (r.0.status ≡ r.1.status)
      × (r.0.status.ready ≡ false)
      × (((has_output ≡ false) × (r.1.dials ≡ 0) × (r.1.end ≡ no_output))
          ⊎ ((has_output ≡ true)
              × (r.1.dials ≤ c.max_retries + 1)
              × Justified (c.max_retries + 1) r.1.dials r.1.end))
