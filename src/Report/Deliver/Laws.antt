-- ===== src/Report/Deliver/Laws.antt =====
-- When a batch is tried again.
use tagstrak.Common.{
  ℕ, ◌+◌, ◌-◌, ◌*◌, ◌^◌, ◌≤◌, ◌<◌, ◌≡◌, ◌↔◌, arith, Bool, false, min, max, none, some,
}
use tagstrak.Report.Config.{Config}
use tagstrak.Report.Config.Laws.{backoff_lem}
use tagstrak.Report.Failure.{Failure, is_permanent, retry_after_hint}
use tagstrak.Report.Deliver.{hinted, wait_after, judge, retry}

pub hint_or_zero : Failure → ℕ
hint_or_zero f = elim (retry_after_hint f) [ none ↦ 0 | some hint ↦ hint ]

wait_after_lem :
    (c : Config) (attempt : ℕ) (f : Failure)
    → wait_after c attempt f
      ≡ min (max (c.backoff_base * 2 ^ (attempt - 1)) (hint_or_zero f)) c.backoff_max
unfolding wait_after hint_or_zero hinted
wait_after_lem c attempt f = ground (arith, backoff_lem c attempt)

-- A failed batch is tried again exactly when the dispatcher is not aborted, the failure is not
-- permanent, attempts are left, and the delay fits the retry budget. The delay is the longer of the
-- backoff (the base, doubled for each attempt before) and the destination's hint, capped at the
-- backoff's maximum.
pub judge-retry :
    (c : Config) (aborted : Bool) (attempt elapsed wait : ℕ) (f : Failure)
    → (judge c aborted attempt elapsed (some f) ≡ retry wait) ↔ (
        (aborted ≡ false)
        × (is_permanent f ≡ false)
        × (attempt < c.max_attempts)
        × (elapsed + wait ≤ c.retry_budget)
        × (wait ≡ min (max (c.backoff_base * 2 ^ (attempt - 1)) (hint_or_zero f)) c.backoff_max))
unfolding judge
judge-retry c aborted attempt elapsed wait f =
    let delay = wait_after_lem c attempt f in
    (λ h. ground (arith, delay), λ h. ground (arith, delay))
