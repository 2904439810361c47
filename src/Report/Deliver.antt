-- ===== src/Report/Deliver.antt =====
-- One delivery attempt, judged (internal/report/dispatcher.go, `Dispatcher.deliver`).
pub mod Laws
use tagstrak.Common.{
  ℕ, ◌+◌, Bool, true, false, ◌||◌, min, Option, none, some, ltb, leb, if◌then◌else◌,
}
use tagstrak.Report.Config.{Config, backoff}
use tagstrak.Report.Failure.{Failure, is_permanent, retry_after_hint}

-- The delay before the next attempt: a hint above the backoff counts, up to the backoff's maximum.
hinted : Config → ℕ → Option ℕ → ℕ
hinted c wait none = wait
hinted c wait (some hint) = if ltb wait hint then min hint c.backoff_max else wait

unfoldable pub wait_after : Config → ℕ → Failure → ℕ
unfolding hinted
wait_after c attempt f = hinted c (backoff c attempt) (retry_after_hint f)

-- `elapsed` is the time since the first attempt, and `wait` the delay that would follow.
unfoldable pub is_final : Config → ℕ → ℕ → ℕ → Failure → Bool
is_final c attempt elapsed wait f =
    is_permanent f || (leb c.max_attempts attempt || ltb c.retry_budget (elapsed + wait))

-- What becomes of the batch after an attempt
pub data Verdict : Type 0 where
  delivered undelivered failed : Verdict
  retry : ℕ → Verdict

judge_failure : Config → ℕ → ℕ → Failure → Verdict
unfolding wait_after is_final
judge_failure c attempt elapsed f =
    if is_final c attempt elapsed (wait_after c attempt f) f
    then failed
    else retry (wait_after c attempt f)

-- A round of the loop after `Deliver` has answered; `none` is a nil error.
unfoldable pub judge : Config → (aborted : Bool) → ℕ → ℕ → Option Failure → Verdict
unfolding judge_failure
judge c aborted attempt elapsed none = delivered
judge c aborted attempt elapsed (some f) =
    if aborted then undelivered else judge_failure c attempt elapsed f
