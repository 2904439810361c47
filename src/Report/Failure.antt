-- ===== src/Report/Failure.antt =====
-- What a `Reporter` can fail with, and the marks on it (internal/report/report.go).
use tagstrak.Common.{ℕ, Bool, true, false, Option, none, some}

-- An error, under the marks that `Permanent` and `RetryAfter` put on it
pub data Failure : Type 0 where
  plain : ℕ → Failure
  permanent_error : Failure → Failure
  retry_after_error : Failure → ℕ → Failure

-- `Permanent` and `RetryAfter`; `none` is nil.
unfoldable pub permanent : Option Failure → Option Failure
permanent none = none
permanent (some e) = some (permanent_error e)

unfoldable pub retry_after : Option Failure → ℕ → Option Failure
retry_after none delay = none
retry_after (some e) delay = some (retry_after_error e delay)

-- `IsPermanent` and `retryAfterHint`: `errors.As` looks through the marks from the outside in.
unfoldable pub is_permanent : Failure → Bool
is_permanent (plain n) = false
is_permanent (permanent_error e) = true
is_permanent (retry_after_error e delay) = is_permanent e

unfoldable pub retry_after_hint : Failure → Option ℕ
retry_after_hint (plain n) = none
retry_after_hint (permanent_error e) = retry_after_hint e
retry_after_hint (retry_after_error e delay) = some delay
