-- ===== src/Report/Config.antt =====
-- The configuration of delivery, its bounds, and the delays between attempts
-- (internal/report/dispatcher.go). Numbers and durations (nanoseconds) below zero, which are refused
-- like zero, are not represented, nor are durations that doubling would carry past int64.
pub mod Laws
use tagstrak.Common.{
  ℕ, zero, suc, ◌-◌, ◌*◌, Bool, true, false, ◌||◌, min, Result, ok, err, ltb, leb, ◌==◌,
  if◌then◌else◌,
}

pub record Config : Type 0 where
  pub queue_capacity : ℕ
  pub batch_events : ℕ
  pub batch_bytes : ℕ
  pub flush_interval : ℕ
  pub request_timeout : ℕ
  pub max_attempts : ℕ
  pub backoff_base : ℕ
  pub backoff_max : ℕ
  pub retry_budget : ℕ

-- `ErrConfig`, by the case that refuses
pub data ConfigError : Type 0 where
  bad_queue_capacity bad_batch_events bad_batch_bytes bad_interval bad_backoff_max : ConfigError
  bad_max_attempts bad_retry_budget : ConfigError

-- `DefaultConfig`
abbrev pub default_config : Config
default_config = record {
  queue_capacity = 10000;
  batch_events = 500;
  batch_bytes = 1048576;
  flush_interval = 1000000000;
  request_timeout = 5000000000;
  max_attempts = 10;
  backoff_base = 200000000;
  backoff_max = 10000000000;
  retry_budget = 30000000000;
}

-- `Config.Validate`
unfoldable pub validate : Config → Result ConfigError (Unit {0})
validate c =
    if ltb c.queue_capacity 1 || ltb 1000000 c.queue_capacity
    then err bad_queue_capacity
    else if ltb c.batch_events 1 || ltb c.queue_capacity c.batch_events
    then err bad_batch_events
    else if ltb c.batch_bytes 1024 || ltb 67108864 c.batch_bytes
    then err bad_batch_bytes
    else if c.flush_interval == 0 || c.request_timeout == 0 || c.backoff_base == 0
    then err bad_interval
    else if ltb c.backoff_max c.backoff_base
    then err bad_backoff_max
    else if ltb c.max_attempts 1 || ltb 100 c.max_attempts
    then err bad_max_attempts
    else if c.retry_budget == 0 || ltb 3600000000000 c.retry_budget
    then err bad_retry_budget
    else ok tt

-- The loop of `backoff`, as many rounds as are left at most
unfoldable pub double_below : ℕ → ℕ → ℕ → ℕ
double_below limit wait zero = wait
double_below limit wait (suc left) =
    let doubled = double_below limit (wait * 2) left in if ltb wait limit then doubled else wait

-- `Dispatcher.backoff`
unfoldable pub backoff : Config → ℕ → ℕ
unfolding double_below
backoff c attempt = min (double_below c.backoff_max c.backoff_base (attempt - 1)) c.backoff_max
