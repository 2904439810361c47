-- ===== src/Report/Config/Laws.antt =====
-- Which configurations are accepted, and how long the delays get.
use native.Mathlib.Nat.{pow-suc, one-le-pow, le-mul_of_pos_right}
use tagstrak.Common.{
  ℕ, zero, suc, ◌-◌, ◌*◌, ◌^◌, ◌≤◌, ◌<◌, ◌≡◌, ◌↔◌, sym, ap, ◌∙◌, arith, min, ok, ltb, Bool-cases,
  inl, inr,
}
use tagstrak.Report.Config.{Config, validate, double_below, backoff}

pub record IsBounded (c : Config) : Type 0 where
  pub queue : (1 ≤ c.queue_capacity) × (c.queue_capacity ≤ 1000000)
  pub events : (1 ≤ c.batch_events) × (c.batch_events ≤ c.queue_capacity)
  pub bytes : (1024 ≤ c.batch_bytes) × (c.batch_bytes ≤ 67108864)
  pub intervals : (0 < c.flush_interval) × (0 < c.request_timeout) × (0 < c.backoff_base)
  pub delays : c.backoff_base ≤ c.backoff_max
  pub attempts : (1 ≤ c.max_attempts) × (c.max_attempts ≤ 100)
  pub budget : (0 < c.retry_budget) × (c.retry_budget ≤ 3600000000000)

-- A configuration is accepted exactly where every bound of `IsBounded` holds: the queue capacity, the
-- batch's events within it and bytes, the intervals, the backoff base below its cap, the attempts
-- and the retry budget.
pub validate_iff : (c : Config) → (validate c ≡ ok tt) ↔ IsBounded c
unfolding validate
validate_iff c = (
  λ h. record {
    queue = (ground arith, ground arith);
    events = (ground arith, ground arith);
    bytes = (ground arith, ground arith);
    intervals = (ground arith, ground arith, ground arith);
    delays = ground arith;
    attempts = (ground arith, ground arith);
    budget = (ground arith, ground arith);
  },
  λ h. ground arith,
)

double_below-min :
    (limit wait left : ℕ) → min (double_below limit wait left) limit ≡ min (wait * 2 ^ left) limit
unfolding double_below
double_below-min limit wait zero = omega arith
double_below-min limit wait (suc left) =
    let step : wait * 2 ^ suc left ≡ wait * 2 * 2 ^ left =
      omega (arith, ap (λ (t : ℕ). wait * t) (pow-suc 2 left)) in
    let grown : wait * 2 ≤ wait * 2 * 2 ^ left =
      le-mul_of_pos_right (wait * 2) (one-le-pow left 2 (omega arith)) in
    elim (Bool-cases (ltb wait limit)) [
      | inl below ↦
          rw below (double_below-min limit (wait * 2) left ∙ ap (λ t. min t limit) (sym step))
      | inr above ↦ ground (arith, step, grown)
    ]

-- The delay after a failed attempt is the backoff base, doubled once for each attempt before, and
-- capped at the backoff maximum.
pub backoff_lem :
    (c : Config) (attempt : ℕ)
    → backoff c attempt ≡ min (c.backoff_base * 2 ^ (attempt - 1)) c.backoff_max
unfolding backoff
backoff_lem c attempt = double_below-min c.backoff_max c.backoff_base (attempt - 1)
