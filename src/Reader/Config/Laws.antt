-- ===== src/Reader/Config/Laws.antt =====
-- How long the delays get.
use native.Mathlib.Nat.{pow-suc, one-le-pow, le-mul_of_pos_right}
use tagstrak.Common.{ℕ, zero, suc, ◌-◌, ◌*◌, ◌^◌, ◌≤◌, ◌≡◌, ap, arith, min}
use tagstrak.Reader.Config.{Config, double_within, backoff}

double_within-min :
    (limit delay left : ℕ)
    → delay ≤ limit
    → double_within limit delay left ≡ min (delay * 2 ^ left) limit
unfolding double_within
double_within-min limit delay zero h = omega arith
double_within-min limit delay (suc left) h =
    let step : delay * 2 ^ suc left ≡ delay * 2 * 2 ^ left =
      omega (arith, ap (λ (t : ℕ). delay * t) (pow-suc 2 left)) in
    let grown : delay * 2 ≤ delay * 2 * 2 ^ left =
      le-mul_of_pos_right (delay * 2) (one-le-pow left 2 (omega arith)) in
    ground (arith, step, grown, double_within-min limit (delay * 2) left)

-- The delay before a retry is the least one, doubled once for each retry before, and capped at the
-- greatest one.
pub backoff_lem :
    (c : Config) (retry : ℕ)
    → c.retry_min ≤ c.retry_max
    → backoff c retry ≡ min (c.retry_min * 2 ^ (retry - 1)) c.retry_max
unfolding backoff
backoff_lem c retry h = double_within-min c.retry_max c.retry_min (retry - 1) h
