-- ===== src/Reader/Config.antt =====
-- The configuration of a session and the delays between its connections (internal/reader/config.go).
-- Durations are nanoseconds; those below zero, which are refused like zero, are not represented.
pub mod Laws
use tagstrak.Common.{
  ℕ, zero, suc, ◌-◌, ◌*◌, ◌/◌, Bytes, ◌||◌, Option, none, some, length, ltb, ◌==◌, if◌then◌else◌,
  Result, ok, err,
}
use tagstrak.Llrp.Error.{Limits}
use tagstrak.Llrp.Frame.{message_header_size}

pub record Config : Type 0 where
  pub address : Bytes
  pub source : Bytes
  pub connect_timeout : ℕ
  pub handshake_timeout : ℕ
  pub read_timeout : ℕ
  pub write_timeout : ℕ
  pub retry_min : ℕ
  pub retry_max : ℕ
  pub max_retries : ℕ
  pub initial_message_id : ℕ
  pub limits : Limits

-- `ErrConfig`, by the case that refuses
pub data ConfigError : Type 0 where
  bad_address bad_port bad_source bad_durations bad_limits : ConfigError

check_port : Option ℕ → Config → Result ConfigError (Unit {0})
check_port none c = err bad_port
check_port (some port) c =
    if ltb port 1 || ltb 65535 port
    then err bad_port
    else if length c.source == 0 || ltb 256 (length c.source)
    then err bad_source
    else if c.connect_timeout == 0
        || (c.handshake_timeout == 0
            || (c.read_timeout == 0
                || (c.write_timeout == 0 || (c.retry_min == 0 || ltb c.retry_max c.retry_min))))
    then err bad_durations
    else if ltb c.limits.max_frame_size message_header_size
        || (ltb c.limits.max_parameter_size 4 || c.limits.max_parameters == 0)
    then err bad_limits
    else ok tt

check_address : (Bytes → Option ℕ) → Option Bytes → Config → Result ConfigError (Unit {0})
unfolding check_port
check_address atoi none c = err bad_address
check_address atoi (some port) c = check_port (atoi port) c

-- `Config.Validate`; `port_of` is `net.SplitHostPort` without the host, and `atoi` is `strconv.Atoi`
-- with `none` for an error or a negative number.
unfoldable pub validate :
    (port_of : Bytes → Option Bytes)
    → (atoi : Bytes → Option ℕ) → Config
    → Result ConfigError (Unit {0})
unfolding check_address
validate port_of atoi c = check_address atoi (port_of c.address) c

-- The loop of `backoff`, as many rounds as are left at most
unfoldable pub double_within : ℕ → ℕ → ℕ → ℕ
double_within limit delay zero = delay
double_within limit delay (suc left) =
    let doubled = double_within limit (delay * 2) left in
    if ltb delay limit then if ltb (limit / 2) delay then limit else doubled else delay

-- `backoff`
unfoldable pub backoff : Config → ℕ → ℕ
unfolding double_within
backoff c retry = double_within c.retry_max c.retry_min (retry - 1)
