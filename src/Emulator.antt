-- ===== src/Emulator.antt =====
-- The reader emulator, package internal/emulator: its configuration and errors, the keepalive that it
-- agrees to (Keepalive), the packing of reports (Cycle), and the loop of a connection (Serve).
mod Tests
pub mod Keepalive
pub mod Cycle
pub mod Serve
use tagstrak.Common.{ℕ, Result, ok, err}
use tagstrak.Llrp.Error as Codec
use tagstrak.Llrp.Error.{Limits, default_limits}

-- The durations of `Config`, in nanoseconds, and its frame budget
pub record Config : Type 0 where
  pub keepalive_interval : ℕ
  pub ack_timeout : ℕ
  pub read_timeout : ℕ
  pub frame_bytes : ℕ

-- `Config.limits`
unfoldable pub limits : Config → Limits
unfolding default_limits
limits c = record default_limits { max_frame_size = c.frame_bytes }

-- `ErrProtocol`, `ErrConfig`, `ErrKeepaliveTimeout`, and the errors of the codec and the connection
pub data Error : Type 0 where
  protocol config keepalive_timeout : Error
  codec : Codec.Error → Error

unfoldable pub as_codec : {A : Type 0} → Result Codec.Error A → Result Error A
as_codec (ok a) = ok a
as_codec (err e) = err (codec e)
