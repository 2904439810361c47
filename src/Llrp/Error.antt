-- ===== src/Llrp/Error.antt =====
-- The package's errors and decoding limits (llrp/codec.go, llrp/ro_access_report_codec.go,
-- llrp/tag_report_data.go). The wrapped detail of an error (`%w: length %d`) is left out.
use tagstrak.Common.{ℕ, Result, ◌==◌, if◌then◌else◌}

pub data Error : Type 0 where
  frame_too_small frame_too_large malformed_header length_mismatch : Error
  parameter_truncated parameter_too_large parameter_limit unsupported_parameter : Error
  malformed_tag_report missing_epc epc_too_long : Error
  -- `io.EOF`, `io.ErrUnexpectedEOF`, `io.ErrShortWrite`, and any other error of a stream
  eof unexpected_eof short_write : Error
  stream_error : ℕ → Error

abbrev pub Llrp : Type 0 → Type 0
Llrp A = Result Error A

-- `MaxParameters` is an int; a negative one, under which every list is refused, is not represented.
pub record Limits : Type 0 where
  pub max_frame_size : ℕ
  pub max_parameter_size : ℕ
  pub max_parameters : ℕ

abbrev pub default_max_frame_size : ℕ
default_max_frame_size = 1048576

abbrev pub default_max_parameter_size : ℕ
default_max_parameter_size = 32768

abbrev pub default_max_parameters : ℕ
default_max_parameters = 4096

abbrev or_default : ℕ → ℕ → ℕ
or_default n d = if n == 0 then d else n

-- Zero fields select the defaults.
unfoldable pub normalized : Limits → Limits
normalized l = record {
  max_frame_size = or_default l.max_frame_size default_max_frame_size;
  max_parameter_size = or_default l.max_parameter_size default_max_parameter_size;
  max_parameters = or_default l.max_parameters default_max_parameters;
}

unfoldable pub default_limits : Limits
unfolding normalized
default_limits =
    normalized (record { max_frame_size = 0; max_parameter_size = 0; max_parameters = 0 })
