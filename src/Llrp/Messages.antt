-- ===== src/Llrp/Messages.antt =====
-- The typed messages (llrp/typed_messages.go) with the parameters that they hold (llrp/parameter.go)
-- and their header values (llrp/llrp.go). `pack` lays its values out one after the other.
use tagstrak.Common.{
  ℕ, ◌+◌, ◌/◌, ◌%◌, ◌^◌, ◌≡◌, ◌≤◌, refl, arith, ltb, false, [], ◌∷◌, ◌++◌, Bytes, length, put_u16,
  put_u32, ok,
}
use tagstrak.Llrp.Error.{Limits, normalized, default_limits}
use tagstrak.Llrp.Frame.{Message}
use tagstrak.Llrp.Parameter.{Parameter, encode_parameter, encode_parameters, decode_parameters}
use tagstrak.Llrp.Parameter.RoundTrip.{decode_parameters-encode_parameters}

-- The 64-bit word that `binary.Write` makes
pub put_u64 : ℕ → Bytes
put_u64 n = put_u32 (n / 2 ^ 32) ++ put_u32 (n % 2 ^ 32)

-- `uTCTimeStamp`, `connectionAttemptEvent`, `keepaliveSpec`, `status`
pub utc_time_stamp : ℕ → Bytes
unfolding put_u64
utc_time_stamp current_time = put_u16 128 ++ put_u16 12 ++ put_u64 current_time

pub connection_attempt_event : Bytes
connection_attempt_event = put_u16 256 ++ put_u16 6 ++ put_u16 0

unfoldable pub keepalive_spec : Bytes
keepalive_spec = put_u16 220 ++ put_u16 9 ++ 1 ∷ put_u32 10000

unfoldable pub status : Bytes
status = put_u16 287 ++ put_u16 8 ++ put_u16 0 ++ put_u16 0

-- `readerEventNotificationData`
unfoldable pub reader_event_notification_data : ℕ → Bytes
unfolding utc_time_stamp connection_attempt_event
reader_event_notification_data current_time =
    let stamp = utc_time_stamp current_time in
    let size = length stamp + length connection_attempt_event + 4 in
    (put_u16 246 ++ put_u16 (size % 2 ^ 16)) ++ stamp ++ connection_attempt_event

abbrev typed : ℕ → ℕ → Bytes → Message
typed kind message_id payload = record {
  header = record { kind = kind; length = 0; id = message_id };
  payload = payload;
}

-- `KeepaliveMessage`, `KeepaliveAckMessage`, `ReaderEventNotificationMessage`,
-- `SetReaderConfigMessage`, `SetReaderConfigResponseMessage`, `ROAccessReportMessage`
abbrev pub keepalive_message : ℕ → Message
keepalive_message message_id = typed 1086 message_id []

abbrev pub keepalive_ack_message : ℕ → Message
keepalive_ack_message message_id = typed 1096 message_id []

unfoldable pub reader_event_notification_message : ℕ → ℕ → Message
unfolding reader_event_notification_data
reader_event_notification_message message_id current_time =
    typed 1087 message_id (reader_event_notification_data current_time)

unfoldable pub set_reader_config_message : ℕ → Message
unfolding keepalive_spec
set_reader_config_message message_id = typed 1027 message_id (0 ∷ keepalive_spec)

unfoldable pub set_reader_config_response_message : ℕ → Message
unfolding status
set_reader_config_response_message message_id = typed 1037 message_id status

abbrev pub ro_access_report_message : Bytes → ℕ → Message
ro_access_report_message tag_report_data message_id = typed 1085 message_id tag_report_data

-- The two parameters in a reader event notification.
abbrev pub event_parameters : ℕ → Parameter
event_parameters current_time = record {
  kind = 246;
  tv = false;
  content = utc_time_stamp current_time ++ connection_attempt_event;
}

encoded :
    (message_id t : ℕ) (l : Limits)
    → 22 ≤ (normalized l).max_parameter_size
    → 2 ≤ (normalized l).max_parameters
    → encode_parameters (event_parameters t ∷ []) l
      ≡ ok (reader_event_notification_message message_id t).payload
unfolding encode_parameters encode_parameter reader_event_notification_message
encoded message_id t l size count =
    let one : ltb (normalized l).max_parameters 1 ≡ false = ground arith in
    let outer : ltb (normalized l).max_parameter_size 22 ≡ false = ground arith in
    rw (one, outer) refl

encoded_inside :
    (t : ℕ) (l : Limits)
    → 22 ≤ (normalized l).max_parameter_size
    → 2 ≤ (normalized l).max_parameters
    → encode_parameters
        (record { kind = 128; tv = false; content = put_u64 t }
          ∷ record { kind = 256; tv = false; content = 0 ∷ 0 ∷ [] }
          ∷ [])
        l
      ≡ ok (event_parameters t).content
unfolding encode_parameters encode_parameter utc_time_stamp connection_attempt_event
encoded_inside t l size count =
    let two : ltb (normalized l).max_parameters 2 ≡ false = ground arith in
    let stamp : ltb (normalized l).max_parameter_size 12 ≡ false = ground arith in
    let event : ltb (normalized l).max_parameter_size 6 ≡ false = ground arith in
    rw (two, stamp, event) refl

-- A reader event notification decodes under all limits that leave room for its parameters.
pub notification_decodes :
    (message_id current_time : ℕ) (l : Limits)
    → 22 ≤ (normalized l).max_parameter_size
    → 2 ≤ (normalized l).max_parameters
    → (decode_parameters (reader_event_notification_message message_id current_time).payload l
        ≡ ok (event_parameters current_time ∷ []))
      × (decode_parameters (event_parameters current_time).content l
          ≡ ok (
              record { kind = 128; tv = false; content = put_u64 current_time }
              ∷ record { kind = 256; tv = false; content = 0 ∷ 0 ∷ [] }
              ∷ []))
notification_decodes message_id current_time l size count = (
  decode_parameters-encode_parameters _ l (encoded message_id current_time l size count),
  decode_parameters-encode_parameters _ l (encoded_inside current_time l size count),
)

abbrev pub status_parameter : Parameter
status_parameter = record { kind = 287; tv = false; content = 0 ∷ 0 ∷ 0 ∷ 0 ∷ [] }

encoded_status :
    (l : Limits)
    → 8 ≤ (normalized l).max_parameter_size
    → 1 ≤ (normalized l).max_parameters
    → encode_parameters (status_parameter ∷ []) l ≡ ok status
unfolding encode_parameters encode_parameter status
encoded_status l size count =
    let one : ltb (normalized l).max_parameters 1 ≡ false = ground arith in
    let eight : ltb (normalized l).max_parameter_size 8 ≡ false = ground arith in
    rw (one, eight) refl

-- The payload of a response decodes under all limits that leave room for its status.
pub response_decodes :
    (message_id : ℕ) (l : Limits)
    → 8 ≤ (normalized l).max_parameter_size
    → 1 ≤ (normalized l).max_parameters
    → decode_parameters (set_reader_config_response_message message_id).payload l
      ≡ ok (status_parameter ∷ [])
unfolding set_reader_config_response_message
response_decodes message_id l size count =
    decode_parameters-encode_parameters _ l (encoded_status l size count)

-- The payload of a reader event notification decodes, whatever its time is, to one parameter of type
-- 246, whose content decodes to a time stamp that holds the eight bytes of the time and a connection
-- attempt event that tells success.
pub decode_parameters-reader_event_notification_message :
    (message_id current_time : ℕ)
    → (decode_parameters
          (reader_event_notification_message message_id current_time).payload
          default_limits
        ≡ ok (event_parameters current_time ∷ []))
      × (decode_parameters (event_parameters current_time).content default_limits
          ≡ ok (
              record { kind = 128; tv = false; content = put_u64 current_time }
              ∷ record { kind = 256; tv = false; content = 0 ∷ 0 ∷ [] }
              ∷ []))
unfolding default_limits
decode_parameters-reader_event_notification_message message_id current_time =
    notification_decodes message_id current_time default_limits (omega arith) (omega arith)
