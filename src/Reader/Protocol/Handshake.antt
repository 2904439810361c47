-- ===== src/Reader/Protocol/Handshake.antt =====
-- The client and the emulator agree on the handshake.
use tagstrak.Common.{ℕ, ◌+◌, ◌≡◌, ◌≤◌, ◌<◌, ◌==◌, [], refl, true, ok, arith}
use tagstrak.Llrp.Error.{Limits, normalized, default_limits}
use tagstrak.Llrp.Parameter.{decode_parameters}
use tagstrak.Llrp.Messages.{
  reader_event_notification_message, set_reader_config_message, set_reader_config_response_message,
  notification_decodes, response_decodes,
}
use tagstrak.Reader.Config as Client
use tagstrak.Reader.Protocol.{validate_notification, validate_config_response}
use tagstrak.Emulator as Emulator
use tagstrak.Emulator.Keepalive.{requested_keepalive}

-- Limits that leave room for the parameters of the handshake
pub record HasRoom (l : Limits) : Type 0 where
  pub size : 22 ≤ (normalized l).max_parameter_size
  pub count : 2 ≤ (normalized l).max_parameters

notification_accepted :
    (message_id t : ℕ) (l : Limits)
    → HasRoom l
    → validate_notification (reader_event_notification_message message_id t) l true ≡ ok tt
unfolding validate_notification reader_event_notification_message
notification_accepted message_id t l room =
    let (outer, inside) = notification_decodes message_id t l room.size room.count in
    rw (outer) (rw inside refl)

response_accepted :
    (message_id : ℕ) (l : Limits)
    → HasRoom l
    → validate_config_response (set_reader_config_response_message message_id) message_id l ≡ ok tt
unfolding validate_config_response set_reader_config_response_message
response_accepted message_id l room =
    let decodes =
      response_decodes message_id l (omega (arith, room.size)) (omega (arith, room.count)) in
    let inside : decode_parameters [] l ≡ ok [] = unfold decode_parameters in refl in
    let same : (message_id == message_id) ≡ true = ground arith in rw (same, decodes, inside) refl

request_accepted :
    (message_id : ℕ) (c : Emulator.Config)
    → 10000000000 + c.ack_timeout < c.read_timeout
    → requested_keepalive (set_reader_config_message message_id) c ≡ ok 10000000000
unfolding requested_keepalive set_reader_config_message decode_parameters default_limits
request_accepted message_id c h = ground arith

-- The emulator and a client whose parameter limits have room for two parameters and for one of 22
-- bytes accept each other's handshake: whatever the time and the emulator's message ID, the client
-- accepts the emulator's first notification as one that reports a successful connection; the emulator
-- grants the keepalive of ten seconds that the client's request asks for, if its read timeout leaves
-- room; and its response to that request is the success that the client waits for.
pub handshake_accepted :
    (notification_id t : ℕ) (client : Client.Config) (c : Emulator.Config)
    → HasRoom client.limits
    → 10000000000 + c.ack_timeout < c.read_timeout
    → (validate_notification
          (reader_event_notification_message notification_id t)
          client.limits
          true
        ≡ ok tt)
      × (requested_keepalive (set_reader_config_message client.initial_message_id) c
          ≡ ok 10000000000)
      × (validate_config_response
            (set_reader_config_response_message client.initial_message_id)
            client.initial_message_id
            client.limits
          ≡ ok tt)
handshake_accepted notification_id t client c room h = (
  notification_accepted notification_id t client.limits room,
  request_accepted client.initial_message_id c h,
  response_accepted client.initial_message_id client.limits room,
)
