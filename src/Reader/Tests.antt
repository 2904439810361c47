-- ===== src/Reader/Tests.antt =====
-- A session at work, and the theorems at concrete inputs.
use tagstrak.Common.{
  ℕ, ◌≤◌, ◌<◌, ◌≡◌, ◌⊎◌, refl, arith, true, false, List, [], ◌∷◌, ◌++◌, Bytes, codes, none, some,
  ok, take,
}
use tagstrak.Inventory.{Observation, new_tag, new_observation}
use tagstrak.Llrp.Error as Codec
use tagstrak.Llrp.Error.{default_limits}
use tagstrak.Llrp.Frame.{Message}
use tagstrak.Llrp.Messages.{
  reader_event_notification_message, set_reader_config_message, set_reader_config_response_message,
  keepalive_message, ro_access_report_message,
}
use tagstrak.Llrp.Parameter.{decode_parameters, tv_parameter_size}
use tagstrak.Llrp.TagReport.{decode_read_events}
use tagstrak.Emulator as Emulator
use tagstrak.Emulator.Keepalive.{requested_keepalive}
use tagstrak.Reader.Config.{Config, validate, backoff}
use tagstrak.Reader.Protocol.{
  backpressure, codec, context_error, validate_notification, validate_config_response,
  decode_observations,
}
use tagstrak.Reader.Protocol.Handshake.{HasRoom, handshake_accepted}
use tagstrak.Reader.Session.{
  Snapshot, idle, serving, Connection, Incoming, goes_on, ends, open_stage, next_u64,
  handle_serving, receive_all, connect,
}
use tagstrak.Reader.Session.Stages.{left}
use tagstrak.Reader.Session.Serving.{Opened, receive_all_shut, report_handled}
use tagstrak.Reader.Session.Run.{Attempt, exhausted, Session, new, run}

-- `DefaultConfig`
abbrev config : Config
config = record {
  address = codes "127.0.0.1:5084";
  source = codes "reader-1";
  connect_timeout = 5000000000;
  handshake_timeout = 5000000000;
  read_timeout = 30000000000;
  write_timeout = 5000000000;
  retry_min = 1000000000;
  retry_max = 30000000000;
  max_retries = 5;
  initial_message_id = 1000;
  limits = default_limits;
}

abbrev emulated : Emulator.Config
emulated = record {
  keepalive_interval = 10000000000;
  ack_timeout = 5000000000;
  read_timeout = 30000000000;
  frame_bytes = 1500;
}

backoff_test : backoff config 6 ≡ 30000000000
unfolding backoff
backoff_test = refl

config-HasRoom : HasRoom config.limits
unfolding default_limits
config-HasRoom = record { size = omega arith; count = omega arith }

handshake_accepted_example :
    (validate_notification (reader_event_notification_message 1 1700000000000000) config.limits true
      ≡ ok tt)
    × (requested_keepalive (set_reader_config_message 1000) emulated ≡ ok 10000000000)
    × (validate_config_response (set_reader_config_response_message 1000) 1000 config.limits
        ≡ ok tt)
handshake_accepted_example =
    handshake_accepted 1 1700000000000000 config emulated config-HasRoom (omega arith)

abbrev fresh : Snapshot
fresh = record {
  state = idle;
  ready = false;
  attempts = 0;
  reconnects = 0;
  frames = 0;
  reports = 0;
  observations = 0;
  keepalives = 0;
  queue_overflows = 0;
  failures = 0;
  last_error = none;
  retry_delay = 0;
}

abbrev incoming : Message → Incoming
incoming m = record { cancelled = false; read = ok m; write = ok tt; now = 1; room = 1; checks = 1 }

abbrev handshake : List Incoming
handshake =
    incoming (reader_event_notification_message 1 0)
    ∷ incoming (keepalive_message 7)
    ∷ incoming (set_reader_config_response_message 1000)
    ∷ []

handshake_opens : (left (receive_all config handshake (connect fresh []))).stage ≡ open_stage
unfolding receive_all connect reader_event_notification_message set_reader_config_response_message
    default_limits decode_parameters validate_notification validate_config_response
handshake_opens = refl

receive_all_shut_example :
    (Opened config handshake
      × ((left (receive_all config handshake (connect fresh []))).stage ≡ open_stage))
    ⊎ (((left (receive_all config handshake (connect fresh []))).status.ready ≡ false)
        × ((left (receive_all config handshake (connect fresh []))).out ≡ []))
receive_all_shut_example = receive_all_shut config handshake fresh []

-- A report of one tag of two bytes
abbrev body : Bytes
body = 0 ∷ 240 ∷ 0 ∷ 15 ∷ 0 ∷ 241 ∷ 0 ∷ 8 ∷ 0 ∷ 16 ∷ 0xab ∷ 0xcd ∷ 140 ∷ 8 ∷ 0 ∷ []

abbrev seen : List Observation
seen =
    record {
      tag = record { epc = 0xab ∷ 0xcd ∷ [] };
      seen_at = 1;
      source = codes "reader-1";
      pc = some 2048;
    }
    ∷ []

abbrev open_connection : Connection
open_connection = record { stage = open_stage; status = fresh; written = []; out = [] }

body_decodes : decode_observations body config.limits config.source 1 ≡ ok seen
unfolding decode_observations decode_parameters default_limits decode_read_events tv_parameter_size
    new_tag new_observation
body_decodes = refl

report_handled_example :
    ((1 ≤ 1)
      × (1 ≤ 1)
      × (k' : Connection) × (handle_serving config
            (incoming (ro_access_report_message body 9))
            (ro_access_report_message body 9)
            open_connection
          ≡ goes_on k')
      × (k'.out ≡ seen)
      × (k'.status.state ≡ serving)
      × (k'.status.ready ≡ true))
    ⊎ (((1 < 1)
          × (1 ≤ 1)
          × (k' : Connection) × (handle_serving config
                (incoming (ro_access_report_message body 9))
                (ro_access_report_message body 9)
                open_connection
              ≡ ends k' context_error)
          × (k'.out ≡ [] ++ take 1 seen))
        ⊎ ((1 < 1)
            × (1 < 1)
            × (k' : Connection) × (handle_serving config
                  (incoming (ro_access_report_message body 9))
                  (ro_access_report_message body 9)
                  open_connection
                ≡ ends k' backpressure)
            × (k'.out ≡ [] ++ take 1 seen)
            × (k'.status.queue_overflows ≡ next_u64 0)))
report_handled_example =
    report_handled config (incoming (ro_access_report_message body 9))
      (ro_access_report_message body 9) seen open_connection refl body_decodes

-- A reader that closes every connection
abbrev closing : ℕ → Attempt
closing n = record {
  cancelled_before = false;
  dial = ok tt;
  incoming = [];
  read_end = codec Codec.eof;
  cancelled_within = false;
  cancelled_waiting = false;
}

abbrev unused : Session
unused = record { started = false; status = fresh }

-- `New` on an address with its port
new_test : new (λ s. some s) (λ s. some 5084) config true ≡ ok unused
unfolding new validate default_limits
new_test = refl

closing_exhausts :
    (run config (λ n. false) true false closing unused []).1.end ≡ exhausted (codec Codec.eof)
unfolding run receive_all
closing_exhausts = refl
