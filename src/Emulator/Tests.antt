-- ===== src/Emulator/Tests.antt =====
-- Cycles of reports at concrete inputs.
use tagstrak.Common.{
  ℕ, ◌≤◌, ◌≡◌, refl, arith, true, false, List, [], ◌∷◌, Bytes, codes, none, Result, ok, map, All,
}
use tagstrak.Inventory.{Tag}
use tagstrak.Llrp.Error.{default_limits}
use tagstrak.Llrp.TagReport.{new_tag_report_data_param}
use tagstrak.Llrp.TagReport.RoundTrip.{HasRoom}
use tagstrak.Llrp.Frame.{Message}
use tagstrak.Llrp.Messages.{keepalive_message, keepalive_ack_message}
use tagstrak.Reader.Config as Client
use tagstrak.Reader.Session.{Incoming, Connection, handle_serving, goes_on, serving, open_stage}
use tagstrak.Reader.Protocol.Reports.{observation}
use tagstrak.Emulator as Emulator
use tagstrak.Emulator.Serve.{Link, nothing, input, keepalive_due, serves, serve_step}
use tagstrak.Emulator.Serve.Round.{keepalive_round}
use tagstrak.Emulator.{as_codec}
use tagstrak.Emulator.Cycle.{write_cycle}
use tagstrak.Emulator.Cycle.Packs.{shown, concat, Fits, emit_chunks, write_cycle-emit_chunks}
use tagstrak.Emulator.Cycle.Received.{keep, observe_all, write_cycle_received}

abbrev tags : List Tag
tags = record { epc = 0xab ∷ 0xcd ∷ [] } ∷ record { epc = 0 ∷ 1 ∷ 2 ∷ 3 ∷ [] } ∷ []

-- A frame of 27 bytes has room for one of these tags.
two_bodies :
    write_cycle keep 27 tags []
    ≡ ok (
        (0 ∷ 240 ∷ 0 ∷ 15 ∷ 0 ∷ 241 ∷ 0 ∷ 8 ∷ 0 ∷ 16 ∷ 0xab ∷ 0xcd ∷ 140 ∷ 8 ∷ 0 ∷ [])
        ∷ (0 ∷ 240 ∷ 0 ∷ 17 ∷ 0 ∷ 241 ∷ 0 ∷ 10 ∷ 0 ∷ 32 ∷ 0 ∷ 1 ∷ 2 ∷ 3 ∷ 140 ∷ 16 ∷ 0 ∷ [])
        ∷ [])
unfolding write_cycle new_tag_report_data_param as_codec
two_bodies = refl

room : HasRoom default_limits
unfolding default_limits
room = record { two = omega arith; large = omega arith }

write_cycle-emit_chunks_example :
    (chunks : List (List (Bytes × ℕ))) × (concat chunks ≡ map shown tags)
    × All (Fits 85) chunks
    × (write_cycle keep 85 tags [] ≡ emit_chunks keep chunks [])
write_cycle-emit_chunks_example =
    write_cycle-emit_chunks keep 85 (omega arith) tags [] (omega arith)

many : 4096 ≤ 4096
many = omega arith

write_cycle_received_example :
    (bodies : List Bytes) × (write_cycle keep 85 tags [] ≡ ok bodies)
    × (observe_all default_limits (codes "reader-1") 1 bodies
        ≡ ok (map (observation (codes "reader-1") 1) (map shown tags)))
unfolding default_limits
write_cycle_received_example =
    write_cycle_received default_limits (codes "reader-1") 1 room many (omega arith) (omega arith)
      tags 85 (omega arith) (omega arith)

abbrev link : Link
link = record {
  awaited = nothing;
  armed = true;
  keepalive_id = 2147483648;
  report_id = 1000;
  written = [];
}

abbrev emulated : Emulator.Config
emulated = record {
  keepalive_interval = 10000000000;
  ack_timeout = 5000000000;
  read_timeout = 30000000000;
  frame_bytes = 1500;
}

abbrev client : Client.Config
client = record {
  address = codes "127.0.0.1:5084";
  source = codes "reader-1";
  connect_timeout = 5000000000;
  handshake_timeout = 5000000000;
  read_timeout = 30000000000;
  write_timeout = 5000000000;
  retry_min = 1000000000;
  retry_max = 30000000000;
  max_retries = 5;
  initial_message_id = 1000;
  limits = default_limits;
}

abbrev serving_client : Connection
serving_client = record {
  stage = open_stage;
  status = record {
    state = serving;
    ready = true;
    attempts = 1;
    reconnects = 0;
    frames = 2;
    reports = 0;
    observations = 0;
    keepalives = 0;
    queue_overflows = 0;
    failures = 0;
    last_error = none;
    retry_delay = 0;
  };
  written = [];
  out = [];
}

abbrev arriving : Incoming
arriving = record {
  cancelled = false;
  read = ok (keepalive_message 2147483648);
  write = ok tt;
  now = 1;
  room = 0;
  checks = 0;
}

works : Message → Result Emulator.Error (Unit {0})
works m = ok tt

works_always : (m : Message) → works m ≡ ok tt
unfolding works
works_always m = refl

keepalive_round_example :
    (asked : Link) × (k' : Connection) × (back : Link) × (serve_step emulated works
        (keepalive_due 7)
        link
      ≡ serves asked)
    × (asked.written ≡ keepalive_message 2147483648 ∷ [])
    × (asked.armed ≡ false)
    × (handle_serving client arriving (keepalive_message 2147483648) serving_client ≡ goes_on k')
    × (k'.written ≡ keepalive_ack_message 2147483648 ∷ [])
    × (k'.status.ready ≡ true)
    × (k'.out ≡ [])
    × (serve_step emulated works (input (ok (keepalive_ack_message 2147483648)) 9) asked
        ≡ serves back)
    × (back.awaited ≡ nothing)
    × (back.armed ≡ true)
keepalive_round_example =
    keepalive_round emulated works works_always link 7 9 client arriving serving_client refl refl
      (omega arith)
