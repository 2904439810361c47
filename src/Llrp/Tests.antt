-- ===== src/Llrp/Tests.antt =====
-- The LLRP theorems at concrete messages, parameters and tags.
use tagstrak.Common.{
  ℕ, ◌+◌, ◌≤◌, ◌≡◌, ◌≢◌, refl, sym, ap, ◌∙◌, arith, true, false, List, [], ◌∷◌, ◌++◌, Bytes,
  IsBytes, length, take, map, All, none, some, ok, max, ◌>>=◌,
}
use tagstrak.Llrp.Error.{eof, normalized, default_limits}
use tagstrak.Llrp.Frame.{
  Message, encode_message, decode_message, Reader, read_message, Written, wrote, write_message,
}
use tagstrak.Llrp.Frame.RoundTrip.{decode_message-encode_message, encode_message-decode_message}
use tagstrak.Llrp.Frame.Stream.{
  read_message-frame, read_message_sound, read_message_bounded, write_message-ne-none, IsHonest,
  write_message_sent,
}
use tagstrak.Llrp.Parameter.{
  Parameter, tv_parameter_size, encode_parameter, encode_parameters, decode_parameters,
}
use tagstrak.Llrp.Messages.{
  put_u64, event_parameters, reader_event_notification_message,
  decode_parameters-reader_event_notification_message,
}
use tagstrak.Llrp.Parameter.Walk.{Visited, decode_parameters_covers}
use tagstrak.Llrp.Parameter.RoundTrip.{decode_parameters-encode_parameters}
use tagstrak.Llrp.TagReport.{ReadEvent, decode_read_events, new_tag_report_data_param}
use tagstrak.Llrp.TagReport.Decode.{read_views, event_of, decode_read_events_lem}
use tagstrak.Llrp.TagReport.Events.{IsReadEvent, decode_read_events-IsReadEvent}
use tagstrak.Llrp.TagReport.RoundTrip.{
  HasRoom, tag_reports, tag_event, decode_read_events-tag_reports,
}

abbrev keepalive : Message
keepalive = record { header = record { kind = 1086; length = 0; id = 7 }; payload = [] }

abbrev keepalive_frame : Bytes
keepalive_frame = 4 ∷ 62 ∷ 0 ∷ 0 ∷ 0 ∷ 10 ∷ 0 ∷ 0 ∷ 0 ∷ 7 ∷ []

abbrev keepalive_sent : Message
keepalive_sent = record { header = record { kind = 1086; length = 10; id = 7 }; payload = [] }

keepalive-encoded : encode_message keepalive default_limits ≡ ok keepalive_frame
unfolding encode_message default_limits
keepalive-encoded = refl

keepalive-decoded : decode_message keepalive_frame default_limits ≡ ok keepalive_sent
unfolding decode_message default_limits
keepalive-decoded = refl

keepalive_frame-IsBytes : IsBytes keepalive_frame
keepalive_frame-IsBytes = (
  omega arith,
  (
    omega arith,
    (
      omega arith,
      (
        omega arith,
        (
          omega arith,
          (omega arith, (omega arith, (omega arith, (omega arith, (omega arith, tt))))),
        ),
      ),
    ),
  ),
)

decode_message-encode_message_example :
    decode_message keepalive_frame default_limits ≡ ok keepalive_sent
decode_message-encode_message_example =
    decode_message-encode_message keepalive default_limits (omega arith) (omega arith)
      keepalive-encoded

encode_message-decode_message_example :
    encode_message keepalive_sent default_limits ≡ ok keepalive_frame
encode_message-decode_message_example =
    encode_message-decode_message keepalive_frame default_limits keepalive_frame-IsBytes
      keepalive-decoded

abbrev next_bytes : Bytes
next_bytes = 4 ∷ 62 ∷ []

abbrev two_pending : Reader
two_pending = record { pending = keepalive_frame ++ next_bytes; ending = eof }

abbrev one_pending : Reader
one_pending = record { pending = next_bytes; ending = eof }

read_message-frame_example :
    read_message two_pending default_limits ≡ (ok keepalive_sent, one_pending)
read_message-frame_example =
    read_message-frame keepalive_frame next_bytes eof default_limits keepalive-decoded

keepalive-read : read_message two_pending default_limits ≡ (ok keepalive_sent, one_pending)
unfolding read_message default_limits decode_message
keepalive-read = refl

read_message_sound_example :
    (frame : Bytes) × (two_pending.pending ≡ frame ++ one_pending.pending)
    × (decode_message frame default_limits ≡ ok keepalive_sent)
read_message_sound_example = read_message_sound two_pending default_limits keepalive-read

read_message_bounded_example :
    length two_pending.pending
    ≤ length (read_message two_pending default_limits).1.pending
      + max 10 (normalized default_limits).max_frame_size
read_message_bounded_example = read_message_bounded two_pending default_limits

-- A writer that takes at most three bytes a call.
write_three : Bytes → Bytes → Written × Bytes
write_three sent bs = (wrote (length (take 3 bs)) none, sent ++ take 3 bs)

abbrev itself : Bytes → Bytes
itself sent = sent

wrote_count : Written → ℕ
wrote_count (wrote n x) = n
wrote_count _ = 0

taken_three : (bs : Bytes) → take (length (take 3 bs)) bs ≡ take 3 bs
taken_three [] = refl
taken_three (a ∷ []) = refl
taken_three (a ∷ b ∷ []) = refl
taken_three (a ∷ b ∷ c ∷ bs) = refl

write_three-IsHonest : IsHonest write_three itself
unfolding write_three wrote_count
write_three-IsHonest = record {
  counts = λ w bs h.
      let same = ap wrote_count h in
      ap (λ t. w ++ t) (sym (taken_three bs)) ∙ ap (λ n. w ++ take n bs) same;
}

write_message-ne-none_example : (write_message write_three keepalive default_limits []).0 ≢ none
write_message-ne-none_example = write_message-ne-none write_three keepalive default_limits []

keepalive-written :
    write_message write_three keepalive default_limits [] ≡ (some (ok tt), keepalive_frame)
unfolding write_message default_limits write_three
keepalive-written = refl

write_message_sent_example :
    (frame : Bytes) × (encode_message keepalive default_limits ≡ ok frame)
    × (itself keepalive_frame ≡ itself [] ++ frame)
write_message_sent_example =
    write_message_sent write_three itself write_three-IsHonest keepalive default_limits []
      keepalive_frame keepalive-written

-- Parameters and tags: one of each kind, and two tags whose EPCs take the two forms.
abbrev short_epc : Bytes
short_epc = 226 ∷ 128 ∷ []

abbrev long_epc : Bytes
long_epc = 48 ∷ 1 ∷ 2 ∷ 3 ∷ 4 ∷ 5 ∷ 6 ∷ 7 ∷ 8 ∷ 9 ∷ 10 ∷ 11 ∷ []

abbrev two_parameters : List Parameter
two_parameters =
    record { kind = 241; tv = false; content = 0 ∷ 16 ∷ short_epc }
    ∷ record { kind = 12; tv = true; content = 48 ∷ 0 ∷ [] }
    ∷ []

abbrev two_parameters_bytes : Bytes
two_parameters_bytes = 0 ∷ 241 ∷ 0 ∷ 8 ∷ 0 ∷ 16 ∷ 226 ∷ 128 ∷ 140 ∷ 48 ∷ 0 ∷ []

two_parameters-encoded : encode_parameters two_parameters default_limits ≡ ok two_parameters_bytes
unfolding encode_parameters default_limits encode_parameter tv_parameter_size
two_parameters-encoded = refl

decode_parameters-encode_parameters_example :
    decode_parameters two_parameters_bytes default_limits ≡ ok two_parameters
decode_parameters-encode_parameters_example =
    decode_parameters-encode_parameters two_parameters default_limits two_parameters-encoded

two_parameters-decoded : decode_parameters two_parameters_bytes default_limits ≡ ok two_parameters
unfolding decode_parameters default_limits tv_parameter_size
two_parameters-decoded = refl

decode_parameters_covers_example :
    Visited
      (normalized default_limits).max_parameter_size
      (normalized default_limits).max_parameters
      two_parameters_bytes
      two_parameters
decode_parameters_covers_example =
    decode_parameters_covers two_parameters_bytes default_limits two_parameters-decoded

abbrev two_tags : List (Bytes × ℕ)
two_tags = (short_epc, 12288) ∷ (long_epc, 12288) ∷ []

abbrev two_tags_body : Bytes
two_tags_body =
    (0 ∷ 240 ∷ 0 ∷ 15 ∷ two_parameters_bytes)
    ++ (0 ∷ 240 ∷ 0 ∷ 20 ∷ 141 ∷ long_epc)
    ++ 140 ∷ 48 ∷ 0 ∷ []

abbrev two_events : List ReadEvent
two_events =
    record { id = short_epc; pc = some (48 ∷ 0 ∷ []) }
    ∷ record { id = long_epc; pc = some (48 ∷ 0 ∷ []) }
    ∷ []

two_tags-encoded : tag_reports two_tags ≡ ok two_tags_body
unfolding tag_reports new_tag_report_data_param
two_tags-encoded = refl

two_tags-decoded : decode_read_events two_tags_body default_limits ≡ ok two_events
unfolding decode_read_events default_limits tv_parameter_size
two_tags-decoded = refl

default_limits-HasRoom : HasRoom default_limits
unfolding default_limits
default_limits-HasRoom = record { two = omega arith; large = omega arith }

few_tags : length two_tags ≤ (normalized default_limits).max_parameters
unfolding default_limits
few_tags = omega arith

decode_read_events-tag_reports_example :
    decode_read_events two_tags_body default_limits ≡ ok (map tag_event two_tags)
decode_read_events-tag_reports_example =
    decode_read_events-tag_reports two_tags default_limits default_limits-HasRoom few_tags
      (omega arith, (omega arith, tt)) two_tags-encoded

decode_read_events-IsReadEvent_example :
    All IsReadEvent two_events × (length two_events ≤ (normalized default_limits).max_parameters)
decode_read_events-IsReadEvent_example =
    decode_read_events-IsReadEvent two_tags_body default_limits two_tags-decoded

decode_read_events_lem_example : decode_read_events two_tags_body default_limits ≡ (do
  ps ← decode_parameters two_tags_body default_limits
  vs ← read_views default_limits ps
  ok (map event_of vs))
decode_read_events_lem_example = decode_read_events_lem two_tags_body default_limits

decode_parameters-reader_event_notification_message_example :
    (decode_parameters (reader_event_notification_message 3 1000).payload default_limits
      ≡ ok (event_parameters 1000 ∷ []))
    × (decode_parameters (event_parameters 1000).content default_limits
        ≡ ok (
            record { kind = 128; tv = false; content = put_u64 1000 }
            ∷ record { kind = 256; tv = false; content = 0 ∷ 0 ∷ [] }
            ∷ []))
decode_parameters-reader_event_notification_message_example =
    decode_parameters-reader_event_notification_message 3 1000
