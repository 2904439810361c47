-- ===== src/Llrp/Frame.antt =====
-- Whole messages (llrp/codec.go): the frame codec, and its use on a stream.
pub mod RoundTrip
pub mod Stream
use tagstrak.Common.{
  ℕ, zero, suc, ◌+◌, ◌-◌, ◌^◌, true, false, ◌&&◌, not, [], ◌∷◌, ◌++◌, Bytes, length, drop, slice,
  put_u16, put_u32, be_uint, Option, none, some, ok, err, ltb, ◌==◌, if◌then◌else◌, ◌>>=◌, take,
}
use tagstrak.Llrp.Error.{
  Error, Llrp, Limits, normalized, frame_too_small, frame_too_large, malformed_header,
  length_mismatch, eof, unexpected_eof, short_write,
}

-- `MessageHeaderSize`
abbrev pub message_header_size : ℕ
message_header_size = 10

pub record Header : Type 0 where
  pub kind : ℕ
  pub length : ℕ
  pub id : ℕ

pub record Message : Type 0 where
  pub header : Header
  pub payload : Bytes

-- `EncodeMessage`; a Header.Length of 0 is filled in, any other has to be right.
unfoldable pub encode_message : Message → Limits → Llrp Bytes
unfolding normalized
encode_message m limits =
    let l = normalized limits in
    let size = message_header_size + length m.payload in
    if ltb l.max_frame_size size
    then err frame_too_large
    else if ltb (2 ^ 32 - 1) size
    then err frame_too_large
    else if not (m.header.length == 0) && not (m.header.length == size)
    then err length_mismatch
    else ok ((put_u16 m.header.kind ++ put_u32 size ++ put_u32 m.header.id) ++ m.payload)

-- `DecodeMessage`
unfoldable pub decode_message : Bytes → Limits → Llrp Message
unfolding normalized
decode_message frame limits =
    let l = normalized limits in
    let header : Header = record {
      kind = be_uint (slice 0 2 frame);
      length = be_uint (slice 2 6 frame);
      id = be_uint (slice 6 10 frame);
    } in
    if ltb (length frame) message_header_size
    then err frame_too_small
    else if ltb l.max_frame_size (length frame)
    then err frame_too_large
    else if ltb header.length message_header_size
    then err malformed_header
    else if ltb l.max_frame_size header.length
    then err frame_too_large
    else if not (header.length == length frame)
    then err length_mismatch
    else ok (record { header = header; payload = drop message_header_size frame })

-- An `io.Reader`: the bytes that it will still deliver, and the error with which it then ends.
pub record Reader : Type 0 where
  pub pending : Bytes
  pub ending : Error

-- `io.ReadFull`: fewer bytes than asked for are `io.EOF` only if there was none. A reader that fails
-- otherwise passes its own error on.
abbrev ending_error : Error → ℕ → Error
ending_error eof zero = eof
ending_error eof (suc n) = unexpected_eof
ending_error e n = e

unfoldable pub read_full : ℕ → Reader → Llrp Bytes × Reader
read_full n r =
    if ltb (length r.pending) n
    then (err (ending_error r.ending (length r.pending)), record r { pending = drop n r.pending })
    else (ok (take n r.pending), record r { pending = drop n r.pending })

-- The part of `ReadMessage` behind the header, once the header is there.
read_body : Bytes → Limits → Reader → Llrp Message × Reader
unfolding read_full
read_body header_bytes limits r =
    let size = be_uint (slice 2 6 header_bytes) in
    if ltb size message_header_size
    then (err malformed_header, r)
    else if ltb (normalized limits).max_frame_size size
    then (err frame_too_large, r)
    else let (body, r') = read_full (size - message_header_size) r in
      ((do bytes ← body; decode_message (header_bytes ++ bytes) limits), r')

-- After the header was read, or was not.
read_rest : Llrp Bytes → Limits → Reader → Llrp Message × Reader
unfolding read_body
read_rest (err e) limits r = (err e, r)
read_rest (ok header_bytes) limits r = read_body header_bytes limits r

-- `ReadMessage`
unfoldable pub read_message : Reader → Limits → Llrp Message × Reader
unfolding read_full read_rest
read_message r limits =
    let (header, r') = read_full message_header_size r in read_rest header limits r'

-- What one `w.Write` call reports: its count, which may be out of range, and its error.
pub data Written : Type 0 where
  wrote : ℕ → Option Error → Written
  negative : Option Error → Written

-- How a round of `WriteMessage` ends: with a result, or with a count of bytes that are written.
pub data Round : Type 0 where
  stop : Llrp (Unit {0}) → Round
  advance : ℕ → Round

-- The tests of a round, on what a `Write` of `size` bytes reported.
unfoldable pub judge : ℕ → Written → Round
judge size (negative e) = stop (err short_write)
judge size (wrote n (some x)) = if ltb size n then stop (err short_write) else stop (err x)
judge size (wrote n none) =
    if ltb size n
    then stop (err short_write)
    else if n == 0
    then stop (err short_write)
    else advance n

module _ {W : Type 0} (write : W → Bytes → Written × W) where
  -- The loop of `WriteMessage`; `none` means that the fuel ran out. A round that goes on has written
  -- a byte at least, so fuel for each byte is enough.
  unfoldable pub write_loop : ℕ → Bytes → W → Option (Llrp (Unit {0})) × W
  unfolding judge
  write_loop fuel [] w = (some (ok tt), w)
  write_loop zero (b ∷ bs) w = (none, w)
  write_loop (suc fuel) (b ∷ bs) w =
      let (report, w') = write w (b ∷ bs) in
      elim (judge (length (b ∷ bs)) report) [
        | stop r ↦ (some r, w')
        | advance n ↦ write_loop fuel (drop n (b ∷ bs)) w'
      ]

  -- `WriteMessage`
  unfoldable pub write_message : Message → Limits → W → Option (Llrp (Unit {0})) × W
  unfolding write_loop encode_message
  write_message m limits w = elim (encode_message m limits) [
    | err e ↦ (some (err e), w)
    | ok frame ↦ write_loop (length frame) frame w
  ]
