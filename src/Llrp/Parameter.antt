-- ===== src/Llrp/Parameter.antt =====
-- LLRP parameters (llrp/codec.go): TLV with a length on the wire, and TV whose length the type fixes.
pub mod RoundTrip
pub mod Walk
pub mod Encodes
use tagstrak.Common.{
  ℕ, zero, suc, ◌+◌, ◌%◌, Bool, true, false, List, [], ◌∷◌, ◌++◌, Bytes, bit_and, bit_or, length,
  drop, slice, put_u16, be_uint, Option, none, some, ok, err, ltb, ◌==◌, if◌then◌else◌, ◌>>=◌,
}
use tagstrak.Llrp.Error.{
  Llrp, Limits, normalized, malformed_header, length_mismatch, parameter_truncated,
  parameter_too_large, parameter_limit, unsupported_parameter,
}

-- `Data`, without the wire header, is `content`.
pub record Parameter : Type 0 where
  pub kind : ℕ
  pub tv : Bool
  pub content : Bytes

-- `tvParameterSizes` and the look-up in it
unfoldable pub tv_parameter_size : ℕ → Option ℕ
tv_parameter_size kind =
    if kind == 4
    then some 9
    else if kind == 6
    then some 2
    else if kind == 7
    then some 3
    else if kind == 8
    then some 3
    else if kind == 12
    then some 3
    else if kind == 13
    then some 13
    else none

-- The TV branch of `EncodeParameter`, on the size of the type.
encode_tv : Option ℕ → Parameter → Llrp Bytes
encode_tv none p = err unsupported_parameter
encode_tv (some total) p =
    if total == 1 + length p.content
    then ok ((bit_or 0x80 p.kind % 256) ∷ p.content)
    else err length_mismatch

-- `EncodeParameter`
unfoldable pub encode_parameter : Parameter → Llrp Bytes
unfolding encode_tv
encode_parameter p =
    let size = 4 + length p.content in
    if p.tv
    then if ltb 0x7f p.kind then err malformed_header else encode_tv (tv_parameter_size p.kind) p
    else if ltb 0x03ff p.kind
    then err malformed_header
    else if ltb 65535 size
    then err parameter_too_large
    else ok ((put_u16 p.kind ++ put_u16 size) ++ p.content)

encode_loop : ℕ → List Parameter → Bytes → Llrp Bytes
encode_loop max_size [] encoded = ok encoded
encode_loop max_size (p ∷ ps) encoded = do
  value ← encode_parameter p
  if ltb max_size (length value)
      then err parameter_too_large
      else encode_loop max_size ps (encoded ++ value)

-- `EncodeParameters`
unfoldable pub encode_parameters : List Parameter → Limits → Llrp Bytes
unfolding encode_loop
encode_parameters ps limits =
    let l = normalized limits in
    if ltb l.max_parameters (length ps)
    then err parameter_limit
    else encode_loop l.max_parameter_size ps []

-- The TV branch of the loop body of `walkParameters`, on the size of the type: the parameter at the
-- front, and the bytes that it takes.
next_tv : ℕ → ℕ → Option ℕ → Bytes → Llrp (Parameter × ℕ)
next_tv max_size kind none bytes = err unsupported_parameter
next_tv max_size kind (some total) bytes =
    if ltb (length bytes) total
    then err parameter_truncated
    else if ltb max_size total
    then err parameter_too_large
    else ok (record { kind = kind; tv = true; content = slice 1 total bytes }, total)

next_tlv : ℕ → Bytes → Llrp (Parameter × ℕ)
next_tlv max_size bytes =
    let size = be_uint (slice 2 4 bytes) in
    let kind = bit_and (be_uint (slice 0 2 bytes)) 0x03ff in
    if ltb (length bytes) 4
    then err parameter_truncated
    else if ltb size 4
    then err parameter_truncated
    else if ltb max_size size
    then err parameter_too_large
    else if ltb (length bytes) size
    then err parameter_truncated
    else ok (record { kind = kind; tv = false; content = slice 4 size bytes }, size)

-- The loop body of `walkParameters` on a non-empty input, up to the visit.
pub next_parameter : ℕ → ℕ → Bytes → Llrp (Parameter × ℕ)
unfolding next_tv next_tlv
next_parameter max_size first rest =
    let kind = bit_and first 0x7f in
    if bit_and first 0x80 == 0
    then next_tlv max_size (first ∷ rest)
    else next_tv max_size kind (tv_parameter_size kind) (first ∷ rest)

module _ {S : Type 0} (max_size : ℕ) (visit : S → Parameter → Llrp S) where
  -- The loop of `walkParameters`. The first number is how many parameters may still come, the limit
  -- less `count`: where it is used up and bytes are left, the source returns too.
  pub walk_loop : ℕ → Bytes → S → Llrp S
  walk_loop left [] s = ok s
  walk_loop zero (b ∷ bs) s = err parameter_limit
  walk_loop (suc left) (b ∷ bs) s = do
    (p, size) ← next_parameter max_size b bs
    s' ← visit s p
    walk_loop left (drop size (b ∷ bs)) s'

-- `walkParameters`; what the visits write to is threaded through as a state.
unfoldable pub walk_parameters :
    {S : Type 0} → Bytes → Limits → (S → Parameter → Llrp S) → S → Llrp S
unfolding walk_loop next_parameter
walk_parameters bytes limits visit s =
    let l = normalized limits in walk_loop l.max_parameter_size visit l.max_parameters bytes s

-- the visit of `DecodeParameters`
abbrev pub collect : List Parameter → Parameter → Llrp (List Parameter)
collect ps p = ok (ps ++ p ∷ [])

-- `DecodeParameters`
unfoldable pub decode_parameters : Bytes → Limits → Llrp (List Parameter)
unfolding walk_parameters
decode_parameters bytes limits = walk_parameters bytes limits collect []
