-- ===== src/Llrp/Parameter/RoundTrip.antt =====
-- What the parameter encoder writes is read back.
use tagstrak.Common.{
  ℕ, zero, suc, ◌+◌, ◌-◌, ◌/◌, ◌%◌, ◌≤◌, ◌<◌, ◌≡◌, refl, sym, ap, ◌∙◌, arith, true, false, List, [],
  ◌∷◌, ◌++◌, append_assoc, append-nil, Bytes, length, length-append, take-append, drop-append,
  put_u16, be_uint, Option, none, some, ok, ltb, bit_and, inl, inr, Result-cases, Bool-cases,
  low_seven_bits, top_bit, set_top_bit, low_ten_bits,
}
use tagstrak.Llrp.Error.{Limits, normalized}
use tagstrak.Llrp.Parameter.{
  Parameter, tv_parameter_size, encode_tv, encode_parameter, encode_loop, encode_parameters,
  next_tv, next_tlv, next_parameter, walk_loop, collect, decode_parameters,
}
use tagstrak.Llrp.Parameter.Walk.{walk_loop_next}

next_tlv-encoded :
    (max_size : ℕ) (p : Parameter) (rest : Bytes)
    → p.kind ≤ 1023
    → 4 + length p.content ≤ 65535
    → 4 + length p.content ≤ max_size
    → next_tlv max_size ((put_u16 p.kind ++ put_u16 (4 + length p.content)) ++ p.content ++ rest)
      ≡ ok (record p { tv = false }, 4 + length p.content)
unfolding next_tlv
next_tlv-encoded max_size p rest hk hs hm = ground (
  arith,
  low_ten_bits (be_uint (put_u16 p.kind)),
  length-append p.content rest,
  take-append (be_uint (put_u16 (4 + length p.content)) - 4) p.content rest,
)

next_tv-encoded :
    (max_size b total : ℕ) (p : Parameter) (rest : Bytes)
    → total ≡ 1 + length p.content
    → total ≤ max_size
    → next_tv max_size p.kind (some total) (b ∷ p.content ++ rest)
      ≡ ok (record p { tv = true }, total)
unfolding next_tv
next_tv-encoded max_size b total p rest hs hm =
    ground (arith, length-append p.content rest, take-append (total - 1) p.content rest)

encode_tv_ok :
    (t : Option ℕ) (p : Parameter) {bytes : Bytes}
    → p.kind < 128
    → encode_tv t p ≡ ok bytes
    → (bytes ≡ (128 + p.kind) ∷ p.content) × (t ≡ some (1 + length p.content))
unfolding encode_tv
encode_tv_ok none p hk e = cc
encode_tv_ok (some total) p hk e = ground (arith, set_top_bit p.kind)

encode_parameter_tv :
    (p : Parameter) {bytes : Bytes}
    → p.tv ≡ true
    → encode_parameter p ≡ ok bytes
    → (p.kind < 128) × (encode_tv (tv_parameter_size p.kind) p ≡ ok bytes)
unfolding encode_parameter
encode_parameter_tv p tv e = ground arith

encode_parameter_tlv :
    (p : Parameter) {bytes : Bytes}
    → p.tv ≡ false
    → encode_parameter p ≡ ok bytes
    → (bytes ≡ (put_u16 p.kind ++ put_u16 (4 + length p.content)) ++ p.content)
      × (p.kind ≤ 1023)
      × (4 + length p.content ≤ 65535)
unfolding encode_parameter
encode_parameter_tlv p tlv e = ground arith

-- One encoded parameter in front of any bytes is the next parameter, and takes just its own bytes.
next_parameter-tv :
    (max_size : ℕ) (p : Parameter) (rest : Bytes)
    → p.kind < 128
    → tv_parameter_size p.kind ≡ some (1 + length p.content)
    → 1 + length p.content ≤ max_size
    → next_parameter max_size (128 + p.kind) (p.content ++ rest)
      ≡ ok (record p { tv = true }, 1 + length p.content)
unfolding next_parameter
next_parameter-tv max_size p rest hk known fits =
    let low : bit_and (128 + p.kind) 0x7f ≡ p.kind = omega (arith, low_seven_bits (128 + p.kind)) in
    let high : bit_and (128 + p.kind) 0x80 ≡ 128 = omega (arith, top_bit (128 + p.kind)) in
    rw (high, low, known)
      (next_tv-encoded max_size (128 + p.kind) (1 + length p.content) p rest refl fits)

next_parameter-tlv :
    (max_size a b c d : ℕ) (p : Parameter) (rest : Bytes)
    → a ∷ b ∷ c ∷ d ∷ [] ≡ put_u16 p.kind ++ put_u16 (4 + length p.content)
    → p.kind ≤ 1023
    → 4 + length p.content ≤ 65535
    → 4 + length p.content ≤ max_size
    → next_parameter max_size a (b ∷ c ∷ d ∷ p.content ++ rest)
      ≡ ok (record p { tv = false }, 4 + length p.content)
unfolding next_parameter
next_parameter-tlv max_size a b c d p rest e hk hs hm =
    let high : bit_and a 0x80 ≡ 0 = ground (arith, top_bit a) in
    rw high (ground (arith, next_tlv-encoded max_size p rest))

-- What is known of the bytes of one parameter: they are not empty, and in front of any other bytes
-- they are the next parameter and nothing more.
record IsFront (max_size : ℕ) (p : Parameter) (bytes : Bytes) : Type 0 where
  first : ℕ
  others : Bytes
  bytes_eq : bytes ≡ first ∷ others
  reads : (rest : Bytes) → next_parameter max_size first (others ++ rest) ≡ ok (p, length bytes)

next_parameter-encode_parameter :
    (max_size : ℕ) (p : Parameter) {bytes : Bytes}
    → encode_parameter p ≡ ok bytes
    → length bytes ≤ max_size
    → IsFront max_size p bytes
next_parameter-encode_parameter max_size p {bytes} e fits = elim (Bool-cases p.tv) [
  | inl tv ↦
      let (hk, inner) = encode_parameter_tv p tv e in
      let (shape, known) = encode_tv_ok (tv_parameter_size p.kind) p hk inner in
      let size : length bytes ≡ 1 + length p.content = rw shape (omega arith) in
      record {
        first = 128 + p.kind;
        others = p.content;
        bytes_eq = shape;
        reads = λ rest. cc (tv, size, next_parameter-tv max_size p rest hk known (omega arith));
      }
  | inr tlv ↦
      let (shape, hk, hs) = encode_parameter_tlv p tlv e in
      let size : length bytes ≡ 4 + length p.content = rw shape (omega arith) in
      record {
        first = p.kind / 256 % 256;
        others = (p.kind % 256) ∷ put_u16 (4 + length p.content) ++ p.content;
        bytes_eq = shape;
        reads = λ rest.
            cc (tlv, size, next_parameter-tlv max_size _ _ _ _ p rest refl hk hs (omega arith));
      }
]

-- The bytes that the encoder's loop appends for `ps` are walked as `ps`.
record IsWalked (max_size : ℕ) (ps : List Parameter) (bytes : Bytes) : Type 0 where
  walks :
      (left : ℕ) (before : List Parameter)
      → length ps ≤ left
      → walk_loop max_size collect left bytes before ≡ ok (before ++ ps)

IsWalked-cons :
    (max_size : ℕ) (p : Parameter) (ps : List Parameter) (value tail : Bytes)
    → IsFront max_size p value
    → IsWalked max_size ps tail
    → IsWalked max_size (p ∷ ps) (value ++ tail)
IsWalked-cons max_size p ps value tail next w = record { walks = walk }
  where
    walk :
        (left : ℕ) (before : List Parameter)
        → length (p ∷ ps) ≤ left
        → walk_loop max_size collect left (value ++ tail) before ≡ ok (before ++ p ∷ ps)
    walk zero before h = absurd (omega arith)
    walk (suc left) before h = rw next.bytes_eq (
        walk_loop_next max_size left next.first (next.others ++ tail) collect before
          (next.reads tail)
        ∙ rw
            (drop-append (length value) (next.first ∷ next.others) tail
              (ap length (sym next.bytes_eq)))
            (w.walks left (before ++ p ∷ []) (omega arith)
              ∙ ap ok (append_assoc before (p ∷ []) ps)))

encode_loop-IsWalked :
    (max_size : ℕ) (ps : List Parameter) (encoded : Bytes) {out : Bytes}
    → encode_loop max_size ps encoded ≡ ok out
    → (tail : Bytes) × (out ≡ encoded ++ tail) × IsWalked max_size ps tail
unfolding encode_loop
encode_loop-IsWalked max_size [] encoded e = (
  [],
  cc (append-nil encoded),
  record { walks = λ left before h. unfold walk_loop in ap ok (sym (append-nil before)) },
)
encode_loop-IsWalked max_size (p ∷ ps) encoded e = elim (Result-cases (encode_parameter p)) [
  | inl (value, h) ↦ elim (Bool-cases (ltb max_size (length value))) [
    | inl large ↦ cc (rw (h, large) at e)
    | inr fits ↦
        let (tail, split, w) =
          encode_loop-IsWalked max_size ps (encoded ++ value) (rw (h, fits) at e) in
        (
          value ++ tail,
          split ∙ append_assoc encoded value tail,
          IsWalked-cons max_size p ps value tail
              (next_parameter-encode_parameter max_size p h (ground arith)) w,
        )
  ]
  | inr (x, h) ↦ cc (rw h at e)
]

-- Decoding what `EncodeParameters` wrote under the same limits gives the parameters back, whatever
-- their types and contents are.
pub decode_parameters-encode_parameters :
    (ps : List Parameter) (l : Limits) {bytes : Bytes}
    → encode_parameters ps l ≡ ok bytes
    → decode_parameters bytes l ≡ ok ps
unfolding encode_parameters decode_parameters
decode_parameters-encode_parameters ps l e =
    elim (Bool-cases (ltb (normalized l).max_parameters (length ps))) [
      | inl many ↦ cc (rw many at e)
      | inr few ↦
          let (tail, split, w) =
            encode_loop-IsWalked (normalized l).max_parameter_size ps [] (rw few at e) in
          rw split (w.walks (normalized l).max_parameters [] (ground arith))
    ]
