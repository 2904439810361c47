-- ===== src/Llrp/Frame/RoundTrip.antt =====
-- The frame codec inverts itself in both directions.
use tagstrak.Common.{
  ℕ, ◌+◌, ◌<◌, ◌≡◌, arith, [], ◌∷◌, Bytes, IsBytes, IsU16, IsU32, length, put_u16, put_u32, be_uint,
  ok,
}
use tagstrak.Llrp.Error.{Limits}
use tagstrak.Llrp.Frame.{Message, encode_message, decode_message}

-- The words of a header are read back.
u16_bytes : (n : ℕ) → IsU16 n → be_uint (put_u16 n) ≡ n
u16_bytes n h = omega arith

u32_bytes : (n : ℕ) → IsU32 n → be_uint (put_u32 n) ≡ n
u32_bytes n h = omega arith

-- Encoding and then decoding under the same limits gives the message back, its length filled in.
pub decode_message-encode_message :
    (m : Message) (l : Limits) {frame : Bytes}
    → IsU16 m.header.kind
    → IsU32 m.header.id
    → encode_message m l ≡ ok frame
    → decode_message frame l
      ≡ ok (record m { header = record m.header { length = 10 + length m.payload } })
unfolding encode_message decode_message
decode_message-encode_message m l hk hi e =
    ground
      (arith, u16_bytes m.header.kind, u32_bytes m.header.id, u32_bytes (10 + length m.payload))

-- A word is the bytes that it was read from.
bytes_u16 : (a b : ℕ) → a < 256 → b < 256 → put_u16 (be_uint (a ∷ b ∷ [])) ≡ a ∷ b ∷ []
bytes_u16 a b ha hb = ground arith

bytes_u32 :
    (a b c d : ℕ)
    → a < 256
    → b < 256
    → c < 256
    → d < 256
    → put_u32 (be_uint (a ∷ b ∷ c ∷ d ∷ [])) ≡ a ∷ b ∷ c ∷ d ∷ []
bytes_u32 a b c d ha hb hc hd = ground arith

-- Decoding a frame of bytes and encoding the message again under the same limits gives the frame.
pub encode_message-decode_message :
    (frame : Bytes) (l : Limits) {m : Message}
    → IsBytes frame
    → decode_message frame l ≡ ok m
    → encode_message m l ≡ ok frame
unfolding decode_message encode_message
encode_message-decode_message (a ∷ b ∷ c ∷ d ∷ e ∷ f ∷ g ∷ h ∷ i ∷ j ∷ rest) l p q =
    ground (arith, bytes_u16 a b, bytes_u32 c d e f, bytes_u32 g h i j)
encode_message-decode_message _ l p q = ground arith
