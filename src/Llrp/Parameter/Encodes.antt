-- ===== src/Llrp/Parameter/Encodes.antt =====
-- The list encoder puts the encodings of the single parameters one after the other.
use tagstrak.Common.{
  ℕ, ◌≤◌, ◌≡◌, ap, arith, List, [], ◌∷◌, ◌++◌, append_assoc, append-nil, Bytes, length, ok, sym,
}
use tagstrak.Llrp.Error.{Limits, normalized}
use tagstrak.Llrp.Parameter.{Parameter, encode_parameter, encode_loop, encode_parameters}

-- `bytes` are the encodings of the parameters in order, none above the size limit.
pub data Encodes (max_size : ℕ) : List Parameter → Bytes → Type 0 where
  none_left : Encodes max_size [] []
  one_more :
      {p : Parameter} {ps : List Parameter} {value tail : Bytes}
      → encode_parameter p ≡ ok value
      → length value ≤ max_size
      → Encodes max_size ps tail
      → Encodes max_size (p ∷ ps) (value ++ tail)

encode_loop-Encodes :
    (max_size : ℕ) (acc : Bytes) {ps : List Parameter} {bytes : Bytes}
    → Encodes max_size ps bytes
    → encode_loop max_size ps acc ≡ ok (acc ++ bytes)
unfolding encode_loop
encode_loop-Encodes max_size acc none_left = ap ok (sym (append-nil acc))
encode_loop-Encodes max_size acc (one_more {value = v} {tail = t} e fits more) =
    ground (arith, e, encode_loop-Encodes max_size (acc ++ v) more, append_assoc acc v t)

pub encode_parameters-Encodes :
    (l : Limits) {ps : List Parameter} {bytes : Bytes}
    → length ps ≤ (normalized l).max_parameters
    → Encodes (normalized l).max_parameter_size ps bytes
    → encode_parameters ps l ≡ ok bytes
unfolding encode_parameters
encode_parameters-Encodes l few enc =
    ground (arith, encode_loop-Encodes (normalized l).max_parameter_size [] enc)
