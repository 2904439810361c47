-- ===== src/Report/Wire.antt =====
-- Events and batches in the JSON wire format (internal/report/report.go, encode.go), as the parts that
-- the code puts together itself. `json.Marshal` on an event and on a text, and the format of a time,
-- are parameters.
pub mod Size
use tagstrak.Common.{
  ℕ, zero, suc, ◌+◌, ◌-◌, ◌/◌, ◌%◌, ◌^◌, Bool, true, false, List, [], ◌∷◌, ◌++◌, Option, none, some,
  Bytes, length, ltb, ◌==◌, if◌then◌else◌, codes,
}

-- `Identity`; a nil map is `none`.
pub record Identity : Type 0 where
  pub authority : Bytes
  pub key_type : Bytes
  pub components : Option (List (Bytes × Bytes))

-- `Event`; a nil slice is `none`, and a time is its nanoseconds.
pub record Event : Type 0 where
  pub id : Bytes
  pub source : Bytes
  pub observed_at : ℕ
  pub subscriptions : Option (List Bytes)
  pub scheme : Bytes
  pub epc : Bytes
  pub identity : Identity
  pub pure_identity_uri : Bytes

pub record WireIdentity : Type 0 where
  pub authority : Bytes
  pub key_type : Bytes
  pub components : List (Bytes × Bytes)

pub record WireEvent : Type 0 where
  pub id : Bytes
  pub source : Bytes
  pub observed_at : Bytes
  pub subscriptions : List Bytes
  pub scheme : Bytes
  pub epc : Bytes
  pub identity : WireIdentity
  pub pure_identity_uri : Bytes

or_empty {ℓ} : {A : Type ℓ} → Option (List A) → List A
or_empty none = []
or_empty (some xs) = xs

-- `hex.EncodeToString`
hex_digit : ℕ → ℕ
hex_digit n = if ltb n 10 then b'0' + n else b'a' + n - 10

unfoldable pub hex : Bytes → Bytes
unfolding hex_digit
hex [] = []
hex (b ∷ bs) = hex_digit (b / 16) ∷ hex_digit (b % 16) ∷ hex bs

unfoldable pub wire_event : (ℕ → Bytes) → Event → WireEvent
unfolding or_empty
wire_event time e = record {
  id = e.id;
  source = e.source;
  observed_at = time e.observed_at;
  subscriptions = or_empty e.subscriptions;
  scheme = e.scheme;
  epc = hex e.epc;
  identity = record {
    authority = e.identity.authority;
    key_type = e.identity.key_type;
    components = or_empty e.identity.components;
  };
  pure_identity_uri = e.pure_identity_uri;
}

-- `encodeEvent`; `none` stands for an error of `json.Marshal`.
unfoldable pub encode_event : (WireEvent → Option Bytes) → (ℕ → Bytes) → Event → Option Bytes
encode_event marshal time e = marshal (wire_event time e)

-- The literals of `encodeBatch`, with `Schema`
abbrev pub batch_head : Bytes
batch_head = codes "{\"schema\":\"tagstrak.report.v1\",\"batch\":"

abbrev pub batch_middle : Bytes
batch_middle = codes ",\"events\":["

abbrev pub batch_tail : Bytes
batch_tail = codes "]}"

-- The loop of `encodeBatch` after the first event
unfoldable pub joined_rest : List Bytes → Bytes
joined_rest [] = []
joined_rest (e ∷ es) = b',' ∷ (e ++ joined_rest es)

unfoldable pub joined : List Bytes → Bytes
joined [] = []
joined (e ∷ es) = e ++ joined_rest es

-- `encodeBatch`
unfoldable pub encode_batch : (Bytes → Bytes) → Bytes → List Bytes → Bytes
encode_batch marshal_text id events =
    batch_head ++ (marshal_text id ++ (batch_middle ++ (joined events ++ batch_tail)))

-- `batchEnvelope`
unfoldable pub batch_envelope : (Bytes → Bytes) → Bytes → ℕ
batch_envelope marshal_text id = length (encode_batch marshal_text id [])

-- `%010d`: ten digits at least, and those above them, which are ten at most in a uint64
more_digits : ℕ → ℕ → Bytes → Bytes
more_digits zero n out = out
more_digits (suc fuel) n out =
    let rest = more_digits fuel (n / 10) ((b'0' + n % 10) ∷ out) in if n == 0 then out else rest

unfoldable pub padded : ℕ → ℕ → Bytes → Bytes
unfolding more_digits
padded zero n out = more_digits 10 n out
padded (suc width) n out = padded width (n / 10) ((b'0' + n % 10) ∷ out)

-- The batch IDs of `Dispatcher.deliver`
unfoldable pub batch_id : Bytes → ℕ → Bytes
unfolding padded
batch_id instance_id n = instance_id ++ (b':' ∷ padded 10 n [])
