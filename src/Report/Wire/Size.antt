-- ===== src/Report/Wire/Size.antt =====
-- How long the bodies of batches get.
use native.Mathlib.Nat.{pow-suc}
use tagstrak.Common.{
  ℕ, zero, suc, ◌+◌, ◌/◌, ◌%◌, ◌^◌, ◌≤◌, ◌<◌, ◌≡◌, refl, arith, List, [], ◌∷◌, ◌++◌, Bytes, length,
  length-append,
}
use tagstrak.Report.Wire.{
  joined_rest, joined, encode_batch, batch_envelope, batch_middle, batch_tail, padded, batch_id,
}

-- What the worker adds to a batch's size for its events
unfoldable pub events_size : List Bytes → ℕ
events_size [] = 0
events_size (e ∷ es) = length e + 1 + events_size es

length-joined_rest : (es : List Bytes) → length (joined_rest es) ≡ events_size es
unfolding joined_rest events_size
length-joined_rest [] = refl
length-joined_rest (e ∷ es) =
    omega (arith, length-append {0} e (joined_rest es), length-joined_rest es)

length-joined : (es : List Bytes) → length (joined es) ≤ events_size es
unfolding joined events_size
length-joined [] = omega arith
length-joined (e ∷ es) = omega (arith, length-append {0} e (joined_rest es), length-joined_rest es)

length-padded :
    (width n : ℕ) (out : Bytes) → n < 10 ^ width → length (padded width n out) ≡ width + length out
unfolding padded
length-padded zero n out h = let z : n ≡ 0 = omega arith in rw z (omega arith)
length-padded (suc width) n out h =
    omega (arith, length-padded width (n / 10) ((b'0' + n % 10) ∷ out), pow-suc 10 width)

pub length-batch_id :
    (instance_id : Bytes) (n : ℕ)
    → n < 10 ^ 10
    → length (batch_id instance_id n) ≡ length instance_id + 11
unfolding batch_id
length-batch_id instance_id n h =
    omega (arith, length-append {0} instance_id (b':' ∷ padded 10 n []), length-padded 10 n [] h)

pub length-encode_batch :
    (marshal_text : Bytes → Bytes) (id id' : Bytes) (es : List Bytes)
    → length (encode_batch marshal_text id es) + length (marshal_text id')
      ≤ batch_envelope marshal_text id' + events_size es + length (marshal_text id)
unfolding encode_batch batch_envelope joined
length-encode_batch marshal_text id id' es = omega (
  arith,
  length-append {0} (marshal_text id) (batch_middle ++ (joined es ++ batch_tail)),
  length-append {0} (marshal_text id') (batch_middle ++ batch_tail),
  length-append {0} (joined es) batch_tail,
  length-joined es,
)

pub events_size-append :
    (es fs : List Bytes) → events_size (es ++ fs) ≡ events_size es + events_size fs
unfolding events_size
events_size-append [] fs = omega arith
events_size-append (e ∷ es) fs = omega (arith, events_size-append es fs)
