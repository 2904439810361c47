-- ===== src/Llrp/TagReport/RoundTrip.antt =====
-- Tag reports that the encoder made are decoded to the tags that they were made of.
use tagstrak.Common.{
  ℕ, ◌+◌, suc, ◌*◌, ◌%◌, ◌^◌, ◌≤◌, ◌<◌, ◌≡◌, refl, sym, ap, ◌∙◌, arith, true, false, List, [], ◌∷◌,
  ◌++◌, append-nil, Bytes, length, length-append, put_u16, take_all, All, none, some, ok,
  if◌then◌else◌, ◌==◌, map, inl, inr, Result-cases, ok-injective, subst, ◌>>=◌,
}
use tagstrak.Llrp.Error.{Llrp, Limits, normalized}
use tagstrak.Llrp.Parameter.{
  Parameter, tv_parameter_size, encode_parameter, encode_parameters, decode_parameters,
}
use tagstrak.Llrp.Parameter.RoundTrip.{decode_parameters-encode_parameters}
use tagstrak.Llrp.Parameter.Encodes.{Encodes, none_left, one_more, encode_parameters-Encodes}
use tagstrak.Llrp.Parameter.Walk.{visit_all}
use tagstrak.Llrp.TagReport.{
  TagView, ReadEvent, visit_tag, no_view, decode_tag_report_data, decode_read_events, epc_data,
  c1g2_pc, new_tag_report_data_param,
}
use tagstrak.Llrp.TagReport.Decode.{
  event_of, put_view, read_views, decode_tag_report_data_ok, decode_read_events_lem,
}

-- The parameters that a tag report holds: the EPC in the form that its length asks for, and the PC.
unfoldable pub epc_parameter : Bytes → Parameter
epc_parameter epc =
    if length epc == 12
    then record { kind = 13; tv = true; content = epc }
    else record { kind = 241; tv = false; content = put_u16 (length epc * 8) ++ epc }

unfoldable pub pc_parameter : ℕ → Parameter
pc_parameter pc = record { kind = 12; tv = true; content = put_u16 pc }

abbrev pub inner : Bytes → ℕ → Bytes
inner epc pc = epc_data (6 + length epc) (length epc * 8) epc ++ c1g2_pc pc

epc_parameter-encoded :
    (epc : Bytes)
    → length epc ≤ 8191
    → encode_parameter (epc_parameter epc) ≡ ok (epc_data (6 + length epc) (length epc * 8) epc)
unfolding encode_parameter epc_parameter epc_data tv_parameter_size
epc_parameter-encoded epc h = ground arith

pc_parameter-encoded : (pc : ℕ) → encode_parameter (pc_parameter pc) ≡ ok (c1g2_pc pc)
unfolding encode_parameter pc_parameter c1g2_pc tv_parameter_size
pc_parameter-encoded pc = refl

length-epc_data :
    (epc : Bytes) → length (epc_data (6 + length epc) (length epc * 8) epc) ≤ 6 + length epc
unfolding epc_data
length-epc_data epc = ground arith

-- Limits that leave room for the longest tag report.
pub record HasRoom (l : Limits) : Type 0 where
  pub two : 2 ≤ (normalized l).max_parameters
  pub large : 8204 ≤ (normalized l).max_parameter_size

inner-encoded :
    (epc : Bytes) (pc : ℕ) (l : Limits)
    → length epc ≤ 8191
    → HasRoom l
    → encode_parameters (epc_parameter epc ∷ pc_parameter pc ∷ []) l ≡ ok (inner epc pc)
inner-encoded epc pc l h room = encode_parameters-Encodes l room.two (
    one_more (epc_parameter-encoded epc h) (omega (arith, length-epc_data epc, room.large)) (
      rw (sym (append-nil (c1g2_pc pc))) (
        one_more (pc_parameter-encoded pc) (unfold c1g2_pc in omega (arith, room.large))
          none_left)))

pub decode_parameters-inner :
    (epc : Bytes) (pc : ℕ) (l : Limits)
    → length epc ≤ 8191
    → HasRoom l
    → decode_parameters (inner epc pc) l ≡ ok (epc_parameter epc ∷ pc_parameter pc ∷ [])
decode_parameters-inner epc pc l h room =
    decode_parameters-encode_parameters _ l (inner-encoded epc pc l h room)

-- The view of a tag.
abbrev view_of : Bytes → ℕ → TagView
view_of epc pc = record { id = epc; pc = some (put_u16 pc) }

-- The visits of the two parameters.
visit_epc :
    (epc : Bytes)
    → 0 < length epc
    → length epc ≤ 8191
    → visit_tag no_view (epc_parameter epc) ≡ ok (record { id = epc; pc = none })
unfolding visit_tag epc_parameter
visit_epc epc some_byte h = ground (arith, take_all (length epc) epc refl)

visit_pc :
    (epc : Bytes) (pc : ℕ)
    → visit_tag (record { id = epc; pc = none }) (pc_parameter pc) ≡ ok (view_of epc pc)
unfolding visit_tag pc_parameter
visit_pc epc pc = refl

decode_inner :
    (epc : Bytes) (pc : ℕ) (l : Limits)
    → 0 < length epc
    → length epc ≤ 8191
    → HasRoom l
    → decode_tag_report_data (inner epc pc) l ≡ ok (view_of epc pc)
decode_inner epc pc l some_byte h room =
    decode_tag_report_data_ok (inner epc pc) l (decode_parameters-inner epc pc l h room)
    ∙ (unfold visit_all in rw (visit_epc epc some_byte h) (rw (visit_pc epc pc) (ground arith)))

-- The parameter that one tag report is, and its encoding.
abbrev pub report_of : Bytes → ℕ → Parameter
report_of epc pc = record { kind = 240; tv = false; content = inner epc pc }

pub length-inner : (epc : Bytes) (pc : ℕ) → length (inner epc pc) ≤ 9 + length epc
length-inner epc pc =
    let pc_size : length (c1g2_pc pc) ≡ 3 = unfold c1g2_pc in refl in
    omega (
      arith,
      pc_size,
      length-append (epc_data (6 + length epc) (length epc * 8) epc) (c1g2_pc pc),
      length-epc_data epc,
    )

pub new_tag_report_data_param-inner :
    (epc : Bytes) (pc : ℕ)
    → length epc ≤ 8191
    → new_tag_report_data_param epc pc
      ≡ ok ((put_u16 240 ++ put_u16 (4 + length (inner epc pc))) ++ inner epc pc)
unfolding new_tag_report_data_param
new_tag_report_data_param-inner epc pc h =
    let small : (4 + 2 + length epc) % 2 ^ 16 ≡ 6 + length epc = omega arith in
    let bits : length epc * 8 % 2 ^ 16 ≡ length epc * 8 = omega arith in
    let total : (length (epc_data (6 + length epc) (length epc * 8) epc) + length (c1g2_pc pc) + 4)
          % 2 ^ 16
        ≡ 4 + length (inner epc pc) =
      omega (
        arith,
        length-inner epc pc,
        length-append (epc_data (6 + length epc) (length epc * 8) epc) (c1g2_pc pc),
      ) in
    rw (small, bits) (rw total (ground arith))

report_of-encoded :
    (epc : Bytes) (pc : ℕ) {value : Bytes}
    → new_tag_report_data_param epc pc ≡ ok value
    → (encode_parameter (report_of epc pc) ≡ ok value) × (length value ≤ 8204) × (length epc ≤ 8191)
report_of-encoded epc pc {value} e =
    let short : length epc ≤ 8191 = unfold new_tag_report_data_param in ground arith in
    let whole : (put_u16 240 ++ put_u16 (4 + length (inner epc pc))) ++ inner epc pc ≡ value =
      ok-injective (sym (new_tag_report_data_param-inner epc pc short) ∙ e) in
    (
      unfold encode_parameter in ground (arith, length-inner epc pc, whole),
      rw (← whole) (omega (arith, length-inner epc pc)),
      short,
    )

-- A tag is its EPC and its PC bits. The report body of a list of tags is the encodings of the single
-- reports, one after the other.
unfoldable pub tag_reports : List (Bytes × ℕ) → Llrp Bytes
tag_reports [] = ok []
tag_reports ((epc, pc) ∷ tags) = do
  value ← new_tag_report_data_param epc pc
  rest ← tag_reports tags
  ok (value ++ rest)

abbrev pub report_parameters : List (Bytes × ℕ) → List Parameter
report_parameters [] = []
report_parameters ((epc, pc) ∷ tags) = report_of epc pc ∷ report_parameters tags

abbrev tag_view : Bytes × ℕ → TagView
tag_view (epc, pc) = view_of epc pc

abbrev pub tag_event : Bytes × ℕ → ReadEvent
tag_event (epc, pc) = record { id = epc; pc = some (put_u16 pc) }

map-tag_view : (tags : List (Bytes × ℕ)) → map event_of (map tag_view tags) ≡ map tag_event tags
map-tag_view [] = refl
map-tag_view ((epc, pc) ∷ tags) = ap (λ t. tag_event (epc, pc) ∷ t) (map-tag_view tags)

length-report_parameters : (tags : List (Bytes × ℕ)) → length (report_parameters tags) ≡ length tags
length-report_parameters [] = refl
length-report_parameters ((epc, pc) ∷ tags) = ap suc (length-report_parameters tags)

module _ (l : Limits) (room : HasRoom l) where
  reports-Encodes :
      (tags : List (Bytes × ℕ)) {body : Bytes}
      → tag_reports tags ≡ ok body
      → Encodes (normalized l).max_parameter_size (report_parameters tags) body
  unfolding tag_reports
  reports-Encodes [] e =
      subst (λ b. Encodes (normalized l).max_parameter_size [] b) (ok-injective e) none_left
  reports-Encodes ((epc, pc) ∷ tags) e = elim (Result-cases (new_tag_report_data_param epc pc)) [
    | inl (value, h) ↦ elim (Result-cases (tag_reports tags)) [
      | inl (rest, k) ↦
          let (encoded, small, short) = report_of-encoded epc pc h in
          subst
            (λ b.
              Encodes (normalized l).max_parameter_size (report_of epc pc ∷ report_parameters tags)
                b)
            (ok-injective (rw (h, k) at e))
            (one_more encoded (omega (arith, room.large)) (reports-Encodes tags k))
      | inr (x, k) ↦ cc (rw (h, k) at e)
    ]
    | inr (x, h) ↦ cc (rw h at e)
  ]

  reports-read_views :
      (tags : List (Bytes × ℕ)) {body : Bytes}
      → tag_reports tags ≡ ok body
      → All (λ t. 0 < length t.0) tags
      → read_views l (report_parameters tags) ≡ ok (map tag_view tags)
  unfolding tag_reports read_views put_view
  reports-read_views [] e h = refl
  reports-read_views ((epc, pc) ∷ tags) e (some_byte, h) =
      elim (Result-cases (new_tag_report_data_param epc pc)) [
        | inl (value, made) ↦ elim (Result-cases (tag_reports tags)) [
          | inl (rest, k) ↦
              let (encoded, small, short) = report_of-encoded epc pc made in
              rw (decode_inner epc pc l some_byte short room, reports-read_views tags k h) refl
          | inr (x, k) ↦ cc (rw (made, k) at e)
        ]
        | inr (x, made) ↦ cc (rw made at e)
      ]

pub decode_parameters-tag_reports :
    (tags : List (Bytes × ℕ)) (l : Limits) {body : Bytes}
    → HasRoom l
    → length tags ≤ (normalized l).max_parameters
    → tag_reports tags ≡ ok body
    → decode_parameters body l ≡ ok (report_parameters tags)
decode_parameters-tag_reports tags l room few e =
    decode_parameters-encode_parameters (report_parameters tags) l (
      encode_parameters-Encodes l (omega (arith, length-report_parameters tags))
        (reports-Encodes l room tags e))

-- A body that is made of single tag reports is decoded to its tags, in order: each event has the
-- tag's EPC and the two bytes of its PC. The EPCs are not empty, the limits leave room for the
-- longest report, and there are no more tags than the parameter limit allows.
pub decode_read_events-tag_reports :
    (tags : List (Bytes × ℕ)) (l : Limits) {body : Bytes}
    → HasRoom l
    → length tags ≤ (normalized l).max_parameters
    → All (λ t. 0 < length t.0) tags
    → tag_reports tags ≡ ok body
    → decode_read_events body l ≡ ok (map tag_event tags)
decode_read_events-tag_reports tags l {body} room few some_bytes e =
    let decoded = decode_parameters-tag_reports tags l room few e in
    decode_read_events_lem body l
    ∙ rw (decoded, reports-read_views l room tags e some_bytes) (ap ok (map-tag_view tags))
