-- ===== src/Llrp/TagReport.antt =====
-- Tag reports: the decoder of RO_ACCESS_REPORT bodies (llrp/ro_access_report_codec.go), and the
-- encoder of one TagReportData parameter (llrp/tag_report_data.go, llrp/parameter.go).
pub mod Decode
pub mod Events
pub mod RoundTrip
use tagstrak.Common.{
  ℕ, ◌+◌, ◌-◌, ◌*◌, ◌/◌, ◌%◌, ◌^◌, Bool, true, false, ◌||◌, ◌&&◌, not, List, [], ◌∷◌, ◌++◌, Bytes,
  length, take, slice, put_u16, be_uint, Option, none, some, ok, err, ltb, ◌==◌, if◌then◌else◌,
  ◌>>=◌, ◌>>◌,
}
use tagstrak.Llrp.Error.{Error, Llrp, Limits, malformed_tag_report, missing_epc, epc_too_long}
use tagstrak.Llrp.Parameter.{Parameter, walk_parameters}

-- `tagView`: a nil id is the empty one; a nil pc is `none`.
pub record TagView : Type 0 where
  pub id : Bytes
  pub pc : Option Bytes

-- `ReadEvent`
pub record ReadEvent : Type 0 where
  pub id : Bytes
  pub pc : Option Bytes

-- The case of EPC_DATA in TLV form, where the EPC carries its length in bits.
visit_epc_data : TagView → Parameter → Llrp TagView
visit_epc_data v p =
    let bits = be_uint (take 2 p.content) in
    let bytes_needed = (bits + 7) / 8 in
    if p.tv || ltb (length p.content) 2
    then err malformed_tag_report
    else if bits == 0 || ltb (length p.content - 2) bytes_needed
    then err malformed_tag_report
    else ok (record v { id = slice 2 (2 + bytes_needed) p.content })

-- The visit of the second walk of `decodeTagReportData`.
unfoldable pub visit_tag : TagView → Parameter → Llrp TagView
unfolding visit_epc_data
visit_tag v p =
    if p.kind == 12
    then if not p.tv || not (length p.content == 2)
      then err malformed_tag_report
      else ok (record v { pc = some p.content })
    else if p.kind == 13
    then if not p.tv || not (length p.content == 12)
      then err malformed_tag_report
      else ok (record v { id = p.content })
    else if p.kind == 241
    then visit_epc_data v p
    else ok v

-- `skipParameter`
abbrev pub skip_parameter : Unit {0} → Parameter → Llrp (Unit {0})
skip_parameter s p = ok s

abbrev pub no_view : TagView
no_view = record { id = []; pc = none }

-- `decodeTagReportData`
unfoldable pub decode_tag_report_data : Bytes → Limits → Llrp TagView
unfolding walk_parameters visit_tag
decode_tag_report_data bytes limits = do
  walk_parameters bytes limits skip_parameter tt
  v ← walk_parameters bytes limits visit_tag no_view
  if length v.id == 0 then err missing_epc else ok v

-- The visit of the first walk of `DecodeReadEvents`, which counts the reports.
abbrev pub is_report : Parameter → Bool
is_report p = not p.tv && p.kind == 240

abbrev pub count_report : ℕ → Parameter → Llrp ℕ
count_report n p = ok (if is_report p then n + 1 else n)

-- What the second walk does with a decoded report; `size` is the sum of the bytes to be copied.
abbrev pub add_view : List TagView → Llrp TagView → Llrp (List TagView)
add_view views (ok v) = ok (views ++ v ∷ [])
add_view views (err missing_epc) = ok views
add_view views (err e) = err e

pub visit_report : Limits → List TagView → Parameter → Llrp (List TagView)
unfolding decode_tag_report_data
visit_report limits views p =
    if p.tv || not (p.kind == 240)
    then ok views
    else add_view views (decode_tag_report_data p.content limits)

-- A round of the copying loop: the bytes of a view are appended to the arena, and the event's fields
-- are the slices that the appends filled. The arena has its full capacity from the start, so an
-- append never moves it, and a nil pc is left nil.
copy_pc : Bytes → Bytes → Option Bytes → Bytes × ReadEvent
copy_pc arena id none = (arena, record { id = id; pc = none })
copy_pc arena id (some pc) =
    let arena' = arena ++ pc in
    (arena', record { id = id; pc = some (slice (length arena) (length arena') arena') })

copy_view : Bytes → TagView → Bytes × ReadEvent
unfolding copy_pc
copy_view arena v =
    let arena' = arena ++ v.id in copy_pc arena' (slice (length arena) (length arena') arena') v.pc

pub copy_views : Bytes → List TagView → List ReadEvent
unfolding copy_view
copy_views arena [] = []
copy_views arena (v ∷ vs) = let (arena', event) = copy_view arena v in event ∷ copy_views arena' vs

-- `DecodeReadEvents`
unfoldable pub decode_read_events : Bytes → Limits → Llrp (List ReadEvent)
unfolding walk_parameters visit_report copy_views
decode_read_events body limits = do
  reports ← walk_parameters body limits count_report 0
  views ← walk_parameters body limits (visit_report limits) []
  ok (copy_views [] views)

-- `EPCData`, and `c1G2PC`; `pack` lays its values out one after the other.
unfoldable pub epc_data : ℕ → ℕ → Bytes → Bytes
epc_data size epc_length_bits epc =
    if epc_length_bits == 96
    then 141 ∷ epc
    else (put_u16 241 ++ put_u16 size ++ put_u16 epc_length_bits) ++ epc

unfoldable pub c1g2_pc : ℕ → Bytes
c1g2_pc pc = 140 ∷ put_u16 pc

-- `NewTagReportDataParam`
unfoldable pub new_tag_report_data_param : Bytes → ℕ → Llrp Bytes
unfolding epc_data c1g2_pc
new_tag_report_data_param epc pc_bits =
    let epcd = epc_data ((4 + 2 + length epc) % 2 ^ 16) (length epc * 8 % 2 ^ 16) epc in
    let aptd = c1g2_pc pc_bits in
    let size = length epcd + length aptd + 4 in
    if ltb 8191 (length epc)
    then err epc_too_long
    else ok ((put_u16 240 ++ put_u16 (size % 2 ^ 16)) ++ epcd ++ aptd)
