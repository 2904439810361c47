-- ===== src/Llrp/TagReport/Events.antt =====
-- What holds of every decoded event.
use tagstrak.Common.{
  ℕ, suc, ◌≤◌, ◌<◌, ◌≡◌, refl, sym, ap, ◌∙◌, arith, List, [], ◌∷◌, Bytes, length, All, some, ok,
  err, if◌then◌else◌, ◌==◌, map, inl, inr, Result-cases, ok-injective, Bool-cases, subst, ◌>>=◌,
}
use tagstrak.Llrp.Error.{Llrp, Limits, normalized, missing_epc}
use tagstrak.Llrp.Parameter.{Parameter, decode_parameters}
use tagstrak.Llrp.Parameter.Walk.{decode_parameters_covers, visit_all}
use tagstrak.Llrp.TagReport.{
  TagView, ReadEvent, visit_tag, no_view, decode_tag_report_data, is_report, decode_read_events,
}
use tagstrak.Llrp.TagReport.Decode.{
  event_of, decode_tag_report_data_ok, decode_tag_report_data_malformed, put_view, read_views,
  decode_read_events_lem,
}

-- A decoded view has an EPC, and its PC has two bytes if there is one.
abbrev pub IsReported : TagView → Type 0
IsReported v = (0 < length v.id) × ((pc : Bytes) → v.pc ≡ some pc → length pc ≡ 2)

abbrev pub IsReadEvent : ReadEvent → Type 0
IsReadEvent e = (0 < length e.id) × ((pc : Bytes) → e.pc ≡ some pc → length pc ≡ 2)

abbrev HasPc : TagView → Type 0
HasPc v = (pc : Bytes) → v.pc ≡ some pc → length pc ≡ 2

visit_tag-HasPc :
    (v : TagView) (p : Parameter) {v' : TagView} → HasPc v → visit_tag v p ≡ ok v' → HasPc v'
unfolding visit_tag
visit_tag-HasPc v p {v'} h e pc there = ground (arith, h pc)

visit_all-HasPc :
    (ps : List Parameter) (v : TagView) {v' : TagView}
    → HasPc v
    → visit_all visit_tag v ps ≡ ok v'
    → HasPc v'
unfolding visit_all
visit_all-HasPc [] v h e = λ pc there. h pc (cc)
visit_all-HasPc (p ∷ ps) v h e = elim (Result-cases (visit_tag v p)) [
  | inl (next, step) ↦ visit_all-HasPc ps next (visit_tag-HasPc v p h step) (rw step at e)
  | inr (x, step) ↦ cc (rw step at e)
]

checked :
    (r : Llrp TagView) {v : TagView}
    → (r >>= λ v. if length v.id == 0 then err missing_epc else ok v) ≡ ok v
    → (r ≡ ok v) × (0 < length v.id)
checked (ok w) e = ground arith
checked (err x) e = cc

decode_tag_report_data-IsReported :
    (bytes : Bytes) (l : Limits) {v : TagView}
    → decode_tag_report_data bytes l ≡ ok v
    → IsReported v
decode_tag_report_data-IsReported bytes l e = elim (Result-cases (decode_parameters bytes l)) [
  | inl (ps, h) ↦
      let (visited, some_byte) =
        checked (visit_all visit_tag no_view ps) (sym (decode_tag_report_data_ok bytes l h) ∙ e) in
      (some_byte, visit_all-HasPc ps no_view (λ pc there. cc) visited)
  | inr (x, h) ↦ cc (e, decode_tag_report_data_malformed bytes l h)
]

put_view-IsReported :
    (r : Llrp TagView) (rest : Llrp (List TagView)) {vs : List TagView}
    → ((v : TagView) → r ≡ ok v → IsReported v)
    → ((ws : List TagView) → rest ≡ ok ws → All IsReported ws)
    → put_view r rest ≡ ok vs
    → All IsReported vs
unfolding put_view
put_view-IsReported (ok v) (ok ws) h k e =
    subst (λ us. All IsReported us) (ok-injective e) (h v refl, k ws refl)
put_view-IsReported (ok v) (err x) h k e = cc
put_view-IsReported (err missing_epc) rest {vs} h k e = k vs e
put_view-IsReported (err _) rest h k e = cc

read_views-IsReported :
    (l : Limits) (ps : List Parameter) (vs : List TagView)
    → read_views l ps ≡ ok vs
    → All IsReported vs
unfolding read_views
read_views-IsReported l [] vs e = subst (λ us. All IsReported us) (ok-injective e) tt
read_views-IsReported l (p ∷ ps) vs e =
    let ih = read_views-IsReported l ps in
    elim (Bool-cases (is_report p)) [
      | inl report ↦
          put_view-IsReported (decode_tag_report_data p.content l) (read_views l ps)
            (λ v. decode_tag_report_data-IsReported p.content l) ih (rw report at e)
      | inr other ↦ ih vs (rw other at e)
    ]

put_view-length :
    (r : Llrp TagView) (rest : Llrp (List TagView)) (n : ℕ) {vs : List TagView}
    → ((ws : List TagView) → rest ≡ ok ws → length ws ≤ n)
    → put_view r rest ≡ ok vs
    → length vs ≤ suc n
unfolding put_view
put_view-length (ok v) (ok ws) n k e = rw (← ok-injective e) (omega (arith, k ws refl))
put_view-length (ok v) (err x) n k e = cc
put_view-length (err missing_epc) rest n {vs} k e = omega (arith, k vs e)
put_view-length (err _) rest n k e = cc

read_views-length :
    (l : Limits) (ps : List Parameter) (vs : List TagView)
    → read_views l ps ≡ ok vs
    → length vs ≤ length ps
unfolding read_views
read_views-length l [] vs e = rw (← ok-injective e) (omega arith)
read_views-length l (p ∷ ps) vs e =
    let ih = read_views-length l ps in
    elim (Bool-cases (is_report p)) [
      | inl report ↦
          put_view-length (decode_tag_report_data p.content l) (read_views l ps) (length ps) ih
            (rw report at e)
      | inr other ↦ omega (arith, ih vs (rw other at e))
    ]

All-map-event_of : (vs : List TagView) → All IsReported vs → All IsReadEvent (map event_of vs)
All-map-event_of [] h = tt
All-map-event_of (v ∷ vs) (h, hs) = (h, All-map-event_of vs hs)

length-map-event_of : (vs : List TagView) → length (map event_of vs) ≡ length vs
length-map-event_of [] = refl
length-map-event_of (v ∷ vs) = ap suc (length-map-event_of vs)

-- Every event of a decoded body has an EPC of at least one byte and a PC of two bytes or none, and
-- there are no more events than the parameter limit allows.
pub decode_read_events-IsReadEvent :
    (body : Bytes) (l : Limits) {es : List ReadEvent}
    → decode_read_events body l ≡ ok es
    → All IsReadEvent es × (length es ≤ (normalized l).max_parameters)
decode_read_events-IsReadEvent body l {es} e = elim (Result-cases (decode_parameters body l)) [
  | inl (ps, h) ↦ elim (Result-cases (read_views l ps)) [
    | inl (vs, k) ↦
        let same : map event_of vs ≡ es =
          ok-injective (sym (rw (h, k) at (decode_read_events_lem body l)) ∙ e) in
        (
          subst (λ xs. All IsReadEvent xs) same
              (All-map-event_of vs (read_views-IsReported l ps vs k)),
          rw (← same) (
              omega (
                arith,
                length-map-event_of vs,
                read_views-length l ps vs k,
                (decode_parameters_covers body l h).within,
              )),
        )
    | inr (x, k) ↦ cc (sym (rw (h, k) at (decode_read_events_lem body l)) ∙ e)
  ]
  | inr (x, h) ↦ cc (sym (rw h at (decode_read_events_lem body l)) ∙ e)
]
