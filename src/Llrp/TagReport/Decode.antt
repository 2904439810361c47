-- ===== src/Llrp/TagReport/Decode.antt =====
-- What the tag report decoder returns, told from the parameters of its input.
use tagstrak.Common.{
  ℕ, ◌+◌, ◌-◌, ◌≡◌, refl, sym, ap, ◌∙◌, arith, List, [], ◌∷◌, ◌++◌, append_assoc, append-nil, Bytes,
  length, length-append, drop-append, take_all, slice, ok, err, if◌then◌else◌, ◌==◌, map, inl, inr,
  Result-cases, Bool-cases, Option-cases, ◌>>=◌,
}
use tagstrak.Llrp.Error.{Error, Llrp, Limits, missing_epc}
use tagstrak.Llrp.Parameter.{Parameter, decode_parameters}
use tagstrak.Llrp.Parameter.Walk.{visit_all, walk_parameters-visit_all, walk_parameters_malformed}
use tagstrak.Llrp.TagReport.{
  TagView, ReadEvent, visit_tag, no_view, skip_parameter, decode_tag_report_data, is_report,
  count_report, add_view, visit_report, copy_view, copy_views, decode_read_events,
}

-- The event that a view becomes.
abbrev pub event_of : TagView → ReadEvent
event_of v = record { id = v.id; pc = v.pc }

slice-append : (xs ys : Bytes) → slice (length xs) (length (xs ++ ys)) (xs ++ ys) ≡ ys
slice-append xs ys =
    rw (drop-append (length xs) xs ys refl)
      (take_all (length (xs ++ ys) - length xs) ys (omega (arith, length-append xs ys)))

-- However full the arena is, an event has the bytes of its own view.
copy_view-event_of : (arena : Bytes) (v : TagView) → (copy_view arena v).1 ≡ event_of v
unfolding copy_view
copy_view-event_of arena v = elim (Option-cases v.pc) [
  | inl nil ↦ ground (arith, slice-append arena v.id)
  | inr (pc, there) ↦ ground (arith, slice-append arena v.id, slice-append (arena ++ v.id) pc)
]

pub copy_views-map : (arena : Bytes) (vs : List TagView) → copy_views arena vs ≡ map event_of vs
unfolding copy_views
copy_views-map arena [] = refl
copy_views-map arena (v ∷ vs) =
    cc (copy_view-event_of arena v, copy_views-map (copy_view arena v).0 vs)

-- The decoder of one report, on the parameters of its payload.
pub decode_tag_report_data_ok :
    (bytes : Bytes) (l : Limits) {ps : List Parameter}
    → decode_parameters bytes l ≡ ok ps
    → decode_tag_report_data bytes l
      ≡ (visit_all visit_tag no_view ps >>= λ v. if length v.id == 0 then err missing_epc else ok v)
unfolding decode_tag_report_data visit_all
decode_tag_report_data_ok bytes l {ps} e =
    rw (walk_parameters-visit_all skip_parameter bytes l tt e, skips ps)
      (rw (walk_parameters-visit_all visit_tag bytes l no_view e))
  where
    skips : (qs : List Parameter) → visit_all skip_parameter tt qs ≡ ok tt
    skips [] = refl
    skips (q ∷ qs) = skips qs

pub decode_tag_report_data_malformed :
    (bytes : Bytes) (l : Limits) {x : Error}
    → decode_parameters bytes l ≡ err x
    → decode_tag_report_data bytes l ≡ err x
unfolding decode_tag_report_data
decode_tag_report_data_malformed bytes l e =
    rw (walk_parameters_malformed skip_parameter (λ s p. (s, refl)) bytes l tt e)

-- A decoded report in front of those that follow: it is left out if it has no EPC, and any other
-- error ends the list.
unfoldable pub put_view : Llrp TagView → Llrp (List TagView) → Llrp (List TagView)
put_view (ok v) rest = do vs ← rest; ok (v ∷ vs)
put_view (err missing_epc) rest = rest
put_view (err e) rest = err e

-- The views of a list of parameters, one for each report that has an EPC.
unfoldable pub read_views : Limits → List Parameter → Llrp (List TagView)
unfolding put_view
read_views l [] = ok []
read_views l (p ∷ ps) =
    let rest = read_views l ps in
    if is_report p then put_view (decode_tag_report_data p.content l) rest else rest

abbrev behind : List TagView → Llrp (List TagView) → Llrp (List TagView)
behind views r = r >>= λ vs. ok (views ++ vs)

add_view-put_view :
    (views : List TagView) (r : Llrp TagView) (rest : Llrp (List TagView))
    (follow : List TagView → Llrp (List TagView))
    → ((vs : List TagView) → follow vs ≡ behind vs rest)
    → (add_view views r >>= follow) ≡ behind views (put_view r rest)
unfolding put_view
add_view-put_view views (ok v) (ok vs) follow h =
    h (views ++ v ∷ []) ∙ ap ok (append_assoc views (v ∷ []) vs)
add_view-put_view views (ok v) (err e) follow h = h (views ++ v ∷ [])
add_view-put_view views (err missing_epc) rest follow h = h views
add_view-put_view views (err _) rest follow h = refl

visit_all-read_views :
    (l : Limits) (ps : List Parameter) (views : List TagView)
    → visit_all (visit_report l) views ps ≡ behind views (read_views l ps)
unfolding read_views visit_all visit_report
visit_all-read_views l [] views = ap ok (sym (append-nil views))
visit_all-read_views l (p ∷ ps) views =
    let ih = visit_all-read_views l ps in
    elim (Bool-cases p.tv) [
      | inl tv ↦ rw tv (ih views)
      | inr tlv ↦ elim (Bool-cases (p.kind == 240)) [
        | inl report ↦
            rw (tlv, report)
              (add_view-put_view views (decode_tag_report_data p.content l) (read_views l ps)
                (λ vs. visit_all (visit_report l) vs ps) ih)
        | inr other ↦ rw (tlv, other) (ih views)
      ]
    ]

counts : (n : ℕ) (ps : List Parameter) → (m : ℕ) × (visit_all count_report n ps ≡ ok m)
unfolding visit_all
counts n [] = (n, refl)
counts n (p ∷ ps) = counts (if is_report p then n + 1 else n) ps

copied :
    (r : Llrp (List TagView))
    → (behind [] r >>= λ views. ok (copy_views [] views)) ≡ (r >>= λ vs. ok (map event_of vs))
copied (ok vs) = ap ok (copy_views-map [] vs)
copied (err e) = refl

-- The whole decoder: an input that does not decode as parameters is refused with that error, and
-- otherwise the events are those of the reports in the list, in order, each with the bytes of its own
-- EPC and PC, and the first report that does not decode for another reason than a missing EPC gives
-- its error.
pub decode_read_events_lem :
    (body : Bytes) (l : Limits)
    → decode_read_events body l
      ≡ (do ps ← decode_parameters body l; vs ← read_views l ps; ok (map event_of vs))
unfolding decode_read_events
decode_read_events_lem body l = elim (Result-cases (decode_parameters body l)) [
  | inl (ps, e) ↦
      rw (e, walk_parameters-visit_all count_report body l 0 e)
        (rw
          (
            (counts 0 ps).1,
            walk_parameters-visit_all (visit_report l) body l [] e,
            visit_all-read_views l ps [],
          )
          (copied (read_views l ps)))
  | inr (x, e) ↦
      rw e (rw (walk_parameters_malformed count_report (λ n p. (_, refl)) body l 0 e) refl)
]
