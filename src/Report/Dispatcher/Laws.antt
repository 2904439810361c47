-- ===== src/Report/Dispatcher/Laws.antt =====
-- Which destinations a dispatcher accepts, and what it does with an event.
use tagstrak.Common.{
  ◌≡◌, ◌≢◌, ◌↔◌, refl, sym, ◌∙◌, arith, true, false, List, [], ◌∷◌, ◌++◌, Result, ok, err, Bytes,
  All, bytes_eq_iff, append-nil, append_assoc,
}
use tagstrak.Report.Config.{Config, ConfigError, validate}
use tagstrak.Report.Config.Laws.{IsBounded, validate_iff}
use tagstrak.Report.Worker.{Wiring, new_worker}
use tagstrak.Report.Dispatcher.{
  Destination, name_matches, Lane, has_lane, add_destinations, start_lanes, new,
}

abbrev pub IsValid : Destination → Type 0
IsValid d = (name_matches d.name ≡ true) × (d.has_reporter ≡ true)

abbrev pub Distinct : List Destination → Type 0
Distinct [] = Unit {0}
Distinct (d ∷ ds) = All (λ (e : Destination). d.name ≢ e.name) ds × Distinct ds

abbrev pub Fresh : List Lane → List Destination → Type 0
Fresh lanes ds = All (λ (d : Destination). has_lane d.name lanes ≡ false) ds

abbrev pub lanes_of : Config → Wiring → List Destination → List Lane
lanes_of c w [] = []
lanes_of c w (d ∷ ds) = record { name = d.name; worker = new_worker c w } ∷ lanes_of c w ds

has_lane-append :
    (name : Bytes) (lanes : List Lane) (l : Lane)
    → (has_lane name (lanes ++ l ∷ []) ≡ false) ↔ ((has_lane name lanes ≡ false) × (l.name ≢ name))
unfolding has_lane
has_lane-append name [] l = ground (arith, bytes_eq_iff l.name name)
has_lane-append name (k ∷ lanes) l = ground (arith, has_lane-append name lanes l)

nil-Fresh : (ds : List Destination) → Fresh [] ds
unfolding has_lane
nil-Fresh [] = tt
nil-Fresh (d ∷ ds) = (refl, nil-Fresh ds)

module _ (c : Config) (w : Wiring) where
  Fresh-append :
      (d : Destination) (lanes : List Lane) (ds : List Destination)
      → Fresh (lanes ++ record { name = d.name; worker = new_worker c w } ∷ []) ds
        ↔ (Fresh lanes ds × All (λ (e : Destination). d.name ≢ e.name) ds)
  Fresh-append d lanes [] = (λ h. (tt, tt), λ h. tt)
  Fresh-append d lanes (e ∷ ds) =
      let l : Lane = record { name = d.name; worker = new_worker c w } in
      let one = has_lane-append e.name lanes l in
      let more = Fresh-append d lanes ds in
      (
        λ h. let (f, g) = one.0 h.0 in let (f', g') = more.0 h.1 in ((f, f'), (g, g')),
        λ h. (one.1 (h.0.0, h.1.0), more.1 (h.0.1, h.1.1)),
      )

  add_destinations_iff :
      (ds : List Destination) (lanes made : List Lane)
      → (add_destinations c w ds lanes ≡ ok made)
        ↔ (All IsValid ds × Distinct ds × Fresh lanes ds × (made ≡ lanes ++ lanes_of c w ds))
  unfolding add_destinations
  add_destinations_iff [] lanes made = ground (arith, append-nil lanes)
  add_destinations_iff (d ∷ ds) lanes made =
      let l : Lane = record { name = d.name; worker = new_worker c w } in
      let one = Fresh-append d lanes ds in
      let rest = add_destinations_iff ds (lanes ++ l ∷ []) made in
      let moved : (lanes ++ l ∷ []) ++ lanes_of c w ds ≡ lanes ++ l ∷ lanes_of c w ds =
        simp append_assoc in
      (
        λ h.
            let checks : (name_matches d.name ≡ true)
                × (d.has_reporter ≡ true)
                × (has_lane d.name lanes ≡ false)
                × (add_destinations c w ds (lanes ++ l ∷ []) ≡ ok made) =
              (ground arith, ground arith, ground arith, ground arith) in
            let (valid, distinct, fresh, all) = rest.0 checks.3 in
            let (old, apart) = one.0 fresh in
            (((checks.0, checks.1), valid), (apart, distinct), (checks.2, old), all ∙ moved),
        λ h.
            let rests = rest.1 (h.0.1, h.1.1, one.1 (h.2.1, h.1.0), h.3 ∙ sym moved) in
            rw (h.0.0.0, h.0.0.1, h.2.0) rests,
      )

  start_lanes_iff :
      (ds : List Destination) (made : List Lane) (r : Result ConfigError (Unit {0}))
      → validate c ≡ r
      → (start_lanes c w ds r ≡ ok made)
        ↔ (IsBounded c × All IsValid ds × Distinct ds × (made ≡ lanes_of c w ds))
  unfolding start_lanes
  start_lanes_iff ds made (ok tt) v =
      let added = add_destinations_iff ds [] made in
      (
        λ h.
            let (valid, distinct, fresh, all) = added.0 h in
            ((validate_iff c).0 v, valid, distinct, all),
        λ h. added.1 (h.1, h.2, nil-Fresh ds, h.3),
      )
  start_lanes_iff ds made (err e) v =
      (λ h. absurd (cc h), λ h. let good = (validate_iff c).1 h.0 in absurd (cc (good, v)))

  -- A dispatcher is made exactly when the configuration is within its bounds, every destination has a
  -- valid name and a reporter, and no name occurs twice. It then has one empty lane for each
  -- destination, in their order.
  pub new-lanes_of :
      (ds : List Destination) (made : List Lane)
      → (new c w ds ≡ ok made)
        ↔ (IsBounded c × All IsValid ds × Distinct ds × (made ≡ lanes_of c w ds))
  unfolding new
  new-lanes_of ds made = start_lanes_iff ds made (validate c) refl
