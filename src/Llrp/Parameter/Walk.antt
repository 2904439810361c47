-- ===== src/Llrp/Parameter/Walk.antt =====
-- What the walk over an arbitrary input visits.
use tagstrak.Common.{
  ℕ, zero, suc, ◌+◌, ◌-◌, ◌≤◌, ◌<◌, ◌≡◌, ◌≢◌, refl, sym, ap, ◌∙◌, arith, List, [], ◌∷◌, ◌++◌,
  append_assoc, append-nil, Bytes, length, length-take, length-drop, drop, slice, All, be_uint,
  Option, none, some, ok, err, if◌then◌else◌, ◌==◌, bit_and, inl, inr, Result-cases, Bool-cases,
  subst, ◌>>=◌,
}
use tagstrak.Llrp.Error.{Error, Llrp, Limits, normalized}
use tagstrak.Llrp.Parameter.{
  Parameter, tv_parameter_size, next_tv, next_tlv, next_parameter, walk_loop, walk_parameters,
  collect, decode_parameters,
}

-- The bytes that a parameter takes on the wire, its header included.
abbrev pub wire_size : Parameter → ℕ
wire_size p = (if p.tv then 1 else 4) + length p.content

pub wire_sizes : List Parameter → ℕ
wire_sizes [] = 0
wire_sizes (p ∷ ps) = wire_size p + wire_sizes ps

next_tv_size :
    (max_size kind : ℕ) (t : Option ℕ) (bytes : Bytes) {p : Parameter} {size : ℕ}
    → t ≢ some 0
    → next_tv max_size kind t bytes ≡ ok (p, size)
    → (wire_size p ≡ size) × (size ≤ length bytes) × (size ≤ max_size) × (0 < size)
unfolding next_tv
next_tv_size max_size kind none bytes h e = cc
next_tv_size max_size kind (some zero) bytes h e = absurd (h refl)
next_tv_size max_size kind (some (suc n)) bytes h e =
    ground (arith, length-take (suc n - 1) (drop 1 bytes), length-drop 1 bytes)

next_tlv_size :
    (max_size : ℕ) (bytes : Bytes) {p : Parameter} {size : ℕ}
    → next_tlv max_size bytes ≡ ok (p, size)
    → (wire_size p ≡ size) × (size ≤ length bytes) × (size ≤ max_size) × (0 < size)
unfolding next_tlv
next_tlv_size max_size bytes e =
    ground (arith, length-take (be_uint (slice 2 4 bytes) - 4) (drop 4 bytes), length-drop 4 bytes)

tv_parameter_size-ne-zero : (kind : ℕ) → tv_parameter_size kind ≢ some 0
unfolding tv_parameter_size
tv_parameter_size-ne-zero kind = ground arith

next_parameter_size :
    (max_size b : ℕ) (bs : Bytes) {p : Parameter} {size : ℕ}
    → next_parameter max_size b bs ≡ ok (p, size)
    → (wire_size p ≡ size) × (size ≤ length (b ∷ bs)) × (size ≤ max_size) × (0 < size)
unfolding next_parameter
next_parameter_size max_size b bs e = elim (Bool-cases (bit_and b 0x80 == 0)) [
  | inl tlv ↦ next_tlv_size max_size (b ∷ bs) (rw tlv at e)
  | inr tv ↦
      next_tv_size max_size (bit_and b 0x7f) (tv_parameter_size (bit_and b 0x7f)) (b ∷ bs)
        (tv_parameter_size-ne-zero (bit_and b 0x7f)) (rw tv at e)
]

-- A record of what a successful walk has visited.
pub record Visited (max_size left : ℕ) (bytes : Bytes) (ps : List Parameter) : Type 0 where
  pub within : length ps ≤ left
  pub covers : wire_sizes ps ≡ length bytes
  pub sizes : All (λ p. wire_size p ≤ max_size) ps

-- The loop over a parameter at the front.
pub walk_loop_next :
    {S : Type 0} (max_size left b : ℕ) (bs : Bytes) (visit : S → Parameter → Llrp S) (s : S)
    {p : Parameter} {size : ℕ}
    → next_parameter max_size b bs ≡ ok (p, size)
    → walk_loop max_size visit (suc left) (b ∷ bs) s
      ≡ (visit s p >>= λ s'. walk_loop max_size visit left (drop size (b ∷ bs)) s')
unfolding walk_loop
walk_loop_next max_size left b bs visit s e = rw (e, walk_loop)

walk_loop_fails :
    {S : Type 0} (max_size left b : ℕ) (bs : Bytes) (visit : S → Parameter → Llrp S) (s : S)
    {x : Error}
    → next_parameter max_size b bs ≡ err x
    → walk_loop max_size visit (suc left) (b ∷ bs) s ≡ err x
unfolding walk_loop
walk_loop_fails max_size left b bs visit s e = rw (e, walk_loop)

walk_loop-Visited :
    (max_size left : ℕ) (bytes : Bytes) (before : List Parameter) {out : List Parameter}
    → walk_loop max_size collect left bytes before ≡ ok out
    → (ps : List Parameter) × (out ≡ before ++ ps) × Visited max_size left bytes ps
unfolding wire_sizes
walk_loop-Visited max_size left [] before e = (
  [],
  unfold walk_loop in cc (append-nil before),
  record { within = omega arith; covers = refl; sizes = tt },
)
walk_loop-Visited max_size zero (b ∷ bs) before e = unfold walk_loop in cc
walk_loop-Visited max_size (suc left) (b ∷ bs) before e =
    elim (Result-cases (next_parameter max_size b bs)) [
      | inl ((p, size), h) ↦
          let (ps, split, v) =
            walk_loop-Visited max_size left (drop size (b ∷ bs)) (before ++ p ∷ [])
              (rw (walk_loop_next max_size left b bs collect before h) at e) in
          let (exact, there, fits, some_byte) = next_parameter_size max_size b bs h in
          (
            p ∷ ps,
            split ∙ append_assoc before (p ∷ []) ps,
            record {
              within = omega (arith, v.within);
              covers = omega (arith, exact, there, v.covers, length-drop size (b ∷ bs));
              sizes = (omega (arith, exact, fits), v.sizes);
            },
          )
      | inr (x, h) ↦ cc (e, walk_loop_fails max_size left b bs collect before h)
    ]

-- What `DecodeParameters` returns covers its input exactly, and keeps both limits: the wire sizes of
-- the parameters add up to the input's length, none passes the size limit, and their number is
-- within the parameter limit.
pub decode_parameters_covers :
    (bytes : Bytes) (l : Limits) {ps : List Parameter}
    → decode_parameters bytes l ≡ ok ps
    → Visited (normalized l).max_parameter_size (normalized l).max_parameters bytes ps
unfolding decode_parameters
decode_parameters_covers bytes l e =
    let n = normalized l in
    let (ps, same, v) = walk_loop-Visited n.max_parameter_size n.max_parameters bytes [] e in
    subst (λ qs. Visited n.max_parameter_size n.max_parameters bytes qs) (sym same) v

-- The visits in order, stopped at the first that fails.
unfoldable pub visit_all : {S : Type 0} → (S → Parameter → Llrp S) → S → List Parameter → Llrp S
visit_all visit s [] = ok s
visit_all visit s (p ∷ ps) = do s' ← visit s p; visit_all visit s' ps

module _ {S : Type 0} (visit : S → Parameter → Llrp S) where
  bind_pointwise : (r : Llrp S) (f g : S → Llrp S) → ((s : S) → f s ≡ g s) → (r >>= f) ≡ (r >>= g)
  bind_pointwise (ok s) f g h = h s
  bind_pointwise (err x) f g h = refl

  pub visit_all-cons :
      (s : S) (p : Parameter) (ps : List Parameter)
      → visit_all visit s (p ∷ ps) ≡ (visit s p >>= λ s'. visit_all visit s' ps)
  unfolding visit_all
  visit_all-cons s p ps = refl

  walk_loop-visit_all :
      (max_size left : ℕ) (bytes : Bytes) (before : List Parameter) {out : List Parameter}
      → walk_loop max_size collect left bytes before ≡ ok out
      → (ps : List Parameter) × (out ≡ before ++ ps)
        × ((s : S) → walk_loop max_size visit left bytes s ≡ visit_all visit s ps)
  walk_loop-visit_all max_size left [] before e =
      ([], unfold walk_loop in cc (append-nil before), λ s. unfold walk_loop visit_all in refl)
  walk_loop-visit_all max_size zero (b ∷ bs) before e = unfold walk_loop in cc
  walk_loop-visit_all max_size (suc left) (b ∷ bs) before e =
      elim (Result-cases (next_parameter max_size b bs)) [
        | inl ((p, size), h) ↦
            let (ps, split, same) =
              walk_loop-visit_all max_size left (drop size (b ∷ bs)) (before ++ p ∷ [])
                (rw (walk_loop_next max_size left b bs collect before h) at e) in
            (
              p ∷ ps,
              split ∙ append_assoc before (p ∷ []) ps,
              λ s.
                  walk_loop_next max_size left b bs visit s h
                  ∙ bind_pointwise (visit s p) _ _ same
                  ∙ sym (visit_all-cons s p ps),
            )
        | inr (x, h) ↦ cc (e, walk_loop_fails max_size left b bs collect before h)
      ]

  -- Where the list decodes, a walk makes its visits on the decoded parameters.
  pub walk_parameters-visit_all :
      (bytes : Bytes) (l : Limits) (s : S) {ps : List Parameter}
      → decode_parameters bytes l ≡ ok ps
      → walk_parameters bytes l visit s ≡ visit_all visit s ps
  unfolding decode_parameters
  walk_parameters-visit_all bytes l s e =
      let n = normalized l in
      let (ps, same, walks) =
        walk_loop-visit_all n.max_parameter_size n.max_parameters bytes [] e in
      walks s ∙ ap (visit_all visit s) (sym same)

module _ {S : Type 0} (visit : S → Parameter → Llrp S)
    (total : (s : S) (p : Parameter) → (s' : S) × (visit s p ≡ ok s')) where
  walk_loop_malformed :
      (max_size left : ℕ) (bytes : Bytes) (before : List Parameter) (s : S) {x : Error}
      → walk_loop max_size collect left bytes before ≡ err x
      → walk_loop max_size visit left bytes s ≡ err x
  walk_loop_malformed max_size left [] before s e = unfold walk_loop in cc
  walk_loop_malformed max_size zero (b ∷ bs) before s e = unfold walk_loop in cc
  walk_loop_malformed max_size (suc left) (b ∷ bs) before s e =
      elim (Result-cases (next_parameter max_size b bs)) [
        | inl ((p, size), h) ↦
            let (s', visited) = total s p in
            walk_loop_next max_size left b bs visit s h
            ∙ rw visited (
                walk_loop_malformed max_size left (drop size (b ∷ bs)) (before ++ p ∷ []) s'
                  (rw (walk_loop_next max_size left b bs collect before h) at e))
        | inr (y, h) ↦ cc (
          e,
          walk_loop_fails max_size left b bs visit s h,
          walk_loop_fails max_size left b bs collect before h,
        )
      ]

  -- Visits that never fail report the error of a list that does not decode.
  pub walk_parameters_malformed :
      (bytes : Bytes) (l : Limits) (s : S) {x : Error}
      → decode_parameters bytes l ≡ err x
      → walk_parameters bytes l visit s ≡ err x
  unfolding decode_parameters
  walk_parameters_malformed bytes l s e =
      let n = normalized l in walk_loop_malformed n.max_parameter_size n.max_parameters bytes [] s e
