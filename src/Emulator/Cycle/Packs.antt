-- ===== src/Emulator/Cycle/Packs.antt =====
-- How a cycle's tags are packed into bodies.
use tagstrak.Common.{
  ℕ, ◌+◌, ◌%◌, ◌≤◌, ◌≡◌, ◌∙◌, refl, sym, ap, arith, true, false, ◌||◌, List, [], ◌∷◌, ◌++◌,
  append-nil, append_assoc, map, Bytes, length, length-append, put_u16, ltb, ◌==◌, All, Result, ok,
  ◌>>=◌, Bool-cases, inl, inr, Result-cases, ok-injective,
}
use tagstrak.Inventory.{Tag, min_epc_bytes, max_epc_bytes}
use tagstrak.Llrp.TagReport.{new_tag_report_data_param}
use tagstrak.Llrp.TagReport.RoundTrip.{
  inner, length-inner, new_tag_report_data_param-inner, tag_reports,
}
use tagstrak.Emulator.{Error, as_codec}
use tagstrak.Emulator.Cycle.{length_word, cycle_loop, write_cycle}

-- A tag as its report shows it, with the length word as its PC
abbrev pub shown : Tag → Bytes × ℕ
shown tag = (tag.epc, length_word tag.epc)

abbrev pub IsValid : Tag → Type 0
IsValid tag =
    (min_epc_bytes ≤ length tag.epc) × (length tag.epc ≤ max_epc_bytes) × (length tag.epc % 2 ≡ 0)

abbrev pub concat {ℓ} : {A : Type ℓ} → List (List A) → List A
concat [] = []
concat (xs ∷ xss) = xs ++ concat xss

-- The bodies of chunks, sent one after the other
unfoldable pub emit_chunks :
    {S : Type 0} → (Bytes → S → Result Error S) → List (List (Bytes × ℕ)) → S → Result Error S
emit_chunks emit [] s = ok s
emit_chunks emit (chunk ∷ chunks) s = do
  body ← as_codec (tag_reports chunk)
  s' ← emit body s
  emit_chunks emit chunks s'

-- A chunk that fits a frame of the emulator and the parameter limit of the client
abbrev pub Fits : ℕ → List (Bytes × ℕ) → Type 0
Fits max_frame chunk =
    (length chunk ≤ 4096)
    × (body : Bytes) × (tag_reports chunk ≡ ok body)
    × (10 + length body ≤ max_frame)

tag_reports-append :
    (chunk : List (Bytes × ℕ)) (tag : Bytes × ℕ) {body p : Bytes}
    → tag_reports chunk ≡ ok body
    → new_tag_report_data_param tag.0 tag.1 ≡ ok p
    → tag_reports (chunk ++ tag ∷ []) ≡ ok (body ++ p)
unfolding tag_reports
tag_reports-append [] (epc, pc) {body} {p} h k =
    rw k (ap ok (append-nil p ∙ ap (λ b. b ++ p) (ok-injective h)))
tag_reports-append ((e, w) ∷ chunk) tag {body} {p} h k =
    elim (Result-cases (new_tag_report_data_param e w)) [
      | inl (value, made) ↦ elim (Result-cases (tag_reports chunk)) [
        | inl (rest, more) ↦
            let whole : value ++ rest ≡ body = ok-injective (rw (made, more) at h) in
            rw (made, tag_reports-append chunk tag more k)
              (ground (arith, append_assoc value rest p, whole))
        | inr (x, more) ↦ cc (rw (made, more) at h)
      ]
      | inr (x, made) ↦ cc (rw made at h)
    ]

tag_reports-nil : tag_reports [] ≡ ok []
unfolding tag_reports
tag_reports-nil = refl

-- The report of a valid tag
report-made :
    (tag : Tag)
    → IsValid tag
    → (p : Bytes) × (new_tag_report_data_param tag.epc (length_word tag.epc) ≡ ok p)
      × (length p ≤ 75)
report-made tag (low, high, even) = (
  (put_u16 240 ++ put_u16 (4 + length (inner tag.epc (length_word tag.epc))))
      ++ inner tag.epc (length_word tag.epc),
  new_tag_report_data_param-inner tag.epc (length_word tag.epc) (omega arith),
  omega (arith, length-inner tag.epc (length_word tag.epc)),
)

module _ {S : Type 0} (emit : Bytes → S → Result Error S) (max_frame : ℕ)
    (room : 85 ≤ max_frame) where
  -- What the loop leaves to send, from a chunk that is begun
  abbrev Packed : List (Bytes × ℕ) → (S → Result Error S) → Type 0
  Packed tags sends =
      (chunks : List (List (Bytes × ℕ))) × (concat chunks ≡ tags)
      × All (Fits max_frame) chunks
      × ((s : S) → sends s ≡ emit_chunks emit chunks s)

  emit_last :
      (body : Bytes) (chunk : List (Bytes × ℕ)) (s : S)
      → tag_reports chunk ≡ ok body
      → emit body s ≡ emit_chunks emit (chunk ∷ []) s
  unfolding emit_chunks as_codec
  emit_last body chunk s h = rw h (elim (Result-cases (emit body s)) [
    | inl (s', sent) ↦ rw sent refl
    | inr (x, failed) ↦ rw failed refl
  ])

  emit_first :
      (body : Bytes) (chunk : List (Bytes × ℕ)) (chunks : List (List (Bytes × ℕ)))
      (f : S → Result Error S) (s : S)
      → tag_reports chunk ≡ ok body
      → ((s : S) → f s ≡ emit_chunks emit chunks s)
      → (emit body s >>= f) ≡ emit_chunks emit (chunk ∷ chunks) s
  unfolding emit_chunks as_codec
  emit_first body chunk chunks f s h same = rw h (elim (Result-cases (emit body s)) [
    | inl (s', sent) ↦ rw sent (same s')
    | inr (x, failed) ↦ rw failed refl
  ])

  module _ (tag : Tag) (tags : List Tag) (body p : Bytes) (n : ℕ) (s : S)
      (made : new_tag_report_data_param tag.epc (length_word tag.epc) ≡ ok p)
      (short : length p ≤ 75) where
    loop_full :
        (ltb max_frame (10 + length body + length p) || n == 4096) ≡ true
        → cycle_loop emit max_frame (tag ∷ tags) body n s
          ≡ (emit body s >>= cycle_loop emit max_frame tags p 1)
    unfolding cycle_loop as_codec
    loop_full full = rw made (ground arith)

    loop_more :
        (ltb max_frame (10 + length body + length p) || n == 4096) ≡ false
        → cycle_loop emit max_frame (tag ∷ tags) body n s
          ≡ cycle_loop emit max_frame tags (body ++ p) (n + 1) s
    unfolding cycle_loop as_codec
    loop_more fits = rw made (ground arith)

  cycle_loop-Packed :
      (tags : List Tag) (chunk : List (Bytes × ℕ)) (body : Bytes)
      → All IsValid tags
      → tag_reports chunk ≡ ok body
      → length chunk ≤ 4096
      → 10 + length body ≤ max_frame
      → Packed (chunk ++ map shown tags) (cycle_loop emit max_frame tags body (length chunk))
  unfolding cycle_loop
  cycle_loop-Packed [] chunk body v h few small =
      (chunk ∷ [], refl, ((few, body, h, small), tt), λ s. emit_last body chunk s h)
  cycle_loop-Packed (tag ∷ tags) chunk body (t, v) h few small =
      let (p, made, short) = report-made tag t in
      elim (Bool-cases (ltb max_frame (10 + length body + length p) || length chunk == 4096)) [
        | inl full ↦
            let (chunks, all, good, same) =
              cycle_loop-Packed tags (shown tag ∷ []) p v
                (tag_reports-append [] (shown tag) tag_reports-nil made) (omega arith)
                (omega (arith, short)) in
            (
              chunk ∷ chunks,
              ap (λ t. chunk ++ t) all,
              ((few, body, h, small), good),
              λ s.
                  loop_full tag tags body p (length chunk) s made short full
                  ∙ emit_first body chunk chunks (cycle_loop emit max_frame tags p 1) s h same,
            )
        | inr fits ↦
            let longer = length-append {0} chunk (shown tag ∷ []) in
            let (chunks, all, good, same) =
              cycle_loop-Packed tags (chunk ++ shown tag ∷ []) (body ++ p) v
                (tag_reports-append chunk (shown tag) h made) (ground (arith, longer))
                (ground (arith, length-append {0} body p)) in
            (
              chunks,
              all ∙ append_assoc chunk (shown tag ∷ []) (map shown tags),
              good,
              λ s.
                  loop_more tag tags body p (length chunk) s made short fits
                  ∙ ap (λ n. cycle_loop emit max_frame tags (body ++ p) n s) (sym longer)
                  ∙ same s,
            )
      ]

  -- A cycle of valid tags, where a frame has room for the longest report, is sent as bodies of whole
  -- reports: their tags are those of the cycle in order, each with its length word, and every body
  -- fits the frame and has at most 4096 tags. If sending fails, it fails as the first body does that
  -- cannot be sent.
  pub write_cycle-emit_chunks :
      (tags : List Tag) (s : S)
      → All IsValid tags
      → (chunks : List (List (Bytes × ℕ))) × (concat chunks ≡ map shown tags)
        × All (Fits max_frame) chunks
        × (write_cycle emit max_frame tags s ≡ emit_chunks emit chunks s)
  unfolding write_cycle
  write_cycle-emit_chunks tags s v =
      let (chunks, all, good, same) =
        cycle_loop-Packed tags [] [] v tag_reports-nil (omega arith) (omega (arith, room)) in
      (chunks, all, good, same s)
