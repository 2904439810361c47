-- ===== src/Emulator/Cycle/Received.antt =====
-- What the client makes of a cycle.
use tagstrak.Common.{
  ℕ, ◌≤◌, ◌<◌, ◌≡◌, ◌∙◌, refl, sym, ap, subst, arith, List, [], ◌∷◌, ◌++◌, append-nil, append_assoc,
  map, Bytes, length, All, Result, ok, ◌>>=◌,
}
use tagstrak.Inventory.{Tag, Observation}
use tagstrak.Llrp.Error.{Limits, normalized}
use tagstrak.Llrp.TagReport.RoundTrip.{HasRoom}
use tagstrak.Reader.Protocol as Reader
use tagstrak.Reader.Protocol.{decode_observations}
use tagstrak.Reader.Protocol.Reports.{IsTag, observation, decode_observations-tag_reports}
use tagstrak.Emulator.{Error, as_codec}
use tagstrak.Emulator.Cycle.{write_cycle}
use tagstrak.Emulator.Cycle.Packs.{
  shown, IsValid, concat, emit_chunks, Fits, write_cycle-emit_chunks,
}

-- A connection that keeps what is sent
abbrev pub keep : Bytes → List Bytes → Result Error (List Bytes)
keep body sent = ok (sent ++ body ∷ [])

-- The observations that the client makes of report bodies, one after the other
unfoldable pub observe_all :
    Limits → Bytes → ℕ → List Bytes → Result Reader.Error (List Observation)
observe_all l source now [] = ok []
observe_all l source now (body ∷ bodies) = do
  these ← decode_observations body l source now
  more ← observe_all l source now bodies
  ok (these ++ more)

All-split {ℓ κ} :
    {A : Type ℓ} (P : A → Type κ) (xs ys : List A) → All P (xs ++ ys) → All P xs × All P ys
All-split P [] ys h = (tt, h)
All-split P (x ∷ xs) ys (p, h) = let (l, r) = All-split P xs ys h in ((p, l), r)

map-append {ℓ κ} :
    {A : Type ℓ} {B : Type κ} (f : A → B) (xs ys : List A) → map f (xs ++ ys) ≡ map f xs ++ map f ys
map-append f [] ys = refl
map-append f (x ∷ xs) ys = ap (λ t. f x ∷ t) (map-append f xs ys)

shown-IsTag : (tags : List Tag) → All IsValid tags → All IsTag (map shown tags)
shown-IsTag [] h = tt
shown-IsTag (t ∷ tags) ((low, high, even), h) = ((low, high, even, omega arith), shown-IsTag tags h)

module _ (l : Limits) (source : Bytes) (now : ℕ) (room : HasRoom l)
    (many : 4096 ≤ (normalized l).max_parameters) (dated : 0 < now)
    (named : length source ≤ 256) where
  chunks_received :
      (max_frame : ℕ) (chunks : List (List (Bytes × ℕ))) (sent : List Bytes)
      → All (Fits max_frame) chunks
      → All IsTag (concat chunks)
      → (bodies : List Bytes) × (emit_chunks keep chunks sent ≡ ok (sent ++ bodies))
        × (observe_all l source now bodies ≡ ok (map (observation source now) (concat chunks)))
  unfolding emit_chunks observe_all as_codec
  chunks_received max_frame [] sent h t = ([], ap ok (sym (append-nil sent)), refl)
  chunks_received max_frame (chunk ∷ chunks) sent ((few, body, made, small), h) t =
      let (these, others) = All-split IsTag chunk (concat chunks) t in
      let (bodies, kept, seen) = chunks_received max_frame chunks (sent ++ body ∷ []) h others in
      (
        body ∷ bodies,
        rw made (kept ∙ ap ok (append_assoc sent (body ∷ []) bodies)),
        rw
            (
              decode_observations-tag_reports chunk l body source now room
                  (omega (arith, few, many)) these dated named made,
              seen,
            )
            (ap ok (sym (map-append (observation source now) chunk (concat chunks)))),
      )

  -- From the emulator's inventory to the client's observations: the bodies that the emulator sends in
  -- a cycle of valid tags become, in order, one observation for each tag, with its EPC, its length
  -- word, the time and the source. The frame has room for the longest report, and the client's
  -- limits for the bodies.
  pub write_cycle_received :
      (tags : List Tag) (max_frame : ℕ)
      → 85 ≤ max_frame
      → All IsValid tags
      → (bodies : List Bytes) × (write_cycle keep max_frame tags [] ≡ ok bodies)
        × (observe_all l source now bodies ≡ ok (map (observation source now) (map shown tags)))
  write_cycle_received tags max_frame large valid =
      let (chunks, all, fits, same) = write_cycle-emit_chunks keep max_frame large tags [] valid in
      let (bodies, kept, seen) =
        chunks_received max_frame chunks [] fits
          (subst (All IsTag) (sym all) (shown-IsTag tags valid)) in
      (bodies, same ∙ kept, seen ∙ ap (λ ts. ok (map (observation source now) ts)) all)
