-- ===== src/Filter/Adaptive/Agrees.antt =====
-- Which candidate answers changes cost, never results (internal/filter/adaptive.go).
use tagstrak.Common.{
  ℕ, zero, suc, ◌+◌, ◌%◌, ◌^◌, ◌≤◌, ◌<◌, ◌≡◌, refl, sym, ap, ◌∙◌, arith, Bool, true, false, ◌&&◌,
  ◌||◌, not, List, [], ◌∷◌, ◌++◌, length, length-append, get_or, subst, All, ltb, ◌==◌,
  if◌then◌else◌, Bool-cases, inl, inr, Bytes, Option,
}
use tagstrak.Filter.Subscription.{Subject}
use tagstrak.Filter.Adaptive.{
  Controller, Adaptive, Matcher, warm, mean, match_at, update_at, observe, decide, timed, is_shadow,
  run_shadows, choose_shadow, timed_if, settle, match_sampled, match_counted, match_adaptive,
}
use tagstrak.Filter.Adaptive.Decide.{decide_kept}

length-update_at {ℓ} :
    {A : Type ℓ} (i : ℕ) (f : A → A) (xs : List A) → length (update_at i f xs) ≡ length xs
unfolding update_at
length-update_at i f [] = refl
length-update_at zero f (x ∷ xs) = refl
length-update_at (suc i) f (x ∷ xs) = ap suc (length-update_at i f xs)

All-update_at {ℓ} :
    {A : Type ℓ} (P : A → Type 0) (i : ℕ) (f : A → A) (d : A) (xs : List A)
    → All P xs
    → (P (get_or xs i d) → P (f (get_or xs i d)))
    → All P (update_at i f xs)
unfolding update_at
All-update_at P i f d [] h k = tt
All-update_at P zero f d (x ∷ xs) (hx, h) k = (k hx, h)
All-update_at P (suc i) f d (x ∷ xs) (hx, h) k = (hx, All-update_at P i f d xs h k)

-- What holds of a controller between decisions: `n` candidates, of which `sel` is selected, and no
-- ring above its capacity.
pub record IsController (n sel : ℕ) (c : Controller) : Type 0 where
  pub selects : c.selected ≡ sel
  pub there : sel < n
  pub counted : length c.counts ≡ n
  pub rings : All (λ r. length r ≤ c.window) c.rings

observe-IsController :
    (n sel i cost : ℕ) (c : Controller)
    → IsController n sel c
    → IsController n sel (observe c i cost)
unfolding observe
observe-IsController n sel i cost c h =
    let counts = length-update_at i (λ n. (n + 1) % 2 ^ 64) c.counts ∙ h.counted in
    let ring = get_or c.rings i [] in
    let at = get_or c.next i 0 in
    elim (Bool-cases (ltb (length ring) c.window)) [
      | inl room ↦ rw room (record {
        selects = h.selects;
        there = h.there;
        counted = counts;
        rings =
            All-update_at (λ r. length r ≤ c.window) i (λ r. r ++ cost ∷ []) [] c.rings h.rings
              (λ k. ground (arith, length-append ring (cost ∷ [])));
      })
      | inr whole ↦ rw whole (record {
        selects = h.selects;
        there = h.there;
        counted = counts;
        rings =
            All-update_at (λ r. length r ≤ c.window) i (update_at at (λ old. cost)) [] c.rings
              h.rings (λ k. omega (arith, length-update_at at (λ old. cost) ring));
      })
    ]

-- An adaptive matcher over the candidates `ms`, while `sel` is selected.
pub record IsAdaptive (ms : List Matcher) (sel : ℕ) (a : Adaptive) : Type 0 where
  pub matchers : a.matchers ≡ ms
  pub mirrors : a.selected ≡ sel
  pub controls : IsController (length ms) sel a.ctl

match_at-All :
    (ms : List Matcher) (i : ℕ) (s : Subject) (dst : List Bytes) {ids : List Bytes}
    → i < length ms
    → All (λ m. m s dst ≡ ids) ms
    → match_at ms i s dst ≡ ids
match_at-All [] i s dst h k = absurd (omega arith)
match_at-All (m ∷ ms) zero s dst h (k, ks) = k
match_at-All (m ∷ ms) (suc i) s dst h (k, ks) = match_at-All ms i s dst (omega arith) ks

module _ (clock : ℕ → ℕ) (dear : ℕ → ℕ → Bool) (affordable : (shadow_time mean calls : ℕ) → Bool)
    (ms : List Matcher) where
  timed-IsAdaptive :
      (sel i : ℕ) (a : Adaptive) (s : Subject) (dst : List Bytes) (shadow : Bool)
      → IsAdaptive ms sel a
      → IsAdaptive ms sel (timed clock dear affordable a i s dst shadow).1
  unfolding timed
  timed-IsAdaptive sel i a s dst shadow h = record {
    matchers = h.matchers;
    mirrors = h.mirrors;
    controls = observe-IsController (length ms) sel i _ a.ctl h.controls;
  }

  run_shadows-IsAdaptive :
      (sel k : ℕ) (shadow : Option ℕ) (s : Subject) (left c : ℕ) (a : Adaptive)
      → IsAdaptive ms sel a
      → IsAdaptive ms sel (run_shadows clock dear affordable a k shadow s c left)
  unfolding run_shadows
  run_shadows-IsAdaptive sel k shadow s zero c a h = h
  run_shadows-IsAdaptive sel k shadow s (suc left) c a h =
      elim (Bool-cases (not (c == k) && (a.full || is_shadow shadow c))) [
        | inl runs ↦
            let t = timed-IsAdaptive sel c a s [] true h in
            rw runs (
              run_shadows-IsAdaptive sel k shadow s left (c + 1) _
                (record { matchers = t.matchers; mirrors = t.mirrors; controls = t.controls }))
        | inr passes ↦ rw passes (run_shadows-IsAdaptive sel k shadow s left (c + 1) a h)
      ]

  choose_shadow-IsAdaptive :
      (sel k : ℕ) (a : Adaptive)
      → IsAdaptive ms sel a
      → IsAdaptive ms sel (choose_shadow clock dear affordable a k).1
  unfolding choose_shadow
  choose_shadow-IsAdaptive sel k a h =
      elim (Bool-cases
        (a.full || not (warm a.ctl) || affordable a.shadow_time (mean a.ctl k) a.calls)) [
          | inl runs ↦
              rw runs (record { matchers = h.matchers; mirrors = h.mirrors; controls = h.controls })
          | inr skips ↦
              rw skips
                (record { matchers = h.matchers; mirrors = h.mirrors; controls = h.controls })
        ]

  timed_if-IsAdaptive :
      (sel k : ℕ) (turn : Bool) (a : Adaptive) (s : Subject) (dst : List Bytes)
      → IsAdaptive ms sel a
      → IsAdaptive ms sel (timed_if clock dear affordable turn a k s dst).1
  unfolding timed_if
  timed_if-IsAdaptive sel k true a s dst h = timed-IsAdaptive sel k a s dst false h
  timed_if-IsAdaptive sel k false a s dst h = h

  -- Of the two turns of the selected candidate, one is taken.
  one_turn :
      (sel : ℕ) (turn : Bool) (a b : Adaptive) (s : Subject) (dst : List Bytes) {ids : List Bytes}
      → IsAdaptive ms sel a
      → IsAdaptive ms sel b
      → All (λ m. m s dst ≡ ids) ms
      → (timed_if clock dear affordable
          (not turn)
          b
          sel
          s
          (timed_if clock dear affordable turn a sel s dst).0).0
        ≡ ids
  unfolding timed_if timed
  one_turn sel true a b s dst ha hb k =
      ap (λ xs. match_at xs sel s dst) ha.matchers ∙ match_at-All ms sel s dst ha.controls.there k
  one_turn sel false a b s dst ha hb k =
      ap (λ xs. match_at xs sel s dst) hb.matchers ∙ match_at-All ms sel s dst hb.controls.there k

  -- The selection after a decision is the controller's.
  settle-IsAdaptive :
      (sel : ℕ) (a : Adaptive)
      → IsAdaptive ms sel a
      → IsAdaptive ms
          (decide dear a.ctl).0.selected
          (settle clock dear affordable a (decide dear a.ctl))
  unfolding settle
  settle-IsAdaptive sel a h =
      let inside : a.ctl.selected < length a.ctl.counts =
        omega (arith, h.controls.selects, h.controls.counted, h.controls.there) in
      let (next, kept, there, counts, rings, window) = decide_kept dear a.ctl inside in
      let controls : IsController (length ms) (decide dear a.ctl).0.selected (decide dear a.ctl).0 =
        record {
          selects = refl;
          there = omega (arith, there, h.controls.counted);
          counted = ap length counts ∙ h.controls.counted;
          rings = rw (rings, window) h.controls.rings;
        } in
      elim (Bool-cases (decide dear a.ctl).1.1) [
        | inl switched ↦
            rw switched (record { matchers = h.matchers; mirrors = next; controls = controls })
        | inr stayed ↦ rw stayed (record {
          matchers = h.matchers;
          mirrors = h.mirrors ∙ sym h.controls.selects ∙ sym (kept stayed);
          controls = controls;
        })
      ]

  match_sampled_agrees :
      (a : Adaptive) (s : Subject) (dst : List Bytes) {ids : List Bytes}
      → IsAdaptive ms a.ctl.selected a
      → All (λ m. m s dst ≡ ids) ms
      → ((match_sampled clock dear affordable a s dst).0 ≡ ids)
        × ((next : ℕ) × IsAdaptive ms next (match_sampled clock dear affordable a s dst).1)
  unfolding match_sampled
  match_sampled_agrees a s dst h k =
      let sel = a.ctl.selected in
      let (shadow, a1) = choose_shadow clock dear affordable a sel in
      let h1 = choose_shadow-IsAdaptive sel sel a h in
      let turn = a1.sampled % 2 == 0 in
      let a2 : Adaptive = record a1 { sampled = (a1.sampled + 1) % 2 ^ 64 } in
      let h2 : IsAdaptive ms sel a2 = record {
        matchers = h1.matchers;
        mirrors = h1.mirrors;
        controls = h1.controls;
      } in
      let (dst1, a3) = timed_if clock dear affordable turn a2 sel s dst in
      let h3 = timed_if-IsAdaptive sel sel turn a2 s dst h2 in
      let h4 = run_shadows-IsAdaptive sel sel shadow s (length a3.matchers) 0 a3 h3 in
      let a4 = run_shadows clock dear affordable a3 sel shadow s 0 (length a3.matchers) in
      let h5 = timed_if-IsAdaptive sel sel (not turn) a4 s dst1 h4 in
      (
        one_turn sel turn a2 a4 s dst h2 h4 k,
        (_, settle-IsAdaptive sel (timed_if clock dear affordable (not turn) a4 sel s dst1).1 h5),
      )

  selected-IsAdaptive :
      (sel : ℕ) (a : Adaptive) → IsAdaptive ms sel a → IsAdaptive ms a.ctl.selected a
  selected-IsAdaptive sel a h = subst (λ i. IsAdaptive ms i a) (sym h.controls.selects) h

  abbrev Answers : List Bytes → List Bytes × Adaptive → Type 0
  Answers ids r = (r.0 ≡ ids) × ((next : ℕ) × IsAdaptive ms next r.1)

  match_counted_agrees :
      (sel : ℕ) (a : Adaptive) (s : Subject) (dst : List Bytes) {ids : List Bytes}
      → IsAdaptive ms sel a
      → All (λ m. m s dst ≡ ids) ms
      → Answers ids (match_counted clock dear affordable a s dst)
  unfolding match_counted
  match_counted_agrees sel a s dst h k =
      let calls = (a.calls + 1) % 2 ^ 64 in
      let h' = selected-IsAdaptive sel a h in
      elim (Bool-cases (calls % a.every == 0)) [
        | inl due ↦ rw due (
            match_sampled_agrees (record a { calls = calls }) s dst
              (record { matchers = h'.matchers; mirrors = h'.mirrors; controls = h'.controls }) k)
        | inr plain ↦ rw plain (
          ap (λ i. match_at a.matchers i s dst) h.mirrors
              ∙ ap (λ xs. match_at xs sel s dst) h.matchers
              ∙ match_at-All ms sel s dst h.controls.there k,
          (sel, record { matchers = h.matchers; mirrors = h.mirrors; controls = h.controls }),
        )
      ]

  by_full :
      (full : Bool) (sampled counted : List Bytes × Adaptive) (ids : List Bytes)
      → Answers ids sampled
      → Answers ids counted
      → Answers ids (if full then sampled else counted)
  by_full true sampled counted ids h k = h
  by_full false sampled counted ids h k = k

  -- Where all candidates answer a subject with the same IDs, the adaptive matcher answers with them
  -- too, whatever the clock, the costs and the selection are. Its state keeps its candidates, its
  -- selection that there is and that the controller mirrors, and its rings within their capacity.
  pub match_adaptive_agrees :
      (sel : ℕ) (a : Adaptive) (s : Subject) (dst : List Bytes) {ids : List Bytes}
      → IsAdaptive ms sel a
      → All (λ m. m s dst ≡ ids) ms
      → ((match_adaptive clock dear affordable a s dst).0 ≡ ids)
        × ((next : ℕ) × IsAdaptive ms next (match_adaptive clock dear affordable a s dst).1)
  unfolding match_adaptive
  match_adaptive_agrees sel a s dst {ids} h k =
      by_full a.full (match_sampled clock dear affordable a s dst)
        (match_counted clock dear affordable a s dst) ids
        (match_sampled_agrees a s dst (selected-IsAdaptive sel a h) k)
        (match_counted_agrees sel a s dst h k)
