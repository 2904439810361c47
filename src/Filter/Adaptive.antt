-- ===== src/Filter/Adaptive.antt =====
-- The adaptive matcher (internal/filter/adaptive.go): it answers with a selected candidate and, on
-- sampled calls, times another to decide whether to switch. Costs are readings of a clock that does
-- not go back. The two tests on floating-point numbers, the hysteresis and the overhead budget, are
-- parameters, with the costs that they compare as arguments.
pub mod Decide
pub mod Agrees
pub mod Compile
use tagstrak.Common.{
  ℕ, zero, suc, ◌+◌, ◌-◌, ◌/◌, ◌%◌, ◌^◌, Bool, true, false, ◌&&◌, ◌||◌, not, List, [], ◌∷◌, ◌++◌,
  Bytes, length, get_or, Option, none, some, ltb, leb, ◌==◌, if◌then◌else◌,
}
use tagstrak.Filter.Subscription.{Subject}

-- `Matcher`, by its `Match`
abbrev pub Matcher : Type 0
Matcher = Subject → List Bytes → List Bytes

-- An assignment to an element of a slice
unfoldable pub update_at {ℓ} : {A : Type ℓ} → ℕ → (A → A) → List A → List A
update_at i f [] = []
update_at zero f (x ∷ xs) = f x ∷ xs
update_at (suc i) f (x ∷ xs) = x ∷ update_at i f xs

-- `controller`; `window` is the capacity of the rings, and the hysteresis is in the test below.
pub record Controller : Type 0 where
  pub warmup : ℕ
  pub cooldown : ℕ
  pub window : ℕ
  pub selected : ℕ
  pub switches : ℕ
  pub since_switch : ℕ
  pub counts : List ℕ
  pub rings : List (List ℕ)
  pub next : List ℕ

-- `controller.observe`
unfoldable pub observe : Controller → ℕ → ℕ → Controller
unfolding update_at
observe c candidate cost =
    let ring = get_or c.rings candidate [] in
    let at = get_or c.next candidate 0 in
    let counts = update_at candidate (λ n. (n + 1) % 2 ^ 64) c.counts in
    if ltb (length ring) c.window
    then record c { counts = counts; rings = update_at candidate (λ r. r ++ cost ∷ []) c.rings }
    else record c {
      counts = counts;
      rings = update_at candidate (update_at at (λ old. cost)) c.rings;
      next = update_at candidate (λ old. (at + 1) % length ring) c.next;
    }

all_warm : ℕ → List ℕ → Bool
all_warm warmup [] = true
all_warm warmup (n ∷ counts) = if ltb n warmup then false else all_warm warmup counts

-- `controller.warm`
unfoldable pub warm : Controller → Bool
unfolding all_warm
warm c = all_warm c.warmup c.counts

unfoldable pub sum : List ℕ → ℕ
sum [] = 0
sum (d ∷ ring) = d + sum ring

-- `controller.mean`
unfoldable pub mean : Controller → ℕ → ℕ
unfolding sum
mean c candidate =
    let ring = get_or c.rings candidate [] in if length ring == 0 then 0 else sum ring / length ring

-- The loop of `decide` over the candidates from one on, as many as are left.
unfoldable pub best_from : Controller → ℕ → ℕ → ℕ → ℕ
unfolding mean
best_from c candidate zero best = best
best_from c candidate (suc left) best =
    best_from c (candidate + 1) left
      (if ltb (mean c candidate) (mean c best) then candidate else best)

-- `dear cost selected` stands for `float64(cost) >= float64(selected)*(1-c.hysteresis)`.
unfoldable pub decide : (dear : ℕ → ℕ → Bool) → Controller → Controller × (ℕ × Bool)
unfolding warm best_from
decide dear c =
    let c1 : Controller = record c { since_switch = c.since_switch + 1 } in
    let best = best_from c1 0 (length c1.counts) c1.selected in
    let switched : Controller = record c1 {
      selected = best;
      switches = (c1.switches + 1) % 2 ^ 64;
      since_switch = 0;
    } in
    if not (warm c1)
    then (c1, (c1.selected, false))
    else if ltb 0 c1.switches && leb c1.since_switch c1.cooldown
    then (c1, (c1.selected, false))
    else if best == c1.selected || dear (mean c1 best) (mean c1 c1.selected)
    then (c1, (c1.selected, false))
    else (switched, (best, true))

-- `Adaptive`; `ticks` counts the readings of the clock, and the lock is held by whole calls.
pub record Adaptive : Type 0 where
  pub matchers : List Matcher
  pub every : ℕ
  pub full : Bool
  pub selected : ℕ
  pub calls : ℕ
  pub ctl : Controller
  pub next_shadow : ℕ
  pub scratch : List Bytes
  pub sampled : ℕ
  pub skipped : ℕ
  pub shadow_time : ℕ
  pub ticks : ℕ

-- `a.matchers[c].Match(s, dst)`
abbrev pub match_at : List Matcher → ℕ → Subject → List Bytes → List Bytes
match_at matchers c = get_or matchers c (λ s dst. dst)

-- `pickShadow`; the count of candidates is not zero.
unfoldable pub pick_shadow : ℕ → ℕ → ℕ → ℕ
pick_shadow n next_shadow sel =
    let next = (next_shadow + 1) % n in if next == sel then (next + 1) % n else next

-- `c == shadow`, where no shadow is -1
abbrev is_shadow : Option ℕ → ℕ → Bool
is_shadow none c = false
is_shadow (some k) c = c == k

module _ (clock : ℕ → ℕ) (dear : ℕ → ℕ → Bool)
    (affordable : (shadow_time mean calls : ℕ) → Bool) where
  -- `timed`
  unfoldable pub timed : Adaptive → ℕ → Subject → List Bytes → Bool → List Bytes × Adaptive
  unfolding observe
  timed a c s dst shadow =
      let cost = clock (a.ticks + 1) - clock a.ticks in
      (
        match_at a.matchers c s dst,
        record a {
          ctl = observe a.ctl c cost;
          shadow_time = if shadow then a.shadow_time + cost else a.shadow_time;
          ticks = a.ticks + 2;
        },
      )

  -- The loop over the candidates from one on, as many as are left; without a shadow to run, only
  -- full shadowing runs any.
  unfoldable pub run_shadows : Adaptive → ℕ → Option ℕ → Subject → ℕ → ℕ → Adaptive
  unfolding timed
  run_shadows a sel shadow s c zero = a
  run_shadows a sel shadow s c (suc left) =
      let chosen = is_shadow shadow c in
      let (ids, next) = timed a c s [] true in
      let a' = if not (c == sel) && (a.full || chosen) then record next { scratch = ids } else a in
      run_shadows a' sel shadow s (c + 1) left

  -- The choice of a shadow, or the count of a skipped one
  choose_shadow : Adaptive → ℕ → Option ℕ × Adaptive
  unfolding pick_shadow mean warm
  choose_shadow a sel =
      let next = pick_shadow (length a.matchers) a.next_shadow sel in
      if a.full || not (warm a.ctl) || affordable a.shadow_time (mean a.ctl sel) a.calls
      then (some next, record a { next_shadow = next })
      else (none, record a { skipped = (a.skipped + 1) % 2 ^ 64 })

  -- One timed run of the selected candidate, in its turn or not
  timed_if : Bool → Adaptive → ℕ → Subject → List Bytes → List Bytes × Adaptive
  timed_if turn a sel s dst = if turn then timed a sel s dst false else (dst, a)

  -- What `Match` does with the decision at its end
  settle : Adaptive → Controller × (ℕ × Bool) → Adaptive
  settle a (c, (next, switched)) =
      if switched then record a { ctl = c; selected = next } else record a { ctl = c }

  -- A sampled call of `Match`
  pub match_sampled : Adaptive → Subject → List Bytes → List Bytes × Adaptive
  unfolding choose_shadow timed_if run_shadows settle decide
  match_sampled a s dst =
      let sel = a.ctl.selected in
      let (shadow, a1) = choose_shadow a sel in
      let selected_first = a1.sampled % 2 == 0 in
      let a2 : Adaptive = record a1 { sampled = (a1.sampled + 1) % 2 ^ 64 } in
      let (dst1, a3) = timed_if selected_first a2 sel s dst in
      let a4 = run_shadows a3 sel shadow s 0 (length a3.matchers) in
      let (dst2, a5) = timed_if (not selected_first) a4 sel s dst1 in
      (dst2, settle a5 (decide dear a5.ctl))

  -- A call of `Match` that is counted: every so many of them are sampled, and the others answer with
  -- the selected candidate.
  match_counted : Adaptive → Subject → List Bytes → List Bytes × Adaptive
  match_counted a s dst =
      let calls = (a.calls + 1) % 2 ^ 64 in
      if calls % a.every == 0
      then match_sampled (record a { calls = calls }) s dst
      else (match_at a.matchers a.selected s dst, record a { calls = calls })

  -- `Adaptive.Match`; under full shadowing the calls are not counted.
  unfoldable pub match_adaptive : Adaptive → Subject → List Bytes → List Bytes × Adaptive
  unfolding match_sampled match_counted
  match_adaptive a s dst = if a.full then match_sampled a s dst else match_counted a s dst
