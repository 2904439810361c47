-- ===== src/Filter/Adaptive/Decide.antt =====
-- When and to what the controller (internal/filter/adaptive.go) switches.
use tagstrak.Common.{
  ℕ, zero, suc, ◌+◌, ◌%◌, ◌^◌, ◌≤◌, ◌<◌, ◌≡◌, ◌≢◌, refl, sym, ap, ◌∙◌, arith, Bool, true, false,
  ◌&&◌, ◌||◌, List, [], ◌∷◌, length, subst, All, ltb, leb, ◌==◌, if◌then◌else◌, Bool-cases, inl,
  inr,
}
use native.Mathlib.Nat.{mod-lt, mod-eq_of_lt, mod_self}
use tagstrak.Filter.Adaptive.{Controller, all_warm, warm, mean, best_from, decide, pick_shadow}

-- The loop finds the least mean of those that it compares.
best_from-le :
    (c : Controller) (candidate left best : ℕ)
    → mean c (best_from c candidate left best) ≤ mean c best
unfolding best_from
best_from-le c candidate zero best = omega arith
best_from-le c candidate (suc left) best =
    elim (Bool-cases (ltb (mean c candidate) (mean c best))) [
      | inl less ↦ rw less (ground (arith, best_from-le c (candidate + 1) left candidate))
      | inr not_less ↦ rw not_less (best_from-le c (candidate + 1) left best)
    ]

best_from-least :
    (c : Controller) (candidate left best i : ℕ)
    → candidate ≤ i
    → i < candidate + left
    → mean c (best_from c candidate left best) ≤ mean c i
unfolding best_from
best_from-least c candidate zero best i low high = absurd (omega arith)
best_from-least c candidate (suc left) best i low high =
    let next = if ltb (mean c candidate) (mean c best) then candidate else best in
    elim (Bool-cases (candidate == i)) [
      | inl here ↦
          let this : mean c next ≤ mean c i = ground arith in
          omega (arith, best_from-le c (candidate + 1) left next, this)
      | inr later ↦ best_from-least c (candidate + 1) left next i (ground arith) (omega arith)
    ]

pub best_from-lt :
    (c : Controller) (candidate left best n : ℕ)
    → best < n
    → candidate + left ≤ n
    → best_from c candidate left best < n
unfolding best_from
best_from-lt c candidate zero best n h k = h
best_from-lt c candidate (suc left) best n h k =
    best_from-lt c (candidate + 1) left
      (if ltb (mean c candidate) (mean c best) then candidate else best) n (ground arith)
      (omega arith)

all_warm-All :
    (warmup : ℕ) (counts : List ℕ) → all_warm warmup counts ≡ true → All (λ n. warmup ≤ n) counts
unfolding all_warm
all_warm-All warmup [] h = tt
all_warm-All warmup (n ∷ counts) h = (ground arith, all_warm-All warmup counts (ground arith))

-- The controller at a decision, which it counts.
abbrev counted : Controller → Controller
counted c = record c { since_switch = c.since_switch + 1 }

-- What a switch takes: every candidate is past the warmup; no switch stands within the
-- cooldown; and the new candidate is cheaper than the selected one, passes the hysteresis, and has
-- the least mean cost of all.
pub record IsEarned (dear : ℕ → ℕ → Bool) (c : Controller) (next : ℕ) : Type 0 where
  pub past_warmup : All (λ n. c.warmup ≤ n) c.counts
  pub past_cooldown : 0 < c.switches → c.cooldown < c.since_switch + 1
  pub other : next ≢ c.selected
  pub cheaper : mean c next ≤ mean c c.selected
  pub passes : dear (mean c next) (mean c c.selected) ≡ false
  pub least : (i : ℕ) → i < length c.counts → mean c next ≤ mean c i

-- The guards of `decide`, where it switches.
switch_guards :
    (dear : ℕ → ℕ → Bool) (c : Controller) {c' : Controller} {next : ℕ}
    → decide dear c ≡ (c', (next, true))
    → let d = counted c in
      let best = best_from d 0 (length c.counts) c.selected in
      (all_warm c.warmup c.counts ≡ true)
      × ((ltb 0 c.switches && leb (c.since_switch + 1) c.cooldown) ≡ false)
      × ((best == c.selected || dear (mean d best) (mean d c.selected)) ≡ false)
      × (next ≡ best)
      × (c' ≡ record d { selected = best; switches = (c.switches + 1) % 2 ^ 64; since_switch = 0 })
unfolding decide warm
switch_guards dear c {c'} {next} e =
    let d = counted c in
    let best = best_from d 0 (length c.counts) c.selected in
    elim (Bool-cases (all_warm c.warmup c.counts)) [
      | inr cold ↦ cc (rw cold at e)
      | inl all ↦ elim (Bool-cases (ltb 0 c.switches && leb (c.since_switch + 1) c.cooldown)) [
        | inl cooling ↦ cc (rw (all, cooling) at e)
        | inr cooled ↦
            elim (Bool-cases (best == c.selected || dear (mean d best) (mean d c.selected))) [
              | inl worse ↦ cc (rw (all, cooled, worse) at e)
              | inr better ↦
                  let same = rw (all, cooled, better) at e in
                  (all, cooled, better, sym (ap (λ p. p.1.0) same), sym (ap (λ p. p.0) same))
            ]
      ]
    ]

-- Whenever the controller switches, the switch is earned, and all that it changes is the selection,
-- the count of switches, and the count of decisions since the last, which starts again at zero.
pub decide_switched :
    (dear : ℕ → ℕ → Bool) (c : Controller) {c' : Controller} {next : ℕ}
    → decide dear c ≡ (c', (next, true))
    → IsEarned dear c next
      × (c' ≡ record c { selected = next; switches = (c.switches + 1) % 2 ^ 64; since_switch = 0 })
unfolding mean
decide_switched dear c {c'} {next} e =
    let (all, cooled, better, same, after) = switch_guards dear c e in
    let best = best_from (counted c) 0 (length c.counts) c.selected in
    (
      subst (IsEarned dear c) (sym same) (record {
        past_warmup = all_warm-All c.warmup c.counts all;
        past_cooldown = λ some. ground arith;
        other = ground arith;
        cheaper = best_from-le (counted c) 0 (length c.counts) c.selected;
        passes = ground arith;
        least = λ i h.
            best_from-least (counted c) 0 (length c.counts) c.selected i (omega arith)
              (omega arith);
      }),
      after
          ∙ ap
              (λ b. record c {
                selected = b;
                switches = (c.switches + 1) % 2 ^ 64;
                since_switch = 0;
              })
              (sym same),
    )

-- A decision leaves the counts and the rings as they are, and selects a candidate that there is.
pub decide_kept :
    (dear : ℕ → ℕ → Bool) (c : Controller)
    → c.selected < length c.counts
    → ((decide dear c).1.0 ≡ (decide dear c).0.selected)
      × ((decide dear c).1.1 ≡ false → (decide dear c).0.selected ≡ c.selected)
      × ((decide dear c).0.selected < length c.counts)
      × ((decide dear c).0.counts ≡ c.counts)
      × ((decide dear c).0.rings ≡ c.rings)
      × ((decide dear c).0.window ≡ c.window)
unfolding decide warm
decide_kept dear c h =
    let d = counted c in
    let best = best_from d 0 (length c.counts) c.selected in
    let there : best < length c.counts =
      best_from-lt d 0 (length c.counts) c.selected (length c.counts) h (omega arith) in
    elim (Bool-cases (all_warm c.warmup c.counts)) [
      | inr cold ↦ rw cold (refl, λ e. refl, h, refl, refl, refl)
      | inl all ↦ elim (Bool-cases (ltb 0 c.switches && leb (c.since_switch + 1) c.cooldown)) [
        | inl cooling ↦ rw (all, cooling) (refl, λ e. refl, h, refl, refl, refl)
        | inr cooled ↦
            elim (Bool-cases (best == c.selected || dear (mean d best) (mean d c.selected))) [
              | inl worse ↦ rw (all, cooled, worse) (refl, λ e. refl, h, refl, refl, refl)
              | inr better ↦ rw (all, cooled, better) (refl, λ e. cc, there, refl, refl, refl)
            ]
      ]
    ]

step-ne : (n sel : ℕ) → 2 ≤ n → sel < n → (sel + 1) % n ≢ sel
step-ne n sel many there = elim (Bool-cases (sel + 1 == n)) [
  | inl last ↦
      let whole : sel + 1 ≡ n = ground arith in
      λ e. absurd (omega (arith, ap (λ x. x % n) whole, mod_self n))
  | inr inside ↦ λ e. absurd (omega (arith, mod-eq_of_lt {n = sel + 1} {m = n} (ground arith)))
]

-- With two candidates or more, a shadow is one of them and not the selected one.
pub pick_shadow_lem :
    (n next_shadow sel : ℕ)
    → 2 ≤ n
    → sel < n
    → (pick_shadow n next_shadow sel < n) × (pick_shadow n next_shadow sel ≢ sel)
unfolding pick_shadow
pick_shadow_lem n next_shadow sel many there =
    let some : 0 < n = omega arith in
    elim (Bool-cases ((next_shadow + 1) % n == sel)) [
      | inl taken ↦
          let here : (next_shadow + 1) % n ≡ sel = ground arith in
          rw taken (
            mod-lt ((next_shadow + 1) % n + 1) some,
            λ e. step-ne n sel many there (ap (λ x. (x + 1) % n) (sym here) ∙ e),
          )
      | inr free ↦ rw free (mod-lt (next_shadow + 1) some, ground arith)
    ]
