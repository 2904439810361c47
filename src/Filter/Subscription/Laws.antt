-- ===== src/Filter/Subscription/Laws.antt =====
-- What `validate` (internal/filter/filter.go) accepts.
use tagstrak.Common.{
  ◌≤◌, ◌<◌, ◌≡◌, ◌↔◌, refl, sym, ◌∙◌, arith, false, List, [], ◌∷◌, Bytes, length, Result, ok, err,
  ◌>>=◌, All,
}
use tagstrak.Identity.Pattern.{Pattern, is_zero}
use tagstrak.Filter.Subscription.{
  Subscription, Error, max_subscriptions, max_patterns_per_subscription, has_id, any_zero,
  check_subscription, check_subscriptions, validate,
}

-- A subscription that keeps to the limits by itself.
abbrev pub IsBounded : Subscription → Type 0
IsBounded s =
    (0 < length s.id)
    × (0 < length s.patterns)
    × (length s.patterns ≤ max_patterns_per_subscription)
    × All (λ p. is_zero p ≡ false) s.patterns

-- The IDs are distinct from each other and from those before.
abbrev pub IsDistinct : List Bytes → List Subscription → Type 0
IsDistinct seen [] = Unit
IsDistinct seen (s ∷ ss) = (has_id s.id seen ≡ false) × IsDistinct (s.id ∷ seen) ss

any_zero_iff : (ps : List Pattern) → (any_zero ps ≡ false) ↔ All (λ p. is_zero p ≡ false) ps
unfolding any_zero
any_zero_iff [] = (λ h. tt, λ h. refl)
any_zero_iff (p ∷ ps) = (
  λ h. (ground arith, (any_zero_iff ps).0 (ground arith)),
  λ (hp, h). rw hp ((any_zero_iff ps).1 h),
)

check_subscription_iff :
    (s : Subscription) (seen : List Bytes)
    → (check_subscription s seen ≡ ok tt) ↔ (IsBounded s × (has_id s.id seen ≡ false))
unfolding check_subscription
check_subscription_iff s seen = (
  λ h.
      let plain : any_zero s.patterns ≡ false = ground arith in
      ((ground arith, ground arith, ground arith, (any_zero_iff s.patterns).0 plain), ground arith),
  λ ((id, some, few, plain), fresh). ground (arith, (any_zero_iff s.patterns).1 plain),
)

check_subscriptions-cons :
    (s : Subscription) (ss : List Subscription) (seen : List Bytes)
    → check_subscriptions (s ∷ ss) seen
      ≡ (check_subscription s seen >>= λ u. check_subscriptions ss (s.id ∷ seen))
unfolding check_subscriptions
check_subscriptions-cons s ss seen = refl

then-ok : (a b : Result Error (Unit {0})) → ((a >>= λ u. b) ≡ ok tt) ↔ ((a ≡ ok tt) × (b ≡ ok tt))
then-ok (ok tt) b = (λ h. (refl, h), λ (ha, hb). hb)
then-ok (err e) b = (λ h. cc, λ (ha, hb). cc)

check_subscriptions_iff :
    (ss : List Subscription) (seen : List Bytes)
    → (check_subscriptions ss seen ≡ ok tt) ↔ (All IsBounded ss × IsDistinct seen ss)
check_subscriptions_iff [] seen = unfold check_subscriptions in (λ h. (tt, tt), λ h. refl)
check_subscriptions_iff (s ∷ ss) seen =
    let both = then-ok (check_subscription s seen) (check_subscriptions ss (s.id ∷ seen)) in
    let first = check_subscription_iff s seen in
    let rest = check_subscriptions_iff ss (s.id ∷ seen) in
    (
      λ h.
          let (h0, h1) = both.0 (sym (check_subscriptions-cons s ss seen) ∙ h) in
          let (bounded, fresh) = first.0 h0 in
          let (all, distinct) = rest.0 h1 in ((bounded, all), (fresh, distinct)),
      λ ((bounded, all), (fresh, distinct)).
          check_subscriptions-cons s ss seen
          ∙ both.1 (first.1 (bounded, fresh), rest.1 (all, distinct)),
    )

-- `validate` accepts a set of subscriptions exactly where it holds at most `max_subscriptions`, the
-- IDs are distinct, and each subscription has an ID that is not empty and between one pattern and
-- `max_patterns_per_subscription`, none of them the zero pattern.
pub validate_iff :
    (ss : List Subscription)
    → (validate ss ≡ ok tt)
      ↔ ((length ss ≤ max_subscriptions) × (All IsBounded ss × IsDistinct [] ss))
unfolding validate
validate_iff ss = (
  λ h. (ground arith, (check_subscriptions_iff ss []).0 (ground arith)),
  λ (few, h). ground (arith, (check_subscriptions_iff ss []).1 h),
)
