-- ===== src/Filter/Linear.antt =====
-- The linear matcher (internal/filter/linear.go), the reference for all others.
pub mod Ranks
use tagstrak.Common.{
  Bool, true, false, List, [], ◌∷◌, ◌++◌, Bytes, Result, if◌then◌else◌, ◌>>=◌, ◌>>◌, ok,
}
use tagstrak.Filter.Subscription.{Subscription, Subject, Error, any_match, validate}

pub record Linear : Type 0 where
  pub subscriptions : List Subscription

-- `compileLinear`
unfoldable pub compile_linear : List Subscription → Result Error Linear
unfolding validate
compile_linear subscriptions = do
  validate subscriptions
  ok (record { subscriptions = subscriptions })

match_loop : List Subscription → Subject → List Bytes → List Bytes
unfolding any_match
match_loop [] s dst = dst
match_loop (sub ∷ subs) s dst =
    match_loop subs s (if any_match sub.patterns s then dst ++ sub.id ∷ [] else dst)

-- `linear.Match`
unfoldable pub match_linear : Linear → Subject → List Bytes → List Bytes
unfolding match_loop
match_linear m s dst = match_loop m.subscriptions s dst
