-- ===== src/Filter/Entry.antt =====
-- What the index holds of a pattern, and the confirmation of a candidate (internal/filter/index.go).
use tagstrak.Common.{ℕ, List, [], ◌∷◌, ◌++◌, Bytes, get_or, if◌then◌else◌}
use tagstrak.Identity.Pattern.{Pattern}
use tagstrak.Filter.Subscription.{Subject, matches}

-- `entry`; the rank is the subscription's position.
pub record Entry : Type 0 where
  pub rank : ℕ
  pub pattern : Pattern

-- `m.ids[rank]`; the ranks of the entries are all in range.
abbrev pub id_at : List Bytes → ℕ → Bytes
id_at ids rank = get_or ids rank []

-- `if matches(e.pattern, s) { dst = append(dst, m.ids[e.rank]) }`
unfoldable pub confirm : List Bytes → Subject → Entry → List Bytes → List Bytes
confirm ids s e dst = if matches e.pattern s then dst ++ id_at ids e.rank ∷ [] else dst

-- The loop over a node's entries, and over the residual list.
unfoldable pub confirm_all : List Bytes → Subject → List Entry → List Bytes → List Bytes
unfolding confirm
confirm_all ids s [] dst = dst
confirm_all ids s (e ∷ es) dst = confirm_all ids s es (confirm ids s e dst)
