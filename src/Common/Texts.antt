-- ===== src/Common/Texts.antt =====
-- Comparison of byte strings, the decimal form of a number, and `strconv.ParseUint`.
use Prim.Native.Char.{code}
use Prim.Native.String.{String}
use Prim.Native.Nat.{ℕ, ◌+◌, ◌-◌, ◌*◌, ◌^◌}
use mathlib.Core.Path.{◌≡◌, refl}
use mathlib.Core.Logic.{◌↔◌}
use mathlib.Core.Bool.{Bool, true, false, ◌&&◌, ◌||◌}
use mathlib.Core.Option.{Option, none, some}
use mathlib.Core.List.{[], ◌∷◌}
use native.Mathlib.Omega.{arith}
use tagstrak.Common.Tests.{◌==◌, ltb, if◌then◌else◌}
use tagstrak.Common.Words.{Bytes}

-- The bytes of an ASCII text
abbrev pub codes : String → Bytes
codes String.[] = []
codes (String.◌∷◌ c s) = code c ∷ codes s

-- `==` on strings and on byte slices
unfoldable pub bytes_eq : Bytes → Bytes → Bool
bytes_eq [] [] = true
bytes_eq [] (b ∷ bs) = false
bytes_eq (a ∷ as') [] = false
bytes_eq (a ∷ as') (b ∷ bs) = a == b && bytes_eq as' bs

pub bytes_eq_iff : (xs ys : Bytes) → (bytes_eq xs ys ≡ true) ↔ (xs ≡ ys)
unfolding bytes_eq
bytes_eq_iff [] [] = (λ h. refl, λ h. refl)
bytes_eq_iff [] (b ∷ bs) = (λ h. cc, λ h. cc)
bytes_eq_iff (a ∷ as') [] = (λ h. cc, λ h. cc)
bytes_eq_iff (a ∷ as') (b ∷ bs) = ground (arith, bytes_eq_iff as' bs)

pub bytes_eq_refl : (xs : Bytes) → bytes_eq xs xs ≡ true
bytes_eq_refl xs = (bytes_eq_iff xs xs).1 refl

-- `strconv.ParseUint(s, 10, 64)` on the digits that are left: any other byte, and a value above the
-- largest uint64, are errors.
scan_uint : ℕ → Bytes → Option ℕ
scan_uint n [] = some n
scan_uint n (c ∷ s) =
    let rest = scan_uint (n * 10 + (c - b'0')) s in
    if ltb c b'0' || ltb b'9' c
    then none
    else if ltb (2 ^ 64 - 1) (n * 10 + (c - b'0'))
    then none
    else rest

unfoldable pub parse_uint : Bytes → Option ℕ
unfolding scan_uint
parse_uint [] = none
parse_uint (c ∷ s) = scan_uint 0 (c ∷ s)
