-- ===== src/Common/Words.antt =====
-- Bytes and big-endian words. A byte string, a Go string among them, is a list of numbers below 256.
use Prim.Native.Nat.{ℕ, zero, suc, ◌+◌, ◌*◌, ◌/◌, ◌%◌, ◌^◌, ◌<◌, bit_and, bit_or}
use mathlib.Core.Path.{◌≡◌, refl}
use mathlib.Core.Bool.{Bool, true, ◌&&◌}
use mathlib.Core.List.{List, [], ◌∷◌}
use native.Mathlib.Omega.{arith}
use tagstrak.Common.Tests.{◌==◌}
use tagstrak.Common.Lists.{All}

abbrev pub Bytes : Type 0
Bytes = List ℕ

abbrev pub IsByte : ℕ → Type 0
IsByte b = b < 256

abbrev pub IsBytes : Bytes → Type 0
IsBytes bs = All IsByte bs

abbrev pub IsU16 : ℕ → Type 0
IsU16 n = n < 2 ^ 16

abbrev pub IsU32 : ℕ → Type 0
IsU32 n = n < 2 ^ 32

-- `binary.BigEndian.PutUint16` and `PutUint32`
abbrev pub put_u16 : ℕ → Bytes
put_u16 n = (n / 256 % 256) ∷ (n % 256) ∷ []

abbrev pub put_u32 : ℕ → Bytes
put_u32 n = (n / 2 ^ 24 % 256) ∷ (n / 2 ^ 16 % 256) ∷ (n / 256 % 256) ∷ (n % 256) ∷ []

-- `binary.BigEndian.Uint16` and `Uint32` on a slice of 2 or 4 bytes
abbrev pub be_value : ℕ → Bytes → ℕ
be_value acc [] = acc
be_value acc (b ∷ bs) = be_value (acc * 256 + b) bs

abbrev pub be_uint : Bytes → ℕ
be_uint bs = be_value 0 bs

-- Over a small range, two functions agree if an evaluation says so.
module _ (f g : ℕ → ℕ) where
  unfoldable pub agree_below : ℕ → Bool
  agree_below zero = true
  agree_below (suc n) = (f n == g n) && agree_below n

  pub agree_below→eq : (n i : ℕ) → agree_below n ≡ true → i < n → f i ≡ g i
  unfolding agree_below
  agree_below→eq zero i e h = absurd (omega arith)
  agree_below→eq (suc n) i e h = ground (arith, agree_below→eq n i)

pub low_seven_bits : (b : ℕ) → b < 256 → bit_and b 0x7f ≡ b % 128
unfolding agree_below
low_seven_bits b = agree_below→eq (λ b. bit_and b 0x7f) (λ b. b % 128) 256 b refl

pub top_bit : (b : ℕ) → b < 256 → bit_and b 0x80 ≡ b / 128 * 128
unfolding agree_below
top_bit b = agree_below→eq (λ b. bit_and b 0x80) (λ b. b / 128 * 128) 256 b refl

pub set_top_bit : (b : ℕ) → b < 128 → bit_or 0x80 b ≡ 128 + b
unfolding agree_below
set_top_bit b = agree_below→eq (λ b. bit_or 0x80 b) (λ b. 128 + b) 128 b refl

pub low_ten_bits : (w : ℕ) → w < 65536 → bit_and w 0x03ff ≡ w % 1024
unfolding agree_below
low_ten_bits w = agree_below→eq (λ w. bit_and w 0x03ff) (λ w. w % 1024) 65536 w refl
