-- ===== src/Filter/BitTrie/Prefix.antt =====
-- The path of a bit pattern prunes no match: a tag that passes the whole bit test has the leading
-- masked bits of the pattern's value.
use tagstrak.Common.{
  ℕ, suc, ◌+◌, ◌-◌, ◌*◌, ◌/◌, ◌%◌, ◌≤◌, ◌<◌, ◌≡◌, refl, sym, ap, ◌∙◌, arith, true, [], ◌∷◌, Bytes,
  IsBytes, length, take, ◌==◌, ==_iff, Bool-cases, inl, inr, bit_and, ◌⊎◌, agree_below,
  agree_below→eq, ok, subst,
}
use tagstrak.Identity.Pattern.{BitPattern, new_bit_pattern, masked_equal, bit_match}
use tagstrak.Filter.Entry.{Entry}
use tagstrak.Filter.BitTrie.{
  BitEntry, leading_zeros8, leading_ones, high_mask, bit_entry, rem_passes,
}
use tagstrak.Filter.BitTrie.Lookup.{reach}

-- Masking by a byte and then by its leading ones is masking by those. The byte and the mask are the
-- two digits of one number.
abbrev twice_masked : ℕ → ℕ
twice_masked x = bit_and (bit_and (x % 256) (x / 256)) (high_mask (leading_zeros8 (255 - x / 256)))

abbrev once_masked : ℕ → ℕ
once_masked x = bit_and (x % 256) (high_mask (leading_zeros8 (255 - x / 256)))

mask_table : (x : ℕ) → x < 65536 → twice_masked x ≡ once_masked x
unfolding agree_below leading_zeros8
mask_table x h = agree_below→eq twice_masked once_masked 65536 x refl h

mask_leading :
    (b m : ℕ)
    → b < 256
    → m < 256
    → bit_and (bit_and b m) (high_mask (leading_zeros8 (255 - m)))
      ≡ bit_and b (high_mask (leading_zeros8 (255 - m)))
mask_leading b m hb hm =
    let low : (m * 256 + b) % 256 ≡ b = omega arith in
    let high : (m * 256 + b) / 256 ≡ m = omega arith in
    rw (low, high) at (mask_table (m * 256 + b) (omega arith))

all_ones : (b : ℕ) → b < 256 → bit_and b 255 ≡ b
unfolding agree_below
all_ones b h = agree_below→eq (λ x. bit_and x 255) (λ x. x) 256 b refl h

leading_zeros8-lt : (x : ℕ) → 0 < x → leading_zeros8 x < 8
unfolding leading_zeros8
leading_zeros8-lt x h = ground arith

leading_ones-shift : (n : ℕ) (mask : Bytes) → leading_ones n mask ≡ n + leading_ones 0 mask
unfolding leading_ones
leading_ones-shift n [] = omega arith
leading_ones-shift n (b ∷ mask) =
    ground (arith, leading_ones-shift (n + 8) mask, leading_ones-shift (0 + 8) mask)

bit_entry-shift :
    (e : Entry) (n v : ℕ) (vs : Bytes) → bit_entry e (8 + n) (v ∷ vs) ≡ bit_entry e n vs
unfolding bit_entry
bit_entry-shift e n v vs =
    let digit : (8 + n) % 8 ≡ n % 8 = omega arith in
    let next : (8 + n) / 8 ≡ suc (n / 8) = omega arith in rw (digit, next)

-- The first byte of the mask that is not all ones ends the path.
leading_equal :
    (m b v : ℕ)
    → b < 256
    → v < 256
    → m < 255
    → (m ≡ 0) ⊎ (bit_and b m ≡ bit_and v m)
    → (leading_zeros8 (255 - m) ≡ 0)
      ⊎ (bit_and b (high_mask (leading_zeros8 (255 - m)))
          ≡ bit_and v (high_mask (leading_zeros8 (255 - m))))
leading_equal m b v hb hv hm (inl none_masked) = inl (unfold leading_zeros8 in rw none_masked refl)
leading_equal m b v hb hv hm (inr equal) = inr (
    sym (mask_leading b m hb (omega arith))
    ∙ ap (λ x. bit_and x (high_mask (leading_zeros8 (255 - m)))) equal
    ∙ mask_leading v m hv (omega arith))

reach_partial :
    (k b v : ℕ) (e : Entry) (bits vs : Bytes)
    → k < 8
    → (k ≡ 0) ⊎ (bit_and b (high_mask k) ≡ bit_and v (high_mask k))
    → reach (take (k / 8) (v ∷ vs)) (bit_entry e k (v ∷ vs)) (b ∷ bits) ≡ true
unfolding bit_entry rem_passes reach
reach_partial k b v e bits vs hk h =
    let whole : k / 8 ≡ 0 = omega arith in
    let part : k % 8 ≡ k = omega arith in rw (whole, part) (ground (arith, h))

reach-cons :
    (v b : ℕ) (path : Bytes) (e : BitEntry) (bits : Bytes)
    → v ≡ b
    → reach path e bits ≡ true
    → reach (v ∷ path) e (b ∷ bits) ≡ true
unfolding reach
reach-cons v b path e bits same h = ground (arith, same, h)

masked_equal-cons :
    (m b v : ℕ) (ms bits vs : Bytes)
    → masked_equal (m ∷ ms) (b ∷ bits) (v ∷ vs) ≡ true
    → ((m ≡ 0) ⊎ (bit_and b m ≡ bit_and v m)) × (masked_equal ms bits vs ≡ true)
unfolding masked_equal
masked_equal-cons m b v ms bits vs h = elim (Bool-cases (m == 0)) [
  | inl none_masked ↦ (inl ((==_iff m 0).0 none_masked), rw none_masked at h)
  | inr masked ↦ elim (Bool-cases (bit_and b m == bit_and v m)) [
    | inl same ↦ (inr ((==_iff _ _).0 same), rw (masked, same) at h)
    | inr differs ↦ cc (rw (masked, differs) at h)
  ]
]

reach_masked :
    (mask value bits : Bytes) (e : Entry)
    → IsBytes mask
    → IsBytes value
    → IsBytes bits
    → length value ≡ length mask
    → length mask ≤ length bits
    → masked_equal mask bits value ≡ true
    → reach (take (leading_ones 0 mask / 8) value) (bit_entry e (leading_ones 0 mask) value) bits
      ≡ true
reach_masked [] value [] e hm hv hb h l eq = unfold leading_ones bit_entry rem_passes reach in refl
reach_masked [] value (b ∷ bits) e hm hv hb h l eq =
    unfold leading_ones bit_entry rem_passes reach in refl
reach_masked (m ∷ ms) [] bits e hm hv hb h l eq = absurd (omega arith)
reach_masked (m ∷ ms) (v ∷ vs) [] e hm hv hb h l eq = absurd (omega arith)
reach_masked (m ∷ ms) (v ∷ vs) (b ∷ bits) e (m_byte, ms_bytes) (v_byte, vs_bytes)
      (b_byte, bits_bytes) h l eq =
    let (equal, others) = masked_equal-cons m b v ms bits vs eq in
    let ih =
      reach_masked ms vs bits e ms_bytes vs_bytes bits_bytes (omega arith) (omega arith) others in
    elim (Bool-cases (m == 0xff)) [
      | inl full ↦
          let x = leading_ones 0 ms in
          let shifted : leading_ones 0 (m ∷ ms) ≡ 8 + x =
            unfold leading_ones in rw full (leading_ones-shift 8 ms) in
          let next : (8 + x) / 8 ≡ suc (x / 8) = omega arith in
          let same : v ≡ b = ground (arith, all_ones b b_byte, all_ones v v_byte) in
          rw (shifted, next, bit_entry-shift e x v vs) (reach-cons v b _ _ bits same ih)
      | inr other ↦
          let here : leading_ones 0 (m ∷ ms) ≡ leading_zeros8 (255 - m) =
            unfold leading_ones in rw other (omega arith) in
          rw here (
            reach_partial (leading_zeros8 (255 - m)) b v e bits vs
              (leading_zeros8-lt (255 - m) (ground arith))
              (leading_equal m b v b_byte v_byte (ground arith) equal))
    ]

-- What `NewBitPattern` and Go's byte slices guarantee.
pub record IsBitPattern (p : BitPattern) : Type 0 where
  pub value_bytes : IsBytes p.value
  pub mask_bytes : IsBytes p.mask
  pub one_length : length p.value ≡ length p.mask

-- A tag that passes the bit test is led to the entry by its own bytes.
pub reach-bit_match :
    (p : BitPattern) (e : Entry) (bits : Bytes) (bit_len : ℕ)
    → IsBitPattern p
    → IsBytes bits
    → bit_match p bits bit_len ≡ true
    → reach
        (take (leading_ones 0 p.mask / 8) p.value)
        (bit_entry e (leading_ones 0 p.mask) p.value)
        bits
      ≡ true
unfolding bit_match
reach-bit_match p e bits bit_len valid hb h =
    reach_masked p.mask p.value bits e valid.mask_bytes valid.value_bytes hb valid.one_length
      (ground arith) (ground arith)

-- What `NewBitPattern` builds from byte slices keeps the lengths of the value and the mask equal and
-- at least as long as the bits need, and its parts are those that it was given.
pub new_bit_pattern_ok :
    (value mask : Bytes) (bit_len : ℕ) {p : BitPattern}
    → IsBytes value
    → IsBytes mask
    → new_bit_pattern value mask bit_len ≡ ok p
    → IsBitPattern p
      × (p ≡ record { value = value; mask = mask; bit_len = bit_len })
      × (bit_len ≤ 8 * length value)
unfolding new_bit_pattern
new_bit_pattern_ok value mask bit_len {p} hv hm e =
    let lengths : length value ≡ length mask = ground arith in
    let built : record { value = value; mask = mask; bit_len = bit_len } ≡ p = ground arith in
    (
      subst IsBitPattern built (record { value_bytes = hv; mask_bytes = hm; one_length = lengths }),
      sym built,
      ground arith,
    )
