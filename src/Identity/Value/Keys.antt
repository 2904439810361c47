-- ===== src/Identity/Value/Keys.antt =====
-- The map key of a value determines it, and `Equal` decides equality.
use tagstrak.Common.{
  ℕ, zero, suc, ◌+◌, ◌-◌, ◌*◌, ◌/◌, ◌%◌, ◌<◌, ◌≡◌, ◌↔◌, refl, sym, ap, ◌∙◌, arith, true, List, [],
  ◌∷◌, ◌++◌, Bytes, length, take, drop, take-append, drop-append, ltb, ◌==◌, if◌then◌else◌,
  Bool-cases, inl, inr, bytes_eq, bytes_eq_iff,
}
use tagstrak.Identity.Names.{
  name_code, name_code-injective, authority_code-injective, key_code-injective, authority_code,
  key_code,
}
use tagstrak.Identity.Value.{
  Component, Value, component_eq, components_eq, equal, itoa_loop, key_fields, key,
}

-- The value of the digits up to the first colon, and what stands behind it.
read_length : ℕ → Bytes → ℕ × Bytes
read_length n [] = (n, [])
read_length n (c ∷ s) =
    let rest = read_length (n * 10 + (c - b'0')) s in if c == b':' then (n, s) else rest

read_length-digit :
    (n d : ℕ) (out : Bytes)
    → d < 10
    → read_length n ((b'0' + d) ∷ out) ≡ read_length (n * 10 + d) out
unfolding read_length
read_length-digit n d out h = ground arith

read_length-itoa_loop :
    (fuel n : ℕ) (out : Bytes) → n < fuel → read_length 0 (itoa_loop fuel n out) ≡ read_length n out
unfolding itoa_loop
read_length-itoa_loop zero n out h = absurd (omega arith)
read_length-itoa_loop (suc fuel) n out h = elim (Bool-cases (ltb n 10)) [
  | inl small ↦
      rw small
        (read_length-digit 0 n out (ground arith) ∙ ap (λ m. read_length m out) (omega arith))
  | inr large ↦ rw large (
      read_length-itoa_loop fuel (n / 10) ((b'0' + n % 10) ∷ out) (ground arith)
      ∙ read_length-digit (n / 10) (n % 10) out (omega arith)
      ∙ ap (λ m. read_length m out) (omega arith))
]

itoa_loop-injective :
    (m n : ℕ) (xs ys : Bytes)
    → itoa_loop (suc m) m (b':' ∷ xs) ≡ itoa_loop (suc n) n (b':' ∷ ys)
    → (m ≡ n) × (xs ≡ ys)
itoa_loop-injective m n xs ys e =
    let same : read_length m (b':' ∷ xs) ≡ read_length n (b':' ∷ ys) =
      sym (read_length-itoa_loop (suc m) m (b':' ∷ xs) (omega arith))
      ∙ ap (read_length 0) e
      ∙ read_length-itoa_loop (suc n) n (b':' ∷ ys) (omega arith) in
    unfold read_length in (ap (λ p. p.0) same, ap (λ p. p.1) same)

append-injective :
    (xs ys us vs : Bytes) → length xs ≡ length ys → xs ++ us ≡ ys ++ vs → (xs ≡ ys) × (us ≡ vs)
append-injective xs ys us vs h e = (
  sym (take-append (length ys) xs us h)
      ∙ ap (take (length ys)) e
      ∙ take-append (length ys) ys vs refl,
  sym (drop-append (length ys) xs us h)
      ∙ ap (drop (length ys)) e
      ∙ drop-append (length ys) ys vs refl,
)

key_fields-injective : (cs ds : List Component) → key_fields cs ≡ key_fields ds → cs ≡ ds
unfolding key_fields
key_fields-injective [] [] e = refl
key_fields-injective [] (d ∷ ds) e = cc
key_fields-injective (c ∷ cs) [] e = cc
key_fields-injective (c ∷ cs) (d ∷ ds) e =
    let names : name_code c.name ≡ name_code d.name = cc in
    let lengths : itoa_loop (suc (length c.value)) (length c.value)
          (b':' ∷ (c.value ++ key_fields cs))
        ≡ itoa_loop (suc (length d.value)) (length d.value) (b':' ∷ (d.value ++ key_fields ds)) =
      cc in
    let (one, behind) = itoa_loop-injective (length c.value) (length d.value) _ _ lengths in
    let (values, others) = append-injective c.value d.value _ _ one behind in
    cc (name_code-injective c.name d.name names, values, key_fields-injective cs ds others)

component_eq_iff : (a b : Component) → (component_eq a b ≡ true) ↔ (a ≡ b)
unfolding component_eq
component_eq_iff a b = (
  λ h.
      let names : name_code a.name ≡ name_code b.name = ground arith in
      let values : bytes_eq a.value b.value ≡ true = ground arith in
      cc (name_code-injective a.name b.name names, (bytes_eq_iff a.value b.value).0 values),
  λ h. rw h (ground (arith, (bytes_eq_iff b.value b.value).1 refl)),
)

components_eq_iff :
    (as' bs : List Component) → length as' ≡ length bs → (components_eq as' bs ≡ true) ↔ (as' ≡ bs)
unfolding components_eq
components_eq_iff [] [] h = (λ e. refl, λ e. refl)
components_eq_iff [] (b ∷ bs) h = absurd (omega arith)
components_eq_iff (a ∷ as') [] h = absurd (omega arith)
components_eq_iff (a ∷ as') (b ∷ bs) h =
    ground (arith, component_eq_iff a b, components_eq_iff as' bs (omega arith))

-- `Equal` answers true exactly on equal values.
equal_iff : (v w : Value) → (equal v w ≡ true) ↔ (v ≡ w)
unfolding equal
equal_iff v w = (
  λ h.
      let authorities : authority_code v.authority ≡ authority_code w.authority = ground arith in
      let keys : key_code v.key_type ≡ key_code w.key_type = ground arith in
      let lengths : length v.components ≡ length w.components = ground arith in
      let components : components_eq v.components w.components ≡ true = ground arith in
      cc (
        authority_code-injective v.authority w.authority authorities,
        key_code-injective v.key_type w.key_type keys,
        (components_eq_iff v.components w.components lengths).0 components,
      ),
  λ h. rw h (ground (arith, (components_eq_iff w.components w.components refl).1 refl)),
)

-- Key equality and `Equal` always agree: two values have one map key exactly if `Equal` answers true
-- on them, whatever bytes their components hold.
pub key-equal : (v w : Value) → (key v ≡ key w) ↔ (equal v w ≡ true)
unfolding key
key-equal v w = (
  λ e. (equal_iff v w).1 (
      cc (
        ap (λ k. k.authority) e,
        ap (λ k. k.key_type) e,
        key_fields-injective v.components w.components (ap (λ k. k.fields) e),
      )),
  λ h. ap key ((equal_iff v w).0 h),
)
