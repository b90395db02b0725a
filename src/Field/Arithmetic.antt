-- ===== src/Field/Arithmetic.antt =====
-- The operators of `FieldElement`: on canonical elements they compute with residues modulo p.
use emvp_thesis.Base.{
  ℕ, ◌+◌, ◌-◌, ◌*◌, ◌/◌, ◌%◌, ◌^◌, ◌<◌, ◌≡◌, refl, sym, ap, ◌∙◌, arith, ◌==◌, if◌then◌else◌,
}
use emvp_thesis.Base.Modular.{
  mod-eq_of_multiples, mul-mod_congr, add-mod_congr, mul-mod_cancel, eq_of_mod-eq,
}
use emvp_thesis.Field.{
  FieldElement, calculate_montgomery_neg_inv, montgomery_r2, to_montgomery, from_montgomery,
  add_canonical, sub_canonical, neg_canonical, from_u32, value, add, sub, mul, neg,
}
use emvp_thesis.Field.Inverse.{neg_inv_lem}
use emvp_thesis.Field.Reduction.{IsModulus, montgomery_mul_scalar_lem, reduce_once-eq-mod}
use native.Mathlib.Nat.{div-add-mod, mod-eq_of_lt, mod-lt, mod-mod}

abbrev pub IsCanonical : ℕ → FieldElement → Type 0
IsCanonical p x = x.montgomery < p

module _ (p : ℕ) (m : IsModulus p) where
  -- 2^32 has an inverse modulo p.
  r_inverse : ℕ
  r_inverse = (p * calculate_montgomery_neg_inv p + 1) / 2 ^ 32

  r_inverse_lem : (2 ^ 32 * r_inverse) % p ≡ 1 % p
  unfolding r_inverse
  r_inverse_lem = mod-eq_of_multiples p (2 ^ 32 * r_inverse) 1 0 (calculate_montgomery_neg_inv p) (
      omega
        (arith, div-add-mod (p * calculate_montgomery_neg_inv p + 1) (2 ^ 32), neg_inv_lem p m.odd))

  cancel_r : (a b : ℕ) → (a * 2 ^ 32) % p ≡ (b * 2 ^ 32) % p → a % p ≡ b % p
  cancel_r a b h = mul-mod_cancel p (2 ^ 32) r_inverse a b r_inverse_lem h

  from_montgomery_lem :
      (a : ℕ) → a < p → (from_montgomery p a < p) × ((from_montgomery p a * 2 ^ 32) % p ≡ a % p)
  unfolding from_montgomery
  from_montgomery_lem a h =
      let (small, exact) =
        montgomery_mul_scalar_lem p a 1 m (omega (arith, m.fits)) (omega (arith, m.above_two)) in
      (small, exact ∙ ap (λ (n : ℕ). n % p) (omega arith))

  -- The residue that a Montgomery word stands for is the only number below p with that image.
  from_montgomery_unique :
      (a n : ℕ) → a < p → (n * 2 ^ 32) % p ≡ a % p → from_montgomery p a ≡ n % p
  from_montgomery_unique a n h e =
      let (small, exact) = from_montgomery_lem a h in
      sym (mod-eq_of_lt small) ∙ cancel_r (from_montgomery p a) n (exact ∙ sym e)

  to_montgomery_lem :
      (v : ℕ) → v < 2 ^ 32 → (to_montgomery p v < p) × (to_montgomery p v % p ≡ (v * 2 ^ 32) % p)
  unfolding to_montgomery montgomery_r2
  to_montgomery_lem v h =
      let (small, exact) =
        montgomery_mul_scalar_lem p v (2 ^ 64 % p) m h
          (mod-lt (2 ^ 64) (omega (arith, m.above_two))) in
      (
        small,
        cancel_r (to_montgomery p v) (v * 2 ^ 32) (
            exact
            ∙ mul-mod_congr p v v (2 ^ 64 % p) (2 ^ 64) refl (mod-mod (2 ^ 64) p)
            ∙ ap (λ (n : ℕ). n % p) (omega arith)),
      )

  pub from_u32-IsCanonical : (v : ℕ) → v < 2 ^ 32 → IsCanonical p (from_u32 p v)
  unfolding from_u32
  from_u32-IsCanonical v h = (to_montgomery_lem v h).0

  -- For an odd modulus p with 2 < p < 2^32 and any 32-bit v, also one at or above p, the element made
  -- from v has the value v mod p.
  pub value-from_u32 : (v : ℕ) → v < 2 ^ 32 → value p (from_u32 p v) ≡ v % p
  unfolding value from_u32
  value-from_u32 v h =
      let (small, exact) = to_montgomery_lem v h in
      from_montgomery_unique (to_montgomery p v) v small (sym exact)

  pub value-lt : (x : FieldElement) → IsCanonical p x → value p x < p
  unfolding value
  value-lt x h = (from_montgomery_lem x.montgomery h).0

  value_image : (x : FieldElement) → IsCanonical p x → (value p x * 2 ^ 32) % p ≡ x.montgomery % p
  unfolding value
  value_image x h = (from_montgomery_lem x.montgomery h).1

  -- For an odd modulus p with 2 < p < 2^32, a canonical element is the element that is made from its
  -- value.
  pub from_u32-value : (x : FieldElement) → IsCanonical p x → from_u32 p (value p x) ≡ x
  unfolding from_u32
  from_u32-value x h =
      let v_small = value-lt x h in
      let (small, exact) = to_montgomery_lem (value p x) (omega (arith, m.fits, v_small)) in
      ap (λ (n : ℕ). let y : FieldElement = record { montgomery = n } in y)
        (eq_of_mod-eq p (to_montgomery p (value p x)) x.montgomery small h
          (exact ∙ value_image x h))

  module _ (x y : FieldElement) (hx : IsCanonical p x) (hy : IsCanonical p y) where
    add_word : (add p x y).montgomery ≡ (x.montgomery + y.montgomery) % p
    unfolding add add_canonical
    add_word =
        reduce_once-eq-mod (x.montgomery + y.montgomery) p (omega (arith, m.above_two)) m.fits
          (omega arith)

    sub_word : (sub p x y).montgomery ≡ (x.montgomery + p - y.montgomery) % p
    unfolding sub sub_canonical
    sub_word =
        reduce_once-eq-mod (x.montgomery + p - y.montgomery) p (omega (arith, m.above_two)) m.fits
          (omega arith)

    mul_word :
        (IsCanonical p (mul p x y))
        × (((mul p x y).montgomery * 2 ^ 32) % p ≡ (x.montgomery * y.montgomery) % p)
    unfolding mul
    mul_word = montgomery_mul_scalar_lem p x.montgomery y.montgomery m (omega (arith, m.fits)) hy

    pub add-IsCanonical : IsCanonical p (add p x y)
    add-IsCanonical = rw add_word (mod-lt _ (omega (arith, m.above_two)))

    pub sub-IsCanonical : IsCanonical p (sub p x y)
    sub-IsCanonical = rw sub_word (mod-lt _ (omega (arith, m.above_two)))

    pub mul-IsCanonical : IsCanonical p (mul p x y)
    mul-IsCanonical = mul_word.0

    -- For an odd modulus p with 2 < p < 2^32 and canonical x and y, the value of the sum is the sum of
    -- the values modulo p.
    pub value-add : value p (add p x y) ≡ (value p x + value p y) % p
    unfolding value
    value-add =
        from_montgomery_unique (add p x y).montgomery (value p x + value p y) add-IsCanonical (
          ap (λ (n : ℕ). n % p) (omega arith)
          ∙ add-mod_congr p (value p x * 2 ^ 32) x.montgomery (value p y * 2 ^ 32) y.montgomery
              (value_image x hx) (value_image y hy)
          ∙ sym (ap (λ (n : ℕ). n % p) add_word ∙ mod-mod _ p))

    -- For an odd modulus p with 2 < p < 2^32 and canonical x and y, the value of the difference plus
    -- the value of y is the value of x modulo p.
    pub value-sub : (value p (sub p x y) + value p y) % p ≡ value p x
    value-sub =
        cancel_r (value p (sub p x y) + value p y) (value p x) (
          ap (λ (n : ℕ). n % p) (omega arith)
          ∙ add-mod_congr p (value p (sub p x y) * 2 ^ 32) (x.montgomery + p - y.montgomery)
              (value p y * 2 ^ 32) y.montgomery
              (value_image (sub p x y) sub-IsCanonical
                ∙ ap (λ (n : ℕ). n % p) sub_word
                ∙ mod-mod _ p)
              (value_image y hy)
          ∙ mod-eq_of_multiples p (x.montgomery + p - y.montgomery + y.montgomery) x.montgomery 0 1
              (omega arith)
          ∙ sym (value_image x hx))
        ∙ mod-eq_of_lt (value-lt x hx)

    -- For an odd modulus p with 2 < p < 2^32 and canonical x and y, the value of the product is the
    -- product of the values modulo p.
    pub value-mul : value p (mul p x y) ≡ (value p x * value p y) % p
    unfolding value
    value-mul =
        from_montgomery_unique (mul p x y).montgomery (value p x * value p y) mul-IsCanonical (
          cancel_r (value p x * value p y * 2 ^ 32) (mul p x y).montgomery (
            ap (λ (n : ℕ). n % p) (omega arith)
            ∙ mul-mod_congr p (value p x * 2 ^ 32) x.montgomery (value p y * 2 ^ 32) y.montgomery
                (value_image x hx) (value_image y hy)
            ∙ sym mul_word.1))

  module _ (x : FieldElement) (hx : IsCanonical p x) where
    neg_word : (neg p x).montgomery + x.montgomery ≡ (if x.montgomery == 0 then 0 else p)
    unfolding neg neg_canonical
    neg_word = ground arith

    pub neg-IsCanonical : IsCanonical p (neg p x)
    unfolding neg neg_canonical
    neg-IsCanonical = ground arith

    -- For an odd modulus p with 2 < p < 2^32 and a canonical x, the values of the negation and of x
    -- add up to 0 modulo p.
    pub value-neg : (value p (neg p x) + value p x) % p ≡ 0
    value-neg =
        cancel_r (value p (neg p x) + value p x) 0 (
          ap (λ (n : ℕ). n % p) (omega arith)
          ∙ add-mod_congr p (value p (neg p x) * 2 ^ 32) (neg p x).montgomery (value p x * 2 ^ 32)
              x.montgomery (value_image (neg p x) neg-IsCanonical) (value_image x hx)
          ∙ mod-eq_of_multiples p ((neg p x).montgomery + x.montgomery) (0 * 2 ^ 32) 0
              (if x.montgomery == 0 then 0 else 1) (ground (arith, neg_word)))
        ∙ mod-eq_of_lt (omega (arith, m.above_two))

  -- For an odd modulus p with 2 < p < 2^32 and canonical x and y: the value of the sum is the sum of the
  -- values modulo p, that of the product is their product modulo p, the value of the difference and that
  -- of y add up to the value of x modulo p, and the values of the negation of x and of x add up to 0.
  pub operators_value :
      (x y : FieldElement)
      → IsCanonical p x
      → IsCanonical p y
      → (value p (add p x y) ≡ (value p x + value p y) % p)
        × (value p (mul p x y) ≡ (value p x * value p y) % p)
        × ((value p (sub p x y) + value p y) % p ≡ value p x)
        × ((value p (neg p x) + value p x) % p ≡ 0)
  operators_value x y hx hy =
      (value-add x y hx hy, value-mul x y hx hy, value-sub x y hx hy, value-neg x hx)

  -- For an odd modulus p with 2 < p < 2^32: the element made from any 32-bit v, also one at or above p,
  -- has the value v mod p, and a canonical element is the one that is made from its value.
  pub conversions_value :
      (v : ℕ) (x : FieldElement)
      → v < 2 ^ 32
      → IsCanonical p x
      → (value p (from_u32 p v) ≡ v % p) × (from_u32 p (value p x) ≡ x)
  conversions_value v x hv hx = (value-from_u32 v hv, from_u32-value x hx)
