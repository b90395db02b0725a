-- ===== src/Field/Reduction.antt =====
-- Montgomery reduction: `montgomery_mul_scalar` and `montgomery_mul` compute lhs * rhs / 2^32
-- modulo the modulus, with no overflow lost.
use emvp_thesis.Base.{
  ℕ, ◌+◌, ◌-◌, ◌*◌, ◌/◌, ◌%◌, ◌^◌, ◌≤◌, ◌<◌, ◌≡◌, sym, ap, ◌∙◌, arith, ltb, leb, ltb→lt, Bool-cases,
  inl, inr, false, if◌then◌else◌,
}
use emvp_thesis.Base.Modular.{mod-eq_of_multiples}
use emvp_thesis.Field.{
  reduce_once_u64, calculate_montgomery_neg_inv, montgomery_mul_scalar, montgomery_mul,
}
use emvp_thesis.Field.Inverse.{neg_inv_lem}
use native.Mathlib.Nat.{div-add-mod, mod-eq_of_lt}

-- What the program asserts of its modulus, less primality: odd and a u32.
pub record IsModulus (p : ℕ) : Type 0 where
  pub odd : p % 2 ≡ 1
  pub fits : p < 2 ^ 32
  pub above_two : 2 < p

-- One conditional subtraction, with the borrow as a mask.
pub reduce_once_lem :
    (value p : ℕ)
    → 0 < p
    → p < 2 ^ 63
    → value < 2 * p
    → reduce_once_u64 value p ≡ (if ltb value p then value else value - p)
unfolding reduce_once_u64
reduce_once_lem value p pos fits h = ground arith

-- The adjustment makes the low word of the sum zero.
redc_divides :
    (t v p : ℕ) → (p * v + 1) % 2 ^ 32 ≡ 0 → (t + (t % 2 ^ 32 * v) % 2 ^ 32 * p) % 2 ^ 32 ≡ 0
redc_divides t v p h = mod-eq_of_multiples (2 ^ 32) (t + m * p) 0 (q * p) (t / 2 ^ 32 + r * c) (
    omega (
      arith,
      ap (λ (n : ℕ). n * p) (div-add-mod (r * v) (2 ^ 32)),
      div-add-mod t (2 ^ 32),
      ap (λ (n : ℕ). r * n) exact,
    ))
  where
    r : ℕ
    r = t % 2 ^ 32

    m : ℕ
    m = (r * v) % 2 ^ 32

    q : ℕ
    q = (r * v) / 2 ^ 32

    c : ℕ
    c = (p * v + 1) / 2 ^ 32

    exact : 2 ^ 32 * c ≡ p * v + 1
    exact = omega (arith, div-add-mod (p * v + 1) (2 ^ 32), h)

-- The sum's high part, below twice the modulus, and the sum it stands for.
pub record IsQuotient (p t u : ℕ) : Type 0 where
  pub small : u < 2 * p
  pub exact : (u * 2 ^ 32) % p ≡ t % p

quotient_lem :
    (t v p : ℕ)
    → (p * v + 1) % 2 ^ 32 ≡ 0
    → t < 2 ^ 32 * p
    → IsQuotient p t ((t + (t % 2 ^ 32 * v) % 2 ^ 32 * p) / 2 ^ 32)
quotient_lem t v p h bound = record {
  small = omega (arith, whole, product_bound);
  exact = mod-eq_of_multiples p (u * 2 ^ 32) t 0 m (omega (arith, whole));
}
  where
    m : ℕ
    m = (t % 2 ^ 32 * v) % 2 ^ 32

    u : ℕ
    u = (t + m * p) / 2 ^ 32

    whole : u * 2 ^ 32 ≡ t + m * p
    whole = omega (arith, div-add-mod (t + m * p) (2 ^ 32), redc_divides t v p h)

    product_bound : m * p ≤ 2 ^ 32 * p
    product_bound = grind arith

-- The 33-bit high part of a 65-bit sum, from its wrapped low 64 bits and the carry.
high_part :
    (x : ℕ)
    → x < 2 ^ 65
    → (x % 2 ^ 64) / 2 ^ 32 + (if leb (2 ^ 64) x then 2 ^ 32 else 0) ≡ x / 2 ^ 32
high_part x h = ground arith

-- One conditional subtraction gives the residue.
reduce_quotient :
    (p t u : ℕ)
    → IsModulus p
    → IsQuotient p t u
    → (reduce_once_u64 u p % 2 ^ 32 < p) × ((reduce_once_u64 u p % 2 ^ 32 * 2 ^ 32) % p ≡ t % p)
reduce_quotient p t u m q = elim (Bool-cases (ltb u p)) [
  | inl less ↦
      rw
        (
          reduce_once_lem u p (omega arith) (omega arith) q.small,
          less,
          mod-eq_of_lt (word u (ltb→lt u p less)),
        )
        (ltb→lt u p less, q.exact)
  | inr more ↦
      rw
        (
          reduce_once_lem u p (omega arith) (omega arith) q.small,
          more,
          mod-eq_of_lt (word (u - p) (below (not_less more))),
        )
        (
          below (not_less more),
          mod-eq_of_multiples p ((u - p) * 2 ^ 32) (u * 2 ^ 32) (2 ^ 32) 0
                (omega (arith, not_less more))
              ∙ q.exact,
        )
]
  where
    word : (x : ℕ) → x < p → x < 2 ^ 32
    word x h = omega arith

    not_less : ltb u p ≡ false → p ≤ u
    not_less h = ground arith

    below : p ≤ u → u - p < p
    below h = omega arith

-- The product of two words whose second is a residue stays below 2^32 * p.
pub product_bound : (p lhs rhs : ℕ) → lhs < 2 ^ 32 → rhs < p → lhs * rhs < 2 ^ 32 * p
product_bound p lhs rhs hl hr = grind arith

-- The carry is seen by comparing the wrapped sum with the product.
carry_by_order :
    (t a : ℕ)
    → t < 2 ^ 64
    → a < 2 ^ 64
    → (if ltb ((t + a) % 2 ^ 64) t then 1 else 0) * 2 ^ 32
      ≡ (if leb (2 ^ 64) (t + a) then 2 ^ 32 else 0)
carry_by_order t a ht ha = ground arith

final_subtraction :
    (u p : ℕ)
    → 0 < p
    → p < 2 ^ 32
    → u < 2 * p
    → (u + 2 ^ 64 - (if leb p u then 1 else 0) * p) % 2 ^ 64 % 2 ^ 32 ≡ reduce_once_u64 u p % 2 ^ 32
unfolding reduce_once_u64
final_subtraction u p pos fits h = ground arith

word_product : (a b : ℕ) → a < 2 ^ 32 → b < 2 ^ 32 → a * b < 2 ^ 64
word_product a b ha hb = grind arith

module _ (p lhs rhs : ℕ) (m : IsModulus p) (hl : lhs < 2 ^ 32) (hr : rhs < p) where
  mul-IsQuotient :
      IsQuotient p
        (lhs * rhs)
        ((lhs * rhs + (lhs * rhs % 2 ^ 32 * calculate_montgomery_neg_inv p) % 2 ^ 32 * p) / 2 ^ 32)
  mul-IsQuotient =
      quotient_lem (lhs * rhs) (calculate_montgomery_neg_inv p) p (neg_inv_lem p m.odd)
        (product_bound p lhs rhs hl hr)

  adjusted_small : (lhs * rhs % 2 ^ 32 * calculate_montgomery_neg_inv p) % 2 ^ 32 * p < 2 ^ 64
  adjusted_small =
      word_product (lhs * rhs % 2 ^ 32 * calculate_montgomery_neg_inv p % 2 ^ 32) p (omega arith)
        m.fits

  sum_small :
      lhs * rhs + (lhs * rhs % 2 ^ 32 * calculate_montgomery_neg_inv p) % 2 ^ 32 * p < 2 ^ 65
  sum_small = omega (arith, adjusted_small, word_product lhs rhs hl (omega arith))

  -- For an odd modulus p with 2 < p < 2^32, a 32-bit word `lhs` and a residue `rhs` below p, the
  -- Montgomery product is below p, and 2^32 times it is congruent to lhs * rhs modulo p.
  pub montgomery_mul_scalar_lem :
      (montgomery_mul_scalar p lhs rhs < p)
      × ((montgomery_mul_scalar p lhs rhs * 2 ^ 32) % p ≡ (lhs * rhs) % p)
  unfolding montgomery_mul_scalar
  montgomery_mul_scalar_lem = rw (high_part _ sum_small) (reduce_quotient p _ _ m mul-IsQuotient)

  -- For an odd modulus p with 2 < p < 2^32, a 32-bit word `lhs` and a residue `rhs` below p, the two
  -- variants of the Montgomery product return the same word.
  pub montgomery_mul-eq-scalar : montgomery_mul p lhs rhs ≡ montgomery_mul_scalar p lhs rhs
  unfolding montgomery_mul montgomery_mul_scalar
  montgomery_mul-eq-scalar =
      rw
        (
          carry_by_order _ _ (word_product lhs rhs hl (omega arith)) adjusted_small,
          high_part _ sum_small,
        )
        (final_subtraction _ p (omega arith) m.fits mul-IsQuotient.small)

-- Below twice the modulus the conditional subtraction is the remainder.
pub reduce_once-eq-mod :
    (v p : ℕ) → 0 < p → p < 2 ^ 32 → v < 2 * p → reduce_once_u64 v p % 2 ^ 32 ≡ v % p
reduce_once-eq-mod v p pos fits h = elim (Bool-cases (ltb v p)) [
  | inl less ↦
      rw (reduce_once_lem v p pos (omega arith) h, less)
        (mod-eq_of_lt (small v (ltb→lt v p less)) ∙ sym (mod-eq_of_lt (ltb→lt v p less)))
  | inr more ↦
      rw (reduce_once_lem v p pos (omega arith) h, more)
        (mod-eq_of_lt (small (v - p) (omega (arith, not_less more)))
          ∙ sym (
              mod-eq_of_multiples p v (v - p) 0 1 (omega (arith, not_less more))
              ∙ mod-eq_of_lt (below more)))
]
  where
    small : (x : ℕ) → x < p → x < 2 ^ 32
    small x l = omega arith

    not_less : ltb v p ≡ false → p ≤ v
    not_less e = ground arith

    below : ltb v p ≡ false → v - p < p
    below e = omega (arith, not_less e)
