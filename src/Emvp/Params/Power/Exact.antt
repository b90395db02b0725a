-- ===== src/Emvp/Params/Power/Exact.antt =====
-- The comparison of a scaled power with a power of two is exact.
use emvp_thesis.Base.{
  ℕ, zero, suc, ◌+◌, ◌-◌, ◌*◌, ◌/◌, ◌^◌, ◌<◌, ◌≤◌, ◌≡◌, refl, ap, sym, ◌∙◌, List, [], ◌∷◌, true,
  false, ltb, leb, ◌==◌, ◌&&◌, if◌then◌else◌, length, arith, inl, inr, Bool-cases, zero_cases,
  lt→leb, le→leb, ltb→lt, lt→ltb, leb→le, le→ltb, pos→==_zero,
}
use emvp_thesis.Base.Powers.{pow-add, pow-mul, HasDigits}
use emvp_thesis.Emvp.Params.Power.{
  bit_length, exact_bit_length, mul_limbs, power_loop, scaled_pow_ge_pow2, saturating_add,
  saturating_mul, pow_max_lambda,
}
use emvp_thesis.Emvp.Params.Power.Limbs.{
  number, IsNormal, exact_bits, bit_length-HasDigits, mul_limbs-IsNormal, mul_limbs_grown,
  mul_limbs_overflow,
}
use native.Mathlib.Nat.{
  pow-zero, pow-succ', one-le-pow, pow-le-pow_left, pow-le-pow_right, mul-le-mul, mul-le-mul_left,
  mul_assoc,
}

-- A number of n digits reaches the power of two exactly when the exponent is below n.
digits-reach : (n d lambda : ℕ) → HasDigits n d → ltb lambda d ≡ leb (2 ^ lambda) n
digits-reach n d lambda h = elim (Bool-cases (ltb lambda d)) [
  | inl below ↦ rw below (sym (le→leb _ _ (reached below)))
  | inr above ↦ rw above (sym (lt→leb _ _ (missed above)))
]
  where
    reached : ltb lambda d ≡ true → 2 ^ lambda ≤ n
    reached e = omega (
      arith,
      h.low,
      pow-le-pow_right {n = 2} (omega arith) {i = lambda} {j = h.below}
          (omega (arith, ltb→lt lambda d e, h.count)),
    )

    missed : ltb lambda d ≡ false → n < 2 ^ lambda
    missed e = omega (
      arith,
      h.high,
      pow-le-pow_right {n = 2} (omega arith) {i = suc h.below} {j = lambda}
          (ground (arith, h.count)),
    )

scaled_power : (i j r : ℕ) → 2 ^ (i + j * r) ≡ 2 ^ i * (2 ^ j) ^ r
scaled_power i j r = pow-add 2 i (j * r) ∙ ap (λ (t : ℕ). 2 ^ i * t) (pow-mul 2 j r)

one-pow : (n : ℕ) → 1 ^ n ≡ 1
one-pow zero = pow-zero 1
one-pow (suc n) = pow-succ' 1 n ∙ omega (arith, one-pow n)

module _ (base lambda : ℕ) (word : base < 2 ^ 64) (two : 2 ≤ base)
    (small : lambda ≤ pow_max_lambda) where
  base_digits : HasDigits base (bit_length base)
  base_digits = bit_length-HasDigits base (omega arith) word

  lower : bit_length base - 1 ≡ base_digits.below
  lower = omega (arith, base_digits.count)

  -- The lower bound of the product decides it.
  low_sound :
      (n d remaining : ℕ)
      → HasDigits n d
      → leb lambda (saturating_add (d - 1) (saturating_mul (bit_length base - 1) remaining)) ≡ true
      → 2 ^ lambda ≤ n * base ^ remaining
  low_sound n d remaining h e = omega (
    arith,
    pow-le-pow_right {n = 2} (omega arith) {i = lambda}
        {j = h.below + base_digits.below * remaining} exponents,
    scaled_power h.below base_digits.below remaining,
    mul-le-mul h.low (pow-le-pow_left base_digits.low remaining),
  )
    where
      exponents : lambda ≤ h.below + base_digits.below * remaining
      exponents = omega (arith, leb→le _ _ e, h.count, ap (λ (t : ℕ). t * remaining) lower)

  high_sound :
      (n d remaining : ℕ)
      → HasDigits n d
      → leb (saturating_add (d - 1 + 1) (saturating_mul (bit_length base) remaining)) lambda ≡ true
      → n * base ^ remaining < 2 ^ lambda
  high_sound n d remaining h e = omega (
    arith,
    pow-le-pow_right {n = 2} (omega arith) {i = suc h.below + suc base_digits.below * remaining}
        {j = lambda} exponents,
    scaled_power (suc h.below) (suc base_digits.below) remaining,
    mul-le-mul {n₁ = suc n} h.high (
        pow-le-pow_left {n = base} {m = 2 ^ suc base_digits.below} (omega (arith, base_digits.high))
          remaining),
    one-le-pow remaining base (omega arith),
  )
    where
      exponents : suc h.below + suc base_digits.below * remaining ≤ lambda
      exponents =
          omega (arith, leb→le _ _ e, h.count, ap (λ (t : ℕ). t * remaining) base_digits.count)

  next_power : (n m r : ℕ) → m ≡ n * base → m * base ^ r ≡ n * base ^ suc r
  next_power n m r e =
      ap (λ (t : ℕ). t * base ^ r) e
      ∙ mul_assoc n base (base ^ r)
      ∙ ap (λ (t : ℕ). n * t) (sym (pow-succ' base r))

  overflowed :
      (remaining limbs : ℕ) (value : List ℕ)
      → lambda ≤ limbs * 64
      → 0 < (mul_limbs base 0 value).1
      → (length value == limbs) ≡ true
      → 2 ^ lambda ≤ number value * base ^ suc remaining
  overflowed remaining limbs value fits carried full = omega (
    arith,
    pow-le-pow_right {n = 2} (omega arith) {i = lambda} {j = length value * 64} (ground arith),
    mul_limbs_overflow base value carried,
    mul-le-mul_left {m = 1} {n = base ^ remaining} (number value * base)
        (one-le-pow remaining base (omega arith)),
    next_power (number value) (number value * base) remaining refl,
  )

  power_loop_exact :
      (limbs remaining : ℕ) (value : List ℕ)
      → lambda ≤ limbs * 64
      → IsNormal value
      → power_loop base lambda limbs remaining value
        ≡ leb (2 ^ lambda) (number value * base ^ remaining)
  unfolding power_loop
  power_loop_exact limbs zero value fits h =
      digits-reach (number value) (exact_bit_length value) lambda (exact_bits value h)
      ∙ ap (λ n. leb (2 ^ lambda) n)
          (omega (arith, ap (λ (t : ℕ). number value * t) (pow-zero base)))
  power_loop_exact limbs (suc remaining) value fits h =
      elim (Bool-cases
        (leb lambda (saturating_add lo (saturating_mul (bit_length base - 1) (suc remaining))))) [
          | inl reached ↦
              rw (reached, power_loop) (sym (le→leb _ _ (low_sound _ _ _ digits reached)))
          | inr open_low ↦
              elim (Bool-cases (
                leb (saturating_add (lo + 1) (saturating_mul (bit_length base) (suc remaining)))
                  lambda)) [
                    | inl missed ↦
                        rw (open_low, missed, power_loop)
                          (sym (lt→leb _ _ (high_sound _ _ _ digits missed)))
                    | inr open_high ↦
                        rw (open_low, open_high, power_loop)
                          (elim (Bool-cases (ltb 0 (mul_limbs base 0 value).1)) [
                            | inr exact ↦
                                let kept =
                                  mul_limbs-IsNormal base value (omega arith) word h
                                    (ground arith) in
                                rw (exact, power_loop)
                                  (power_loop_exact limbs remaining (mul_limbs base 0 value).0 fits
                                      kept.0
                                    ∙ ap (λ n. leb (2 ^ lambda) n)
                                        (next_power _ _ remaining kept.1))
                            | inl carried ↦ elim (Bool-cases (length value == limbs)) [
                              | inl full ↦
                                  rw (carried, full, power_loop)
                                    (sym (
                                      le→leb _ _ (
                                        overflowed remaining limbs value fits (ltb→lt _ _ carried)
                                          full)))
                              | inr room ↦
                                  let grown =
                                    mul_limbs_grown base value word h (ltb→lt _ _ carried) in
                                  rw (carried, room, power_loop)
                                    (power_loop_exact limbs remaining _ fits grown.0
                                      ∙ ap (λ n. leb (2 ^ lambda) n)
                                          (next_power _ _ remaining grown.1))
                            ]
                          ])
                  ]
        ]
    where
      digits : HasDigits (number value) (exact_bit_length value)
      digits = exact_bits value h

      lo : ℕ
      lo = exact_bit_length value - 1

-- The test for bases below two, whose powers are 0 and 1.
small_base :
    (base exp factor lambda : ℕ)
    → base < 2
    → 0 < factor
    → factor < 2 ^ 64
    → (if (base == 0) && ltb 0 exp then false else ltb lambda (bit_length factor))
      ≡ leb (2 ^ lambda) (factor * base ^ exp)
small_base zero zero factor lambda hb pos hf =
    digits-reach factor (bit_length factor) lambda (bit_length-HasDigits factor pos hf)
    ∙ ap (λ n. leb (2 ^ lambda) n) (omega (arith, ap (λ (t : ℕ). factor * t) (pow-zero 0)))
small_base zero (suc exp) factor lambda hb pos hf = rw (lt→ltb 0 (suc exp) (omega arith)) (
    sym (
      lt→leb (2 ^ lambda) (factor * zero ^ suc exp) (
        omega (
          arith,
          ap (λ (t : ℕ). factor * t) (pow-succ' 0 exp),
          one-le-pow lambda 2 (omega arith),
        ))))
small_base (suc zero) exp factor lambda hb pos hf =
    digits-reach factor (bit_length factor) lambda (bit_length-HasDigits factor pos hf)
    ∙ ap (λ n. leb (2 ^ lambda) n) (omega (arith, ap (λ (t : ℕ). factor * t) (one-pow exp)))
small_base (suc (suc base)) exp factor lambda hb pos hf = absurd (omega arith)

single-IsNormal : (x : ℕ) → 0 < x → x < 2 ^ 64 → IsNormal (x ∷ [])
single-IsNormal x pos h = record { words = (h, tt); top_positive = pos }

-- For every base and factor of 64 bits, every exponent and every level of at least 1 and at most 4096, the
-- comparison answers true exactly when factor * base ^ exponent is at least 2 ^ level.
pub scaled_pow_ge_pow2_exact :
    (base exp factor lambda : ℕ)
    → base < 2 ^ 64
    → factor < 2 ^ 64
    → 0 < lambda
    → lambda ≤ pow_max_lambda
    → scaled_pow_ge_pow2 base exp factor lambda ≡ leb (2 ^ lambda) (factor * base ^ exp)
unfolding scaled_pow_ge_pow2
scaled_pow_ge_pow2_exact base exp factor lambda hb hf pos small =
    rw (pos→==_zero lambda pos, le→ltb pow_max_lambda lambda small)
      (elim (zero_cases factor) [
        | inl none ↦ rw none (
            sym (
              lt→leb (2 ^ lambda) (0 * base ^ exp)
                (omega (arith, one-le-pow lambda 2 (omega arith)))))
        | inr some ↦ rw (pos→==_zero factor some) (elim (Bool-cases (ltb base 2)) [
          | inl narrow ↦ rw narrow (small_base base exp factor lambda (ltb→lt _ _ narrow) some hf)
          | inr wide ↦ rw wide (
              power_loop_exact base lambda hb (ground arith) small (lambda / 64 + 2) exp
                (factor ∷ []) (omega arith) (single-IsNormal factor some hf)
              ∙ ap (λ (n : ℕ). leb (2 ^ lambda) (n * base ^ exp)) (omega arith))
        ])
      ])

pub scaled_pow_ge_pow2_zero : (base exp factor : ℕ) → scaled_pow_ge_pow2 base exp factor 0 ≡ true
unfolding scaled_pow_ge_pow2
scaled_pow_ge_pow2_zero base exp factor = refl
