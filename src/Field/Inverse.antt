-- ===== src/Field/Inverse.antt =====
-- `calculate_montgomery_neg_inv`: five Newton rounds give -1/modulus modulo 2^32 for every odd modulus.
use emvp_thesis.Base.{
  ℕ, ◌+◌, ◌-◌, ◌*◌, ◌/◌, ◌%◌, ◌^◌, ◌≤◌, ◌<◌, ◌≡◌, refl, sym, ap, ◌∙◌, arith, ◌⊎◌, inl, inr,
}
use emvp_thesis.Base.Modular.{mod-eq_of_multiples, mul-mod_congr, mod-mod_of_multiple}
use emvp_thesis.Field.{neg_inv_round, neg_inv_loop, calculate_montgomery_neg_inv}
use native.Mathlib.Nat.{div-add-mod}

-- A number y with y ≡ 1 modulo k: the product y * (2 - y) is 1 modulo every common divisor of
-- k * k and of the word size.
newton :
    (word m k c d y : ℕ)
    → word ≡ m * d
    → k * k ≡ m * c
    → y ≤ word
    → y % k ≡ 1
    → (y * (2 + word - y)) % m ≡ 1 % m
newton word m k c d y hw hk le h =
    mod-eq_of_multiples m (y * (2 + word - y)) 1 (c * (u * u)) (d * y) (
      omega (
        arith,
        ap (λ (t : ℕ). y * t) whole,
        square,
        ap (λ (t : ℕ). t * y) hw,
        ap (λ (t : ℕ). t * (u * u)) hk,
        split,
      ))
  where
    u : ℕ
    u = y / k

    split : k * u + 1 ≡ y
    split = omega (arith, div-add-mod y k)

    whole : 2 + word - y + y ≡ 2 + word
    whole = omega arith

    square : y * y ≡ k * k * (u * u) + 2 * (k * u) + 1
    square = omega (arith, ap (λ (t : ℕ). t * y) split, ap (λ (t : ℕ). (k * u) * t) split)

-- One round takes an inverse modulo k to an inverse modulo m.
round_inverts :
    (m k c d e p x : ℕ)
    → 2 ^ 32 ≡ m * d
    → 2 ^ 32 ≡ k * e
    → k * k ≡ m * c
    → (p * x) % k ≡ 1
    → (p * neg_inv_round p x) % m ≡ 1 % m
unfolding neg_inv_round
round_inverts m k c d e p x hm hk hkk h =
    mul-mod_congr m p p _ (x * z) refl (inner)
    ∙ ap (λ (n : ℕ). n % m) (omega arith)
    ∙ mul-mod_congr m (p * x) y z z (sym (mod-mod_of_multiple m d (2 ^ 32) (p * x) hm)) refl
    ∙ newton (2 ^ 32) m k c d y hm hkk (omega arith)
        (mod-mod_of_multiple k e (2 ^ 32) (p * x) hk ∙ h)
  where
    y : ℕ
    y = (p * x) % 2 ^ 32

    z : ℕ
    z = 2 + 2 ^ 32 - y

    inner : (x * (z % 2 ^ 32)) % 2 ^ 32 % m ≡ (x * z) % m
    inner =
        mod-mod_of_multiple m d (2 ^ 32) (x * (z % 2 ^ 32)) hm
        ∙ mul-mod_congr m x x (z % 2 ^ 32) z refl (mod-mod_of_multiple m d (2 ^ 32) z hm)

odd_square : (p : ℕ) → p % 2 ≡ 1 → (p * p) % 2 ^ 3 ≡ 1
odd_square p h = elim low [
  | inl e ↦ mod-eq_of_multiples 8 (p * p) 1 0 (2 * (b * b) + b) (
      omega (
        arith,
        square,
        ap (λ (t : ℕ). t * b) (div-add-mod p 4),
        ap (λ (t : ℕ). t * b) e,
        ap (λ (t : ℕ). t * p) e,
        div-add-mod p 4,
      ))
  | inr e ↦ mod-eq_of_multiples 8 (p * p) 1 0 (2 * (b * b) + 3 * b + 1) (
      omega (
        arith,
        square,
        ap (λ (t : ℕ). t * b) (div-add-mod p 4),
        ap (λ (t : ℕ). t * b) e,
        ap (λ (t : ℕ). t * p) e,
        div-add-mod p 4,
      ))
]
  where
    b : ℕ
    b = p / 4

    low : (p % 4 ≡ 1) ⊎ (p % 4 ≡ 3)
    low = omega arith

    square : p * p ≡ 4 * (b * p) + p % 4 * p
    square = omega (arith, ap (λ (t : ℕ). t * p) (div-add-mod p 4))

-- The loop ends with the inverse modulo 2^32: the precision is 3, 6, 12, 24 and then 32 bits.
neg_inv_loop_inverts : (p : ℕ) → p % 2 ≡ 1 → (p * neg_inv_loop 5 p p) % 2 ^ 32 ≡ 1
unfolding neg_inv_loop
neg_inv_loop_inverts p h = round5
  where
    x1 : ℕ
    x1 = neg_inv_round p p

    x2 : ℕ
    x2 = neg_inv_round p x1

    x3 : ℕ
    x3 = neg_inv_round p x2

    x4 : ℕ
    x4 = neg_inv_round p x3

    round1 : (p * x1) % 2 ^ 6 ≡ 1
    round1 = round_inverts (2 ^ 6) (2 ^ 3) 1 (2 ^ 26) (2 ^ 29) p p refl refl refl (odd_square p h)

    round2 : (p * x2) % 2 ^ 12 ≡ 1
    round2 = round_inverts (2 ^ 12) (2 ^ 6) 1 (2 ^ 20) (2 ^ 26) p x1 refl refl refl round1

    round3 : (p * x3) % 2 ^ 24 ≡ 1
    round3 = round_inverts (2 ^ 24) (2 ^ 12) 1 (2 ^ 8) (2 ^ 20) p x2 refl refl refl round2

    round4 : (p * x4) % 2 ^ 32 ≡ 1
    round4 = round_inverts (2 ^ 32) (2 ^ 24) (2 ^ 16) 1 (2 ^ 8) p x3 refl refl refl round3

    round5 : (p * neg_inv_round p x4) % 2 ^ 32 ≡ 1
    round5 = round_inverts (2 ^ 32) (2 ^ 32) (2 ^ 32) 1 1 p x4 refl refl refl round4

negated :
    (p x : ℕ)
    → x < 2 ^ 32
    → (p * x) % 2 ^ 32 ≡ 1
    → (p * ((0 + 2 ^ 32 - x) % 2 ^ 32) + 1) % 2 ^ 32 ≡ 0
negated p x lt h =
    mod-eq_of_multiples (2 ^ 32) (p * ((0 + 2 ^ 32 - x) % 2 ^ 32) + 1) 0 ((p * x) / 2 ^ 32) p
      (omega (arith, ap (λ (t : ℕ). p * t) (complement x lt positive)))
  where
    complement : (y : ℕ) → y < 2 ^ 32 → 0 < y → (0 + 2 ^ 32 - y) % 2 ^ 32 + y ≡ 2 ^ 32
    complement y l k = omega arith

    positive : 0 < x
    positive = ground (arith, ap (λ (t : ℕ). p * t % 2 ^ 32) {x = x} {y = 0})

-- For every odd modulus p the computed Montgomery constant c satisfies p * c + 1 = 0 modulo 2^32.
pub neg_inv_lem : (p : ℕ) → p % 2 ≡ 1 → (p * calculate_montgomery_neg_inv p + 1) % 2 ^ 32 ≡ 0
unfolding calculate_montgomery_neg_inv
neg_inv_lem p h =
    negated p (neg_inv_loop 5 p p) (unfold neg_inv_loop neg_inv_round in omega arith)
      (neg_inv_loop_inverts p h)

pub neg_inv-lt : (p : ℕ) → calculate_montgomery_neg_inv p < 2 ^ 32
unfolding calculate_montgomery_neg_inv
neg_inv-lt p = omega arith
