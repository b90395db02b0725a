-- ===== src/Emvp/Params/Power.antt =====
-- `pow_ge_pow2` and `scaled_pow_ge_pow2` of `emvp/src/params.rs`: the exact comparison of a scaled power
-- with a power of two. The significant limbs of the accumulated value are a list, least significant
-- first; the zeros above them in the vector are left out.
pub mod Limbs
pub mod Exact
use emvp_thesis.Base.{
  ℕ, zero, suc, ◌+◌, ◌-◌, ◌*◌, ◌/◌, ◌%◌, ◌^◌, min, List, [], ◌∷◌, ◌++◌, Bool, true, false, ltb, leb,
  ◌==◌, ◌&&◌, ◌||◌, if◌then◌else◌, length, u64_max,
}
use emvp_thesis.Base.Powers.{digits}

-- POW_MAX_LAMBDA
abbrev pub pow_max_lambda : ℕ
pow_max_lambda = 4096

-- `u64::BITS - n.leading_zeros()`
pub bit_length : ℕ → ℕ
bit_length n = digits 64 n

abbrev pub saturating_add : ℕ → ℕ → ℕ
saturating_add a b = min (a + b) u64_max

abbrev pub saturating_mul : ℕ → ℕ → ℕ
saturating_mul a b = min (a * b) u64_max

-- The last limb, at an index of a nonempty slice.
abbrev pub top_limb : List ℕ → ℕ
top_limb [] = 0
top_limb (x ∷ []) = x
top_limb (x ∷ y ∷ ls) = top_limb (y ∷ ls)

pub exact_bit_length : List ℕ → ℕ
exact_bit_length limbs = (length limbs - 1) * 64 + bit_length (top_limb limbs)

-- `for limb in &mut value[..significant]`, with the carry that is left.
pub mul_limbs : ℕ → ℕ → List ℕ → List ℕ × ℕ
mul_limbs base carry [] = ([], carry)
mul_limbs base carry (limb ∷ limbs) =
    let product = limb * base + carry in
    let (rest, out) = mul_limbs base (product / 2 ^ 64) limbs in ((product % 2 ^ 64) ∷ rest, out)

-- The loop by the factors that remain; `limbs` is the capacity.
pub power_loop : ℕ → ℕ → ℕ → ℕ → List ℕ → Bool
power_loop base lambda limbs zero value = ltb lambda (exact_bit_length value)
power_loop base lambda limbs (suc remaining) value =
    let lo = exact_bit_length value - 1 in
    let low = saturating_add lo (saturating_mul (bit_length base - 1) (suc remaining)) in
    let high = saturating_add (lo + 1) (saturating_mul (bit_length base) (suc remaining)) in
    let product = mul_limbs base 0 value in
    elim (leb lambda low) [
      | true ↦ true
      | false ↦ elim (leb high lambda) [
        | true ↦ false
        | false ↦ elim (ltb 0 product.1) [
          | false ↦ power_loop base lambda limbs remaining product.0
          | true ↦ elim (length value == limbs) [
            | true ↦ true
            | false ↦ power_loop base lambda limbs remaining (product.0 ++ (product.1 ∷ []))
          ]
        ]
      ]
    ]

pub scaled_pow_ge_pow2 : ℕ → ℕ → ℕ → ℕ → Bool
scaled_pow_ge_pow2 base exp factor lambda =
    if lambda == 0
    then true
    else if (factor == 0) || ltb pow_max_lambda lambda
    then false
    else if ltb base 2
    then (if (base == 0) && ltb 0 exp then false else ltb lambda (bit_length factor))
    else power_loop base lambda (lambda / 64 + 2) exp (factor ∷ [])

pub pow_ge_pow2 : ℕ → ℕ → ℕ → Bool
pow_ge_pow2 base exp lambda = scaled_pow_ge_pow2 base exp 1 lambda
