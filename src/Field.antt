-- ===== src/Field.antt =====
-- The prime field of `prime-field-layer/src/prime_field.rs`, `prime_field/scalar.rs`,
-- `constant_time.rs`, `field_element.rs` and `encoding.rs`: residues in Montgomery form.
-- The const generic MODULUS is the explicit argument `modulus`.
pub mod Inverse
pub mod Reduction
pub mod Arithmetic
pub mod Encoding
use emvp_thesis.Base.{
  ℕ, zero, suc, ◌+◌, ◌-◌, ◌*◌, ◌/◌, ◌%◌, ◌^◌, List, [], ◌∷◌, Bool, true, false, ltb, leb, ◌==◌,
  if◌then◌else◌,
}
use emvp_thesis.Base.Action.{Result, ok, err}
use emvp_thesis.Base.Words.{to_le_bytes, from_le_bytes}

-- `wrapping_sub`, `wrapping_mul` and `wrapping_neg` of u32, `wrapping_add` and `wrapping_sub` of u64.
abbrev pub wrapping_sub32 : ℕ → ℕ → ℕ
wrapping_sub32 a b = (a + 2 ^ 32 - b) % 2 ^ 32

abbrev pub wrapping_mul32 : ℕ → ℕ → ℕ
wrapping_mul32 a b = (a * b) % 2 ^ 32

abbrev pub wrapping_sub64 : ℕ → ℕ → ℕ
wrapping_sub64 a b = (a + 2 ^ 64 - b) % 2 ^ 64

abbrev pub wrapping_add64 : ℕ → ℕ → ℕ
wrapping_add64 a b = (a + b) % 2 ^ 64

-- `value & 0.wrapping_sub(u64::from(flag))`: the mask is all ones or all zeros.
abbrev pub masked : Bool → ℕ → ℕ
masked flag value = if flag then value else 0

unfoldable pub reduce_once_u64 : ℕ → ℕ → ℕ
reduce_once_u64 value modulus =
    let reduced = wrapping_sub64 value modulus in
    let borrow = ltb value modulus in wrapping_add64 reduced (masked borrow modulus)

pub data FieldError : Type 0 where
  division_by_zero : FieldError
  length_mismatch : FieldError
  unsupported_transform_length : ℕ → FieldError
  plan_too_small : ℕ → ℕ → FieldError
  convolution_length_overflow : FieldError
  non_canonical_raw : ℕ → ℕ → FieldError

-- One Newton round of `calculate_montgomery_neg_inv`.
neg_inv_round : ℕ → ℕ → ℕ
neg_inv_round modulus inverse =
    wrapping_mul32 inverse (wrapping_sub32 2 (wrapping_mul32 modulus inverse))

-- `while iteration < 5`, by the rounds left.
neg_inv_loop : ℕ → ℕ → ℕ → ℕ
neg_inv_loop zero modulus inverse = inverse
neg_inv_loop (suc rounds) modulus inverse =
    neg_inv_loop rounds modulus (neg_inv_round modulus inverse)

unfoldable pub calculate_montgomery_neg_inv : ℕ → ℕ
unfolding neg_inv_loop neg_inv_round
calculate_montgomery_neg_inv modulus = wrapping_sub32 0 (neg_inv_loop 5 modulus modulus)

-- MONTGOMERY_R2 and MONTGOMERY_ONE.
unfoldable pub montgomery_r2 : ℕ → ℕ
montgomery_r2 modulus = 2 ^ 64 % modulus

pub montgomery_one : ℕ → ℕ
montgomery_one modulus = 2 ^ 32 % modulus

module _ (modulus : ℕ) where
  pub reduce_u64 : ℕ → ℕ
  reduce_u64 value = value % modulus

  unfoldable pub add_canonical : ℕ → ℕ → ℕ
  unfolding reduce_once_u64
  add_canonical lhs rhs = reduce_once_u64 (lhs + rhs) modulus % 2 ^ 32

  unfoldable pub sub_canonical : ℕ → ℕ → ℕ
  unfolding reduce_once_u64
  sub_canonical lhs rhs = reduce_once_u64 (lhs + modulus - rhs) modulus % 2 ^ 32

  pub neg_canonical : ℕ → ℕ
  neg_canonical value = let negated = modulus - value in masked (ltb 0 value) negated

  pub mul_canonical : ℕ → ℕ → ℕ
  mul_canonical lhs rhs = (lhs * rhs) % modulus

  -- `(sum >> 32) | (carry << 32)`: the shifted sum is below 2^32, so the or is a sum.
  unfoldable pub montgomery_mul_scalar : ℕ → ℕ → ℕ
  unfolding reduce_once_u64
  montgomery_mul_scalar lhs rhs =
      let product = lhs * rhs in
      let adjustment = wrapping_mul32 (product % 2 ^ 32) (calculate_montgomery_neg_inv modulus) in
      let sum = wrapping_add64 product (adjustment * modulus) in
      let carry = leb (2 ^ 64) (product + adjustment * modulus) in
      let reduced = sum / 2 ^ 32 + masked carry (2 ^ 32) in reduce_once_u64 reduced modulus % 2 ^ 32

  -- The variant that finds the carry by `sum < product`.
  pub montgomery_mul : ℕ → ℕ → ℕ
  montgomery_mul lhs rhs =
      let product = lhs * rhs in
      let adjustment = wrapping_mul32 (product % 2 ^ 32) (calculate_montgomery_neg_inv modulus) in
      let sum = wrapping_add64 product (adjustment * modulus) in
      let carry = (if ltb sum product then 1 else 0) * 2 ^ 32 in
      let reduced = sum / 2 ^ 32 + carry in
      wrapping_sub64 reduced ((if leb modulus reduced then 1 else 0) * modulus) % 2 ^ 32

  unfoldable pub to_montgomery : ℕ → ℕ
  to_montgomery value = montgomery_mul_scalar value (montgomery_r2 modulus)

  pub from_montgomery : ℕ → ℕ
  from_montgomery value = montgomery_mul_scalar value 1

  -- `while exponent != 0` of `pow_montgomery`. A u64 exponent has 64 bits, so 64 rounds suffice.
  pow_loop : ℕ → ℕ → ℕ → ℕ → ℕ
  pow_loop zero base exponent result = result
  pow_loop (suc rounds) base exponent result =
      let result' = (if exponent % 2 == 1 then montgomery_mul_scalar result base else result) in
      let exponent' = exponent / 2 in
      let base' = (if exponent' == 0 then base else montgomery_mul_scalar base base) in
      let rest = pow_loop rounds base' exponent' result' in if exponent == 0 then result else rest

  pub pow_montgomery : ℕ → ℕ → ℕ
  unfolding pow_loop
  pow_montgomery base exponent = pow_loop 64 base exponent (montgomery_one modulus)

-- A residue in Montgomery form.
pub record FieldElement : Type 0 where
  pub montgomery : ℕ

module _ (modulus : ℕ) where
  unfoldable pub from_u32 : ℕ → FieldElement
  from_u32 value = record { montgomery = to_montgomery modulus value }

  pub new : ℕ → FieldElement
  new value = record { montgomery = to_montgomery modulus (reduce_u64 modulus value) }

  pub value : FieldElement → ℕ
  value x = from_montgomery modulus x.montgomery

  pub try_from_raw : ℕ → Result FieldError FieldElement
  try_from_raw raw =
      if ltb raw modulus
      then ok (record { montgomery = raw })
      else err (non_canonical_raw raw modulus)

  unfoldable pub add : FieldElement → FieldElement → FieldElement
  add x y = record { montgomery = add_canonical modulus x.montgomery y.montgomery }

  unfoldable pub sub : FieldElement → FieldElement → FieldElement
  sub x y = record { montgomery = sub_canonical modulus x.montgomery y.montgomery }

  unfoldable pub mul : FieldElement → FieldElement → FieldElement
  mul x y = record { montgomery = montgomery_mul_scalar modulus x.montgomery y.montgomery }

  pub neg : FieldElement → FieldElement
  neg x = record { montgomery = neg_canonical modulus x.montgomery }

  pub square : FieldElement → FieldElement
  square x = record { montgomery = montgomery_mul_scalar modulus x.montgomery x.montgomery }

  pub pow : FieldElement → ℕ → FieldElement
  pow x exponent = record { montgomery = pow_montgomery modulus x.montgomery exponent }

  pub inv : FieldElement → Result FieldError FieldElement
  inv x = if x.montgomery == 0 then err division_by_zero else ok (pow x (modulus - 2))

-- encoding.rs
pub record NonCanonicalEncoding : Type 0 where
  pub value : ℕ
  pub modulus : ℕ

module _ (modulus : ℕ) where
  pub to_canonical_le_bytes : FieldElement → List ℕ
  to_canonical_le_bytes x = to_le_bytes 4 (value modulus x)

  unfoldable pub from_canonical_le_bytes : List ℕ → Result NonCanonicalEncoding FieldElement
  from_canonical_le_bytes encoding =
      let v = from_le_bytes encoding in
      if leb modulus v
      then err (record { value = v; modulus = modulus })
      else ok (from_u32 modulus v)
