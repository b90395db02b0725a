-- ===== src/Examples/FieldExamples.antt =====
-- The field's theorems at concrete elements.
use emvp_thesis.Base.{◌+◌, ◌*◌, ◌^◌, ◌%◌, ◌<◌, ◌≡◌, refl, arith, [], ◌∷◌}
use emvp_thesis.Base.Action.{ok}
use emvp_thesis.Field.{
  montgomery_mul, montgomery_mul_scalar, from_u32, value, add, sub, mul, neg, to_canonical_le_bytes,
  from_canonical_le_bytes, calculate_montgomery_neg_inv,
}
use emvp_thesis.Field.Inverse.{neg_inv_lem}
use emvp_thesis.Field.Reduction.{montgomery_mul_scalar_lem, montgomery_mul-eq-scalar}
use emvp_thesis.Field.Arithmetic.{IsCanonical, operators_value, conversions_value}
use emvp_thesis.Field.Encoding.{from_canonical_le_bytes_exact}
use emvp_thesis.Wire.Frame.{protocol_modulus}
use mathlib.Core.Logic.{◌↔◌}
use emvp_thesis.Wire.Frame.Slices.{protocol_modulus-IsModulus}
use emvp_thesis.Examples.Sample.{five, seven, five-IsElement, seven-IsElement}

montgomery_mul_scalar_lem_example :
    (montgomery_mul_scalar protocol_modulus 4000000000 7 < protocol_modulus)
    × ((montgomery_mul_scalar protocol_modulus 4000000000 7 * 2 ^ 32) % protocol_modulus
        ≡ (4000000000 * 7) % protocol_modulus)
montgomery_mul_scalar_lem_example =
    montgomery_mul_scalar_lem protocol_modulus 4000000000 7 protocol_modulus-IsModulus (omega arith)
      (omega arith)

montgomery_mul-eq-scalar_example :
    montgomery_mul protocol_modulus 4000000000 7
    ≡ montgomery_mul_scalar protocol_modulus 4000000000 7
montgomery_mul-eq-scalar_example =
    montgomery_mul-eq-scalar protocol_modulus 4000000000 7 protocol_modulus-IsModulus (omega arith)
      (omega arith)

neg_inv_lem_example :
    (protocol_modulus * calculate_montgomery_neg_inv protocol_modulus + 1) % 2 ^ 32 ≡ 0
neg_inv_lem_example = neg_inv_lem protocol_modulus refl

operators_value_example :
    (value protocol_modulus (add protocol_modulus five seven)
      ≡ (value protocol_modulus five + value protocol_modulus seven) % protocol_modulus)
    × (value protocol_modulus (mul protocol_modulus five seven)
        ≡ (value protocol_modulus five * value protocol_modulus seven) % protocol_modulus)
    × ((value protocol_modulus (sub protocol_modulus five seven) + value protocol_modulus seven)
          % protocol_modulus
        ≡ value protocol_modulus five)
    × ((value protocol_modulus (neg protocol_modulus five) + value protocol_modulus five)
          % protocol_modulus
        ≡ 0)
operators_value_example =
    operators_value protocol_modulus protocol_modulus-IsModulus five seven five-IsElement
      seven-IsElement

conversions_value_example :
    (value protocol_modulus (from_u32 protocol_modulus 4000000000) ≡ 4000000000 % protocol_modulus)
    × (from_u32 protocol_modulus (value protocol_modulus five) ≡ five)
conversions_value_example =
    conversions_value protocol_modulus protocol_modulus-IsModulus 4000000000 five (omega arith)
      five-IsElement

from_canonical_le_bytes_exact_example :
    (from_canonical_le_bytes protocol_modulus (5 ∷ 0 ∷ 0 ∷ 0 ∷ []) ≡ ok five) ↔ (
      IsCanonical protocol_modulus five
      × (to_canonical_le_bytes protocol_modulus five ≡ 5 ∷ 0 ∷ 0 ∷ 0 ∷ []))
from_canonical_le_bytes_exact_example =
    from_canonical_le_bytes_exact protocol_modulus protocol_modulus-IsModulus (5 ∷ 0 ∷ 0 ∷ 0 ∷ [])
      five (omega arith, (omega arith, (omega arith, (omega arith, tt)))) refl
