-- ===== src/Examples/ProtocolExamples.antt =====
-- The theorem on answers at a matrix of one row and a query of two blocks.
use emvp_thesis.Base.{ℕ, ◌-◌, ◌*◌, ◌%◌, ◌^◌, ◌≤◌, ◌≡◌, refl, ap, ◌∙◌, some, List, [], ◌∷◌, arith}
use emvp_thesis.Base.Action.{ok}
use emvp_thesis.Emvp.Params.{EmvpParams}
use emvp_thesis.Emvp.Protocol.{EncryptedMatrix, DecodingKey, scale_blocks, answer_into, decode_into}
use emvp_thesis.Emvp.Protocol.Correct.{IsEncryption, IsKey, decode_into-answer_into}
use emvp_thesis.Emvp.Protocol.Decoded.{AreDecoded}
use emvp_thesis.Examples.Sample.{five, seven, five-IsElement, seven-IsElement}
use emvp_thesis.Field.{FieldElement, from_u32, value}
use emvp_thesis.Field.Arithmetic.{IsCanonical, from_u32-IsCanonical, value-from_u32}
use emvp_thesis.Wire.Frame.{protocol_modulus}
use emvp_thesis.Wire.Frame.Slices.{protocol_modulus-IsModulus}

abbrev two : FieldElement
two = from_u32 protocol_modulus 2

-- (p + 1) / 2
abbrev half : FieldElement
half = from_u32 protocol_modulus 499122177

element : (v : ℕ) → v ≤ 2 ^ 32 - 1 → IsCanonical protocol_modulus (from_u32 protocol_modulus v)
element v h = from_u32-IsCanonical protocol_modulus protocol_modulus-IsModulus v (omega arith)

two-half :
    (value protocol_modulus two * value protocol_modulus half) % protocol_modulus
    ≡ 1 % protocol_modulus
two-half =
    rw
      (
        value-from_u32 protocol_modulus protocol_modulus-IsModulus 2 (omega arith),
        value-from_u32 protocol_modulus protocol_modulus-IsModulus 499122177 (omega arith),
      )
      refl

abbrev four_wide : EmvpParams
four_wide = record { k = 2; ell = 1; b = 2; lambda = 0 }

abbrev one_row : EncryptedMatrix
one_row = record {
  rows = 1;
  columns = 4;
  values = five ∷ seven ∷ seven ∷ five ∷ [];
  instance_id = 9;
}

one_row-IsEncryption : IsEncryption protocol_modulus four_wide one_row
one_row-IsEncryption = record {
  sized = record {
    ell_positive = omega arith;
    ell_le_rank = omega arith;
    block_large = omega arith;
    length_fits = omega arith;
    divides = refl;
  };
  columns = refl;
  rows = omega arith;
  shape = refl;
  fits = omega arith;
  canonical = (five-IsElement, (seven-IsElement, (seven-IsElement, (five-IsElement, tt))));
}

abbrev half_key : DecodingKey
half_key = record { p_prime = half ∷ two ∷ []; r_prime = five ∷ []; instance_id = 9; query_id = 3 }

half_key-IsKey : IsKey protocol_modulus four_wide one_row (two ∷ half ∷ []) half_key
half_key-IsKey =
    let two_small = element 2 (omega arith) in
    let half_small = element 499122177 (omega arith) in
    record {
      inverses = (
        half,
        two ∷ [],
        refl,
        (two_small, half_small),
        two-half,
        (
          two,
          [],
          refl,
          (half_small, two_small),
          ap (λ n. n % protocol_modulus) (omega arith) ∙ two-half,
          refl,
        ),
      );
      block_count = refl;
      share_count = refl;
      shares = (five-IsElement, tt);
      instance_id = refl;
    }

decode_into-answer_into_example :
    (scaled answer out : List FieldElement) × (scale_blocks protocol_modulus 2
        (two ∷ half ∷ [])
        (seven ∷ five ∷ five ∷ seven ∷ [])
      ≡ some scaled)
    × (answer_into protocol_modulus four_wide one_row
          (record { values = scaled; instance_id = 9; query_id = 3 })
          (five ∷ five ∷ [])
        ≡ some (ok answer))
    × (decode_into protocol_modulus
          (record { rows = 1; blocks = 2; instance_id = 9; query_id = 3; values = answer })
          half_key
          (seven ∷ [])
        ≡ some (ok out))
    × AreDecoded protocol_modulus 4
        (seven ∷ five ∷ five ∷ seven ∷ [])
        (five ∷ seven ∷ seven ∷ five ∷ [])
        (five ∷ [])
        out
decode_into-answer_into_example =
    decode_into-answer_into protocol_modulus protocol_modulus-IsModulus four_wide one_row
      (seven ∷ five ∷ five ∷ seven ∷ []) (two ∷ half ∷ []) half_key (five ∷ five ∷ []) (seven ∷ [])
      one_row-IsEncryption half_key-IsKey refl
      (seven-IsElement, (five-IsElement, (five-IsElement, (seven-IsElement, tt)))) refl refl
