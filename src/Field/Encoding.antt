-- ===== src/Field/Encoding.antt =====
-- The four-byte canonical encoding of field elements.
use emvp_thesis.Base.{
  ℕ, ◌^◌, ◌<◌, ◌≡◌, sym, ap, ◌∙◌, arith, leb, List, length, All, Bool-cases, inl, inr, false,
}
use emvp_thesis.Base.Action.{ok}
use emvp_thesis.Base.Words.{
  IsByte, to_le_bytes, from_le_bytes, length-to_le_bytes, from-to_le_bytes, to-from_le_bytes,
  from_le_bytes_lt,
}
use emvp_thesis.Field.{
  FieldElement, value, from_u32, to_canonical_le_bytes, from_canonical_le_bytes,
}
use emvp_thesis.Field.Reduction.{IsModulus}
use emvp_thesis.Field.Arithmetic.{
  IsCanonical, value-lt, from_u32-value, value-from_u32, from_u32-IsCanonical,
}
use mathlib.Core.Logic.{◌↔◌}
use native.Mathlib.Nat.{mod-eq_of_lt}

module _ (p : ℕ) where
  pub length-to_canonical_le_bytes : (x : FieldElement) → length (to_canonical_le_bytes p x) ≡ 4
  unfolding to_canonical_le_bytes
  length-to_canonical_le_bytes x = length-to_le_bytes 4 (value p x)

module _ (p : ℕ) (m : IsModulus p) where
  -- For an odd modulus p with 2 < p < 2^32, decoding the encoding of a canonical element returns that
  -- element.
  pub from-to_canonical_le_bytes :
      (x : FieldElement)
      → IsCanonical p x
      → from_canonical_le_bytes p (to_canonical_le_bytes p x) ≡ ok x
  unfolding from_canonical_le_bytes to_canonical_le_bytes
  from-to_canonical_le_bytes x h =
      let small = value-lt p m x h in
      rw (from-to_le_bytes 4 (value p x) (omega (arith, m.fits, small)), not_leb (value p x) small)
        (ap ok (from_u32-value p m x h))
    where
      not_leb : (v : ℕ) → v < p → leb p v ≡ false
      not_leb v l = ground arith

  -- For an odd modulus p with 2 < p < 2^32, an element that is decoded from four bytes is canonical,
  -- and those bytes are its encoding: no second encoding of an element is accepted.
  pub to-from_canonical_le_bytes :
      (bytes : List ℕ) (x : FieldElement)
      → All IsByte bytes
      → length bytes ≡ 4
      → from_canonical_le_bytes p bytes ≡ ok x
      → IsCanonical p x × (to_canonical_le_bytes p x ≡ bytes)
  unfolding from_canonical_le_bytes to_canonical_le_bytes
  to-from_canonical_le_bytes bytes x hb hl h = elim (Bool-cases (leb p v)) [
    | inl large ↦ cc (rw large at h)
    | inr small ↦
        let e : from_u32 p v ≡ x = cc (rw small at h) in
        rw (← e) (
          from_u32-IsCanonical p m v word,
          rw (value-from_u32 p m v word, mod-eq_of_lt (below small))
              (ap (λ (w : ℕ). to_le_bytes w v) (sym hl) ∙ to-from_le_bytes bytes hb),
        )
  ]
    where
      v : ℕ
      v = from_le_bytes bytes

      word : v < 2 ^ 32
      word = rw hl at (from_le_bytes_lt bytes hb)

      below : leb p v ≡ false → v < p
      below e = ground arith

  -- For an odd modulus p with 2 < p < 2^32, four bytes decode to an element exactly when the element is
  -- canonical and the bytes are its encoding.
  pub from_canonical_le_bytes_exact :
      (bytes : List ℕ) (x : FieldElement)
      → All IsByte bytes
      → length bytes ≡ 4
      → (from_canonical_le_bytes p bytes ≡ ok x)
        ↔ (IsCanonical p x × (to_canonical_le_bytes p x ≡ bytes))
  from_canonical_le_bytes_exact bytes x hb hl = (
    to-from_canonical_le_bytes bytes x hb hl,
    λ h. ap (from_canonical_le_bytes p) (sym h.1) ∙ from-to_canonical_le_bytes x h.0,
  )
