-- ===== src/Wire/Plan/Checks.antt =====
-- The checks that the plans share, where they pass.
use emvp_thesis.Base.{
  ℕ, ◌+◌, ◌*◌, ◌≤◌, ◌≡◌, arith, List, length, true, leb, le→leb, le→ltb, u64_max, checked_mul-some,
  Bool-cases, inl, inr,
}
use emvp_thesis.Base.Action.{ok}
use emvp_thesis.Base.Vector.{Allocator}
use emvp_thesis.Wire.Stream.{Ending}
use emvp_thesis.Wire.Frame.Reads.{framed, checked_size-ok, field_byte_len-ok}
use emvp_thesis.Wire.Plan.{
  mul_or_overflow, reserve_table, require_descriptor_fit, require_exact_bytes,
  require_exact_value_region,
}

pub reserve_table-ok :
    {S : Type 0} (allocator : Allocator) (count : ℕ) (s : S)
    → allocator.grants count ≡ true
    → reserve_table allocator count s ≡ (ok tt, s)
unfolding reserve_table
reserve_table-ok allocator count s h = elim (Bool-cases (leb count 0)) [
  | inl e ↦ rw e
  | inr e ↦ rw (e, h)
]

pub mul_or_overflow-ok :
    {S : Type 0} (a b : ℕ) (s : S) → a * b ≤ u64_max → mul_or_overflow a b s ≡ (ok (a * b), s)
mul_or_overflow-ok a b s h = rw (checked_mul-some a b h)

module _ (payload rest : List ℕ) (ending : Ending) where
  pub require_exact_bytes-ok :
      (n : ℕ)
      → length payload ≡ n
      → require_exact_bytes n (framed payload rest ending) ≡ (ok tt, framed payload rest ending)
  unfolding require_exact_bytes
  require_exact_bytes-ok n h =
      rw (le→ltb n (length payload) (omega arith), le→ltb (length payload) n (omega arith))

  pub require_exact_value_region-ok :
      (value_fields : ℕ)
      → length payload ≡ value_fields * 4
      → value_fields * 4 ≤ u64_max
      → require_exact_value_region value_fields (framed payload rest ending)
        ≡ (ok tt, framed payload rest ending)
  unfolding require_exact_value_region
  require_exact_value_region-ok value_fields h fits =
      rw (field_byte_len-ok value_fields (framed payload rest ending) fits)
        (require_exact_bytes-ok (value_fields * 4) h)

  pub require_descriptor_fit-ok :
      (a x b y : ℕ)
      → a * x + b * y ≤ length payload
      → length payload ≤ u64_max
      → require_descriptor_fit a x b y (framed payload rest ending)
        ≡ (ok tt, framed payload rest ending)
  unfolding require_descriptor_fit
  require_descriptor_fit-ok a x b y h fits = rw (
    checked_mul-some a x (omega arith),
    checked_mul-some b y (omega arith),
    checked_size-ok (a * x) (b * y) (framed payload rest ending) (omega arith),
    le→leb (a * x + b * y) (length payload) h,
  )
