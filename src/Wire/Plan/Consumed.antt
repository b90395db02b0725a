-- ===== src/Wire/Plan/Consumed.antt =====
-- The checks of the plans leave the stream as it is.
use emvp_thesis.Base.{ℕ}
use emvp_thesis.Base.Consumes.{Consumes, consuming}
use emvp_thesis.Base.Vector.{Allocator}
use emvp_thesis.Wire.Frame.Consumed.{
  payload_left, checked_size-Consumes, field_byte_len-Consumes, remaining-Consumes,
}
use emvp_thesis.Wire.Plan.{
  reserve_table, require_descriptor_fit, require_exact_bytes, require_exact_value_region,
}

pub reserve_table-Consumes :
    {S : Type 0} {size : S → ℕ} (allocator : Allocator) (count : ℕ)
    → Consumes size (reserve_table allocator count)
unfolding reserve_table
reserve_table-Consumes allocator count = search consuming

pub require_descriptor_fit-Consumes :
    (a b c d : ℕ) → Consumes payload_left (require_descriptor_fit a b c d)
unfolding require_descriptor_fit
require_descriptor_fit-Consumes a b c d =
    search (consuming, checked_size-Consumes, remaining-Consumes)

pub require_exact_value_region-Consumes :
    (fields : ℕ) → Consumes payload_left (require_exact_value_region fields)
unfolding require_exact_value_region require_exact_bytes
require_exact_value_region-Consumes fields =
    search (consuming, field_byte_len-Consumes, remaining-Consumes)
