-- ===== src/Wire/Plan.antt =====
-- What the message plans of `emvp-network/src/plan.rs` share: the checks of the descriptor tables and
-- of the value region against the bytes of the frame, and the growth of workspaces
-- (`emvp-network/src/workspace.rs`).
pub mod Checks
pub mod Consumed
pub mod Growth
use emvp_thesis.Base.{
  ℕ, ◌+◌, ◌-◌, ◌*◌, String, Option, none, some, List, ltb, leb, if◌then◌else◌, length, checked_mul,
  checked_add, Bool,
}
use emvp_thesis.Base.Action.{Action, Result, ok, err, pure, fail, ok_or, ensure, ◌>>=◌, ◌>>◌}
use emvp_thesis.Base.Vector.{Vector, Allocator, try_reserve_exact, resize}
use emvp_thesis.Wire.Error.{
  CodecError, truncated_frame, trailing_frame_bytes, dimension_overflow, allocation_failed,
}
use emvp_thesis.Wire.Frame.{FrameReader, remaining, checked_size, field_byte_len}

-- `a.checked_mul(b).ok_or(DimensionOverflow)?` and the same for sums.
abbrev pub mul_or_overflow : {S : Type 0} → ℕ → ℕ → Action S CodecError ℕ
mul_or_overflow a b = ok_or dimension_overflow (checked_mul a b)

abbrev pub add_or_overflow : {S : Type 0} → ℕ → ℕ → Action S CodecError ℕ
add_or_overflow a b = ok_or dimension_overflow (checked_add a b)

-- `try_reserve_exact(count)` on a new vector.
unfoldable pub reserve_table : {S : Type 0} → Allocator → ℕ → Action S CodecError (Unit {0})
reserve_table allocator count =
    ensure (if leb count 0 then Bool.true else allocator.grants count) allocation_failed

-- Both tables together must fit the bytes that the frame still holds.
unfoldable pub require_descriptor_fit : ℕ → ℕ → ℕ → ℕ → Action FrameReader CodecError (Unit {0})
require_descriptor_fit primary_count primary_descriptor_bytes secondary_count
      secondary_descriptor_bytes =
    do
      primary_bytes ← mul_or_overflow primary_count primary_descriptor_bytes
      secondary_bytes ← mul_or_overflow secondary_count secondary_descriptor_bytes
      descriptor_bytes ← checked_size primary_bytes secondary_bytes
      left ← remaining
      ensure (leb descriptor_bytes left) truncated_frame

-- `match bytes.cmp(&frame.remaining())`
unfoldable pub require_exact_bytes : ℕ → Action FrameReader CodecError (Unit {0})
require_exact_bytes bytes = do
  left ← remaining
  if ltb bytes left
      then fail (trailing_frame_bytes (left - bytes))
      else if ltb left bytes
      then fail truncated_frame
      else pure tt

-- The value region must fill the rest of the frame exactly.
unfoldable pub require_exact_value_region : ℕ → Action FrameReader CodecError (Unit {0})
unfolding require_exact_bytes
require_exact_value_region value_fields = do
  value_bytes ← field_byte_len value_fields
  require_exact_bytes value_bytes

-- `grow` of workspace.rs: to `len` elements, never shrinking.
unfoldable pub grow : {S A : Type 0} → Allocator → ℕ → A → Vector A → Action S CodecError (Vector A)
grow allocator len fill v =
    if ltb (length v.items) len
    then (do
      v' ← ok_or allocation_failed (try_reserve_exact allocator (len - length v.items) v)
      pure (resize len fill v'))
    else pure v

-- `grow_capacity` of workspace.rs.
unfoldable pub grow_capacity :
    {S A : Type 0} → Allocator → ℕ → Vector A → Action S CodecError (Vector A)
grow_capacity allocator len v =
    if ltb v.capacity len
    then ok_or allocation_failed (try_reserve_exact allocator (len - v.capacity) v)
    else pure v
