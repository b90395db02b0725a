-- ===== src/Wire/Upload.antt =====
-- The `UploadMatrices` message: its constants, records and plan (`emvp-network/src/plan.rs`).
-- The children model its workspace, decoder and views, and its writer.
pub mod Consumed
pub mod Workspace
pub mod Write
pub mod Payload
pub mod Planned
pub mod Written
pub mod Receive
pub mod Decoded
pub mod RoundTrip
use emvp_thesis.Base.{
  ℕ, zero, suc, ◌+◌, ◌*◌, Option, none, some, List, [], ◌∷◌, leb, ltb, not, ◌==◌, if◌then◌else◌,
  length, get_elem?, checked_mul, checked_add, get_range, usize_max,
}
use emvp_thesis.Base.Action.{
  Action, Result, ok, err, pure, fail, ok_or, ensure, ◌>>=◌, ◌>>◌, for_each,
}
use emvp_thesis.Base.Vector
use emvp_thesis.Base.Vector.{Vector, Allocator, refill}
use emvp_thesis.Emvp.Params.{EmvpParams}
use emvp_thesis.Field.{FieldElement, from_u32}
use emvp_thesis.Wire.Error.{
  CodecError, truncated_frame, dimension_overflow, allocation_failed, invalid_dimensions,
  upload_matrices,
}
use emvp_thesis.Wire.Stream.{Sink}
use emvp_thesis.Wire.Frame.{
  FrameReader, Decoding, on_frame, remaining, read_u32, read_u64, read_u128, finish, host_len,
  wire_len, checked_size, field_byte_len, write_u32, write_u64, write_u128, write_frame_header,
  write_field_slice, read_field_slice_into, header_bytes, protocol_modulus,
}
use emvp_thesis.Wire.Plan.{
  mul_or_overflow, add_or_overflow, reserve_table, require_exact_value_region, grow, grow_capacity,
}

-- UPLOAD_SUMMARY_BYTES and UPLOAD_DESCRIPTOR_BYTES.
abbrev pub upload_summary_bytes : ℕ
upload_summary_bytes = 8

abbrev pub upload_descriptor_bytes : ℕ
upload_descriptor_bytes = 8 + 8 + 8 + 4 + 16 + 8 + 8

pub record UploadMatrixMeta : Type 0 where
  pub params : EmvpParams
  pub instance_id : ℕ
  pub rows : ℕ
  pub columns : ℕ
  pub value_offset : ℕ

pub record UploadPlan : Type 0 where
  pub matrices : List UploadMatrixMeta
  pub value_fields : ℕ

-- One round of the descriptor loop of `plan_upload`: the record and the new count of value fields.
upload_descriptor : ℕ → Action FrameReader CodecError (UploadMatrixMeta × ℕ)
upload_descriptor value_fields = do
  k ← read_u64
  ell ← read_u64
  b ← read_u64
  lambda ← read_u32
  instance_id ← read_u128
  rows ← read_u64
  columns ← read_u64
  ensure (not (rows == 0)) (invalid_dimensions "matrix rows" 0)
  ensure (not (columns == 0)) (invalid_dimensions "matrix columns" 0)
  rows ← host_len "matrix rows" rows
  columns ← host_len "matrix columns" columns
  fields ← mul_or_overflow rows columns
  total ← add_or_overflow value_fields fields
  k ← host_len "parameter k" k
  ell ← host_len "parameter ell" ell
  b ← host_len "parameter b" b
  pure (
    record {
      params = record { k = k; ell = ell; b = b; lambda = lambda };
      instance_id = instance_id;
      rows = rows;
      columns = columns;
      value_offset = value_fields;
    },
    total,
  )

-- `for _ in 0..count`, the pushed records in order.
upload_descriptors : ℕ → ℕ → Action FrameReader CodecError (List UploadMatrixMeta × ℕ)
upload_descriptors zero value_fields = pure ([], value_fields)
upload_descriptors (suc count) value_fields = do
  (meta, value_fields) ← upload_descriptor value_fields
  (metas, value_fields) ← upload_descriptors count value_fields
  pure (meta ∷ metas, value_fields)

pub plan_upload : Allocator → Action FrameReader CodecError UploadPlan
unfolding upload_descriptors upload_descriptor
plan_upload allocator = do
  count ← read_u64
  descriptor_bytes ← mul_or_overflow count upload_descriptor_bytes
  left ← remaining
  ensure (leb descriptor_bytes left) truncated_frame
  count ← host_len "matrix count" count
  reserve_table allocator count
  (matrices, value_fields) ← upload_descriptors count 0
  require_exact_value_region value_fields
  pure (record { matrices = matrices; value_fields = value_fields })

pub record UploadMatrixView : Type 0 where
  pub params : EmvpParams
  pub instance_id : ℕ
  pub rows : ℕ
  pub columns : ℕ
  pub values : List FieldElement
