-- ===== src/Wire/Products.antt =====
-- The `Products` message: its constants, records and plan (`emvp-network/src/plan.rs`, with the
-- encoder's input of `views.rs`). The children model its workspace, decoder and views, and its writer.
pub mod Workspace
pub mod Write
pub mod Payload
pub mod Planned
pub mod Written
pub mod Decoded
pub mod Viewed
pub mod RoundTrip
use emvp_thesis.Base.{ℕ, zero, suc, ◌+◌, ◌*◌, List, [], ◌∷◌, leb, not, ◌==◌, if◌then◌else◌}
use emvp_thesis.Base.Action.{Action, Result, ok, err, pure, fail, ensure, ◌>>=◌, ◌>>◌}
use emvp_thesis.Base.Vector.{Allocator}
use emvp_thesis.Emvp.View.{AnswerRef}
use emvp_thesis.Wire.Error.{CodecError, count_mismatch, invalid_dimensions}
use emvp_thesis.Wire.Frame.{FrameReader, read_u64, read_u128, host_len}
use emvp_thesis.Wire.Plan.{
  mul_or_overflow, add_or_overflow, reserve_table, require_descriptor_fit,
  require_exact_value_region,
}

abbrev pub products_summary_bytes : ℕ
products_summary_bytes = 8 + 8

abbrev pub products_entry_descriptor_bytes : ℕ
products_entry_descriptor_bytes = 8 + 16 + 8 + 8 + 8

abbrev pub products_answer_descriptor_bytes : ℕ
products_answer_descriptor_bytes = 8

pub record ProductsEntryMeta : Type 0 where
  pub matrix_id : ℕ
  pub instance_id : ℕ
  pub rows : ℕ
  pub blocks : ℕ
  pub answer_offset : ℕ
  pub answer_count : ℕ
  pub value_offset : ℕ

pub record ProductsPlan : Type 0 where
  pub entries : List ProductsEntryMeta
  pub query_ids : List ℕ
  pub value_fields : ℕ

-- What an encoder is given: the answers of one matrix.
pub record ProductEntryInput : Type 0 where
  pub matrix_id : ℕ
  pub instance_id : ℕ
  pub rows : ℕ
  pub blocks : ℕ
  pub answers : List AnswerRef

-- One round of the entry loop: the record, the answers and the value fields counted so far.
unfoldable pub products_entry : ℕ → ℕ → Action FrameReader CodecError (ProductsEntryMeta × ℕ × ℕ)
products_entry summed value_fields = do
  matrix_id ← read_u64
  instance_id ← read_u128
  rows ← read_u64
  blocks ← read_u64
  answer_count ← read_u64
  ensure (not (rows == 0)) (invalid_dimensions "answer rows" 0)
  ensure (not (blocks == 0)) (invalid_dimensions "answer blocks" 0)
  rows ← host_len "answer rows" rows
  blocks ← host_len "answer blocks" blocks
  answer_count ← host_len "answer count" answer_count
  answer_words ← mul_or_overflow rows blocks
  summed' ← add_or_overflow summed answer_count
  entry_fields ← mul_or_overflow answer_count answer_words
  value_fields' ← add_or_overflow value_fields entry_fields
  pure (
    record {
      matrix_id = matrix_id;
      instance_id = instance_id;
      rows = rows;
      blocks = blocks;
      answer_offset = summed;
      answer_count = answer_count;
      value_offset = value_fields;
    },
    summed',
    value_fields',
  )

unfoldable pub products_entries :
    ℕ → ℕ → ℕ → Action FrameReader CodecError (List ProductsEntryMeta × ℕ × ℕ)
products_entries zero summed value_fields = pure ([], summed, value_fields)
products_entries (suc count) summed value_fields = do
  (meta, summed, value_fields) ← products_entry summed value_fields
  (metas, summed, value_fields) ← products_entries count summed value_fields
  pure (meta ∷ metas, summed, value_fields)

unfoldable pub products_query_ids : ℕ → Action FrameReader CodecError (List ℕ)
products_query_ids zero = pure []
products_query_ids (suc count) = do
  query_id ← read_u64
  query_ids ← products_query_ids count
  pure (query_id ∷ query_ids)

unfoldable pub plan_products : Allocator → Action FrameReader CodecError ProductsPlan
plan_products allocator = do
  entry_count ← read_u64
  total_answer_count ← read_u64
  require_descriptor_fit entry_count products_entry_descriptor_bytes total_answer_count
      products_answer_descriptor_bytes
  entry_count ← host_len "entry count" entry_count
  total_answer_count ← host_len "total answer count" total_answer_count
  reserve_table allocator entry_count
  reserve_table allocator total_answer_count
  (entries, summed, value_fields) ← products_entries entry_count 0 0
  ensure (summed == total_answer_count) (count_mismatch "answer count" total_answer_count summed)
  query_ids ← products_query_ids total_answer_count
  require_exact_value_region value_fields
  pure (record { entries = entries; query_ids = query_ids; value_fields = value_fields })
