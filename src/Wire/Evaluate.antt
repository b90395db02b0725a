-- ===== src/Wire/Evaluate.antt =====
-- The `Evaluate` message: its constants, records and plan (`emvp-network/src/plan.rs`, with the
-- encoder's input of `views.rs`). The children model its workspace, decoder and views, and its writer.
pub mod Consumed
pub mod Workspace
pub mod Write
pub mod Payload
pub mod Planned
pub mod Written
pub mod Decoded
pub mod Viewed
pub mod RoundTrip
use emvp_thesis.Base.{ℕ, zero, suc, ◌+◌, ◌*◌, List, [], ◌∷◌, leb, not, ◌==◌, if◌then◌else◌}
use emvp_thesis.Base.Action.{Action, Result, ok, err, pure, fail, ensure, ◌>>=◌, ◌>>◌}
use emvp_thesis.Base.Vector.{Allocator}
use emvp_thesis.Emvp.View.{EncryptedQueryRef}
use emvp_thesis.Wire.Error.{CodecError, count_mismatch, invalid_dimensions}
use emvp_thesis.Wire.Frame.{FrameReader, read_u64, read_u128, host_len}
use emvp_thesis.Wire.Plan.{
  mul_or_overflow, add_or_overflow, reserve_table, require_descriptor_fit,
  require_exact_value_region,
}

abbrev pub evaluate_summary_bytes : ℕ
evaluate_summary_bytes = 8 + 8

abbrev pub evaluate_entry_descriptor_bytes : ℕ
evaluate_entry_descriptor_bytes = 8 + 8 + 8

abbrev pub evaluate_query_descriptor_bytes : ℕ
evaluate_query_descriptor_bytes = 16 + 8

pub record EvaluateEntryMeta : Type 0 where
  pub matrix_id : ℕ
  pub query_offset : ℕ
  pub query_count : ℕ
  pub query_width : ℕ
  pub value_offset : ℕ

pub record EvaluateQueryMeta : Type 0 where
  pub instance_id : ℕ
  pub query_id : ℕ

pub record EvaluatePlan : Type 0 where
  pub entries : List EvaluateEntryMeta
  pub queries : List EvaluateQueryMeta
  pub value_fields : ℕ

-- What an encoder is given: the queries of one matrix.
pub record EvaluateEntryInput : Type 0 where
  pub matrix_id : ℕ
  pub queries : List EncryptedQueryRef

-- An empty entry has no width, and a query has at least one coordinate.
unfoldable pub check_width : ℕ → ℕ → Action FrameReader CodecError (Unit {0})
check_width query_count query_width =
    if query_count == 0
    then ensure (query_width == 0) (count_mismatch "query width" 0 query_width)
    else ensure (not (query_width == 0)) (invalid_dimensions "query width" 0)

-- One round of the entry loop: the record, the queries and the value fields counted so far.
unfoldable pub evaluate_entry : ℕ → ℕ → Action FrameReader CodecError (EvaluateEntryMeta × ℕ × ℕ)
evaluate_entry summed value_fields = do
  matrix_id ← read_u64
  query_count ← read_u64
  query_width ← read_u64
  check_width query_count query_width
  query_count ← host_len "query count" query_count
  query_width ← host_len "query width" query_width
  summed' ← add_or_overflow summed query_count
  entry_fields ← mul_or_overflow query_count query_width
  value_fields' ← add_or_overflow value_fields entry_fields
  pure (
    record {
      matrix_id = matrix_id;
      query_offset = summed;
      query_count = query_count;
      query_width = query_width;
      value_offset = value_fields;
    },
    summed',
    value_fields',
  )

unfoldable pub evaluate_entries :
    ℕ → ℕ → ℕ → Action FrameReader CodecError (List EvaluateEntryMeta × ℕ × ℕ)
evaluate_entries zero summed value_fields = pure ([], summed, value_fields)
evaluate_entries (suc count) summed value_fields = do
  (meta, summed, value_fields) ← evaluate_entry summed value_fields
  (metas, summed, value_fields) ← evaluate_entries count summed value_fields
  pure (meta ∷ metas, summed, value_fields)

unfoldable pub evaluate_query : Action FrameReader CodecError EvaluateQueryMeta
evaluate_query = do
  instance_id ← read_u128
  query_id ← read_u64
  pure (record { instance_id = instance_id; query_id = query_id })

unfoldable pub evaluate_queries : ℕ → Action FrameReader CodecError (List EvaluateQueryMeta)
evaluate_queries zero = pure []
evaluate_queries (suc count) = do
  query ← evaluate_query
  queries ← evaluate_queries count
  pure (query ∷ queries)

unfoldable pub plan_evaluate : Allocator → Action FrameReader CodecError EvaluatePlan
plan_evaluate allocator = do
  entry_count ← read_u64
  total_query_count ← read_u64
  require_descriptor_fit entry_count evaluate_entry_descriptor_bytes total_query_count
      evaluate_query_descriptor_bytes
  entry_count ← host_len "entry count" entry_count
  total_query_count ← host_len "total query count" total_query_count
  reserve_table allocator entry_count
  reserve_table allocator total_query_count
  (entries, summed, value_fields) ← evaluate_entries entry_count 0 0
  ensure (summed == total_query_count) (count_mismatch "query count" total_query_count summed)
  queries ← evaluate_queries total_query_count
  require_exact_value_region value_fields
  pure (record { entries = entries; queries = queries; value_fields = value_fields })
