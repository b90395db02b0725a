-- ===== src/Wire/Evaluate/Write.antt =====
-- `write_evaluate` of `emvp-network/src/encode.rs`.
use emvp_thesis.Base.{ℕ, Option, none, some, List, [], ◌∷◌, ◌==◌, length}
use emvp_thesis.Base.Action.{Action, pure, ensure, for_each, ◌>>=◌, ◌>>◌}
use emvp_thesis.Emvp.View.{EncryptedQueryRef}
use emvp_thesis.Wire.Error.{CodecError, count_mismatch, evaluate}
use emvp_thesis.Wire.Stream.{Sink}
use emvp_thesis.Wire.Frame.{
  wire_len, checked_size, field_byte_len, write_u64, write_u128, write_frame_header,
  write_field_slice, header_bytes,
}
use emvp_thesis.Wire.Plan.{mul_or_overflow}
use emvp_thesis.Wire.Evaluate.{
  EvaluateEntryInput, evaluate_summary_bytes, evaluate_entry_descriptor_bytes,
  evaluate_query_descriptor_bytes,
}

-- The first width seen in an entry binds the later ones.
unfoldable pub check_same_width : Option ℕ → ℕ → Action Sink CodecError (Unit {0})
check_same_width none length = pure tt
check_same_width (some expected) length =
    ensure (expected == length) (count_mismatch "query width" expected length)

-- The inner loop of the sizing pass: the queries and the value fields counted so far.
unfoldable pub size_queries :
    Option ℕ → ℕ → ℕ → List EncryptedQueryRef → Action Sink CodecError (ℕ × ℕ)
size_queries width total fields [] = pure (total, fields)
size_queries width total fields (query ∷ queries) = do
  length ← wire_len (length query.values)
  check_same_width width length
  total ← checked_size total 1
  fields ← checked_size fields length
  size_queries (some length) total fields queries

unfoldable pub size_entries : ℕ → ℕ → List EvaluateEntryInput → Action Sink CodecError (ℕ × ℕ)
size_entries total fields [] = pure (total, fields)
size_entries total fields (entry ∷ entries) = do
  (total, fields) ← size_queries none total fields entry.queries
  size_entries total fields entries

-- `queries.first().map_or(Ok(0), …)`
unfoldable pub first_width : List EncryptedQueryRef → Action Sink CodecError ℕ
first_width [] = pure 0
first_width (query ∷ queries) = wire_len (length query.values)

unfoldable pub write_entry : EvaluateEntryInput → Action Sink CodecError (Unit {0})
write_entry entry = do
  width ← first_width entry.queries
  write_u64 entry.matrix_id
  count ← wire_len (length entry.queries)
  write_u64 count
  write_u64 width

unfoldable pub write_query : EncryptedQueryRef → Action Sink CodecError (Unit {0})
write_query query = do write_u128 query.instance_id; write_u64 query.query_id

unfoldable pub write_evaluate : List EvaluateEntryInput → Action Sink CodecError ℕ
write_evaluate entries = do
  (total_query_count, value_fields) ← size_entries 0 0 entries
  entry_count ← wire_len (length entries)
  entry_table_bytes ← mul_or_overflow entry_count evaluate_entry_descriptor_bytes
  query_table_bytes ← mul_or_overflow total_query_count evaluate_query_descriptor_bytes
  payload_len ← checked_size evaluate_summary_bytes entry_table_bytes
  payload_len ← checked_size payload_len query_table_bytes
  value_bytes ← field_byte_len value_fields
  payload_len ← checked_size payload_len value_bytes
  write_frame_header evaluate payload_len
  entry_count ← wire_len (length entries)
  write_u64 entry_count
  write_u64 total_query_count
  for_each write_entry entries
  for_each (λ (entry : EvaluateEntryInput). for_each write_query entry.queries) entries
  for_each
      (λ (entry : EvaluateEntryInput).
        for_each (λ (query : EncryptedQueryRef). write_field_slice query.values) entry.queries)
      entries
  checked_size payload_len header_bytes
