-- ===== src/Wire/Products/Write.antt =====
-- `write_products` of `emvp-network/src/encode.rs`.
use emvp_thesis.Base.{ℕ, List, [], ◌∷◌, ◌==◌, length}
use emvp_thesis.Base.Action.{Action, pure, ensure, for_each, ◌>>=◌, ◌>>◌}
use emvp_thesis.Emvp.View.{AnswerRef}
use emvp_thesis.Wire.Error.{CodecError, count_mismatch, products}
use emvp_thesis.Wire.Stream.{Sink}
use emvp_thesis.Wire.Frame.{
  wire_len, checked_size, field_byte_len, write_u64, write_u128, write_frame_header,
  write_field_slice, header_bytes,
}
use emvp_thesis.Wire.Plan.{mul_or_overflow}
use emvp_thesis.Wire.Products.{
  ProductEntryInput, products_summary_bytes, products_entry_descriptor_bytes,
  products_answer_descriptor_bytes,
}

-- The inner loop of the sizing pass: the answers and the value fields counted so far.
unfoldable pub size_answers : ℕ → ℕ → ℕ → List AnswerRef → Action Sink CodecError (ℕ × ℕ)
size_answers words total fields [] = pure (total, fields)
size_answers words total fields (answer ∷ answers) = do
  length ← wire_len (length answer.values)
  ensure (length == words) (count_mismatch "answer values" words length)
  total ← checked_size total 1
  fields ← checked_size fields words
  size_answers words total fields answers

unfoldable pub size_products : ℕ → ℕ → List ProductEntryInput → Action Sink CodecError (ℕ × ℕ)
size_products total fields [] = pure (total, fields)
size_products total fields (entry ∷ entries) = do
  words ← mul_or_overflow entry.rows entry.blocks
  words ← wire_len words
  (total, fields) ← size_answers words total fields entry.answers
  size_products total fields entries

unfoldable pub write_product_entry : ProductEntryInput → Action Sink CodecError (Unit {0})
write_product_entry entry = do
  write_u64 entry.matrix_id
  write_u128 entry.instance_id
  rows ← wire_len entry.rows
  write_u64 rows
  blocks ← wire_len entry.blocks
  write_u64 blocks
  count ← wire_len (length entry.answers)
  write_u64 count

unfoldable pub write_products : List ProductEntryInput → Action Sink CodecError ℕ
write_products entries = do
  (total_answer_count, value_fields) ← size_products 0 0 entries
  entry_count ← wire_len (length entries)
  entry_table_bytes ← mul_or_overflow entry_count products_entry_descriptor_bytes
  answer_table_bytes ← mul_or_overflow total_answer_count products_answer_descriptor_bytes
  payload_len ← checked_size products_summary_bytes entry_table_bytes
  payload_len ← checked_size payload_len answer_table_bytes
  value_bytes ← field_byte_len value_fields
  payload_len ← checked_size payload_len value_bytes
  write_frame_header products payload_len
  entry_count ← wire_len (length entries)
  write_u64 entry_count
  write_u64 total_answer_count
  for_each write_product_entry entries
  for_each
      (λ (entry : ProductEntryInput).
        for_each (λ (answer : AnswerRef). write_u64 answer.query_id) entry.answers)
      entries
  for_each
      (λ (entry : ProductEntryInput).
        for_each (λ (answer : AnswerRef). write_field_slice answer.values) entry.answers)
      entries
  checked_size payload_len header_bytes
