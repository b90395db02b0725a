-- ===== src/Wire/Upload/Write.antt =====
-- `write_upload_matrices` of `emvp-network/src/encode.rs`.
use emvp_thesis.Base.{ℕ, List, [], ◌∷◌, length}
use emvp_thesis.Base.Action.{Action, pure, ◌>>=◌, ◌>>◌, for_each}
use emvp_thesis.Wire.Error.{CodecError, upload_matrices}
use emvp_thesis.Wire.Stream.{Sink}
use emvp_thesis.Wire.Frame.{
  wire_len, checked_size, field_byte_len, write_u32, write_u64, write_u128, write_frame_header,
  write_field_slice, header_bytes,
}
use emvp_thesis.Wire.Upload.{UploadMatrixView, upload_summary_bytes, upload_descriptor_bytes}

-- The payload length that `write_upload_matrices` computes before it writes.
unfoldable pub upload_payload_len : ℕ → List UploadMatrixView → Action Sink CodecError ℕ
upload_payload_len payload_len [] = pure payload_len
upload_payload_len payload_len (upload ∷ uploads) = do
  payload_len ← checked_size payload_len upload_descriptor_bytes
  count ← wire_len (length upload.values)
  value_bytes ← field_byte_len count
  payload_len ← checked_size payload_len value_bytes
  upload_payload_len payload_len uploads

unfoldable pub write_descriptor : UploadMatrixView → Action Sink CodecError (Unit {0})
write_descriptor upload = do
  k ← wire_len upload.params.k
  write_u64 k
  ell ← wire_len upload.params.ell
  write_u64 ell
  b ← wire_len upload.params.b
  write_u64 b
  write_u32 upload.params.lambda
  write_u128 upload.instance_id
  rows ← wire_len upload.rows
  write_u64 rows
  columns ← wire_len upload.columns
  write_u64 columns

unfoldable pub write_upload_matrices : List UploadMatrixView → Action Sink CodecError ℕ
unfolding upload_payload_len write_descriptor
write_upload_matrices uploads = do
  payload_len ← upload_payload_len upload_summary_bytes uploads
  write_frame_header upload_matrices payload_len
  count ← wire_len (length uploads)
  write_u64 count
  for_each write_descriptor uploads
  for_each (λ (upload : UploadMatrixView). write_field_slice upload.values) uploads
  checked_size payload_len header_bytes
