-- ===== src/Examples/WireExamples.antt =====
-- The wire protocol's theorems at concrete messages.
use emvp_thesis.Base.{◌≡◌, refl, arith, some, [], ◌∷◌, ◌++◌, length, replicate, write_at}
use emvp_thesis.Base.Action.{ok}
use emvp_thesis.Wire.Error.{
  evaluate, upload_matrices, to_u8, from_u8, to_u32, from_u32, duplicate_query_id,
}
use emvp_thesis.Wire.Error.Codes.{codes_exact}
use mathlib.Core.Logic.{◌↔◌}
use emvp_thesis.Wire.Stream.{end_of_stream, extend}
use emvp_thesis.Wire.Frame.{read_frame_header, read_field_slice_into, open_payload}
use emvp_thesis.Wire.Frame.Reads.{framed}
use emvp_thesis.Wire.Frame.Header.{header, read-write_frame_header}
use emvp_thesis.Wire.Frame.Slices.{encoded, decoding, read_field_slice_into-decoding}
use emvp_thesis.Wire.Upload.Workspace.{UploadWorkspace, new_workspace, zero_field}
use emvp_thesis.Wire.Upload.Write.{write_upload_matrices}
use emvp_thesis.Wire.Upload.Payload.{payload, payload_len}
use emvp_thesis.Wire.Upload.Written.{frame}
use emvp_thesis.Wire.Upload.Receive.{read_upload}
use emvp_thesis.Wire.Upload.RoundTrip.{upload_round_trip}
use emvp_thesis.Examples.Sample.{
  granting, frame_fits, five, seven, five-IsElement, seven-IsElement, matrix, matrix-IsUpload, sink,
}

read-write_frame_header_example :
    read_frame_header (record { bytes = header evaluate 300 ++ (4 ∷ []); ending = end_of_stream })
    ≡ (
      ok (some (record { kind = evaluate; payload_len = 300 })),
      record { bytes = 4 ∷ []; ending = end_of_stream },
    )
read-write_frame_header_example =
    read-write_frame_header evaluate 300 (4 ∷ []) end_of_stream (omega arith)

read_field_slice_into-decoding_example :
    read_field_slice_into 1 2 (
      decoding
        (8 ∷ [])
        end_of_stream
        (encoded (five ∷ seven ∷ []) ++ (6 ∷ []))
        (replicate 3 zero_field))
    ≡ (
      ok tt,
      decoding
          (8 ∷ [])
          end_of_stream
          (6 ∷ [])
          (write_at (replicate 3 zero_field) 1 (five ∷ seven ∷ [])),
    )
read_field_slice_into-decoding_example =
    read_field_slice_into-decoding (8 ∷ []) end_of_stream (five ∷ seven ∷ []) 1 2 (6 ∷ [])
      (replicate 3 zero_field) refl (omega arith) (five-IsElement, (seven-IsElement, tt))

upload_round_trip_example :
    (w : UploadWorkspace) × (write_upload_matrices (matrix ∷ []) sink
      ≡ (ok (length (frame (matrix ∷ []))), extend sink (frame (matrix ∷ []))))
    × (read_frame_header
          (record { bytes = frame (matrix ∷ []) ++ (8 ∷ []); ending = end_of_stream })
        ≡ (
          ok (some (record { kind = upload_matrices; payload_len = payload_len (matrix ∷ []) })),
          record { bytes = payload (matrix ∷ []) ++ (8 ∷ []); ending = end_of_stream },
        ))
    × (read_upload granting (record {
      frame =
          open_payload
            (record { bytes = payload (matrix ∷ []) ++ (8 ∷ []); ending = end_of_stream })
            (payload_len (matrix ∷ []));
      workspace = new_workspace;
    })
        ≡ (ok (matrix ∷ []), record { frame = framed [] (8 ∷ []) end_of_stream; workspace = w }))
upload_round_trip_example =
    upload_round_trip granting (matrix ∷ []) sink new_workspace (8 ∷ []) end_of_stream (λ n. refl)
      (matrix-IsUpload, tt) (omega arith) frame_fits (omega arith)

codes_exact_example :
    ((from_u8 3 ≡ some evaluate) ↔ (to_u8 evaluate ≡ 3))
    × ((from_u32 14 ≡ some duplicate_query_id) ↔ (to_u32 duplicate_query_id ≡ 14))
codes_exact_example = codes_exact 3 14 evaluate duplicate_query_id
