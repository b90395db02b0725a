-- ===== src/Wire/Upload/RoundTrip.antt =====
-- From the client's writer to the server's views: an uploaded matrix set arrives unchanged.
use emvp_thesis.Base.{
  ℕ, ◌+◌, ◌*◌, ◌≤◌, ◌≡◌, refl, sym, ap, ◌∙◌, arith, List, [], ◌++◌, length, All, some, sum_by,
  u64_max, append_assoc, length-append, write_at,
}
use emvp_thesis.Base.Action.{ok}
use emvp_thesis.Base.Vector.{Allocator, refill}
use emvp_thesis.Wire.Error.{upload_matrices}
use emvp_thesis.Wire.Stream.{Ending, Sink, extend}
use emvp_thesis.Wire.Frame.{open_payload, read_frame_header, header_bytes}
use emvp_thesis.Wire.Frame.Header.{header, length-header, read-write_frame_header}
use emvp_thesis.Wire.Frame.Reads.{framed}
use emvp_thesis.Wire.Plan.Growth.{Grants, grow-ok, grow_capacity-ok}
use emvp_thesis.Wire.Upload.{UploadMatrixView}
use emvp_thesis.Wire.Upload.Workspace.{UploadWorkspace, reserve, zero_field}
use emvp_thesis.Wire.Upload.Write.{write_upload_matrices}
use emvp_thesis.Wire.Upload.Payload.{
  IsUpload, fields, payload, payload_len, length-payload, plan_of, metas,
}
use emvp_thesis.Wire.Upload.Planned.{plan_upload-framed}
use emvp_thesis.Wire.Upload.Written.{frame, Writes-upload_matrices}
use emvp_thesis.Wire.Upload.Decoded.{flat_values, decode_upload-decoding, views-decoded}
use emvp_thesis.Wire.Upload.Receive.{read_upload}

-- Where the program can hold it: an arena's bytes fit an address.
abbrev pub IsAddressable : UploadWorkspace → Type 0
IsAddressable ws = length ws.arena.items * 4 ≤ u64_max

-- The workspace after `reserve`: the records of the plan, and an arena that is large enough.
reserve_lem :
    (allocator : Allocator) (ms : List UploadMatrixView) (ws : UploadWorkspace)
    → Grants allocator
    → IsAddressable ws
    → sum_by fields ms * 4 ≤ u64_max
    → (w : UploadWorkspace) × (reserve allocator (plan_of ms) ws ≡ (ok tt, w))
      × (w.matrices.items ≡ metas 0 ms)
      × (sum_by fields ms ≤ length w.arena.items)
      × (IsAddressable w)
unfolding reserve refill
reserve_lem allocator ms ws granted fits small =
    let (arena, grow_eq, enough) =
      grow-ok allocator granted (sum_by fields ms) zero_field ws.arena ws in
    let ws1 : UploadWorkspace = record ws { arena = arena } in
    let (table, capacity_eq, same) =
      grow_capacity-ok allocator granted (length (metas 0 ms)) ws.matrices ws1 in
    (
      record { arena = arena; matrices = refill allocator (metas 0 ms) table },
      rw (grow_eq, capacity_eq),
      refl,
      enough.0,
      omega (arith, enough.1),
    )

-- The server's reader turns a payload into the matrices that it was made of, and stops at its end.
pub read_upload-framed :
    (allocator : Allocator) (ms : List UploadMatrixView) (ws : UploadWorkspace) (rest : List ℕ)
    (ending : Ending)
    → Grants allocator
    → All IsUpload ms
    → payload_len ms ≤ u64_max
    → IsAddressable ws
    → (w : UploadWorkspace) × (read_upload allocator
          (record { frame = framed (payload ms) rest ending; workspace = ws })
        ≡ (ok ms, record { frame = framed [] rest ending; workspace = w }))
unfolding read_upload
read_upload-framed allocator ms ws rest ending granted us fits small =
    let (w, reserved, table, enough, addressable) =
      reserve_lem allocator ms ws granted small (omega arith) in
    let decoded = write_at w.arena.items 0 (flat_values ms) in
    let final : UploadWorkspace = record w { arena = record (w.arena) { items = decoded } } in
    (
      final,
      rw (
        plan_upload-framed rest ending allocator ms us fits (granted (length ms)),
        reserved,
        decode_upload-decoding rest ending ms w.arena.items us enough addressable,
        views-decoded ms final w.arena.items table refl enough us (omega arith),
      ),
    )

-- For matrices whose numbers fit their types and whose values fill their shapes, in a frame of less
-- than 2^64 bytes, a writer with room for it and an allocator that grants: the writer appends the frame
-- and returns its length; the header reader returns the frame's kind and payload length; and
-- `read_upload` on that payload returns the same matrices and leaves the bytes behind the frame.
pub upload_round_trip :
    (allocator : Allocator) (ms : List UploadMatrixView) (sink : Sink) (ws : UploadWorkspace)
    (rest : List ℕ) (ending : Ending)
    → Grants allocator
    → All IsUpload ms
    → header_bytes + payload_len ms ≤ u64_max
    → length (frame ms) ≤ sink.room
    → IsAddressable ws
    → (w : UploadWorkspace) × (write_upload_matrices ms sink
        ≡ (ok (length (frame ms)), extend sink (frame ms)))
      × (read_frame_header (record { bytes = frame ms ++ rest; ending = ending }) ≡ (
        ok (some (record { kind = upload_matrices; payload_len = payload_len ms })),
        record { bytes = payload ms ++ rest; ending = ending },
      ))
      × (read_upload allocator (record {
        frame =
            open_payload (record { bytes = payload ms ++ rest; ending = ending }) (payload_len ms);
        workspace = ws;
      })
          ≡ (ok ms, record { frame = framed [] rest ending; workspace = w }))
upload_round_trip allocator ms sink ws rest ending granted us fits room small =
    let (w, received) =
      read_upload-framed allocator ms ws rest ending granted us (omega arith) small in
    (
      w,
      Writes-upload_matrices ms us fits sink room
          ∙ ap (λ (n : ℕ). (ok n, extend sink (frame ms)))
              (omega (
                arith,
                length-append (header upload_matrices (payload_len ms)) (payload ms),
                length-header upload_matrices (payload_len ms),
                length-payload ms us,
              )),
      ap (λ t. read_frame_header (record { bytes = t; ending = ending }))
            (append_assoc (header upload_matrices (payload_len ms)) (payload ms) rest)
          ∙ read-write_frame_header upload_matrices (payload_len ms) (payload ms ++ rest) ending
              (omega arith),
      ap
            (λ (n : ℕ). read_upload allocator (record {
              frame = open_payload (record { bytes = payload ms ++ rest; ending = ending }) n;
              workspace = ws;
            }))
            (sym (length-payload ms us))
          ∙ received,
    )
