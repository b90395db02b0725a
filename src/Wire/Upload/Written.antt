-- ===== src/Wire/Upload/Written.antt =====
-- `write_upload_matrices` writes exactly the documented frame and returns its length.
use emvp_thesis.Base.{
  ℕ, ◌+◌, ◌*◌, ◌≤◌, ◌≡◌, refl, ap, ◌∙◌, arith, List, [], ◌∷◌, ◌++◌, length, All, flat_map, sum_by,
  u64_max, append_assoc,
}
use emvp_thesis.Base.Action.{ok, for_each}
use emvp_thesis.Wire.Error.{upload_matrices}
use emvp_thesis.Wire.Stream.{Sink, Writes, Writes-bind, Writes-keep, Writes-return, Writes-for_each}
use emvp_thesis.Wire.Frame.{write_frame_header, header_bytes}
use emvp_thesis.Wire.Frame.Reads.{
  Writes-word, Writes-last_word, Writes-wire_len, checked_size-ok, field_byte_len-ok, wire_len-ok,
}
use emvp_thesis.Wire.Frame.Header.{header, Writes-header}
use emvp_thesis.Wire.Frame.Slices.{encoded, Writes-field_slice}
use emvp_thesis.Wire.Upload.{UploadMatrixView, upload_summary_bytes, upload_descriptor_bytes}
use emvp_thesis.Wire.Upload.Write.{upload_payload_len, write_descriptor, write_upload_matrices}
use emvp_thesis.Wire.Upload.Payload.{
  IsUpload, fields, descriptor, descriptor-append, table, all_values, payload, payload_len,
}

abbrev pub frame : List UploadMatrixView → List ℕ
frame ms = header upload_matrices (payload_len ms) ++ payload ms

upload_payload_len_lem :
    (ms : List UploadMatrixView) (acc : ℕ) (s : Sink)
    → All IsUpload ms
    → acc + length ms * 60 + sum_by fields ms * 4 ≤ u64_max
    → upload_payload_len acc ms s ≡ (ok (acc + length ms * 60 + sum_by fields ms * 4), s)
unfolding upload_payload_len
upload_payload_len_lem [] acc s us h = ap (λ (n : ℕ). (ok n, s)) (omega arith)
upload_payload_len_lem (m ∷ ms) acc s (u, us) h =
    rw
      (
        checked_size-ok acc upload_descriptor_bytes s (omega arith),
        wire_len-ok (length m.values) s (omega (arith, u.shape)),
        field_byte_len-ok (length m.values) s (omega (arith, u.shape)),
        checked_size-ok (acc + 60) (length m.values * 4) s (omega (arith, u.shape)),
        upload_payload_len_lem ms (acc + 60 + length m.values * 4) s us (omega (arith, u.shape)),
      )
      (ap (λ (n : ℕ). (ok n, s)) (omega (arith, u.shape)))

Writes-descriptor :
    (m : UploadMatrixView) → IsUpload m → Writes (write_descriptor m) (descriptor m []) tt
unfolding write_descriptor
Writes-descriptor m u = Writes-wire_len m.params.k _ _ tt (omega (arith, u.k_fits)) (
    Writes-word 8 m.params.k _ _ tt (
      Writes-wire_len m.params.ell _ _ tt (omega (arith, u.ell_fits)) (
        Writes-word 8 m.params.ell _ _ tt (
          Writes-wire_len m.params.b _ _ tt (omega (arith, u.b_fits)) (
            Writes-word 8 m.params.b _ _ tt (
              Writes-word 4 m.params.lambda _ _ tt (
                Writes-word 16 m.instance_id _ _ tt (
                  Writes-wire_len m.rows _ _ tt (omega (arith, u.rows_fit)) (
                    Writes-word 8 m.rows _ _ tt (
                      Writes-wire_len m.columns _ _ tt (omega (arith, u.columns_fit))
                        (Writes-last_word 8 m.columns)))))))))))

-- The table is the descriptors one after the other.
table-flat_map :
    (ms : List UploadMatrixView) (tail : List ℕ)
    → flat_map (λ (m : UploadMatrixView). descriptor m []) ms ++ tail ≡ table ms tail
table-flat_map [] tail = refl
table-flat_map (m ∷ ms) tail =
    append_assoc (descriptor m []) (flat_map (λ (n : UploadMatrixView). descriptor n []) ms) tail
    ∙ descriptor-append m [] (flat_map (λ (n : UploadMatrixView). descriptor n []) ms ++ tail)
    ∙ ap (descriptor m) (table-flat_map ms tail)

-- For matrices whose numbers fit their types and whose values fill their shapes, in a frame of less
-- than 2^64 bytes, and a writer with room for it, `write_upload_matrices` succeeds, appends exactly the
-- documented frame and returns the number of its bytes.
pub Writes-upload_matrices :
    (ms : List UploadMatrixView)
    → All IsUpload ms
    → header_bytes + payload_len ms ≤ u64_max
    → Writes (write_upload_matrices ms) (frame ms) (payload_len ms + header_bytes)
unfolding write_upload_matrices
Writes-upload_matrices ms us fits =
    Writes-bind (upload_payload_len upload_summary_bytes ms) _ [] _ (payload_len ms) _
      (Writes-keep _ (payload_len ms) (λ s. upload_payload_len_lem ms 8 s us (omega arith)))
      (Writes-bind (write_frame_header upload_matrices (payload_len ms)) _ _ _ tt _
        (Writes-header upload_matrices (payload_len ms))
        (Writes-wire_len (length ms) _ _ _ (omega arith) (
          Writes-word 8 (length ms) _ _ _ (
            rw (← table-flat_map ms (all_values ms)) (
              Writes-bind (for_each write_descriptor ms) _ _ _ tt _
                (Writes-for_each IsUpload write_descriptor
                  (λ (m : UploadMatrixView). descriptor m []) ms Writes-descriptor us)
                (Writes-return _ _ (all_values ms) tt _
                  (Writes-for_each IsUpload _ (λ (m : UploadMatrixView). encoded m.values) ms
                    (λ m _. Writes-field_slice m.values) us)
                  (λ s. checked_size-ok (payload_len ms) header_bytes s (omega arith))))))))
