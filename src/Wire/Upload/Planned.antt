-- ===== src/Wire/Upload/Planned.antt =====
-- `plan_upload` on a well-formed payload: it returns the records of the matrices and stops in front
-- of the value region.
use emvp_thesis.Base.{
  ℕ, ◌+◌, ◌*◌, ◌≤◌, ◌≡◌, ap, arith, List, [], ◌∷◌, length, All, true, le→leb, sum_by, usize_max,
  u64_max, checked_mul-some, checked_add-some, pos→==_zero,
}
use emvp_thesis.Base.Action.{ok}
use emvp_thesis.Base.Vector.{Allocator}
use emvp_thesis.Wire.Stream.{Ending}
use emvp_thesis.Wire.Frame.Reads.{framed, read_word-framed, host_len-ok}
use emvp_thesis.Wire.Plan.Checks.{reserve_table-ok, require_exact_value_region-ok}
use emvp_thesis.Wire.Upload.{
  UploadMatrixView, upload_descriptor_bytes, upload_descriptor, upload_descriptors, plan_upload,
}
use emvp_thesis.Wire.Upload.Payload.{
  IsUpload, fields, descriptor, table, all_values, payload, payload_len, meta_of, metas, plan_of,
  length-table, length-all_values,
}

module _ (rest : List ℕ) (ending : Ending) where
  upload_descriptor-framed :
      (m : UploadMatrixView) (offset : ℕ) (tail : List ℕ)
      → IsUpload m
      → offset + fields m ≤ usize_max
      → upload_descriptor offset (framed (descriptor m tail) rest ending)
        ≡ (ok (meta_of offset m, offset + fields m), framed tail rest ending)
  unfolding upload_descriptor
  upload_descriptor-framed m offset tail u h = rw (
    read_word-framed rest ending 8 m.params.k _ u.k_fits,
    read_word-framed rest ending 8 m.params.ell _ u.ell_fits,
    read_word-framed rest ending 8 m.params.b _ u.b_fits,
    read_word-framed rest ending 4 m.params.lambda _ u.lambda_fits,
    read_word-framed rest ending 16 m.instance_id _ u.instance_fits,
    read_word-framed rest ending 8 m.rows _ u.rows_fit,
    read_word-framed rest ending 8 m.columns tail u.columns_fit,
    pos→==_zero m.rows u.rows_positive,
    pos→==_zero m.columns u.columns_positive,
    host_len-ok "matrix rows" m.rows (framed tail rest ending) (omega (arith, u.rows_fit)),
    host_len-ok "matrix columns" m.columns (framed tail rest ending) (omega (arith, u.columns_fit)),
    checked_mul-some m.rows m.columns (omega arith),
    checked_add-some offset (fields m) h,
    host_len-ok "parameter k" m.params.k (framed tail rest ending) (omega (arith, u.k_fits)),
    host_len-ok "parameter ell" m.params.ell (framed tail rest ending) (omega (arith, u.ell_fits)),
    host_len-ok "parameter b" m.params.b (framed tail rest ending) (omega (arith, u.b_fits)),
  )

  upload_descriptors-framed :
      (ms : List UploadMatrixView) (offset : ℕ) (tail : List ℕ)
      → All IsUpload ms
      → offset + sum_by fields ms ≤ usize_max
      → upload_descriptors (length ms) offset (framed (table ms tail) rest ending)
        ≡ (ok (metas offset ms, offset + sum_by fields ms), framed tail rest ending)
  unfolding upload_descriptors
  upload_descriptors-framed [] offset tail us h =
      ap (λ (n : ℕ). (ok ([], n), framed tail rest ending)) (omega arith)
  upload_descriptors-framed (m ∷ ms) offset tail (u, us) h =
      rw
        (
          upload_descriptor-framed m offset (table ms tail) u (omega arith),
          upload_descriptors-framed ms (offset + fields m) tail us (omega arith),
        )
        (ap (λ (n : ℕ). (ok (metas offset (m ∷ ms), n), framed tail rest ending)) (omega arith))

  -- The plan of a payload that holds the matrices `ms`.
  pub plan_upload-framed :
      (allocator : Allocator) (ms : List UploadMatrixView)
      → All IsUpload ms
      → payload_len ms ≤ u64_max
      → allocator.grants (length ms) ≡ true
      → plan_upload allocator (framed (payload ms) rest ending)
        ≡ (ok (plan_of ms), framed (all_values ms) rest ending)
  unfolding plan_upload
  plan_upload-framed allocator ms us fits granted =
      rw
        (
          read_word-framed rest ending 8 (length ms) _ (omega arith),
          checked_mul-some (length ms) upload_descriptor_bytes (omega arith),
          le→leb (length ms * upload_descriptor_bytes) (length (table ms (all_values ms)))
              (omega (arith, length-table ms (all_values ms))),
          host_len-ok "matrix count" (length ms) (framed (table ms (all_values ms)) rest ending)
              (omega arith),
          reserve_table-ok allocator (length ms) (framed (table ms (all_values ms)) rest ending)
              granted,
          upload_descriptors-framed ms 0 (all_values ms) us (omega arith),
          require_exact_value_region-ok (all_values ms) rest ending (0 + sum_by fields ms)
              (omega (arith, length-all_values ms us)) (omega arith),
        )
        (ap
          (λ (n : ℕ). (
            ok (record { matrices = metas 0 ms; value_fields = n }),
            framed (all_values ms) rest ending,
          ))
          (omega arith))
