-- ===== src/Wire/Upload/Decoded.antt =====
-- Reserving for a plan, decoding the value region into the arena, and the views of the result.
use emvp_thesis.Base.{
  ℕ, ◌+◌, ◌*◌, ◌≤◌, ◌≡◌, refl, sym, ap, ◌∙◌, arith, List, [], ◌∷◌, ◌++◌, length, some, All, le→leb,
  sum_by, usize_max, u64_max, flat_map, get_elem?-append, checked_mul-some, checked_add-some,
  length-append, append_assoc, take, drop, length-take, take-append-drop, write_at, write_at-append,
  length-write_at, write_at-append_values, get_range-append,
}
use emvp_thesis.Base.Action.{ok, for_each}
use emvp_thesis.Field.{FieldElement}
use emvp_thesis.Wire.Stream.{Ending}
use emvp_thesis.Wire.Frame.Reads.{finish-framed}
use emvp_thesis.Wire.Frame.Slices.{encoded, decoding, read_field_slice_into-decoding}
use emvp_thesis.Wire.Upload.{UploadMatrixMeta, UploadMatrixView}
use emvp_thesis.Wire.Upload.Workspace.{
  UploadWorkspace, decode_matrix, decode_upload, matrix_view, view, views_from, views,
}
use emvp_thesis.Wire.Upload.Payload.{
  IsUpload, fields, all_values, meta_of, metas, plan_of, length-metas,
}

-- The values of all matrices, one after the other.
abbrev pub flat_values : List UploadMatrixView → List FieldElement
flat_values ms = flat_map (λ (m : UploadMatrixView). m.values) ms

pub length-flat_values :
    (ms : List UploadMatrixView) → All IsUpload ms → length (flat_values ms) ≡ sum_by fields ms
length-flat_values [] us = refl
length-flat_values (m ∷ ms) (u, us) =
    omega (arith, length-append m.values (flat_values ms), u.shape, length-flat_values ms us)

module _ (rest : List ℕ) (ending : Ending) where
  decode_matrix-decoding :
      (m : UploadMatrixView) (offset : ℕ) (tail : List ℕ) (arena : List FieldElement)
      → IsUpload m
      → offset + fields m ≤ length arena
      → length arena * 4 ≤ u64_max
      → decode_matrix (meta_of offset m) (decoding rest ending (encoded m.values ++ tail) arena)
        ≡ (ok tt, decoding rest ending tail (write_at arena offset m.values))
  unfolding decode_matrix
  decode_matrix-decoding m offset tail arena u h fits =
      rw
        (
          checked_mul-some m.rows m.columns (omega arith),
          checked_add-some offset (fields m) (omega arith),
          le→leb (offset + fields m) (length arena) h,
        )
        (read_field_slice_into-decoding rest ending m.values offset (fields m) tail arena u.shape
          (omega arith) u.elements)

  decode_matrices-decoding :
      (ms : List UploadMatrixView) (offset : ℕ) (arena : List FieldElement)
      → All IsUpload ms
      → offset + sum_by fields ms ≤ length arena
      → length arena * 4 ≤ u64_max
      → for_each decode_matrix (metas offset ms) (decoding rest ending (all_values ms) arena)
        ≡ (ok tt, decoding rest ending [] (write_at arena offset (flat_values ms)))
  decode_matrices-decoding [] offset arena us h fits = unfold write_at in refl
  decode_matrices-decoding (m ∷ ms) offset arena (u, us) h fits =
      rw
        (
          decode_matrix-decoding m offset (all_values ms) arena u (omega arith) fits,
          decode_matrices-decoding ms (offset + fields m) (write_at arena offset m.values) us
              (omega (arith, length-write_at arena offset m.values))
              (omega (arith, length-write_at arena offset m.values)),
        )
        (ap (λ a. (ok tt, decoding rest ending [] a))
          (ap (λ (n : ℕ). write_at (write_at arena offset m.values) (offset + n) (flat_values ms))
              (sym u.shape)
            ∙ sym (write_at-append_values arena offset m.values (flat_values ms))))

  pub decode_upload-decoding :
      (ms : List UploadMatrixView) (arena : List FieldElement)
      → All IsUpload ms
      → sum_by fields ms ≤ length arena
      → length arena * 4 ≤ u64_max
      → decode_upload (plan_of ms) (decoding rest ending (all_values ms) arena)
        ≡ (ok tt, decoding rest ending [] (write_at arena 0 (flat_values ms)))
  unfolding decode_upload
  decode_upload-decoding ms arena us h fits =
      rw (decode_matrices-decoding ms 0 arena us (omega arith) fits, finish-framed rest ending)

-- The view at an index whose record and values are known.
view_lem :
    (m : UploadMatrixView) (ws : UploadWorkspace) (done more : List UploadMatrixMeta)
    (before after : List FieldElement)
    → ws.matrices.items ≡ done ++ (meta_of (length before) m ∷ more)
    → ws.arena.items ≡ before ++ (m.values ++ after)
    → IsUpload m
    → length ws.arena.items ≤ usize_max
    → view ws (length done) ≡ some m
unfolding view matrix_view
view_lem m ws done more before after em ea u fits = rw (
  em,
  ea,
  get_elem?-append done more (meta_of (length before) m) (length done) refl,
  checked_mul-some m.rows m.columns (omega (arith, size)),
  checked_add-some (length before) (fields m) (omega (arith, size)),
  get_range-append before m.values after (length before) (length before + fields m) refl
      (omega (arith, u.shape)),
)
  where
    size : length before + fields m ≤ usize_max
    size = omega (
      arith,
      ap length ea,
      length-append before (m.values ++ after),
      length-append m.values after,
      u.shape,
      fits,
    )

-- The views of a workspace are the matrices, where its table and its arena hold them.
views_from_lem :
    (ms : List UploadMatrixView) (ws : UploadWorkspace) (done : List UploadMatrixMeta)
    (before after : List FieldElement)
    → ws.matrices.items ≡ done ++ metas (length before) ms
    → ws.arena.items ≡ before ++ (flat_values ms ++ after)
    → All IsUpload ms
    → length ws.arena.items ≤ usize_max
    → views_from (length ms) (length done) ws ≡ ms
unfolding views_from
views_from_lem [] ws done before after em ea us fits = refl
views_from_lem (m ∷ ms) ws done before after em ea (u, us) fits =
    rw
      (
        view_lem m ws done (metas (length before + fields m) ms) before (flat_values ms ++ after) em
            first u fits,
        views_from,
      )
      (ap (λ t. m ∷ t)
        (ap (λ (n : ℕ). views_from (length ms) n ws) (sym next)
          ∙ views_from_lem ms ws (done ++ (meta_of (length before) m ∷ [])) (before ++ m.values)
              after table_next arena_next us fits))
  where
    first : ws.arena.items ≡ before ++ (m.values ++ (flat_values ms ++ after))
    first = ea ∙ ap (λ t. before ++ t) (append_assoc m.values (flat_values ms) after)

    next : length (done ++ (meta_of (length before) m ∷ [])) ≡ length done + 1
    next = omega (arith, length-append done (meta_of (length before) m ∷ []))

    offset : length (before ++ m.values) ≡ length before + fields m
    offset = omega (arith, length-append before m.values, u.shape)

    table_next :
        ws.matrices.items
        ≡ (done ++ (meta_of (length before) m ∷ [])) ++ metas (length (before ++ m.values)) ms
    table_next =
        em
        ∙ sym (
            append_assoc done (meta_of (length before) m ∷ [])
              (metas (length before + fields m) ms))
        ∙ ap (λ (n : ℕ). (done ++ (meta_of (length before) m ∷ [])) ++ metas n ms) (sym offset)

    arena_next : ws.arena.items ≡ (before ++ m.values) ++ (flat_values ms ++ after)
    arena_next = first ∙ sym (append_assoc before m.values (flat_values ms ++ after))

-- After decoding into an arena that is large enough, the views are the matrices.
pub views-decoded :
    (ms : List UploadMatrixView) (ws : UploadWorkspace) (arena : List FieldElement)
    → ws.matrices.items ≡ metas 0 ms
    → ws.arena.items ≡ write_at arena 0 (flat_values ms)
    → sum_by fields ms ≤ length arena
    → All IsUpload ms
    → length arena ≤ usize_max
    → views ws ≡ ms
unfolding views
views-decoded ms ws arena em ea h us fits =
    ap (λ (n : ℕ). views_from n 0 ws) (ap length em ∙ length-metas 0 ms)
    ∙ views_from_lem ms ws [] [] (drop total arena) em (ea ∙ filled) us
        (omega (arith, ap length ea, length-write_at arena 0 (flat_values ms), fits))
  where
    total : ℕ
    total = length (flat_values ms)

    filled : write_at arena 0 (flat_values ms) ≡ flat_values ms ++ drop total arena
    filled =
        ap (λ t. write_at t 0 (flat_values ms)) (sym (take-append-drop total arena))
        ∙ write_at-append [] (take total arena) (drop total arena) (flat_values ms) 0 refl
            (omega (arith, length-take total arena, length-flat_values ms us))
