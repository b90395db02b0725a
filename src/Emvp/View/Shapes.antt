-- ===== src/Emvp/View/Shapes.antt =====
-- The constructors of views accept exactly the values that fill the shape.
use emvp_thesis.Base.{
  ==-refl, ℕ, ◌*◌, ◌<◌, ◌≤◌, ◌≡◌, arith, some, List, length, ◌==◌, if◌then◌else◌, checked_mul,
  checked_mul-some, pos→==_zero, u64_max, Option-cases, inl, inr, checked_mul_value,
}
use emvp_thesis.Base.Action.{ok, err}
use emvp_thesis.Field.{FieldElement}
use emvp_thesis.Emvp.View.{
  length_mismatch, EncryptedMatrixRef, AnswerRef, new_matrix_ref, new_answer_ref, check_shape,
}

-- An answer whose values fill its positive shape is accepted as it is.
pub new_answer_ref-ok :
    (a : AnswerRef)
    → 0 < a.rows
    → 0 < a.blocks
    → a.rows * a.blocks ≤ u64_max
    → length a.values ≡ a.rows * a.blocks
    → new_answer_ref a.instance_id a.query_id a.values a.rows a.blocks ≡ ok a
unfolding new_answer_ref check_shape
new_answer_ref-ok a hr hb fits shape = rw (
  pos→==_zero a.rows hr,
  pos→==_zero a.blocks hb,
  checked_mul-some a.rows a.blocks fits,
  shape,
  ==-refl (a.rows * a.blocks),
)

pub new_matrix_ref-ok :
    (m : EncryptedMatrixRef)
    → 0 < m.rows
    → 0 < m.columns
    → m.rows * m.columns ≤ u64_max
    → length m.values ≡ m.rows * m.columns
    → new_matrix_ref m.instance_id m.rows m.columns m.values ≡ ok m
unfolding new_matrix_ref check_shape
new_matrix_ref-ok m hr hb fits shape = rw (
  pos→==_zero m.rows hr,
  pos→==_zero m.columns hb,
  checked_mul-some m.rows m.columns fits,
  shape,
  ==-refl (m.rows * m.columns),
)

accepted :
    (rows columns n c : ℕ) (x m : EncryptedMatrixRef)
    → (if rows == 0
        then err (length_mismatch "matrix rows" 1 0)
        else if columns == 0
        then err (length_mismatch "matrix columns" 1 0)
        else check_shape "matrix values" (some c) n x)
      ≡ ok m
    → c ≡ rows * columns
    → (0 < rows) × (0 < columns) × (n ≡ rows * columns) × (m ≡ x)
unfolding check_shape
accepted rows columns n c x m h e = (ground arith, ground arith, ground arith, ground arith)

-- A matrix view that is accepted has at least one row and one column, its values fill rows times
-- columns, and it holds what was given.
pub new_matrix_ref_accepts :
    (instance_id rows columns : ℕ) (values : List FieldElement) (m : EncryptedMatrixRef)
    → new_matrix_ref instance_id rows columns values ≡ ok m
    → (0 < rows)
      × (0 < columns)
      × (length values ≡ rows * columns)
      × (m ≡ record { rows = rows; columns = columns; instance_id = instance_id; values = values })
unfolding new_matrix_ref
new_matrix_ref_accepts instance_id rows columns values m h =
    elim (Option-cases (checked_mul rows columns)) [
      | inl e ↦ absurd (ground (arith, rw e at h))
      | inr (c, e) ↦
          let k = rw e at h in
          let (product, fits) = checked_mul_value rows columns e in
          accepted rows columns (length values) c _ m k product
    ]
