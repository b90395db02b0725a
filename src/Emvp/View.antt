-- ===== src/Emvp/View.antt =====
-- `emvp/src/view.rs`: matrices, queries and answers borrowed from a decoder's workspace.
pub mod Shapes
use emvp_thesis.Base.{ℕ, String, Option, none, some, List, length, ◌==◌, if◌then◌else◌, checked_mul}
use emvp_thesis.Base.Action.{Result, ok, err}
use emvp_thesis.Field.{FieldElement}

-- What the constructors of views report, of `ProtocolError` in `emvp/src/protocol.rs`.
pub data ShapeError : Type 0 where
  length_mismatch : String → ℕ → ℕ → ShapeError
  dimension_overflow : ShapeError

pub record EncryptedMatrixRef : Type 0 where
  pub rows : ℕ
  pub columns : ℕ
  pub instance_id : ℕ
  pub values : List FieldElement

pub record EncryptedQueryRef : Type 0 where
  pub instance_id : ℕ
  pub query_id : ℕ
  pub values : List FieldElement

pub record AnswerRef : Type 0 where
  pub rows : ℕ
  pub blocks : ℕ
  pub instance_id : ℕ
  pub query_id : ℕ
  pub values : List FieldElement

-- The value count must cover the shape exactly: `check_len` after a checked product.
check_shape : {A : Type 0} → String → Option ℕ → ℕ → A → Result ShapeError A
check_shape name none actual x = err dimension_overflow
check_shape name (some expected) actual x =
    if expected == actual then ok x else err (length_mismatch name expected actual)

-- `EncryptedMatrixRef::new`
unfoldable pub new_matrix_ref : ℕ → ℕ → ℕ → List FieldElement → Result ShapeError EncryptedMatrixRef
unfolding check_shape
new_matrix_ref instance_id rows columns values =
    if rows == 0
    then err (length_mismatch "matrix rows" 1 0)
    else if columns == 0
    then err (length_mismatch "matrix columns" 1 0)
    else check_shape "matrix values" (checked_mul rows columns) (length values)
        (record { rows = rows; columns = columns; instance_id = instance_id; values = values })

-- `EncryptedQueryRef::new` imposes nothing.
unfoldable pub new_query_ref : ℕ → ℕ → List FieldElement → Result ShapeError EncryptedQueryRef
new_query_ref instance_id query_id values =
    ok (record { instance_id = instance_id; query_id = query_id; values = values })

-- `AnswerRef::new`
unfoldable pub new_answer_ref : ℕ → ℕ → List FieldElement → ℕ → ℕ → Result ShapeError AnswerRef
unfolding check_shape
new_answer_ref instance_id query_id values rows blocks =
    if rows == 0
    then err (length_mismatch "answer rows" 1 0)
    else if blocks == 0
    then err (length_mismatch "answer blocks" 1 0)
    else check_shape "answer matrix" (checked_mul rows blocks) (length values) (record {
      rows = rows;
      blocks = blocks;
      instance_id = instance_id;
      query_id = query_id;
      values = values;
    })

-- `Result::ok`
abbrev pub result_ok : {E A : Type 0} → Result E A → Option A
result_ok (ok a) = some a
result_ok (err e) = none
