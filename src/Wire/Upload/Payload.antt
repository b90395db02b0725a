-- ===== src/Wire/Upload/Payload.antt =====
-- The payload of an `UploadMatrices` frame as `emvp-network/src/lib.rs` documents it: a count, a
-- 60-byte descriptor for each matrix, and the encoded values.
use emvp_thesis.Base.{
  ℕ, ◌+◌, ◌*◌, ◌^◌, ◌<◌, ◌≡◌, refl, arith, List, [], ◌∷◌, ◌++◌, length, All, flat_map,
  length-append, append_assoc, sum_by,
}
use emvp_thesis.Base.Words.{to_le_bytes, length-to_le_bytes}
use emvp_thesis.Wire.Frame.Slices.{IsElement, encoded, length-encoded}
use emvp_thesis.Wire.Upload.{
  UploadMatrixMeta, UploadPlan, UploadMatrixView, upload_descriptor_bytes,
}

-- A matrix that the client may upload: its numbers fit their types, its shape is that of its values.
pub record IsUpload (m : UploadMatrixView) : Type 0 where
  pub k_fits : m.params.k < 2 ^ 64
  pub ell_fits : m.params.ell < 2 ^ 64
  pub b_fits : m.params.b < 2 ^ 64
  pub lambda_fits : m.params.lambda < 2 ^ 32
  pub instance_fits : m.instance_id < 2 ^ 128
  pub rows_fit : m.rows < 2 ^ 64
  pub columns_fit : m.columns < 2 ^ 64
  pub rows_positive : 0 < m.rows
  pub columns_positive : 0 < m.columns
  pub shape : length m.values ≡ m.rows * m.columns
  pub elements : All IsElement m.values

abbrev pub fields : UploadMatrixView → ℕ
fields m = m.rows * m.columns

-- A descriptor before the bytes that follow it.
abbrev pub descriptor : UploadMatrixView → List ℕ → List ℕ
descriptor m tail =
    to_le_bytes 8 m.params.k
    ++ (to_le_bytes 8 m.params.ell
        ++ (to_le_bytes 8 m.params.b
            ++ (to_le_bytes 4 m.params.lambda
                ++ (to_le_bytes 16 m.instance_id
                    ++ (to_le_bytes 8 m.rows ++ (to_le_bytes 8 m.columns ++ tail))))))

pub descriptor-append :
    (m : UploadMatrixView) (tail more : List ℕ)
    → descriptor m tail ++ more ≡ descriptor m (tail ++ more)
descriptor-append m tail more = simp append_assoc

pub length-descriptor :
    (m : UploadMatrixView) (tail : List ℕ)
    → length (descriptor m tail) ≡ upload_descriptor_bytes + length tail
length-descriptor m tail = simp (length-append, length-to_le_bytes) (omega arith)

-- The descriptor table, before what follows it.
abbrev pub table : List UploadMatrixView → List ℕ → List ℕ
table [] tail = tail
table (m ∷ ms) tail = descriptor m (table ms tail)

pub length-table :
    (ms : List UploadMatrixView) (tail : List ℕ)
    → length (table ms tail) ≡ length ms * upload_descriptor_bytes + length tail
length-table [] tail = omega arith
length-table (m ∷ ms) tail =
    omega (arith, length-descriptor m (table ms tail), length-table ms tail)

abbrev pub all_values : List UploadMatrixView → List ℕ
all_values ms = flat_map (λ (m : UploadMatrixView). encoded m.values) ms

pub length-all_values :
    (ms : List UploadMatrixView) → All IsUpload ms → length (all_values ms) ≡ sum_by fields ms * 4
length-all_values [] h = omega arith
length-all_values (m ∷ ms) (hm, hms) = omega (
  arith,
  length-append (encoded m.values) (all_values ms),
  length-encoded m.values,
  hm.shape,
  length-all_values ms hms,
)

abbrev pub payload : List UploadMatrixView → List ℕ
payload ms = to_le_bytes 8 (length ms) ++ table ms (all_values ms)

abbrev pub payload_len : List UploadMatrixView → ℕ
payload_len ms = 8 + length ms * upload_descriptor_bytes + sum_by fields ms * 4

pub length-payload :
    (ms : List UploadMatrixView) → All IsUpload ms → length (payload ms) ≡ payload_len ms
length-payload ms h = omega (
  arith,
  length-append (to_le_bytes 8 (length ms)) (table ms (all_values ms)),
  length-to_le_bytes 8 (length ms),
  length-table ms (all_values ms),
  length-all_values ms h,
)

-- The records of the plan: each matrix with the offset at which its values start.
abbrev pub meta_of : ℕ → UploadMatrixView → UploadMatrixMeta
meta_of offset m = record {
  params = m.params;
  instance_id = m.instance_id;
  rows = m.rows;
  columns = m.columns;
  value_offset = offset;
}

abbrev pub metas : ℕ → List UploadMatrixView → List UploadMatrixMeta
metas offset [] = []
metas offset (m ∷ ms) = meta_of offset m ∷ metas (offset + fields m) ms

abbrev pub plan_of : List UploadMatrixView → UploadPlan
plan_of ms = record { matrices = metas 0 ms; value_fields = sum_by fields ms }

pub length-metas : (offset : ℕ) (ms : List UploadMatrixView) → length (metas offset ms) ≡ length ms
length-metas offset [] = refl
length-metas offset (m ∷ ms) = omega (arith, length-metas (offset + fields m) ms)
