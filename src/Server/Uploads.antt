-- ===== src/Server/Uploads.antt =====
-- `validate_upload_views` and `validate_upload_shape` of `server/src/session.rs`.
pub mod Validated
use emvp_thesis.Base.{
  ℕ, ◌+◌, ◌*◌, List, [], ◌∷◌, not, ◌==◌, if◌then◌else◌, length, checked_mul, checked_add,
}
use emvp_thesis.Base.Action.{
  Action, Result, ok, err, pure, ok_or, ensure, lift, gets, modify, for_each, ◌>>=◌, ◌>>◌,
}
use emvp_thesis.Emvp.Params.{EmvpParams, ParamsError, code_length, validate_dimensions}
use emvp_thesis.Server.Failure.{
  RequestFailure, params, columns_mismatch, dimension_overflow, empty_request,
}
use emvp_thesis.Wire.Upload.{UploadMatrixView}

-- `map_err(RequestFailure::Params)`
abbrev pub params_failure : {A : Type 0} → Result ParamsError A → Result RequestFailure A
params_failure (ok a) = ok a
params_failure (err e) = err (params e)

unfoldable pub validate_params : EmvpParams → Result RequestFailure (Unit {0})
validate_params p = params_failure (validate_dimensions p)

-- The state is `total_bytes`.
unfoldable pub validate_upload_shape : EmvpParams → ℕ → ℕ → Action ℕ RequestFailure (Unit {0})
validate_upload_shape p rows columns = do
  lift (validate_params p)
  width ← lift (params_failure (code_length p))
  ensure (columns == width) (columns_mismatch width columns)
  words ← ok_or dimension_overflow (checked_mul rows columns)
  bytes ← ok_or dimension_overflow (checked_mul words 4)
  total_bytes ← gets (λ (t : ℕ). t)
  total ← ok_or dimension_overflow (checked_add total_bytes bytes)
  modify (λ t. total)

unfoldable pub validate_upload_views : List UploadMatrixView → Action ℕ RequestFailure ℕ
validate_upload_views views = do
  ensure (not (length views == 0)) empty_request
  modify (λ t. 0)
  for_each (λ (view : UploadMatrixView). validate_upload_shape view.params view.rows view.columns)
      views
  gets (λ (t : ℕ). t)
