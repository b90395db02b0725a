-- ===== src/Trapdoor/Error.antt =====
-- `trapdoor-matrices/src/error.rs`. The errors of other crates that are passed on are known by a code.
use emvp_thesis.Base.{ℕ, String, List, ◌==◌, if◌then◌else◌}
use emvp_thesis.Base.Action.{Result, ok, err}

pub data TdmError : Type 0 where
  length_mismatch : String → ℕ → ℕ → TdmError
  zero_dimension : String → TdmError
  dimension_overflow : TdmError
  invalid_permutation : ℕ → ℕ → TdmError
  sampling_range_too_large : ℕ → TdmError
  invalid_probability : ℕ → ℕ → TdmError
  weight_exceeds_columns : ℕ → ℕ → TdmError
  modulus_not_prime : ℕ → TdmError
  automatic_modulus_unsupported : ℕ → ℕ → TdmError
  sampling_retry_budget_exhausted : ℕ → TdmError
  invalid_sparse_offsets : TdmError
  sparse_row_out_of_bounds : ℕ → ℕ → ℕ → TdmError
  insecure_parameters : ℕ → ℕ → List ℕ → TdmError
  field : ℕ → TdmError
  extension_field : ℕ → TdmError
  arithmetic : ℕ → TdmError

unfoldable pub check_len : String → ℕ → ℕ → Result TdmError (Unit {0})
check_len name expected actual =
    if expected == actual then ok tt else err (length_mismatch name expected actual)
