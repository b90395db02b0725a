-- ===== src/Server/Failure.antt =====
-- `server/src/failure.rs`: why a request is refused, and the code that the client is sent.
use emvp_thesis.Base.{ℕ}
use emvp_thesis.Emvp.Params.{ParamsError}
use emvp_thesis.Wire.Error.{
  ErrorCode, invalid_parameters, unknown_matrix_id, duplicate_matrix_entry, duplicate_query_id,
}

pub data RequestFailure : Type 0 where
  params : ParamsError → RequestFailure
  columns_mismatch : ℕ → ℕ → RequestFailure
  query_width : ℕ → ℕ → RequestFailure
  instance_mismatch : ℕ → ℕ → RequestFailure
  unknown_matrix : ℕ → RequestFailure
  duplicate_matrix : ℕ → RequestFailure
  duplicate_query : ℕ → ℕ → RequestFailure
  empty_request : RequestFailure
  dimension_overflow : RequestFailure

-- `RequestFailure::code`
unfoldable pub failure_code : RequestFailure → ErrorCode
failure_code (params e) = invalid_parameters
failure_code dimension_overflow = invalid_parameters
failure_code (columns_mismatch expected actual) = ErrorCode.count_mismatch
failure_code (query_width expected actual) = ErrorCode.count_mismatch
failure_code (instance_mismatch expected actual) = ErrorCode.instance_mismatch
failure_code (unknown_matrix id) = unknown_matrix_id
failure_code (duplicate_matrix id) = duplicate_matrix_entry
failure_code (duplicate_query matrix_id query_id) = duplicate_query_id
failure_code empty_request = ErrorCode.empty_request
