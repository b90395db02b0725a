-- ===== src/Wire/Error.antt =====
-- The error vocabulary of the wire protocol: `emvp-network/src/error.rs`, with the frame kinds of
-- `emvp-network/src/frame.rs`, which an error names.
pub mod Codes
use emvp_thesis.Base.{ℕ, String, Option, none, some, ◌==◌, if◌then◌else◌}

pub data FrameKind : Type 0 where
  upload_matrices upload_accepted evaluate products error : FrameKind

-- `FrameKind::to_u8` and `FrameKind::from_u8`.
unfoldable pub to_u8 : FrameKind → ℕ
to_u8 upload_matrices = 1
to_u8 upload_accepted = 2
to_u8 evaluate = 3
to_u8 products = 4
to_u8 error = 5

unfoldable pub from_u8 : ℕ → Option FrameKind
from_u8 byte =
    if byte == 1
    then some upload_matrices
    else if byte == 2
    then some upload_accepted
    else if byte == 3
    then some evaluate
    else if byte == 4
    then some products
    else if byte == 5
    then some error
    else none

pub data ErrorCode : Type 0 where
  unknown_frame_kind : ErrorCode
  truncated_frame : ErrorCode
  trailing_frame_bytes : ErrorCode
  non_canonical_field_element : ErrorCode
  value_out_of_range : ErrorCode
  count_mismatch : ErrorCode
  dimension_overflow : ErrorCode
  allocation_failed : ErrorCode
  invalid_utf8 : ErrorCode
  invalid_parameters : ErrorCode
  instance_mismatch : ErrorCode
  unknown_matrix_id : ErrorCode
  duplicate_matrix_entry : ErrorCode
  duplicate_query_id : ErrorCode
  empty_request : ErrorCode
  not_loaded : ErrorCode
  already_loaded : ErrorCode
  upload_failed : ErrorCode
  gpu_failure : ErrorCode
  unexpected_frame : ErrorCode
  internal : ErrorCode

-- `ErrorCode::to_u32` and `ErrorCode::from_u32`.
unfoldable pub to_u32 : ErrorCode → ℕ
to_u32 unknown_frame_kind = 1
to_u32 truncated_frame = 2
to_u32 trailing_frame_bytes = 3
to_u32 non_canonical_field_element = 4
to_u32 value_out_of_range = 5
to_u32 count_mismatch = 6
to_u32 dimension_overflow = 7
to_u32 allocation_failed = 8
to_u32 invalid_utf8 = 9
to_u32 invalid_parameters = 10
to_u32 instance_mismatch = 11
to_u32 unknown_matrix_id = 12
to_u32 duplicate_matrix_entry = 13
to_u32 duplicate_query_id = 14
to_u32 empty_request = 15
to_u32 not_loaded = 16
to_u32 already_loaded = 17
to_u32 upload_failed = 18
to_u32 gpu_failure = 19
to_u32 unexpected_frame = 20
to_u32 internal = 21

unfoldable pub from_u32 : ℕ → Option ErrorCode
from_u32 code =
    if code == 1
    then some unknown_frame_kind
    else if code == 2
    then some truncated_frame
    else if code == 3
    then some trailing_frame_bytes
    else if code == 4
    then some non_canonical_field_element
    else if code == 5
    then some value_out_of_range
    else if code == 6
    then some count_mismatch
    else if code == 7
    then some dimension_overflow
    else if code == 8
    then some allocation_failed
    else if code == 9
    then some invalid_utf8
    else if code == 10
    then some invalid_parameters
    else if code == 11
    then some instance_mismatch
    else if code == 12
    then some unknown_matrix_id
    else if code == 13
    then some duplicate_matrix_entry
    else if code == 14
    then some duplicate_query_id
    else if code == 15
    then some empty_request
    else if code == 16
    then some not_loaded
    else if code == 17
    then some already_loaded
    else if code == 18
    then some upload_failed
    else if code == 19
    then some gpu_failure
    else if code == 20
    then some unexpected_frame
    else if code == 21
    then some internal
    else none

-- `Io` carries the transport's own error, by its number.
pub data CodecError : Type 0 where
  io : ℕ → CodecError
  truncated_frame : CodecError
  trailing_frame_bytes : ℕ → CodecError
  unknown_frame_kind : ℕ → CodecError
  unexpected_frame : FrameKind → ℕ → CodecError
  invalid_magic : CodecError
  invalid_handshake_status : ℕ → CodecError
  non_canonical_field : ℕ → CodecError
  value_out_of_range : String → ℕ → CodecError
  invalid_dimensions : String → ℕ → CodecError
  count_mismatch : String → ℕ → ℕ → CodecError
  dimension_overflow : CodecError
  allocation_failed : CodecError
  invalid_utf8 : CodecError

-- `CodecError::error_code`: the code that the peer is sent.
pub error_code : CodecError → ErrorCode
error_code (io e) = internal
error_code invalid_magic = internal
error_code (invalid_handshake_status status) = internal
error_code dimension_overflow = ErrorCode.dimension_overflow
error_code truncated_frame = ErrorCode.truncated_frame
error_code (trailing_frame_bytes extra) = ErrorCode.trailing_frame_bytes
error_code (unknown_frame_kind kind) = ErrorCode.unknown_frame_kind
error_code (unexpected_frame expected actual) = ErrorCode.unexpected_frame
error_code (non_canonical_field value) = non_canonical_field_element
error_code (value_out_of_range name value) = ErrorCode.value_out_of_range
error_code (invalid_dimensions name value) = invalid_parameters
error_code (count_mismatch name expected actual) = ErrorCode.count_mismatch
error_code allocation_failed = ErrorCode.allocation_failed
error_code invalid_utf8 = ErrorCode.invalid_utf8

pub data HandshakeError : Type 0 where
  codec : CodecError → HandshakeError
  rejected : HandshakeError
  unsupported_version : ℕ → HandshakeError
  unsupported_modulus : ℕ → HandshakeError
