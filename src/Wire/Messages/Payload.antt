-- ===== src/Wire/Messages/Payload.antt =====
-- The frames of the `UploadAccepted` and `Error` messages, and what their writers append.
use emvp_thesis.Base.{
  ℕ, ◌+◌, ◌*◌, ◌^◌, ◌≤◌, ◌<◌, ◌≡◌, arith, List, ◌++◌, length, All-always, flat_map, length-append,
  length-flat_map, u64_max,
}
use emvp_thesis.Base.Words.{to_le_bytes, length-to_le_bytes}
use emvp_thesis.Wire.Error.{ErrorCode, to_u32, upload_accepted, error}
use emvp_thesis.Wire.Stream.{
  Writes, Writes-bind, Writes-return, Writes-for_each, Writes-after, Writes-write_all,
}
use emvp_thesis.Wire.Frame.{write_u64, write_frame_header, header_bytes, checked_size}
use emvp_thesis.Wire.Frame.Reads.{Writes-word, Writes-wire_len, Writes-write_word, checked_size-ok}
use emvp_thesis.Wire.Frame.Header.{header, Writes-header}
use emvp_thesis.Wire.Plan.{mul_or_overflow}
use emvp_thesis.Wire.Plan.Checks.{mul_or_overflow-ok}
use emvp_thesis.Wire.Messages.{write_upload_accepted, write_error}

-- An identifier that the server may assign.
abbrev pub IsIdentifier : ℕ → Type 0
IsIdentifier n = (0 < n) × (n < 2 ^ 64)

abbrev pub identifier_table : List ℕ → List ℕ
identifier_table ids = flat_map (to_le_bytes 8) ids

pub length-identifier_table : (ids : List ℕ) → length (identifier_table ids) ≡ length ids * 8
length-identifier_table ids = length-flat_map (to_le_bytes 8) 8 ids (length-to_le_bytes 8)

abbrev pub accepted_len : List ℕ → ℕ
accepted_len ids = 8 + length ids * 8

abbrev pub accepted_payload : List ℕ → List ℕ
accepted_payload ids = to_le_bytes 8 (length ids) ++ identifier_table ids

pub length-accepted_payload : (ids : List ℕ) → length (accepted_payload ids) ≡ accepted_len ids
length-accepted_payload ids = omega (
  arith,
  length-append (to_le_bytes 8 (length ids)) (identifier_table ids),
  length-to_le_bytes 8 (length ids),
  length-identifier_table ids,
)

abbrev pub accepted_frame : List ℕ → List ℕ
accepted_frame ids = header upload_accepted (accepted_len ids) ++ accepted_payload ids

-- In a frame of less than 2^64 bytes, with room for it, `write_upload_accepted` succeeds, appends the
-- documented frame and returns the number of its bytes.
pub Writes-upload_accepted :
    (ids : List ℕ)
    → header_bytes + accepted_len ids ≤ u64_max
    → Writes (write_upload_accepted ids) (accepted_frame ids) (accepted_len ids + header_bytes)
unfolding write_upload_accepted
Writes-upload_accepted ids fits = Writes-wire_len (length ids) _ _ _ (omega arith) (
    Writes-after (mul_or_overflow (length ids) 8) _ _ (length ids * 8) _
      (λ s. mul_or_overflow-ok (length ids) 8 s (omega arith))
      (Writes-after (checked_size 8 (length ids * 8)) _ _ (accepted_len ids) _
        (λ s. checked_size-ok 8 (length ids * 8) s (omega arith))
        (Writes-bind (write_frame_header upload_accepted (accepted_len ids)) _ _ _ tt _
          (Writes-header upload_accepted (accepted_len ids))
          (Writes-word 8 (length ids) _ _ _ (
            Writes-return _ _ (identifier_table ids) tt _
              (Writes-for_each (λ n. Unit {0}) write_u64 (to_le_bytes 8) ids
                (λ n _. Writes-write_word 8 n) (All-always ids))
              (λ s. checked_size-ok (accepted_len ids) header_bytes s (omega arith)))))))

abbrev pub error_len : List ℕ → ℕ
error_len message = 12 + length message

abbrev pub error_payload : ErrorCode → List ℕ → List ℕ
error_payload code message =
    to_le_bytes 4 (to_u32 code) ++ (to_le_bytes 8 (length message) ++ message)

pub length-error_payload :
    (code : ErrorCode) (message : List ℕ) → length (error_payload code message) ≡ error_len message
length-error_payload code message = simp (length-append, length-to_le_bytes) (omega arith)

abbrev pub error_frame : ErrorCode → List ℕ → List ℕ
error_frame code message = header error (error_len message) ++ error_payload code message

-- In a frame of less than 2^64 bytes, with room for it, `write_error` succeeds, appends the documented
-- frame and returns the number of its bytes.
pub Writes-error :
    (code : ErrorCode) (message : List ℕ)
    → header_bytes + error_len message ≤ u64_max
    → Writes
        (write_error code message)
        (error_frame code message)
        (error_len message + header_bytes)
unfolding write_error
Writes-error code message fits = Writes-wire_len (length message) _ _ _ (omega arith) (
    Writes-after (checked_size 12 (length message)) _ _ (error_len message) _
      (λ s. checked_size-ok 12 (length message) s (omega arith))
      (Writes-bind (write_frame_header error (error_len message)) _ _ _ tt _
        (Writes-header error (error_len message))
        (Writes-word 4 (to_u32 code) _ _ _ (
          Writes-word 8 (length message) _ _ _ (
            Writes-return _ _ message tt _ (Writes-write_all message)
              (λ s. checked_size-ok (error_len message) header_bytes s (omega arith)))))))
