-- ===== src/Wire/Messages.antt =====
-- The small messages: `UploadAccepted` and `Error` (`emvp-network/src/messages.rs`, with the plan, the
-- workspace and the decoder of the accepted identifiers of `plan.rs`, `workspace.rs` and `decode.rs`).
-- Strings are their UTF-8 bytes; whether bytes are UTF-8 is the caller's function.
pub mod Opened
pub mod Payload
pub mod Planned
pub mod Received
pub mod RoundTrip
use emvp_thesis.Base.{
  ℕ, zero, suc, ◌+◌, ◌-◌, ◌*◌, List, [], ◌∷◌, Bool, true, leb, ltb, not, ◌==◌, if◌then◌else◌,
  length, Option, some, none,
}
use emvp_thesis.Base.Action.{
  Action, Result, ok, err, pure, fail, ensure, gets, modify, for_each, ◌>>=◌, ◌>>◌,
}
use emvp_thesis.Base.Vector
use emvp_thesis.Base.Vector.{Vector, Allocator, refill}
use emvp_thesis.Wire.Error.{
  CodecError, truncated_frame, trailing_frame_bytes, invalid_dimensions, allocation_failed,
  invalid_utf8, unexpected_frame, FrameKind, upload_accepted, error, ErrorCode, to_u32, from_u32,
  to_u8,
}
use emvp_thesis.Wire.Stream.{Stream, Sink, write_all}
use emvp_thesis.Wire.Frame.{
  FrameHeader, FrameReader, open_payload, read_frame_header, remaining, finish, read_exact_checked,
  read_u32, read_u64, host_len, wire_len, checked_size, write_u32, write_u64, write_frame_header,
  header_bytes,
}
use emvp_thesis.Wire.Plan.{mul_or_overflow, reserve_table, require_exact_bytes, grow_capacity}

abbrev pub accepted_id_descriptor_bytes : ℕ
accepted_id_descriptor_bytes = 8

pub record UploadAcceptedPlan : Type 0 where
  pub identifiers : List ℕ

-- `for _ in 0..count` of `plan_upload_accepted`.
unfoldable pub accepted_identifiers : ℕ → Action FrameReader CodecError (List ℕ)
accepted_identifiers zero = pure []
accepted_identifiers (suc count) = do
  identifier ← read_u64
  ensure (not (identifier == 0)) (invalid_dimensions "matrix identifier" 0)
  identifiers ← accepted_identifiers count
  pure (identifier ∷ identifiers)

unfoldable pub plan_upload_accepted : Allocator → Action FrameReader CodecError UploadAcceptedPlan
plan_upload_accepted allocator = do
  count ← read_u64
  identifier_bytes ← mul_or_overflow count accepted_id_descriptor_bytes
  require_exact_bytes identifier_bytes
  count ← host_len "identifier count" count
  reserve_table allocator count
  identifiers ← accepted_identifiers count
  pure (record { identifiers = identifiers })

-- A payload reader with the identifier buffer of an `UploadAcceptedWorkspace`.
pub record Accepting : Type 0 where
  pub frame : FrameReader
  pub identifiers : Vector ℕ

abbrev pub with_frame :
    {A : Type 0} → Action FrameReader CodecError A → Action Accepting CodecError A
with_frame m r = let (x, f) = m r.frame in (x, record r { frame = f })

-- `UploadAcceptedWorkspace::reserve`
unfoldable pub reserve : Allocator → UploadAcceptedPlan → Action Accepting CodecError (Unit {0})
reserve allocator plan = do
  identifiers ← gets (λ (r : Accepting). r.identifiers)
  identifiers ← grow_capacity allocator (length plan.identifiers) identifiers
  modify (λ r. record r { identifiers = refill allocator plan.identifiers identifiers })

unfoldable pub decode_upload_accepted :
    Allocator → UploadAcceptedPlan → Action Accepting CodecError (List ℕ)
decode_upload_accepted allocator plan = do
  identifiers ← gets (λ (r : Accepting). r.identifiers)
  ensure (not (ltb identifiers.capacity (length plan.identifiers))) allocation_failed
  modify (λ r. record r { identifiers = refill allocator plan.identifiers identifiers })
  with_frame finish
  gets (λ (r : Accepting). r.identifiers.items)

-- The three steps on a new workspace.
unfoldable pub accept : Allocator → Action Accepting CodecError (List ℕ)
accept allocator = do
  plan ← with_frame (plan_upload_accepted allocator)
  reserve allocator plan
  decode_upload_accepted allocator plan

unfoldable pub read_upload_accepted_payload : Allocator → Action FrameReader CodecError (List ℕ)
read_upload_accepted_payload allocator f =
    let (x, r) = accept allocator (record { frame = f; identifiers = Vector.empty }) in (x, r.frame)

unfoldable pub write_upload_accepted : List ℕ → Action Sink CodecError ℕ
write_upload_accepted identifiers = do
  count ← wire_len (length identifiers)
  ids ← mul_or_overflow count 8
  payload_len ← checked_size 8 ids
  write_frame_header upload_accepted payload_len
  write_u64 count
  for_each write_u64 identifiers
  checked_size payload_len header_bytes

pub record ErrorResponse : Type 0 where
  pub code : ℕ
  pub message : List ℕ

-- `ErrorResponse::code`
unfoldable pub response_code : ErrorResponse → Option ErrorCode
response_code response = from_u32 response.code

unfoldable pub write_error : ErrorCode → List ℕ → Action Sink CodecError ℕ
write_error code message = do
  text_bytes ← wire_len (length message)
  payload_len ← checked_size (4 + 8) text_bytes
  write_frame_header error payload_len
  write_u32 (to_u32 code)
  write_u64 text_bytes
  write_all message
  checked_size payload_len header_bytes

unfoldable pub read_error_payload :
    Allocator → (List ℕ → Bool) → Action FrameReader CodecError ErrorResponse
read_error_payload allocator is_utf8 = do
  code ← read_u32
  message_len ← read_u64
  left ← remaining
  ensure (not (ltb left message_len)) truncated_frame
  text_len ← host_len "error message" message_len
  reserve_table allocator text_len
  message ← read_exact_checked text_len
  ensure (is_utf8 message) invalid_utf8
  pure (record { code = code; message = message })

-- `header.kind != expected`, by the kinds' distinct bytes.
unfoldable pub require_kind : FrameKind → Option FrameHeader → Action Stream CodecError ℕ
require_kind expected none = fail truncated_frame
require_kind expected (some header) = do
  ensure (to_u8 header.kind == to_u8 expected) (unexpected_frame expected (to_u8 header.kind))
  pure header.payload_len

unfoldable pub open_frame : FrameKind → Action Stream CodecError ℕ
open_frame expected = do header ← read_frame_header; require_kind expected header

-- The payload of an open frame, then `finish`, on the stream below.
unfoldable pub on_payload :
    {A : Type 0} → ℕ → Action FrameReader CodecError A → Action Stream CodecError A
on_payload payload_len m s = let (x, f) = m (open_payload s payload_len) in (x, f.inner)

unfoldable pub read_upload_accepted : Allocator → Action Stream CodecError (List ℕ × ℕ)
read_upload_accepted allocator = do
  payload_len ← open_frame upload_accepted
  message ←
      on_payload payload_len
        (read_upload_accepted_payload allocator >>= λ message. finish >> pure message)
  pure (message, payload_len)

unfoldable pub read_error :
    Allocator → (List ℕ → Bool) → Action Stream CodecError (ErrorResponse × ℕ)
read_error allocator is_utf8 = do
  payload_len ← open_frame error
  message ←
      on_payload payload_len
        (read_error_payload allocator is_utf8 >>= λ message. finish >> pure message)
  pure (message, payload_len)
