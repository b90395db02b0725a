-- ===== src/Wire/Messages/RoundTrip.antt =====
-- The `UploadAccepted` and `Error` messages arrive as they were sent.
use emvp_thesis.Base.{
  ==-refl, ℕ, ◌+◌, ◌*◌, ◌^◌, ◌≤◌, ◌<◌, ◌≡◌, refl, sym, ap, ◌∙◌, arith, List, [], ◌∷◌, ◌++◌, length,
  All, Bool, true, false, ltb, append_assoc, append-nil, u64_max, pos→==_zero, length-append, some,
  leb, if◌then◌else◌,
}
use emvp_thesis.Base.Action.{Action, ok, ◌>>=◌, ◌>>◌, pure}
use emvp_thesis.Base.Vector
use emvp_thesis.Base.Vector.{Vector, Allocator, refill}
use emvp_thesis.Wire.Error.{CodecError, ErrorCode, to_u32, to_u8, FrameKind, upload_accepted, error}
use emvp_thesis.Wire.Error.Codes.{from_u32-to_u32}
use emvp_thesis.Wire.Stream.{Ending, Sink, extend}
use emvp_thesis.Wire.Frame.{FrameReader, header_bytes, finish, read_exact_checked}
use emvp_thesis.Wire.Frame.Reads.{
  framed, read_word-framed, read_exact_checked-framed, finish-framed, host_len-ok,
}
use emvp_thesis.Wire.Frame.Header.{header, length-header, read-write_frame_header}
use emvp_thesis.Wire.Plan.Checks.{mul_or_overflow-ok, reserve_table-ok, require_exact_bytes-ok}
use emvp_thesis.Wire.Plan.Growth.{Grants, grow_capacity-ok}
use emvp_thesis.Wire.Messages.{
  accepted_identifiers, plan_upload_accepted, Accepting, reserve, decode_upload_accepted, accept,
  read_upload_accepted_payload, write_upload_accepted, ErrorResponse, response_code, write_error,
  read_error_payload, require_kind, open_frame, on_payload, read_upload_accepted, read_error,
}
use emvp_thesis.Wire.Messages.Payload.{
  IsIdentifier, identifier_table, length-identifier_table, accepted_len, accepted_payload,
  length-accepted_payload, accepted_frame, Writes-upload_accepted, error_len, error_payload,
  length-error_payload, error_frame, Writes-error,
}

-- A buffer that was refilled with b items has room for them.
enough : (a b n : ℕ) → ltb (if leb b a then a else b + n) b ≡ false
enough a b n = ground arith

module _ (rest : List ℕ) (ending : Ending) where
  accepted_identifiers-framed :
      (ids : List ℕ)
      → All IsIdentifier ids
      → accepted_identifiers (length ids) (framed (identifier_table ids) rest ending)
        ≡ (ok ids, framed [] rest ending)
  unfolding accepted_identifiers
  accepted_identifiers-framed [] us = refl
  accepted_identifiers-framed (n ∷ ids) (u, us) = rw (
    read_word-framed rest ending 8 n (identifier_table ids) u.1,
    pos→==_zero n u.0,
    accepted_identifiers-framed ids us,
  )

  plan_upload_accepted-framed :
      (allocator : Allocator) (ids : List ℕ)
      → Grants allocator
      → All IsIdentifier ids
      → accepted_len ids ≤ u64_max
      → plan_upload_accepted allocator (framed (accepted_payload ids) rest ending)
        ≡ (ok (record { identifiers = ids }), framed [] rest ending)
  unfolding plan_upload_accepted
  plan_upload_accepted-framed allocator ids granted us fits = rw (
    read_word-framed rest ending 8 (length ids) (identifier_table ids) (omega arith),
    mul_or_overflow-ok (length ids) 8 (framed (identifier_table ids) rest ending) (omega arith),
    require_exact_bytes-ok (identifier_table ids) rest ending (length ids * 8)
        (length-identifier_table ids),
    host_len-ok "identifier count" (length ids) (framed (identifier_table ids) rest ending)
        (omega arith),
    reserve_table-ok allocator (length ids) (framed (identifier_table ids) rest ending)
        (granted (length ids)),
    accepted_identifiers-framed ids us,
  )

  -- The capacity check of the decoder passes after the workspace was reserved for the same plan.
  accept-framed :
      (allocator : Allocator) (ids : List ℕ)
      → Grants allocator
      → All IsIdentifier ids
      → accepted_len ids ≤ u64_max
      → read_upload_accepted_payload allocator (framed (accepted_payload ids) rest ending)
        ≡ (ok ids, framed [] rest ending)
  unfolding read_upload_accepted_payload accept reserve decode_upload_accepted refill
  accept-framed allocator ids granted us fits =
      let r : Accepting = record { frame = framed [] rest ending; identifiers = Vector.empty } in
      let (v, grown, same) =
        grow_capacity-ok {A = ℕ} allocator granted (length ids) Vector.empty r in
      rw (
        plan_upload_accepted-framed allocator ids granted us fits,
        grown,
        enough v.capacity (length ids) (allocator.spare (length ids)),
        finish-framed rest ending,
      )

  -- Into a workspace that held other identifiers.
  pub accept-workspace :
      (allocator : Allocator) (ids : List ℕ) (held : Vector ℕ)
      → Grants allocator
      → All IsIdentifier ids
      → accepted_len ids ≤ u64_max
      → (w : Vector ℕ) × (accept allocator
            (record { frame = framed (accepted_payload ids) rest ending; identifiers = held })
          ≡ (ok ids, record { frame = framed [] rest ending; identifiers = w }))
        × (w.items ≡ ids)
  unfolding accept reserve decode_upload_accepted refill
  accept-workspace allocator ids held granted us fits =
      let r : Accepting = record { frame = framed [] rest ending; identifiers = held } in
      let (v, grown, same) = grow_capacity-ok {A = ℕ} allocator granted (length ids) held r in
      (
        refill allocator ids (refill allocator ids v),
        rw
            (
              plan_upload_accepted-framed allocator ids granted us fits,
              grown,
              enough v.capacity (length ids) (allocator.spare (length ids)),
              finish-framed rest ending,
            )
            refl,
        refl,
      )

  -- A payload that its reader takes to the end, before `finish`.
  on_payload-framed :
      {A : Type 0} (m : Action FrameReader CodecError A) (payload : List ℕ) (n : ℕ) (a : A)
      → length payload ≡ n
      → m (framed payload rest ending) ≡ (ok a, framed [] rest ending)
      → on_payload n
          (m >>= λ message. finish >> pure message)
          (record { bytes = payload ++ rest; ending = ending })
        ≡ (ok a, record { bytes = rest; ending = ending })
  unfolding on_payload
  on_payload-framed m payload n a e h = rw (← e, h, finish-framed rest ending)

  -- Opening a frame of the expected kind leaves its payload and what follows.
  open_frame-header :
      (kind : FrameKind) (n : ℕ)
      → n < 2 ^ 64
      → open_frame kind (record { bytes = header kind n ++ rest; ending = ending })
        ≡ (ok n, record { bytes = rest; ending = ending })
  unfolding open_frame require_kind
  open_frame-header kind n h =
      rw (read-write_frame_header kind n rest ending h, ==-refl (to_u8 kind))

  read_error_payload-framed :
      (allocator : Allocator) (is_utf8 : List ℕ → Bool) (code : ErrorCode) (message : List ℕ)
      → Grants allocator
      → is_utf8 message ≡ true
      → error_len message ≤ u64_max
      → read_error_payload allocator is_utf8 (framed (error_payload code message) rest ending)
        ≡ (ok (record { code = to_u32 code; message = message }), framed [] rest ending)
  unfolding read_error_payload to_u32
  read_error_payload-framed allocator is_utf8 code message granted utf8 fits = rw (
    read_word-framed rest ending 4 (to_u32 code) _ (to_u32-lt code),
    read_word-framed rest ending 8 (length message) message (omega arith),
    not_less (length message),
    host_len-ok "error message" (length message) (framed message rest ending) (omega arith),
    reserve_table-ok allocator (length message) (framed message rest ending)
        (granted (length message)),
    taken,
    utf8,
  )
    where
      not_less : (n : ℕ) → ltb n n ≡ false
      not_less n = ground arith

      to_u32-lt : (c : ErrorCode) → to_u32 c < 2 ^ 32
      to_u32-lt c = ground arith

      taken :
          read_exact_checked (length message) (framed message rest ending)
          ≡ (ok message, framed [] rest ending)
      taken =
          ap (λ t. read_exact_checked (length message) (framed t rest ending))
            (sym (append-nil message))
          ∙ read_exact_checked-framed rest ending message [] (length message) refl

-- For identifiers that are positive and below 2^64, in a frame of less than 2^64 bytes, a writer with room
-- for it and an allocator that grants: the writer appends the frame and returns its length, and
-- `read_upload_accepted` on it returns the same identifiers with the payload length and leaves the bytes
-- behind the frame.
pub upload_accepted_round_trip :
    (allocator : Allocator) (ids : List ℕ) (sink : Sink) (rest : List ℕ) (ending : Ending)
    → Grants allocator
    → All IsIdentifier ids
    → header_bytes + accepted_len ids ≤ u64_max
    → length (accepted_frame ids) ≤ sink.room
    → (write_upload_accepted ids sink
        ≡ (ok (length (accepted_frame ids)), extend sink (accepted_frame ids)))
      × (read_upload_accepted allocator
            (record { bytes = accepted_frame ids ++ rest; ending = ending })
          ≡ (ok (ids, accepted_len ids), record { bytes = rest; ending = ending }))
unfolding read_upload_accepted
upload_accepted_round_trip allocator ids sink rest ending granted us fits room = (
  Writes-upload_accepted ids fits sink room
      ∙ ap (λ (n : ℕ). (ok n, extend sink (accepted_frame ids)))
          (omega (
            arith,
            length-append (header upload_accepted (accepted_len ids)) (accepted_payload ids),
            length-header upload_accepted (accepted_len ids),
            length-accepted_payload ids,
          )),
  rw (
    append_assoc (header upload_accepted (accepted_len ids)) (accepted_payload ids) rest,
    open_frame-header (accepted_payload ids ++ rest) ending upload_accepted (accepted_len ids)
        (omega arith),
    on_payload-framed rest ending (read_upload_accepted_payload allocator) (accepted_payload ids)
        (accepted_len ids) ids (length-accepted_payload ids)
        (accept-framed rest ending allocator ids granted us (omega arith)),
  ),
)

-- For a text that passes as UTF-8, in a frame of less than 2^64 bytes, a writer with room for it and an
-- allocator that grants: the writer appends the frame and returns its length, and `read_error` on it
-- returns the text with the code's number, which names the same code, and the payload length, and leaves
-- the bytes behind the frame.
pub error_round_trip :
    (allocator : Allocator) (is_utf8 : List ℕ → Bool) (code : ErrorCode) (message : List ℕ)
    (sink : Sink) (rest : List ℕ) (ending : Ending)
    → Grants allocator
    → is_utf8 message ≡ true
    → header_bytes + error_len message ≤ u64_max
    → length (error_frame code message) ≤ sink.room
    → (write_error code message sink
        ≡ (ok (length (error_frame code message)), extend sink (error_frame code message)))
      × (response : ErrorResponse) × (read_error allocator is_utf8
            (record { bytes = error_frame code message ++ rest; ending = ending })
          ≡ (ok (response, error_len message), record { bytes = rest; ending = ending }))
      × (response.message ≡ message)
      × (response_code response ≡ some code)
unfolding read_error response_code
error_round_trip allocator is_utf8 code message sink rest ending granted utf8 fits room = (
  Writes-error code message fits sink room
      ∙ ap (λ (n : ℕ). (ok n, extend sink (error_frame code message)))
          (omega (
            arith,
            length-append (header error (error_len message)) (error_payload code message),
            length-header error (error_len message),
            length-error_payload code message,
          )),
  record { code = to_u32 code; message = message },
  rw (
    append_assoc (header error (error_len message)) (error_payload code message) rest,
    open_frame-header (error_payload code message ++ rest) ending error (error_len message)
        (omega arith),
    on_payload-framed rest ending (read_error_payload allocator is_utf8)
        (error_payload code message) (error_len message)
        (record { code = to_u32 code; message = message }) (length-error_payload code message)
        (read_error_payload-framed rest ending allocator is_utf8 code message granted utf8
          (omega arith)),
  ),
  refl,
  from_u32-to_u32 code,
)
