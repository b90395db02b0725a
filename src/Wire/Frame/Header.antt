-- ===== src/Wire/Frame/Header.antt =====
-- The frame header: what is written is read back, and what a reader answers on any stream.
use emvp_thesis.Base.{
  ℕ, ◌^◌, ◌<◌, ◌≡◌, refl, arith, some, List, [], ◌∷◌, ◌++◌, length, length-append,
}
use emvp_thesis.Base.Action.{ok}
use emvp_thesis.Base.Words.{to_le_bytes, length-to_le_bytes, from-to_le_bytes}
use emvp_thesis.Wire.Error.{FrameKind, upload_matrices, to_u8}
use emvp_thesis.Wire.Error.Codes.{from_u8-to_u8}
use emvp_thesis.Wire.Stream.{Ending, read_one, Writes, Writes-bind}
use emvp_thesis.Wire.Frame.{read_frame_header, write_frame_header, header_bytes}
use emvp_thesis.Wire.Frame.Reads.{read_exact-append, Writes-write_word}

-- The bytes of a header.
abbrev pub header : FrameKind → ℕ → List ℕ
header kind payload_len = to_le_bytes 1 (to_u8 kind) ++ to_le_bytes 8 payload_len

pub length-header :
    (kind : FrameKind) (payload_len : ℕ) → length (header kind payload_len) ≡ header_bytes
length-header kind payload_len = omega (
  arith,
  length-append (to_le_bytes 1 (to_u8 kind)) (to_le_bytes 8 payload_len),
  length-to_le_bytes 1 (to_u8 kind),
  length-to_le_bytes 8 payload_len,
)

pub Writes-header :
    (kind : FrameKind) (payload_len : ℕ)
    → Writes (write_frame_header kind payload_len) (header kind payload_len) tt
unfolding write_frame_header
Writes-header kind payload_len =
    Writes-bind _ _ (to_le_bytes 1 (to_u8 kind)) (to_le_bytes 8 payload_len) tt tt
      (Writes-write_word 1 (to_u8 kind)) (Writes-write_word 8 payload_len)

to_u8-byte : (kind : FrameKind) → to_le_bytes 1 (to_u8 kind) ≡ to_u8 kind ∷ []
unfolding to_u8 to_le_bytes
to_u8-byte upload_matrices = refl
to_u8-byte _ = refl

-- For every kind and every payload length below 2^64, the header reader applied to a header and any
-- bytes after it returns that kind and length, and leaves exactly the bytes after it.
pub read-write_frame_header :
    (kind : FrameKind) (payload_len : ℕ) (rest : List ℕ) (ending : Ending)
    → payload_len < 2 ^ 64
    → read_frame_header (record { bytes = header kind payload_len ++ rest; ending = ending }) ≡ (
      ok (some (record { kind = kind; payload_len = payload_len })),
      record { bytes = rest; ending = ending },
    )
unfolding read_frame_header read_one
read-write_frame_header kind payload_len rest ending h = rw (
  to_u8-byte kind,
  read_exact-append rest ending (to_le_bytes 8 payload_len) rest 8
      (length-to_le_bytes 8 payload_len),
  from_u8-to_u8 kind,
  from-to_le_bytes 8 payload_len h,
)
