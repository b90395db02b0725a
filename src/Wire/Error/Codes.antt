-- ===== src/Wire/Error/Codes.antt =====
-- The wire numbers of frame kinds and of error codes are exact: `to` and `from` are inverse.
use emvp_thesis.Base.{ℕ, ◌≡◌, refl, ap, sym, ◌∙◌, some, arith}
use mathlib.Core.Logic.{◌↔◌}
use emvp_thesis.Wire.Error.{
  FrameKind, upload_matrices, to_u8, from_u8, ErrorCode, unknown_frame_kind, to_u32, from_u32,
}

-- Every kind is read back from its byte.
pub from_u8-to_u8 : (kind : FrameKind) → from_u8 (to_u8 kind) ≡ some kind
unfolding from_u8 to_u8
from_u8-to_u8 upload_matrices = refl
from_u8-to_u8 _ = refl

-- A byte that is read as a frame kind is the byte that is written for this kind.
pub to_u8-from_u8 : (byte : ℕ) (kind : FrameKind) → from_u8 byte ≡ some kind → to_u8 kind ≡ byte
unfolding from_u8 to_u8
to_u8-from_u8 byte kind h = ground arith

-- Every code is read back from its number.
pub from_u32-to_u32 : (code : ErrorCode) → from_u32 (to_u32 code) ≡ some code
unfolding from_u32 to_u32
from_u32-to_u32 unknown_frame_kind = refl
from_u32-to_u32 _ = refl

-- A number that is read as an error code is the number that is written for this code.
pub to_u32-from_u32 : (n : ℕ) (code : ErrorCode) → from_u32 n ≡ some code → to_u32 code ≡ n
unfolding from_u32 to_u32
to_u32-from_u32 n code h = ground arith

-- For every byte, number, frame kind and error code: the byte is read as the kind exactly when it is the
-- byte written for the kind, and the number is read as the code exactly when it is the number of the code.
pub codes_exact :
    (byte n : ℕ) (kind : FrameKind) (code : ErrorCode)
    → ((from_u8 byte ≡ some kind) ↔ (to_u8 kind ≡ byte))
      × ((from_u32 n ≡ some code) ↔ (to_u32 code ≡ n))
codes_exact byte n kind code = (
  (to_u8-from_u8 byte kind, λ e. ap from_u8 (sym e) ∙ from_u8-to_u8 kind),
  (to_u32-from_u32 n code, λ e. ap from_u32 (sym e) ∙ from_u32-to_u32 code),
)
