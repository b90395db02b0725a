-- ===== src/Examples/Sample.antt =====
-- The data that the examples share.
use emvp_thesis.Base.{ℕ, true, refl, arith, [], ◌∷◌, ◌≤◌, length, length-append}
use emvp_thesis.Base.Vector.{Allocator}
use emvp_thesis.Wire.Error.{upload_matrices}
use emvp_thesis.Wire.Frame.Header.{header, length-header}
use emvp_thesis.Wire.Upload.Written.{frame}
use emvp_thesis.Field.{FieldElement, from_u32}
use emvp_thesis.Field.Arithmetic.{from_u32-IsCanonical}
use emvp_thesis.Wire.Frame.{protocol_modulus}
use emvp_thesis.Wire.Frame.Slices.{protocol_modulus-IsModulus, IsElement}
use emvp_thesis.Wire.Upload.{UploadMatrixView}
use emvp_thesis.Wire.Upload.Payload.{IsUpload, payload, payload_len, length-payload}
use emvp_thesis.Wire.Stream.{Sink}

-- Every buffer is granted, with three elements more than were asked for.
abbrev pub granting : Allocator
granting = record { grants = λ (n : ℕ). true; spare = λ (n : ℕ). 3 }

abbrev pub five : FieldElement
five = from_u32 protocol_modulus 5

abbrev pub seven : FieldElement
seven = from_u32 protocol_modulus 7

pub five-IsElement : IsElement five
five-IsElement = from_u32-IsCanonical protocol_modulus protocol_modulus-IsModulus 5 (omega arith)

pub seven-IsElement : IsElement seven
seven-IsElement = from_u32-IsCanonical protocol_modulus protocol_modulus-IsModulus 7 (omega arith)

-- A 2 x 1 matrix.
abbrev pub matrix : UploadMatrixView
matrix = record {
  params = record { k = 3; ell = 2; b = 1; lambda = 128 };
  instance_id = 9;
  rows = 2;
  columns = 1;
  values = five ∷ seven ∷ [];
}

pub matrix-IsUpload : IsUpload matrix
matrix-IsUpload = record {
  k_fits = omega arith;
  ell_fits = omega arith;
  b_fits = omega arith;
  lambda_fits = omega arith;
  instance_fits = omega arith;
  rows_fit = omega arith;
  columns_fit = omega arith;
  rows_positive = omega arith;
  columns_positive = omega arith;
  shape = refl;
  elements = (five-IsElement, (seven-IsElement, tt));
}

abbrev pub sink : Sink
sink = record { written = []; room = 1000; fault = 5 }

-- The frame of the matrix fits the room of the sink.
pub frame_fits : length (frame (matrix ∷ [])) ≤ sink.room
frame_fits = omega (
  arith,
  length-append (header upload_matrices (payload_len (matrix ∷ []))) (payload (matrix ∷ [])),
  length-header upload_matrices (payload_len (matrix ∷ [])),
  length-payload (matrix ∷ []) (matrix-IsUpload, tt),
)
