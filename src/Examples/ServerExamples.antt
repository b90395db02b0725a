-- ===== src/Examples/ServerExamples.antt =====
-- The theorems on parameters and on the server's checks at a concrete request.
use mathlib.Core.Logic.{◌↔◌}
use emvp_thesis.Base.{
  ℕ, ◌*◌, ◌<◌, ◌≡◌, refl, arith, Option, some, none, [], ◌∷◌, ◌++◌, All, sum_by, if◌then◌else◌,
  ◌==◌, checked_mul, checked_add, get_range,
}
use emvp_thesis.Base.Action.{ok}
use emvp_thesis.Emvp.Params.{EmvpParams, blocks, validate_dimensions}
use emvp_thesis.Emvp.Params.Dimensions.{IsSized, validate_dimensions_exact, blocks-IsSized}
use emvp_thesis.Emvp.View.{new_query_ref}
use emvp_thesis.Server.Request.{MatrixInfo, Scratch, prepare_evaluate}
use emvp_thesis.Server.Request.Accepted.{
  IsRequest, ranges, all_queries_of, prepare_evaluate_sound, prepare_evaluate_complete,
}
use emvp_thesis.Server.Uploads.{validate_upload_views}
use emvp_thesis.Server.Uploads.Validated.{
  IsShaped, footprint, validate_upload_views_sound, validate_upload_views_complete,
}
use emvp_thesis.Wire.Evaluate.Workspace.{EvaluateEntryView, entry_queries, queries_from, query_view}
use emvp_thesis.Wire.Upload.{UploadMatrixView}
use emvp_thesis.Examples.Sample.{five, seven}

-- A code of length 4 in blocks of 2.
abbrev small : EmvpParams
small = record { k = 2; ell = 1; b = 2; lambda = 0 }

small-IsSized : IsSized small
small-IsSized = record {
  ell_positive = omega arith;
  ell_le_rank = omega arith;
  block_large = omega arith;
  length_fits = omega arith;
  divides = refl;
}

blocks-IsSized_example : (s : ℕ) × (blocks small ≡ ok s) × (2 * s ≡ 2 * 2)
blocks-IsSized_example = blocks-IsSized small small-IsSized

abbrev stored : ℕ → Option MatrixInfo
stored id = if id == 1 then some (record { instance_id = 9; width = 1 }) else none

-- The decoded entry of one query of width 1 for matrix 1.
abbrev entry : EvaluateEntryView
entry = record {
  meta = record {
    matrix_id = 1;
    query_offset = 0;
    query_count = 1;
    query_width = 1;
    value_offset = 0;
  };
  queries = record { instance_id = 9; query_id = 4 } ∷ [];
  arena = five ∷ [];
}

abbrev scratch : Scratch
scratch = record { seen_matrices = 7 ∷ []; seen_queries = []; query_refs = [] }

entry_holds :
    entry_queries entry ≡ record { instance_id = 9; query_id = 4; values = five ∷ [] } ∷ []
unfolding entry_queries queries_from query_view checked_mul checked_add get_range new_query_ref
entry_holds = refl

entry-IsRequest : IsRequest stored (entry ∷ [])
entry-IsRequest = record {
  nonempty = omega arith;
  answerable = (
    record {
      matrix = record { instance_id = 9; width = 1 };
      known = refl;
      nonempty = omega arith;
      fit = rw entry_holds ((refl, refl), tt);
      distinct = rw entry_holds (tt, tt);
    },
    tt,
  );
  distinct = (tt, tt);
}

prepare_evaluate_complete_example :
    (t : Scratch) × (prepare_evaluate stored (entry ∷ []) scratch ≡ (ok (ranges 0 (entry ∷ [])), t))
    × (t.query_refs ≡ [] ++ all_queries_of (entry ∷ []))
prepare_evaluate_complete_example =
    prepare_evaluate_complete stored (entry ∷ []) scratch entry-IsRequest

accepted :
    (t : Scratch) × (prepare_evaluate stored (entry ∷ []) scratch ≡ (ok (ranges 0 (entry ∷ [])), t))
    × (t.query_refs ≡ [] ++ all_queries_of (entry ∷ []))
accepted = prepare_evaluate_complete stored (entry ∷ []) scratch entry-IsRequest

prepare_evaluate_sound_example :
    IsRequest stored (entry ∷ [])
    × (ranges 0 (entry ∷ []) ≡ ranges 0 (entry ∷ []))
    × (accepted.0.query_refs ≡ [] ++ all_queries_of (entry ∷ []))
prepare_evaluate_sound_example =
    prepare_evaluate_sound stored (entry ∷ []) scratch accepted.0 (ranges 0 (entry ∷ [])) accepted.1

-- A 2 x 4 matrix for the small code.
abbrev uploaded : UploadMatrixView
uploaded = record {
  params = small;
  instance_id = 9;
  rows = 2;
  columns = 4;
  values = five ∷ five ∷ five ∷ five ∷ seven ∷ seven ∷ seven ∷ seven ∷ [];
}

validate_upload_views_complete_example : validate_upload_views (uploaded ∷ []) 5 ≡ (ok 32, 32)
validate_upload_views_complete_example =
    validate_upload_views_complete (uploaded ∷ []) 5 (omega arith) ((small-IsSized, refl), tt)
      (omega arith)

validate_upload_views_sound_example :
    (0 < 1) × All IsShaped (uploaded ∷ []) × (32 ≡ sum_by footprint (uploaded ∷ []))
validate_upload_views_sound_example = validate_upload_views_sound (uploaded ∷ []) 5 32 32 (
    validate_upload_views_complete (uploaded ∷ []) 5 (omega arith) ((small-IsSized, refl), tt)
      (omega arith))

validate_dimensions_exact_example : (validate_dimensions small ≡ ok tt) ↔ IsSized small
validate_dimensions_exact_example = validate_dimensions_exact small
