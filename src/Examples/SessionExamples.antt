-- ===== src/Examples/SessionExamples.antt =====
-- The theorems on the session of the server at a concrete connection.
use emvp_thesis.Base.{ℕ, ◌≡◌, refl, some, [], ◌∷◌, List, arith}
use emvp_thesis.Base.Action.{Result, ok}
use emvp_thesis.Server.Session.Serve.{serve_connection}
use emvp_thesis.Server.Session.Serve.Ends.{serve_connection_ends}
use emvp_thesis.Wire.Handshake.{Duplex}
use emvp_thesis.Base.Vector
use emvp_thesis.Emvp.View.{AnswerRef}
use emvp_thesis.Examples.Sample.{granting, five, sink}
use emvp_thesis.Server.Session.{
  SessionError, Services, StoredMatrix, SessionPhase, empty, loaded, Connection, phase_info,
}
use emvp_thesis.Server.Session.Frames.{handle_frame, load_matrices_and_reply}
use emvp_thesis.Server.Session.LoadOnce.{handle_frame_keeps_loaded}
use emvp_thesis.Server.Session.Numbering.{load_matrices_and_reply_numbers}
use emvp_thesis.Wire.Error.{upload_matrices}
use emvp_thesis.Wire.Evaluate.Workspace as EvaluateBuffers
use emvp_thesis.Wire.Stream.{end_of_stream}
use emvp_thesis.Wire.Upload.{UploadMatrixView}
use emvp_thesis.Wire.Upload.Workspace as UploadBuffers

-- An engine whose handles are instance identifiers and that answers nothing.
abbrev engine : Services ℕ ℕ (List (List AnswerRef))
engine = record {
  allocator = granting;
  utf8 = λ text. 63 ∷ [];
  codec_text = λ e. 63 ∷ [];
  failure_text = λ f. 63 ∷ [];
  plan_prepare = λ views. ok 1;
  reserve_prepare = λ plan. ok tt;
  copy_prepare = λ plan views. ok tt;
  prepare_committed = λ plan. ok (9 ∷ []);
  answer = λ jobs. ok [];
  entry_answers = λ answers. ok answers;
}

abbrev matrices : List (StoredMatrix ℕ)
matrices = record { id = 1; info = record { instance_id = 9; width = 4 }; prepared = 9 } ∷ []

abbrev connection : SessionPhase ℕ → Connection ℕ
connection phase = record {
  input = record { bytes = 1 ∷ 2 ∷ 3 ∷ []; ending = end_of_stream };
  output = sink;
  phase = phase;
  upload_ws = UploadBuffers.new_workspace;
  evaluate_ws = EvaluateBuffers.new_workspace;
  accepted = Vector.empty;
  scratch = record { seen_matrices = []; seen_queries = []; query_refs = [] };
}

handle_frame_keeps_loaded_example :
    (handle_frame engine upload_matrices 3 (connection (loaded matrices))).1.phase ≡ loaded matrices
handle_frame_keeps_loaded_example =
    handle_frame_keeps_loaded engine upload_matrices 3 (connection (loaded matrices)) matrices refl

abbrev view : ℕ → UploadMatrixView
view id = record {
  params = record { k = 2; ell = 1; b = 2; lambda = 0 };
  instance_id = id;
  rows = 1;
  columns = 4;
  values = five ∷ five ∷ five ∷ five ∷ [];
}

load_matrices_and_reply_numbers_example :
    phase_info
      (load_matrices_and_reply engine
        (5 ∷ 6 ∷ [])
        (view 8 ∷ view 9 ∷ [])
        (connection empty)).1.phase
      2
    ≡ some (record { instance_id = 9; width = 4 })
load_matrices_and_reply_numbers_example =
    load_matrices_and_reply_numbers engine (5 ∷ 6 ∷ []) (view 8 ∷ view 9 ∷ []) (connection empty) 1
      (view 9) refl refl

-- A client that says hello and disconnects.
abbrev visit : Duplex
visit = record {
  input = record {
    bytes = 69 ∷ 77 ∷ 86 ∷ 80 ∷ 2 ∷ 0 ∷ 1 ∷ 0 ∷ 128 ∷ 59 ∷ [];
    ending = end_of_stream;
  };
  output = sink;
}

serve_connection_ends_example :
    (r : Result SessionError (Unit {0})) × ((serve_connection engine 11 visit).0 ≡ some r)
serve_connection_ends_example = serve_connection_ends engine 11 visit (omega arith)
