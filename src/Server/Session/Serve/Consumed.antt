-- ===== src/Server/Session/Serve/Consumed.antt =====
-- The handlers of a session never give bytes back to the stream, and a header takes at least one.
use emvp_thesis.Base.{ℕ, ◌≡◌, refl, Option, none, some, List, Bool, true, false, length, String}
use emvp_thesis.Base.Action.{Action, Result, ok, err, modify}
use emvp_thesis.Base.Consumes.{Consumes, Consumes-keep, Consumes-pure, consuming}
use emvp_thesis.Base.Vector.{Allocator, refill}
use emvp_thesis.Server.Session.{
  Outcome, Services, StoredMatrix, SessionPhase, empty, loaded, Connection, on_output, send_error,
  refuse, or_refuse, in_payload_upload, in_payload_evaluate,
}
use emvp_thesis.Server.Session.Frames.{
  reserve_accepted, replied, load_matrices_and_reply, accept_upload, commit_refused, handle_upload,
  handle_upload_in, handle_evaluate, handle_evaluate_in, answer_evaluate, check_request,
  or_internal, handle_frame,
}
use emvp_thesis.Wire.Error.{
  CodecError, ErrorCode, FrameKind, upload_matrices, upload_accepted, evaluate, products, error,
}
use emvp_thesis.Wire.Evaluate.Consumed.{read_evaluate-Consumes}
use emvp_thesis.Wire.Frame.Consumed.{bytes_left}
use emvp_thesis.Wire.Plan.{grow_capacity}
use emvp_thesis.Wire.Stream.{Sink}
use emvp_thesis.Wire.Evaluate.Workspace.{EvaluateEntryView}
use emvp_thesis.Wire.Upload.{UploadMatrixView}
use emvp_thesis.Wire.Upload.Consumed.{read_upload-Consumes}

module _ {Handle : Type 0} where
  abbrev pub input_left : Connection Handle → ℕ
  input_left c = bytes_left c.input

  on_output-Consumes :
      {A : Type 0} (m : Action Sink CodecError A) → Consumes {E = Outcome} input_left (on_output m)
  on_output-Consumes m = Consumes-keep (on_output m) (λ c. refl)

  loading-Consumes :
      (ms : List (StoredMatrix Handle))
      → Consumes {E = Outcome} input_left
          (modify (λ (c : Connection Handle). record c { phase = loaded ms }))
  loading-Consumes ms =
      Consumes-keep (modify (λ (c : Connection Handle). record c { phase = loaded ms })) (λ c. refl)

  send_error-Consumes :
      (code : ErrorCode) (text : List ℕ)
      → Consumes input_left (send_error {Handle = Handle} code text)
  unfolding send_error
  send_error-Consumes code text = search (consuming, on_output-Consumes)

  refuse-Consumes :
      {A : Type 0} (code : ErrorCode) (text : List ℕ) (o : Outcome)
      → Consumes input_left (refuse {Handle = Handle} {A = A} code text o)
  unfolding refuse
  refuse-Consumes code text o = search (consuming, send_error-Consumes)

  or_refuse-Consumes :
      {E A : Type 0} (r : Result E A) (f : E → Action (Connection Handle) Outcome A)
      → ((e : E) → Consumes input_left (f e))
      → Consumes input_left (or_refuse r f)
  or_refuse-Consumes (ok a) f h = Consumes-pure a
  or_refuse-Consumes (err e) f h = h e

  upload-Consumes :
      (allocator : Allocator) (n : ℕ)
      → Consumes input_left (in_payload_upload {Handle = Handle} allocator n)
  upload-Consumes allocator n = record { shrinks = λ c. (read_upload-Consumes allocator).shrinks _ }

  evaluate-Consumes :
      (allocator : Allocator) (n : ℕ)
      → Consumes input_left (in_payload_evaluate {Handle = Handle} allocator n)
  evaluate-Consumes allocator n = record {
    shrinks = λ c. (read_evaluate-Consumes allocator).shrinks _;
  }

module _ {Handle Plan Answers : Type 0} (services : Services Handle Plan Answers) where
  reserve_accepted-Consumes : (ids : List ℕ) → Consumes input_left (reserve_accepted services ids)
  reserve_accepted-Consumes ids = Consumes-keep (reserve_accepted services ids) λ c.
      elim (grow_capacity services.allocator (length ids) c.accepted tt).0
        as (λ x.
          input_left
            (elim x as (λ _. Result Outcome (Result CodecError (Unit {0})) × Connection Handle) [
              | ok v ↦ (ok (ok tt), record c { accepted = refill services.allocator ids v })
              | err e ↦ (ok (err e), c)
            ]).1
          ≡ input_left c) [ ok v ↦ refl | err e ↦ refl ]

  replied-Consumes : (r : Result CodecError ℕ) → Consumes input_left (replied services r)
  replied-Consumes (ok n) = Consumes-pure _
  replied-Consumes (err e) = Consumes-pure _

  or_internal-Consumes :
      {A : Type 0} (text : String) (o : Option A)
      → Consumes input_left (or_internal services text o)
  or_internal-Consumes text none = refuse-Consumes _ _ _
  or_internal-Consumes text (some a) = Consumes-pure a

  commit_refused-Consumes : (e : Bool × List ℕ) → Consumes input_left (commit_refused services e)
  commit_refused-Consumes (true, text) = refuse-Consumes _ _ _
  commit_refused-Consumes (false, text) = refuse-Consumes _ _ _

  load-Consumes :
      (prepared : List Handle) (views : List UploadMatrixView)
      → Consumes input_left (load_matrices_and_reply services prepared views)
  unfolding load_matrices_and_reply
  load-Consumes prepared views =
      search
        (
          consuming, loading-Consumes, reserve_accepted-Consumes, or_refuse-Consumes,
          refuse-Consumes, on_output-Consumes, replied-Consumes,
        )
        depth 12

  accept_upload-Consumes : (n : ℕ) → Consumes input_left (accept_upload services n)
  unfolding accept_upload
  accept_upload-Consumes n =
      search
        (
          consuming, upload-Consumes, or_refuse-Consumes, refuse-Consumes, commit_refused-Consumes,
          load-Consumes,
        )
        depth 20

  check_request-Consumes :
      (views : List EvaluateEntryView) → Consumes input_left (check_request services views)
  check_request-Consumes views = Consumes-keep (check_request services views) (λ c. refl)

  answer_evaluate-Consumes : (n : ℕ) → Consumes input_left (answer_evaluate services n)
  unfolding answer_evaluate
  answer_evaluate-Consumes n =
      search
        (
          consuming, evaluate-Consumes, check_request-Consumes, or_refuse-Consumes, refuse-Consumes,
          or_internal-Consumes, on_output-Consumes, replied-Consumes,
        )
        depth 20

  upload_in-Consumes :
      (phase : SessionPhase Handle) (n : ℕ)
      → Consumes input_left (handle_upload_in services phase n)
  upload_in-Consumes empty n = accept_upload-Consumes n
  upload_in-Consumes (loaded ms) n = refuse-Consumes _ _ _

  evaluate_in-Consumes :
      (phase : SessionPhase Handle) (n : ℕ)
      → Consumes input_left (handle_evaluate_in services phase n)
  evaluate_in-Consumes empty n = refuse-Consumes _ _ _
  evaluate_in-Consumes (loaded ms) n = answer_evaluate-Consumes n

  -- Handling a frame of any kind leaves at most the bytes it found.
  pub handle_frame-Consumes :
      (kind : FrameKind) (n : ℕ) → Consumes input_left (handle_frame services kind n)
  unfolding handle_frame handle_upload handle_evaluate
  handle_frame-Consumes upload_matrices n = search (consuming, upload_in-Consumes)
  handle_frame-Consumes evaluate n = search (consuming, evaluate_in-Consumes)
  handle_frame-Consumes upload_accepted n = refuse-Consumes _ _ _
  handle_frame-Consumes products n = refuse-Consumes _ _ _
  handle_frame-Consumes error n = refuse-Consumes _ _ _
