-- ===== src/Server/Session/Frames.antt =====
-- The handlers of the frames of a connection: `handle_upload`, `handle_evaluate`, `handle_frame`.
use emvp_thesis.Base.{
  ℕ, ◌+◌, ◌-◌, Option, none, some, List, [], ◌∷◌, Bool, true, false, if◌then◌else◌, length, take,
  drop, get_elem?, flat_map, String,
}
use emvp_thesis.Base.Action.{Action, Result, ok, err, pure, gets, modify, ◌>>=◌, ◌>>◌}
use emvp_thesis.Base.Vector.{refill}
use emvp_thesis.Emvp.View.{EncryptedQueryRef, AnswerRef, new_matrix_ref}
use emvp_thesis.Server.Failure.{RequestFailure, failure_code}
use emvp_thesis.Server.Request.{EvaluatedEntry, prepare_evaluate}
use emvp_thesis.Server.Session.{
  transport, upload, engine, Outcome, continue_session, close, Services, StoredMatrix, SessionPhase,
  empty, loaded, Connection, find_matrix, stored, phase_info, number_from, on_output, refuse,
  or_refuse, identifiers, in_payload_upload, in_payload_evaluate,
}
use emvp_thesis.Server.Uploads.{validate_upload_views}
use emvp_thesis.Wire.Error.{
  CodecError, ErrorCode, error_code, FrameKind, upload_matrices, upload_accepted, evaluate,
  products, error, unexpected_frame, already_loaded, not_loaded, upload_failed, gpu_failure,
  internal, to_u8,
}
use emvp_thesis.Wire.Evaluate.Workspace.{EvaluateEntryView}
use emvp_thesis.Wire.Messages.{write_upload_accepted}
use emvp_thesis.Wire.Plan.{grow_capacity}
use emvp_thesis.Wire.Products.{ProductEntryInput}
use emvp_thesis.Wire.Products.Write.{write_products}
use emvp_thesis.Wire.Upload.{UploadMatrixView}

module _ {Handle Plan Answers : Type 0} (services : Services Handle Plan Answers) where
  -- `view.matrix()` of every view.
  unfoldable pub all_matrices : List UploadMatrixView → Bool
  all_matrices [] = true
  all_matrices (v ∷ vs) = elim (new_matrix_ref v.instance_id v.rows v.columns v.values) [
    | ok m ↦ all_matrices vs
    | err e ↦ false
  ]

  -- The last statement of a handler that writes a reply.
  abbrev pub replied : Result CodecError ℕ → Action (Connection Handle) Outcome Outcome
  replied (ok n) = pure continue_session
  replied (err e) = pure (close (some (transport e)))

  -- `accepted_ws.reserve`
  abbrev pub reserve_accepted :
      List ℕ → Action (Connection Handle) Outcome (Result CodecError (Unit {0}))
  reserve_accepted ids c =
      let (x, u) = grow_capacity services.allocator (length ids) c.accepted tt in
      elim x [
        | ok v ↦ (ok (ok tt), record c { accepted = refill services.allocator ids v })
        | err e ↦ (ok (err e), c)
      ]

  unfoldable pub load_matrices_and_reply :
      List Handle → List UploadMatrixView → Action (Connection Handle) Outcome Outcome
  load_matrices_and_reply prepared views = do
    modify (λ c. record c { phase = loaded (number_from 1 prepared views) })
    reserved ← reserve_accepted (identifiers 1 prepared)
    or_refuse reserved
        (λ e. refuse (error_code e) (services.codec_text e) (close (some (transport e))))
    ids ← gets (λ (c : Connection Handle). c.accepted.items)
    sent ← on_output (write_upload_accepted ids)
    replied sent

  abbrev pub commit_refused : Bool × List ℕ → Action (Connection Handle) Outcome (List Handle)
  commit_refused (true, text) = refuse upload_failed text (close none)
  commit_refused (false, text) = refuse upload_failed text (close (some (upload text)))

  -- The whole upload after the check of the phase.
  unfoldable pub accept_upload : ℕ → Action (Connection Handle) Outcome Outcome
  accept_upload payload_len = do
    read ← in_payload_upload services.allocator payload_len
    views ←
        or_refuse read
          (λ e. refuse (error_code e) (services.codec_text e) (close (some (transport e))))
    or_refuse ((validate_upload_views views 0).0)
        (λ f. refuse (failure_code f) (services.failure_text f) (close none))
    (if all_matrices views
        then pure tt
        else refuse upload_failed (services.utf8 "an uploaded matrix was malformed") (close none))
    plan ← or_refuse (services.plan_prepare views) (λ text. refuse upload_failed text (close none))
    or_refuse (services.reserve_prepare plan) (λ text. refuse upload_failed text (close none))
    or_refuse (services.copy_prepare plan views)
        (λ text. refuse upload_failed text (close (some (upload text))))
    prepared ← or_refuse (services.prepare_committed plan) commit_refused
    load_matrices_and_reply prepared views

  abbrev pub handle_upload_in : SessionPhase Handle → ℕ → Action (Connection Handle) Outcome Outcome
  handle_upload_in empty payload_len = accept_upload payload_len
  handle_upload_in (loaded ms) payload_len =
      refuse already_loaded (services.utf8 "this session already loaded a matrix set") (close none)

  unfoldable pub handle_upload : ℕ → Action (Connection Handle) Outcome Outcome
  handle_upload payload_len = do
    phase ← gets (λ (c : Connection Handle). c.phase)
    handle_upload_in phase payload_len

  -- The jobs: each entry's stored handle with its range of the collected queries.
  unfoldable pub jobs :
      List (StoredMatrix Handle)
      → List EncryptedQueryRef
      → List EvaluatedEntry
      → Option (List (Handle × List EncryptedQueryRef))
  jobs ms refs [] = some []
  jobs ms refs (e ∷ es) = elim (find_matrix e.matrix_id ms) [
    | none ↦ none
    | some m ↦ elim (jobs ms refs es) [
      | none ↦ none
      | some rest ↦ some ((m.prepared, take (e.end - e.start) (drop e.start refs)) ∷ rest)
    ]
  ]

  -- `send_products`: the entries with their answers. An entry's shape is that of the answer at the start
  -- of its range in all the answers; none where there is no such answer.
  unfoldable pub product_inputs :
      List AnswerRef
      → ℕ
      → List EvaluatedEntry
      → List (List AnswerRef)
      → Option (List ProductEntryInput)
  product_inputs refs start [] batches = some []
  product_inputs refs start (e ∷ es) [] = some []
  product_inputs refs start (e ∷ es) (batch ∷ batches) = elim (get_elem? refs start) [
    | none ↦ none
    | some first ↦ elim (product_inputs refs (start + length batch) es batches) [
      | none ↦ none
      | some inputs ↦ some (
          record {
            matrix_id = e.matrix_id;
            instance_id = first.instance_id;
            rows = first.rows;
            blocks = first.blocks;
            answers = batch;
          }
          ∷ inputs)
    ]
  ]

  abbrev pub or_internal : {A : Type 0} → String → Option A → Action (Connection Handle) Outcome A
  or_internal text (some a) = pure a
  or_internal text none = refuse internal (services.utf8 text) (close none)

  abbrev pub concat : List (List AnswerRef) → List AnswerRef
  concat batches = flat_map (λ (b : List AnswerRef). b) batches

  -- The scratch sets come back into the session whether or not the request is accepted; the collected
  -- queries start empty.
  abbrev pub check_request :
      List EvaluateEntryView
      → Action (Connection Handle) Outcome (Result RequestFailure (List EvaluatedEntry))
  check_request views c =
      let (x, s) =
        prepare_evaluate (phase_info c.phase) views (record (c.scratch) { query_refs = [] }) in
      (ok x, record c { scratch = s })

  -- The whole evaluation after the check of the phase.
  unfoldable pub answer_evaluate : ℕ → Action (Connection Handle) Outcome Outcome
  answer_evaluate payload_len = do
    read ← in_payload_evaluate services.allocator payload_len
    (views, total_queries) ←
        or_refuse read
          (λ e. refuse (error_code e) (services.codec_text e) (close (some (transport e))))
    checked ← check_request views
    evaluated ←
        or_refuse checked (λ f. refuse (failure_code f) (services.failure_text f) continue_session)
    phase ← gets (λ (c : Connection Handle). c.phase)
    refs ← gets (λ (c : Connection Handle). c.scratch.query_refs)
    asked ←
        or_internal "a validated matrix identifier disappeared" (jobs (stored phase) refs evaluated)
    answers ←
        or_refuse (services.answer asked)
          (λ text. refuse gpu_failure text (close (some (engine text))))
    batches ← or_refuse (services.entry_answers answers) (λ text. refuse internal text (close none))
    inputs ←
        or_internal "an evaluated entry produced no answers"
          (product_inputs (concat batches) 0 evaluated batches)
    sent ← on_output (write_products inputs)
    replied sent

  abbrev pub handle_evaluate_in :
      SessionPhase Handle → ℕ → Action (Connection Handle) Outcome Outcome
  handle_evaluate_in empty payload_len =
      refuse not_loaded (services.utf8 "no matrix set has been loaded on this connection")
        (close none)
  handle_evaluate_in (loaded ms) payload_len = answer_evaluate payload_len

  unfoldable pub handle_evaluate : ℕ → Action (Connection Handle) Outcome Outcome
  handle_evaluate payload_len = do
    phase ← gets (λ (c : Connection Handle). c.phase)
    handle_evaluate_in phase payload_len

  -- `format!("unexpected {} frame from the client", header.kind)`
  abbrev wrong_way_text : FrameKind → String
  wrong_way_text upload_matrices = "unexpected UploadMatrices frame from the client"
  wrong_way_text upload_accepted = "unexpected UploadAccepted frame from the client"
  wrong_way_text evaluate = "unexpected Evaluate frame from the client"
  wrong_way_text products = "unexpected Products frame from the client"
  wrong_way_text error = "unexpected Error frame from the client"

  abbrev pub wrong_way : FrameKind → Action (Connection Handle) Outcome Outcome
  wrong_way kind =
      refuse ErrorCode.unexpected_frame (services.utf8 (wrong_way_text kind))
        (close (some (transport (unexpected_frame upload_matrices (to_u8 kind)))))

  unfoldable pub handle_frame : FrameKind → ℕ → Action (Connection Handle) Outcome Outcome
  handle_frame upload_matrices payload_len = handle_upload payload_len
  handle_frame evaluate payload_len = handle_evaluate payload_len
  handle_frame upload_accepted payload_len = wrong_way upload_accepted
  handle_frame products payload_len = wrong_way products
  handle_frame error payload_len = wrong_way error
