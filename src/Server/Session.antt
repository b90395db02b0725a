-- ===== src/Server/Session.antt =====
-- The connection state machine of `server/src/session.rs`. The answer engine and the texts of errors
-- are parameters. A handler that returns early is an action that fails with its outcome.
pub mod Frames
pub mod LoadOnce
pub mod Numbering
pub mod Serve
use emvp_thesis.Base.{
  ℕ, zero, suc, ◌+◌, ◌-◌, Option, none, some, List, [], ◌∷◌, Bool, true, false, ◌==◌, if◌then◌else◌,
  length, map, take, drop, String,
}
use emvp_thesis.Base.Action.{Action, Result, ok, err, pure, fail, gets, modify, ◌>>=◌, ◌>>◌}
use emvp_thesis.Base.Vector
use emvp_thesis.Base.Vector.{Vector, Allocator, refill}
use emvp_thesis.Emvp.View.{EncryptedQueryRef, AnswerRef}
use emvp_thesis.Server.Failure.{RequestFailure, failure_code}
use emvp_thesis.Server.Request.{MatrixInfo, EvaluatedEntry, Scratch, prepare_evaluate}
use emvp_thesis.Server.Uploads.{validate_upload_views}
use emvp_thesis.Wire.Error.{
  CodecError, ErrorCode, error_code, FrameKind, upload_matrices, upload_accepted, evaluate,
  products, error, unexpected_frame, already_loaded, not_loaded, upload_failed, gpu_failure,
  internal, to_u8, HandshakeError,
}
use emvp_thesis.Wire.Evaluate.Workspace.{EvaluateWorkspace, EvaluateEntryView, read_evaluate}
use emvp_thesis.Wire.Frame.{FrameHeader, open_payload}
use emvp_thesis.Wire.Messages.{write_error, write_upload_accepted}
use emvp_thesis.Wire.Plan.{grow_capacity}
use emvp_thesis.Wire.Products.{ProductEntryInput}
use emvp_thesis.Wire.Products.Write.{write_products}
use emvp_thesis.Wire.Stream.{Stream, Sink}
use emvp_thesis.Wire.Upload.{UploadMatrixView}
use emvp_thesis.Wire.Upload.Receive.{read_upload}
use emvp_thesis.Wire.Upload.Workspace.{UploadWorkspace}

-- Why a session ends abnormally; an engine's error is known by its text.
pub data SessionError : Type 0 where
  handshake : HandshakeError → SessionError
  transport : CodecError → SessionError
  upload : List ℕ → SessionError
  engine : List ℕ → SessionError

pub data Outcome : Type 0 where
  continue_session : Outcome
  close : Option SessionError → Outcome

-- What the session uses of the engine and of the host. `plan_prepare` to `prepare_committed` are the stages of
-- an upload; a refusal to commit says whether it is a capacity or budget refusal. `utf8` is `as_bytes`. `answer` is `plan`,
-- `reserve` and `execute`, whose failures the session treats alike.
-- `entry_answers` is the loop of `send_products` over the answers of each entry.
pub record Services (Handle Plan Answers : Type 0) : Type 0 where
  pub allocator : Allocator
  pub utf8 : String → List ℕ
  pub codec_text : CodecError → List ℕ
  pub failure_text : RequestFailure → List ℕ
  pub plan_prepare : List UploadMatrixView → Result (List ℕ) Plan
  pub reserve_prepare : Plan → Result (List ℕ) (Unit {0})
  pub copy_prepare : Plan → List UploadMatrixView → Result (List ℕ) (Unit {0})
  pub prepare_committed : Plan → Result (Bool × List ℕ) (List Handle)
  pub answer : List (Handle × List EncryptedQueryRef) → Result (List ℕ) Answers
  pub entry_answers : Answers → Result (List ℕ) (List (List AnswerRef))

pub record StoredMatrix (Handle : Type 0) : Type 0 where
  pub id : ℕ
  pub info : MatrixInfo
  pub prepared : Handle

-- The map of a loaded session is its list of stored matrices, each with its identifier.
pub data SessionPhase (Handle : Type 0) : Type 0 where
  empty : SessionPhase Handle
  loaded : List (StoredMatrix Handle) → SessionPhase Handle

pub record Connection (Handle : Type 0) : Type 0 where
  pub input : Stream
  pub output : Sink
  pub phase : SessionPhase Handle
  pub upload_ws : UploadWorkspace
  pub evaluate_ws : EvaluateWorkspace
  pub accepted : Vector ℕ
  pub scratch : Scratch

module _ {Handle : Type 0} where
  abbrev pub find_matrix : ℕ → List (StoredMatrix Handle) → Option (StoredMatrix Handle)
  find_matrix id [] = none
  find_matrix id (m ∷ ms) = if m.id == id then some m else find_matrix id ms

  abbrev pub stored : SessionPhase Handle → List (StoredMatrix Handle)
  stored empty = []
  stored (loaded ms) = ms

  abbrev pub info_of : Option (StoredMatrix Handle) → Option MatrixInfo
  info_of none = none
  info_of (some m) = some m.info

  -- `Phase::info`
  unfoldable pub phase_info : SessionPhase Handle → ℕ → Option MatrixInfo
  phase_info phase id = info_of (find_matrix id (stored phase))

  -- `matrices.insert(index as u64 + 1, …)`, in order.
  unfoldable pub number_from : ℕ → List Handle → List UploadMatrixView → List (StoredMatrix Handle)
  number_from id [] views = []
  number_from id (h ∷ hs) [] = []
  number_from id (h ∷ hs) (v ∷ vs) =
      record {
        id = id;
        info = record { instance_id = v.instance_id; width = v.columns };
        prepared = h;
      }
      ∷ number_from (id + 1) hs vs

  -- A write whose result the session looks at.
  abbrev pub on_output :
      {A : Type 0}
      → Action Sink CodecError A
      → Action (Connection Handle) Outcome (Result CodecError A)
  on_output m c = let (x, s) = m c.output in (ok x, record c { output = s })

  -- `send_error`: a failed write is only logged.
  unfoldable pub send_error : ErrorCode → List ℕ → Action (Connection Handle) Outcome (Unit {0})
  send_error code text = do sent ← on_output (write_error code text); pure tt

  -- `send_error(…); return Outcome::Close(…);`
  unfoldable pub refuse :
      {A : Type 0} → ErrorCode → List ℕ → Outcome → Action (Connection Handle) Outcome A
  refuse code text outcome = do send_error code text; fail outcome

  -- `match result { Ok(value) => value, Err(error) => return … }`
  abbrev pub or_refuse :
      {E A : Type 0}
      → Result E A
      → (E → Action (Connection Handle) Outcome A)
      → Action (Connection Handle) Outcome A
  or_refuse (ok a) f = pure a
  or_refuse (err e) f = f e

  -- `id..id + count`
  unfoldable pub identifiers : ℕ → List Handle → List ℕ
  identifiers id [] = []
  identifiers id (h ∷ hs) = id ∷ identifiers (id + 1) hs

  abbrev pub in_payload_upload :
      Allocator → ℕ → Action (Connection Handle) Outcome (Result CodecError (List UploadMatrixView))
  in_payload_upload allocator payload_len c =
      let (x, r) =
        read_upload allocator
          (record { frame = open_payload c.input payload_len; workspace = c.upload_ws }) in
      (ok x, record c { input = r.frame.inner; upload_ws = r.workspace })

  abbrev pub in_payload_evaluate :
      Allocator
      → ℕ
      → Action (Connection Handle) Outcome (Result CodecError (List EvaluateEntryView × ℕ))
  in_payload_evaluate allocator payload_len c =
      let (x, r) =
        read_evaluate allocator
          (record { frame = open_payload c.input payload_len; workspace = c.evaluate_ws }) in
      (ok x, record c { input = r.frame.inner; evaluate_ws = r.workspace })
