-- ===== src/Server/Session/Serve.antt =====
-- `serve_connection` of `server/src/session.rs`: the handshake, then one frame after the other until the
-- client disconnects or the session ends.
pub mod Consumed
pub mod Ends
use emvp_thesis.Base.{ℕ, zero, suc, Option, none, some, List, []}
use emvp_thesis.Base.Action.{Action, Result, ok, err}
use emvp_thesis.Base.Vector
use emvp_thesis.Server.Session.{
  SessionError, handshake, transport, Outcome, continue_session, close, Services, empty, Connection,
  send_error,
}
use emvp_thesis.Server.Session.Frames.{handle_frame}
use emvp_thesis.Wire.Error.{CodecError, ErrorCode, unknown_frame_kind, HandshakeError}
use emvp_thesis.Wire.Evaluate.Workspace as EvaluateBuffers
use emvp_thesis.Wire.Frame.{FrameHeader, read_frame_header}
use emvp_thesis.Wire.Handshake.{Duplex, server_handshake}
use emvp_thesis.Wire.Upload.Workspace as UploadBuffers

-- An early return is the outcome of the handler.
abbrev pub outcome_of : Result Outcome Outcome → Outcome
outcome_of (ok outcome) = outcome
outcome_of (err outcome) = outcome

-- `error.map_or(Ok(()), Err)`
abbrev pub session_result : Option SessionError → Result SessionError (Unit {0})
session_result none = ok tt
session_result (some e) = err e

module _ {Handle Plan Answers : Type 0} (services : Services Handle Plan Answers) where
  -- `Session::new` on the stream of the handshake.
  unfoldable pub new_session : Duplex → Connection Handle
  new_session d = record {
    input = d.input;
    output = d.output;
    phase = empty;
    upload_ws = UploadBuffers.new_workspace;
    evaluate_ws = EvaluateBuffers.new_workspace;
    accepted = Vector.empty;
    scratch = record { seen_matrices = []; seen_queries = []; query_refs = [] };
  }

  abbrev pub read_header :
      Connection Handle → Result CodecError (Option FrameHeader) × Connection Handle
  read_header c =
      let (header, input) = read_frame_header c.input in (header, record c { input = input })

  -- What an unreadable header means: an unknown kind is answered, its payload never read.
  unfoldable pub refuse_header :
      CodecError → Connection Handle → Result SessionError (Unit {0}) × Connection Handle
  refuse_header (unknown_frame_kind kind) c = (
    err (transport (unknown_frame_kind kind)),
    (send_error ErrorCode.unknown_frame_kind (services.codec_text (unknown_frame_kind kind)) c).1,
  )
  refuse_header e c = (err (transport e), c)

  -- The loop, with fuel: none means that it ran out.
  unfoldable pub serve_frames :
      ℕ → Connection Handle → Option (Result SessionError (Unit {0})) × Connection Handle
  serve_frames zero c = (none, c)
  serve_frames (suc fuel) c =
      let (header, c') = read_header c in
      elim header [
        | err e ↦ let (r, d) = refuse_header e c' in (some r, d)
        | ok found ↦ elim found [
          | none ↦ (some (ok tt), c')
          | some frame ↦
              let (result, d) = handle_frame services frame.kind frame.payload_len c' in
              elim (outcome_of result) [
                | continue_session ↦ serve_frames fuel d
                | close e ↦ (some (session_result e), d)
              ]
        ]
      ]

  serve_after :
      ℕ
      → Result HandshakeError (Unit {0}) × Duplex
      → Option (Result SessionError (Unit {0})) × Connection Handle
  serve_after fuel (err e, d) = (some (err (handshake e)), new_session d)
  serve_after fuel (ok u, d) = serve_frames fuel (new_session d)

  unfoldable pub serve_connection :
      ℕ → Duplex → Option (Result SessionError (Unit {0})) × Connection Handle
  unfolding serve_after
  serve_connection fuel d = serve_after fuel (server_handshake d)
