-- ===== src/Server/Session/Serve/Ends.antt =====
-- The loop of a session ends: every round takes a header from a stream that no handler refills.
use emvp_thesis.Base.{
  ℕ, zero, suc, ◌<◌, ◌≡◌, refl, ap, ◌∙◌, Option, some, length, arith, ◌⊎◌, inl, inr, Option-cases,
}
use emvp_thesis.Base.Action.{Result, ok, err, Result-cases}
use emvp_thesis.Server.Session.{
  SessionError, Outcome, continue_session, close, Services, Connection,
}
use emvp_thesis.Server.Session.Frames.{handle_frame}
use emvp_thesis.Server.Session.Serve.{
  outcome_of, session_result, refuse_header, serve_frames, serve_after, serve_connection,
  new_session,
}
use emvp_thesis.Server.Session.Serve.Consumed.{input_left, handle_frame-Consumes}
use emvp_thesis.Wire.Error.{HandshakeError}
use emvp_thesis.Wire.Frame.{read_frame_header}
use emvp_thesis.Wire.Frame.Consumed.{read_frame_header_takes}
use emvp_thesis.Wire.Handshake.{Duplex, server_handshake}
use emvp_thesis.Wire.Handshake.Consumed.{server_handshake-Consumes}

Outcome-cases : (o : Outcome) → (o ≡ continue_session) ⊎ ((e : Option SessionError) × (o ≡ close e))
Outcome-cases continue_session = inl refl
Outcome-cases (close e) = inr (e, refl)

module _ {Handle Plan Answers : Type 0} (services : Services Handle Plan Answers) where
  -- With more fuel than there are bytes to come, the loop ends by a disconnect or a closed session.
  serve_frames_ends :
      (fuel : ℕ) (c : Connection Handle)
      → input_left c < fuel
      → (r : Result SessionError (Unit {0})) × ((serve_frames services fuel c).0 ≡ some r)
  unfolding serve_frames
  serve_frames_ends zero c h = elim h [ ]
  serve_frames_ends (suc fuel) c h = elim (Result-cases (read_frame_header c.input).0) [
    | inl bad ↦ (
      (refuse_header services bad.0 (record c { input = (read_frame_header c.input).1 })).0,
      rw (bad.1, serve_frames) refl,
    )
    | inr found ↦ elim (Option-cases found.0) [
      | inl gone ↦ (ok tt, rw (found.1, gone, serve_frames) refl)
      | inr frame ↦
          let c' : Connection Handle = record c { input = (read_frame_header c.input).1 } in
          let d = handle_frame services frame.0.kind frame.0.payload_len c' in
          elim (Outcome-cases (outcome_of d.0)) [
            | inl more ↦
                rw (found.1, frame.1, more, serve_frames)
                  (serve_frames_ends fuel d.1 (
                    omega (
                      arith,
                      (handle_frame-Consumes services frame.0.kind frame.0.payload_len).shrinks c',
                      read_frame_header_takes c.input frame.0 (found.1 ∙ ap ok frame.1),
                    )))
            | inr done ↦ (session_result done.0, rw (found.1, frame.1, done.1, serve_frames) refl)
          ]
    ]
  ]

  serve_after_ends :
      (fuel : ℕ) (p : Result HandshakeError (Unit {0}) × Duplex)
      → length p.1.input.bytes < fuel
      → (r : Result SessionError (Unit {0})) × ((serve_after services fuel p).0 ≡ some r)
  unfolding serve_after new_session
  serve_after_ends fuel (err e, d) h = (_, refl)
  serve_after_ends fuel (ok u, d) h = serve_frames_ends fuel (new_session services d) h

  -- On every stream, with fuel for more rounds than there are bytes to come, serving the connection ends with a result, whatever the bytes, the engine's
  -- answers and the room for replies.
  pub serve_connection_ends :
      (fuel : ℕ) (d : Duplex)
      → length d.input.bytes < fuel
      → (r : Result SessionError (Unit {0})) × ((serve_connection services fuel d).0 ≡ some r)
  unfolding serve_connection
  serve_connection_ends fuel d h =
      serve_after_ends fuel (server_handshake d)
        (omega (arith, server_handshake-Consumes.shrinks d))
