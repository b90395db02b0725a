-- ===== src/Client/Session/Uploaded.antt =====
-- What a session holds after an upload that returned.
use emvp_thesis.Base.{
  ℕ, ◌≡◌, ◌≢◌, refl, sym, ap, ◌∙◌, Option, none, some, List, Bool, ltb, not, map, All, length, ◌+◌,
  ◌≤◌, ◌++◌, append_assoc, u64_max, arith,
}
use emvp_thesis.Base.Action.{Result, ok, err, ensure, pure, bind_inverse, ◌>>=◌, ◌>>◌}
use emvp_thesis.Base.Fresh.{Distinct}
use emvp_thesis.Base.Vector.{Vector, Allocator, refill}
use emvp_thesis.Client.{Stop, RunError, Instance, codec_error, validate_upload_reply}
use emvp_thesis.Client.Acknowledged.{validate_upload_reply_exact}
use emvp_thesis.Client.Session.{
  ClientSession, on_input, on_output, on_accepting, on_frame, on_result, server_error,
  upload_payload, upload_reply, read_upload_reply, upload_view, upload,
}
use emvp_thesis.Emvp.Params.{EmvpParams}
use emvp_thesis.Wire.Error.{CodecError, allocation_failed, FrameKind, upload_accepted, error}
use emvp_thesis.Wire.Frame.{FrameHeader, read_frame_header, open_payload, finish, header_bytes}
use emvp_thesis.Wire.Messages.{
  Accepting, UploadAcceptedPlan, with_frame, plan_upload_accepted, reserve, decode_upload_accepted,
  accept, read_error_payload,
}
use emvp_thesis.Wire.Frame.Header.{header, read-write_frame_header}
use emvp_thesis.Wire.Messages.Payload.{
  IsIdentifier, accepted_len, accepted_payload, length-accepted_payload, accepted_frame,
}
use emvp_thesis.Wire.Messages.RoundTrip.{accept-workspace}
use emvp_thesis.Wire.Plan.Growth.{Grants}
use emvp_thesis.Wire.Stream.{Ending, extend}
use emvp_thesis.Wire.Upload.Payload.{IsUpload, payload_len}
use emvp_thesis.Wire.Upload.Write.{write_upload_matrices}
use emvp_thesis.Wire.Upload.Written.{frame, Writes-upload_matrices}

-- One identifier for each matrix, none of them zero and no two of them equal.
pub record AreIdentifiers (ids : List ℕ) (uploaded : ℕ) : Type 0 where
  pub count : length ids ≡ uploaded
  pub nonzero : All (λ i. i ≢ 0) ids
  pub distinct : Distinct ids

got :
    {S : Type 0} (f : S → List ℕ) (s t : S) (ids : List ℕ)
    → ◌≡◌ {A = Result CodecError (List ℕ) × S} (ok (f s), s) (ok ids, t)
    → f t ≡ ids
got f s t ids h = cc h

decode_items :
    (allocator : Allocator) (plan : UploadAcceptedPlan) (a t : Accepting) (ids : List ℕ)
    → decode_upload_accepted allocator plan a ≡ (ok ids, t)
    → t.identifiers.items ≡ ids
unfolding decode_upload_accepted
decode_items allocator plan a t ids h =
    let (_, a1, checked, h1) =
      bind_inverse
        (ensure (not (ltb a.identifiers.capacity (length plan.identifiers))) allocation_failed) _ a
        h in
    let (_, a2, finished, h2) =
      bind_inverse (with_frame finish) _
        (record a1 { identifiers = refill allocator plan.identifiers a.identifiers }) h1 in
    got (λ (r : Accepting). r.identifiers.items) a2 t ids h2

accept_items :
    (allocator : Allocator) (a t : Accepting) (ids : List ℕ)
    → accept allocator a ≡ (ok ids, t)
    → t.identifiers.items ≡ ids
unfolding accept
accept_items allocator a t ids h =
    let (plan, a1, planned, h1) =
      bind_inverse (with_frame (plan_upload_accepted allocator)) _ a h in
    let (_, a2, reserved, h2) = bind_inverse (reserve allocator plan) _ a1 h1 in
    decode_items allocator plan a2 t ids h2

codec_error_ok : {A : Type 0} (r : Result CodecError A) (a : A) → codec_error r ≡ ok a → r ≡ ok a
codec_error_ok (ok b) a h = cc h
codec_error_ok (err e) a h = cc h

module _ (allocator : Allocator) (is_utf8 : List ℕ → Bool) where
  -- A run that ends with an error returns nothing.
  never :
      {A : Type 0} (len : ℕ) (s t : ClientSession) (a : A)
      → server_error allocator is_utf8 len s ≡ (ok a, t)
      → ⊥
  unfolding server_error
  never len s t a h =
      let (_, s1, read, h1) =
        bind_inverse
          (on_frame len
            (read_error_payload allocator is_utf8 >>= λ response. finish >> pure response))
          _ s h in
      cc h1

  accepting_items :
      (len : ℕ) (s t : ClientSession) (ids : List ℕ)
      → on_accepting len (accept allocator) s ≡ (ok ids, t)
      → t.ack_ids.items ≡ ids
  accepting_items len s t ids h =
      let start : Accepting = record {
        frame = open_payload s.input len;
        identifiers = s.ack_ids;
      } in
      let p = accept allocator start in
      let came = codec_error_ok p.0 ids (ap (λ q. q.0) h) in
      sym (ap (λ q. q.1.ack_ids.items) h)
      ∙ accept_items allocator start p.1 ids (ap (λ r. (r, p.1)) came)

  payload_items :
      (kind : FrameKind) (len : ℕ) (s t : ClientSession) (ids : List ℕ)
      → upload_payload allocator is_utf8 kind len s ≡ (ok ids, t)
      → t.ack_ids.items ≡ ids
  unfolding upload_payload
  payload_items upload_accepted len s t ids h = accepting_items len s t ids h
  payload_items error len s t ids h = absurd (never len s t ids h)
  payload_items _ len s t ids h = cc h

  reply_items :
      (header : Option FrameHeader) (s t : ClientSession) (ids : List ℕ)
      → upload_reply allocator is_utf8 header s ≡ (ok ids, t)
      → t.ack_ids.items ≡ ids
  unfolding upload_reply
  reply_items none s t ids h = cc h
  reply_items (some header) s t ids h = payload_items header.kind header.payload_len s t ids h

  on_result_inverse :
      (r : Result RunError (Unit {0})) (s t : ClientSession)
      → on_result r s ≡ (ok tt, t)
      → (r ≡ ok tt) × (s ≡ t)
  on_result_inverse (ok u) s t h = (cc h, cc h)
  on_result_inverse (err e) s t h = cc h

  pure_state :
      (a b : ℕ) (s t : ClientSession)
      → ◌≡◌ {A = Result Stop ℕ × ClientSession} (ok a, s) (ok b, t)
      → s ≡ t
  pure_state a b s t h = cc h

  -- For all instances, parameters and sessions: if `upload` returns, then the session holds one identifier
  -- for each instance, none of them zero and no two of them equal.
  pub upload_sound :
      (instances : List Instance) (ps : EmvpParams) (s t : ClientSession) (n : ℕ)
      → upload allocator is_utf8 instances ps s ≡ (ok n, t)
      → AreIdentifiers t.ack_ids.items (length instances)
  unfolding upload read_upload_reply
  upload_sound instances ps s t n h =
      let (bytes, s1, wrote, h1) =
        bind_inverse (on_output (write_upload_matrices (map (upload_view ps) instances))) _ s h in
      let (ids, s2, replied, h2) = bind_inverse (read_upload_reply allocator is_utf8) _ s1 h1 in
      let (header, s3, read, h3) = bind_inverse (on_input read_frame_header) _ s1 replied in
      let held = reply_items header s3 s2 ids h3 in
      let (_, s4, checked, h4) =
        bind_inverse (on_result (validate_upload_reply ids (length instances))) _ s2 h2 in
      let accepted =
        on_result_inverse (validate_upload_reply ids (length instances)) s2 s4 checked in
      let same : t.ack_ids.items ≡ ids =
        ap (λ (c : ClientSession). c.ack_ids.items) (sym (accepted.1 ∙ pure_state bytes n s4 t h4))
        ∙ held in
      let fine = (validate_upload_reply_exact ids (length instances)).0 accepted.0 in
      rw same (record { count = fine.0; nonzero = fine.1; distinct = fine.2 })

  -- The reply of the server, from its header on.
  read_upload_reply-accepted :
      (s : ClientSession) (ids rest : List ℕ) (ending : Ending)
      → Grants allocator
      → All IsIdentifier ids
      → header_bytes + accepted_len ids ≤ u64_max
      → s.input ≡ record { bytes = accepted_frame ids ++ rest; ending = ending }
      → (w : Vector ℕ) × (read_upload_reply allocator is_utf8 s
          ≡ (ok ids, record s { input = record { bytes = rest; ending = ending }; ack_ids = w }))
        × (w.items ≡ ids)
  unfolding read_upload_reply upload_reply upload_payload
  read_upload_reply-accepted s ids rest ending granted us fits came =
      let opened =
        ap read_frame_header came
        ∙ ap (λ t. read_frame_header (record { bytes = t; ending = ending }))
            (append_assoc (header upload_accepted (accepted_len ids)) (accepted_payload ids) rest)
        ∙ read-write_frame_header upload_accepted (accepted_len ids) (accepted_payload ids ++ rest)
            ending (omega arith) in
      let (w, accepted, same) =
        accept-workspace rest ending allocator ids s.ack_ids granted us (omega arith) in
      let taken =
        ap
          (λ (n : ℕ). accept allocator (record {
            frame =
                open_payload (record { bytes = accepted_payload ids ++ rest; ending = ending }) n;
            identifiers = s.ack_ids;
          }))
          (sym (length-accepted_payload ids))
        ∙ accepted in
      (w, rw (opened, taken) refl, same)

  -- For matrices as the upload message takes them, room for its frame, an allocator that grants, and a server
  -- that answers with one identifier below 2^64 for each matrix, none of them zero and no two of them equal:
  -- `upload` appends the upload frame, returns its length, holds the identifiers, and leaves the bytes behind
  -- the answer.
  pub upload_completes :
      (instances : List Instance) (ps : EmvpParams) (s : ClientSession) (ids rest : List ℕ)
      (ending : Ending)
      → Grants allocator
      → All IsUpload (map (upload_view ps) instances)
      → header_bytes + payload_len (map (upload_view ps) instances) ≤ u64_max
      → length (frame (map (upload_view ps) instances)) ≤ s.output.room
      → All IsIdentifier ids
      → AreIdentifiers ids (length instances)
      → header_bytes + accepted_len ids ≤ u64_max
      → s.input ≡ record { bytes = accepted_frame ids ++ rest; ending = ending }
      → (t : ClientSession) × (upload allocator is_utf8 instances ps s
          ≡ (ok (payload_len (map (upload_view ps) instances) + header_bytes), t))
        × (t.ack_ids.items ≡ ids)
        × (t.output ≡ extend s.output (frame (map (upload_view ps) instances)))
        × (t.input ≡ record { bytes = rest; ending = ending })
  unfolding upload
  upload_completes instances ps s ids rest ending granted us fits room named unique small came =
      let ms = map (upload_view ps) instances in
      let wrote = Writes-upload_matrices ms us fits s.output room in
      let (w, replied, same) =
        read_upload_reply-accepted (record s { output = extend s.output (frame ms) }) ids rest
          ending granted named small came in
      let valid =
        (validate_upload_reply_exact ids (length instances)).1
          (unique.count, unique.nonzero, unique.distinct) in
      (
        record s {
          output = extend s.output (frame ms);
          input = record { bytes = rest; ending = ending };
          ack_ids = w;
        },
        rw (wrote, replied, valid) refl,
        same,
        refl,
        refl,
      )
