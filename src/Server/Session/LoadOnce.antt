-- ===== src/Server/Session/LoadOnce.antt =====
-- A connection loads one matrix set and keeps it: what a frame may do to the phase of a session.
use emvp_thesis.Base.{ℕ, ◌≡◌, refl, ap, ◌∙◌, Option, none, some, List, String}
use emvp_thesis.Base.Action.{Action, Result, ok, err, gets, ◌>>=◌, continue}
use emvp_thesis.Server.Failure.{failure_code}
use emvp_thesis.Server.Session.{
  Outcome, continue_session, close, transport, engine, Services, StoredMatrix, loaded, Connection,
  stored, on_output, send_error, refuse, or_refuse, in_payload_evaluate,
}
use emvp_thesis.Server.Session.Frames.{
  handle_upload, handle_upload_in, answer_evaluate, handle_evaluate, handle_evaluate_in,
  handle_frame, or_internal, check_request, replied, wrong_way, jobs, product_inputs, concat,
}
use emvp_thesis.Wire.Products.Write.{write_products}
use emvp_thesis.Wire.Error.{
  CodecError, ErrorCode, error_code, gpu_failure, internal, already_loaded, FrameKind,
  upload_matrices, upload_accepted, evaluate, products, error,
}

module _ {Handle : Type 0} where
  -- An action that leaves the phase of the session as it is, whatever it returns.
  pub record Keeps {A : Type 0} (m : Action (Connection Handle) Outcome A) : Type 0 where
    pub kept : (c : Connection Handle) → (m c).1.phase ≡ c.phase

  pub keeps :
      {A : Type 0} {m : Action (Connection Handle) Outcome A}
      → ((c : Connection Handle) → (m c).1.phase ≡ c.phase)
      → Keeps m
  keeps h = record { kept = h }

  Keeps-continue :
      {A B : Type 0} (r : Result Outcome A × Connection Handle)
      (f : A → Action (Connection Handle) Outcome B)
      → ((a : A) → Keeps (f a))
      → (continue r.0 f r.1).1.phase ≡ r.1.phase
  Keeps-continue (ok a, c) f h = (h a).kept c
  Keeps-continue (err e, c) f h = refl

  pub Keeps-bind :
      {A B : Type 0} (m : Action (Connection Handle) Outcome A)
      (f : A → Action (Connection Handle) Outcome B)
      → Keeps m
      → ((a : A) → Keeps (f a))
      → Keeps (m >>= f)
  Keeps-bind m f hm hf = record { kept = λ c. Keeps-continue (m c) f hf ∙ hm.kept c }

  pub Keeps-refuse :
      (A : Type 0) (code : ErrorCode) (text : List ℕ) (o : Outcome)
      → Keeps (refuse {A = A} code text o)
  unfolding refuse send_error
  Keeps-refuse A code text o = record { kept = λ c. refl }

  pub Keeps-or_refuse :
      {E A : Type 0} (r : Result E A) (f : E → Action (Connection Handle) Outcome A)
      → ((e : E) → Keeps (f e))
      → Keeps (or_refuse r f)
  Keeps-or_refuse (ok a) f h = record { kept = λ c. refl }
  Keeps-or_refuse (err e) f h = h e

module _ {Handle Plan Answers : Type 0} (services : Services Handle Plan Answers) where
  Keeps-or_internal :
      {A : Type 0} (text : String) (o : Option A) → Keeps (or_internal services text o)
  Keeps-or_internal text none = Keeps-refuse _ _ _ (close none)
  Keeps-or_internal text (some a) = record { kept = λ c. refl }

  pub Keeps-replied : (r : Result CodecError ℕ) → Keeps (replied services r)
  Keeps-replied (ok n) = record { kept = λ c. refl }
  Keeps-replied (err e) = record { kept = λ c. refl }

  Keeps-answer_evaluate : (payload_len : ℕ) → Keeps (answer_evaluate services payload_len)
  unfolding answer_evaluate
  Keeps-answer_evaluate payload_len =
      Keeps-bind (in_payload_evaluate services.allocator payload_len) _
        (record { kept = λ c. refl })
        λ read.
          Keeps-bind _ _
            (Keeps-or_refuse read _ (λ e.
              Keeps-refuse _ (error_code e) (services.codec_text e) (close (some (transport e)))))
            λ x.
              Keeps-bind (check_request services x.0) _ (record { kept = λ c. refl })
                λ checked.
                  Keeps-bind _ _
                    (Keeps-or_refuse checked _ (λ f.
                      Keeps-refuse _ (failure_code f) (services.failure_text f) continue_session))
                    λ evaluated.
                      Keeps-bind (gets (λ (c : Connection Handle). c.phase)) _
                        (record { kept = λ c. refl })
                        λ phase.
                          Keeps-bind (gets (λ (c : Connection Handle). c.scratch.query_refs)) _
                            (record { kept = λ c. refl })
                            λ refs.
                              Keeps-bind _ _
                                (Keeps-or_internal "a validated matrix identifier disappeared"
                                  (jobs services (stored phase) refs evaluated))
                                λ asked.
                                  Keeps-bind _ _
                                    (Keeps-or_refuse (services.answer asked) _ (λ text.
                                      Keeps-refuse _ gpu_failure text (close (some (engine text)))))
                                    λ answers.
                                      Keeps-bind _ _
                                        (Keeps-or_refuse (services.entry_answers answers) _
                                          (λ text. Keeps-refuse _ internal text (close none)))
                                        λ batches.
                                          Keeps-bind _ _
                                            (Keeps-or_internal
                                              "an evaluated entry produced no answers"
                                              (product_inputs services (concat services batches) 0
                                                evaluated batches))
                                            λ inputs.
                                              Keeps-bind (on_output (write_products inputs)) _
                                                (record { kept = λ c. refl })
                                                λ sent. Keeps-replied sent

  Keeps-wrong_way : (kind : FrameKind) → Keeps (wrong_way services kind)
  Keeps-wrong_way kind = Keeps-refuse _ _ _ _

  -- In every connection whose session has loaded a matrix set, handling any frame leaves that set as it is,
  -- whatever the frame's kind, the bytes of its payload, the engine's answers and the outcome.
  pub handle_frame_keeps_loaded :
      (kind : FrameKind) (payload_len : ℕ) (c : Connection Handle) (ms : List (StoredMatrix Handle))
      → c.phase ≡ loaded ms
      → (handle_frame services kind payload_len c).1.phase ≡ loaded ms
  unfolding handle_frame handle_upload handle_evaluate
  handle_frame_keeps_loaded upload_matrices payload_len c ms h =
      ap (λ p. (handle_upload_in services p payload_len c).1.phase) h
      ∙ (Keeps-refuse Outcome already_loaded
            (services.utf8 "this session already loaded a matrix set") (close none)).kept
          c
      ∙ h
  handle_frame_keeps_loaded evaluate payload_len c ms h =
      ap (λ p. (handle_evaluate_in services p payload_len c).1.phase) h
      ∙ (Keeps-answer_evaluate payload_len).kept c
      ∙ h
  handle_frame_keeps_loaded upload_accepted payload_len c ms h =
      (Keeps-wrong_way upload_accepted).kept c ∙ h
  handle_frame_keeps_loaded products payload_len c ms h = (Keeps-wrong_way products).kept c ∙ h
  handle_frame_keeps_loaded error payload_len c ms h = (Keeps-wrong_way error).kept c ∙ h
