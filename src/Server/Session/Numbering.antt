-- ===== src/Server/Session/Numbering.antt =====
-- The identifiers that a session gives to the matrices of its upload.
use emvp_thesis.Base.{
  ℕ, ◌<◌, eq→==, zero, suc, ◌+◌, ◌≡◌, refl, ap, ◌∙◌, arith, none, some, List, [], ◌∷◌, ◌==◌, false,
  length, get_elem?,
}
use emvp_thesis.Base.Action.{Action, Result, ok, err, gets, ◌>>=◌, ◌>>◌}
use emvp_thesis.Base.Vector.{refill}
use emvp_thesis.Wire.Plan.{grow_capacity}
use emvp_thesis.Server.Request.{MatrixInfo}
use emvp_thesis.Server.Session.{
  Outcome, transport, close, Services, loaded, Connection, find_matrix, stored, phase_info, info_of,
  number_from, identifiers, on_output, or_refuse, refuse,
}
use emvp_thesis.Server.Session.Frames.{load_matrices_and_reply, reserve_accepted, replied}
use emvp_thesis.Server.Session.LoadOnce.{
  Keeps, keeps, Keeps-bind, Keeps-refuse, Keeps-or_refuse, Keeps-replied,
}
use emvp_thesis.Wire.Error.{CodecError, error_code}
use emvp_thesis.Wire.Messages.{write_upload_accepted}
use emvp_thesis.Wire.Upload.{UploadMatrixView}

-- What a session keeps of an uploaded matrix.
abbrev pub info_of_view : UploadMatrixView → MatrixInfo
info_of_view v = record { instance_id = v.instance_id; width = v.columns }

add_suc_shift : (a b : ℕ) → a + suc b ≡ (a + 1) + b
add_suc_shift a b = omega arith

apart→== : (a b : ℕ) → a < b → (a == b) ≡ false
apart→== a b h = ground arith

module _ {Handle : Type 0} where
  find_matrix-number_from :
      (id : ℕ) (hs : List Handle) (vs : List UploadMatrixView) (i : ℕ) (v : UploadMatrixView)
      → length hs ≡ length vs
      → get_elem? vs i ≡ some v
      → info_of (find_matrix (id + i) (number_from id hs vs)) ≡ some (info_of_view v)
  unfolding number_from
  find_matrix-number_from id hs [] i v same at = grind arith
  find_matrix-number_from id [] (w ∷ ws) i v same at = absurd (omega arith)
  find_matrix-number_from id (h ∷ hs) (w ∷ ws) zero v same at =
      rw (eq→== id (id + 0) (omega arith))
        (ap (λ o. elim o [ none ↦ none | some x ↦ some (info_of_view x) ]) at)
  find_matrix-number_from id (h ∷ hs) (w ∷ ws) (suc i) v same at =
      rw (apart→== id (id + suc i) (omega arith)) (
        ap (λ j. info_of (find_matrix j (number_from (id + 1) hs ws))) (add_suc_shift id i)
        ∙ find_matrix-number_from (id + 1) hs ws i v (omega arith) at)

module _ {Handle Plan Answers : Type 0} (services : Services Handle Plan Answers) where
  Keeps-reserve_accepted : (ids : List ℕ) → Keeps (reserve_accepted services ids)
  Keeps-reserve_accepted ids = keeps λ c.
      elim (grow_capacity services.allocator (length ids) c.accepted tt).0
        as (λ x.
          (elim x as (λ _. Result Outcome (Result CodecError (Unit {0})) × Connection Handle) [
            | ok v ↦ (ok (ok tt), record c { accepted = refill services.allocator ids v })
            | err e ↦ (ok (err e), c)
          ]).1.phase
          ≡ c.phase) [ ok v ↦ refl | err e ↦ refl ]

  abbrev acknowledging : (ids : List ℕ) → Action (Connection Handle) Outcome Outcome
  acknowledging ids = do
    reserved ← reserve_accepted services ids
    or_refuse reserved
        (λ e. refuse (error_code e) (services.codec_text e) (close (some (transport e))))
    sent_ids ← gets (λ (c : Connection Handle). c.accepted.items)
    sent ← on_output (write_upload_accepted sent_ids)
    replied services sent

  Keeps-acknowledging : (ids : List ℕ) → Keeps (acknowledging ids)
  Keeps-acknowledging ids =
      Keeps-bind (reserve_accepted services ids) _ (Keeps-reserve_accepted ids) λ reserved.
        Keeps-bind _ _
          (Keeps-or_refuse reserved _ (λ e.
            Keeps-refuse _ (error_code e) (services.codec_text e) (close (some (transport e)))))
          λ done.
            Keeps-bind (gets (λ (c : Connection Handle). c.accepted.items)) _ (keeps λ c. refl)
              λ sent_ids.
                Keeps-bind (on_output (write_upload_accepted sent_ids)) _ (keeps λ c. refl)
                  λ sent. Keeps-replied services sent

  -- In every connection, where the engine has committed as many handles as there are views, the session
  -- is loaded after `load_matrices_and_reply` and finds the instance and the width of the view at index i
  -- under the identifier i + 1, whatever becomes of the acknowledgment.
  pub load_matrices_and_reply_numbers :
      (prepared : List Handle) (views : List UploadMatrixView) (c : Connection Handle) (i : ℕ)
      (v : UploadMatrixView)
      → length prepared ≡ length views
      → get_elem? views i ≡ some v
      → phase_info (load_matrices_and_reply services prepared views c).1.phase (1 + i)
        ≡ some (info_of_view v)
  unfolding load_matrices_and_reply phase_info
  load_matrices_and_reply_numbers prepared views c i v same at =
      ap (λ p. info_of (find_matrix (1 + i) (stored p)))
        ((Keeps-acknowledging (identifiers 1 prepared)).kept
          (record c { phase = loaded (number_from 1 prepared views) }))
      ∙ find_matrix-number_from 1 prepared views i v same at
