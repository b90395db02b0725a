-- ===== src/Client/Session/Round.antt =====
-- A round of evaluation that returned has verified the products of every instance.
use emvp_thesis.Base.{ℕ, ◌≡◌, sym, ap, ◌∙◌, List, Bool, ◌==◌, length, sum_by, arith}
use emvp_thesis.Base.Action.{Result, ok, ensure, bind_inverse, ensure_inverse}
use emvp_thesis.Base.Vector.{Allocator}
use emvp_thesis.Client.{Stop, Instance, Buffers, verify_products}
use emvp_thesis.Client.Session.{
  ClientSession, RoundOutcome, on_input, on_output, on_buffers, evaluate_entries, products_reply,
  evaluate_and_verify,
}
use emvp_thesis.Client.Verified.{AreAnswered, key_count, verify_products_sound}
use emvp_thesis.Emvp.Params.{EmvpParams, blocks}
use emvp_thesis.Wire.Evaluate.Write.{write_evaluate}
use emvp_thesis.Wire.Frame.{read_frame_header}
use emvp_thesis.Wire.Products.Workspace.{ProductsWorkspace, product_entries}

on_buffers_inverse :
    (m : Buffers → Result Stop ℕ × Buffers) (s t : ClientSession) (n : ℕ)
    → on_buffers m s ≡ (ok n, t)
    → (m s.buffers ≡ (ok n, t.buffers)) × (t.products ≡ s.products)
on_buffers_inverse m s t n h =
    let p = m s.buffers in
    (
      ap (λ r. (r, p.1)) (ap (λ q. q.0) h)
          ∙ ap (λ (b : Buffers). (ok n, b)) (ap (λ q. q.1.buffers) h),
      sym (ap (λ q. q.1.products) h),
    )

made :
    (a b : RoundOutcome) (s t : ClientSession)
    → ◌≡◌ {A = Result Stop RoundOutcome × ClientSession} (ok a, s) (ok b, t)
    → (a ≡ b) × (s ≡ t)
made a b s t h = (cc h, cc h)

moved :
    (block_count : ℕ) (instances : List Instance) (ids : List ℕ) (w w' : ProductsWorkspace)
    → w ≡ w'
    → AreAnswered block_count instances ids (product_entries w)
    → AreAnswered block_count instances ids (product_entries w')
moved block_count instances ids w w' e h = rw (sym e) h

module _ (allocator : Allocator) (is_utf8 : List ℕ → Bool) where
  -- For all instances, parameters and sessions: if `evaluate_and_verify` returns, and the products that the
  -- session received have a view for each instance, then each view names the matrix that the upload numbered
  -- and has the shape and the number of answers that were asked for, each answer decodes with its key to the
  -- plaintext product of its query, and the reported count is the number of all queries.
  pub evaluate_and_verify_sound :
      (instances : List Instance) (ps : EmvpParams) (s t : ClientSession) (outcome : RoundOutcome)
      → evaluate_and_verify allocator is_utf8 instances ps s ≡ (ok outcome, t)
      → length (product_entries t.products) ≡ length instances
      → (block_count : ℕ) × (blocks ps ≡ ok block_count)
        × AreAnswered block_count instances s.ack_ids.items (product_entries t.products)
        × (outcome.verified_queries ≡ sum_by key_count instances)
  unfolding evaluate_and_verify
  evaluate_and_verify_sound instances ps s t outcome h viewed =
      let ids = s.ack_ids.items in
      let (_, s1, counted, h1) = bind_inverse (ensure (length ids == length instances) _) _ s h in
      let (entries, s2, built, h2) =
        bind_inverse (evaluate_entries allocator is_utf8 instances ids) _ s1 h1 in
      let (bytes, s3, wrote, h3) = bind_inverse (on_output (write_evaluate entries)) _ s2 h2 in
      let (header, s4, read, h4) = bind_inverse (on_input read_frame_header) _ s3 h3 in
      let (received, s5, decoded, h5) =
        bind_inverse (products_reply allocator is_utf8 header) _ s4 h4 in
      let (verified, s6, checked, h6) =
        bind_inverse (on_buffers (verify_products allocator s5.products instances ids ps)) _ s5
          h5 in
      let same : length ids ≡ length instances =
        (let test = (ensure_inverse (length ids == length instances) _ s counted).0 in
          ground arith) in
      let (ran, kept) =
        on_buffers_inverse (verify_products allocator s5.products instances ids ps) s5 s6 verified
          checked in
      let end = made _ outcome s6 t h6 in
      let frame : s5.products ≡ t.products =
        sym kept ∙ ap (λ (c : ClientSession). c.products) end.1 in
      let (block_count, found, answered, total) =
        verify_products_sound allocator s5.products instances ids ps s5.buffers s6.buffers verified
          same (ap (λ w. length (product_entries w)) frame ∙ viewed) ran in
      (
        block_count,
        found,
        moved block_count instances ids s5.products t.products frame answered,
        sym (ap (λ (o : RoundOutcome). o.verified_queries) end.0) ∙ total,
      )
