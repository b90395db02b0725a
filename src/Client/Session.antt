-- ===== src/Client/Session.antt =====
-- The client's `Session`: the upload and its acknowledgment, and one round of evaluation. What it times
-- and reports is left out.
pub mod Round
pub mod Uploaded
use emvp_thesis.Base.{
  ℕ, zero, suc, ◌+◌, Option, none, some, String, List, [], ◌∷◌, ◌++◌, ◌==◌, not, length, map, take,
  drop, flat_map, checked_add, Bool,
}
use emvp_thesis.Base.Action.{
  Action, Result, ok, err, pure, fail, ensure, gets, modify, ok_or, lift, ◌>>=◌, ◌>>◌,
}
use emvp_thesis.Base.Vector
use emvp_thesis.Base.Vector.{Vector, Allocator, refill, try_reserve_exact}
use emvp_thesis.Client.{
  RunError, Stop, failed, codec, server, protocol, handshake, upload_acknowledge, products_shape,
  Instance, Buffers, codec_error, on_codec, validate_upload_reply, verify_products,
}
use emvp_thesis.Emvp.Params.{EmvpParams}
use emvp_thesis.Emvp.Protocol.{dimension_overflow, EncryptedQuery}
use emvp_thesis.Emvp.View.{EncryptedQueryRef}
use emvp_thesis.Wire.Error.{
  HandshakeError, CodecError, allocation_failed, FrameKind, upload_accepted, products, error,
}
use emvp_thesis.Wire.Evaluate.{EvaluateEntryInput}
use emvp_thesis.Wire.Evaluate.Write.{write_evaluate}
use emvp_thesis.Wire.Frame.{
  FrameHeader, FrameReader, header_bytes, open_payload, read_frame_header, finish,
}
use emvp_thesis.Wire.Handshake.{Duplex, client_handshake}
use emvp_thesis.Wire.Messages.{Accepting, accept, ErrorResponse, read_error_payload}
use emvp_thesis.Wire.Products.Workspace as ProductsBuffers
use emvp_thesis.Wire.Products.Workspace.{ProductsWorkspace, Receiving, read_products}
use emvp_thesis.Wire.Stream.{Stream, Sink}
use emvp_thesis.Wire.Upload.{UploadMatrixView}
use emvp_thesis.Wire.Upload.Write.{write_upload_matrices}

pub record ClientSession : Type 0 where
  pub input : Stream
  pub output : Sink
  pub ack_ids : Vector ℕ
  pub products : ProductsWorkspace
  pub query_refs : Vector EncryptedQueryRef
  pub buffers : Buffers

abbrev pub Run : Type 0 → Type 0
Run A = Action ClientSession Stop A

-- `Session::new` after its handshake.
abbrev new_on : Result HandshakeError (Unit {0}) × Duplex → Result RunError ClientSession
new_on (err e, d) = err (handshake e)
new_on (ok u, d) = ok (record {
  input = d.input;
  output = d.output;
  ack_ids = Vector.empty;
  products = ProductsBuffers.new_workspace;
  query_refs = Vector.empty;
  buffers = record { decoded = Vector.empty; expected = Vector.empty };
})

pub new_session : Duplex → Result RunError ClientSession
new_session d = new_on (client_handshake d)

module _ {A : Type 0} where
  abbrev pub on_output : Action Sink CodecError A → Run A
  on_output m s = let (r, output) = m s.output in (codec_error r, record s { output = output })

  abbrev pub on_input : Action Stream CodecError A → Run A
  on_input m s = let (r, input) = m s.input in (codec_error r, record s { input = input })

  -- A payload that is decoded into the acknowledgment workspace.
  abbrev pub on_accepting : ℕ → Action Accepting CodecError A → Run A
  on_accepting len m s =
      let (r, a) = m (record { frame = open_payload s.input len; identifiers = s.ack_ids }) in
      (codec_error r, record s { input = a.frame.inner; ack_ids = a.identifiers })

  -- A payload that is decoded into the products workspace.
  abbrev pub on_receiving : ℕ → Action Receiving CodecError A → Run A
  on_receiving len m s =
      let (r, a) = m (record { frame = open_payload s.input len; workspace = s.products }) in
      (codec_error r, record s { input = a.frame.inner; products = a.workspace })

  abbrev pub on_frame : ℕ → Action FrameReader CodecError A → Run A
  on_frame len m s =
      let (r, f) = m (open_payload s.input len) in (codec_error r, record s { input = f.inner })

  abbrev pub on_result : Result RunError A → Run A
  on_result (ok a) s = (ok a, s)
  on_result (err e) s = (err (failed e), s)

  abbrev pub on_buffers : Action Buffers Stop A → Run A
  on_buffers m s = let (r, b) = m s.buffers in (r, record s { buffers = b })

abbrev pub upload_view : EmvpParams → Instance → UploadMatrixView
upload_view ps inst = record {
  params = ps;
  instance_id = inst.encrypted.instance_id;
  rows = inst.encrypted.rows;
  columns = inst.encrypted.columns;
  values = inst.encrypted.values;
}

-- `try_fold` of the query counts.
total_queries : ℕ → List Instance → Option ℕ
total_queries total [] = some total
total_queries total (inst ∷ instances) = elim (checked_add total (length inst.queries)) [
  | none ↦ none
  | some sum ↦ total_queries sum instances
]

abbrev pub query_ref : EncryptedQuery → EncryptedQueryRef
query_ref q = record { instance_id = q.instance_id; query_id = q.query_id; values = q.values }

-- `instances.iter().zip(matrix_ids)`, each with its part of the references from an offset on.
pub entries_from : ℕ → List EncryptedQueryRef → List Instance → List ℕ → List EvaluateEntryInput
entries_from offset refs [] ids = []
entries_from offset refs (inst ∷ instances) [] = []
entries_from offset refs (inst ∷ instances) (id ∷ ids) =
    record { matrix_id = id; queries = take (length inst.queries) (drop offset refs) }
    ∷ entries_from (offset + length inst.queries) refs instances ids

pub record RoundOutcome : Type 0 where
  pub evaluate_bytes : ℕ
  pub products_bytes : ℕ
  pub verified_queries : ℕ

module _ (allocator : Allocator) (is_utf8 : List ℕ → Bool) where
  -- `FrameKind::Error`: the server's answer is the error of the run.
  pub server_error : {A : Type 0} → ℕ → Run A
  server_error len = do
    response ←
        on_frame len (read_error_payload allocator is_utf8 >>= λ response. finish >> pure response)
    fail (failed (server response))

  -- `match header.kind`
  pub upload_payload : FrameKind → ℕ → Run (List ℕ)
  upload_payload upload_accepted len = on_accepting len (accept allocator)
  upload_payload error len = server_error len
  upload_payload _ len =
      fail (failed (products_shape "the upload response was not an acknowledgment"))

  pub upload_reply : Option FrameHeader → Run (List ℕ)
  upload_reply none =
      fail (failed (products_shape "the connection closed before the upload acknowledgment"))
  upload_reply (some header) = upload_payload header.kind header.payload_len

  pub read_upload_reply : Run (List ℕ)
  read_upload_reply = do header ← on_input read_frame_header; upload_reply header

  pub upload : List Instance → EmvpParams → Run ℕ
  upload instances ps = do
    upload_bytes ← on_output (write_upload_matrices (map (upload_view ps) instances))
    identifiers ← read_upload_reply
    on_result (validate_upload_reply identifiers (length instances))
    pure upload_bytes

  -- After `clear`, the length is 0 and the reservation asks for all queries.
  pub evaluate_entries : List Instance → List ℕ → Run (List EvaluateEntryInput)
  unfolding total_queries
  evaluate_entries instances matrix_ids = do
    total ← ok_or (failed (protocol dimension_overflow)) (total_queries 0 instances)
    modify (λ s. record s { query_refs = record (s.query_refs) { items = [] } })
    refs ← gets (λ (s : ClientSession). s.query_refs)
    refs ← ok_or (failed (codec allocation_failed)) (try_reserve_exact allocator total refs)
    modify (λ s. record s {
      query_refs =
          refill allocator (flat_map (λ (inst : Instance). map query_ref inst.queries) instances)
            refs;
    })
    refs ← gets (λ (s : ClientSession). s.query_refs.items)
    pure (entries_from 0 refs instances matrix_ids)

  -- The bytes of the products frame, which is decoded into the session's workspace.
  pub products_payload : FrameKind → ℕ → Run ℕ
  products_payload products len =
      on_receiving len (read_products allocator) >> pure (len + header_bytes)
  products_payload error len = server_error len
  products_payload _ len =
      fail (failed (products_shape "the evaluation response was not a products frame"))

  pub products_reply : Option FrameHeader → Run ℕ
  products_reply none =
      fail (failed (products_shape "the connection closed before the products response"))
  products_reply (some header) = products_payload header.kind header.payload_len

  pub evaluate_and_verify : List Instance → EmvpParams → Run RoundOutcome
  evaluate_and_verify instances ps = do
    matrix_ids ← gets (λ (s : ClientSession). s.ack_ids.items)
    ensure (length matrix_ids == length instances)
        (failed (upload_acknowledge (length instances) (length matrix_ids)))
    entries ← evaluate_entries instances matrix_ids
    evaluate_bytes ← on_output (write_evaluate entries)
    header ← on_input read_frame_header
    products_bytes ← products_reply header
    received ← gets (λ (s : ClientSession). s.products)
    verified_queries ← on_buffers (verify_products allocator received instances matrix_ids ps)
    pure (record {
      evaluate_bytes = evaluate_bytes;
      products_bytes = products_bytes;
      verified_queries = verified_queries;
    })
