-- ===== src/Client.antt =====
-- The client's part of a connection, `client/src/session.rs` and `error.rs`: the upload with its
-- acknowledgment, and one round of evaluation whose products are decoded and compared with the plaintext
-- products. An index out of a slice panics in the source; here it stops the action.
pub mod Acknowledged
pub mod Session
pub mod Verified
use emvp_thesis.Base.{
  ℕ, zero, suc, ◌+◌, ◌-◌, ◌*◌, Option, none, some, String, List, [], ◌∷◌, ◌++◌, Bool, true, false,
  ◌==◌, ◌&&◌, not, if◌then◌else◌, length, take, get_elem?, write_at, and_then,
}
use emvp_thesis.Base.Action.{
  Action, Result, ok, err, pure, ensure, gets, modify, ok_or, lift, ◌>>=◌, ◌>>◌,
}
use emvp_thesis.Base.Fresh.{contains}
use emvp_thesis.Base.Vector.{Vector, Allocator}
use emvp_thesis.Emvp.Params.{EmvpParams, ParamsError, blocks}
use emvp_thesis.Emvp.Protocol.{
  ProtocolError, Checked, EncryptedMatrix, EncryptedQuery, DecodingKey, zero_element, decode_terms,
  decode_into,
}
use emvp_thesis.Emvp.View.{AnswerRef}
use emvp_thesis.Field.{FieldElement}
use emvp_thesis.Wire.Error.{CodecError, HandshakeError}
use emvp_thesis.Wire.Frame.{protocol_modulus}
use emvp_thesis.Wire.Messages.{ErrorResponse}
use emvp_thesis.Wire.Plan.{grow}
use emvp_thesis.Wire.Products.Workspace.{
  ProductsWorkspace, ProductEntryView, product_entries, answer_view,
}

-- The errors of other crates are known by a code.
pub data RunError : Type 0 where
  io : ℕ → RunError
  handshake : HandshakeError → RunError
  codec : CodecError → RunError
  server : ErrorResponse → RunError
  protocol : ProtocolError → RunError
  params : ParamsError → RunError
  prf : ℕ → RunError
  seed : ℕ → RunError
  width_too_small : ℕ → ℕ → RunError
  ring_width_not_power_of_two : ℕ → RunError
  insecure_ring : ℕ → ℕ → List ℕ → RunError
  no_rows : RunError
  no_width : RunError
  no_queries : RunError
  row_overflow : ℕ → ℕ → RunError
  upload_acknowledge : ℕ → ℕ → RunError
  upload_identifiers : String → RunError
  products_shape : String → RunError
  verification : ℕ → ℕ → RunError

pub data Stop : Type 0 where
  panicked : Stop
  failed : RunError → Stop

pub record Instance : Type 0 where
  pub rows : ℕ
  pub plaintext : List FieldElement
  pub plaintext_queries : List (List FieldElement)
  pub queries : List EncryptedQuery
  pub decoding_keys : List DecodingKey
  pub encrypted : EncryptedMatrix

-- `identifiers[..index].contains(identifier)` at some index, after those in `before`.
repeats : List ℕ → List ℕ → Bool
repeats before [] = false
repeats before (identifier ∷ identifiers) =
    if contains identifier before then true else repeats (identifier ∷ before) identifiers

pub validate_upload_reply : List ℕ → ℕ → Result RunError (Unit {0})
unfolding repeats
validate_upload_reply identifiers uploaded =
    if not (length identifiers == uploaded)
    then err (upload_acknowledge uploaded (length identifiers))
    else if contains 0 identifiers
    then err (upload_identifiers "an identifier is zero")
    else if repeats [] identifiers
    then err (upload_identifiers "an identifier appears twice")
    else ok tt

-- The two verification buffers of a session.
pub record Buffers : Type 0 where
  pub decoded : Vector FieldElement
  pub expected : Vector FieldElement

abbrev pub codec_error : {A : Type 0} → Result CodecError A → Result Stop A
codec_error (ok a) = ok a
codec_error (err e) = err (failed (codec e))

module _ {S A : Type 0} where
  -- `?` on a codec step.
  abbrev pub on_codec : Action S CodecError A → Action S Stop A
  on_codec m s = let (r, t) = m s in (codec_error r, t)

  -- `?` on a protocol step, which may panic.
  abbrev pub on_protocol : Option (Checked A) → Action S Stop A
  on_protocol none s = (err panicked, s)
  on_protocol (some (ok a)) s = (ok a, s)
  on_protocol (some (err e)) s = (err (failed (protocol e)), s)

  abbrev pub on_params : Result ParamsError A → Action S Stop A
  on_params (ok a) s = (ok a, s)
  on_params (err e) s = (err (failed (params e)), s)

-- The rows of `plaintext_product_into` from a row on; one row adds its products as `decode_row` does.
unfoldable pub plaintext_product_into :
    List FieldElement → List FieldElement → ℕ → ℕ → Option (List FieldElement)
plaintext_product_into plaintext query row zero = some []
plaintext_product_into plaintext query row (suc slots) =
    and_then
      (decode_terms protocol_modulus plaintext (row * length query) query
        (zero_element protocol_modulus))
      λ slot.
        and_then (plaintext_product_into plaintext query (row + 1) slots) λ rest. some (slot ∷ rest)

abbrev pub same_elements : List FieldElement → List FieldElement → Bool
same_elements [] [] = true
same_elements [] (y ∷ ys) = false
same_elements (x ∷ xs) [] = false
same_elements (x ∷ xs) (y ∷ ys) = (x.montgomery == y.montgomery) && same_elements xs ys

-- Writing over the start of a buffer.
abbrev pub overwrite : Vector FieldElement → List FieldElement → Vector FieldElement
overwrite v xs = record v { items = write_at v.items 0 xs }

module _ (allocator : Allocator) where
  -- `ensure_capacity` of both buffers, which grows as `grow` does.
  unfoldable pub reserve_buffers : ℕ → Action Buffers Stop (Unit {0})
  reserve_buffers rows = do
    decoded ← gets (λ (b : Buffers). b.decoded)
    decoded ← on_codec (grow allocator rows (zero_element protocol_modulus) decoded)
    modify (λ b. record b { decoded = decoded })
    expected ← gets (λ (b : Buffers). b.expected)
    expected ← on_codec (grow allocator rows (zero_element protocol_modulus) expected)
    modify (λ b. record b { expected = expected })

  unfoldable pub verify_answer :
      AnswerRef → DecodingKey → List FieldElement → Instance → ℕ → Action Buffers Stop (Unit {0})
  verify_answer answer key plaintext_query inst matrix_id = do
    ensure (answer.query_id == key.query_id)
        (failed (products_shape "an answer is paired with another query's decoding key"))
    reserve_buffers inst.rows
    decoded ← gets (λ (b : Buffers). take inst.rows b.decoded.items)
    values ← on_protocol (decode_into protocol_modulus answer key decoded)
    modify (λ b. record b { decoded = overwrite b.decoded values })
    products ← ok_or panicked (plaintext_product_into inst.plaintext plaintext_query 0 inst.rows)
    modify (λ b. record b { expected = overwrite b.expected products })
    ensure (same_elements values products) (failed (verification matrix_id key.query_id))

  -- The loop over the decoding keys of an instance from an index on: how many were verified.
  unfoldable pub verify_keys :
      ProductEntryView → Instance → ℕ → ℕ → List DecodingKey → Action Buffers Stop ℕ
  verify_keys entry inst matrix_id index [] = pure 0
  verify_keys entry inst matrix_id index (key ∷ keys) = do
    answer ←
        ok_or (failed (products_shape "an entry's answer descriptor was missing"))
          (answer_view entry index)
    query ← ok_or panicked (get_elem? inst.plaintext_queries index)
    verify_answer answer key query inst matrix_id
    verified ← verify_keys entry inst matrix_id (index + 1) keys
    pure (suc verified)

  unfoldable pub verify_entry : ℕ → Instance → ℕ → ProductEntryView → Action Buffers Stop ℕ
  verify_entry block_count inst matrix_id entry = do
    ensure (entry.meta.matrix_id == matrix_id)
        (failed (products_shape "an entry answers a different matrix identifier"))
    ensure (entry.meta.instance_id == inst.encrypted.instance_id)
        (failed (products_shape "an entry answers a different matrix instance"))
    ensure (entry.meta.rows == inst.rows)
        (failed (products_shape "an entry's answer rows do not match its matrix"))
    ensure (entry.meta.blocks == block_count)
        (failed (products_shape "an entry's answer blocks do not match the parameters"))
    ensure (entry.meta.answer_count == length inst.decoding_keys)
        (failed (products_shape "an entry's answer count does not match its query count"))
    verify_keys entry inst matrix_id 0 inst.decoding_keys

  -- `instances.iter().zip(matrix_ids).zip(products.iter())`
  unfoldable pub verify_entries :
      ℕ → List Instance → List ℕ → List ProductEntryView → Action Buffers Stop ℕ
  verify_entries block_count [] ids entries = pure 0
  verify_entries block_count (inst ∷ instances) [] entries = pure 0
  verify_entries block_count (inst ∷ instances) (id ∷ ids) [] = pure 0
  verify_entries block_count (inst ∷ instances) (id ∷ ids) (entry ∷ entries) = do
    verified ← verify_entry block_count inst id entry
    rest ← verify_entries block_count instances ids entries
    pure (verified + rest)

  unfoldable pub verify_products :
      ProductsWorkspace → List Instance → List ℕ → EmvpParams → Action Buffers Stop ℕ
  verify_products products instances matrix_ids ps = do
    ensure (length products.entries.items == length instances)
        (failed (products_shape "the entry count does not match the request"))
    block_count ← on_params (blocks ps)
    verify_entries block_count instances matrix_ids (product_entries products)
