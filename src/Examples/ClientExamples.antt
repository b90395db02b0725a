-- ===== src/Examples/ClientExamples.antt =====
-- The theorems on the client at one matrix with one query.
use emvp_thesis.Base.{
  ℕ, ◌+◌, ◌≡◌, ◌≢◌, refl, ap, List, [], ◌∷◌, ◌++◌, true, All, length, sum_by, arith,
}
use emvp_thesis.Base.Fresh.{Distinct}
use emvp_thesis.Base.Action.{Result, ok}
use emvp_thesis.Base.Vector
use emvp_thesis.Client.Acknowledged.{validate_upload_reply_exact}
use emvp_thesis.Client.Session.{ClientSession, upload}
use emvp_thesis.Client.Session.Uploaded.{AreIdentifiers, upload_sound, upload_completes}
use emvp_thesis.Client.Verified.{AreAnswered, key_count, verify_products_sound}
use emvp_thesis.Examples.Sample.{granting, five, seven, matrix, matrix-IsUpload, frame_fits, sink}
use emvp_thesis.Wire.Frame.{header_bytes}
use emvp_thesis.Wire.Messages.Payload.{accepted_frame}
use emvp_thesis.Wire.Stream.{end_of_stream, extend}
use emvp_thesis.Wire.Upload.Payload.{payload_len}
use emvp_thesis.Wire.Upload.Written.{frame}
use mathlib.Core.Logic.{◌↔◌}
use emvp_thesis.Client.{
  validate_upload_reply, Stop, Instance, Buffers, verify_products, verify_entries, verify_entry,
  verify_keys, verify_answer, reserve_buffers, plaintext_product_into,
}
use emvp_thesis.Emvp.Params.{EmvpParams}
use emvp_thesis.Emvp.Protocol.{DecodingKey}
use emvp_thesis.Field.{FieldElement}
use emvp_thesis.Wire.Products.Workspace.{ProductsWorkspace}
use emvp_thesis.Emvp.Params.{blocks, code_length}
use emvp_thesis.Wire.Products.Workspace.{product_entries, products_from, product_view, answer_view}
use emvp_thesis.Base.{checked_mul, checked_add, get_from, get_range, write_at}
use emvp_thesis.Emvp.View.{new_answer_ref}
use emvp_thesis.Wire.Plan.{grow}
use emvp_thesis.Base.Vector.{try_reserve_exact, resize}
use emvp_thesis.Emvp.Protocol.{
  decode_into, validate_decode, check_len, decode_row, decode_terms, fill_decoded,
}
use emvp_thesis.Field.{
  add, add_canonical, calculate_montgomery_neg_inv, from_u32, montgomery_mul_scalar, montgomery_r2,
  mul, reduce_once_u64, sub, sub_canonical, to_montgomery,
}

-- 0, 1 and 5 in Montgomery form.
abbrev none_of : FieldElement
none_of = record { montgomery = 0 }

abbrev unit : FieldElement
unit = record { montgomery = 301989884 }

abbrev answered_key : DecodingKey
answered_key = record {
  p_prime = unit ∷ unit ∷ [];
  r_prime = none_of ∷ [];
  instance_id = 9;
  query_id = 3;
}

abbrev inst : Instance
inst = record {
  rows = 1;
  plaintext = unit ∷ [];
  plaintext_queries = (unit ∷ []) ∷ [];
  queries = [];
  decoding_keys = answered_key ∷ [];
  encrypted = record {
    rows = 1;
    columns = 4;
    values = unit ∷ unit ∷ unit ∷ unit ∷ [];
    instance_id = 9;
  };
}

abbrev received : ProductsWorkspace
received = record {
  arena = record { items = unit ∷ none_of ∷ []; capacity = 2 };
  entries = record {
    items =
        record {
          matrix_id = 1;
          instance_id = 9;
          rows = 1;
          blocks = 2;
          answer_count = 1;
          answer_offset = 0;
          value_offset = 0;
        }
        ∷ [];
    capacity = 1;
  };
  query_ids = record { items = 3 ∷ []; capacity = 1 };
}

abbrev ps : EmvpParams
ps = record { k = 2; ell = 1; b = 2; lambda = 0 }

abbrev start : Buffers
start = record { decoded = Vector.empty; expected = Vector.empty }

run : (verify_products granting received (inst ∷ []) (1 ∷ []) ps start).0 ≡ ok 1
unfolding verify_products verify_entries verify_entry verify_keys verify_answer reserve_buffers
    plaintext_product_into blocks code_length product_entries products_from product_view answer_view
    checked_mul checked_add get_from get_range write_at new_answer_ref grow try_reserve_exact resize
    decode_into validate_decode check_len decode_row decode_terms fill_decoded add add_canonical
    calculate_montgomery_neg_inv from_u32 montgomery_mul_scalar montgomery_r2 mul reduce_once_u64
    sub sub_canonical to_montgomery
run = refl

viewed : length (product_entries received) ≡ 1
unfolding product_entries products_from product_view checked_mul checked_add get_from get_range
viewed = refl

verify_products_sound_example :
    (block_count : ℕ) × (blocks ps ≡ ok block_count)
    × AreAnswered block_count (inst ∷ []) (1 ∷ []) (product_entries received)
    × (1 ≡ sum_by key_count (inst ∷ []))
verify_products_sound_example =
    verify_products_sound granting received (inst ∷ []) (1 ∷ []) ps start
      (verify_products granting received (inst ∷ []) (1 ∷ []) ps start).1 1 refl viewed
      (ap
        (λ (r : Result Stop ℕ).
          (r, (verify_products granting received (inst ∷ []) (1 ∷ []) ps start).1))
        run)

abbrev two_ids : List ℕ
two_ids = 2 ∷ 7 ∷ []

validate_upload_reply_exact_example :
    (validate_upload_reply two_ids 2 ≡ ok tt)
    ↔ ((length two_ids ≡ 2) × All (λ i. i ≢ 0) two_ids × Distinct two_ids)
validate_upload_reply_exact_example = validate_upload_reply_exact two_ids 2

-- The matrix of the other examples, and the server's answer that numbers it 1.
abbrev stored : Instance
stored = record {
  rows = 2;
  plaintext = five ∷ seven ∷ [];
  plaintext_queries = [];
  queries = [];
  decoding_keys = [];
  encrypted = record { rows = 2; columns = 1; values = five ∷ seven ∷ []; instance_id = 9 };
}

abbrev session : ClientSession
session = record {
  input = record { bytes = accepted_frame (1 ∷ []) ++ (8 ∷ []); ending = end_of_stream };
  output = sink;
  ack_ids = Vector.empty;
  products = received;
  query_refs = Vector.empty;
  buffers = start;
}

upload_completes_example :
    (t : ClientSession) × (upload granting (λ text. true) (stored ∷ []) matrix.params session
      ≡ (ok (payload_len (matrix ∷ []) + header_bytes), t))
    × (t.ack_ids.items ≡ 1 ∷ [])
    × (t.output ≡ extend sink (frame (matrix ∷ [])))
    × (t.input ≡ record { bytes = 8 ∷ []; ending = end_of_stream })
upload_completes_example =
    upload_completes granting (λ text. true) (stored ∷ []) matrix.params session (1 ∷ []) (8 ∷ [])
      end_of_stream (λ n. refl) (matrix-IsUpload, tt) (omega arith) frame_fits
      ((omega arith, omega arith), tt)
      (record { count = refl; nonzero = (λ e. omega arith, tt); distinct = (tt, tt) }) (omega arith)
      refl

uploaded :
    (t : ClientSession) × (upload granting (λ text. true) (stored ∷ []) matrix.params session
      ≡ (ok (payload_len (matrix ∷ []) + header_bytes), t))
    × (t.ack_ids.items ≡ 1 ∷ [])
    × (t.output ≡ extend sink (frame (matrix ∷ [])))
    × (t.input ≡ record { bytes = 8 ∷ []; ending = end_of_stream })
uploaded =
    upload_completes granting (λ text. true) (stored ∷ []) matrix.params session (1 ∷ []) (8 ∷ [])
      end_of_stream (λ n. refl) (matrix-IsUpload, tt) (omega arith) frame_fits
      ((omega arith, omega arith), tt)
      (record { count = refl; nonzero = (λ e. omega arith, tt); distinct = (tt, tt) }) (omega arith)
      refl

upload_sound_example : AreIdentifiers uploaded.0.ack_ids.items 1
upload_sound_example =
    upload_sound granting (λ text. true) (stored ∷ []) matrix.params session uploaded.0
      (payload_len (matrix ∷ []) + header_bytes) uploaded.1
