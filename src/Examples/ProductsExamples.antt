-- ===== src/Examples/ProductsExamples.antt =====
-- The theorems on the `Products` message and on views at concrete answers.
use emvp_thesis.Base.{
  ◌≤◌, ◌≡◌, refl, arith, some, List, [], ◌∷◌, ◌++◌, length, length-append, map, All,
}
use emvp_thesis.Base.Action.{ok}
use emvp_thesis.Emvp.View.{AnswerRef, EncryptedMatrixRef}
use emvp_thesis.Wire.Error.{products}
use emvp_thesis.Wire.Stream.{end_of_stream, extend}
use emvp_thesis.Wire.Frame.{read_frame_header, open_payload}
use emvp_thesis.Wire.Frame.Reads.{framed}
use emvp_thesis.Wire.Frame.Header.{header, length-header}
use emvp_thesis.Wire.Products.{ProductEntryInput}
use emvp_thesis.Wire.Products.Workspace.{
  ProductsWorkspace, ProductEntryView, read_products, new_workspace,
}
use emvp_thesis.Wire.Products.Write.{write_products}
use emvp_thesis.Wire.Products.Payload.{IsProduct, payload, payload_len, length-payload}
use emvp_thesis.Wire.Products.Written.{frame}
use emvp_thesis.Wire.Products.Viewed.{shown}
use emvp_thesis.Wire.Products.RoundTrip.{products_round_trip}
use emvp_thesis.Examples.Sample.{granting, five, seven, five-IsElement, seven-IsElement, sink}

-- One entry with a 2 x 1 answer.
abbrev answer : AnswerRef
answer = record { rows = 2; blocks = 1; instance_id = 9; query_id = 4; values = five ∷ seven ∷ [] }

abbrev reply : List ProductEntryInput
reply = record { matrix_id = 1; instance_id = 9; rows = 2; blocks = 1; answers = answer ∷ [] } ∷ []

reply-IsProduct : All IsProduct reply
reply-IsProduct = (
  record {
    matrix_fits = omega arith;
    instance_fits = omega arith;
    rows_fit = omega arith;
    blocks_fit = omega arith;
    words_fit = omega arith;
    count_fits = omega arith;
    rows_positive = omega arith;
    blocks_positive = omega arith;
    answers = (
      record {
        query_fits = omega arith;
        same_instance = refl;
        same_rows = refl;
        same_blocks = refl;
        shape = refl;
        elements = (five-IsElement, (seven-IsElement, tt));
      },
      tt,
    );
  },
  tt,
)

reply_fits : length (frame reply) ≤ sink.room
reply_fits = omega (
  arith,
  length-append (header products (payload_len reply)) (payload reply),
  length-header products (payload_len reply),
  length-payload reply reply-IsProduct,
)

products_round_trip_example :
    (w : ProductsWorkspace) × (vs : List ProductEntryView) × (write_products reply sink
      ≡ (ok (length (frame reply)), extend sink (frame reply)))
    × (read_frame_header (record { bytes = frame reply ++ (8 ∷ []); ending = end_of_stream }) ≡ (
      ok (some (record { kind = products; payload_len = payload_len reply })),
      record { bytes = payload reply ++ (8 ∷ []); ending = end_of_stream },
    ))
    × (read_products granting (record {
      frame =
          open_payload
            (record { bytes = payload reply ++ (8 ∷ []); ending = end_of_stream })
            (payload_len reply);
      workspace = new_workspace;
    })
        ≡ (ok vs, record { frame = framed [] (8 ∷ []) end_of_stream; workspace = w }))
    × (map shown vs ≡ reply)
products_round_trip_example =
    products_round_trip granting reply sink new_workspace (8 ∷ []) end_of_stream (λ n. refl)
      reply-IsProduct (omega arith) reply_fits (omega arith)

abbrev two_by_one : EncryptedMatrixRef
two_by_one = record { rows = 2; columns = 1; instance_id = 9; values = five ∷ seven ∷ [] }
