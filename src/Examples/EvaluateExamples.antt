-- ===== src/Examples/EvaluateExamples.antt =====
-- The theorems on the `Evaluate` message at a concrete request.
use emvp_thesis.Base.{
  ℕ, ◌≤◌, ◌≡◌, refl, arith, some, List, [], ◌∷◌, ◌++◌, length, length-append, map, All, sum_by,
}
use emvp_thesis.Base.Action.{ok}
use emvp_thesis.Emvp.View.{EncryptedQueryRef}
use emvp_thesis.Wire.Error.{evaluate}
use emvp_thesis.Wire.Stream.{end_of_stream, extend}
use emvp_thesis.Wire.Frame.{read_frame_header, open_payload}
use emvp_thesis.Wire.Frame.Reads.{framed}
use emvp_thesis.Wire.Frame.Header.{header, length-header}
use emvp_thesis.Wire.Evaluate.{EvaluateEntryInput}
use emvp_thesis.Wire.Evaluate.Workspace.{
  EvaluateWorkspace, EvaluateEntryView, read_evaluate, new_workspace,
}
use emvp_thesis.Wire.Evaluate.Write.{write_evaluate}
use emvp_thesis.Wire.Evaluate.Payload.{IsEntry, query_count, payload, payload_len, length-payload}
use emvp_thesis.Wire.Evaluate.Written.{frame}
use emvp_thesis.Wire.Evaluate.Viewed.{shown}
use emvp_thesis.Wire.Evaluate.RoundTrip.{evaluate_round_trip}
use emvp_thesis.Examples.Sample.{granting, five, five-IsElement, sink}

-- One entry with two queries of width 1.
abbrev query : ℕ → EncryptedQueryRef
query id = record { instance_id = 9; query_id = id; values = five ∷ [] }

abbrev request : List EvaluateEntryInput
request = record { matrix_id = 1; queries = query 4 ∷ query 5 ∷ [] } ∷ []

request-IsEntry : All IsEntry request
request-IsEntry = (
  record {
    matrix_fits = omega arith;
    count_fits = omega arith;
    width_fits = omega arith;
    queries = (
      record {
        instance_fits = omega arith;
        query_fits = omega arith;
        shape = refl;
        elements = (five-IsElement, tt);
      },
      (
        record {
          instance_fits = omega arith;
          query_fits = omega arith;
          shape = refl;
          elements = (five-IsElement, tt);
        },
        tt,
      ),
    );
    positive = (omega arith, (omega arith, tt));
  },
  tt,
)

request_fits : length (frame request) ≤ sink.room
request_fits = omega (
  arith,
  length-append (header evaluate (payload_len request)) (payload request),
  length-header evaluate (payload_len request),
  length-payload request request-IsEntry,
)

evaluate_round_trip_example :
    (w : EvaluateWorkspace) × (vs : List EvaluateEntryView) × (write_evaluate request sink
      ≡ (ok (length (frame request)), extend sink (frame request)))
    × (read_frame_header (record { bytes = frame request ++ (8 ∷ []); ending = end_of_stream }) ≡ (
      ok (some (record { kind = evaluate; payload_len = payload_len request })),
      record { bytes = payload request ++ (8 ∷ []); ending = end_of_stream },
    ))
    × (read_evaluate granting (record {
      frame =
          open_payload
            (record { bytes = payload request ++ (8 ∷ []); ending = end_of_stream })
            (payload_len request);
      workspace = new_workspace;
    })
        ≡ (
          ok (vs, sum_by query_count request),
          record { frame = framed [] (8 ∷ []) end_of_stream; workspace = w },
        ))
    × (map shown vs ≡ request)
evaluate_round_trip_example =
    evaluate_round_trip granting request sink new_workspace (8 ∷ []) end_of_stream (λ n. refl)
      request-IsEntry (omega arith) request_fits (omega arith)
