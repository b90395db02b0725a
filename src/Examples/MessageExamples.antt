-- ===== src/Examples/MessageExamples.antt =====
-- The theorems on the small messages and on the handshake at concrete bytes.
use emvp_thesis.Base.{
  All, ◌<◌, ◌^◌, ℕ, ◌≡◌, refl, arith, some, List, [], ◌∷◌, ◌++◌, length, length-append, true,
}
use emvp_thesis.Base.Action.{ok, err}
use emvp_thesis.Base.Words.{to_le_bytes}
use emvp_thesis.Wire.Error.{
  upload_accepted, error, unexpected_frame, to_u8, duplicate_query_id, unsupported_version,
  rejected,
}
use emvp_thesis.Wire.Stream.{Stream, end_of_stream, extend}
use emvp_thesis.Wire.Frame.{protocol_version, protocol_modulus}
use emvp_thesis.Wire.Frame.Header.{header, length-header}
use emvp_thesis.Wire.Messages.{
  write_upload_accepted, read_upload_accepted, write_error, read_error, open_frame, ErrorResponse,
  response_code,
}
use emvp_thesis.Wire.Messages.Payload.{
  IsIdentifier, accepted_frame, accepted_len, length-accepted_payload, accepted_payload,
  error_frame, error_len, length-error_payload, error_payload,
}
use emvp_thesis.Wire.Messages.RoundTrip.{upload_accepted_round_trip, error_round_trip}
use emvp_thesis.Wire.Handshake.{server_handshake, client_handshake}
use emvp_thesis.Wire.Messages.Opened.{IsForeign, open_frame_exact}
use emvp_thesis.Wire.Messages.Received.{read_upload_accepted_sound}
use emvp_thesis.Wire.Frame.Delivered.{Delivers}
use mathlib.Core.Logic.{◌↔◌}
use emvp_thesis.Wire.Handshake.Agreement.{
  hello, accepts, status, server_handshake_answers, client_handshake_judges,
}
use emvp_thesis.Examples.Sample.{granting, sink}

abbrev ids : List ℕ
ids = 1 ∷ 2 ∷ []

upload_accepted_round_trip_example :
    (write_upload_accepted ids sink
      ≡ (ok (length (accepted_frame ids)), extend sink (accepted_frame ids)))
    × (read_upload_accepted granting
          (record { bytes = accepted_frame ids ++ (8 ∷ []); ending = end_of_stream })
        ≡ (ok (ids, accepted_len ids), record { bytes = 8 ∷ []; ending = end_of_stream }))
upload_accepted_round_trip_example =
    upload_accepted_round_trip granting ids sink (8 ∷ []) end_of_stream (λ n. refl)
      ((omega arith, omega arith), ((omega arith, omega arith), tt)) (omega arith)
      (omega (
        arith,
        length-append (header upload_accepted (accepted_len ids)) (accepted_payload ids),
        length-header upload_accepted (accepted_len ids),
        length-accepted_payload ids,
      ))

-- "no"
abbrev text : List ℕ
text = 110 ∷ 111 ∷ []

error_round_trip_example :
    (write_error duplicate_query_id text sink ≡ (
      ok (length (error_frame duplicate_query_id text)),
      extend sink (error_frame duplicate_query_id text),
    ))
    × (response : ErrorResponse) × (read_error granting
          (λ (t : List ℕ). true)
          (record {
            bytes = error_frame duplicate_query_id text ++ (8 ∷ []);
            ending = end_of_stream;
          })
        ≡ (ok (response, error_len text), record { bytes = 8 ∷ []; ending = end_of_stream }))
    × (response.message ≡ text)
    × (response_code response ≡ some duplicate_query_id)
error_round_trip_example =
    error_round_trip granting (λ (t : List ℕ). true) duplicate_query_id text sink (8 ∷ [])
      end_of_stream (λ n. refl) refl (omega arith)
      (omega (
        arith,
        length-append (header error (error_len text)) (error_payload duplicate_query_id text),
        length-header error (error_len text),
        length-error_payload duplicate_query_id text,
      ))

-- A products frame of 40 bytes.
abbrev products_head : List ℕ
products_head = 4 ∷ 40 ∷ 0 ∷ 0 ∷ 0 ∷ 0 ∷ 0 ∷ 0 ∷ 0 ∷ 8 ∷ []

abbrev arriving : Stream
arriving = record { bytes = products_head; ending = end_of_stream }

abbrev behind : Stream
behind = record { bytes = 8 ∷ []; ending = end_of_stream }

open_frame_exact_example :
    ((open_frame upload_accepted arriving ≡ (ok 40, behind))
      ↔ ((◌<◌ 40 (2 ^ 64)) × Delivers (header upload_accepted 40) arriving behind))
    × ((open_frame upload_accepted arriving ≡ (err (unexpected_frame upload_accepted 4), behind))
        ↔ IsForeign upload_accepted arriving behind 4)
open_frame_exact_example = open_frame_exact upload_accepted arriving behind (omega arith) 40 4

read_upload_accepted_sound_example :
    All IsIdentifier ids
    × (accepted_len ids ≡ accepted_len ids)
    × Delivers
        (accepted_frame ids)
        (record { bytes = accepted_frame ids ++ (8 ∷ []); ending = end_of_stream })
        behind
unfolding to_le_bytes to_u8
read_upload_accepted_sound_example =
    read_upload_accepted_sound granting
      (record { bytes = accepted_frame ids ++ (8 ∷ []); ending = end_of_stream }) behind ids
      (accepted_len ids) (omega arith) upload_accepted_round_trip_example.1

server_handshake_answers_example :
    server_handshake (record {
      input = record { bytes = hello 1 protocol_modulus ++ (8 ∷ []); ending = end_of_stream };
      output = sink;
    })
    ≡ (
      err (unsupported_version 1),
      record {
        input = record { bytes = 8 ∷ []; ending = end_of_stream };
        output = extend sink (to_le_bytes 1 (status (accepts 1 protocol_modulus)));
      },
    )
server_handshake_answers_example =
    server_handshake_answers 1 protocol_modulus (8 ∷ []) end_of_stream sink (omega arith)
      (omega arith) (omega arith)

abbrev foreign : List ℕ
foreign = 71 ∷ 69 ∷ 84 ∷ 32 ∷ 47 ∷ 32 ∷ 72 ∷ 84 ∷ 84 ∷ 80 ∷ []

client_handshake_judges_example :
    client_handshake (record {
      input = record { bytes = to_le_bytes 1 0 ++ (8 ∷ []); ending = end_of_stream };
      output = sink;
    })
    ≡ (
      err rejected,
      record {
        input = record { bytes = 8 ∷ []; ending = end_of_stream };
        output = extend sink (hello protocol_version protocol_modulus);
      },
    )
client_handshake_judges_example =
    client_handshake_judges 0 (8 ∷ []) end_of_stream sink (omega arith) (omega arith)
