-- ===== src/Wire/Evaluate/RoundTrip.antt =====
-- From the client's writer to the server's views: an evaluation request arrives unchanged.
use emvp_thesis.Base.{
  ℕ, ◌+◌, ◌*◌, ◌≤◌, ◌≡◌, refl, sym, ap, ◌∙◌, arith, List, [], ◌++◌, length, All, some, sum_by,
  u64_max, append_assoc, length-append, write_at, map, length-map,
}
use emvp_thesis.Base.Action.{ok}
use emvp_thesis.Base.Vector.{Allocator, refill}
use emvp_thesis.Wire.Error.{evaluate}
use emvp_thesis.Wire.Stream.{Ending, Sink, extend}
use emvp_thesis.Wire.Frame.{open_payload, read_frame_header, header_bytes}
use emvp_thesis.Wire.Frame.Header.{header, length-header, read-write_frame_header}
use emvp_thesis.Wire.Frame.Reads.{framed}
use emvp_thesis.Wire.Plan.Growth.{Grants, grow-ok, grow_capacity-ok}
use emvp_thesis.Wire.Upload.Workspace.{zero_field}
use emvp_thesis.Wire.Evaluate.{EvaluateEntryInput}
use emvp_thesis.Wire.Evaluate.Workspace.{
  EvaluateWorkspace, EvaluateEntryView, reserve, entries, read_evaluate,
}
use emvp_thesis.Wire.Evaluate.Write.{write_evaluate}
use emvp_thesis.Wire.Evaluate.Payload.{
  IsEntry, entry_fields, query_count, query_meta, all_queries, length-all_queries, payload,
  payload_len, length-payload, plan_of, metas,
}
use emvp_thesis.Wire.Evaluate.Planned.{plan_evaluate-framed}
use emvp_thesis.Wire.Evaluate.Written.{frame, Writes-evaluate}
use emvp_thesis.Wire.Evaluate.Decoded.{flat_values, decode_evaluate-decoding}
use emvp_thesis.Wire.Evaluate.Viewed.{shown, entries-decoded}

-- Where the program can hold it: an arena's bytes fit an address.
abbrev pub IsAddressable : EvaluateWorkspace → Type 0
IsAddressable ws = length ws.arena.items * 4 ≤ u64_max

reserve_lem :
    (allocator : Allocator) (es : List EvaluateEntryInput) (ws : EvaluateWorkspace)
    → Grants allocator
    → IsAddressable ws
    → sum_by entry_fields es * 4 ≤ u64_max
    → (w : EvaluateWorkspace) × (reserve allocator (plan_of es) ws ≡ (ok tt, w))
      × (w.entries.items ≡ metas 0 0 es)
      × (w.queries.items ≡ map query_meta (all_queries es))
      × (sum_by entry_fields es ≤ length w.arena.items)
      × (IsAddressable w)
unfolding reserve refill
reserve_lem allocator es ws granted fits small =
    let (arena, grow_eq, enough) =
      grow-ok allocator granted (sum_by entry_fields es) zero_field ws.arena ws in
    let ws1 : EvaluateWorkspace = record ws { arena = arena } in
    let (table, entries_eq, same) =
      grow_capacity-ok allocator granted (length (metas 0 0 es)) ws.entries ws1 in
    let ws2 : EvaluateWorkspace = record ws1 { entries = refill allocator (metas 0 0 es) table } in
    let (asked, queries_eq, same') =
      grow_capacity-ok allocator granted (length (map query_meta (all_queries es))) ws.queries
        ws2 in
    (
      record {
        arena = arena;
        entries = refill allocator (metas 0 0 es) table;
        queries = refill allocator (map query_meta (all_queries es)) asked;
      },
      rw (grow_eq, entries_eq, queries_eq),
      refl,
      refl,
      enough.0,
      omega (arith, enough.1),
    )

-- The server's reader turns a payload into views that show its entries, and stops at its end.
pub read_evaluate-framed :
    (allocator : Allocator) (es : List EvaluateEntryInput) (ws : EvaluateWorkspace) (rest : List ℕ)
    (ending : Ending)
    → Grants allocator
    → All IsEntry es
    → payload_len es ≤ u64_max
    → IsAddressable ws
    → (w : EvaluateWorkspace) × (vs : List EvaluateEntryView) × (read_evaluate allocator
          (record { frame = framed (payload es) rest ending; workspace = ws })
        ≡ (ok (vs, sum_by query_count es), record { frame = framed [] rest ending; workspace = w }))
      × (map shown vs ≡ es)
unfolding read_evaluate
read_evaluate-framed allocator es ws rest ending granted us fits small =
    let (w, reserved, table, asked, enough, addressable) =
      reserve_lem allocator es ws granted small (omega arith) in
    let decoded = write_at w.arena.items 0 (flat_values es) in
    let final : EvaluateWorkspace = record w { arena = record (w.arena) { items = decoded } } in
    (
      final,
      entries final,
      rw (
        plan_evaluate-framed rest ending allocator es us fits (granted (length es))
            (granted (sum_by query_count es)),
        reserved,
        decode_evaluate-decoding rest ending es w.arena.items us enough addressable,
        length-map query_meta (all_queries es),
        length-all_queries es,
      ),
      entries-decoded es final w.arena.items table asked refl enough us (omega arith),
    )

-- For entries whose numbers fit their types and whose queries have one positive width each, in a frame
-- of less than 2^64 bytes, a writer with room for it and an allocator that grants: the writer appends the
-- frame and returns its length; the header reader returns the frame's kind and payload length; and
-- `read_evaluate` on that payload returns views that show the same entries with the same queries, with
-- the number of all queries, and leaves the bytes behind the frame.
pub evaluate_round_trip :
    (allocator : Allocator) (es : List EvaluateEntryInput) (sink : Sink) (ws : EvaluateWorkspace)
    (rest : List ℕ) (ending : Ending)
    → Grants allocator
    → All IsEntry es
    → header_bytes + payload_len es ≤ u64_max
    → length (frame es) ≤ sink.room
    → IsAddressable ws
    → (w : EvaluateWorkspace) × (vs : List EvaluateEntryView) × (write_evaluate es sink
        ≡ (ok (length (frame es)), extend sink (frame es)))
      × (read_frame_header (record { bytes = frame es ++ rest; ending = ending }) ≡ (
        ok (some (record { kind = evaluate; payload_len = payload_len es })),
        record { bytes = payload es ++ rest; ending = ending },
      ))
      × (read_evaluate allocator (record {
        frame =
            open_payload (record { bytes = payload es ++ rest; ending = ending }) (payload_len es);
        workspace = ws;
      })
          ≡ (
            ok (vs, sum_by query_count es),
            record { frame = framed [] rest ending; workspace = w },
          ))
      × (map shown vs ≡ es)
evaluate_round_trip allocator es sink ws rest ending granted us fits room small =
    let (w, vs, received, same) =
      read_evaluate-framed allocator es ws rest ending granted us (omega arith) small in
    (
      w,
      vs,
      Writes-evaluate es us fits sink room
          ∙ ap (λ (n : ℕ). (ok n, extend sink (frame es)))
              (omega (
                arith,
                length-append (header evaluate (payload_len es)) (payload es),
                length-header evaluate (payload_len es),
                length-payload es us,
              )),
      ap (λ t. read_frame_header (record { bytes = t; ending = ending }))
            (append_assoc (header evaluate (payload_len es)) (payload es) rest)
          ∙ read-write_frame_header evaluate (payload_len es) (payload es ++ rest) ending
              (omega arith),
      ap
            (λ (n : ℕ). read_evaluate allocator (record {
              frame = open_payload (record { bytes = payload es ++ rest; ending = ending }) n;
              workspace = ws;
            }))
            (sym (length-payload es us))
          ∙ received,
      same,
    )
