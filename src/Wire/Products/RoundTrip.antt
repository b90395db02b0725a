-- ===== src/Wire/Products/RoundTrip.antt =====
-- From the server's writer to the client's views: the products of a request arrive unchanged.
use emvp_thesis.Base.{
  ℕ, ◌+◌, ◌*◌, ◌≤◌, ◌≡◌, refl, sym, ap, ◌∙◌, arith, List, [], ◌++◌, length, All, some, sum_by,
  u64_max, append_assoc, length-append, write_at, map,
}
use emvp_thesis.Base.Action.{ok}
use emvp_thesis.Base.Vector.{Allocator, refill}
use emvp_thesis.Wire.Error.{products}
use emvp_thesis.Wire.Stream.{Ending, Sink, extend}
use emvp_thesis.Wire.Frame.{open_payload, read_frame_header, header_bytes}
use emvp_thesis.Wire.Frame.Header.{header, length-header, read-write_frame_header}
use emvp_thesis.Wire.Frame.Reads.{framed}
use emvp_thesis.Wire.Plan.Growth.{Grants, grow-ok, grow_capacity-ok}
use emvp_thesis.Wire.Upload.Workspace.{zero_field}
use emvp_thesis.Wire.Products.{ProductEntryInput}
use emvp_thesis.Wire.Products.Workspace.{
  ProductsWorkspace, ProductEntryView, reserve, product_entries, read_products,
}
use emvp_thesis.Wire.Products.Write.{write_products}
use emvp_thesis.Wire.Products.Payload.{
  IsProduct, entry_fields, answer_count, answer_query_id, all_answers, payload, payload_len,
  length-payload, plan_of, metas,
}
use emvp_thesis.Wire.Products.Planned.{plan_products-framed}
use emvp_thesis.Wire.Products.Written.{frame, Writes-products}
use emvp_thesis.Wire.Products.Decoded.{flat_values, decode_products-decoding}
use emvp_thesis.Wire.Products.Viewed.{shown, product_entries-decoded}

-- Where the program can hold it: an arena's bytes fit an address.
abbrev pub IsAddressable : ProductsWorkspace → Type 0
IsAddressable ws = length ws.arena.items * 4 ≤ u64_max

reserve_lem :
    (allocator : Allocator) (es : List ProductEntryInput) (ws : ProductsWorkspace)
    → Grants allocator
    → IsAddressable ws
    → sum_by entry_fields es * 4 ≤ u64_max
    → (w : ProductsWorkspace) × (reserve allocator (plan_of es) ws ≡ (ok tt, w))
      × (w.entries.items ≡ metas 0 0 es)
      × (w.query_ids.items ≡ map answer_query_id (all_answers es))
      × (sum_by entry_fields es ≤ length w.arena.items)
      × (IsAddressable w)
unfolding reserve refill
reserve_lem allocator es ws granted fits small =
    let (arena, grow_eq, enough) =
      grow-ok allocator granted (sum_by entry_fields es) zero_field ws.arena ws in
    let ws1 : ProductsWorkspace = record ws { arena = arena } in
    let (table, entries_eq, same) =
      grow_capacity-ok allocator granted (length (metas 0 0 es)) ws.entries ws1 in
    let ws2 : ProductsWorkspace = record ws1 { entries = refill allocator (metas 0 0 es) table } in
    let (asked, answers_eq, same') =
      grow_capacity-ok allocator granted (length (map answer_query_id (all_answers es)))
        ws.query_ids ws2 in
    (
      record {
        arena = arena;
        entries = refill allocator (metas 0 0 es) table;
        query_ids = refill allocator (map answer_query_id (all_answers es)) asked;
      },
      rw (grow_eq, entries_eq, answers_eq),
      refl,
      refl,
      enough.0,
      omega (arith, enough.1),
    )

-- The client's reader turns a payload into views that show its entries, and stops at its end.
pub read_products-framed :
    (allocator : Allocator) (es : List ProductEntryInput) (ws : ProductsWorkspace) (rest : List ℕ)
    (ending : Ending)
    → Grants allocator
    → All IsProduct es
    → payload_len es ≤ u64_max
    → IsAddressable ws
    → (w : ProductsWorkspace) × (vs : List ProductEntryView) × (read_products allocator
          (record { frame = framed (payload es) rest ending; workspace = ws })
        ≡ (ok vs, record { frame = framed [] rest ending; workspace = w }))
      × (map shown vs ≡ es)
unfolding read_products
read_products-framed allocator es ws rest ending granted us fits small =
    let (w, reserved, table, asked, enough, addressable) =
      reserve_lem allocator es ws granted small (omega arith) in
    let decoded = write_at w.arena.items 0 (flat_values es) in
    let final : ProductsWorkspace = record w { arena = record (w.arena) { items = decoded } } in
    (
      final,
      product_entries final,
      rw (
        plan_products-framed rest ending allocator es us fits (granted (length es))
            (granted (sum_by answer_count es)),
        reserved,
        decode_products-decoding rest ending es w.arena.items us enough addressable,
      ),
      product_entries-decoded es final w.arena.items table asked refl enough us (omega arith),
    )

-- For entries whose numbers fit their types and whose answers have the entry's shape, in a frame of less
-- than 2^64 bytes, a writer with room for it and an allocator that grants: the writer appends the frame
-- and returns its length; the header reader returns the frame's kind and payload length; and planning,
-- reserving and decoding that payload gives views that show the same entries with the same answers, and
-- leaves the bytes behind the frame.
pub products_round_trip :
    (allocator : Allocator) (es : List ProductEntryInput) (sink : Sink) (ws : ProductsWorkspace)
    (rest : List ℕ) (ending : Ending)
    → Grants allocator
    → All IsProduct es
    → header_bytes + payload_len es ≤ u64_max
    → length (frame es) ≤ sink.room
    → IsAddressable ws
    → (w : ProductsWorkspace) × (vs : List ProductEntryView) × (write_products es sink
        ≡ (ok (length (frame es)), extend sink (frame es)))
      × (read_frame_header (record { bytes = frame es ++ rest; ending = ending }) ≡ (
        ok (some (record { kind = products; payload_len = payload_len es })),
        record { bytes = payload es ++ rest; ending = ending },
      ))
      × (read_products allocator (record {
        frame =
            open_payload (record { bytes = payload es ++ rest; ending = ending }) (payload_len es);
        workspace = ws;
      })
          ≡ (ok vs, record { frame = framed [] rest ending; workspace = w }))
      × (map shown vs ≡ es)
products_round_trip allocator es sink ws rest ending granted us fits room small =
    let (w, vs, received, same) =
      read_products-framed allocator es ws rest ending granted us (omega arith) small in
    (
      w,
      vs,
      Writes-products es us fits sink room
          ∙ ap (λ (n : ℕ). (ok n, extend sink (frame es)))
              (omega (
                arith,
                length-append (header products (payload_len es)) (payload es),
                length-header products (payload_len es),
                length-payload es us,
              )),
      ap (λ t. read_frame_header (record { bytes = t; ending = ending }))
            (append_assoc (header products (payload_len es)) (payload es) rest)
          ∙ read-write_frame_header products (payload_len es) (payload es ++ rest) ending
              (omega arith),
      ap
            (λ (n : ℕ). read_products allocator (record {
              frame = open_payload (record { bytes = payload es ++ rest; ending = ending }) n;
              workspace = ws;
            }))
            (sym (length-payload es us))
          ∙ received,
      same,
    )
