-- ===== src/Wire/Evaluate/Written.antt =====
-- `write_evaluate` writes exactly the documented frame and returns its length.
use emvp_thesis.Base.{
  ℕ, ◌+◌, ◌*◌, ◌≤◌, ◌≡◌, refl, ap, ◌∙◌, arith, List, [], ◌∷◌, ◌++◌, length, All, some, none,
  flat_map, sum_by, u64_max, append_assoc, true, ◌==◌, All-always,
}
use emvp_thesis.Base.Action.{Action, ok, ◌>>=◌, ◌>>◌, for_each}
use emvp_thesis.Emvp.View.{EncryptedQueryRef}
use emvp_thesis.Wire.Error.{CodecError, evaluate}
use emvp_thesis.Wire.Stream.{
  Sink, Writes, Writes-bind, Writes-keep, Writes-return, Writes-for_each, Writes-after,
}
use emvp_thesis.Wire.Frame.{
  write_u64, write_frame_header, write_field_slice, header_bytes, checked_size, wire_len,
  field_byte_len,
}
use emvp_thesis.Wire.Frame.Reads.{
  Writes-word, Writes-last_word, Writes-wire_len, checked_size-ok, field_byte_len-ok, wire_len-ok,
}
use emvp_thesis.Wire.Frame.Header.{header, Writes-header}
use emvp_thesis.Wire.Frame.Slices.{encoded, Writes-field_slice}
use emvp_thesis.Wire.Plan.{mul_or_overflow}
use emvp_thesis.Wire.Plan.Checks.{mul_or_overflow-ok}
use emvp_thesis.Wire.Evaluate.{EvaluateEntryInput}
use emvp_thesis.Wire.Evaluate.Write.{
  check_same_width, size_queries, size_entries, first_width, write_entry, write_query,
  write_evaluate,
}
use emvp_thesis.Wire.Evaluate.Payload.{
  IsQuery, IsEntry, queries_width, entry_fields, query_count, all_queries, entry_descriptor,
  query_descriptor, entry_table, query_table, entry_bytes, all_values, payload, payload_len,
}

abbrev pub frame : List EvaluateEntryInput → List ℕ
frame es = header evaluate (payload_len es) ++ payload es

-- Where all queries have the width that was seen first.
size_later :
    (w : ℕ) (qs : List EncryptedQueryRef) (total fields : ℕ) (s : Sink)
    → All (IsQuery w) qs
    → total + length qs ≤ u64_max
    → fields + length qs * w ≤ u64_max
    → w ≤ u64_max
    → size_queries (some w) total fields qs s ≡ (ok (total + length qs, fields + length qs * w), s)
unfolding size_queries check_same_width
size_later w [] total fields s us ht hf hw =
    ap (λ (n : ℕ). (ok (n, fields), s)) (omega arith)
    ∙ ap (λ (n : ℕ). (ok (total + 0, n), s)) (omega arith)
size_later w (q ∷ qs) total fields s (u, us) ht hf hw =
    rw
      (
        u.shape,
        wire_len-ok w s hw,
        same w,
        checked_size-ok total 1 s (omega arith),
        checked_size-ok fields w s (omega arith),
        size_later w qs (total + 1) (fields + w) s us (omega arith) (omega arith) hw,
      )
      (ap (λ (n : ℕ). (ok (n, fields + w + length qs * w), s)) (omega arith)
        ∙ ap (λ (n : ℕ). (ok (total + length (q ∷ qs), n), s)) (omega arith))
  where
    same : (n : ℕ) → (n == n) ≡ true
    same n = ground arith

size_queries_lem :
    (qs : List EncryptedQueryRef) (total fields : ℕ) (s : Sink)
    → All (IsQuery (queries_width qs)) qs
    → total + length qs ≤ u64_max
    → fields + length qs * queries_width qs ≤ u64_max
    → size_queries none total fields qs s
      ≡ (ok (total + length qs, fields + length qs * queries_width qs), s)
unfolding size_queries check_same_width
size_queries_lem [] total fields s us ht hf =
    ap (λ (n : ℕ). (ok (n, fields), s)) (omega arith)
    ∙ ap (λ (n : ℕ). (ok (total + 0, n), s)) (omega arith)
size_queries_lem (q ∷ qs) total fields s (u, us) ht hf =
    rw
      (
        wire_len-ok (length q.values) s (omega arith),
        checked_size-ok total 1 s (omega arith),
        checked_size-ok fields (length q.values) s (omega arith),
        size_later (length q.values) qs (total + 1) (fields + length q.values) s us (omega arith)
            (omega arith) (omega arith),
      )
      (ap (λ (n : ℕ). (ok (n, fields + length q.values + length qs * length q.values), s))
          (omega arith)
        ∙ ap (λ (n : ℕ). (ok (total + length (q ∷ qs), n), s)) (omega arith))

size_entries_lem :
    (es : List EvaluateEntryInput) (total fields : ℕ) (s : Sink)
    → All IsEntry es
    → total + sum_by query_count es ≤ u64_max
    → fields + sum_by entry_fields es ≤ u64_max
    → size_entries total fields es s
      ≡ (ok (total + sum_by query_count es, fields + sum_by entry_fields es), s)
unfolding size_entries
size_entries_lem [] total fields s us ht hf =
    ap (λ (n : ℕ). (ok (n, fields), s)) (omega arith)
    ∙ ap (λ (n : ℕ). (ok (total + 0, n), s)) (omega arith)
size_entries_lem (e ∷ es) total fields s (u, us) ht hf =
    rw
      (
        size_queries_lem e.queries total fields s u.queries (omega arith) (omega arith),
        size_entries_lem es (total + query_count e) (fields + entry_fields e) s us (omega arith)
            (omega arith),
      )
      (ap (λ (n : ℕ). (ok (n, fields + entry_fields e + sum_by entry_fields es), s)) (omega arith)
        ∙ ap (λ (n : ℕ). (ok (total + sum_by query_count (e ∷ es), n), s)) (omega arith))

first_width-ok :
    (qs : List EncryptedQueryRef) (s : Sink)
    → queries_width qs ≤ u64_max
    → first_width qs s ≡ (ok (queries_width qs), s)
unfolding first_width
first_width-ok [] s h = refl
first_width-ok (q ∷ qs) s h = wire_len-ok (length q.values) s h

Writes-entry :
    (e : EvaluateEntryInput) → IsEntry e → Writes (write_entry e) (entry_descriptor e []) tt
unfolding write_entry
Writes-entry e u =
    Writes-bind (first_width e.queries) _ [] _ (queries_width e.queries) _
      (Writes-keep _ (queries_width e.queries)
        (λ s. first_width-ok e.queries s (omega (arith, u.width_fits))))
      (Writes-word 8 e.matrix_id _ _ tt (
        Writes-wire_len (length e.queries) _ _ tt (omega (arith, u.count_fits))
          (Writes-word 8 (length e.queries) _ _ tt (Writes-last_word 8 (queries_width e.queries)))))

Writes-query : (q : EncryptedQueryRef) → Writes (write_query q) (query_descriptor q []) tt
unfolding write_query
Writes-query q = Writes-word 16 q.instance_id _ _ tt (Writes-last_word 8 q.query_id)

-- The tables are the descriptors one after the other.
entry_table-flat_map :
    (es : List EvaluateEntryInput) (tail : List ℕ)
    → flat_map (λ (e : EvaluateEntryInput). entry_descriptor e []) es ++ tail ≡ entry_table es tail
entry_table-flat_map [] tail = refl
entry_table-flat_map (e ∷ es) tail = simp (append_assoc, entry_table-flat_map es tail)

abbrev queries_bytes : List EncryptedQueryRef → List ℕ
queries_bytes qs = flat_map (λ (q : EncryptedQueryRef). query_descriptor q []) qs

queries_bytes-append :
    (qs more : List EncryptedQueryRef) (tail : List ℕ)
    → queries_bytes qs ++ query_table more tail ≡ query_table (qs ++ more) tail
queries_bytes-append [] more tail = refl
queries_bytes-append (q ∷ qs) more tail = simp (append_assoc, queries_bytes-append qs more tail)

query_table-flat_map :
    (es : List EvaluateEntryInput) (tail : List ℕ)
    → flat_map (λ (e : EvaluateEntryInput). queries_bytes e.queries) es ++ tail
      ≡ query_table (all_queries es) tail
query_table-flat_map [] tail = refl
query_table-flat_map (e ∷ es) tail =
    append_assoc (queries_bytes e.queries)
      (flat_map (λ (x : EvaluateEntryInput). queries_bytes x.queries) es) tail
    ∙ ap (λ t. queries_bytes e.queries ++ t) (query_table-flat_map es tail)
    ∙ queries_bytes-append e.queries (all_queries es) tail

-- The number of queries and of values, in one step from nothing.
size_from_zero :
    (es : List EvaluateEntryInput) (s : Sink)
    → All IsEntry es
    → sum_by query_count es ≤ u64_max
    → sum_by entry_fields es ≤ u64_max
    → size_entries 0 0 es s ≡ (ok (sum_by query_count es, sum_by entry_fields es), s)
size_from_zero es s us ht hf =
    size_entries_lem es 0 0 s us (omega arith) (omega arith)
    ∙ ap (λ (n : ℕ). (ok (n, 0 + sum_by entry_fields es), s)) (omega arith)
    ∙ ap (λ (n : ℕ). (ok (sum_by query_count es, n), s)) (omega arith)

-- What is written once the payload length is known.
abbrev contents : List EvaluateEntryInput → Action Sink CodecError ℕ
contents es = do
  write_frame_header evaluate (payload_len es)
  entry_count ← wire_len (length es)
  write_u64 entry_count
  write_u64 (sum_by query_count es)
  for_each write_entry es
  for_each (λ (e : EvaluateEntryInput). for_each write_query e.queries) es
  for_each
      (λ (e : EvaluateEntryInput).
        for_each (λ (q : EncryptedQueryRef). write_field_slice q.values) e.queries)
      es
  checked_size (payload_len es) header_bytes

Writes-contents :
    (es : List EvaluateEntryInput)
    → All IsEntry es
    → header_bytes + payload_len es ≤ u64_max
    → Writes (contents es) (frame es) (payload_len es + header_bytes)
Writes-contents es us fits =
    Writes-bind (write_frame_header evaluate (payload_len es)) _ _ _ tt _
      (Writes-header evaluate (payload_len es))
      (Writes-wire_len (length es) _ _ _ (omega arith) (
        Writes-word 8 (length es) _ _ _ (
          Writes-word 8 (sum_by query_count es) _ _ _ (
            rw
              (
                ← entry_table-flat_map es (query_table (all_queries es) (all_values es)),
                ← query_table-flat_map es (all_values es),
              )
              (Writes-bind (for_each write_entry es) _ _ _ tt _
                (Writes-for_each IsEntry write_entry
                  (λ (e : EvaluateEntryInput). entry_descriptor e []) es Writes-entry us)
                (Writes-bind
                  (for_each (λ (e : EvaluateEntryInput). for_each write_query e.queries) es) _ _ _
                  tt _
                  (Writes-for_each IsEntry _ (λ (e : EvaluateEntryInput). queries_bytes e.queries)
                    es
                    (λ e _.
                      Writes-for_each (λ q. Unit {0}) write_query
                        (λ (q : EncryptedQueryRef). query_descriptor q []) e.queries
                        (λ q _. Writes-query q) (All-always e.queries))
                    us)
                  (Writes-return _ _ (all_values es) tt _
                    (Writes-for_each IsEntry _ (λ (e : EvaluateEntryInput). entry_bytes e.queries)
                      es
                      (λ e _.
                        Writes-for_each (λ q. Unit {0}) _
                          (λ (q : EncryptedQueryRef). encoded q.values) e.queries
                          (λ q _. Writes-field_slice q.values) (All-always e.queries))
                      us)
                    (λ s. checked_size-ok (payload_len es) header_bytes s (omega arith)))))))))

-- For entries whose numbers fit their types and whose queries have one positive width each, in a frame
-- of less than 2^64 bytes, and a writer with room for it, `write_evaluate` succeeds, appends exactly the
-- documented frame and returns the number of its bytes.
pub Writes-evaluate :
    (es : List EvaluateEntryInput)
    → All IsEntry es
    → header_bytes + payload_len es ≤ u64_max
    → Writes (write_evaluate es) (frame es) (payload_len es + header_bytes)
unfolding write_evaluate
Writes-evaluate es us fits =
    Writes-after (size_entries 0 0 es) _ _ (sum_by query_count es, sum_by entry_fields es) _
      (λ s. size_from_zero es s us (omega arith) (omega arith))
      (Writes-wire_len (length es) _ _ _ (omega arith) (
        Writes-after (mul_or_overflow (length es) 24) _ _ (length es * 24) _
          (λ s. mul_or_overflow-ok (length es) 24 s (omega arith))
          (Writes-after (mul_or_overflow (sum_by query_count es) 24) _ _
            (sum_by query_count es * 24) _
            (λ s. mul_or_overflow-ok (sum_by query_count es) 24 s (omega arith))
            (Writes-after (checked_size 16 (length es * 24)) _ _ (16 + length es * 24) _
              (λ s. checked_size-ok 16 (length es * 24) s (omega arith))
              (Writes-after (checked_size (16 + length es * 24) (sum_by query_count es * 24)) _ _
                (16 + length es * 24 + sum_by query_count es * 24) _
                (λ s.
                  checked_size-ok (16 + length es * 24) (sum_by query_count es * 24) s
                    (omega arith))
                (Writes-after (field_byte_len (sum_by entry_fields es)) _ _
                  (sum_by entry_fields es * 4) _
                  (λ s. field_byte_len-ok (sum_by entry_fields es) s (omega arith))
                  (Writes-after
                    (checked_size (16 + length es * 24 + sum_by query_count es * 24)
                      (sum_by entry_fields es * 4))
                    _ _ (payload_len es) _
                    (λ s.
                      checked_size-ok (16 + length es * 24 + sum_by query_count es * 24)
                        (sum_by entry_fields es * 4) s (omega arith))
                    (Writes-contents es us fits))))))))
