-- ===== src/Wire/Products/Written.antt =====
-- `write_products` writes exactly the documented frame and returns its length.
use emvp_thesis.Base.{
  ℕ, ◌+◌, ◌*◌, ◌≤◌, ◌≡◌, refl, ap, ◌∙◌, arith, List, [], ◌∷◌, ◌++◌, length, All, flat_map, sum_by,
  u64_max, append_assoc, true, ◌==◌, All-always,
}
use emvp_thesis.Base.Action.{Action, ok, ◌>>=◌, ◌>>◌, for_each}
use emvp_thesis.Base.Words.{to_le_bytes}
use emvp_thesis.Emvp.View.{AnswerRef}
use emvp_thesis.Wire.Error.{CodecError, products}
use emvp_thesis.Wire.Stream.{
  Sink, Writes, Writes-bind, Writes-return, Writes-for_each, Writes-after,
}
use emvp_thesis.Wire.Frame.{
  write_u64, write_frame_header, write_field_slice, header_bytes, checked_size, wire_len,
  field_byte_len,
}
use emvp_thesis.Wire.Frame.Reads.{
  Writes-word, Writes-last_word, Writes-wire_len, Writes-write_word, checked_size-ok,
  field_byte_len-ok, wire_len-ok,
}
use emvp_thesis.Wire.Frame.Header.{header, Writes-header}
use emvp_thesis.Wire.Frame.Slices.{encoded, Writes-field_slice}
use emvp_thesis.Wire.Plan.{mul_or_overflow}
use emvp_thesis.Wire.Plan.Checks.{mul_or_overflow-ok}
use emvp_thesis.Wire.Products.{ProductEntryInput}
use emvp_thesis.Wire.Products.Write.{
  size_answers, size_products, write_product_entry, write_products,
}
use emvp_thesis.Wire.Products.Payload.{
  IsAnswer, IsProduct, answer_words, entry_fields, answer_count, all_answers, entry_descriptor,
  entry_table, answer_table, entry_bytes, all_values, payload, payload_len,
}

abbrev pub frame : List ProductEntryInput → List ℕ
frame es = header products (payload_len es) ++ payload es

size_answers_lem :
    (e : ProductEntryInput) (rs : List AnswerRef) (total fields : ℕ) (s : Sink)
    → All (IsAnswer e) rs
    → total + length rs ≤ u64_max
    → fields + length rs * answer_words e ≤ u64_max
    → answer_words e ≤ u64_max
    → size_answers (answer_words e) total fields rs s
      ≡ (ok (total + length rs, fields + length rs * answer_words e), s)
unfolding size_answers
size_answers_lem e [] total fields s us ht hf hw =
    ap (λ (n : ℕ). (ok (n, fields), s)) (omega arith)
    ∙ ap (λ (n : ℕ). (ok (total + 0, n), s)) (omega arith)
size_answers_lem e (a ∷ rs) total fields s (u, us) ht hf hw =
    rw
      (
        u.shape,
        wire_len-ok (answer_words e) s hw,
        same (answer_words e),
        checked_size-ok total 1 s (omega arith),
        checked_size-ok fields (answer_words e) s (omega arith),
        size_answers_lem e rs (total + 1) (fields + answer_words e) s us (omega arith) (omega arith)
            hw,
      )
      (ap (λ (n : ℕ). (ok (n, fields + answer_words e + length rs * answer_words e), s))
          (omega arith)
        ∙ ap (λ (n : ℕ). (ok (total + length (a ∷ rs), n), s)) (omega arith))
  where
    same : (n : ℕ) → (n == n) ≡ true
    same n = ground arith

size_products_lem :
    (es : List ProductEntryInput) (total fields : ℕ) (s : Sink)
    → All IsProduct es
    → total + sum_by answer_count es ≤ u64_max
    → fields + sum_by entry_fields es ≤ u64_max
    → size_products total fields es s
      ≡ (ok (total + sum_by answer_count es, fields + sum_by entry_fields es), s)
unfolding size_products
size_products_lem [] total fields s us ht hf =
    ap (λ (n : ℕ). (ok (n, fields), s)) (omega arith)
    ∙ ap (λ (n : ℕ). (ok (total + 0, n), s)) (omega arith)
size_products_lem (e ∷ es) total fields s (u, us) ht hf =
    rw
      (
        mul_or_overflow-ok e.rows e.blocks s (omega (arith, u.words_fit)),
        wire_len-ok (answer_words e) s (omega (arith, u.words_fit)),
        size_answers_lem e e.answers total fields s u.answers (omega arith) (omega arith)
            (omega (arith, u.words_fit)),
        size_products_lem es (total + answer_count e) (fields + entry_fields e) s us (omega arith)
            (omega arith),
      )
      (ap (λ (n : ℕ). (ok (n, fields + entry_fields e + sum_by entry_fields es), s)) (omega arith)
        ∙ ap (λ (n : ℕ). (ok (total + sum_by answer_count (e ∷ es), n), s)) (omega arith))

-- The number of answers and of values, in one step from nothing.
size_from_zero :
    (es : List ProductEntryInput) (s : Sink)
    → All IsProduct es
    → sum_by answer_count es ≤ u64_max
    → sum_by entry_fields es ≤ u64_max
    → size_products 0 0 es s ≡ (ok (sum_by answer_count es, sum_by entry_fields es), s)
size_from_zero es s us ht hf =
    size_products_lem es 0 0 s us (omega arith) (omega arith)
    ∙ ap (λ (n : ℕ). (ok (n, 0 + sum_by entry_fields es), s)) (omega arith)
    ∙ ap (λ (n : ℕ). (ok (sum_by answer_count es, n), s)) (omega arith)

Writes-product_entry :
    (e : ProductEntryInput)
    → IsProduct e
    → Writes (write_product_entry e) (entry_descriptor e []) tt
unfolding write_product_entry
Writes-product_entry e u = Writes-word 8 e.matrix_id _ _ tt (
    Writes-word 16 e.instance_id _ _ tt (
      Writes-wire_len e.rows _ _ tt (omega (arith, u.rows_fit)) (
        Writes-word 8 e.rows _ _ tt (
          Writes-wire_len e.blocks _ _ tt (omega (arith, u.blocks_fit)) (
            Writes-word 8 e.blocks _ _ tt (
              Writes-wire_len (length e.answers) _ _ tt (omega (arith, u.count_fits))
                (Writes-last_word 8 (length e.answers))))))))

-- The tables are the descriptors one after the other.
entry_table-flat_map :
    (es : List ProductEntryInput) (tail : List ℕ)
    → flat_map (λ (e : ProductEntryInput). entry_descriptor e []) es ++ tail ≡ entry_table es tail
entry_table-flat_map [] tail = refl
entry_table-flat_map (e ∷ es) tail = simp (append_assoc, entry_table-flat_map es tail)

abbrev answers_bytes : List AnswerRef → List ℕ
answers_bytes rs = flat_map (λ (a : AnswerRef). to_le_bytes 8 a.query_id) rs

answers_bytes-append :
    (rs more : List AnswerRef) (tail : List ℕ)
    → answers_bytes rs ++ answer_table more tail ≡ answer_table (rs ++ more) tail
answers_bytes-append [] more tail = refl
answers_bytes-append (a ∷ rs) more tail = simp (append_assoc, answers_bytes-append rs more tail)

answer_table-flat_map :
    (es : List ProductEntryInput) (tail : List ℕ)
    → flat_map (λ (e : ProductEntryInput). answers_bytes e.answers) es ++ tail
      ≡ answer_table (all_answers es) tail
answer_table-flat_map [] tail = refl
answer_table-flat_map (e ∷ es) tail =
    append_assoc (answers_bytes e.answers)
      (flat_map (λ (x : ProductEntryInput). answers_bytes x.answers) es) tail
    ∙ ap (λ t. answers_bytes e.answers ++ t) (answer_table-flat_map es tail)
    ∙ answers_bytes-append e.answers (all_answers es) tail

-- What is written once the payload length is known.
abbrev contents : List ProductEntryInput → Action Sink CodecError ℕ
contents es = do
  write_frame_header products (payload_len es)
  entry_count ← wire_len (length es)
  write_u64 entry_count
  write_u64 (sum_by answer_count es)
  for_each write_product_entry es
  for_each (λ (e : ProductEntryInput). for_each (λ (a : AnswerRef). write_u64 a.query_id) e.answers)
      es
  for_each
      (λ (e : ProductEntryInput).
        for_each (λ (a : AnswerRef). write_field_slice a.values) e.answers)
      es
  checked_size (payload_len es) header_bytes

Writes-contents :
    (es : List ProductEntryInput)
    → All IsProduct es
    → header_bytes + payload_len es ≤ u64_max
    → Writes (contents es) (frame es) (payload_len es + header_bytes)
Writes-contents es us fits =
    Writes-bind (write_frame_header products (payload_len es)) _ _ _ tt _
      (Writes-header products (payload_len es))
      (Writes-wire_len (length es) _ _ _ (omega arith) (
        Writes-word 8 (length es) _ _ _ (
          Writes-word 8 (sum_by answer_count es) _ _ _ (
            rw
              (
                ← entry_table-flat_map es (answer_table (all_answers es) (all_values es)),
                ← answer_table-flat_map es (all_values es),
              )
              (Writes-bind (for_each write_product_entry es) _ _ _ tt _
                (Writes-for_each IsProduct write_product_entry
                  (λ (e : ProductEntryInput). entry_descriptor e []) es Writes-product_entry us)
                (Writes-bind
                  (for_each
                    (λ (e : ProductEntryInput).
                      for_each (λ (a : AnswerRef). write_u64 a.query_id) e.answers)
                    es)
                  _ _ _ tt _
                  (Writes-for_each IsProduct _ (λ (e : ProductEntryInput). answers_bytes e.answers)
                    es
                    (λ e _.
                      Writes-for_each (λ a. Unit {0}) _
                        (λ (a : AnswerRef). to_le_bytes 8 a.query_id) e.answers
                        (λ a _. Writes-write_word 8 a.query_id) (All-always e.answers))
                    us)
                  (Writes-return _ _ (all_values es) tt _
                    (Writes-for_each IsProduct _ (λ (e : ProductEntryInput). entry_bytes e.answers)
                      es
                      (λ e _.
                        Writes-for_each (λ a. Unit {0}) _ (λ (a : AnswerRef). encoded a.values)
                          e.answers (λ a _. Writes-field_slice a.values) (All-always e.answers))
                      us)
                    (λ s. checked_size-ok (payload_len es) header_bytes s (omega arith)))))))))

-- For entries whose numbers fit their types and whose answers have the entry's shape, in a frame of less
-- than 2^64 bytes, and a writer with room for it, `write_products` succeeds, appends exactly the
-- documented frame and returns the number of its bytes.
pub Writes-products :
    (es : List ProductEntryInput)
    → All IsProduct es
    → header_bytes + payload_len es ≤ u64_max
    → Writes (write_products es) (frame es) (payload_len es + header_bytes)
unfolding write_products
Writes-products es us fits =
    Writes-after (size_products 0 0 es) _ _ (sum_by answer_count es, sum_by entry_fields es) _
      (λ s. size_from_zero es s us (omega arith) (omega arith))
      (Writes-wire_len (length es) _ _ _ (omega arith) (
        Writes-after (mul_or_overflow (length es) 48) _ _ (length es * 48) _
          (λ s. mul_or_overflow-ok (length es) 48 s (omega arith))
          (Writes-after (mul_or_overflow (sum_by answer_count es) 8) _ _
            (sum_by answer_count es * 8) _
            (λ s. mul_or_overflow-ok (sum_by answer_count es) 8 s (omega arith))
            (Writes-after (checked_size 16 (length es * 48)) _ _ (16 + length es * 48) _
              (λ s. checked_size-ok 16 (length es * 48) s (omega arith))
              (Writes-after (checked_size (16 + length es * 48) (sum_by answer_count es * 8)) _ _
                (16 + length es * 48 + sum_by answer_count es * 8) _
                (λ s.
                  checked_size-ok (16 + length es * 48) (sum_by answer_count es * 8) s
                    (omega arith))
                (Writes-after (field_byte_len (sum_by entry_fields es)) _ _
                  (sum_by entry_fields es * 4) _
                  (λ s. field_byte_len-ok (sum_by entry_fields es) s (omega arith))
                  (Writes-after
                    (checked_size (16 + length es * 48 + sum_by answer_count es * 8)
                      (sum_by entry_fields es * 4))
                    _ _ (payload_len es) _
                    (λ s.
                      checked_size-ok (16 + length es * 48 + sum_by answer_count es * 8)
                        (sum_by entry_fields es * 4) s (omega arith))
                    (Writes-contents es us fits))))))))
