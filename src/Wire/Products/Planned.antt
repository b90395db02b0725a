-- ===== src/Wire/Products/Planned.antt =====
-- `plan_products` on a well-formed payload: it returns the records of the entries and the query
-- identifiers and stops in front of the value region.
use emvp_thesis.Base.{
  ℕ, ◌+◌, ◌*◌, ◌≤◌, ◌≡◌, refl, sym, ap, ◌∙◌, arith, List, [], ◌∷◌, length, All, true, sum_by,
  usize_max, map, u64_max, checked_mul-some, checked_add-some, pos→==_zero, ◌==◌,
}
use emvp_thesis.Base.Action.{ok}
use emvp_thesis.Base.Vector.{Allocator}
use emvp_thesis.Emvp.View.{AnswerRef}
use emvp_thesis.Wire.Stream.{Ending}
use emvp_thesis.Wire.Frame.Reads.{framed, read_word-framed, host_len-ok}
use emvp_thesis.Wire.Plan.Checks.{
  reserve_table-ok, require_exact_value_region-ok, require_descriptor_fit-ok,
}
use emvp_thesis.Wire.Products.{
  ProductEntryInput, products_entry_descriptor_bytes, products_answer_descriptor_bytes,
  products_entry, products_entries, products_query_ids, plan_products,
}
use emvp_thesis.Wire.Products.Payload.{
  IsProduct, HasQueryId, all_answers-HasQueryId, answer_words, entry_fields, answer_count,
  all_answers, length-all_answers, entry_descriptor, entry_table, answer_table, length-entry_table,
  length-answer_table, all_values, length-all_values, payload, payload_len, meta_of, metas,
  answer_query_id, plan_of,
}

==-refl : (n : ℕ) → (n == n) ≡ true
==-refl n = ground arith

module _ (rest : List ℕ) (ending : Ending) where
  products_entry-framed :
      (e : ProductEntryInput) (summed values : ℕ) (tail : List ℕ)
      → IsProduct e
      → summed + answer_count e ≤ usize_max
      → values + entry_fields e ≤ usize_max
      → products_entry summed values (framed (entry_descriptor e tail) rest ending) ≡ (
        ok (meta_of summed values e, summed + answer_count e, values + entry_fields e),
        framed tail rest ending,
      )
  unfolding products_entry
  products_entry-framed e summed values tail u hq hv = rw (
    read_word-framed rest ending 8 e.matrix_id _ u.matrix_fits,
    read_word-framed rest ending 16 e.instance_id _ u.instance_fits,
    read_word-framed rest ending 8 e.rows _ u.rows_fit,
    read_word-framed rest ending 8 e.blocks _ u.blocks_fit,
    read_word-framed rest ending 8 (length e.answers) tail u.count_fits,
    pos→==_zero e.rows u.rows_positive,
    pos→==_zero e.blocks u.blocks_positive,
    host_len-ok "answer rows" e.rows (framed tail rest ending) (omega (arith, u.rows_fit)),
    host_len-ok "answer blocks" e.blocks (framed tail rest ending) (omega (arith, u.blocks_fit)),
    host_len-ok "answer count" (length e.answers) (framed tail rest ending)
        (omega (arith, u.count_fits)),
    checked_mul-some e.rows e.blocks (omega (arith, u.words_fit)),
    checked_add-some summed (length e.answers) hq,
    checked_mul-some (length e.answers) (answer_words e) (omega arith),
    checked_add-some values (entry_fields e) hv,
  )

  products_entries-framed :
      (es : List ProductEntryInput) (summed values : ℕ) (tail : List ℕ)
      → All IsProduct es
      → summed + sum_by answer_count es ≤ usize_max
      → values + sum_by entry_fields es ≤ usize_max
      → products_entries (length es) summed values (framed (entry_table es tail) rest ending) ≡ (
        ok (
          metas summed values es,
          summed + sum_by answer_count es,
          values + sum_by entry_fields es,
        ),
        framed tail rest ending,
      )
  unfolding products_entries
  products_entries-framed [] summed values tail us hq hv =
      ap (λ (n : ℕ). (ok ([], n, values), framed tail rest ending)) (omega arith)
      ∙ ap (λ (n : ℕ). (ok ([], summed + 0, n), framed tail rest ending)) (omega arith)
  products_entries-framed (e ∷ es) summed values tail (u, us) hq hv =
      rw
        (
          products_entry-framed e summed values (entry_table es tail) u (omega arith) (omega arith),
          products_entries-framed es (summed + answer_count e) (values + entry_fields e) tail us
              (omega arith) (omega arith),
        )
        (ap
            (λ (n : ℕ). (
              ok (
                metas summed values (e ∷ es),
                n,
                values + entry_fields e + sum_by entry_fields es,
              ),
              framed tail rest ending,
            ))
            (omega arith)
          ∙ ap
              (λ (n : ℕ). (
                ok (metas summed values (e ∷ es), summed + sum_by answer_count (e ∷ es), n),
                framed tail rest ending,
              ))
              (omega arith))

  products_query_ids-framed :
      (rs : List AnswerRef) (tail : List ℕ)
      → All HasQueryId rs
      → products_query_ids (length rs) (framed (answer_table rs tail) rest ending)
        ≡ (ok (map answer_query_id rs), framed tail rest ending)
  unfolding products_query_ids
  products_query_ids-framed [] tail us = refl
  products_query_ids-framed (a ∷ rs) tail (u, us) =
      rw (read_word-framed rest ending 8 a.query_id _ u, products_query_ids-framed rs tail us)

  -- The plan of a payload that holds the entries `es`.
  pub plan_products-framed :
      (allocator : Allocator) (es : List ProductEntryInput)
      → All IsProduct es
      → payload_len es ≤ u64_max
      → allocator.grants (length es) ≡ true
      → allocator.grants (sum_by answer_count es) ≡ true
      → plan_products allocator (framed (payload es) rest ending)
        ≡ (ok (plan_of es), framed (all_values es) rest ending)
  unfolding plan_products
  plan_products-framed allocator es us fits entries_granted answers_granted = rw (
    read_word-framed rest ending 8 (length es) _ (omega arith),
    read_word-framed rest ending 8 (sum_by answer_count es) tables (omega arith),
    require_descriptor_fit-ok tables rest ending (length es) products_entry_descriptor_bytes
        (sum_by answer_count es) products_answer_descriptor_bytes (omega (arith, size))
        (omega (arith, size)),
    host_len-ok "entry count" (length es) (framed tables rest ending) (omega arith),
    host_len-ok "total answer count" (sum_by answer_count es) (framed tables rest ending)
        (omega arith),
    reserve_table-ok allocator (length es) (framed tables rest ending) entries_granted,
    reserve_table-ok allocator (sum_by answer_count es) (framed tables rest ending) answers_granted,
    entries_read,
    ==-refl (sum_by answer_count es),
    answers_read,
    require_exact_value_region-ok (all_values es) rest ending (sum_by entry_fields es)
        (length-all_values es us) (omega arith),
  )
    where
      answers : List ℕ
      answers = answer_table (all_answers es) (all_values es)

      tables : List ℕ
      tables = entry_table es answers

      size :
          length tables ≡ length es * 48 + (sum_by answer_count es * 8 + sum_by entry_fields es * 4)
      size = omega (
        arith,
        length-entry_table es answers,
        length-answer_table (all_answers es) (all_values es),
        length-all_answers es,
        length-all_values es us,
      )

      answers_read :
          products_query_ids (sum_by answer_count es) (framed answers rest ending)
          ≡ (ok (map answer_query_id (all_answers es)), framed (all_values es) rest ending)
      answers_read =
          ap (λ (n : ℕ). products_query_ids n (framed answers rest ending))
            (sym (length-all_answers es))
          ∙ products_query_ids-framed (all_answers es) (all_values es)
              (all_answers-HasQueryId es us)

      entries_read : products_entries (length es) 0 0 (framed tables rest ending) ≡ (
        ok (metas 0 0 es, sum_by answer_count es, sum_by entry_fields es),
        framed answers rest ending,
      )
      entries_read =
          products_entries-framed es 0 0 answers us (omega arith) (omega arith)
          ∙ ap
              (λ (n : ℕ).
                (ok (metas 0 0 es, n, 0 + sum_by entry_fields es), framed answers rest ending))
              (omega arith)
          ∙ ap
              (λ (n : ℕ).
                (ok (metas 0 0 es, sum_by answer_count es, n), framed answers rest ending))
              (omega arith)
