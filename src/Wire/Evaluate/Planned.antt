-- ===== src/Wire/Evaluate/Planned.antt =====
-- `plan_evaluate` on a well-formed payload: it returns the records of the entries and of the queries and
-- stops in front of the value region.
use emvp_thesis.Base.{
  ℕ, suc, ◌+◌, ◌*◌, ◌≤◌, ◌<◌, ◌≡◌, refl, sym, ap, ◌∙◌, arith, List, [], ◌∷◌, length, All, true,
  sum_by, usize_max, map, u64_max, checked_mul-some, checked_add-some, pos→==_zero, ◌==◌,
}
use emvp_thesis.Base.Action.{ok}
use emvp_thesis.Base.Vector.{Allocator}
use emvp_thesis.Emvp.View.{EncryptedQueryRef}
use emvp_thesis.Wire.Stream.{Ending}
use emvp_thesis.Wire.Frame.{FrameReader}
use emvp_thesis.Wire.Frame.Reads.{framed, read_word-framed, host_len-ok}
use emvp_thesis.Wire.Plan.Checks.{
  reserve_table-ok, require_exact_value_region-ok, require_descriptor_fit-ok,
}
use emvp_thesis.Wire.Evaluate.{
  EvaluateEntryInput, evaluate_entry_descriptor_bytes, evaluate_query_descriptor_bytes, check_width,
  evaluate_entry, evaluate_entries, evaluate_query, evaluate_queries, plan_evaluate,
}
use emvp_thesis.Wire.Evaluate.Payload.{
  IsIdentified, all_queries-IsIdentified, IsEntry, queries_width, entry_fields, query_count,
  all_queries, length-all_queries, entry_descriptor, entry_table, query_table, length-entry_table,
  length-query_table, all_values, length-all_values, payload, payload_len, meta_of, metas,
  query_meta, plan_of,
}

check_width-ok :
    (qs : List EncryptedQueryRef) (f : FrameReader)
    → All (λ (q : EncryptedQueryRef). 0 < length q.values) qs
    → check_width (length qs) (queries_width qs) f ≡ (ok tt, f)
unfolding check_width
check_width-ok [] f us = refl
check_width-ok (q ∷ qs) f (u, us) =
    rw (pos→==_zero (suc (length qs)) (omega arith), pos→==_zero (length q.values) u)

==-refl : (n : ℕ) → (n == n) ≡ true
==-refl n = ground arith

module _ (rest : List ℕ) (ending : Ending) where
  evaluate_entry-framed :
      (e : EvaluateEntryInput) (summed values : ℕ) (tail : List ℕ)
      → IsEntry e
      → summed + query_count e ≤ usize_max
      → values + entry_fields e ≤ usize_max
      → evaluate_entry summed values (framed (entry_descriptor e tail) rest ending) ≡ (
        ok (meta_of summed values e, summed + query_count e, values + entry_fields e),
        framed tail rest ending,
      )
  unfolding evaluate_entry
  evaluate_entry-framed e summed values tail u hq hv = rw (
    read_word-framed rest ending 8 e.matrix_id _ u.matrix_fits,
    read_word-framed rest ending 8 (length e.queries) _ (omega arith),
    read_word-framed rest ending 8 (queries_width e.queries) tail u.width_fits,
    check_width-ok e.queries (framed tail rest ending) u.positive,
    host_len-ok "query count" (length e.queries) (framed tail rest ending) (omega arith),
    host_len-ok "query width" (queries_width e.queries) (framed tail rest ending)
        (omega (arith, u.width_fits)),
    checked_add-some summed (length e.queries) hq,
    checked_mul-some (length e.queries) (queries_width e.queries) (omega arith),
    checked_add-some values (entry_fields e) hv,
  )

  evaluate_entries-framed :
      (es : List EvaluateEntryInput) (summed values : ℕ) (tail : List ℕ)
      → All IsEntry es
      → summed + sum_by query_count es ≤ usize_max
      → values + sum_by entry_fields es ≤ usize_max
      → evaluate_entries (length es) summed values (framed (entry_table es tail) rest ending) ≡ (
        ok (
          metas summed values es,
          summed + sum_by query_count es,
          values + sum_by entry_fields es,
        ),
        framed tail rest ending,
      )
  unfolding evaluate_entries
  evaluate_entries-framed [] summed values tail us hq hv =
      ap (λ (n : ℕ). (ok ([], n, values), framed tail rest ending)) (omega arith)
      ∙ ap (λ (n : ℕ). (ok ([], summed + 0, n), framed tail rest ending)) (omega arith)
  evaluate_entries-framed (e ∷ es) summed values tail (u, us) hq hv =
      rw
        (
          evaluate_entry-framed e summed values (entry_table es tail) u (omega arith) (omega arith),
          evaluate_entries-framed es (summed + query_count e) (values + entry_fields e) tail us
              (omega arith) (omega arith),
        )
        (ap
            (λ (n : ℕ). (
              ok (
                metas summed values (e ∷ es),
                n,
                values + entry_fields e + sum_by entry_fields es,
              ),
              framed tail rest ending,
            ))
            (omega arith)
          ∙ ap
              (λ (n : ℕ). (
                ok (metas summed values (e ∷ es), summed + sum_by query_count (e ∷ es), n),
                framed tail rest ending,
              ))
              (omega arith))

  evaluate_queries-framed :
      (qs : List EncryptedQueryRef) (tail : List ℕ)
      → All IsIdentified qs
      → evaluate_queries (length qs) (framed (query_table qs tail) rest ending)
        ≡ (ok (map query_meta qs), framed tail rest ending)
  unfolding evaluate_queries evaluate_query
  evaluate_queries-framed [] tail us = refl
  evaluate_queries-framed (q ∷ qs) tail (u, us) = rw (
    read_word-framed rest ending 16 q.instance_id _ u.instance_fits,
    read_word-framed rest ending 8 q.query_id _ u.query_fits,
    evaluate_queries-framed qs tail us,
  )

  -- The plan of a payload that holds the entries `es`.
  pub plan_evaluate-framed :
      (allocator : Allocator) (es : List EvaluateEntryInput)
      → All IsEntry es
      → payload_len es ≤ u64_max
      → allocator.grants (length es) ≡ true
      → allocator.grants (sum_by query_count es) ≡ true
      → plan_evaluate allocator (framed (payload es) rest ending)
        ≡ (ok (plan_of es), framed (all_values es) rest ending)
  unfolding plan_evaluate
  plan_evaluate-framed allocator es us fits entries_granted queries_granted = rw (
    read_word-framed rest ending 8 (length es) _ (omega arith),
    read_word-framed rest ending 8 (sum_by query_count es) tables (omega arith),
    require_descriptor_fit-ok tables rest ending (length es) evaluate_entry_descriptor_bytes
        (sum_by query_count es) evaluate_query_descriptor_bytes (omega (arith, size))
        (omega (arith, size)),
    host_len-ok "entry count" (length es) (framed tables rest ending) (omega arith),
    host_len-ok "total query count" (sum_by query_count es) (framed tables rest ending)
        (omega arith),
    reserve_table-ok allocator (length es) (framed tables rest ending) entries_granted,
    reserve_table-ok allocator (sum_by query_count es) (framed tables rest ending) queries_granted,
    entries_read,
    ==-refl (sum_by query_count es),
    queries_read,
    require_exact_value_region-ok (all_values es) rest ending (sum_by entry_fields es)
        (length-all_values es us) (omega arith),
  )
    where
      tables : List ℕ
      tables = entry_table es (query_table (all_queries es) (all_values es))

      size :
          length tables ≡ length es * 24 + (sum_by query_count es * 24 + sum_by entry_fields es * 4)
      size = omega (
        arith,
        length-entry_table es (query_table (all_queries es) (all_values es)),
        length-query_table (all_queries es) (all_values es),
        length-all_queries es,
        length-all_values es us,
      )

      queries_read :
          evaluate_queries
            (sum_by query_count es)
            (framed (query_table (all_queries es) (all_values es)) rest ending)
          ≡ (ok (map query_meta (all_queries es)), framed (all_values es) rest ending)
      queries_read =
          ap
            (λ (n : ℕ).
              evaluate_queries n
                (framed (query_table (all_queries es) (all_values es)) rest ending))
            (sym (length-all_queries es))
          ∙ evaluate_queries-framed (all_queries es) (all_values es)
              (all_queries-IsIdentified es us)

      entries_read : evaluate_entries (length es) 0 0 (framed tables rest ending) ≡ (
        ok (metas 0 0 es, sum_by query_count es, sum_by entry_fields es),
        framed (query_table (all_queries es) (all_values es)) rest ending,
      )
      entries_read =
          evaluate_entries-framed es 0 0 (query_table (all_queries es) (all_values es)) us
            (omega arith) (omega arith)
          ∙ ap
              (λ (n : ℕ). (
                ok (metas 0 0 es, n, 0 + sum_by entry_fields es),
                framed (query_table (all_queries es) (all_values es)) rest ending,
              ))
              (omega arith)
          ∙ ap
              (λ (n : ℕ). (
                ok (metas 0 0 es, sum_by query_count es, n),
                framed (query_table (all_queries es) (all_values es)) rest ending,
              ))
              (omega arith)
