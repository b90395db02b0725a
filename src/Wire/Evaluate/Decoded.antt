-- ===== src/Wire/Evaluate/Decoded.antt =====
-- Decoding the value region of an evaluation into the arena.
use emvp_thesis.Base.{
  ℕ, ◌+◌, ◌*◌, ◌≤◌, ◌≡◌, refl, sym, ap, ◌∙◌, arith, List, [], ◌∷◌, ◌++◌, length, All, flat_map,
  le→leb, sum_by, u64_max, checked_mul-some, checked_add-some, length-append, write_at,
  length-write_at, write_at-append_values,
}
use emvp_thesis.Base.Action.{ok, for_each}
use emvp_thesis.Field.{FieldElement}
use emvp_thesis.Wire.Stream.{Ending}
use emvp_thesis.Wire.Frame.Reads.{finish-framed}
use emvp_thesis.Wire.Frame.Slices.{encoded, decoding, read_field_slice_into-decoding}
use emvp_thesis.Wire.Evaluate.{EvaluateEntryInput}
use emvp_thesis.Wire.Evaluate.Workspace.{decode_entry, decode_evaluate}
use emvp_thesis.Wire.Evaluate.Payload.{
  IsEntry, queries_width, entry_fields, query_values, length-query_values, query_values-IsElement,
  encoded-query_values, all_values, meta_of, metas, plan_of,
}

-- The values of all entries, one after the other.
abbrev pub flat_values : List EvaluateEntryInput → List FieldElement
flat_values es = flat_map (λ (e : EvaluateEntryInput). query_values e.queries) es

pub length-entry_values :
    (e : EvaluateEntryInput) → IsEntry e → length (query_values e.queries) ≡ entry_fields e
length-entry_values e u = length-query_values (queries_width e.queries) e.queries u.queries

pub length-flat_values :
    (es : List EvaluateEntryInput)
    → All IsEntry es
    → length (flat_values es) ≡ sum_by entry_fields es
length-flat_values [] us = refl
length-flat_values (e ∷ es) (u, us) = omega (
  arith,
  length-append (query_values e.queries) (flat_values es),
  length-entry_values e u,
  length-flat_values es us,
)

module _ (rest : List ℕ) (ending : Ending) where
  decode_entry-decoding :
      (e : EvaluateEntryInput) (query_offset offset : ℕ) (tail : List ℕ) (arena : List FieldElement)
      → IsEntry e
      → offset + entry_fields e ≤ length arena
      → length arena * 4 ≤ u64_max
      → decode_entry
          (meta_of query_offset offset e)
          (decoding rest ending (encoded (query_values e.queries) ++ tail) arena)
        ≡ (ok tt, decoding rest ending tail (write_at arena offset (query_values e.queries)))
  unfolding decode_entry
  decode_entry-decoding e query_offset offset tail arena u h fits =
      rw
        (
          checked_mul-some (length e.queries) (queries_width e.queries) (omega arith),
          checked_add-some offset (entry_fields e) (omega arith),
          le→leb (offset + entry_fields e) (length arena) h,
        )
        (read_field_slice_into-decoding rest ending (query_values e.queries) offset (entry_fields e)
          tail arena (length-entry_values e u) (omega arith)
          (query_values-IsElement (queries_width e.queries) e.queries u.queries))

  decode_entries-decoding :
      (es : List EvaluateEntryInput) (query_offset offset : ℕ) (arena : List FieldElement)
      → All IsEntry es
      → offset + sum_by entry_fields es ≤ length arena
      → length arena * 4 ≤ u64_max
      → for_each decode_entry
          (metas query_offset offset es)
          (decoding rest ending (all_values es) arena)
        ≡ (ok tt, decoding rest ending [] (write_at arena offset (flat_values es)))
  decode_entries-decoding [] query_offset offset arena us h fits = unfold write_at in refl
  decode_entries-decoding (e ∷ es) query_offset offset arena (u, us) h fits =
      rw
        (
          ← encoded-query_values e.queries,
          decode_entry-decoding e query_offset offset (all_values es) arena u (omega arith) fits,
          decode_entries-decoding es (query_offset + length e.queries) (offset + entry_fields e)
              (write_at arena offset (query_values e.queries)) us
              (omega (arith, length-write_at arena offset (query_values e.queries)))
              (omega (arith, length-write_at arena offset (query_values e.queries))),
        )
        (ap (λ a. (ok tt, decoding rest ending [] a))
          (ap
              (λ (n : ℕ).
                write_at (write_at arena offset (query_values e.queries)) (offset + n)
                  (flat_values es))
              (sym (length-entry_values e u))
            ∙ sym (write_at-append_values arena offset (query_values e.queries) (flat_values es))))

  pub decode_evaluate-decoding :
      (es : List EvaluateEntryInput) (arena : List FieldElement)
      → All IsEntry es
      → sum_by entry_fields es ≤ length arena
      → length arena * 4 ≤ u64_max
      → decode_evaluate (plan_of es) (decoding rest ending (all_values es) arena)
        ≡ (ok tt, decoding rest ending [] (write_at arena 0 (flat_values es)))
  unfolding decode_evaluate
  decode_evaluate-decoding es arena us h fits =
      rw (decode_entries-decoding es 0 0 arena us (omega arith) fits, finish-framed rest ending)
