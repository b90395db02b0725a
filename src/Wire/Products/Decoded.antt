-- ===== src/Wire/Products/Decoded.antt =====
-- Decoding the value region of a products message into the arena.
use emvp_thesis.Base.{
  ℕ, ◌+◌, ◌*◌, ◌≤◌, ◌≡◌, refl, sym, ap, ◌∙◌, arith, List, [], ◌∷◌, ◌++◌, length, All, flat_map,
  le→leb, sum_by, u64_max, checked_mul-some, checked_add-some, length-append, write_at,
  length-write_at, write_at-append_values,
}
use emvp_thesis.Base.Action.{ok, for_each}
use emvp_thesis.Field.{FieldElement}
use emvp_thesis.Wire.Stream.{Ending}
use emvp_thesis.Wire.Frame.Reads.{finish-framed}
use emvp_thesis.Wire.Frame.Slices.{encoded, decoding, read_field_slice_into-decoding}
use emvp_thesis.Wire.Products.{ProductEntryInput}
use emvp_thesis.Wire.Products.Workspace.{decode_entry, decode_products}
use emvp_thesis.Wire.Products.Payload.{
  IsProduct, answer_words, entry_fields, answer_values, length-answer_values,
  answer_values-IsElement, encoded-answer_values, all_values, meta_of, metas, plan_of,
}

-- The values of all entries, one after the other.
abbrev pub flat_values : List ProductEntryInput → List FieldElement
flat_values es = flat_map (λ (e : ProductEntryInput). answer_values e.answers) es

pub length-entry_values :
    (e : ProductEntryInput) → IsProduct e → length (answer_values e.answers) ≡ entry_fields e
length-entry_values e u = length-answer_values e e.answers u.answers

pub length-flat_values :
    (es : List ProductEntryInput)
    → All IsProduct es
    → length (flat_values es) ≡ sum_by entry_fields es
length-flat_values [] us = refl
length-flat_values (e ∷ es) (u, us) = omega (
  arith,
  length-append (answer_values e.answers) (flat_values es),
  length-entry_values e u,
  length-flat_values es us,
)

module _ (rest : List ℕ) (ending : Ending) where
  decode_entry-decoding :
      (e : ProductEntryInput) (answer_offset offset : ℕ) (tail : List ℕ) (arena : List FieldElement)
      → IsProduct e
      → offset + entry_fields e ≤ length arena
      → length arena * 4 ≤ u64_max
      → decode_entry
          (meta_of answer_offset offset e)
          (decoding rest ending (encoded (answer_values e.answers) ++ tail) arena)
        ≡ (ok tt, decoding rest ending tail (write_at arena offset (answer_values e.answers)))
  unfolding decode_entry
  decode_entry-decoding e answer_offset offset tail arena u h fits =
      rw
        (
          checked_mul-some e.rows e.blocks (omega (arith, u.words_fit)),
          checked_mul-some (length e.answers) (answer_words e) (omega arith),
          checked_add-some offset (entry_fields e) (omega arith),
          le→leb (offset + entry_fields e) (length arena) h,
        )
        (read_field_slice_into-decoding rest ending (answer_values e.answers) offset
          (entry_fields e) tail arena (length-entry_values e u) (omega arith)
          (answer_values-IsElement e e.answers u.answers))

  decode_entries-decoding :
      (es : List ProductEntryInput) (answer_offset offset : ℕ) (arena : List FieldElement)
      → All IsProduct es
      → offset + sum_by entry_fields es ≤ length arena
      → length arena * 4 ≤ u64_max
      → for_each decode_entry
          (metas answer_offset offset es)
          (decoding rest ending (all_values es) arena)
        ≡ (ok tt, decoding rest ending [] (write_at arena offset (flat_values es)))
  decode_entries-decoding [] answer_offset offset arena us h fits = unfold write_at in refl
  decode_entries-decoding (e ∷ es) answer_offset offset arena (u, us) h fits =
      rw
        (
          ← encoded-answer_values e.answers,
          decode_entry-decoding e answer_offset offset (all_values es) arena u (omega arith) fits,
          decode_entries-decoding es (answer_offset + length e.answers) (offset + entry_fields e)
              (write_at arena offset (answer_values e.answers)) us
              (omega (arith, length-write_at arena offset (answer_values e.answers)))
              (omega (arith, length-write_at arena offset (answer_values e.answers))),
        )
        (ap (λ a. (ok tt, decoding rest ending [] a))
          (ap
              (λ (n : ℕ).
                write_at (write_at arena offset (answer_values e.answers)) (offset + n)
                  (flat_values es))
              (sym (length-entry_values e u))
            ∙ sym (write_at-append_values arena offset (answer_values e.answers) (flat_values es))))

  pub decode_products-decoding :
      (es : List ProductEntryInput) (arena : List FieldElement)
      → All IsProduct es
      → sum_by entry_fields es ≤ length arena
      → length arena * 4 ≤ u64_max
      → decode_products (plan_of es) (decoding rest ending (all_values es) arena)
        ≡ (ok tt, decoding rest ending [] (write_at arena 0 (flat_values es)))
  unfolding decode_products
  decode_products-decoding es arena us h fits =
      rw (decode_entries-decoding es 0 0 arena us (omega arith) fits, finish-framed rest ending)
