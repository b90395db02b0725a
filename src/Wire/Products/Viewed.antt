-- ===== src/Wire/Products/Viewed.antt =====
-- The views of a decoded products message give back its entries and their answers.
use emvp_thesis.Base.{
  ℕ, ◌+◌, ◌*◌, ◌≤◌, ◌<◌, ◌≡◌, refl, sym, ap, ◌∙◌, arith, List, [], ◌∷◌, ◌++◌, length, some, none,
  All, leb, false, sum_by, usize_max, get_elem?-append, checked_mul-some, checked_add-some,
  length-append, append_assoc, append-nil, take, drop, length-take, take-append-drop, map,
  map-append, length-map, checked_mul, u64_max, write_at, write_at-append, length-write_at,
  get_range-append, get_from-append, if◌then◌else◌,
}
use emvp_thesis.Emvp.View.{AnswerRef, new_answer_ref}
use emvp_thesis.Emvp.View.Shapes.{new_answer_ref-ok}
use emvp_thesis.Base.Action.{ok}
use emvp_thesis.Field.{FieldElement}
use emvp_thesis.Wire.Products.{ProductsEntryMeta, ProductEntryInput}
use emvp_thesis.Wire.Products.Workspace.{
  ProductsWorkspace, ProductEntryView, product_view, answer_view, answers_from, entry_answers,
  products_from, product_entries,
}
use emvp_thesis.Wire.Products.Payload.{
  IsAnswer, IsProduct, answer_words, entry_fields, answer_values, all_answers, meta_of, metas,
  answer_query_id, length-metas, answer_count,
}
use emvp_thesis.Wire.Products.Decoded.{flat_values, length-entry_values, length-flat_values}

-- The view of an entry over slices that start at the entry's own answers.
abbrev over : ℕ → ℕ → ProductEntryInput → List ℕ → List FieldElement → ProductEntryView
over answer_offset value_offset e query_ids arena = record {
  meta = meta_of answer_offset value_offset e;
  query_ids = query_ids;
  arena = arena;
}

module _ (answer_offset value_offset : ℕ) (e : ProductEntryInput) (p : IsProduct e) where
  -- The view of the answer at an index, from what the slices hold there.
  answer_view_lem :
      (a : AnswerRef) (done more : List ℕ) (before after : List FieldElement)
      → IsAnswer e a
      → length before ≡ length done * answer_words e
      → length done < answer_count e
      → length (before ++ (a.values ++ after)) ≤ usize_max
      → answer_view
          (over answer_offset value_offset e
            (done ++ (answer_query_id a ∷ more))
            (before ++ (a.values ++ after)))
          (length done)
        ≡ some a
  unfolding answer_view
  answer_view_lem a done more before after u start inside fits = rw (
    not_leb (length done) (answer_count e) inside,
    get_elem?-append done more (answer_query_id a) (length done) refl,
    checked_mul-some e.rows e.blocks (omega (arith, p.words_fit)),
    checked_mul-some (length done) (answer_words e) (omega (arith, size)),
    checked_add-some (length done * answer_words e) (answer_words e) (omega (arith, size)),
    get_range-append before a.values after (length done * answer_words e)
        (length done * answer_words e + answer_words e) start (omega (arith, u.shape)),
    made,
  )
    where
      not_leb : (m n : ℕ) → m < n → leb n m ≡ false
      not_leb m n h = ground arith

      size : length done * answer_words e + answer_words e ≤ usize_max
      size = omega (
        arith,
        length-append before (a.values ++ after),
        length-append a.values after,
        u.shape,
        fits,
        start,
      )

      words : a.rows * a.blocks ≡ answer_words e
      words = ap (λ (n : ℕ). n * a.blocks) u.same_rows ∙ ap (λ (n : ℕ). e.rows * n) u.same_blocks

      made : new_answer_ref e.instance_id a.query_id a.values e.rows e.blocks ≡ ok a
      made =
          rw (← u.same_instance, ← u.same_rows, ← u.same_blocks)
            (new_answer_ref-ok a (omega (arith, u.same_rows, p.rows_positive))
              (omega (arith, u.same_blocks, p.blocks_positive)) (omega (arith, words, p.words_fit))
              (u.shape ∙ sym words))

  answers_from_lem :
      (rs : List AnswerRef) (v : ProductEntryView) (done more : List ℕ)
      (before after : List FieldElement)
      → v
        ≡ over answer_offset value_offset e
            (done ++ (map answer_query_id rs ++ more))
            (before ++ (answer_values rs ++ after))
      → length before ≡ length done * answer_words e
      → length done + length rs ≤ answer_count e
      → All (IsAnswer e) rs
      → length v.arena ≤ usize_max
      → answers_from (length rs) (length done) v ≡ rs
  unfolding answers_from
  answers_from_lem [] v done more before after ev start inside us fits = refl
  answers_from_lem (a ∷ rs) v done more before after ev start inside (u, us) fits =
      rw
        (
          ap (λ (x : ProductEntryView). answer_view x (length done)) split
              ∙ answer_view_lem a done (map answer_query_id rs ++ more) before
                  (answer_values rs ++ after) u start (omega arith)
                  (omega (arith, ap (λ (x : ProductEntryView). length x.arena) split)),
          answers_from,
        )
        (ap (λ t. a ∷ t)
          (ap (λ (n : ℕ). answers_from (length rs) n v) (sym next)
            ∙ answers_from_lem rs v (done ++ (answer_query_id a ∷ [])) more (before ++ a.values)
                after
                (split
                  ∙ ap
                      (λ t.
                        over answer_offset value_offset e t
                          (before ++ (a.values ++ (answer_values rs ++ after))))
                      (sym (
                        append_assoc done (answer_query_id a ∷ [])
                          (map answer_query_id rs ++ more)))
                  ∙ ap
                      (over answer_offset value_offset e
                        ((done ++ (answer_query_id a ∷ [])) ++ (map answer_query_id rs ++ more)))
                      (sym (append_assoc before a.values (answer_values rs ++ after))))
                (omega (
                  arith,
                  length-append before a.values,
                  u.shape,
                  start,
                  ap (λ (n : ℕ). n * answer_words e) next,
                ))
                (omega (arith, next)) us fits))
    where
      split :
          v
          ≡ over answer_offset value_offset e
              (done ++ (answer_query_id a ∷ (map answer_query_id rs ++ more)))
              (before ++ (a.values ++ (answer_values rs ++ after)))
      split =
          ev
          ∙ ap
              (λ t.
                over answer_offset value_offset e
                  (done ++ (answer_query_id a ∷ (map answer_query_id rs ++ more))) (before ++ t))
              (append_assoc a.values (answer_values rs) after)

      next : length (done ++ (answer_query_id a ∷ [])) ≡ length done + 1
      next = omega (arith, length-append done (answer_query_id a ∷ []))

-- What a view shows: the entry it was made of.
abbrev pub shown : ProductEntryView → ProductEntryInput
shown v = record {
  matrix_id = v.meta.matrix_id;
  instance_id = v.meta.instance_id;
  rows = v.meta.rows;
  blocks = v.meta.blocks;
  answers = entry_answers v;
}

-- The view of an entry, whose slices start at the entry's own answers and values.
abbrev view_of : ℕ → ℕ → ProductEntryInput → List ℕ → ProductEntryView
view_of answer_offset value_offset e more =
    over answer_offset value_offset e (map answer_query_id e.answers ++ more)
      (answer_values e.answers)

shown-view_of :
    (answer_offset value_offset : ℕ) (e : ProductEntryInput) (more : List ℕ)
    → IsProduct e
    → entry_fields e ≤ usize_max
    → shown (view_of answer_offset value_offset e more) ≡ e
unfolding entry_answers
shown-view_of answer_offset value_offset e more u fits =
    ap (λ (rs : List AnswerRef). let x : ProductEntryInput = record e { answers = rs } in x)
      (answers_from_lem answer_offset value_offset e u e.answers
        (view_of answer_offset value_offset e more) [] more [] []
        (ap (over answer_offset value_offset e (map answer_query_id e.answers ++ more))
          (sym (append-nil (answer_values e.answers))))
        (omega arith) (omega arith) u.answers (omega (arith, length-entry_values e u)))

product_view_lem :
    (e : ProductEntryInput) (ws : ProductsWorkspace) (done more : List ProductsEntryMeta)
    (asked later : List ℕ) (before after : List FieldElement)
    → ws.entries.items ≡ done ++ (meta_of (length asked) (length before) e ∷ more)
    → ws.query_ids.items ≡ asked ++ (map answer_query_id e.answers ++ later)
    → ws.arena.items ≡ before ++ (answer_values e.answers ++ after)
    → IsProduct e
    → length ws.arena.items ≤ usize_max
    → product_view ws (length done) ≡ some (view_of (length asked) (length before) e later)
unfolding product_view
product_view_lem e ws done more asked later before after em eq ea u fits = rw (
  em,
  eq,
  ea,
  get_elem?-append done more (meta_of (length asked) (length before) e) (length done) refl,
  checked_mul-some e.rows e.blocks (omega (arith, u.words_fit)),
  turned,
  checked_mul-some (length e.answers) (answer_words e) (omega (arith, size)),
  checked_add-some (length before) (entry_fields e) (omega (arith, size)),
  get_from-append asked (map answer_query_id e.answers ++ later) (length asked) refl,
  get_range-append before (answer_values e.answers) after (length before)
      (length before + entry_fields e) refl (omega (arith, length-entry_values e u)),
)
  where
    turned :
        checked_mul (answer_words e) (length e.answers)
        ≡ checked_mul (length e.answers) (answer_words e)
    turned =
        unfold checked_mul in ap (λ (n : ℕ). if leb n u64_max then some n else none) (omega arith)

    size : length before + entry_fields e ≤ usize_max
    size = omega (
      arith,
      ap length ea,
      length-append before (answer_values e.answers ++ after),
      length-append (answer_values e.answers) after,
      length-entry_values e u,
      fits,
    )

products_from_lem :
    (es : List ProductEntryInput) (ws : ProductsWorkspace) (done : List ProductsEntryMeta)
    (asked : List ℕ) (before after : List FieldElement)
    → ws.entries.items ≡ done ++ metas (length asked) (length before) es
    → ws.query_ids.items ≡ asked ++ map answer_query_id (all_answers es)
    → ws.arena.items ≡ before ++ (flat_values es ++ after)
    → All IsProduct es
    → length ws.arena.items ≤ usize_max
    → map shown (products_from (length es) (length done) ws) ≡ es
unfolding products_from
products_from_lem [] ws done asked before after em eq ea us fits = refl
products_from_lem (e ∷ es) ws done asked before after em eq ea (u, us) fits =
    rw
      (
        product_view_lem e ws done
            (metas (length asked + answer_count e) (length before + entry_fields e) es) asked
            (map answer_query_id (all_answers es)) before (flat_values es ++ after) em table first u
            fits,
        products_from,
        shown-view_of (length asked) (length before) e (map answer_query_id (all_answers es)) u
            (omega (arith, size)),
      )
      (ap (λ t. e ∷ t)
        (ap (λ (n : ℕ). map shown (products_from (length es) n ws)) (sym next)
          ∙ products_from_lem es ws (done ++ (this ∷ [])) (asked ++ map answer_query_id e.answers)
              (before ++ answer_values e.answers) after entries_next
              (table
                ∙ sym (
                    append_assoc asked (map answer_query_id e.answers)
                      (map answer_query_id (all_answers es))))
              (first
                ∙ sym (append_assoc before (answer_values e.answers) (flat_values es ++ after)))
              us fits))
  where
    this : ProductsEntryMeta
    this = meta_of (length asked) (length before) e

    first : ws.arena.items ≡ before ++ (answer_values e.answers ++ (flat_values es ++ after))
    first =
        ea ∙ ap (λ t. before ++ t) (append_assoc (answer_values e.answers) (flat_values es) after)

    table :
        ws.query_ids.items
        ≡ asked ++ (map answer_query_id e.answers ++ map answer_query_id (all_answers es))
    table = eq ∙ ap (λ t. asked ++ t) (map-append answer_query_id e.answers (all_answers es))

    size : length before + entry_fields e ≤ usize_max
    size = omega (
      arith,
      ap length first,
      length-append before (answer_values e.answers ++ (flat_values es ++ after)),
      length-append (answer_values e.answers) (flat_values es ++ after),
      length-entry_values e u,
      fits,
    )

    next : length (done ++ (this ∷ [])) ≡ length done + 1
    next = omega (arith, length-append done (this ∷ []))

    asked_next : length (asked ++ map answer_query_id e.answers) ≡ length asked + answer_count e
    asked_next = omega (
      arith,
      length-append asked (map answer_query_id e.answers),
      length-map answer_query_id e.answers,
    )

    before_next : length (before ++ answer_values e.answers) ≡ length before + entry_fields e
    before_next =
        omega (arith, length-append before (answer_values e.answers), length-entry_values e u)

    entries_next :
        ws.entries.items
        ≡ (done ++ (this ∷ []))
          ++ metas
              (length (asked ++ map answer_query_id e.answers))
              (length (before ++ answer_values e.answers))
              es
    entries_next =
        em
        ∙ sym (
            append_assoc done (this ∷ [])
              (metas (length asked + answer_count e) (length before + entry_fields e) es))
        ∙ ap (λ (n : ℕ). (done ++ (this ∷ [])) ++ metas n (length before + entry_fields e) es)
            (sym asked_next)
        ∙ ap
            (λ (n : ℕ).
              (done ++ (this ∷ [])) ++ metas (length (asked ++ map answer_query_id e.answers)) n es)
            (sym before_next)

-- After decoding into an arena that is large enough, the views show the entries.
pub product_entries-decoded :
    (es : List ProductEntryInput) (ws : ProductsWorkspace) (arena : List FieldElement)
    → ws.entries.items ≡ metas 0 0 es
    → ws.query_ids.items ≡ map answer_query_id (all_answers es)
    → ws.arena.items ≡ write_at arena 0 (flat_values es)
    → sum_by entry_fields es ≤ length arena
    → All IsProduct es
    → length arena ≤ usize_max
    → map shown (product_entries ws) ≡ es
unfolding product_entries
product_entries-decoded es ws arena em eq ea h us fits =
    ap (λ (n : ℕ). map shown (products_from n 0 ws)) (ap length em ∙ length-metas 0 0 es)
    ∙ products_from_lem es ws [] [] [] (drop total arena) em eq (ea ∙ filled) us
        (omega (arith, ap length ea, length-write_at arena 0 (flat_values es), fits))
  where
    total : ℕ
    total = length (flat_values es)

    filled : write_at arena 0 (flat_values es) ≡ flat_values es ++ drop total arena
    filled =
        ap (λ t. write_at t 0 (flat_values es)) (sym (take-append-drop total arena))
        ∙ write_at-append [] (take total arena) (drop total arena) (flat_values es) 0 refl
            (omega (arith, length-take total arena, length-flat_values es us))
