-- ===== src/Wire/Evaluate/Viewed.antt =====
-- The views of a decoded evaluation give back its entries and their queries.
use emvp_thesis.Base.{
  ℕ, ◌+◌, ◌*◌, ◌≤◌, ◌<◌, ◌≡◌, refl, sym, ap, ◌∙◌, arith, List, [], ◌∷◌, ◌++◌, length, some, All,
  leb, false, sum_by, usize_max, get_elem?-append, checked_mul-some, checked_add-some,
  length-append, append_assoc, append-nil, take, drop, length-take, take-append-drop, map,
  map-append, length-map, write_at, write_at-append, length-write_at, get_range-append,
  get_from-append,
}
use emvp_thesis.Emvp.View.{EncryptedQueryRef, new_query_ref}
use emvp_thesis.Field.{FieldElement}
use emvp_thesis.Wire.Evaluate.{EvaluateEntryMeta, EvaluateQueryMeta, EvaluateEntryInput}
use emvp_thesis.Wire.Evaluate.Workspace.{
  EvaluateWorkspace, EvaluateEntryView, entry_view, query_view, queries_from, entry_queries,
  entries_from, entries,
}
use emvp_thesis.Wire.Evaluate.Payload.{
  IsQuery, IsEntry, queries_width, entry_fields, query_values, all_queries, meta_of, metas,
  query_meta, length-metas, query_count,
}
use emvp_thesis.Wire.Evaluate.Decoded.{flat_values, length-entry_values, length-flat_values}

-- The view of the query at an index, from what the slices hold there.
query_view_lem :
    (w : ℕ) (q : EncryptedQueryRef) (v : EvaluateEntryView) (done more : List EvaluateQueryMeta)
    (before after : List FieldElement)
    → v.queries ≡ done ++ (query_meta q ∷ more)
    → v.arena ≡ before ++ (q.values ++ after)
    → v.meta.query_width ≡ w
    → length before ≡ length done * w
    → length done < v.meta.query_count
    → length q.values ≡ w
    → length v.arena ≤ usize_max
    → query_view v (length done) ≡ some q
unfolding query_view new_query_ref
query_view_lem w q v done more before after eq ea ew start inside shape fits = rw (
  not_leb (length done) v.meta.query_count inside,
  eq,
  ea,
  ew,
  get_elem?-append done more (query_meta q) (length done) refl,
  checked_mul-some (length done) w (omega (arith, size)),
  checked_add-some (length done * w) w (omega (arith, size)),
  get_range-append before q.values after (length done * w) (length done * w + w) start
      (omega (arith, shape)),
)
  where
    not_leb : (a b : ℕ) → a < b → leb b a ≡ false
    not_leb a b h = ground arith

    size : length done * w + w ≤ usize_max
    size = omega (
      arith,
      ap length ea,
      length-append before (q.values ++ after),
      length-append q.values after,
      shape,
      fits,
      start,
    )

queries_from_lem :
    (w : ℕ) (qs : List EncryptedQueryRef) (v : EvaluateEntryView)
    (done more : List EvaluateQueryMeta) (before after : List FieldElement)
    → v.queries ≡ done ++ (map query_meta qs ++ more)
    → v.arena ≡ before ++ (query_values qs ++ after)
    → v.meta.query_width ≡ w
    → length before ≡ length done * w
    → length done + length qs ≤ v.meta.query_count
    → All (IsQuery w) qs
    → length v.arena ≤ usize_max
    → queries_from (length qs) (length done) v ≡ qs
unfolding queries_from
queries_from_lem w [] v done more before after eq ea ew start inside us fits = refl
queries_from_lem w (q ∷ qs) v done more before after eq ea ew start inside (u, us) fits =
    rw
      (
        query_view_lem w q v done (map query_meta qs ++ more) before (query_values qs ++ after) eq
            first ew start (omega arith) u.shape fits,
        queries_from,
      )
      (ap (λ t. q ∷ t)
        (ap (λ (n : ℕ). queries_from (length qs) n v) (sym next)
          ∙ queries_from_lem w qs v (done ++ (query_meta q ∷ [])) more (before ++ q.values) after
              (eq ∙ sym (append_assoc done (query_meta q ∷ []) (map query_meta qs ++ more)))
              (first ∙ sym (append_assoc before q.values (query_values qs ++ after))) ew
              (omega
                (arith, length-append before q.values, u.shape, start, ap (λ (n : ℕ). n * w) next))
              (omega (arith, next)) us fits))
  where
    first : v.arena ≡ before ++ (q.values ++ (query_values qs ++ after))
    first = ea ∙ ap (λ t. before ++ t) (append_assoc q.values (query_values qs) after)

    next : length (done ++ (query_meta q ∷ [])) ≡ length done + 1
    next = omega (arith, length-append done (query_meta q ∷ []))

-- What a view shows: the entry it was made of.
abbrev pub shown : EvaluateEntryView → EvaluateEntryInput
shown v = record { matrix_id = v.meta.matrix_id; queries = entry_queries v }

-- The view of an entry, whose slices start at the entry's own queries and values.
abbrev view_of : ℕ → ℕ → EvaluateEntryInput → List EvaluateQueryMeta → EvaluateEntryView
view_of query_offset value_offset e more = record {
  meta = meta_of query_offset value_offset e;
  queries = map query_meta e.queries ++ more;
  arena = query_values e.queries;
}

shown-view_of :
    (query_offset value_offset : ℕ) (e : EvaluateEntryInput) (more : List EvaluateQueryMeta)
    → IsEntry e
    → entry_fields e ≤ usize_max
    → shown (view_of query_offset value_offset e more) ≡ e
unfolding entry_queries
shown-view_of query_offset value_offset e more u fits =
    ap
      (λ (qs : List EncryptedQueryRef).
        let x : EvaluateEntryInput = record { matrix_id = e.matrix_id; queries = qs } in x)
      (queries_from_lem (queries_width e.queries) e.queries
        (view_of query_offset value_offset e more) [] more [] [] refl
        (sym (append-nil (query_values e.queries))) refl (omega arith) (omega arith) u.queries
        (omega (arith, length-entry_values e u)))

entry_view_lem :
    (e : EvaluateEntryInput) (ws : EvaluateWorkspace) (done more : List EvaluateEntryMeta)
    (asked later : List EvaluateQueryMeta) (before after : List FieldElement)
    → ws.entries.items ≡ done ++ (meta_of (length asked) (length before) e ∷ more)
    → ws.queries.items ≡ asked ++ (map query_meta e.queries ++ later)
    → ws.arena.items ≡ before ++ (query_values e.queries ++ after)
    → IsEntry e
    → length ws.arena.items ≤ usize_max
    → entry_view ws (length done) ≡ some (view_of (length asked) (length before) e later)
unfolding entry_view
entry_view_lem e ws done more asked later before after em eq ea u fits = rw (
  em,
  eq,
  ea,
  get_elem?-append done more (meta_of (length asked) (length before) e) (length done) refl,
  checked_mul-some (length e.queries) (queries_width e.queries) (omega (arith, size)),
  checked_add-some (length before) (entry_fields e) (omega (arith, size)),
  get_from-append asked (map query_meta e.queries ++ later) (length asked) refl,
  get_range-append before (query_values e.queries) after (length before)
      (length before + entry_fields e) refl (omega (arith, length-entry_values e u)),
)
  where
    size : length before + entry_fields e ≤ usize_max
    size = omega (
      arith,
      ap length ea,
      length-append before (query_values e.queries ++ after),
      length-append (query_values e.queries) after,
      length-entry_values e u,
      fits,
    )

entries_from_lem :
    (es : List EvaluateEntryInput) (ws : EvaluateWorkspace) (done : List EvaluateEntryMeta)
    (asked : List EvaluateQueryMeta) (before after : List FieldElement)
    → ws.entries.items ≡ done ++ metas (length asked) (length before) es
    → ws.queries.items ≡ asked ++ map query_meta (all_queries es)
    → ws.arena.items ≡ before ++ (flat_values es ++ after)
    → All IsEntry es
    → length ws.arena.items ≤ usize_max
    → map shown (entries_from (length es) (length done) ws) ≡ es
unfolding entries_from
entries_from_lem [] ws done asked before after em eq ea us fits = refl
entries_from_lem (e ∷ es) ws done asked before after em eq ea (u, us) fits =
    rw
      (
        entry_view_lem e ws done
            (metas (length asked + query_count e) (length before + entry_fields e) es) asked
            (map query_meta (all_queries es)) before (flat_values es ++ after) em table first u
            fits,
        entries_from,
        shown-view_of (length asked) (length before) e (map query_meta (all_queries es)) u
            (omega (arith, size)),
      )
      (ap (λ t. e ∷ t)
        (ap (λ (n : ℕ). map shown (entries_from (length es) n ws)) (sym next)
          ∙ entries_from_lem es ws (done ++ (this ∷ [])) (asked ++ map query_meta e.queries)
              (before ++ query_values e.queries) after entries_next
              (table
                ∙ sym (
                    append_assoc asked (map query_meta e.queries)
                      (map query_meta (all_queries es))))
              (first ∙ sym (append_assoc before (query_values e.queries) (flat_values es ++ after)))
              us fits))
  where
    this : EvaluateEntryMeta
    this = meta_of (length asked) (length before) e

    first : ws.arena.items ≡ before ++ (query_values e.queries ++ (flat_values es ++ after))
    first =
        ea ∙ ap (λ t. before ++ t) (append_assoc (query_values e.queries) (flat_values es) after)

    table :
        ws.queries.items ≡ asked ++ (map query_meta e.queries ++ map query_meta (all_queries es))
    table = eq ∙ ap (λ t. asked ++ t) (map-append query_meta e.queries (all_queries es))

    size : length before + entry_fields e ≤ usize_max
    size = omega (
      arith,
      ap length first,
      length-append before (query_values e.queries ++ (flat_values es ++ after)),
      length-append (query_values e.queries) (flat_values es ++ after),
      length-entry_values e u,
      fits,
    )

    next : length (done ++ (this ∷ [])) ≡ length done + 1
    next = omega (arith, length-append done (this ∷ []))

    asked_next : length (asked ++ map query_meta e.queries) ≡ length asked + query_count e
    asked_next =
        omega
          (arith, length-append asked (map query_meta e.queries), length-map query_meta e.queries)

    before_next : length (before ++ query_values e.queries) ≡ length before + entry_fields e
    before_next =
        omega (arith, length-append before (query_values e.queries), length-entry_values e u)

    entries_next :
        ws.entries.items
        ≡ (done ++ (this ∷ []))
          ++ metas
              (length (asked ++ map query_meta e.queries))
              (length (before ++ query_values e.queries))
              es
    entries_next =
        em
        ∙ sym (
            append_assoc done (this ∷ [])
              (metas (length asked + query_count e) (length before + entry_fields e) es))
        ∙ ap (λ (n : ℕ). (done ++ (this ∷ [])) ++ metas n (length before + entry_fields e) es)
            (sym asked_next)
        ∙ ap
            (λ (n : ℕ).
              (done ++ (this ∷ [])) ++ metas (length (asked ++ map query_meta e.queries)) n es)
            (sym before_next)

-- After decoding into an arena that is large enough, the views show the entries.
pub entries-decoded :
    (es : List EvaluateEntryInput) (ws : EvaluateWorkspace) (arena : List FieldElement)
    → ws.entries.items ≡ metas 0 0 es
    → ws.queries.items ≡ map query_meta (all_queries es)
    → ws.arena.items ≡ write_at arena 0 (flat_values es)
    → sum_by entry_fields es ≤ length arena
    → All IsEntry es
    → length arena ≤ usize_max
    → map shown (entries ws) ≡ es
unfolding entries
entries-decoded es ws arena em eq ea h us fits =
    ap (λ (n : ℕ). map shown (entries_from n 0 ws)) (ap length em ∙ length-metas 0 0 es)
    ∙ entries_from_lem es ws [] [] [] (drop total arena) em eq (ea ∙ filled) us
        (omega (arith, ap length ea, length-write_at arena 0 (flat_values es), fits))
  where
    total : ℕ
    total = length (flat_values es)

    filled : write_at arena 0 (flat_values es) ≡ flat_values es ++ drop total arena
    filled =
        ap (λ t. write_at t 0 (flat_values es)) (sym (take-append-drop total arena))
        ∙ write_at-append [] (take total arena) (drop total arena) (flat_values es) 0 refl
            (omega (arith, length-take total arena, length-flat_values es us))
