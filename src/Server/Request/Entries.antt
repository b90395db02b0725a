-- ===== src/Server/Request/Entries.antt =====
-- The checks of one entry of a request: what passes them, and the state that they leave.
use emvp_thesis.Base.{
  ℕ, ◌+◌, ◌<◌, ◌≡◌, inl, inr, refl, sym, ap, ◌∙◌, arith, Option, some, List, [], ◌∷◌, ◌++◌,
  append_assoc, append-nil, All, false, ◌==◌, length, length-append, map, Bool-cases, Option-cases,
  pos→==_zero,
}
use emvp_thesis.Base.Fresh.{
  contains, Distinct, Fresh, Fresh-Distinct, Distinct-Fresh, Unseen-nothing,
}
use emvp_thesis.Base.Action.{ok, for_each, bind_inverse}
use emvp_thesis.Emvp.View.{EncryptedQueryRef}
use emvp_thesis.Server.Request.{MatrixInfo, EvaluatedEntry, Scratch, check_query, prepare_entry}
use emvp_thesis.Wire.Evaluate.Workspace.{EvaluateEntryView, entry_queries}

-- A query for the matrix.
abbrev pub Fits : MatrixInfo → EncryptedQueryRef → Type 0
Fits matrix q = (length q.values ≡ matrix.width) × (q.instance_id ≡ matrix.instance_id)

abbrev pub query_ids : List EncryptedQueryRef → List ℕ
query_ids qs = map (λ (q : EncryptedQueryRef). q.query_id) qs

-- The state after a query that passes.
abbrev pub took : EncryptedQueryRef → Scratch → Scratch
took q s = record s {
  seen_queries = q.query_id ∷ s.seen_queries;
  query_refs = s.query_refs ++ (q ∷ []);
}

check_query_inverse :
    (matrix : MatrixInfo) (id : ℕ) (q : EncryptedQueryRef) (s t : Scratch)
    → check_query matrix id q s ≡ (ok tt, t)
    → Fits matrix q × (contains q.query_id s.seen_queries ≡ false) × (took q s ≡ t)
unfolding check_query
check_query_inverse matrix id q s t h = (ground arith, ground arith, ground arith)

check_query-ok :
    (matrix : MatrixInfo) (id : ℕ) (q : EncryptedQueryRef) (s : Scratch)
    → Fits matrix q
    → contains q.query_id s.seen_queries ≡ false
    → check_query matrix id q s ≡ (ok tt, took q s)
unfolding check_query
check_query-ok matrix id q s (w, i) new = ground arith

abbrev pub took_all : List EncryptedQueryRef → Scratch → Scratch
took_all [] s = s
took_all (q ∷ qs) s = took_all qs (took q s)

queries_inverse :
    (matrix : MatrixInfo) (id : ℕ) (qs : List EncryptedQueryRef) (s t : Scratch)
    → for_each (check_query matrix id) qs s ≡ (ok tt, t)
    → All (Fits matrix) qs × Fresh s.seen_queries (query_ids qs) × (took_all qs s ≡ t)
queries_inverse matrix id [] s t h = (tt, tt, cc h)
queries_inverse matrix id (q ∷ qs) s t h =
    let (a, u, first, later) =
      bind_inverse (check_query matrix id q) (λ _. for_each (check_query matrix id) qs) s h in
    let (fits, new, same) = check_query_inverse matrix id q s u first in
    let (all_fit, fresh, end) = queries_inverse matrix id qs (took q s) t (rw same later) in
    ((fits, all_fit), (new, fresh), end)

queries-ok :
    (matrix : MatrixInfo) (id : ℕ) (qs : List EncryptedQueryRef) (s : Scratch)
    → All (Fits matrix) qs
    → Fresh s.seen_queries (query_ids qs)
    → for_each (check_query matrix id) qs s ≡ (ok tt, took_all qs s)
queries-ok matrix id [] s h k = refl
queries-ok matrix id (q ∷ qs) s (h, hs) (k, ks) =
    rw (check_query-ok matrix id q s h k) (queries-ok matrix id qs (took q s) hs ks)

pub took_all-query_refs :
    (qs : List EncryptedQueryRef) (s : Scratch) → (took_all qs s).query_refs ≡ s.query_refs ++ qs
took_all-query_refs [] s = sym (append-nil s.query_refs)
took_all-query_refs (q ∷ qs) s =
    took_all-query_refs qs (took q s) ∙ append_assoc s.query_refs (q ∷ []) qs

pub took_all-seen_matrices :
    (qs : List EncryptedQueryRef) (s : Scratch) → (took_all qs s).seen_matrices ≡ s.seen_matrices
took_all-seen_matrices [] s = refl
took_all-seen_matrices (q ∷ qs) s = took_all-seen_matrices qs (took q s)

-- An entry that names a loaded matrix and has queries for it, with distinct identifiers.
pub record IsAnswerable (lookup : ℕ → Option MatrixInfo) (v : EvaluateEntryView) : Type 0 where
  pub matrix : MatrixInfo
  pub known : lookup v.meta.matrix_id ≡ some matrix
  pub nonempty : 0 < v.meta.query_count
  pub fit : All (Fits matrix) (entry_queries v)
  pub distinct : Distinct (query_ids (entry_queries v))

-- The state in which the queries of an entry are checked, and the one after them.
abbrev pub opened : EvaluateEntryView → Scratch → Scratch
opened v s = record s { seen_matrices = v.meta.matrix_id ∷ s.seen_matrices; seen_queries = [] }

abbrev pub closed : EvaluateEntryView → Scratch → Scratch
closed v s = took_all (entry_queries v) (opened v s)

-- The range of the entry's queries among those collected.
abbrev pub range_of : EvaluateEntryView → ℕ → EvaluatedEntry
range_of v start = record {
  matrix_id = v.meta.matrix_id;
  start = start;
  end = start + length (entry_queries v);
}

pub prepare_entry_inverse :
    (lookup : ℕ → Option MatrixInfo) (v : EvaluateEntryView) (s t : Scratch) (e : EvaluatedEntry)
    → prepare_entry lookup v s ≡ (ok e, t)
    → IsAnswerable lookup v
      × (contains v.meta.matrix_id s.seen_matrices ≡ false)
      × (e ≡ range_of v (length s.query_refs))
      × (closed v s ≡ t)
unfolding prepare_entry
prepare_entry_inverse lookup v s t e h = elim (Option-cases (lookup id)) [
  | inl missing ↦ cc (rw missing at h)
  | inr (matrix, known) ↦ elim (Bool-cases (contains id s.seen_matrices)) [
    | inl seen ↦ cc (rw (known, seen) at h)
    | inr unseen ↦ elim (Bool-cases (v.meta.query_count == 0)) [
      | inl empty ↦ cc (rw (known, unseen, empty) at h)
      | inr filled ↦
          let (_, u, checked, made) =
            bind_inverse (for_each (check_query matrix id) (entry_queries v)) _ (opened v s)
              (rw (known, unseen, filled) at h) in
          let (fit, fresh, end) =
            queries_inverse matrix id (entry_queries v) (opened v s) u checked in
          (
            record {
              matrix = matrix;
              known = known;
              nonempty = ground arith;
              fit = fit;
              distinct = (Fresh-Distinct [] (query_ids (entry_queries v)) fresh).1;
            },
            unseen,
            sym (cc made)
                ∙ ap
                    (λ (n : ℕ).
                      let r : EvaluatedEntry = record {
                        matrix_id = id;
                        start = length s.query_refs;
                        end = n;
                      } in
                      r)
                    (counted u end),
            end ∙ cc made,
          )
    ]
  ]
]
  where
    id : ℕ
    id = v.meta.matrix_id

    counted :
        (u : Scratch)
        → took_all (entry_queries v) (opened v s) ≡ u
        → length u.query_refs ≡ length s.query_refs + length (entry_queries v)
    counted u end =
        ap (λ (x : Scratch). length x.query_refs) (sym end)
        ∙ ap length (took_all-query_refs (entry_queries v) (opened v s))
        ∙ length-append s.query_refs (entry_queries v)

pub prepare_entry-ok :
    (lookup : ℕ → Option MatrixInfo) (v : EvaluateEntryView) (s : Scratch)
    → IsAnswerable lookup v
    → contains v.meta.matrix_id s.seen_matrices ≡ false
    → prepare_entry lookup v s ≡ (ok (range_of v (length s.query_refs)), closed v s)
unfolding prepare_entry
prepare_entry-ok lookup v s a unseen =
    rw
      (
        a.known,
        unseen,
        pos→==_zero v.meta.query_count a.nonempty,
        queries-ok a.matrix v.meta.matrix_id (entry_queries v) (opened v s) a.fit (
            Distinct-Fresh [] (query_ids (entry_queries v))
              (Unseen-nothing (query_ids (entry_queries v))) a.distinct),
      )
      (ap
        (λ (n : ℕ). (
          ok (
              let r : EvaluatedEntry = record {
                matrix_id = v.meta.matrix_id;
                start = length s.query_refs;
                end = n;
              } in
              r),
          closed v s,
        ))
        (ap length (took_all-query_refs (entry_queries v) (opened v s))
          ∙ length-append s.query_refs (entry_queries v)))
