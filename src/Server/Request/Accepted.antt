-- ===== src/Server/Request/Accepted.antt =====
-- A request that `prepare_evaluate` accepts is well formed, and a well-formed one is accepted.
use emvp_thesis.Base.{
  ℕ, ◌+◌, ◌<◌, ◌≡◌, refl, sym, ap, ◌∙◌, arith, Option, List, [], ◌∷◌, ◌++◌, append_assoc,
  append-nil, All, ◌==◌, length, length-append, map, flat_map, Bool-cases, inl, inr, pos→==_zero,
}
use emvp_thesis.Base.Fresh.{Distinct, Fresh, Fresh-Distinct, Distinct-Fresh, Unseen-nothing}
use emvp_thesis.Base.Action.{Result, ok, bind_inverse}
use emvp_thesis.Emvp.View.{EncryptedQueryRef}
use emvp_thesis.Server.Failure.{RequestFailure}
use emvp_thesis.Server.Request.{
  MatrixInfo, EvaluatedEntry, Scratch, prepare_entry, prepare_entries, prepare_evaluate,
}
use emvp_thesis.Server.Request.Entries.{
  IsAnswerable, range_of, closed, opened, prepare_entry_inverse, prepare_entry-ok,
  took_all-query_refs, took_all-seen_matrices,
}
use emvp_thesis.Wire.Evaluate.Workspace.{EvaluateEntryView, entry_queries}

abbrev pub matrix_ids : List EvaluateEntryView → List ℕ
matrix_ids vs = map (λ (v : EvaluateEntryView). v.meta.matrix_id) vs

-- A request that the server may evaluate.
pub record IsRequest (lookup : ℕ → Option MatrixInfo) (vs : List EvaluateEntryView) : Type 0 where
  pub nonempty : 0 < length vs
  pub answerable : All (IsAnswerable lookup) vs
  pub distinct : Distinct (matrix_ids vs)

-- Consecutive ranges, one for each entry.
abbrev pub ranges : ℕ → List EvaluateEntryView → List EvaluatedEntry
ranges start [] = []
ranges start (v ∷ vs) = range_of v start ∷ ranges (start + length (entry_queries v)) vs

abbrev pub all_queries_of : List EvaluateEntryView → List EncryptedQueryRef
all_queries_of vs = flat_map entry_queries vs

closed-query_refs :
    (v : EvaluateEntryView) (s : Scratch)
    → (closed v s).query_refs ≡ s.query_refs ++ entry_queries v
closed-query_refs v s = took_all-query_refs (entry_queries v) (opened v s)

closed-seen_matrices :
    (v : EvaluateEntryView) (s : Scratch)
    → (closed v s).seen_matrices ≡ v.meta.matrix_id ∷ s.seen_matrices
closed-seen_matrices v s = took_all-seen_matrices (entry_queries v) (opened v s)

closed-length :
    (v : EvaluateEntryView) (s : Scratch)
    → length (closed v s).query_refs ≡ length s.query_refs + length (entry_queries v)
closed-length v s = ap length (closed-query_refs v s) ∙ length-append s.query_refs (entry_queries v)

abbrev closed_all : List EvaluateEntryView → Scratch → Scratch
closed_all [] s = s
closed_all (v ∷ vs) s = closed_all vs (closed v s)

closed_all-query_refs :
    (vs : List EvaluateEntryView) (s : Scratch)
    → (closed_all vs s).query_refs ≡ s.query_refs ++ all_queries_of vs
closed_all-query_refs [] s = sym (append-nil s.query_refs)
closed_all-query_refs (v ∷ vs) s =
    closed_all-query_refs vs (closed v s)
    ∙ ap (λ t. t ++ all_queries_of vs) (closed-query_refs v s)
    ∙ append_assoc s.query_refs (entry_queries v) (all_queries_of vs)

entries_inverse :
    (lookup : ℕ → Option MatrixInfo) (vs : List EvaluateEntryView) (s t : Scratch)
    (es : List EvaluatedEntry)
    → prepare_entries lookup vs s ≡ (ok es, t)
    → All (IsAnswerable lookup) vs
      × Fresh s.seen_matrices (matrix_ids vs)
      × (es ≡ ranges (length s.query_refs) vs)
      × (closed_all vs s ≡ t)
unfolding prepare_entries
entries_inverse lookup [] s t es h = (tt, tt, sym (cc h), cc h)
entries_inverse lookup (v ∷ vs) s t es h =
    let (e, u, first, h1) = bind_inverse (prepare_entry lookup v) _ s h in
    let (rest, w, later, made) = bind_inverse (prepare_entries lookup vs) _ u h1 in
    let (answerable, unseen, this, end) = prepare_entry_inverse lookup v s u e first in
    let (all_answerable, fresh, those, final) =
      entries_inverse lookup vs (closed v s) w rest (rw end later) in
    (
      (answerable, all_answerable),
      (unseen, rw (closed-seen_matrices v s) at fresh),
      listed e rest es made this (those ∙ ap (λ (n : ℕ). ranges n vs) (closed-length v s)),
      final ∙ cc made,
    )
  where
    listed :
        (e : EvaluatedEntry) (rest es : List EvaluatedEntry) {w : Scratch}
        → ◌≡◌ {A = Result RequestFailure (List EvaluatedEntry) × Scratch}
            (ok (e ∷ rest), w)
            (ok es, t)
        → e ≡ range_of v (length s.query_refs)
        → rest ≡ ranges (length s.query_refs + length (entry_queries v)) vs
        → es ≡ ranges (length s.query_refs) (v ∷ vs)
    listed e rest es made this those = cc (made, this, those)

entries-ok :
    (lookup : ℕ → Option MatrixInfo) (vs : List EvaluateEntryView) (s : Scratch)
    → All (IsAnswerable lookup) vs
    → Fresh s.seen_matrices (matrix_ids vs)
    → prepare_entries lookup vs s ≡ (ok (ranges (length s.query_refs) vs), closed_all vs s)
unfolding prepare_entries
entries-ok lookup [] s h k = refl
entries-ok lookup (v ∷ vs) s (h, hs) (k, ks) =
    rw
      (
        prepare_entry-ok lookup v s h k,
        entries-ok lookup vs (closed v s) hs (rw (closed-seen_matrices v s) ks),
      )
      (ap
        (λ (n : ℕ).
          (ok (range_of v (length s.query_refs) ∷ ranges n vs), closed_all vs (closed v s)))
        (closed-length v s))

-- If `prepare_evaluate` accepts a decoded request, then the request has an entry, its entries name
-- distinct loaded matrices, and each entry declares a query, all its queries have the width and the
-- instance of its matrix, and their identifiers are distinct; the returned ranges are consecutive, one for
-- each entry, and the collected queries are those of all entries in order.
pub prepare_evaluate_sound :
    (lookup : ℕ → Option MatrixInfo) (vs : List EvaluateEntryView) (s t : Scratch)
    (es : List EvaluatedEntry)
    → prepare_evaluate lookup vs s ≡ (ok es, t)
    → IsRequest lookup vs
      × (es ≡ ranges (length s.query_refs) vs)
      × (t.query_refs ≡ s.query_refs ++ all_queries_of vs)
unfolding prepare_evaluate
prepare_evaluate_sound lookup vs s t es h = elim (Bool-cases (length vs == 0)) [
  | inl empty ↦ cc (rw empty at h)
  | inr filled ↦
      let (answerable, fresh, listed, end) =
        entries_inverse lookup vs (record s { seen_matrices = [] }) t es (rw filled at h) in
      (
        record {
          nonempty = ground arith;
          answerable = answerable;
          distinct = (Fresh-Distinct [] (matrix_ids vs) fresh).1;
        },
        listed,
        ap (λ (x : Scratch). x.query_refs) (sym end)
            ∙ closed_all-query_refs vs (record s { seen_matrices = [] }),
      )
]

-- A request with an entry, whose entries name distinct loaded matrices and have queries of their matrix's
-- width and instance with distinct identifiers, is accepted: the result is the consecutive ranges of its
-- entries, and the queries of all entries are collected in order.
pub prepare_evaluate_complete :
    (lookup : ℕ → Option MatrixInfo) (vs : List EvaluateEntryView) (s : Scratch)
    → IsRequest lookup vs
    → (t : Scratch) × (prepare_evaluate lookup vs s ≡ (ok (ranges (length s.query_refs) vs), t))
      × (t.query_refs ≡ s.query_refs ++ all_queries_of vs)
unfolding prepare_evaluate
prepare_evaluate_complete lookup vs s r = (
  closed_all vs (record s { seen_matrices = [] }),
  rw (
    pos→==_zero (length vs) r.nonempty,
    entries-ok lookup vs (record s { seen_matrices = [] }) r.answerable
        (Distinct-Fresh [] (matrix_ids vs) (Unseen-nothing (matrix_ids vs)) r.distinct),
  ),
  closed_all-query_refs vs (record s { seen_matrices = [] }),
)
