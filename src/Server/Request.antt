-- ===== src/Server/Request.antt =====
-- `prepare_evaluate` of `server/src/session.rs`: the checks of a decoded evaluation request against the
-- loaded matrices. A hash set is the list of what was inserted.
pub mod Entries
pub mod Accepted
use emvp_thesis.Base.{
  ℕ, ◌+◌, Option, none, some, List, [], ◌∷◌, ◌++◌, Bool, true, false, not, ◌||◌, ◌==◌,
  if◌then◌else◌, length,
}
use emvp_thesis.Base.Fresh.{contains}
use emvp_thesis.Base.Action.{
  Action, Result, ok, err, pure, fail, ok_or, ensure, gets, modify, for_each, ◌>>=◌, ◌>>◌,
}
use emvp_thesis.Emvp.View.{EncryptedQueryRef}
use emvp_thesis.Server.Failure.{
  RequestFailure, query_width, instance_mismatch, unknown_matrix, duplicate_matrix, duplicate_query,
  empty_request,
}
use emvp_thesis.Wire.Evaluate.Workspace.{EvaluateEntryView, entry_queries}

pub record MatrixInfo : Type 0 where
  pub instance_id : ℕ
  pub width : ℕ

-- The entry's queries are those from `start` up to `end` of the collected ones.
pub record EvaluatedEntry : Type 0 where
  pub matrix_id : ℕ
  pub start : ℕ
  pub end : ℕ

-- The sets of a session that are reused between requests, and the collected queries.
pub record Scratch : Type 0 where
  pub seen_matrices : List ℕ
  pub seen_queries : List ℕ
  pub query_refs : List EncryptedQueryRef

-- One round of the loop over an entry's queries.
unfoldable pub check_query :
    MatrixInfo → ℕ → EncryptedQueryRef → Action Scratch RequestFailure (Unit {0})
check_query matrix matrix_id query = do
  ensure (length query.values == matrix.width) (query_width matrix.width (length query.values))
  ensure (query.instance_id == matrix.instance_id)
      (instance_mismatch matrix.instance_id query.instance_id)
  seen ← gets (λ (s : Scratch). s.seen_queries)
  ensure (not (contains query.query_id seen)) (duplicate_query matrix_id query.query_id)
  modify (λ s. record s {
    seen_queries = query.query_id ∷ s.seen_queries;
    query_refs = s.query_refs ++ (query ∷ []);
  })

-- One round of the loop over the entries.
unfoldable pub prepare_entry :
    (ℕ → Option MatrixInfo) → EvaluateEntryView → Action Scratch RequestFailure EvaluatedEntry
prepare_entry lookup entry = do
  matrix ← ok_or (unknown_matrix entry.meta.matrix_id) (lookup entry.meta.matrix_id)
  seen ← gets (λ (s : Scratch). s.seen_matrices)
  ensure (not (contains entry.meta.matrix_id seen)) (duplicate_matrix entry.meta.matrix_id)
  modify (λ s. record s { seen_matrices = entry.meta.matrix_id ∷ s.seen_matrices })
  ensure (not (entry.meta.query_count == 0)) empty_request
  modify (λ s. record s { seen_queries = [] })
  start ← gets (λ (s : Scratch). length s.query_refs)
  for_each (check_query matrix entry.meta.matrix_id) (entry_queries entry)
  end ← gets (λ (s : Scratch). length s.query_refs)
  pure (record { matrix_id = entry.meta.matrix_id; start = start; end = end })

unfoldable pub prepare_entries :
    (ℕ → Option MatrixInfo)
    → List EvaluateEntryView
    → Action Scratch RequestFailure (List EvaluatedEntry)
prepare_entries lookup [] = pure []
prepare_entries lookup (entry ∷ entries) = do
  evaluated ← prepare_entry lookup entry
  rest ← prepare_entries lookup entries
  pure (evaluated ∷ rest)

unfoldable pub prepare_evaluate :
    (ℕ → Option MatrixInfo)
    → List EvaluateEntryView
    → Action Scratch RequestFailure (List EvaluatedEntry)
prepare_evaluate lookup entries = do
  ensure (not (length entries == 0)) empty_request
  modify (λ s. record s { seen_matrices = [] })
  prepare_entries lookup entries
