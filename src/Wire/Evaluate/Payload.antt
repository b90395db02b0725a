-- ===== src/Wire/Evaluate/Payload.antt =====
-- The payload of an `Evaluate` frame as `emvp-network/src/lib.rs` documents it: two counts, a 24-byte
-- descriptor for each entry, a 24-byte descriptor for each query, and the encoded values.
use emvp_thesis.Base.{
  ℕ, ◌+◌, ◌*◌, ◌^◌, ◌<◌, ◌≡◌, refl, ap, ◌∙◌, arith, List, [], ◌∷◌, ◌++◌, length, All, flat_map, map,
  length-append, sum_by, flat_map-append, All-append,
}
use emvp_thesis.Base.Words.{to_le_bytes, length-to_le_bytes}
use emvp_thesis.Emvp.View.{EncryptedQueryRef}
use emvp_thesis.Field.{FieldElement, to_canonical_le_bytes}
use emvp_thesis.Wire.Frame.{protocol_modulus}
use emvp_thesis.Wire.Frame.Slices.{IsElement, encoded, length-encoded}
use emvp_thesis.Wire.Evaluate.{
  EvaluateEntryMeta, EvaluateQueryMeta, EvaluatePlan, EvaluateEntryInput,
  evaluate_entry_descriptor_bytes, evaluate_query_descriptor_bytes,
}

-- A query of the given width whose numbers fit their types.
pub record IsQuery (width : ℕ) (q : EncryptedQueryRef) : Type 0 where
  pub instance_fits : q.instance_id < 2 ^ 128
  pub query_fits : q.query_id < 2 ^ 64
  pub shape : length q.values ≡ width
  pub elements : All IsElement q.values

-- The width of an entry is that of its first query.
abbrev pub queries_width : List EncryptedQueryRef → ℕ
queries_width [] = 0
queries_width (q ∷ qs) = length q.values

-- An entry that the client may ask for: its queries have one width, which is not 0.
pub record IsEntry (e : EvaluateEntryInput) : Type 0 where
  pub matrix_fits : e.matrix_id < 2 ^ 64
  pub count_fits : length e.queries < 2 ^ 64
  pub width_fits : queries_width e.queries < 2 ^ 64
  pub queries : All (IsQuery (queries_width e.queries)) e.queries
  pub positive : All (λ (q : EncryptedQueryRef). 0 < length q.values) e.queries

abbrev pub entry_fields : EvaluateEntryInput → ℕ
entry_fields e = length e.queries * queries_width e.queries

abbrev pub query_count : EvaluateEntryInput → ℕ
query_count e = length e.queries

abbrev pub query_values : List EncryptedQueryRef → List FieldElement
query_values qs = flat_map (λ (q : EncryptedQueryRef). q.values) qs

pub length-query_values :
    (w : ℕ) (qs : List EncryptedQueryRef)
    → All (IsQuery w) qs
    → length (query_values qs) ≡ length qs * w
length-query_values w [] us = omega arith
length-query_values w (q ∷ qs) (u, us) =
    omega (arith, length-append q.values (query_values qs), u.shape, length-query_values w qs us)

pub query_values-IsElement :
    (w : ℕ) (qs : List EncryptedQueryRef) → All (IsQuery w) qs → All IsElement (query_values qs)
query_values-IsElement w [] us = tt
query_values-IsElement w (q ∷ qs) (u, us) =
    All-append IsElement q.values (query_values qs) u.elements (query_values-IsElement w qs us)

abbrev pub all_queries : List EvaluateEntryInput → List EncryptedQueryRef
all_queries es = flat_map (λ (e : EvaluateEntryInput). e.queries) es

pub length-all_queries :
    (es : List EvaluateEntryInput) → length (all_queries es) ≡ sum_by query_count es
length-all_queries [] = refl
length-all_queries (e ∷ es) =
    omega (arith, length-append e.queries (all_queries es), length-all_queries es)

pub record IsIdentified (q : EncryptedQueryRef) : Type 0 where
  pub instance_fits : q.instance_id < 2 ^ 128
  pub query_fits : q.query_id < 2 ^ 64

queries-IsIdentified :
    (w : ℕ) (qs : List EncryptedQueryRef) → All (IsQuery w) qs → All IsIdentified qs
queries-IsIdentified w [] us = tt
queries-IsIdentified w (q ∷ qs) (u, us) = (
  record { instance_fits = u.instance_fits; query_fits = u.query_fits },
  queries-IsIdentified w qs us,
)

pub all_queries-IsIdentified :
    (es : List EvaluateEntryInput) → All IsEntry es → All IsIdentified (all_queries es)
all_queries-IsIdentified [] us = tt
all_queries-IsIdentified (e ∷ es) (u, us) =
    All-append IsIdentified e.queries (all_queries es)
      (queries-IsIdentified (queries_width e.queries) e.queries u.queries)
      (all_queries-IsIdentified es us)

-- Descriptors before the bytes that follow them.
abbrev pub entry_descriptor : EvaluateEntryInput → List ℕ → List ℕ
entry_descriptor e tail =
    to_le_bytes 8 e.matrix_id
    ++ (to_le_bytes 8 (length e.queries) ++ (to_le_bytes 8 (queries_width e.queries) ++ tail))

abbrev pub query_descriptor : EncryptedQueryRef → List ℕ → List ℕ
query_descriptor q tail = to_le_bytes 16 q.instance_id ++ (to_le_bytes 8 q.query_id ++ tail)

abbrev pub entry_table : List EvaluateEntryInput → List ℕ → List ℕ
entry_table [] tail = tail
entry_table (e ∷ es) tail = entry_descriptor e (entry_table es tail)

abbrev pub query_table : List EncryptedQueryRef → List ℕ → List ℕ
query_table [] tail = tail
query_table (q ∷ qs) tail = query_descriptor q (query_table qs tail)

pub length-entry_table :
    (es : List EvaluateEntryInput) (tail : List ℕ)
    → length (entry_table es tail) ≡ length es * evaluate_entry_descriptor_bytes + length tail
length-entry_table [] tail = omega arith
length-entry_table (e ∷ es) tail =
    simp (length-append, length-to_le_bytes, length-entry_table es tail) (omega arith)

pub length-query_table :
    (qs : List EncryptedQueryRef) (tail : List ℕ)
    → length (query_table qs tail) ≡ length qs * evaluate_query_descriptor_bytes + length tail
length-query_table [] tail = omega arith
length-query_table (q ∷ qs) tail =
    simp (length-append, length-to_le_bytes, length-query_table qs tail) (omega arith)

-- The value region, entry by entry and query by query.
abbrev pub entry_bytes : List EncryptedQueryRef → List ℕ
entry_bytes qs = flat_map (λ (q : EncryptedQueryRef). encoded q.values) qs

abbrev pub all_values : List EvaluateEntryInput → List ℕ
all_values es = flat_map (λ (e : EvaluateEntryInput). entry_bytes e.queries) es

pub encoded-query_values :
    (qs : List EncryptedQueryRef) → encoded (query_values qs) ≡ entry_bytes qs
encoded-query_values [] = refl
encoded-query_values (q ∷ qs) =
    flat_map-append (to_canonical_le_bytes protocol_modulus) q.values (query_values qs)
    ∙ ap (λ t. encoded q.values ++ t) (encoded-query_values qs)

pub length-all_values :
    (es : List EvaluateEntryInput)
    → All IsEntry es
    → length (all_values es) ≡ sum_by entry_fields es * 4
length-all_values [] us = refl
length-all_values (e ∷ es) (u, us) = omega (
  arith,
  length-append (entry_bytes e.queries) (all_values es),
  ap length (encoded-query_values e.queries),
  length-encoded (query_values e.queries),
  length-query_values (queries_width e.queries) e.queries u.queries,
  length-all_values es us,
)

abbrev pub payload : List EvaluateEntryInput → List ℕ
payload es =
    to_le_bytes 8 (length es)
    ++ (to_le_bytes 8 (sum_by query_count es)
        ++ entry_table es (query_table (all_queries es) (all_values es)))

abbrev pub payload_len : List EvaluateEntryInput → ℕ
payload_len es =
    16
    + length es * evaluate_entry_descriptor_bytes
    + sum_by query_count es * evaluate_query_descriptor_bytes
    + sum_by entry_fields es * 4

pub length-payload :
    (es : List EvaluateEntryInput) → All IsEntry es → length (payload es) ≡ payload_len es
length-payload es us =
    simp
      (
        length-append,
        length-to_le_bytes,
        length-entry_table es,
        length-query_table (all_queries es),
        length-all_queries es,
        length-all_values es us,
      )
      (omega arith)

-- The plan: where each entry's queries and values start.
abbrev pub meta_of : ℕ → ℕ → EvaluateEntryInput → EvaluateEntryMeta
meta_of query_offset value_offset e = record {
  matrix_id = e.matrix_id;
  query_offset = query_offset;
  query_count = length e.queries;
  query_width = queries_width e.queries;
  value_offset = value_offset;
}

abbrev pub metas : ℕ → ℕ → List EvaluateEntryInput → List EvaluateEntryMeta
metas query_offset value_offset [] = []
metas query_offset value_offset (e ∷ es) =
    meta_of query_offset value_offset e
    ∷ metas (query_offset + query_count e) (value_offset + entry_fields e) es

pub length-metas :
    (query_offset value_offset : ℕ) (es : List EvaluateEntryInput)
    → length (metas query_offset value_offset es) ≡ length es
length-metas q v [] = refl
length-metas q v (e ∷ es) = omega (arith, length-metas (q + query_count e) (v + entry_fields e) es)

abbrev pub query_meta : EncryptedQueryRef → EvaluateQueryMeta
query_meta q = record { instance_id = q.instance_id; query_id = q.query_id }

abbrev pub plan_of : List EvaluateEntryInput → EvaluatePlan
plan_of es = record {
  entries = metas 0 0 es;
  queries = map query_meta (all_queries es);
  value_fields = sum_by entry_fields es;
}
