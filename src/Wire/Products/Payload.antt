-- ===== src/Wire/Products/Payload.antt =====
-- The payload of a `Products` frame as `emvp-network/src/lib.as` documents it: two counts, a 48-byte
-- descriptor for each entry, the query identifier of each answer, and the encoded values.
use emvp_thesis.Base.{
  ℕ, ◌+◌, ◌*◌, ◌^◌, ◌<◌, ◌≡◌, refl, ap, ◌∙◌, arith, List, [], ◌∷◌, ◌++◌, length, All, flat_map, map,
  length-append, sum_by, flat_map-append, All-append,
}
use emvp_thesis.Base.Words.{to_le_bytes, length-to_le_bytes}
use emvp_thesis.Emvp.View.{AnswerRef}
use emvp_thesis.Field.{FieldElement, to_canonical_le_bytes}
use emvp_thesis.Wire.Frame.{protocol_modulus}
use emvp_thesis.Wire.Frame.Slices.{IsElement, encoded, length-encoded}
use emvp_thesis.Wire.Products.{
  ProductsEntryMeta, ProductsPlan, ProductEntryInput, products_entry_descriptor_bytes,
  products_answer_descriptor_bytes,
}

abbrev pub answer_words : ProductEntryInput → ℕ
answer_words e = e.rows * e.blocks

-- An answer of the entry's shape and instance.
pub record IsAnswer (e : ProductEntryInput) (a : AnswerRef) : Type 0 where
  pub query_fits : a.query_id < 2 ^ 64
  pub same_instance : a.instance_id ≡ e.instance_id
  pub same_rows : a.rows ≡ e.rows
  pub same_blocks : a.blocks ≡ e.blocks
  pub shape : length a.values ≡ answer_words e
  pub elements : All IsElement a.values

-- An entry that the server may answer with.
pub record IsProduct (e : ProductEntryInput) : Type 0 where
  pub matrix_fits : e.matrix_id < 2 ^ 64
  pub instance_fits : e.instance_id < 2 ^ 128
  pub rows_fit : e.rows < 2 ^ 64
  pub blocks_fit : e.blocks < 2 ^ 64
  pub words_fit : answer_words e < 2 ^ 64
  pub count_fits : length e.answers < 2 ^ 64
  pub rows_positive : 0 < e.rows
  pub blocks_positive : 0 < e.blocks
  pub answers : All (IsAnswer e) e.answers

abbrev pub entry_fields : ProductEntryInput → ℕ
entry_fields e = length e.answers * answer_words e

abbrev pub answer_count : ProductEntryInput → ℕ
answer_count e = length e.answers

abbrev pub answer_values : List AnswerRef → List FieldElement
answer_values rs = flat_map (λ (a : AnswerRef). a.values) rs

pub length-answer_values :
    (e : ProductEntryInput) (rs : List AnswerRef)
    → All (IsAnswer e) rs
    → length (answer_values rs) ≡ length rs * answer_words e
length-answer_values e [] us = omega arith
length-answer_values e (a ∷ rs) (u, us) =
    omega (arith, length-append a.values (answer_values rs), u.shape, length-answer_values e rs us)

pub answer_values-IsElement :
    (e : ProductEntryInput) (rs : List AnswerRef)
    → All (IsAnswer e) rs
    → All IsElement (answer_values rs)
answer_values-IsElement e [] us = tt
answer_values-IsElement e (a ∷ rs) (u, us) =
    All-append IsElement a.values (answer_values rs) u.elements (answer_values-IsElement e rs us)

abbrev pub all_answers : List ProductEntryInput → List AnswerRef
all_answers es = flat_map (λ (e : ProductEntryInput). e.answers) es

abbrev pub answer_query_id : AnswerRef → ℕ
answer_query_id a = a.query_id

pub length-all_answers :
    (es : List ProductEntryInput) → length (all_answers es) ≡ sum_by answer_count es
length-all_answers [] = refl
length-all_answers (e ∷ es) =
    omega (arith, length-append e.answers (all_answers es), length-all_answers es)

abbrev pub HasQueryId : AnswerRef → Type 0
HasQueryId a = a.query_id < 2 ^ 64

answers-HasQueryId :
    (e : ProductEntryInput) (rs : List AnswerRef) → All (IsAnswer e) rs → All HasQueryId rs
answers-HasQueryId e [] us = tt
answers-HasQueryId e (a ∷ rs) (u, us) = (u.query_fits, answers-HasQueryId e rs us)

pub all_answers-HasQueryId :
    (es : List ProductEntryInput) → All IsProduct es → All HasQueryId (all_answers es)
all_answers-HasQueryId [] us = tt
all_answers-HasQueryId (e ∷ es) (u, us) =
    All-append HasQueryId e.answers (all_answers es) (answers-HasQueryId e e.answers u.answers)
      (all_answers-HasQueryId es us)

-- Descriptors before the bytes that follow them.
abbrev pub entry_descriptor : ProductEntryInput → List ℕ → List ℕ
entry_descriptor e tail =
    to_le_bytes 8 e.matrix_id
    ++ (to_le_bytes 16 e.instance_id
        ++ (to_le_bytes 8 e.rows
            ++ (to_le_bytes 8 e.blocks ++ (to_le_bytes 8 (length e.answers) ++ tail))))

abbrev pub entry_table : List ProductEntryInput → List ℕ → List ℕ
entry_table [] tail = tail
entry_table (e ∷ es) tail = entry_descriptor e (entry_table es tail)

abbrev pub answer_table : List AnswerRef → List ℕ → List ℕ
answer_table [] tail = tail
answer_table (a ∷ rs) tail = to_le_bytes 8 a.query_id ++ answer_table rs tail

pub length-entry_table :
    (es : List ProductEntryInput) (tail : List ℕ)
    → length (entry_table es tail) ≡ length es * products_entry_descriptor_bytes + length tail
length-entry_table [] tail = omega arith
length-entry_table (e ∷ es) tail =
    simp (length-append, length-to_le_bytes, length-entry_table es tail) (omega arith)

pub length-answer_table :
    (rs : List AnswerRef) (tail : List ℕ)
    → length (answer_table rs tail) ≡ length rs * products_answer_descriptor_bytes + length tail
length-answer_table [] tail = omega arith
length-answer_table (a ∷ rs) tail =
    simp (length-append, length-to_le_bytes, length-answer_table rs tail) (omega arith)

-- The value region, entry by entry and answer by answer.
abbrev pub entry_bytes : List AnswerRef → List ℕ
entry_bytes rs = flat_map (λ (a : AnswerRef). encoded a.values) rs

abbrev pub all_values : List ProductEntryInput → List ℕ
all_values es = flat_map (λ (e : ProductEntryInput). entry_bytes e.answers) es

pub encoded-answer_values : (rs : List AnswerRef) → encoded (answer_values rs) ≡ entry_bytes rs
encoded-answer_values [] = refl
encoded-answer_values (a ∷ rs) =
    flat_map-append (to_canonical_le_bytes protocol_modulus) a.values (answer_values rs)
    ∙ ap (λ t. encoded a.values ++ t) (encoded-answer_values rs)

pub length-all_values :
    (es : List ProductEntryInput)
    → All IsProduct es
    → length (all_values es) ≡ sum_by entry_fields es * 4
length-all_values [] us = refl
length-all_values (e ∷ es) (u, us) = omega (
  arith,
  length-append (entry_bytes e.answers) (all_values es),
  ap length (encoded-answer_values e.answers),
  length-encoded (answer_values e.answers),
  length-answer_values e e.answers u.answers,
  length-all_values es us,
)

abbrev pub payload : List ProductEntryInput → List ℕ
payload es =
    to_le_bytes 8 (length es)
    ++ (to_le_bytes 8 (sum_by answer_count es)
        ++ entry_table es (answer_table (all_answers es) (all_values es)))

abbrev pub payload_len : List ProductEntryInput → ℕ
payload_len es =
    16
    + length es * products_entry_descriptor_bytes
    + sum_by answer_count es * products_answer_descriptor_bytes
    + sum_by entry_fields es * 4

pub length-payload :
    (es : List ProductEntryInput) → All IsProduct es → length (payload es) ≡ payload_len es
length-payload es us =
    simp
      (
        length-append,
        length-to_le_bytes,
        length-entry_table es,
        length-answer_table (all_answers es),
        length-all_answers es,
        length-all_values es us,
      )
      (omega arith)

-- The plan: where each entry's answers and values start.
abbrev pub meta_of : ℕ → ℕ → ProductEntryInput → ProductsEntryMeta
meta_of answer_offset value_offset e = record {
  matrix_id = e.matrix_id;
  instance_id = e.instance_id;
  rows = e.rows;
  blocks = e.blocks;
  answer_offset = answer_offset;
  answer_count = length e.answers;
  value_offset = value_offset;
}

abbrev pub metas : ℕ → ℕ → List ProductEntryInput → List ProductsEntryMeta
metas answer_offset value_offset [] = []
metas answer_offset value_offset (e ∷ es) =
    meta_of answer_offset value_offset e
    ∷ metas (answer_offset + answer_count e) (value_offset + entry_fields e) es

pub length-metas :
    (answer_offset value_offset : ℕ) (es : List ProductEntryInput)
    → length (metas answer_offset value_offset es) ≡ length es
length-metas q v [] = refl
length-metas q v (e ∷ es) = omega (arith, length-metas (q + answer_count e) (v + entry_fields e) es)

abbrev pub plan_of : List ProductEntryInput → ProductsPlan
plan_of es = record {
  entries = metas 0 0 es;
  query_ids = map answer_query_id (all_answers es);
  value_fields = sum_by entry_fields es;
}
