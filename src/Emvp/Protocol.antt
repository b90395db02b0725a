-- ===== src/Emvp/Protocol.antt =====
-- The online part of `emvp/src/protocol.rs`: the scaling of a query's blocks, the server's answer and its
-- decoding. The const generic MODULUS is an argument. An index out of a slice panics in the source; the
-- result is none. The branch on parallel work is left out: both sides run the same loop over rows.
pub mod Sums
pub mod Lanes
pub mod Answered
pub mod Decoded
pub mod Correct
use emvp_thesis.Base.{
  ℕ, zero, suc, ◌+◌, ◌*◌, Option, none, some, String, List, [], ◌∷◌, ◌++◌, Bool, true, false, leb,
  ◌==◌, if◌then◌else◌, length, take, drop, map, get_elem?, get_range, and_then, checked_mul,
}
use emvp_thesis.Base.Action.{Result, ok, err}
use emvp_thesis.Emvp.Params.{EmvpParams, ParamsError, code_length, blocks, validate_dimensions}
use emvp_thesis.Emvp.View.{AnswerRef}
use emvp_thesis.Field.{FieldElement, add, sub, mul, from_u32}

-- The errors of other modules that are passed on are known by a code.
pub data ProtocolError : Type 0 where
  length_mismatch : String → ℕ → ℕ → ProtocolError
  dimension_overflow : ProtocolError
  prf : ℕ → ProtocolError
  code : ℕ → ProtocolError
  mask : ℕ → ProtocolError
  field : ℕ → ProtocolError
  params : ParamsError → ProtocolError
  unsupported_field : ℕ → ProtocolError
  already_encrypted : ProtocolError
  instance_mismatch : String → ℕ → ℕ → ProtocolError
  query_mismatch : String → ℕ → ℕ → ProtocolError
  capacity : ℕ → ℕ → ProtocolError

abbrev pub Checked : Type 0 → Type 0
Checked A = Result ProtocolError A

-- `?`
abbrev pub try_then : {A B : Type 0} → Checked A → (A → Checked B) → Checked B
try_then (ok a) f = f a
try_then (err e) f = err e

-- `From<ParamsError>`
abbrev pub from_params : {A : Type 0} → Result ParamsError A → Checked A
from_params (ok a) = ok a
from_params (err e) = err (params e)

-- `ok_or(ProtocolError::DimensionOverflow)`
abbrev pub or_overflow : Option ℕ → Checked ℕ
or_overflow none = err dimension_overflow
or_overflow (some n) = ok n

unfoldable pub check_len : String → ℕ → ℕ → Checked (Unit {0})
check_len name expected actual =
    if expected == actual then ok tt else err (length_mismatch name expected actual)

-- Owned artifacts; the dense matrix of an encrypted matrix is written out.
pub record EncryptedMatrix : Type 0 where
  pub rows : ℕ
  pub columns : ℕ
  pub values : List FieldElement
  pub instance_id : ℕ

pub record EncryptedQuery : Type 0 where
  pub values : List FieldElement
  pub instance_id : ℕ
  pub query_id : ℕ

pub record DecodingKey : Type 0 where
  pub p_prime : List FieldElement
  pub r_prime : List FieldElement
  pub instance_id : ℕ
  pub query_id : ℕ

-- What follows the checks: a panic of the loop is none.
abbrev pub finished : {B : Type 0} → Option B → Option (Checked B)
finished none = none
finished (some b) = some (ok b)

abbrev pub checked_run : {A B : Type 0} → Checked A → (A → Option B) → Option (Checked B)
checked_run (err e) f = some (err e)
checked_run (ok a) f = finished (f a)

pub validate_matrix_shape : EmvpParams → EncryptedMatrix → Checked ℕ
validate_matrix_shape ps matrix = try_then (from_params (validate_dimensions ps)) λ dims.
    try_then (from_params (code_length ps)) λ n.
      try_then (check_len "encrypted matrix columns" n matrix.columns) λ columns.
        if matrix.rows == 0
        then err (length_mismatch "matrix rows" 1 0)
        else try_then (or_overflow (checked_mul matrix.rows n)) λ words.
          try_then (check_len "encrypted matrix values" words (length matrix.values)) λ values. ok n

pub validate_query_against_matrix : ℕ → ℕ → EncryptedQuery → Checked (Unit {0})
validate_query_against_matrix n instance_id query =
    try_then (check_len "encrypted query" n (length query.values)) λ size.
      if query.instance_id == instance_id
      then ok tt
      else err (instance_mismatch "encrypted query" instance_id query.instance_id)

-- The codeword length and the number of blocks.
pub validate_answer : EmvpParams → EncryptedMatrix → EncryptedQuery → Checked (ℕ × ℕ)
validate_answer ps matrix query = try_then (validate_matrix_shape ps matrix) λ n.
    try_then (validate_query_against_matrix n matrix.instance_id query)
      λ matched. try_then (from_params (blocks ps)) λ s. ok (n, s)

-- The rows and blocks of an answer that a key decodes.
unfoldable pub validate_decode : AnswerRef → DecodingKey → Checked (ℕ × ℕ)
validate_decode answer key =
    try_then (check_len "decoding p'" answer.blocks (length key.p_prime)) λ block_count.
      try_then (check_len "decoding r'" answer.rows (length key.r_prime)) λ row_count.
        try_then (or_overflow (checked_mul answer.rows answer.blocks)) λ expected.
          try_then (check_len "answer matrix" expected (length answer.values)) λ shape.
            if key.instance_id == answer.instance_id
            then (if key.query_id == answer.query_id
                then ok (answer.rows, answer.blocks)
                else err (query_mismatch "decoding key" answer.query_id key.query_id))
            else err (instance_mismatch "decoding key" answer.instance_id key.instance_id)

-- The four accumulators of `fill_answer_row`.
pub record LaneSums : Type 0 where
  pub lane0 : FieldElement
  pub lane1 : FieldElement
  pub lane2 : FieldElement
  pub lane3 : FieldElement

module _ (modulus : ℕ) where
  abbrev pub zero_element : FieldElement
  zero_element = from_u32 modulus 0

  abbrev pub mul_add : FieldElement → FieldElement → FieldElement → FieldElement
  mul_add sum x y = add modulus sum (mul modulus x y)

  -- `matrix_block.chunks_exact(4).zip(query_block.chunks_exact(4))`
  pub add_quads : LaneSums → List FieldElement → List FieldElement → LaneSums
  add_quads s (a ∷ b ∷ c ∷ d ∷ ms) (w ∷ x ∷ y ∷ z ∷ qs) =
      add_quads
        (record {
          lane0 = mul_add s.lane0 a w;
          lane1 = mul_add s.lane1 b x;
          lane2 = mul_add s.lane2 c y;
          lane3 = mul_add s.lane3 d z;
        })
        ms qs
  add_quads s _ _ = s

  -- `chunks_exact(4).remainder()`
  pub remainder : List FieldElement → List FieldElement
  remainder (a ∷ b ∷ c ∷ d ∷ xs) = remainder xs
  remainder xs = xs

  -- `for (&matrix, &query) in matrix_tail.iter().zip(query_tail)`, into the first lane.
  pub add_tail : FieldElement → List FieldElement → List FieldElement → FieldElement
  add_tail sum (m ∷ ms) (q ∷ qs) = add_tail (mul_add sum m q) ms qs
  add_tail sum _ _ = sum

  -- `sums.into_iter().fold(zero, …)`
  abbrev pub fold_lanes : FieldElement → FieldElement → FieldElement → FieldElement → FieldElement
  fold_lanes a b c d = add modulus (add modulus (add modulus (add modulus zero_element a) b) c) d

  pub block_product : List FieldElement → List FieldElement → FieldElement
  block_product ms qs =
      let sums =
        add_quads
          (record {
            lane0 = zero_element;
            lane1 = zero_element;
            lane2 = zero_element;
            lane3 = zero_element;
          })
          ms qs in
      fold_lanes (add_tail sums.lane0 (remainder ms) (remainder qs)) sums.lane1 sums.lane2
        sums.lane3

  -- `fill_answer_row` from a block on, by the slots left.
  pub fill_answer_row :
      List FieldElement → List FieldElement → ℕ → ℕ → ℕ → Option (List FieldElement)
  fill_answer_row matrix_row query block_len block zero = some []
  fill_answer_row matrix_row query block_len block (suc slots) =
      and_then (get_range matrix_row (block * block_len) (block * block_len + block_len)) λ ms.
        and_then (get_range query (block * block_len) (block * block_len + block_len)) λ qs.
          and_then (fill_answer_row matrix_row query block_len (block + 1) slots)
            λ rest. some (block_product ms qs ∷ rest)

  -- `fill_answer`, by the rows left of the matrix and of the output.
  pub fill_answer :
      List FieldElement → List FieldElement → ℕ → ℕ → ℕ → ℕ → Option (List FieldElement)
  fill_answer values query n b s zero = some []
  fill_answer values query n b s (suc rows) =
      and_then (fill_answer_row (take n values) query b 0 s)
        λ row. and_then (fill_answer (drop n values) query n b s rows) λ rest. some (row ++ rest)

  -- `answer_into`: the output after the call, which is overwritten in full.
  pub answer_into :
      EmvpParams
      → EncryptedMatrix
      → EncryptedQuery
      → List FieldElement
      → Option (Checked (List FieldElement))
  answer_into ps matrix query output =
      checked_run
        (try_then (validate_answer ps matrix query) λ found.
          try_then (or_overflow (checked_mul matrix.rows found.1)) λ output_len.
            try_then (check_len "answer output" output_len (length output)) λ size. ok found)
        (λ found. fill_answer matrix.values query.values found.0 ps.b found.1 matrix.rows)

  -- The loop of `decode_row`; `index` is `row * s + block`.
  unfoldable pub decode_terms :
      List FieldElement → ℕ → List FieldElement → FieldElement → Option FieldElement
  decode_terms values index [] accumulator = some accumulator
  decode_terms values index (c ∷ cs) accumulator =
      and_then (get_elem? values index)
        λ a. decode_terms values (index + 1) cs (mul_add accumulator a c)

  unfoldable pub decode_row : List FieldElement → DecodingKey → ℕ → ℕ → Option FieldElement
  decode_row values key row s =
      and_then (decode_terms values (row * s) key.p_prime zero_element) λ accumulator.
        and_then (get_elem? key.r_prime row) λ share. some (sub modulus accumulator share)

  -- `fill_decoded` from a row on, by the slots left.
  unfoldable pub fill_decoded :
      List FieldElement → DecodingKey → ℕ → ℕ → ℕ → Option (List FieldElement)
  fill_decoded values key s row zero = some []
  fill_decoded values key s row (suc slots) =
      and_then (decode_row values key row s)
        λ y. and_then (fill_decoded values key s (row + 1) slots) λ ys. some (y ∷ ys)

  unfoldable pub decode_into :
      AnswerRef → DecodingKey → List FieldElement → Option (Checked (List FieldElement))
  decode_into answer key output =
      checked_run
        (try_then (validate_decode answer key)
          λ shape. try_then (check_len "decoding output" shape.0 (length output)) λ size. ok shape)
        (λ shape. fill_decoded answer.values key shape.1 0 (length output))

  -- The loop of `query_core` that hides each block behind its scalar, from a block on.
  pub scale_blocks : ℕ → List FieldElement → List FieldElement → Option (List FieldElement)
  scale_blocks block_len [] q_hat = some q_hat
  scale_blocks block_len (alpha ∷ alphas) q_hat = and_then (get_range q_hat 0 block_len) λ block.
      and_then (scale_blocks block_len alphas (drop block_len q_hat))
        λ rest. some (map (λ slot. mul modulus slot alpha) block ++ rest)
