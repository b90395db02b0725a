-- ===== src/Emvp/Protocol/Correct.antt =====
-- The server's answer to an encrypted query, decoded by the client's key.
use emvp_thesis.Base.{
  ℕ, ◌*◌, ◌<◌, ◌≤◌, ◌≡◌, refl, sym, ap, ◌∙◌, String, some, List, le→leb, length, All, eq→==,
  pos→==_zero, checked_mul-some, usize_max, u64_max, arith,
}
use emvp_thesis.Base.Action.{ok}
use emvp_thesis.Base.Entries.{drop-none}
use emvp_thesis.Emvp.Params.{EmvpParams, code_length, blocks}
use emvp_thesis.Emvp.Params.Dimensions.{IsSized, IsSized-validate_dimensions, blocks-IsSized}
use emvp_thesis.Emvp.Protocol.{
  finished, EncryptedMatrix, EncryptedQuery, DecodingKey, check_len, validate_matrix_shape,
  validate_query_against_matrix, validate_answer, validate_decode, answer_into, decode_into,
  scale_blocks, fill_answer, fill_decoded,
}
use emvp_thesis.Emvp.Protocol.Answered.{fill_answer-rows, length-rows}
use emvp_thesis.Emvp.Protocol.Decoded.{
  AreInverses, length-inverses, AreDecoded, scale_blocks-AreScaled, fill_decoded-AreDecoded,
}
use emvp_thesis.Emvp.View.{AnswerRef}
use emvp_thesis.Field.{FieldElement}
use emvp_thesis.Field.Arithmetic.{IsCanonical}
use emvp_thesis.Field.Reduction.{IsModulus}
use native.Mathlib.Nat.{div-eq_of_eq-mul_left, mul-le-mul_left}

-- An encrypted matrix of the shape that the parameters ask for, in memory.
pub record IsEncryption (p : ℕ) (ps : EmvpParams) (matrix : EncryptedMatrix) : Type 0 where
  pub sized : IsSized ps
  pub columns : matrix.columns ≡ ps.k * 2
  pub rows : 0 < matrix.rows
  pub shape : length matrix.values ≡ matrix.rows * (ps.k * 2)
  pub fits : matrix.rows * (ps.k * 2) ≤ u64_max
  pub canonical : All (IsCanonical p) matrix.values

-- A decoding key for the matrix that inverts the scalars of a query, one for each of its blocks.
pub record IsKey (p : ℕ) (ps : EmvpParams) (matrix : EncryptedMatrix) (alphas : List FieldElement)
    (key : DecodingKey) : Type 0 where
  pub inverses : AreInverses p alphas key.p_prime
  pub block_count : length key.p_prime * ps.b ≡ ps.k * 2
  pub share_count : length key.r_prime ≡ matrix.rows
  pub shares : All (IsCanonical p) key.r_prime
  pub instance_id : key.instance_id ≡ matrix.instance_id

check_len-ok : (name : String) (a b : ℕ) → a ≡ b → check_len name a b ≡ ok tt
unfolding check_len
check_len-ok name a b h = rw (eq→== a b h) refl

code_length-ok : (ps : EmvpParams) → IsSized ps → code_length ps ≡ ok (ps.k * 2)
unfolding code_length
code_length-ok ps u = rw (le→leb (ps.k * 2) usize_max u.length_fits) refl

blocks-ok : (ps : EmvpParams) (s : ℕ) → IsSized ps → s * ps.b ≡ ps.k * 2 → blocks ps ≡ ok s
blocks-ok ps s u whole =
    let (s', found, product) = blocks-IsSized ps u in
    found
    ∙ ap (λ (n : ℕ). ok n)
        (sym (
            div-eq_of_eq-mul_left {n = ps.b} {m = ps.k * 2} {k = s'} (omega (arith, u.block_large))
              (omega arith))
          ∙ div-eq_of_eq-mul_left {n = ps.b} {m = ps.k * 2} {k = s} (omega (arith, u.block_large))
              (sym whole))

module _ (p : ℕ) (ps : EmvpParams) (matrix : EncryptedMatrix) (u : IsEncryption p ps matrix) where
  validate_matrix_shape-ok : validate_matrix_shape ps matrix ≡ ok (ps.k * 2)
  unfolding validate_matrix_shape
  validate_matrix_shape-ok =
      rw
        (
          IsSized-validate_dimensions ps u.sized,
          code_length-ok ps u.sized,
          check_len-ok "encrypted matrix columns" (ps.k * 2) matrix.columns (sym u.columns),
          pos→==_zero matrix.rows u.rows,
          checked_mul-some matrix.rows (ps.k * 2) u.fits,
          check_len-ok "encrypted matrix values" (matrix.rows * (ps.k * 2)) (length matrix.values)
              (sym u.shape),
        )
        refl

  validate_answer-ok :
      (query : EncryptedQuery) (s : ℕ)
      → length query.values ≡ ps.k * 2
      → query.instance_id ≡ matrix.instance_id
      → s * ps.b ≡ ps.k * 2
      → validate_answer ps matrix query ≡ ok (ps.k * 2, s)
  unfolding validate_answer validate_query_against_matrix
  validate_answer-ok query s size same whole =
      rw
        (
          validate_matrix_shape-ok,
          check_len-ok "encrypted query" (ps.k * 2) (length query.values) (sym size),
          eq→== query.instance_id matrix.instance_id same,
          blocks-ok ps s u.sized whole,
        )
        refl

  -- The answer has fewer values than the matrix.
  answer_fits : (s : ℕ) → s * ps.b ≡ ps.k * 2 → matrix.rows * s ≤ u64_max
  answer_fits s whole =
      let few : s ≤ ps.k * 2 =
        omega (arith, mul-le-mul_left {m = 1} {n = ps.b} s (omega (arith, u.sized.block_large))) in
      omega (arith, u.fits, mul-le-mul_left {m = s} {n = ps.k * 2} matrix.rows few)

validate_decode-ok :
    (answer : AnswerRef) (key : DecodingKey)
    → answer.blocks ≡ length key.p_prime
    → answer.rows ≡ length key.r_prime
    → answer.rows * answer.blocks ≤ u64_max
    → length answer.values ≡ answer.rows * answer.blocks
    → key.instance_id ≡ answer.instance_id
    → key.query_id ≡ answer.query_id
    → validate_decode answer key ≡ ok (answer.rows, answer.blocks)
unfolding validate_decode
validate_decode-ok answer key blocks_eq rows_eq fits shape instance_eq query_eq =
    rw
      (
        check_len-ok "decoding p'" answer.blocks (length key.p_prime) blocks_eq,
        check_len-ok "decoding r'" answer.rows (length key.r_prime) rows_eq,
        checked_mul-some answer.rows answer.blocks fits,
        check_len-ok "answer matrix" (answer.rows * answer.blocks) (length answer.values)
            (sym shape),
        eq→== key.instance_id answer.instance_id instance_eq,
        eq→== key.query_id answer.query_id query_eq,
      )
      refl

answer_into-ok :
    (p : ℕ) (ps : EmvpParams) (matrix : EncryptedMatrix)
    → IsEncryption p ps matrix
    → (query : EncryptedQuery) (s : ℕ) (output answer : List FieldElement)
    → length query.values ≡ ps.k * 2
    → query.instance_id ≡ matrix.instance_id
    → s * ps.b ≡ ps.k * 2
    → length output ≡ matrix.rows * s
    → fill_answer p matrix.values query.values (ps.k * 2) ps.b s matrix.rows ≡ some answer
    → answer_into p ps matrix query output ≡ some (ok answer)
unfolding answer_into
answer_into-ok p ps matrix u query s output answer size same whole room ran =
    rw
      (
        validate_answer-ok p ps matrix u query s size same whole,
        checked_mul-some matrix.rows s (answer_fits p ps matrix u s whole),
        check_len-ok "answer output" (matrix.rows * s) (length output) (sym room),
      )
      (ap finished ran)

decode_into-ok :
    (p : ℕ) (answer : AnswerRef) (key : DecodingKey) (output out : List FieldElement)
    → answer.blocks ≡ length key.p_prime
    → answer.rows ≡ length key.r_prime
    → answer.rows * answer.blocks ≤ u64_max
    → length answer.values ≡ answer.rows * answer.blocks
    → key.instance_id ≡ answer.instance_id
    → key.query_id ≡ answer.query_id
    → length output ≡ answer.rows
    → fill_decoded p answer.values key answer.blocks 0 (length output) ≡ some out
    → decode_into p answer key output ≡ some (ok out)
unfolding decode_into
decode_into-ok p answer key output out blocks_eq rows_eq fits shape instance_eq query_eq room ran =
    rw
      (
        validate_decode-ok answer key blocks_eq rows_eq fits shape instance_eq query_eq,
        check_len-ok "decoding output" answer.rows (length output) (sym room),
      )
      (ap finished ran)

-- For an odd modulus p with 2 < p < 2^32, an encrypted matrix of the shape of the parameters, a query of
-- canonical elements of the code length, scalars for its blocks and a key that holds their inverses and a
-- mask share for each row, and buffers of the right sizes: scaling the query's blocks succeeds, the
-- server's `answer_into` on the scaled query succeeds, and the client's `decode_into` on the answer gives
-- for each row a value that together with its share is the inner product of the row and the query
-- modulo p.
pub decode_into-answer_into :
    (p : ℕ) (m : IsModulus p) (ps : EmvpParams) (matrix : EncryptedMatrix)
    (query alphas : List FieldElement) (key : DecodingKey) (output decoded : List FieldElement)
    → IsEncryption p ps matrix
    → IsKey p ps matrix alphas key
    → length query ≡ ps.k * 2
    → All (IsCanonical p) query
    → length output ≡ matrix.rows * length key.p_prime
    → length decoded ≡ matrix.rows
    → (scaled answer out : List FieldElement) × (scale_blocks p ps.b alphas query ≡ some scaled)
      × (answer_into p ps matrix
            (record { values = scaled; instance_id = matrix.instance_id; query_id = key.query_id })
            output
          ≡ some (ok answer))
      × (decode_into p
            (record {
              rows = matrix.rows;
              blocks = length key.p_prime;
              instance_id = matrix.instance_id;
              query_id = key.query_id;
              values = answer;
            })
            key
            decoded
          ≡ some (ok out))
      × AreDecoded p (ps.k * 2) query matrix.values key.r_prime out
decode_into-answer_into p m ps matrix query alphas key output decoded u w size hq output_size
      decoded_size =
    let s = length key.p_prime in
    let n = ps.k * 2 in
    let fits = answer_fits p ps matrix u s w.block_count in
    let (scaled, scale_eq, scaled_size, scaled_canonical, scales) =
      scale_blocks-AreScaled p m ps.b alphas key.p_prime query w.inverses hq (
        omega (
          arith,
          size,
          w.block_count,
          ap (λ k. k * ps.b) (length-inverses p alphas key.p_prime w.inverses),
        )) in
    let (answer, answer_eq, rows) =
      fill_answer-rows p m ps.b n s matrix.values scaled matrix.rows u.canonical scaled_canonical
        u.shape w.block_count (scaled_size ∙ size) in
    let (out, out_eq, products) =
      fill_decoded-AreDecoded p m n ps.b answer key alphas query scaled 0 key.r_prime matrix.values
        answer w.inverses scales hq w.block_count w.shares refl (drop-none s answer)
        (u.shape ∙ ap (λ k. k * n) (sym w.share_count)) (rw w.share_count rows) in
    (
      scaled,
      answer,
      out,
      scale_eq,
      answer_into-ok p ps matrix u _ s output answer (scaled_size ∙ size) refl w.block_count
          output_size answer_eq,
      decode_into-ok p _ key decoded out refl (sym w.share_count) fits
          (length-rows p n ps.b s scaled matrix.rows matrix.values answer rows) w.instance_id refl
          decoded_size
          (ap (fill_decoded p answer key s 0) (decoded_size ∙ sym w.share_count) ∙ out_eq),
      products,
    )
