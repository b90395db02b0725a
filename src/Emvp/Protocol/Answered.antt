-- ===== src/Emvp/Protocol/Answered.antt =====
-- What `fill_answer` writes: row by row, the inner products of the blocks of a row with those of the query.
use emvp_thesis.Base.{
  ℕ, zero, suc, ◌+◌, ◌*◌, ◌%◌, ◌≤◌, ◌≡◌, refl, sym, ap, ◌∙◌, some, List, [], ◌∷◌, ◌++◌, length,
  take, drop, All, All-take, All-drop, length-take, length-drop, length-append, arith,
}
use emvp_thesis.Base.Entries.{drop-drop, drop-none, get_range-block}
use emvp_thesis.Emvp.Protocol.{block_product, fill_answer_row, fill_answer}
use emvp_thesis.Emvp.Protocol.Lanes.{block_product-dot}
use emvp_thesis.Emvp.Protocol.Sums.{dot}
use emvp_thesis.Field.{FieldElement, value}
use emvp_thesis.Field.Arithmetic.{IsCanonical}
use emvp_thesis.Field.Reduction.{IsModulus}

-- The slots of one row, from a block on.
abbrev pub AreSlots : ℕ → ℕ → List FieldElement → List FieldElement → List FieldElement → Type 0
AreSlots p b row query [] = Unit
AreSlots p b row query (x ∷ xs) =
    (value p x % p ≡ dot p (take b row) (take b query) % p)
    × AreSlots p b (drop b row) (drop b query) xs

pub record IsAnswerRow (p b s : ℕ) (row query slots : List FieldElement) : Type 0 where
  pub size : length slots ≡ s
  pub canonical : All (IsCanonical p) slots
  pub products : AreSlots p b row query slots

abbrev pub AreRows :
    ℕ → ℕ → ℕ → ℕ → List FieldElement → ℕ → List FieldElement → List FieldElement → Type 0
AreRows p n b s query zero values out = out ≡ []
AreRows p n b s query (suc rows) values out =
    (slots : List FieldElement) × (rest : List FieldElement) × (out ≡ slots ++ rest)
    × IsAnswerRow p b s (take n values) query slots
    × AreRows p n b s query rows (drop n values) rest

pub length-rows :
    (p n b s : ℕ) (query : List FieldElement) (rows : ℕ) (values out : List FieldElement)
    → AreRows p n b s query rows values out
    → length out ≡ rows * s
length-rows p n b s query zero values out h = ap length h ∙ omega arith
length-rows p n b s query (suc rows) values out h =
    let r = length-rows p n b s query rows (drop n values) h.1 h.4 in
    ap length h.2 ∙ omega (arith, length-append h.0 h.1, h.3.size, r)

module _ (p : ℕ) (m : IsModulus p) (b : ℕ) where
  next_block :
      (block : ℕ) (xs : List FieldElement)
      → drop ((block + 1) * b) xs ≡ drop b (drop (block * b) xs)
  next_block block xs =
      let e : (block + 1) * b ≡ block * b + b = omega arith in
      ap (λ k. drop k xs) e ∙ sym (drop-drop (block * b) b xs)

  fill_answer_row-slots :
      (row query : List FieldElement) (block slots : ℕ)
      → All (IsCanonical p) row
      → All (IsCanonical p) query
      → block * b + slots * b ≤ length row
      → block * b + slots * b ≤ length query
      → (xs : List FieldElement) × (fill_answer_row p row query b block slots ≡ some xs)
        × IsAnswerRow p b slots (drop (block * b) row) (drop (block * b) query) xs
  unfolding fill_answer_row
  fill_answer_row-slots row query block zero hr hq fr fq =
      ([], refl, record { size = refl; canonical = tt; products = tt })
  fill_answer_row-slots row query block (suc slots) hr hq fr fq =
      let r = fill_answer_row-slots row query (block + 1) slots hr hq (omega arith) (omega arith) in
      let ms = take b (drop (block * b) row) in
      let qs = take b (drop (block * b) query) in
      let one =
        block_product-dot p m ms qs
          (All-take (IsCanonical p) b _ (All-drop (IsCanonical p) (block * b) row hr))
          (All-take (IsCanonical p) b _ (All-drop (IsCanonical p) (block * b) query hq))
          (omega (
            arith,
            length-take b (drop (block * b) row),
            length-take b (drop (block * b) query),
            length-drop (block * b) row,
            length-drop (block * b) query,
          )) in
      (
        block_product p ms qs ∷ r.0,
        rw
            (
              get_range-block row (block * b) b (omega arith),
              get_range-block query (block * b) b (omega arith),
              r.1,
            )
            refl,
        record {
          size = ap suc r.2.size;
          canonical = (one.0, r.2.canonical);
          products = (one.1, rw (← next_block block row, ← next_block block query) r.2.products);
        },
      )

  -- A whole row.
  whole_row :
      (row query : List FieldElement) (slots : ℕ)
      → All (IsCanonical p) row
      → All (IsCanonical p) query
      → slots * b ≤ length row
      → slots * b ≤ length query
      → (xs : List FieldElement) × (fill_answer_row p row query b 0 slots ≡ some xs)
        × IsAnswerRow p b slots row query xs
  whole_row row query slots hr hq fr fq =
      let r = fill_answer_row-slots row query 0 slots hr hq (omega arith) (omega arith) in
      (r.0, r.1, rw (drop-none b row, drop-none b query) at r.2)

  pub fill_answer-rows :
      (n s : ℕ) (values query : List FieldElement) (rows : ℕ)
      → All (IsCanonical p) values
      → All (IsCanonical p) query
      → length values ≡ rows * n
      → s * b ≡ n
      → length query ≡ n
      → (out : List FieldElement) × (fill_answer p values query n b s rows ≡ some out)
        × AreRows p n b s query rows values out
  unfolding fill_answer
  fill_answer-rows n s values query zero hv hq size whole fits = ([], refl, refl)
  fill_answer-rows n s values query (suc rows) hv hq size whole fits =
      let row =
        whole_row (take n values) query s (All-take (IsCanonical p) n values hv) hq
          (omega (arith, length-take n values)) (omega arith) in
      let r =
        fill_answer-rows n s (drop n values) query rows (All-drop (IsCanonical p) n values hv) hq
          (omega (arith, length-drop n values)) whole fits in
      (row.0 ++ r.0, rw (row.1, r.1) refl, (row.0, r.0, refl, row.2, r.2))
