-- ===== src/Emvp/Params/Search.antt =====
-- `search` of `emvp/src/params.rs`: the smallest rank with a feasible block size, and the largest such
-- block size.
pub mod Divisors
pub mod Descending
pub mod Found
use emvp_thesis.Base.{
  ℕ, zero, suc, ◌+◌, ◌*◌, ◌/◌, ◌%◌, max, Option, none, some, List, [], ◌∷◌, ◌++◌, Bool, true, false,
  ltb, leb, ◌==◌, ◌&&◌, if◌then◌else◌, checked_add, checked_mul,
}
use emvp_thesis.Base.Action.{Result, ok, err}
use emvp_thesis.Emvp.Params.{
  EmvpParams, ParamsError, zero_ell, lambda_out_of_scope, search_exhausted, dimension_overflow,
  rank_floor,
}
use emvp_thesis.Emvp.Params.Security.{protocol_max_lambda, validate}

-- SEARCH_RANK_BUDGET
unfoldable pub search_rank_budget : ℕ
search_rank_budget = 10_000_000

-- `divisor.checked_mul(divisor).is_some_and(|square| square <= n)`
pub square_fits : ℕ → ℕ → Bool
square_fits n divisor = elim (checked_mul divisor divisor) [
  | none ↦ false
  | some square ↦ leb square n
]

-- What one round of the loop pushes.
pub pushed : ℕ → ℕ → List ℕ
pushed n divisor =
    if n % divisor == 0
    then (if divisor == n / divisor then divisor ∷ [] else divisor ∷ (n / divisor) ∷ [])
    else []

-- The loop from a divisor on: what it pushes, in order.
pub divisors_from : ℕ → ℕ → ℕ → List ℕ
divisors_from zero n divisor = []
divisors_from (suc rounds) n divisor = elim (square_fits n divisor) [
  | true ↦ pushed n divisor ++ divisors_from rounds n (divisor + 1)
  | false ↦ []
]

-- `sort_unstable` and `iter().rev()`
pub insert_descending : ℕ → List ℕ → List ℕ
insert_descending x [] = x ∷ []
insert_descending x (y ∷ ys) = if leb y x then x ∷ y ∷ ys else y ∷ insert_descending x ys

pub sort_descending : List ℕ → List ℕ
sort_descending [] = []
sort_descending (x ∷ xs) = insert_descending x (sort_descending xs)

abbrev pub is_ok : {E A : Type 0} → Result E A → Bool
is_ok (ok a) = true
is_ok (err e) = false

-- The loop over the block sizes of one rank.
pub first_feasible : ℕ → ℕ → ℕ → List ℕ → Option EmvpParams
first_feasible k ell lambda [] = none
first_feasible k ell lambda (b ∷ bs) =
    let params : EmvpParams = record { k = k; ell = ell; b = b; lambda = lambda } in
    elim (leb 2 b && is_ok (validate params)) [
      | true ↦ some params
      | false ↦ first_feasible k ell lambda bs
    ]

-- One rank: its divisors, from the largest. A loop over the divisors of n stops after n rounds at most.
pub feasible_at : ℕ → ℕ → ℕ → ℕ → Option EmvpParams
feasible_at k ell lambda n = first_feasible k ell lambda (sort_descending (divisors_from n n 1))

-- The loop over the ranks, by the ranks left.
pub search_ranks : ℕ → ℕ → ℕ → ℕ → ℕ → Result ParamsError EmvpParams
search_ranks zero k ell lambda floor = err (search_exhausted floor)
search_ranks (suc ranks) k ell lambda floor = elim (checked_mul k 2) [
  | none ↦ err dimension_overflow
  | some n ↦ elim (feasible_at k ell lambda n) [
    | some params ↦ ok params
    | none ↦ search_ranks ranks (k + 1) ell lambda floor
  ]
]

-- The scan from the floor, whose end must fit usize.
abbrev pub search_from : ℕ → ℕ → ℕ → Result ParamsError EmvpParams
search_from floor ell lambda = elim (checked_add floor search_rank_budget) [
  | none ↦ err dimension_overflow
  | some last ↦ search_ranks search_rank_budget floor ell lambda floor
]

pub search : ℕ → ℕ → Result ParamsError EmvpParams
search ell lambda =
    if ell == 0
    then err zero_ell
    else if ltb protocol_max_lambda lambda
    then err (lambda_out_of_scope lambda)
    else search_from (max ell (rank_floor lambda)) ell lambda
