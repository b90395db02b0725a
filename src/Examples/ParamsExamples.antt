-- ===== src/Examples/ParamsExamples.antt =====
-- The theorems on the security of parameters and on their search, at a small secure code.
use emvp_thesis.Base.{◌+◌, ◌-◌, ◌*◌, ◌^◌, ◌≤◌, ◌<◌, ◌≡◌, refl, leb, max, ◌⊎◌, arith}
use emvp_thesis.Base.Action.{ok}
use emvp_thesis.Emvp.Params.{EmvpParams, rank_floor}
use emvp_thesis.Emvp.Params.Power.{scaled_pow_ge_pow2}
use emvp_thesis.Emvp.Params.Power.Exact.{scaled_pow_ge_pow2_exact}
use emvp_thesis.Emvp.Params.Search.{search, search_rank_budget}
use emvp_thesis.Emvp.Params.Search.Found.{search-IsSecure, search_finds}
use emvp_thesis.Emvp.Params.Security.{validate}
use emvp_thesis.Emvp.Params.Security.Secure.{IsSecure, validate-IsSecure}
use mathlib.Core.Logic.{◌↔◌}

-- Eight blocks of two positions, against attacks of work 2^8.
abbrev eight : EmvpParams
eight = record { k = 8; ell = 3; b = 2; lambda = 8 }

eight-IsSecure : IsSecure eight
eight-IsSecure = record {
  sized = record {
    ell_positive = omega arith;
    ell_le_rank = omega arith;
    block_large = omega arith;
    length_fits = omega arith;
    divides = refl;
  };
  scope = omega arith;
  slack = omega arith;
  rounding_fits = omega arith;
  degree = 8;
  degree_enough = omega arith;
  degree_least = omega arith;
  algebraic = omega arith;
  exclusion = omega arith;
}

validate-IsSecure_example : (validate eight ≡ ok tt) ↔ IsSecure eight
validate-IsSecure_example = validate-IsSecure eight

-- 2^7 * 2 is 2^8.
scaled_pow_ge_pow2_exact_example : scaled_pow_ge_pow2 2 7 2 8 ≡ leb (2 ^ 8) (2 * 2 ^ 7)
scaled_pow_ge_pow2_exact_example =
    scaled_pow_ge_pow2_exact 2 7 2 8 (omega arith) (omega arith) (omega arith) (omega arith)

budget_fits : max 3 (rank_floor 8) + search_rank_budget ≤ 2 ^ 64 - 1
unfolding rank_floor search_rank_budget
budget_fits = omega arith

rank_within : 8 < max 3 (rank_floor 8) + search_rank_budget
unfolding rank_floor search_rank_budget
rank_within = omega arith

search_finds_example :
    (p : EmvpParams) × (search 3 8 ≡ ok p) × ((p.k < 8) ⊎ ((p.k ≡ 8) × (2 ≤ p.b)))
search_finds_example = search_finds eight eight-IsSecure budget_fits rank_within

found : (p : EmvpParams) × (search 3 8 ≡ ok p) × ((p.k < 8) ⊎ ((p.k ≡ 8) × (2 ≤ p.b)))
found = search_finds eight eight-IsSecure budget_fits rank_within

search-IsSecure_example : IsSecure found.0 × (found.0.ell ≡ 3) × (found.0.lambda ≡ 8)
search-IsSecure_example = search-IsSecure 3 8 found.0 found.1
