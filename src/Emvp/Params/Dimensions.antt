-- ===== src/Emvp/Params/Dimensions.antt =====
-- What `validate_dimensions` accepts.
use mathlib.Core.Logic.{◌↔◌}
use emvp_thesis.Base.{ℕ, ◌*◌, ◌/◌, ◌%◌, ◌≤◌, ◌<◌, ◌≡◌, arith, usize_max}
use emvp_thesis.Base.Action.{ok}
use emvp_thesis.Emvp.Params.{EmvpParams, code_length, blocks, validate_dimensions}
use native.Mathlib.Nat.{div-add-mod}

-- Dimensions that the protocol can work with.
pub record IsSized (p : EmvpParams) : Type 0 where
  pub ell_positive : 0 < p.ell
  pub ell_le_rank : p.ell ≤ p.k
  pub block_large : 2 ≤ p.b
  pub length_fits : p.k * 2 ≤ usize_max
  pub divides : (p.k * 2) % p.b ≡ 0

-- If `validate_dimensions` accepts parameters, then the record length is positive and at most the rank, a
-- block has at least two positions, and the block size divides the code length 2k, which fits 64 bits.
pub validate_dimensions-IsSized : (p : EmvpParams) → validate_dimensions p ≡ ok tt → IsSized p
unfolding validate_dimensions code_length
validate_dimensions-IsSized p h = record {
  ell_positive = ground arith;
  ell_le_rank = ground arith;
  block_large = ground arith;
  length_fits = ground arith;
  divides = ground arith;
}

-- Parameters whose record length is positive and at most the rank, whose blocks have at least two
-- positions and whose block size divides a code length 2k that fits 64 bits are accepted.
pub IsSized-validate_dimensions : (p : EmvpParams) → IsSized p → validate_dimensions p ≡ ok tt
unfolding validate_dimensions code_length
IsSized-validate_dimensions p u =
    ground (arith, u.ell_positive, u.ell_le_rank, u.block_large, u.length_fits, u.divides)

-- For all parameters, `validate_dimensions` succeeds exactly when the record of conditions `IsSized` holds:
-- ell is positive and at most the rank, b is at least 2, the code length fits a usize, and b divides it.
pub validate_dimensions_exact : (p : EmvpParams) → (validate_dimensions p ≡ ok tt) ↔ IsSized p
validate_dimensions_exact p = (validate_dimensions-IsSized p, IsSized-validate_dimensions p)

-- For parameters of such dimensions `blocks` succeeds, and block size times the number of blocks is the
-- code length 2k.
pub blocks-IsSized :
    (p : EmvpParams) → IsSized p → (s : ℕ) × (blocks p ≡ ok s) × (p.b * s ≡ p.k * 2)
unfolding blocks code_length
blocks-IsSized p u = (
  p.k * 2 / p.b,
  ground (arith, u.block_large, u.length_fits, u.divides),
  omega (arith, div-add-mod (p.k * 2) p.b, u.divides),
)
