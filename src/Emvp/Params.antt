-- ===== src/Emvp/Params.antt =====
-- `emvp/src/params.rs`: the parameters of a protocol instance.
pub mod Dimensions
pub mod Power
pub mod Security
pub mod Search
use emvp_thesis.Base.{ℕ, ◌+◌, ◌*◌, ◌/◌, ◌%◌, ltb, leb, ◌==◌, if◌then◌else◌, usize_max}
use emvp_thesis.Base.Action.{Result, ok, err}

pub record EmvpParams : Type 0 where
  pub k : ℕ
  pub ell : ℕ
  pub b : ℕ
  pub lambda : ℕ

pub data ParamsError : Type 0 where
  zero_ell : ParamsError
  lambda_out_of_scope : ℕ → ParamsError
  ell_exceeds_rank : ℕ → ℕ → ParamsError
  rank_below_security_floor : ℕ → ℕ → ParamsError
  block_too_small : ℕ → ParamsError
  block_does_not_divide_length : ℕ → ℕ → ParamsError
  insecure_against_algebraic_attack : ℕ → ℕ → ℕ → ℕ → ParamsError
  insecure_against_inclusion_exclusion : ℕ → ℕ → ℕ → ℕ → ParamsError
  search_exhausted : ℕ → ParamsError
  dimension_overflow : ParamsError

-- `?` on a result.
abbrev pub or_else_fail :
    {A B : Type 0} → Result ParamsError A → (A → Result ParamsError B) → Result ParamsError B
or_else_fail (ok a) f = f a
or_else_fail (err e) f = err e

-- `EmvpParams::n`
unfoldable pub code_length : EmvpParams → Result ParamsError ℕ
code_length p = if leb (p.k * 2) usize_max then ok (p.k * 2) else err dimension_overflow

-- `EmvpParams::blocks`; `is_multiple_of` of a divisor that is not 0.
unfoldable pub blocks : EmvpParams → Result ParamsError ℕ
blocks p =
    if ltb p.b 2
    then err (block_too_small p.b)
    else or_else_fail (code_length p)
        λ n. if n % p.b == 0 then ok (n / p.b) else err (block_does_not_divide_length p.b n)

unfoldable pub validate_dimensions : EmvpParams → Result ParamsError (Unit {0})
validate_dimensions p =
    if p.ell == 0
    then err zero_ell
    else if ltb p.k p.ell
    then err (ell_exceeds_rank p.ell p.k)
    else if ltb p.b 2
    then err (block_too_small p.b)
    else or_else_fail (code_length p)
        λ n. if n % p.b == 0 then ok tt else err (block_does_not_divide_length p.b n)

-- `EmvpParams::rank_floor`
unfoldable pub rank_floor : ℕ → ℕ
rank_floor lambda = (lambda + 3) / 4
