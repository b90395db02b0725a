-- ===== src/Emvp/Params/Security.antt =====
-- `EmvpParams::validate` of `emvp/src/params.rs`: the constraints that keep the known attacks above the
-- target work.
pub mod Secure
use emvp_thesis.Base.{
  ℕ, ◌+◌, ◌-◌, ◌*◌, ◌/◌, ◌^◌, min, Option, none, some, ltb, leb, if◌then◌else◌, not, checked_add,
  and_then,
}
use emvp_thesis.Base.Action.{Result, ok, err}
use emvp_thesis.Emvp.Params.{
  EmvpParams, ParamsError, lambda_out_of_scope, rank_below_security_floor,
  insecure_against_algebraic_attack, insecure_against_inclusion_exclusion, dimension_overflow,
  or_else_fail, code_length, validate_dimensions, rank_floor,
}
use emvp_thesis.Emvp.Params.Power.{scaled_pow_ge_pow2}

-- PROTOCOL_MAX_LAMBDA
abbrev pub protocol_max_lambda : ℕ
protocol_max_lambda = 128

-- `checked_add` and `checked_mul` of u128.
abbrev pub u128_max : ℕ
u128_max = 2 ^ 128 - 1

abbrev pub checked_add128 : ℕ → ℕ → Option ℕ
checked_add128 a b = if leb (a + b) u128_max then some (a + b) else none

abbrev pub checked_mul128 : ℕ → ℕ → Option ℕ
checked_mul128 a b = if leb (a * b) u128_max then some (a * b) else none

-- `ok_or(ParamsError::DimensionOverflow)`
abbrev pub or_overflow : Option ℕ → Result ParamsError ℕ
or_overflow none = err dimension_overflow
or_overflow (some n) = ok n

-- d = ceil(k / (b - 1))
pub attack_degree : EmvpParams → Result ParamsError ℕ
attack_degree p =
    or_else_fail (or_overflow (checked_add p.k (p.b - 1 - 1))) λ sum. ok (sum / (p.b - 1))

-- (n / b + 1) * k > n + lambda
pub check_inclusion_exclusion : EmvpParams → ℕ → Result ParamsError (Unit {0})
check_inclusion_exclusion p n =
    or_else_fail
      (or_overflow
        (and_then (checked_mul128 (n / p.b) p.k) (λ product. checked_add128 product p.k)))
      λ left. or_else_fail (or_overflow (checked_add128 n p.lambda)) λ right.
        if leb left right
        then err (insecure_against_inclusion_exclusion n p.k p.b p.lambda)
        else ok tt

pub check_attacks : EmvpParams → ℕ → Result ParamsError (Unit {0})
check_attacks p n = or_else_fail (attack_degree p) λ d.
    if not (scaled_pow_ge_pow2 p.b (d - 1) (min p.b d) p.lambda)
    then err (insecure_against_algebraic_attack p.k p.b d p.lambda)
    else check_inclusion_exclusion p n

pub validate : EmvpParams → Result ParamsError (Unit {0})
validate p =
    if ltb protocol_max_lambda p.lambda
    then err (lambda_out_of_scope p.lambda)
    else or_else_fail (validate_dimensions p) λ checked.
      if ltb p.k (rank_floor p.lambda)
      then err (rank_below_security_floor p.k p.lambda)
      else or_else_fail (code_length p) λ n. check_attacks p n
