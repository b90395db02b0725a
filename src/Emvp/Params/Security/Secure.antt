-- ===== src/Emvp/Params/Security/Secure.antt =====
-- What `validate` accepts: the constraints of the protocol, stated without the code's order of tests,
-- its checked arithmetic and its big integers.
use emvp_thesis.Base.{
  ℕ, zero, suc, ◌+◌, ◌-◌, ◌*◌, ◌/◌, ◌^◌, ◌<◌, ◌≤◌, ◌≡◌, refl, ap, sym, ◌∙◌, min, Bool, true, false,
  ltb, leb, not, if◌then◌else◌, arith, inl, inr, zero_cases, le→leb, leb→le, le→ltb, u64_max,
  usize_max, checked_add, checked_add-some, checked_add_value, Option-cases, lt→leb, leb_false→lt,
}
use emvp_thesis.Base.Action.{Result, ok, err}
use emvp_thesis.Emvp.Params.{
  EmvpParams, ParamsError, insecure_against_inclusion_exclusion, or_else_fail, code_length,
  validate_dimensions, rank_floor,
}
use emvp_thesis.Emvp.Params.Dimensions.{
  IsSized, validate_dimensions-IsSized, IsSized-validate_dimensions,
}
use emvp_thesis.Emvp.Params.Power.{scaled_pow_ge_pow2}
use emvp_thesis.Emvp.Params.Power.Exact.{scaled_pow_ge_pow2_exact, scaled_pow_ge_pow2_zero}
use emvp_thesis.Emvp.Params.Security.{
  protocol_max_lambda, u128_max, attack_degree, check_inclusion_exclusion, check_attacks, validate,
}
use mathlib.Core.Logic.{◌↔◌}
use native.Mathlib.Nat.{
  div-add-mod, mod-lt, div-eq_of_lt-le, div-le_self, mul-le-mul, mul-le-mul_left, one-le-pow,
}

pub record IsSecure (p : EmvpParams) : Type 0 where
  pub sized : IsSized p
  pub scope : p.lambda ≤ protocol_max_lambda
  pub slack : p.lambda ≤ 4 * p.k
  -- The sum that rounds the degree up fits 64 bits.
  pub rounding_fits : p.k + (p.b - 2) ≤ u64_max
  -- The attack's degree is the least whose product with b - 1 reaches k.
  pub degree : ℕ
  pub degree_enough : p.k ≤ (p.b - 1) * degree
  pub degree_least : (p.b - 1) * (degree - 1) < p.k
  pub algebraic : 2 ^ p.lambda ≤ min p.b degree * p.b ^ (degree - 1)
  pub exclusion : p.k * 2 + p.lambda < (p.k * 2 / p.b + 1) * p.k

pred_mul : (m d : ℕ) → 0 < d → m * (d - 1) + m ≡ m * d
pred_mul m zero h = elim h [ ]
pred_mul m (suc d) h = ap (λ (t : ℕ). m * t + m) {x = suc d - 1} {y = d} (omega arith) ∙ omega arith

-- Division that rounds up.
ceiling :
    (k m : ℕ) → 0 < k → 0 < m → (k ≤ m * ((k + (m - 1)) / m)) × (m * ((k + (m - 1)) / m - 1) < k)
ceiling k m hk hm = elim (zero_cases ((k + (m - 1)) / m)) [
  | inl none ↦ absurd (
      omega
        (arith, div-add-mod (k + (m - 1)) m, mod-lt (k + (m - 1)) hm, ap (λ (t : ℕ). m * t) none))
  | inr some ↦ (
    omega (arith, div-add-mod (k + (m - 1)) m, mod-lt (k + (m - 1)) hm),
    omega (arith, div-add-mod (k + (m - 1)) m, pred_mul m _ some),
  )
]

ceiling_unique : (k m d : ℕ) → 0 < m → 0 < k → k ≤ m * d → m * (d - 1) < k → (k + (m - 1)) / m ≡ d
ceiling_unique k m d hm hk enough least = elim (zero_cases d) [
  | inl none ↦ absurd (omega (arith, ap (λ (t : ℕ). m * t) none))
  | inr some ↦
      div-eq_of_lt-le {k = d} m {m = k + (m - 1)} (omega (arith, pred_mul m d some))
        (omega (arith, pred_mul m d some))
]

module _ (p : EmvpParams) (sized : IsSized p) where
  block_fits : p.b < 2 ^ 64
  block_fits = elim (zero_cases (p.k * 2 / p.b)) [
    | inl none ↦ absurd (
        omega (
          arith,
          sized.ell_positive,
          sized.ell_le_rank,
          div-add-mod (p.k * 2) p.b,
          sized.divides,
          ap (λ (t : ℕ). p.b * t) none,
        ))
    | inr some ↦ omega (
      arith,
      div-add-mod (p.k * 2) p.b,
      sized.length_fits,
      mul-le-mul_left {m = 1} {n = p.k * 2 / p.b} p.b some,
    )
  ]

  left_fits : p.k * 2 / p.b * p.k + p.k ≤ u128_max
  left_fits = omega (
    arith,
    sized.length_fits,
    mul-le-mul {n₁ = p.k * 2 / p.b} {m₁ = p.k} {n₂ = 2 ^ 64 - 1} {m₂ = 2 ^ 63}
        (omega (arith, sized.length_fits, div-le_self (p.k * 2) p.b))
        (omega (arith, sized.length_fits)),
  )

  -- The checked sums of the code cannot fail, and what is left is the comparison.
  exclusion_checked :
      p.lambda ≤ protocol_max_lambda
      → check_inclusion_exclusion p (p.k * 2) ≡ (
          if leb (p.k * 2 / p.b * p.k + p.k) (p.k * 2 + p.lambda)
          then err (insecure_against_inclusion_exclusion (p.k * 2) p.k p.b p.lambda)
          else ok tt)
  unfolding check_inclusion_exclusion
  exclusion_checked scope =
      rw
        (
          le→leb (p.k * 2 / p.b * p.k) u128_max (omega (arith, left_fits)),
          le→leb (p.k * 2 / p.b * p.k + p.k) u128_max left_fits,
          le→leb (p.k * 2 + p.lambda) u128_max (omega (arith, sized.length_fits)),
        )
        refl

  -- The comparison of the attack's cost is the one of natural numbers.
  cost_compared :
      (d : ℕ)
      → 0 < d
      → p.lambda ≤ protocol_max_lambda
      → scaled_pow_ge_pow2 p.b (d - 1) (min p.b d) p.lambda
        ≡ leb (2 ^ p.lambda) (min p.b d * p.b ^ (d - 1))
  cost_compared d some scope = elim (zero_cases p.lambda) [
    | inl none ↦ rw none (
        scaled_pow_ge_pow2_zero p.b (d - 1) (min p.b d)
        ∙ sym (
            le→leb (2 ^ 0) (min p.b d * p.b ^ (d - 1)) (
              omega (
                arith,
                mul-le-mul {n₁ = 1} {m₁ = 1} {n₂ = min p.b d} {m₂ = p.b ^ (d - 1)}
                    (omega (arith, sized.block_large))
                    (one-le-pow (d - 1) p.b (omega (arith, sized.block_large))),
              ))))
    | inr positive ↦
        scaled_pow_ge_pow2_exact p.b (d - 1) (min p.b d) p.lambda block_fits
          (omega (arith, block_fits)) positive (omega arith)
  ]

  attack_degree_value :
      p.k + (p.b - 2) ≤ u64_max → attack_degree p ≡ ok ((p.k + (p.b - 1 - 1)) / (p.b - 1))
  unfolding attack_degree
  attack_degree_value fits = rw (checked_add-some p.k (p.b - 1 - 1) (omega arith)) refl

pub if_inverse :
    {A : Type 0} (test : Bool) (e : ParamsError) (r : Result ParamsError A) {b : A}
    → (if test then err e else r) ≡ ok b
    → (test ≡ false) × (r ≡ ok b)
if_inverse true e r h = cc h
if_inverse false e r h = (refl, h)

or_else_inverse :
    {A B : Type 0} (r : Result ParamsError A) (f : A → Result ParamsError B) {b : B}
    → or_else_fail r f ≡ ok b
    → (a : A) × (r ≡ ok a) × (f a ≡ ok b)
or_else_inverse (ok a) f h = (a, refl, h)
or_else_inverse (err e) f h = cc h

degree_inverse :
    (p : EmvpParams) (d : ℕ)
    → attack_degree p ≡ ok d
    → (p.k + (p.b - 1 - 1) ≤ u64_max) × (d ≡ (p.k + (p.b - 1 - 1)) / (p.b - 1))
unfolding attack_degree
degree_inverse p d h = elim (Option-cases (checked_add p.k (p.b - 1 - 1))) [
  | inl none ↦ absurd (ground (arith, h, none))
  | inr some ↦
      let c = checked_add_value p.k (p.b - 1 - 1) some.1 in (c.1, ground (arith, h, some.1, c.0))
]

-- Parameters that satisfy the constraints are accepted.
IsSecure-validate : (p : EmvpParams) → IsSecure p → validate p ≡ ok tt
unfolding validate check_attacks code_length rank_floor
IsSecure-validate p s =
    rw
      (
        le→ltb protocol_max_lambda p.lambda s.scope,
        IsSized-validate_dimensions p s.sized,
        le→ltb p.k ((p.lambda + 3) / 4) (omega (arith, s.slack)),
        le→leb (p.k * 2) usize_max s.sized.length_fits,
        attack_degree_value p s.sized s.rounding_fits,
      )
      (rw
        (ceiling_unique p.k (p.b - 1) s.degree (omega arith) (omega arith) s.degree_enough
          s.degree_least)
        (rw (cost_compared p s.sized s.degree degree_positive s.scope, le→leb _ _ s.algebraic)
          (exclusion_checked p s.sized s.scope
            ∙ rw
                (lt→leb (p.k * 2 / p.b * p.k + p.k) (p.k * 2 + p.lambda)
                  (omega (arith, s.exclusion)))
                refl)))
  where
    degree_positive : 0 < s.degree
    degree_positive = elim (zero_cases s.degree) [
      | inl none ↦ absurd (
          omega (
            arith,
            s.degree_enough,
            s.sized.ell_positive,
            s.sized.ell_le_rank,
            ap (λ (t : ℕ). (p.b - 1) * t) none,
          ))
      | inr some ↦ some
    ]

code_length_value : (p : EmvpParams) (n : ℕ) → code_length p ≡ ok n → n ≡ p.k * 2
unfolding code_length
code_length_value p n h = ground (arith, h)

not-false : (b : Bool) → not b ≡ false → b ≡ true
not-false true h = refl
not-false false h = cc h

IsSecure-of :
    (p : EmvpParams)
    → validate_dimensions p ≡ ok tt
    → ltb protocol_max_lambda p.lambda ≡ false
    → ltb p.k ((p.lambda + 3) / 4) ≡ false
    → (n : ℕ) → code_length p ≡ ok n
    → (d : ℕ) → attack_degree p ≡ ok d
    → not (scaled_pow_ge_pow2 p.b (d - 1) (min p.b d) p.lambda) ≡ false
    → check_inclusion_exclusion p n ≡ ok tt
    → IsSecure p
IsSecure-of p shape scope floor n length d degree cost exclusion = record {
  sized = sized;
  scope = ground (arith, scope);
  slack = ground (arith, floor);
  rounding_fits = ground (arith, sum.0);
  degree = d;
  degree_enough = rw sum.1 rounded.0;
  degree_least = rw sum.1 rounded.1;
  algebraic = leb→le _ _ (sym (cost_compared p sized d positive below) ∙ not-false _ cost);
  exclusion = omega (arith, leb_false→lt _ _ compared);
}
  where
    sized : IsSized p
    sized = validate_dimensions-IsSized p shape

    below : p.lambda ≤ protocol_max_lambda
    below = ground (arith, scope)

    sum : (p.k + (p.b - 1 - 1) ≤ u64_max) × (d ≡ (p.k + (p.b - 1 - 1)) / (p.b - 1))
    sum = degree_inverse p d degree

    rounded :
        (p.k ≤ (p.b - 1) * ((p.k + (p.b - 1 - 1)) / (p.b - 1)))
        × ((p.b - 1) * ((p.k + (p.b - 1 - 1)) / (p.b - 1) - 1) < p.k)
    rounded =
        ceiling p.k (p.b - 1) (omega (arith, sized.ell_positive, sized.ell_le_rank))
          (omega (arith, sized.block_large))

    positive : 0 < d
    positive = elim (zero_cases d) [
      | inl none ↦ absurd (
          omega (
            arith,
            rounded.0,
            sum.1,
            sized.ell_positive,
            sized.ell_le_rank,
            ap (λ (t : ℕ). (p.b - 1) * t) (sym sum.1 ∙ none),
          ))
      | inr some ↦ some
    ]

    compared : leb (p.k * 2 / p.b * p.k + p.k) (p.k * 2 + p.lambda) ≡ false
    compared =
        (if_inverse _ _ _ (
          sym (exclusion_checked p sized below)
          ∙ ap (λ m. check_inclusion_exclusion p m) (sym (code_length_value p n length))
          ∙ exclusion)).0

-- What each passed test says.
validate_only : (p : EmvpParams) → validate p ≡ ok tt → IsSecure p
unfolding validate check_attacks rank_floor
validate_only p h =
    let scope = if_inverse _ _ _ h in
    let shape = or_else_inverse (validate_dimensions p) _ scope.1 in
    let floor = if_inverse _ _ _ shape.2 in
    let length = or_else_inverse (code_length p) _ floor.1 in
    let degree = or_else_inverse (attack_degree p) _ length.2 in
    let cost = if_inverse _ _ _ degree.2 in
    IsSecure-of p shape.1 scope.0 floor.0 length.0 length.1 degree.0 degree.1 cost.0 cost.1

-- For all parameters, `validate` accepts them exactly when their dimensions fit the code, the level is at
-- most 128 and at most 4k, and, with d the least number such that (b - 1) * d is at least k, the attack's
-- cost min(b, d) * b ^ (d - 1) is at least 2 ^ level and (n / b + 1) * k exceeds n + level, where n = 2k;
-- the sum k + (b - 2), from which the code gets d, must fit 64 bits.
pub validate-IsSecure : (p : EmvpParams) → (validate p ≡ ok tt) ↔ IsSecure p
validate-IsSecure p = (validate_only p, IsSecure-validate p)
