-- ===== src/Emvp/Params/Search/Divisors.antt =====
-- The divisor loop finds every divisor.
use emvp_thesis.Base.{
  ℕ, zero, suc, ◌+◌, ◌*◌, ◌/◌, ◌%◌, ◌<◌, ◌≤◌, ◌≡◌, refl, ap, sym, ◌∙◌, ◌⊎◌, inl, inr, List, [], ◌∷◌,
  ◌++◌, true, leb, ◌==◌, checked_mul-some, u64_max, arith, Bool-cases, zero_cases, leb→le,
  leb_false→lt, le→leb, eq→==,
}
use emvp_thesis.Emvp.Params.Search.{square_fits, pushed, divisors_from}
use native.Mathlib.Nat.{
  div-add-mod, mul-le-mul, mul-le-mul_left, mul-div_cancel, mul-mod_left, mod-zero,
  lt_of_mul-lt-mul_left,
}

abbrev pub Has : ℕ → List ℕ → Type 0
Has x [] = ⊥
Has x (y ∷ ys) = (x ≡ y) ⊎ Has x ys

pub Has-append_left : (x : ℕ) (xs ys : List ℕ) → Has x xs → Has x (xs ++ ys)
Has-append_left x [] ys h = absurd h
Has-append_left x (z ∷ xs) ys (inl e) = inl e
Has-append_left x (z ∷ xs) ys (inr h) = inr (Has-append_left x xs ys h)

pub Has-append_right : (x : ℕ) (xs ys : List ℕ) → Has x ys → Has x (xs ++ ys)
Has-append_right x [] ys h = h
Has-append_right x (z ∷ xs) ys h = inr (Has-append_right x xs ys h)

square_fits-true : (n d : ℕ) → d * d ≤ n → n ≤ u64_max → square_fits n d ≡ true
unfolding square_fits
square_fits-true n d h fits =
    rw (checked_mul-some d d (omega arith), square_fits) (le→leb (d * d) n h)

pushed_divisor : (n d : ℕ) → n % d ≡ 0 → Has d (pushed n d) × Has (n / d) (pushed n d)
unfolding pushed
pushed_divisor n d h = rw (eq→== (n % d) 0 h) (elim (Bool-cases (d == n / d)) [
  | inl same ↦ rw same (inl refl, inl (ground arith))
  | inr apart ↦ rw apart (inl refl, inr (inl refl))
])

divisors_from_step :
    (rounds n d : ℕ)
    → square_fits n d ≡ true
    → divisors_from (suc rounds) n d ≡ pushed n d ++ divisors_from rounds n (d + 1)
unfolding divisors_from
divisors_from_step rounds n d h = rw (h, divisors_from) refl

-- A divisor whose square is at most n is met, with its cofactor.
divisors_from-Has :
    (rounds n d e : ℕ)
    → d ≤ e
    → e < d + rounds
    → e * e ≤ n
    → n ≤ u64_max
    → n % e ≡ 0
    → Has e (divisors_from rounds n d) × Has (n / e) (divisors_from rounds n d)
divisors_from-Has zero n d e low high square fits h = absurd (omega arith)
divisors_from-Has (suc rounds) n d e low high square fits h =
    rw
      (divisors_from_step rounds n d
        (square_fits-true n d (omega (arith, mul-le-mul low low)) fits))
      (elim (Bool-cases (d == e)) [
        | inl same ↦
            let here : d ≡ e = ground arith in
            rw here (
              Has-append_left _ (pushed n e) _ (pushed_divisor n e h).0,
              Has-append_left _ (pushed n e) _ (pushed_divisor n e h).1,
            )
        | inr apart ↦
            let rest =
              divisors_from-Has rounds n (d + 1) e (ground arith) (omega arith) square fits h in
            (Has-append_right _ (pushed n d) _ rest.0, Has-append_right _ (pushed n d) _ rest.1)
      ])

divisor_pos : (n b : ℕ) → 0 < n → n % b ≡ 0 → 1 ≤ b
divisor_pos n zero pos h = absurd (omega (arith, mod-zero n))
divisor_pos n (suc b) pos h = omega arith

-- The cofactor of a divisor above the root: it lies below the root, and divides with that divisor.
cofactor :
    (n b : ℕ)
    → 0 < n
    → n % b ≡ 0
    → n < b * b
    → (1 ≤ n / b) × ((n / b) * (n / b) ≤ n) × (n / (n / b) ≡ b) × (n % (n / b) ≡ 0)
cofactor n b pos h large = (
  positive,
  omega (
    arith,
    product,
    mul-le-mul {n₁ = n / b} {m₁ = n / b} {n₂ = b} {m₂ = n / b} (omega (arith, below)) (omega arith),
  ),
  ap (λ (t : ℕ). t / (n / b)) (sym product) ∙ mul-div_cancel b positive,
  ap (λ (t : ℕ). t % (n / b)) (sym product) ∙ mul-mod_left b (n / b),
)
  where
    product : b * (n / b) ≡ n
    product = omega (arith, div-add-mod n b, h)

    positive : 0 < n / b
    positive = elim (zero_cases (n / b)) [
      | inl none ↦ absurd (omega (arith, div-add-mod n b, h, ap (λ (t : ℕ). b * t) none))
      | inr some ↦ some
    ]

    below : n / b < b
    below = lt_of_mul-lt-mul_left b (omega (arith, div-add-mod n b, h))

-- Every divisor of a positive number is found, among the divisors up to the root or as a cofactor.
pub divisors_complete : (n b : ℕ) → 0 < n → n ≤ u64_max → n % b ≡ 0 → Has b (divisors_from n n 1)
divisors_complete n b pos fits h = elim (Bool-cases (leb (b * b) n)) [
  | inl small ↦
      (divisors_from-Has n n 1 b (divisor_pos n b pos h)
        (omega (arith, mul-le-mul_left {m = 1} {n = b} b (divisor_pos n b pos h), leb→le _ _ small))
        (leb→le _ _ small) fits h).0
  | inr large ↦
      let c = cofactor n b pos h (leb_false→lt _ _ large) in
      rw (← c.2)
        (divisors_from-Has n n 1 (n / b) c.0
          (omega (arith, c.1, mul-le-mul_left {m = 1} {n = n / b} (n / b) c.0)) c.1 fits c.3).1
]
