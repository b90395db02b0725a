-- ===== src/Base/Powers.antt =====
-- Powers of sums and products of exponents, and the length of a number in binary digits.
use Prim.Native.Nat.{ℕ, zero, suc, ◌+◌, ◌*◌, ◌/◌, ◌^◌, ◌≤◌, ◌<◌}
use mathlib.Core.Path.{◌≡◌, refl, ap, ◌∙◌}
use mathlib.Core.Logic.{◌⊎◌, inl, inr}
use native.Mathlib.Omega.{arith}
use native.Mathlib.Numerals.{unary_clauses}
use native.Mathlib.Nat.{pow-zero, pow-succ'}
use emvp_thesis.Base.Tests.{◌==◌, if◌then◌else◌}

pub pow-add : (n a b : ℕ) → n ^ (a + b) ≡ n ^ a * n ^ b
pow-add n a zero = simp unary_clauses (omega arith)
pow-add n a (suc b) = simp unary_clauses (omega (arith, ap (λ (t : ℕ). t * n) (pow-add n a b)))

pub pow-mul : (n a b : ℕ) → n ^ (a * b) ≡ (n ^ a) ^ b
pow-mul n a zero = simp unary_clauses (omega arith)
pow-mul n a (suc b) =
    simp unary_clauses (pow-add n (a * b) a ∙ ap (λ (t : ℕ). t * n ^ a) (pow-mul n a b))

-- The number of binary digits up to the highest one that is set; `rounds` bounds it.
pub digits : ℕ → ℕ → ℕ
digits zero n = 0
digits (suc rounds) n = let rest = digits rounds (n / 2) in if n == 0 then 0 else suc rest

digits-zero : (rounds : ℕ) → digits rounds 0 ≡ 0
unfolding digits
digits-zero zero = refl
digits-zero (suc rounds) = refl

-- The number lies between two consecutive powers of two.
pub record HasDigits (n d : ℕ) : Type 0 where
  pub below : ℕ
  pub count : d ≡ suc below
  pub low : 2 ^ below ≤ n
  pub high : n < 2 ^ suc below

half_cases : (n : ℕ) → 0 < n → (n ≡ 1) ⊎ (0 < n / 2)
half_cases zero h = elim h [ ]
half_cases (suc zero) h = inl refl
half_cases (suc (suc n)) h = inr (omega arith)

pub digits-HasDigits : (rounds n : ℕ) → 0 < n → n < 2 ^ rounds → HasDigits n (digits rounds n)
unfolding digits
digits-HasDigits zero n pos lt = absurd (omega (arith, pow-zero 2))
digits-HasDigits (suc rounds) n pos lt = elim (half_cases n pos) [
  | inl one ↦ rw one (record {
    below = 0;
    count = ap suc (digits-zero rounds);
    low = omega arith;
    high = omega arith;
  })
  | inr more ↦
      let h = digits-HasDigits rounds (n / 2) more (omega (arith, pow-succ' 2 rounds)) in
      record {
        below = suc h.below;
        count = ground (arith, h.count);
        low = omega (arith, h.low, pow-succ' 2 h.below);
        high = omega (arith, h.high, pow-succ' 2 (suc h.below));
      }
]
