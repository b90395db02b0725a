-- ===== src/Base/Modular.antt =====
-- Congruence modulo a number, as equality of remainders.
use Prim.Native.Nat.{ℕ, ◌+◌, ◌*◌, ◌/◌, ◌%◌, ◌<◌}
use mathlib.Core.Path.{◌≡◌, refl, ap, sym, ◌∙◌}
use native.Mathlib.Omega.{arith}
use native.Mathlib.Nat.{add-mul-mod_self_right, div-add-mod, mod-eq_of_lt, add-mod}

-- Two numbers that differ by multiples of `p` are congruent.
pub mod-eq_of_multiples : (p a b x y : ℕ) → a + x * p ≡ b + y * p → a % p ≡ b % p
mod-eq_of_multiples p a b x y h =
    sym (add-mul-mod_self_right a x p) ∙ ap (λ t. t % p) h ∙ add-mul-mod_self_right b y p

-- Congruence is kept by products.
pub mul-mod_congr :
    (p a a' b b' : ℕ) → a % p ≡ a' % p → b % p ≡ b' % p → (a * b) % p ≡ (a' * b') % p
mul-mod_congr p a a' b b' h k = left ∙ right
  where
    left : (a * b) % p ≡ (a' * b) % p
    left = mod-eq_of_multiples p (a * b) (a' * b) (a' / p * b) (a / p * b) (
        omega (
          arith,
          ap (λ (t : ℕ). t * b) (div-add-mod a p),
          ap (λ (t : ℕ). t * b) (div-add-mod a' p),
          ap (λ (t : ℕ). t * b) h,
        ))

    right : (a' * b) % p ≡ (a' * b') % p
    right = mod-eq_of_multiples p (a' * b) (a' * b') (a' * (b' / p)) (a' * (b / p)) (
        omega (
          arith,
          ap (λ (t : ℕ). a' * t) (div-add-mod b p),
          ap (λ (t : ℕ). a' * t) (div-add-mod b' p),
          ap (λ (t : ℕ). a' * t) k,
        ))

pub add-mod_congr :
    (p a a' b b' : ℕ) → a % p ≡ a' % p → b % p ≡ b' % p → (a + b) % p ≡ (a' + b') % p
add-mod_congr p a a' b b' h k =
    add-mod a b p
    ∙ ap (λ t. (t + b % p) % p) h
    ∙ ap (λ t. (a' % p + t) % p) k
    ∙ sym (add-mod a' b' p)

-- A factor that has an inverse modulo `p` can be cancelled.
pub mul-mod_cancel :
    (p r t a b : ℕ) → (r * t) % p ≡ 1 % p → (a * r) % p ≡ (b * r) % p → a % p ≡ b % p
mul-mod_cancel p r t a b inverse h =
    sym (unit a) ∙ mul-mod_congr p (a * r) (b * r) t t h refl ∙ unit b
  where
    unit : (c : ℕ) → (c * r * t) % p ≡ c % p
    unit c =
        ap (λ (n : ℕ). n % p) (omega arith)
        ∙ mul-mod_congr p c c (r * t) 1 refl inverse
        ∙ ap (λ (n : ℕ). n % p) (omega arith)

-- Congruent numbers below `p` are equal.
pub eq_of_mod-eq : (p a b : ℕ) → a < p → b < p → a % p ≡ b % p → a ≡ b
eq_of_mod-eq p a b ha hb h = sym (mod-eq_of_lt ha) ∙ h ∙ mod-eq_of_lt hb

-- Reducing by a multiple of `k` first changes nothing modulo `k`.
pub mod-mod_of_multiple : (k e word a : ℕ) → word ≡ k * e → a % word % k ≡ a % k
mod-mod_of_multiple k e word a h =
    mod-eq_of_multiples k (a % word) a (e * (a / word)) 0
      (omega (arith, div-add-mod a word, ap (λ (t : ℕ). t * (a / word)) h))
