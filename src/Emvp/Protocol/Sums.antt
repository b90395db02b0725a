-- ===== src/Emvp/Protocol/Sums.antt =====
-- Sums of products of field elements, as residues.
use emvp_thesis.Base.{
  ℕ, zero, suc, ◌+◌, ◌*◌, ◌%◌, ◌≡◌, refl, ap, ◌∙◌, List, [], ◌∷◌, take, drop, arith,
}
use emvp_thesis.Base.Modular.{add-mod_congr}
use emvp_thesis.Emvp.Protocol.{mul_add, zero_element}
use emvp_thesis.Field.{FieldElement, mul, value}
use emvp_thesis.Field.Arithmetic.{
  IsCanonical, value-add, value-mul, value-from_u32, from_u32-IsCanonical, add-IsCanonical,
  mul-IsCanonical,
}
use emvp_thesis.Field.Reduction.{IsModulus}
use native.Mathlib.Nat.{mod-mod}

module _ (p : ℕ) where
  -- The inner product of the values, over the shorter list.
  abbrev pub dot : List FieldElement → List FieldElement → ℕ
  dot [] ys = 0
  dot (x ∷ xs) [] = 0
  dot (x ∷ xs) (y ∷ ys) = value p x * value p y + dot xs ys

  dot-nil : (xs : List FieldElement) → dot xs [] ≡ 0
  dot-nil [] = refl
  dot-nil (x ∷ xs) = refl

  pub dot-take-drop :
      (n : ℕ) (xs ys : List FieldElement)
      → dot xs ys ≡ dot (take n xs) (take n ys) + dot (drop n xs) (drop n ys)
  dot-take-drop zero xs ys = omega arith
  dot-take-drop (suc n) [] ys = omega arith
  dot-take-drop (suc n) (x ∷ xs) [] =
      omega (arith, dot-nil (take (suc n) (x ∷ xs)), dot-nil (drop (suc n) (x ∷ xs)))
  dot-take-drop (suc n) (x ∷ xs) (y ∷ ys) = omega (arith, dot-take-drop n xs ys)

module _ (p : ℕ) (m : IsModulus p) where
  pub zero-IsCanonical : IsCanonical p (zero_element p)
  zero-IsCanonical = from_u32-IsCanonical p m 0 (omega arith)

  pub value-zero : value p (zero_element p) % p ≡ 0 % p
  value-zero = ap (λ n. n % p) (value-from_u32 p m 0 (omega arith)) ∙ mod-mod 0 p

  module _ (s x y : FieldElement) (hs : IsCanonical p s) (hx : IsCanonical p x)
      (hy : IsCanonical p y) where
    pub mul_add-IsCanonical : IsCanonical p (mul_add p s x y)
    mul_add-IsCanonical = add-IsCanonical p m s (mul p x y) hs (mul-IsCanonical p m x y hx hy)

    pub value-mul_add : value p (mul_add p s x y) % p ≡ (value p s + value p x * value p y) % p
    value-mul_add =
        ap (λ n. n % p) (value-add p m s (mul p x y) hs (mul-IsCanonical p m x y hx hy))
        ∙ mod-mod (value p s + value p (mul p x y)) p
        ∙ add-mod_congr p (value p s) (value p s) (value p (mul p x y)) (value p x * value p y) refl
            (ap (λ n. n % p) (value-mul p m x y hx hy) ∙ mod-mod (value p x * value p y) p)
