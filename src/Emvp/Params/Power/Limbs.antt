-- ===== src/Emvp/Params/Power/Limbs.antt =====
-- What a list of limbs stands for: the value, its length in digits and its product with a word.
use emvp_thesis.Base.{
  ℕ, suc, ◌+◌, ◌-◌, ◌*◌, ◌/◌, ◌^◌, ◌<◌, ◌≤◌, ◌≡◌, refl, ap, ◌∙◌, List, [], ◌∷◌, ◌++◌, All,
  All-append, length, arith,
}
use emvp_thesis.Base.Powers.{pow-add, HasDigits, digits-HasDigits}
use emvp_thesis.Emvp.Params.Power.{bit_length, top_limb, exact_bit_length, mul_limbs}
use native.Mathlib.Nat.{mul-le-mul, mul-le-mul_left}

abbrev pub IsWord : ℕ → Type 0
IsWord x = x < 2 ^ 64

abbrev pub number : List ℕ → ℕ
number [] = 0
number (x ∷ xs) = x + 2 ^ 64 * number xs

-- The limbs of a positive number, without leading zeros.
pub record IsNormal (limbs : List ℕ) : Type 0 where
  pub words : All IsWord limbs
  pub top_positive : 0 < top_limb limbs

pub bit_length-HasDigits : (n : ℕ) → 0 < n → IsWord n → HasDigits n (bit_length n)
unfolding bit_length
bit_length-HasDigits n pos word = digits-HasDigits 64 n pos word

shifted : (n : ℕ) → 2 ^ (suc n * 64) ≡ 2 ^ 64 * 2 ^ (n * 64)
shifted n = ap (λ t. 2 ^ t) (omega arith) ∙ pow-add 2 64 (n * 64)

suc_shift : (n : ℕ) → suc (64 + n) ≡ 64 + suc n
suc_shift n = omega arith

carry_lt :
    (x base carry : ℕ)
    → x < 2 ^ 64
    → base < 2 ^ 64
    → carry < 2 ^ 64
    → (x * base + carry) / 2 ^ 64 < 2 ^ 64
carry_lt x base carry hx hb hc = omega (
  arith,
  mul-le-mul {n₁ = x} {m₁ = base} {n₂ = 2 ^ 64 - 1} {m₂ = 2 ^ 64 - 1} (omega arith) (omega arith),
)

-- The count of the limbs below the top, times 64, and the digits of the top.
pub exact_bits : (ls : List ℕ) → IsNormal ls → HasDigits (number ls) (exact_bit_length ls)
unfolding exact_bit_length
exact_bits [] h = absurd (omega (arith, h.top_positive))
exact_bits (x ∷ []) h =
    let d = bit_length-HasDigits x h.top_positive h.words.0 in
    record {
      below = d.below;
      count = omega (arith, d.count);
      low = omega (arith, d.low);
      high = omega (arith, d.high);
    }
exact_bits (x ∷ y ∷ ls) h =
    let d = exact_bits (y ∷ ls) (record { words = h.words.1; top_positive = h.top_positive }) in
    record {
      below = 64 + d.below;
      count = omega (arith, d.count);
      low = omega (arith, d.low, pow-add 2 64 d.below);
      high = omega (
        arith,
        d.high,
        pow-add 2 64 (suc d.below),
        ap (λ (t : ℕ). 2 ^ t) (suc_shift d.below),
        h.words.0,
      );
    }

pub number-append :
    (ls : List ℕ) (c : ℕ) → number (ls ++ (c ∷ [])) ≡ number ls + 2 ^ (length ls * 64) * c
number-append [] c = omega arith
number-append (x ∷ ls) c =
    omega (arith, number-append ls c, ap (λ (t : ℕ). t * c) (shifted (length ls)))

top_limb-append : (ls : List ℕ) (c : ℕ) → top_limb (ls ++ (c ∷ [])) ≡ c
top_limb-append [] c = refl
top_limb-append (x ∷ []) c = refl
top_limb-append (x ∷ y ∷ ls) c = top_limb-append (y ∷ ls) c

length-mul_limbs : (base carry : ℕ) (ls : List ℕ) → length (mul_limbs base carry ls).0 ≡ length ls
unfolding mul_limbs
length-mul_limbs base carry [] = refl
length-mul_limbs base carry (x ∷ ls) =
    ap suc (length-mul_limbs base ((x * base + carry) / 2 ^ 64) ls)

-- The product by schoolbook multiplication, with the carry above its limbs.
mul_limbs_value :
    (base carry : ℕ) (ls : List ℕ)
    → number (mul_limbs base carry ls).0 + 2 ^ (length ls * 64) * (mul_limbs base carry ls).1
      ≡ number ls * base + carry
unfolding mul_limbs
mul_limbs_value base carry [] = omega arith
mul_limbs_value base carry (x ∷ ls) = omega (
  arith,
  mul_limbs_value base ((x * base + carry) / 2 ^ 64) ls,
  ap (λ (t : ℕ). t * (mul_limbs base ((x * base + carry) / 2 ^ 64) ls).1) (shifted (length ls)),
)

product_words :
    (base carry : ℕ) (ls : List ℕ)
    → base < 2 ^ 64
    → carry < 2 ^ 64
    → All IsWord ls
    → All IsWord (mul_limbs base carry ls).0 × ((mul_limbs base carry ls).1 < 2 ^ 64)
unfolding mul_limbs
product_words base carry [] hb hc h = (tt, hc)
product_words base carry (x ∷ ls) hb hc h =
    let rest =
      product_words base ((x * base + carry) / 2 ^ 64) ls hb (carry_lt x base carry h.0 hb hc)
        h.1 in
    ((omega arith, rest.0), rest.1)

product_top :
    (base carry : ℕ) (ls : List ℕ)
    → 0 < base
    → 0 < top_limb ls
    → (mul_limbs base carry ls).1 ≡ 0
    → 0 < top_limb (mul_limbs base carry ls).0
unfolding mul_limbs
product_top base carry [] hb ht h = ht
product_top base carry (x ∷ []) hb ht h = omega (arith, h, mul-le-mul_left {m = 1} {n = base} x hb)
product_top base carry (x ∷ y ∷ ls) hb ht h =
    product_top base ((x * base + carry) / 2 ^ 64) (y ∷ ls) hb ht h

-- One multiplication of the accumulated value that leaves no carry.
pub mul_limbs-IsNormal :
    (base : ℕ) (ls : List ℕ)
    → 0 < base
    → base < 2 ^ 64
    → IsNormal ls
    → (mul_limbs base 0 ls).1 ≡ 0
    → IsNormal (mul_limbs base 0 ls).0 × (number (mul_limbs base 0 ls).0 ≡ number ls * base)
mul_limbs-IsNormal base ls pos word h none_left = (
  record {
    words = (product_words base 0 ls word (omega arith) h.words).0;
    top_positive = product_top base 0 ls pos h.top_positive none_left;
  },
  omega (arith, mul_limbs_value base 0 ls, ap (λ (t : ℕ). 2 ^ (length ls * 64) * t) none_left),
)

-- One multiplication whose carry becomes the new top limb.
pub mul_limbs_grown :
    (base : ℕ) (ls : List ℕ)
    → base < 2 ^ 64
    → IsNormal ls
    → 0 < (mul_limbs base 0 ls).1
    → IsNormal ((mul_limbs base 0 ls).0 ++ ((mul_limbs base 0 ls).1 ∷ []))
      × (number ((mul_limbs base 0 ls).0 ++ ((mul_limbs base 0 ls).1 ∷ [])) ≡ number ls * base)
mul_limbs_grown base ls word h carried =
    let w = product_words base 0 ls word (omega arith) h.words in
    (
      record {
        words = All-append IsWord (mul_limbs base 0 ls).0 _ w.0 (w.1, tt);
        top_positive = rw (top_limb-append (mul_limbs base 0 ls).0 (mul_limbs base 0 ls).1) carried;
      },
      number-append (mul_limbs base 0 ls).0 (mul_limbs base 0 ls).1
          ∙ ap (λ n. number (mul_limbs base 0 ls).0 + 2 ^ (n * 64) * (mul_limbs base 0 ls).1)
              (length-mul_limbs base 0 ls)
          ∙ mul_limbs_value base 0 ls
          ∙ omega arith,
    )

-- A carry proves that the product has more digits than the limbs hold.
pub mul_limbs_overflow :
    (base : ℕ) (ls : List ℕ) → 0 < (mul_limbs base 0 ls).1 → 2 ^ (length ls * 64) ≤ number ls * base
mul_limbs_overflow base ls carried = omega (
  arith,
  mul_limbs_value base 0 ls,
  mul-le-mul_left {m = 1} {n = (mul_limbs base 0 ls).1} (2 ^ (length ls * 64)) carried,
)
