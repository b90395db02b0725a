-- ===== src/Trapdoor/Sampling/Unbiased.antt =====
-- `sample_below` draws below its bound, and every value from the same number of words.
use emvp_thesis.Base.{
  ℕ, suc, ◌+◌, ◌*◌, ◌/◌, ◌%◌, ◌^◌, ◌<◌, ◌≤◌, ◌≡◌, refl, ap, ◌∙◌, some, List, [], ◌∷◌, false, ltb,
  if◌then◌else◌, Bool-cases, inl, inr, lt→ltb, ltb→lt, le→ltb, pos→==_zero, arith, length,
}
use emvp_thesis.Base.Action.{Result, ok}
use emvp_thesis.Trapdoor.Error.{TdmError}
use emvp_thesis.Trapdoor.Sampling.{acceptance_bound, accept_loop, sample_below}
use mathlib.Core.Logic.{◌↔◌}
use native.Mathlib.Nat.{
  div-add-mod', mod-lt, mul-le-mul_right, mul-add-mod_self_right, mod-eq_of_lt, le-div_iff_mul-le,
  div-lt_iff_lt-mul,
}

-- How many words are below 2^31: these are accepted whatever the bound.
unfoldable pub small_words : List ℕ → ℕ
small_words [] = 0
small_words (w ∷ ws) = if ltb w (2 ^ 31) then suc (small_words ws) else small_words ws

acceptance_large : (bound : ℕ) → 0 < bound → bound ≤ 2 ^ 32 → 2 ^ 31 ≤ acceptance_bound bound
unfolding acceptance_bound
acceptance_large bound pos fits = omega (
  arith,
  div-add-mod' (2 ^ 32) bound,
  mod-lt (2 ^ 32) pos,
  mul-le-mul_right {m = 1} {n = 2 ^ 32 / bound} bound
      ((le-div_iff_mul-le {k = bound} {x = 1} {y = 2 ^ 32} pos).1 (omega arith)),
)

refused_le : (a b : ℕ) → ltb a b ≡ false → b ≤ a
refused_le a b h = ground arith

few : {count : ℕ} (w : ℕ) (ws : List ℕ) → suc count ≤ small_words (w ∷ ws) → count ≤ small_words ws
unfolding small_words
few w ws h = ground arith

fewer :
    {count : ℕ} (w : ℕ) (ws : List ℕ)
    → 2 ^ 31 ≤ w
    → suc count ≤ small_words (w ∷ ws)
    → suc count ≤ small_words ws
unfolding small_words
fewer w ws large h = ground arith

-- With a word below 2^31 to come, a value below the bound is drawn, and at most that one of them is used up.
pub accept_loop_draws :
    (bound count : ℕ) (words : List ℕ)
    → 0 < bound
    → bound ≤ 2 ^ 32
    → suc count ≤ small_words words
    → (v : ℕ) × (rest : List ℕ) × (accept_loop bound words ≡ some (ok v, rest))
      × (v < bound)
      × (count ≤ small_words rest)
unfolding accept_loop small_words
accept_loop_draws bound count [] pos fits h = absurd (omega arith)
accept_loop_draws bound count (w ∷ ws) pos fits h =
    elim (Bool-cases (ltb w (acceptance_bound bound))) [
      | inl taken ↦ (w % bound, ws, rw (taken, accept_loop) refl, mod-lt w pos, few w ws h)
      | inr refused ↦
          let r = accept_loop_draws bound count ws pos fits (
            fewer w ws
              (omega (
                arith,
                acceptance_large bound pos fits,
                refused_le w (acceptance_bound bound) refused,
              ))
              h) in
          (r.0, r.1, rw (refused, accept_loop) r.2, r.3, r.4)
    ]

accept_loop_shorter :
    (bound : ℕ) (words : List ℕ) (r : Result TdmError ℕ) (rest : List ℕ)
    → accept_loop bound words ≡ some (r, rest)
    → length rest < length words
unfolding accept_loop
accept_loop_shorter bound [] r rest h = cc h
accept_loop_shorter bound (w ∷ ws) r rest h = elim (Bool-cases (ltb w (acceptance_bound bound))) [
  | inl taken ↦ let e : ws ≡ rest = cc (rw (taken, accept_loop) at h) in omega (arith, ap length e)
  | inr refused ↦
      omega (arith, accept_loop_shorter bound ws r rest (rw (refused, accept_loop) at h))
]

accept_loop_word :
    (bound v w : ℕ) (words : List ℕ)
    → 0 < bound
    → accept_loop bound (w ∷ words) ≡ some (ok v, words)
    → (q : ℕ) × (q < 2 ^ 32 / bound) × (w ≡ q * bound + v)
unfolding accept_loop acceptance_bound
accept_loop_word bound v w words pos h = elim (Bool-cases (ltb w (2 ^ 32 / bound * bound))) [
  | inl taken ↦
      let e : w % bound ≡ v = cc (rw (taken, accept_loop) at h) in
      (
        w / bound,
        (div-lt_iff_lt-mul {k = bound} {x = w} {y = 2 ^ 32 / bound} pos).1 (ltb→lt _ _ taken),
        omega (arith, div-add-mod' w bound, e),
      )
  | inr refused ↦
      absurd
        (omega (arith, accept_loop_shorter bound words _ words (rw (refused, accept_loop) at h)))
]

word_accepted :
    (bound v w q : ℕ) (words : List ℕ)
    → v < bound
    → q < 2 ^ 32 / bound
    → w ≡ q * bound + v
    → accept_loop bound (w ∷ words) ≡ some (ok v, words)
unfolding accept_loop acceptance_bound
word_accepted bound v w q words below fewer_than form =
    rw
      (
        lt→ltb w (2 ^ 32 / bound * bound) (
            omega
              (arith, form, mul-le-mul_right {m = suc q} {n = 2 ^ 32 / bound} bound fewer_than)),
        accept_loop,
      )
      (ap (λ (n : ℕ). some (ok n, words))
        (ap (λ (n : ℕ). n % bound) form ∙ mul-add-mod_self_right q bound v ∙ mod-eq_of_lt below))

-- For every bound of at least 1 and at most 2^32, value below it and quotient below 2^32 / bound, the word
-- quotient * bound + value is accepted and draws that value; and every accepted word is of that form.
pub sample_below_unbiased :
    (bound v w : ℕ) (words : List ℕ)
    → 0 < bound
    → bound ≤ 2 ^ 32
    → v < bound
    → (sample_below bound (w ∷ words) ≡ some (ok v, words))
      ↔ ((q : ℕ) × (q < 2 ^ 32 / bound) × (w ≡ q * bound + v))
unfolding sample_below
sample_below_unbiased bound v w words pos fits below =
    rw (pos→==_zero bound pos, le→ltb (2 ^ 32) bound fits)
      (
        accept_loop_word bound v w words pos,
        λ form. word_accepted bound v w form.0 words below form.1 form.2,
      )
