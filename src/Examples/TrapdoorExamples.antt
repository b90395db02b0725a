-- ===== src/Examples/TrapdoorExamples.antt =====
-- The theorems on permutations at a permutation of three elements.
use emvp_thesis.Base.{
  ℕ, ◌*◌, ◌+◌, ◌/◌, ◌^◌, ◌<◌, ◌≤◌, ◌≡◌, refl, some, List, [], ◌∷◌, length, arith,
}
use emvp_thesis.Base.Action.{ok}
use emvp_thesis.Trapdoor.Permutation.{Permutation, new, apply, apply_transpose}
use emvp_thesis.Trapdoor.Permutation.Accepted.{IsPermutation, new-IsPermutation}
use emvp_thesis.Trapdoor.Permutation.Inverse.{apply_transpose-apply}
use emvp_thesis.Trapdoor.Sampling.{sample_below, sample}
use emvp_thesis.Trapdoor.Sampling.Unbiased.{small_words, sample_below_unbiased}
use emvp_thesis.Trapdoor.Sampling.Shuffled.{sample-IsPermutation}
use mathlib.Core.Logic.{◌↔◌}

abbrev turn : List ℕ
turn = 2 ∷ 0 ∷ 1 ∷ []

turn-IsPermutation : IsPermutation turn
turn-IsPermutation = record {
  in_range = (omega arith, (omega arith, (omega arith, tt)));
  distinct = ((λ e. omega arith, (λ e. omega arith, tt)), ((λ e. omega arith, tt), (tt, tt)));
}

new-IsPermutation_example : (new turn ≡ ok (record { indices = turn })) ↔ IsPermutation turn
new-IsPermutation_example = new-IsPermutation turn

abbrev turned : Permutation
turned = record { indices = turn }

apply_transpose-apply_example :
    (scattered : List ℕ) × (apply_transpose turned (7 ∷ 8 ∷ 9 ∷ []) (0 ∷ 0 ∷ 0 ∷ [])
      ≡ some (ok scattered))
    × (apply turned scattered (1 ∷ 1 ∷ 1 ∷ []) ≡ some (ok (7 ∷ 8 ∷ 9 ∷ [])))
apply_transpose-apply_example =
    apply_transpose-apply turned (7 ∷ 8 ∷ 9 ∷ []) (0 ∷ 0 ∷ 0 ∷ []) (1 ∷ 1 ∷ 1 ∷ [])
      turn-IsPermutation refl refl refl

sample_below_unbiased_example :
    (sample_below 10 (1234567 ∷ 5 ∷ []) ≡ some (ok 7, 5 ∷ []))
    ↔ ((q : ℕ) × (q < 2 ^ 32 / 10) × (1234567 ≡ q * 10 + 7))
sample_below_unbiased_example =
    sample_below_unbiased 10 7 1234567 (5 ∷ []) (omega arith) (omega arith) (omega arith)

three_small : 3 ≤ small_words (4294967295 ∷ 7 ∷ 12 ∷ 100 ∷ [])
unfolding small_words
three_small = omega arith

sample-IsPermutation_example :
    (p : Permutation) × (rest : List ℕ) × (sample 3 (4294967295 ∷ 7 ∷ 12 ∷ 100 ∷ [])
      ≡ some (ok p, rest))
    × (length p.indices ≡ 3)
    × IsPermutation p.indices
sample-IsPermutation_example =
    sample-IsPermutation 3 (4294967295 ∷ 7 ∷ 12 ∷ 100 ∷ []) (omega arith) three_small
