-- ===== src/Trapdoor/Sampling.antt =====
-- `sample_below` and `Permutation::sample` of `trapdoor-matrices/src/permutation.rs`. The random generator
-- is the list of the 32-bit words that it still delivers; none means that they ran out, or a panic.
pub mod Unbiased
pub mod Arranged
pub mod Shuffled
use emvp_thesis.Base.{
  ℕ, zero, suc, ◌+◌, ◌*◌, ◌/◌, ◌%◌, ◌^◌, Option, none, some, List, [], ◌∷◌, Bool, true, false, ltb,
  ◌==◌, ◌||◌, if◌then◌else◌, get_elem?, set,
}
use emvp_thesis.Base.Action.{Result, ok, err}
use emvp_thesis.Trapdoor.Error.{TdmError, sampling_range_too_large}
use emvp_thesis.Trapdoor.Permutation.{Permutation}

abbrev pub Draw : Type 0 → Type 0
Draw A = Option (Result TdmError A × List ℕ)

-- The largest multiple of the bound in 2^32.
pub acceptance_bound : ℕ → ℕ
acceptance_bound bound = 2 ^ 32 / bound * bound

-- The loop, one word a round.
pub accept_loop : ℕ → List ℕ → Draw ℕ
accept_loop bound [] = none
accept_loop bound (word ∷ words) = elim (ltb word (acceptance_bound bound)) [
  | true ↦ some (ok (word % bound), words)
  | false ↦ accept_loop bound words
]

pub sample_below : ℕ → List ℕ → Draw ℕ
sample_below upper_bound words =
    if (upper_bound == 0) || ltb (2 ^ 32) upper_bound
    then some (err (sampling_range_too_large upper_bound), words)
    else accept_loop upper_bound words

-- `(from..from + count).collect()`
pub range_from : ℕ → ℕ → List ℕ
range_from start zero = []
range_from start (suc count) = start ∷ range_from (start + 1) count

abbrev swapped : List ℕ → ℕ → ℕ → Option ℕ → Option ℕ → Option (List ℕ)
swapped xs i j none second = none
swapped xs i j (some a) none = none
swapped xs i j (some a) (some b) = some (set (set xs i b) j a)

-- `slice::swap`, which panics out of range.
pub swap : List ℕ → ℕ → ℕ → Option (List ℕ)
swap xs i j = swapped xs i j (get_elem? xs i) (get_elem? xs j)

-- `for upper in (2..=length).rev()`
pub shuffle : ℕ → List ℕ → List ℕ → Draw (List ℕ)
shuffle zero indices words = some (ok indices, words)
shuffle (suc zero) indices words = some (ok indices, words)
shuffle (suc (suc u)) indices words = elim (sample_below (suc (suc u)) words) [
  | none ↦ none
  | some draw ↦ elim draw.0 [
    | err e ↦ some (err e, draw.1)
    | ok selected ↦ elim (swap indices (suc u) selected) [
      | none ↦ none
      | some indices' ↦ shuffle (suc u) indices' draw.1
    ]
  ]
]

abbrev permutation_of : Draw (List ℕ) → Draw Permutation
permutation_of none = none
permutation_of (some (ok indices, words)) = some (ok (record { indices = indices }), words)
permutation_of (some (err e, words)) = some (err e, words)

-- `Permutation::sample`
pub sample : ℕ → List ℕ → Draw Permutation
sample length words =
    if ltb (2 ^ 32) length
    then some (err (sampling_range_too_large length), words)
    else permutation_of (shuffle length (range_from 0 length) words)
