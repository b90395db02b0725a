-- ===== src/Trapdoor/Sampling/Shuffled.antt =====
-- `Permutation::sample` returns a permutation once the generator delivers enough words.
use emvp_thesis.Base.{
  ℕ, zero, suc, ◌^◌, ◌<◌, ◌≤◌, ◌≡◌, refl, some, List, length, le→ltb, pos→==_zero, arith,
}
use emvp_thesis.Base.Action.{ok}
use emvp_thesis.Trapdoor.Permutation.{Permutation}
use emvp_thesis.Trapdoor.Permutation.Accepted.{IsPermutation}
use emvp_thesis.Trapdoor.Sampling.{sample_below, range_from, shuffle, sample}
use emvp_thesis.Trapdoor.Sampling.Arranged.{
  IsArranged, IsArranged-IsPermutation, range_from-IsArranged, swap-IsArranged,
}
use emvp_thesis.Trapdoor.Sampling.Unbiased.{small_words, accept_loop_draws}

sample_below_draws :
    (u count : ℕ) (words : List ℕ)
    → suc u ≤ 2 ^ 32
    → suc count ≤ small_words words
    → (v : ℕ) × (rest : List ℕ) × (sample_below (suc u) words ≡ some (ok v, rest))
      × (v < suc u)
      × (count ≤ small_words rest)
unfolding sample_below
sample_below_draws u count words fits enough =
    rw (pos→==_zero (suc u) (omega arith), le→ltb (2 ^ 32) (suc u) fits)
      (accept_loop_draws (suc u) count words (omega arith) fits enough)

shuffle-IsArranged :
    (n upper : ℕ) (xs words : List ℕ)
    → IsArranged n xs
    → upper ≤ n
    → n ≤ 2 ^ 32
    → upper ≤ small_words words
    → (ys : List ℕ) × (rest : List ℕ) × (shuffle upper xs words ≡ some (ok ys, rest))
      × IsArranged n ys
unfolding shuffle
shuffle-IsArranged n zero xs words h le fits enough = (xs, words, refl, h)
shuffle-IsArranged n (suc zero) xs words h le fits enough = (xs, words, refl, h)
shuffle-IsArranged n (suc (suc u)) xs words h le fits enough =
    let (v, rest, drawn, below, left) =
      sample_below_draws (suc u) (suc u) words (omega arith) enough in
    let (ys, same, h') = swap-IsArranged n (suc u) v xs h (omega arith) (omega (arith, below)) in
    let r = shuffle-IsArranged n (suc u) ys rest h' (omega arith) fits left in
    (r.0, r.1, rw (drawn, same, shuffle) r.2, r.3)

-- For every length n of at most 2^32 and a generator with at least n words below 2^31 among those it
-- still delivers, `Permutation::sample` returns a permutation of 0 to n - 1.
pub sample-IsPermutation :
    (n : ℕ) (words : List ℕ)
    → n ≤ 2 ^ 32
    → n ≤ small_words words
    → (p : Permutation) × (rest : List ℕ) × (sample n words ≡ some (ok p, rest))
      × (length p.indices ≡ n)
      × IsPermutation p.indices
unfolding sample
sample-IsPermutation n words fits enough =
    let r =
      shuffle-IsArranged n n (range_from 0 n) words (range_from-IsArranged n) (omega arith) fits
        enough in
    (
      record { indices = r.0 },
      r.1,
      rw (le→ltb (2 ^ 32) n fits, r.2) refl,
      r.3.size,
      IsArranged-IsPermutation n r.0 r.3,
    )
