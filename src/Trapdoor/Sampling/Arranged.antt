-- ===== src/Trapdoor/Sampling/Arranged.antt =====
-- Rearrangements of 0 to n - 1 by their entries, and that a swap keeps one.
use emvp_thesis.Base.{
  ℕ, zero, suc, ◌+◌, ◌<◌, ◌≡◌, refl, ap, sym, ◌∙◌, ◌≢◌, ◌⊎◌, inl, inr, some, List, [], ◌∷◌, length,
  get_elem?, set, All, length-set, arith,
}
use emvp_thesis.Base.Entries.{get_elem?_lt, lt_get_elem?, get_elem?-set_self, get_elem?-set_other}
use emvp_thesis.Trapdoor.Permutation.Accepted.{Distinct, IsPermutation, nat_cases}
use emvp_thesis.Trapdoor.Sampling.{range_from, swap}

-- Every entry is below n, and no two positions have the same one.
pub record IsArranged (n : ℕ) (xs : List ℕ) : Type 0 where
  pub size : length xs ≡ n
  pub in_range : (i a : ℕ) → get_elem? xs i ≡ some a → a < n
  pub apart : (i j a : ℕ) → get_elem? xs i ≡ some a → get_elem? xs j ≡ some a → i ≡ j

All-entries :
    {P : ℕ → Type 0} (xs : List ℕ) → ((i a : ℕ) → get_elem? xs i ≡ some a → P a) → All P xs
All-entries [] f = tt
All-entries (x ∷ xs) f = (f 0 x refl, All-entries xs (λ i. f (suc i)))

apart-Distinct :
    (xs : List ℕ)
    → ((i j a : ℕ) → get_elem? xs i ≡ some a → get_elem? xs j ≡ some a → i ≡ j)
    → Distinct xs
apart-Distinct [] f = tt
apart-Distinct (x ∷ xs) f = (
  All-entries xs (λ i a h e. absurd (omega (arith, f 0 (suc i) a (ap some e) h))),
  apart-Distinct xs (λ i j a h k. omega (arith, f (suc i) (suc j) a h k)),
)

pub IsArranged-IsPermutation : (n : ℕ) (xs : List ℕ) → IsArranged n xs → IsPermutation xs
IsArranged-IsPermutation n xs h = record {
  in_range = All-entries xs (λ i a e. omega (arith, h.in_range i a e, h.size));
  distinct = apart-Distinct xs h.apart;
}

range_entry :
    (start count i a : ℕ)
    → get_elem? (range_from start count) i ≡ some a
    → (a ≡ start + i) × (i < count)
unfolding range_from
range_entry start zero i a h = cc h
range_entry start (suc count) zero a h = (let e : start ≡ a = cc h in omega arith, omega arith)
range_entry start (suc count) (suc i) a h =
    let r = range_entry (start + 1) count i a h in (omega (arith, r.0), omega (arith, r.1))

length-range_from : (start count : ℕ) → length (range_from start count) ≡ count
unfolding range_from
length-range_from start zero = refl
length-range_from start (suc count) = ap suc (length-range_from (start + 1) count)

pub range_from-IsArranged : (n : ℕ) → IsArranged n (range_from 0 n)
range_from-IsArranged n = record {
  size = length-range_from 0 n;
  in_range = λ i a h. omega (arith, range_entry 0 n i a h);
  apart = λ i j a h k. omega (arith, range_entry 0 n i a h, range_entry 0 n j a k);
}

-- Position m before the swap of i and j is position k after it.
abbrev IsMoved : ℕ → ℕ → ℕ → ℕ → Type 0
IsMoved i j k m = ((k ≡ j) × (m ≡ i)) ⊎ (((k ≡ i) × (m ≡ j)) ⊎ ((k ≢ i) × (k ≢ j) × (m ≡ k)))

moved_unique : (i j k l m m' : ℕ) → IsMoved i j k m → IsMoved i j l m' → m ≡ m' → k ≡ l
moved_unique i j k l m m' a b e = ground arith

module _ (xs : List ℕ) (i j a b : ℕ) (hi : get_elem? xs i ≡ some a)
    (hj : get_elem? xs j ≡ some b) where
  swapped_entry :
      (k c : ℕ)
      → get_elem? (set (set xs i b) j a) k ≡ some c
      → (m : ℕ) × IsMoved i j k m × (get_elem? xs m ≡ some c)
  swapped_entry k c h = elim (nat_cases j k) [
    | inl at_j ↦ (
      i,
      inl (sym at_j, refl),
      hi
          ∙ sym (
              get_elem?-set_self (set xs i b) j a
                (omega (arith, length-set xs i b, get_elem?_lt xs j hj)))
          ∙ ap (get_elem? (set (set xs i b) j a)) at_j
          ∙ h,
    )
    | inr not_j ↦
        let before : get_elem? (set xs i b) k ≡ some c =
          sym (get_elem?-set_other (set xs i b) j k a not_j) ∙ h in
        elim (nat_cases i k) [
          | inl at_i ↦ (
            j,
            inr (inl (sym at_i, refl)),
            hj
                ∙ sym (get_elem?-set_self xs i b (get_elem?_lt xs i hi))
                ∙ ap (get_elem? (set xs i b)) at_i
                ∙ before,
          )
          | inr not_i ↦ (
            k,
            inr (inr (λ e. not_i (sym e), λ e. not_j (sym e), refl)),
            sym (get_elem?-set_other xs i k b not_i) ∙ before,
          )
        ]
  ]

  set-IsArranged : (n : ℕ) → IsArranged n xs → IsArranged n (set (set xs i b) j a)
  set-IsArranged n h = record {
    size = length-set (set xs i b) j a ∙ length-set xs i b ∙ h.size;
    in_range = λ k c e. let m = swapped_entry k c e in h.in_range m.0 c m.2;
    apart = λ k l c e f.
        let m = swapped_entry k c e in
        let m' = swapped_entry l c f in
        moved_unique i j k l m.0 m'.0 m.1 m'.1 (h.apart m.0 m'.0 c m.2 m'.2);
  }

pub swap-IsArranged :
    (n i j : ℕ) (xs : List ℕ)
    → IsArranged n xs
    → i < n
    → j < n
    → (ys : List ℕ) × (swap xs i j ≡ some ys) × IsArranged n ys
unfolding swap
swap-IsArranged n i j xs h below_i below_j =
    let a = lt_get_elem? xs i (omega (arith, h.size)) in
    let b = lt_get_elem? xs j (omega (arith, h.size)) in
    (set (set xs i b.0) j a.0, rw (a.1, b.1) refl, set-IsArranged xs i j a.0 b.0 a.1 b.1 n h)
