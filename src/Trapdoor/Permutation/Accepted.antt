-- ===== src/Trapdoor/Permutation/Accepted.antt =====
-- `Permutation::new` accepts exactly the lists of distinct indices below their length.
use emvp_thesis.Base.{
  ℕ, ◌+◌, ◌<◌, ◌≡◌, refl, ap, sym, ◌∙◌, ◌≢◌, some, List, [], ◌∷◌, Bool, true, false, length,
  get_elem?, set, replicate, All, length-replicate, Option-cases, Bool-cases, ◌⊎◌, inl, inr, ◌==◌,
  arith,
}
use emvp_thesis.Base.Entries.{
  All-map, get_elem?_lt, get_elem?-set_self, get_elem?-set_other, get_elem?-replicate,
}
use emvp_thesis.Base.Action.{ok, Result-cases}
use emvp_thesis.Trapdoor.Permutation.{check_indices, new}
use mathlib.Core.Logic.{◌↔◌}

abbrev pub Distinct : List ℕ → Type 0
Distinct [] = Unit
Distinct (x ∷ xs) = All (λ y. x ≢ y) xs × Distinct xs

-- A rearrangement of 0 to length - 1.
pub record IsPermutation (indices : List ℕ) : Type 0 where
  pub in_range : All (λ i. i < length indices) indices
  pub distinct : Distinct indices

-- A slot that is marked or out of range.
abbrev IsOpen : List Bool → ℕ → Type 0
IsOpen seen i = get_elem? seen i ≡ some false

pub nat_cases : (i j : ℕ) → (i ≡ j) ⊎ (i ≢ j)
nat_cases i j = elim (Bool-cases (i == j)) [
  | inl same ↦ inl (ground arith)
  | inr apart ↦ inr (λ e. ground arith)
]

-- A slot that is open after another one was marked was open before, and is another slot.
still-IsOpen :
    (seen : List Bool) (i j : ℕ)
    → i < length seen
    → IsOpen (set seen i true) j
    → (i ≢ j) × IsOpen seen j
still-IsOpen seen i j h o = elim (nat_cases i j) [
  | inl same ↦ cc (get_elem?-set_self seen i true h, o, same)
  | inr apart ↦ (apart, sym (get_elem?-set_other seen i j true apart) ∙ o)
]

-- From any slots on, the loop accepts only distinct indices whose slots are open.
check_indices_sound :
    (position : ℕ) (indices : List ℕ) (seen after : List Bool)
    → check_indices position indices seen ≡ ok after
    → All (IsOpen seen) indices × Distinct indices
unfolding check_indices
check_indices_sound position [] seen after h = (tt, tt)
check_indices_sound position (i ∷ is) seen after h = elim (Option-cases (get_elem? seen i)) [
  | inl outside ↦ cc (rw (outside, check_indices) at h)
  | inr slot ↦ elim (Bool-cases slot.0) [
    | inl marked ↦ cc (rw (slot.1, marked, check_indices) at h)
    | inr open_slot ↦
        let rest =
          check_indices_sound (position + 1) is (set seen i true) after
            (rw (slot.1, open_slot, check_indices) at h) in
        let below = get_elem?_lt seen i slot.1 in
        (
          (
            slot.1 ∙ ap some open_slot,
            All-map is (λ j o. (still-IsOpen seen i j below o).1) rest.0,
          ),
          (All-map is (λ j o. (still-IsOpen seen i j below o).0) rest.0, rest.1),
        )
  ]
]

check_indices_complete :
    (position : ℕ) (indices : List ℕ) (seen : List Bool)
    → All (IsOpen seen) indices
    → Distinct indices
    → (after : List Bool) × (check_indices position indices seen ≡ ok after)
unfolding check_indices
check_indices_complete position [] seen o d = (seen, refl)
check_indices_complete position (i ∷ is) seen o d =
    let rest = check_indices_complete (position + 1) is (set seen i true) (opened is o.1 d.0) d.1 in
    (rest.0, rw (o.0, check_indices) rest.1)
  where
    opened :
        (js : List ℕ)
        → All (IsOpen seen) js
        → All (λ j. i ≢ j) js
        → All (IsOpen (set seen i true)) js
    opened [] a b = tt
    opened (j ∷ js) a b = (get_elem?-set_other seen i j true b.0 ∙ a.0, opened js a.1 b.1)

sound : (indices : List ℕ) → new indices ≡ ok (record { indices = indices }) → IsPermutation indices
unfolding new
sound indices h = elim (Result-cases (check_indices 0 indices (replicate (length indices) false))) [
  | inl bad ↦ cc (rw (bad.1, new) at h)
  | inr good ↦
      let r = check_indices_sound 0 indices (replicate (length indices) false) good.0 good.1 in
      record {
        in_range =
            All-map indices
              (λ i o. omega (
                arith,
                get_elem?_lt (replicate (length indices) false) i o,
                length-replicate (length indices) false,
              ))
              r.0;
        distinct = r.1;
      }
]

complete :
    (indices : List ℕ) → IsPermutation indices → new indices ≡ ok (record { indices = indices })
unfolding new
complete indices p =
    let r =
      check_indices_complete 0 indices (replicate (length indices) false)
        (All-map indices (λ i h. get_elem?-replicate (length indices) i false h) p.in_range)
        p.distinct in
    rw (r.1, new) refl

-- For every list of indices, `Permutation::new` accepts it, and keeps it, exactly when each index is below
-- the length of the list and no index stands in it twice.
pub new-IsPermutation :
    (indices : List ℕ) → (new indices ≡ ok (record { indices = indices })) ↔ IsPermutation indices
new-IsPermutation indices = (sound indices, complete indices)
