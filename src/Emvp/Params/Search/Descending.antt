-- ===== src/Emvp/Params/Search/Descending.antt =====
-- The sorted divisors are in descending order and lose none, and the first that is feasible is the largest.
use emvp_thesis.Base.{
  ℕ, ◌≤◌, ◌≡◌, refl, ap, sym, ◌∙◌, inl, inr, some, List, [], ◌∷◌, Bool, true, false, leb, ◌&&◌, All,
  arith, Bool-cases, leb→le, le→leb, leb_false→lt,
}
use emvp_thesis.Base.Action.{Result, ok, err}
use emvp_thesis.Emvp.Params.{EmvpParams}
use emvp_thesis.Emvp.Params.Security.{validate}
use emvp_thesis.Emvp.Params.Search.{insert_descending, sort_descending, is_ok, first_feasible}
use emvp_thesis.Emvp.Params.Search.Divisors.{Has}

abbrev pub IsDescending : List ℕ → Type 0
IsDescending [] = Unit
IsDescending (x ∷ xs) = All (λ y. y ≤ x) xs × IsDescending xs

All-le : (x y : ℕ) (xs : List ℕ) → x ≤ y → All (λ z. z ≤ x) xs → All (λ z. z ≤ y) xs
All-le x y [] h a = tt
All-le x y (z ∷ xs) h a = (omega (arith, h, a.0), All-le x y xs h a.1)

insert_descending-All :
    (bound x : ℕ) (xs : List ℕ)
    → x ≤ bound
    → All (λ z. z ≤ bound) xs
    → All (λ z. z ≤ bound) (insert_descending x xs)
unfolding insert_descending
insert_descending-All bound x [] h a = (h, tt)
insert_descending-All bound x (y ∷ ys) h a = elim (Bool-cases (leb y x)) [
  | inl before ↦ rw (before, insert_descending) (h, a)
  | inr after ↦ rw (after, insert_descending) (a.0, insert_descending-All bound x ys h a.1)
]

insert_descending-IsDescending :
    (x : ℕ) (xs : List ℕ) → IsDescending xs → IsDescending (insert_descending x xs)
unfolding insert_descending
insert_descending-IsDescending x [] h = (tt, tt)
insert_descending-IsDescending x (y ∷ ys) h = elim (Bool-cases (leb y x)) [
  | inl before ↦
      rw (before, insert_descending) ((leb→le y x before, All-le y x ys (leb→le y x before) h.0), h)
  | inr after ↦
      rw (after, insert_descending)
        (
          insert_descending-All y x ys (omega (arith, leb_false→lt y x after)) h.0,
          insert_descending-IsDescending x ys h.1,
        )
]

insert_descending-Has : (z x : ℕ) (xs : List ℕ) → Has z (x ∷ xs) → Has z (insert_descending x xs)
unfolding insert_descending
insert_descending-Has z x [] h = h
insert_descending-Has z x (y ∷ ys) h = elim (Bool-cases (leb y x)) [
  | inl before ↦ rw (before, insert_descending) h
  | inr after ↦
      rw (after, insert_descending) (swapped z x y ys (λ k. insert_descending-Has z x ys k) h)
]
  where
    swapped :
        (z x y : ℕ) (ys : List ℕ)
        → (Has z (x ∷ ys) → Has z (insert_descending x ys))
        → Has z (x ∷ y ∷ ys)
        → Has z (y ∷ insert_descending x ys)
    swapped z x y ys f (inl e) = inr (f (inl e))
    swapped z x y ys f (inr (inl e)) = inl e
    swapped z x y ys f (inr (inr k)) = inr (f (inr k))

pub sort_descending-IsDescending : (xs : List ℕ) → IsDescending (sort_descending xs)
unfolding sort_descending
sort_descending-IsDescending [] = tt
sort_descending-IsDescending (x ∷ xs) =
    insert_descending-IsDescending x (sort_descending xs) (sort_descending-IsDescending xs)

pub sort_descending-Has : (z : ℕ) (xs : List ℕ) → Has z xs → Has z (sort_descending xs)
unfolding sort_descending
sort_descending-Has z [] h = h
sort_descending-Has z (x ∷ xs) (inl e) = insert_descending-Has z x (sort_descending xs) (inl e)
sort_descending-Has z (x ∷ xs) (inr h) =
    insert_descending-Has z x (sort_descending xs) (inr (sort_descending-Has z xs h))

Has-le : (z x : ℕ) (xs : List ℕ) → All (λ y. y ≤ x) xs → Has z xs → z ≤ x
Has-le z x [] a h = absurd h
Has-le z x (y ∷ ys) a (inl e) = omega (arith, e, a.0)
Has-le z x (y ∷ ys) a (inr h) = Has-le z x ys a.1 h

-- What the search returns: valid parameters of the rank, the record length and the level asked for.
pub record IsFeasible (k ell lambda : ℕ) (p : EmvpParams) : Type 0 where
  pub rank : p.k ≡ k
  pub record_length : p.ell ≡ ell
  pub level : p.lambda ≡ lambda
  pub valid : validate p ≡ ok tt

is_ok_inverse : {E : Type 0} (r : Result E (Unit {0})) → is_ok r ≡ true → r ≡ ok tt
is_ok_inverse (ok u) h = refl
is_ok_inverse (err e) h = cc h

passed : (a b : Bool) → (a && b) ≡ true → b ≡ true
passed true b h = h
passed false b h = cc h

some_injective : {A : Type 0} {a b : A} → some a ≡ some b → a ≡ b
some_injective h = cc h

module _ (k ell lambda : ℕ) where
  abbrev pub candidate : ℕ → EmvpParams
  candidate b = record { k = k; ell = ell; b = b; lambda = lambda }

  candidate-IsFeasible :
      (b : ℕ) → is_ok (validate (candidate b)) ≡ true → IsFeasible k ell lambda (candidate b)
  candidate-IsFeasible b h = record {
    rank = refl;
    record_length = refl;
    level = refl;
    valid = is_ok_inverse (validate (candidate b)) h;
  }

  skipped :
      (x b : ℕ) (xs : List ℕ)
      → (leb 2 x && is_ok (validate (candidate x))) ≡ false
      → 2 ≤ b
      → validate (candidate b) ≡ ok tt
      → Has b (x ∷ xs)
      → Has b xs
  skipped x b xs bad large valid (inl e) = absurd (cc (sym bad ∙ sym (ap test e) ∙ tested))
    where
      test : ℕ → Bool
      test z = leb 2 z && is_ok (validate (candidate z))

      tested : test b ≡ true
      tested = rw (le→leb 2 b large, valid) refl
  skipped x b xs bad large valid (inr h) = h

  pub first_feasible-IsFeasible :
      (bs : List ℕ) (p : EmvpParams)
      → first_feasible k ell lambda bs ≡ some p
      → IsFeasible k ell lambda p
  unfolding first_feasible
  first_feasible-IsFeasible [] p h = cc h
  first_feasible-IsFeasible (b ∷ bs) p h =
      elim (Bool-cases (leb 2 b && is_ok (validate (candidate b)))) [
        | inl good ↦
            let e : candidate b ≡ p = some_injective (rw (good, first_feasible) at h) in
            rw (← e) (candidate-IsFeasible b (passed _ _ good))
        | inr bad ↦ first_feasible-IsFeasible bs p (rw (bad, first_feasible) at h)
      ]

  -- In descending order the first feasible block size is at least as large as any other.
  pub first_feasible_largest :
      (bs : List ℕ) (b : ℕ)
      → IsDescending bs
      → Has b bs
      → 2 ≤ b
      → validate (candidate b) ≡ ok tt
      → (p : EmvpParams) × (first_feasible k ell lambda bs ≡ some p) × (b ≤ p.b)
  unfolding first_feasible
  first_feasible_largest [] b order member large valid = absurd member
  first_feasible_largest (x ∷ xs) b order member large valid =
      elim (Bool-cases (leb 2 x && is_ok (validate (candidate x)))) [
        | inl good ↦ (
          candidate x,
          rw (good, first_feasible) refl,
          Has-le b x (x ∷ xs) (omega arith, order.0) member,
        )
        | inr bad ↦
            let rest =
              first_feasible_largest xs b order.1 (skipped x b xs bad large valid member) large
                valid in
            (rest.0, rw (bad, first_feasible) rest.1, rest.2)
      ]
