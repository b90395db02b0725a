-- ===== src/Base/Slices.antt =====
-- Slices of an arena: a checked read of a range, and writes in place from an index on.
use Prim.Native.Nat.{ℕ, zero, suc, ◌+◌, ◌-◌}
use mathlib.Core.Path.{◌≡◌, refl, ap, sym, ◌∙◌}
use mathlib.Core.List.{List, [], ◌∷◌, ◌++◌, append_assoc}
use mathlib.Core.Option.{Option, none, some}
use native.Mathlib.Omega.{arith}
use emvp_thesis.Base.Tests.{leb, le→leb, if◌then◌else◌}
use emvp_thesis.Base.Lists.{
  length, set, take, drop, length-append, length-set, take-append, drop-append,
}

module _ {ℓ} {A : Type ℓ} where
  -- `slice.get(start..end)`: `none` past the end, and where the range is reversed.
  unfoldable pub get_range : List A → ℕ → ℕ → Option (List A)
  get_range xs start end =
      if leb start end
      then (if leb end (length xs) then some (take (end - start) (drop start xs)) else none)
      else none

  -- `slice.get(start..)`
  unfoldable pub get_from : List A → ℕ → Option (List A)
  get_from xs start = if leb start (length xs) then some (drop start xs) else none

  -- Writing values one after the other from an index on.
  unfoldable pub write_at : List A → ℕ → List A → List A
  write_at xs i [] = xs
  write_at xs i (v ∷ vs) = write_at (set xs i v) (i + 1) vs

  pub get_range-append :
      (xs ys zs : List A) (start end : ℕ)
      → length xs ≡ start
      → start + length ys ≡ end
      → get_range (xs ++ (ys ++ zs)) start end ≡ some ys
  unfolding get_range
  get_range-append xs ys zs start end h k = rw (
    le→leb start end (omega arith),
    le→leb end (length (xs ++ (ys ++ zs)))
        (omega (arith, length-append xs (ys ++ zs), length-append ys zs)),
    drop-append start xs (ys ++ zs) h,
    take-append (end - start) ys zs (omega arith),
  )

  pub get_from-append :
      (xs ys : List A) (start : ℕ) → length xs ≡ start → get_from (xs ++ ys) start ≡ some ys
  unfolding get_from
  get_from-append xs ys start h = rw (
    le→leb start (length (xs ++ ys)) (omega (arith, length-append xs ys)),
    drop-append start xs ys h,
  )

  set-append :
      (xs ys : List A) (y v : A) (i : ℕ) → length xs ≡ i → set (xs ++ (y ∷ ys)) i v ≡ xs ++ (v ∷ ys)
  set-append [] ys y v zero h = refl
  set-append [] ys y v (suc i) h = absurd (omega arith)
  set-append (x ∷ xs) ys y v zero h = absurd (omega arith)
  set-append (x ∷ xs) ys y v (suc i) h = ap (λ t. x ∷ t) (set-append xs ys y v i (omega arith))

  -- Writing as many values as a middle part holds replaces that part.
  pub write_at-append :
      (xs ys zs vs : List A) (i : ℕ)
      → length xs ≡ i
      → length ys ≡ length vs
      → write_at (xs ++ (ys ++ zs)) i vs ≡ xs ++ (vs ++ zs)
  unfolding write_at
  write_at-append xs [] zs [] i h k = refl
  write_at-append xs (y ∷ ys) zs [] i h k = absurd (omega arith)
  write_at-append xs [] zs (v ∷ vs) i h k = absurd (omega arith)
  write_at-append xs (y ∷ ys) zs (v ∷ vs) i h k =
      ap (λ t. write_at t (i + 1) vs) (set-append xs (ys ++ zs) y v i h)
      ∙ ap (λ t. write_at t (i + 1) vs) (sym (append_assoc xs (v ∷ []) (ys ++ zs)))
      ∙ write_at-append (xs ++ (v ∷ [])) ys zs vs (i + 1) (omega (arith, length-append xs (v ∷ [])))
          (omega arith)
      ∙ append_assoc xs (v ∷ []) (vs ++ zs)

  pub length-write_at : (xs : List A) (i : ℕ) (vs : List A) → length (write_at xs i vs) ≡ length xs
  unfolding write_at
  length-write_at xs i [] = refl
  length-write_at xs i (v ∷ vs) = length-write_at (set xs i v) (i + 1) vs ∙ length-set xs i v

  -- Two runs of writes, the second where the first ended, are one run.
  pub write_at-append_values :
      (xs : List A) (i : ℕ) (vs ws : List A)
      → write_at xs i (vs ++ ws) ≡ write_at (write_at xs i vs) (i + length vs) ws
  unfolding write_at
  write_at-append_values xs i [] ws = ap (λ (j : ℕ). write_at xs j ws) (omega arith)
  write_at-append_values xs i (v ∷ vs) ws =
      write_at-append_values (set xs i v) (i + 1) vs ws
      ∙ ap (λ (j : ℕ). write_at (write_at (set xs i v) (i + 1) vs) j ws) (omega arith)
