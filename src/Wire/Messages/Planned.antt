-- ===== src/Wire/Messages/Planned.antt =====
-- What `plan_upload_accepted` takes from a frame: a count and so many identifiers.
use emvp_thesis.Base.{
  ℕ, zero, suc, ◌<◌, ◌≡◌, ◌==◌, refl, sym, ap, ◌∙◌, arith, List, [], ◌∷◌, ◌++◌, length, All, ltb,
  not, true, Bool-cases, inl, inr, checked_mul, append-nil,
}
use emvp_thesis.Base.Action.{ok, ensure, ensure_inverse, ok_or_inverse}
use emvp_thesis.Base.Vector.{Allocator}
use emvp_thesis.Base.Words.{to_le_bytes}
use emvp_thesis.Wire.Error.{invalid_dimensions, dimension_overflow, allocation_failed}
use emvp_thesis.Wire.Frame.{FrameReader, host_len}
use mathlib.Core.Path.{ap₂}
use emvp_thesis.Wire.Frame.Parses.{
  Parses, Parses-bind, Parses-pure, Parses-check, Parses-word, host_len_inverse,
}
use emvp_thesis.Wire.Plan.{mul_or_overflow, reserve_table, require_exact_bytes}
use emvp_thesis.Wire.Messages.{accepted_identifiers, plan_upload_accepted}
use emvp_thesis.Wire.Messages.Payload.{IsIdentifier, identifier_table, accepted_payload}

-- The table of so many identifiers.
abbrev IsTable : ℕ → List ℕ → List ℕ → Type 0
IsTable count ids bs = (length ids ≡ count) × All IsIdentifier ids × (bs ≡ identifier_table ids)

positive : (n : ℕ) → not (n == 0) ≡ true → 0 < n
positive n h = ground arith

accepted_identifiers-Parses : (count : ℕ) → Parses (accepted_identifiers count) (IsTable count)
unfolding accepted_identifiers
accepted_identifiers-Parses zero = Parses-pure [] (IsTable zero) (refl, tt, refl)
accepted_identifiers-Parses (suc count) = Parses-word 8 _ (IsTable (suc count)) (λ id small.
    Parses-check (ensure (not (id == 0)) (invalid_dimensions "matrix identifier" 0)) _ (λ _. 0 < id)
      _
      (λ f g _ passed.
        let (test, kept) = ensure_inverse (not (id == 0)) _ f passed in (positive id test, kept))
      (λ _ above.
        Parses-bind (accepted_identifiers count) _ (IsTable count) _
          (accepted_identifiers-Parses count)
          (λ ids bs table. Parses-pure (id ∷ ids) _ (
            ap suc table.0,
            ((above, small), table.1),
            ap (λ t. to_le_bytes 8 id ++ t) (append-nil bs ∙ table.2),
          ))))

require_exact_bytes_kept :
    (n : ℕ) (f g : FrameReader) → require_exact_bytes n f ≡ (ok tt, g) → f ≡ g
unfolding require_exact_bytes
require_exact_bytes_kept n f g h = elim (Bool-cases (ltb n f.remaining)) [
  | inl more ↦ cc (rw more at h)
  | inr rest ↦ elim (Bool-cases (ltb f.remaining n)) [
    | inl less ↦ cc (rw (rest, less) at h)
    | inr equal ↦ cc (rw (rest, equal) at h)
  ]
]

pub plan_upload_accepted-Parses :
    (allocator : Allocator)
    → Parses
        (plan_upload_accepted allocator)
        (λ plan bs. All IsIdentifier plan.identifiers × (bs ≡ accepted_payload plan.identifiers))
unfolding plan_upload_accepted reserve_table
plan_upload_accepted-Parses allocator = Parses-word 8 _ _ (λ count small.
    Parses-check (mul_or_overflow count 8) _ (λ _. Unit {0}) _
      (λ f g n e. (tt, (ok_or_inverse dimension_overflow (checked_mul count 8) f e).1))
      (λ region _.
        Parses-check (require_exact_bytes region) _ (λ _. Unit {0}) _
          (λ f g _ e. (tt, require_exact_bytes_kept region f g e))
          (λ _ _.
            Parses-check (host_len "identifier count" count) _ (λ hosted. count ≡ hosted) _
              (λ f g n e. host_len_inverse "identifier count" count n f g e)
              (λ hosted same.
                Parses-check (reserve_table allocator hosted) _ (λ _. Unit {0}) _
                  (λ f g _ e. (tt, (ensure_inverse _ allocation_failed f e).1))
                  (λ _ _.
                    Parses-bind (accepted_identifiers hosted) _ (IsTable hosted) _
                      (accepted_identifiers-Parses hosted)
                      (λ ids bs table.
                        Parses-pure (record { identifiers = ids }) _
                          (
                            table.1,
                            ap₂ (λ n t. to_le_bytes 8 n ++ t) (same ∙ sym table.0)
                                (append-nil bs ∙ table.2),
                          )))))))
