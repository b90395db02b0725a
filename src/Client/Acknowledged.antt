-- ===== src/Client/Acknowledged.antt =====
-- What `validate_upload_reply` accepts.
use emvp_thesis.Base.{
  ℕ, ◌≡◌, ◌≢◌, inl, inr, refl, List, [], ◌∷◌, false, All, length, Bool-cases, eq→==, arith,
}
use emvp_thesis.Base.Action.{ok}
use emvp_thesis.Base.Fresh.{
  contains, Distinct, Fresh, Fresh-Distinct, Distinct-Fresh, Unseen-nothing,
}
use emvp_thesis.Client.{repeats, validate_upload_reply}
use mathlib.Core.Logic.{◌↔◌}

repeats-Fresh : (before ids : List ℕ) → repeats before ids ≡ false → Fresh before ids
unfolding repeats
repeats-Fresh before [] h = tt
repeats-Fresh before (x ∷ ids) h = elim (Bool-cases (contains x before)) [
  | inl old ↦ cc (rw old at h)
  | inr new ↦ (new, repeats-Fresh (x ∷ before) ids (rw new at h))
]

Fresh-repeats : (before ids : List ℕ) → Fresh before ids → repeats before ids ≡ false
unfolding repeats
Fresh-repeats before [] h = refl
Fresh-repeats before (x ∷ ids) h = rw h.0 (Fresh-repeats (x ∷ before) ids h.1)

contains_zero : (ids : List ℕ) → contains 0 ids ≡ false → All (λ i. i ≢ 0) ids
contains_zero [] h = tt
contains_zero (x ∷ ids) h = (ground arith, contains_zero ids (ground arith))

zero_free : (ids : List ℕ) → All (λ i. i ≢ 0) ids → contains 0 ids ≡ false
zero_free [] h = refl
zero_free (x ∷ ids) h = ground (arith, zero_free ids h.1)

-- For every list of identifiers and number of uploaded matrices, the acknowledgment is accepted exactly
-- when it has one identifier for each matrix, none of them zero and no two of them equal.
pub validate_upload_reply_exact :
    (identifiers : List ℕ) (uploaded : ℕ)
    → (validate_upload_reply identifiers uploaded ≡ ok tt)
      ↔ ((length identifiers ≡ uploaded) × All (λ i. i ≢ 0) identifiers × Distinct identifiers)
unfolding validate_upload_reply
validate_upload_reply_exact identifiers uploaded = (
  λ h. (
    ground arith,
    contains_zero identifiers (ground arith),
    (Fresh-Distinct [] identifiers (repeats-Fresh [] identifiers (ground arith))).1,
  ),
  λ h.
      rw
        (
          eq→== (length identifiers) uploaded h.0,
          zero_free identifiers h.1,
          Fresh-repeats [] identifiers
              (Distinct-Fresh [] identifiers (Unseen-nothing identifiers) h.2),
        )
        refl,
)
