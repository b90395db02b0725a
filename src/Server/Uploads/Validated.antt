-- ===== src/Server/Uploads/Validated.antt =====
-- An upload set that `validate_upload_views` accepts is well formed, and a well-formed one is accepted.
use emvp_thesis.Base.{
  ℕ, ◌+◌, ◌*◌, ◌<◌, ◌≤◌, ◌≡◌, ◌⊎◌, refl, ap, arith, List, [], ◌∷◌, All, ◌==◌, length, Bool-cases,
  inl, inr, pos→==_zero, checked_mul, checked_add, u64_max, sum_by,
}
use emvp_thesis.Base.Action.{Result, ok, err, for_each, bind_inverse}
use emvp_thesis.Emvp.Params.{code_length, validate_dimensions}
use emvp_thesis.Emvp.Params.Dimensions.{
  IsSized, validate_dimensions-IsSized, IsSized-validate_dimensions,
}
use emvp_thesis.Server.Uploads.{validate_params, validate_upload_shape, validate_upload_views}
use emvp_thesis.Wire.Upload.{UploadMatrixView}

-- The bytes of a matrix of 32-bit words.
abbrev pub footprint : UploadMatrixView → ℕ
footprint v = v.rows * v.columns * 4

-- A matrix of accepted dimensions that is as wide as the code is long.
abbrev pub IsShaped : UploadMatrixView → Type 0
IsShaped v = IsSized v.params × (v.columns ≡ v.params.k * 2)

-- A result that is known to be one or the other.
Result-cases : {E A : Type 0} (r : Result E A) → ((a : A) × (r ≡ ok a)) ⊎ ((e : E) × (r ≡ err e))
Result-cases (ok a) = inl (a, refl)
Result-cases (err e) = inr (e, refl)

shape_inverse :
    (v : UploadMatrixView) (s t : ℕ)
    → validate_upload_shape v.params v.rows v.columns s ≡ (ok tt, t)
    → IsShaped v × (t ≡ s + footprint v) × (s + footprint v ≤ u64_max)
unfolding validate_upload_shape validate_params code_length checked_mul checked_add
shape_inverse v s t h = elim (Result-cases (validate_dimensions v.params)) [
  | inr (e, bad) ↦ cc (rw bad at h)
  | inl (a, good) ↦
      let k = rw good at h in
      ((validate_dimensions-IsSized v.params good, ground arith), ground arith, ground arith)
]

shape-ok :
    (v : UploadMatrixView) (s : ℕ)
    → IsShaped v
    → s + footprint v ≤ u64_max
    → validate_upload_shape v.params v.rows v.columns s ≡ (ok tt, s + footprint v)
unfolding validate_upload_shape validate_params code_length checked_mul checked_add
shape-ok v s (u, w) fits =
    rw (IsSized-validate_dimensions v.params u) (ground (arith, u.length_fits))

sizes_inverse :
    (vs : List UploadMatrixView) (s t : ℕ)
    → for_each (λ (v : UploadMatrixView). validate_upload_shape v.params v.rows v.columns) vs s
      ≡ (ok tt, t)
    → All IsShaped vs × (t ≡ s + sum_by footprint vs)
sizes_inverse [] s t h = (tt, omega (arith, number (cc h)))
  where
    number : s ≡ t → s ≡ t
    number e = e
sizes_inverse (v ∷ vs) s t h =
    let (_, u, first, later) =
      bind_inverse (validate_upload_shape v.params v.rows v.columns) _ s h in
    let (shaped, sum, fits) = shape_inverse v s u first in
    let (all_shaped, total) = sizes_inverse vs u t later in
    ((shaped, all_shaped), omega (arith, sum, total))

sizes-ok :
    (vs : List UploadMatrixView) (s : ℕ)
    → All IsShaped vs
    → s + sum_by footprint vs ≤ u64_max
    → for_each (λ (v : UploadMatrixView). validate_upload_shape v.params v.rows v.columns) vs s
      ≡ (ok tt, s + sum_by footprint vs)
sizes-ok [] s us fits = ap (λ (n : ℕ). (ok tt, n)) (omega arith)
sizes-ok (v ∷ vs) s (u, us) fits =
    rw (shape-ok v s u (omega arith), sizes-ok vs (s + footprint v) us (omega arith))
      (ap (λ (n : ℕ). (ok tt, n)) (omega arith))

-- If `validate_upload_views` accepts a decoded set and returns a total, then the set is not empty, every
-- matrix has accepted dimensions and is as wide as its code is long, and the total is the bytes of all
-- matrices at four bytes a word.
pub validate_upload_views_sound :
    (vs : List UploadMatrixView) (s t total : ℕ)
    → validate_upload_views vs s ≡ (ok total, t)
    → (0 < length vs) × All IsShaped vs × (total ≡ sum_by footprint vs)
unfolding validate_upload_views
validate_upload_views_sound vs s t total h = elim (Bool-cases (length vs == 0)) [
  | inl empty ↦ cc (rw empty at h)
  | inr filled ↦
      let (_, u, each, made) =
        bind_inverse
          (for_each (λ (v : UploadMatrixView). validate_upload_shape v.params v.rows v.columns) vs)
          _ 0 (rw filled at h) in
      let (shaped, sum) = sizes_inverse vs 0 u each in
      let same : u ≡ total = cc made in (ground arith, shaped, omega (arith, sum, same))
]

-- A set that is not empty, of matrices with accepted dimensions that are as wide as their codes are long
-- and whose bytes fit 64 bits, is accepted with the bytes of all matrices as its total.
pub validate_upload_views_complete :
    (vs : List UploadMatrixView) (s : ℕ)
    → 0 < length vs
    → All IsShaped vs
    → sum_by footprint vs ≤ u64_max
    → validate_upload_views vs s ≡ (ok (sum_by footprint vs), sum_by footprint vs)
unfolding validate_upload_views
validate_upload_views_complete vs s filled us fits =
    rw (pos→==_zero (length vs) filled, sizes-ok vs 0 us (omega arith))
      (ap (λ (n : ℕ). (ok n, n)) (omega arith))
