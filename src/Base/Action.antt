-- ===== src/Base/Action.antt =====
-- Operations that change a state and may return early with an error: what was changed before the
-- error stays changed, so the state comes back beside either outcome.
use mathlib.Core.Path.{◌≡◌, refl, ap, ◌∙◌}
use mathlib.Core.Logic.{◌⊎◌, inl, inr}
use mathlib.Core.Bool.{Bool, true, false}
use mathlib.Core.List.{List, [], ◌∷◌}
use mathlib.Core.Option.{Option, none, some}

pub data Result {ℓ κ} (E : Type κ) (A : Type ℓ) : Type (ℓ ⊔ κ) where
  ok : A → Result E A
  err : E → Result E A

abbrev pub Action : Type 0 → Type 0 → Type 0 → Type 0
Action S E A = S → Result E A × S

module _ {S E A : Type 0} where
  abbrev pub pure : A → Action S E A
  pure a s = (ok a, s)

  abbrev pub fail : E → Action S E A
  fail e s = (err e, s)

  abbrev pub gets : (S → A) → Action S E A
  gets f s = (ok (f s), s)

  -- `option.ok_or(error)?`
  abbrev pub ok_or : E → Option A → Action S E A
  ok_or e none s = (err e, s)
  ok_or e (some a) s = (ok a, s)

  abbrev pub lift : Result E A → Action S E A
  lift r s = (r, s)

abbrev pub modify : {S E : Type 0} → (S → S) → Action S E (Unit {0})
modify f s = (ok tt, f s)

-- `if !test { return Err(e) }`
abbrev pub ensure : {S E : Type 0} → Bool → E → Action S E (Unit {0})
ensure true e s = (ok tt, s)
ensure false e s = (err e, s)

module _ {S E A B : Type 0} where
  abbrev pub continue : Result E A → (A → Action S E B) → Action S E B
  continue (ok a) f s = f a s
  continue (err e) f s = (err e, s)

  infixl 5 ◌>>=◌ ◌>>◌
  abbrev pub ◌>>=◌ : Action S E A → (A → Action S E B) → Action S E B
  ◌>>=◌ m f s = let (r, t) = m s in continue r f t

  abbrev pub ◌>>◌ : Action S E A → Action S E B → Action S E B
  m >> n = m >>= λ _. n

  -- The rule for a step that returns a value.
  pub bind_ok :
      (m : Action S E A) (f : A → Action S E B) (s : S) {t u : S} {a : A} {r : Result E B}
      → m s ≡ (ok a, t)
      → f a t ≡ (r, u)
      → (m >>= f) s ≡ (r, u)
  bind_ok m f s h k = ap (λ (p : Result E A × S). continue p.0 f p.1) h ∙ k

  -- The rule for a step that fails.
  pub bind_err :
      (m : Action S E A) (f : A → Action S E B) (s : S) {t : S} {e : E}
      → m s ≡ (err e, t)
      → (m >>= f) s ≡ (err e, t)
  bind_err m f s h = ap (λ (p : Result E A × S). continue p.0 f p.1) h

  -- A step that succeeds has run both of its parts.
  bound :
      (p : Result E A × S) (f : A → Action S E B) {b : B} {u : S}
      → continue p.0 f p.1 ≡ (ok b, u)
      → (a : A) × (t : S) × (p ≡ (ok a, t)) × (f a t ≡ (ok b, u))
  bound (ok a, t) f h = (a, t, refl, h)
  bound (err e, t) f h = cc h

  pub bind_inverse :
      (m : Action S E A) (f : A → Action S E B) (s : S) {b : B} {u : S}
      → (m >>= f) s ≡ (ok b, u)
      → (a : A) × (t : S) × (m s ≡ (ok a, t)) × (f a t ≡ (ok b, u))
  bind_inverse m f s h = bound (m s) f h

module _ {S E A B : Type 0} where
  failed_in :
      (p : Result E A × S) (f : A → Action S E B) {e : E} {u : S}
      → continue p.0 f p.1 ≡ (err e, u)
      → (p ≡ (err e, u)) ⊎ ((a : A) × (t : S) × (p ≡ (ok a, t)) × (f a t ≡ (err e, u)))
  failed_in (ok a, t) f h = inr (a, t, refl, h)
  failed_in (err e, t) f h = inl (cc h)

  -- A step that fails has failed in one of its parts.
  pub bind_err_inverse :
      (m : Action S E A) (f : A → Action S E B) (s : S) {e : E} {u : S}
      → (m >>= f) s ≡ (err e, u)
      → (m s ≡ (err e, u)) ⊎ ((a : A) × (t : S) × (m s ≡ (ok a, t)) × (f a t ≡ (err e, u)))
  bind_err_inverse m f s h = failed_in (m s) f h

-- A check that passed was true and changed nothing.
pub ensure_inverse :
    {S E : Type 0} (test : Bool) (e : E) (s : S) {u : S}
    → ensure test e s ≡ (ok tt, u)
    → (test ≡ true) × (s ≡ u)
ensure_inverse true e s h = (refl, cc h)
ensure_inverse false e s h = cc h

pub ok_or_inverse :
    {S E A : Type 0} (e : E) (o : Option A) (s : S) {a : A} {u : S}
    → ok_or e o s ≡ (ok a, u)
    → (o ≡ some a) × (s ≡ u)
ok_or_inverse e none s h = cc h
ok_or_inverse e (some a) s h = (cc h, cc h)

-- `for item in items { body(item)?; }`
abbrev pub for_each :
    {S E A : Type 0} → (A → Action S E (Unit {0})) → List A → Action S E (Unit {0})
for_each body [] = pure tt
for_each body (x ∷ xs) = body x >> for_each body xs

pub Result-cases {ℓ κ} :
    {E : Type κ} {A : Type ℓ} (r : Result E A) → ((e : E) × (r ≡ err e)) ⊎ ((a : A) × (r ≡ ok a))
Result-cases (err e) = inl (e, refl)
Result-cases (ok a) = inr (a, refl)
