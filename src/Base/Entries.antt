-- ===== src/Base/Entries.antt =====
-- Entries of lists: where they are, and what a write leaves of them.
use Prim.Native.Nat.{ℕ, zero, suc, ◌+◌, ◌-◌, ◌*◌, ◌<◌, ◌≤◌}
use mathlib.Core.Path.{◌≡◌, refl, ap, ◌∙◌}
use mathlib.Core.Logic.{◌≢◌}
use mathlib.Core.Option.{some}
use mathlib.Core.List.{List, [], ◌∷◌}
use native.Mathlib.Omega.{arith}
use emvp_thesis.Base.Lists.{length, get_elem?, set, take, drop, replicate, All}
use emvp_thesis.Base.Slices.{get_range}
use emvp_thesis.Base.Tests.{le→leb}

-- An entry that is there lies below the length, and the other way round.
pub get_elem?_lt {ℓ} :
    {A : Type ℓ} (xs : List A) (i : ℕ) {a : A} → get_elem? xs i ≡ some a → i < length xs
get_elem?_lt [] i h = cc h
get_elem?_lt (x ∷ xs) zero h = omega arith
get_elem?_lt (x ∷ xs) (suc i) h = omega (arith, get_elem?_lt xs i h)

pub lt_get_elem? {ℓ} :
    {A : Type ℓ} (xs : List A) (i : ℕ) → i < length xs → (a : A) × (get_elem? xs i ≡ some a)
lt_get_elem? [] i h = elim h [ ]
lt_get_elem? (x ∷ xs) zero h = (x, refl)
lt_get_elem? (x ∷ xs) (suc i) h = lt_get_elem? xs i (omega arith)

pub get_elem?-set_self {ℓ} :
    {A : Type ℓ} (xs : List A) (i : ℕ) (v : A) → i < length xs → get_elem? (set xs i v) i ≡ some v
get_elem?-set_self [] i v h = elim h [ ]
get_elem?-set_self (x ∷ xs) zero v h = refl
get_elem?-set_self (x ∷ xs) (suc i) v h = get_elem?-set_self xs i v (omega arith)

pub get_elem?-set_other {ℓ} :
    {A : Type ℓ} (xs : List A) (i j : ℕ) (v : A) → i ≢ j → get_elem? (set xs i v) j ≡ get_elem? xs j
get_elem?-set_other [] i j v h = refl
get_elem?-set_other (x ∷ xs) zero zero v h = absurd (h refl)
get_elem?-set_other (x ∷ xs) zero (suc j) v h = refl
get_elem?-set_other (x ∷ xs) (suc i) zero v h = refl
get_elem?-set_other (x ∷ xs) (suc i) (suc j) v h = get_elem?-set_other xs i j v (λ e. h (ap suc e))

pub get_elem?-replicate {ℓ} :
    {A : Type ℓ} (n i : ℕ) (a : A) → i < n → get_elem? (replicate n a) i ≡ some a
get_elem?-replicate zero i a h = elim h [ ]
get_elem?-replicate (suc n) zero a h = refl
get_elem?-replicate (suc n) (suc i) a h = get_elem?-replicate n i a (omega arith)

pub All-map {ℓ κ} :
    {A : Type ℓ} {P Q : A → Type κ} (xs : List A) → ((x : A) → P x → Q x) → All P xs → All Q xs
All-map [] f h = tt
All-map (x ∷ xs) f h = (f x h.0, All-map xs f h.1)

-- What a drop leaves, and a slice of one block.
pub drop-drop {ℓ} : {A : Type ℓ} (a b : ℕ) (xs : List A) → drop b (drop a xs) ≡ drop (a + b) xs
drop-drop zero b xs = let e : b ≡ zero + b = omega arith in ap (λ k. drop k xs) e
drop-drop (suc a) zero [] = let e : suc a ≡ suc a + zero = omega arith in ap (λ k. drop k []) e
drop-drop (suc a) (suc b) [] =
    let e : suc (a + suc b) ≡ suc a + suc b = omega arith in ap (λ k. drop k []) e
drop-drop (suc a) b (x ∷ xs) =
    let e : suc (a + b) ≡ suc a + b = omega arith in drop-drop a b xs ∙ ap (λ k. drop k (x ∷ xs)) e

pub drop-none {ℓ} : {A : Type ℓ} (s : ℕ) (xs : List A) → drop (0 * s) xs ≡ xs
drop-none s xs = let e : 0 * s ≡ 0 = omega arith in ap (λ k. drop k xs) e

pub get_elem?-drop {ℓ} :
    {A : Type ℓ} (i : ℕ) (xs : List A) {y : A} {ys : List A}
    → drop i xs ≡ y ∷ ys
    → (get_elem? xs i ≡ some y) × (drop (i + 1) xs ≡ ys)
get_elem?-drop zero [] h = cc h
get_elem?-drop zero (x ∷ xs) h = (cc h, cc h)
get_elem?-drop (suc i) [] h = cc h
get_elem?-drop (suc i) (x ∷ xs) h =
    let r = get_elem?-drop i xs h in
    let e : suc i + 1 ≡ suc (i + 1) = omega arith in (r.0, ap (λ k. drop k (x ∷ xs)) e ∙ r.1)

pub get_range-block {ℓ} :
    {A : Type ℓ} (xs : List A) (start n : ℕ)
    → start + n ≤ length xs
    → get_range xs start (start + n) ≡ some (take n (drop start xs))
unfolding get_range
get_range-block xs start n h =
    rw (le→leb start (start + n) (omega arith), le→leb (start + n) (length xs) h)
      (let e : start + n - start ≡ n = omega arith in ap (λ k. some (take k (drop start xs))) e)
