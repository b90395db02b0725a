-- ===== src/Base/Fresh.antt =====
-- Lists of numbers in which none stands twice, and the test that finds each number new.
use Prim.Native.Nat.{ℕ}
use mathlib.Core.Path.{◌≡◌, refl}
use mathlib.Core.Logic.{◌≢◌}
use mathlib.Core.Bool.{Bool, false, ◌||◌}
use mathlib.Core.List.{List, [], ◌∷◌}
use native.Mathlib.Omega.{arith}
use emvp_thesis.Base.Lists.{All}
use emvp_thesis.Base.Tests.{◌==◌}

abbrev pub contains : ℕ → List ℕ → Bool
contains x [] = false
contains x (y ∷ ys) = (x == y) || contains x ys

abbrev pub Distinct : List ℕ → Type 0
Distinct [] = Unit {0}
Distinct (x ∷ xs) = All (λ y. y ≢ x) xs × Distinct xs

-- Each number is new when it is reached.
abbrev pub Fresh : List ℕ → List ℕ → Type 0
Fresh seen [] = Unit {0}
Fresh seen (x ∷ xs) = (contains x seen ≡ false) × Fresh (x ∷ seen) xs

abbrev pub Unseen : List ℕ → List ℕ → Type 0
Unseen seen xs = All (λ y. contains y seen ≡ false) xs

Unseen-more :
    (x : ℕ) (seen xs : List ℕ) → Unseen (x ∷ seen) xs → Unseen seen xs × All (λ y. y ≢ x) xs
Unseen-more x seen [] h = (tt, tt)
Unseen-more x seen (y ∷ ys) (h, hs) =
    let (older, differ) = Unseen-more x seen ys hs in
    ((ground arith, older), (ground arith, differ))

Unseen-join :
    (x : ℕ) (seen xs : List ℕ) → Unseen seen xs → All (λ y. y ≢ x) xs → Unseen (x ∷ seen) xs
Unseen-join x seen [] h k = tt
Unseen-join x seen (y ∷ ys) (h, hs) (k, ks) = (ground arith, Unseen-join x seen ys hs ks)

pub Fresh-Distinct : (seen xs : List ℕ) → Fresh seen xs → Unseen seen xs × Distinct xs
Fresh-Distinct seen [] h = (tt, tt)
Fresh-Distinct seen (x ∷ xs) (h, hs) =
    let (unseen, distinct) = Fresh-Distinct (x ∷ seen) xs hs in
    let (older, differ) = Unseen-more x seen xs unseen in ((h, older), (differ, distinct))

pub Distinct-Fresh : (seen xs : List ℕ) → Unseen seen xs → Distinct xs → Fresh seen xs
Distinct-Fresh seen [] h d = tt
Distinct-Fresh seen (x ∷ xs) (h, hs) (d, ds) =
    (h, Distinct-Fresh (x ∷ seen) xs (Unseen-join x seen xs hs d) ds)

pub Unseen-nothing : (xs : List ℕ) → Unseen [] xs
Unseen-nothing [] = tt
Unseen-nothing (x ∷ xs) = (refl, Unseen-nothing xs)
