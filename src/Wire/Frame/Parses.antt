-- ===== src/Wire/Frame/Parses.antt =====
-- What a payload reader takes from a frame when it returns a value: a rule for each step and one for
-- their sequence.
use emvp_thesis.Base.{
  ℕ, ◌+◌, ◌-◌, ◌^◌, ◌≤◌, ◌<◌, ◌≡◌, ◌==◌, refl, ap, ◌∙◌, arith, leb, ltb, List, [], ◌++◌, length,
  length-append, All, Bool-cases, inl, inr, String, usize_max, false,
}
use emvp_thesis.Base.Action.{
  Action, ◌>>=◌, Result, bind_inverse, ensure, ensure_inverse, pure, ok, err,
}
use emvp_thesis.Base.Words.{IsByte, to_le_bytes, from_le_bytes}
use emvp_thesis.Wire.Error.{CodecError, value_out_of_range}
use emvp_thesis.Wire.Stream.{Stream, IoError, read_exact}
use emvp_thesis.Wire.Frame.{FrameReader, read_exact_checked, settle, read_word, finish, host_len}
use emvp_thesis.Wire.Frame.Delivered.{
  Delivers, Delivers-IsByte, Delivers-append, read_exact_inverse, word_bytes,
}

-- The frame delivered `bs` out of the bytes that it holds.
abbrev pub Takes : List ℕ → FrameReader → FrameReader → Type 0
Takes bs f g = Delivers bs f.inner g.inner × (length bs + g.remaining ≡ f.remaining)

settle_inverse :
    (need : ℕ) (f g : FrameReader) (r : Result IoError (List ℕ) × Stream) (bs : List ℕ)
    → settle need f r ≡ (ok bs, g)
    → (r ≡ (ok bs, g.inner)) × (g.remaining ≡ f.remaining - need)
settle_inverse need f g (ok taken, s) bs h = (cc h, cc h)
settle_inverse need f g (err e, s) bs h = cc h

pub read_exact_checked_inverse :
    (need : ℕ) (f g : FrameReader) (bs : List ℕ)
    → read_exact_checked need f ≡ (ok bs, g)
    → (length bs ≡ need) × Takes bs f g
unfolding read_exact_checked
read_exact_checked_inverse need f g bs h = elim (Bool-cases (ltb f.remaining need)) [
  | inl short ↦ cc (rw short at h)
  | inr held ↦
      let (read, left) = settle_inverse need f g (read_exact need f.inner) bs (rw held at h) in
      let (size, given) = read_exact_inverse need f.inner g.inner bs read in
      (size, (given, omega (arith, size, left, ltb-false need f.remaining held)))
]
  where
    ltb-false : (a b : ℕ) → ltb b a ≡ false → a ≤ b
    ltb-false a b h = ground arith

pub Takes-append :
    (bs cs : List ℕ) (f g h : FrameReader) → Takes bs f g → Takes cs g h → Takes (bs ++ cs) f h
Takes-append bs cs f g h (given, m) (more, n) = (
  Delivers-append bs cs f.inner g.inner h.inner given more,
  omega (arith, m, n, length-append bs cs),
)

-- A word that is read from bytes is the number that they are the encoding of.
pub read_word_inverse :
    (width n : ℕ) (f g : FrameReader)
    → All IsByte f.inner.bytes
    → read_word width f ≡ (ok n, g)
    → (n < 256 ^ width) × Takes (to_le_bytes width n) f g
unfolding read_word
read_word_inverse width n f g bytes h =
    let (bs, g1, came, h1) = bind_inverse (read_exact_checked width) _ f h in
    let (size, (given, left)) = read_exact_checked_inverse width f g1 bs came in
    let (words, small) =
      word_bytes width bs size (Delivers-IsByte bs f.inner g1.inner given bytes).0 in
    let number : from_le_bytes bs ≡ n = cc h1 in
    let last : g1 ≡ g = cc h1 in rw (← number, ← last, words) (small, (given, left))

pub finish_inverse : (f g : FrameReader) → finish f ≡ (ok tt, g) → (f.remaining ≡ 0) × (f ≡ g)
unfolding finish
finish_inverse f g h = elim (Bool-cases (f.remaining == 0)) [
  | inl all ↦ (ground arith, cc (rw all at h))
  | inr more ↦ cc (rw more at h)
]

pub host_len_inverse :
    {S : Type 0} (name : String) (n m : ℕ) (s t : S)
    → host_len name n s ≡ (ok m, t)
    → (n ≡ m) × (s ≡ t)
unfolding host_len
host_len_inverse name n m s t h =
    let (_, u, checked, h1) =
      bind_inverse (ensure (leb n usize_max) (value_out_of_range name n)) (λ _. pure n) s h in
    let (_, kept) = ensure_inverse (leb n usize_max) (value_out_of_range name n) s checked in
    (cc h1, kept ∙ cc h1)

-- Whenever `m` returns a value on bytes, it has taken some bytes for which `P` holds.
pub record Parses {A : Type 0} (m : Action FrameReader CodecError A) (P : A → List ℕ → Type 0)
    : Type 0 where
  pub taken :
      (f g : FrameReader) (a : A)
      → All IsByte f.inner.bytes
      → m f ≡ (ok a, g)
      → (bs : List ℕ) × P a bs × Takes bs f g

Takes-nil : (f g : FrameReader) → f ≡ g → Takes [] f g
Takes-nil f g e = rw e ((refl, refl), omega arith)

pub Parses-bind :
    {A B : Type 0} (m : Action FrameReader CodecError A) (k : A → Action FrameReader CodecError B)
    (P : A → List ℕ → Type 0) (R : B → List ℕ → Type 0)
    → Parses m P
    → ((a : A) (bs : List ℕ) → P a bs → Parses (k a) (λ b cs. R b (bs ++ cs)))
    → Parses (m >>= k) R
Parses-bind m k P R hm hk = record {
  taken = λ f h b bytes e.
      let (a, g, first, rest) = bind_inverse m k f e in
      let (bs, p, given) = hm.taken f g a bytes first in
      let below = (Delivers-IsByte bs f.inner g.inner given.0 bytes).1 in
      let (cs, r, more) = (hk a bs p).taken g h b below rest in
      (bs ++ cs, r, Takes-append bs cs f g h given more);
}

returned :
    {A : Type 0} (f g : FrameReader) (a b : A)
    → ◌≡◌ {A = Result CodecError A × FrameReader} (ok a, f) (ok b, g)
    → (a ≡ b) × (f ≡ g)
returned f g a b e = (cc e, cc e)

pub Parses-pure : {A : Type 0} (a : A) (R : A → List ℕ → Type 0) → R a [] → Parses (pure a) R
Parses-pure a R r = record {
  taken = λ f g b bytes e.
      let (same, kept) = returned f g a b e in ([], rw (← same) r, Takes-nil f g kept);
}

-- A step that takes nothing and, where it returns, has established `Q`.
pub Parses-check :
    {A B : Type 0} (m : Action FrameReader CodecError A) (k : A → Action FrameReader CodecError B)
    (Q : A → Type 0) (R : B → List ℕ → Type 0)
    → ((f g : FrameReader) (a : A) → m f ≡ (ok a, g) → Q a × (f ≡ g))
    → ((a : A) → Q a → Parses (k a) R)
    → Parses (m >>= k) R
Parses-check m k Q R hm hk = record {
  taken = λ f h b bytes e.
      let (a, g, first, rest) = bind_inverse m k f e in
      let (q, same) = hm f g a first in (hk a q).taken f h b bytes (ap (k a) same ∙ rest);
}

pub Parses-word :
    {B : Type 0} (width : ℕ) (k : ℕ → Action FrameReader CodecError B) (R : B → List ℕ → Type 0)
    → ((n : ℕ) → n < 256 ^ width → Parses (k n) (λ b cs. R b (to_le_bytes width n ++ cs)))
    → Parses (read_word width >>= k) R
Parses-word width k R hk = record {
  taken = λ f h b bytes e.
      let (n, g, first, rest) = bind_inverse (read_word width) k f e in
      let (small, given) = read_word_inverse width n f g bytes first in
      let below = (Delivers-IsByte (to_le_bytes width n) f.inner g.inner given.0 bytes).1 in
      let (cs, r, more) = (hk n small).taken g h b below rest in
      (to_le_bytes width n ++ cs, r, Takes-append (to_le_bytes width n) cs f g h given more);
}
