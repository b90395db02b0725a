-- ===== src/Wire/Messages/Opened.antt =====
-- Which streams `open_frame` accepts (the readers of `emvp-network/src/messages.rs`), which it refuses
-- for their kind, and what a payload reader takes that runs to the end of the frame.
use emvp_thesis.Base.{
  ==-refl, ==-false, ℕ, ◌^◌, ◌<◌, ◌≡◌, ◌≢◌, ◌==◌, refl, sym, ap, ◌∙◌, arith, some, none, List, ◌++◌,
  All, length, Bool-cases, Option, inl, inr,
}
use emvp_thesis.Base.Action.{
  Action, Result, ok, err, ◌>>=◌, bind_inverse, bind_err_inverse, ensure_inverse, ◌>>◌, ensure,
  pure,
}
use emvp_thesis.Base.Words.{IsByte}
use mathlib.Core.Logic.{◌↔◌}
use emvp_thesis.Wire.Error.{CodecError, FrameKind, to_u8, from_u8, unexpected_frame}
use emvp_thesis.Wire.Error.Codes.{from_u8-to_u8}
use emvp_thesis.Wire.Stream.{Stream, unexpected_eof, other, map_read_error}
use emvp_thesis.Wire.Frame.{FrameHeader, read_frame_header, FrameReader, finish, open_payload}
use emvp_thesis.Wire.Frame.Parses.{Parses, finish_inverse}
use emvp_thesis.Wire.Frame.Header.{header, read-write_frame_header}
use emvp_thesis.Wire.Frame.Delivered.{
  Delivers, read_frame_header_inverse, read_frame_header_errors, IsHeaderError,
}
use emvp_thesis.Wire.Messages.{require_kind, open_frame, on_payload}

to_u8-injective : (a b : FrameKind) → to_u8 a ≡ to_u8 b → a ≡ b
to_u8-injective a b e =
    let same : some a ≡ some b = sym (from_u8-to_u8 a) ∙ ap from_u8 e ∙ from_u8-to_u8 b in cc same

-- The stream before a delivery.
before :
    (bs : List ℕ) (s t : Stream)
    → Delivers bs s t
    → s ≡ record { bytes = bs ++ t.bytes; ending = t.ending }
before bs s t (split, same) = cc (split, same)

-- The header that `require_kind` saw when it accepted, and when it refused.
required :
    (expected : FrameKind) (found : Option FrameHeader) (u t : Stream) (n : ℕ)
    → require_kind expected found u ≡ (ok n, t)
    → (found ≡ some (record { kind = expected; payload_len = n })) × (u ≡ t)
unfolding require_kind
required expected none u t n h = cc h
required expected (some head) u t n h =
    let (_, v, checked, h1) =
      bind_inverse (ensure (to_u8 head.kind == to_u8 expected) _) (λ _. pure head.payload_len) u
        h in
    let (test, unread) = ensure_inverse (to_u8 head.kind == to_u8 expected) _ u checked in
    let same = to_u8-injective head.kind expected (ground arith) in
    let size : head.payload_len ≡ n = cc h1 in
    let last : v ≡ t = cc h1 in (cc (same, size), unread ∙ last)

refused :
    (expected : FrameKind) (found : Option FrameHeader) (u t : Stream) (b : ℕ)
    → require_kind expected found u ≡ (err (unexpected_frame expected b), t)
    → (head : FrameHeader) × (found ≡ some head)
      × (to_u8 head.kind ≡ b)
      × (to_u8 head.kind ≢ to_u8 expected)
      × (u ≡ t)
unfolding require_kind
refused expected none u t b h = cc h
refused expected (some head) u t b h = elim (Bool-cases (to_u8 head.kind == to_u8 expected)) [
  | inl same ↦ cc (rw same at h)
  | inr differ ↦
      let code : to_u8 head.kind ≡ b = cc (rw differ at h) in
      let last : u ≡ t = cc (rw differ at h) in (head, refl, code, ground arith, last)
]

not_unexpected : (expected : FrameKind) (b : ℕ) → IsHeaderError (unexpected_frame expected b) → ⊥
unfolding map_read_error
not_unexpected expected b (inl (unexpected_eof, h)) = cc h
not_unexpected expected b (inl (other e, h)) = cc h
not_unexpected expected b (inr (c, h)) = cc h

-- On a stream that begins with a header, `open_frame` judges its kind.
open_frame-header :
    (expected actual : FrameKind) (n : ℕ) (s t : Stream)
    → n < 2 ^ 64
    → Delivers (header actual n) s t
    → open_frame expected s
      ≡ require_kind expected (some (record { kind = actual; payload_len = n })) t
unfolding open_frame
open_frame-header expected actual n s t small given =
    rw (before (header actual n) s t given, read-write_frame_header actual n t.bytes t.ending small)

-- The stream begins with a header of the kind with byte `b`, which is not the expected one.
abbrev pub IsForeign : FrameKind → Stream → Stream → ℕ → Type 0
IsForeign expected s t b =
    (actual : FrameKind) × (n : ℕ) × (to_u8 actual ≡ b)
    × (to_u8 actual ≢ to_u8 expected)
    × (n < 2 ^ 64)
    × Delivers (header actual n) s t

module _ (expected : FrameKind) (s t : Stream) (bytes : All IsByte s.bytes) where
  opened :
      (n : ℕ) → open_frame expected s ≡ (ok n, t) → (n < 2 ^ 64) × Delivers (header expected n) s t
  unfolding open_frame
  opened n h =
      let (found, u, read, h1) = bind_inverse read_frame_header (require_kind expected) s h in
      let (head, last) = required expected found u t n h1 in
      read_frame_header_inverse s t (record { kind = expected; payload_len = n }) bytes
        (read ∙ cc (head, last))

  accepted :
      (n : ℕ) → (n < 2 ^ 64) × Delivers (header expected n) s t → open_frame expected s ≡ (ok n, t)
  accepted n (small, given) =
      open_frame-header expected expected n s t small given
      ∙ (unfold require_kind in rw (==-refl (to_u8 expected)) refl)

  foreign :
      (b : ℕ)
      → open_frame expected s ≡ (err (unexpected_frame expected b), t)
      → IsForeign expected s t b
  unfolding open_frame
  foreign b h = elim (bind_err_inverse read_frame_header (require_kind expected) s h) [
    | inl broke ↦ absurd (not_unexpected expected b (read_frame_header_errors s t _ broke))
    | inr (found, u, read, h1) ↦
        let (head, seen, code, differ, last) = refused expected found u t b h1 in
        let (small, given) = read_frame_header_inverse s t head bytes (read ∙ cc (seen, last)) in
        (head.kind, head.payload_len, code, differ, small, given)
  ]

  turned_away :
      (b : ℕ)
      → IsForeign expected s t b
      → open_frame expected s ≡ (err (unexpected_frame expected b), t)
  turned_away b (actual, n, code, differ, small, given) =
      open_frame-header expected actual n s t small given
      ∙ (unfold require_kind in rw (==-false _ _ differ, code) refl)

  -- On a stream of bytes, `open_frame` returns n and leaves t exactly when n is below 2^64 and the
  -- stream is a header of the expected kind with length n, followed by t; and it reports a frame of the
  -- unexpected kind b and leaves t exactly when the stream is a header of the kind with byte b, followed
  -- by t, and b is not the byte of the expected kind.
  pub open_frame_exact :
      (n b : ℕ)
      → ((open_frame expected s ≡ (ok n, t)) ↔ ((n < 2 ^ 64) × Delivers (header expected n) s t))
        × ((open_frame expected s ≡ (err (unexpected_frame expected b), t))
            ↔ IsForeign expected s t b)
  open_frame_exact n b = ((opened n, accepted n), (foreign b, turned_away b))

module _ {A : Type 0} (m : Action FrameReader CodecError A) (P : A → List ℕ → Type 0) where
  finished :
      (f g : FrameReader) (a : A)
      → Parses m P
      → All IsByte f.inner.bytes
      → (m >>= λ x. finish >> pure x) f ≡ (ok a, g)
      → (bs : List ℕ) × P a bs × (length bs ≡ f.remaining) × Delivers bs f.inner g.inner
  finished f g a hm bytes h =
      let (x, f1, read, h1) = bind_inverse m _ f h in
      let (_, f2, ended, h2) = bind_inverse finish (λ _. pure x) f1 h1 in
      let (empty, kept) = finish_inverse f1 f2 ended in
      let (bs, holds, (given, size)) = hm.taken f f1 x bytes read in
      let same : x ≡ a = cc h2 in
      let last : f1 ≡ g = kept ∙ cc h2 in
      carried x bs f1 same last holds given (omega (arith, empty, size))
    where
      carried :
          (x : A) (bs : List ℕ) (f1 : FrameReader)
          → x ≡ a
          → f1 ≡ g
          → P x bs
          → Delivers bs f.inner f1.inner
          → length bs ≡ f.remaining
          → (cs : List ℕ) × P a cs × (length cs ≡ f.remaining) × Delivers cs f.inner g.inner
      carried x bs f1 e k holds given size = rw (← e, ← k) (bs, holds, size, given)

  -- A payload that is read to its end.
  pub on_payload_inverse :
      (len : ℕ) (u v : Stream) (a : A)
      → Parses m P
      → All IsByte u.bytes
      → on_payload len (m >>= λ x. finish >> pure x) u ≡ (ok a, v)
      → (bs : List ℕ) × P a bs × (length bs ≡ len) × Delivers bs u v
  unfolding on_payload
  on_payload_inverse len u v a hm bytes h =
      let p = (m >>= λ x. finish >> pure x) (open_payload u len) in
      let result : p.0 ≡ ok a = ap (λ (q : Result CodecError A × Stream). q.0) h in
      let stream : p.1.inner ≡ v = ap (λ (q : Result CodecError A × Stream). q.1) h in
      let (bs, holds, size, given) =
        finished (open_payload u len) p.1 a hm bytes (ap (λ r. (r, p.1)) result) in
      (bs, holds, size, within bs u p.1.inner v stream given)
    where
      within : (bs : List ℕ) (s t w : Stream) → t ≡ w → Delivers bs s t → Delivers bs s w
      within bs s t w e given = rw (← e) given
