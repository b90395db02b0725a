-- ===== src/Wire/Frame/Delivered.antt =====
-- What a reader has taken when it returns a value: the converse of Wire.Frame.Reads, for streams of
-- bytes.
use emvp_thesis.Base.{
  ℕ, ◌^◌, ◌<◌, ◌≡◌, sym, ap, ◌∙◌, arith, leb, leb→le, List, [], ◌∷◌, ◌++◌, length, take, drop,
  length-take, take-append-drop, append_assoc, All, All-append_inverse, Bool-cases, inl, inr, ◌⊎◌,
  Option, some, none,
}
use emvp_thesis.Base.Action.{Result, bind_inverse, bind_err_inverse, ok_or, ok_or_inverse, ok, err}
use emvp_thesis.Base.Words.{IsByte, to_le_bytes, from_le_bytes, to-from_le_bytes, from_le_bytes_lt}
use emvp_thesis.Wire.Error.{CodecError, FrameKind, to_u8, from_u8, unknown_frame_kind}
use emvp_thesis.Wire.Error.Codes.{to_u8-from_u8}
use emvp_thesis.Wire.Stream.{
  Stream, IoError, Ending, end_of_stream, broken, read_exact, read_one, map_read_error,
}
use emvp_thesis.Wire.Frame.{FrameHeader, reported, read_frame_header, header_from, header_rest}
use emvp_thesis.Wire.Frame.Header.{header}

-- The stream delivered `bs` and is then `t`.
abbrev pub Delivers : List ℕ → Stream → Stream → Type 0
Delivers bs s t = (s.bytes ≡ bs ++ t.bytes) × (s.ending ≡ t.ending)

pub read_exact_inverse :
    (n : ℕ) (s t : Stream) (bs : List ℕ)
    → read_exact n s ≡ (ok bs, t)
    → (length bs ≡ n) × Delivers bs s t
unfolding read_exact
read_exact_inverse n s t bs h = elim (Bool-cases (leb n (length s.bytes))) [
  | inl enough ↦
      let taken : take n s.bytes ≡ bs = cc (rw enough at h) in
      let left : drop n s.bytes ≡ t.bytes = cc (rw enough at h) in
      let same : s.ending ≡ t.ending = cc (rw enough at h) in
      (
        omega (arith, ap length taken, length-take n s.bytes, leb→le n (length s.bytes) enough),
        (cc (take-append-drop n s.bytes, taken, left), same),
      )
  | inr short ↦ cc (rw short at h)
]

-- The bytes before and after a delivery.
pub Delivers-IsByte :
    (bs : List ℕ) (s t : Stream)
    → Delivers bs s t
    → All IsByte s.bytes
    → All IsByte bs × All IsByte t.bytes
Delivers-IsByte bs s t (split, same) bytes =
    All-append_inverse IsByte bs t.bytes (rw split at bytes)

pub Delivers-append :
    (bs cs : List ℕ) (s t u : Stream) → Delivers bs s t → Delivers cs t u → Delivers (bs ++ cs) s u
Delivers-append bs cs s t u (h, e) (k, f) =
    (h ∙ ap (λ r. bs ++ r) k ∙ sym (append_assoc bs cs u.bytes), e ∙ f)

reported_ok :
    {A : Type 0} (r : Result IoError A × Stream) {a : A} {t : Stream}
    → reported r ≡ (ok a, t)
    → r ≡ (ok a, t)
reported_ok (ok b, s) h = cc h
reported_ok (err e, s) h = cc h

read_one_inverse :
    (bytes : List ℕ) (ending : Ending) (b : ℕ) (r : List ℕ) (t : Stream)
    → read_one (record { bytes = bytes; ending = ending }) ≡ (ok (b ∷ r), t)
    → Delivers (b ∷ []) (record { bytes = bytes; ending = ending }) t
unfolding read_one
read_one_inverse [] end_of_stream b r t h = cc h
read_one_inverse [] (broken e) b r t h = cc h
read_one_inverse (x ∷ xs) ending b r t h =
    let first : x ≡ b = cc h in
    let rest : xs ≡ t.bytes = cc h in
    let same : ending ≡ t.ending = cc h in (cc (first, rest), same)

-- The bytes of a word are those of the number that was read from them.
pub word_bytes :
    (n : ℕ) (bs : List ℕ)
    → length bs ≡ n
    → All IsByte bs
    → (to_le_bytes n (from_le_bytes bs) ≡ bs) × (from_le_bytes bs < 256 ^ n)
word_bytes n bs size bytes = rw (← size) (to-from_le_bytes bs bytes, from_le_bytes_lt bs bytes)

one_byte : (b n : ℕ) → IsByte b → n ≡ b → to_le_bytes 1 n ≡ b ∷ []
unfolding to_le_bytes
one_byte b n byte e = ap (λ (k : ℕ). k ∷ []) (omega arith)

header_rest_inverse :
    (b : ℕ) (s t : Stream) (h : FrameHeader)
    → IsByte b
    → All IsByte s.bytes
    → header_rest b s ≡ (ok (some h), t)
    → (to_le_bytes 1 (to_u8 h.kind) ≡ b ∷ [])
      × (h.payload_len < 2 ^ 64)
      × Delivers (to_le_bytes 8 h.payload_len) s t
unfolding header_rest
header_rest_inverse b s t h byte bytes e =
    let (len, u, came, e1) = bind_inverse (λ s. reported (read_exact 8 s)) _ s e in
    let (kind, v, known, e2) = bind_inverse (ok_or (unknown_frame_kind b) (from_u8 b)) _ u e1 in
    let (found, unread) = ok_or_inverse (unknown_frame_kind b) (from_u8 b) u known in
    let (size, given) = read_exact_inverse 8 s u len (reported_ok (read_exact 8 s) came) in
    let (words, small) = word_bytes 8 len size (Delivers-IsByte len s u given bytes).0 in
    let number : from_le_bytes len ≡ h.payload_len = cc e2 in
    let same_kind : kind ≡ h.kind = cc e2 in
    let last : v ≡ t = cc e2 in
    (
      one_byte b (to_u8 h.kind) byte (rw (← same_kind) (to_u8-from_u8 b kind found)),
      rw number at small,
      rw (← last, ← unread, ← number, words) given,
    )

header_from_inverse :
    (first : List ℕ) (s u t : Stream) (h : FrameHeader)
    → read_one s ≡ (ok first, u)
    → All IsByte s.bytes
    → header_from first u ≡ (ok (some h), t)
    → (h.payload_len < 2 ^ 64) × Delivers (header h.kind h.payload_len) s t
unfolding header_from
header_from_inverse [] s u t h came bytes e = cc e
header_from_inverse (b ∷ r) s u t h came bytes e =
    let given : Delivers (b ∷ []) s u = read_one_inverse s.bytes s.ending b r u came in
    let ((byte, _), rest) = Delivers-IsByte (b ∷ []) s u given bytes in
    let (code, small, tail) = header_rest_inverse b u t h byte rest e in
    (small, rw code (Delivers-append (b ∷ []) (to_le_bytes 8 h.payload_len) s u t given tail))

-- A header that is read from bytes was written in front of them.
pub read_frame_header_inverse :
    (s t : Stream) (h : FrameHeader)
    → All IsByte s.bytes
    → read_frame_header s ≡ (ok (some h), t)
    → (h.payload_len < 2 ^ 64) × Delivers (header h.kind h.payload_len) s t
unfolding read_frame_header
read_frame_header_inverse s t h bytes e =
    let (first, u, came, e1) = bind_inverse (λ s. reported (read_one s)) header_from s e in
    header_from_inverse first s u t h (reported_ok (read_one s) came) bytes e1

-- Reading a header meets no error but those of the stream and of the kind's byte.
abbrev pub IsHeaderError : CodecError → Type 0
IsHeaderError e = ((r : IoError) × (map_read_error r ≡ e)) ⊎ ((b : ℕ) × (unknown_frame_kind b ≡ e))

reported_err :
    {A : Type 0} (r : Result IoError A × Stream) {e : CodecError} {t : Stream}
    → reported r ≡ (err e, t)
    → (cause : IoError) × (map_read_error cause ≡ e)
reported_err (ok b, s) h = cc h
reported_err (err cause, s) h = (cause, cc h)

from_u8_error :
    (b : ℕ) (o : Option FrameKind) (s t : Stream) (e : CodecError)
    → ok_or (unknown_frame_kind b) o s ≡ (err e, t)
    → unknown_frame_kind b ≡ e
from_u8_error b none s t e h = cc h
from_u8_error b (some kind) s t e h = cc h

header_rest_errors :
    (b : ℕ) (s t : Stream) (e : CodecError) → header_rest b s ≡ (err e, t) → IsHeaderError e
unfolding header_rest
header_rest_errors b s t e h = elim (bind_err_inverse (λ s. reported (read_exact 8 s)) _ s h) [
  | inl broke ↦ inl (reported_err (read_exact 8 s) broke)
  | inr (len, u, came, h1) ↦
      elim (bind_err_inverse (ok_or (unknown_frame_kind b) (from_u8 b)) _ u h1) [
        | inl unknown ↦ inr (b, from_u8_error b (from_u8 b) u t e unknown)
        | inr (kind, v, known, h2) ↦ cc h2
      ]
]

header_from_errors :
    (first : List ℕ) (s t : Stream) (e : CodecError)
    → header_from first s ≡ (err e, t)
    → IsHeaderError e
unfolding header_from
header_from_errors [] s t e h = cc h
header_from_errors (b ∷ r) s t e h = header_rest_errors b s t e h

pub read_frame_header_errors :
    (s t : Stream) (e : CodecError) → read_frame_header s ≡ (err e, t) → IsHeaderError e
unfolding read_frame_header
read_frame_header_errors s t e h =
    elim (bind_err_inverse (λ s. reported (read_one s)) header_from s h) [
      | inl broke ↦ inl (reported_err (read_one s) broke)
      | inr (first, u, came, h1) ↦ header_from_errors first u t e h1
    ]
