-- ===== src/Wire/Frame/Consumed.antt =====
-- Reading a payload never gives bytes back to the stream: every reader of the frames that a server
-- receives leaves at most the bytes it found.
use emvp_thesis.Base.{
  ℕ, some, ◌<◌, zero, suc, ◌+◌, ◌≤◌, ◌≡◌, refl, List, [], ◌∷◌, true, false, Bool-cases, ◌⊎◌, inl,
  inr, ltb, leb, ◌==◌, length, drop, length-drop, arith, String,
}
use emvp_thesis.Base.Action.{Action, Result, ok, err}
use emvp_thesis.Base.Consumes.{Consumes, Consumes-bind, Consumes-keep, Consumes-pure, consuming}
use emvp_thesis.Field.{FieldElement, NonCanonicalEncoding}
use emvp_thesis.Wire.Error.{CodecError}
use emvp_thesis.Wire.Stream.{Stream, IoError, read_exact, read_one, Ending, end_of_stream, broken}
use emvp_thesis.Wire.Frame.{
  FrameReader, Decoding, reported, read_exact_checked, read_word, finish, checked_size,
  field_byte_len, host_len, on_frame, remaining, read_field_slice_into, read_frame_header,
  header_from, header_rest, settle, read_chunks, store_words, store_slot, decoded_word, FrameHeader,
}

-- The bytes that are still to come.
abbrev pub bytes_left : Stream → ℕ
bytes_left s = length s.bytes

abbrev pub payload_left : FrameReader → ℕ
payload_left f = bytes_left f.inner

abbrev pub decoding_left : Decoding → ℕ
decoding_left d = payload_left d.frame

pub read_exact-Consumes : (n : ℕ) → Consumes bytes_left (read_exact n)
unfolding read_exact
read_exact-Consumes n = record { shrinks = λ s. shrink n s (Bool-cases (leb n (length s.bytes))) }
  where
    shrink :
        (n : ℕ) (s : Stream)
        → (leb n (length s.bytes) ≡ true) ⊎ (leb n (length s.bytes) ≡ false)
        → length (read_exact n s).1.bytes ≤ length s.bytes
    shrink n s (inl enough) = rw (enough, read_exact) (omega (arith, length-drop n s.bytes))
    shrink n s (inr short) = rw (short, read_exact) (omega arith)

settle-Consumes :
    (need : ℕ) (f : FrameReader) (r : Result IoError (List ℕ) × Stream)
    → bytes_left r.1 ≤ payload_left f
    → payload_left (settle need f r).1 ≤ payload_left f
settle-Consumes need f (ok bytes, s) h = h
settle-Consumes need f (err e, s) h = h

pub read_exact_checked-Consumes : (need : ℕ) → Consumes payload_left (read_exact_checked need)
unfolding read_exact_checked
read_exact_checked-Consumes need = record {
  shrinks = λ f. shrink need f (Bool-cases (ltb f.remaining need));
}
  where
    shrink :
        (need : ℕ) (f : FrameReader)
        → (ltb f.remaining need ≡ true) ⊎ (ltb f.remaining need ≡ false)
        → payload_left (read_exact_checked need f).1 ≤ payload_left f
    shrink need f (inl short) = rw (short, read_exact_checked) (omega arith)
    shrink need f (inr enough) =
        rw (enough, read_exact_checked)
          (settle-Consumes need f (read_exact need f.inner)
            ((read_exact-Consumes need).shrinks f.inner))

pub read_word-Consumes : (width : ℕ) → Consumes payload_left (read_word width)
unfolding read_word
read_word-Consumes width = search (consuming, read_exact_checked-Consumes)

pub host_len-Consumes :
    {S : Type 0} {size : S → ℕ} (name : String) (n : ℕ) → Consumes size (host_len name n)
unfolding host_len
host_len-Consumes name n = search consuming

pub checked_size-Consumes : {S : Type 0} {size : S → ℕ} (a b : ℕ) → Consumes size (checked_size a b)
unfolding checked_size
checked_size-Consumes a b = search consuming

pub field_byte_len-Consumes : {S : Type 0} {size : S → ℕ} (n : ℕ) → Consumes size (field_byte_len n)
unfolding field_byte_len
field_byte_len-Consumes n = search consuming

pub remaining-Consumes : Consumes payload_left (remaining {E = CodecError})
remaining-Consumes = Consumes-keep remaining (λ f. refl)

pub finish-Consumes : Consumes payload_left finish
unfolding finish
finish-Consumes = record { shrinks = λ f. shrink f (Bool-cases (f.remaining == 0)) }
  where
    shrink :
        (f : FrameReader)
        → ((f.remaining == 0) ≡ true) ⊎ ((f.remaining == 0) ≡ false)
        → payload_left (finish f).1 ≤ payload_left f
    shrink f (inl done) = rw (done, finish) (omega arith)
    shrink f (inr more) = rw (more, finish) (omega arith)

pub on_frame-Consumes :
    {A : Type 0} (m : Action FrameReader CodecError A)
    → Consumes payload_left m
    → Consumes decoding_left (on_frame m)
on_frame-Consumes m h = record { shrinks = λ d. h.shrinks d.frame }

store_slot-Consumes :
    (index : ℕ) (value : FieldElement) → Consumes decoding_left (store_slot index value)
unfolding store_slot
store_slot-Consumes index value = Consumes-keep (store_slot index value) (λ d. refl)

decoded_word-Consumes :
    (r : Result NonCanonicalEncoding FieldElement) → Consumes decoding_left (decoded_word r)
unfolding decoded_word
decoded_word-Consumes (ok value) = Consumes-keep (decoded_word (ok value)) (λ d. refl)
decoded_word-Consumes (err e) = Consumes-keep (decoded_word (err e)) (λ d. refl)

store_words-Consumes :
    (count index : ℕ) (bytes : List ℕ) → Consumes decoding_left (store_words count index bytes)
unfolding store_words
store_words-Consumes zero index bytes = Consumes-pure tt
store_words-Consumes (suc count) index bytes = Consumes-bind _ _ (decoded_word-Consumes _) λ value.
    Consumes-bind (store_slot index value) _ (store_slot-Consumes index value)
      λ _. store_words-Consumes count (index + 1) (drop 4 bytes)

read_chunks-Consumes :
    (rounds index count : ℕ) → Consumes decoding_left (read_chunks rounds index count)
unfolding read_chunks
read_chunks-Consumes zero index count = Consumes-pure tt
read_chunks-Consumes (suc rounds) index count = search (
  consuming,
  on_frame-Consumes,
  read_exact_checked-Consumes,
  store_words-Consumes,
  read_chunks-Consumes rounds,
)

pub read_field_slice_into-Consumes :
    (index count : ℕ) → Consumes decoding_left (read_field_slice_into index count)
unfolding read_field_slice_into
read_field_slice_into-Consumes index count = search (
  consuming, field_byte_len-Consumes, on_frame-Consumes, remaining-Consumes, read_chunks-Consumes,
)

pub reported-Consumes :
    {A : Type 0} (m : Action Stream IoError A)
    → Consumes bytes_left m
    → Consumes bytes_left (λ s. reported (m s))
reported-Consumes m h = record { shrinks = λ s. kept (m s) (bytes_left s) (h.shrinks s) }
  where
    kept :
        {A : Type 0} (r : Result IoError A × Stream) (n : ℕ)
        → bytes_left r.1 ≤ n
        → bytes_left (reported r).1 ≤ n
    kept (ok a, s) n h = h
    kept (err e, s) n h = h

header_rest-Consumes : (kind : ℕ) → Consumes bytes_left (header_rest kind)
unfolding header_rest
header_rest-Consumes kind = search (consuming, reported-Consumes, read_exact-Consumes)

-- A header that is found has taken bytes from the stream.
takes_from :
    (bytes : List ℕ) (ending : Ending) (h : FrameHeader)
    → (read_frame_header (record { bytes = bytes; ending = ending })).0 ≡ ok (some h)
    → bytes_left (read_frame_header (record { bytes = bytes; ending = ending })).1 < length bytes
unfolding read_frame_header read_one header_from
takes_from [] end_of_stream h found = cc found
takes_from [] (broken e) h found = cc found
takes_from (b ∷ bs) ending h found =
    omega (arith, (header_rest-Consumes b).shrinks (record { bytes = bs; ending = ending }))

pub read_frame_header_takes :
    (s : Stream) (h : FrameHeader)
    → (read_frame_header s).0 ≡ ok (some h)
    → bytes_left (read_frame_header s).1 < bytes_left s
read_frame_header_takes s h found = takes_from s.bytes s.ending h found
