-- ===== src/Wire/Frame/Reads.antt =====
-- Reading and writing words inside a frame: a reader that holds a payload delivers its front.
use emvp_thesis.Base.{
  ℕ, ◌+◌, ◌-◌, ◌*◌, ◌^◌, ◌≤◌, ◌<◌, ◌≡◌, refl, ap, arith, le→ltb, le→leb, List, [], ◌++◌, length,
  length-append, append_assoc, append-nil, take-append, drop-append, String, u64_max,
  checked_add-some, checked_mul-some,
}
use emvp_thesis.Base.Action.{Action, ok, ◌>>=◌, ◌>>◌, bind_ok}
use emvp_thesis.Base.Words.{to_le_bytes, length-to_le_bytes, from-to_le_bytes}
use emvp_thesis.Wire.Error.{CodecError}
use emvp_thesis.Wire.Stream.{
  Ending, read_exact, Writes, Writes-write_all, Writes-bind, Writes-keep, Sink,
}
use emvp_thesis.Wire.Frame.{
  FrameReader, read_exact_checked, read_word, write_word, finish, checked_size, field_byte_len,
  wire_len, host_len,
}

-- A reader whose frame holds exactly `payload`, before the bytes `rest` of later frames.
abbrev pub framed : List ℕ → List ℕ → Ending → FrameReader
framed payload rest ending = record {
  inner = record { bytes = payload ++ rest; ending = ending };
  remaining = length payload;
}

module _ (rest : List ℕ) (ending : Ending) where
  pub read_exact-append :
      (bs tail : List ℕ) (n : ℕ)
      → length bs ≡ n
      → read_exact n (record { bytes = bs ++ tail; ending = ending })
        ≡ (ok bs, record { bytes = tail; ending = ending })
  unfolding read_exact
  read_exact-append bs tail n h = rw (
    le→leb n (length (bs ++ tail)) (omega (arith, length-append bs tail)),
    take-append n bs tail h,
    drop-append n bs tail h,
  )

  pub read_exact_checked-framed :
      (bs payload : List ℕ) (n : ℕ)
      → length bs ≡ n
      → read_exact_checked n (framed (bs ++ payload) rest ending)
        ≡ (ok bs, framed payload rest ending)
  unfolding read_exact_checked
  read_exact_checked-framed bs payload n h =
      rw
        (
          le→ltb (length (bs ++ payload)) n (omega (arith, length-append bs payload)),
          append_assoc bs payload rest,
          read_exact-append bs (payload ++ rest) n h,
        )
        (cc left)
    where
      left : length (bs ++ payload) - n ≡ length payload
      left = omega (arith, length-append bs payload)

  pub read_word-framed :
      (width value : ℕ) (payload : List ℕ)
      → value < 256 ^ width
      → read_word width (framed (to_le_bytes width value ++ payload) rest ending)
        ≡ (ok value, framed payload rest ending)
  unfolding read_word
  read_word-framed width value payload h =
      bind_ok (read_exact_checked width) _ _
        (read_exact_checked-framed (to_le_bytes width value) payload width
          (length-to_le_bytes width value))
        (ap (λ n. (ok n, framed payload rest ending)) (from-to_le_bytes width value h))

  pub finish-framed : finish (framed [] rest ending) ≡ (ok tt, framed [] rest ending)
  unfolding finish
  finish-framed = refl

module _ {S : Type 0} where
  pub checked_size-ok : (a b : ℕ) (s : S) → a + b ≤ u64_max → checked_size a b s ≡ (ok (a + b), s)
  unfolding checked_size
  checked_size-ok a b s h = rw (checked_add-some a b h)

  pub field_byte_len-ok : (n : ℕ) (s : S) → n * 4 ≤ u64_max → field_byte_len n s ≡ (ok (n * 4), s)
  unfolding field_byte_len
  field_byte_len-ok n s h = rw (checked_mul-some n 4 h)

  pub wire_len-ok : (n : ℕ) (s : S) → n ≤ u64_max → wire_len n s ≡ (ok n, s)
  unfolding wire_len
  wire_len-ok n s h = rw (le→leb n u64_max h)

  pub host_len-ok : (name : String) (n : ℕ) (s : S) → n ≤ u64_max → host_len name n s ≡ (ok n, s)
  unfolding host_len
  host_len-ok name n s h = rw (le→leb n u64_max h)

pub Writes-write_word :
    (width value : ℕ) → Writes (write_word width value) (to_le_bytes width value) tt
unfolding write_word
Writes-write_word width value = Writes-write_all (to_le_bytes width value)

-- A word before the rest of a `do` block, and as its last statement.
pub Writes-word :
    {A : Type 0} (width value : ℕ) (next : Action Sink CodecError A) (bs : List ℕ) (a : A)
    → Writes next bs a
    → Writes (write_word width value >> next) (to_le_bytes width value ++ bs) a
Writes-word width value next bs a h =
    Writes-bind (write_word width value) (λ _. next) (to_le_bytes width value) bs tt a
      (Writes-write_word width value) h

pub Writes-last_word :
    (width value : ℕ) → Writes (write_word width value) (to_le_bytes width value ++ []) tt
Writes-last_word width value = rw append-nil (Writes-write_word width value)

-- `wire_len(value)?` writes nothing.
pub Writes-wire_len :
    {A : Type 0} (value : ℕ) (next : ℕ → Action Sink CodecError A) (bs : List ℕ) (a : A)
    → value ≤ u64_max
    → Writes (next value) bs a
    → Writes (wire_len value >>= next) bs a
Writes-wire_len value next bs a fits h =
    Writes-bind (wire_len value) next [] bs value a
      (Writes-keep (wire_len value) value (λ s. wire_len-ok value s fits)) h
