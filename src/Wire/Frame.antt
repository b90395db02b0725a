-- ===== src/Wire/Frame.antt =====
-- `emvp-network/src/frame.rs`: frame headers, the payload reader that is bounded by a frame, and the
-- bulk codec of field elements.
pub mod Delivered
pub mod Parses
pub mod Reads
pub mod Consumed
pub mod Header
pub mod Slices
use emvp_thesis.Base.{
  ℕ, zero, suc, ◌+◌, ◌-◌, ◌*◌, ◌^◌, min, String, Option, none, some, List, [], ◌∷◌, ◌++◌, length,
  take, drop, set, ltb, leb, ◌==◌, if◌then◌else◌, checked_add, checked_mul, u64_max, usize_max,
  flat_map,
}
use emvp_thesis.Base.Action.{Action, Result, ok, err, pure, fail, ok_or, ensure, ◌>>=◌, ◌>>◌}
use emvp_thesis.Base.Words.{to_le_bytes, from_le_bytes}
use emvp_thesis.Field.{
  FieldElement, NonCanonicalEncoding, to_canonical_le_bytes, from_canonical_le_bytes,
}
use emvp_thesis.Wire.Error.{
  CodecError, io, truncated_frame, trailing_frame_bytes, unknown_frame_kind, non_canonical_field,
  value_out_of_range, dimension_overflow, FrameKind, to_u8, from_u8,
}
use emvp_thesis.Wire.Stream.{
  Stream, IoError, other, read_exact, read_one, map_read_error, Sink, write_all,
}

abbrev pub protocol_modulus : ℕ
protocol_modulus = 998244353

abbrev pub protocol_version : ℕ
protocol_version = 2

-- b"EMVP"
abbrev pub magic : List ℕ
magic = 69 ∷ 77 ∷ 86 ∷ 80 ∷ []

abbrev pub header_bytes : ℕ
header_bytes = 9

abbrev pub field_element_encoded_size : ℕ
field_element_encoded_size = 4

-- CHUNK_FIELDS
abbrev pub chunk_fields : ℕ
chunk_fields = 4096

pub record FrameHeader : Type 0 where
  pub kind : FrameKind
  pub payload_len : ℕ

-- A stream operation whose failure is reported through `map_read_error`. On the one-byte read this is
-- `CodecError::Io`, since a plain read never meets `UnexpectedEof`.
abbrev pub reported : {A : Type 0} → Result IoError A × Stream → Result CodecError A × Stream
reported (ok a, s) = (ok a, s)
reported (err e, s) = (err (map_read_error e), s)

-- The header after its kind byte: the length first, then the check of the kind.
header_rest : ℕ → Action Stream CodecError (Option FrameHeader)
header_rest kind = do
  length ← λ s. reported (read_exact 8 s)
  kind ← ok_or (unknown_frame_kind kind) (from_u8 kind)
  pure (some (record { kind = kind; payload_len = from_le_bytes length }))

header_from : List ℕ → Action Stream CodecError (Option FrameHeader)
header_from [] = pure none
header_from (kind ∷ _) = header_rest kind

-- `none` is a clean end of the stream before any header byte.
pub read_frame_header : Action Stream CodecError (Option FrameHeader)
unfolding header_from header_rest
read_frame_header = do kind ← λ s. reported (read_one s); header_from kind

-- `write_u8` to `write_u128`, by the width in bytes.
pub write_word : ℕ → ℕ → Action Sink CodecError (Unit {0})
write_word width value = write_all (to_le_bytes width value)

abbrev pub write_u8 : ℕ → Action Sink CodecError (Unit {0})
write_u8 = write_word 1

abbrev pub write_u16 : ℕ → Action Sink CodecError (Unit {0})
write_u16 = write_word 2

abbrev pub write_u32 : ℕ → Action Sink CodecError (Unit {0})
write_u32 = write_word 4

abbrev pub write_u64 : ℕ → Action Sink CodecError (Unit {0})
write_u64 = write_word 8

abbrev pub write_u128 : ℕ → Action Sink CodecError (Unit {0})
write_u128 = write_word 16

pub write_frame_header : FrameKind → ℕ → Action Sink CodecError (Unit {0})
write_frame_header kind payload_len = do write_u8 (to_u8 kind); write_u64 payload_len

-- A reader confined to one frame payload.
pub record FrameReader : Type 0 where
  pub inner : Stream
  pub remaining : ℕ

-- `FrameReader::new`
abbrev pub open_payload : Stream → ℕ → FrameReader
open_payload stream payload_len = record { inner = stream; remaining = payload_len }

-- `FrameReader::remaining`
abbrev pub remaining : {E : Type 0} → Action FrameReader E ℕ
remaining f = (ok f.remaining, f)

-- The reader after `read_exact` on its stream; only a success counts against the frame.
abbrev settle :
    ℕ → FrameReader → Result IoError (List ℕ) × Stream → Result CodecError (List ℕ) × FrameReader
settle need f (ok bytes, s) = (ok bytes, record { inner = s; remaining = f.remaining - need })
settle need f (err e, s) = (err (map_read_error e), record f { inner = s })

pub read_exact_checked : ℕ → Action FrameReader CodecError (List ℕ)
read_exact_checked need f =
    if ltb f.remaining need
    then (err truncated_frame, f)
    else settle need f (read_exact need f.inner)

-- `read_u8` to `read_u128`, by the width in bytes.
pub read_word : ℕ → Action FrameReader CodecError ℕ
read_word width = do bytes ← read_exact_checked width; pure (from_le_bytes bytes)

abbrev pub read_u8 : Action FrameReader CodecError ℕ
read_u8 = read_word 1

abbrev pub read_u16 : Action FrameReader CodecError ℕ
read_u16 = read_word 2

abbrev pub read_u32 : Action FrameReader CodecError ℕ
read_u32 = read_word 4

abbrev pub read_u64 : Action FrameReader CodecError ℕ
read_u64 = read_word 8

abbrev pub read_u128 : Action FrameReader CodecError ℕ
read_u128 = read_word 16

-- `FrameReader::finish`
pub finish : Action FrameReader CodecError (Unit {0})
finish f = if f.remaining == 0 then (ok tt, f) else (err (trailing_frame_bytes f.remaining), f)

-- `checked_size`, `field_byte_len`, `wire_len` and `host_len`.
pub checked_size : {S : Type 0} → ℕ → ℕ → Action S CodecError ℕ
checked_size total addition = ok_or dimension_overflow (checked_add total addition)

pub field_byte_len : {S : Type 0} → ℕ → Action S CodecError ℕ
field_byte_len count = ok_or dimension_overflow (checked_mul count field_element_encoded_size)

pub wire_len : {S : Type 0} → ℕ → Action S CodecError ℕ
wire_len value = do ensure (leb value u64_max) dimension_overflow; pure value

pub host_len : {S : Type 0} → String → ℕ → Action S CodecError ℕ
host_len name value = do ensure (leb value usize_max) (value_out_of_range name value); pure value

-- A payload reader together with the arena that the values are decoded into.
pub record Decoding : Type 0 where
  pub frame : FrameReader
  pub arena : List FieldElement

abbrev pub on_frame : {A : Type 0} → Action FrameReader CodecError A → Action Decoding CodecError A
on_frame m d = let (r, f) = m d.frame in (r, record d { frame = f })

store_slot : ℕ → FieldElement → Action Decoding CodecError (Unit {0})
store_slot index value d = (ok tt, record d { arena = set d.arena index value })

decoded_word : Result NonCanonicalEncoding FieldElement → Action Decoding CodecError FieldElement
decoded_word (ok value) d = (ok value, d)
decoded_word (err noncanonical) d = (err (non_canonical_field noncanonical.value), d)

-- `for (slot, word) in values.iter_mut().zip(words)`: the slots before a bad word stay written.
store_words : ℕ → ℕ → List ℕ → Action Decoding CodecError (Unit {0})
store_words zero index bytes = pure tt
store_words (suc count) index bytes = do
  value ← decoded_word (from_canonical_le_bytes protocol_modulus (take 4 bytes))
  store_slot index value
  store_words count (index + 1) (drop 4 bytes)

-- `while done < values.len()`: one chunk a round, so a round for each element is enough.
read_chunks : ℕ → ℕ → ℕ → Action Decoding CodecError (Unit {0})
read_chunks zero index count = pure tt
read_chunks (suc rounds) index count = if count == 0 then pure tt else do
  let take_fields = min count chunk_fields
  bytes ← on_frame (read_exact_checked (take_fields * field_element_encoded_size))
  store_words take_fields index bytes
  read_chunks rounds (index + take_fields) (count - take_fields)

-- `read_field_slice_into` on the `count` slots of the arena from `index` on.
pub read_field_slice_into : ℕ → ℕ → Action Decoding CodecError (Unit {0})
unfolding read_chunks store_words store_slot decoded_word
read_field_slice_into index count = do
  field_bytes ← field_byte_len count
  left ← on_frame remaining
  ensure (leb field_bytes left) truncated_frame
  read_chunks count index count

-- `values.chunks(CHUNK_FIELDS)`, a write for each.
write_chunks : ℕ → List FieldElement → Action Sink CodecError (Unit {0})
write_chunks rounds [] = pure tt
write_chunks zero (x ∷ xs) = pure tt
write_chunks (suc rounds) (x ∷ xs) = do
  write_all (flat_map (to_canonical_le_bytes protocol_modulus) (take chunk_fields (x ∷ xs)))
  write_chunks rounds (drop chunk_fields (x ∷ xs))

pub write_field_slice : List FieldElement → Action Sink CodecError (Unit {0})
unfolding write_chunks
write_field_slice values = write_chunks (length values) values
