-- ===== src/Wire/Frame/Slices.antt =====
-- The bulk codec of field elements: chunked writing and reading carry exactly the encodings of the
-- elements, whatever the number of chunks.
use emvp_thesis.Base.{
  ℕ, zero, suc, ◌+◌, ◌-◌, ◌*◌, ◌≤◌, ◌≡◌, refl, sym, ap, ◌∙◌, arith, min, false, List, [], ◌∷◌, ◌++◌,
  length, take, drop, set, All, All-take, All-drop, flat_map, flat_map-append, length-flat_map,
  length-append, length-take, length-drop, append_assoc, take-append, drop-append, take-append-drop,
  write_at, write_at-append_values, le→leb, ◌==◌, u64_max,
}
use emvp_thesis.Base.Action.{Action, ok, ◌>>=◌, ◌>>◌}
use emvp_thesis.Field.{FieldElement, to_canonical_le_bytes}
use emvp_thesis.Field.Reduction.{IsModulus}
use emvp_thesis.Field.Arithmetic.{IsCanonical}
use emvp_thesis.Field.Encoding.{length-to_canonical_le_bytes, from-to_canonical_le_bytes}
use emvp_thesis.Wire.Error.{CodecError}
use emvp_thesis.Wire.Stream.{Ending, Writes, Writes-bind, Writes-pure, Writes-write_all}
use emvp_thesis.Wire.Frame.{
  protocol_modulus, chunk_fields, Decoding, on_frame, read_exact_checked, store_words, store_slot,
  decoded_word, read_chunks, read_field_slice_into, write_chunks, write_field_slice,
}
use emvp_thesis.Wire.Frame.Reads.{framed, read_exact_checked-framed, field_byte_len-ok}

pub protocol_modulus-IsModulus : IsModulus protocol_modulus
protocol_modulus-IsModulus = omega arith

abbrev pub IsElement : FieldElement → Type 0
IsElement x = IsCanonical protocol_modulus x

-- The encodings of elements, one after the other.
abbrev pub encoded : List FieldElement → List ℕ
encoded values = flat_map (to_canonical_le_bytes protocol_modulus) values

pub length-encoded : (values : List FieldElement) → length (encoded values) ≡ length values * 4
length-encoded values =
    length-flat_map (to_canonical_le_bytes protocol_modulus) 4 values
      (length-to_canonical_le_bytes protocol_modulus)

encoded-take-drop :
    (n : ℕ) (values : List FieldElement)
    → encoded (take n values) ++ encoded (drop n values) ≡ encoded values
encoded-take-drop n values =
    sym (flat_map-append (to_canonical_le_bytes protocol_modulus) (take n values) (drop n values))
    ∙ ap encoded (take-append-drop n values)

Writes-chunks :
    (rounds : ℕ) (values : List FieldElement)
    → length values ≤ rounds
    → Writes (write_chunks rounds values) (encoded values) tt
unfolding write_chunks
Writes-chunks zero [] h = Writes-pure tt
Writes-chunks (suc rounds) [] h = Writes-pure tt
Writes-chunks zero (x ∷ xs) h = absurd (omega arith)
Writes-chunks (suc rounds) (x ∷ xs) h = rw (← encoded-take-drop chunk_fields (x ∷ xs)) (
    Writes-bind _ (λ _. write_chunks rounds (drop chunk_fields (x ∷ xs))) _ _ tt tt
      (Writes-write_all (encoded (take chunk_fields (x ∷ xs))))
      (Writes-chunks rounds (drop chunk_fields (x ∷ xs))
        (omega (arith, length-drop chunk_fields (x ∷ xs)))))

-- The chunks together are the encodings of the values.
pub Writes-field_slice :
    (values : List FieldElement) → Writes (write_field_slice values) (encoded values) tt
unfolding write_field_slice
Writes-field_slice values = Writes-chunks (length values) values (omega arith)

-- One chunk's words fill the slots from `index` on.
store_words_lem :
    (values : List FieldElement) (index : ℕ) (d : Decoding)
    → All IsElement values
    → store_words (length values) index (encoded values) d
      ≡ (ok tt, record d { arena = write_at d.arena index values })
unfolding store_words store_slot decoded_word write_at
store_words_lem [] index d h = refl
store_words_lem (v ∷ vs) index d (hv, hvs) =
    rw
      (
        take-append 4 (to_canonical_le_bytes protocol_modulus v) (encoded vs)
            (length-to_canonical_le_bytes protocol_modulus v),
        drop-append 4 (to_canonical_le_bytes protocol_modulus v) (encoded vs)
            (length-to_canonical_le_bytes protocol_modulus v),
        from-to_canonical_le_bytes protocol_modulus protocol_modulus-IsModulus v hv,
      )
      (store_words_lem vs (index + 1) (record d { arena = set d.arena index v }) hvs)

module _ (rest : List ℕ) (ending : Ending) where
  -- A decoder in front of some payload.
  abbrev pub decoding : List ℕ → List FieldElement → Decoding
  decoding payload arena = record { frame = framed payload rest ending; arena = arena }

  -- One chunk: its bytes are taken, its slots filled, and the loop goes on behind them.
  chunk_lem :
      (values : List FieldElement) (n index : ℕ) (payload : List ℕ) (arena : List FieldElement)
      (next : Action Decoding CodecError (Unit {0}))
      → length values ≡ n
      → All IsElement values
      → (on_frame (read_exact_checked (n * 4)) >>= λ bytes. store_words n index bytes >> next)
          (decoding (encoded values ++ payload) arena)
        ≡ next (decoding payload (write_at arena index values))
  chunk_lem values n index payload arena next h elements = rw (
    read_exact_checked-framed rest ending (encoded values) payload (n * 4)
        (omega (arith, length-encoded values)),
    ← h,
    store_words_lem values index (decoding payload arena) elements,
  )

  read_chunks-suc :
      (rounds index count : ℕ) (d : Decoding)
      → read_chunks (suc rounds) index (suc count) d
        ≡ (on_frame (read_exact_checked (min (suc count) chunk_fields * 4)) >>= λ bytes.
              store_words (min (suc count) chunk_fields) index bytes
              >> read_chunks rounds
                  (index + min (suc count) chunk_fields)
                  (suc count - min (suc count) chunk_fields))
            d
  unfolding read_chunks
  read_chunks-suc rounds index count d = rw (positive count)
    where
      positive : (n : ℕ) → (suc n == 0) ≡ false
      positive n = ground arith

  read_chunks-nil : (rounds index : ℕ) (d : Decoding) → read_chunks rounds index 0 d ≡ (ok tt, d)
  unfolding read_chunks
  read_chunks-nil zero index d = refl
  read_chunks-nil (suc rounds) index d = refl

  write_at-nil : (arena : List FieldElement) (index : ℕ) → write_at arena index [] ≡ arena
  unfolding write_at
  write_at-nil arena index = refl

  split_payload :
      (n : ℕ) (values : List FieldElement) (payload : List ℕ)
      → encoded values ++ payload ≡ encoded (take n values) ++ (encoded (drop n values) ++ payload)
  split_payload n values payload =
      ap (λ t. t ++ payload) (sym (encoded-take-drop n values))
      ∙ append_assoc (encoded (take n values)) (encoded (drop n values)) payload

  read_chunks_lem :
      (rounds : ℕ) (values : List FieldElement) (index count : ℕ) (payload : List ℕ)
      (arena : List FieldElement)
      → length values ≡ count
      → count ≤ rounds
      → All IsElement values
      → read_chunks rounds index count (decoding (encoded values ++ payload) arena)
        ≡ (ok tt, decoding payload (write_at arena index values))
  read_chunks_lem rounds [] index zero payload arena e h elements =
      rw (read_chunks-nil, write_at-nil)
  read_chunks_lem rounds (x ∷ xs) index zero payload arena e h elements = absurd (omega arith)
  read_chunks_lem rounds [] index (suc count) payload arena e h elements = absurd (omega arith)
  read_chunks_lem zero (x ∷ xs) index (suc count) payload arena e h elements = absurd (omega arith)
  read_chunks_lem (suc rounds) (x ∷ xs) index (suc count) payload arena e h elements =
      read_chunks-suc rounds index count (decoding (encoded values ++ payload) arena)
      ∙ ap
          (λ b.
            (on_frame (read_exact_checked (n * 4)) >>= λ bytes.
            store_words n index bytes >> read_chunks rounds (index + n) (suc count - n))
              (decoding b arena))
          (split_payload n values payload)
      ∙ chunk_lem (take n values) n index (encoded (drop n values) ++ payload) arena
          (read_chunks rounds (index + n) (suc count - n)) taken
          (All-take IsElement n values elements)
      ∙ read_chunks_lem rounds (drop n values) (index + n) (suc count - n) payload
          (write_at arena index (take n values)) (omega (arith, length-drop n values)) (omega arith)
          (All-drop IsElement n values elements)
      ∙ ap (λ a. (ok tt, decoding payload a)) whole
    where
      values : List FieldElement
      values = x ∷ xs

      n : ℕ
      n = min (suc count) chunk_fields

      taken : length (take n values) ≡ n
      taken = omega (arith, length-take n values)

      whole :
          write_at (write_at arena index (take n values)) (index + n) (drop n values)
          ≡ write_at arena index values
      whole =
          ap
            (λ (k : ℕ). write_at (write_at arena index (take n values)) (index + k) (drop n values))
            (sym taken)
          ∙ sym (write_at-append_values arena index (take n values) (drop n values))
          ∙ ap (write_at arena index) (take-append-drop n values)

  -- For canonical values whose byte count fits 64 bits, the chunked bulk decoder applied to a payload
  -- that starts with their encodings succeeds, stores the values in the arena from `index` on and
  -- leaves the rest of the payload.
  pub read_field_slice_into-decoding :
      (values : List FieldElement) (index count : ℕ) (payload : List ℕ) (arena : List FieldElement)
      → length values ≡ count
      → count * 4 ≤ u64_max
      → All IsElement values
      → read_field_slice_into index count (decoding (encoded values ++ payload) arena)
        ≡ (ok tt, decoding payload (write_at arena index values))
  unfolding read_field_slice_into
  read_field_slice_into-decoding values index count payload arena e h elements =
      rw
        (
          field_byte_len-ok count (decoding (encoded values ++ payload) arena) h,
          le→leb (count * 4) (length (encoded values ++ payload))
              (omega (arith, length-append (encoded values) payload, length-encoded values)),
        )
        (read_chunks_lem count values index count payload arena e (omega arith) elements)
