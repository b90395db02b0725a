-- ===== src/Wire/Stream.antt =====
-- The `std::io::Read` and `std::io::Write` that the codecs are generic over. A reader is the bytes
-- that it still delivers and how it ends after them; a writer is what was written and how many
-- bytes it still takes before it fails.
use emvp_thesis.Base.{
  ℕ, ◌-◌, ◌≤◌, ◌≡◌, ap, ◌∙◌, arith, leb, le→leb, if◌then◌else◌, List, [], ◌∷◌, ◌++◌, length, take,
  drop, length-append, append_assoc, append-nil, All, flat_map,
}
use emvp_thesis.Base.Action.{Action, Result, ok, err, ◌>>=◌, pure, for_each, bind_ok}
use emvp_thesis.Wire.Error.{CodecError, io, truncated_frame}

pub data Ending : Type 0 where
  end_of_stream : Ending
  broken : ℕ → Ending

pub record Stream : Type 0 where
  pub bytes : List ℕ
  pub ending : Ending

-- What `read_exact` reports when the bytes run out.
pub data IoError : Type 0 where
  unexpected_eof : IoError
  other : ℕ → IoError

abbrev pub ending_error : Ending → IoError
ending_error end_of_stream = unexpected_eof
ending_error (broken e) = other e

-- `Read::read_exact` on a buffer of `n` bytes. What a failing call took is lost.
unfoldable pub read_exact : ℕ → Action Stream IoError (List ℕ)
read_exact n s =
    if leb n (length s.bytes)
    then (ok (take n s.bytes), record s { bytes = drop n s.bytes })
    else (err (ending_error s.ending), record s { bytes = [] })

abbrev read_ended : Ending → Stream → Result IoError (List ℕ) × Stream
read_ended end_of_stream s = (ok [], s)
read_ended (broken e) s = (err (other e), s)

-- `Read::read` on a buffer of one byte: no byte at the end of the stream.
unfoldable pub read_one : Action Stream IoError (List ℕ)
read_one s = elim s.bytes [
  | [] ↦ read_ended s.ending s
  | b ∷ bs ↦ (ok (b ∷ []), record s { bytes = bs })
]

-- `map_read_error` of `frame.rs`.
unfoldable pub map_read_error : IoError → CodecError
map_read_error unexpected_eof = truncated_frame
map_read_error (other e) = io e

pub record Sink : Type 0 where
  pub written : List ℕ
  pub room : ℕ
  pub fault : ℕ

-- `Write::write_all`: what still fits is written before the failure.
unfoldable pub write_all : List ℕ → Action Sink CodecError (Unit {0})
write_all bs s =
    if leb (length bs) s.room
    then (ok tt, record s { written = s.written ++ bs; room = s.room - length bs })
    else (err (io s.fault), record s { written = s.written ++ take s.room bs; room = 0 })

-- The writer after `bs`.
abbrev pub extend : Sink → List ℕ → Sink
extend s bs = record s { written = s.written ++ bs; room = s.room - length bs }

-- With enough room, `m` writes exactly `bs` and returns `a`.
abbrev pub Writes : {A : Type 0} → Action Sink CodecError A → List ℕ → A → Type 0
Writes m bs a = (s : Sink) → length bs ≤ s.room → m s ≡ (ok a, extend s bs)

extend-nil : (s : Sink) → s ≡ extend s []
extend-nil s = cc (append-nil s.written, no_room)
  where
    no_room : s.room - 0 ≡ s.room
    no_room = omega arith

extend-append : (s : Sink) (bs cs : List ℕ) → extend (extend s bs) cs ≡ extend s (bs ++ cs)
extend-append s bs cs = cc (append_assoc s.written bs cs, less_room)
  where
    less_room : s.room - length bs - length cs ≡ s.room - length (bs ++ cs)
    less_room = omega (arith, length-append bs cs)

module _ {A B : Type 0} where
  pub Writes-bind :
      (m : Action Sink CodecError A) (f : A → Action Sink CodecError B) (bs cs : List ℕ) (a : A)
      (b : B)
      → Writes m bs a
      → Writes (f a) cs b
      → Writes (m >>= f) (bs ++ cs) b
  Writes-bind m f bs cs a b hm hf s h =
      bind_ok m f s (hm s (omega (arith, length-append bs cs)))
        (hf (extend s bs) (omega (arith, length-append bs cs)))
      ∙ ap (λ t. (ok b, t)) (extend-append s bs cs)

pub Writes-pure : {A : Type 0} (a : A) → Writes (pure a) [] a
Writes-pure a s h = ap (λ t. (ok a, t)) (extend-nil s)

pub Writes-write_all : (bs : List ℕ) → Writes (write_all bs) bs tt
unfolding write_all
Writes-write_all bs s h = rw (le→leb (length bs) s.room h)

-- A loop over items that satisfy `P` writes the bytes of each, in order.
pub Writes-for_each :
    {A : Type 0} (P : A → Type 0) (body : A → Action Sink CodecError (Unit {0})) (f : A → List ℕ)
    (xs : List A)
    → ((x : A) → P x → Writes (body x) (f x) tt)
    → All P xs
    → Writes (for_each body xs) (flat_map f xs) tt
Writes-for_each P body f [] step h = Writes-pure tt
Writes-for_each P body f (x ∷ xs) step (hx, hxs) =
    Writes-bind (body x) (λ _. for_each body xs) (f x) (flat_map f xs) tt tt (step x hx)
      (Writes-for_each P body f xs step hxs)

-- A step that leaves the writer alone.
pub Writes-keep :
    {A : Type 0} (m : Action Sink CodecError A) (a : A)
    → ((s : Sink) → m s ≡ (ok a, s))
    → Writes m [] a
Writes-keep m a h s room = h s ∙ ap (λ t. (ok a, t)) (extend-nil s)

-- A last step that writes nothing.
pub Writes-return :
    {A B : Type 0} (m : Action Sink CodecError A) (f : A → Action Sink CodecError B) (bs : List ℕ)
    (a : A) (b : B)
    → Writes m bs a
    → ((s : Sink) → f a s ≡ (ok b, s))
    → Writes (m >>= f) bs b
Writes-return m f bs a b hm hf s room = bind_ok m f s (hm s room) (hf (extend s bs))

-- A first step that leaves the writer alone.
pub Writes-after :
    {A B : Type 0} (m : Action Sink CodecError A) (f : A → Action Sink CodecError B) (bs : List ℕ)
    (a : A) (b : B)
    → ((s : Sink) → m s ≡ (ok a, s))
    → Writes (f a) bs b
    → Writes (m >>= f) bs b
Writes-after m f bs a b hm hf s room = bind_ok m f s (hm s) (hf s room)
