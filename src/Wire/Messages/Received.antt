-- ===== src/Wire/Messages/Received.antt =====
-- What the reader of `UploadAccepted` frames accepts: nothing but the frames that its writer makes.
use emvp_thesis.Base.{ℕ, ◌-◌, ◌≡◌, sym, ap, ◌∙◌, List, length, All, ltb, not, Bool-cases, inl, inr}
use emvp_thesis.Base.Action.{
  Action, Result, ok, pure, ensure, ensure_inverse, ok_or_inverse, ◌>>=◌, ◌>>◌, bind_inverse,
}
use emvp_thesis.Base.Vector
use emvp_thesis.Base.Vector.{Vector, Allocator, refill, try_reserve_exact}
use emvp_thesis.Base.Words.{IsByte}
use emvp_thesis.Wire.Error.{CodecError, allocation_failed, upload_accepted}
use emvp_thesis.Wire.Stream.{Stream}
use emvp_thesis.Wire.Frame.{FrameReader, finish}
use emvp_thesis.Wire.Frame.Header.{header}
use emvp_thesis.Wire.Frame.Parses.{Parses, Takes, finish_inverse}
use emvp_thesis.Wire.Frame.Delivered.{Delivers, Delivers-IsByte, Delivers-append}
use emvp_thesis.Wire.Plan.{grow_capacity}
use emvp_thesis.Wire.Messages.{
  plan_upload_accepted, UploadAcceptedPlan, Accepting, with_frame, reserve, decode_upload_accepted,
  accept, read_upload_accepted_payload, open_frame, on_payload, read_upload_accepted,
}
use emvp_thesis.Wire.Messages.Planned.{plan_upload_accepted-Parses}
use emvp_thesis.Wire.Messages.Opened.{open_frame_exact, on_payload_inverse}
use emvp_thesis.Wire.Messages.Payload.{
  IsIdentifier, accepted_payload, accepted_len, length-accepted_payload, accepted_frame,
}

with_frame_inverse :
    {A : Type 0} (m : Action FrameReader CodecError A) (a b : Accepting) (x : A)
    → with_frame m a ≡ (ok x, b)
    → (m a.frame ≡ (ok x, b.frame)) × (a.identifiers ≡ b.identifiers)
with_frame_inverse m a b x h = within (m a.frame) a b x h
  where
    within :
        {A : Type 0} (p : Result CodecError A × FrameReader) (a b : Accepting) (x : A)
        → ◌≡◌ {A = Result CodecError A × Accepting} (p.0, record a { frame = p.1 }) (ok x, b)
        → (p ≡ (ok x, b.frame)) × (a.identifiers ≡ b.identifiers)
    within (r, f) a b x h =
        let result : r ≡ ok x = cc h in
        let reader : f ≡ b.frame = cc h in (cc (result, reader), cc h)

grow_capacity_kept :
    (allocator : Allocator) (n : ℕ) (v w : Vector ℕ) (a b : Accepting)
    → grow_capacity allocator n v a ≡ (ok w, b)
    → a ≡ b
unfolding grow_capacity
grow_capacity_kept allocator n v w a b h = elim (Bool-cases (ltb v.capacity n)) [
  | inl small ↦
      (ok_or_inverse allocation_failed (try_reserve_exact allocator (n - v.capacity) v) a
        (rw small at h)).1
  | inr roomy ↦ cc (rw roomy at h)
]

reserve_frame :
    (allocator : Allocator) (plan : UploadAcceptedPlan) (a b : Accepting)
    → reserve allocator plan a ≡ (ok tt, b)
    → a.frame ≡ b.frame
unfolding reserve
reserve_frame allocator plan a b h =
    let (w, a1, grown, h1) =
      bind_inverse (grow_capacity allocator (length plan.identifiers) a.identifiers) _ a h in
    let kept = grow_capacity_kept allocator (length plan.identifiers) a.identifiers w a a1 grown in
    let last : a1.frame ≡ b.frame = cc h1 in ap (λ (r : Accepting). r.frame) kept ∙ last

decode_inverse :
    (allocator : Allocator) (plan : UploadAcceptedPlan) (a b : Accepting) (ids : List ℕ)
    → decode_upload_accepted allocator plan a ≡ (ok ids, b)
    → (plan.identifiers ≡ ids) × (a.frame ≡ b.frame)
unfolding decode_upload_accepted refill
decode_inverse allocator plan a b ids h =
    let room = not (ltb a.identifiers.capacity (length plan.identifiers)) in
    let (_, a1, checked, h1) = bind_inverse (ensure room allocation_failed) _ a h in
    let (_, kept) = ensure_inverse room allocation_failed a checked in
    let filled : Accepting = record a1 {
      identifiers = refill allocator plan.identifiers a.identifiers;
    } in
    let (_, a2, finished, h2) = bind_inverse (with_frame finish) _ filled h1 in
    let (ended, stored) = with_frame_inverse finish filled a2 tt finished in
    let (_, read) = finish_inverse a1.frame a2.frame ended in
    let last : a2 ≡ b = cc h2 in
    let out : a2.identifiers.items ≡ ids = cc h2 in
    (
      ap (λ (v : Vector ℕ). v.items) stored ∙ out,
      ap (λ (r : Accepting). r.frame) kept ∙ read ∙ ap (λ (r : Accepting). r.frame) last,
    )

-- The identifiers that a payload is read as, and the bytes it was.
abbrev IsAccepted : List ℕ → List ℕ → Type 0
IsAccepted ids bs = All IsIdentifier ids × (bs ≡ accepted_payload ids)

accept_inverse :
    (allocator : Allocator) (a b : Accepting) (ids : List ℕ)
    → All IsByte a.frame.inner.bytes
    → accept allocator a ≡ (ok ids, b)
    → (bs : List ℕ) × IsAccepted ids bs × Takes bs a.frame b.frame
unfolding accept
accept_inverse allocator a b ids bytes h =
    let (plan, a1, planned, h1) =
      bind_inverse (with_frame (plan_upload_accepted allocator)) _ a h in
    let (_, a2, reserved, h2) = bind_inverse (reserve allocator plan) _ a1 h1 in
    let (same, kept) = decode_inverse allocator plan a2 b ids h2 in
    let (read, _) = with_frame_inverse (plan_upload_accepted allocator) a a1 plan planned in
    let (bs, holds, given) =
      (plan_upload_accepted-Parses allocator).taken a.frame a1.frame plan bytes read in
    let whole : a1.frame ≡ b.frame = reserve_frame allocator plan a1 a2 reserved ∙ kept in
    carried plan.identifiers ids bs a.frame a1.frame b.frame same whole holds given
  where
    carried :
        (is js bs : List ℕ) (f g h : FrameReader)
        → is ≡ js
        → g ≡ h
        → IsAccepted is bs
        → Takes bs f g
        → (cs : List ℕ) × IsAccepted js cs × Takes cs f h
    carried is js bs f g h e k holds given = rw (← e, ← k) (bs, holds, given)

read_upload_accepted_payload-Parses :
    (allocator : Allocator) → Parses (read_upload_accepted_payload allocator) IsAccepted
unfolding read_upload_accepted_payload
read_upload_accepted_payload-Parses allocator = record {
  taken = λ f g ids bytes h.
      let start : Accepting = record { frame = f; identifiers = Vector.empty } in
      let p = accept allocator start in
      let result : p.0 ≡ ok ids = ap (λ (q : Result CodecError (List ℕ) × FrameReader). q.0) h in
      let reader : p.1.frame ≡ g = ap (λ (q : Result CodecError (List ℕ) × FrameReader). q.1) h in
      let (bs, holds, given) =
        accept_inverse allocator start p.1 ids bytes (ap (λ r. (r, p.1)) result) in
      (bs, holds, within bs f p.1.frame g reader given);
}
  where
    within : (bs : List ℕ) (f g h : FrameReader) → g ≡ h → Takes bs f g → Takes bs f h
    within bs f g h e given = rw (← e) given

-- Where `read_upload_accepted` returns identifiers on a stream of bytes, each of them is positive and
-- below 2^64, the length it returns is the payload length that the writer gives them, and the stream was
-- the frame that the writer makes of them, followed by what is left: no other bytes are accepted.
pub read_upload_accepted_sound :
    (allocator : Allocator) (s t : Stream) (ids : List ℕ) (n : ℕ)
    → All IsByte s.bytes
    → read_upload_accepted allocator s ≡ (ok (ids, n), t)
    → All IsIdentifier ids × (n ≡ accepted_len ids) × Delivers (accepted_frame ids) s t
unfolding read_upload_accepted
read_upload_accepted_sound allocator s t ids n bytes h =
    let (len, u, opened, h1) = bind_inverse (open_frame upload_accepted) _ s h in
    let (_, head) = (open_frame_exact upload_accepted s u bytes len 0).0.0 opened in
    let below = (Delivers-IsByte (header upload_accepted len) s u head bytes).1 in
    let (message, v, read, h2) =
      bind_inverse
        (on_payload len
          (read_upload_accepted_payload allocator >>= λ (m : List ℕ). finish >> pure m))
        (λ message. pure (message, len)) u h1 in
    let (bs, (are, payload), size, tail) =
      on_payload_inverse (read_upload_accepted_payload allocator) IsAccepted len u v message
        (read_upload_accepted_payload-Parses allocator) below read in
    joined bs u v t message len ids n s (cc h2, cc h2, cc h2) payload are size head tail
  where
    joined :
        (bs : List ℕ) (u v t : Stream) (message : List ℕ) (len : ℕ) (ids : List ℕ) (n : ℕ)
        (s : Stream)
        → (message ≡ ids) × (len ≡ n) × (v ≡ t)
        → bs ≡ accepted_payload message
        → All IsIdentifier message
        → length bs ≡ len
        → Delivers (header upload_accepted len) s u
        → Delivers bs u v
        → All IsIdentifier ids × (n ≡ accepted_len ids) × Delivers (accepted_frame ids) s t
    joined bs u v t message len ids n s (e, k, q) payload are size head tail =
        let long : len ≡ accepted_len message =
          sym size ∙ ap length payload ∙ length-accepted_payload message in
        rw (← e, ← k, ← q)
          (
            are,
            long,
            rw (← long, ← payload)
                (Delivers-append (header upload_accepted len) bs s u v head tail),
          )
