-- ===== src/Emvp/Protocol/Lanes.antt =====
-- The product of two blocks over four accumulators is their inner product.
use emvp_thesis.Base.{ℕ, ◌+◌, ◌*◌, ◌%◌, ◌<◌, ◌≡◌, refl, ap, ◌∙◌, List, [], ◌∷◌, length, All, arith}
use emvp_thesis.Base.Modular.{add-mod_congr}
use emvp_thesis.Emvp.Protocol.{
  LaneSums, mul_add, zero_element, add_quads, remainder, add_tail, fold_lanes, block_product,
}
use emvp_thesis.Emvp.Protocol.Sums.{
  dot, zero-IsCanonical, value-zero, mul_add-IsCanonical, value-mul_add,
}
use emvp_thesis.Field.{FieldElement, add, value}
use emvp_thesis.Field.Arithmetic.{IsCanonical, value-add, add-IsCanonical}
use emvp_thesis.Field.Reduction.{IsModulus}
use native.Mathlib.Nat.{mod-mod}

module _ (p : ℕ) (m : IsModulus p) where
  add_left : (a b c : ℕ) → a % p ≡ b % p → (a + c) % p ≡ (b + c) % p
  add_left a b c h = add-mod_congr p a b c c h refl

  congr4 :
      (a b c d a' b' c' d' : ℕ)
      → a % p ≡ a' % p
      → b % p ≡ b' % p
      → c % p ≡ c' % p
      → d % p ≡ d' % p
      → (a + b + c + d) % p ≡ (a' + b' + c' + d') % p
  congr4 a b c d a' b' c' d' ha hb hc hd =
      add-mod_congr p (a + b + c) (a' + b' + c') d d'
        (add-mod_congr p (a + b) (a' + b') c c' (add-mod_congr p a a' b b' ha hb) hc) hd

  record IsLanes (s : LaneSums) : Type 0 where
    canonical0 : IsCanonical p s.lane0
    canonical1 : IsCanonical p s.lane1
    canonical2 : IsCanonical p s.lane2
    canonical3 : IsCanonical p s.lane3

  abbrev lane_total : LaneSums → ℕ
  lane_total s = value p s.lane0 + value p s.lane1 + value p s.lane2 + value p s.lane3

  remainder-All :
      (xs : List FieldElement) → All (IsCanonical p) xs → All (IsCanonical p) (remainder p xs)
  unfolding remainder
  remainder-All [] h = h
  remainder-All (a ∷ []) h = h
  remainder-All (a ∷ b ∷ []) h = h
  remainder-All (a ∷ b ∷ c ∷ []) h = h
  remainder-All (a ∷ b ∷ c ∷ d ∷ xs) h = remainder-All xs h.1.1.1.1

  remainder-short : (xs : List FieldElement) → length xs < 4 → remainder p xs ≡ xs
  unfolding remainder
  remainder-short [] h = refl
  remainder-short (a ∷ []) h = refl
  remainder-short (a ∷ b ∷ []) h = refl
  remainder-short (a ∷ b ∷ c ∷ []) h = refl
  remainder-short (a ∷ b ∷ c ∷ d ∷ xs) h = absurd (omega arith)

  add_quads-total :
      (s : LaneSums) (ms qs : List FieldElement)
      → IsLanes s
      → All (IsCanonical p) ms
      → All (IsCanonical p) qs
      → length ms ≡ length qs
      → IsLanes (add_quads p s ms qs)
        × ((lane_total (add_quads p s ms qs) + dot p (remainder p ms) (remainder p qs)) % p
            ≡ (lane_total s + dot p ms qs) % p)
  unfolding add_quads remainder
  add_quads-total s [] qs hs hm hq e = (hs, refl)
  add_quads-total s (a ∷ []) qs hs hm hq e =
      (hs, ap (λ t. (lane_total s + dot p (a ∷ []) t) % p) (remainder-short qs (omega arith)))
  add_quads-total s (a ∷ b ∷ []) qs hs hm hq e =
      (hs, ap (λ t. (lane_total s + dot p (a ∷ b ∷ []) t) % p) (remainder-short qs (omega arith)))
  add_quads-total s (a ∷ b ∷ c ∷ []) qs hs hm hq e = (
    hs,
    ap (λ t. (lane_total s + dot p (a ∷ b ∷ c ∷ []) t) % p) (remainder-short qs (omega arith)),
  )
  add_quads-total s (a ∷ b ∷ c ∷ d ∷ ms) [] hs hm hq e = absurd (omega arith)
  add_quads-total s (a ∷ b ∷ c ∷ d ∷ ms) (w ∷ []) hs hm hq e = absurd (omega arith)
  add_quads-total s (a ∷ b ∷ c ∷ d ∷ ms) (w ∷ x ∷ []) hs hm hq e = absurd (omega arith)
  add_quads-total s (a ∷ b ∷ c ∷ d ∷ ms) (w ∷ x ∷ y ∷ []) hs hm hq e = absurd (omega arith)
  add_quads-total s (a ∷ b ∷ c ∷ d ∷ ms) (w ∷ x ∷ y ∷ z ∷ qs) hs (ha, (hb, (hc, (hd, hm))))
        (hw, (hx, (hy, (hz, hq)))) e =
      let s' : LaneSums = record {
        lane0 = mul_add p s.lane0 a w;
        lane1 = mul_add p s.lane1 b x;
        lane2 = mul_add p s.lane2 c y;
        lane3 = mul_add p s.lane3 d z;
      } in
      let r =
        add_quads-total s' ms qs
          (record {
            canonical0 = mul_add-IsCanonical p m s.lane0 a w hs.canonical0 ha hw;
            canonical1 = mul_add-IsCanonical p m s.lane1 b x hs.canonical1 hb hx;
            canonical2 = mul_add-IsCanonical p m s.lane2 c y hs.canonical2 hc hy;
            canonical3 = mul_add-IsCanonical p m s.lane3 d z hs.canonical3 hd hz;
          })
          hm hq (omega arith) in
      (
        r.0,
        r.1
            ∙ add_left (lane_total s')
                (value p s.lane0
                  + value p a * value p w
                  + (value p s.lane1 + value p b * value p x)
                  + (value p s.lane2 + value p c * value p y)
                  + (value p s.lane3 + value p d * value p z))
                (dot p ms qs)
                (congr4 (value p s'.lane0) (value p s'.lane1) (value p s'.lane2) (value p s'.lane3)
                  _ _ _ _ (value-mul_add p m s.lane0 a w hs.canonical0 ha hw)
                  (value-mul_add p m s.lane1 b x hs.canonical1 hb hx)
                  (value-mul_add p m s.lane2 c y hs.canonical2 hc hy)
                  (value-mul_add p m s.lane3 d z hs.canonical3 hd hz))
            ∙ ap (λ n. n % p) (omega arith),
      )

  add_tail-total :
      (s : FieldElement) (ms qs : List FieldElement)
      → IsCanonical p s
      → All (IsCanonical p) ms
      → All (IsCanonical p) qs
      → IsCanonical p (add_tail p s ms qs)
        × (value p (add_tail p s ms qs) % p ≡ (value p s + dot p ms qs) % p)
  unfolding add_tail
  add_tail-total s [] qs hs hm hq = (hs, ap (λ n. n % p) (omega arith))
  add_tail-total s (x ∷ ms) [] hs hm hq = (hs, ap (λ n. n % p) (omega arith))
  add_tail-total s (x ∷ ms) (y ∷ qs) hs hm hq =
      let r =
        add_tail-total (mul_add p s x y) ms qs (mul_add-IsCanonical p m s x y hs hm.0 hq.0) hm.1
          hq.1 in
      (
        r.0,
        r.1
            ∙ add_left (value p (mul_add p s x y)) (value p s + value p x * value p y) (dot p ms qs)
                (value-mul_add p m s x y hs hm.0 hq.0)
            ∙ ap (λ n. n % p) (omega arith),
      )

  -- `add` on canonical elements, as residues.
  value-add_mod :
      (x y : FieldElement)
      → IsCanonical p x
      → IsCanonical p y
      → value p (add p x y) % p ≡ (value p x + value p y) % p
  value-add_mod x y hx hy =
      ap (λ n. n % p) (value-add p m x y hx hy) ∙ mod-mod (value p x + value p y) p

  fold_lanes-total :
      (a b c d : FieldElement)
      → IsCanonical p a
      → IsCanonical p b
      → IsCanonical p c
      → IsCanonical p d
      → IsCanonical p (fold_lanes p a b c d)
        × (value p (fold_lanes p a b c d) % p ≡ (value p a + value p b + value p c + value p d) % p)
  fold_lanes-total a b c d ha hb hc hd =
      let z = zero_element p in
      let za = add p z a in
      let hza = add-IsCanonical p m z a (zero-IsCanonical p m) ha in
      let hab = add-IsCanonical p m za b hza hb in
      let habc = add-IsCanonical p m (add p za b) c hab hc in
      (
        add-IsCanonical p m (add p (add p za b) c) d habc hd,
        value-add_mod (add p (add p za b) c) d habc hd
            ∙ add_left (value p (add p (add p za b) c)) (value p a + value p b + value p c)
                (value p d)
                (value-add_mod (add p za b) c hab hc
                  ∙ add_left (value p (add p za b)) (value p a + value p b) (value p c) (
                      value-add_mod za b hza hb
                      ∙ add_left (value p za) (value p a) (value p b) (
                          value-add_mod z a (zero-IsCanonical p m) ha
                          ∙ add_left (value p z) 0 (value p a) (value-zero p m)
                          ∙ ap (λ n. n % p) (omega arith)))),
      )

  -- Whatever the lengths of the lanes and of the tail, the product of two blocks is their inner product.
  pub block_product-dot :
      (ms qs : List FieldElement)
      → All (IsCanonical p) ms
      → All (IsCanonical p) qs
      → length ms ≡ length qs
      → IsCanonical p (block_product p ms qs)
        × (value p (block_product p ms qs) % p ≡ dot p ms qs % p)
  unfolding block_product
  block_product-dot ms qs hm hq e =
      let z = zero_element p in
      let hz = zero-IsCanonical p m in
      let start : LaneSums = record { lane0 = z; lane1 = z; lane2 = z; lane3 = z } in
      let (lanes, quads) =
        add_quads-total start ms qs
          (record { canonical0 = hz; canonical1 = hz; canonical2 = hz; canonical3 = hz }) hm hq e in
      let s = add_quads p start ms qs in
      let (small, tail) =
        add_tail-total s.lane0 (remainder p ms) (remainder p qs) lanes.canonical0
          (remainder-All ms hm) (remainder-All qs hq) in
      let t = add_tail p s.lane0 (remainder p ms) (remainder p qs) in
      let (canonical, total) =
        fold_lanes-total t s.lane1 s.lane2 s.lane3 small lanes.canonical1 lanes.canonical2
          lanes.canonical3 in
      (
        canonical,
        total
            ∙ congr4 (value p t) (value p s.lane1) (value p s.lane2) (value p s.lane3) _ _ _ _ tail
                refl refl refl
            ∙ ap (λ n. n % p) (omega arith)
            ∙ quads
            ∙ add_left (lane_total start) 0 (dot p ms qs) (
                congr4 (value p z) (value p z) (value p z) (value p z) 0 0 0 0 (value-zero p m)
                  (value-zero p m) (value-zero p m) (value-zero p m))
            ∙ ap (λ n. n % p) (omega arith),
      )
