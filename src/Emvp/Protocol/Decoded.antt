-- ===== src/Emvp/Protocol/Decoded.antt =====
-- Decoding the answer to a query whose blocks were scaled gives the products with the query before scaling.
use emvp_thesis.Base.{
  ℕ, suc, ◌+◌, ◌*◌, ◌%◌, ◌≤◌, ◌≡◌, refl, sym, ap, ◌∙◌, some, List, [], ◌∷◌, ◌++◌, length, take,
  drop, map, All, All-take, All-drop, All-append, take-append, drop-append, length-take,
  length-drop, length-append, length-map, get_range, get_elem?, arith,
}
use emvp_thesis.Base.Entries.{drop-drop, get_elem?-drop, get_range-block}
use emvp_thesis.Base.Modular.{add-mod_congr, mul-mod_congr}
use emvp_thesis.Emvp.Protocol.{
  DecodingKey, mul_add, zero_element, decode_terms, decode_row, fill_decoded, scale_blocks,
}
use emvp_thesis.Emvp.Protocol.Answered.{IsAnswerRow, AreRows}
use emvp_thesis.Emvp.Protocol.Sums.{
  dot, dot-take-drop, zero-IsCanonical, value-zero, mul_add-IsCanonical, value-mul_add,
}
use emvp_thesis.Field.{FieldElement, sub, mul, value}
use emvp_thesis.Field.Arithmetic.{IsCanonical, value-sub, value-mul, value-lt, mul-IsCanonical}
use emvp_thesis.Field.Reduction.{IsModulus}
use native.Mathlib.Nat.{mod-eq_of_lt, mod-mod}

-- Scalars and decoding coefficients that are inverse to each other, one by one.
abbrev pub AreInverses : ℕ → List FieldElement → List FieldElement → Type 0
AreInverses p [] cs = cs ≡ []
AreInverses p (alpha ∷ alphas) cs =
    (c : FieldElement) × (rest : List FieldElement) × (cs ≡ c ∷ rest)
    × (IsCanonical p alpha × IsCanonical p c)
    × ((value p alpha * value p c) % p ≡ 1 % p)
    × AreInverses p alphas rest

pub length-inverses :
    (p : ℕ) (alphas cs : List FieldElement) → AreInverses p alphas cs → length alphas ≡ length cs
length-inverses p [] cs h = sym (ap length h)
length-inverses p (alpha ∷ alphas) cs h =
    ap suc (length-inverses p alphas h.1 h.5) ∙ sym (ap length h.2)

-- The blocks of a query, each times its scalar.
abbrev pub AreScaled : ℕ → ℕ → List FieldElement → List FieldElement → List FieldElement → Type 0
AreScaled p b [] query scaled = Unit
AreScaled p b (alpha ∷ alphas) query scaled =
    (take b scaled ≡ map (λ slot. mul p slot alpha) (take b query))
    × AreScaled p b alphas (drop b query) (drop b scaled)

-- Each output plus the mask share is the product of its row with the query.
abbrev pub AreDecoded :
    ℕ → ℕ → List FieldElement → List FieldElement → List FieldElement → List FieldElement → Type 0
AreDecoded p n query values [] out = out ≡ []
AreDecoded p n query values (share ∷ shares) out =
    (y : FieldElement) × (rest : List FieldElement) × (out ≡ y ∷ rest)
    × ((value p y + value p share) % p ≡ dot p (take n values) query % p)
    × AreDecoded p n query (drop n values) shares rest

get_range_first :
    (b : ℕ) (xs : List FieldElement) → b ≤ length xs → get_range xs 0 b ≡ some (take b xs)
get_range_first b xs h =
    let e : b ≡ 0 + b = omega arith in ap (get_range xs 0) e ∙ get_range-block xs 0 b (omega arith)

module _ (p : ℕ) (m : IsModulus p) where
  scaled-All :
      (alpha : FieldElement) (xs : List FieldElement)
      → IsCanonical p alpha
      → All (IsCanonical p) xs
      → All (IsCanonical p) (map (λ slot. mul p slot alpha) xs)
  scaled-All alpha [] ha h = tt
  scaled-All alpha (x ∷ xs) ha h = (mul-IsCanonical p m x alpha h.0 ha, scaled-All alpha xs ha h.1)

  dot-scaled :
      (alpha : FieldElement) (ms xs : List FieldElement)
      → IsCanonical p alpha
      → All (IsCanonical p) xs
      → dot p ms (map (λ slot. mul p slot alpha) xs) % p ≡ (value p alpha * dot p ms xs) % p
  dot-scaled alpha [] xs ha h = ap (λ n. n % p) (omega arith)
  dot-scaled alpha (a ∷ ms) [] ha h = ap (λ n. n % p) (omega arith)
  dot-scaled alpha (a ∷ ms) (x ∷ xs) ha h =
      add-mod_congr p (value p a * value p (mul p x alpha))
        (value p a * (value p x * value p alpha)) (dot p ms (map (λ slot. mul p slot alpha) xs))
        (value p alpha * dot p ms xs)
        (mul-mod_congr p (value p a) (value p a) (value p (mul p x alpha))
          (value p x * value p alpha) refl
          (ap (λ n. n % p) (value-mul p m x alpha h.0 ha) ∙ mod-mod (value p x * value p alpha) p))
        (dot-scaled alpha ms xs ha h.1)
      ∙ ap (λ n. n % p) (omega arith)

  pub scale_blocks-AreScaled :
      (b : ℕ) (alphas cs query : List FieldElement)
      → AreInverses p alphas cs
      → All (IsCanonical p) query
      → length query ≡ length alphas * b
      → (scaled : List FieldElement) × (scale_blocks p b alphas query ≡ some scaled)
        × (length scaled ≡ length query)
        × All (IsCanonical p) scaled
        × AreScaled p b alphas query scaled
  unfolding scale_blocks
  scale_blocks-AreScaled b [] cs query inverses hq size = (query, refl, refl, hq, tt)
  scale_blocks-AreScaled b (alpha ∷ alphas) cs query inverses hq size =
      let block = map (λ slot. mul p slot alpha) (take b query) in
      let r =
        scale_blocks-AreScaled b alphas inverses.1 (drop b query) inverses.5
          (All-drop (IsCanonical p) b query hq) (omega (arith, length-drop b query)) in
      let whole : length block ≡ b =
        omega (arith, length-map (λ slot. mul p slot alpha) (take b query), length-take b query) in
      (
        block ++ r.0,
        rw (get_range_first b query (omega arith), r.1) refl,
        omega (arith, length-append block r.0, whole, r.2, length-drop b query),
        All-append (IsCanonical p) block r.0
            (scaled-All alpha (take b query) inverses.3.0 (All-take (IsCanonical p) b query hq))
            r.3,
        (take-append b block r.0 whole, rw (drop-append b block r.0 whole) r.4),
      )

  -- One term of the decoding sum: the scalar and the coefficient cancel.
  term_cancels :
      (x alpha c : FieldElement) (a d : ℕ)
      → value p x % p ≡ a % p
      → a % p ≡ (value p alpha * d) % p
      → (value p alpha * value p c) % p ≡ 1 % p
      → (value p x * value p c) % p ≡ d % p
  term_cancels x alpha c a d hx ha inverse =
      mul-mod_congr p (value p x) (value p alpha * d) (value p c) (value p c) (hx ∙ ha) refl
      ∙ ap (λ n. n % p) (omega arith)
      ∙ mul-mod_congr p (value p alpha * value p c) 1 d d inverse refl
      ∙ ap (λ n. n % p) (omega arith)

  no_products : (row query : List FieldElement) → length row ≡ 0 → dot p row query ≡ 0
  no_products [] query h = refl
  no_products (x ∷ row) query h = absurd (omega arith)

  decode_terms_step :
      (values : List FieldElement) (index : ℕ) (cs rest : List FieldElement)
      (c x y acc : FieldElement)
      → cs ≡ c ∷ rest
      → get_elem? values index ≡ some x
      → decode_terms p values (index + 1) rest (mul_add p acc x c) ≡ some y
      → decode_terms p values index cs acc ≡ some y
  unfolding decode_terms
  decode_terms_step values index cs rest c x y acc split found h = rw (split, found) h

  no_length :
      (b : ℕ) (row cs : List FieldElement)
      → length row ≡ length cs * b
      → length cs ≡ 0
      → length row ≡ 0
  no_length b row cs size none_left = size ∙ ap (λ n. n * b) none_left ∙ omega arith

  decode_terms-dot :
      (b : ℕ) (values : List FieldElement) (index : ℕ)
      (alphas cs slots rest row query scaled : List FieldElement) (acc : FieldElement)
      → drop index values ≡ slots ++ rest
      → IsAnswerRow p b (length cs) row scaled slots
      → AreScaled p b alphas query scaled
      → AreInverses p alphas cs
      → All (IsCanonical p) query
      → length row ≡ length cs * b
      → IsCanonical p acc
      → (y : FieldElement) × (decode_terms p values index cs acc ≡ some y)
        × IsCanonical p y
        × (value p y % p ≡ (value p acc + dot p row query) % p)
  unfolding decode_terms
  decode_terms-dot b values index [] cs slots rest row query scaled acc at_index answers scales
        inverses hq size hacc =
      (
        acc,
        rw inverses refl,
        hacc,
        ap (λ n. n % p)
            (omega (arith, no_products row query (no_length b row cs size (ap length inverses)))),
      )
  decode_terms-dot b values index (alpha ∷ alphas) cs [] rest row query scaled acc at_index answers
        scales inverses hq size hacc =
      absurd (omega (arith, answers.size, ap length inverses.2))
  decode_terms-dot b values index (alpha ∷ alphas) cs (x ∷ slots) rest row query scaled acc at_index
        answers scales inverses hq size hacc =
      let here = get_elem?-drop index values at_index in
      let c = inverses.0 in
      let acc' = mul_add p acc x c in
      let step =
        value-mul_add p m acc x c hacc answers.canonical.0 inverses.3.1
        ∙ add-mod_congr p (value p acc) (value p acc) (value p x * value p c)
            (dot p (take b row) (take b query)) refl
            (term_cancels x alpha c (dot p (take b row) (take b scaled))
              (dot p (take b row) (take b query)) answers.products.0
              (ap (λ t. dot p (take b row) t % p) scales.0
                ∙ dot-scaled alpha (take b row) (take b query) inverses.3.0
                    (All-take (IsCanonical p) b query hq))
              inverses.4) in
      let count : length cs ≡ suc (length inverses.1) = ap length inverses.2 in
      let r =
        decode_terms-dot b values (index + 1) alphas inverses.1 slots rest (drop b row)
          (drop b query) (drop b scaled) acc' here.1
          (record {
            size = omega (arith, answers.size, count);
            canonical = answers.canonical.1;
            products = answers.products.1;
          })
          scales.1 inverses.5 (All-drop (IsCanonical p) b query hq)
          (omega (arith, length-drop b row, size, ap (λ n. n * b) count))
          (mul_add-IsCanonical p m acc x c hacc answers.canonical.0 inverses.3.1) in
      (
        r.0,
        decode_terms_step values index cs inverses.1 c x r.0 acc inverses.2 here.0 r.1,
        r.2,
        r.3
            ∙ add-mod_congr p (value p acc') (value p acc + dot p (take b row) (take b query))
                (dot p (drop b row) (drop b query)) (dot p (drop b row) (drop b query)) step refl
            ∙ ap (λ n. n % p) (omega (arith, dot-take-drop p b row query)),
      )

  -- The share is taken off.
  value-sub_mod :
      (x y : FieldElement) (n : ℕ)
      → IsCanonical p x
      → IsCanonical p y
      → value p x % p ≡ n % p
      → (value p (sub p x y) + value p y) % p ≡ n % p
  value-sub_mod x y n hx hy h = value-sub p m x y hx hy ∙ sym (mod-eq_of_lt (value-lt p m x hx)) ∙ h

  pub fill_decoded-AreDecoded :
      (n b : ℕ) (all : List FieldElement) (key : DecodingKey)
      (alphas query scaled : List FieldElement) (row : ℕ) (shares values out : List FieldElement)
      → AreInverses p alphas key.p_prime
      → AreScaled p b alphas query scaled
      → All (IsCanonical p) query
      → length key.p_prime * b ≡ n
      → All (IsCanonical p) shares
      → drop row key.r_prime ≡ shares
      → drop (row * length key.p_prime) all ≡ out
      → length values ≡ length shares * n
      → AreRows p n b (length key.p_prime) scaled (length shares) values out
      → (ys : List FieldElement) × (fill_decoded p all key (length key.p_prime) row (length shares)
          ≡ some ys)
        × AreDecoded p n query values shares ys
  unfolding fill_decoded decode_row
  fill_decoded-AreDecoded n b all key alphas query scaled row [] values out inverses scales hq whole
        hr at_row at_out size rows =
      ([], refl, refl)
  fill_decoded-AreDecoded n b all key alphas query scaled row (share ∷ shares) values out inverses
        scales hq whole hr at_row at_out size rows =
      let s = length key.p_prime in
      let (slots, rest, split, answers, more) = rows in
      let own = get_elem?-drop row key.r_prime at_row in
      let one =
        decode_terms-dot b all (row * s) alphas key.p_prime slots rest (take n values) query scaled
          (zero_element p) (at_out ∙ split) answers scales inverses hq
          (omega (arith, length-take n values)) (zero-IsCanonical p m) in
      let r =
        fill_decoded-AreDecoded n b all key alphas query scaled (row + 1) shares (drop n values)
          rest inverses scales hq whole hr.1 own.1
          (next_row row s all slots rest (at_out ∙ split) answers.size)
          (omega (arith, length-drop n values)) more in
      (
        sub p one.0 share ∷ r.0,
        rw (one.1, own.0, r.1) refl,
        (
          sub p one.0 share,
          r.0,
          refl,
          value-sub_mod one.0 share (dot p (take n values) query) one.2 hr.0 (
              one.3
              ∙ add-mod_congr p (value p (zero_element p)) 0 (dot p (take n values) query)
                  (dot p (take n values) query) (value-zero p m) refl
              ∙ ap (λ k. k % p) (omega arith)),
          r.2,
        ),
      )
    where
      next_row :
          (row s : ℕ) (all slots rest : List FieldElement)
          → drop (row * s) all ≡ slots ++ rest
          → length slots ≡ s
          → drop ((row + 1) * s) all ≡ rest
      next_row row s all slots rest h size =
          let e : (row + 1) * s ≡ row * s + s = omega arith in
          ap (λ k. drop k all) e
          ∙ sym (drop-drop (row * s) s all)
          ∙ ap (drop s) h
          ∙ drop-append s slots rest size
