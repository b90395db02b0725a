-- ===== src/Trapdoor/Permutation/Inverse.antt =====
-- Applying a permutation undoes its transpose.
use emvp_thesis.Base.{
  ℕ, suc, ◌<◌, ◌≡◌, refl, sym, ◌∙◌, ◌≢◌, Option, some, List, [], ◌∷◌, length, get_elem?, set, All,
  length-set, lt→ltb, eq→==, arith, String,
}
use emvp_thesis.Base.Action.{ok}
use emvp_thesis.Base.Entries.{All-map, get_elem?-set_self, get_elem?-set_other}
use emvp_thesis.Trapdoor.Error.{check_len}
use emvp_thesis.Trapdoor.Permutation.{
  Permutation, gather, scatter, apply, apply_transpose, when_sized,
}
use emvp_thesis.Trapdoor.Permutation.Accepted.{IsPermutation, Distinct}

module _ {T : Type 0} where
  no_slots : (slots : List T) → length slots ≡ 0 → ◌≡◌ {A = Option (List T)} (some slots) (some [])
  no_slots [] e = refl
  no_slots (s ∷ slots) e = absurd (omega arith)

  gather_step :
      (input : List T) (i : ℕ) (is : List ℕ) (v : T) (vs slots : List T)
      → get_elem? input i ≡ some v
      → ((rest : List T) → length rest ≡ length is → gather input is rest ≡ some vs)
      → length slots ≡ suc (length is)
      → gather input (i ∷ is) slots ≡ some (v ∷ vs)
  unfolding gather
  gather_step input i is v vs [] h k e = absurd (omega arith)
  gather_step input i is v vs (s ∷ slots) h k e = rw (h, k slots (omega arith), gather) refl

  -- What scattering leaves: the values at the indices, and every other slot as it was.
  record IsScattered (values : List T) (indices : List ℕ) (output after : List T) : Type 0 where
    ran : scatter values indices output ≡ some after
    same_length : length after ≡ length output
    elsewhere : (j : ℕ) → All (λ i. i ≢ j) indices → get_elem? after j ≡ get_elem? output j
    gathered :
        (slots : List T) → length slots ≡ length indices → gather after indices slots ≡ some values

  scatter-IsScattered :
      (values : List T) (indices : List ℕ) (output : List T)
      → length values ≡ length indices
      → All (λ i. i < length output) indices
      → Distinct indices
      → (after : List T) × IsScattered values indices output after
  unfolding scatter gather
  scatter-IsScattered [] [] output same below apart = (
    output,
    record {
      ran = refl;
      same_length = refl;
      elsewhere = λ j h. refl;
      gathered = λ slots e. no_slots slots e;
    },
  )
  scatter-IsScattered [] (i ∷ is) output same below apart = absurd (omega arith)
  scatter-IsScattered (v ∷ vs) [] output same below apart = absurd (omega arith)
  scatter-IsScattered (v ∷ vs) (i ∷ is) output same below apart =
      let r =
        scatter-IsScattered vs is (set output i v) (omega arith)
          (All-map is (λ j h. omega (arith, h, length-set output i v)) below.1) apart.1 in
      (
        r.0,
        record {
          ran = rw (lt→ltb i (length output) below.0, scatter) r.1.ran;
          same_length = r.1.same_length ∙ length-set output i v;
          elsewhere = λ j h. r.1.elsewhere j h.1 ∙ get_elem?-set_other output i j v h.0;
          gathered = λ slots e.
              gather_step r.0 i is v vs slots
                (r.1.elsewhere i (All-map is (λ j n q. n (sym q)) apart.0)
                  ∙ get_elem?-set_self output i v below.0)
                r.1.gathered e;
        },
      )

  when_sized-ok :
      (name other : String) (n a b : ℕ) (m : Option (List T)) (r : List T)
      → n ≡ a
      → n ≡ b
      → m ≡ some r
      → when_sized (check_len name n a) (check_len other n b) m ≡ some (ok r)
  unfolding check_len
  when_sized-ok name other n a b m r ha hb hm = rw (eq→== n a ha, eq→== n b hb, hm) refl

  -- For every permutation of distinct indices below its length, and an input and outputs of that length,
  -- `apply_transpose` succeeds, and `apply` on what it wrote gives the input back, whatever the outputs held.
  pub apply_transpose-apply :
      (p : Permutation) (input first second : List T)
      → IsPermutation p.indices
      → length input ≡ length p.indices
      → length first ≡ length p.indices
      → length second ≡ length p.indices
      → (scattered : List T) × (apply_transpose p input first ≡ some (ok scattered))
        × (apply p scattered second ≡ some (ok input))
  unfolding apply apply_transpose
  apply_transpose-apply p input first second h input_len first_len second_len =
      let r =
        scatter-IsScattered input p.indices first input_len
          (All-map p.indices (λ i below. omega (arith, below, first_len)) h.in_range) h.distinct in
      (
        r.0,
        when_sized-ok _ _ _ _ _ _ r.0 (sym input_len) (sym first_len) r.1.ran,
        when_sized-ok _ _ _ _ _ _ input (omega (arith, r.1.same_length, first_len)) (sym second_len)
            (r.1.gathered second second_len),
      )
