-- ===== src/Emvp/Params/Search/Found.antt =====
-- What `search` returns, and that it finds parameters where there are any within its budget.
use emvp_thesis.Base.{
  ℕ, zero, suc, ◌+◌, ◌*◌, ◌<◌, ◌≤◌, ◌≡◌, refl, ap, ◌∙◌, ◌⊎◌, inl, inr, max, none, some, ltb, ◌==◌,
  arith, Bool-cases, ltb→lt, Option-cases, pos→==_zero, le→ltb, checked_add, checked_add-some,
  checked_mul, checked_mul-some, u64_max,
}
use emvp_thesis.Base.Action.{Result, ok}
use emvp_thesis.Emvp.Params.{EmvpParams, zero_ell, lambda_out_of_scope, rank_floor}
use emvp_thesis.Emvp.Params.Security.{protocol_max_lambda}
use emvp_thesis.Emvp.Params.Security.Secure.{IsSecure, validate-IsSecure, if_inverse}
use emvp_thesis.Emvp.Params.Search.{
  search_rank_budget, divisors_from, sort_descending, feasible_at, search_ranks, search_from,
  search,
}
use emvp_thesis.Emvp.Params.Search.Divisors.{divisors_complete}
use emvp_thesis.Emvp.Params.Search.Descending.{
  IsFeasible, first_feasible-IsFeasible, first_feasible_largest, sort_descending-IsDescending,
  sort_descending-Has,
}

own_rank :
    {k ell lambda : ℕ} (p : EmvpParams) → IsFeasible k ell lambda p → IsFeasible p.k ell lambda p
own_rank p f = record {
  rank = refl;
  record_length = f.record_length;
  level = f.level;
  valid = f.valid;
}

feasible_at-IsFeasible :
    (k ell lambda n : ℕ) (p : EmvpParams)
    → feasible_at k ell lambda n ≡ some p
    → IsFeasible k ell lambda p
unfolding feasible_at
feasible_at-IsFeasible k ell lambda n p h = first_feasible-IsFeasible k ell lambda _ p h

ok_injective : {E A : Type 0} {a b : A} → ◌≡◌ {A = Result E A} (ok a) (ok b) → a ≡ b
ok_injective h = cc h

module _ (ell lambda : ℕ) where
  search_ranks-IsFeasible :
      (ranks k floor : ℕ) (p : EmvpParams)
      → search_ranks ranks k ell lambda floor ≡ ok p
      → IsFeasible p.k ell lambda p
  unfolding search_ranks
  search_ranks-IsFeasible zero k floor p h = cc h
  search_ranks-IsFeasible (suc ranks) k floor p h = elim (Option-cases (checked_mul k 2)) [
    | inl large ↦ cc (rw (large, search_ranks) at h)
    | inr fits ↦ elim (Option-cases (feasible_at k ell lambda fits.0)) [
      | inl missed ↦
          search_ranks-IsFeasible ranks (k + 1) floor p (rw (fits.1, missed, search_ranks) at h)
      | inr found ↦
          let e : found.0 ≡ p = ok_injective (rw (fits.1, found.1, search_ranks) at h) in
          rw (← e) (own_rank found.0 (feasible_at-IsFeasible k ell lambda fits.0 found.0 found.1))
    ]
  ]

-- At the rank of secure parameters, a block size is found that is at least theirs.
feasible_at_finds :
    (q : EmvpParams)
    → IsSecure q
    → (p : EmvpParams) × (feasible_at q.k q.ell q.lambda (q.k * 2) ≡ some p) × (q.b ≤ p.b)
unfolding feasible_at
feasible_at_finds q s =
    first_feasible_largest q.k q.ell q.lambda
      (sort_descending (divisors_from (q.k * 2) (q.k * 2) 1)) q.b (sort_descending-IsDescending _)
      (sort_descending-Has q.b _
        (divisors_complete (q.k * 2) q.b (omega arith) (omega arith) s.sized.divides))
      s.sized.block_large ((validate-IsSecure q).1 s)

passed_over :
    (k : ℕ) (q : EmvpParams)
    → IsSecure q
    → k ≤ q.k
    → feasible_at k q.ell q.lambda (k * 2) ≡ none
    → k < q.k
passed_over k q s low missed = elim (Bool-cases (ltb k q.k)) [
  | inl below ↦ ltb→lt _ _ below
  | inr above ↦
      let e : k ≡ q.k = ground arith in
      let best = feasible_at_finds q s in
      absurd (cc (missed, best.1, ap (λ t. feasible_at t q.ell q.lambda (t * 2)) e))
]

at_rank :
    (k : ℕ) (q : EmvpParams)
    → IsSecure q
    → k ≤ q.k
    → (p : EmvpParams) → feasible_at k q.ell q.lambda (k * 2) ≡ some p
    → p.k ≡ k
    → (p.k < q.k) ⊎ ((p.k ≡ q.k) × (q.b ≤ p.b))
at_rank k q s low p found rank = elim (Bool-cases (ltb k q.k)) [
  | inl below ↦ inl (omega (arith, rank, ltb→lt _ _ below))
  | inr above ↦
      let e : k ≡ q.k = ground arith in
      let best = feasible_at_finds q s in
      let same : p ≡ best.0 =
        cc (found, best.1, ap (λ t. feasible_at t q.ell q.lambda (t * 2)) e) in
      inr (rank ∙ e, rw same best.2)
]

search_ranks_finds :
    (ranks k floor : ℕ) (q : EmvpParams)
    → IsSecure q
    → k ≤ q.k
    → q.k < k + ranks
    → (p : EmvpParams) × (search_ranks ranks k q.ell q.lambda floor ≡ ok p)
      × ((p.k < q.k) ⊎ ((p.k ≡ q.k) × (q.b ≤ p.b)))
unfolding search_ranks
search_ranks_finds zero k floor q s low high = absurd (omega arith)
search_ranks_finds (suc ranks) k floor q s low high =
    rw (checked_mul-some k 2 (omega (arith, s.sized.length_fits)), search_ranks)
      (elim (Option-cases (feasible_at k q.ell q.lambda (k * 2))) [
        | inl missed ↦
            rw (missed, search_ranks)
              (search_ranks_finds ranks (k + 1) floor q s
                (omega (arith, passed_over k q s low missed)) (omega arith))
        | inr found ↦ (
          found.0,
          rw (found.1, search_ranks) refl,
          at_rank k q s low found.0 found.1
              (feasible_at-IsFeasible k q.ell q.lambda (k * 2) found.0 found.1).rank,
        )
      ])

floor_le : (q : EmvpParams) → IsSecure q → max q.ell (rank_floor q.lambda) ≤ q.k
unfolding rank_floor
floor_le q s = omega (arith, s.sized.ell_le_rank, s.slack)

search_from-IsFeasible :
    (floor ell lambda : ℕ) (p : EmvpParams)
    → search_from floor ell lambda ≡ ok p
    → IsFeasible p.k ell lambda p
search_from-IsFeasible floor ell lambda p h =
    elim (Option-cases (checked_add floor search_rank_budget)) [
      | inl large ↦ cc (rw (large, search_from) at h)
      | inr last ↦
          search_ranks-IsFeasible ell lambda search_rank_budget floor floor p
            (rw (last.1, search_from) at h)
    ]

-- For every successful search, the parameters it returns are secure and have the record length and the
-- level that were asked for.
pub search-IsSecure :
    (ell lambda : ℕ) (p : EmvpParams)
    → search ell lambda ≡ ok p
    → IsSecure p × (p.ell ≡ ell) × (p.lambda ≡ lambda)
unfolding search
search-IsSecure ell lambda p h =
    let shape = if_inverse (ell == 0) zero_ell _ h in
    let f =
      search_from-IsFeasible (max ell (rank_floor lambda)) ell lambda p
        (if_inverse (ltb protocol_max_lambda lambda) (lambda_out_of_scope lambda) _ shape.1).1 in
    ((validate-IsSecure p).0 f.valid, f.record_length, f.level)

-- If any secure parameters q have a rank less than the search's budget (ten million) above its floor
-- max(ell, ceil(lambda / 4)), and that bound fits 64 bits, then `search` for their record length and level succeeds,
-- with a smaller rank than q's or with the same rank and a block size that is at least q's.
pub search_finds :
    (q : EmvpParams)
    → IsSecure q
    → max q.ell (rank_floor q.lambda) + search_rank_budget ≤ u64_max
    → q.k < max q.ell (rank_floor q.lambda) + search_rank_budget
    → (p : EmvpParams) × (search q.ell q.lambda ≡ ok p)
      × ((p.k < q.k) ⊎ ((p.k ≡ q.k) × (q.b ≤ p.b)))
unfolding search
search_finds q s fits high =
    rw
      (
        pos→==_zero q.ell s.sized.ell_positive,
        le→ltb protocol_max_lambda q.lambda s.scope,
        checked_add-some (max q.ell (rank_floor q.lambda)) search_rank_budget fits,
        search_from,
      )
      (search_ranks_finds search_rank_budget (max q.ell (rank_floor q.lambda))
        (max q.ell (rank_floor q.lambda)) q s (floor_le q s) high)
