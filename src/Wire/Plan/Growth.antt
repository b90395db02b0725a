-- ===== src/Wire/Plan/Growth.antt =====
-- `grow` and `grow_capacity` of `emvp-network/src/workspace.rs` under an allocator that refuses
-- nothing.
use emvp_thesis.Base.{
  ℕ, ◌+◌, ◌-◌, ◌≤◌, ◌<◌, ◌≡◌, refl, ap, arith, length, length-append, length-replicate, replicate,
  some, true, false, leb, ltb, ltb→lt, Bool-cases, inl, inr,
}
use emvp_thesis.Base.Action.{ok}
use emvp_thesis.Base.Vector.{Vector, Allocator, try_reserve_exact, resize}
use emvp_thesis.Wire.Plan.{grow, grow_capacity}
use Prim.Native.Nat.{max}

abbrev pub Grants : Allocator → Type 0
Grants allocator = (n : ℕ) → allocator.grants n ≡ true

-- The workspace vector after `grow`.
abbrev pub Grown : {A : Type 0} → Vector A → Vector A → ℕ → Type 0
Grown v w len = (len ≤ length w.items) × (length w.items ≡ max (length v.items) len)

not_less : (a b : ℕ) → ltb a b ≡ false → b ≤ a
not_less a b h = ground arith

longer :
    {A : Type 0} (v w : Vector A) (len : ℕ) (fill : A)
    → w.items ≡ v.items
    → length v.items < len
    → Grown v (resize len fill w) len
unfolding resize
longer v w len fill same short = omega (
  arith,
  ap length same,
  length-append w.items (replicate (len - length w.items) fill),
  length-replicate (len - length w.items) fill,
)

module _ {A : Type 0} (allocator : Allocator) (granted : Grants allocator) where
  try_reserve_exact-ok :
      (n : ℕ) (v : Vector A)
      → (w : Vector A) × (try_reserve_exact allocator n v ≡ some w) × (w.items ≡ v.items)
  unfolding try_reserve_exact
  try_reserve_exact-ok n v = elim (Bool-cases (leb (length v.items + n) v.capacity)) [
    | inl roomy ↦ (v, rw roomy, refl)
    | inr full ↦ (
      record v { capacity = length v.items + n + allocator.spare (length v.items + n) },
      rw (full, granted (length v.items + n)),
      refl,
    )
  ]

  pub grow-ok :
      {S : Type 0} (len : ℕ) (fill : A) (v : Vector A) (s : S)
      → (w : Vector A) × (grow allocator len fill v s ≡ (ok w, s)) × (Grown v w len)
  unfolding grow resize
  grow-ok len fill v s = elim (Bool-cases (ltb (length v.items) len)) [
    | inl short ↦
        let (w, e, same) = try_reserve_exact-ok (len - length v.items) v in
        (resize len fill w, rw (short, e), longer v w len fill same (ltb→lt _ _ short))
    | inr long ↦ (v, rw long, omega (arith, not_less (length v.items) len long))
  ]

  pub grow_capacity-ok :
      {S : Type 0} (len : ℕ) (v : Vector A) (s : S)
      → (w : Vector A) × (grow_capacity allocator len v s ≡ (ok w, s)) × (w.items ≡ v.items)
  unfolding grow_capacity
  grow_capacity-ok len v s = elim (Bool-cases (ltb v.capacity len)) [
    | inl small ↦
        let (w, e, same) = try_reserve_exact-ok (len - v.capacity) v in (w, rw (small, e), same)
    | inr large ↦ (v, rw large, refl)
  ]
