-- ===== src/Base/Vector.antt =====
-- `Vec`: its items and the capacity that was reserved for them. Whether the allocator grants a
-- buffer of so many elements, and how many more it then has, are the caller's parameter.
use emvp_thesis.Base.Tests.{leb, if◌then◌else◌}
use emvp_thesis.Base.Lists.{length, replicate}
use Prim.Native.Nat.{ℕ, ◌+◌, ◌-◌, max}
use mathlib.Core.Bool.{Bool}
use mathlib.Core.Option.{Option, none, some}
use mathlib.Core.List.{List, [], ◌++◌}

pub record Allocator : Type 0 where
  -- Whether a buffer for so many elements is granted.
  pub grants : ℕ → Bool
  -- The capacity of a buffer that is asked to hold so many elements, beyond that number.
  pub spare : ℕ → ℕ

pub record Vector (A : Type 0) : Type 0 where
  pub items : List A
  pub capacity : ℕ

module _ {A : Type 0} where
  -- `Vec::new`
  abbrev pub empty : Vector A
  empty = record { items = []; capacity = 0 }

  -- `try_reserve_exact`: room for `additional` items beyond the length, not beyond the capacity.
  unfoldable pub try_reserve_exact : Allocator → ℕ → Vector A → Option (Vector A)
  try_reserve_exact allocator additional v =
      let needed = length v.items + additional in
      if leb needed v.capacity
      then some v
      else if allocator.grants needed
      then some (record v { capacity = needed + allocator.spare needed })
      else none

  -- `resize` to a greater length, after room for it was reserved.
  unfoldable pub resize : ℕ → A → Vector A → Vector A
  resize len fill v = record {
    items = v.items ++ replicate (len - length v.items) fill;
    capacity = max v.capacity len;
  }

  -- `clear` followed by `extend_from_slice`, which grows the buffer where it is too small.
  unfoldable pub refill : Allocator → List A → Vector A → Vector A
  refill allocator xs v = record {
    items = xs;
    capacity =
        if leb (length xs) v.capacity then v.capacity else length xs + allocator.spare (length xs);
  }
