-- ===== src/Trapdoor/Permutation.antt =====
-- `trapdoor-matrices/src/permutation.rs`: gather permutations, their check and their application. An
-- index out of a slice panics in the source; the result is none.
pub mod Accepted
pub mod Inverse
use emvp_thesis.Base.{
  ℕ, zero, suc, ◌+◌, Option, none, some, List, [], ◌∷◌, Bool, true, false, ltb, if◌then◌else◌,
  length, get_elem?, set, replicate,
}
use emvp_thesis.Base.Action.{Result, ok, err}
use emvp_thesis.Trapdoor.Error.{TdmError, invalid_permutation, check_len}

pub record Permutation : Type 0 where
  pub indices : List ℕ

-- The loop of `Permutation::new` from a position on: the slots that were seen, or the error.
pub check_indices : ℕ → List ℕ → List Bool → Result TdmError (List Bool)
check_indices position [] seen = ok seen
check_indices position (index ∷ indices) seen = elim (get_elem? seen index) [
  | none ↦ err (invalid_permutation position index)
  | some slot ↦ elim slot [
    | true ↦ err (invalid_permutation position index)
    | false ↦ check_indices (position + 1) indices (set seen index true)
  ]
]

-- `Permutation::new`
pub new : List ℕ → Result TdmError Permutation
new indices = elim (check_indices 0 indices (replicate (length indices) false)) [
  | ok seen ↦ ok (record { indices = indices })
  | err e ↦ err e
]

module _ {T : Type 0} where
  -- `for (result, &index) in output.iter_mut().zip(&self.indices)`
  pub gather : List T → List ℕ → List T → Option (List T)
  gather input [] output = some output
  gather input (index ∷ indices) [] = some []
  gather input (index ∷ indices) (slot ∷ output) = elim (get_elem? input index) [
    | none ↦ none
    | some value ↦ elim (gather input indices output) [
      | none ↦ none
      | some rest ↦ some (value ∷ rest)
    ]
  ]

  -- `for (&value, &index) in input.iter().zip(&self.indices)`
  pub scatter : List T → List ℕ → List T → Option (List T)
  scatter [] indices output = some output
  scatter (value ∷ input) [] output = some output
  scatter (value ∷ input) (index ∷ indices) output = elim (ltb index (length output)) [
    | true ↦ scatter input indices (set output index value)
    | false ↦ none
  ]

  abbrev pub written : Option (List T) → Option (Result TdmError (List T))
  written none = none
  written (some output) = some (ok output)

  -- The checks of both lengths, before anything is written.
  abbrev pub when_sized :
      Result TdmError (Unit {0})
      → Result TdmError (Unit {0})
      → Option (List T)
      → Option (Result TdmError (List T))
  when_sized (err e) second m = some (err e)
  when_sized (ok u) (err e) m = some (err e)
  when_sized (ok u) (ok v) m = written m

  -- `Permutation::apply`: the output after the call.
  pub apply : Permutation → List T → List T → Option (Result TdmError (List T))
  apply p input output =
      when_sized (check_len "permutation input" (length p.indices) (length input))
        (check_len "permutation output" (length p.indices) (length output))
        (gather input p.indices output)

  -- `Permutation::apply_transpose`
  pub apply_transpose : Permutation → List T → List T → Option (Result TdmError (List T))
  apply_transpose p input output =
      when_sized (check_len "permutation transpose input" (length p.indices) (length input))
        (check_len "permutation transpose output" (length p.indices) (length output))
        (scatter input p.indices output)
