-- ===== src/Wire/Upload/Workspace.antt =====
-- The workspace of uploads (`emvp-network/src/workspace.rs`), the decoder that fills it (`decode.rs`)
-- and the views of it (`views.rs`).
use emvp_thesis.Base.{
  ℕ, zero, suc, ◌+◌, Option, none, some, List, [], ◌∷◌, leb, length, get_elem?, and_then,
  checked_mul, checked_add, get_range,
}
use emvp_thesis.Base.Action.{gets, modify, Action, ensure, ◌>>=◌, ◌>>◌, for_each}
use emvp_thesis.Base.Vector
use emvp_thesis.Base.Vector.{Vector, Allocator, refill}
use emvp_thesis.Field.{FieldElement, from_u32}
use emvp_thesis.Wire.Error.{CodecError, allocation_failed}
use emvp_thesis.Wire.Frame.{Decoding, on_frame, finish, read_field_slice_into, protocol_modulus}
use emvp_thesis.Wire.Plan.{mul_or_overflow, add_or_overflow, grow, grow_capacity}
use emvp_thesis.Wire.Upload.{UploadMatrixMeta, UploadPlan, UploadMatrixView}

pub record UploadWorkspace : Type 0 where
  pub arena : Vector FieldElement
  pub matrices : Vector UploadMatrixMeta

-- `UploadWorkspace::new` and `clear`.
abbrev pub new_workspace : UploadWorkspace
new_workspace = record { arena = Vector.empty; matrices = Vector.empty }

unfoldable pub zero_field : FieldElement
zero_field = from_u32 protocol_modulus 0

-- `UploadWorkspace::reserve`
unfoldable pub reserve : Allocator → UploadPlan → Action UploadWorkspace CodecError (Unit {0})
unfolding zero_field
reserve allocator plan = do
  arena ← gets (λ (ws : UploadWorkspace). ws.arena)
  arena ← grow allocator plan.value_fields zero_field arena
  modify (λ ws. record ws { arena = arena })
  matrices ← gets (λ (ws : UploadWorkspace). ws.matrices)
  matrices ← grow_capacity allocator (length plan.matrices) matrices
  modify (λ ws. record ws { matrices = refill allocator plan.matrices matrices })

-- One round of the loop of `decode_upload`; `get_mut` fails past the arena's end.
unfoldable pub decode_matrix : UploadMatrixMeta → Action Decoding CodecError (Unit {0})
decode_matrix meta = do
  fields ← mul_or_overflow meta.rows meta.columns
  end ← add_or_overflow meta.value_offset fields
  arena ← gets (λ (d : Decoding). d.arena)
  ensure (leb end (length arena)) allocation_failed
  read_field_slice_into meta.value_offset fields

-- `decode_upload` on the workspace's arena.
unfoldable pub decode_upload : UploadPlan → Action Decoding CodecError (Unit {0})
unfolding decode_matrix
decode_upload plan = do for_each decode_matrix plan.matrices; on_frame finish

-- `matrix_view`: a record with the slice of the arena that it describes.
unfoldable pub matrix_view : UploadMatrixMeta → List FieldElement → Option UploadMatrixView
matrix_view meta arena = and_then (checked_mul meta.rows meta.columns) λ fields.
    and_then (checked_add meta.value_offset fields) λ end.
      and_then (get_range arena meta.value_offset end) λ values. some (record {
        params = meta.params;
        instance_id = meta.instance_id;
        rows = meta.rows;
        columns = meta.columns;
        values = values;
      })

-- `UploadViews::get`
unfoldable pub view : UploadWorkspace → ℕ → Option UploadMatrixView
view ws index =
    and_then (get_elem? ws.matrices.items index) (λ meta. matrix_view meta ws.arena.items)

-- `UploadMatrixViewIter`: views until the first that is missing; at most one for each record.
unfoldable pub views_from : ℕ → ℕ → UploadWorkspace → List UploadMatrixView
views_from zero index ws = []
views_from (suc rounds) index ws = elim (view ws index) [
  | none ↦ []
  | some v ↦ v ∷ views_from rounds (index + 1) ws
]

unfoldable pub views : UploadWorkspace → List UploadMatrixView
unfolding views_from
views ws = views_from (length ws.matrices.items) 0 ws
