-- ===== src/Wire/Upload/Consumed.antt =====
-- Reading an upload payload never gives bytes back to the stream.
use emvp_thesis.Base.{ℕ, zero, suc, refl}
use emvp_thesis.Base.Action.{Action}
use emvp_thesis.Base.Consumes.{Consumes, Consumes-bind, Consumes-keep, Consumes-pure, consuming}
use emvp_thesis.Base.Vector.{Allocator}
use emvp_thesis.Wire.Error.{CodecError}
use emvp_thesis.Wire.Frame.{FrameReader, Decoding}
use emvp_thesis.Wire.Frame.Consumed.{
  payload_left, decoding_left, read_word-Consumes, host_len-Consumes, remaining-Consumes,
  on_frame-Consumes, finish-Consumes, read_field_slice_into-Consumes,
}
use emvp_thesis.Wire.Plan.Consumed.{reserve_table-Consumes, require_exact_value_region-Consumes}
use emvp_thesis.Wire.Upload.{
  UploadPlan, UploadMatrixMeta, upload_descriptor, upload_descriptors, plan_upload,
}
use emvp_thesis.Wire.Upload.Receive.{Receiving, with_frame, with_workspace, with_arena, read_upload}
use emvp_thesis.Wire.Upload.Workspace.{UploadWorkspace, decode_matrix, decode_upload}

upload_descriptor-Consumes : (fields : ℕ) → Consumes payload_left (upload_descriptor fields)
unfolding upload_descriptor
upload_descriptor-Consumes fields =
    search (consuming, read_word-Consumes, host_len-Consumes) depth 20

upload_descriptors-Consumes :
    (count fields : ℕ) → Consumes payload_left (upload_descriptors count fields)
unfolding upload_descriptors
upload_descriptors-Consumes zero fields = Consumes-pure _
upload_descriptors-Consumes (suc count) fields =
    Consumes-bind _ _ (upload_descriptor-Consumes fields)
      λ first. Consumes-bind _ _ (upload_descriptors-Consumes count first.1) λ rest. Consumes-pure _

plan_upload-Consumes : (allocator : Allocator) → Consumes payload_left (plan_upload allocator)
unfolding plan_upload
plan_upload-Consumes allocator =
    search
      (
        consuming, read_word-Consumes, host_len-Consumes, remaining-Consumes,
        reserve_table-Consumes, upload_descriptors-Consumes, require_exact_value_region-Consumes,
      )
      depth 20

decode_matrix-Consumes : (meta : UploadMatrixMeta) → Consumes decoding_left (decode_matrix meta)
unfolding decode_matrix
decode_matrix-Consumes meta = search (consuming, read_field_slice_into-Consumes)

decode_upload-Consumes : (plan : UploadPlan) → Consumes decoding_left (decode_upload plan)
unfolding decode_upload
decode_upload-Consumes plan =
    search (consuming, decode_matrix-Consumes, on_frame-Consumes, finish-Consumes)

abbrev pub receiving_left : Receiving → ℕ
receiving_left r = payload_left r.frame

with_frame-Consumes :
    {A : Type 0} (m : Action FrameReader CodecError A)
    → Consumes payload_left m
    → Consumes receiving_left (with_frame m)
with_frame-Consumes m h = record { shrinks = λ r. h.shrinks r.frame }

with_workspace-Consumes :
    {A : Type 0} (m : Action UploadWorkspace CodecError A)
    → Consumes receiving_left (with_workspace m)
with_workspace-Consumes m = Consumes-keep (with_workspace m) (λ r. refl)

with_arena-Consumes :
    {A : Type 0} (m : Action Decoding CodecError A)
    → Consumes decoding_left m
    → Consumes receiving_left (with_arena m)
with_arena-Consumes m h = record { shrinks = λ r. h.shrinks _ }

pub read_upload-Consumes : (allocator : Allocator) → Consumes receiving_left (read_upload allocator)
unfolding read_upload
read_upload-Consumes allocator = search (
  consuming, with_frame-Consumes, with_workspace-Consumes, with_arena-Consumes,
  plan_upload-Consumes, decode_upload-Consumes,
)
