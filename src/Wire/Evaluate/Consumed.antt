-- ===== src/Wire/Evaluate/Consumed.antt =====
-- Reading an evaluate payload never gives bytes back to the stream.
use emvp_thesis.Base.{ℕ, zero, suc, refl}
use emvp_thesis.Base.Action.{Action}
use emvp_thesis.Base.Consumes.{Consumes, Consumes-bind, Consumes-keep, Consumes-pure, consuming}
use emvp_thesis.Base.Vector.{Allocator}
use emvp_thesis.Wire.Error.{CodecError}
use emvp_thesis.Wire.Frame.{FrameReader, Decoding}
use emvp_thesis.Wire.Frame.Consumed.{
  payload_left, decoding_left, read_word-Consumes, host_len-Consumes, on_frame-Consumes,
  finish-Consumes, read_field_slice_into-Consumes,
}
use emvp_thesis.Wire.Plan.Consumed.{
  reserve_table-Consumes, require_descriptor_fit-Consumes, require_exact_value_region-Consumes,
}
use emvp_thesis.Wire.Evaluate.{
  EvaluatePlan, EvaluateEntryMeta, check_width, evaluate_entry, evaluate_entries, evaluate_query,
  evaluate_queries, plan_evaluate,
}
use emvp_thesis.Wire.Evaluate.Workspace.{
  EvaluateWorkspace, Receiving, with_frame, with_workspace, with_arena, decode_entry,
  decode_evaluate, read_evaluate,
}

check_width-Consumes : (count width : ℕ) → Consumes payload_left (check_width count width)
unfolding check_width
check_width-Consumes count width = search consuming

evaluate_entry-Consumes : (summed fields : ℕ) → Consumes payload_left (evaluate_entry summed fields)
unfolding evaluate_entry
evaluate_entry-Consumes summed fields =
    search (consuming, read_word-Consumes, host_len-Consumes, check_width-Consumes) depth 20

evaluate_entries-Consumes :
    (count summed fields : ℕ) → Consumes payload_left (evaluate_entries count summed fields)
unfolding evaluate_entries
evaluate_entries-Consumes zero summed fields = Consumes-pure _
evaluate_entries-Consumes (suc count) summed fields =
    Consumes-bind _ _ (evaluate_entry-Consumes summed fields) λ first.
      Consumes-bind _ _ (evaluate_entries-Consumes count first.1 first.2) λ rest. Consumes-pure _

evaluate_query-Consumes : Consumes payload_left evaluate_query
unfolding evaluate_query
evaluate_query-Consumes = search (consuming, read_word-Consumes)

evaluate_queries-Consumes : (count : ℕ) → Consumes payload_left (evaluate_queries count)
unfolding evaluate_queries
evaluate_queries-Consumes zero = Consumes-pure _
evaluate_queries-Consumes (suc count) =
    Consumes-bind _ _ evaluate_query-Consumes
      λ query. Consumes-bind _ _ (evaluate_queries-Consumes count) λ queries. Consumes-pure _

plan_evaluate-Consumes : (allocator : Allocator) → Consumes payload_left (plan_evaluate allocator)
unfolding plan_evaluate
plan_evaluate-Consumes allocator =
    search
      (
        consuming, read_word-Consumes, host_len-Consumes, require_descriptor_fit-Consumes,
        reserve_table-Consumes, evaluate_entries-Consumes, evaluate_queries-Consumes,
        require_exact_value_region-Consumes,
      )
      depth 20

decode_entry-Consumes : (meta : EvaluateEntryMeta) → Consumes decoding_left (decode_entry meta)
unfolding decode_entry
decode_entry-Consumes meta = search (consuming, read_field_slice_into-Consumes)

decode_evaluate-Consumes : (plan : EvaluatePlan) → Consumes decoding_left (decode_evaluate plan)
unfolding decode_evaluate
decode_evaluate-Consumes plan =
    search (consuming, decode_entry-Consumes, on_frame-Consumes, finish-Consumes)

abbrev pub receiving_left : Receiving → ℕ
receiving_left r = payload_left r.frame

with_frame-Consumes :
    {A : Type 0} (m : Action FrameReader CodecError A)
    → Consumes payload_left m
    → Consumes receiving_left (with_frame m)
with_frame-Consumes m h = record { shrinks = λ r. h.shrinks r.frame }

with_workspace-Consumes :
    {A : Type 0} (m : Action EvaluateWorkspace CodecError A)
    → Consumes receiving_left (with_workspace m)
with_workspace-Consumes m = Consumes-keep (with_workspace m) (λ r. refl)

with_arena-Consumes :
    {A : Type 0} (m : Action Decoding CodecError A)
    → Consumes decoding_left m
    → Consumes receiving_left (with_arena m)
with_arena-Consumes m h = record { shrinks = λ r. h.shrinks _ }

pub read_evaluate-Consumes :
    (allocator : Allocator) → Consumes receiving_left (read_evaluate allocator)
unfolding read_evaluate
read_evaluate-Consumes allocator =
    search
      (
        consuming, with_frame-Consumes, with_workspace-Consumes, with_arena-Consumes,
        plan_evaluate-Consumes, decode_evaluate-Consumes,
      )
      depth 10
