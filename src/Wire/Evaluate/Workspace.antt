-- ===== src/Wire/Evaluate/Workspace.antt =====
-- The workspace of evaluations (`emvp-network/src/workspace.rs`), the decoder that fills it
-- (`decode.rs`), the views of it (`views.rs`), and `Session::read_evaluate` of
-- `server/src/session.rs`, which runs them in order.
use emvp_thesis.Base.{
  ℕ, zero, suc, ◌+◌, Option, none, some, List, [], ◌∷◌, leb, if◌then◌else◌, length, get_elem?,
  checked_mul, checked_add, get_range, get_from, and_then,
}
use emvp_thesis.Base.Action.{Action, pure, ensure, gets, modify, for_each, ◌>>=◌, ◌>>◌}
use emvp_thesis.Base.Vector
use emvp_thesis.Base.Vector.{Vector, Allocator, refill}
use emvp_thesis.Emvp.View.{EncryptedQueryRef, new_query_ref, result_ok}
use emvp_thesis.Field.{FieldElement}
use emvp_thesis.Wire.Error.{CodecError, allocation_failed}
use emvp_thesis.Wire.Frame.{FrameReader, Decoding, on_frame, finish, read_field_slice_into}
use emvp_thesis.Wire.Plan.{mul_or_overflow, add_or_overflow, grow, grow_capacity}
use emvp_thesis.Wire.Upload.Workspace.{zero_field}
use emvp_thesis.Wire.Evaluate.{EvaluateEntryMeta, EvaluateQueryMeta, EvaluatePlan, plan_evaluate}

pub record EvaluateWorkspace : Type 0 where
  pub arena : Vector FieldElement
  pub entries : Vector EvaluateEntryMeta
  pub queries : Vector EvaluateQueryMeta

abbrev pub new_workspace : EvaluateWorkspace
new_workspace = record { arena = Vector.empty; entries = Vector.empty; queries = Vector.empty }

-- `EvaluateWorkspace::reserve`
unfoldable pub reserve : Allocator → EvaluatePlan → Action EvaluateWorkspace CodecError (Unit {0})
reserve allocator plan = do
  arena ← gets (λ (ws : EvaluateWorkspace). ws.arena)
  arena ← grow allocator plan.value_fields zero_field arena
  modify (λ ws. record ws { arena = arena })
  entries ← gets (λ (ws : EvaluateWorkspace). ws.entries)
  entries ← grow_capacity allocator (length plan.entries) entries
  modify (λ ws. record ws { entries = refill allocator plan.entries entries })
  queries ← gets (λ (ws : EvaluateWorkspace). ws.queries)
  queries ← grow_capacity allocator (length plan.queries) queries
  modify (λ ws. record ws { queries = refill allocator plan.queries queries })

-- One round of the loop of `decode_evaluate`.
unfoldable pub decode_entry : EvaluateEntryMeta → Action Decoding CodecError (Unit {0})
decode_entry meta = do
  fields ← mul_or_overflow meta.query_count meta.query_width
  end ← add_or_overflow meta.value_offset fields
  arena ← gets (λ (d : Decoding). d.arena)
  ensure (leb end (length arena)) allocation_failed
  read_field_slice_into meta.value_offset fields

unfoldable pub decode_evaluate : EvaluatePlan → Action Decoding CodecError (Unit {0})
decode_evaluate plan = do for_each decode_entry plan.entries; on_frame finish

-- An entry's record with its part of the query table and of the arena.
pub record EvaluateEntryView : Type 0 where
  pub meta : EvaluateEntryMeta
  pub queries : List EvaluateQueryMeta
  pub arena : List FieldElement

-- `EvaluateViews::get`
unfoldable pub entry_view : EvaluateWorkspace → ℕ → Option EvaluateEntryView
entry_view ws index = and_then (get_elem? ws.entries.items index) λ meta.
    and_then (checked_mul meta.query_count meta.query_width) λ fields.
      and_then (checked_add meta.value_offset fields) λ end.
        and_then (get_from ws.queries.items meta.query_offset) λ queries.
          and_then (get_range ws.arena.items meta.value_offset end)
            λ arena. some (record { meta = meta; queries = queries; arena = arena })

-- `EvaluateEntryView::query`: both slices already start at the entry.
unfoldable pub query_view : EvaluateEntryView → ℕ → Option EncryptedQueryRef
query_view v index =
    if leb v.meta.query_count index
    then none
    else (and_then (get_elem? v.queries index) λ query.
        and_then (checked_mul index v.meta.query_width) λ start.
          and_then (checked_add start v.meta.query_width) λ end.
            and_then (get_range v.arena start end)
              λ values. result_ok (new_query_ref query.instance_id query.query_id values))

-- `EvaluateQueryIter` and `EvaluateEntryIter`: to the first index that has no view.
unfoldable pub queries_from : ℕ → ℕ → EvaluateEntryView → List EncryptedQueryRef
queries_from zero index v = []
queries_from (suc rounds) index v = elim (query_view v index) [
  | none ↦ []
  | some q ↦ q ∷ queries_from rounds (index + 1) v
]

unfoldable pub entry_queries : EvaluateEntryView → List EncryptedQueryRef
entry_queries v = queries_from v.meta.query_count 0 v

unfoldable pub entries_from : ℕ → ℕ → EvaluateWorkspace → List EvaluateEntryView
entries_from zero index ws = []
entries_from (suc rounds) index ws = elim (entry_view ws index) [
  | none ↦ []
  | some v ↦ v ∷ entries_from rounds (index + 1) ws
]

unfoldable pub entries : EvaluateWorkspace → List EvaluateEntryView
entries ws = entries_from (length ws.entries.items) 0 ws

pub record Receiving : Type 0 where
  pub frame : FrameReader
  pub workspace : EvaluateWorkspace

abbrev pub with_frame :
    {A : Type 0} → Action FrameReader CodecError A → Action Receiving CodecError A
with_frame m r = let (x, f) = m r.frame in (x, record r { frame = f })

abbrev pub with_workspace :
    {A : Type 0} → Action EvaluateWorkspace CodecError A → Action Receiving CodecError A
with_workspace m r = let (x, w) = m r.workspace in (x, record r { workspace = w })

abbrev pub with_arena : {A : Type 0} → Action Decoding CodecError A → Action Receiving CodecError A
with_arena m r =
    let (x, d) = m (record { frame = r.frame; arena = r.workspace.arena.items }) in
    (
      x,
      record {
        frame = d.frame;
        workspace = record (r.workspace) { arena = record (r.workspace.arena) { items = d.arena } };
      },
    )

-- `Session::read_evaluate`: the views and the number of queries.
unfoldable pub read_evaluate : Allocator → Action Receiving CodecError (List EvaluateEntryView × ℕ)
read_evaluate allocator = do
  plan ← with_frame (plan_evaluate allocator)
  with_workspace (reserve allocator plan)
  with_arena (decode_evaluate plan)
  ws ← gets (λ (r : Receiving). r.workspace)
  pure (entries ws, length plan.queries)
