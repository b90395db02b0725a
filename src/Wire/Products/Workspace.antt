-- ===== src/Wire/Products/Workspace.antt =====
-- The workspace of products (`emvp-network/src/workspace.rs`), the decoder that fills it (`decode.rs`)
-- and the views of it (`views.rs`).
use emvp_thesis.Base.{
  ℕ, zero, suc, ◌+◌, Option, none, some, List, [], ◌∷◌, leb, if◌then◌else◌, length, get_elem?,
  checked_mul, checked_add, get_range, get_from, and_then,
}
use emvp_thesis.Base.Action.{Action, ensure, gets, modify, for_each, ◌>>=◌, ◌>>◌}
use emvp_thesis.Base.Vector
use emvp_thesis.Base.Vector.{Vector, Allocator, refill}
use emvp_thesis.Emvp.View.{AnswerRef, new_answer_ref, result_ok}
use emvp_thesis.Field.{FieldElement}
use emvp_thesis.Wire.Error.{CodecError, allocation_failed}
use emvp_thesis.Wire.Frame.{FrameReader, Decoding, on_frame, finish, read_field_slice_into}
use emvp_thesis.Wire.Plan.{mul_or_overflow, add_or_overflow, grow, grow_capacity}
use emvp_thesis.Wire.Upload.Workspace.{zero_field}
use emvp_thesis.Wire.Products.{ProductsEntryMeta, ProductsPlan, plan_products}

pub record ProductsWorkspace : Type 0 where
  pub arena : Vector FieldElement
  pub entries : Vector ProductsEntryMeta
  pub query_ids : Vector ℕ

abbrev pub new_workspace : ProductsWorkspace
new_workspace = record { arena = Vector.empty; entries = Vector.empty; query_ids = Vector.empty }

-- `ProductsWorkspace::reserve`
unfoldable pub reserve : Allocator → ProductsPlan → Action ProductsWorkspace CodecError (Unit {0})
reserve allocator plan = do
  arena ← gets (λ (ws : ProductsWorkspace). ws.arena)
  arena ← grow allocator plan.value_fields zero_field arena
  modify (λ ws. record ws { arena = arena })
  entries ← gets (λ (ws : ProductsWorkspace). ws.entries)
  entries ← grow_capacity allocator (length plan.entries) entries
  modify (λ ws. record ws { entries = refill allocator plan.entries entries })
  query_ids ← gets (λ (ws : ProductsWorkspace). ws.query_ids)
  query_ids ← grow_capacity allocator (length plan.query_ids) query_ids
  modify (λ ws. record ws { query_ids = refill allocator plan.query_ids query_ids })

-- One round of the loop of `decode_products`.
unfoldable pub decode_entry : ProductsEntryMeta → Action Decoding CodecError (Unit {0})
decode_entry meta = do
  words ← mul_or_overflow meta.rows meta.blocks
  fields ← mul_or_overflow meta.answer_count words
  end ← add_or_overflow meta.value_offset fields
  arena ← gets (λ (d : Decoding). d.arena)
  ensure (leb end (length arena)) allocation_failed
  read_field_slice_into meta.value_offset fields

unfoldable pub decode_products : ProductsPlan → Action Decoding CodecError (Unit {0})
decode_products plan = do for_each decode_entry plan.entries; on_frame finish

-- An entry's record with its part of the query identifiers and of the arena.
pub record ProductEntryView : Type 0 where
  pub meta : ProductsEntryMeta
  pub query_ids : List ℕ
  pub arena : List FieldElement

-- `ProductsViews::get`
unfoldable pub product_view : ProductsWorkspace → ℕ → Option ProductEntryView
product_view ws index = and_then (get_elem? ws.entries.items index) λ meta.
    and_then (checked_mul meta.rows meta.blocks) λ words.
      and_then (checked_mul words meta.answer_count) λ fields.
        and_then (checked_add meta.value_offset fields) λ end.
          and_then (get_from ws.query_ids.items meta.answer_offset) λ query_ids.
            and_then (get_range ws.arena.items meta.value_offset end)
              λ arena. some (record { meta = meta; query_ids = query_ids; arena = arena })

-- `ProductEntryView::answer`: both slices already start at the entry.
unfoldable pub answer_view : ProductEntryView → ℕ → Option AnswerRef
answer_view v index =
    if leb v.meta.answer_count index
    then none
    else (and_then (get_elem? v.query_ids index) λ query_id.
        and_then (checked_mul v.meta.rows v.meta.blocks) λ words.
          and_then (checked_mul index words) λ start. and_then (checked_add start words) λ end.
            and_then (get_range v.arena start end) λ values.
              result_ok
                (new_answer_ref v.meta.instance_id query_id values v.meta.rows v.meta.blocks))

-- `ProductAnswerIter` and `ProductsEntryIter`: to the first index that has no view.
unfoldable pub answers_from : ℕ → ℕ → ProductEntryView → List AnswerRef
answers_from zero index v = []
answers_from (suc rounds) index v = elim (answer_view v index) [
  | none ↦ []
  | some a ↦ a ∷ answers_from rounds (index + 1) v
]

unfoldable pub entry_answers : ProductEntryView → List AnswerRef
entry_answers v = answers_from v.meta.answer_count 0 v

unfoldable pub products_from : ℕ → ℕ → ProductsWorkspace → List ProductEntryView
products_from zero index ws = []
products_from (suc rounds) index ws = elim (product_view ws index) [
  | none ↦ []
  | some v ↦ v ∷ products_from rounds (index + 1) ws
]

unfoldable pub product_entries : ProductsWorkspace → List ProductEntryView
product_entries ws = products_from (length ws.entries.items) 0 ws

pub record Receiving : Type 0 where
  pub frame : FrameReader
  pub workspace : ProductsWorkspace

abbrev pub with_frame :
    {A : Type 0} → Action FrameReader CodecError A → Action Receiving CodecError A
with_frame m r = let (x, f) = m r.frame in (x, record r { frame = f })

abbrev pub with_workspace :
    {A : Type 0} → Action ProductsWorkspace CodecError A → Action Receiving CodecError A
with_workspace m r = let (x, w) = m r.workspace in (x, record r { workspace = w })

abbrev pub with_arena : {A : Type 0} → Action Decoding CodecError A → Action Receiving CodecError A
with_arena m r =
    let (x, d) = m (record { frame = r.frame; arena = r.workspace.arena.items }) in
    (
      x,
      record {
        frame = d.frame;
        workspace = record (r.workspace) { arena = record (r.workspace.arena) { items = d.arena } };
      },
    )

-- The client's handling of a products payload, in `Session` of `client/src/session.rs`.
unfoldable pub read_products : Allocator → Action Receiving CodecError (List ProductEntryView)
read_products allocator = do
  plan ← with_frame (plan_products allocator)
  with_workspace (reserve allocator plan)
  with_arena (decode_products plan)
  gets (λ (r : Receiving). product_entries r.workspace)
