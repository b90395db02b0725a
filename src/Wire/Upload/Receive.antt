-- ===== src/Wire/Upload/Receive.antt =====
-- `Session::read_upload` of `server/src/session.rs`: plan, reserve and decode of one upload payload.
use emvp_thesis.Base.{List}
use emvp_thesis.Base.Action.{Action, gets, ◌>>=◌, ◌>>◌}
use emvp_thesis.Base.Vector.{Allocator}
use emvp_thesis.Wire.Error.{CodecError}
use emvp_thesis.Wire.Frame.{FrameReader, Decoding}
use emvp_thesis.Wire.Upload.{UploadMatrixView, plan_upload}
use emvp_thesis.Wire.Upload.Workspace.{UploadWorkspace, reserve, decode_upload, views}

-- The payload reader and the workspace that a decoder fills.
pub record Receiving : Type 0 where
  pub frame : FrameReader
  pub workspace : UploadWorkspace

abbrev pub with_frame :
    {A : Type 0} → Action FrameReader CodecError A → Action Receiving CodecError A
with_frame m r = let (x, f) = m r.frame in (x, record r { frame = f })

abbrev pub with_workspace :
    {A : Type 0} → Action UploadWorkspace CodecError A → Action Receiving CodecError A
with_workspace m r = let (x, w) = m r.workspace in (x, record r { workspace = w })

-- The decoder writes into the items of the arena in place.
abbrev pub with_arena : {A : Type 0} → Action Decoding CodecError A → Action Receiving CodecError A
with_arena m r =
    let (x, d) = m (record { frame = r.frame; arena = r.workspace.arena.items }) in
    (
      x,
      record {
        frame = d.frame;
        workspace = record (r.workspace) { arena = record (r.workspace.arena) { items = d.arena } };
      },
    )

unfoldable pub read_upload : Allocator → Action Receiving CodecError (List UploadMatrixView)
read_upload allocator = do
  plan ← with_frame (plan_upload allocator)
  with_workspace (reserve allocator plan)
  with_arena (decode_upload plan)
  gets (λ (r : Receiving). views r.workspace)
