-- ===== src/Rpc/Frame/Whole.antt =====
-- Frames that are sent and read whole.
use mathlib.Core.List.{append-nil}
use claude_bridge.Base.{
  ℕ, ◌-◌, ◌≡◌, ◌≤◌, sym, ap, ◌∙◌, inr, true, none, some, [], ◌++◌, arith, leb, length,
  take-length_le,
}
use claude_bridge.Text.{Str}
use claude_bridge.Rpc.Frame.{max_frame_size, Writer, write_frame, read_frame}
use claude_bridge.Rpc.Frame.RoundTrip.{frame, read_frame-frame, write_frame-take}

-- A payload that is sent whole over a connection with this much room.
pub record Fits (room : ℕ) (payload : Str) : Type 0 where
  pub small : length payload ≤ max_frame_size
  pub fits : length (frame payload) ≤ room

pub write_frame-fits :
    (w : Writer) (payload : Str)
    → length payload ≤ max_frame_size
    → length (frame payload) ≤ w.room
    → write_frame w (some payload) ≡ (
      record { written = w.written ++ frame payload; room = w.room - length (frame payload) },
      none,
    )
write_frame-fits w payload small fits =
    let (written, room, failed) = write_frame-take w payload small in
    let whole = take-length_le w.room (frame payload) fits in
    let enough : leb (length (frame payload)) w.room ≡ true = ground arith in
    cc (written, room, failed, whole, enough)

pub read_frame-whole :
    (payload : Str)
    → length payload ≤ max_frame_size
    → read_frame (frame payload) ≡ inr (payload, [])
read_frame-whole payload small =
    ap read_frame (sym (append-nil (frame payload))) ∙ read_frame-frame payload [] small
