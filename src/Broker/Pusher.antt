-- ===== src/Broker/Pusher.antt =====
-- internal/broker/pusher.go: the goroutine that owns one session's event channel.
pub mod Delivery
pub mod Stopping
use claude_bridge.Base.{
  ℕ, suc, ◌+◌, ◌≤◌, Bool, true, false, not, ◌&&◌, Option, none, some, List, [], ◌∷◌, ◌++◌, ltb,
  length, if◌then◌else◌,
}
use claude_bridge.Broker.Config.{Resolved}
use claude_bridge.Broker.Message.{Event, blocking_event}

abbrev pub sub_chan_buffer : ℕ
sub_chan_buffer = 16

-- Where the goroutine stands: at the select of `run`, in `forward`, or returned, with `out` closed.
pub data Phase : Type 0 where
  selecting : Phase
  forwarding : Event → Phase
  closed : Phase

-- The channels' contents, oldest first, and the goroutine. `stop` is the one-place stop signal.
pub record Pusher : Type 0 where
  pub mailbox : List Event
  pub mailbox_cap : ℕ
  pub out : List Event
  pub stop : Bool
  pub phase : Phase

unfoldable pub new_pusher : Resolved → Pusher
new_pusher cfg = record {
  mailbox = [];
  mailbox_cap = cfg.max_inbox_size;
  out = [];
  stop = false;
  phase = selecting;
}

-- A full mailbox drops the event.
unfoldable pub enqueue : Pusher → Event → Pusher
enqueue p ev =
    if ltb (length p.mailbox) p.mailbox_cap then record p { mailbox = p.mailbox ++ ev ∷ [] } else p

-- A second signal is dropped while the first is pending.
unfoldable pub stop_push : Pusher → Pusher
stop_push p = record p { stop = true }

-- What the goroutine may do next: a case of the select of `run`, or a case of a select of `forward`.
pub data Turn : Type 0 where
  take_stop take_mail send give_up : Turn

select_stop : Pusher → Option Pusher
select_stop p = if p.stop then some (record p { stop = false; phase = closed }) else none

select_mail : Pusher → List Event → Option Pusher
select_mail p [] = none
select_mail p (ev ∷ rest) = some (record p { mailbox = rest; phase = forwarding ev })

abbrev has_room : Pusher → Bool
has_room p = ltb (length p.out) sub_chan_buffer

forward_send : Pusher → Event → Option Pusher
forward_send p ev =
    if has_room p then some (record p { out = p.out ++ ev ∷ []; phase = selecting }) else none

-- The default case is there for a non-blocking send into a full channel, the timer for the others.
forward_give_up : Pusher → Event → Option Pusher
forward_give_up p ev =
    if not (blocking_event ev) && has_room p then none else some (record p { phase = selecting })

-- One turn of the goroutine, if that case is ready.
unfoldable pub run_turn : Turn → Pusher → Option Pusher
unfolding select_stop select_mail forward_send forward_give_up
run_turn take_stop p = elim p.phase [ selecting ↦ select_stop p | _ ↦ none ]
run_turn take_mail p = elim p.phase [ selecting ↦ select_mail p p.mailbox | _ ↦ none ]
run_turn send p = elim p.phase [ forwarding ev ↦ forward_send p ev | _ ↦ none ]
run_turn give_up p = elim p.phase [ forwarding ev ↦ forward_give_up p ev | _ ↦ none ]

-- The subscriber receives the oldest event of the channel.
unfoldable pub receive : Pusher → List Event → Pusher
receive p rest = record p { out = rest }
