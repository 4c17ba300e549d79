-- ===== src/Broker/Message.antt =====
-- internal/broker/message.go, and `blockingEvent` of internal/broker/pusher.go.
use claude_bridge.Base.{ℕ, Bool, false, ◌||◌, [], if◌then◌else◌}
use claude_bridge.Base.Int.{ℤ}
use claude_bridge.Text.{Str, text, nonempty, ◌==◌}
use claude_bridge.Broker.Session.{Session}

abbrev pub event_message : Str
event_message = text "message"

abbrev pub event_peer_joined : Str
event_peer_joined = text "peer_joined"

abbrev pub event_peer_left : Str
event_peer_left = text "peer_left"

abbrev pub kind_message : Str
kind_message = []

abbrev pub kind_permission_request : Str
kind_permission_request = text "permission_request"

abbrev pub kind_permission_verdict : Str
kind_permission_verdict = text "permission_verdict"

pub record Message : Type 0 where
  pub id : Str
  pub from : Str
  pub to : Str
  pub content : Str
  pub created_at : ℕ
  pub ttl : ℤ
  pub in_reply_to : Str
  pub expects_reply : Bool
  pub kind : Str
  pub request_id : Str

unfoldable pub wants_blocking_push : Message → Bool
wants_blocking_push m = nonempty m.in_reply_to || m.expects_reply

-- The values that the daemon puts in `Event.Payload`.
pub data Payload : Type 0 where
  message : Message → Payload
  session : Session → Payload
  session_id : Str → Payload

pub record Event : Type 0 where
  pub type : Str
  pub payload : Payload

abbrev blocking_payload : Payload → Bool
blocking_payload (message m) = wants_blocking_push m
blocking_payload (session s) = false
blocking_payload (session_id id) = false

unfoldable pub blocking_event : Event → Bool
unfolding wants_blocking_push
blocking_event ev = if ev.type == event_message then blocking_payload ev.payload else false
