-- ===== src/Examples/Pushers.antt =====
-- The theorems on the pushers.
use mathlib.Core.List.{Sublist}
use claude_bridge.Base.{refl, [], ◌∷◌, ◌++◌, false}
use claude_bridge.Text.{text}
use claude_bridge.Broker.Config.{Resolved, with_defaults}
use claude_bridge.Broker.Message.{Event, event_peer_left, session_id}
use claude_bridge.Broker.Pusher.{
  Pusher, closed, forwarding, selecting, take_mail, send, new_pusher, enqueue, run_turn, receive,
}
use claude_bridge.Broker.Pusher.Delivery.{
  History, created, offered, turned, received, received-sublist,
}
use claude_bridge.Broker.Pusher.Stopping.{Closes, stop_push-Closes}
use claude_bridge.Broker.State.{message_event}
use claude_bridge.Examples.{config, plain, api, web}

abbrev left : Event
left = record { type = event_peer_left; payload = session_id web }

abbrev hello : Event
hello = message_event (plain web api (text "hello"))

abbrev resolved : Resolved
resolved = with_defaults config

-- Offered two events; the first has been received, the second waits in the mailbox.
abbrev pusher : Pusher
pusher = record { mailbox = left ∷ []; mailbox_cap = 2; out = []; stop = false; phase = selecting }

abbrev history : History resolved pusher (hello ∷ left ∷ []) (hello ∷ [])
unfolding new_pusher with_defaults enqueue run_turn receive
history =
    received hello []
      (turned send (turned take_mail (offered left (offered hello created)) refl) refl) refl

received-sublist_example : Sublist ((hello ∷ []) ++ ([] ++ [] ++ left ∷ [])) (hello ∷ left ∷ [])
received-sublist_example = received-sublist history

-- A pusher that is just sending.
abbrev busy : Pusher
busy = record {
  mailbox = left ∷ [];
  mailbox_cap = 2;
  out = [];
  stop = false;
  phase = forwarding hello;
}

stop_push-Closes_example : Closes busy
stop_push-Closes_example = stop_push-Closes busy

abbrev done : Pusher
done = record {
  mailbox = left ∷ [];
  mailbox_cap = 2;
  out = hello ∷ [];
  stop = false;
  phase = closed;
}
