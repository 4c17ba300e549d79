-- ===== src/Broker/State.antt =====
-- The types `state` and `sessEntry` of internal/broker/broker.go, and the helpers of the run loop.
use claude_bridge.Base.{
  ℕ, zero, suc, ◌+◌, none, some, List, [], ◌∷◌, ◌++◌, leb, length, drop, if◌then◌else◌,
}
use claude_bridge.Base.Int.{pos, positive_or}
use claude_bridge.Text.{Str, ◌==◌}
use claude_bridge.Dict.{Dict, lookup, delete}
use claude_bridge.Broker.Clock.{World, new_id}
use claude_bridge.Broker.Config.{Config, Resolved, with_defaults}
use claude_bridge.Broker.Session.{Session}
use claude_bridge.Broker.Message.{
  Message, Event, event_message, event_peer_left, message, session_id,
}
use claude_bridge.Broker.Bucket.{TokenBucket}
use claude_bridge.Broker.Livelock.{LivelockTracker, new_livelock_tracker}
use claude_bridge.Broker.Pusher.{Pusher, enqueue, stop_push}

pub record SessEntry : Type 0 where
  pub session : Session
  pub inbox : List Message
  pub bucket : TokenBucket

-- `pushers` holds addresses in `heap`, where every pusher stays that was ever made: a goroutine
-- outlives its entry. `ids` and `readings` count the identifiers and the clock readings so far.
pub record State : Type 0 where
  pub cfg : Resolved
  pub sessions : Dict SessEntry
  pub pushers : Dict ℕ
  pub heap : List Pusher
  pub livelock : LivelockTracker
  pub ids : ℕ
  pub readings : ℕ

-- The state that `New` starts the run loop with.
unfoldable pub new : Config → State
new cfg = record {
  cfg = with_defaults cfg;
  sessions = [];
  pushers = [];
  heap = [];
  livelock = new_livelock_tracker (with_defaults cfg);
  ids = 0;
  readings = 0;
}

-- st.now()
unfoldable pub read_clock : World → State → ℕ × State
read_clock w st = (w.clock st.readings, record st { readings = st.readings + 1 })

-- newID()
unfoldable pub take_id : World → State → Str × State
take_id w st = (new_id w st.ids, record st { ids = st.ids + 1 })

-- A write through a pointer.
unfoldable pub update : ℕ → (Pusher → Pusher) → List Pusher → List Pusher
update a f [] = []
update zero f (p ∷ ps) = f p ∷ ps
update (suc a) f (p ∷ ps) = p ∷ update a f ps

abbrev pub message_event : Message → Event
message_event m = record { type = event_message; payload = message m }

unfoldable pub deliver : State → Str → Event → State
deliver st id ev = elim (lookup id st.pushers) [
  | none ↦ st
  | some a ↦ record st { heap = update a (λ p. enqueue p ev) st.heap }
]

-- The loop of `notifyPeers`.
unfoldable pub notify_heap : Str → Event → Dict ℕ → List Pusher → List Pusher
notify_heap exclude ev [] heap = heap
notify_heap exclude ev ((id, a) ∷ ps) heap =
    notify_heap exclude ev ps (if id == exclude then heap else update a (λ p. enqueue p ev) heap)

unfoldable pub notify_peers : State → Str → Event → State
notify_peers st exclude ev = record st { heap = notify_heap exclude ev st.pushers st.heap }

-- Stops the pusher of a session and takes it out of the map, if there is one.
unfoldable pub drop_pusher : State → Str → State
drop_pusher st id = elim (lookup id st.pushers) [
  | none ↦ st
  | some a ↦ record st { heap = update a stop_push st.heap; pushers = delete id st.pushers }
]

-- What `UnregisterSession` and `reap` do to a session that they remove.
unfoldable pub remove_session : State → Str → State
remove_session st id =
    notify_peers (drop_pusher (record st { sessions = delete id st.sessions }) id) id
      (record { type = event_peer_left; payload = session_id id })

unfoldable pub stamp : World → State → Message → Message × State
unfolding read_clock take_id
stamp w st msg =
    let (id, st1) = take_id w st in
    let (t, st2) = read_clock w st1 in
    (
      record msg { id = id; created_at = t; ttl = pos (positive_or msg.ttl st.cfg.message_ttl) },
      st2,
    )

-- The inbox after `enqueue`: at capacity the oldest message goes.
unfoldable pub append_inbox : ℕ → List Message → Message → List Message
append_inbox max inbox m =
    if leb max (length inbox) then drop 1 inbox ++ m ∷ [] else inbox ++ m ∷ []

unfoldable pub enqueue_message : Resolved → Message → SessEntry → SessEntry
unfolding append_inbox
enqueue_message cfg m e = record e { inbox = append_inbox cfg.max_inbox_size e.inbox m }
