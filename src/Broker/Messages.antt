-- ===== src/Broker/Messages.antt =====
-- The message commands of internal/broker/broker.go: `Send`, `Broadcast` and `Poll`.
pub mod Sending
pub mod Fanout
pub mod Broadcasting
pub mod Polling
use claude_bridge.Base.{ℕ, ◌+◌, Bool, false, none, some, List, [], ◌∷◌, if◌then◌else◌}
use claude_bridge.Base.Int.{pos}
use claude_bridge.Text.{Str, ◌==◌}
use claude_bridge.Dict.{Dict, lookup, insert, modify}
use claude_bridge.Broker.Clock.{World}
use claude_bridge.Broker.Session.{Session}
use claude_bridge.Broker.Message.{Message, kind_message}
use claude_bridge.Broker.Bucket.{TokenBucket, new_bucket, take}
use claude_bridge.Broker.Livelock.{trip}
use claude_bridge.Broker.State.{
  SessEntry, State, read_clock, stamp, deliver, message_event, enqueue_message,
}

pub data Error : Type 0 where
  rate_limited unknown_session closed : Error

pub data Result {ℓ} (A : Type ℓ) : Type ℓ where
  ok : A → Result A
  err : Error → Result A

-- Delivery of a stamped message to the known session `m.to`: a permission message is pushed only;
-- an ordinary one goes to the inbox, and is pushed unless the breaker trips.
unfoldable pub route : World → Message → State → State
unfolding read_clock deliver enqueue_message
route w m st =
    if m.kind == kind_message
    then (let st1 = record st { sessions = modify m.to (enqueue_message st.cfg m) st.sessions } in
        let (now, st2) = read_clock w st1 in
        let (tracker, tripped) = trip st.livelock m now in
        let st3 = record st2 { livelock = tracker } in
        if tripped then st3 else deliver st3 m.to (message_event m))
    else deliver st m.to (message_event m)

unfoldable pub send : World → Message → State → State × Result Str
unfolding stamp
send w msg st =
    let (m, st1) = stamp w st msg in
    elim (lookup m.to st1.sessions) [
      | none ↦ (st1, err unknown_session)
      | some e ↦ (route w m st1, ok m.id)
    ]

-- `Session{}`, with the zero time.
abbrev zero_session : Session
zero_session = record {
  id = [];
  project_path = [];
  project_name = [];
  registered_at = 0;
  last_seen = 0;
}

-- The sender's bucket; an unknown sender gets an entry that holds one.
unfoldable pub bucket_for : Str → ℕ → State → State × TokenBucket
bucket_for from now st = elim (lookup from st.sessions) [
  | none ↦
      (let tb = new_bucket st.cfg now in
        let entry : SessEntry = record { session = zero_session; inbox = []; bucket = tb } in
        (record st { sessions = insert from entry st.sessions }, tb))
  | some e ↦ (st, e.bucket)
]

unfoldable pub set_bucket : TokenBucket → SessEntry → SessEntry
set_bucket tb e = record e { bucket = tb }

-- `Message{From: from, To: to, Content: content}`
abbrev pub draft : Str → Str → Str → Message
draft from to content = record {
  id = [];
  from = from;
  to = to;
  content = content;
  created_at = 0;
  ttl = pos 0;
  in_reply_to = [];
  expects_reply = false;
  kind = kind_message;
  request_id = [];
}

-- One round of the loop of `fanout`.
unfoldable pub fanout_one : World → Str → Str → Str → State → State
unfolding stamp deliver enqueue_message
fanout_one w from content id st =
    let (m, st1) = stamp w st (draft from id content) in
    deliver (record st1 { sessions = modify id (enqueue_message st.cfg m) st1.sessions }) id
      (message_event m)

-- The loop over the entries that the map held when it began.
unfoldable pub fanout : World → Str → Str → Dict SessEntry → State → State × ℕ
fanout w from content [] st = (st, 0)
fanout w from content ((id, e) ∷ entries) st =
    let skipped = fanout w from content entries st in
    let sent = fanout w from content entries (fanout_one w from content id st) in
    if id == from then skipped else (sent.0, sent.1 + 1)

-- The first half of `Broadcast`: the sender's bucket is asked for a token.
unfoldable pub charge : World → Str → State → State × Bool
unfolding read_clock bucket_for set_bucket
charge w from st =
    let (now, st1) = read_clock w st in
    let (st2, tb) = bucket_for from now st1 in
    let (tb', granted) = take tb now in
    (record st2 { sessions = modify from (set_bucket tb') st2.sessions }, granted)

unfoldable pub broadcast : World → Str → Str → State → State × Result ℕ
broadcast w from content st =
    let (st1, granted) = charge w from st in
    if granted
    then (let (st2, n) = fanout w from content st1.sessions st1 in (st2, ok n))
    else (st1, err rate_limited)

unfoldable pub clear_inbox : SessEntry → SessEntry
clear_inbox e = record e { inbox = [] }

unfoldable pub poll : Str → State → State × Result (List Message)
unfolding clear_inbox
poll id st = elim (lookup id st.sessions) [
  | none ↦ (st, err unknown_session)
  | some e ↦ (record st { sessions = modify id clear_inbox st.sessions }, ok e.inbox)
]
