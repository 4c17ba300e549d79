-- ===== src/Broker/Sessions.antt =====
-- The session commands of internal/broker/broker.go: `RegisterSession`, `Touch`,
-- `UnregisterSession`, `ListPeers` and `Session`.
use mathlib.Core.Option
use claude_bridge.Base.{ℕ, ◌||◌, Option, none, some, List, [], ◌∷◌, if◌then◌else◌}
use claude_bridge.Text.{Str, ◌==◌}
use claude_bridge.Text.FilePath.{base}
use claude_bridge.Dict.{Dict, lookup, insert, modify}
use claude_bridge.Broker.Clock.{World}
use claude_bridge.Broker.Session.{Session, is_stale_at}
use claude_bridge.Broker.Message.{event_peer_joined, session}
use claude_bridge.Broker.Bucket.{new_bucket}
use claude_bridge.Broker.State.{SessEntry, State, read_clock, take_id, notify_peers, remove_session}

unfoldable pub register_session : World → Str → State → State × Session
unfolding read_clock take_id
register_session w project_path st =
    let (now, st1) = read_clock w st in
    let (id, st2) = take_id w st1 in
    let sess : Session = record {
      id = id;
      project_path = project_path;
      project_name = base project_path;
      registered_at = now;
      last_seen = now;
    } in
    let entry : SessEntry = record { session = sess; inbox = []; bucket = new_bucket st.cfg now } in
    let st3 = record st2 { sessions = insert id entry st.sessions } in
    (notify_peers st3 id (record { type = event_peer_joined; payload = session sess }), sess)

unfoldable pub seen : ℕ → SessEntry → SessEntry
seen now e = record e { session = record (e.session) { last_seen = now } }

-- The clock is read for a known session only.
unfoldable pub touch : World → Str → State → State
unfolding read_clock seen
touch w id st = elim (lookup id st.sessions) [
  | none ↦ st
  | some e ↦
      (let (now, st1) = read_clock w st in
        record st1 { sessions = modify id (seen now) st.sessions })
]

unfoldable pub unregister_session : Str → State → State
unfolding remove_session
unregister_session id st = elim (lookup id st.sessions) [
  | none ↦ st
  | some e ↦ remove_session st id
]

-- The loop of `listPeers`.
unfoldable pub visible_peers : Str → ℕ → ℕ → Dict SessEntry → List Session
visible_peers caller now ttl [] = []
visible_peers caller now ttl ((id, e) ∷ entries) =
    let rest = visible_peers caller now ttl entries in
    if id == caller || is_stale_at e.session now ttl then rest else e.session ∷ rest

unfoldable pub list_peers : World → Str → State → State × List Session
unfolding read_clock visible_peers
list_peers w caller st =
    let (now, st1) = read_clock w st in
    (st1, visible_peers caller now st.cfg.session_ttl st.sessions)

unfoldable pub session_of : Str → State → Option Session
session_of id st = Option.map (λ (e : SessEntry). e.session) (lookup id st.sessions)
