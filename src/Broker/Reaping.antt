-- ===== src/Broker/Reaping.antt =====
-- `reap` and `expireMessages` of internal/broker/broker.go.
pub mod Survivors
use claude_bridge.Base.{ℕ, List, [], ◌∷◌, if◌then◌else◌}
use claude_bridge.Base.Int.{le_ℤ}
use claude_bridge.Dict.{Dict}
use claude_bridge.Broker.Clock.{World, since}
use claude_bridge.Broker.Session.{is_stale_at}
use claude_bridge.Broker.Message.{Message}
use claude_bridge.Broker.Livelock.{prune}
use claude_bridge.Broker.State.{SessEntry, State, read_clock, remove_session}

-- The loop over the entries that the map held when it began.
unfoldable pub reap_sessions : ℕ → Dict SessEntry → State → State
reap_sessions now [] st = st
reap_sessions now ((id, e) ∷ entries) st =
    reap_sessions now entries
      (if is_stale_at e.session now st.cfg.session_ttl then remove_session st id else st)

-- The messages whose time to live has not run out.
unfoldable pub unexpired : ℕ → List Message → List Message
unexpired now [] = []
unexpired now (m ∷ inbox) =
    let rest = unexpired now inbox in if le_ℤ (since now m.created_at) m.ttl then m ∷ rest else rest

unfoldable pub expire_entry : ℕ → SessEntry → SessEntry
unfolding unexpired
expire_entry now e = record e { inbox = unexpired now e.inbox }

unfoldable pub expire_messages : ℕ → Dict SessEntry → Dict SessEntry
unfolding expire_entry
expire_messages now [] = []
expire_messages now ((id, e) ∷ entries) = (id, expire_entry now e) ∷ expire_messages now entries

unfoldable pub reap : ℕ → State → State
unfolding reap_sessions
reap now st =
    let st1 = reap_sessions now st.sessions st in
    record st1 { sessions = expire_messages now st1.sessions; livelock = prune st1.livelock now }

-- The run loop's case for the cleanup tick.
unfoldable pub cleanup_tick : World → State → State
unfolding read_clock reap
cleanup_tick w st = let (now, st1) = read_clock w st in reap now st1
