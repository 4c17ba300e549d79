-- ===== src/Examples.antt =====
-- The scene of the examples: a broker with two sessions, and what goes between them.
pub mod Messages
pub mod Livelock
pub mod Pushers
pub mod RunLoop
pub mod Protocol
pub mod Shim
pub mod Commands
pub mod Cmd
pub mod Daemon
pub mod Mcp
pub mod Reaping
use claude_bridge.Base.{ℕ, ◌+◌, ◌*◌, true, false, some, List, [], ◌∷◌, ◌++◌}
use claude_bridge.Base.Int.{pos}
use claude_bridge.Text.{Str, text}
use claude_bridge.Broker.Clock.{World, second}
use claude_bridge.Broker.Config.{Config, with_defaults}
use claude_bridge.Broker.Session.{Session}
use claude_bridge.Broker.Message.{Message, kind_message}
use claude_bridge.Broker.Bucket.{TokenBucket}
use claude_bridge.Broker.Pusher.{new_pusher}
use claude_bridge.Broker.Livelock.{new_livelock_tracker}
use claude_bridge.Broker.State.{SessEntry, State}

-- A clock that moves on a second at each reading.
abbrev pub world : World
world = record {
  uuid_v7 = λ n. some (text "id" ++ (n + 48) ∷ []);
  uuid_v4 = λ n. text "v4";
  clock = λ n. (n + 100) * second;
}

-- Two places in an inbox, and the defaults for the rest.
abbrev pub config : Config
config = record {
  message_ttl = pos 0;
  session_ttl = pos 0;
  max_inbox_size = pos 2;
  cleanup_tick = pos 0;
  broadcast_burst = pos 0;
  broadcast_refill = pos 0;
  livelock_enabled = true;
  livelock_max_chain = pos 1;
  livelock_reset_idle = pos 0;
}

abbrev pub api : Str
api = text "api"

abbrev pub web : Str
web = text "web"

abbrev pub session_at : Str → Session
session_at id = record {
  id = id;
  project_path = text "/srv/" ++ id;
  project_name = id;
  registered_at = 90 * second;
  last_seen = 95 * second;
}

abbrev pub plain : Str → Str → Str → Message
plain from to content = record {
  id = [];
  from = from;
  to = to;
  content = content;
  created_at = 0;
  ttl = pos 0;
  in_reply_to = [];
  expects_reply = false;
  kind = kind_message;
  request_id = [];
}

abbrev pub bucket : ℕ → TokenBucket
bucket tokens = record {
  tokens = tokens;
  burst = 3;
  refill = 10 * second;
  last_refill = 95 * second;
}

-- `api` has one message waiting and a full bucket.
abbrev pub api_entry : SessEntry
api_entry = record {
  session = session_at api;
  inbox = plain web api (text "hello") ∷ [];
  bucket = bucket 3;
}

-- `web` has an empty inbox and no tokens.
abbrev pub web_entry : SessEntry
web_entry = record { session = session_at web; inbox = []; bucket = bucket 0 }

-- `api` is subscribed.
abbrev pub scene : State
scene = record {
  cfg = with_defaults config;
  sessions = (api, api_entry) ∷ (web, web_entry) ∷ [];
  pushers = (api, 0) ∷ [];
  heap = new_pusher (with_defaults config) ∷ [];
  livelock = new_livelock_tracker (with_defaults config);
  ids = 2;
  readings = 2;
}
