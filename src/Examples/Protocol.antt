-- ===== src/Examples/Protocol.antt =====
-- The theorems on the configuration, the frames and the server.
use claude_bridge.Base.{
  ℕ, ◌≡◌, ◌⊎◌, refl, inl, inr, [], ◌∷◌, List, arith, true, Option, none, some, take, length,
  if◌then◌else◌,
}
use claude_bridge.Base.Int.{pos}
use claude_bridge.Text.{Str, text, ◌==◌}
use claude_bridge.Dict.{lookup}
use claude_bridge.Broker.Clock.{new_id}
use claude_bridge.Broker.Sessions.{register_session}
use claude_bridge.Config.{
  Config, content, Host, defaults, load, overlay_file, unmarshal_yaml, apply_env, env_duration,
  env_session_ttl,
}
use claude_bridge.Config.Loading.{Overridden, load-Overridden}
use claude_bridge.Rpc.Frame.{Writer, write_frame, put_uint32, read_frame, unexpected_eof}
use claude_bridge.Rpc.Frame.RoundTrip.{frame, read_frame_cut}
use claude_bridge.Rpc.Frame.Stream.{write_all, read_all, whole_frames, read_all-write_all}
use claude_bridge.Rpc.Request.{Reply, registered, RpcError, Codec, method_register, do_register}
use claude_bridge.Rpc.Server.{Server, Input, hang_up, Conn, reading, handle, serve}
use claude_bridge.Rpc.Server.Binding.{serve_reaped}
use claude_bridge.Examples.{world, scene}

-- The file is a duration, the idle timeout; the environment sets one duration where `overridden` says so.
abbrev host : Option Str → Host
host overridden = record {
  lookup_env = λ name. if name == env_session_ttl then overridden else none;
  read_file = λ path. content (text "30m");
  parse_duration = λ s. some (pos (length s));
  decode_string = λ node. some node;
  unmarshal = λ duration data_ cfg. elim (duration data_) [
    | none ↦ none
    | some d ↦ some (record cfg { daemon = record cfg.daemon { idle_timeout = d } })
  ];
}

abbrev pub loaded : Config
loaded = record {
  daemon = record { runtime_dir = []; idle_timeout = pos 3 };
  broker = record {
    message_ttl = pos 300000000000;
    session_ttl = pos 2;
    max_inbox_size = pos 100;
    cleanup_tick = pos 60000000000;
    broadcast_burst = pos 3;
    broadcast_refill = pos 10000000000;
    livelock = record { enabled = true; max_chain = pos 20; reset_idle = pos 60000000000 };
  };
  log = record { level = text "info"; format = text "text" };
}

load-Overridden_example :
    (base : Config) × (overlay_file (host (some (text "2s"))) defaults [] ≡ inr base)
    × Overridden (host (some (text "2s"))) base loaded
unfolding load overlay_file unmarshal_yaml apply_env env_duration defaults ◌==◌
load-Overridden_example = load-Overridden (host (some (text "2s"))) [] loaded refl

read_frame_cut_example : read_frame (take 5 (frame (text "{}"))) ≡ inl unexpected_eof
unfolding put_uint32
read_frame_cut_example = read_frame_cut (text "{}") 5 (omega arith) (omega arith)

abbrev payloads : List Str
payloads = text "{}" ∷ text "[1]" ∷ []

-- The connection breaks in the second frame.
read_all-write_all_example :
    (read_all 3 (write_all (record { written = []; room = 9 }) payloads).0.written).0
    ≡ take (whole_frames 9 payloads) payloads
read_all-write_all_example = read_all-write_all 9 payloads (omega arith, (omega arith, tt))

-- The first byte of a frame tells what it is; a session is encoded by its identifier.
abbrev pub encode : Reply → Option Str
encode (registered s) = some (s.id)
encode _ = some []

abbrev pub encode_response : RpcError ⊎ Str → Option Str
encode_response (inl e) = some (text "error")
encode_response (inr s) = some s

abbrev pub codec : Codec
codec = record {
  request = λ raw. some (record { method = method_register; session_id = []; params = raw });
  register_params = λ s. some (record { project_path = s });
  send_params = λ s. none;
  broadcast_params = λ s. none;
  get_peer_info_params = λ s. none;
  marshal = encode;
  session_id = λ s. s;
  response = encode_response;
  event = λ ev. some [];
}

abbrev pub server : Server
server = record { broker = scene; active = 0; has_hook = true; fired = 0 }

abbrev inputs : List Input
inputs = Input.frame (text "/srv/db") ∷ hang_up ∷ []

abbrev pub wire : ℕ → Writer
wire room = record { written = []; room = room }

serve_reaped_example :
    lookup
      (serve codec world inputs (wire 100) server).1.bound_session
      (serve codec world inputs (wire 100) server).0.broker.sessions
    ≡ none
unfolding serve handle ◌==◌ write_frame do_register register_session new_id put_uint32
serve_reaped_example = serve_reaped codec world inputs (wire 100) server refl refl

abbrev pub conn : ℕ → Conn
conn room = record { phase = reading; bound_session = []; out = wire room }
