-- ===== src/Mcp/Codec.antt =====
-- The types that the server of internal/mcp decodes, and `encoding/json` at them as a parameter. A
-- failed call gives the text of its error.
use claude_bridge.Base.{ℕ, ◌⊎◌, inr, Bool, List, [], ◌∷◌}
use claude_bridge.Base.Int.{ℤ}
use claude_bridge.Text.{Str}
use claude_bridge.Broker.Session.{Session}
use claude_bridge.Broker.Message.{Message}
use claude_bridge.Rpc.Client.{CallParams}
use claude_bridge.Mcp.Json.{Json}

-- A null `id` marks a notification.
pub record McpRequest : Type 0 where
  pub id : Json
  pub method : Str
  pub params : Str

pub record ToolCallParams : Type 0 where
  pub name : Str
  pub arguments : Str

pub record PermissionRequestParams : Type 0 where
  pub request_id : Str
  pub tool_name : Str
  pub description : Str
  pub input_preview : Str

pub record SendArgs : Type 0 where
  pub to : Str
  pub content : Str
  pub in_reply_to : Str
  pub expects_reply : Bool

pub record BroadcastArgs : Type 0 where
  pub content : Str

pub record GetPeerInfoArgs : Type 0 where
  pub session_id : Str

pub record RespondPermissionArgs : Type 0 where
  pub to : Str
  pub request_id : Str
  pub behavior : Str

-- The Claude-facing shape of a peer, and of the result of get_peer_info.
pub record PeerView : Type 0 where
  pub session_id : Str
  pub project_name : Str
  pub project_path : Str
  pub last_seen : Str

-- The fields of the results of the daemon, and `time.Time.Format(time.RFC3339)`.
pub record Codec : Type 0 where
  pub request : Str → Str ⊎ McpRequest
  pub tool_call_params : Str → Str ⊎ ToolCallParams
  pub permission_request_params : Str → Str ⊎ PermissionRequestParams
  pub send_args : Str → Str ⊎ SendArgs
  pub broadcast_args : Str → Str ⊎ BroadcastArgs
  pub get_peer_info_args : Str → Str ⊎ GetPeerInfoArgs
  pub respond_permission_args : Str → Str ⊎ RespondPermissionArgs
  pub list_peers_result : Str → Str ⊎ List Session
  pub send_result : Str → Str ⊎ Str
  pub broadcast_result : Str → Str ⊎ ℤ
  pub poll_result : Str → Str ⊎ List Message
  pub get_peer_info_result : Str → Str ⊎ PeerView
  pub message : Str → Str ⊎ Message
  pub marshal : Json → Str ⊎ Str
  pub format_time : ℕ → Str

-- What the handlers need of a connection to the daemon, whose state is in W: CallAs, with its session
-- identifier, method and parameters.
pub record DaemonClient (W : Type 0) : Type 0 where
  pub call_as : Str → Str → CallParams → W → W × (Str ⊎ Str)

-- An empty body leaves the zero value.
unfoldable pub decode_args : {A : Type 0} → (Str → Str ⊎ A) → A → Str → Str ⊎ A
decode_args decode zero_value [] = inr zero_value
decode_args decode zero_value (c ∷ s) = decode (c ∷ s)
