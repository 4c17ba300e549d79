-- ===== src/Mcp/Verdict.antt =====
-- A permission verdict, from the tool that gives it to the shim of the session that asked.
use claude_bridge.Base.{◌≡◌, ◌⊎◌, inl, inr, true, some}
use claude_bridge.Text.{Str, nonempty}
use claude_bridge.Broker.Clock.{World}
use claude_bridge.Broker.Pusher.{Pusher}
use claude_bridge.Broker.State.{State}
use claude_bridge.Broker.Messages
use claude_bridge.Broker.Messages.{err}
use claude_bridge.Rpc.Request
use claude_bridge.Rpc.Request.{
  SendParams, RpcError, method_send, zero_send_params, unmarshal_params, invoke, sent,
}
use claude_bridge.Rpc.Server.Answering.{request_of, touched}
use claude_bridge.Rpc.Client.{ClientCodec, send, encode_params}
use claude_bridge.Mcp.Codec.{RespondPermissionArgs, Codec, DaemonClient}
use claude_bridge.Mcp.Tools.{behavior_allow, behavior_deny}

abbrev pub told : (RpcError → Str) → RpcError ⊎ Str → Str ⊎ Str
told say (inl e) = inl (say e)
told say (inr result) = inr result

-- A daemon that does with the broker what it does over a connection.
abbrev pub direct :
    {E : Type 0}
    → ClientCodec E
    → Request.Codec
    → World
    → Str
    → (RpcError → Str)
    → DaemonClient State
direct ck rc w bad say = record {
  call_as = λ session_id method given st. elim (encode_params ck given) [
    | inl e ↦ (st, inl bad)
    | inr raw ↦
        (let (st1, r) =
            invoke rc w (request_of method session_id raw)
              (touched w (request_of method session_id raw) st) in
          (st1, told say r))
  ];
}

-- What the tool accepts.
pub record IsVerdict (a : RespondPermissionArgs) : Type 0 where
  pub behavior : (a.behavior ≡ behavior_allow) ⊎ (a.behavior ≡ behavior_deny)
  pub to : nonempty a.to ≡ true
  pub request_id : nonempty a.request_id ≡ true

-- What JSON has to do for a verdict: the daemon reads the parameters as they were given, and it can
-- encode the identifier that it answers with.
pub record Carries {E : Type 0} (ck : ClientCodec E) (rc : Request.Codec) (p : SendParams)
    (raw : Str) : Type 0 where
  pub encoded : encode_params ck (send p) ≡ inr raw
  pub decoded : unmarshal_params rc.send_params zero_send_params raw ≡ some p
  pub answered : (id : Str) → (s : Str) × (rc.marshal (sent id) ≡ some s)

module _ {E : Type 0} (ck : ClientCodec E) (rc : Request.Codec) (w : World) (bad : Str)
    (say : RpcError → Str) (from : Str) (st : State) where
  abbrev before : Str → State
  before raw = touched w (request_of method_send from raw) st
