-- ===== src/Examples/Shim.antt =====
-- The theorem on the client, with JSON for one call.
use claude_bridge.Base.{
  zero, suc, ◌≡◌, ◌⊎◌, refl, inl, inr, false, ◌&&◌, Option, none, some, [], ◌∷◌, arith,
  if◌then◌else◌,
}
use claude_bridge.Text.{Str, text, ◌==◌}
use claude_bridge.Broker.Message.{kind_permission_verdict}
use claude_bridge.Rpc.Frame.{put_uint32}
use claude_bridge.Rpc.Request
use claude_bridge.Rpc.Request.{
  Request, RpcError, SendParams, method_list_peers, method_subscribe, message_of, invoke,
  unmarshal_params,
}
use claude_bridge.Rpc.Server.{reading}
use claude_bridge.Rpc.Server.Answering.{request_of, touched}
use claude_bridge.Rpc.Client.{
  CallParams, empty, send, Response, ClientCodec, encode_params, call_with_session,
}
use claude_bridge.Rpc.Client.Calling.{daemon, outcome, call_with_session-invoke}
use claude_bridge.Examples.{world, api}
use claude_bridge.Examples.Protocol.{server, conn}

-- A response is marked by its first byte.
abbrev pub marked : RpcError ⊎ Str → Option Str
marked (inl e) = some (zero ∷ text "error")
marked (inr s) = some (suc zero ∷ s)

abbrev pub unmarked : Str → Option Response
unmarked [] = none
unmarked (zero ∷ s) = some (record { result = []; error = s })
unmarked (suc n ∷ s) = some (record { result = s; error = [] })

-- `api` asks for its peers.
abbrev pub only : Str → Request
only raw = request_of method_list_peers api raw

abbrev pub daemon_codec : Request.Codec
daemon_codec = record {
  request = λ raw. some (only raw);
  register_params = λ s. none;
  send_params = λ s. some (record {
    to = s;
    content = text "allow";
    in_reply_to = [];
    expects_reply = false;
    kind = kind_permission_verdict;
    request_id = text "7";
  });
  broadcast_params = λ s. none;
  get_peer_info_params = λ s. none;
  marshal = λ r. some (text "[]");
  session_id = λ s. s;
  response = marked;
  event = λ ev. some [];
}

abbrev pub given_params : CallParams → Option Str
given_params (send p) = some p.to
given_params _ = some []

abbrev pub client_codec : ClientCodec Str
client_codec = record {
  params = given_params;
  request = λ req.
      if req.method == method_list_peers && req.session_id == api then some req.params else none;
  response = unmarked;
  event = λ s. some s;
}

abbrev pub error_text : RpcError → Str
error_text e = text "error"

call_with_session-invoke_example :
    let (after, result) =
      call_with_session client_codec
        (daemon daemon_codec world)
        method_list_peers
        api
        empty
        (record { room = 100; unread = []; peer = (server, conn 100) }) in
    let (st, r) = invoke daemon_codec world (only []) (touched world (only []) server.broker) in
    (result ≡ outcome error_text r)
    × (after.peer.0 ≡ record server { broker = st })
    × (after.peer.1.phase ≡ reading)
    × (after.unread ≡ [])
unfolding encode_params invoke ◌==◌ put_uint32
call_with_session-invoke_example =
    call_with_session-invoke client_codec daemon_codec error_text world server (conn 100) 100
      method_list_peers api empty [] [] (suc zero ∷ text "[]") refl refl refl
      (record { small = omega arith; fits = omega arith }) refl refl
      (record { small = omega arith; fits = omega arith })
      (record { request = refl; response = refl; says = λ e q. refl })
