-- ===== src/Rpc/Request.antt =====
-- The requests of internal/daemonrpc/server.go and what each asks of the broker. JSON is a parameter.
use claude_bridge.Base.{
  ℕ, Bool, false, ◌⊎◌, inl, inr, Option, none, some, List, [], ◌∷◌, if◌then◌else◌,
}
use claude_bridge.Base.Int.{pos}
use claude_bridge.Text.{Str, text, ◌==◌}
use claude_bridge.Broker.Clock.{World}
use claude_bridge.Broker.Session.{Session}
use claude_bridge.Broker.Message.{Message, Event}
use claude_bridge.Broker.State.{State}
use claude_bridge.Broker.Sessions.{register_session, unregister_session, list_peers, session_of}
use claude_bridge.Broker.Messages.{Error, Result, ok, err, send, broadcast, poll}

abbrev pub method_register : Str
method_register = text "register_session"

abbrev pub method_unregister : Str
method_unregister = text "unregister_session"

abbrev pub method_list_peers : Str
method_list_peers = text "list_peers"

abbrev pub method_send : Str
method_send = text "send_message"

abbrev pub method_broadcast : Str
method_broadcast = text "broadcast"

abbrev pub method_poll : Str
method_poll = text "poll_messages"

abbrev pub method_get_peer_info : Str
method_get_peer_info = text "get_peer_info"

abbrev pub method_subscribe : Str
method_subscribe = text "subscribe"

pub record Request : Type 0 where
  pub method : Str
  pub session_id : Str
  pub params : Str

pub record RegisterParams : Type 0 where
  pub project_path : Str

pub record SendParams : Type 0 where
  pub to : Str
  pub content : Str
  pub in_reply_to : Str
  pub expects_reply : Bool
  pub kind : Str
  pub request_id : Str

pub record BroadcastParams : Type 0 where
  pub content : Str

pub record GetPeerInfoParams : Type 0 where
  pub session_id : Str

-- The result types, with the broker's values that they are filled from.
pub data Reply : Type 0 where
  registered : Session → Reply
  done : Reply
  peers : List Session → Reply
  sent : Str → Reply
  recipients : ℕ → Reply
  polled : List Message → Reply
  peer_info : Session → Reply

pub data RpcError : Type 0 where
  broker_error : Error → RpcError
  bad_json peer_not_found : RpcError
  unknown_method : Str → RpcError

-- `encoding/json` at the types of the protocol. `session_id` reads that field of a RegisterResult.
pub record Codec : Type 0 where
  pub request : Str → Option Request
  pub register_params : Str → Option RegisterParams
  pub send_params : Str → Option SendParams
  pub broadcast_params : Str → Option BroadcastParams
  pub get_peer_info_params : Str → Option GetPeerInfoParams
  pub marshal : Reply → Option Str
  pub session_id : Str → Str
  pub response : RpcError ⊎ Str → Option Str
  pub event : Event → Option Str

-- An empty body leaves the zero value.
unfoldable pub unmarshal_params : {P : Type 0} → (Str → Option P) → P → Str → Option P
unmarshal_params decode zero_value [] = some zero_value
unmarshal_params decode zero_value (c ∷ s) = decode (c ∷ s)

unfoldable pub marshal_result : Codec → Reply → RpcError ⊎ Str
marshal_result c r = elim (c.marshal r) [ none ↦ inl bad_json | some s ↦ inr s ]

-- A broker call's outcome as the result of the request.
abbrev pub reply_to : {A : Type 0} → Codec → (A → Reply) → Result A → RpcError ⊎ Str
reply_to c f (ok x) = marshal_result c (f x)
reply_to c f (err e) = inl (broker_error e)

unfoldable pub do_register : Codec → World → Str → State → State × (RpcError ⊎ Str)
unfolding unmarshal_params marshal_result
do_register c w params st =
    elim (unmarshal_params c.register_params (record { project_path = [] }) params) [
      | none ↦ (st, inl bad_json)
      | some p ↦
          (let (st1, sess) = register_session w p.project_path st in
            (st1, marshal_result c (registered sess)))
    ]

abbrev pub zero_send_params : SendParams
zero_send_params = record {
  to = [];
  content = [];
  in_reply_to = [];
  expects_reply = false;
  kind = [];
  request_id = [];
}

abbrev pub message_of : Str → SendParams → Message
message_of from p = record {
  id = [];
  from = from;
  to = p.to;
  content = p.content;
  created_at = 0;
  ttl = pos 0;
  in_reply_to = p.in_reply_to;
  expects_reply = p.expects_reply;
  kind = p.kind;
  request_id = p.request_id;
}

unfoldable pub do_send : Codec → World → Str → Str → State → State × (RpcError ⊎ Str)
unfolding unmarshal_params marshal_result
do_send c w from params st = elim (unmarshal_params c.send_params zero_send_params params) [
  | none ↦ (st, inl bad_json)
  | some p ↦ (let (st1, r) = send w (message_of from p) st in (st1, reply_to c sent r))
]

unfoldable pub do_broadcast : Codec → World → Str → Str → State → State × (RpcError ⊎ Str)
unfolding unmarshal_params marshal_result
do_broadcast c w from params st =
    elim (unmarshal_params c.broadcast_params (record { content = [] }) params) [
      | none ↦ (st, inl bad_json)
      | some p ↦ (let (st1, r) = broadcast w from p.content st in (st1, reply_to c recipients r))
    ]

unfoldable pub do_get_peer_info : Codec → Str → State → State × (RpcError ⊎ Str)
unfolding unmarshal_params marshal_result
do_get_peer_info c params st =
    elim (unmarshal_params c.get_peer_info_params (record { session_id = [] }) params) [
      | none ↦ (st, inl bad_json)
      | some p ↦ elim (session_of p.session_id st) [
        | none ↦ (st, inl peer_not_found)
        | some s ↦ (st, marshal_result c (peer_info s))
      ]
    ]

-- The switch of `invoke`.
unfoldable pub invoke : Codec → World → Request → State → State × (RpcError ⊎ Str)
unfolding marshal_result
invoke c w req st =
    if req.method == method_register
    then do_register c w req.params st
    else if req.method == method_unregister
    then (unregister_session req.session_id st, marshal_result c done)
    else if req.method == method_list_peers
    then (let (st1, ps) = list_peers w req.session_id st in (st1, marshal_result c (peers ps)))
    else if req.method == method_send
    then do_send c w req.session_id req.params st
    else if req.method == method_broadcast
    then do_broadcast c w req.session_id req.params st
    else if req.method == method_poll
    then (let (st1, r) = poll req.session_id st in (st1, reply_to c polled r))
    else if req.method == method_get_peer_info
    then do_get_peer_info c req.params st
    else (st, inl (unknown_method req.method))
