-- ===== src/Rpc/Server/Binding.antt =====
-- What a connection leaves behind: the count of connections, and the session that it bound.
use claude_bridge.Base.{◌+◌, ◌≡◌, true, ◌&&◌, none, List, nat_eq, if◌then◌else◌}
use claude_bridge.Text.{nonempty}
use claude_bridge.Dict.{lookup}
use claude_bridge.Broker.Clock.{World}
use claude_bridge.Rpc.Frame.{Writer}
use claude_bridge.Rpc.Request.{Codec}
use claude_bridge.Rpc.Server.{Server, Input, serve}
use claude_bridge.Rpc.Server.Serving.{is_returned, handle_all-IsServed, accept-IsServed}

-- Whatever happens on a connection, the count of connections is one up while it is open and back
-- where it was once it has ended; and its end, only, fires the hook of the server, just when no other
-- connection was open.
pub serve-active :
    (c : Codec) (w : World) (is : List Input) (out : Writer) (sv : Server)
    → let (sv', conn) = serve c w is out sv in
      (sv'.active ≡ (if is_returned conn.phase then sv.active else sv.active + 1))
      × (sv'.fired ≡ (
          if is_returned conn.phase && nat_eq sv.active 0 && sv.has_hook
          then sv.fired + 1
          else sv.fired))
unfolding serve
serve-active c w is out sv =
    let h = handle_all-IsServed c w is sv _ _ (accept-IsServed out sv) in (h.active, h.fired)

-- Whatever happened on a connection, once it has ended, the session that it bound is not registered.
pub serve_reaped :
    (c : Codec) (w : World) (is : List Input) (out : Writer) (sv : Server)
    → is_returned (serve c w is out sv).1.phase ≡ true
    → nonempty (serve c w is out sv).1.bound_session ≡ true
    → lookup (serve c w is out sv).1.bound_session (serve c w is out sv).0.broker.sessions ≡ none
unfolding serve
serve_reaped c w is out sv p n =
    (handle_all-IsServed c w is sv _ _ (accept-IsServed out sv)).reaped p n
