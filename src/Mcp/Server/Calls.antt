-- ===== src/Mcp/Server/Calls.antt =====
-- The calls that the server makes, seen by a daemon that records them.
use claude_bridge.Base.{ℕ, ◌≡◌, ◌⊎◌, refl, Bool, List, [], ◌∷◌, ◌++◌, All, All-append}
use claude_bridge.Text.{Str}
use claude_bridge.Text.Lines.{scan}
use claude_bridge.Dict.Each.{Each-nil}
use claude_bridge.Rpc.Frame.{Writer}
use claude_bridge.Rpc.Client.{CallParams}
use claude_bridge.Mcp.Codec.{Codec, DaemonClient}
use claude_bridge.Mcp.Server.{new_server, new_inert_server, max_line, serve}
use claude_bridge.Mcp.Server.Keeping.{
  IsToolMethod, tool_registry-Keeps, handle_permission_request-keeps,
}
use claude_bridge.Mcp.Server.Serving.{serve_lines-keeps}

pub record Call : Type 0 where
  pub session_id : Str
  pub method : Str
  pub given : CallParams

-- A daemon that records the calls, and answers each in view of those before it.
abbrev pub recording : (List Call → Call → Str ⊎ Str) → DaemonClient (List Call)
recording answer = record {
  call_as = λ session_id method given log. (
    log ++ record { session_id = session_id; method = method; given = given } ∷ [],
    answer log (record { session_id = session_id; method = method; given = given }),
  );
}

-- A call as the given session, of a method that a tool or a relayed prompt may call.
pub record IsOwn (session_id : Str) (c : Call) : Type 0 where
  pub same : c.session_id ≡ session_id
  pub method : IsToolMethod c.method

-- Whatever Claude Code writes to the server, and however the daemon answers: over a whole run, the
-- server calls the daemon as its own session only, and never registers, unregisters or subscribes.
pub serve-IsOwn :
    (k : Codec) (answer : List Call → Call → Str ⊎ Str) (session_id : Str) (done : ℕ → Bool)
    (input : Str) (out : Writer)
    → All
        (IsOwn session_id)
        (serve k
          (recording answer)
          (new_server k (recording answer) session_id)
          done
          input
          out
          []).0.0
unfolding new_server
serve-IsOwn k answer session_id done input out =
    serve_lines-keeps k (recording answer) _ (All (IsOwn session_id))
      (tool_registry-Keeps k (recording answer) session_id (All (IsOwn session_id)) keep)
      (λ active.
        handle_permission_request-keeps k (recording answer) session_id (All (IsOwn session_id))
          keep)
      done _ 0 (scan max_line input).lines out [] tt
  where
    keep :
        (m : Str) (p : CallParams) (log : List Call)
        → IsToolMethod m
        → All (IsOwn session_id) log
        → All (IsOwn session_id) ((recording answer).call_as session_id m p log).0
    keep m p log ok h =
        All-append (IsOwn session_id) log _ h (record { same = refl; method = ok }, tt)

-- A server that did not opt in never calls the daemon, whatever is written to it.
pub serve_inert :
    {W : Type 0} (k : Codec) (c : DaemonClient W) (done : ℕ → Bool) (input : Str) (out : Writer)
    (w : W)
    → (serve k c new_inert_server done input out w).0.0 ≡ w
unfolding new_inert_server
serve_inert k c done input out w =
    serve_lines-keeps k c _ (λ v. v ≡ w) (Each-nil _) (λ active. absurd cc) done _ 0
      (scan max_line input).lines out w refl
