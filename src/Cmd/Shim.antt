-- ===== src/Cmd/Shim.antt =====
-- cmd/claude-bridge/mcp.go: the shim of a session. What its two connections and the MCP server do is
-- given as operations on the state.
pub mod Closing
use claude_bridge.Base.{
  ℕ, ◌⊎◌, inl, inr, [], ◌||◌, Bool, true, false, Option, none, some, if◌then◌else◌,
}
use claude_bridge.Text.{Str, text, ◌==◌}
use claude_bridge.Config.{Config}
use claude_bridge.Config.Paths.{sock_path}
use claude_bridge.Rpc.Request.{method_register}
use claude_bridge.Rpc.Client.{CallParams, register}
use claude_bridge.Cmd.Os.{dial, Os}
use claude_bridge.Cmd.Spawn.{ensure_daemon}

-- strconv.ParseBool
unfoldable pub parse_bool : Str → Option Bool
parse_bool s =
    if s == text "1"
      || s == text "t"
      || s == text "T"
      || s == text "true"
      || s == text "TRUE"
      || s == text "True"
    then some true
    else (if s == text "0"
          || s == text "f"
          || s == text "F"
          || s == text "false"
          || s == text "FALSE"
          || s == text "False"
        then some false
        else none)

-- The argument is the value of CLAUDE_BRIDGE_ENABLE.
unfoldable pub bridge_enabled : Str → Bool
unfolding parse_bool
bridge_enabled v = elim (parse_bool v) [ none ↦ false | some b ↦ b ]

-- What the shim does with its connections: `call_as` is a call over the connection for calls, and
-- `serve` runs the server until its input ends or a signal arrives, while the events are forwarded,
-- and waits for both. `call_unregister` waits for its answer within the deadline.
pub record Bridge (S : Type 0) : Type 0 where
  pub getwd : S → S × Option Str
  pub call_as : Str → Str → CallParams → S → S × (Str ⊎ Str)
  pub register_result : Str → Str ⊎ Str
  pub close_control : S → S
  pub close_subscribe : S → S
  pub subscribe : Str → S → S × Bool
  pub serve : Str → S → S
  pub serve_inert : S → S
  pub call_unregister : Str → S → S

module _ {S : Type 0} (os : Os S) (b : Bridge S) where
  -- `registerSession`, which calls without a session.
  unfoldable pub register_project : Str → S → S × Option Str
  register_project dir s =
      let (s1, answer) =
        b.call_as [] method_register (register (record { project_path = dir })) s in
      elim answer [
        | inl e ↦ (s1, none)
        | inr raw ↦ elim (b.register_result raw) [ inl e ↦ (s1, none) | inr id ↦ (s1, some id) ]
      ]

  -- The connection for calls is closed where the session cannot be set up. The state is returned with
  -- the session's identifier, if there is one.
  unfoldable pub set_up_session : Config → Str → S → S × Option Str
  unfolding sock_path register_project
  set_up_session cfg dir s =
      let (s1, answer) = register_project dir s in
      let (s2, alive) = os.act (dial (sock_path os.user cfg)) s1 in
      elim answer [
        | none ↦ (b.close_control s1, none)
        | some id ↦ if alive then (s2, some id) else (b.close_control s2, none)
      ]

  unfoldable pub start_shim : Config → S → S × Option Str
  unfolding set_up_session ensure_daemon
  start_shim cfg s =
      let (s1, wd) = b.getwd s in
      let (s2, reached) = ensure_daemon os cfg s1 in
      elim wd [
        | none ↦ (s1, none)
        | some dir ↦ elim reached [ some none ↦ set_up_session cfg dir s2 | _ ↦ (s2, none) ]
      ]

  -- The deferred close of both connections runs last.
  abbrev pub close : S → S
  close s = b.close_subscribe (b.close_control s)

  unfoldable pub run_session : Str → S → S × ℕ
  run_session id s =
      let (s1, subscribed) = b.subscribe id s in
      if subscribed then (close (b.call_unregister id (b.serve id s1)), 0) else (close s1, 1)

  -- The value of CLAUDE_BRIDGE_ENABLE, and the exit code.
  unfoldable pub run_mcp : Str → Config → S → S × ℕ
  unfolding bridge_enabled start_shim run_session
  run_mcp enable cfg s =
      let (s1, started) = start_shim cfg s in
      if bridge_enabled enable
      then elim started [ none ↦ (s1, 1) | some id ↦ run_session id s1 ]
      else (b.serve_inert s, 0)
