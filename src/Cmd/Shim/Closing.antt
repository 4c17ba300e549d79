-- ===== src/Cmd/Shim/Closing.antt =====
-- The connections that the shim of a session opens, and that it closes.
use claude_bridge.Base.{
  ℕ, zero, suc, [], ◌+◌, ◌-◌, ◌≡◌, inl, inr, Option-cases, Bool, true, Option, none, some, arith,
}
use claude_bridge.Text.{Str}
use claude_bridge.Config.{Config}
use claude_bridge.Config.Paths.{sock_path, runtime_dir, lock_path}
use claude_bridge.Rpc.Request.{method_register}
use claude_bridge.Rpc.Client.{CallParams, register}
use claude_bridge.Cmd.Os.{
  Action, open_lock, flock, close_lock, dial, close_client, executable, start_detached, mkdir_all,
  sleep, Os,
}
use claude_bridge.Cmd.Spawn.{
  SpawnError, spawn_poll_interval, spawn_timeout, rounds, acquire_lock, spawn_daemon,
  spawn_under_lock, dial_until, dial_until_ready, ensure_daemon,
}
use claude_bridge.Cmd.Shim.{
  Bridge, register_project, set_up_session, start_shim, run_session, run_mcp,
}

-- The number of open connections after an action, from its success and the number before.
unfoldable pub connections : Action → Bool → ℕ → ℕ
connections (dial sock) true n = n + 1
connections (close_client) ok n = n - 1
connections a ok n = n

-- Of the actions, only a dial opens a connection, and of the operations of the shim only the two that
-- close one change their number.
pub record IsMetered {S : Type 0} (os : Os S) (b : Bridge S) (opened : S → ℕ) : Type 0 where
  pub act_open :
      (a : Action) (s : S) → opened (os.act a s).0 ≡ connections a (os.act a s).1 (opened s)
  pub getwd_open : (s : S) → opened (b.getwd s).0 ≡ opened s
  pub call_open :
      (session_id method : Str) (p : CallParams) (s : S)
      → opened (b.call_as session_id method p s).0 ≡ opened s
  pub close_control_open : (s : S) → opened (b.close_control s) ≡ opened s - 1
  pub close_subscribe_open : (s : S) → opened (b.close_subscribe s) ≡ opened s - 1
  pub subscribe_open : (id : Str) (s : S) → opened (b.subscribe id s).0 ≡ opened s
  pub serve_open : (id : Str) (s : S) → opened (b.serve id s) ≡ opened s
  pub inert_open : (s : S) → opened (b.serve_inert s) ≡ opened s
  pub unregister_open : (id : Str) (s : S) → opened (b.call_unregister id s) ≡ opened s

-- What a client that is reached holds.
abbrev held : Option (Option SpawnError) → ℕ
held (some none) = 1
held r = 0

module _ {S : Type 0} (os : Os S) (b : Bridge S) (opened : S → ℕ) (m : IsMetered os b opened) where
  acquire_lock-opened : (cfg : Config) (s : S) → opened (acquire_lock os cfg s).0 ≡ opened s
  unfolding acquire_lock connections
  acquire_lock-opened cfg s =
      let s1 = (os.act (open_lock (lock_path os.user cfg)) s).0 in
      let s2 = (os.act flock s1).0 in
      ground (
        arith,
        m.act_open (open_lock (lock_path os.user cfg)) s,
        m.act_open flock s1,
        m.act_open close_lock s2,
      )

  spawn_daemon-opened : (s : S) → opened (spawn_daemon os s).0 ≡ opened s
  unfolding spawn_daemon connections
  spawn_daemon-opened s =
      let s1 = (os.act executable s).0 in
      ground (arith, m.act_open executable s, m.act_open start_detached s1)

  spawn_under_lock-opened :
      (cfg : Config) (sock : Str) (s : S) → opened (spawn_under_lock os cfg sock s).0 ≡ opened s
  unfolding spawn_under_lock connections
  spawn_under_lock-opened cfg sock s =
      let s1 = (acquire_lock os cfg s).0 in
      let s2 = (os.act (dial sock) s1).0 in
      let s3 = (spawn_daemon os s2).0 in
      ground (
        arith,
        acquire_lock-opened cfg s,
        m.act_open (dial sock) s1,
        m.act_open close_client s2,
        m.act_open close_lock (os.act close_client s2).0,
        spawn_daemon-opened s2,
        m.act_open close_lock s3,
      )

  dial_until-opened :
      (fuel deadline : ℕ) (sock : Str) (s : S)
      → opened (dial_until os fuel deadline sock s).0
        ≡ opened s + held (dial_until os fuel deadline sock s).1
  unfolding dial_until connections
  dial_until-opened zero deadline sock s = ground arith
  dial_until-opened (suc fuel) deadline sock s =
      let s1 = (os.act (dial sock) s).0 in
      let s2 = (os.act (sleep spawn_poll_interval) s1).0 in
      ground (
        arith,
        m.act_open (dial sock) s,
        m.act_open (sleep spawn_poll_interval) s1,
        dial_until-opened fuel deadline sock s2,
      )

  ensure_daemon-opened :
      (cfg : Config) (s : S)
      → opened (ensure_daemon os cfg s).0 ≡ opened s + held (ensure_daemon os cfg s).1
  unfolding ensure_daemon dial_until_ready connections
  ensure_daemon-opened cfg s =
      let sock = sock_path os.user cfg in
      let s1 = (os.act (dial sock) s).0 in
      let s2 = (os.act (mkdir_all (runtime_dir os.user cfg)) s1).0 in
      let s3 = (spawn_under_lock os cfg sock s2).0 in
      ground (
        arith,
        m.act_open (dial sock) s,
        m.act_open (mkdir_all (runtime_dir os.user cfg)) s1,
        spawn_under_lock-opened cfg sock s2,
        dial_until-opened (rounds os) (os.now s3 + spawn_timeout) sock s3,
      )

  register_project-opened : (dir : Str) (s : S) → opened (register_project os b dir s).0 ≡ opened s
  unfolding register_project
  register_project-opened dir s =
      ground (arith, m.call_open [] method_register (register (record { project_path = dir })) s)

  -- It runs with one connection open, that for calls: at its end both are, or that one is closed too.
  set_up_session-opened :
      (cfg : Config) (dir : Str) (s : S)
      → opened (set_up_session os b cfg dir s).0
        ≡ (elim (set_up_session os b cfg dir s).1 [ none ↦ opened s - 1 | some id ↦ opened s + 1 ])
  unfolding set_up_session connections
  set_up_session-opened cfg dir s =
      let s1 = (register_project os b dir s).0 in
      let s2 = (os.act (dial (sock_path os.user cfg)) s1).0 in
      ground (
        arith,
        register_project-opened dir s,
        m.act_open (dial (sock_path os.user cfg)) s1,
        m.close_control_open s1,
        m.close_control_open s2,
      )

  start_shim-opened :
      (cfg : Config) (s : S)
      → opened (start_shim os b cfg s).0
        ≡ (elim (start_shim os b cfg s).1 [ none ↦ opened s | some id ↦ opened s + 2 ])
  unfolding start_shim
  start_shim-opened cfg s =
      let s1 = (b.getwd s).0 in
      let s2 = (ensure_daemon os cfg s1).0 in
      elim (Option-cases (b.getwd s).1) [
        | inl e ↦ ground (arith, e, m.getwd_open s)
        | inr (dir, e) ↦ ground (
          arith,
          e,
          m.getwd_open s,
          ensure_daemon-opened cfg s1,
          set_up_session-opened cfg dir s2,
        )
      ]

  run_session-opened : (id : Str) (s : S) → opened (run_session os b id s).0 ≡ opened s - 2
  unfolding run_session
  run_session-opened id s =
      let s1 = (b.subscribe id s).0 in
      let s2 = b.serve id s1 in
      let s3 = b.call_unregister id s2 in
      ground (
        arith,
        m.subscribe_open id s,
        m.serve_open id s1,
        m.unregister_open id s2,
        m.close_control_open s3,
        m.close_subscribe_open (b.close_control s3),
        m.close_control_open s1,
        m.close_subscribe_open (b.close_control s1),
      )

  -- Whatever fails on its way, the shim of a session ends with as many connections to the daemon open
  -- as before: each one that it opened while it looked for the daemon, registered or subscribed is
  -- closed again. The condition is that only a successful dial opens a connection, and that each of
  -- the two operations which close one takes one away.
  pub run_mcp-opened :
      (enable : Str) (cfg : Config) (s : S) → opened (run_mcp os b enable cfg s).0 ≡ opened s
  unfolding run_mcp
  run_mcp-opened enable cfg s =
      let s1 = (start_shim os b cfg s).0 in
      elim (Option-cases (start_shim os b cfg s).1) [
        | inl e ↦ ground (arith, e, start_shim-opened cfg s, m.inert_open s)
        | inr (id, e) ↦
            ground (arith, e, start_shim-opened cfg s, run_session-opened id s1, m.inert_open s)
      ]
