-- ===== src/Cmd/Serve.antt =====
-- cmd/claude-bridge/serve.go: how the daemon starts and how it ends. The broker and the server that
-- it then runs are those of the other components.
pub mod Starting
use claude_bridge.Base.{
  ℕ, zero, suc, ◌+◌, ◌⊎◌, inl, inr, ◌&&◌, not, Bool, true, false, Option, none, some, List, [], ◌∷◌,
  ◌++◌, ltb, leb, if◌then◌else◌,
}
use claude_bridge.Base.Int.{ℤ, le_ℤ}
use claude_bridge.Text.{Str, text, ◌==◌}
use claude_bridge.Text.Decimal.{itoa}
use claude_bridge.Broker.Livelock.{contains}
use claude_bridge.Config.{Config}
use claude_bridge.Config.Paths.{runtime_dir, sock_path, lock_path, pid_path, log_path}
use claude_bridge.Cmd.Os.{
  Action, mkdir_all, close_lock, stat, dial, close_client, remove, listen, chmod, close_listener,
  write_file, executable, start_detached, open_log, dup2_stdout, dup2_stderr, close_log, Os,
}
use claude_bridge.Cmd.Spawn.{acquire_lock}

abbrev pub detach_flag : Str
detach_flag = text "--detach"

abbrev newline : Str
newline = 10 ∷ []

-- What `startDaemon` returns: the daemon runs, or the exit code.
pub data Started : Type 0 where
  running : Started
  exits : ℕ → Started

-- The environment marks the child that was started again.
abbrev pub is_detached_child : Str → Bool
is_detached_child detached = detached == text "1"

module _ {S : Type 0} (os : Os S) (pid : ℕ) where
  -- Whether a daemon answers at the socket; else its file is removed.
  unfoldable pub recover_stale_socket : Str → S → S × Bool
  recover_stale_socket sock s =
      let (s1, there) = os.act (stat sock) s in
      let (s2, alive) = os.act (dial sock) s1 in
      if there
      then (if alive
          then ((os.act close_client s2).0, true)
          else ((os.act (remove sock) s2).0, false))
      else (s1, false)

  unfoldable pub listen_on : Str → S → S × Bool
  listen_on sock s =
      let (s1, bound) = os.act (listen sock) s in
      let (s2, tight) = os.act (chmod sock) s1 in
      if bound
      then (if tight then (s2, true) else ((os.act close_listener s2).0, false))
      else (s1, false)

  unfoldable pub write_pid : Config → S → S × Bool
  unfolding pid_path
  write_pid cfg s = os.act (write_file (pid_path os.user cfg) (itoa pid ++ newline)) s

  -- What `startDaemon` does while it holds the lock.
  unfoldable pub bind_socket : Config → S → S × Started
  unfolding recover_stale_socket listen_on write_pid sock_path
  bind_socket cfg s =
      let sock = sock_path os.user cfg in
      let (s1, alive) = recover_stale_socket sock s in
      let (s2, bound) = listen_on sock s1 in
      let (s3, written) = write_pid cfg s2 in
      if alive
      then (s1, exits 0)
      else if bound
      then (if written then (s3, running) else ((os.act close_listener s3).0, exits 1))
      else (s2, exits 1)

  -- The deferred close of the lock runs last.
  unfoldable pub start_daemon : Config → S → S × Started
  unfolding runtime_dir acquire_lock bind_socket
  start_daemon cfg s =
      let (s1, made) = os.act (mkdir_all (runtime_dir os.user cfg)) s in
      let (s2, failed) = acquire_lock os cfg s1 in
      let (s3, outcome) = bind_socket cfg s2 in
      if made
      then elim failed [ none ↦ ((os.act close_lock s3).0, outcome) | some e ↦ (s2, exits 1) ]
      else (s1, exits 1)

  unfoldable pub re_exec_detached : S → S × ℕ
  re_exec_detached s =
      let (s1, found) = os.act executable s in
      let (s2, started) = os.act start_detached s1 in
      if found then (s2, if started then 0 else 1) else (s1, 1)

  -- The log file is closed again in any case once it is open.
  unfoldable pub redirect_to_log : Config → S → S × Bool
  unfolding log_path
  redirect_to_log cfg s =
      let (s1, opened) = os.act (open_log (log_path os.user cfg)) s in
      let (s2, out) = os.act dup2_stdout s1 in
      let (s3, err) = os.act dup2_stderr s2 in
      if opened
      then (if out then ((os.act close_log s3).0, err) else ((os.act close_log s2).0, false))
      else (s1, false)

  -- What `runServe` does up to the accept loop: with the arguments, and whether this is the child that
  -- was started again. A parent that detaches exits with the code of the start.
  unfoldable pub run_serve : List Str → Bool → Config → S → S × Started
  unfolding re_exec_detached start_daemon redirect_to_log runtime_dir
  run_serve args child cfg s =
      let (s1, code) = re_exec_detached s in
      let (s2, made) = os.act (mkdir_all (runtime_dir os.user cfg)) s in
      let (s3, logged) = redirect_to_log cfg s2 in
      if contains args detach_flag && not child
      then (s1, exits code)
      else if child
      then (if made then (if logged then start_daemon cfg s3 else (s3, exits 1)) else (s2, exits 1))
      else start_daemon cfg s

  -- The body of `shutdown.Do`.
  unfoldable pub remove_files : Config → S → S
  unfolding sock_path pid_path
  remove_files cfg s =
      (os.act close_listener
        (os.act (remove (pid_path os.user cfg)) (os.act (remove (sock_path os.user cfg)) s).0).0).0
