-- ===== src/Cmd/Spawn.antt =====
-- cmd/claude-bridge/spawn.go: a client finds the daemon, or starts it.
pub mod Ending
use claude_bridge.Base.{
  ℕ, zero, suc, ◌+◌, ◌*◌, ◌/◌, ◌⊎◌, inl, inr, Bool, true, false, Option, none, some, ltb,
  if◌then◌else◌,
}
use claude_bridge.Text.{Str}
use claude_bridge.Broker.Clock.{second}
use claude_bridge.Config.{Config}
use claude_bridge.Config.Paths.{runtime_dir, sock_path, lock_path}
use claude_bridge.Cmd.Os.{
  Action, mkdir_all, open_lock, flock, close_lock, dial, close_client, executable, start_detached,
  sleep, Os,
}

abbrev pub spawn_poll_interval : ℕ
spawn_poll_interval = 50000000

abbrev pub spawn_timeout : ℕ
spawn_timeout = 2 * second

-- Why no daemon was reached.
pub data SpawnError : Type 0 where
  no_runtime_dir no_lock no_flock no_executable not_started timed_out : SpawnError

module _ {S : Type 0} (os : Os S) where
  -- The lock file is closed where it cannot be locked.
  unfoldable pub acquire_lock : Config → S → S × Option SpawnError
  unfolding lock_path
  acquire_lock cfg s =
      let (s1, opened) = os.act (open_lock (lock_path os.user cfg)) s in
      let (s2, locked) = os.act flock s1 in
      if opened
      then (if locked then (s2, none) else ((os.act close_lock s2).0, some no_flock))
      else (s1, some no_lock)

  unfoldable pub spawn_daemon : S → S × Option SpawnError
  spawn_daemon s =
      let (s1, found) = os.act executable s in
      let (s2, started) = os.act start_detached s1 in
      if found then (s2, if started then none else some not_started) else (s1, some no_executable)

  -- The deferred close of the lock runs last.
  unfoldable pub spawn_under_lock : Config → Str → S → S × Option SpawnError
  unfolding acquire_lock spawn_daemon
  spawn_under_lock cfg sock s =
      let (s1, failed) = acquire_lock cfg s in
      let (s2, alive) = os.act (dial sock) s1 in
      let (s3, spawned) = spawn_daemon s2 in
      elim failed [
        | some e ↦ (s1, some e)
        | none ↦
            if alive
            then ((os.act close_lock (os.act close_client s2).0).0, none)
            else ((os.act close_lock s3).0, spawned)
      ]

  -- The loop of `dialUntilReady`, of which the fuel bounds the rounds: none where it does not suffice.
  unfoldable pub dial_until : ℕ → ℕ → Str → S → S × Option (Option SpawnError)
  dial_until zero deadline sock s = (s, none)
  dial_until (suc fuel) deadline sock s =
      let (s1, alive) = os.act (dial sock) s in
      let again = dial_until fuel deadline sock (os.act (sleep spawn_poll_interval) s1).0 in
      if ltb (os.now s) deadline
      then (if alive then (s1, some none) else again)
      else (s, some (some timed_out))

  -- One round for each interval, and the round in which the time is over.
  abbrev pub rounds : ℕ
  rounds = spawn_timeout / spawn_poll_interval + 1

  unfoldable pub dial_until_ready : Str → S → S × Option (Option SpawnError)
  unfolding dial_until
  dial_until_ready sock s = dial_until rounds (os.now s + spawn_timeout) sock s

  unfoldable pub ensure_daemon : Config → S → S × Option (Option SpawnError)
  unfolding sock_path runtime_dir spawn_under_lock dial_until_ready
  ensure_daemon cfg s =
      let sock = sock_path os.user cfg in
      let (s1, alive) = os.act (dial sock) s in
      let (s2, made) = os.act (mkdir_all (runtime_dir os.user cfg)) s1 in
      let (s3, failed) = spawn_under_lock cfg sock s2 in
      let ready = dial_until_ready sock s3 in
      if alive
      then (s1, some none)
      else if made
      then elim failed [ none ↦ ready | some e ↦ (s3, some (some e)) ]
      else (s2, some (some no_runtime_dir))
