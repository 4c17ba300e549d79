-- ===== src/Cmd/Spawn/Ending.antt =====
-- The wait for a daemon ends.
use claude_bridge.Base.{ℕ, zero, suc, ◌+◌, ◌*◌, ◌≤◌, ◌≢◌, none, arith}
use claude_bridge.Text.{Str}
use claude_bridge.Config.{Config}
use claude_bridge.Config.Paths.{runtime_dir, sock_path}
use claude_bridge.Cmd.Os.{dial, sleep, mkdir_all, Os, IsClocked}
use claude_bridge.Cmd.Spawn.{
  spawn_poll_interval, spawn_timeout, dial_until, dial_until_ready, spawn_under_lock, ensure_daemon,
}

module _ {S : Type 0} (os : Os S) (clock : IsClocked os) where
  dial_until-ends :
      (fuel deadline : ℕ) (sock : Str) (s : S)
      → deadline ≤ os.now s + fuel * spawn_poll_interval
      → (dial_until os (suc fuel) deadline sock s).1 ≢ none
  unfolding dial_until
  dial_until-ends zero deadline sock s h = ground arith
  dial_until-ends (suc fuel) deadline sock s h = ground (
    arith,
    clock.act_later (dial sock) s,
    clock.sleep_later spawn_poll_interval (os.act (dial sock) s).0,
    dial_until-ends fuel deadline sock
        (os.act (sleep spawn_poll_interval) (os.act (dial sock) s).0).0,
  )

  dial_until_ready-ends : (sock : Str) (s : S) → (dial_until_ready os sock s).1 ≢ none
  unfolding dial_until_ready
  dial_until_ready-ends sock s = dial_until-ends 40 (os.now s + spawn_timeout) sock s (omega arith)

  -- A client that looks for the daemon always comes to an end, connected or with an error: where it
  -- waits for a daemon that it has started, 41 rounds are enough, even if none ever answers. The
  -- condition is on the clock: calls take no time back, and a sleep takes at least the time asked for.
  pub ensure_daemon-ends : (cfg : Config) (s : S) → (ensure_daemon os cfg s).1 ≢ none
  unfolding ensure_daemon
  ensure_daemon-ends cfg s =
      let s1 = (os.act (dial (sock_path os.user cfg)) s).0 in
      let s2 = (os.act (mkdir_all (runtime_dir os.user cfg)) s1).0 in
      let s3 = (spawn_under_lock os cfg (sock_path os.user cfg) s2).0 in
      ground (arith, dial_until_ready-ends (sock_path os.user cfg) s3)
