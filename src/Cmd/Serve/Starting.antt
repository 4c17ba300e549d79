-- ===== src/Cmd/Serve/Starting.antt =====
-- What the start of a daemon leaves behind, seen by a system that records the calls.
use claude_bridge.Base.{ℕ, ◌+◌, ◌≡◌, ◌≢◌, ◌⊎◌, Bool, true, false, none, some, List, [], ◌∷◌, arith}
use claude_bridge.Config.{Config}
use claude_bridge.Config.Paths.{User, runtime_dir}
use claude_bridge.Cmd.Os.{Action, flock, close_lock, listen, close_listener, remove, mkdir_all, Os}
use claude_bridge.Cmd.Spawn.{acquire_lock}
use claude_bridge.Cmd.Serve.{
  Started, running, exits, recover_stale_socket, listen_on, write_pid, bind_socket, start_daemon,
}

-- The calls so far with their success, the last one first.
abbrev pub Calls : Type 0
Calls = List (Action × Bool)

-- A system that records the calls and answers each in view of those before it.
abbrev pub recording : User → (Calls → Action → Bool) → (Calls → ℕ) → Os Calls
recording u answer now = record {
  user = u;
  act = λ a log. ((a, answer log a) ∷ log, answer log a);
  now = now;
}

unfoldable pub holds_lock : Calls → Bool
holds_lock [] = false
holds_lock ((flock, true) ∷ log) = true
holds_lock ((close_lock, ok) ∷ log) = false
holds_lock ((a, ok) ∷ log) = holds_lock log

unfoldable pub listens : Calls → Bool
listens [] = false
listens ((listen sock, true) ∷ log) = true
listens ((close_listener, ok) ∷ log) = false
listens ((a, ok) ∷ log) = listens log

-- How often a file was removed.
unfoldable pub removals : Calls → ℕ
removals [] = 0
removals ((remove path, ok) ∷ log) = removals log + 1
removals ((a, ok) ∷ log) = removals log

abbrev pub is_running : Started → Bool
is_running running = true
is_running (exits code) = false

module _ (u : User) (answer : Calls → Action → Bool) (now : Calls → ℕ) (pid : ℕ) where
  abbrev os : Os Calls
  os = recording u answer now

  acquire_lock-holds :
      (cfg : Config) (log : Calls)
      → holds_lock log ≡ false
      → holds_lock (acquire_lock os cfg log).0
        ≡ (elim (acquire_lock os cfg log).1 [ none ↦ true | some e ↦ false ])
  unfolding acquire_lock holds_lock
  acquire_lock-holds cfg log h = ground arith

  acquire_lock-listens :
      (cfg : Config) (log : Calls) → listens (acquire_lock os cfg log).0 ≡ listens log
  unfolding acquire_lock listens
  acquire_lock-listens cfg log = ground arith

  bind_socket-listens :
      (cfg : Config) (log : Calls)
      → listens log ≡ false
      → listens (bind_socket os pid cfg log).0 ≡ is_running (bind_socket os pid cfg log).1
  unfolding bind_socket recover_stale_socket listen_on write_pid listens
  bind_socket-listens cfg log h = ground arith

  bind_socket-holds :
      (cfg : Config) (log : Calls) → holds_lock (bind_socket os pid cfg log).0 ≡ holds_lock log
  unfolding bind_socket recover_stale_socket listen_on write_pid holds_lock
  bind_socket-holds cfg log = ground arith

  bind_socket-removals :
      (cfg : Config) (log : Calls)
      → ((bind_socket os pid cfg log).1 ≢ exits 0)
        ⊎ (removals (bind_socket os pid cfg log).0 ≡ removals log)
  unfolding bind_socket recover_stale_socket listen_on write_pid removals
  bind_socket-removals cfg log = ground arith

  acquire_lock-removals :
      (cfg : Config) (log : Calls) → removals (acquire_lock os cfg log).0 ≡ removals log
  unfolding acquire_lock removals
  acquire_lock-removals cfg log = ground arith

  -- However the system answers, a daemon that starts without the lock and without a listener gives the
  -- lock back, listens afterwards exactly if it goes on to run, and has removed no file if it leaves
  -- because another daemon is alive.
  pub start_daemon_settles :
      (cfg : Config) (log : Calls)
      → holds_lock log ≡ false
      → listens log ≡ false
      → (let (after, outcome) = start_daemon (recording u answer now) pid cfg log in
          (holds_lock after ≡ false)
          × (listens after ≡ is_running outcome)
          × ((outcome ≢ exits 0) ⊎ (removals after ≡ removals log)))
  unfolding start_daemon holds_lock listens removals
  start_daemon_settles cfg log free quiet =
      let s1 = (os.act (mkdir_all (runtime_dir u cfg)) log).0 in
      let s2 = (acquire_lock os cfg s1).0 in
      ground (
        arith,
        acquire_lock-holds cfg s1,
        acquire_lock-listens cfg s1,
        acquire_lock-removals cfg s1,
        bind_socket-listens cfg s2,
        bind_socket-holds cfg s2,
        bind_socket-removals cfg s2,
      )
