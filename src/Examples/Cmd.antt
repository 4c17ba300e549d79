-- ===== src/Examples/Cmd.antt =====
-- The theorems on the commands.
use claude_bridge.Base.{
  ℕ, ◌+◌, ◌-◌, ◌≡◌, ◌≢◌, ◌⊎◌, refl, inr, Bool, true, false, ◌||◌, none, some, [], leb, arith,
}
use claude_bridge.Base.Int.{pos}
use claude_bridge.Text.{text}
use claude_bridge.Config.{defaults}
use claude_bridge.Config.Paths.{User}
use claude_bridge.Cmd.Os.{Action, dial, sleep, flock, kill, Os, IsClocked}
use claude_bridge.Cmd.Spawn.{ensure_daemon}
use claude_bridge.Cmd.Spawn.Ending.{ensure_daemon-ends}
use claude_bridge.Cmd.Serve.{exits, start_daemon, write_pid}
use claude_bridge.Cmd.Serve.Starting.{
  recording, holds_lock, listens, removals, is_running, start_daemon_settles,
}
use claude_bridge.Cmd.Shim.{Bridge, start_shim, run_mcp}
use claude_bridge.Cmd.Shim.Closing.{connections, IsMetered, run_mcp-opened}
use claude_bridge.Cmd.Status.{run_stop}
use claude_bridge.Cmd.Status.Stopping.{file_after, last_call, run_stop-write_pid}

abbrev user : User
user = record { temp_dir = text "/tmp"; uid = 501 }

abbrev cost : Action → ℕ
cost (sleep d) = d
cost _ = 1

abbrev answers : Action → Bool
answers (dial path) = false
answers _ = true

-- No daemon ever answers here.
abbrev silent : Os ℕ
silent = record { user = user; act = λ a t. (t + cost a, answers a); now = λ t. t }

abbrev clocked : IsClocked silent
clocked = record { act_later = λ a t. omega arith; sleep_later = λ d t. omega arith }

ensure_daemon-ends_example : (ensure_daemon silent defaults 7).1 ≢ none
ensure_daemon-ends_example = ensure_daemon-ends silent clocked defaults 7

-- The socket is stale, and everything else succeeds.
start_daemon_settles_example :
    let (after, outcome) =
      start_daemon (recording user (λ log a. answers a) (λ log. 0)) 42 defaults [] in
    (holds_lock after ≡ false)
    × (listens after ≡ is_running outcome)
    × ((outcome ≢ exits 0) ⊎ (removals after ≡ removals []))
unfolding holds_lock listens
start_daemon_settles_example =
    start_daemon_settles user (λ log a. answers a) (λ log. 0) 42 defaults [] refl refl

run_stop-write_pid_example :
    run_stop
      (last_call user)
      (file_after (write_pid (last_call user) 42 defaults flock).0)
      defaults
      flock
    ≡ (kill (pos 42), 0)
run_stop-write_pid_example = run_stop-write_pid user defaults 42 flock (omega arith)

-- The open connections, and the number of actions so far. The daemon answers only from the ninth on.
abbrev starting : Os (ℕ × ℕ)
starting = record {
  user = user;
  act = λ a s. let ok = leb 8 s.1 || answers a in ((connections a ok s.0, s.1 + 1), ok);
  now = λ s. s.1;
}

-- The daemon registers the session as its second, and does not accept the subscription.
abbrev unsubscribed : Bridge (ℕ × ℕ)
unsubscribed = record {
  getwd = λ s. (s, some (text "/home/web"));
  call_as = λ session_id method p s. (s, inr (text "2"));
  register_result = λ raw. inr raw;
  close_control = λ s. (s.0 - 1, s.1);
  close_subscribe = λ s. (s.0 - 1, s.1);
  subscribe = λ id s. (s, false);
  serve = λ id s. s;
  serve_inert = λ s. s;
  call_unregister = λ id s. s;
}

abbrev metered : IsMetered starting unsubscribed (λ s. s.0)
metered = record {
  act_open = λ a s. refl;
  getwd_open = λ s. refl;
  call_open = λ session_id method p s. refl;
  close_control_open = λ s. refl;
  close_subscribe_open = λ s. refl;
  subscribe_open = λ id s. refl;
  serve_open = λ id s. refl;
  inert_open = λ s. refl;
  unregister_open = λ id s. refl;
}

-- The shim has started the daemon and set the session up with two connections.
start_shim_connected : start_shim starting unsubscribed defaults (0, 0) ≡ ((2, 10), some (text "2"))
unfolding start_shim connections
start_shim_connected = refl

run_mcp-opened_example : (run_mcp starting unsubscribed (text "1") defaults (0, 0)).0.0 ≡ 0
run_mcp-opened_example =
    run_mcp-opened starting unsubscribed (λ s. s.0) metered (text "1") defaults (0, 0)
