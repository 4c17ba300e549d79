-- ===== src/Daemon/Exiting.antt =====
-- The count of connections, the idle timer and the end of the daemon, in every history.
use claude_bridge.Base.{
  ℕ, ◌<◌, ◌≤◌, ◌≡◌, refl, ◌⊎◌, inl, inr, true, false, some, [], arith, get_elem?, Option-cases,
}
use claude_bridge.Base.Int.{le_ℤ}
use claude_bridge.Broker.Clock.{World}
use claude_bridge.Config.{Config}
use claude_bridge.Rpc.Frame.{Writer}
use claude_bridge.Rpc.Request.{Codec}
use claude_bridge.Rpc.Server.{Server}
use claude_bridge.Daemon.Goroutine.{Goroutine, Read, turn, accepted}
use claude_bridge.Daemon.System.{
  Process, started, after_turn, move_goroutine, Move, accepts, moves, others, goes_off, checks,
  signal, shuts, returns, move, can_move, Reached, starts, later,
}
use claude_bridge.Daemon.Counting.{
  at, counts, hooks, ends, total, total-set, total-append, total-le, IsTurned, turn-IsTurned,
}

-- The invariant.
pub record IsWatched (cfg : Config) (d : Process) : Type 0 where
  pub counted : d.server.active ≡ total (at counts) d.conns
  pub hook : d.server.has_hook ≡ le_ℤ 1 cfg.daemon.idle_timeout
  pub once : d.timer.removed ≤ 2
  pub after : (d.timer.closed ≡ false) ⊎ (d.timer.removed ≡ 2)
  pub begun : (d.timer.removed ≡ 0) ⊎ (d.timer.closed ≡ true) ⊎ (0 < d.stopping)
  pub pending :
      (d.timer.closed ≡ true)
      ⊎ (0 < d.server.active)
      ⊎ (0 < total (at hooks) d.conns)
      ⊎ (total (at ends) d.conns ≡ 0)
      ⊎ (d.server.has_hook ≡ false)
      ⊎ (d.timer.armed ≡ true)
      ⊎ (0 < d.timer.expired)
      ⊎ (0 < d.stopping)
  pub unhooked :
      (d.server.has_hook ≡ true)
      ⊎ ((d.timer.armed ≡ false)
          × (d.timer.expired ≡ 0)
          × ((d.handling ≡ false) ⊎ ((d.stopping ≡ 0) × (d.timer.closed ≡ false))))

after_turn-IsWatched :
    (cfg : Config) (d : Process) (i : ℕ) (g g' : Goroutine) (sv : Server)
    → get_elem? d.conns i ≡ some g
    → IsTurned d.server sv g.stage g'.stage
    → IsWatched cfg d
    → IsWatched cfg (after_turn d i (sv, g'))
unfolding after_turn
after_turn-IsWatched cfg d i g g' sv e t h = record {
  counted = omega (arith, h.counted, t.count, total-set (at counts) d.conns i g g' e);
  hook = ground (arith, h.hook, t.hook);
  once = ground (arith, h.once);
  after = ground (arith, h.after);
  begun = ground (arith, h.begun);
  pending = ground (
    arith,
    h.pending,
    h.counted,
    t.count,
    t.ended,
    t.fired,
    t.hook,
    t.called,
    total-set (at ends) d.conns i g g' e,
    total-set (at hooks) d.conns i g g' e,
    total-set (at counts) d.conns i g g' e,
  );
  unhooked = ground (arith, h.unhooked, t.fired, t.hook);
}

moves-IsWatched :
    (c : Codec) (w : World) (cfg : Config) (i : ℕ) (rd : Read) (d : Process)
    → IsWatched cfg d
    → IsWatched cfg (move c w (moves i rd) d)
unfolding move
moves-IsWatched c w cfg i rd d h = elim (Option-cases (get_elem? d.conns i)) [
  | inl e ↦ rw (e, move, move_goroutine) h
  | inr (g, e) ↦
      (let few : counts g.stage ≤ d.server.active =
          omega (arith, h.counted, total-le (at counts) d.conns i e) in
        let (sv, g') = turn c w rd d.server g in
        rw (e, move, move_goroutine)
          (after_turn-IsWatched cfg d i g g' sv e (turn-IsTurned c w rd d.server g few) h))
]

accepts-IsWatched :
    (c : Codec) (w : World) (cfg : Config) (out : Writer) (d : Process)
    → IsWatched cfg d
    → IsWatched cfg (move c w (accepts out) d)
unfolding move
accepts-IsWatched c w cfg out d h =
    let g : Goroutine = record { stage = accepted; bound = []; out = out } in
    record {
      counted = omega (arith, h.counted, total-append (at counts) d.conns g);
      hook = h.hook;
      once = h.once;
      after = h.after;
      begun = h.begun;
      pending =
          ground
            (arith, h.pending, total-append (at hooks) d.conns g, total-append (at ends) d.conns g);
      unhooked = h.unhooked;
    }

move-IsWatched :
    (c : Codec) (w : World) (cfg : Config) (s : Move) (d : Process)
    → can_move s d ≡ true
    → IsWatched cfg d
    → IsWatched cfg (move c w s d)
unfolding move can_move
move-IsWatched c w cfg (accepts out) d ok h = accepts-IsWatched c w cfg out d h
move-IsWatched c w cfg (moves i rd) d ok h = moves-IsWatched c w cfg i rd d h
move-IsWatched c w cfg (others cmd) d ok h = record {
  counted = h.counted;
  hook = h.hook;
  once = h.once;
  after = h.after;
  begun = h.begun;
  pending = h.pending;
  unhooked = h.unhooked;
}
move-IsWatched c w cfg goes_off d ok h = record {
  counted = h.counted;
  hook = h.hook;
  once = h.once;
  after = h.after;
  begun = h.begun;
  pending = ground (arith, h.pending);
  unhooked = ground (arith, h.unhooked);
}
move-IsWatched c w cfg checks d ok h = record {
  counted = ground (arith, h.counted);
  hook = ground (arith, h.hook);
  once = ground (arith, h.once);
  after = ground (arith, h.after);
  begun = ground (arith, h.begun);
  pending = ground (arith, h.pending);
  unhooked = ground (arith, h.unhooked);
}
move-IsWatched c w cfg signal d ok h = record {
  counted = h.counted;
  hook = h.hook;
  once = h.once;
  after = h.after;
  begun = ground (arith, h.begun);
  pending = ground (arith, h.pending);
  unhooked = ground (arith, h.unhooked);
}
move-IsWatched c w cfg shuts d ok h = record {
  counted = h.counted;
  hook = h.hook;
  once = ground (arith, h.once);
  after = ground (arith, h.after);
  begun = ground (arith, h.begun);
  pending = ground (arith, h.pending);
  unhooked = ground (arith, h.unhooked);
}
move-IsWatched c w cfg returns d ok h = record {
  counted = h.counted;
  hook = h.hook;
  once = h.once;
  after = h.after;
  begun = h.begun;
  pending = h.pending;
  unhooked = h.unhooked;
}

-- In every state that the daemon can reach, whatever comes in between the turns of its connections:
-- the count is the number of connections whose goroutine has begun and has not yet taken its own off
-- it. Of the two runtime files each is removed at most once: none before the shutdown has begun, and
-- both before the listener is closed. If it is open, the timeout is positive, some connection has ended, no connection counts and no
-- goroutine is about to call the hook, then the timer runs, its function is about to look at the
-- count, or the shutdown has begun. With a timeout of 0 or less no timer is ever set, and the
-- shutdown begins only at a signal.
pub Reached-IsWatched :
    {c : Codec} {w : World} {cfg : Config} {d : Process} → Reached c w cfg d → IsWatched cfg d
unfolding started total
Reached-IsWatched starts = record {
  counted = refl;
  hook = refl;
  once = omega arith;
  after = ground arith;
  begun = ground arith;
  pending = ground arith;
  unhooked = ground arith;
}
Reached-IsWatched {c} {w} {cfg} (later {d} r s on ok) =
    move-IsWatched c w cfg s d ok (Reached-IsWatched r)
