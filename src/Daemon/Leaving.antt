-- ===== src/Daemon/Leaving.antt =====
-- A daemon that nobody uses any more comes to its end by itself.
use claude_bridge.Base.{
  ℕ, zero, suc, ◌-◌, Bool-cases, ◌<◌, ◌≡◌, refl, ◌⊎◌, inl, inr, Bool, true, false, List, [], ◌∷◌,
  arith, All,
}
use claude_bridge.Base.Int.{le_ℤ}
use claude_bridge.Broker.Clock.{World}
use claude_bridge.Config.{Config}
use claude_bridge.Rpc.Request.{Codec}
use claude_bridge.Cmd.Idle.{shutdown_now}
use claude_bridge.Daemon.System.{
  shut_step, Process, Move, goes_off, checks, shuts, move, can_move, run_moves, CanRun, Reached,
}
use claude_bridge.Daemon.Counting.{at, hooks, ends, total}
use claude_bridge.Daemon.Exiting.{IsWatched, Reached-IsWatched}

abbrev pub is_timed : Move → Bool
is_timed goes_off = true
is_timed checks = true
is_timed shuts = true
is_timed _ = false

-- The moves by which the daemon closes its listener.
pub record Closes (c : Codec) (w : World) (d : Process) : Type 0 where
  pub by : List Move
  pub timed : All (λ s. is_timed s ≡ true) by
  pub possible : CanRun c w by d
  pub closed : (run_moves c w by d).timer.closed ≡ true

module _ (c : Codec) (w : World) where
  closed-Closes : (d : Process) → d.timer.closed ≡ true → Closes c w d
  unfolding run_moves CanRun
  closed-Closes d shut = record { by = []; timed = tt; possible = tt; closed = shut }

  first-Closes :
      (s : Move) (d : Process)
      → is_timed s ≡ true
      → can_move s d ≡ true
      → Closes c w (move c w s d)
      → Closes c w d
  unfolding run_moves CanRun
  first-Closes s d timed ok later = record {
    by = s ∷ later.by;
    timed = (timed, later.timed);
    possible = (ok, later.possible);
    closed = later.closed;
  }

  -- The body of the shutdown, from where it stands.
  stopping-Closes :
      (left : ℕ) (d : Process) → 2 - d.timer.removed ≡ left → 0 < d.stopping → Closes c w d
  unfolding move can_move shutdown_now shut_step
  stopping-Closes zero d e h = elim (Bool-cases d.timer.closed) [
    | inl shut ↦ closed-Closes d shut
    | inr up ↦
        first-Closes shuts d refl (ground arith) (closed-Closes (move c w shuts d) (ground arith))
  ]
  stopping-Closes (suc n) d e h = elim (Bool-cases d.timer.closed) [
    | inl shut ↦ closed-Closes d shut
    | inr up ↦
        first-Closes shuts d refl (ground arith)
          (stopping-Closes n (move c w shuts d) (ground arith) (ground arith))
  ]

  expired-Closes : (d : Process) → d.server.active ≡ 0 → 0 < d.timer.expired → Closes c w d
  unfolding move can_move
  expired-Closes d idle h =
      first-Closes checks d refl (ground arith)
        (stopping-Closes _ (move c w checks d) refl (ground arith))

  armed-Closes : (d : Process) → d.server.active ≡ 0 → d.timer.armed ≡ true → Closes c w d
  unfolding move can_move
  armed-Closes d idle h =
      first-Closes goes_off d refl (ground arith)
        (expired-Closes (move c w goes_off d) (ground arith) (ground arith))

-- A daemon with a positive timeout that has had connections and on which none counts any more, with no
-- hook about to be called, closes its listener without a signal: the timer goes off unless it has, its
-- function finds no connection, and the shutdown runs, nothing else coming between.
pub Reached-Closes :
    {c : Codec} {w : World} {cfg : Config} {d : Process}
    → Reached c w cfg d
    → le_ℤ 1 cfg.daemon.idle_timeout ≡ true
    → d.server.active ≡ 0
    → total (at hooks) d.conns ≡ 0
    → 0 < total (at ends) d.conns
    → Closes c w d
Reached-Closes {c} {w} {cfg} {d} r timeout idle quiet used =
    let i : IsWatched cfg d = Reached-IsWatched r in
    let left : (d.timer.closed ≡ true)
        ⊎ ((d.timer.armed ≡ true) ⊎ ((0 < d.timer.expired) ⊎ (0 < d.stopping))) =
      ground (arith, i.pending, i.hook, timeout) in
    elim left [
      | inl shut ↦ closed-Closes c w d shut
      | inr (inl armed) ↦ armed-Closes c w d idle armed
      | inr (inr (inl gone)) ↦ expired-Closes c w d idle gone
      | inr (inr (inr begun)) ↦ stopping-Closes c w _ d refl begun
    ]
