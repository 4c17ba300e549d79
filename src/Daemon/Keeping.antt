-- ===== src/Daemon/Keeping.antt =====
-- What can end a session, whichever connections are open.
use claude_bridge.Base.{
  ℕ, ◌≡◌, refl, ap, ◌⊎◌, inl, inr, Bool, true, false, ◌||◌, some, List, [], ◌∷◌, arith, get_elem?,
  Bool-cases, Option-cases,
}
use claude_bridge.Text.{Str, ◌==◌, eq→≡}
use claude_bridge.Broker.Clock.{World}
use claude_bridge.Broker.State.{State}
use claude_bridge.Broker.RunLoop.{Command, ticks, exec, run}
use claude_bridge.Broker.RunLoop.Ending.{has, can_end, exec-has}
use claude_bridge.Rpc.Frame.{Writer}
use claude_bridge.Rpc.Request.{Request, Codec, method_unregister}
use claude_bridge.Daemon.Goroutine.{
  Goroutine, Stage, requested, touched, streaming, cancelling, leaving, Read,
}
use claude_bridge.Daemon.System.{Process, Move, moves, others, move, can_move}
use claude_bridge.Daemon.History.{request_commands, asked, move_commands, move-run}

-- What can end the session `id` in the daemon `d`: a cleanup, a request to unregister it, or the end of
-- the connection that has bound it.
pub data Ends (id : Str) (d : Process) : Move → Type 0 where
  by_cleanup : Ends id d (others ticks)
  by_request :
      {i : ℕ} {rd : Read} {g : Goroutine} (req : Request)
      → get_elem? d.conns i ≡ some g
      → g.stage ≡ touched req
      → req.method ≡ method_unregister
      → req.session_id ≡ id
      → Ends id d (moves i rd)
  by_owner :
      {i : ℕ} {rd : Read} {g : Goroutine}
      → get_elem? d.conns i ≡ some g
      → g.stage ≡ leaving
      → g.bound ≡ id
      → Ends id d (moves i rd)

any_ends : Str → List Command → Bool
any_ends id [] = false
any_ends id (c ∷ cs) = can_end id c || any_ends id cs

run-has :
    (id : Str) (w : World) (cs : List Command) (st : State)
    → any_ends id cs ≡ false
    → has id st ≡ true
    → has id (run w cs st) ≡ true
unfolding any_ends run
run-has id w [] st k h = h
run-has id w (c ∷ cs) st k h =
    run-has id w cs (exec w c st) (ground (arith, k)) (exec-has id w c st (ground (arith, k)) h)

request-ends :
    (id : Str) (c : Codec) (req : Request)
    → any_ends id (request_commands c req) ≡ true
    → (req.method == method_unregister ≡ true) × (req.session_id == id ≡ true)
unfolding any_ends request_commands
request-ends id c req h = ground arith

asked-ends :
    (id : Str) (c : Codec) (st : State) (s : Stage) (b : Str) (out : Writer)
    → any_ends id (asked c st (record { stage = s; bound = b; out = out })) ≡ true
    → ((req : Request) × (s ≡ touched req)
        × (req.method ≡ method_unregister)
        × (req.session_id ≡ id))
      ⊎ ((s ≡ leaving) × (b ≡ id))
unfolding any_ends asked
asked-ends id c st (touched req) b out h =
    let (m, i) = request-ends id c req h in inl (req, refl, eq→≡ _ _ m, eq→≡ _ _ i)
asked-ends id c st leaving b out h = inr (refl, eq→≡ b id (ground (arith, h)))
asked-ends id c st (requested req) b out h = ground (arith, h)
asked-ends id c st (streaming j a) b out h = ground (arith, h)
asked-ends id c st (cancelling j a) b out h = cc
asked-ends id c st _ b out h = cc

moves-Ends :
    (id : Str) (c : Codec) (i : ℕ) (rd : Read) (d : Process)
    → any_ends id (move_commands c (moves i rd) d) ≡ true
    → Ends id d (moves i rd)
unfolding any_ends move_commands
moves-Ends id c i rd d h = elim (Option-cases (get_elem? d.conns i)) [
  | inl e ↦ absurd (ground (arith, e, h))
  | inr (g, e) ↦
      (let h' : any_ends id (asked c d.server.broker g) ≡ true = ground (arith, e, h) in
        elim (asked-ends id c d.server.broker g.stage g.bound g.out h') [
          | inl (req, at, m, j) ↦ by_request req e at m j
          | inr (at, b) ↦ by_owner e at b
        ])
]

commands-Ends :
    (id : Str) (c : Codec) (s : Move) (d : Process)
    → can_move s d ≡ true
    → any_ends id (move_commands c s d) ≡ true
    → Ends id d s
unfolding any_ends move_commands can_move
commands-Ends id c (others ticks) d ok h = by_cleanup
commands-Ends id c (moves i rd) d ok h = moves-Ends id c i rd d h
commands-Ends id c _ d ok h = cc

-- A session that is in the broker before a move of the daemon and not after it was ended by a cleanup,
-- by a request to unregister it, or at the end of the connection that has bound it. No other
-- connection ends it, whatever requests it makes under its name.
pub move-Ends :
    (id : Str) (c : Codec) (w : World) (s : Move) (d : Process)
    → can_move s d ≡ true
    → has id d.server.broker ≡ true
    → has id (move c w s d).server.broker ≡ false
    → Ends id d s
move-Ends id c w s d ok h gone = elim (Bool-cases (any_ends id (move_commands c s d))) [
  | inl e ↦ commands-Ends id c s d ok e
  | inr k ↦ absurd (
      cc (
        gone,
        ap (has id) (move-run c w s d),
        run-has id w (move_commands c s d) d.server.broker k h,
      ))
]
