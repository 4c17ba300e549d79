-- ===== src/Daemon/Owning/Exclusive.antt =====
-- No session has two connections.
use mathlib.Core.Option.{some-injective}
use claude_bridge.Base.{
  ℕ, zero, suc, ◌+◌, ◌≤◌, ◌≡◌, ◌≢◌, refl, ap, inl, inr, some, List, [], ◌∷◌, arith, ltb, nat_eq,
  get_elem?, Bool-cases, Option-cases, if◌then◌else◌,
}
use claude_bridge.Text.{eq_iff}
use claude_bridge.Broker.Clock.{World, new_id}
use claude_bridge.Broker.State.{State}
use claude_bridge.Broker.RunLoop.{Command, exec, run}
use claude_bridge.Broker.RunLoop.Ids.{exec-ids-le}
use claude_bridge.Config.{Config}
use claude_bridge.Rpc.Frame.{Writer}
use claude_bridge.Rpc.Request.{Codec}
use claude_bridge.Rpc.Server.{Server}
use claude_bridge.Daemon.Goroutine.{Goroutine, accepted, Read, turn}
use claude_bridge.Daemon.System.{
  Process, started, after_turn, move_goroutine, Move, accepts, moves, others, goes_off, checks,
  signal, shuts, returns, move, Reached, starts, later,
}
use claude_bridge.Daemon.History.{asked, turn-run, move_commands, move-run}
use claude_bridge.Daemon.Counting.{total, total-set, total-append, total-le}
use claude_bridge.Daemon.Owning.{IsDistinct, claims, IsClaimed, turn-IsClaimed}

run-ids-le : (w : World) (cs : List Command) (st : State) → st.ids ≤ (run w cs st).ids
unfolding run
run-ids-le w [] st = omega arith
run-ids-le w (c ∷ cs) st = omega (arith, exec-ids-le w c st, run-ids-le w cs (exec w c st))

turn-ids-le :
    (c : Codec) (w : World) (rd : Read) (sv : Server) (g : Goroutine)
    → sv.broker.ids ≤ (turn c w rd sv g).0.broker.ids
turn-ids-le c w rd sv g = omega (
  arith,
  ap (λ (st : State). st.ids) (turn-run c w rd sv g),
  run-ids-le w (asked c sv.broker g) sv.broker,
)

move-ids-le :
    (c : Codec) (w : World) (s : Move) (d : Process)
    → d.server.broker.ids ≤ (move c w s d).server.broker.ids
move-ids-le c w s d = omega (
  arith,
  ap (λ (st : State). st.ids) (move-run c w s d),
  run-ids-le w (move_commands c s d) d.server.broker,
)

total-two :
    (f : Goroutine → ℕ) (gs : List Goroutine) (i j : ℕ) (g h : Goroutine)
    → get_elem? gs i ≡ some g
    → get_elem? gs j ≡ some h
    → i ≢ j
    → f g + f h ≤ total f gs
unfolding total
total-two f [] i j g h p q ne = cc
total-two f (x ∷ gs) zero zero g h p q ne = absurd (ne refl)
total-two f (x ∷ gs) zero (suc j) g h p q ne =
    omega (arith, ap f (some-injective x g p), total-le f gs j q)
total-two f (x ∷ gs) (suc i) zero g h p q ne =
    omega (arith, ap f (some-injective x h q), total-le f gs i p)
total-two f (x ∷ gs) (suc i) (suc j) g h p q ne =
    omega (arith, total-two f gs i j g h p q (λ e. ne (ap suc e)))

module _ (c : Codec) (w : World) (ids : IsDistinct w c) where
  -- The invariant: an identifier is claimed once at most, and not before it is given out.
  abbrev IsOwned : Process → Type 0
  IsOwned d =
      (n : ℕ) → total (claims c (new_id w n)) d.conns ≤ (if ltb n d.server.broker.ids then 1 else 0)

  moves-IsOwned : (i : ℕ) (rd : Read) (d : Process) → IsOwned d → IsOwned (move c w (moves i rd) d)
  unfolding move
  moves-IsOwned i rd d h n = elim (Option-cases (get_elem? d.conns i)) [
    | inl e ↦ rw (e, move, move_goroutine) (h n)
    | inr (g, e) ↦
        (let (sv, g') = turn c w rd d.server g in
          let up : d.server.broker.ids ≤ sv.broker.ids = turn-ids-le c w rd d.server g in
          let r : IsClaimed c w ids n d.server sv g g' = turn-IsClaimed c w ids n rd d.server g in
          rw (e, move, move_goroutine, after_turn)
            (ground (arith, h n, up, r.change, total-set (claims c (new_id w n)) d.conns i g g' e)))
  ]

  accepts-IsOwned : (out : Writer) (d : Process) → IsOwned d → IsOwned (move c w (accepts out) d)
  unfolding move claims
  accepts-IsOwned out d h n =
      let g : Goroutine = record { stage = accepted; bound = []; out = out } in
      let free : claims c (new_id w n) g ≡ 0 =
        ground (arith, eq_iff [] (new_id w n), ids.named n) in
      omega (arith, h n, free, total-append (claims c (new_id w n)) d.conns g)

  -- A move that leaves the goroutines alone.
  others-IsOwned :
      (s : Move) (d : Process) → (move c w s d).conns ≡ d.conns → IsOwned d → IsOwned (move c w s d)
  others-IsOwned s d same h n = rw same (ground (arith, h n, move-ids-le c w s d))

  move-IsOwned : (s : Move) (d : Process) → IsOwned d → IsOwned (move c w s d)
  unfolding move
  move-IsOwned (accepts out) d h = accepts-IsOwned out d h
  move-IsOwned (moves i rd) d h = moves-IsOwned i rd d h
  move-IsOwned (others cmd) d h = others-IsOwned (others cmd) d refl h
  move-IsOwned goes_off d h = others-IsOwned goes_off d refl h
  move-IsOwned checks d h = others-IsOwned checks d (ground arith) h
  move-IsOwned signal d h = others-IsOwned signal d refl h
  move-IsOwned shuts d h = others-IsOwned shuts d refl h
  move-IsOwned returns d h = others-IsOwned returns d refl h

  Reached-IsOwned : {cfg : Config} {d : Process} → Reached c w cfg d → IsOwned d
  unfolding started total
  Reached-IsOwned starts n = ground arith
  Reached-IsOwned (later {d} r s on ok) n = move-IsOwned s d (Reached-IsOwned r) n

-- In every state that the daemon can reach, two connections never have the same session bound. The
-- conditions are that no identifier is given out twice, that none is empty, and that the identifier
-- of a session can be read from the result of its registration.
pub Reached-bound :
    (c : Codec) (w : World) {cfg : Config} {d : Process} {g h : Goroutine} (n i j : ℕ)
    → IsDistinct w c
    → Reached c w cfg d
    → get_elem? d.conns i ≡ some g
    → get_elem? d.conns j ≡ some h
    → g.bound ≡ new_id w n
    → h.bound ≡ new_id w n
    → i ≡ j
unfolding claims
Reached-bound c w {d} {g} {h} n i j ids r p q e f = elim (Bool-cases (nat_eq i j)) [
  | inl t ↦ ground arith
  | inr t ↦
      (let two =
          total-two (claims c (new_id w n)) d.conns i j g h p q (λ same. ground (arith, same, t)) in
        absurd (
          ground (
            arith,
            two,
            Reached-IsOwned c w ids r n,
            eq_iff (g.bound) (new_id w n),
            eq_iff (h.bound) (new_id w n),
          )))
]
