-- ===== src/Daemon/Ending.antt =====
-- How many turns a goroutine takes to its end, once its connection is over.
use claude_bridge.Base.{
  ℕ, ◌≤◌, ◌<◌, ◌≡◌, refl, ◌⊎◌, inr, Bool, true, false, not, Option, none, some, List, [], ◌∷◌,
  arith, length,
}
use claude_bridge.Text.{Str, ◌==◌}
use claude_bridge.Broker.Clock.{World}
use claude_bridge.Rpc.Frame.{FrameError, Writer}
use claude_bridge.Rpc.Request.{Request, Codec, RpcError, method_subscribe}
use claude_bridge.Rpc.Server.{Server}
use claude_bridge.Daemon.Goroutine.{
  Goroutine, Stage, accepted, reading, requested, touched, registering, answering, streaming,
  cancelling, leaving, closing, hooking, returned, fails, next_stage, respond_to, after_register,
  turn, turn_at,
}

-- Whether a request opens a subscription.
abbrev pub subscribes : Request → Bool
subscribes req = req.method == method_subscribe

-- Where a goroutine neither is in the loop of a subscription nor is about to enter it.
abbrev pub is_apart : Stage → Bool
is_apart (requested req) = not (subscribes req)
is_apart (touched req) = not (subscribes req)
is_apart (streaming id a) = false
is_apart _ = true

-- The turns that are left of such a goroutine when every read of its connection fails.
abbrev pub turns_left : Stage → ℕ
turns_left accepted = 5
turns_left reading = 4
turns_left (requested req) = 7
turns_left (touched req) = 6
turns_left (registering r) = 5
turns_left (answering r) = 5
turns_left (streaming id a) = 5
turns_left (cancelling id a) = 4
turns_left leaving = 3
turns_left closing = 2
turns_left hooking = 1
turns_left returned = 0

-- The turns of a goroutine, each at the state in which the others have left the server.
pub drive : Codec → World → List Server → Goroutine → Goroutine
drive c w [] g = g
drive c w (sv ∷ svs) g = drive c w svs (turn c w fails sv g).1

after_register-is_apart :
    (c : Codec) (r : RpcError ⊎ Str) (g : Goroutine) (p : Writer × Option FrameError)
    → let s = (after_register c r g p).stage in (is_apart s ≡ true) × (turns_left s ≤ 4)
unfolding after_register
after_register-is_apart c r g (out, none) = (refl, omega arith)
after_register-is_apart c r g (out, some e) = (refl, omega arith)

next_stage-is_apart :
    (o : Option FrameError) → (is_apart (next_stage o) ≡ true) × (turns_left (next_stage o) ≤ 4)
next_stage-is_apart none = (refl, omega arith)
next_stage-is_apart (some e) = (refl, omega arith)

turn_at-is_apart :
    (c : Codec) (w : World) (sv : Server) (s : Stage) (b : Str) (out : Writer)
    → is_apart s ≡ true
    → let s' = (turn_at c w fails s sv (record { stage = s; bound = b; out = out })).1.stage in
      (is_apart s' ≡ true) × ((s' ≡ returned) ⊎ (turns_left s' < turns_left s))
unfolding turn_at
turn_at-is_apart c w sv accepted b out h = ground arith
turn_at-is_apart c w sv reading b out h = ground arith
turn_at-is_apart c w sv (requested req) b out h = ground arith
turn_at-is_apart c w sv (touched req) b out h = ground arith
turn_at-is_apart c w sv (registering r) b out h =
    let g : Goroutine = record { stage = registering r; bound = b; out = out } in
    let (apart, few) = after_register-is_apart c r g (respond_to c g r) in
    (apart, inr (omega (arith, few)))
turn_at-is_apart c w sv (answering r) b out h =
    let g : Goroutine = record { stage = answering r; bound = b; out = out } in
    let (apart, few) = next_stage-is_apart (respond_to c g r).1 in (apart, inr (omega (arith, few)))
turn_at-is_apart c w sv (cancelling id a) b out h = ground arith
turn_at-is_apart c w sv leaving b out h = ground arith
turn_at-is_apart c w sv closing b out h = ground arith
turn_at-is_apart c w sv hooking b out h = ground arith
turn_at-is_apart c w sv returned b out h = ground arith
turn_at-is_apart c w sv (streaming id a) b out h = cc

none_left-returned : (s : Stage) → turns_left s ≡ 0 → s ≡ returned
none_left-returned returned k = refl
none_left-returned accepted k = absurd (omega (arith, k))
none_left-returned reading k = absurd (omega (arith, k))
none_left-returned (requested req) k = absurd (omega (arith, k))
none_left-returned (touched req) k = absurd (omega (arith, k))
none_left-returned (registering r) k = absurd (omega (arith, k))
none_left-returned (answering r) k = absurd (omega (arith, k))
none_left-returned (streaming id a) k = absurd (omega (arith, k))
none_left-returned (cancelling id a) k = absurd (omega (arith, k))
none_left-returned leaving k = absurd (omega (arith, k))
none_left-returned closing k = absurd (omega (arith, k))
none_left-returned hooking k = absurd (omega (arith, k))

-- Once every read of a connection fails, its goroutine returns after at most seven more turns of its
-- own, whatever the other goroutines and the broker do between them: from before its first read, with
-- a request at hand, with its answer, or on the way out. The condition is that it neither serves a
-- subscription nor is about to: the loop of a subscription does not read, and ends only when the
-- channel is closed or a write fails.
pub drive-returned :
    (c : Codec) (w : World) (svs : List Server) (g : Goroutine)
    → is_apart g.stage ≡ true
    → turns_left g.stage ≤ length svs
    → (drive c w svs g).stage ≡ returned
unfolding drive turn
drive-returned c w [] g h k = none_left-returned g.stage (omega arith)
drive-returned c w (sv ∷ svs) g h k =
    let (apart, closer) = turn_at-is_apart c w sv g.stage g.bound g.out h in
    drive-returned c w svs (turn c w fails sv g).1 apart (ground (arith, closer, k))
