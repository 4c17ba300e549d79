-- ===== src/Daemon/Counting.antt =====
-- What the turns of the goroutines do to the count of connections and to the hook.
use claude_bridge.Base.{
  ℕ, zero, suc, ◌+◌, ◌<◌, ◌≤◌, ◌≡◌, refl, ◌⊎◌, inl, inr, true, false, some, List, [], ◌∷◌, ◌++◌,
  arith, get_elem?,
}
use claude_bridge.Text.{Str}
use claude_bridge.Broker.Clock.{World}
use claude_bridge.Broker.State.{State}
use claude_bridge.Broker.Liveness.{set}
use claude_bridge.Rpc.Frame.{Writer}
use claude_bridge.Rpc.Request.{Request, Codec, RpcError}
use claude_bridge.Rpc.Server.{Server}
use claude_bridge.Daemon.Goroutine.{
  Goroutine, Stage, accepted, reading, requested, touched, registering, answering, streaming,
  cancelling, leaving, closing, hooking, returned, Read, read_turn, request_turn, register_turn,
  answer_turn, stream_turn, turn_at, turn,
}

-- The goroutine has begun, and its connection still counts.
abbrev pub counts : Stage → ℕ
counts accepted = 0
counts hooking = 0
counts returned = 0
counts _ = 1

-- It is about to call the hook.
abbrev pub hooks : Stage → ℕ
hooks hooking = 1
hooks _ = 0

-- Its connection counts no longer.
abbrev pub ends : Stage → ℕ
ends hooking = 1
ends returned = 1
ends _ = 0

abbrev pub at : (Stage → ℕ) → Goroutine → ℕ
at w g = w g.stage

unfoldable pub total : (Goroutine → ℕ) → List Goroutine → ℕ
total w [] = 0
total w (g ∷ gs) = w g + total w gs

pub total-set :
    (w : Goroutine → ℕ) (gs : List Goroutine) (i : ℕ) (g h : Goroutine)
    → get_elem? gs i ≡ some g
    → total w (set gs i h) + w g ≡ total w gs + w h
unfolding total
total-set w [] i g h e = cc
total-set w (x ∷ gs) zero g h e = ground (arith, e)
total-set w (x ∷ gs) (suc i) g h e = omega (arith, total-set w gs i g h e)

pub total-append :
    (w : Goroutine → ℕ) (gs : List Goroutine) (g : Goroutine)
    → total w (gs ++ g ∷ []) ≡ total w gs + w g
unfolding total
total-append w [] g = omega arith
total-append w (x ∷ gs) g = omega (arith, total-append w gs g)

pub total-le :
    (w : Goroutine → ℕ) (gs : List Goroutine) (i : ℕ) {g : Goroutine}
    → get_elem? gs i ≡ some g
    → w g ≤ total w gs
unfolding total
total-le w [] i e = cc
total-le w (x ∷ gs) zero e = ground (arith, e)
total-le w (x ∷ gs) (suc i) e = omega (arith, total-le w gs i e)

-- What a turn does to the server's count and hook.
pub record IsTurned (sv sv' : Server) (s s' : Stage) : Type 0 where
  pub count : sv'.active + counts s ≡ sv.active + counts s'
  pub hook : sv'.has_hook ≡ sv.has_hook
  pub fired :
      ((hooks s ≡ 1) × (sv.has_hook ≡ true) × (sv'.fired ≡ sv.fired + 1))
      ⊎ (((hooks s ≡ 0) ⊎ (sv.has_hook ≡ false)) × (sv'.fired ≡ sv.fired))
  pub ended :
      ((ends s' ≡ ends s) × (counts s ≤ counts s'))
      ⊎ (hooks s' ≡ 1)
      ⊎ ((ends s' ≡ 1) × (0 < sv'.active))
  pub called : (hooks s ≡ 0) ⊎ (s' ≡ returned)

-- A turn in the middle of a connection.
record IsQuiet (sv sv' : Server) (s' : Stage) : Type 0 where
  pub active : sv'.active ≡ sv.active
  pub hook : sv'.has_hook ≡ sv.has_hook
  pub fired : sv'.fired ≡ sv.fired
  pub counted : counts s' ≡ 1
  pub unhooked : hooks s' ≡ 0
  pub going : ends s' ≡ 0

quiet-IsTurned :
    (sv sv' : Server) (s s' : Stage)
    → counts s ≡ 1
    → hooks s ≡ 0
    → ends s ≡ 0
    → IsQuiet sv sv' s'
    → IsTurned sv sv' s s'
quiet-IsTurned sv sv' s s' p q r k = record {
  count = omega (arith, p, k.active, k.counted);
  hook = k.hook;
  fired = inr (inl q, k.fired);
  ended = inl (omega (arith, r, k.going), omega (arith, p, k.counted));
  called = inl q;
}

request_turn-IsQuiet :
    (c : Codec) (w : World) (req : Request) (sv : Server) (g : Goroutine)
    → IsQuiet sv (request_turn c w req sv g).0 (request_turn c w req sv g).1.stage
unfolding request_turn
request_turn-IsQuiet c w req sv g = record {
  active = ground arith;
  hook = ground arith;
  fired = ground arith;
  counted = ground arith;
  unhooked = ground arith;
  going = ground arith;
}

stream_turn-IsQuiet :
    (c : Codec) (w : World) (id : Str) (a : ℕ) (sv : Server) (g : Goroutine)
    → g.stage ≡ streaming id a
    → IsQuiet sv (stream_turn c w id a sv g).0 (stream_turn c w id a sv g).1.stage
unfolding stream_turn
stream_turn-IsQuiet c w id a sv g e = record {
  active = ground arith;
  hook = ground arith;
  fired = ground arith;
  counted = ground arith;
  unhooked = ground arith;
  going = ground arith;
}

register_turn-IsQuiet :
    (c : Codec) (r : RpcError ⊎ Str) (sv : Server) (g : Goroutine)
    → IsQuiet sv sv (register_turn c r g).stage
unfolding register_turn
register_turn-IsQuiet c r sv g = record {
  active = refl;
  hook = refl;
  fired = refl;
  counted = ground arith;
  unhooked = ground arith;
  going = ground arith;
}

answer_turn-IsQuiet :
    (c : Codec) (r : RpcError ⊎ Str) (sv : Server) (g : Goroutine)
    → IsQuiet sv sv (answer_turn c r g).stage
unfolding answer_turn
answer_turn-IsQuiet c r sv g = record {
  active = refl;
  hook = refl;
  fired = refl;
  counted = ground arith;
  unhooked = ground arith;
  going = ground arith;
}

read_turn-IsQuiet :
    (c : Codec) (rd : Read) (sv : Server) (g : Goroutine)
    → g.stage ≡ reading
    → IsQuiet sv sv (read_turn c rd g).stage
unfolding read_turn
read_turn-IsQuiet c rd sv g e = record {
  active = refl;
  hook = refl;
  fired = refl;
  counted = ground arith;
  unhooked = ground arith;
  going = ground arith;
}

passing :
    {sv : Server} {st : State} {s' : Stage}
    → counts s' ≡ 1
    → hooks s' ≡ 0
    → ends s' ≡ 0
    → IsQuiet sv (record sv { broker = st }) s'
passing p q r = record {
  active = refl;
  hook = refl;
  fired = refl;
  counted = p;
  unhooked = q;
  going = r;
}

turn_at-IsTurned :
    (c : Codec) (w : World) (rd : Read) (s : Stage) (b : Str) (out : Writer) (sv : Server)
    → counts s ≤ sv.active
    → let r = turn_at c w rd s sv (record { stage = s; bound = b; out = out }) in
      IsTurned sv r.0 s r.1.stage
unfolding turn_at
turn_at-IsTurned c w rd accepted b out sv h = record {
  count = ground arith;
  hook = refl;
  fired = ground arith;
  ended = ground arith;
  called = ground arith;
}
turn_at-IsTurned c w rd closing b out sv h = record {
  count = ground arith;
  hook = refl;
  fired = ground arith;
  ended = ground arith;
  called = ground arith;
}
turn_at-IsTurned c w rd hooking b out sv h = record {
  count = ground arith;
  hook = refl;
  fired = ground arith;
  ended = ground arith;
  called = ground arith;
}
turn_at-IsTurned c w rd returned b out sv h = record {
  count = refl;
  hook = refl;
  fired = inr (inl refl, refl);
  ended = inl (refl, omega arith);
  called = inl refl;
}
turn_at-IsTurned c w rd reading b out sv h =
    quiet-IsTurned sv sv reading _ refl refl refl
      (read_turn-IsQuiet c rd sv (record { stage = reading; bound = b; out = out }) refl)
turn_at-IsTurned c w rd (touched req) b out sv h =
    quiet-IsTurned sv _ (touched req) _ refl refl refl
      (request_turn-IsQuiet c w req sv (record { stage = touched req; bound = b; out = out }))
turn_at-IsTurned c w rd (streaming id a) b out sv h =
    quiet-IsTurned sv _ (streaming id a) _ refl refl refl (
      stream_turn-IsQuiet c w id a sv (record { stage = streaming id a; bound = b; out = out })
        refl)
turn_at-IsTurned c w rd (registering r) b out sv h =
    quiet-IsTurned sv sv (registering r) _ refl refl refl
      (register_turn-IsQuiet c r sv (record { stage = registering r; bound = b; out = out }))
turn_at-IsTurned c w rd (answering r) b out sv h =
    quiet-IsTurned sv sv (answering r) _ refl refl refl
      (answer_turn-IsQuiet c r sv (record { stage = answering r; bound = b; out = out }))
turn_at-IsTurned c w rd (requested req) b out sv h =
    quiet-IsTurned sv _ (requested req) (touched req) refl refl refl (passing refl refl refl)
turn_at-IsTurned c w rd (cancelling id a) b out sv h =
    quiet-IsTurned sv _ (cancelling id a) leaving refl refl refl (passing refl refl refl)
turn_at-IsTurned c w rd leaving b out sv h =
    quiet-IsTurned sv _ leaving closing refl refl refl (passing refl refl refl)

pub turn-IsTurned :
    (c : Codec) (w : World) (rd : Read) (sv : Server) (g : Goroutine)
    → counts g.stage ≤ sv.active
    → IsTurned sv (turn c w rd sv g).0 g.stage (turn c w rd sv g).1.stage
unfolding turn
turn-IsTurned c w rd sv g h = turn_at-IsTurned c w rd g.stage g.bound g.out sv h
