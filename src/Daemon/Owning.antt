-- ===== src/Daemon/Owning.antt =====
-- Which connection a session belongs to.
pub mod Exclusive
use claude_bridge.Base.{
  ℕ, zero, suc, ◌+◌, ◌<◌, ◌≤◌, ◌≡◌, ◌≢◌, refl, sym, ap, ◌∙◌, ◌⊎◌, inl, inr, Bool, true, false,
  Option, none, some, List, [], ◌∷◌, ◌++◌, arith, ltb, nat_eq, get_elem?, Bool-cases, Option-cases,
  if◌then◌else◌,
}
use claude_bridge.Text.{Str, nonempty, ◌==◌, eq_iff, eq→≡}
use claude_bridge.Broker.Clock.{World, new_id}
use claude_bridge.Broker.Session.{Session}
use claude_bridge.Broker.State.{State, notify_peers}
use claude_bridge.Broker.Sessions.{register_session}
use claude_bridge.Rpc.Frame.{Writer, FrameError}
use claude_bridge.Rpc.Request.{
  Request, Codec, RpcError, Reply, registered, marshal_result, unmarshal_params, do_register,
  method_subscribe, method_register,
}
use claude_bridge.Rpc.Server.{Server}
use claude_bridge.Daemon.Goroutine.{
  Goroutine, Stage, accepted, reading, requested, touched, registering, answering, streaming,
  cancelling, leaving, closing, hooking, returned, Read, read_turn, request_turn, bound_by,
  after_register, register_turn, answer_turn, stream_turn, turn_at, turn,
}

-- What the identifiers have to be: none comes twice, and none is empty. The codec reads a registration
-- back from its result.
pub record IsDistinct (w : World) (c : Codec) : Type 0 where
  pub apart : (m n : ℕ) → new_id w m ≡ new_id w n → m ≡ n
  pub named : (n : ℕ) → nonempty (new_id w n) ≡ true
  pub read_back :
      (s : Session) (raw : Str) → c.marshal (registered s) ≡ some raw → c.session_id raw ≡ s.id

abbrev pub holds : Str → Str → ℕ
holds s b = if b == s then 1 else 0

abbrev pub reads_result : Codec → Str → RpcError ⊎ Str → ℕ
reads_result c s (inl e) = 0
reads_result c s (inr raw) = if c.session_id raw == s then 1 else 0

abbrev pub reads : Codec → Str → Stage → ℕ
reads c s (registering r) = reads_result c s r
reads c s _ = 0

-- How often a goroutine has bound the identifier, or is about to.
unfoldable pub claims : Codec → Str → Goroutine → ℕ
claims c s g = holds s g.bound + reads c s g.stage

module _ (c : Codec) (w : World) (ids : IsDistinct w c) where
  -- The result of a registration reads as the identifier that was given out for it.
  result-reads :
      (n k : ℕ) (s : Session)
      → s.id ≡ new_id w k
      → (reads_result c (new_id w n) (marshal_result c (registered s)) ≡ 0)
        ⊎ ((n ≡ k) × (reads_result c (new_id w n) (marshal_result c (registered s)) ≤ 1))
  unfolding marshal_result
  result-reads n k s same = elim (Option-cases (c.marshal (registered s))) [
    | inl e ↦ rw (e, marshal_result) (inl refl)
    | inr (raw, e) ↦
        (let read = ids.read_back s raw e ∙ same in
          elim (Bool-cases (nat_eq n k)) [
            | inl t ↦ inr (ground arith, ground arith)
            | inr f ↦
                rw (e, marshal_result)
                  (inl
                    (ground (arith, read, eq_iff (c.session_id raw) (new_id w n), ids.apart k n)))
          ])
  ]

  do_register-reads :
      (n : ℕ) (params : Str) (st : State)
      → (reads_result c (new_id w n) (do_register c w params st).1 ≡ 0)
        ⊎ ((n ≡ st.ids)
            × ((do_register c w params st).0.ids ≡ st.ids + 1)
            × (reads_result c (new_id w n) (do_register c w params st).1 ≤ 1))
  unfolding do_register register_session notify_peers
  do_register-reads n params st =
      elim (Option-cases
        (unmarshal_params c.register_params (record { project_path = [] }) params)) [
          | inl e ↦ rw (e, do_register) (inl refl)
          | inr (p, e) ↦
              rw (e, do_register)
                (elim (result-reads n st.ids (register_session w p.project_path st).1 refl) [
                  | inl z ↦ inl z
                  | inr (m, l) ↦ inr (m, refl, l)
                ])
        ]

  after_register-claims :
      (s : Str) (r : RpcError ⊎ Str) (b : Str) (old : Writer) (o : Writer × Option FrameError)
      → let g : Goroutine = record { stage = registering r; bound = b; out = old } in
        claims c s (after_register c r g o) ≤ claims c s g
  unfolding claims after_register bound_by
  after_register-claims s (inl e) b old (out, none) = ground arith
  after_register-claims s (inr raw) b old (out, none) = ground arith
  after_register-claims s (inl e) b old (out, some err) = ground arith
  after_register-claims s (inr raw) b old (out, some err) = ground arith

  -- What a turn does to the claims on the identifier `n`: none is added, or it has just been given out.
  pub record IsClaimed (n : ℕ) (sv sv' : Server) (g g' : Goroutine) : Type 0 where
    pub change :
        (claims c (new_id w n) g' ≤ claims c (new_id w n) g)
        ⊎ ((n ≡ sv.broker.ids)
            × (sv'.broker.ids ≡ sv.broker.ids + 1)
            × (claims c (new_id w n) g' ≤ claims c (new_id w n) g + 1))

  request_turn-IsClaimed :
      (n : ℕ) (req : Request) (sv : Server) (b : Str) (out : Writer)
      → let g : Goroutine = record { stage = touched req; bound = b; out = out } in
        IsClaimed n sv (request_turn c w req sv g).0 g (request_turn c w req sv g).1
  unfolding request_turn claims
  request_turn-IsClaimed n req sv b out = elim (Bool-cases (req.method == method_subscribe)) [
    | inl s ↦ record { change = rw (s, request_turn) (inl (omega arith)) }
    | inr s ↦ elim (Bool-cases (req.method == method_register)) [
      | inl r ↦ record {
        change =
            rw (s, r, request_turn)
              (elim (do_register-reads n req.params sv.broker) [
                | inl z ↦ inl (omega (arith, z))
                | inr (m, up, l) ↦ inr (m, up, omega (arith, l))
              ]);
      }
      | inr r ↦ record { change = rw (s, r, request_turn) (inl (omega arith)) }
    ]
  ]

  stream_turn-claims :
      (s : Str) (id : Str) (a : ℕ) (sv : Server) (b : Str) (out : Writer)
      → let g : Goroutine = record { stage = streaming id a; bound = b; out = out } in
        claims c s (stream_turn c w id a sv g).1 ≤ claims c s g
  unfolding stream_turn claims
  stream_turn-claims s id a sv b out = ground arith

  turn_at-IsClaimed :
      (n : ℕ) (rd : Read) (s : Stage) (b : Str) (out : Writer) (sv : Server)
      → let g : Goroutine = record { stage = s; bound = b; out = out } in
        IsClaimed n sv (turn_at c w rd s sv g).0 g (turn_at c w rd s sv g).1
  unfolding turn_at claims read_turn answer_turn register_turn
  turn_at-IsClaimed n rd (touched req) b out sv = request_turn-IsClaimed n req sv b out
  turn_at-IsClaimed n rd (streaming id a) b out sv = record {
    change = inl (stream_turn-claims (new_id w n) id a sv b out);
  }
  turn_at-IsClaimed n rd (registering r) b out sv = record {
    change = inl (after_register-claims (new_id w n) r b out _);
  }
  turn_at-IsClaimed n rd reading b out sv = record { change = inl (ground arith) }
  turn_at-IsClaimed n rd (answering r) b out sv = record { change = inl (ground arith) }
  turn_at-IsClaimed n rd accepted b out sv = record { change = inl (omega arith) }
  turn_at-IsClaimed n rd (requested req) b out sv = record { change = inl (omega arith) }
  turn_at-IsClaimed n rd (cancelling id a) b out sv = record { change = inl (omega arith) }
  turn_at-IsClaimed n rd leaving b out sv = record { change = inl (omega arith) }
  turn_at-IsClaimed n rd closing b out sv = record { change = inl (ground arith) }
  turn_at-IsClaimed n rd hooking b out sv = record { change = inl (omega arith) }
  turn_at-IsClaimed n rd returned b out sv = record { change = inl (omega arith) }

  pub turn-IsClaimed :
      (n : ℕ) (rd : Read) (sv : Server) (g : Goroutine)
      → IsClaimed n sv (turn c w rd sv g).0 g (turn c w rd sv g).1
  unfolding turn
  turn-IsClaimed n rd sv g = turn_at-IsClaimed n rd g.stage g.bound g.out sv
