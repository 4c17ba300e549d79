-- ===== src/Broker/Pusher/Stopping.antt =====
-- The bounds of a pusher's channels, and how it ends.
use claude_bridge.Base.{
  ℕ, suc, ◌≤◌, ◌≡◌, refl, ap, inl, inr, Bool, false, Option, none, some, List, [], ◌∷◌, ◌++◌, arith,
  ltb, length, length-append, Bool-cases,
}
use claude_bridge.Broker.Config.{Resolved}
use claude_bridge.Broker.Message.{Event}
use claude_bridge.Broker.Pusher.{
  Phase, selecting, forwarding, closed, Pusher, Turn, take_stop, take_mail, send, give_up,
  new_pusher, enqueue, stop_push, run_turn, receive, sub_chan_buffer,
}
use claude_bridge.Broker.Pusher.Delivery.{History, created, offered, stopped, turned, received}

pub record IsBounded (cfg : Resolved) (p : Pusher) : Type 0 where
  pub cap : p.mailbox_cap ≡ cfg.max_inbox_size
  pub mail : length p.mailbox ≤ cfg.max_inbox_size
  pub out : length p.out ≤ sub_chan_buffer

turn-IsBounded :
    (cfg : Resolved) (t : Turn) (p q : Pusher)
    → run_turn t p ≡ some q
    → IsBounded cfg p
    → IsBounded cfg q
unfolding run_turn
turn-IsBounded cfg take_stop p q e b = ground arith
turn-IsBounded cfg take_mail p q e b = ground arith
turn-IsBounded cfg send p q e b = grind (arith, length-append)
turn-IsBounded cfg give_up p q e b = ground arith

enqueue-IsBounded :
    (cfg : Resolved) (p : Pusher) (ev : Event) → IsBounded cfg p → IsBounded cfg (enqueue p ev)
unfolding enqueue
enqueue-IsBounded cfg p ev b = ground (arith, length-append p.mailbox (ev ∷ []))

stop_push-IsBounded : (cfg : Resolved) (p : Pusher) → IsBounded cfg p → IsBounded cfg (stop_push p)
unfolding stop_push
stop_push-IsBounded cfg p b = record { cap = b.cap; mail = b.mail; out = b.out }

receive-IsBounded :
    (cfg : Resolved) (p : Pusher) (ev : Event) (rest : List Event)
    → p.out ≡ ev ∷ rest
    → IsBounded cfg p
    → IsBounded cfg (receive p rest)
unfolding receive
receive-IsBounded cfg p ev rest e b =
    let shorter : length p.out ≡ suc (length rest) = ap length e in
    record { cap = b.cap; mail = b.mail; out = omega (arith, b.out, shorter) }

-- Turns one after another.
pub run_turns : List Turn → Pusher → Option Pusher
run_turns [] p = some p
run_turns (t ∷ ts) p = elim (run_turn t p) [ none ↦ none | some q ↦ run_turns ts q ]

abbrev pub Closes : Pusher → Type 0
Closes p =
    (ts : List Turn) × (q : Pusher) × (length ts ≤ 2)
    × (run_turns ts (stop_push p) ≡ some q)
    × (q.phase ≡ closed)

phase-Closes :
    (ph : Phase) (box out : List Event) (limit : ℕ) (st : Bool)
    → Closes (record { mailbox = box; mailbox_cap = limit; out = out; stop = st; phase = ph })
unfolding run_turns run_turn stop_push
phase-Closes selecting box out limit st = (take_stop ∷ [], _, omega arith, refl, refl)
phase-Closes (forwarding ev) box out limit st =
    elim (Bool-cases (ltb (length out) sub_chan_buffer)) [
      | inl room ↦ (
        send ∷ take_stop ∷ [],
        record {
          mailbox = box;
          mailbox_cap = limit;
          out = out ++ ev ∷ [];
          stop = false;
          phase = closed;
        },
        omega arith,
        rw (room, run_turns) refl,
        refl,
      )
      | inr full ↦ (
        give_up ∷ take_stop ∷ [],
        record { mailbox = box; mailbox_cap = limit; out = out; stop = false; phase = closed },
        omega arith,
        ground arith,
        refl,
      )
    ]
phase-Closes closed box out limit st = ([], _, omega arith, refl, refl)

-- Told to stop, the goroutine can close its channel within two turns, wherever it stands.
pub stop_push-Closes : (p : Pusher) → Closes p
stop_push-Closes p = phase-Closes p.phase p.mailbox p.out p.mailbox_cap p.stop

-- In every history the mailbox and the event channel keep within their buffers.
pub History-IsBounded :
    {cfg : Resolved} {p : Pusher} {offers gets : List Event}
    → History cfg p offers gets
    → IsBounded cfg p
History-IsBounded created = unfold new_pusher in omega arith
History-IsBounded {cfg} (offered {p} ev h) = enqueue-IsBounded cfg p ev (History-IsBounded h)
History-IsBounded {cfg} (stopped {p} h) = stop_push-IsBounded cfg p (History-IsBounded h)
History-IsBounded {cfg} (turned {p} {q} t h e) = turn-IsBounded cfg t p q e (History-IsBounded h)
History-IsBounded {cfg} (received {p} ev rest h e) =
    receive-IsBounded cfg p ev rest e (History-IsBounded h)
