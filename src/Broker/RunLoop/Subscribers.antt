-- ===== src/Broker/RunLoop/Subscribers.antt =====
-- The pushers that are at work are those of the map.
use claude_bridge.Base.{
  ℕ, ◌+◌, ◌≡◌, refl, inl, inr, List, [], ◌∷◌, Bool-cases, Option-cases, nat_eq,
}
use claude_bridge.Text.{Str, ◌==◌}
use claude_bridge.Dict.{Dict, lookup}
use claude_bridge.Broker.Clock.{World}
use claude_bridge.Broker.Config.{Config}
use claude_bridge.Broker.Message.{Message, Event, kind_message}
use claude_bridge.Broker.Pusher.{Pusher, Turn, enqueue, run_turn}
use claude_bridge.Broker.State.{
  SessEntry, State, new, deliver, notify_peers, drop_pusher, remove_session,
}
use claude_bridge.Broker.Messages.{
  route, send, bucket_for, fanout, fanout_one, charge, broadcast, poll,
}
use claude_bridge.Broker.Sessions.{register_session, touch, unregister_session, list_peers}
use claude_bridge.Broker.RunLoop.{
  Command, registers, touches, unregisters, lists_peers, sends, broadcasts, polls, subscribes,
  cancels, ticks, turns, receives, take_turn, take_first, take_event, exec, run, run_induction,
}
use claude_bridge.Broker.Session.{is_stale_at}
use claude_bridge.Broker.Reaping.{reap_sessions, cleanup_tick}
use claude_bridge.Broker.Livelock.{trip}
use claude_bridge.Broker.Subscriptions.{subscribe, cancel}
use claude_bridge.Broker.Liveness.{
  is_live, lives, lives-update, lives-stop, lives-notify, turn-is_live, enqueue-is_live,
  new_pusher-is_live, receive-is_live,
}
use claude_bridge.Broker.Managed.{IsManaged, delete-IsManaged, push-IsManaged, replace-IsManaged}

-- The invariant of the run loop's state.
abbrev pub IsManagedState : State → Type 0
IsManagedState st = IsManaged st.pushers (lives st.heap)

deliver-IsManaged :
    (st : State) (id : Str) (ev : Event) → IsManagedState st → IsManagedState (deliver st id ev)
unfolding deliver
deliver-IsManaged st id ev m = elim (Option-cases (lookup id st.pushers)) [
  | inl e ↦ rw (e, deliver) m
  | inr (a, e) ↦
      rw (e, deliver) (rw (lives-update a (λ p. enqueue p ev) st.heap (enqueue-is_live ev)) m)
]

notify_peers-IsManaged :
    (st : State) (id : Str) (ev : Event)
    → IsManagedState st
    → IsManagedState (notify_peers st id ev)
unfolding notify_peers
notify_peers-IsManaged st id ev m = rw (lives-notify id ev st.pushers st.heap) m

drop_pusher-IsManaged :
    (st : State) (id : Str) → IsManagedState st → IsManagedState (drop_pusher st id)
unfolding drop_pusher
drop_pusher-IsManaged st id m = elim (Option-cases (lookup id st.pushers)) [
  | inl e ↦ rw (e, drop_pusher) m
  | inr (a, e) ↦
      rw (e, drop_pusher)
        (rw (lives-stop a st.heap) (delete-IsManaged st.pushers (lives st.heap) id a e m))
]

subscribe-IsManaged :
    (id : Str) (st : State) → IsManagedState st → IsManagedState (subscribe id st).0
unfolding subscribe
subscribe-IsManaged id st m = elim (Option-cases (lookup id st.pushers)) [
  | inl e ↦
      rw (e, subscribe) (push-IsManaged st.pushers st.heap id _ (new_pusher-is_live st.cfg) e m)
  | inr (a, e) ↦
      rw (e, subscribe)
        (replace-IsManaged st.pushers st.heap id a _ (new_pusher-is_live st.cfg) e m)
]

cancel-IsManaged :
    (id : Str) (a : ℕ) (st : State) → IsManagedState st → IsManagedState (cancel id a st)
unfolding cancel
cancel-IsManaged id a st m = elim (Option-cases (lookup id st.pushers)) [
  | inl e ↦ rw (e, cancel) m
  | inr (b, e) ↦
      rw (e, cancel)
        (elim (Bool-cases (nat_eq b a)) [
          | inl t ↦ rw t (drop_pusher-IsManaged st id m)
          | inr f ↦ rw f m
        ])
]

remove_session-IsManaged :
    (st : State) (id : Str) → IsManagedState st → IsManagedState (remove_session st id)
unfolding remove_session
remove_session-IsManaged st id m = notify_peers-IsManaged _ id _ (drop_pusher-IsManaged _ id m)

reap_sessions-IsManaged :
    (now : ℕ) (entries : Dict SessEntry) (st : State)
    → IsManagedState st
    → IsManagedState (reap_sessions now entries st)
unfolding reap_sessions
reap_sessions-IsManaged now [] st m = m
reap_sessions-IsManaged now ((id, e) ∷ entries) st m =
    reap_sessions-IsManaged now entries _
      (elim (Bool-cases (is_stale_at e.session now st.cfg.session_ttl)) [
        | inl t ↦ rw t (remove_session-IsManaged st id m)
        | inr f ↦ rw f m
      ])

route-IsManaged :
    (w : World) (msg : Message) (st : State) → IsManagedState st → IsManagedState (route w msg st)
unfolding route
route-IsManaged w msg st m = elim (Bool-cases (msg.kind == kind_message)) [
  | inl e ↦ rw e (elim (Bool-cases (trip st.livelock msg (w.clock st.readings)).1) [
    | inl t ↦ rw t m
    | inr f ↦ rw f (deliver-IsManaged _ msg.to _ m)
  ])
  | inr e ↦ rw e (deliver-IsManaged st msg.to _ m)
]

send-IsManaged :
    (w : World) (msg : Message) (st : State) → IsManagedState st → IsManagedState (send w msg st).0
unfolding send
send-IsManaged w msg st m = elim (Option-cases (lookup msg.to st.sessions)) [
  | inl e ↦ rw (e, send) m
  | inr (s, e) ↦ rw (e, send) (route-IsManaged w _ _ m)
]

fanout-IsManaged :
    (w : World) (from content : Str) (entries : Dict SessEntry) (st : State)
    → IsManagedState st
    → IsManagedState (fanout w from content entries st).0
unfolding fanout fanout_one
fanout-IsManaged w from content [] st m = m
fanout-IsManaged w from content ((id, e) ∷ entries) st m = elim (Bool-cases (id == from)) [
  | inl t ↦ rw t (fanout-IsManaged w from content entries st m)
  | inr f ↦ rw f (fanout-IsManaged w from content entries _ (deliver-IsManaged _ id _ m))
]

charge-IsManaged :
    (w : World) (from : Str) (st : State) → IsManagedState st → IsManagedState (charge w from st).0
unfolding charge
charge-IsManaged w from st m = elim (Option-cases (lookup from st.sessions)) [
  | inl e ↦ rw (e, charge, bucket_for) m
  | inr (s, e) ↦ rw (e, charge, bucket_for) m
]

broadcast-IsManaged :
    (w : World) (from content : Str) (st : State)
    → IsManagedState st
    → IsManagedState (broadcast w from content st).0
unfolding broadcast
broadcast-IsManaged w from content st m =
    let m' = charge-IsManaged w from st m in
    elim (Bool-cases (charge w from st).1) [
      | inl t ↦ rw t (fanout-IsManaged w from content _ _ m')
      | inr f ↦ rw f m'
    ]

poll-IsManaged : (id : Str) (st : State) → IsManagedState st → IsManagedState (poll id st).0
unfolding poll
poll-IsManaged id st m = elim (Option-cases (lookup id st.sessions)) [
  | inl e ↦ rw (e, poll) m
  | inr (s, e) ↦ rw (e, poll) m
]

touch-IsManaged :
    (w : World) (id : Str) (st : State) → IsManagedState st → IsManagedState (touch w id st)
unfolding touch
touch-IsManaged w id st m = elim (Option-cases (lookup id st.sessions)) [
  | inl e ↦ rw (e, touch) m
  | inr (s, e) ↦ rw (e, touch) m
]

unregister-IsManaged :
    (id : Str) (st : State) → IsManagedState st → IsManagedState (unregister_session id st)
unfolding unregister_session
unregister-IsManaged id st m = elim (Option-cases (lookup id st.sessions)) [
  | inl e ↦ rw (e, unregister_session) m
  | inr (s, e) ↦ rw (e, unregister_session) (remove_session-IsManaged st id m)
]

take_turn-is_live : (t : Turn) (p : Pusher) → is_live (take_turn t p) ≡ is_live p
unfolding take_turn
take_turn-is_live t p = elim (Option-cases (run_turn t p)) [
  | inl e ↦ rw (e, take_turn) refl
  | inr (q, e) ↦ rw (e, take_turn) (turn-is_live t p q e)
]

take_first-is_live : (box : List Event) (p : Pusher) → is_live (take_first box p) ≡ is_live p
unfolding take_first
take_first-is_live [] p = refl
take_first-is_live (ev ∷ rest) p = receive-is_live p rest

take_event-is_live : (p : Pusher) → is_live (take_event p) ≡ is_live p
unfolding take_event
take_event-is_live p = take_first-is_live p.out p

register-IsManaged :
    (w : World) (path : Str) (st : State)
    → IsManagedState st
    → IsManagedState (register_session w path st).0
unfolding register_session
register-IsManaged w path st m = notify_peers-IsManaged _ _ _ m

tick-IsManaged : (w : World) (st : State) → IsManagedState st → IsManagedState (cleanup_tick w st)
unfolding cleanup_tick
tick-IsManaged w st m =
    reap_sessions-IsManaged (w.clock st.readings) st.sessions
      (record st { readings = st.readings + 1 }) m

-- Every command, turn and receipt keeps the map to exactly the pushers that are at work.
pub exec-IsManaged :
    (w : World) (c : Command) (st : State) → IsManagedState st → IsManagedState (exec w c st)
unfolding exec
exec-IsManaged w (registers path) st m = register-IsManaged w path st m
exec-IsManaged w (touches id) st m = touch-IsManaged w id st m
exec-IsManaged w (unregisters id) st m = unregister-IsManaged id st m
exec-IsManaged w (lists_peers caller) st m = unfold list_peers in m
exec-IsManaged w (sends msg) st m = send-IsManaged w msg st m
exec-IsManaged w (broadcasts from content) st m = broadcast-IsManaged w from content st m
exec-IsManaged w (polls id) st m = poll-IsManaged id st m
exec-IsManaged w (subscribes id) st m = subscribe-IsManaged id st m
exec-IsManaged w (cancels id a) st m = cancel-IsManaged id a st m
exec-IsManaged w ticks st m = tick-IsManaged w st m
exec-IsManaged w (turns a t) st m =
    rw (lives-update a (take_turn t) st.heap (take_turn-is_live t)) m
exec-IsManaged w (receives a) st m = rw (lives-update a take_event st.heap take_event-is_live) m

new-IsManaged : (cfg : Config) → IsManagedState (new cfg)
unfolding new lives lookup
new-IsManaged cfg = record { live = λ id a e. cc; apart = λ i j a e f. cc; known = λ a e. cc }

-- After any commands, turns and receipts, a session's pusher is running and not told to stop, no two
-- sessions share one, and every pusher that runs and is not told to stop is some session's.
pub run-IsManaged :
    (w : World) (cfg : Config) (cs : List Command) → IsManagedState (run w cs (new cfg))
run-IsManaged w cfg cs = run_induction w (exec-IsManaged w) cs (new cfg) (new-IsManaged cfg)
