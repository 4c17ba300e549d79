-- ===== src/Broker/RunLoop/Ending.antt =====
-- Which commands can end a session.
use claude_bridge.Base.{
  ℕ, ◌≡◌, ap, ◌∙◌, inl, inr, Bool, true, false, [], ◌∷◌, arith, Bool-cases, Option-cases,
}
use claude_bridge.Text.{Str, ◌==◌}
use claude_bridge.Dict.{
  Dict, keys_at, lookup, insert, modify, keys_at-insert, keys_at-modify, keys_at-delete_ne,
}
use claude_bridge.Broker.Clock.{World}
use claude_bridge.Broker.Message.{Message, Event, kind_message}
use claude_bridge.Broker.Livelock.{trip}
use claude_bridge.Broker.State.{
  SessEntry, State, deliver, notify_peers, drop_pusher, remove_session, enqueue_message,
}
use claude_bridge.Broker.Messages.{
  route, send, bucket_for, charge, fanout_one, fanout, broadcast, poll,
}
use claude_bridge.Broker.Messages.Sending.{deliver-sessions}
use claude_bridge.Broker.Sessions.{register_session, touch, unregister_session, list_peers}
use claude_bridge.Broker.Subscriptions.{subscribe, cancel}
use claude_bridge.Broker.RunLoop.{
  Command, registers, touches, unregisters, lists_peers, sends, broadcasts, polls, subscribes,
  cancels, ticks, turns, receives, exec,
}

-- The session is in the map.
abbrev pub has : Str → State → Bool
has id st = keys_at id st.sessions

abbrev pub can_end : Str → Command → Bool
can_end id (unregisters j) = j == id
can_end id ticks = true
can_end id _ = false

pub drop_pusher-sessions : (st : State) (id : Str) → (drop_pusher st id).sessions ≡ st.sessions
unfolding drop_pusher
drop_pusher-sessions st id = ground arith

module _ (id : Str) where
  insert-has :
      (j : Str) (e : SessEntry) (m : Dict SessEntry)
      → keys_at id m ≡ true
      → keys_at id (insert j e m) ≡ true
  insert-has j e m h = ground (arith, keys_at-insert j id e m)

  modify-has :
      (j : Str) (f : SessEntry → SessEntry) (m : Dict SessEntry)
      → keys_at id m ≡ true
      → keys_at id (modify j f m) ≡ true
  modify-has j f m h = keys_at-modify j id f m ∙ h

  register-has :
      (w : World) (path : Str) (st : State)
      → has id st ≡ true
      → has id (register_session w path st).0 ≡ true
  unfolding register_session notify_peers
  register-has w path st h = insert-has _ _ st.sessions h

  touch-has : (w : World) (j : Str) (st : State) → has id st ≡ true → has id (touch w j st) ≡ true
  unfolding touch
  touch-has w j st h = elim (Option-cases (lookup j st.sessions)) [
    | inl e ↦ rw (e, touch) h
    | inr (s, e) ↦ rw (e, touch) (modify-has j _ st.sessions h)
  ]

  poll-has : (j : Str) (st : State) → has id st ≡ true → has id (poll j st).0 ≡ true
  unfolding poll
  poll-has j st h = elim (Option-cases (lookup j st.sessions)) [
    | inl e ↦ rw (e, poll) h
    | inr (s, e) ↦ rw (e, poll) (modify-has j _ st.sessions h)
  ]

  deliver-has :
      (st : State) (j : Str) (ev : Event) → has id st ≡ true → has id (deliver st j ev) ≡ true
  deliver-has st j ev h = ap (keys_at id) (deliver-sessions st j ev) ∙ h

  cancel-has : (j : Str) (a : ℕ) (st : State) → has id st ≡ true → has id (cancel j a st) ≡ true
  unfolding cancel
  cancel-has j a st h = ground (arith, ap (keys_at id) (drop_pusher-sessions st j))

  unregister-has :
      (j : Str) (st : State)
      → j == id ≡ false
      → has id st ≡ true
      → has id (unregister_session j st) ≡ true
  unfolding unregister_session remove_session notify_peers
  unregister-has j st ne h = elim (Option-cases (lookup j st.sessions)) [
    | inl e ↦ rw (e, unregister_session) h
    | inr (s, e) ↦
        rw (e, unregister_session)
          (ap (keys_at id) (drop_pusher-sessions _ j) ∙ keys_at-delete_ne j id st.sessions ne ∙ h)
  ]

  route-has :
      (w : World) (m : Message) (st : State) → has id st ≡ true → has id (route w m st) ≡ true
  unfolding route
  route-has w m st h =
      let h' = modify-has m.to (enqueue_message st.cfg m) st.sessions h in
      elim (Bool-cases (m.kind == kind_message)) [
        | inl k ↦ rw k (elim (Bool-cases (trip st.livelock m (w.clock st.readings)).1) [
          | inl t ↦ rw t h'
          | inr f ↦ rw f (deliver-has _ m.to _ h')
        ])
        | inr k ↦ rw k (deliver-has st m.to _ h)
      ]

  send-has :
      (w : World) (m : Message) (st : State) → has id st ≡ true → has id (send w m st).0 ≡ true
  unfolding send
  send-has w m st h = elim (Option-cases (lookup m.to st.sessions)) [
    | inl e ↦ rw (e, send) h
    | inr (s, e) ↦ rw (e, send) (route-has w _ _ h)
  ]

  charge-has :
      (w : World) (from : Str) (st : State) → has id st ≡ true → has id (charge w from st).0 ≡ true
  unfolding charge
  charge-has w from st h = elim (Option-cases (lookup from st.sessions)) [
    | inl e ↦ rw (e, charge, bucket_for) (modify-has from _ _ (insert-has from _ st.sessions h))
    | inr (s, e) ↦ rw (e, charge, bucket_for) (modify-has from _ st.sessions h)
  ]

  fanout-has :
      (w : World) (from content : Str) (entries : Dict SessEntry) (st : State)
      → has id st ≡ true
      → has id (fanout w from content entries st).0 ≡ true
  unfolding fanout fanout_one
  fanout-has w from content [] st h = h
  fanout-has w from content ((j, e) ∷ entries) st h = elim (Bool-cases (j == from)) [
    | inl t ↦ rw t (fanout-has w from content entries st h)
    | inr f ↦
        rw f
          (fanout-has w from content entries _ (deliver-has _ j _ (modify-has j _ st.sessions h)))
  ]

  broadcast-has :
      (w : World) (from content : Str) (st : State)
      → has id st ≡ true
      → has id (broadcast w from content st).0 ≡ true
  unfolding broadcast
  broadcast-has w from content st h =
      let h' = charge-has w from st h in
      elim (Bool-cases (charge w from st).1) [
        | inl t ↦ rw t (fanout-has w from content _ _ h')
        | inr f ↦ rw f h'
      ]

  -- A session outlives every command but a request to unregister it and a cleanup.
  pub exec-has :
      (w : World) (c : Command) (st : State)
      → can_end id c ≡ false
      → has id st ≡ true
      → has id (exec w c st) ≡ true
  unfolding exec
  exec-has w (registers path) st k h = register-has w path st h
  exec-has w (touches j) st k h = touch-has w j st h
  exec-has w (unregisters j) st k h = unregister-has j st k h
  exec-has w (lists_peers caller) st k h = unfold list_peers in h
  exec-has w (sends m) st k h = send-has w m st h
  exec-has w (broadcasts from content) st k h = broadcast-has w from content st h
  exec-has w (polls j) st k h = poll-has j st h
  exec-has w (subscribes j) st k h = unfold subscribe in h
  exec-has w (cancels j a) st k h = cancel-has j a st h
  exec-has w ticks st k h = cc
  exec-has w (turns a t) st k h = h
  exec-has w (receives a) st k h = h
