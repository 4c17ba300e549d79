-- ===== src/Broker/RunLoop/Ids.antt =====
-- The count of the identifiers that the broker has given out never goes down.
use claude_bridge.Base.{
  ℕ, ◌+◌, ◌≤◌, ◌≡◌, refl, ◌∙◌, inl, inr, [], ◌∷◌, arith, Bool-cases, Option-cases, if◌then◌else◌,
}
use claude_bridge.Text.{Str, ◌==◌}
use claude_bridge.Dict.{Dict, lookup}
use claude_bridge.Broker.Clock.{World}
use claude_bridge.Broker.Message.{Message, Event, kind_message}
use claude_bridge.Broker.Session.{is_stale_at}
use claude_bridge.Broker.Livelock.{trip}
use claude_bridge.Broker.State.{
  SessEntry, State, deliver, notify_peers, drop_pusher, remove_session,
}
use claude_bridge.Broker.Messages.{
  route, send, bucket_for, charge, fanout_one, fanout, broadcast, poll,
}
use claude_bridge.Broker.Sessions.{register_session, touch, unregister_session, list_peers}
use claude_bridge.Broker.Subscriptions.{subscribe, cancel}
use claude_bridge.Broker.Reaping.{reap_sessions, reap, cleanup_tick}
use claude_bridge.Broker.RunLoop.{
  Command, registers, touches, unregisters, lists_peers, sends, broadcasts, polls, subscribes,
  cancels, ticks, turns, receives, exec,
}

deliver-ids : (st : State) (id : Str) (ev : Event) → (deliver st id ev).ids ≡ st.ids
unfolding deliver
deliver-ids st id ev = ground arith

drop_pusher-ids : (st : State) (id : Str) → (drop_pusher st id).ids ≡ st.ids
unfolding drop_pusher
drop_pusher-ids st id = ground arith

remove_session-ids : (st : State) (id : Str) → (remove_session st id).ids ≡ st.ids
unfolding remove_session notify_peers
remove_session-ids st id = drop_pusher-ids _ id

touch-ids : (w : World) (id : Str) (st : State) → (touch w id st).ids ≡ st.ids
unfolding touch
touch-ids w id st = ground arith

unregister-ids : (id : Str) (st : State) → (unregister_session id st).ids ≡ st.ids
unfolding unregister_session
unregister-ids id st = ground (arith, remove_session-ids st id)

poll-ids : (id : Str) (st : State) → (poll id st).0.ids ≡ st.ids
unfolding poll
poll-ids id st = ground arith

cancel-ids : (id : Str) (a : ℕ) (st : State) → (cancel id a st).ids ≡ st.ids
unfolding cancel
cancel-ids id a st = ground (arith, drop_pusher-ids st id)

charge-ids : (w : World) (from : Str) (st : State) → (charge w from st).0.ids ≡ st.ids
unfolding charge bucket_for
charge-ids w from st = ground arith

route-ids : (w : World) (m : Message) (st : State) → (route w m st).ids ≡ st.ids
unfolding route
route-ids w m st = elim (Bool-cases (m.kind == kind_message)) [
  | inl k ↦ rw k (elim (Bool-cases (trip st.livelock m (w.clock st.readings)).1) [
    | inl t ↦ rw t refl
    | inr f ↦ rw f (deliver-ids _ m.to _)
  ])
  | inr k ↦ rw k (deliver-ids st m.to _)
]

send-ids-le : (w : World) (m : Message) (st : State) → st.ids ≤ (send w m st).0.ids
unfolding send
send-ids-le w m st = elim (Option-cases (lookup m.to st.sessions)) [
  | inl e ↦ rw (e, send) (omega arith)
  | inr (s, e) ↦ rw (e, send) (omega (arith, route-ids w))
]

fanout_one-ids :
    (w : World) (from content id : Str) (st : State)
    → (fanout_one w from content id st).ids ≡ st.ids + 1
unfolding fanout_one
fanout_one-ids w from content id st = deliver-ids _ id _

fanout-ids-le :
    (w : World) (from content : Str) (entries : Dict SessEntry) (st : State)
    → st.ids ≤ (fanout w from content entries st).0.ids
unfolding fanout fanout_one
fanout-ids-le w from content [] st = omega arith
fanout-ids-le w from content ((j, e) ∷ entries) st = elim (Bool-cases (j == from)) [
  | inl t ↦ rw t (fanout-ids-le w from content entries st)
  | inr f ↦ rw f (
      omega (
        arith,
        fanout-ids-le w from content entries (fanout_one w from content j st),
        fanout_one-ids w from content j st,
      ))
]

broadcast-ids-le :
    (w : World) (from content : Str) (st : State) → st.ids ≤ (broadcast w from content st).0.ids
unfolding broadcast
broadcast-ids-le w from content st = elim (Bool-cases (charge w from st).1) [
  | inl t ↦ rw t (
      omega (
        arith,
        charge-ids w from st,
        fanout-ids-le w from content (charge w from st).0.sessions (charge w from st).0,
      ))
  | inr f ↦ rw f (omega (arith, charge-ids w from st))
]

reap_sessions-ids :
    (now : ℕ) (entries : Dict SessEntry) (st : State) → (reap_sessions now entries st).ids ≡ st.ids
unfolding reap_sessions
reap_sessions-ids now [] st = refl
reap_sessions-ids now ((id, e) ∷ entries) st =
    let st1 = if is_stale_at e.session now st.cfg.session_ttl then remove_session st id else st in
    let kept : st1.ids ≡ st.ids = ground (arith, remove_session-ids st id) in
    reap_sessions-ids now entries st1 ∙ kept

pub exec-ids-le : (w : World) (c : Command) (st : State) → st.ids ≤ (exec w c st).ids
unfolding exec
exec-ids-le w (registers path) st = unfold register_session notify_peers in (omega arith)
exec-ids-le w (touches id) st = omega (arith, touch-ids w id st)
exec-ids-le w (unregisters id) st = omega (arith, unregister-ids id st)
exec-ids-le w (lists_peers caller) st = unfold list_peers in (omega arith)
exec-ids-le w (sends m) st = send-ids-le w m st
exec-ids-le w (broadcasts from content) st = broadcast-ids-le w from content st
exec-ids-le w (polls id) st = omega (arith, poll-ids id st)
exec-ids-le w (subscribes id) st = unfold subscribe in (omega arith)
exec-ids-le w (cancels id a) st = omega (arith, cancel-ids id a st)
exec-ids-le w ticks st =
    unfold cleanup_tick reap in
    (omega (
      arith,
      reap_sessions-ids (w.clock st.readings) st.sessions
          (record st { readings = st.readings + 1 }),
    ))
exec-ids-le w (turns a t) st = omega arith
exec-ids-le w (receives a) st = omega arith
