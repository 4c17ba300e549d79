-- ===== src/Broker/RunLoop/Inboxes.antt =====
-- What every command keeps of the sessions: bounded inboxes, and token buckets in range.
use claude_bridge.Base.{
  ◌+◌, refl, sym, subst, inl, inr, List, [], ◌∷◌, arith, Bool-cases, Option-cases,
}
use claude_bridge.Text.{Str, ◌==◌}
use claude_bridge.Dict.{Dict, lookup, modify}
use claude_bridge.Broker.Clock.{World}
use claude_bridge.Broker.Config.{
  Config, Resolved, IsPositive, with_defaults, with_defaults-IsPositive,
}
use claude_bridge.Broker.Message.{Message, kind_message}
use claude_bridge.Broker.Bucket.{TokenBucket, new_bucket}
use claude_bridge.Broker.Livelock.{trip, new_livelock_tracker}
use claude_bridge.Broker.State.{SessEntry, State, new, enqueue_message}
use claude_bridge.Broker.Messages.{
  route, send, charge, bucket_for, set_bucket, fanout, fanout_one, broadcast,
}
use claude_bridge.Broker.Sessions.{list_peers}
use claude_bridge.Broker.Subscriptions.{subscribe}
use claude_bridge.Broker.RunLoop.{
  Command, registers, touches, unregisters, lists_peers, sends, broadcasts, polls, subscribes,
  cancels, ticks, turns, receives, exec, run, run_induction,
}
use claude_bridge.Broker.Soundness.{
  IsWithin, IsSoundState, new_bucket-IsWithin, take-IsWithin, trip-IsUnique, Sound, modify-Sound,
  insert-Sound, enqueue-Sound, deliver-Sound,
}
use claude_bridge.Broker.Soundness.Lifecycle.{
  tick-Sound, register-Sound, touch-Sound, unregister-Sound, poll-Sound, cancel-Sound,
}

module _ (cfg : Resolved) (positive : IsPositive cfg) where
  route-Sound :
      (w : World) (msg : Message) (st : State)
      → Sound cfg positive st
      → Sound cfg positive (route w msg st)
  unfolding route
  route-Sound w msg st h =
      let h' = enqueue-Sound cfg positive msg msg.to st h in
      let tripped = trip st.livelock msg (w.clock st.readings) in
      let h'' : Sound cfg positive (record st {
        sessions = modify msg.to (enqueue_message st.cfg msg) st.sessions;
        readings = st.readings + 1;
        livelock = tripped.0;
      }) =
        record {
          same = h'.same;
          unique = h'.unique;
          entries = h'.entries;
          pairs = trip-IsUnique st.livelock msg (w.clock st.readings) h.pairs;
        } in
      elim (Bool-cases (msg.kind == kind_message)) [
        | inl e ↦ rw e (elim (Bool-cases tripped.1) [
          | inl t ↦ rw t h''
          | inr f ↦ rw f (deliver-Sound cfg positive _ msg.to _ h'')
        ])
        | inr e ↦ rw e (deliver-Sound cfg positive st msg.to _ h)
      ]

  send-Sound :
      (w : World) (msg : Message) (st : State)
      → Sound cfg positive st
      → Sound cfg positive (send w msg st).0
  unfolding send
  send-Sound w msg st h =
      let h' : Sound cfg positive (record st { ids = st.ids + 1; readings = st.readings + 1 }) =
        record { same = h.same; unique = h.unique; entries = h.entries; pairs = h.pairs } in
      elim (Option-cases (lookup msg.to st.sessions)) [
        | inl e ↦ rw (e, send) h'
        | inr (s, e) ↦ rw (e, send) (route-Sound w _ _ h')
      ]

  set_bucket-Sound :
      (st : State) (id : Str) (tb : TokenBucket)
      → IsWithin cfg tb
      → Sound cfg positive st
      → Sound cfg positive (record st { sessions = modify id (set_bucket tb) st.sessions })
  unfolding set_bucket
  set_bucket-Sound st id tb fits h =
      modify-Sound cfg positive st id (set_bucket tb)
        (λ e k. record { inbox = k.inbox; bucket = fits }) h

  charge-Sound :
      (w : World) (from : Str) (st : State)
      → Sound cfg positive st
      → Sound cfg positive (charge w from st).0
  unfolding charge
  charge-Sound w from st h =
      let now = w.clock st.readings in
      let st1 = record st { readings = st.readings + 1 } in
      let h1 : Sound cfg positive st1 = record {
        same = h.same;
        unique = h.unique;
        entries = h.entries;
        pairs = h.pairs;
      } in
      let tb = new_bucket st.cfg now in
      let fresh : IsWithin cfg tb =
        subst (λ c. IsWithin cfg (new_bucket c now)) (sym h.same) (new_bucket-IsWithin cfg now) in
      elim (Option-cases (lookup from st.sessions)) [
        | inl e ↦
            rw (e, charge, bucket_for)
              (set_bucket-Sound _ from _ (take-IsWithin cfg tb now fresh) (
                insert-Sound cfg positive st1 from _
                  (record { inbox = omega arith; bucket = fresh }) h1))
        | inr (s, e) ↦
            rw (e, charge, bucket_for)
              (set_bucket-Sound st1 from _
                (take-IsWithin cfg s.bucket now (h.entries from s e).bucket) h1)
      ]

  fanout-Sound :
      (w : World) (from content : Str) (entries : Dict SessEntry) (st : State)
      → Sound cfg positive st
      → Sound cfg positive (fanout w from content entries st).0
  unfolding fanout fanout_one
  fanout-Sound w from content [] st h = h
  fanout-Sound w from content ((id, e) ∷ entries) st h =
      let h' : Sound cfg positive (record st { ids = st.ids + 1; readings = st.readings + 1 }) =
        record { same = h.same; unique = h.unique; entries = h.entries; pairs = h.pairs } in
      elim (Bool-cases (id == from)) [
        | inl t ↦ rw t (fanout-Sound w from content entries st h)
        | inr f ↦ rw f (
            fanout-Sound w from content entries _
              (deliver-Sound cfg positive _ id _ (enqueue-Sound cfg positive _ id _ h')))
      ]

  broadcast-Sound :
      (w : World) (from content : Str) (st : State)
      → Sound cfg positive st
      → Sound cfg positive (broadcast w from content st).0
  unfolding broadcast
  broadcast-Sound w from content st h =
      let h' = charge-Sound w from st h in
      elim (Bool-cases (charge w from st).1) [
        | inl t ↦ rw t (fanout-Sound w from content _ _ h')
        | inr f ↦ rw f h'
      ]

  exec-Sound :
      (w : World) (c : Command) (st : State)
      → Sound cfg positive st
      → Sound cfg positive (exec w c st)
  unfolding exec
  exec-Sound w (registers path) st h = register-Sound cfg positive w path st h
  exec-Sound w (touches id) st h = touch-Sound cfg positive w id st h
  exec-Sound w (unregisters id) st h = unregister-Sound cfg positive id st h
  exec-Sound w (lists_peers caller) st h =
      unfold list_peers in
      record { same = h.same; unique = h.unique; entries = h.entries; pairs = h.pairs }
  exec-Sound w (sends msg) st h = send-Sound w msg st h
  exec-Sound w (broadcasts from content) st h = broadcast-Sound w from content st h
  exec-Sound w (polls id) st h = poll-Sound cfg positive id st h
  exec-Sound w (subscribes id) st h =
      unfold subscribe in
      record { same = h.same; unique = h.unique; entries = h.entries; pairs = h.pairs }
  exec-Sound w (cancels id a) st h = cancel-Sound cfg positive id a st h
  exec-Sound w ticks st h = tick-Sound cfg positive w st h
  exec-Sound w (turns a t) st h = record {
    same = h.same;
    unique = h.unique;
    entries = h.entries;
    pairs = h.pairs;
  }
  exec-Sound w (receives a) st h = record {
    same = h.same;
    unique = h.unique;
    entries = h.entries;
    pairs = h.pairs;
  }

new-IsSound : (cfg : Config) → IsSoundState (with_defaults cfg) (new cfg)
unfolding new lookup new_livelock_tracker
new-IsSound cfg = record { same = refl; unique = tt; entries = λ id e p. cc; pairs = tt }

-- After any commands the broker still has its resolved configuration, no session and no pair is in
-- its map twice, no inbox holds more messages than the configured limit, and every token bucket has
-- the configured burst and refill interval and no more tokens than its burst.
pub run-IsSound :
    (w : World) (cfg : Config) (cs : List Command)
    → IsSoundState (with_defaults cfg) (run w cs (new cfg))
run-IsSound w cfg cs =
    run_induction w (exec-Sound (with_defaults cfg) (with_defaults-IsPositive cfg) w) cs (new cfg)
      (new-IsSound cfg)
