-- ===== src/Broker/Soundness/Lifecycle.antt =====
-- What the commands on sessions and the cleanup keep of the sessions.
use claude_bridge.Base.{
  ℕ, ◌+◌, sym, subst, inl, inr, [], ◌∷◌, arith, Bool-cases, Option-cases, nat_eq,
}
use claude_bridge.Text.{Str}
use claude_bridge.Dict.{
  Dict, lookup, delete, insert-IsUnique, delete-IsUnique, modify-IsUnique, retain-IsUnique,
}
use claude_bridge.Dict.Each.{Each-insert, Each-delete, Each-modify}
use claude_bridge.Broker.Clock.{World}
use claude_bridge.Broker.Config.{Resolved, IsPositive}
use claude_bridge.Broker.Session.{is_stale_at}
use claude_bridge.Broker.Bucket.{new_bucket}
use claude_bridge.Broker.Livelock.{prune}
use claude_bridge.Broker.State.{SessEntry, State, notify_peers, remove_session}
use claude_bridge.Broker.Messages.{clear_inbox, poll}
use claude_bridge.Broker.Sessions.{register_session, touch, unregister_session}
use claude_bridge.Broker.Subscriptions.{cancel}
use claude_bridge.Broker.Reaping.{reap_sessions, cleanup_tick}
use claude_bridge.Broker.Soundness.{
  IsWithin, IsSound, new_bucket-IsWithin, expire-IsUnique, expire-Each, Sound, modify-Sound,
  drop_pusher-Sound,
}

module _ (cfg : Resolved) (positive : IsPositive cfg) where
  remove_session-Sound :
      (st : State) (id : Str) → Sound cfg positive st → Sound cfg positive (remove_session st id)
  unfolding remove_session notify_peers
  remove_session-Sound st id h =
      let h' =
        drop_pusher-Sound cfg positive (record st { sessions = delete id st.sessions }) id
          (record {
            same = h.same;
            unique = delete-IsUnique id st.sessions h.unique;
            entries = Each-delete (IsSound cfg) id st.sessions h.entries;
            pairs = h.pairs;
          }) in
      record { same = h'.same; unique = h'.unique; entries = h'.entries; pairs = h'.pairs }

  reap_sessions-Sound :
      (now : ℕ) (entries : Dict SessEntry) (st : State)
      → Sound cfg positive st
      → Sound cfg positive (reap_sessions now entries st)
  unfolding reap_sessions
  reap_sessions-Sound now [] st h = h
  reap_sessions-Sound now ((id, e) ∷ entries) st h =
      reap_sessions-Sound now entries _
        (elim (Bool-cases (is_stale_at e.session now st.cfg.session_ttl)) [
          | inl t ↦ rw t (remove_session-Sound st id h)
          | inr f ↦ rw f h
        ])

  pub tick-Sound :
      (w : World) (st : State) → Sound cfg positive st → Sound cfg positive (cleanup_tick w st)
  unfolding cleanup_tick prune
  tick-Sound w st h =
      let now = w.clock st.readings in
      let h' =
        reap_sessions-Sound now st.sessions (record st { readings = st.readings + 1 })
          (record { same = h.same; unique = h.unique; entries = h.entries; pairs = h.pairs }) in
      record {
        same = h'.same;
        unique = expire-IsUnique now _ h'.unique;
        entries = expire-Each cfg now _ h'.entries;
        pairs = retain-IsUnique _ _ h'.pairs;
      }

  pub register-Sound :
      (w : World) (path : Str) (st : State)
      → Sound cfg positive st
      → Sound cfg positive (register_session w path st).0
  unfolding register_session notify_peers
  register-Sound w path st h =
      let now = w.clock st.readings in
      let fresh : IsWithin cfg (new_bucket st.cfg now) =
        subst (λ c. IsWithin cfg (new_bucket c now)) (sym h.same) (new_bucket-IsWithin cfg now) in
      record {
        same = h.same;
        unique = insert-IsUnique _ _ st.sessions h.unique;
        entries =
            Each-insert (IsSound cfg) _ _ st.sessions
              (record { inbox = omega arith; bucket = fresh }) h.entries;
        pairs = h.pairs;
      }

  pub touch-Sound :
      (w : World) (id : Str) (st : State)
      → Sound cfg positive st
      → Sound cfg positive (touch w id st)
  unfolding touch
  touch-Sound w id st h = elim (Option-cases (lookup id st.sessions)) [
    | inl e ↦ rw (e, touch) h
    | inr (s, e) ↦
        rw (e, touch)
          (record {
            same = h.same;
            unique = modify-IsUnique id _ st.sessions h.unique;
            entries =
                Each-modify (IsSound cfg) id _ st.sessions
                  (λ v k. record { inbox = k.inbox; bucket = k.bucket }) h.entries;
            pairs = h.pairs;
          })
  ]

  pub unregister-Sound :
      (id : Str) (st : State)
      → Sound cfg positive st
      → Sound cfg positive (unregister_session id st)
  unfolding unregister_session
  unregister-Sound id st h = elim (Option-cases (lookup id st.sessions)) [
    | inl e ↦ rw (e, unregister_session) h
    | inr (s, e) ↦ rw (e, unregister_session) (remove_session-Sound st id h)
  ]

  pub poll-Sound :
      (id : Str) (st : State) → Sound cfg positive st → Sound cfg positive (poll id st).0
  unfolding poll
  poll-Sound id st h = elim (Option-cases (lookup id st.sessions)) [
    | inl e ↦ rw (e, poll) h
    | inr (s, e) ↦
        rw (e, poll)
          (modify-Sound cfg positive st id clear_inbox
            (λ v k. unfold clear_inbox in record { inbox = omega arith; bucket = k.bucket }) h)
  ]

  pub cancel-Sound :
      (id : Str) (a : ℕ) (st : State) → Sound cfg positive st → Sound cfg positive (cancel id a st)
  unfolding cancel
  cancel-Sound id a st h = elim (Option-cases (lookup id st.pushers)) [
    | inl e ↦ rw (e, cancel) h
    | inr (b, e) ↦
        rw (e, cancel)
          (elim (Bool-cases (nat_eq b a)) [
            | inl t ↦ rw t (drop_pusher-Sound cfg positive st id h)
            | inr f ↦ rw f h
          ])
  ]
