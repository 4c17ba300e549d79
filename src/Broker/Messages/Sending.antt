-- ===== src/Broker/Messages/Sending.antt =====
-- What `Send` does to the sessions, on each of its branches.
use mathlib.Core.Option
use claude_bridge.Base.{
  ℕ, ◌+◌, ◌-◌, ◌≤◌, ◌<◌, ◌≡◌, ◌≢◌, refl, sym, ap, ◌∙◌, inl, inr, false, none, some, List, [], ◌∷◌,
  ◌++◌, arith, length, keep_last, length-append, drop-append_le, Bool-cases, leb, if◌then◌else◌,
}
use claude_bridge.Text.{Str, ◌==◌, eq_iff, eq→≡, ≡→eq}
use claude_bridge.Dict.{Dict, lookup, modify, lookup-modify, lookup-modify_self}
use claude_bridge.Broker.Clock.{World}
use claude_bridge.Broker.Message.{Message, Event, kind_message}
use claude_bridge.Broker.Livelock.{LivelockTracker, trip}
use claude_bridge.Broker.State.{
  SessEntry, State, stamp, append_inbox, enqueue_message, deliver, message_event,
}
use claude_bridge.Broker.Messages.{ok, err, unknown_session, route, send}

pub deliver-sessions :
    (st : State) (id : Str) (ev : Event) → (deliver st id ev).sessions ≡ st.sessions
unfolding deliver
deliver-sessions st id ev = ground arith

pub deliver-cfg : (st : State) (id : Str) (ev : Event) → (deliver st id ev).cfg ≡ st.cfg
unfolding deliver
deliver-cfg st id ev = ground arith

deliver-livelock : (st : State) (id : Str) (ev : Event) → (deliver st id ev).livelock ≡ st.livelock
unfolding deliver
deliver-livelock st id ev = ground arith

-- A delivery depends on the pushers only.
deliver-heap :
    (st : State) (ids readings : ℕ) (id : Str) (ev : Event)
    → (deliver (record st { ids = ids; readings = readings }) id ev).heap ≡ (deliver st id ev).heap
unfolding deliver
deliver-heap st ids readings id ev = ground arith

-- Nor does it look at sessions or chains.
deliver-heap_route :
    (st : State) (sessions : Dict SessEntry) (tracker : LivelockTracker) (ids readings : ℕ)
    (id : Str) (ev : Event)
    → (deliver
        (record st { sessions = sessions; livelock = tracker; ids = ids; readings = readings })
        id
        ev).heap
      ≡ (deliver st id ev).heap
unfolding deliver
deliver-heap_route st sessions tracker ids readings id ev = ground arith

pub append_inbox-keep_last :
    (max : ℕ) (inbox : List Message) (m : Message)
    → 0 < max
    → length inbox ≤ max
    → append_inbox max inbox m ≡ keep_last max (inbox ++ m ∷ [])
unfolding append_inbox
append_inbox-keep_last max inbox m p le =
    let longer = length-append inbox (m ∷ []) in
    elim (Bool-cases (leb max (length inbox))) [
      | inl full ↦
          (let n : length (inbox ++ m ∷ []) - max ≡ 1 = ground (arith, longer) in
            rw (full, n) (sym (drop-append_le 1 inbox (m ∷ []) (ground arith))))
      | inr room ↦
          (let n : length (inbox ++ m ∷ []) - max ≡ 0 = ground (arith, longer) in rw (room, n) refl)
    ]

-- An ordinary message to a known session.
pub record Inboxed (st st' : State) (m : Message) (e : SessEntry) : Type 0 where
  pub cfg : st'.cfg ≡ st.cfg
  pub entry : lookup m.to st'.sessions ≡ some (enqueue_message st.cfg m e)
  pub others : (j : Str) → m.to ≢ j → lookup j st'.sessions ≡ lookup j st.sessions

route-sessions :
    (w : World) (m : Message) (st : State)
    → m.kind ≡ kind_message
    → ((route w m st).sessions ≡ modify m.to (enqueue_message st.cfg m) st.sessions)
      × ((route w m st).cfg ≡ st.cfg)
unfolding route
route-sessions w m st k =
    rw (≡→eq m.kind kind_message k)
      (elim (Bool-cases (trip st.livelock m (w.clock st.readings)).1) [
        | inl t ↦ rw t (refl, refl)
        | inr f ↦ rw f (deliver-sessions _ m.to _, deliver-cfg _ m.to _)
      ])

pub route-Inboxed :
    (w : World) (m : Message) (st : State) (e : SessEntry)
    → lookup m.to st.sessions ≡ some e
    → m.kind ≡ kind_message
    → Inboxed st (route w m st) m e
route-Inboxed w m st e s k =
    let (r, c) = route-sessions w m st k in
    record {
      cfg = c;
      entry =
          ap (λ x. lookup m.to x) r
          ∙ lookup-modify_self m.to (enqueue_message st.cfg m) st.sessions
          ∙ ap (λ o. Option.map (enqueue_message st.cfg m) o) s;
      others = λ j ne.
          ap (λ x. lookup j x) r
          ∙ ground
              (arith, lookup-modify m.to j (enqueue_message st.cfg m) st.sessions, eq_iff m.to j);
    }

-- The message as `Send` stamps it.
abbrev pub stamped : World → State → Message → Message
stamped w st msg = (stamp w st msg).0

-- An ordinary message to a known session is accepted under the identifier that it is stamped with.
-- Whether or not the breaker suppresses its push, it stands at the end of the recipient's inbox,
-- which loses its oldest message if it was full, and every other session is left as it was.
pub send-Inboxed :
    (w : World) (msg : Message) (st : State) (e : SessEntry) (j : Str)
    → lookup msg.to st.sessions ≡ some e
    → msg.kind ≡ kind_message
    → 0 < st.cfg.max_inbox_size
    → length e.inbox ≤ st.cfg.max_inbox_size
    → ((send w msg st).1 ≡ ok (stamped w st msg).id)
      × (lookup j (send w msg st).0.sessions ≡ (
          if msg.to == j
          then some (record e {
            inbox = keep_last st.cfg.max_inbox_size (e.inbox ++ stamped w st msg ∷ []);
          })
          else lookup j st.sessions))
unfolding send stamp enqueue_message
send-Inboxed w msg st e j s k p le =
    let i = route-Inboxed w (stamped w st msg) (stamp w st msg).1 e s k in
    let kept = append_inbox-keep_last st.cfg.max_inbox_size e.inbox (stamped w st msg) p le in
    let entry = i.entry ∙ ap (λ inbox. some (record e { inbox = inbox })) kept in
    rw (s, send)
      (
        refl,
        elim (Bool-cases (msg.to == j)) [
          | inl t ↦ rw t (
              ap (λ k. lookup k (route w (stamped w st msg) (stamp w st msg).1).sessions)
                (sym (eq→≡ msg.to j t))
              ∙ entry)
          | inr f ↦ rw f (i.others j (λ q. ground (arith, eq_iff msg.to j)))
        ],
      )

pub send-cfg :
    (w : World) (msg : Message) (st : State) (e : SessEntry)
    → lookup msg.to st.sessions ≡ some e
    → msg.kind ≡ kind_message
    → (send w msg st).0.cfg ≡ st.cfg
unfolding send stamp
send-cfg w msg st e s k =
    rw (s, send) (route-Inboxed w (stamped w st msg) (stamp w st msg).1 e s k).cfg

-- To an unknown session nothing is sent: the call fails, and of the state only the counts of
-- identifiers and clock readings move.
pub send_unknown :
    (w : World) (msg : Message) (st : State)
    → lookup msg.to st.sessions ≡ none
    → send w msg st
      ≡ (record st { ids = st.ids + 1; readings = st.readings + 1 }, err unknown_session)
unfolding send stamp
send_unknown w msg st n = rw (n, send) refl

-- A permission message is pushed only: no inbox and no livelock chain changes.
pub send_control :
    (w : World) (msg : Message) (st : State) (e : SessEntry)
    → lookup msg.to st.sessions ≡ some e
    → msg.kind ≢ kind_message
    → ((send w msg st).1 ≡ ok (stamped w st msg).id)
      × ((send w msg st).0.sessions ≡ st.sessions)
      × ((send w msg st).0.livelock ≡ st.livelock)
      × ((send w msg st).0.heap ≡ (deliver st msg.to (message_event (stamped w st msg))).heap)
unfolding send stamp route
send_control w msg st e s k =
    let control : (msg.kind == kind_message) ≡ false =
      ground (arith, eq_iff msg.kind kind_message) in
    rw (s, send)
      (rw control (
        refl,
        deliver-sessions _ msg.to _,
        deliver-livelock _ msg.to _,
        deliver-heap st (st.ids + 1) (st.readings + 1) msg.to _,
      ))

-- An ordinary message to a known session is pushed to its pusher, unless the breaker trips: then no
-- pusher is touched.
pub send-push :
    (w : World) (msg : Message) (st : State) (e : SessEntry)
    → lookup msg.to st.sessions ≡ some e
    → msg.kind ≡ kind_message
    → (send w msg st).0.heap ≡ (
        if (trip st.livelock (stamped w st msg) (w.clock (st.readings + 1))).1
        then st.heap
        else (deliver st msg.to (message_event (stamped w st msg))).heap)
unfolding send stamp route
send-push w msg st e s k =
    let m = stamped w st msg in
    let plain = ≡→eq msg.kind kind_message k in
    elim (Bool-cases (trip st.livelock m (w.clock (st.readings + 1))).1) [
      | inl t ↦ rw (s, send) (rw (plain, t) refl)
      | inr f ↦
          rw (s, send)
            (rw (plain, f) (deliver-heap_route st _ _ (st.ids + 1) (st.readings + 1 + 1) msg.to _))
    ]
