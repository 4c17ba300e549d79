-- ===== src/Broker/Messages/Broadcasting.antt =====
-- What `Broadcast` does to the inboxes.
use mathlib.Core.Option
use claude_bridge.Base.{
  ℕ, ◌+◌, ◌≡◌, ◌≢◌, refl, ap, ◌∙◌, inl, inr, true, false, some, length, Bool-cases,
}
use claude_bridge.Text.{Str, ◌==◌}
use claude_bridge.Dict.{lookup, modify, IsUnique, lookup-modify, modify-IsUnique, length-modify}
use claude_bridge.Broker.Clock.{World}
use claude_bridge.Broker.Config.{Resolved}
use claude_bridge.Broker.Message.{Message}
use claude_bridge.Broker.Bucket.{take}
use claude_bridge.Broker.State.{SessEntry, State, append_inbox, enqueue_message}
use claude_bridge.Broker.Messages.{ok, err, rate_limited, bucket_for, set_bucket, charge, broadcast}
use claude_bridge.Broker.Messages.Fanout.{
  others, fanout-count, fanout-lookup_visited, others-length, lookup→keys_at, Received,
}

-- Asking for a known sender's token changes the sender's bucket and the clock's count.
charge_known :
    (w : World) (from : Str) (st : State) (s : SessEntry)
    → lookup from st.sessions ≡ some s
    → let (tb, granted) = take s.bucket (w.clock st.readings) in
      charge w from st ≡ (
        record st {
          readings = st.readings + 1;
          sessions = modify from (set_bucket tb) st.sessions;
        },
        granted,
      )
unfolding charge
charge_known w from st s k = rw (k, charge, bucket_for) refl

-- Two entries that differ in their buckets only.
pub record SameInbox (e e' : SessEntry) : Type 0 where
  pub session : e'.session ≡ e.session
  pub inbox : e'.inbox ≡ e.inbox

charge-lookup :
    (w : World) (from j : Str) (st : State) (s e : SessEntry)
    → lookup from st.sessions ≡ some s
    → lookup j st.sessions ≡ some e
    → (e' : SessEntry) × (lookup j (charge w from st).0.sessions ≡ some e') × SameInbox e e'
unfolding set_bucket
charge-lookup w from j st s e k l =
    let tb = (take s.bucket (w.clock st.readings)).0 in
    let changed = lookup-modify from j (set_bucket tb) st.sessions in
    rw (charge_known w from st s k) (elim (Bool-cases (from == j)) [
      | inl t ↦ (
        set_bucket tb e,
        changed ∙ rw t (ap (Option.map (set_bucket tb)) l),
        record { session = refl; inbox = refl },
      )
      | inr f ↦ (e, changed ∙ rw f l, record { session = refl; inbox = refl })
    ])

charge-IsUnique :
    (w : World) (from : Str) (st : State) (s : SessEntry)
    → lookup from st.sessions ≡ some s
    → IsUnique st.sessions
    → IsUnique (charge w from st).0.sessions
charge-IsUnique w from st s k u =
    rw (charge_known w from st s k) (modify-IsUnique from _ st.sessions u)

charge-length :
    (w : World) (from : Str) (st : State) (s : SessEntry)
    → lookup from st.sessions ≡ some s
    → length (charge w from st).0.sessions ≡ length st.sessions
charge-length w from st s k = rw (charge_known w from st s k) (length-modify from _ st.sessions)

charge-cfg :
    (w : World) (from : Str) (st : State) (s : SessEntry)
    → lookup from st.sessions ≡ some s
    → (charge w from st).0.cfg ≡ st.cfg
charge-cfg w from st s k = rw (charge_known w from st s k) refl

-- What a broadcast by a session did to the entry `e` of another session.
pub record Delivered (from content j : Str) (max : ℕ) (e e' : SessEntry) : Type 0 where
  pub sent : Message
  pub from_sender : sent.from ≡ from
  pub to_recipient : sent.to ≡ j
  pub body : sent.content ≡ content
  pub inbox : e'.inbox ≡ append_inbox max e.inbox sent

Received-Delivered :
    (w : World) (from content j : Str) (cfg : Resolved) (max : ℕ) (e e' e'' : SessEntry)
    → cfg.max_inbox_size ≡ max
    → SameInbox e e'
    → Received w from content j cfg e' e''
    → Delivered from content j max e e''
unfolding enqueue_message
Received-Delivered w from content j cfg max e e' e'' c b r = record {
  sent = r.sent;
  from_sender = r.from_sender;
  to_recipient = r.to_recipient;
  body = r.body;
  inbox =
      ap (λ (x : SessEntry). x.inbox) r.entry
      ∙ ap (λ n. append_inbox n e'.inbox r.sent) c
      ∙ ap (λ inbox. append_inbox max inbox r.sent) b.inbox;
}

-- A broadcast by a known session whose bucket has a token returns the number of the other sessions,
-- stale ones included, and appends one message with the sender and the content to the inbox of each.
pub broadcast_granted :
    (w : World) (from content : Str) (st : State) (s : SessEntry) (j : Str) (e : SessEntry)
    → IsUnique st.sessions
    → lookup from st.sessions ≡ some s
    → (take s.bucket (w.clock st.readings)).1 ≡ true
    → j ≢ from
    → lookup j st.sessions ≡ some e
    → ((n : ℕ) × ((broadcast w from content st).1 ≡ ok n) × (n + 1 ≡ length st.sessions))
      × ((e' : SessEntry) × (lookup j (broadcast w from content st).0.sessions ≡ some e')
          × Delivered from content j st.cfg.max_inbox_size e e')
unfolding broadcast
broadcast_granted w from content st s j e u k t ne l =
    let granted : (charge w from st).1 ≡ true = rw (charge_known w from st s k) t in
    let st1 = (charge w from st).0 in
    let u1 = charge-IsUnique w from st s k u in
    let (s1, found, _) = charge-lookup w from from st s s k k in
    let (e1, l1, b1) = charge-lookup w from j st s e k l in
    let (e2, l2, r2) =
      fanout-lookup_visited w from content j st1.sessions st1 e1 u1
        (lookup→keys_at j st1.sessions e1 l1) ne l1 in
    let count : others from st1.sessions + 1 ≡ length st.sessions =
      others-length from st1.sessions u1 (lookup→keys_at from st1.sessions s1 found)
      ∙ charge-length w from st s k in
    rw granted (
      (others from st1.sessions, ap ok (fanout-count w from content st1.sessions st1), count),
      (
        e2,
        l2,
        Received-Delivered w from content j st1.cfg st.cfg.max_inbox_size e e1 e2
            (ap (λ (c : Resolved). c.max_inbox_size) (charge-cfg w from st s k)) b1 r2,
      ),
    )

-- A broadcast by a known session whose bucket is empty fails, and no inbox and no pusher changes.
pub broadcast_denied :
    (w : World) (from content : Str) (st : State) (s : SessEntry) (j : Str) (e : SessEntry)
    → lookup from st.sessions ≡ some s
    → (take s.bucket (w.clock st.readings)).1 ≡ false
    → lookup j st.sessions ≡ some e
    → ((broadcast w from content st).1 ≡ err rate_limited)
      × ((broadcast w from content st).0.heap ≡ st.heap)
      × ((e' : SessEntry) × (lookup j (broadcast w from content st).0.sessions ≡ some e')
          × SameInbox e e')
unfolding broadcast
broadcast_denied w from content st s j e k f l =
    let denied : (charge w from st).1 ≡ false = rw (charge_known w from st s k) f in
    rw denied (refl, rw (charge_known w from st s k) refl, charge-lookup w from j st s e k l)
