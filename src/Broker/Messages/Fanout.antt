-- ===== src/Broker/Messages/Fanout.antt =====
-- What the loop of `fanout` does to an inbox, and how often it goes round.
use mathlib.Core.Option
use claude_bridge.Base.{
  ℕ, ◌+◌, ◌≡◌, ◌≢◌, refl, sym, ap, subst, ◌∙◌, ◌⊎◌, inl, inr, true, false, some, [], ◌∷◌, arith,
  length, Bool-cases, if◌then◌else◌,
}
use claude_bridge.Text.{Str, ◌==◌, eq_iff, eq→≡}
use claude_bridge.Dict.{Dict, lookup, keys_at, IsUnique, lookup-modify}
use claude_bridge.Broker.Clock.{World}
use claude_bridge.Broker.Config.{Resolved}
use claude_bridge.Broker.Message.{Message, kind_message}
use claude_bridge.Broker.State.{SessEntry, State, stamp, enqueue_message}
use claude_bridge.Broker.Messages.{draft, fanout_one, fanout}
use claude_bridge.Broker.Messages.Sending.{stamped, deliver-sessions, deliver-cfg}

fanout_one-lookup :
    (w : World) (from content id j : Str) (st : State)
    → lookup j (fanout_one w from content id st).sessions ≡ (
        if id == j
        then Option.map
            (enqueue_message st.cfg (stamped w st (draft from id content)))
            (lookup j st.sessions)
        else lookup j st.sessions)
unfolding fanout_one stamp
fanout_one-lookup w from content id j st =
    ap (λ x. lookup j x) (deliver-sessions _ id _) ∙ lookup-modify id j _ st.sessions

fanout_one-cfg :
    (w : World) (from content id : Str) (st : State)
    → (fanout_one w from content id st).cfg ≡ st.cfg
unfolding fanout_one stamp
fanout_one-cfg w from content id st = deliver-cfg _ id _

-- The number of entries under other keys.
pub others : Str → Dict SessEntry → ℕ
others from [] = 0
others from ((id, e) ∷ entries) =
    if id == from then others from entries else others from entries + 1

module _ (w : World) (from content : Str) where
  pub fanout-count :
      (entries : Dict SessEntry) (st : State)
      → (fanout w from content entries st).1 ≡ others from entries
  unfolding fanout others
  fanout-count [] st = refl
  fanout-count ((id, e) ∷ entries) st = elim (Bool-cases (id == from)) [
    | inl t ↦ rw t (fanout-count entries st)
    | inr f ↦ rw f (ap (λ n. n + 1) (fanout-count entries _))
  ]

  -- A session that the loop does not visit, or the sender, is left as it was.
  fanout-lookup_skipped :
      (j : Str) (entries : Dict SessEntry) (st : State)
      → (keys_at j entries ≡ false) ⊎ (j ≡ from)
      → lookup j (fanout w from content entries st).0.sessions ≡ lookup j st.sessions
  unfolding fanout keys_at
  fanout-lookup_skipped j [] st h = refl
  fanout-lookup_skipped j ((id, e) ∷ entries) st h =
      let h' : (keys_at j entries ≡ false) ⊎ (j ≡ from) = ground arith in
      elim (Bool-cases (id == from)) [
        | inl t ↦ rw t (fanout-lookup_skipped j entries st h')
        | inr f ↦
            (let apart : (id == j) ≡ false = ground (arith, eq_iff id j, eq_iff id from) in
              rw f (
                fanout-lookup_skipped j entries _ h'
                ∙ fanout_one-lookup w from content id j st
                ∙ rw apart refl))
      ]

  -- A new message from the sender stands at the end of the inbox.
  pub record Received (j : Str) (cfg : Resolved) (e e' : SessEntry) : Type 0 where
    pub sent : Message
    pub from_sender : sent.from ≡ from
    pub to_recipient : sent.to ≡ j
    pub body : sent.content ≡ content
    pub ordinary : sent.kind ≡ kind_message
    pub entry : e' ≡ enqueue_message cfg sent e

  new_message :
      (id j : Str) (st : State) (e : SessEntry)
      → id ≡ j
      → Received j st.cfg e (enqueue_message st.cfg (stamped w st (draft from id content)) e)
  unfolding stamp
  new_message id j st e same = record {
    sent = stamped w st (draft from id content);
    from_sender = refl;
    to_recipient = same;
    body = refl;
    ordinary = refl;
    entry = refl;
  }

  -- A session that the loop visits, other than the sender, receives the message.
  pub fanout-lookup_visited :
      (j : Str) (entries : Dict SessEntry) (st : State) (e : SessEntry)
      → IsUnique entries
      → keys_at j entries ≡ true
      → j ≢ from
      → lookup j st.sessions ≡ some e
      → (e' : SessEntry) × (lookup j (fanout w from content entries st).0.sessions ≡ some e')
        × Received j st.cfg e e'
  unfolding fanout keys_at
  fanout-lookup_visited j [] st e u k ne s = cc
  fanout-lookup_visited j ((id, x) ∷ entries) st e u k ne s = elim (Bool-cases (id == j)) [
    | inl t ↦
        (let same : id ≡ j = eq→≡ id j t in
          let f : (id == from) ≡ false = ground (arith, eq_iff id from) in
          let m = stamped w st (draft from id content) in
          let unvisited : keys_at j entries ≡ false =
            ap (λ i. keys_at i entries) (sym same) ∙ u.0 in
          let found : lookup j (fanout_one w from content id st).sessions
              ≡ some (enqueue_message st.cfg m e) =
            fanout_one-lookup w from content id j st
            ∙ rw t (ap (Option.map (enqueue_message st.cfg m)) s) in
          rw f (
            enqueue_message st.cfg m e,
            fanout-lookup_skipped j entries _ (inl unvisited) ∙ found,
            new_message id j st e same,
          ))
    | inr n ↦
        (let k' : keys_at j entries ≡ true = ground arith in
          elim (Bool-cases (id == from)) [
            | inl t ↦ rw t (fanout-lookup_visited j entries st e u.1 k' ne s)
            | inr f ↦
                (let kept = fanout_one-lookup w from content id j st ∙ rw n s in
                  let (e', l, r) =
                    fanout-lookup_visited j entries (fanout_one w from content id st) e u.1 k' ne
                      kept in
                  rw f
                    (e', l, subst (λ c. Received j c e e') (fanout_one-cfg w from content id st) r))
          ])
  ]

others-keys_at :
    (from : Str) (entries : Dict SessEntry)
    → keys_at from entries ≡ false
    → others from entries ≡ length entries
unfolding others keys_at
others-keys_at from [] h = refl
others-keys_at from ((id, e) ∷ entries) h = ground (arith, others-keys_at from entries)

-- Of distinct keys one is the sender's.
pub others-length :
    (from : Str) (entries : Dict SessEntry)
    → IsUnique entries
    → keys_at from entries ≡ true
    → others from entries + 1 ≡ length entries
unfolding others keys_at
others-length from [] u k = cc
others-length from ((id, e) ∷ entries) u k = elim (Bool-cases (id == from)) [
  | inl t ↦
      (let absent : keys_at from entries ≡ false =
          ap (λ i. keys_at i entries) (sym (eq→≡ id from t)) ∙ u.0 in
        rw t (omega (arith, others-keys_at from entries absent)))
  | inr f ↦
      (let k' : keys_at from entries ≡ true = ground arith in
        rw f (omega (arith, others-length from entries u.1 k')))
]

pub lookup→keys_at :
    (j : Str) (entries : Dict SessEntry) (e : SessEntry)
    → lookup j entries ≡ some e
    → keys_at j entries ≡ true
unfolding lookup keys_at
lookup→keys_at j [] e h = cc
lookup→keys_at j ((id, x) ∷ entries) e h = ground (arith, lookup→keys_at j entries e)
