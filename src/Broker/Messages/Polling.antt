-- ===== src/Broker/Messages/Polling.antt =====
-- What a session polls after messages were sent to it.
use mathlib.Core.Option
use mathlib.Core.List.{append-nil, append_assoc, map-append}
use claude_bridge.Base.{
  ℕ, suc, ◌≤◌, ◌<◌, ◌≡◌, refl, sym, ap, ◌∙◌, some, List, [], ◌∷◌, ◌++◌, map, arith, length,
  keep_last, keep_last-append, keep_last_short, length-keep_last, length-map, map-keep_last, All,
}
use claude_bridge.Base.Int.{pos}
use claude_bridge.Text.{Str, eq_refl}
use claude_bridge.Dict.{lookup, modify, lookup-modify_self}
use claude_bridge.Broker.Clock.{World}
use claude_bridge.Broker.Config.{Resolved}
use claude_bridge.Broker.Message.{Message, kind_message}
use claude_bridge.Broker.State.{SessEntry, State, stamp}
use claude_bridge.Broker.Messages.{Result, ok, err, send, poll, clear_inbox}
use claude_bridge.Broker.Messages.Sending.{stamped, send-Inboxed, send-cfg}

-- The identifier that a call returned, if it succeeded.
abbrev returned : Result Str → List Str
returned (ok id) = id ∷ []
returned (err e) = []

-- Sends one message after another, and collects the identifiers that the calls return.
pub send_all : World → List Message → State → State × List Str
send_all w [] st = (st, [])
send_all w (m ∷ ms) st =
    let (st1, r) = send w m st in let (st2, ids) = send_all w ms st1 in (st2, returned r ++ ids)

abbrev pub message_ids : List Message → List Str
message_ids ms = map (λ (m : Message). m.id) ms

-- What the sender gave of a message: the broker stamps the other three fields.
abbrev pub as_given : Message → Message
as_given m = record m { id = []; created_at = 0; ttl = pos 0 }

abbrev pub given : List Message → List Message
given ms = map as_given ms

abbrev pub IsTo : Str → Message → Type 0
IsTo id m = (m.to ≡ id) × (m.kind ≡ kind_message)

-- The entry after sends: the last messages of the inbox and the new ones.
record Filled (max : ℕ) (id : Str) (e : SessEntry) (ids : List Str) (ms : List Message) (st : State)
    : Type 0 where
  entry : SessEntry
  found : lookup id st.sessions ≡ some entry
  numbered : message_ids entry.inbox ≡ keep_last max (message_ids e.inbox ++ ids)
  sent : given entry.inbox ≡ keep_last max (given e.inbox ++ given ms)
  fits : length entry.inbox ≤ max

kept_short :
    {B : Type 0} (max : ℕ) (f : Message → B) (inbox : List Message)
    → length inbox ≤ max
    → map f inbox ≡ keep_last max (map f inbox ++ [])
kept_short max f inbox le =
    sym (keep_last_short max (map f inbox) (omega (arith, length-map f inbox)))
    ∙ ap (keep_last max) (sym (append-nil (map f inbox)))

-- One more message in an inbox that is already cut off.
kept_more :
    {B : Type 0} (max n : ℕ)
    → n ≡ max
    → (f : Message → B) (inbox : List Message) (m : Message) (rest : List B)
    → keep_last max (map f (keep_last n (inbox ++ m ∷ [])) ++ rest)
      ≡ keep_last max (map f inbox ++ f m ∷ rest)
kept_more max n c f inbox m rest =
    ap (λ k. keep_last max (map f (keep_last k (inbox ++ m ∷ [])) ++ rest)) c
    ∙ ap (λ xs. keep_last max (xs ++ rest))
        (map-keep_last f max (inbox ++ m ∷ []) ∙ ap (keep_last max) (map-append f inbox (m ∷ [])))
    ∙ keep_last-append max (map f inbox ++ f m ∷ []) rest
    ∙ ap (keep_last max) (append_assoc (map f inbox) (f m ∷ []) rest)

send_all-Filled :
    (w : World) (id : Str) (max : ℕ) (ms : List Message) (st : State) (e : SessEntry)
    → All (IsTo id) ms
    → lookup id st.sessions ≡ some e
    → st.cfg.max_inbox_size ≡ max
    → 0 < max
    → length e.inbox ≤ max
    → Filled max id e (send_all w ms st).1 ms (send_all w ms st).0
      × (length (send_all w ms st).1 ≡ length ms)
unfolding send_all stamp
send_all-Filled w id max [] st e a s c p le = (
  record {
    entry = e;
    found = s;
    numbered = kept_short max (λ (m : Message). m.id) e.inbox le;
    sent = kept_short max as_given e.inbox le;
    fits = le;
  },
  refl,
)
send_all-Filled w id max (m ∷ ms) st e ((to, kind), a) s c p le =
    let m' = stamped w st m in
    let st1 = (send w m st).0 in
    let known : lookup m.to st.sessions ≡ some e = ap (λ i. lookup i st.sessions) to ∙ s in
    let (accepted, entry) =
      send-Inboxed w m st e m.to known kind (omega (arith, c)) (omega (arith, c)) in
    let found = entry ∙ rw (eq_refl m.to) refl in
    let inbox1 = keep_last st.cfg.max_inbox_size (e.inbox ++ m' ∷ []) in
    let e1 = record e { inbox = inbox1 } in
    let (filled, count) =
      send_all-Filled w id max ms st1 e1 a (ap (λ i. lookup i st1.sessions) (sym to) ∙ found)
        (ap (λ (r : Resolved). r.max_inbox_size) (send-cfg w m st e known kind) ∙ c) p
        (omega (arith, length-keep_last st.cfg.max_inbox_size (e.inbox ++ m' ∷ []), c)) in
    let rest = (send_all w ms st1).1 in
    let got : returned (send w m st).1 ++ rest ≡ m'.id ∷ rest =
      ap (λ r. returned r ++ rest) accepted in
    (
      record {
        entry = filled.entry;
        found = filled.found;
        numbered =
            filled.numbered
            ∙ kept_more max st.cfg.max_inbox_size c (λ (m : Message). m.id) e.inbox m' rest
            ∙ ap (λ xs. keep_last max (message_ids e.inbox ++ xs)) (sym got);
        sent = filled.sent ∙ kept_more max st.cfg.max_inbox_size c as_given e.inbox m' (given ms);
        fits = filled.fits;
      },
      ap length got ∙ ap suc count,
    )

poll_found :
    (id : Str) (st : State) (e : SessEntry)
    → lookup id st.sessions ≡ some e
    → ((poll id st).1 ≡ ok e.inbox) × ((poll id (poll id st).0).1 ≡ ok [])
unfolding poll clear_inbox
poll_found id st e s =
    let cleared : lookup id (modify id clear_inbox st.sessions) ≡ some (clear_inbox e) =
      lookup-modify_self id clear_inbox st.sessions ∙ ap (Option.map clear_inbox) s in
    rw (s, poll) (refl, rw (cleared, poll) refl)

-- The messages that a call of `Poll` returned.
abbrev pub polled : Result (List Message) → List Message
polled (ok ms) = ms
polled (err e) = []

-- Ordinary messages sent to one session are all accepted, and its next poll returns, in the order of
-- the calls, the last ones of what its inbox held and of the messages that were sent, as many as the
-- inbox can hold: each has the identifier that its call returned, and its content, sender, recipient,
-- kind and everything else are as they were given, but for the time and the time to live that the
-- broker gives it. A second poll returns none.
pub poll-send_all :
    (w : World) (id : Str) (ms : List Message) (st : State) (e : SessEntry)
    → All (IsTo id) ms
    → lookup id st.sessions ≡ some e
    → 0 < st.cfg.max_inbox_size
    → length e.inbox ≤ st.cfg.max_inbox_size
    → let (st', ids) = send_all w ms st in
      let max = st.cfg.max_inbox_size in
      (length ids ≡ length ms)
      × (message_ids (polled (poll id st').1) ≡ keep_last max (message_ids e.inbox ++ ids))
      × (given (polled (poll id st').1) ≡ keep_last max (given e.inbox ++ given ms))
      × ((poll id (poll id st').0).1 ≡ ok [])
poll-send_all w id ms st e a s p le =
    let (filled, count) = send_all-Filled w id st.cfg.max_inbox_size ms st e a s refl p le in
    let (first, second) = poll_found id (send_all w ms st).0 filled.entry filled.found in
    (
      count,
      ap (λ r. message_ids (polled r)) first ∙ filled.numbered,
      ap (λ r. given (polled r)) first ∙ filled.sent,
      second,
    )
