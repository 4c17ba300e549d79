-- ===== src/Broker/Reaping/Survivors.antt =====
-- What a cleanup leaves of each session.
use mathlib.Core.Option
use claude_bridge.Base.{
  ℕ, ◌≡◌, refl, sym, ap, ◌∙◌, inl, inr, Bool, true, false, ◌&&◌, ◌||◌, Option, none, some, List, [],
  ◌∷◌, ltb, leb, arith, ◌+◌, Bool-cases, if◌then◌else◌,
}
use claude_bridge.Base.Int.{pos, negsuc, le_ℤ}
use claude_bridge.Text.{Str, ◌==◌, eq→≡}
use claude_bridge.Dict.{Dict, lookup, delete, lookup-delete, keys_at, IsUnique}
use claude_bridge.Broker.Clock.{max_duration, since}
use claude_bridge.Broker.Config.{Resolved}
use claude_bridge.Broker.Soundness.{lookup-expire}
use claude_bridge.Broker.Session.{Session, is_stale_at}
use claude_bridge.Broker.Message.{Message}
use claude_bridge.Broker.State.{SessEntry, State, drop_pusher, notify_peers, remove_session}
use claude_bridge.Broker.Reaping.{reap_sessions, unexpired, expire_entry, reap}

-- Whether an entry of a session is stale.
stale_at : Str → ℕ → ℕ → Dict SessEntry → Bool
stale_at j now ttl [] = false
stale_at j now ttl ((id, e) ∷ entries) =
    id == j && is_stale_at e.session now ttl || stale_at j now ttl entries

remove_session-sessions :
    (st : State) (id : Str) → (remove_session st id).sessions ≡ delete id st.sessions
unfolding remove_session drop_pusher notify_peers
remove_session-sessions st id = ground arith

remove_session-cfg : (st : State) (id : Str) → (remove_session st id).cfg ≡ st.cfg
unfolding remove_session drop_pusher notify_peers
remove_session-cfg st id = ground arith

reap_sessions-lookup :
    (j : Str) (now ttl : ℕ) (entries : Dict SessEntry) (st : State)
    → st.cfg.session_ttl ≡ ttl
    → lookup j (reap_sessions now entries st).sessions
      ≡ (if stale_at j now ttl entries then none else lookup j st.sessions)
unfolding reap_sessions stale_at
reap_sessions-lookup j now ttl [] st c = refl
reap_sessions-lookup j now ttl ((id, e) ∷ entries) st c =
    elim (Bool-cases (is_stale_at e.session now st.cfg.session_ttl)) [
      | inl s ↦
          (let st1 = remove_session st id in
            let ih =
              reap_sessions-lookup j now ttl entries st1
                (ap (λ (r : Resolved). r.session_ttl) (remove_session-cfg st id) ∙ c) in
            let gone =
              ap (lookup j) (remove_session-sessions st id) ∙ lookup-delete id j st.sessions in
            let s' : is_stale_at e.session now ttl ≡ true =
              ap (is_stale_at e.session now) (sym c) ∙ s in
            rw (s, reap_sessions) (rw s' (ih ∙ rw gone (ground arith))))
      | inr f ↦
          (let f' : is_stale_at e.session now ttl ≡ false =
              ap (is_stale_at e.session now) (sym c) ∙ f in
            rw (f, reap_sessions)
              (rw f' (reap_sessions-lookup j now ttl entries st c ∙ ground arith)))
    ]

stale_at-absent :
    (j : Str) (now ttl : ℕ) (entries : Dict SessEntry)
    → keys_at j entries ≡ false
    → stale_at j now ttl entries ≡ false
unfolding stale_at keys_at
stale_at-absent j now ttl [] h = refl
stale_at-absent j now ttl ((id, e) ∷ entries) h = ground (arith, stale_at-absent j now ttl entries)

-- What the operations leave of an entry.
abbrev left : ℕ → ℕ → Option SessEntry → Option SessEntry
left now ttl none = none
left now ttl (some e) = if is_stale_at e.session now ttl then none else some (expire_entry now e)

left-lookup :
    (j : Str) (now ttl : ℕ) (entries : Dict SessEntry)
    → IsUnique entries
    → (if stale_at j now ttl entries
        then none
        else Option.map (expire_entry now) (lookup j entries))
      ≡ left now ttl (lookup j entries)
unfolding stale_at lookup
left-lookup j now ttl [] u = refl
left-lookup j now ttl ((id, e) ∷ entries) u = elim (Bool-cases (id == j)) [
  | inl t ↦
      (let absent =
          stale_at-absent j now ttl entries
            (ap (λ k. keys_at k entries) (sym (eq→≡ id j t)) ∙ u.0) in
        rw (t, absent) (ground arith))
  | inr f ↦ rw f (left-lookup j now ttl entries u.1)
]

map-if :
    (b : Bool) (f : SessEntry → SessEntry) (o : Option SessEntry)
    → Option.map f (if b then none else o) ≡ (if b then none else Option.map f o)
map-if true f o = refl
map-if false f o = refl

reap-left :
    (now : ℕ) (j : Str) (st : State)
    → IsUnique st.sessions
    → lookup j (reap now st).sessions ≡ left now st.cfg.session_ttl (lookup j st.sessions)
unfolding reap
reap-left now j st u =
    lookup-expire now j (reap_sessions now st.sessions st).sessions
    ∙ ap (Option.map (expire_entry now))
        (reap_sessions-lookup j now st.cfg.session_ttl st.sessions st refl)
    ∙ map-if (stale_at j now st.cfg.session_ttl st.sessions) (expire_entry now)
        (lookup j st.sessions)
    ∙ left-lookup j now st.cfg.session_ttl st.sessions u

-- The elements that pass a test.
abbrev pub select {ℓ} : {A : Type ℓ} → (A → Bool) → List A → List A
select p [] = []
select p (x ∷ xs) = let rest = select p xs in if p x then x ∷ rest else rest

-- Whether the time of a session has run out, in terms of when it was last seen.
abbrev pub is_gone : ℕ → ℕ → Session → Bool
is_gone now ttl s = ltb (s.last_seen + ttl) now && ltb ttl max_duration

-- Whether the time of a message has not run out, in terms of when it was made. No time is counted for
-- longer than the largest duration.
abbrev pub is_live : ℕ → Message → Bool
is_live now m = elim m.ttl [
  | pos t ↦ leb now (m.created_at + t) || leb max_duration t
  | negsuc t ↦ false
]

-- The entry that a cleanup should leave of an entry.
abbrev pub survivor : ℕ → ℕ → Option SessEntry → Option SessEntry
survivor now ttl none = none
survivor now ttl (some e) =
    if is_gone now ttl e.session
    then none
    else some (record e { inbox = select (is_live now) e.inbox })

is_stale_at-is_gone : (now ttl : ℕ) (s : Session) → is_stale_at s now ttl ≡ is_gone now ttl s
unfolding is_stale_at since
is_stale_at-is_gone now ttl s = ground arith

le_ℤ-is_live : (now : ℕ) (m : Message) → le_ℤ (since now m.created_at) m.ttl ≡ is_live now m
unfolding since
le_ℤ-is_live now m = ground arith

unexpired-select :
    (now : ℕ) (inbox : List Message) → unexpired now inbox ≡ select (is_live now) inbox
unfolding unexpired
unexpired-select now [] = refl
unexpired-select now (m ∷ inbox) = rw (le_ℤ-is_live now m, unexpired-select now inbox) refl

left-survivor : (now ttl : ℕ) (o : Option SessEntry) → left now ttl o ≡ survivor now ttl o
unfolding expire_entry
left-survivor now ttl none = refl
left-survivor now ttl (some e) =
    rw (is_stale_at-is_gone now ttl e.session, unexpired-select now e.inbox) refl

-- A cleanup removes exactly the sessions that were last seen longer ago than their time to live, and
-- leaves of every other session its entry with the messages, in their order, that were made no longer
-- ago than their own time to live.
pub reap-survivors :
    (now : ℕ) (j : Str) (st : State)
    → IsUnique st.sessions
    → lookup j (reap now st).sessions ≡ survivor now st.cfg.session_ttl (lookup j st.sessions)
reap-survivors now j st u =
    reap-left now j st u ∙ left-survivor now st.cfg.session_ttl (lookup j st.sessions)
