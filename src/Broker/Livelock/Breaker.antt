-- ===== src/Broker/Livelock/Breaker.antt =====
-- What the breaker counts.
use claude_bridge.Base.{
  ℕ, ◌+◌, ◌≤◌, ◌<◌, ◌≡◌, ◌≢◌, ◌⊎◌, refl, ap, ◌∙◌, inl, inr, true, Option, none, some, List, [], ◌∷◌,
  arith, Bool-cases, ltb, le→ltb_false, if◌then◌else◌,
}
use claude_bridge.Text.{Str, eq_iff}
use claude_bridge.Dict.{lookup, insert, lookup-insert, lookup-insert_self}
use claude_bridge.Broker.Clock.{since}
use claude_bridge.Broker.Message.{Message}
use claude_bridge.Broker.Livelock.{
  ChainState, LivelockTracker, current_chain, extend_chain, contains, append_capped, recent_window,
  normalize_body, pair_key, trip, trip_enabled,
}

-- The last four bodies of a history whose newest body stands first, oldest first.
abbrev pub window : List Str → List Str
window [] = []
window (a ∷ []) = a ∷ []
window (a ∷ b ∷ []) = b ∷ a ∷ []
window (a ∷ b ∷ c ∷ []) = c ∷ b ∷ a ∷ []
window (a ∷ b ∷ c ∷ d ∷ older) = d ∷ c ∷ b ∷ a ∷ []

-- The unbroken run of newest bodies that each repeat one of the four before it.
unfoldable pub echoes : List Str → ℕ
echoes [] = 0
echoes (body ∷ older) =
    let run = echoes older in if contains (window older) body then run + 1 else 0

append_capped-window :
    (body : Str) (h : List Str) → append_capped (window h) body recent_window ≡ window (body ∷ h)
unfolding append_capped
append_capped-window body [] = refl
append_capped-window body (a ∷ []) = refl
append_capped-window body (a ∷ b ∷ []) = refl
append_capped-window body (a ∷ b ∷ c ∷ []) = refl
append_capped-window body (a ∷ b ∷ c ∷ d ∷ older) = refl

-- The chain that stands for a history.
abbrev chain : List Str → ℕ → ChainState
chain h last = record { recent = window h; repeats = echoes h; last_seen = last }

-- The pair has no history yet, or spoke last no longer than `idle` ago.
abbrev pub Continues : ℕ → List Str → ℕ → ℕ → Type 0
Continues idle h last now = (h ≡ []) ⊎ (since now last ≤ idle)

-- The trackers that messages lead to, with the history of one pair. Messages of other pairs may
-- come between, and the pair never pauses longer than the idle limit.
pub data Talk (t : LivelockTracker) (key : Str) : LivelockTracker → List Str → ℕ → Type 0 where
  start : lookup key t.pairs ≡ none → Talk t key t [] 0
  other :
      {u : LivelockTracker} {h : List Str} {last : ℕ} (m : Message) (now : ℕ)
      → Talk t key u h last
      → pair_key m.from m.to ≢ key
      → Talk t key (trip u m now).0 h last
  reply :
      {u : LivelockTracker} {h : List Str} {last : ℕ} (m : Message) (now : ℕ)
      → Talk t key u h last
      → pair_key m.from m.to ≡ key
      → Continues t.reset_idle h last now
      → Talk t key (trip u m now).0 (normalize_body m.content ∷ h) now

-- What the tracker holds on the pair.
record Tracks (t : LivelockTracker) (key : Str) (u : LivelockTracker) (h : List Str) (last : ℕ)
    : Type 0 where
  enabled : u.enabled ≡ t.enabled
  max_chain : u.max_chain ≡ t.max_chain
  reset_idle : u.reset_idle ≡ t.reset_idle
  holds : ((h ≡ []) × (lookup key u.pairs ≡ none)) ⊎ (lookup key u.pairs ≡ some (chain h last))

chain-extend :
    (h : List Str) (last now : ℕ) (body : Str)
    → extend_chain (chain h last) body now ≡ chain (body ∷ h) now
unfolding extend_chain echoes
chain-extend h last now body = λ i. record {
  recent = append_capped-window body h i;
  repeats = if contains (window h) body then echoes h + 1 else 0;
  last_seen = now;
}

chain-Continues :
    (h : List Str) (last idle now : ℕ) (body : Str)
    → Continues idle h last now
    → extend_chain (current_chain (some (chain h last)) now idle) body now ≡ chain (body ∷ h) now
unfolding current_chain
chain-Continues h last idle now body (inl e) = elim (Bool-cases (ltb idle (since now last))) [
  | inl t ↦ rw (t, e) (unfold echoes in chain-extend [] 0 now body)
  | inr f ↦ rw f (chain-extend h last now body)
]
chain-Continues h last idle now body (inr le) =
    rw (le→ltb_false _ _ le) (chain-extend h last now body)

holds-Continues :
    (o : Option ChainState) (h : List Str) (last idle now : ℕ) (body : Str)
    → ((h ≡ []) × (o ≡ none)) ⊎ (o ≡ some (chain h last))
    → Continues idle h last now
    → extend_chain (current_chain o now idle) body now ≡ chain (body ∷ h) now
holds-Continues o h last idle now body (inl (e, n)) c =
    rw (e, n) (unfold echoes current_chain in chain-extend [] 0 now body)
holds-Continues o h last idle now body (inr e) c = rw e (chain-Continues h last idle now body c)

module _ {t : LivelockTracker} {key : Str} (works : t.enabled ≡ true)
    (limited : 0 < t.max_chain) where
  -- A message of the pair.
  reply-Tracks :
      {u : LivelockTracker} {h : List Str} {last : ℕ} (m : Message) (now : ℕ)
      → Tracks t key u h last
      → pair_key m.from m.to ≡ key
      → Continues t.reset_idle h last now
      → Tracks t key (trip u m now).0 (normalize_body m.content ∷ h) now
        × ((trip u m now).1 ≡ ltb t.max_chain (echoes (normalize_body m.content ∷ h)))
  reply-Tracks {u} {h} {last} m now s e c =
      let body = normalize_body m.content in
      let next =
        λ (k : Str) (idle : ℕ). extend_chain (current_chain (lookup k u.pairs) now idle) body now in
      let cs = next (pair_key m.from m.to) u.reset_idle in
      let extended : cs ≡ chain (body ∷ h) now =
        ap (λ k. next k u.reset_idle) e
        ∙ ap (λ idle. next key idle) s.reset_idle
        ∙ holds-Continues (lookup key u.pairs) h last t.reset_idle now body s.holds c in
      rw (trip_enabled u m now (s.enabled ∙ works) (ground (arith, s.max_chain, limited))) (
        record {
          enabled = s.enabled;
          max_chain = s.max_chain;
          reset_idle = s.reset_idle;
          holds = inr (
              ap (λ k. lookup key (insert k cs u.pairs)) e
              ∙ lookup-insert_self key cs u.pairs
              ∙ ap some extended);
        },
        ap (λ n. ltb n cs.repeats) s.max_chain
            ∙ ap (λ (x : ChainState). ltb t.max_chain x.repeats) extended,
      )

  -- A message of another pair.
  other-Tracks :
      {u : LivelockTracker} {h : List Str} {last : ℕ} (m : Message) (now : ℕ)
      → Tracks t key u h last
      → pair_key m.from m.to ≢ key
      → Tracks t key (trip u m now).0 h last
  other-Tracks {u} {h} {last} m now s e =
      let cs =
        extend_chain (current_chain (lookup (pair_key m.from m.to) u.pairs) now u.reset_idle)
          (normalize_body m.content) now in
      let kept : lookup key (insert (pair_key m.from m.to) cs u.pairs) ≡ lookup key u.pairs =
        lookup-insert (pair_key m.from m.to) key cs u.pairs
        ∙ ground (arith, eq_iff (pair_key m.from m.to) key, e) in
      rw (trip_enabled u m now (s.enabled ∙ works) (ground (arith, s.max_chain, limited))) (record {
        enabled = s.enabled;
        max_chain = s.max_chain;
        reset_idle = s.reset_idle;
        holds = rw kept s.holds;
      })

  Talk-Tracks :
      {u : LivelockTracker} {h : List Str} {last : ℕ} → Talk t key u h last → Tracks t key u h last
  Talk-Tracks (start n) = record {
    enabled = refl;
    max_chain = refl;
    reset_idle = refl;
    holds = inl (refl, n);
  }
  Talk-Tracks (other m now talk ne) = other-Tracks m now (Talk-Tracks talk) ne
  Talk-Tracks (reply m now talk e c) = (reply-Tracks m now (Talk-Tracks talk) e c).0

-- After any traffic in which the pair never pauses longer than the idle limit, the next message of
-- the pair trips a working breaker exactly if the unbroken run of its newest bodies that repeat one
-- of the four before is longer than the limit, whatever other pairs say in between.
pub trip-echoes :
    {t u : LivelockTracker} {key : Str} {h : List Str} {last : ℕ} (m : Message) (now : ℕ)
    → t.enabled ≡ true
    → 0 < t.max_chain
    → Talk t key u h last
    → pair_key m.from m.to ≡ key
    → Continues t.reset_idle h last now
    → (trip u m now).1 ≡ ltb t.max_chain (echoes (normalize_body m.content ∷ h))
trip-echoes m now works limited talk e c =
    (reply-Tracks works limited m now (Talk-Tracks works limited talk) e c).1
