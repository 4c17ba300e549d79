-- ===== src/Broker/Livelock/Prune.antt =====
-- The cleanup of idle pairs does not change what the breaker does.
use claude_bridge.Base.{ℕ, ◌≤◌, ◌<◌, ◌≡◌, refl, ap, ◌∙◌, true, not, Option, none, some, arith, ltb}
use claude_bridge.Dict.{lookup, keep, IsUnique, lookup-retain, lookup-insert_self}
use claude_bridge.Broker.Clock.{since, since_mono}
use claude_bridge.Broker.Message.{Message}
use claude_bridge.Broker.Livelock.{
  ChainState, LivelockTracker, current_chain, pair_key, trip, prune, trip_enabled,
}

current_chain-keep :
    (o : Option ChainState) (now later idle : ℕ)
    → now ≤ later
    → current_chain (keep (λ cs. not (ltb idle (since now cs.last_seen))) o) later idle
      ≡ current_chain o later idle
unfolding current_chain
current_chain-keep none now later idle le = refl
current_chain-keep (some cs) now later idle le =
    ground (arith, since_mono now later cs.last_seen le)

-- For a working breaker, pruning at `now` changes neither whether a later message trips it nor the
-- chain that the message leaves for its pair.
pub trip-prune :
    (t : LivelockTracker) (m : Message) (now later : ℕ)
    → IsUnique t.pairs
    → now ≤ later
    → t.enabled ≡ true
    → 0 < t.max_chain
    → ((trip (prune t now) m later).1 ≡ (trip t m later).1)
      × (lookup (pair_key m.from m.to) (trip (prune t now) m later).0.pairs
          ≡ lookup (pair_key m.from m.to) (trip t m later).0.pairs)
unfolding prune
trip-prune t m now later u le e p =
    let key = pair_key m.from m.to in
    let same : current_chain (lookup key (prune t now).pairs) later t.reset_idle
        ≡ current_chain (lookup key t.pairs) later t.reset_idle =
      ap (λ o. current_chain o later t.reset_idle) (lookup-retain _ key t.pairs u)
      ∙ current_chain-keep (lookup key t.pairs) now later t.reset_idle le in
    rw (trip_enabled t m later e p, trip_enabled (prune t now) m later e p)
      (rw (same, lookup-insert_self, lookup-insert_self) (refl, refl))
