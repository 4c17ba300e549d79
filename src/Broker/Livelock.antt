-- ===== src/Broker/Livelock.antt =====
-- internal/broker/livelock.go.
pub mod PairKey
pub mod Prune
pub mod Breaker
pub mod Body
use claude_bridge.Base.{
  ℕ, suc, ◌+◌, ◌-◌, ◌<◌, ◌≡◌, arith, Bool, true, false, not, ◌&&◌, ◌||◌, Option, none, some, List,
  [], ◌∷◌, ◌++◌, ltb, leb, length, drop, if◌then◌else◌,
}
use claude_bridge.Text.{Str, ◌==◌}
use claude_bridge.Text.Order.{gtb}
use claude_bridge.Text.Words.{fields, join, to_lower}
use claude_bridge.Dict.{Dict, lookup, insert, retain}
use claude_bridge.Broker.Clock.{since}
use claude_bridge.Broker.Config.{Resolved}
use claude_bridge.Broker.Message.{Message}

abbrev pub recent_window : ℕ
recent_window = 4

pub record ChainState : Type 0 where
  pub recent : List Str
  pub repeats : ℕ
  pub last_seen : ℕ

pub record LivelockTracker : Type 0 where
  pub enabled : Bool
  pub max_chain : ℕ
  pub reset_idle : ℕ
  pub pairs : Dict ChainState

unfoldable pub new_livelock_tracker : Resolved → LivelockTracker
new_livelock_tracker cfg = record {
  enabled = cfg.livelock_enabled;
  max_chain = cfg.livelock_max_chain;
  reset_idle = cfg.livelock_reset_idle;
  pairs = [];
}

-- a + "\x00" + b with the lesser string first.
unfoldable pub pair_key : Str → Str → Str
pair_key a b = if gtb a b then b ++ 0 ∷ a else a ++ 0 ∷ b

unfoldable pub normalize_body : Str → Str
normalize_body s = to_lower (join (fields s))

-- slices.Contains
unfoldable pub contains : List Str → Str → Bool
contains [] v = false
contains (x ∷ xs) v = x == v || contains xs v

unfoldable pub append_capped : List Str → Str → ℕ → List Str
append_capped xs v cap =
    let xs' = xs ++ v ∷ [] in if ltb cap (length xs') then drop (length xs' - cap) xs' else xs'

abbrev pub fresh_chain : ChainState
fresh_chain = record { recent = []; repeats = 0; last_seen = 0 }

-- The chain that a message continues: a fresh one if the pair has none or was idle too long.
unfoldable pub current_chain : Option ChainState → ℕ → ℕ → ChainState
current_chain none now reset_idle = fresh_chain
current_chain (some cs) now reset_idle =
    if ltb reset_idle (since now cs.last_seen) then fresh_chain else cs

-- What a normalized body does to its chain.
unfoldable pub extend_chain : ChainState → Str → ℕ → ChainState
extend_chain cs body now = record {
  recent = append_capped cs.recent body recent_window;
  repeats = if contains cs.recent body then cs.repeats + 1 else 0;
  last_seen = now;
}

unfoldable pub trip : LivelockTracker → Message → ℕ → LivelockTracker × Bool
trip t m now =
    if not t.enabled || leb t.max_chain 0
    then (t, false)
    else (let key = pair_key m.from m.to in
        let cs = current_chain (lookup key t.pairs) now t.reset_idle in
        let cs' = extend_chain cs (normalize_body m.content) now in
        (record t { pairs = insert key cs' t.pairs }, ltb t.max_chain cs'.repeats))

-- A working breaker puts the extended chain in place and compares its count.
pub trip_enabled :
    (t : LivelockTracker) (m : Message) (now : ℕ)
    → t.enabled ≡ true
    → 0 < t.max_chain
    → let key = pair_key m.from m.to in
      let cs =
        extend_chain
          (current_chain (lookup key t.pairs) now t.reset_idle)
          (normalize_body m.content)
          now in
      trip t m now ≡ (record t { pairs = insert key cs t.pairs }, ltb t.max_chain cs.repeats)
unfolding trip
trip_enabled t m now e p = let q : leb t.max_chain 0 ≡ false = ground arith in rw (e, q)

unfoldable pub prune : LivelockTracker → ℕ → LivelockTracker
prune t now = record t {
  pairs = retain (λ cs. not (ltb t.reset_idle (since now cs.last_seen))) t.pairs;
}
