-- ===== src/Broker/Config.antt =====
-- The type `Config` of internal/broker/broker.go and its defaults.
use claude_bridge.Base.{ℕ, ◌*◌, ◌<◌, ◌≡◌, Bool, arith}
use claude_bridge.Base.Int.{ℤ, pos, positive_or}
use claude_bridge.Broker.Clock.{second, minute}

-- As the caller gives it: durations and counts are signed.
pub record Config : Type 0 where
  pub message_ttl : ℤ
  pub session_ttl : ℤ
  pub max_inbox_size : ℤ
  pub cleanup_tick : ℤ
  pub broadcast_burst : ℤ
  pub broadcast_refill : ℤ
  pub livelock_enabled : Bool
  pub livelock_max_chain : ℤ
  pub livelock_reset_idle : ℤ

-- What `withDefaults` returns and the run loop keeps: every number is a natural number.
pub record Resolved : Type 0 where
  pub message_ttl : ℕ
  pub session_ttl : ℕ
  pub max_inbox_size : ℕ
  pub cleanup_tick : ℕ
  pub broadcast_burst : ℕ
  pub broadcast_refill : ℕ
  pub livelock_enabled : Bool
  pub livelock_max_chain : ℕ
  pub livelock_reset_idle : ℕ

abbrev pub default_message_ttl : ℕ
default_message_ttl = 5 * minute

abbrev pub default_session_ttl : ℕ
default_session_ttl = 30 * minute

abbrev pub default_max_inbox_size : ℕ
default_max_inbox_size = 100

abbrev pub default_cleanup_tick : ℕ
default_cleanup_tick = minute

abbrev pub default_broadcast_burst : ℕ
default_broadcast_burst = 3

abbrev pub default_broadcast_refill : ℕ
default_broadcast_refill = 10 * second

abbrev pub default_livelock_max_chain : ℕ
default_livelock_max_chain = 20

abbrev pub default_livelock_reset_idle : ℕ
default_livelock_reset_idle = 60 * second

unfoldable pub with_defaults : Config → Resolved
with_defaults c = record {
  message_ttl = positive_or c.message_ttl default_message_ttl;
  session_ttl = positive_or c.session_ttl default_session_ttl;
  max_inbox_size = positive_or c.max_inbox_size default_max_inbox_size;
  cleanup_tick = positive_or c.cleanup_tick default_cleanup_tick;
  broadcast_burst = positive_or c.broadcast_burst default_broadcast_burst;
  broadcast_refill = positive_or c.broadcast_refill default_broadcast_refill;
  livelock_enabled = c.livelock_enabled;
  livelock_max_chain = positive_or c.livelock_max_chain default_livelock_max_chain;
  livelock_reset_idle = positive_or c.livelock_reset_idle default_livelock_reset_idle;
}

-- The resolved value seen as a configuration again.
abbrev pub as_config : Resolved → Config
as_config r = record {
  message_ttl = pos r.message_ttl;
  session_ttl = pos r.session_ttl;
  max_inbox_size = pos r.max_inbox_size;
  cleanup_tick = pos r.cleanup_tick;
  broadcast_burst = pos r.broadcast_burst;
  broadcast_refill = pos r.broadcast_refill;
  livelock_enabled = r.livelock_enabled;
  livelock_max_chain = pos r.livelock_max_chain;
  livelock_reset_idle = pos r.livelock_reset_idle;
}

-- What the run loop relies on.
pub record IsPositive (r : Resolved) : Type 0 where
  pub message_ttl : 0 < r.message_ttl
  pub session_ttl : 0 < r.session_ttl
  pub max_inbox_size : 0 < r.max_inbox_size
  pub cleanup_tick : 0 < r.cleanup_tick
  pub broadcast_burst : 0 < r.broadcast_burst
  pub broadcast_refill : 0 < r.broadcast_refill
  pub livelock_max_chain : 0 < r.livelock_max_chain
  pub livelock_reset_idle : 0 < r.livelock_reset_idle

positive_or_pos : (z : ℤ) (d : ℕ) → 0 < d → 0 < positive_or z d
positive_or_pos z d h = ground arith

positive_or_idem : (z : ℤ) (d : ℕ) → positive_or (pos (positive_or z d)) d ≡ positive_or z d
positive_or_idem z d = ground arith

pub with_defaults-IsPositive : (c : Config) → IsPositive (with_defaults c)
unfolding with_defaults
with_defaults-IsPositive c = record {
  message_ttl = positive_or_pos c.message_ttl _ (omega arith);
  session_ttl = positive_or_pos c.session_ttl _ (omega arith);
  max_inbox_size = positive_or_pos c.max_inbox_size _ (omega arith);
  cleanup_tick = positive_or_pos c.cleanup_tick _ (omega arith);
  broadcast_burst = positive_or_pos c.broadcast_burst _ (omega arith);
  broadcast_refill = positive_or_pos c.broadcast_refill _ (omega arith);
  livelock_max_chain = positive_or_pos c.livelock_max_chain _ (omega arith);
  livelock_reset_idle = positive_or_pos c.livelock_reset_idle _ (omega arith);
}

-- Resolving a configuration makes every number positive, and resolving it once more changes nothing.
pub with_defaults_settles :
    (c : Config)
    → IsPositive (with_defaults c) × (with_defaults (as_config (with_defaults c)) ≡ with_defaults c)
unfolding with_defaults
with_defaults_settles c = (
  with_defaults-IsPositive c,
  λ i. record {
    message_ttl = positive_or_idem c.message_ttl default_message_ttl i;
    session_ttl = positive_or_idem c.session_ttl default_session_ttl i;
    max_inbox_size = positive_or_idem c.max_inbox_size default_max_inbox_size i;
    cleanup_tick = positive_or_idem c.cleanup_tick default_cleanup_tick i;
    broadcast_burst = positive_or_idem c.broadcast_burst default_broadcast_burst i;
    broadcast_refill = positive_or_idem c.broadcast_refill default_broadcast_refill i;
    livelock_enabled = c.livelock_enabled;
    livelock_max_chain = positive_or_idem c.livelock_max_chain default_livelock_max_chain i;
    livelock_reset_idle = positive_or_idem c.livelock_reset_idle default_livelock_reset_idle i;
  },
)
