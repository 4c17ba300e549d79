-- ===== src/Config.antt =====
-- internal/config/config.go: the configuration file with its environment overrides, and
-- `brokerConfig` of cmd/claude-bridge/serve.go. Reading a file, YAML and the syntax of durations are
-- parameters.
pub mod Loading
pub mod Paths
use claude_bridge.Base.{ℕ, ◌*◌, ◌⊎◌, inl, inr, Bool, true, Option, none, some, [], elim_or}
use claude_bridge.Base.Int.{ℤ, pos}
use claude_bridge.Text.{Str, text}
use claude_bridge.Broker.Clock.{second, minute}

-- The sections of the file. A duration is a signed count of nanoseconds.
pub record Daemon : Type 0 where
  pub runtime_dir : Str
  pub idle_timeout : ℤ

pub record Livelock : Type 0 where
  pub enabled : Bool
  pub max_chain : ℤ
  pub reset_idle : ℤ

pub record Broker : Type 0 where
  pub message_ttl : ℤ
  pub session_ttl : ℤ
  pub max_inbox_size : ℤ
  pub cleanup_tick : ℤ
  pub broadcast_burst : ℤ
  pub broadcast_refill : ℤ
  pub livelock : Livelock

pub record Log : Type 0 where
  pub level : Str
  pub format : Str

pub record Config : Type 0 where
  pub daemon : Daemon
  pub broker : Broker
  pub log : Log

abbrev pub default_livelock : Livelock
default_livelock = record { enabled = true; max_chain = pos 20; reset_idle = pos (60 * second) }

abbrev pub default_broker : Broker
default_broker = record {
  message_ttl = pos (5 * minute);
  session_ttl = pos (30 * minute);
  max_inbox_size = pos 100;
  cleanup_tick = pos minute;
  broadcast_burst = pos 3;
  broadcast_refill = pos (10 * second);
  livelock = default_livelock;
}

unfoldable pub defaults : Config
defaults = record {
  daemon = record { runtime_dir = []; idle_timeout = pos (15 * minute) };
  broker = default_broker;
  log = record { level = text "info"; format = text "text" };
}

unfoldable pub broker_config : Config → claude_bridge.Broker.Config.Config
broker_config cfg = record {
  message_ttl = cfg.broker.message_ttl;
  session_ttl = cfg.broker.session_ttl;
  max_inbox_size = cfg.broker.max_inbox_size;
  cleanup_tick = cfg.broker.cleanup_tick;
  broadcast_burst = cfg.broker.broadcast_burst;
  broadcast_refill = cfg.broker.broadcast_refill;
  livelock_enabled = cfg.broker.livelock.enabled;
  livelock_max_chain = cfg.broker.livelock.max_chain;
  livelock_reset_idle = cfg.broker.livelock.reset_idle;
}

abbrev pub env_runtime_dir : Str
env_runtime_dir = text "CLAUDE_BRIDGE_RUNTIME_DIR"

abbrev pub env_idle_timeout : Str
env_idle_timeout = text "CLAUDE_BRIDGE_IDLE_TIMEOUT"

abbrev pub env_message_ttl : Str
env_message_ttl = text "CLAUDE_BRIDGE_MESSAGE_TTL"

abbrev pub env_session_ttl : Str
env_session_ttl = text "CLAUDE_BRIDGE_SESSION_TTL"

abbrev pub env_log_level : Str
env_log_level = text "CLAUDE_BRIDGE_LOG_LEVEL"

pub data LoadError : Type 0 where
  unreadable malformed : LoadError
  invalid_duration : Str → Str → LoadError

-- What `os.ReadFile` answers.
pub data FileRead : Type 0 where
  absent failed : FileRead
  content : Str → FileRead

-- What the program takes from outside: the environment, the file, `time.ParseDuration`, the string
-- that a node of YAML holds, from the text of the node, and `yaml.Unmarshal` into a configuration,
-- which decodes a duration by the method that it is given.
pub record Host : Type 0 where
  pub lookup_env : Str → Option Str
  pub read_file : Str → FileRead
  pub parse_duration : Str → Option ℤ
  pub decode_string : Str → Option Str
  pub unmarshal : (Str → Option ℤ) → Str → Config → Option Config

abbrev pub and_then : {A B : Type 0} → LoadError ⊎ A → (A → LoadError ⊎ B) → LoadError ⊎ B
and_then (inl e) f = inl e
and_then (inr x) f = f x

parsed : Host → Str → Str → LoadError ⊎ ℤ
parsed h name v = elim (h.parse_duration v) [
  | none ↦ inl (invalid_duration name v)
  | some d ↦ inr d
]

unfoldable pub env_duration : Host → Str → ℤ → LoadError ⊎ ℤ
unfolding parsed
env_duration h name dst = elim (h.lookup_env name) [ none ↦ inr dst | some v ↦ parsed h name v ]

-- `Duration.UnmarshalYAML`: what it stores, unless it fails.
unfoldable pub unmarshal_yaml : Host → Str → Option ℤ
unmarshal_yaml h node = elim (h.decode_string node) [ none ↦ none | some s ↦ h.parse_duration s ]

unfoldable pub overlay_file : Host → Config → Str → LoadError ⊎ Config
overlay_file h cfg path = elim (h.read_file path) [
  | absent ↦ inr cfg
  | failed ↦ inl unreadable
  | content data_ ↦ elim (h.unmarshal (unmarshal_yaml h) data_ cfg) [
    | none ↦ inl malformed
    | some c ↦ inr c
  ]
]

-- What `applyEnv` leaves, with the durations that it has read.
abbrev pub with_env : Host → Config → ℤ → ℤ → ℤ → Config
with_env h cfg idle_timeout message_ttl session_ttl = record {
  daemon = record {
    runtime_dir = elim_or (h.lookup_env env_runtime_dir) cfg.daemon.runtime_dir;
    idle_timeout = idle_timeout;
  };
  broker = record cfg.broker { message_ttl = message_ttl; session_ttl = session_ttl };
  log = record cfg.log { level = elim_or (h.lookup_env env_log_level) cfg.log.level };
}

-- The durations are read in this order, and the first that is invalid ends it.
unfoldable pub apply_env : Host → Config → LoadError ⊎ Config
apply_env h cfg = and_then (env_duration h env_idle_timeout cfg.daemon.idle_timeout) λ idle.
    and_then (env_duration h env_message_ttl cfg.broker.message_ttl) λ message.
      and_then (env_duration h env_session_ttl cfg.broker.session_ttl)
        λ session. inr (with_env h cfg idle message session)

unfoldable pub load : Host → Str → LoadError ⊎ Config
load h path = and_then (overlay_file h defaults path) λ cfg. apply_env h cfg
