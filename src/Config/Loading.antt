-- ===== src/Config/Loading.antt =====
-- What `Load` makes of the defaults, the file and the environment.
use claude_bridge.Base.{
  ◌≡◌, refl, ◌⊎◌, inl, inr, true, none, some, elim_or, arith, Option-cases, subst,
}
use claude_bridge.Base.Int.{ℤ, pos}
use claude_bridge.Text.{Str}
use claude_bridge.Broker.Config.{with_defaults}
use claude_bridge.Config.{
  Config, LoadError, absent, Host, defaults, broker_config, env_duration, overlay_file, apply_env,
  load, and_then, with_env, env_runtime_dir, env_idle_timeout, env_message_ttl, env_session_ttl,
  env_log_level,
}

-- A broker configuration that leaves everything to the broker's defaults.
abbrev pub unset : claude_bridge.Broker.Config.Config
unset = record {
  message_ttl = pos 0;
  session_ttl = pos 0;
  max_inbox_size = pos 0;
  cleanup_tick = pos 0;
  broadcast_burst = pos 0;
  broadcast_refill = pos 0;
  livelock_enabled = true;
  livelock_max_chain = pos 0;
  livelock_reset_idle = pos 0;
}

-- Without a file and without overrides, loading succeeds, and the broker runs with its own defaults.
pub load-defaults :
    (h : Host) (path : Str)
    → h.read_file path ≡ absent
    → ((name : Str) → h.lookup_env name ≡ none)
    → (load h path ≡ inr defaults) × (with_defaults (broker_config defaults) ≡ with_defaults unset)
unfolding load overlay_file apply_env env_duration defaults broker_config with_defaults
load-defaults h path a n =
    let idle = n env_idle_timeout in
    let message_ttl = n env_message_ttl in
    let session_ttl = n env_session_ttl in
    let dir = n env_runtime_dir in let level = n env_log_level in (ground (arith, a), refl)

-- What a duration is after an override: the parsed value of the variable, or what it was.
abbrev pub Overrides : Host → Str → ℤ → ℤ → Type 0
Overrides h name old new =
    ((h.lookup_env name ≡ none) × (new ≡ old))
    ⊎ ((v : Str) × (h.lookup_env name ≡ some v) × (h.parse_duration v ≡ some new))

env_duration-Overrides :
    (h : Host) (name : Str) (old new : ℤ)
    → env_duration h name old ≡ inr new
    → Overrides h name old new
unfolding env_duration
env_duration-Overrides h name old new e = elim (Option-cases (h.lookup_env name)) [
  | inl n ↦ inl (n, ground arith)
  | inr (v, l) ↦ elim (Option-cases (h.parse_duration v)) [
    | inl n ↦ absurd (ground arith)
    | inr (d, p) ↦ inr (v, l, ground arith)
  ]
]

-- What an override file and environment make of a configuration.
pub record Overridden (h : Host) (base cfg : Config) : Type 0 where
  pub runtime_dir :
      cfg.daemon.runtime_dir ≡ elim_or (h.lookup_env env_runtime_dir) base.daemon.runtime_dir
  pub level : cfg.log.level ≡ elim_or (h.lookup_env env_log_level) base.log.level
  pub idle_timeout : Overrides h env_idle_timeout base.daemon.idle_timeout cfg.daemon.idle_timeout
  pub message_ttl : Overrides h env_message_ttl base.broker.message_ttl cfg.broker.message_ttl
  pub session_ttl : Overrides h env_session_ttl base.broker.session_ttl cfg.broker.session_ttl
  pub broker :
      record cfg.broker {
        message_ttl = base.broker.message_ttl;
        session_ttl = base.broker.session_ttl;
      }
      ≡ base.broker
  pub format : cfg.log.format ≡ base.log.format

all_read :
    {B : Type 0} (x y z : LoadError ⊎ ℤ) (f : ℤ → ℤ → ℤ → B) (b : B)
    → and_then x (λ i. and_then y (λ j. and_then z (λ k. inr (f i j k)))) ≡ inr b
    → (i j k : ℤ) × (x ≡ inr i) × (y ≡ inr j) × (z ≡ inr k) × (f i j k ≡ b)
all_read (inl e) y z f b p = cc
all_read (inr i) (inl e) z f b p = cc
all_read (inr i) (inr j) (inl e) f b p = cc
all_read (inr i) (inr j) (inr k) f b p = (i, j, k, refl, refl, refl, cc)

apply_env-Overridden :
    (h : Host) (base cfg : Config) → apply_env h base ≡ inr cfg → Overridden h base cfg
unfolding apply_env
apply_env-Overridden h base cfg e =
    let (i, j, k, x, y, z, p) =
      all_read (env_duration h env_idle_timeout base.daemon.idle_timeout)
        (env_duration h env_message_ttl base.broker.message_ttl)
        (env_duration h env_session_ttl base.broker.session_ttl) (with_env h base) cfg e in
    subst (Overridden h base) p (record {
      runtime_dir = refl;
      level = refl;
      idle_timeout = env_duration-Overrides h env_idle_timeout _ i x;
      message_ttl = env_duration-Overrides h env_message_ttl _ j y;
      session_ttl = env_duration-Overrides h env_session_ttl _ k z;
      broker = refl;
      format = refl;
    })

-- If loading succeeds, so did reading the file over the defaults, and each variable that is set
-- prevails over it: the runtime directory and the log level are its value, a duration is its parsed
-- value. What no variable names is as in the file.
pub load-Overridden :
    (h : Host) (path : Str) (cfg : Config)
    → load h path ≡ inr cfg
    → (base : Config) × (overlay_file h defaults path ≡ inr base) × Overridden h base cfg
unfolding load
load-Overridden h path cfg e = from_file (overlay_file h defaults path) refl e
  where
    from_file :
        (x : LoadError ⊎ Config)
        → overlay_file h defaults path ≡ x
        → and_then x (apply_env h) ≡ inr cfg
        → (base : Config) × (overlay_file h defaults path ≡ inr base) × Overridden h base cfg
    from_file (inl err) o p = cc
    from_file (inr base) o p = (base, o, apply_env-Overridden h base cfg p)
