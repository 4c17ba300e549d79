-- ===== src/Broker/Bucket.antt =====
-- The type `tokenBucket` of internal/broker/broker.go. Its counts do not overflow: what is gained
-- at once is at most `max_duration`.
pub mod Rate
use claude_bridge.Base.{
  ℕ, zero, suc, ◌+◌, ◌-◌, ◌*◌, ◌/◌, ◌≤◌, min, Bool, true, false, leb, if◌then◌else◌,
}
use claude_bridge.Broker.Clock.{since}
use claude_bridge.Broker.Config.{Resolved}

pub record TokenBucket : Type 0 where
  pub tokens : ℕ
  pub burst : ℕ
  pub refill : ℕ
  pub last_refill : ℕ

-- A full bucket.
unfoldable pub new_bucket : Resolved → ℕ → TokenBucket
new_bucket cfg now = record {
  tokens = cfg.broadcast_burst;
  burst = cfg.broadcast_burst;
  refill = cfg.broadcast_refill;
  last_refill = now;
}

-- The first half of `take`: whole intervals that have passed are turned into tokens.
unfoldable pub refilled : TokenBucket → ℕ → TokenBucket
refilled tb now =
    let elapsed = since now tb.last_refill in
    let gained = elapsed / tb.refill in
    if leb tb.refill elapsed
    then record tb {
      tokens = min tb.burst (tb.tokens + gained);
      last_refill = tb.last_refill + gained * tb.refill;
    }
    else tb

unfoldable pub take : TokenBucket → ℕ → TokenBucket × Bool
take tb now =
    let tb' = refilled tb now in
    if leb tb'.tokens 0 then (tb', false) else (record tb' { tokens = tb'.tokens - 1 }, true)
