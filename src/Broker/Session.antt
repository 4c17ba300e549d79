-- ===== src/Broker/Session.antt =====
-- internal/broker/session.go.
use claude_bridge.Base.{ℕ, Bool, ltb}
use claude_bridge.Text.{Str}
use claude_bridge.Broker.Clock.{since}

pub record Session : Type 0 where
  pub id : Str
  pub project_path : Str
  pub project_name : Str
  pub registered_at : ℕ
  pub last_seen : ℕ

unfoldable pub is_stale_at : Session → ℕ → ℕ → Bool
is_stale_at s now d = ltb d (since now s.last_seen)
