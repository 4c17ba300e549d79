-- ===== src/Config/Paths.antt =====
-- The runtime directory of internal/config/config.go and the files in it. The user's identifier and
-- the directory for temporary files are parameters.
use claude_bridge.Base.{ℕ, ◌++◌, if◌then◌else◌}
use claude_bridge.Text.{Str, text, nonempty}
use claude_bridge.Text.Clean.{join}
use claude_bridge.Text.Decimal.{itoa}
use claude_bridge.Config.{Config}

-- os.TempDir() and os.Getuid()
pub record User : Type 0 where
  pub temp_dir : Str
  pub uid : ℕ

unfoldable pub runtime_dir : User → Config → Str
unfolding join
runtime_dir u cfg =
    let dir = cfg.daemon.runtime_dir in
    if nonempty dir then dir else join u.temp_dir (text "claude-bridge-" ++ itoa u.uid)

unfoldable pub sock_path : User → Config → Str
unfolding runtime_dir
sock_path u cfg = join (runtime_dir u cfg) (text "sock")

unfoldable pub lock_path : User → Config → Str
unfolding runtime_dir
lock_path u cfg = join (runtime_dir u cfg) (text "daemon.lock")

unfoldable pub pid_path : User → Config → Str
unfolding runtime_dir
pid_path u cfg = join (runtime_dir u cfg) (text "daemon.pid")

unfoldable pub log_path : User → Config → Str
unfolding runtime_dir
log_path u cfg = join (runtime_dir u cfg) (text "daemon.log")
