-- ===== src/Cmd/Install.antt =====
-- `install` of cmd/claude-bridge/status.go, without what it prints.
use claude_bridge.Base.{ℕ, Bool, false, Option, none, some, [], ◌∷◌, ◌++◌, if◌then◌else◌}
use claude_bridge.Text.{Str, text}
use claude_bridge.Text.Clean.{join}
use claude_bridge.Config.{env_idle_timeout}
use claude_bridge.Cmd.Os.{mkdir_all, write_file, Os}
use claude_bridge.Cmd.Main.{cmd_serve}

abbrev newline : Str
newline = 10 ∷ []

abbrev launchd_label : Str
launchd_label = text "com.claude-bridge"

abbrev launch_agents_rel_dir : Str
launch_agents_rel_dir = text "Library/LaunchAgents"

-- The argument is the path of the executable, as it stands.
unfoldable pub plist_content : Str → Str
plist_content exe =
    text "<?xml version=\"1.0\" encoding=\"UTF-8\"?>"
    ++ newline
    ++ text
        "<!DOCTYPE plist PUBLIC \"-//Apple//DTD PLIST 1.0//EN\" \"http://www.apple.com/DTDs/PropertyList-1.0.dtd\">"
    ++ newline
    ++ text "<plist version=\"1.0\">"
    ++ newline
    ++ text "<dict>"
    ++ newline
    ++ text "    <key>Label</key>"
    ++ newline
    ++ text "    <string>"
    ++ launchd_label
    ++ text "</string>"
    ++ newline
    ++ text "    <key>ProgramArguments</key>"
    ++ newline
    ++ text "    <array>"
    ++ newline
    ++ text "        <string>"
    ++ exe
    ++ text "</string>"
    ++ newline
    ++ text "        <string>"
    ++ cmd_serve
    ++ text "</string>"
    ++ newline
    ++ text "    </array>"
    ++ newline
    ++ text "    <key>EnvironmentVariables</key>"
    ++ newline
    ++ text "    <dict>"
    ++ newline
    ++ text "        <key>"
    ++ env_idle_timeout
    ++ text "</key>"
    ++ newline
    ++ text "        <string>0</string>"
    ++ newline
    ++ text "    </dict>"
    ++ newline
    ++ text "    <key>RunAtLoad</key>"
    ++ newline
    ++ text "    <true/>"
    ++ newline
    ++ text "    <key>KeepAlive</key>"
    ++ newline
    ++ text "    <true/>"
    ++ newline
    ++ text "</dict>"
    ++ newline
    ++ text "</plist>"
    ++ newline

unfoldable pub plist_dir : Str → Str
unfolding join
plist_dir home = join home launch_agents_rel_dir

unfoldable pub plist_path : Str → Str
unfolding plist_dir join
plist_path home = join (plist_dir home) (launchd_label ++ text ".plist")

module _ {S : Type 0} (os : Os S) where
  -- The home directory and the path of the executable, where they are known; the exit code.
  unfoldable pub write_plist : Option Str → Str → S → S × Bool
  unfolding plist_content plist_dir plist_path
  write_plist none exe s = (s, false)
  write_plist (some home) exe s =
      let (s1, made) = os.act (mkdir_all (plist_dir home)) s in
      let written = os.act (write_file (plist_path home) (plist_content exe)) s1 in
      if made then written else (s1, false)

  unfoldable pub run_install : Bool → Option Str → Option Str → S → S × ℕ
  unfolding write_plist
  run_install on_darwin home exe s = elim exe [
    | none ↦ (s, if on_darwin then 1 else 0)
    | some path ↦
        (let (s1, written) = write_plist home path s in
          if on_darwin then (s1, if written then 0 else 1) else (s, 0))
  ]
