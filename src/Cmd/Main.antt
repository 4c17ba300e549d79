-- ===== src/Cmd/Main.antt =====
-- cmd/claude-bridge/main.go. The package `flag` is a parameter, and so is the build information.
pub mod Codes
use claude_bridge.Base.{
  ℕ, ◌⊎◌, inl, inr, ◌&&◌, not, Bool, true, false, Option, none, some, List, [], ◌∷◌, if◌then◌else◌,
}
use claude_bridge.Text.{Str, text, nonempty, ◌==◌}
use claude_bridge.Text.Clean.{join}
use claude_bridge.Config.{Config, Host, load}

abbrev pub cmd_mcp : Str
cmd_mcp = text "mcp"

abbrev pub cmd_serve : Str
cmd_serve = text "serve"

abbrev pub cmd_status : Str
cmd_status = text "status"

abbrev pub cmd_stop : Str
cmd_stop = text "stop"

abbrev pub cmd_install : Str
cmd_install = text "install"

abbrev pub cmd_version : Str
cmd_version = text "version"

-- What `flag` makes of the arguments.
pub record Flags : Type 0 where
  pub config_path : Str
  pub log_level : Str
  pub args : List Str

-- The subcommands, which return an exit code.
pub record Commands (S : Type 0) : Type 0 where
  pub run_mcp : Config → S → S × ℕ
  pub run_serve : List Str → Config → S → S × ℕ
  pub run_status : Config → S → S × ℕ
  pub run_stop : Config → S → S × ℕ
  pub run_install : Config → S → S × ℕ

-- The version that the linker sets, and the one in the build information.
unfoldable pub build_version : Str → Option Str → Str
build_version version info = if not (version == text "dev") then version else elim info [
  | none ↦ version
  | some v ↦ if nonempty v && not (v == text "(devel)") then v else version
]

pub data Level : Type 0 where
  debug info warn error : Level

-- The level of the logger; an unrecognized one falls back to info.
unfoldable pub log_level_of : Config → Level
log_level_of cfg =
    if cfg.log.level == text "debug"
    then debug
    else if cfg.log.level == text "warn"
    then warn
    else if cfg.log.level == text "error"
    then error
    else info

-- What the logger is built with: its level, and whether it writes JSON or text.
pub record Logger : Type 0 where
  pub level : Level
  pub json : Bool

unfoldable pub new_logger : Config → Logger
unfolding log_level_of
new_logger cfg = record { level = log_level_of cfg; json = cfg.log.format == text "json" }

unfoldable pub default_config_path : Option Str → Str
unfolding join
default_config_path none = text ".claude-bridge/config.yaml"
default_config_path (some home) = join home (text ".claude-bridge/config.yaml")

-- The flag's level over the configuration's.
abbrev pub with_level : Str → Config → Config
with_level level cfg =
    if nonempty level then record cfg { log = record cfg.log { level = level } } else cfg

module _ {S : Type 0} (commands : Commands S) where
  unfoldable pub dispatch : Str → List Str → Config → S → S × ℕ
  dispatch sub args cfg s =
      if sub == cmd_mcp
      then commands.run_mcp cfg s
      else if sub == cmd_serve
      then commands.run_serve args cfg s
      else if sub == cmd_status
      then commands.run_status cfg s
      else if sub == cmd_stop
      then commands.run_stop cfg s
      else if sub == cmd_install
      then commands.run_install cfg s
      else (s, 2)

  -- The subcommand with the arguments after it. The version is answered before the configuration is
  -- loaded.
  unfoldable pub run_sub : Host → Flags → Str → List Str → S → S × ℕ
  unfolding dispatch
  run_sub host flags sub rest s =
      if sub == cmd_version then (s, 0) else elim (load host flags.config_path) [
        | inl e ↦ (s, 1)
        | inr cfg ↦ dispatch sub rest (with_level flags.log_level cfg) s
      ]

  -- The arguments that the flags leave.
  unfoldable pub run_args : Host → Flags → List Str → S → S × ℕ
  unfolding run_sub
  run_args host flags [] s = (s, 2)
  run_args host flags (sub ∷ rest) s =
      if nonempty sub then run_sub host flags sub rest s else (s, 2)

  unfoldable pub run : (List Str → Option Flags) → Host → List Str → S → S × ℕ
  unfolding run_args
  run parse host args s = elim (parse args) [
    | none ↦ (s, 2)
    | some flags ↦ run_args host flags flags.args s
  ]
