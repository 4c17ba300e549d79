-- ===== src/Cmd/Main/Codes.antt =====
-- When the program reports a usage error.
use mathlib.Core.Option.{some-injective}
use claude_bridge.Base.{
  ◌≡◌, ◌≢◌, ◌↔◌, ◌⊎◌, refl, sym, subst, inl, inr, ◌||◌, Bool, true, false, Option, none, some, List,
  [], ◌∷◌, arith, Option-cases, Sum-cases,
}
use claude_bridge.Text.{Str, nonempty, ◌==◌}
use claude_bridge.Config.{Config, Host, load}
use claude_bridge.Cmd.Main.{
  cmd_mcp, cmd_serve, cmd_status, cmd_stop, cmd_install, cmd_version, Flags, Commands, dispatch,
  run_sub, run_args, run, with_level,
}

abbrev pub is_command : Str → Bool
is_command sub =
    sub == cmd_mcp || sub == cmd_serve || sub == cmd_status || sub == cmd_stop || sub == cmd_install

abbrev pub loads : Host → Str → Bool
loads host path = elim (load host path) [ inl e ↦ false | inr cfg ↦ true ]

-- A subcommand that is unknown, where the configuration loads.
abbrev pub IsUnknownSub : Host → Flags → Str → Type 0
IsUnknownSub host flags sub =
    (is_command sub ≡ false)
    × ((sub == cmd_version) ≡ false)
    × (loads host flags.config_path ≡ true)

-- The arguments after the flags: no subcommand, an empty one or an unknown one.
abbrev pub IsMisused : Host → Flags → List Str → Type 0
IsMisused host flags [] = Unit
IsMisused host flags (sub ∷ rest) = (nonempty sub ≡ false) ⊎ IsUnknownSub host flags sub

-- No subcommand ends with the code of a usage error.
pub record IsOrderly {S : Type 0} (c : Commands S) : Type 0 where
  pub mcp : (cfg : Config) (s : S) → (c.run_mcp cfg s).1 ≢ 2
  pub serve : (args : List Str) (cfg : Config) (s : S) → (c.run_serve args cfg s).1 ≢ 2
  pub status : (cfg : Config) (s : S) → (c.run_status cfg s).1 ≢ 2
  pub stop : (cfg : Config) (s : S) → (c.run_stop cfg s).1 ≢ 2
  pub install : (cfg : Config) (s : S) → (c.run_install cfg s).1 ≢ 2

module _ {S : Type 0} (c : Commands S) (o : IsOrderly c) where
  dispatch-usage :
      (sub : Str) (args : List Str) (cfg : Config) (s : S)
      → ((dispatch c sub args cfg s).1 ≡ 2) ↔ (is_command sub ≡ false)
  unfolding dispatch
  dispatch-usage sub args cfg s =
      ground (arith, o.mcp cfg s, o.serve args cfg s, o.status cfg s, o.stop cfg s, o.install cfg s)

  run_sub-usage :
      (host : Host) (flags : Flags) (sub : Str) (rest : List Str) (s : S)
      → ((run_sub c host flags sub rest s).1 ≡ 2) ↔ IsUnknownSub host flags sub
  unfolding run_sub
  run_sub-usage host flags sub rest s = elim (Sum-cases (load host flags.config_path)) [
    | inl (e, bad) ↦ rw (bad, run_sub) (ground (arith, bad))
    | inr (cfg, good) ↦
        rw (good, run_sub)
          (ground (arith, good, dispatch-usage sub rest (with_level flags.log_level cfg) s))
  ]

  run_args-usage :
      (host : Host) (flags : Flags) (args : List Str) (s : S)
      → ((run_args c host flags args s).1 ≡ 2) ↔ IsMisused host flags args
  unfolding run_args
  run_args-usage host flags [] s = (λ e. tt, λ u. refl)
  run_args-usage host flags (sub ∷ rest) s = ground (arith, run_sub-usage host flags sub rest s)

  -- The program exits with 2 exactly for a usage error: the arguments do not parse, there is no
  -- subcommand or an empty one, or there is an unknown one and the configuration loads. The condition
  -- is that no subcommand itself exits with 2.
  pub run-usage :
      (parse : List Str → Option Flags) (host : Host) (args : List Str) (s : S)
      → ((run c parse host args s).1 ≡ 2) ↔ (
          (parse args ≡ none)
          ⊎ ((flags : Flags) × (parse args ≡ some flags) × IsMisused host flags flags.args))
  unfolding run
  run-usage parse host args s = elim (Option-cases (parse args)) [
    | inl bad ↦ rw (bad, run) (λ e. inl refl, λ u. refl)
    | inr (flags, good) ↦
        (let (to, from) = run_args-usage host flags flags.args s in
          rw (good, run)
            (
              λ e. inr (flags, refl, to e),
              λ u. elim u [
                | inl bad ↦ absurd cc
                | inr (other, same, misused) ↦ from (
                    subst (λ f. IsMisused host f f.args) (sym (some-injective flags other same))
                      misused)
              ],
            ))
  ]
