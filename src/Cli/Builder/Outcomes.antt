-- ===== src/Cli/Builder/Outcomes.antt =====
-- clap/src/fluent/cli_builder.cpp: what `Build` makes of a Cli, and when it throws.
use asap_clap.Base.{
  Bool, true, false, ◌||◌, ◌&&◌, List, [], ◌∷◌, ◌≡◌, refl, any_of, map, some, Text, codes, text_eq,
  Outcome, done, fault, exception, Bool-cases, inl, inr,
}
use asap_clap.Format.{Fmt}
use asap_clap.Commands.{
  ClapOption, Command, help_name, default_name, is_default, new_command, with_option,
  find_long_option,
}
use asap_clap.Builders.{command_builder}
use asap_clap.Cli.{Cli, program_name_or_empty}
use asap_clap.Cli.Builder.{
  help_option, version_option, add_help_option, add_version_option, when, upgrade_command,
  upgrade_commands, create_default_command, set_up, build, adopt,
}

module _ (fmt : Fmt) where
  -- The text of std::domain_error.
  abbrev domain_error : Text
  domain_error = codes "default command can only have one path segment (an empty string)"

  -- The two options are always made.
  help_option_done : (cli : Cli) → (o : ClapOption) × (help_option fmt cli ≡ done o)
  unfolding help_option
  help_option_done cli = (_, refl)

  version_option_done : (cli : Cli) → (o : ClapOption) × (version_option fmt cli ≡ done o)
  unfolding version_option
  version_option_done cli = (_, refl)

  add_help_option_done :
      (cli : Cli) (c : Command) → (c' : Command) × (add_help_option fmt cli c ≡ done c')
  unfolding add_help_option
  add_help_option_done cli c = let (o, e) = help_option_done cli in (with_option o c, rw e refl)

  add_version_option_done :
      (cli : Cli) (c : Command) → (c' : Command) × (add_version_option fmt cli c ≡ done c')
  unfolding add_version_option
  add_version_option_done cli c =
      let (o, e) = version_option_done cli in (with_option o c, rw e refl)

  when_done :
      (b : Bool) (f : Command → Outcome Command)
      → ((c : Command) → (c' : Command) × (f c ≡ done c'))
      → (c : Command) → (c' : Command) × (when fmt b f c ≡ done c')
  unfolding when
  when_done true f h c = h c
  when_done false f h c = (c, refl)

  upgrade_command_done :
      (cli : Cli) (c : Command) → (c' : Command) × (upgrade_command fmt cli c ≡ done c')
  unfolding upgrade_command
  upgrade_command_done cli c =
      let (c1, e1) = when_done cli.has_help_command _ (add_help_option_done cli) c in
      let (c2, e2) =
        when_done (is_default c && cli.has_version_command) _ (add_version_option_done cli) c1 in
      (c2, rw e1 e2)

  upgrade_commands_done :
      (cli : Cli) (cs : List Command)
      → (cs' : List Command) × (upgrade_commands fmt cli cs ≡ done cs')
  unfolding upgrade_commands
  upgrade_commands_done cli [] = ([], refl)
  upgrade_commands_done cli (c ∷ cs) =
      let (c', e) = upgrade_command_done cli c in
      let (cs', e') = upgrade_commands_done cli cs in (c' ∷ cs', rw e (rw e' refl))

  create_default_command_throws :
      (cli : Cli) → create_default_command fmt cli ≡ fault (exception domain_error)
  unfolding create_default_command command_builder new_command text_eq
  create_default_command_throws cli =
      elim (Bool-cases (text_eq (program_name_or_empty cli) default_name)) [
        | inl empty ↦ rw empty refl
        | inr named ↦ rw named refl
      ]

  -- With the help or the version command enabled and no default command given, `Build` throws
  -- std::domain_error, for every program name and every list of commands.
  pub build_throws :
      (cli : Cli)
      → (cli.has_help_command || cli.has_version_command) ≡ true
      → any_of is_default cli.commands ≡ false
      → build fmt (some cli) ≡ fault (exception domain_error)
  unfolding build set_up
  build_throws cli h none_given =
      let (cs', e) = upgrade_commands_done cli cli.commands in
      rw (h, e, none_given, create_default_command_throws cli) refl

  -- What `Build` makes of a command when help is enabled: `--help` is the option of the builder, and
  -- the path stays.
  pub record IsUpgraded (cli : Cli) (c c' : Command) : Type 0 where
    pub path : c'.path ≡ c.path
    pub help :
        (o : ClapOption) × (help_option fmt cli ≡ done o) × (find_long_option help_name c' ≡ some o)

  with_help :
      (cli : Cli) (c : Command)
      → (c' : Command) × (add_help_option fmt cli c ≡ done c') × IsUpgraded cli c c'
  unfolding add_help_option help_option find_long_option with_option text_eq
  with_help cli c = (_, refl, record { path = refl; help = (_, refl, refl) })

  with_version :
      (cli : Cli) (c c' : Command)
      → IsUpgraded cli c c'
      → (c'' : Command) × (add_version_option fmt cli c' ≡ done c'') × IsUpgraded cli c c''
  unfolding add_version_option version_option find_long_option with_option text_eq
  with_version cli c c' u = (_, refl, record { path = u.path; help = u.help })

  maybe_version :
      (b : Bool) (cli : Cli) (c c' : Command)
      → IsUpgraded cli c c'
      → (c'' : Command) × (when fmt b (add_version_option fmt cli) c' ≡ done c'')
        × IsUpgraded cli c c''
  unfolding when
  maybe_version true cli c c' u = with_version cli c c' u
  maybe_version false cli c c' u = (c', refl, u)

  enabled_help :
      (b : Bool) (cli : Cli) (c : Command)
      → b ≡ true
      → (c' : Command) × (when fmt b (add_help_option fmt cli) c ≡ done c') × IsUpgraded cli c c'
  unfolding when
  enabled_help true cli c h = with_help cli c
  enabled_help false cli c h = cc

  either_enabled : (b v : Bool) → b ≡ true → (b || v) ≡ true
  either_enabled b v h = rw h refl

  upgrade_command-IsUpgraded :
      (cli : Cli)
      → cli.has_help_command ≡ true
      → (c : Command) → (c' : Command) × (upgrade_command fmt cli c ≡ done c') × IsUpgraded cli c c'
  unfolding upgrade_command
  upgrade_command-IsUpgraded cli h c =
      let (c1, e1, u1) = enabled_help cli.has_help_command cli c h in
      let (c2, e2, u2) = maybe_version (is_default c && cli.has_version_command) cli c c1 u1 in
      (c2, rw e1 e2, u2)

  -- The commands of a Cli and those built from them.
  abbrev pub AllUpgraded : Cli → List Command → List Command → Type 0
  AllUpgraded cli [] [] = Unit
  AllUpgraded cli (c ∷ cs) (c' ∷ cs') =
      IsUpgraded cli c c' × (c'.has_parent_cli ≡ true) × AllUpgraded cli cs cs'
  AllUpgraded cli _ _ = ⊥

  upgraded_commands :
      (cli : Cli)
      → cli.has_help_command ≡ true
      → (cs : List Command)
      → (cs' : List Command) × (upgrade_commands fmt cli cs ≡ done cs')
        × AllUpgraded cli cs (map (adopt fmt) cs')
  unfolding upgrade_commands find_long_option
  upgraded_commands cli h [] = ([], refl, tt)
  upgraded_commands cli h (c ∷ cs) =
      let (c', e, u) = upgrade_command-IsUpgraded cli h c in
      let (cs', e', us) = upgraded_commands cli h cs in
      (c' ∷ cs', rw (e, e') refl, (record { path = u.path; help = u.help }, refl, us))

  -- With the help command enabled and a default command given, `Build` succeeds, and each command
  -- that was given is there, in its place, with its path, with the Cli as its parent, and with a
  -- `--help` option that FindLongOption finds.
  pub build_upgrades :
      (cli : Cli)
      → cli.has_help_command ≡ true
      → any_of is_default cli.commands ≡ true
      → (cli' : Cli) × (build fmt (some cli) ≡ done cli')
        × AllUpgraded cli cli.commands cli'.commands
  unfolding build set_up
  build_upgrades cli h given =
      let (cs', e, us) = upgraded_commands cli h cli.commands in
      (
        record cli { commands = map (adopt fmt) cs' },
        rw (either_enabled cli.has_help_command cli.has_version_command h, e, given) refl,
        us,
      )
