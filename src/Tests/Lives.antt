-- ===== src/Tests/Lives.antt =====
-- Instances for Controller/Server.antt, Vhost/Lifecycle.antt, Common/Terminal.antt and Main.antt.
use vtb.Prelude.{
  ℕ, ◌≡◌, refl, true, false, none, some, List, [], ◌∷◌, ◌++◌, pos, negsuc, text, if◌then◌else◌, All,
  not,
}
use vtb.Cmdline.{parse, app_options, separator}
use vtb.Cmdline.Values.{get_bool, get_string, is_true}
use vtb.Cmdline.Settings.{Setting, IsSetting, command_line}
use vtb.Common.Terminal.{Terminal, disable_echoctl}
use vtb.Config as Config
use vtb.Controller.{create_controller, loopback}
use vtb.Controller.Server as Server
use vtb.Controller.Server.{Answers}
use vtb.Controller.Server.Closing.{answers, times_closed, times_spawned, destroy-start-closes}
use vtb.Vhost.Lifecycle as Lifecycle
use vtb.Vhost.Lifecycle.{Backend, StartAnswers, System, construct}
use vtb.Vhost.Lifecycle.Follow.{Use, initialise, begin, follow_all, nothing_held}
use vtb.Vhost.Lifecycle.Protocol.{used, destroy-used, construct-used}
use vtb.Main.{run_backend, Platform, exits, aborts, crashes, main, booted}
use vtb.Main.Serving.{dpdk_serves}
use vtb.Main.Endings.{
  known_mode, ending_of, is_zero_exit, HasEnded, main-ending_of, main-terminal, main-HasEnded,
}
use vtb.Main.CommandLine.{setting_of, main_settings}

-- A terminal that echoes control characters.
abbrev console : Terminal
console = record {
  settings = record { c_lflag = 35387; others = [] };
  old_t = record { c_lflag = 0; others = [] };
}

abbrev bound : Answers
bound = answers (pos 7) (pos 0) (pos 8)

destroy-start-closes_example :
    let started =
      Server.start
        (answers (pos 7) (negsuc 0) (pos 8))
        Config.constructed
        (Server.constructed loopback) in
    let ended = Server.destroy started in
    (times_closed (pos 7) ended.calls ≡ 1)
    × (times_spawned ended.calls ≡ 1)
    × (ended.is_running ≡ false)
destroy-start-closes_example = destroy-start-closes 7 (negsuc 0) (pos 8) Config.constructed

abbrev all_well : StartAnswers
all_well = record { registered = pos 0; callbacks = pos 0; started = pos 0 }

abbrev not_started : StartAnswers
not_started = record { registered = pos 0; callbacks = pos 0; started = negsuc 0 }

-- The environment fails once, and so does the start of the driver.
abbrev uses : List Use
uses = initialise (negsuc 0) ∷ initialise (pos 0) ∷ begin not_started ∷ []

destroy-used_example :
    (s : System) × (used (pos 5) Config.constructed (text "/tmp/vhost.sock") uses ≡ some s)
    × (follow_all (Lifecycle.destroy s).calls nothing_held ≡ some nothing_held)
    × ((Lifecycle.destroy s).instance_set ≡ false)
destroy-used_example =
    destroy-used (pos 5) Config.constructed (text "/tmp/vhost.sock") uses (refl, tt)

construct-used_example :
    (s : System) × (used (pos 5) Config.constructed (text "/tmp/vhost.sock") uses ≡ some s)
    × (construct (pos 6) Config.constructed (text "/tmp/other.sock") s.1 ≡ (none, s.1))
    × ((b : Backend) × ((construct
            (pos 6)
            Config.constructed
            (text "/tmp/other.sock")
            (Lifecycle.destroy s)).0
          ≡ some b))
construct-used_example =
    construct-used (pos 5) (pos 6) Config.constructed (text "/tmp/vhost.sock")
      (text "/tmp/other.sock") uses

abbrev platform : StartAnswers → Platform
platform driver = record {
  log_opens = true;
  server = bound;
  client_fd = pos 11;
  eal = pos 4;
  driver = driver;
}

abbrev plain_line : List (List ℕ)
plain_line = text "vtb" ∷ text "-l" ∷ text "0-2" ∷ text "--" ∷ []

main-ending_of_example :
    (main (platform not_started) plain_line (booted console)).0
    ≡ ending_of (platform not_started) (Config.init plain_line Config.constructed)
main-ending_of_example = main-ending_of (platform not_started) plain_line console

main-terminal_example :
    let (ending, after) = main (platform not_started) plain_line (booted console) in
    after.terminal.settings
    ≡ (if is_zero_exit ending then console.settings else (disable_echoctl console).settings)
main-terminal_example = main-terminal (platform not_started) plain_line console

zero_exit : (main (platform all_well) plain_line (booted console)).0 ≡ exits (pos 0)
unfolding main Config.init Config.constructed run_backend construct parse get_bool get_string
    app_options create_controller Lifecycle.init Lifecycle.start
zero_exit = refl

main-HasEnded_example :
    HasEnded (platform all_well) (main (platform all_well) plain_line (booted console)).1
main-HasEnded_example = main-HasEnded (platform all_well) plain_line console zero_exit

abbrev settings : List Setting
settings = record { flag = text "-m"; value = some (text "Emulator") } ∷ []

settings-IsSetting : All (IsSetting Config.constructed) settings
unfolding Config.constructed
settings-IsSetting = (record { option = refl; in_table = refl; plain = refl }, tt)

main_settings_example :
    (main
      (platform all_well)
      (text "vtb" ∷ ((text "-l" ∷ []) ++ (separator ∷ command_line settings)))
      (booted console)).0
    ≡ (if is_true (setting_of (text "--help") (text "false") settings)
        then exits (negsuc 0)
        else if not (known_mode (setting_of (text "-m") (text "Loopback") settings))
        then crashes
        else if dpdk_serves (platform all_well)
        then exits (pos 0)
        else aborts)
main_settings_example =
    main_settings (platform all_well) (text "vtb") (text "-l" ∷ []) settings console (refl, tt)
      settings-IsSetting
