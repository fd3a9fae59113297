-- ===== src/Main/CommandLine.antt =====
-- How the program ends, from its command line.
use vtb.Prelude.{
  ◌≡◌, Bool, refl, sym, ap, ◌∙◌, true, false, List, [], ◌∷◌, ◌++◌, pos, negsuc, if◌then◌else◌,
  Bytes, text, not, All,
}
use vtb.Prelude.Effects.{Exec, done, raised, lost}
use vtb.Cmdline.{Arguments, separator}
use vtb.Cmdline.Values.{get_string, is_true}
use vtb.Cmdline.Settings.{Setting, IsSetting, Undivided, command_line}
use vtb.Cmdline.Lookup.{latest_value, get_string-parse}
use vtb.Common.Terminal.{Terminal}
use vtb.Config.{constructed}
use vtb.Config.Startup.{
  init-after_parse, constructed-NoneRequired, answered, after_parse, help_default,
}
use vtb.Main.{Platform, Ending, exits, aborts, crashes, main, booted}
use vtb.Main.Serving.{dpdk_serves}
use vtb.Main.Endings.{known_mode, ending_of, main-ending_of}

abbrev left_by : Exec Arguments (Unit {0}) → Arguments
left_by (done x arguments) = arguments
left_by (raised e arguments) = arguments
left_by lost = []

mode_default : get_string (text "-m") constructed ≡ text "Loopback"
unfolding constructed get_string
mode_default = refl

-- The value of an argument of the program, from the settings on its command line.
abbrev pub setting_of : Bytes → Bytes → List Setting → Bytes
setting_of name default ss = latest_value constructed name ss default

same_ending :
    (a helps : Bool) (m m' : Bytes) (served : Ending)
    → a ≡ not helps
    → m ≡ m'
    → (if not a then exits (negsuc 0) else if not (known_mode m) then crashes else served)
      ≡ (if helps then exits (negsuc 0) else if not (known_mode m') then crashes else served)
same_ending a true m m' served h e = rw h
same_ending a false m m' served h e = rw (h, e)

-- A command line of settings: the program returns -1 if the last value of "--help" reads as true;
-- else the behaviour is undefined if the last value of "--mode" or "-m" ("Loopback" when there is
-- none) is not the name of a mode; else it returns 0 if all calls to DPDK succeed, and ends with
-- exit(1) if not.
pub main_settings :
    (platform : Platform) (program : Bytes) (eal : List Bytes) (ss : List Setting)
    (terminal : Terminal)
    → Undivided eal
    → All (IsSetting constructed) ss
    → (main platform (program ∷ (eal ++ (separator ∷ command_line ss))) (booted terminal)).0 ≡ (
        if is_true (setting_of (text "--help") (text "false") ss)
        then exits (negsuc 0)
        else if not (known_mode (setting_of (text "-m") (text "Loopback") ss))
        then crashes
        else if dpdk_serves platform
        then exits (pos 0)
        else aborts)
main_settings platform program eal ss terminal u h =
    let argv = program ∷ (eal ++ (separator ∷ command_line ss)) in
    let (after, e, help) =
      get_string-parse program eal ss constructed (text "--help") u constructed-NoneRequired h in
    let (after', e', mode) =
      get_string-parse program eal ss constructed (text "-m") u constructed-NoneRequired h in
    let same = ap left_by (sym e ∙ e') in
    let (started, answers, clean, answer) = answered after in
    let gives = init-after_parse argv constructed ∙ ap after_parse e ∙ answers in
    main-ending_of platform argv terminal
    ∙ ap (ending_of platform) gives
    ∙ same_ending started.answer (is_true (setting_of (text "--help") (text "false") ss))
        (get_string (text "-m") after) (setting_of (text "-m") (text "Loopback") ss)
        (if dpdk_serves platform then exits (pos 0) else aborts)
        (answer
          ∙ ap (λ v. not (is_true v))
              (help ∙ ap (latest_value constructed (text "--help") ss) help_default))
        (ap (get_string (text "-m")) same
          ∙ mode
          ∙ ap (latest_value constructed (text "-m") ss) mode_default)
