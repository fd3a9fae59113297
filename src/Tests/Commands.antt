-- ===== src/Tests/Commands.antt =====
-- Instances for Cmdline.antt and Config.antt.
use vtb.Prelude.{
  negsuc, ok, show_int, false, ◌≡◌, refl, true, none, some, List, [], ◌∷◌, ◌++◌, Bytes, text, All,
}
use vtb.Prelude.Effects.{done}
use vtb.Cmdline.{Arguments, separator, parse, app_options}
use vtb.Cmdline.Values.Numbers.{get_int-show_int}
use vtb.Cmdline.Values.{get_int, get_string, get_bool}
use vtb.Cmdline.Settings.{Setting, IsSetting, command_line}
use vtb.Cmdline.Lookup.{latest_value, get_string-parse}
use vtb.Cmdline.Flags.{Leaves, SameButFound, parse-SameButFound}
use vtb.Config.{Started, constructed, init}
use vtb.Config.Startup.{init_flags_only}

abbrev settings : List Setting
settings =
    record { flag = text "-m"; value = some (text "Back2Back") }
    ∷ record { flag = text "--mode"; value = some (text "Emulator") }
    ∷ record { flag = text "-mth"; value = none }
    ∷ []

settings-IsSetting : All (IsSetting constructed) settings
unfolding constructed
settings-IsSetting = (
  record { option = refl; in_table = refl; plain = refl },
  (
    record { option = refl; in_table = refl; plain = refl },
    (record { option = refl; in_table = refl; plain = tt }, tt),
  ),
)

get_string-parse_example :
    (after : Arguments) × (parse
        (text "vtb" ∷ ((text "-l" ∷ []) ++ (separator ∷ command_line settings)))
        constructed
      ≡ done tt after)
    × (get_string (text "-m") after
        ≡ latest_value constructed (text "-m") settings (get_string (text "-m") constructed))
unfolding constructed
get_string-parse_example =
    get_string-parse (text "vtb") (text "-l" ∷ []) settings constructed (text "-m") (refl, tt)
      (refl, (refl, (refl, (refl, (refl, (refl, (refl, tt))))))) settings-IsSetting

abbrev help_line : List Bytes
help_line = text "vtb" ∷ text "--" ∷ text "--help" ∷ []

parse-SameButFound_example : Leaves (SameButFound constructed) (parse help_line constructed)
unfolding app_options
parse-SameButFound_example =
    parse-SameButFound help_line (text "--help" ∷ []) constructed refl (refl, tt)

abbrev went_on : Started
went_on = record { answer = true; printed = []; errors = [] }

abbrev found_first : Arguments → Arguments
found_first [] = []
found_first (arg ∷ arguments) = record arg { found = true } ∷ arguments

help_run : init help_line constructed ≡ done went_on (found_first constructed)
unfolding init parse constructed get_bool get_string app_options
help_run = refl

init_flags_only_example : (went_on.answer ≡ true) × (went_on.printed ≡ [])
unfolding app_options constructed get_bool get_string
init_flags_only_example =
    init_flags_only help_line (text "--help" ∷ []) constructed (found_first constructed) went_on
      refl (refl, tt) refl help_run refl

-- A table with one argument, of the given value.
abbrev one_argument : Bytes → Arguments
one_argument v =
    record {
      long_name = text "--mode-threads";
      short_name = text "-mth";
      description = text "1 | 2";
      required = false;
      found = true;
      value = v;
    }
    ∷ []

get_int-show_int_example :
    get_int (text "-mth") (one_argument (text "-2147483648")) ≡ ok (negsuc 2147483647)
unfolding get_string show_int
get_int-show_int_example =
    get_int-show_int (text "-mth") (one_argument (text "-2147483648")) (negsuc 2147483647) refl
