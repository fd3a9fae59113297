-- ===== src/Cmdline/Lookup.antt =====
-- What `get<std::string>` reads after a command line has been parsed.
use vtb.Prelude.{
  ◌≡◌, refl, ◌∙◌, ap, Bool, false, Option, none, some, List, [], ◌∷◌, ◌++◌, nat_eq, bytes_eq,
  if◌then◌else◌, Bytes, arith, All,
}
use vtb.Prelude.Effects.{done}
use vtb.Cmdline.{Arguments, names, separator, parse}
use vtb.Cmdline.Values.{get_string}
use vtb.Cmdline.Settings.{
  Setting, NoneRequired, IsSetting, Undivided, command_line, mark, apply, parse-apply,
}

-- Two names of one argument: the first that has the one is the first that has the other.
abbrev pub same_argument : Bytes → Bytes → Arguments → Bool
same_argument name other [] = false
same_argument name other (arg ∷ arguments) =
    if names arg name
    then names arg other
    else if names arg other
    then false
    else same_argument name other arguments

abbrev pub overwritten : Bytes → Bytes → Option Bytes → Arguments → Bytes → Bytes
overwritten name token none table value = value
overwritten name token (some v) table value = if same_argument name token table then v else value

-- The value that the settings leave for a name.
abbrev pub latest_value : Arguments → Bytes → List Setting → Bytes → Bytes
latest_value table name [] value = value
latest_value table name (s ∷ ss) value =
    latest_value table name ss (overwritten name s.flag s.value table value)

get_string-mark :
    (name token : Bytes) (v : Option Bytes) (arguments : Arguments)
    → get_string name (mark token v arguments)
      ≡ overwritten name token v arguments (get_string name arguments)
unfolding get_string mark
get_string-mark name token none [] = refl
get_string-mark name token (some w) [] = refl
get_string-mark name token none (arg ∷ arguments) =
    ground (arith, get_string-mark name token none arguments)
get_string-mark name token (some w) (arg ∷ arguments) =
    ground (arith, get_string-mark name token (some w) arguments)

same_argument-mark :
    (name other token : Bytes) (v : Option Bytes) (arguments : Arguments)
    → same_argument name other (mark token v arguments) ≡ same_argument name other arguments
unfolding mark
same_argument-mark name other token v [] = refl
same_argument-mark name other token none (arg ∷ arguments) =
    ground (arith, same_argument-mark name other token none arguments)
same_argument-mark name other token (some w) (arg ∷ arguments) =
    ground (arith, same_argument-mark name other token (some w) arguments)

overwritten-same :
    (name token : Bytes) (v : Option Bytes) (arguments table : Arguments) (value : Bytes)
    → same_argument name token arguments ≡ same_argument name token table
    → overwritten name token v arguments value ≡ overwritten name token v table value
overwritten-same name token none arguments table value e = refl
overwritten-same name token (some v) arguments table value e = rw e

get_string-apply :
    (name : Bytes) (table : Arguments) (ss : List Setting) (arguments : Arguments)
    → ((other : Bytes) → same_argument name other arguments ≡ same_argument name other table)
    → get_string name (apply ss arguments) ≡ latest_value table name ss (get_string name arguments)
unfolding apply
get_string-apply name table [] arguments h = refl
get_string-apply name table (s ∷ ss) arguments h =
    get_string-apply name table ss (mark s.flag s.value arguments)
      (λ other. same_argument-mark name other s.flag s.value arguments ∙ h other)
    ∙ ap (latest_value table name ss) (
        get_string-mark name s.flag s.value arguments
        ∙ overwritten-same name s.flag s.value arguments table _ (h s.flag))

-- After a command line of settings has been parsed, `get<std::string>` of any name gives the value
-- that was written last for the argument of that name, and the default if there was none.
pub get_string-parse :
    (program : Bytes) (eal : List Bytes) (ss : List Setting) (arguments : Arguments) (name : Bytes)
    → Undivided eal
    → NoneRequired arguments
    → All (IsSetting arguments) ss
    → (after : Arguments) × (parse (program ∷ (eal ++ (separator ∷ command_line ss))) arguments
        ≡ done tt after)
      × (get_string name after ≡ latest_value arguments name ss (get_string name arguments))
get_string-parse program eal ss arguments name u r h = (
  apply ss arguments,
  parse-apply program eal ss arguments u r h,
  get_string-apply name arguments ss arguments (λ other. refl),
)
