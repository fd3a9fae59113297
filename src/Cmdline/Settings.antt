-- ===== src/Cmdline/Settings.antt =====
-- A command line as a list of settings, and the table that it leaves.
use vtb.Prelude.{
  ◌≡◌, refl, ◌∙◌, Bool, true, false, Option, none, some, List, [], ◌∷◌, ◌++◌, ◌==◌, nat_eq,
  bytes_eq, if◌then◌else◌, Bytes, arith, All, inl, inr, Bool-cases,
}
use vtb.Prelude.Effects.{done}
use vtb.Cmdline.{
  CmdlineArgumentFormat, Arguments, names, dashed, separator, app_options, take_value, match_token,
  process, check_required, validate, parse,
}

-- An option, and the value that follows it, if one does.
pub record Setting : Type 0 where
  pub flag : Bytes
  pub value : Option Bytes

-- The setting as it is written on the command line, before the rest.
abbrev pub written : Option Bytes → List Bytes → List Bytes
written none rest = rest
written (some v) rest = v ∷ rest

unfoldable pub command_line : List Setting → List Bytes
command_line [] = []
command_line (s ∷ ss) = s.flag ∷ written s.value (command_line ss)

abbrev pub known : Bytes → Arguments → Bool
known name [] = false
known name (arg ∷ arguments) = if names arg name then true else known name arguments

abbrev pub NoneRequired : Arguments → Type 0
NoneRequired = All (λ arg. arg.required ≡ false)

-- What one setting does to its argument, and to the table.
abbrev pub marked : Option Bytes → CmdlineArgumentFormat → CmdlineArgumentFormat
marked none arg = record arg { found = true }
marked (some v) arg = record arg { found = true; value = v }

unfoldable pub mark : Bytes → Option Bytes → Arguments → Arguments
mark name v [] = []
mark name v (arg ∷ arguments) =
    if names arg name then marked v arg ∷ arguments else arg ∷ mark name v arguments

unfoldable pub apply : List Setting → Arguments → Arguments
apply [] arguments = arguments
apply (s ∷ ss) arguments = apply ss (mark s.flag s.value arguments)

-- An option that the table has, with a value that does not look like an option.
abbrev pub HasPlainValue : Option Bytes → Type 0
HasPlainValue none = Unit {0}
HasPlainValue (some v) = dashed v ≡ false

pub record IsSetting (arguments : Arguments) (s : Setting) : Type 0 where
  pub option : dashed s.flag ≡ true
  pub in_table : known s.flag arguments ≡ true
  pub plain : HasPlainValue s.value

take_value-marked :
    (token : Bytes) (v : Option Bytes) (arg : CmdlineArgumentFormat)
    → arg.required ≡ false
    → take_value token v arg ≡ done tt (marked v arg)
unfolding take_value
take_value-marked token none arg h = rw h
take_value-marked token (some v) arg h = refl

match_token-mark :
    (token : Bytes) (v : Option Bytes) (arguments : Arguments)
    → NoneRequired arguments
    → known token arguments ≡ true
    → match_token token v arguments ≡ done tt (mark token v arguments)
unfolding match_token mark
match_token-mark token v [] r k = cc
match_token-mark token v (arg ∷ arguments) r k = elim (Bool-cases (names arg token)) [
  | inl here ↦ rw here (rw (take_value-marked token v arg r.0))
  | inr past ↦ rw past (rw (match_token-mark token v arguments r.1 (ground arith)))
]

mark-NoneRequired :
    (token : Bytes) (v : Option Bytes) (arguments : Arguments)
    → NoneRequired arguments
    → NoneRequired (mark token v arguments)
unfolding mark
mark-NoneRequired token v [] r = tt
mark-NoneRequired token none (arg ∷ arguments) r =
    ground (arith, mark-NoneRequired token none arguments)
mark-NoneRequired token (some w) (arg ∷ arguments) r =
    ground (arith, mark-NoneRequired token (some w) arguments)

known-mark :
    (token name : Bytes) (v : Option Bytes) (arguments : Arguments)
    → known name (mark token v arguments) ≡ known name arguments
unfolding mark
known-mark token name v [] = refl
known-mark token name none (arg ∷ arguments) = ground (arith, known-mark token name none arguments)
known-mark token name (some w) (arg ∷ arguments) =
    ground (arith, known-mark token name (some w) arguments)

-- What stands behind a setting is another option, or nothing.
abbrev BeginsOption : List Bytes → Type 0
BeginsOption [] = Unit {0}
BeginsOption (next ∷ argv) = dashed next ≡ true

process-written :
    (flag : Bytes) (v : Option Bytes) (rest : List Bytes) (arguments : Arguments)
    → NoneRequired arguments
    → known flag arguments ≡ true
    → HasPlainValue v
    → BeginsOption rest
    → process (flag ∷ written v rest) arguments ≡ process rest (mark flag v arguments)
unfolding process
process-written flag none [] arguments r k p b = match_token-mark flag none arguments r k
process-written flag none (next ∷ argv) arguments r k p b =
    rw b (rw (match_token-mark flag none arguments r k))
process-written flag (some w) rest arguments r k p b =
    rw p (rw (match_token-mark flag (some w) arguments r k))

command_line-BeginsOption :
    (arguments : Arguments) (ss : List Setting)
    → All (IsSetting arguments) ss
    → BeginsOption (command_line ss)
unfolding command_line
command_line-BeginsOption arguments [] h = tt
command_line-BeginsOption arguments (s ∷ ss) h = h.0.option

IsSetting-mark :
    (token : Bytes) (v : Option Bytes) (arguments : Arguments) (ss : List Setting)
    → All (IsSetting arguments) ss
    → All (IsSetting (mark token v arguments)) ss
IsSetting-mark token v arguments [] h = tt
IsSetting-mark token v arguments (s ∷ ss) h = (
  record {
    option = h.0.option;
    in_table = known-mark token s.flag v arguments ∙ h.0.in_table;
    plain = h.0.plain;
  },
  IsSetting-mark token v arguments ss h.1,
)

process-apply :
    (ss : List Setting) (arguments : Arguments)
    → NoneRequired arguments
    → All (IsSetting arguments) ss
    → process (command_line ss) arguments ≡ done tt (apply ss arguments)
unfolding process command_line apply
process-apply [] arguments r h = refl
process-apply (s ∷ ss) arguments r h =
    process-written s.flag s.value (command_line ss) arguments r h.0.in_table h.0.plain
      (command_line-BeginsOption arguments ss h.1)
    ∙ process-apply ss (mark s.flag s.value arguments)
        (mark-NoneRequired s.flag s.value arguments r)
        (IsSetting-mark s.flag s.value arguments ss h.1)

apply-NoneRequired :
    (ss : List Setting) (arguments : Arguments)
    → NoneRequired arguments
    → NoneRequired (apply ss arguments)
unfolding apply
apply-NoneRequired [] arguments r = r
apply-NoneRequired (s ∷ ss) arguments r =
    apply-NoneRequired ss _ (mark-NoneRequired s.flag s.value arguments r)

check_required-none :
    (arguments : Arguments) → NoneRequired arguments → check_required arguments ≡ none
unfolding check_required
check_required-none [] r = refl
check_required-none (arg ∷ arguments) r =
    rw (r.0, check_required) (check_required-none arguments r.1)

validate-done :
    (arguments : Arguments) → NoneRequired arguments → validate arguments ≡ done tt arguments
unfolding validate
validate-done arguments r = rw (check_required-none arguments r, validate)

abbrev pub Undivided : List Bytes → Type 0
Undivided = All (λ arg. (arg == separator) ≡ false)

app_options-behind :
    (eal app : List Bytes) → Undivided eal → app_options (eal ++ (separator ∷ app)) ≡ some app
unfolding app_options
app_options-behind [] app u = refl
app_options-behind (arg ∷ eal) app u = rw u.0 (app_options-behind eal app u.1)

-- A command line that is written from settings of known options, behind any EAL arguments and the
-- separator, is parsed without an error, and applies the settings in order. The table has no
-- required argument.
pub parse-apply :
    (program : Bytes) (eal : List Bytes) (ss : List Setting) (arguments : Arguments)
    → Undivided eal
    → NoneRequired arguments
    → All (IsSetting arguments) ss
    → parse (program ∷ (eal ++ (separator ∷ command_line ss))) arguments
      ≡ done tt (apply ss arguments)
unfolding parse
parse-apply program eal ss arguments u r h =
    rw (app_options-behind eal (command_line ss) u, parse)
      (rw (process-apply ss arguments r h)
        (validate-done (apply ss arguments) (apply-NoneRequired ss arguments r)))
