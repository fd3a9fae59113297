-- ===== src/Cmdline.antt =====
-- CmdlineParser (inc/cmdline_parser.h, src/cmdline_parser.cpp): the table of arguments and `parse`.
pub mod Values
pub mod Settings
pub mod Lookup
pub mod Flags
pub mod Usage
use vtb.Prelude.{
  ℕ, suc, ◌+◌, ◌≡◌, Bool, true, false, not, ◌&&◌, ◌||◌, Option, none, some, List, [], ◌∷◌, ◌++◌,
  ◌==◌, nat_eq, bytes_eq, if◌then◌else◌, leb, length, Bytes, text,
}
use vtb.Prelude.Effects.{Exec, done, raised, lost, M, ◌>>◌, ◌>>=◌, return, raise, bind}

pub record CmdlineArgumentFormat : Type 0 where
  pub long_name : Bytes
  pub short_name : Bytes
  pub description : Bytes
  pub required : Bool
  pub found : Bool
  pub value : Bytes

-- `arguments_`
abbrev pub Arguments : Type 0
Arguments = List CmdlineArgumentFormat

unfoldable pub add_argument : Bytes → Bytes → Bytes → Bool → Bytes → Arguments → Arguments
add_argument long_n short_n desc req default_v arguments =
    arguments
    ++ (record {
      long_name = long_n;
      short_name = short_n;
      description = desc;
      required = req;
      found = false;
      value = default_v;
    }
        ∷ [])

abbrev pub separator : Bytes
separator = text "--"

-- The arguments behind the first "--", if there is one.
unfoldable pub app_options : List Bytes → Option (List Bytes)
app_options [] = none
app_options (arg ∷ argv) = if arg == separator then some argv else app_options argv

abbrev pub names : CmdlineArgumentFormat → Bytes → Bool
names arg token = token == arg.long_name || token == arg.short_name

-- `s[0] == '-'`, of a C string.
abbrev pub dashed : Bytes → Bool
dashed [] = false
dashed (c ∷ s) = c == b'-'

abbrev pub empty : Bytes → Bool
empty [] = true
empty (c ∷ s) = false

pub take_value :
    Bytes → Option Bytes → CmdlineArgumentFormat → Exec CmdlineArgumentFormat (Unit {0})
take_value token (some v) arg = done tt (record arg { found = true; value = v })
take_value token none arg =
    if arg.required && empty arg.value
    then raised (text "Argument " ++ (token ++ text " requires a value."))
        (record arg { found = true })
    else done tt (record arg { found = true })

-- The argument that was looked at goes back in front of those after it.
abbrev first : Exec CmdlineArgumentFormat (Unit {0}) → Arguments → Exec Arguments (Unit {0})
first (done x arg) arguments = done x (arg ∷ arguments)
first (raised e arg) arguments = raised e (arg ∷ arguments)
first lost arguments = lost

abbrev later : CmdlineArgumentFormat → Exec Arguments (Unit {0}) → Exec Arguments (Unit {0})
later arg (done x arguments) = done x (arg ∷ arguments)
later arg (raised e arguments) = raised e (arg ∷ arguments)
later arg lost = lost

-- The inner loop of `parse`, with the test of `matched` after it.
pub match_token : Bytes → Option Bytes → M Arguments (Unit {0})
unfolding take_value
match_token token v [] = raised (text "Unknown argument '" ++ (token ++ text "'")) []
match_token token v (arg ∷ arguments) =
    if names arg token
    then first (take_value token v arg) arguments
    else later arg (match_token token v arguments)

-- The loop over the application's arguments. `++i` skips a value that was taken.
pub process : List Bytes → M Arguments (Unit {0})
unfolding match_token
process [] = return tt
process (token ∷ []) = match_token token none
process (token ∷ next ∷ argv) =
    let more = process argv in
    let again = process (next ∷ argv) in
    if dashed next
    then (match_token token none >> again)
    else (match_token token (some next) >> more)

-- The final validation.
pub check_required : Arguments → Option Bytes
check_required [] = none
check_required (arg ∷ arguments) =
    if arg.required && not arg.found
    then some (text "Required argument missing: " ++ arg.long_name)
    else check_required arguments

pub validate : M Arguments (Unit {0})
unfolding check_required
validate arguments = elim (check_required arguments) [
  | none ↦ done tt arguments
  | some e ↦ raised e arguments
]

abbrev pub missing_separator : Bytes
missing_separator =
    text "Invalid Command Line: DPDK separator '--' is missing."
    ++ (10 ∷ text "Proper Usage: [EAL options] -- [APP options]")

abbrev pub tail : List Bytes → List Bytes
tail [] = []
tail (arg ∷ argv) = argv

unfoldable pub parse : List Bytes → M Arguments (Unit {0})
unfolding process validate app_options
parse argv = elim (app_options (tail argv)) [
  | none ↦ if leb (length argv) 1 then validate else raise missing_separator
  | some options ↦ process options >> validate
]
