-- ===== src/Config/Startup.antt =====
-- What `init` answers.
use vtb.Prelude.{
  true, false, List, [], ◌∷◌, ◌++◌, Bytes, text, if◌then◌else◌, All, ◌≡◌, refl, some, bytes_eq, inl,
  inr, Bool-cases, not, sym, ◌∙◌, arith,
}
use vtb.Prelude.Effects.{Exec, done, raised, lost}
use vtb.Cmdline.{Arguments, parse, app_options, tail, dashed}
use vtb.Cmdline.Values.{get_bool, get_string, is_true}
use vtb.Cmdline.Usage.{print_usage}
use vtb.Cmdline.Settings.{NoneRequired}
use vtb.Cmdline.Flags.{Leaves, get_string-parse_flags}
use vtb.Config.{Started, init, constructed}

-- `init` as a function of what `parse` did.
abbrev pub after_parse : Exec Arguments (Unit {0}) → Exec Arguments Started
after_parse (done x arguments) =
    done
      (if get_bool (text "--help") arguments
        then record { answer = false; printed = print_usage arguments; errors = [] }
        else record { answer = true; printed = []; errors = [] })
      arguments
after_parse (raised what arguments) =
    done
      (record {
        answer = false;
        printed = print_usage arguments;
        errors = (text "Init Error: " ++ what) ∷ [];
      })
      arguments
after_parse lost = lost

-- `init` catches every error of `parse`: it reports it, prints the usage and answers false.
-- Otherwise it prints the usage and answers false if "--help" reads as true, and else answers
-- true and prints nothing. The table is what `parse` left of it.
pub init-after_parse :
    (argv : List Bytes) (arguments : Arguments)
    → init argv arguments ≡ after_parse (parse argv arguments)
unfolding init
init-after_parse argv arguments = go (parse argv arguments) refl
  where
    go :
        (r : Exec Arguments (Unit {0}))
        → parse argv arguments ≡ r
        → init argv arguments ≡ after_parse (parse argv arguments)
    go (done x after) e =
        rw e (elim (Bool-cases (get_bool (text "--help") after)) [ inl h ↦ rw h | inr h ↦ rw h ])
    go (raised what after) e = rw e
    go lost e = rw e

-- A command line on which everything behind the separator looks like an option: unless parsing
-- fails, `init` answers true and prints nothing, also where one of the options is "--help".
pub init_flags_only :
    (argv options : List Bytes) (arguments after : Arguments) (started : Started)
    → app_options (tail argv) ≡ some options
    → All (λ token. dashed token ≡ true) options
    → get_bool (text "--help") arguments ≡ false
    → init argv arguments ≡ done started after
    → started.errors ≡ []
    → (started.answer ≡ true) × (started.printed ≡ [])
init_flags_only argv options arguments after started split flags off e clean =
    go (parse argv arguments)
      (get_string-parse_flags argv options arguments (text "--help") split flags)
      (sym (init-after_parse argv arguments) ∙ e)
  where
    go :
        (r : Exec Arguments (Unit {0}))
        → Leaves (λ mid. get_string (text "--help") mid ≡ get_string (text "--help") arguments) r
        → after_parse r ≡ done started after
        → (started.answer ≡ true) × (started.printed ≡ [])
    go (done x mid) l p = unfold get_bool in ground arith
    go (raised what mid) l p = ground arith
    go lost l p = absurd l

pub constructed-NoneRequired : NoneRequired constructed
unfolding constructed
constructed-NoneRequired = (refl, (refl, (refl, (refl, (refl, (refl, (refl, tt)))))))

pub help_default : get_string (text "--help") constructed ≡ text "false"
unfolding constructed get_string
help_default = refl

pub answered :
    (after : Arguments)
    → (started : Started) × (after_parse (done tt after) ≡ done started after)
      × (started.errors ≡ [])
      × (started.answer ≡ not (is_true (get_string (text "--help") after)))
unfolding get_bool
answered after = elim (Bool-cases (is_true (get_string (text "--help") after))) [
  | inl h ↦ (record { answer = false; printed = print_usage after; errors = [] }, rw h, refl, rw h)
  | inr h ↦ (record { answer = true; printed = []; errors = [] }, rw h, refl, rw h)
]
