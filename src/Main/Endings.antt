-- ===== src/Main/Endings.antt =====
-- How `main` ends, and what it leaves behind.
use vtb.Prelude.{
  ◌≡◌, refl, sym, ap, ◌∙◌, Bool, true, false, List, pos, negsuc, if◌then◌else◌, Bytes, text, none,
  some, not, ◌||◌, ◌==◌, int_eq, bytes_eq, Bool-cases, inl, inr, arith, ◌⊎◌,
}
use vtb.Prelude.Effects.{Exec, done, raised, lost}
use vtb.Cmdline.{Arguments}
use vtb.Cmdline.Values.{get_string}
use vtb.Common.Sockets.{c_str}
use vtb.Common.Terminal.{Terminal, disable_echoctl, restore_echoctl}
use vtb.Config as Config
use vtb.Logger as Logger
use vtb.Logger.{full_level}
use vtb.Config.{Started}
use vtb.Controller.{Mode, loopback, back2back, emulator, create_controller}
use vtb.Controller.Server as Server
use vtb.Controller.Server.{Answers, destroy, PortController}
use vtb.Vhost.Lifecycle.{new_process}
use vtb.Vhost.Lifecycle.Follow.{follow_all, nothing_held}
use vtb.Main.Serving.{dpdk_serves, Served, with_backend-Served}
use vtb.Main.{
  Platform, Host, Ending, exits, aborts, crashes, Outcome, main, report, my_graceful_exit,
  with_controller, after_init, booted,
}

abbrev pub known_mode : Bytes → Bool
known_mode mode = mode == text "Loopback" || mode == text "Back2Back" || mode == text "Emulator"

-- How `main` ends, from what `init` of the configuration did: a table of the cases.
abbrev pub ending_of : Platform → Exec Arguments Started → Ending
ending_of platform (done started arguments) =
    if not started.answer
    then exits (negsuc 0)
    else if not (known_mode (get_string (text "-m") arguments))
    then crashes
    else if dpdk_serves platform
    then exits (pos 0)
    else aborts
ending_of platform (raised what arguments) = aborts
ending_of platform lost = crashes

abbrev pub is_zero_exit : Ending → Bool
is_zero_exit (exits v) = v == pos 0
is_zero_exit aborts = false
is_zero_exit crashes = false

-- The controller that `main` made, at the end.
abbrev pub HasEnded : Platform → Host → Type 0
HasEnded platform after =
    (mode : Mode) × (create_controller (get_string (text "-m") after.arguments) ≡ some mode)
    × (after.controller
        ≡ some (destroy (Server.start platform.server after.arguments (Server.constructed mode))))
    × (follow_all after.process.calls nothing_held ≡ some nothing_held)
    × (after.process.instance_set ≡ false)

-- What holds at the end; `host` is the state when `init` was called.
Ends : Ending → Platform → Host → Outcome → Type 0
Ends expected platform host (ending, after) =
    (ending ≡ expected)
    × (after.terminal
        ≡ (if is_zero_exit expected then restore_echoctl host.terminal else host.terminal))
    × (is_zero_exit expected ≡ true → HasEnded platform after)

create_controller-known_mode :
    (m : Bytes)
    → ((create_controller m ≡ none) × (known_mode m ≡ false))
      ⊎ ((mode : Mode) × (create_controller m ≡ some mode) × (known_mode m ≡ true))
unfolding create_controller
create_controller-known_mode m = elim (Bool-cases (m == text "Loopback")) [
  | inl h ↦ inr (loopback, simp h, simp h)
  | inr n ↦ (elim (Bool-cases (m == text "Back2Back")) [
    | inl h ↦ inr (back2back, simp (n, h), simp (n, h))
    | inr n' ↦ (elim (Bool-cases (m == text "Emulator")) [
      | inl h ↦ inr (emulator, simp (n, n', h), simp (n, n', h))
      | inr n'' ↦ inl (simp (n, n', n''), simp (n, n', n''))
    ])
  ])
]

Served→Ends :
    (platform : Platform) (mode : Mode) (host : Host) (o : Outcome)
    → create_controller (get_string (text "-m") host.arguments) ≡ some mode
    → Served platform (Server.start platform.server host.arguments (Server.constructed mode)) host o
    → Ends (if dpdk_serves platform then exits (pos 0) else aborts) platform host o
unfolding Ends Served
Served→Ends platform mode host (ending, after) made (e, terminal, same, rest) =
    elim (Bool-cases (dpdk_serves platform)) [
      | inl served ↦ (
        e,
        terminal ∙ (rw served),
        λ _. (
          mode,
          ap (λ a. create_controller (get_string (text "-m") a)) same ∙ made,
          (rest served).0
              ∙ ap (λ a. some (destroy (Server.start platform.server a (Server.constructed mode))))
                  (sym same),
          (rest served).1,
          (rest served).2,
        ),
      )
      | inr failed ↦ (e, terminal ∙ (rw failed), λ z. ground arith)
    ]

with_controller-Ends :
    (platform : Platform) (mode : Mode) (host : Host)
    → host.process ≡ new_process
    → create_controller (get_string (text "-m") host.arguments) ≡ some mode
    → Ends
        (if dpdk_serves platform then exits (pos 0) else aborts)
        platform
        host
        (with_controller platform (some mode) host)
unfolding with_controller Ends
with_controller-Ends platform mode host new made =
    let controller = Server.start platform.server host.arguments (Server.constructed mode) in
    let begun = record host { controller = some controller } in
    Served→Ends platform mode begun (with_controller platform (some mode) host) made (
      with_backend-Served platform controller host.arguments
        (c_str (get_string (text "-vsn") host.arguments)) host.process begun new)

after_init-Ends :
    (platform : Platform) (r : Exec Arguments Started) (host : Host)
    → host.process ≡ new_process
    → Ends (ending_of platform r) platform host (after_init platform r host)
unfolding after_init Ends with_controller my_graceful_exit
after_init-Ends platform (raised what arguments) host new = (refl, refl, λ z. ground arith)
after_init-Ends platform lost host new = (refl, refl, λ z. ground arith)
after_init-Ends platform (done started arguments) host new = elim (Bool-cases started.answer) [
  | inr refused ↦ simp refused (refl, refl, λ z. ground arith)
  | inl accepted ↦ (elim (create_controller-known_mode (get_string (text "-m") arguments)) [
    | inl (null, unknown) ↦ simp (accepted, null, unknown) (refl, refl, λ z. ground arith)
    | inr (mode, made, known) ↦
        simp (accepted, made, known)
          (with_controller-Ends platform mode
            (record host { arguments = arguments; logger = report started.errors host.logger }) new
            made)
  ])
]

-- What the start of `main` hands to `init`.
abbrev quiet : Platform → Terminal → Host
quiet platform terminal = record (booted terminal) {
  terminal = disable_echoctl terminal;
  logger = Logger.init (text "run.log") platform.log_opens full_level Logger.fresh;
}

main-Ends :
    (platform : Platform) (argv : List Bytes) (terminal : Terminal)
    → Ends
        (ending_of platform (Config.init argv Config.constructed))
        platform
        (quiet platform terminal)
        (main platform argv (booted terminal))
unfolding main
main-Ends platform argv terminal =
    after_init-Ends platform (Config.init argv Config.constructed) (quiet platform terminal) refl

-- How the program ends, on any command line and whatever the system answers. It returns -1 if
-- `init` of the configuration answers false. Else the behaviour is undefined if "-m" is none of the
-- three modes; it returns 0 if all calls to DPDK succeed, and else an exception ends it with exit(1).
pub main-ending_of :
    (platform : Platform) (argv : List Bytes) (terminal : Terminal)
    → (main platform argv (booted terminal)).0
      ≡ ending_of platform (Config.init argv Config.constructed)
unfolding Ends
main-ending_of platform argv terminal = (main-Ends platform argv terminal).0

-- The terminal has its settings back at the end exactly on the path that returns 0; on every other
-- path they stay as `disable_echoctl` left them.
pub main-terminal :
    (platform : Platform) (argv : List Bytes) (terminal : Terminal)
    → let (ending, after) = main platform argv (booted terminal) in
      after.terminal.settings
      ≡ (if is_zero_exit ending then terminal.settings else (disable_echoctl terminal).settings)
unfolding Ends disable_echoctl restore_echoctl
main-terminal platform argv terminal =
    let (e, t, rest) = main-Ends platform argv terminal in
    simp (e, t)
      (elim (Bool-cases (is_zero_exit (ending_of platform (Config.init argv Config.constructed)))) [
        | inl zero ↦ simp zero
        | inr other ↦ simp other
      ])

-- If the program returns 0, the mode on the command line was one of the three, the controller of
-- that mode was started and is destroyed, every call of the VhostController to DPDK was allowed where
-- it was made, neither the driver of its socket nor the environment is left, and there is no
-- VhostController. The pools and rings of the handlers are not counted here.
pub main-HasEnded :
    (platform : Platform) (argv : List Bytes) (terminal : Terminal)
    → (main platform argv (booted terminal)).0 ≡ exits (pos 0)
    → HasEnded platform (main platform argv (booted terminal)).1
unfolding Ends
main-HasEnded platform argv terminal zero =
    let (e, t, rest) = main-Ends platform argv terminal in rest (ap is_zero_exit (sym e ∙ zero))
