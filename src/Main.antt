-- ===== src/Main.antt =====
-- `main` (vtb.cpp). What the operating system and DPDK answer is an argument; nothing that these
-- states hold changes while `main` waits for its worker. The log lines are those of `main` itself.
pub mod Waiting
pub mod Serving
pub mod Endings
pub mod CommandLine
use vtb.Prelude.{
  ℕ, ◌≡◌, Bool, true, false, List, [], ◌∷◌, ◌++◌, ℤ, pos, negsuc, if◌then◌else◌, Bytes, text,
  Option, none, some,
}
use vtb.Prelude.Effects.{M, Exec, done, raised, lost, ◌>>=◌, ◌>>◌}
use vtb.Cmdline.{Arguments}
use vtb.Cmdline.Values.{get_string}
use vtb.Common.Sockets.{c_str}
use vtb.Common.Terminal.{Terminal, disable_echoctl, restore_echoctl}
use vtb.Config as Config
use vtb.Config.{Started}
use vtb.Logger as Logger
use vtb.Logger.{Logger, full_level, error, info}
use vtb.Controller.{Mode, create_controller}
use vtb.Controller.Server as Server
use vtb.Controller.Server.{Answers, PortController}
use vtb.Vhost.Lifecycle as Lifecycle
use vtb.Vhost.Lifecycle.{Backend, Process, StartAnswers, System, construct, new_process}

-- Whether the log file can be opened, and what the calls of the two sockets and of DPDK answer.
pub record Platform : Type 0 where
  pub log_opens : Bool
  pub server : Answers
  pub client_fd : ℤ
  pub eal : ℤ
  pub driver : StartAnswers

pub record Host : Type 0 where
  pub arguments : Arguments
  pub terminal : Terminal
  pub logger : Logger
  pub controller : Option PortController
  pub process : Process

-- `main` returns; an exception reaches the terminate handler, which exits with 1; or the behaviour
-- is undefined.
pub data Ending : Type 0 where
  exits : ℤ → Ending
  aborts : Ending
  crashes : Ending

abbrev pub Outcome : Type 0
Outcome = Ending × Host

-- When the program begins.
abbrev pub booted : Terminal → Host
booted terminal = record {
  arguments = Config.constructed;
  terminal = terminal;
  logger = Logger.fresh;
  controller = none;
  process = new_process;
}

abbrev pub report : List Bytes → Logger → Logger
report [] logger = logger
report (e ∷ es) logger = report es (error e logger)

-- `my_graceful_exit`
unfoldable pub my_graceful_exit : Host → Outcome
my_graceful_exit host = (
  aborts,
  record host {
    logger = error (text "A fatal error occurred. Shutting down gracefully...") host.logger;
  },
)

-- `init` and `start` of the backend.
unfoldable pub run_backend : Platform → M System (Unit {0})
run_backend platform = do Lifecycle.init platform.eal; Lifecycle.start platform.driver

-- Everything behind `backend.start()`, or the exception of a call on the backend. The backend goes
-- when `main` returns.
unfoldable pub finish : PortController → Exec System (Unit {0}) → Host → Outcome
unfolding my_graceful_exit
finish controller (done x s) host = (
  exits (pos 0),
  record host {
    controller = some (Server.destroy controller);
    terminal = restore_echoctl host.terminal;
    logger = info (text "Test Done. Starting cleanup...") host.logger;
    process = Lifecycle.destroy s;
  },
)
finish controller (raised what s) host = my_graceful_exit (record host { process = s.1 })
finish controller lost host = (crashes, host)

unfoldable pub with_backend : Platform → PortController → Option Backend × Process → Host → Outcome
unfolding finish my_graceful_exit run_backend
with_backend platform controller (none, p) host = my_graceful_exit (record host { process = p })
with_backend platform controller (some b, p) host =
    finish controller (run_backend platform (b, p)) (record host { process = p })

-- A call on the null pointer is undefined.
unfoldable pub with_controller : Platform → Option Mode → Host → Outcome
unfolding with_backend
with_controller platform none host = (crashes, host)
with_controller platform (some mode) host =
    let controller = Server.start platform.server host.arguments (Server.constructed mode) in
    let path = c_str (get_string (text "-vsn") host.arguments) in
    with_backend platform controller (construct platform.client_fd host.arguments path host.process)
      (record host { controller = some controller })

unfoldable pub after_init : Platform → Exec Arguments Started → Host → Outcome
unfolding with_controller
after_init platform (done started arguments) host =
    let reported = record host {
      arguments = arguments;
      logger = report started.errors host.logger;
    } in
    if started.answer
    then with_controller platform (create_controller (get_string (text "-m") arguments)) reported
    else (
      exits (negsuc 0),
      record reported { logger = error (text "Config.Init failed") reported.logger },
    )
after_init platform (raised what arguments) host =
    my_graceful_exit (record host { arguments = arguments })
after_init platform lost host = (crashes, host)

unfoldable pub main : Platform → List Bytes → Host → Outcome
unfolding after_init
main platform argv host =
    let quiet = record host {
      terminal = disable_echoctl host.terminal;
      logger = Logger.init (text "run.log") platform.log_opens full_level host.logger;
    } in
    after_init platform (Config.init argv host.arguments) quiet
