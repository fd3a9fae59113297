-- ===== src/Config.antt =====
-- ConfigManager (inc/config_manager.h, src/config_manager.cpp): the table of arguments and `init`.
-- The map of the ports is in PortMap.antt, the database in Config/Database.antt.
pub mod Database
pub mod Startup
use vtb.Prelude.{Bool, true, false, List, [], ◌∷◌, ◌++◌, Bytes, text, if◌then◌else◌}
use vtb.Prelude.Effects.{M, ◌>>=◌, ◌>>◌, return, get, try}
use vtb.Cmdline.{Arguments, add_argument, parse}
use vtb.Cmdline.Values.{get_bool}
use vtb.Cmdline.Usage.{print_usage}

-- `parser_` after the constructor.
unfoldable pub constructed : Arguments
unfolding add_argument
constructed =
    add_argument (text "--vhost_sockname") (text "-vsn")
      (text "Unix socket path to connect to virtual machine") false (text "/tmp/vhost.sock")
      (add_argument (text "--port_control_sockname") (text "-pcsn")
        (text "Unix socket path to connect to port control plane") false
        (text "/tmp/port_ctrl.sock")
        (add_argument (text "--port_data_sockname") (text "-pdsn")
          (text "Unix socket path to connect to port data plane") false (text "/tmp/port_data.sock")
          (add_argument (text "--abstract_sockname") (text "-absn")
            (text "Specify a random name. For internal use only") false (text "cm_to_ph_sock")
            (add_argument (text "--mode-threads") (text "-mth") (text "1 | 2") false (text "1") (
              add_argument (text "--mode") (text "-m") (text "Loopback | Back2Back | Emulator")
                false (text "Loopback")
                (add_argument (text "--help") (text "-h") (text "Show this help menu") false
                  (text "false") []))))))

-- What `init` answers, prints on the standard output and reports as errors.
pub record Started : Type 0 where
  pub answer : Bool
  pub printed : Bytes
  pub errors : List Bytes

unfoldable pub init : List Bytes → M Arguments Started
init argv =
    try
      (do
        parse argv
        arguments ← get
        if get_bool (text "--help") arguments
            then return (record { answer = false; printed = print_usage arguments; errors = [] })
            else return (record { answer = true; printed = []; errors = [] }))
      (λ what. do
        arguments ← get
        return (record {
          answer = false;
          printed = print_usage arguments;
          errors = (text "Init Error: " ++ what) ∷ [];
        }))
