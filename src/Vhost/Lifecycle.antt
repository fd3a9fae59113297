-- ===== src/Vhost/Lifecycle.antt =====
-- The life of a VhostController (src/vhost_controller.cpp): constructor, `init`, `start` and
-- destructor. The answers of DPDK are arguments; the calls are recorded in order.
pub mod Follow
pub mod Protocol
use vtb.Prelude.{
  ℕ, ◌^◌, ◌≡◌, Bool, true, false, List, [], ◌∷◌, ◌++◌, ℤ, pos, negsuc, int_eq, ◌==◌, if◌then◌else◌,
  Bytes, text, map, Option, none, some,
}
use vtb.Prelude.Effects.{M, Exec, done, raised, lost, ◌>>=◌, ◌>>◌, return, raise}
use vtb.Cmdline.{Arguments}
use vtb.Cmdline.Values.{get_string}
use vtb.Common.Sockets.{Syscall, c_str, controller_path, create_client_socket, negative}
use vtb.Vhost.{has_client}

-- A call with its answer, where it has one.
pub data DriverCall : Type 0 where
  client : Syscall → DriverCall
  eal_init : ℤ → DriverCall
  driver_register : Bytes → ℤ → DriverCall
  enable_features : Bytes → ℕ → DriverCall
  callback_register : Bytes → ℤ → DriverCall
  driver_start : Bytes → ℤ → DriverCall
  driver_unregister : Bytes → DriverCall
  eal_cleanup : DriverCall

pub record Backend : Type 0 where
  pub socket_path : Bytes
  pub eal_initialised : Bool
  pub driver_registered : Bool
  pub abstract_sockname : Bytes
  pub abstract_fd : ℤ
  pub mode : Bytes

-- Whether `instance_` is set, and the calls so far.
pub record Process : Type 0 where
  pub instance_set : Bool
  pub calls : List DriverCall

abbrev pub new_process : Process
new_process = record { instance_set = false; calls = [] }

abbrev pub recorded : List DriverCall → Process → Process
recorded cs p = record p { calls = p.calls ++ cs }

-- `create_client`, whose socket is `sock_fd`.
unfoldable pub create_client : ℤ → Arguments → Backend → Process → Backend × Process
create_client sock_fd arguments b p =
    let name = get_string (text "-absn") arguments in
    let (fd, trace) = create_client_socket sock_fd (controller_path name) in
    (record b { abstract_sockname = name; abstract_fd = fd }, recorded (map client trace) p)

-- The members before the constructor's body has come to the client.
abbrev pub blank : Bytes → Bytes → Backend
blank socket_path mode = record {
  socket_path = socket_path;
  eal_initialised = false;
  driver_registered = false;
  abstract_sockname = [];
  abstract_fd = negsuc 0;
  mode = mode;
}

abbrev pub owned : Process → Process
owned p = record p { instance_set = true }

-- `none` when the constructor throws: there is an instance.
unfoldable pub construct : ℤ → Arguments → Bytes → Process → Option Backend × Process
unfolding create_client
construct sock_fd arguments socket_path p =
    let mode = get_string (text "-m") arguments in
    let (b, p') = create_client sock_fd arguments (blank socket_path mode) (owned p) in
    if p.instance_set
    then (none, p)
    else if has_client mode
    then (some b, p')
    else (some (blank socket_path mode), owned p)

abbrev pub System : Type 0
System = Backend × Process

abbrev call : DriverCall → M System (Unit {0})
call c (b, p) = done tt (b, recorded (c ∷ []) p)

abbrev change : (Backend → Backend) → M System (Unit {0})
change f (b, p) = done tt (f b, p)

unfoldable pub init : ℤ → M System (Unit {0})
init ret = do
  call (eal_init ret)
  if negative ret
      then raise (text "Vhost Controller: EAL init failed")
      else change (λ b. record b { eal_initialised = true })

-- What the three calls of `start` answer.
pub record StartAnswers : Type 0 where
  pub registered : ℤ
  pub callbacks : ℤ
  pub started : ℤ

-- `1ULL << VIRTIO_NET_F_MRG_RXBUF`
abbrev pub mrg_rxbuf : ℕ
mrg_rxbuf = 2 ^ 15

-- The calls once the driver is registered.
pub listen_for_guests : StartAnswers → Bytes → M System (Unit {0})
listen_for_guests a path = do
  change (λ b. record b { driver_registered = true })
  call (enable_features path mrg_rxbuf)
  call (callback_register path a.callbacks)
  if a.callbacks == pos 0
      then (do
        call (driver_start path a.started)
        if a.started == pos 0
            then return tt
            else raise (text "Vhost Controller: Driver start failed"))
      else raise (text "Vhost Controller: Callback register failed")

unfoldable pub start : StartAnswers → M System (Unit {0})
unfolding listen_for_guests c_str
start a (b, p) =
    (do
      call (driver_register (c_str b.socket_path) a.registered)
      if a.registered == pos 0
          then listen_for_guests a (c_str b.socket_path)
          else raise (text "Vhost Controller: Driver register failed: " ++ b.socket_path))
      (b, p)

abbrev unregister : Backend → List DriverCall
unregister b = if b.driver_registered then driver_unregister (c_str b.socket_path) ∷ [] else []

abbrev cleanup : Backend → List DriverCall
cleanup b = if b.eal_initialised then eal_cleanup ∷ [] else []

-- The flags that the destructor resets go with the object.
unfoldable pub destroy : System → Process
destroy (b, p) = record (recorded (cleanup b) (recorded (unregister b) p)) { instance_set = false }
