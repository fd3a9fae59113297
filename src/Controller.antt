-- ===== src/Controller.antt =====
-- PortController and PortControllerLoopback (inc/port_controller*.h, src/port_controller*.cpp):
-- the state of a controller and what it does with one notification.
pub mod Teardown
pub mod Notifications
pub mod Processing
pub mod Poll
pub mod Server
use vtb.Prelude.{
  ℕ, zero, suc, ◌+◌, ◌-◌, ◌*◌, ◌/◌, Bool, true, false, Option, none, some, List, [], ◌∷◌, ◌++◌, ℤ,
  pos, negsuc, int_eq, bytes_eq, ◌==◌, nat_eq, if◌then◌else◌, Bytes, text, Result, ok, throws,
  undefined, get_at, set_at, subscript, replicate, map, set,
}
use vtb.Prelude.Dict
use vtb.Prelude.Dict.{Dict}
use vtb.Prelude.Effects.{
  M, Exec, done, raised, lost, ◌>>=◌, ◌>>◌, return, raise, lift, get, put, modify, try,
}
use vtb.Cmdline.{Arguments}
use vtb.Cmdline.Values.{get_string, get_int}
use vtb.Common.{is_even}
use vtb.Common.Devices.{PortDeviceRingState}
use vtb.Handler.{Dpdk, Handler, stop, fresh, set_vid, set_rxqid, set_txqid, World, start}

-- The factory. `none` is the null pointer.
pub data Mode : Type 0 where
  loopback : Mode
  back2back : Mode
  emulator : Mode

unfoldable pub create_controller : Bytes → Option Mode
create_controller mode =
    if mode == text "Loopback"
    then some loopback
    else if mode == text "Back2Back"
    then some back2back
    else if mode == text "Emulator"
    then some emulator
    else none

-- `for (id = 0; id < 8; id++)`, and the sizes of the two arrays.
abbrev pub nof_handlers : ℕ
nof_handlers = 8

abbrev pub nof_queues : ℕ
nof_queues = 16

-- The queues of each device that was heard of, the handlers, and `ready_`.
pub record Controller : Type 0 where
  pub pmap : Dict ℤ (List ℤ)
  pub handlers : List Handler
  pub ready : Bool

unfoldable pub constructed : Controller
constructed = record { pmap = []; handlers = replicate nof_handlers fresh; ready = false }

-- The map is unordered; a new key comes last.
abbrev pub remember : ℤ → List ℤ → Controller → Controller
remember device_id queues c = record c { pmap = Dict.insert (λ a b. false) device_id queues c.pmap }

abbrev pub with_ready : Bool → Controller → Controller
with_ready b c = record c { ready = b }

abbrev pub is_one : ℤ → Bool
is_one v = v == pos 1

-- `(queues[i] == 1) && (queues[j] == 1)`
unfoldable pub both_enabled : List ℤ → ℕ → ℕ → Result Bool
both_enabled queues i j = elim (get_at queues i) [
  | ok v ↦
      if is_one v
      then (elim (get_at queues j) [
        | ok w ↦ ok (is_one w)
        | throws e ↦ throws e
        | undefined ↦ undefined
      ])
      else ok false
  | throws e ↦ throws e
  | undefined ↦ undefined
]

module _ (D : Dpdk) (arguments : Arguments) where
  -- The controller and DPDK.
  abbrev pub System : Type 0
  System = Controller × D.Env

  abbrev change : (Controller → Controller) → M System (Unit {0})
  change f (c, env) = done tt (f c, env)

  -- The `start` of a handler, with the configuration that it reads.
  abbrev pub start_handler : M (World D) (Unit {0})
  start_handler =
      start D (get_string (text "--mode") arguments) (get_int (text "--mode-threads") arguments)

  abbrev put_handler :
      ℕ → List Handler → Controller → Exec (World D) (Unit {0}) → Exec System (Unit {0})
  put_handler i hs c (done x (h, env)) = done tt (record c { handlers = set hs i h }, env)
  put_handler i hs c (raised e (h, env)) = done tt (record c { handlers = set hs i h }, env)
  put_handler i hs c lost = lost

  -- The handler of the pair is given its ids and started. An exception of `start` is caught and
  -- logged, so both ends go on.
  unfoldable pub dispatch : ℤ → ℕ → M System (Unit {0})
  dispatch device_id qid (c, env) = elim (get_at c.handlers (qid / 2)) [
    | ok h ↦
        put_handler (qid / 2) c.handlers c (
          start_handler
            (set_txqid (pos qid) (set_rxqid (pos (qid - 1)) (set_vid device_id h)), env))
    | throws e ↦ lost
    | undefined ↦ lost
  ]

  -- A notification for a device that is in the map, whose queues are given.
  pub update_queue : ℤ → ℕ → ℤ → List ℤ → M System (Unit {0})
  unfolding both_enabled dispatch
  update_queue device_id qid enable queues = do
    queues' ← lift (set_at queues qid enable)
    change (remember device_id queues')
    if is_even (pos qid)
        then (lift (both_enabled queues' qid (qid + 1)) >>= λ b. change (with_ready b))
        else (do
          b ← lift (both_enabled queues' qid (qid - 1))
          change (with_ready b)
          if b then dispatch device_id qid else return tt)

  -- The first notification of a device.
  pub first_queue : ℤ → ℕ → ℤ → M System (Unit {0})
  first_queue device_id qid enable = do
    queues ← lift (set_at (replicate nof_queues (negsuc 0)) qid enable)
    change (remember device_id queues)

  unfoldable pub process_notification : PortDeviceRingState → M System (Unit {0})
  unfolding update_queue first_queue stop is_even
  process_notification pdrs (c, env) =
      if pdrs.meta == pos 1
      then change (λ c. record c { handlers = map stop c.handlers }) (c, env)
      else (do
        qid ← lift (subscript pdrs.qid)
        elim (Dict.lookup pdrs.device_id c.pmap) [
          | none ↦ first_queue pdrs.device_id qid pdrs.enable
          | some queues ↦ update_queue pdrs.device_id qid pdrs.enable queues
        ])
          (c, env)
