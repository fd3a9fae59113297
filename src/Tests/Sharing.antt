-- ===== src/Tests/Sharing.antt =====
-- Two guests on a controller that was just made.
use vtb.Prelude.{
  ℕ, zero, suc, ◌≡◌, ◌≢◌, refl, ◌∙◌, ap, some, List, [], ◌++◌, pos, ok, get_elem?, replicate,
  length, arith,
}
use vtb.Prelude.Dict
use vtb.Prelude.Effects.{done}
use vtb.Common.Devices.{PortDeviceRingState}
use vtb.Common.Wire.{packets, stream}
use vtb.PortMap.Runs.{nil-IsValid}
use vtb.Config as Config
use vtb.Handler.{Handler, fresh}
use vtb.Controller.{constructed, nof_handlers}
use vtb.Controller.Poll.{Poll, epoll_worker}
use vtb.Controller.{Controller}
use vtb.Vhost.{Vhost, on_new_device}
use vtb.Vhost.Devices.{on_new_device_ready}
use vtb.Delivery.{one_by_one}
use vtb.Session.Sharing.{Unserved, on_new_device-on_new_device}
use vtb.Tests.Handlers.{counting}
use vtb.Tests.Guests.{empty_vhost, worker, constructed-IsSound}

-- The first two devices, each under the number of its port.
two_guests :
    (v1 v2 : Vhost) × (on_new_device 4 (pos 0) empty_vhost ≡ ok v1)
    × (on_new_device 4 (pos v1.port_cntr) v1 ≡ ok v2)
    × (v1.port_cntr ≡ 1)
two_guests =
    let (v1, e1, _, n1, valid, _) =
      on_new_device_ready 4 empty_vhost nil-IsValid (omega arith) (omega arith) in
    let (v2, e2, _, _, _, _) = on_new_device_ready 4 v1 valid (omega arith) (omega arith) in
    (v1, v2, e1, e2, n1)

get_elem?-replicate_same : (n j : ℕ) (a h : Handler) → get_elem? (replicate n a) j ≡ some h → a ≡ h
get_elem?-replicate_same zero j a h e = cc
get_elem?-replicate_same (suc n) zero a h e = cc
get_elem?-replicate_same (suc n) (suc j) a h e = get_elem?-replicate_same n j a h e

constructed-Unserved : Unserved (pos 0) constructed
unfolding constructed fresh
constructed-Unserved j h e same =
    ground (arith, ap (λ x. x.vid) (get_elem?-replicate_same nof_handlers j fresh h e) ∙ same)

other : pos 0 ≢ pos two_guests.0.port_cntr
other e = ground (arith, two_guests.4)

on_new_device-on_new_device_example :
    (ms : List PortDeviceRingState) × (p' : Poll) × (c' : Controller) × (env' : ℕ) × (h : Handler)
    × (two_guests.1.sent ≡ [] ++ ms)
    × (epoll_worker counting Config.constructed
          (one_by_one (pos 5) (packets (length ms) (stream ms)))
          (worker, (constructed, 9))
        ≡ done tt (p', (c', env')))
    × (get_elem? c'.handlers 0 ≡ some h)
    × (h.vid ≡ pos two_guests.0.port_cntr)
    × Unserved (pos 0) c'
unfolding constructed Dict.lookup
on_new_device-on_new_device_example =
    on_new_device-on_new_device counting Config.constructed 4 4 (pos 0) (pos two_guests.0.port_cntr)
      (pos 5) empty_vhost two_guests.0 two_guests.1 constructed 9 worker two_guests.2 two_guests.3
      refl constructed-IsSound constructed-Unserved other refl refl
      (omega arith, omega (arith, two_guests.4), omega arith) (λ e. ground arith) refl
