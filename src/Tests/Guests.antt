-- ===== src/Tests/Guests.antt =====
-- Instances for Vhost.antt, Controller.antt and Delivery.antt.
use vtb.Prelude.{
  replicate, ℕ, ◌/◌, ◌<◌, ◌≡◌, ◌≢◌, refl, true, false, All, List, ◌∷◌, some, [], ◌++◌, ℤ, pos,
  int_eq, ok, text, arith,
}
use vtb.Prelude.Dict
use vtb.Prelude.Effects.{done}
use vtb.Common.Devices.{PortMap, PortDeviceRingState}
use vtb.PortMap.{is_queue_ready}
use vtb.PortMap.Queues.{enabled}
use vtb.PortMap.Ports.{IsValid}
use vtb.PortMap.Runs.{nil-IsValid}
use vtb.Config as Config
use vtb.Controller.{Controller, constructed, process_notification}
use vtb.Controller.Processing.{IsSound, Processed, Started, process_notification-Processed}
use vtb.Vhost.{Vhost, on_new_device, on_destroy_device}
use vtb.Vhost.Devices.{on_new_device_ready, on_new_device_mismatch}
use vtb.Vhost.Reconnect.{rings, on_new_device_reconnect}
use vtb.Delivery.{notice, one_by_one}
use vtb.Session.Farewells.{on_destroy_device-epoll_worker}
use vtb.Controller.Poll.{Poll, epoll_worker}
use vtb.Common.Wire.{packets, stream}
use vtb.Tests.Handlers.{counting}

abbrev pub empty_vhost : Vhost
empty_vhost = record { mode = text "Loopback"; port_cntr = 0; pmap = []; sent = [] }

on_new_device_ready_example :
    (after : Vhost) × (on_new_device 4 (pos 0) empty_vhost ≡ ok after)
    × (is_queue_ready (pos 0) (pos 0) after.pmap ≡ ok true)
    × (after.port_cntr ≡ 1)
    × IsValid after.pmap
    × ((q : ℤ) → q ≢ pos 0 → Dict.lookup q after.pmap ≡ Dict.lookup q [])
on_new_device_ready_example =
    on_new_device_ready 4 empty_vhost nil-IsValid (omega arith) (omega arith)

on_new_device_mismatch_example :
    (after : Vhost) × (stored : PortMap) × (on_new_device 4 (pos 1) empty_vhost ≡ ok after)
    × ((q : ℤ) → is_queue_ready (pos 1) q after.pmap ≡ ok false)
    × (Dict.lookup (pos 0) after.pmap ≡ some stored)
    × (stored.vd.vid ≡ pos 1)
    × ((q : ℕ) → q / 2 < 4 / 2 → enabled stored.vd.qp q ≡ false)
    × (Dict.lookup (pos 0) (on_destroy_device (pos 1) after).pmap ≡ some stored)
unfolding Dict.lookup
on_new_device_mismatch_example =
    on_new_device_mismatch 4 (pos 1) empty_vhost nil-IsValid (omega arith) (ground arith) refl

-- The guest enables both queues of its pair again.
abbrev changes : List (ℕ × ℤ)
changes = (0, pos 1) ∷ (1, pos 1) ∷ (2, pos 1) ∷ []

on_new_device_reconnect_example :
    (first second third : Vhost) × (on_new_device 4 (pos 0) empty_vhost ≡ ok first)
    × (is_queue_ready (pos 0) (pos 0) first.pmap ≡ ok true)
    × (on_new_device 2 (pos 0) (on_destroy_device (pos 0) first) ≡ ok second)
    × (rings (pos 0) changes second ≡ ok third)
    × ((q : ℤ) → is_queue_ready (pos 0) q third.pmap ≡ ok false)
on_new_device_reconnect_example =
    on_new_device_reconnect 4 2 empty_vhost changes nil-IsValid (omega arith) (omega arith)
      (omega arith)

pub constructed-IsSound : IsSound constructed
unfolding constructed Dict.lookup
constructed-IsSound = record { handlers = refl; queues = λ d qs e. cc }

process_notification-Processed_example :
    (after : Controller) × (env' : ℕ) × (process_notification counting Config.constructed
        (notice 0 (pos 7) 3 (pos 1))
        (constructed, 9)
      ≡ done tt (after, env'))
    × Processed (pos 7) 3 (pos 1) constructed after
    × Started counting Config.constructed (pos 7) 3 (pos 1) constructed 9 after env'
process_notification-Processed_example =
    process_notification-Processed counting Config.constructed (notice 0 (pos 7) 3 (pos 1)) 3
      constructed 9 refl refl (omega arith) constructed-IsSound

abbrev pub worker : Poll
worker = record { is_running = true; abstract_fd = pos 4; pdrs = replicate 20 0; calls = [] }

on_destroy_device-epoll_worker_example :
    (m : PortDeviceRingState) × (p' : Poll) × (c' : Controller) × ((on_destroy_device
        (pos 7)
        empty_vhost).sent
      ≡ [] ++ (m ∷ []))
    × (epoll_worker counting Config.constructed
          (one_by_one (pos 5) (packets 1 (stream (m ∷ []))))
          (worker, (constructed, 9))
        ≡ done tt (p', (c', 9)))
    × All (λ h. h.is_running ≡ false) c'.handlers
    × (c'.pmap ≡ constructed.pmap)
on_destroy_device-epoll_worker_example =
    on_destroy_device-epoll_worker counting Config.constructed (pos 7) (pos 5) empty_vhost
      constructed 9 worker refl (omega arith) (omega arith) (λ e. ground arith) refl
