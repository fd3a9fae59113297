-- ===== src/Session/Farewells.antt =====
-- The removal of one device, from the callback over the socket to the handlers.
use mathlib.Core.List.{flatten}
use vtb.Prelude.{
  ℕ, ◌<◌, ◌^◌, ◌≡◌, ◌≢◌, refl, ◌∙◌, ap, true, false, List, [], ◌∷◌, ◌++◌, ℤ, FitsInt, map, All,
  arith,
}
use vtb.Prelude.Effects.{done}
use vtb.Cmdline.{Arguments}
use vtb.Common.Devices.{PortDeviceRingState}
use vtb.Common.Wire.{packets, stream}
use vtb.Common.Wire.Packets.{Fits, packets-stream}
use vtb.Handler.{Dpdk, Handler, stop}
use vtb.Vhost.{Vhost, on_destroy_device, notify_port_controller, has_client}
use vtb.Controller.{Controller}
use vtb.Controller.Processing.{process_notification-stop}
use vtb.Controller.Poll.{Poll, epoll_worker}
use vtb.Controller.Poll.Messages.{process_all, epoll_worker-process_all}
use vtb.Delivery.{one_by_one}
use vtb.Session.{farewell}

farewell-sent :
    (vid : ℤ) (v : Vhost)
    → has_client v.mode ≡ true
    → (on_destroy_device vid v).sent ≡ v.sent ++ (farewell v.port_cntr vid ∷ [])
unfolding on_destroy_device notify_port_controller
farewell-sent vid v on = simp on

farewell-Fits :
    (port_cntr : ℕ) (vid : ℤ) → port_cntr < 2 ^ 31 → FitsInt vid → Fits (farewell port_cntr vid)
farewell-Fits port_cntr vid h k = record {
  meta = omega arith;
  port_id = h;
  device_id = k;
  qid = omega arith;
  enable = omega arith;
}

All-stop : (hs : List Handler) → All (λ h. h.is_running ≡ false) (map stop hs)
unfolding stop
All-stop [] = tt
All-stop (h ∷ hs) = (refl, All-stop hs)

-- In the modes with a client, the removal of a device, whose id and port number have 32 bits, sends
-- one message. A running worker that reads it whole from another connection than its own socket
-- returns, and then the running flag of no handler is set, whatever its device; what the controller
-- knows of the queues of the devices is as before.
pub on_destroy_device-epoll_worker :
    (D : Dpdk) (arguments : Arguments) (vid fd : ℤ) (v : Vhost) (c : Controller) (env : D.Env)
    (p : Poll)
    → has_client v.mode ≡ true
    → FitsInt vid
    → v.port_cntr < 2 ^ 31
    → fd ≢ p.abstract_fd
    → p.is_running ≡ true
    → (m : PortDeviceRingState) × (p' : Poll) × (c' : Controller) × ((on_destroy_device vid v).sent
        ≡ v.sent ++ (m ∷ []))
      × (epoll_worker D arguments (one_by_one fd (packets 1 (stream (m ∷ [])))) (p, (c, env))
          ≡ done tt (p', (c', env)))
      × All (λ h. h.is_running ≡ false) c'.handlers
      × (c'.pmap ≡ c.pmap)
on_destroy_device-epoll_worker D arguments vid fd v c env p on fits small d run =
    let m = farewell v.port_cntr vid in
    let c' = record c { handlers = map stop c.handlers } in
    let (p', r, _, _, _) =
      epoll_worker-process_all D arguments fd ((m ∷ []) ∷ []) p (c, env) (c', env) d run
        ((farewell-Fits v.port_cntr vid small fits, tt), tt)
        (unfold process_all flatten in rw (process_notification-stop D arguments m c env refl)) in
    (
      m,
      p',
      c',
      farewell-sent vid v on,
      ap (λ ps. epoll_worker D arguments (one_by_one fd ps) (p, (c, env))) (packets-stream (m ∷ []))
          ∙ r,
      All-stop c.handlers,
      refl,
    )
