-- ===== src/Delivery.antt =====
-- From the vhost controller's callbacks to the port controller: the messages that go over the
-- abstract socket, which keeps their order (src/vhost_controller.cpp and
-- src/port_controller_loopback.cpp together).
use mathlib.Core.List.{append_assoc, flatten}
use vtb.Prelude.{
  Bytes, FitsInt, ◌<◌, ◌^◌, ◌≢◌, length, map, ℕ, ◌≡◌, refl, sym, ◌∙◌, ap, true, none, some, List,
  [], ◌∷◌, ◌++◌, ℤ, pos, negsuc, int_eq, ok, replicate, get_elem?, set, arith,
}
use vtb.Prelude.Dict
use vtb.Prelude.Effects.{done}
use vtb.Cmdline.{Arguments}
use vtb.Common.Devices.{PortDeviceRingState}
use vtb.PortMap.{PMap}
use vtb.Vhost.Devices.{announced, on_new_device-announced}
use vtb.Handler.{Dpdk, Handler}
use vtb.Vhost.{Vhost, on_new_device, notify_port_controller, has_client}
use vtb.Controller.{Controller, nof_queues}
use vtb.Controller.Poll.{Poll, Event, epoll_worker}
use vtb.Controller.Poll.Messages.{process_all, arrives, epoll_worker-process_all}
use vtb.Common.Wire.{packets, stream}
use vtb.Common.Wire.Packets.{Fits, packets-stream}
use vtb.Controller.Processing.{
  IsSound, process_notification-Processed, queues_in, queues_of, starts,
}

-- `queue_id` of a device is set to `enable`.
abbrev pub notice : ℕ → ℤ → ℕ → ℤ → PortDeviceRingState
notice port_cntr vid queue_id enable = record {
  meta = pos 0;
  port_id = pos port_cntr;
  device_id = vid;
  qid = pos queue_id;
  enable = enable;
}

pub announced-sent :
    (vid : ℤ) (pmap : PMap) (v : Vhost)
    → has_client v.mode ≡ true
    → (announced vid pmap v).sent
      ≡ v.sent ++ (notice v.port_cntr vid 0 (pos 1) ∷ notice v.port_cntr vid 1 (pos 1) ∷ [])
unfolding notify_port_controller
announced-sent vid pmap v on = simp (on, append_assoc)

pub second_starts :
    (vid : ℤ) (c c1 : Controller)
    → Dict.lookup vid c.pmap ≡ none
    → Dict.lookup vid c1.pmap ≡ some (set (queues_of vid c) 0 (pos 1))
    → starts vid 1 (pos 1) c1 ≡ true
second_starts vid c c1 new stored =
    let e : Dict.lookup vid c1.pmap ≡ some (set (replicate nof_queues (negsuc 0)) 0 (pos 1)) =
      stored ∙ ap (λ o. some (set (queues_in o) 0 (pos 1))) new in
    rw e

-- The messages that announce a new device.
abbrev pub notices : ℕ → ℤ → List PortDeviceRingState
notices port_cntr vid = notice port_cntr vid 0 (pos 1) ∷ notice port_cntr vid 1 (pos 1) ∷ []

-- A port controller that has not heard of the device and handles its notices returns, and its
-- first handler has been given the device's id and its first two queues.
notices_start :
    (D : Dpdk) (arguments : Arguments) (port_cntr : ℕ) (vid : ℤ) (c : Controller) (env : D.Env)
    → IsSound c
    → Dict.lookup vid c.pmap ≡ none
    → (c' : Controller) × (env' : D.Env) × (h : Handler) × (process_all D arguments
          (notices port_cntr vid)
          (c, env)
        ≡ done tt (c', env'))
      × (get_elem? c'.handlers 0 ≡ some h)
      × (h.vid ≡ vid)
      × (h.rxqid ≡ pos 0)
      × (h.txqid ≡ pos 1)
unfolding process_all
notices_start D arguments port_cntr vid c env sound new =
    let m = notice port_cntr vid 0 (pos 1) in
    let m' = notice port_cntr vid 1 (pos 1) in
    let (c1, env1, r1, p1, _) =
      process_notification-Processed D arguments m 0 c env refl refl (omega arith) sound in
    let (c2, env2, r2, p2, _) =
      process_notification-Processed D arguments m' 1 c1 env1 refl refl (omega arith) p1.sound in
    let (h, at, i0, i1, i2) = p2.started (second_starts vid c c1 new p1.stored) in
    (c2, env2, h, rw r1 (rw r2), at, i0, i1, i2)

-- The rounds of the worker in which each of these packets arrives on the connection.
abbrev pub one_by_one : ℤ → List Bytes → List (List Event)
one_by_one fd packets = map (λ bytes. arrives fd bytes ∷ []) packets

pub notice-Fits :
    (port_cntr : ℕ) (vid : ℤ) (q : ℕ)
    → port_cntr < 2 ^ 31
    → FitsInt vid
    → q < 2
    → Fits (notice port_cntr vid q (pos 1))
notice-Fits port_cntr vid q h k l = record {
  meta = omega arith;
  port_id = h;
  device_id = k;
  qid = omega arith;
  enable = omega arith;
}

-- In the modes with a client, a new device, whose id and port number have 32 bits, sends messages.
-- A running worker that reads their bytes from the vhost controller's connection, one message's
-- size at a time, for a controller that has not heard of the device, returns, and the first handler
-- has been given the device's id and its first two queues.
pub on_new_device-epoll_worker :
    (D : Dpdk) (arguments : Arguments) (vrings : ℕ) (vid fd : ℤ) (v after : Vhost) (c : Controller)
    (env : D.Env) (p : Poll)
    → on_new_device vrings vid v ≡ ok after
    → has_client v.mode ≡ true
    → IsSound c
    → Dict.lookup vid c.pmap ≡ none
    → FitsInt vid
    → v.port_cntr < 2 ^ 31
    → fd ≢ p.abstract_fd
    → p.is_running ≡ true
    → (ms : List PortDeviceRingState) × (p' : Poll) × (c' : Controller) × (env' : D.Env)
      × (h : Handler) × (after.sent ≡ v.sent ++ ms)
      × (epoll_worker D arguments (one_by_one fd (packets (length ms) (stream ms))) (p, (c, env))
          ≡ done tt (p', (c', env')))
      × (get_elem? c'.handlers 0 ≡ some h)
      × (h.vid ≡ vid)
      × (h.rxqid ≡ pos 0)
      × (h.txqid ≡ pos 1)
on_new_device-epoll_worker D arguments vrings vid fd v after c env p e on sound new fits small d
      run =
    let (pmap, a) = on_new_device-announced vrings vid v after e in
    let ms = notices v.port_cntr vid in
    let (c', env', h, r, at, i0, i1, i2) =
      notices_start D arguments v.port_cntr vid c env sound new in
    let (p', r', _, _, _) =
      epoll_worker-process_all D arguments fd (map (λ m. m ∷ []) ms) p (c, env) (c', env') d run
        (
          (notice-Fits v.port_cntr vid 0 small fits (omega arith), tt),
          ((notice-Fits v.port_cntr vid 1 small fits (omega arith), tt), tt),
        )
        (unfold flatten in r) in
    (
      ms,
      p',
      c',
      env',
      h,
      sym (ap (λ w. w.sent) a) ∙ announced-sent vid pmap v on,
      ap (λ ps. epoll_worker D arguments (one_by_one fd ps) (p, (c, env))) (packets-stream ms) ∙ r',
      at,
      i0,
      i1,
      i2,
    )
