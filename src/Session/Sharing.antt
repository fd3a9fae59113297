-- ===== src/Session/Sharing.antt =====
-- Two guests at a time: the handlers are chosen by the number of the pair alone.
use mathlib.Core.Option.{some-injective}
use mathlib.Core.List.{append_assoc, flatten}
use vtb.Prelude.{
  ℕ, suc, ◌/◌, ◌<◌, ◌^◌, ◌≡◌, ◌≢◌, subst, Bool-cases, inl, inr, zero, true, refl, sym, ◌∙◌, ap,
  List, [], ◌∷◌, ◌++◌, ℤ, pos, some, none, int_eq, FitsInt, map, get_elem?, arith, ok, length,
}
use vtb.Prelude.Dict
use vtb.Prelude.Effects.{done}
use vtb.Cmdline.{Arguments}
use vtb.Common.Devices.{PortDeviceRingState}
use vtb.Common.Wire.{packets, stream}
use vtb.Common.Wire.Packets.{packets-stream}
use vtb.Handler.{Dpdk, Handler}
use vtb.PortMap.{PMap}
use vtb.Vhost.{Vhost, on_new_device, has_client, notify_port_controller}
use vtb.Vhost.Devices.{announced, announced-port_cntr, on_new_device-announced}
use vtb.Controller.{Controller}
use vtb.Controller.Processing.{IsSound, process_notification-Processed}
use vtb.Controller.Poll.{Poll, epoll_worker}
use vtb.Controller.Poll.Messages.{process_all, process_all-append, epoll_worker-process_all}
use vtb.Delivery.{notice, notices, notice-Fits, one_by_one, second_starts, announced-sent}

-- A controller before and after the notices of a device that it has not heard of.
record Announced (vid : ℤ) (c after : Controller) : Type 0 where
  pub sound : IsSound after
  pub others : (e : ℤ) → e ≢ vid → Dict.lookup e after.pmap ≡ Dict.lookup e c.pmap
  pub handler : Handler
  pub first : get_elem? after.handlers 0 ≡ some handler
  pub device : handler.vid ≡ vid
  pub rest : (j : ℕ) → j ≢ 0 → get_elem? after.handlers j ≡ get_elem? c.handlers j

half_zero : 0 / 2 ≡ 0
half_zero = omega arith

half_one : 1 / 2 ≡ 0
half_one = omega arith

notices-Announced :
    (D : Dpdk) (arguments : Arguments) (port_cntr : ℕ) (vid : ℤ) (c : Controller) (env : D.Env)
    → IsSound c
    → Dict.lookup vid c.pmap ≡ none
    → (c' : Controller) × (env' : D.Env) × (process_all D arguments (notices port_cntr vid) (c, env)
        ≡ done tt (c', env'))
      × Announced vid c c'
unfolding process_all
notices-Announced D arguments port_cntr vid c env sound new =
    let m = notice port_cntr vid 0 (pos 1) in
    let m' = notice port_cntr vid 1 (pos 1) in
    let (c1, env1, r1, p1, _) =
      process_notification-Processed D arguments m 0 c env refl refl (omega arith) sound in
    let (c2, env2, r2, p2, _) =
      process_notification-Processed D arguments m' 1 c1 env1 refl refl (omega arith) p1.sound in
    let (h, at, i0, i1, i2) = p2.started (second_starts vid c c1 new p1.stored) in
    (
      c2,
      env2,
      rw r1 (rw r2),
      record {
        sound = p2.sound;
        others = λ e d. p2.others e d ∙ p1.others e d;
        handler = h;
        first = at;
        device = i0;
        rest = λ j d. p2.rest j (λ e. d (e ∙ half_one)) ∙ p1.rest j (λ e. d (e ∙ half_zero));
      },
    )

-- No handler has the device.
abbrev pub Unserved : ℤ → Controller → Type 0
Unserved vid c = (j : ℕ) (h : Handler) → get_elem? c.handlers j ≡ some h → h.vid ≢ vid

Announced-Unserved :
    (a b : ℤ) (c c' : Controller)
    → a ≢ b
    → Announced b c c'
    → ((j : ℕ) (h : Handler) → j ≢ 0 → get_elem? c.handlers j ≡ some h → h.vid ≢ a)
    → Unserved a c'
Announced-Unserved a b c c' d an elsewhere zero h e same =
    d (sym same ∙ ap (λ x. x.vid) (some-injective _ _ (sym e ∙ an.first)) ∙ an.device)
Announced-Unserved a b c c' d an elsewhere (suc j) h e same =
    elsewhere (suc j) h (omega arith) (sym (an.rest (suc j) (omega arith)) ∙ e) same

-- The second of two devices takes the handler of the first.
both-Unserved :
    (D : Dpdk) (arguments : Arguments) (k l : ℕ) (a b : ℤ) (c : Controller) (env : D.Env)
    → IsSound c
    → Unserved a c
    → a ≢ b
    → Dict.lookup a c.pmap ≡ none
    → Dict.lookup b c.pmap ≡ none
    → (c' : Controller) × (env' : D.Env) × (h : Handler) × (process_all D arguments
          (notices k a ++ notices l b)
          (c, env)
        ≡ done tt (c', env'))
      × (get_elem? c'.handlers 0 ≡ some h)
      × (h.vid ≡ b)
      × Unserved a c'
both-Unserved D arguments k l a b c env sound free d newa newb =
    let (c1, env1, r1, an1) = notices-Announced D arguments k a c env sound newa in
    let (c2, env2, r2, an2) =
      notices-Announced D arguments l b c1 env1 an1.sound (an1.others b (λ e. d (sym e)) ∙ newb) in
    (
      c2,
      env2,
      an2.handler,
      process_all-append D arguments (notices k a) (notices l b) (c, env) ∙ rw r1 r2,
      an2.first,
      an2.device,
      Announced-Unserved a b c1 c2 d an2 (λ j h n e. free j h (sym (an1.rest j n) ∙ e)),
    )

announced-mode : (vid : ℤ) (pmap : PMap) (v : Vhost) → (announced vid pmap v).mode ≡ v.mode
unfolding notify_port_controller
announced-mode vid pmap v = elim (Bool-cases (has_client v.mode)) [
  | inl on ↦ simp on
  | inr off ↦ simp off
]

-- What a callback for a new device that returns has done besides its writes to the map.
record Told (vid : ℤ) (v after : Vhost) : Type 0 where
  pub sent : after.sent ≡ v.sent ++ notices v.port_cntr vid
  pub port_cntr : after.port_cntr ≡ suc v.port_cntr
  pub mode : after.mode ≡ v.mode

on_new_device-Told :
    (vrings : ℕ) (vid : ℤ) (v after : Vhost)
    → on_new_device vrings vid v ≡ ok after
    → has_client v.mode ≡ true
    → Told vid v after
on_new_device-Told vrings vid v after e on =
    let (pmap, a) = on_new_device-announced vrings vid v after e in
    subst (Told vid v) a (record {
      sent = announced-sent vid pmap v on;
      port_cntr = announced-port_cntr vid pmap v;
      mode = announced-mode vid pmap v;
    })

-- In the modes with a client, two devices that are both there, with ids and port numbers of 32 bits.
-- A running worker that reads what their callbacks sent, for a controller that has heard of neither
-- and has no handler for the first, returns; then its first handler has the id of the second
-- device, and no handler has the id of the first.
pub on_new_device-on_new_device :
    (D : Dpdk) (arguments : Arguments) (ra rb : ℕ) (a b fd : ℤ) (v v1 v2 : Vhost) (c : Controller)
    (env : D.Env) (p : Poll)
    → on_new_device ra a v ≡ ok v1
    → on_new_device rb b v1 ≡ ok v2
    → has_client v.mode ≡ true
    → IsSound c
    → Unserved a c
    → a ≢ b
    → Dict.lookup a c.pmap ≡ none
    → Dict.lookup b c.pmap ≡ none
    → FitsInt a × FitsInt b × (suc v.port_cntr < 2 ^ 31)
    → fd ≢ p.abstract_fd
    → p.is_running ≡ true
    → (ms : List PortDeviceRingState) × (p' : Poll) × (c' : Controller) × (env' : D.Env)
      × (h : Handler) × (v2.sent ≡ v.sent ++ ms)
      × (epoll_worker D arguments (one_by_one fd (packets (length ms) (stream ms))) (p, (c, env))
          ≡ done tt (p', (c', env')))
      × (get_elem? c'.handlers 0 ≡ some h)
      × (h.vid ≡ b)
      × Unserved a c'
on_new_device-on_new_device D arguments ra rb a b fd v v1 v2 c env p e1 e2 on sound free d newa newb
      (fa, fb, small) away run =
    let ms = notices v.port_cntr a ++ notices (suc v.port_cntr) b in
    let t1 = on_new_device-Told ra a v v1 e1 on in
    let t2 = on_new_device-Told rb b v1 v2 e2 (ap has_client t1.mode ∙ on) in
    let (c', env', h, r, at, device, unserved) =
      both-Unserved D arguments v.port_cntr (suc v.port_cntr) a b c env sound free d newa newb in
    let (p', r', _, _, _) =
      epoll_worker-process_all D arguments fd (map (λ m. m ∷ []) ms) p (c, env) (c', env') away run
        (
          (notice-Fits v.port_cntr a 0 (omega arith) fa (omega arith), tt),
          (
            (notice-Fits v.port_cntr a 1 (omega arith) fa (omega arith), tt),
            (
              (notice-Fits (suc v.port_cntr) b 0 small fb (omega arith), tt),
              ((notice-Fits (suc v.port_cntr) b 1 small fb (omega arith), tt), tt),
            ),
          ),
        )
        (unfold flatten in r) in
    (
      ms,
      p',
      c',
      env',
      h,
      t2.sent
          ∙ ap (λ n. v1.sent ++ notices n b) t1.port_cntr
          ∙ ap (λ s. s ++ notices (suc v.port_cntr) b) t1.sent
          ∙ append_assoc v.sent (notices v.port_cntr a) (notices (suc v.port_cntr) b),
      ap (λ ps. epoll_worker D arguments (one_by_one fd ps) (p, (c, env))) (packets-stream ms) ∙ r',
      at,
      device,
      unserved,
    )
