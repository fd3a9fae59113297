-- ===== src/Session/Owners.antt =====
-- Which device each handler of the port controller is given in a session, against a replay of the
-- messages.
use mathlib.Core.Path.{fun_ext}
use mathlib.Core.List.{flatten}
use vtb.Prelude.{
  ℕ, zero, suc, ◌+◌, ◌<◌, ◌≡◌, ◌≢◌, refl, sym, ◌∙◌, ap, subst, true, List, [], ◌∷◌, ℤ, pos, negsuc,
  int_eq, nat_eq, ◌==◌, get_elem?, replicate, length, map, All, Bool-cases, inl, inr, ok, ◌++◌, ◌^◌,
  length-map,
}
use vtb.Prelude.Effects.{done}
use vtb.Cmdline.{Arguments}
use vtb.Common.Devices.{PortDeviceRingState}
use vtb.Handler.{Dpdk, stop}
use vtb.Controller.{Controller, process_notification}
use vtb.Controller.Poll.Messages.{process_all}
use vtb.Controller.Processing.{IsSound, process_notification-Processed, process_notification-stop}
use vtb.Session.Queues.{state_of, IsDeliverable, Processed-state_of}
use vtb.Common.Wire.Packets.{Fits}
use vtb.Controller.{constructed, nof_handlers}
use vtb.Controller.Poll.{Poll, epoll_worker}
use vtb.Controller.Poll.Messages.{wakeups, epoll_worker-process_all}
use vtb.Handler.{fresh}
use vtb.Vhost.{Vhost}
use vtb.Session.{Callback, perform_all, InLimits, all_messages, IsConnected, perform_all-Performed}
use vtb.Session.Sending.{InRange, IsSendable-All, all_messages-IsSendable, spread-Fits}
use vtb.Session.Knowledge.{constructed-IsSound, constructed-state_of}
use vtb.Session.Pairs.{noted, owner_after, vid_in, owner, Gives, vid_in-stop, Processed-owner}

module _ (D : Dpdk) (arguments : Arguments) where
  process_notification-Gives :
      (m : PortDeviceRingState) (c : Controller) (env : D.Env)
      → IsSound c
      → IsDeliverable m
      → (after : Controller) × (env' : D.Env) × (process_notification D arguments m (c, env)
          ≡ done tt (after, env'))
        × IsSound after
        × ((d : ℤ) (q : ℕ) → state_of d q after ≡ noted m (λ d q. state_of d q c) d q)
        × ((i : ℕ) → Gives m i c after)
  process_notification-Gives m c env s k = elim (Bool-cases (m.meta == pos 1)) [
    | inl farewell ↦ (
      record c { handlers = map stop c.handlers },
      env,
      process_notification-stop D arguments m c env farewell,
      record { handlers = length-map stop c.handlers ∙ s.handlers; queues = s.queues },
      λ d q. simp farewell,
      λ i. simp farewell (vid_in-stop i c.handlers),
    )
    | inr notice ↦
        let (r, e, h) = k.queue notice in
        let (after, env', run, p, _) =
          process_notification-Processed D arguments m r c env notice e h s in
        (
          after,
          env',
          run,
          p.sound,
          λ d q. simp (notice, e) (Processed-state_of m.device_id r m.enable c after s h p d q),
          λ i. Processed-owner m r i c after s h e notice p,
        )
  ]

  -- The replay of a list of messages.
  pub process_all-owner_after :
      (ms : List PortDeviceRingState) (c : Controller) (env : D.Env)
      → IsSound c
      → All IsDeliverable ms
      → (after : Controller) × (env' : D.Env) × (process_all D arguments ms (c, env)
          ≡ done tt (after, env'))
        × ((i : ℕ) → owner i after ≡ owner_after i ms (λ d q. state_of d q c) (owner i c))
  unfolding process_all owner_after
  process_all-owner_after [] c env s k = (c, env, refl, λ i. refl)
  process_all-owner_after (m ∷ ms) c env s k =
      let (mid, env', run, s', view, gives) = process_notification-Gives m c env s k.0 in
      let (after, env'', run', owners) = process_all-owner_after ms mid env' s' k.1 in
      let states : (λ (d : ℤ) (q : ℕ). state_of d q mid) ≡ noted m (λ d q. state_of d q c) =
        fun_ext (λ d. fun_ext (λ q. view d q)) in
      (
        after,
        env'',
        rw run run',
        λ i.
            owners i
            ∙ ap (λ st. owner_after i ms st (owner i mid)) states
            ∙ ap (owner_after i ms (noted m (λ d q. state_of d q c))) (gives i),
      )

constructed-owner : (i : ℕ) → owner i constructed ≡ negsuc 0
unfolding constructed fresh
constructed-owner i = fresh_vid nof_handlers i
  where
    fresh_vid : (n j : ℕ) → vid_in (get_elem? (replicate n fresh) j) ≡ negsuc 0
    fresh_vid zero j = refl
    fresh_vid (suc n) zero = refl
    fresh_vid (suc n) (suc j) = fresh_vid n j

-- A session of guests within the limits of eight pairs and sixteen queues, in a mode with a client,
-- whose messages a running worker reads whole, however they are spread over its rounds: the worker
-- returns, and each handler of the port controller then has the id of the device that completed its
-- pair last, whatever has become of the devices since, and -1 if none has: a message completes a
-- pair when it enables the second queue of the pair while the first one is enabled.
pub perform_all-owner_after :
    (D : Dpdk) (arguments : Arguments) (cs : List Callback) (v : Vhost)
    (mss : List (List PortDeviceRingState)) (fd : ℤ) (p : Poll) (env : D.Env)
    → IsConnected v
    → All InLimits cs
    → All InRange cs
    → v.port_cntr + length cs < 2 ^ 31
    → flatten mss ≡ all_messages v.port_cntr cs
    → fd ≢ p.abstract_fd
    → p.is_running ≡ true
    → (after : Vhost) × (p' : Poll) × (c : Controller) × (env' : D.Env) × (perform_all cs v
        ≡ ok after)
      × (after.sent ≡ v.sent ++ flatten mss)
      × (epoll_worker D arguments (wakeups D arguments fd mss) (p, (constructed, env))
          ≡ done tt (p', (c, env')))
      × ((i : ℕ)
          → owner i c ≡ owner_after i (all_messages v.port_cntr cs) (λ d q. negsuc 0) (negsuc 0))
perform_all-owner_after D arguments cs v mss fd p env connected limits range small spread ne on =
    let ms = all_messages v.port_cntr cs in
    let (fit, deliverable) =
      IsSendable-All ms (all_messages-IsSendable v.port_cntr cs limits range small) in
    let (after, e, _, sent) = perform_all-Performed cs v connected limits in
    let (c, env', run, owners) =
      process_all-owner_after D arguments ms constructed env constructed-IsSound deliverable in
    let (p', r, _, _, _) =
      epoll_worker-process_all D arguments fd mss p (constructed, env) (c, env') ne on
        (spread-Fits mss (subst (All Fits) (sym spread) fit))
        (ap (λ ns. process_all D arguments ns (constructed, env)) spread ∙ run) in
    let unknown : (λ (d : ℤ) (q : ℕ). state_of d q constructed) ≡ (λ d q. negsuc 0) =
      fun_ext (λ d. fun_ext (λ q. constructed-state_of d q)) in
    (
      after,
      p',
      c,
      env',
      e,
      sent ∙ ap (λ ns. v.sent ++ ns) (sym spread),
      r,
      λ i.
          owners i
          ∙ ap (λ st. owner_after i ms st (owner i constructed)) unknown
          ∙ ap (owner_after i ms (λ d q. negsuc 0)) (constructed-owner i),
    )
