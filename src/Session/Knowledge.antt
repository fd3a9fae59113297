-- ===== src/Session/Knowledge.antt =====
-- A session of guests, from the callbacks over the bytes on the socket to what the port controller
-- knows.
use mathlib.Core.List.{flatten}
use vtb.Prelude.{
  ℕ, ◌+◌, ◌<◌, ◌^◌, ◌≡◌, ◌≢◌, refl, sym, ◌∙◌, ap, subst, true, ◌&&◌, List, [], ◌∷◌, ◌++◌, ℤ, pos,
  negsuc, int_eq, nat_eq, ◌==◌, if◌then◌else◌, leb, ltb, ok, length, All, arith, Bool-cases, inl,
  inr,
}
use vtb.Prelude.Dict
use vtb.Prelude.Effects.{done}
use vtb.Cmdline.{Arguments}
use vtb.Common.Devices.{PortDeviceRingState}
use vtb.Common.Wire.Packets.{Fits}
use vtb.PortMap.Ports.{IsValid}
use vtb.Handler.{Dpdk}
use vtb.Vhost.{Vhost}
use vtb.Controller.{Controller, constructed, nof_queues}
use vtb.Controller.Poll.{Poll, epoll_worker}
use vtb.Controller.Poll.Messages.{process_all, wakeups, epoll_worker-process_all}
use vtb.Controller.Processing.{IsSound}
use vtb.Session.{
  Callback, new_device, destroy_device, vring_state_changed, perform_all, InLimits, messages,
  all_messages, next_port, IsConnected, perform_all-Performed,
}
use vtb.Session.Sending.{InRange, IsSendable-All, all_messages-IsSendable, spread-Fits}
use vtb.Session.Queues.{
  state_of, is_about, latest_message, process_all-latest_message, unknown-state,
}

-- What a callback shows the port controller of queue `q` of the device: a new device has its first
-- two queues enabled, and the rings change from the third on.
abbrev pub shown : ℤ → ℕ → Callback → ℤ → ℤ
shown d q (new_device vrings vid) state = if vid == d && ltb q 2 then pos 1 else state
shown d q (destroy_device vid) state = state
shown d q (vring_state_changed vid r enable) state =
    if leb 2 r && (vid == d && r == q) then enable else state

unfoldable pub all_shown : ℤ → ℕ → List Callback → ℤ → ℤ
all_shown d q [] state = state
all_shown d q (c ∷ cs) state = all_shown d q cs (shown d q c state)

latest_message-++ :
    (d : ℤ) (q : ℕ) (ms ns : List PortDeviceRingState) (state : ℤ)
    → latest_message d q (ms ++ ns) state ≡ latest_message d q ns (latest_message d q ms state)
unfolding latest_message
latest_message-++ d q [] ns state = refl
latest_message-++ d q (m ∷ ms) ns state =
    latest_message-++ d q ms ns (if is_about d q m then m.enable else state)

latest_message-messages :
    (d : ℤ) (q port_cntr : ℕ) (c : Callback) (state : ℤ)
    → latest_message d q (messages port_cntr c) state ≡ shown d q c state
unfolding latest_message
latest_message-messages d q port_cntr (new_device vrings vid) state = ground arith
latest_message-messages d q port_cntr (destroy_device vid) state = refl
latest_message-messages d q port_cntr (vring_state_changed vid r enable) state =
    elim (Bool-cases (leb 2 r)) [ inl later ↦ simp later | inr first ↦ simp first ]

latest_message-all_messages :
    (d : ℤ) (q port_cntr : ℕ) (cs : List Callback) (state : ℤ)
    → latest_message d q (all_messages port_cntr cs) state ≡ all_shown d q cs state
unfolding all_messages all_shown latest_message
latest_message-all_messages d q port_cntr [] state = refl
latest_message-all_messages d q port_cntr (c ∷ cs) state =
    latest_message-++ d q (messages port_cntr c) (all_messages (next_port port_cntr c) cs) state
    ∙ ap (latest_message d q (all_messages (next_port port_cntr c) cs))
        (latest_message-messages d q port_cntr c state)
    ∙ latest_message-all_messages d q (next_port port_cntr c) cs (shown d q c state)

pub constructed-IsSound : IsSound constructed
unfolding constructed Dict.lookup
constructed-IsSound = record { handlers = refl; queues = λ d qs e. cc }

pub constructed-state_of : (d : ℤ) (q : ℕ) → state_of d q constructed ≡ negsuc 0
unfolding constructed Dict.lookup
constructed-state_of d q = unknown-state nof_queues q

-- A session of guests within the limits of eight pairs and sixteen queues, in a mode with a client:
-- every callback returns, and the map of ports stays valid. However the messages that were sent are
-- spread over the rounds of a running worker, if each is read whole, the worker handles their bytes
-- without an exception and within its arrays, and then the port controller has of each queue the
-- state that the callbacks showed last, and -1 of a queue that was never shown.
pub perform_all-epoll_worker :
    (D : Dpdk) (arguments : Arguments) (cs : List Callback) (v : Vhost)
    (mss : List (List PortDeviceRingState)) (fd : ℤ) (p : Poll) (env : D.Env)
    → IsConnected v
    → All InLimits cs
    → All InRange cs
    → v.port_cntr + length cs < 2 ^ 31
    → flatten mss ≡ all_messages v.port_cntr cs
    → fd ≢ p.abstract_fd
    → p.is_running ≡ true
    → (after : Vhost) × (p' : Poll) × (c : Controller) × (env' : D.Env) × (perform_all cs v
        ≡ ok after)
      × IsValid after.pmap
      × (after.sent ≡ v.sent ++ flatten mss)
      × (epoll_worker D arguments (wakeups D arguments fd mss) (p, (constructed, env))
          ≡ done tt (p', (c, env')))
      × IsSound c
      × ((d : ℤ) (q : ℕ) → state_of d q c ≡ all_shown d q cs (negsuc 0))
perform_all-epoll_worker D arguments cs v mss fd p env connected limits range small spread ne on =
    let ms = all_messages v.port_cntr cs in
    let (fit, deliverable) =
      IsSendable-All ms (all_messages-IsSendable v.port_cntr cs limits range small) in
    let (after, e, k, sent) = perform_all-Performed cs v connected limits in
    let (c, env', run, sound, view) =
      process_all-latest_message D arguments ms constructed env constructed-IsSound deliverable in
    let (p', r, _, _, _) =
      epoll_worker-process_all D arguments fd mss p (constructed, env) (c, env') ne on
        (spread-Fits mss (subst (All Fits) (sym spread) fit))
        (ap (λ ns. process_all D arguments ns (constructed, env)) spread ∙ run) in
    (
      after,
      p',
      c,
      env',
      e,
      k.valid,
      sent ∙ ap (λ ns. v.sent ++ ns) (sym spread),
      r,
      sound,
      λ d q.
          view d q
          ∙ ap (latest_message d q ms) (constructed-state_of d q)
          ∙ latest_message-all_messages d q v.port_cntr cs (negsuc 0),
    )
