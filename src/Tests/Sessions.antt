-- ===== src/Tests/Sessions.antt =====
-- Instances for Session.antt.
use mathlib.Core.List.{flatten}
use vtb.Prelude.{
  map, ℕ, ◌≡◌, refl, true, List, [], ◌∷◌, ◌++◌, pos, negsuc, ok, text, ℤ, replicate, All, arith,
  int_eq,
}
use vtb.Prelude.Effects.{done}
use vtb.Common.Devices.{PortDeviceRingState}
use vtb.Config as Config
use vtb.PortMap.Ports.{IsValid}
use vtb.PortMap.Runs.{nil-IsValid}
use vtb.Vhost.{Vhost}
use vtb.Controller.{Controller, constructed}
use vtb.Controller.Poll.{Poll, epoll_worker}
use vtb.Controller.Poll.Messages.{wakeups}
use vtb.Controller.Processing.{IsSound}
use vtb.Delivery.{notice}
use vtb.Session.{
  Callback, new_device, destroy_device, vring_state_changed, perform_all, InLimits, IsConnected,
  all_messages, farewell,
}
use vtb.Session.Sending.{InRange}
use vtb.Session.Queues.{state_of}
use vtb.Session.Pairs.{owner, owner_after}
use vtb.Session.Owners.{perform_all-owner_after}
use vtb.Session.Knowledge.{all_shown, perform_all-epoll_worker}
use vtb.Tests.Handlers.{counting}

abbrev vhost : Vhost
vhost = record { mode = text "Loopback"; port_cntr = 0; pmap = []; sent = [] }

vhost-IsConnected : IsConnected vhost
vhost-IsConnected = record { valid = nil-IsValid; client = refl }

-- A guest with two pairs comes, switches its second pair on and its first queue off, and goes.
abbrev session : List Callback
session =
    new_device 4 (pos 0)
    ∷ vring_state_changed (pos 0) 2 (pos 1)
    ∷ vring_state_changed (pos 0) 3 (pos 1)
    ∷ vring_state_changed (pos 0) 0 (pos 0)
    ∷ destroy_device (pos 0)
    ∷ []

-- Its messages in three rounds.
abbrev spread : List (List PortDeviceRingState)
spread =
    (notice 0 (pos 0) 0 (pos 1) ∷ notice 0 (pos 0) 1 (pos 1) ∷ [])
    ∷ (notice 1 (pos 0) 2 (pos 1) ∷ [])
    ∷ (notice 1 (pos 0) 3 (pos 1) ∷ farewell 1 (pos 0) ∷ [])
    ∷ []

spread_messages : flatten spread ≡ all_messages 0 session
unfolding flatten all_messages
spread_messages = refl

abbrev poll : Poll
poll = record { is_running = true; abstract_fd = pos 4; pdrs = replicate 20 0; calls = [] }

last_states :
    (all_shown (pos 0) 0 session (negsuc 0) ≡ pos 1)
    × (all_shown (pos 0) 3 session (negsuc 0) ≡ pos 1)
    × (all_shown (pos 0) 4 session (negsuc 0) ≡ negsuc 0)
unfolding all_shown
last_states = (refl, refl, refl)

in_limits : All InLimits session
in_limits = (omega arith, (omega arith, (omega arith, (omega arith, (tt, tt)))))

in_range : All InRange session
in_range = (
  omega arith,
  (
    (omega arith, omega arith),
    ((omega arith, omega arith), ((omega arith, omega arith), (omega arith, tt))),
  ),
)

perform_all-epoll_worker_example :
    (after : Vhost) × (p' : Poll) × (c : Controller) × (env' : ℕ) × (perform_all session vhost
      ≡ ok after)
    × IsValid after.pmap
    × (after.sent ≡ [] ++ flatten spread)
    × (epoll_worker counting Config.constructed
          (wakeups counting Config.constructed (pos 5) spread)
          (poll, (constructed, 9))
        ≡ done tt (p', (c, env')))
    × IsSound c
    × ((d : ℤ) (q : ℕ) → state_of d q c ≡ all_shown d q session (negsuc 0))
perform_all-epoll_worker_example =
    perform_all-epoll_worker counting Config.constructed session vhost spread (pos 5) poll 9
      vhost-IsConnected in_limits in_range (omega arith) spread_messages (λ e. ground arith) refl

-- The guest's two pairs were completed, and no other pair.
session_owners :
    map (λ i. owner_after i (all_messages 0 session) (λ d q. negsuc 0) (negsuc 0)) (0 ∷ 1 ∷ 2 ∷ [])
    ≡ pos 0 ∷ pos 0 ∷ negsuc 0 ∷ []
unfolding owner_after all_messages
session_owners = refl

perform_all-owner_after_example :
    (after : Vhost) × (p' : Poll) × (c : Controller) × (env' : ℕ) × (perform_all session vhost
      ≡ ok after)
    × (after.sent ≡ [] ++ flatten spread)
    × (epoll_worker counting Config.constructed
          (wakeups counting Config.constructed (pos 5) spread)
          (poll, (constructed, 9))
        ≡ done tt (p', (c, env')))
    × ((i : ℕ) → owner i c ≡ owner_after i (all_messages 0 session) (λ d q. negsuc 0) (negsuc 0))
perform_all-owner_after_example =
    perform_all-owner_after counting Config.constructed session vhost spread (pos 5) poll 9
      vhost-IsConnected in_limits in_range (omega arith) spread_messages (λ e. ground arith) refl
