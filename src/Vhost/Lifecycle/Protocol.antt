-- ===== src/Vhost/Lifecycle/Protocol.antt =====
-- The calls that a VhostController makes to DPDK over its life, whatever is called on it.
use vtb.Prelude.{
  ◌≡◌, refl, sym, subst, ==_refl, Bool, true, false, List, [], ◌∷◌, ℤ, pos, negsuc, int_eq,
  bytes_eq, ◌==◌, if◌then◌else◌, Bytes, text, map, Option, none, some, not, ◌||◌, Bool-cases, inl,
  inr,
}
use vtb.Cmdline.{Arguments}
use vtb.Cmdline.Values.{get_string}
use vtb.Common.Sockets.{Syscall, c_str, controller_path, create_client_socket, negative}
use vtb.Vhost.{has_client}
use vtb.Vhost.Lifecycle.{
  client, Backend, Process, new_process, System, StartAnswers, construct, blank, owned,
  create_client, init, start, destroy,
}
use vtb.Vhost.Lifecycle.Follow.{
  Driver, Held, nothing_held, is_free, follow_all, follow_all-++, Use, initialise, begin, use_once,
  use_all, InOrder,
}

-- The driver that the flag of the object stands for.
abbrev driver_of : Backend → Bool → Option Driver
driver_of b callbacks =
    if b.driver_registered
    then some (record { path = c_str b.socket_path; callbacks = callbacks })
    else none

-- DPDK holds what the flags say.
Tracked : System → Type 0
Tracked (b, p) =
    (callbacks : Bool) × (follow_all p.calls nothing_held
      ≡ some (record { eal = b.eal_initialised; driver = driver_of b callbacks }))

path_refl : (path : Bytes) → (path == path) ≡ true
path_refl path = ==_refl path

is_free-driver_of : (b : Backend) (k : Bool) → is_free (c_str b.socket_path) (driver_of b k) ≡ true
is_free-driver_of b k = elim (Bool-cases b.driver_registered) [
  | inl on ↦ simp (on, path_refl)
  | inr off ↦ simp off
]

init-Tracked :
    (ret : ℤ) (b : Backend) (p : Process)
    → Tracked (b, p)
    → Tracked (use_once (initialise ret) (b, p))
unfolding Tracked init
init-Tracked (pos n) b p (k, h) = (k, simp (follow_all-++, h))
init-Tracked (negsuc n) b p (k, h) = (k, simp (follow_all-++, h))

start-Tracked :
    (a : StartAnswers) (b : Backend) (p : Process)
    → b.eal_initialised ≡ true
    → Tracked (b, p)
    → Tracked (use_once (begin a) (b, p))
unfolding Tracked start
start-Tracked a b p eal (k, h) =
    let free = is_free-driver_of b k in
    elim (Bool-cases (a.registered == pos 0)) [
      | inr failed ↦ (k, simp (failed, follow_all-++, h, eal, free))
      | inl registered ↦ (elim (Bool-cases (a.callbacks == pos 0)) [
        | inr failed ↦ (false, simp (registered, failed, follow_all-++, h, eal, free, path_refl))
        | inl set ↦ (elim (Bool-cases (a.started == pos 0)) [
          | inr failed ↦
              (true, simp (registered, set, failed, follow_all-++, h, eal, free, path_refl))
          | inl started ↦
              (true, simp (registered, set, started, follow_all-++, h, eal, free, path_refl))
        ])
      ])
    ]

start-eal :
    (a : StartAnswers) (s : System) → (use_once (begin a) s).0.eal_initialised ≡ s.0.eal_initialised
unfolding start
start-eal a (b, p) = elim (Bool-cases (a.registered == pos 0)) [
  | inr failed ↦ simp failed
  | inl registered ↦ (elim (Bool-cases (a.callbacks == pos 0)) [
    | inr failed ↦ simp (registered, failed)
    | inl set ↦ (elim (Bool-cases (a.started == pos 0)) [
      | inr failed ↦ simp (registered, set, failed)
      | inl started ↦ simp (registered, set, started)
    ])
  ])
]

init-eal :
    (ret : ℤ) (s : System)
    → (use_once (initialise ret) s).0.eal_initialised ≡ (not (negative ret) || s.0.eal_initialised)
unfolding init
init-eal (pos n) s = refl
init-eal (negsuc n) s = refl

use_all-Tracked :
    (us : List Use) (s : System)
    → InOrder (s.0.eal_initialised) us
    → Tracked s
    → Tracked (use_all us s)
use_all-Tracked [] s order h = h
use_all-Tracked (initialise ret ∷ us) (b, p) order h =
    use_all-Tracked us (use_once (initialise ret) (b, p))
      (subst (λ e. InOrder e us) (sym (init-eal ret (b, p))) order) (init-Tracked ret b p h)
use_all-Tracked (begin a ∷ us) (b, p) order h =
    use_all-Tracked us (use_once (begin a) (b, p))
      (subst (λ e. InOrder e us) (sym (start-eal a (b, p))) order.1) (start-Tracked a b p order.0 h)

-- The static pointer is set as long as the object is there.
use_once-instance_set :
    (u : Use) (s : System) → s.1.instance_set ≡ true → (use_once u s).1.instance_set ≡ true
unfolding init start
use_once-instance_set (initialise (pos n)) s h = h
use_once-instance_set (initialise (negsuc n)) s h = h
use_once-instance_set (begin a) (b, p) h = elim (Bool-cases (a.registered == pos 0)) [
  | inr failed ↦ simp failed h
  | inl registered ↦ (elim (Bool-cases (a.callbacks == pos 0)) [
    | inr failed ↦ simp (registered, failed) h
    | inl set ↦ (elim (Bool-cases (a.started == pos 0)) [
      | inr failed ↦ simp (registered, set, failed) h
      | inl started ↦ simp (registered, set, started) h
    ])
  ])
]

use_all-instance_set :
    (us : List Use) (s : System) → s.1.instance_set ≡ true → (use_all us s).1.instance_set ≡ true
use_all-instance_set [] s h = h
use_all-instance_set (u ∷ us) s h =
    use_all-instance_set us (use_once u s) (use_once-instance_set u s h)

follow_all-client : (t : List Syscall) (h : Held) → follow_all (map client t) h ≡ some h
follow_all-client [] h = refl
follow_all-client (c ∷ t) h = follow_all-client t h

abbrev pub use_made : List Use → Option Backend × Process → Option System
use_made us (none, p) = none
use_made us (some b, p) = some (use_all us (b, p))

-- The constructor, where there is no instance, and then what is called on the object.
abbrev pub used : ℤ → Arguments → Bytes → List Use → Option System
used sock_fd arguments path us = use_made us (construct sock_fd arguments path new_process)

-- What the constructor gives: its calls are those of the client, and no flag is set.
record IsNew (s : System) : Type 0 where
  instance_set : s.1.instance_set ≡ true
  eal : s.0.eal_initialised ≡ false
  tracked : Tracked s

connected-IsNew :
    (sock_fd : ℤ) (arguments : Arguments) (path mode : Bytes)
    → IsNew (create_client sock_fd arguments (blank path mode) (owned new_process))
unfolding Tracked create_client
connected-IsNew sock_fd arguments path mode =
    let t = create_client_socket sock_fd (controller_path (get_string (text "-absn") arguments)) in
    record {
      instance_set = refl;
      eal = refl;
      tracked = (false, follow_all-client t.1 nothing_held);
    }

alone-IsNew : (path mode : Bytes) → IsNew (blank path mode, owned new_process)
unfolding Tracked
alone-IsNew path mode = record { instance_set = refl; eal = refl; tracked = (false, refl) }

used-IsNew :
    (sock_fd : ℤ) (arguments : Arguments) (path : Bytes) (us : List Use)
    → (s : System) × (used sock_fd arguments path us ≡ some (use_all us s)) × IsNew s
unfolding construct
used-IsNew sock_fd arguments path us =
    let mode = get_string (text "-m") arguments in
    let connected = create_client sock_fd arguments (blank path mode) (owned new_process) in
    elim (Bool-cases (has_client mode)) [
      | inl connects ↦ (connected, simp connects, connected-IsNew sock_fd arguments path mode)
      | inr silent ↦ ((blank path mode, owned new_process), simp silent, alone-IsNew path mode)
    ]

destroy-Tracked :
    (s : System) → Tracked s → follow_all (destroy s).calls nothing_held ≡ some nothing_held
unfolding Tracked destroy
destroy-Tracked (b, p) (k, h) = elim (Bool-cases b.driver_registered) [
  | inl driver ↦ (elim (Bool-cases b.eal_initialised) [
    | inl eal ↦ simp (follow_all-++, h, driver, eal, path_refl)
    | inr no_eal ↦ simp (follow_all-++, h, driver, no_eal, path_refl)
  ])
  | inr no_driver ↦ (elim (Bool-cases b.eal_initialised) [
    | inl eal ↦ simp (follow_all-++, h, no_driver, eal)
    | inr no_eal ↦ simp (follow_all-++, h, no_driver, no_eal)
  ])
]

destroy-instance_set : (s : System) → (destroy s).instance_set ≡ false
unfolding destroy
destroy-instance_set (b, p) = refl

-- A VhostController that is constructed where there is none, is used in any way in which `start` is
-- called only where an `init` has succeeded (any number of calls, whatever DPDK answers and also
-- where they throw), and is then destroyed. The driver is registered only where the environment is
-- set up; every call about it has the path that it was registered with, and it is started only with
-- its callbacks set; it is unregistered, under that path, before the cleanup of the environment. In
-- the end neither the driver nor the environment is left, and there is no instance.
pub destroy-used :
    (sock_fd : ℤ) (arguments : Arguments) (path : Bytes) (us : List Use)
    → InOrder false us
    → (s : System) × (used sock_fd arguments path us ≡ some s)
      × (follow_all (destroy s).calls nothing_held ≡ some nothing_held)
      × ((destroy s).instance_set ≡ false)
destroy-used sock_fd arguments path us order =
    let (s, h, new) = used-IsNew sock_fd arguments path us in
    let end = use_all us s in
    (
      end,
      h,
      destroy-Tracked end
          (use_all-Tracked us s (subst (λ e. InOrder e us) (sym new.eal) order) new.tracked),
      destroy-instance_set end,
    )

construct-free :
    (fd : ℤ) (arguments : Arguments) (path : Bytes) (p : Process)
    → p.instance_set ≡ false
    → (b : Backend) × ((construct fd arguments path p).0 ≡ some b)
unfolding construct
construct-free fd arguments path p free =
    let mode = get_string (text "-m") arguments in
    elim (Bool-cases (has_client mode)) [
      | inl connects ↦
          ((create_client fd arguments (blank path mode) (owned p)).0, simp (free, connects))
      | inr silent ↦ (blank path mode, simp (free, silent))
    ]

-- While a VhostController is in use, the constructor of a second one throws and changes nothing, and
-- makes no call; once the first is destroyed, the constructor gives an object again.
pub construct-used :
    (sock_fd fd : ℤ) (arguments : Arguments) (path other : Bytes) (us : List Use)
    → (s : System) × (used sock_fd arguments path us ≡ some s)
      × (construct fd arguments other s.1 ≡ (none, s.1))
      × ((b : Backend) × ((construct fd arguments other (destroy s)).0 ≡ some b))
unfolding construct
construct-used sock_fd fd arguments path other us =
    let (s, h, new) = used-IsNew sock_fd arguments path us in
    let end = use_all us s in
    (
      end,
      h,
      simp (use_all-instance_set us s new.instance_set),
      construct-free fd arguments other (destroy end) (destroy-instance_set end),
    )
