-- ===== src/Vhost/Lifecycle/Follow.antt =====
-- Which calls a VhostController may make to DPDK, and in which order, and what is called on it.
use vtb.Prelude.{
  ◌≡◌, refl, Bool, true, false, List, [], ◌∷◌, ◌++◌, ℤ, pos, int_eq, bytes_eq, ◌==◌, if◌then◌else◌,
  Bytes, Option, none, some, not, ◌&&◌, ◌||◌,
}
use vtb.Prelude.Effects.{Exec, done, raised, lost}
use vtb.Common.Sockets.{negative}
use vtb.Vhost.Lifecycle.{
  DriverCall, client, eal_init, driver_register, enable_features, callback_register, driver_start,
  driver_unregister, eal_cleanup, System, StartAnswers, init, start,
}

-- The driver of a socket that is registered, and whether its callbacks are set.
pub record Driver : Type 0 where
  pub path : Bytes
  pub callbacks : Bool

-- What DPDK holds of a VhostController: the environment, and the driver.
pub record Held : Type 0 where
  pub eal : Bool
  pub driver : Option Driver

abbrev pub nothing_held : Held
nothing_held = record { eal = false; driver = none }

abbrev when : Bool → Held → Option Held
when b h = if b then some h else none

-- The driver is the one of this path; that, and its callbacks are set; there is no other driver.
abbrev is_at : Bytes → Option Driver → Bool
is_at path none = false
is_at path (some d) = d.path == path

abbrev is_ready : Bytes → Option Driver → Bool
is_ready path none = false
is_ready path (some d) = d.path == path && d.callbacks

abbrev pub is_free : Bytes → Option Driver → Bool
is_free path none = true
is_free path (some d) = d.path == path

abbrev is_unregistered : Option Driver → Bool
is_unregistered none = true
is_unregistered (some d) = false

abbrev registered_at : Bytes → Bool → Held → Held
registered_at path callbacks h = record h {
  driver = some (record { path = path; callbacks = callbacks });
}

-- One call. A driver is registered once the environment is set up, and while there is no driver of
-- another path. Each call about a driver is for the path of the one that is registered, and its
-- start needs the callbacks. The cleanup needs the environment, and no driver that is registered.
abbrev pub follow : DriverCall → Held → Option Held
follow (client s) h = some h
follow (eal_init ret) h = some (record h { eal = not (negative ret) || h.eal })
follow (driver_register path ret) h =
    when (h.eal && is_free path h.driver) (if ret == pos 0 then registered_at path false h else h)
follow (enable_features path features) h = when (is_at path h.driver) h
follow (callback_register path ret) h =
    when (is_at path h.driver) (if ret == pos 0 then registered_at path true h else h)
follow (driver_start path ret) h = when (is_ready path h.driver) h
follow (driver_unregister path) h = when (is_at path h.driver) (record h { driver = none })
follow eal_cleanup h = when (h.eal && is_unregistered h.driver) (record h { eal = false })

abbrev pub and_then : Option Held → (Held → Option Held) → Option Held
and_then none f = none
and_then (some h) f = f h

-- All the calls. `none` when one of them is not allowed.
abbrev pub follow_all : List DriverCall → Held → Option Held
follow_all [] h = some h
follow_all (c ∷ cs) h = and_then (follow c h) (follow_all cs)

-- What is done with the controller, with the answers; an exception is caught by the caller.
pub data Use : Type 0 where
  initialise : ℤ → Use
  begin : StartAnswers → Use

abbrev pub state_after : System → Exec System (Unit {0}) → System
state_after s (done x t) = t
state_after s (raised e t) = t
state_after s lost = s

abbrev pub use_once : Use → System → System
use_once (initialise ret) s = state_after s (init ret s)
use_once (begin a) s = state_after s (start a s)

abbrev pub use_all : List Use → System → System
use_all [] s = s
use_all (u ∷ us) s = use_all us (use_once u s)

pub follow_all-++ :
    (cs ds : List DriverCall) (h : Held)
    → follow_all (cs ++ ds) h ≡ and_then (follow_all cs h) (follow_all ds)
follow_all-++ [] ds h = refl
follow_all-++ (c ∷ cs) ds h =
    elim (follow c h)
      as (λ r.
        and_then r (follow_all (cs ++ ds))
        ≡ and_then (and_then r (follow_all cs)) (follow_all ds)) [
          | none ↦ refl
          | some h' ↦ follow_all-++ cs ds h'
        ]

-- `start` is called only where an `init` has succeeded; `eal` says if one has.
abbrev pub InOrder : Bool → List Use → Type 0
InOrder eal [] = Unit {0}
InOrder eal (initialise ret ∷ us) = InOrder (not (negative ret) || eal) us
InOrder eal (begin a ∷ us) = (eal ≡ true) × InOrder eal us
